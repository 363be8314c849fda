-- ===== src/Examples/Calls.antt =====
-- Examples for lib/api.ts, lib/admin-api.ts and the request functions.
use secure_vault.Examples.{idle, waiting_client, seated-IsValid, String}
use secure_vault.Fetch.{
  start, answer, settle, granted, denied, Event, Reply, waiting_calls, step, run, Client, on_settle,
  after_answer, resume_calls, resume,
}
use secure_vault.Fetch.Errors.{
  normalized_data, extract_error_message, spread, detail_message, message_of, any_message,
}
use secure_vault.Fetch.Invariant.{Inv, started-step, run-Inv}
use secure_vault.Fetch.Completion.{run-AtRest, idle-no_event, AtRest}
use secure_vault.Session.Data.{Browser}
use secure_vault.Fetch.Progress.{pending, work, pending-step, settled}
use secure_vault.Fetch.User.{is_auth_endpoint, expire_user, user_step}
use secure_vault.Fetch.User.Expiry.{settle-denied_logs_out}
use secure_vault.Json.{get_field, Fields, str, set_field, obj, field, arr, end, cons, nil}
use secure_vault.Prelude.{false, none, some, refl, ◌≡◌, ◌≢◌, ◌<◌, [], ◌∷◌, eq_iff, arith, List, ◌≤◌}
use secure_vault.Requests.{Page}
use secure_vault.Session.Users.{is_logged_in}

abbrev unauthorized : Reply
unauthorized = record { status = 401; body = none }

abbrev story : List Event
story =
    start "/vault/assets"
    ∷ start "/vault/nominees"
    ∷ answer 0 unauthorized
    ∷ answer 1 unauthorized
    ∷ settle denied
    ∷ []

idle-Inv : Inv idle
idle-Inv = record { flag = refl; calls = tt }

waiting_client-Inv : Inv waiting_client
waiting_client-Inv = record { flag = refl; calls = ((refl, refl, λ e. cc), tt) }

run-Inv_example : Inv (run is_auth_endpoint (expire_user 9) story idle)
run-Inv_example = run-Inv is_auth_endpoint (expire_user 9) story idle idle-Inv

started-step_example :
    (step is_auth_endpoint (expire_user 9) (start "/vault/nominees") waiting_client).started
    ≡ waiting_client.started
started-step_example =
    started-step is_auth_endpoint (expire_user 9) (start "/vault/nominees") waiting_client refl

pending-step_example :
    pending (step is_auth_endpoint (expire_user 9) (settle granted) waiting_client)
    < pending waiting_client
pending-step_example =
    pending-step is_auth_endpoint (expire_user 9) (settle granted) waiting_client
      (settled granted refl)

abbrev ended_client : Client Browser
ended_client = run is_auth_endpoint (expire_user 9) (settle denied ∷ []) waiting_client

ended_idle : pending ended_client ≡ 0
unfolding pending work run step on_settle after_answer resume_calls resume
ended_idle = refl

run-AtRest_example : (1 ≤ pending waiting_client) × AtRest ended_client
run-AtRest_example =
    run-AtRest is_auth_endpoint (expire_user 9) (settle denied ∷ []) waiting_client
      waiting_client-Inv (settled denied refl, tt)
      (idle-no_event is_auth_endpoint (expire_user 9) ended_client ended_idle)

one_waits : 1 ≤ waiting_calls waiting_client.promise waiting_client.calls
unfolding waiting_calls
one_waits = omega arith

settle-denied_logs_out_example :
    is_logged_in (user_step 9 (settle denied) waiting_client).store ≡ false
settle-denied_logs_out_example =
    settle-denied_logs_out 9 waiting_client seated-IsValid refl one_waits

abbrev invalid : Fields
invalid = field "msg" (str "field required") end

abbrev details : Fields
details = field "detail" (arr (cons (obj invalid) nil)) end

abbrev plain : Fields
plain = field "detail" (str "Invalid PIN") end

abbrev nested : Fields
nested = field "detail" (obj invalid) end

detail_plain : get_field "detail" plain ≡ some (str "Invalid PIN")
unfolding get_field
detail_plain = refl

msg_invalid : get_field "msg" invalid ≡ some (str "field required")
unfolding get_field
msg_invalid = refl

detail_details : get_field "detail" details ≡ some (arr (cons (obj invalid) nil))
unfolding get_field
detail_details = refl

detail_nested : get_field "detail" nested ≡ some (obj invalid)
unfolding get_field
detail_nested = refl

abbrev shown : Fields
shown = set_field "error" (str "Invalid PIN") plain

plain_normalized : normalized_data (some (obj plain)) ≡ some shown
unfolding normalized_data extract_error_message spread set_field get_field detail_message message_of
    any_message
plain_normalized = refl

abbrev document_key : String
document_key = "detail"

not_error : document_key ≢ "error"
not_error = ground (arith, eq_iff document_key "error")

abbrev second_page : Page
second_page = record { search = some "lock"; skip = some 50; limit = some 25 }
