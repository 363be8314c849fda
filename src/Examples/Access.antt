-- ===== src/Examples/Access.antt =====
-- Examples for the settings, the nominee's claim, the grants and the heartbeat.
use secure_vault.Examples.{owner, seated, seated-IsValid}
use secure_vault.Heartbeat.{heartbeats, tick}
use secure_vault.Heartbeat.Silence.{heartbeats-silent, logged_out, events_of}
use secure_vault.Json.{str}
use secure_vault.NomineeClaim.{
  NomineeDetails, certificate, code_ok, found, new_page, step_ok, step_refused, step_failed,
  submit_claim, load_details, show_details, verify_otp_reply, send_otp_reply,
}
use secure_vault.NomineeClaim.Gate.{
  PageEvent, loaded, proceed, otp_answer, verify_answer, page_run, page_step, opens,
  certificate-opens,
}
use secure_vault.NomineeClaim.Order.{submit_claim-InOrder, InOrder}
use secure_vault.PinModal.{PinEvent, typed, verify, pin_requests}
use secure_vault.PinModal
use secure_vault.Prelude.{true, false, none, some, List, [], ◌∷◌, ◌≡◌, refl, arith, All, any, drop}
use secure_vault.Replies.{agreed, refused}
use secure_vault.Settings.{Settings, tested, pin_error, sends, months, test_mode}
use secure_vault.Settings.InStep.{
  Change, pin_answer, profile_answer, period_chosen, verify_answer, changes, SameUser, StaysSame,
  changes-StaysSame, get_user-saved,
}
use secure_vault.Settings.InStep
use secure_vault.Settings.Pin.{tested-pin_requests, Differs}
use secure_vault.ZeroTrust.{
  Grant, GrantPage, GrantEvent, click_approve, click_revoke, fill_form, submit, timer, grant_run,
  revoked, active_elevated,
}
use secure_vault.ZeroTrust.Revocation.{grant_run-IsRevoked, IsRevoked, lost_revocation}
use secure_vault.Session.Valid.Save.{saved, saved-IsValid}

abbrev settings : Settings
settings = record {
  user = some owner;
  full_name = "Asha Rao";
  phone = "9876543210";
  email = "Asha@Vault.IO";
  old_password = "";
  new_password = "";
  confirm_new_password = "";
  old_pin = "4021";
  new_pin = "402196";
  confirm_new_pin = "402196";
  selected_period = months 6;
  show_2fa_setup = false;
  qr_code = "";
  two_factor_secret = "";
  setup_token = "";
  toast = none;
}

abbrev answers : List Change
answers =
    pin_answer owner "402196" (agreed tt)
    ∷ period_chosen test_mode
    ∷ profile_answer (refused none)
    ∷ InStep.verify_answer owner (agreed tt)
    ∷ []

owner_in_step : SameUser settings (saved owner seated)
owner_in_step = record {
  valid = saved-IsValid owner seated seated-IsValid;
  same = get_user-saved owner seated seated-IsValid refl;
}

changes-StaysSame_example : StaysSame (changes answers settings (saved owner seated))
changes-StaysSame_example =
    changes-StaysSame answers settings (saved owner seated) (refl, (tt, (tt, (refl, tt))))
      owner_in_step

abbrev typing : List PinEvent
typing = typed 0 "4" ∷ typed 1 "0" ∷ typed 2 "2" ∷ typed 3 "1" ∷ verify (some "u1") ∷ []

tested-pin_requests_example :
    (tested pin_error settings ≡ sends owner)
    × All (Differs settings.new_pin) (pin_requests typing PinModal.new_dialog)
tested-pin_requests_example =
    tested-pin_requests settings owner typing refl refl (omega arith) refl
      (omega arith, (omega arith, (omega arith, (omega arith, (tt, tt)))))

abbrev nominee : NomineeDetails
nominee = record {
  name = "Ravi Rao";
  masked_email = "r***@vault.io";
  email = "ravi@vault.io";
  relationship = some "Child";
  owner_name = none;
  masked_owner_email = none;
  owner_email = none;
}

abbrev visit : List PageEvent
visit =
    loaded (found nominee none) ∷ proceed ∷ otp_answer nominee code_ok ∷ verify_answer code_ok ∷ []

visit_ends : (page_run "t1" visit new_page).flow_step ≡ certificate
unfolding page_run page_step load_details show_details send_otp_reply verify_otp_reply
visit_ends = refl

certificate-opens_example : any opens visit ≡ true
certificate-opens_example = certificate-opens "t1" visit visit_ends

submit_claim-InOrder_example :
    InOrder
      (step_refused (some (str "A claim already exists")))
      step_ok
      step_failed
      (submit_claim "t1" (step_refused (some (str "A claim already exists"))) step_ok step_failed)
submit_claim-InOrder_example =
    submit_claim-InOrder "t1" (step_refused (some (str "A claim already exists"))) step_ok
      step_failed

abbrev grant : Grant
grant = record {
  grant_id = "jit_1";
  requester_id = "eng_alexander_vault";
  scope = "FORENSIC_READ";
  justification = "Audit";
  duration_minutes = 15;
  status = active_elevated;
  expires_at = none;
  created_at = "2026-01-01T00:00:00.000Z";
}

abbrev grant_page : GrantPage
grant_page = record {
  grants = grant ∷ [];
  show_request_modal = true;
  new_scope = "KMS_MAINTENANCE";
  new_justification = "Maintenance";
  new_duration = 15;
  is_submitting = false;
  waiting = [];
}

abbrev revoked_page : GrantPage
revoked_page = record grant_page { grants = record grant { status = revoked } ∷ [] }

abbrev clicks : List GrantEvent
clicks = click_approve 1790000000000 "jit_1" ∷ fill_form "KMS_MAINTENANCE" "Keys" 30 ∷ submit ∷ []

grant_run-IsRevoked_example : IsRevoked "jit_1" (grant_run clicks revoked_page)
grant_run-IsRevoked_example =
    grant_run-IsRevoked "jit_1" clicks revoked_page (tt, (tt, (tt, tt))) ((λ e. refl), tt)

lost_revocation_example :
    drop 1
      (grant_run (submit ∷ click_revoke "jit_1" ∷ timer 1790000000000 "a1" ∷ []) grant_page).grants
    ≡ grant_page.grants
lost_revocation_example = lost_revocation "jit_1" 1790000000000 "a1" grant_page refl refl refl

heartbeats-silent_example :
    any
      (λ b. b)
      (heartbeats
        (tick logged_out ∷ events_of "u1" (true ∷ false ∷ []))
        (record { interval_set = true; last_logged = some "u1" }))
    ≡ false
heartbeats-silent_example = heartbeats-silent "u1" (true ∷ false ∷ []) refl
