-- ===== src/Examples/Sessions.antt =====
-- Examples for lib/store.ts, lib/admin-store.ts and lib/auth-utils.ts.
use package.text.Mathlib.Text.{starts_with}
use secure_vault.Admin.{admin_is_logged_in, get_admin_user}
use secure_vault.Admin.Separation.{clear_auth_state-admin}
use secure_vault.Auth.{clear_auth_state}
use secure_vault.Auth.Clearing.{get_item-clear_auth_state}
use secure_vault.Examples.{
  visitor, visitor-IsValid, owner, seated, seated-IsValid, seated-current, get_item, Browser,
  get_current_user_id, IsValid, text, String,
}
use secure_vault.Prelude.{
  trim, to_lower_case, String, true, false, none, some, refl, ◌≡◌, ◌≢◌, [], ◌∷◌, eq_iff, arith,
  if◌then◌else◌, leb, ◌+◌,
}
use secure_vault.Prelude.Clock.{to_iso_string}
use secure_vault.Session.Data.{◌>>◌, done, after}
use secure_vault.Session.Histories.{run, saves, flags, run-IsValid}
use secure_vault.Session.Keys.{user_key, user_suffix, pin_session_key, logout_suffix}
use secure_vault.Session.Login.{
  set_pin_verified_session, set_logged_in, is_pin_verified_session, pin_session_timeout_ms,
  get_logout_time,
}
use secure_vault.Session.LoginState.{establish, entered, establish_logs_in}
use secure_vault.Session.LogoutState.{logout_effect}
use secure_vault.Session.PinSession.{pinned, is_pin_verified_session-set_pin_verified_session}
use secure_vault.Session.RoundTrip.{
  get_user_by_email-save_user, get_user-save_user, save_user_keeps_others,
}
use secure_vault.Session.Users.{
  save_user, registry_email, get_user_by_email, get_user, is_logged_in,
}
use secure_vault.Session.Valid.{registry_of, user_at}
use secure_vault.Session.Valid.Login.{logged_out, flagged, end_pin_session}

run-IsValid_example :
    (b' : Browser) × (run (saves owner ∷ flags true 5 ∷ flags false 9 ∷ []) visitor ≡ done tt b')
    × IsValid b'
run-IsValid_example =
    run-IsValid (saves owner ∷ flags true 5 ∷ flags false 9 ∷ []) visitor visitor-IsValid

establish_logs_in_example :
    (establish owner 5 visitor ≡ done tt (entered owner 5 visitor))
    × (is_logged_in (entered owner 5 visitor) ≡ true)
    × (get_user (entered owner 5 visitor)
        ≡ done (some (record owner { last_active = to_iso_string 5 })) (entered owner 5 visitor))
    × (get_logout_time (entered owner 5 visitor) ≡ none)
    × IsValid (entered owner 5 visitor)
establish_logs_in_example = establish_logs_in owner 5 visitor visitor-IsValid refl

logout_effect_example :
    let b' = logged_out 9 "u1" (flagged false seated) in
    (set_logged_in false 9 seated ≡ done tt b')
    × (is_logged_in b' ≡ false)
    × (get_current_user_id b' ≡ none)
    × (get_item pin_session_key b'.session ≡ none)
    × (get_item (user_key "u1" logout_suffix) b'.local ≡ some (text (to_iso_string 9)))
    × ((a : String) → user_at a b' ≡ user_at a seated)
logout_effect_example = logout_effect 9 "u1" seated seated-IsValid seated-current refl

get_user-save_user_example :
    (save_user owner >> get_user) visitor ≡ done (some owner) (after (save_user owner visitor))
get_user-save_user_example = get_user-save_user owner visitor visitor-IsValid refl

same_address : registry_email " asha@vault.io " ≡ registry_email "Asha@Vault.IO"
unfolding registry_email trim to_lower_case
same_address = refl

get_user_by_email-save_user_example :
    (save_user owner >> get_user_by_email " asha@vault.io ") visitor
    ≡ done (some owner) (after (save_user owner visitor))
get_user_by_email-save_user_example =
    get_user_by_email-save_user owner " asha@vault.io " visitor visitor-IsValid refl same_address

other_id : owner.id ≢ "u2"
other_id = ground (arith, eq_iff "u1" "u2")

other_address : registry_email "Asha@Vault.IO" ≢ registry_email "ravi@vault.io"
unfolding registry_email trim to_lower_case
other_address = ground (arith, eq_iff "asha@vault.io" "ravi@vault.io")

save_user_keeps_others_example :
    (save_user owner visitor ≡ done tt (after (save_user owner visitor)))
    × (get_item (user_key "u2" user_suffix) (after (save_user owner visitor)).local
        ≡ get_item (user_key "u2" user_suffix) visitor.local)
    × (get_item (registry_email "ravi@vault.io") (registry_of (after (save_user owner visitor)))
        ≡ get_item (registry_email "ravi@vault.io") (registry_of visitor))
save_user_keeps_others_example =
    save_user_keeps_others owner "u2" "ravi@vault.io" visitor visitor-IsValid other_id other_address

pin_session_example : (set_pin_verified_session 1000 >> is_pin_verified_session 2000) visitor ≡ (
    if leb 2000 (1000 + pin_session_timeout_ms)
    then done true (pinned 1000 visitor)
    else done false (end_pin_session (pinned 1000 visitor)))
pin_session_example = is_pin_verified_session-set_pin_verified_session 1000 2000 visitor refl

get_item-clear_auth_state_example :
    (get_item "sv_current_user_id" (clear_auth_state seated).local ≡ (
      if starts_with "sv_current_user_id" "sv_"
      then none
      else get_item "sv_current_user_id" seated.local))
    × ((clear_auth_state seated).session ≡ seated.session)
get_item-clear_auth_state_example = get_item-clear_auth_state "sv_current_user_id" seated refl

abbrev owner_key_id : String
owner_key_id = "admin"

not_admin : owner.id ≢ "admin"
not_admin = ground (arith, eq_iff "u1" "admin")

clear_auth_state-admin_example :
    (admin_is_logged_in (clear_auth_state seated) ≡ false)
    × (get_admin_user (clear_auth_state seated) ≡ done none (clear_auth_state seated))
clear_auth_state-admin_example = clear_auth_state-admin seated refl
