-- ===== src/Settings.antt =====
-- The settings of app/dashboard/settings/page.tsx: the profile, the password, the PIN, the inactivity period and
-- the second factor, with what each writes to the browser's store. An inactivity period is a number of months;
-- that of two minutes, 0.000045 months, is `test_mode`.
pub mod InStep
pub mod Pin
use secure_vault.Prelude.{
  ℕ, String, Bool, true, false, Option, none, some, List, ◌&◌, ◌==◌, if◌then◌else◌, string_eq, keep,
  is_empty, ◌||◌, not, ltb, chars,
}
use secure_vault.Prelude.Decimal.{to_string}
use secure_vault.Replies.{Reply, agreed, refused, broken, error_or}
use secure_vault.Session.Data.{User, Browser, Action, Outcome, done, threw}
use secure_vault.Session.Users.{save_user, get_user}

pub data Period : Type 0 where
  test_mode : Period
  months : ℕ → Period

-- What a toast says: a text of the page or of the server, or that of an exception of the store.
pub data Toast : Type 0 where
  said : String → Toast
  exception : Toast

pub record Settings : Type 0 where
  pub user : Option User
  pub full_name : String
  pub phone : String
  pub email : String
  pub old_password : String
  pub new_password : String
  pub confirm_new_password : String
  pub old_pin : String
  pub new_pin : String
  pub confirm_new_pin : String
  pub selected_period : Period
  pub show_2fa_setup : Bool
  pub qr_code : String
  pub two_factor_secret : String
  pub setup_token : String
  pub toast : Option Toast

abbrev pub toasted : String → Settings → Settings
toasted text s = record s { toast = some (said text) }

-- `useEffect`: the fields of the user that `getUser()` gives.
unfoldable pub fill_in : Option User → Settings → Settings
fill_in none s = s
fill_in (some u) s = record s {
  user = some u;
  full_name = u.full_name;
  phone = u.phone;
  email = u.email;
  selected_period = months u.inactivity_period;
}

-- `saveUser(u); setUser(u)` and what follows, in the `try`: an exception of the store is shown, and what
-- follows is left out.
unfoldable pub keep_user : User → (Settings → Settings) → Settings → Action Settings
keep_user u next s b = elim (save_user u b) [
  | done unit c ↦ done (next (record s { user = some u })) c
  | threw c ↦ done (record s { toast = some exception }) c
]

-- The tests of `handleProfileUpdate`; none when the request is sent.
unfoldable pub profile_error : Settings → Option String
profile_error s =
    if is_empty s.full_name || is_empty s.phone || is_empty s.email
    then some "Please fill in all fields"
    else none

-- The rest of `handleProfileUpdate`.
unfoldable pub profile_reply : Reply User → Settings → Action Settings
unfolding keep_user
profile_reply (agreed u) s b = keep_user u (toasted "Profile updated successfully!") s b
profile_reply (refused e) s b = done (toasted (error_or "Failed to update profile" e) s) b
profile_reply (broken msg) s b = done (toasted msg s) b

unfoldable pub password_error : Settings → Option String
password_error s =
    if is_empty s.old_password || is_empty s.new_password || is_empty s.confirm_new_password
    then some "Please fill in all password fields"
    else if ltb (chars s.new_password) 8
    then some "New password must be at least 8 characters"
    else if not (s.new_password == s.confirm_new_password)
    then some "Passwords do not match"
    else none

unfoldable pub password_reply : Reply Unit → Settings → Settings
password_reply (agreed unit) s =
    toasted "Password changed successfully!"
      (record s { old_password = ""; new_password = ""; confirm_new_password = "" })
password_reply (refused e) s = toasted (error_or "Failed to change password" e) s
password_reply (broken msg) s = toasted msg s

-- The tests of `handlePinChange`.
unfoldable pub pin_error : Settings → Option String
pin_error s =
    if is_empty s.old_pin || is_empty s.new_pin || is_empty s.confirm_new_pin
    then some "Please fill in all PIN fields"
    else if ltb (chars s.new_pin) 4
    then some "New PIN must be at least 4 digits"
    else if not (s.new_pin == s.confirm_new_pin)
    then some "New PINs do not match"
    else none

abbrev pub pin_changed : Settings → Settings
pin_changed s =
    toasted "Security PIN changed successfully!"
      (record s { old_pin = ""; new_pin = ""; confirm_new_pin = "" })

-- The rest of `handlePinChange`, for the user `u` and the PIN that was sent.
unfoldable pub pin_reply : User → String → Reply Unit → Settings → Action Settings
unfolding keep_user
pin_reply u pin (agreed unit) s b = keep_user (record u { pin = pin }) pin_changed s b
pin_reply u pin (refused e) s b = done (toasted (error_or "Failed to change PIN" e) s) b
pin_reply u pin (broken msg) s b = done (toasted msg s) b

abbrev pub period_text : Period → String
period_text test_mode = "Inactivity period set to 2 Minutes (Test Mode)"
period_text (months n) = "Inactivity period set to " & to_string n & " months"

-- `handleInactivityChange` up to its request.
unfoldable pub choose_period : Period → Settings → Settings
choose_period p s = elim s.user [ none ↦ s | some u ↦ record s { selected_period = p } ]

unfoldable pub period_reply : Period → Reply User → Settings → Action Settings
unfolding keep_user
period_reply p (agreed u) s b = keep_user u (toasted (period_text p)) s b
period_reply p (refused e) s b =
    done (toasted (error_or "Failed to update inactivity period" e) s) b
period_reply p (broken msg) s b = done (toasted msg s) b

-- What a handler does before its request: nothing without a user, a toast when a test fails, or the request
-- for its user.
pub data Tested : Type 0 where
  does_nothing : Tested
  complains : String → Tested
  sends : User → Tested

abbrev pub tested_with : Option User → Option String → Tested
tested_with none e = does_nothing
tested_with (some u) none = sends u
tested_with (some u) (some text) = complains text

unfoldable pub tested : (Settings → Option String) → Settings → Tested
tested error s = tested_with s.user (error s)

-- What the setup of the second factor brings.
pub record TwoFactor : Type 0 where
  pub qr_code_url : String
  pub secret : String

unfoldable pub setup_reply : Reply TwoFactor → Settings → Settings
setup_reply (agreed t) s =
    toasted "2FA setup initiated. Scan the QR code."
      (record s { qr_code = t.qr_code_url; two_factor_secret = t.secret; show_2fa_setup = true })
setup_reply (refused e) s = toasted (error_or "Failed to initiate 2FA setup" e) s
setup_reply (broken msg) s = toasted msg s

unfoldable pub verify_error : Settings → Option String
verify_error s = if is_empty s.setup_token then some "Please enter the verification token" else none

abbrev pub two_factor_enabled : Settings → Settings
two_factor_enabled s =
    toasted "Two-Factor Authentication enabled successfully!"
      (record s { show_2fa_setup = false; setup_token = "" })

-- The rest of `handle2FAVerify`, for the user `u` of the page when it was called: without a user the page shows
-- nothing (`if (!user) return null`), and the handler is not called.
unfoldable pub verify_reply : User → Reply Unit → Settings → Action Settings
unfolding keep_user
verify_reply u (agreed unit) s b =
    keep_user (record u { is_two_factor_enabled = true }) two_factor_enabled s b
verify_reply u (refused e) s b = done (toasted (error_or "Verification failed" e) s) b
verify_reply u (broken msg) s b = done (toasted msg s) b

-- `handleRevokeSession`, on the ids of the sessions.
unfoldable pub revoke_session : String → List String → List String
revoke_session i ids = keep (λ j. not (j == i)) ids
