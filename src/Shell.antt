-- ===== src/Shell.antt =====
-- The pages that open and end a login: app/login/page.tsx, the last step of app/signup/page.tsx,
-- app/complete-profile/page.tsx, components/dashboard/dashboard-shell.tsx and
-- pin-modal.tsx, and the trackers of components/auth.
pub mod Endings
use secure_vault.Json.{Json, str, obj, end, field}
use secure_vault.Prelude.{
  ℕ, ◌*◌, String, Bool, true, false, Option, none, some, List, [], ◌∷◌, ◌==◌, string_eq, nat_eq,
  not, ◌&&◌, ◌||◌, ltb, leb, if◌then◌else◌, is_empty, chars, trim, ◌&◌, ◌+◌,
}
use secure_vault.Session.Data.{
  User, Browser, Outcome, done, threw, Action, ◌>>=◌, ◌>>◌, return, after,
}
use secure_vault.Session.Keys.{inactivity_key}
use secure_vault.Session.Login.{set_logged_in, clear_pin_verified_session, is_pin_verified_session}
use secure_vault.Session.LoginState.{establish}
use secure_vault.Session.Users.{
  save_user, is_logged_in, set_current_user_id, get_user, is_set, as_text,
}
use secure_vault.Storage.{remove_item, get_item}

pub data Route : Type 0 where
  home login_page dashboard verify_email complete_profile : Route

-- The body of an accepted login, as far as the pages read it: a second factor, or the user with the source.
pub data LoginData : Type 0 where
  two_factor : Option String → LoginData
  -- `data.user` undefined: to read its id throws.
  no_user : LoginData
  logged : User → Bool → LoginData

-- What the await brings: an exception, or a reply whose body is read, with its `ok`. A refusal's body has an `error`, and
-- may have the fields of the others too.
pub data Answer : Type 0 where
  thrown : String → Answer
  refused : Option String → LoginData → Answer
  accepted : LoginData → Answer

-- Where a handler leaves the visitor: on the page with a message, at the question for the second factor, or on
-- the way elsewhere.
pub data Landing : Type 0 where
  stays : Option String → Landing
  asks_token : Option String → Landing
  goes : Route → Landing

-- `error.message || fallback`
abbrev pub or_message : Option String → String → Option String
or_message none m = some m
or_message (some e) m = if is_empty e then some m else some e

-- What an exception in the `try` does: the message of the platform is not known.
abbrev pub landing_of : {A : Type 0} → Landing → Outcome A → Browser × Landing
landing_of l (done a b) = (b, l)
landing_of l (threw b) = (b, stays none)

-- `setCurrentUserId(data.user.id); saveUser(data.user); setLoggedIn(true); router.push(route)`
unfoldable pub enter : User → ℕ → Route → Browser → Browser × Landing
unfolding establish
enter user now route b = landing_of (goes route) (establish user now b)

unfoldable pub handle_login_refusal : String → String → Option String
handle_login_refusal email password =
    if is_empty email || is_empty password then some "Please fill in all fields" else none

-- `handleLogin` of the login page, from its answer on.
unfoldable pub handle_login : Answer → ℕ → Browser → Browser × Landing
unfolding enter
handle_login (thrown m) now b = (b, stays (or_message (some m) "Invalid credentials"))
handle_login (refused e body) now b =
    (b, stays (or_message (or_message e "Login failed") "Invalid credentials"))
handle_login (accepted (two_factor id)) now b = (b, asks_token id)
handle_login (accepted no_user) now b = (b, stays none)
handle_login (accepted (logged user is_signup)) now b = enter user now dashboard b

-- `handle2FAVerify`; this answer has no `twoFactorRequired` that is read.
unfoldable pub handle_2fa_verify : Answer → ℕ → Browser → Browser × Landing
unfolding enter
handle_2fa_verify (thrown m) now b = (b, stays (some m))
handle_2fa_verify (refused e body) now b = (b, stays (or_message e "Invalid 2FA token"))
handle_2fa_verify (accepted (logged user is_signup)) now b = enter user now dashboard b
handle_2fa_verify (accepted _) now b = (b, stays none)

-- The route of `handleGoogleSuccess` on the login page, and on the signup page.
unfoldable pub google_login_route : User → Bool → Route
google_login_route user is_signup =
    if is_signup
    then complete_profile
    else if not user.is_profile_complete
    then complete_profile
    else dashboard

unfoldable pub google_signup_route : User → Bool → Route
google_signup_route user is_signup =
    if is_signup || not user.is_profile_complete then complete_profile else dashboard

unfoldable pub handle_google : (User → Bool → Route) → Answer → ℕ → Browser → Browser × Landing
unfolding enter
handle_google route (thrown m) now b = (b, stays (some m))
handle_google route (refused e body) now b =
    (b, stays (or_message e "Google authentication failed"))
handle_google route (accepted (logged user is_signup)) now b =
    enter user now (route user is_signup) b
handle_google route (accepted _) now b = (b, stays none)

-- `handleStep3` of the signup page.
unfoldable pub handle_step_3 : Answer → ℕ → Browser → Browser × Landing
unfolding enter
handle_step_3 (thrown m) now b = (b, stays (or_message (some m) "Something went wrong"))
handle_step_3 (refused e body) now b =
    (b, stays (or_message (or_message e "Signup failed") "Something went wrong"))
handle_step_3 (accepted (logged user is_signup)) now b = enter user now dashboard b
handle_step_3 (accepted _) now b = (b, stays none)

-- The page of complete-profile, when it is opened.
unfoldable pub open_complete_profile : Browser → Outcome (Option Route)
open_complete_profile b =
    if not (is_logged_in b) then done (some login_page) b else elim (get_user b) [
      | threw b' ↦ threw b'
      | done none b' ↦ done (some login_page) b'
      | done (some u) b' ↦ done (if u.is_profile_complete then some dashboard else none) b'
    ]

pub record Profile : Type 0 where
  pub full_name : String
  pub phone : String
  pub dob : String
  pub pin : String
  pub confirm_pin : String
  pub agreed : Bool

-- The guards of its `handleSubmit`.
unfoldable pub profile_refusal : Profile → Option String
profile_refusal p =
    if is_empty (trim p.full_name)
    then some "Full name is required"
    else if is_empty (trim p.phone) || ltb (chars p.phone) 10
    then some "Please enter a valid phone number"
    else if is_empty p.dob
    then some "Date of birth is required"
    else if is_empty p.pin || ltb (chars p.pin) 4
    then some "Security PIN must be at least 4 digits"
    else if not (p.pin == p.confirm_pin)
    then some "PINs do not match"
    else if not p.agreed
    then some "Please agree to the terms to continue"
    else none

-- The answer to it: the user that the server gives back is saved.
unfoldable pub on_profile : Answer → Browser → Browser × Landing
on_profile (thrown m) b = (b, stays (some m))
on_profile (refused e body) b = (b, stays (or_message e "Failed to save profile"))
on_profile (accepted (logged user is_signup)) b = landing_of (goes dashboard) (save_user user b)
on_profile (accepted _) b = (b, goes dashboard)

-- The dashboard's frame, when it is opened: where it sends the visitor, the user that it shows, and
-- whether the PIN is verified. Only the last `router.push` counts.
pub record Frame : Type 0 where
  pub route : Option Route
  pub user : Option User
  pub pin_verified : Bool

unfoldable pub frame_route : Option User → Option Route
frame_route none = none
frame_route (some u) =
    if not u.is_verified
    then some verify_email
    else if not u.is_profile_complete
    then some complete_profile
    else none

unfoldable pub open_dashboard : ℕ → Action Frame
unfolding frame_route
open_dashboard now b =
    if not (is_logged_in b)
    then done (record { route = some login_page; user = none; pin_verified = false }) b
    else (do
      u ← get_user
      verified ← is_pin_verified_session now
      return (record { route = frame_route u; user = u; pin_verified = verified }))
        b

-- `handleLogout` of the dashboard's frame, after the request, whose failure is only logged.
unfoldable pub dashboard_logout : ℕ → Action Route
dashboard_logout now = do set_logged_in false now; clear_pin_verified_session; return home

-- `logout` of the session timeout tracker.
unfoldable pub session_timeout_ms : ℕ
session_timeout_ms = 60 * 60 * 1000

unfoldable pub timeout_logout : ℕ → Action Route
timeout_logout now = do set_logged_in false now; set_current_user_id ""; return login_page

-- `resetTimeout()` at the time `now`: when the timer is to fire.
unfoldable pub reset_timeout : ℕ → Browser → Option ℕ
unfolding session_timeout_ms
reset_timeout now b = if is_logged_in b then some (now + session_timeout_ms) else none

-- `checkStatus` of the inactivity tracker: the browser, and whether the indicator is shown.
unfoldable pub check_status : Browser → Browser × Bool
check_status b =
    if is_logged_in b
    then (record b { local = remove_item inactivity_key b.local }, false)
    else (b, is_set (as_text (get_item inactivity_key b.local)))
