-- ===== src/Session/Login.antt =====
-- `setLoggedIn` and the PIN session of lib/store.ts. `now` is Date.now(), in milliseconds.
use secure_vault.Prelude.{
  ℕ, ◌*◌, ◌+◌, String, Bool, true, false, Option, none, some, ltb, if◌then◌else◌, is_empty,
}
use secure_vault.Prelude.Clock.{to_iso_string}
use secure_vault.Prelude.Decimal.{to_string, parse_int, ParsedInt, nan, nonneg, negative}
use secure_vault.Session.Data.{
  User, text, inactivity_doc, Browser, done, Action, ◌>>=◌, ◌>>◌, return,
}
use secure_vault.Session.Keys.{
  current_user_id_key, is_logged_in_key, inactivity_key, pin_session_key, user_key, logout_suffix,
}
use secure_vault.Session.Users.{
  put_local, drop_local, as_text, get_current_user_id, get_user, save_user,
}
use secure_vault.Storage.{get_item, set_item, remove_item}

-- `PIN_SESSION_TIMEOUT_MS`
abbrev pub pin_session_timeout_ms : ℕ
pin_session_timeout_ms = 15 * 60 * 1000

-- `clearPinVerifiedSession()`
unfoldable pub clear_pin_verified_session : Action (Unit {0})
clear_pin_verified_session b =
    if b.window
    then done tt (record b { session = remove_item pin_session_key b.session })
    else done tt b

-- `setPinVerifiedSession()`
unfoldable pub set_pin_verified_session : ℕ → Action (Unit {0})
set_pin_verified_session now b =
    if b.window
    then done tt (record b { session = set_item pin_session_key (text (to_string now)) b.session })
    else done tt b

-- `Date.now() - timestamp > PIN_SESSION_TIMEOUT_MS`
abbrev is_expired : ℕ → ParsedInt → Bool
is_expired now nan = false
is_expired now (nonneg t) = ltb (t + pin_session_timeout_ms) now
is_expired now (negative t) = ltb pin_session_timeout_ms (now + t)

unfoldable pub pin_verdict : ℕ → ParsedInt → Action Bool
unfolding clear_pin_verified_session
pin_verdict now nan = return false
pin_verdict now t =
    if is_expired now t then (do clear_pin_verified_session; return false) else return true

unfoldable pub pin_text_verdict : ℕ → Option String → Action Bool
unfolding pin_verdict
pin_text_verdict now none = return false
pin_text_verdict now (some s) = if is_empty s then return false else pin_verdict now (parse_int s)

-- `isPinVerifiedSession()`
unfoldable pub is_pin_verified_session : ℕ → Action Bool
unfolding pin_text_verdict
is_pin_verified_session now b =
    if b.window
    then pin_text_verdict now (as_text (get_item pin_session_key b.session)) b
    else done false b

-- `user.lastActive = …; saveUser(user)`
unfoldable pub touch : ℕ → Option User → Action (Unit {0})
touch now none = return tt
touch now (some user) = save_user (record user { last_active = to_iso_string now })

-- What is kept for the notification after logout.
unfoldable pub leave_note : ℕ → Option User → Action (Unit {0})
unfolding put_local
leave_note now none = return tt
leave_note now (some user) = put_local inactivity_key (
    inactivity_doc (record {
      user_id = user.id;
      email = user.email;
      full_name = user.full_name;
      logout_time = to_iso_string now;
    }))

unfoldable pub log_in : ℕ → String → Action (Unit {0})
unfolding drop_local
log_in now user_id = do user ← get_user; touch now user; drop_local (user_key user_id logout_suffix)

unfoldable pub log_out : ℕ → String → Action (Unit {0})
unfolding put_local drop_local
log_out now user_id = do
  user ← get_user
  leave_note now user
  put_local (user_key user_id logout_suffix) (text (to_iso_string now))
  drop_local current_user_id_key
  clear_pin_verified_session

-- An id that is null or the empty text is falsy: nothing follows.
unfoldable pub for_current : (String → Action (Unit {0})) → Option String → Action (Unit {0})
for_current f none = return tt
for_current f (some user_id) = if is_empty user_id then return tt else f user_id

unfoldable pub bool_text : Bool → String
bool_text true = "true"
bool_text false = "false"

-- `setLoggedIn(value)`
unfoldable pub set_logged_in : Bool → ℕ → Action (Unit {0})
unfolding put_local for_current
set_logged_in value now = do
  put_local is_logged_in_key (text (bool_text value))
  λ b. for_current (if value then log_in now else log_out now) (get_current_user_id b) b

-- `getLogoutTime()`
unfoldable pub get_logout_time : Browser → Option String
unfolding get_current_user_id
get_logout_time b = elim (get_current_user_id b) [
  | none ↦ none
  | some user_id ↦
      if is_empty user_id then none else as_text (get_item (user_key user_id logout_suffix) b.local)
]
