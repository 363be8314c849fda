-- ===== src/Session/Histories.antt =====
-- Any sequence of calls of lib/store.ts, in any order.
use secure_vault.Prelude.{
  String, Bool, true, false, List, [], ◌∷◌, ℕ, ◌≡◌, refl, if◌then◌else◌, ltb, Option, ◌+◌, some,
  Bool-cases, is_empty, inl, inr, none,
}
use secure_vault.Prelude.Decimal.{ParsedInt, nan, nonneg, negative, parse_int}
use secure_vault.Session.Data.{
  Browser, done, threw, ◌>>◌, return, User, Outcome, Action, Item, text,
}
use secure_vault.Session.Keys.{current_user_id_key, pin_session_key}
use secure_vault.Session.Login.{
  pin_verdict, clear_pin_verified_session, set_logged_in, set_pin_verified_session,
  is_pin_verified_session, pin_text_verdict, pin_session_timeout_ms,
}
use secure_vault.Session.PinSession.{set_pin_verified_session_lem, pinned}
use secure_vault.Session.Users.{set_current_user_id, save_user, as_text}
use secure_vault.Session.Valid.{IsValid}
use secure_vault.Session.Valid.Login.{
  clear_pin_verified_session_lem, end_pin_session-IsValid, set_logged_in_lem, after_switch-IsValid,
}
use secure_vault.Session.Valid.Save.{save_user_lem, saved-IsValid, write-IsValid, current-Fits}
use secure_vault.Storage.{Storage, get_item}

pub data Call : Type 0 where
  saves : User → Call
  sets_id : String → Call
  flags : Bool → ℕ → Call
  pins : ℕ → Call
  asks_pin : ℕ → Call
  ends_pin : Call

unfoldable pub perform : Call → Action (Unit {0})
perform (saves u) = save_user u
perform (sets_id id) = set_current_user_id id
perform (flags value now) = set_logged_in value now
perform (pins now) = set_pin_verified_session now
perform (asks_pin now) = do is_pin_verified_session now; return tt
perform ends_pin = clear_pin_verified_session

unfoldable pub run : List Call → Action (Unit {0})
unfolding perform
run [] = return tt
run (c ∷ cs) = do perform c; run cs

abbrev Keeps : {A : Type 0} → Outcome A → Type 0
Keeps (done a b) = IsValid b
Keeps (threw b) = ⊥

session_only : (s : Storage Item) (b : Browser) → IsValid b → IsValid (record b { session = s })
session_only s b v = record {
  window = v.window;
  users = v.users;
  registry = v.registry;
  current = v.current;
  flag = v.flag;
}

clear-Keeps : (b : Browser) → IsValid b → Keeps (clear_pin_verified_session b)
clear-Keeps b v = rw (clear_pin_verified_session_lem b v.window) (end_pin_session-IsValid b v)

expiry-Keeps :
    (expired : Bool) (b : Browser)
    → IsValid b
    → Keeps ((if expired then clear_pin_verified_session >> return false else return true) b)
expiry-Keeps true b v =
    rw (clear_pin_verified_session_lem b v.window, ◌>>◌) (end_pin_session-IsValid b v)
expiry-Keeps false b v = v

pin_verdict-Keeps :
    (now : ℕ) (p : ParsedInt) (b : Browser) → IsValid b → Keeps (pin_verdict now p b)
unfolding pin_verdict
pin_verdict-Keeps now nan b v = v
pin_verdict-Keeps now (nonneg t) b v = expiry-Keeps (ltb (t + pin_session_timeout_ms) now) b v
pin_verdict-Keeps now (negative t) b v = expiry-Keeps (ltb pin_session_timeout_ms (now + t)) b v

text_verdict-Keeps :
    (now : ℕ) (s : Option String) (b : Browser) → IsValid b → Keeps (pin_text_verdict now s b)
unfolding pin_text_verdict
text_verdict-Keeps now none b v = v
text_verdict-Keeps now (some s) b v = elim (Bool-cases (is_empty s)) [
  | inl e ↦ rw e v
  | inr e ↦ rw e (pin_verdict-Keeps now (parse_int s) b v)
]

asks-Keeps : (now : ℕ) (b : Browser) → IsValid b → Keeps (is_pin_verified_session now b)
unfolding is_pin_verified_session
asks-Keeps now b v =
    simp v.window (text_verdict-Keeps now (as_text (get_item pin_session_key b.session)) b v)

pins-Keeps : (now : ℕ) (b : Browser) → IsValid b → Keeps (set_pin_verified_session now b)
pins-Keeps now b v =
    rw (set_pin_verified_session_lem now b v.window) (session_only (pinned now b).session b v)

Keeps-then :
    {A B : Type 0} (m : Action A) (k : Action B) (b : Browser)
    → Keeps (m b)
    → ((b' : Browser) → IsValid b' → Keeps (k b'))
    → Keeps ((m >> k) b)
Keeps-then {A} {B} m k b first next = go (m b) first
  where
    go :
        (o : Outcome A)
        → Keeps o
        → Keeps {A = B} (elim o [ done a b' ↦ k b' | threw b' ↦ threw b' ])
    go (done a b') v = next b' v
    go (threw b') v = v

perform-Keeps : (c : Call) (b : Browser) → IsValid b → Keeps (perform c b)
unfolding perform set_current_user_id
perform-Keeps (saves u) b v = rw (save_user_lem u b v) (saved-IsValid u b v)
perform-Keeps (sets_id id) b v = write-IsValid current_user_id_key (text id) b (current-Fits id) v
perform-Keeps (flags value now) b v =
    rw (set_logged_in_lem value now b v) (after_switch-IsValid value now b v)
perform-Keeps (pins now) b v = pins-Keeps now b v
perform-Keeps (asks_pin now) b v =
    Keeps-then (is_pin_verified_session now) (return tt) b (asks-Keeps now b v) (λ b' v'. v')
perform-Keeps ends_pin b v = clear-Keeps b v

run-Keeps : (cs : List Call) (b : Browser) → IsValid b → Keeps (run cs b)
unfolding run
run-Keeps [] b v = v
run-Keeps (c ∷ cs) b v = Keeps-then (perform c) (run cs) b (perform-Keeps c b v) (run-Keeps cs)

Keeps-done : (o : Outcome (Unit {0})) → Keeps o → (b : Browser) × (o ≡ done tt b) × IsValid b
Keeps-done (done a b) v = (b, refl, v)
Keeps-done (threw b) v = absurd v

-- From a valid browser no sequence of calls throws, and each leaves a valid browser.
pub run-IsValid :
    (cs : List Call) (b : Browser)
    → IsValid b
    → (b' : Browser) × (run cs b ≡ done tt b') × IsValid b'
run-IsValid cs b v = Keeps-done (run cs b) (run-Keeps cs b v)
