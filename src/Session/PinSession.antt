-- ===== src/Session/PinSession.antt =====
-- The PIN session: valid for fifteen minutes.
use secure_vault.Prelude.{
  ℕ, ◌+◌, true, false, ◌≡◌, arith, if◌then◌else◌, leb, Bool-cases, inl, inr, ◌∙◌, ltb,
}
use secure_vault.Prelude.Decimal.{to_string, to_string-not_empty, parse_int-to_string, nonneg}
use secure_vault.Session.Data.{done, text, ◌>>◌, Browser}
use secure_vault.Session.Keys.{pin_session_key}
use secure_vault.Session.Login.{
  set_pin_verified_session, is_pin_verified_session, pin_session_timeout_ms, pin_verdict,
}
use secure_vault.Session.Valid.Login.{end_pin_session, clear_pin_verified_session_lem}
use secure_vault.Storage.{set_item}
use secure_vault.Storage.Laws.{get_item-set_item_self}

-- The browser after a PIN check at time `t`.
abbrev pub pinned : ℕ → Browser → Browser
pinned t b = record b { session = set_item pin_session_key (text (to_string t)) b.session }

pub set_pin_verified_session_lem :
    (t : ℕ) (b : Browser) → b.window ≡ true → set_pin_verified_session t b ≡ done tt (pinned t b)
unfolding set_pin_verified_session
set_pin_verified_session_lem t b w = ground arith

pin_verdict_lem :
    (t now : ℕ) (b : Browser)
    → b.window ≡ true
    → pin_verdict now (nonneg t) b ≡ (
        if leb now (t + pin_session_timeout_ms)
        then done true b
        else done false (end_pin_session b))
unfolding pin_verdict
pin_verdict_lem t now b w = elim (Bool-cases (leb now (t + pin_session_timeout_ms))) [
  | inl e ↦ let e' : ltb (t + pin_session_timeout_ms) now ≡ false = ground arith in rw (e, e')
  | inr e ↦
      let e' : ltb (t + pin_session_timeout_ms) now ≡ true = ground arith in
      rw (e, e') (rw (clear_pin_verified_session_lem b w, ◌>>◌))
]

is_pin_verified_session_lem :
    (t now : ℕ) (b : Browser)
    → b.window ≡ true
    → is_pin_verified_session now (pinned t b) ≡ pin_verdict now (nonneg t) (pinned t b)
unfolding is_pin_verified_session
is_pin_verified_session_lem t now b w = ground (
  arith,
  get_item-set_item_self pin_session_key (text (to_string t)) b.session,
  to_string-not_empty t,
  parse_int-to_string t,
)

-- In a browser, after a PIN check at time `t`, the session is verified at time `now` exactly when at
-- most fifteen minutes have passed; a question that comes later also removes the stored time.
pub is_pin_verified_session-set_pin_verified_session :
    (t now : ℕ) (b : Browser)
    → b.window ≡ true
    → (set_pin_verified_session t >> is_pin_verified_session now) b ≡ (
        if leb now (t + pin_session_timeout_ms)
        then done true (pinned t b)
        else done false (end_pin_session (pinned t b)))
is_pin_verified_session-set_pin_verified_session t now b w =
    rw (set_pin_verified_session_lem t b w, ◌>>◌)
      (is_pin_verified_session_lem t now b w ∙ pin_verdict_lem t now (pinned t b) w)
