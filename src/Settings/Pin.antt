-- ===== src/Settings/Pin.antt =====
-- The PIN that app/dashboard/settings/page.tsx accepts, and the dialog of components/dashboard/pin-modal.tsx
-- that asks for it.
use secure_vault.PinModal.{PinEvent, PinRequest, pin_requests, new_dialog}
use secure_vault.PinModal.Sent.{OneCharacter, PinFits, pin_requests-Fit}
use secure_vault.Prelude.{
  String, none, List, [], ◌∷◌, ◌≡◌, ◌≢◌, All, chars, ap, sym, ◌∙◌, arith, ◌≤◌, false, some,
  is_empty, eq_refl, is_empty-chars,
}
use secure_vault.Settings.{Settings, pin_error, tested, User, sends, tested_with}

-- A request with another PIN.
abbrev pub Differs : String → PinRequest → Type 0
Differs pin r = r.entered ≢ pin

shorter_or_longer : (pin : String) (r : PinRequest) → chars pin ≢ 4 → PinFits r → Differs pin r
shorter_or_longer pin r h f e = h (sym (ap chars e) ∙ f.four)

none_matches :
    (pin : String) (rs : List PinRequest) → chars pin ≢ 4 → All PinFits rs → All (Differs pin) rs
none_matches pin [] h f = tt
none_matches pin (r ∷ rs) h (f, fs) = (shorter_or_longer pin r h f, none_matches pin rs h fs)

pin_error-none :
    (s : Settings)
    → is_empty s.old_pin ≡ false
    → 5 ≤ chars s.new_pin
    → s.confirm_new_pin ≡ s.new_pin
    → pin_error s ≡ none
unfolding pin_error
pin_error-none s o h e =
    let same = eq_refl s.new_pin in
    let filled = is_empty-chars s.new_pin (omega arith) in
    rw (o, e, filled, same) (ground (arith, h))

-- The settings accept and send a new PIN of five characters or more that is typed twice alike with an old one;
-- and then no typing in a PIN dialog, one character at a time, ever sends this PIN: its owner cannot pass the dialog.
pub tested-pin_requests :
    (s : Settings) (u : User) (es : List PinEvent)
    → s.user ≡ some u
    → is_empty s.old_pin ≡ false
    → 5 ≤ chars s.new_pin
    → s.confirm_new_pin ≡ s.new_pin
    → All OneCharacter es
    → (tested pin_error s ≡ sends u) × All (Differs s.new_pin) (pin_requests es new_dialog)
unfolding tested
tested-pin_requests s u es k o h e one = (
  ap (λ x. tested_with x (pin_error s)) k ∙ ap (tested_with (some u)) (pin_error-none s o h e),
  none_matches s.new_pin (pin_requests es new_dialog) (λ f. omega (arith, f, h))
      (pin_requests-Fit es one),
)
