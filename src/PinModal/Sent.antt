-- ===== src/PinModal/Sent.antt =====
-- What components/dashboard/pin-modal.tsx sends.
use secure_vault.PinModal.{
  PinDialog, PinRequest, PinEvent, pin_step, pin_requests, type_box, handle_change, handle_key_down,
  start_verify, finish_verify, new_dialog, typed, key_down, verify, answered, suc,
}
use secure_vault.Signup.{set_box, join_otp}
use secure_vault.Prelude.{
  list_of, All-append, nat_eq, digits_of-append, without_first_nondigit-digits, ℕ, String, true,
  false, Option, none, some, List, [], ◌∷◌, ◌≡◌, refl, arith, if_both, Bool-cases, inl, inr, All,
  chars, digits_of, ◌∙◌, ◌&◌, ◌≤◌, ◌==◌, zero,
}

-- A text of digits only.
abbrev pub DigitsOnly : String → Type 0
DigitsOnly s = digits_of s ≡ s

-- A PIN that may be sent: four characters, all digits.
pub record PinFits (r : PinRequest) : Type 0 where
  pub four : chars r.entered ≡ 4
  pub digits : DigitsOnly r.entered

-- Each box takes one character at most, as its `maxLength` says.
abbrev pub OneCharacter : PinEvent → Type 0
OneCharacter (typed index raw) = chars raw ≤ 1
OneCharacter e = Unit

join_otp-DigitsOnly : (bs : List String) → All DigitsOnly bs → DigitsOnly (join_otp bs)
unfolding join_otp digits_of
join_otp-DigitsOnly [] h = refl
join_otp-DigitsOnly (b ∷ bs) (h, hs) =
    digits_of-append b (join_otp bs) ∙ (λ i. h i & join_otp-DigitsOnly bs hs i)

set_box-DigitsOnly :
    (n : ℕ) (v : String) (bs : List String)
    → DigitsOnly v
    → All DigitsOnly bs
    → All DigitsOnly (set_box n v bs)
unfolding set_box
set_box-DigitsOnly n v [] h a = tt
set_box-DigitsOnly zero v (b ∷ bs) h (k, a) = (h, a)
set_box-DigitsOnly (suc n) v (b ∷ bs) h (k, a) = (k, set_box-DigitsOnly n v bs h a)

abbrev StepFits : PinDialog × Option PinRequest → Type 0
StepFits (d, sent) = All DigitsOnly d.pin × All PinFits (list_of sent)

pin_step-Fits :
    (e : PinEvent) (d : PinDialog) → OneCharacter e → All DigitsOnly d.pin → StepFits (pin_step e d)
unfolding digits_of pin_step type_box handle_change handle_key_down start_verify finish_verify
pin_step-Fits (typed n raw) d o h = (
  if_both (λ (x : PinDialog). All DigitsOnly x.pin) _ h
      (set_box-DigitsOnly n _ d.pin (without_first_nondigit-digits raw o) h),
  tt,
)
pin_step-Fits (key_down n key) d o h = (if_both (λ (x : PinDialog). All DigitsOnly x.pin) _ h h, tt)
pin_step-Fits (verify none) d o h = (h, tt)
pin_step-Fits (verify (some user)) d o h = elim (Bool-cases (chars (join_otp d.pin) == 4)) [
  | inl e ↦ rw e (h, (record { four = ground arith; digits = join_otp-DigitsOnly d.pin h }, tt))
  | inr e ↦ rw e (h, tt)
]
pin_step-Fits (answered true) d o h = (h, tt)
pin_step-Fits (answered false) d o h = ((refl, (refl, (refl, (refl, tt)))), tt)

pin_requests_from-Fit :
    (es : List PinEvent) (d : PinDialog)
    → All OneCharacter es
    → All DigitsOnly d.pin
    → All PinFits (pin_requests es d)
unfolding pin_requests
pin_requests_from-Fit [] d o h = tt
pin_requests_from-Fit (e ∷ es) d (o, os) h =
    let (k, sent) = pin_step-Fits e d o h in
    All-append PinFits (list_of ((pin_step e d).1)) (pin_requests es ((pin_step e d).0)) sent
      (pin_requests_from-Fit es ((pin_step e d).0) os k)

pub pin_requests-Fit :
    (es : List PinEvent) → All OneCharacter es → All PinFits (pin_requests es new_dialog)
unfolding digits_of
pin_requests-Fit es o = pin_requests_from-Fit es new_dialog o (refl, (refl, (refl, (refl, tt))))
