-- ===== src/Signup/Code.antt =====
-- The six boxes of the code and the PIN in app/signup/page.tsx.
use Prim.Native.String.{[], ◌∷◌}
use mathlib.Core.List.{List, [], ◌∷◌}
use text.Mathlib.TextLemmas.{nil-append, cons-append}
use secure_vault.Prelude.{
  chars-digits_of, not, ◌==◌, nat_eq, ℕ, zero, suc, ◌≤◌, String, ◌≡◌, refl, arith, length, chars,
  digits_of, ◌-◌, none, ap, ◌∙◌, if_false, Option, sym, if_true, ltb,
}
use secure_vault.Signup.{
  Form, fill_boxes, slice_to, join_otp, handle_otp_change, step_2_refusal, tick,
}

chars-slice_to : (n : ℕ) (s : String) → n ≤ chars s → chars (slice_to n s) ≡ n
unfolding slice_to
chars-slice_to zero s h = refl
chars-slice_to (suc n) [] h = absurd (omega (arith, h))
chars-slice_to (suc n) (c ∷ s) h = let k = chars-slice_to n s (omega arith) in omega arith

join_otp-fill_boxes :
    (s : String) (boxes : List String) → chars s ≡ length boxes → join_otp (fill_boxes s boxes) ≡ s
unfolding join_otp fill_boxes
join_otp-fill_boxes [] [] h = refl
join_otp-fill_boxes (c ∷ s) [] h = absurd (omega (arith, h))
join_otp-fill_boxes [] (b ∷ bs) h = absurd (omega (arith, h))
join_otp-fill_boxes (c ∷ s) (b ∷ bs) h =
    let h' : chars s ≡ length bs = omega arith in
    cons-append c [] (join_otp (fill_boxes s bs))
    ∙ ap (λ t. c ∷ t) (nil-append _ ∙ join_otp-fill_boxes s bs h')

six_boxes :
    (s : String) (boxes : List String)
    → chars s ≡ 6
    → length boxes ≡ 6
    → chars (join_otp (fill_boxes s boxes)) ≡ 6
six_boxes s boxes h k = ap chars (join_otp-fill_boxes s boxes (h ∙ sym k)) ∙ h

filled :
    (i : ℕ) (value : String) (otp : List String)
    → 6 ≤ chars (digits_of value)
    → (handle_otp_change i value otp).0 ≡ fill_boxes (slice_to 6 (digits_of value)) otp
unfolding handle_otp_change
filled i value otp k =
    let h = chars-digits_of value in
    let l = chars-slice_to 6 (digits_of value) k in
    ap (λ (r : List String × Option ℕ). r.0)
      (if_true (ltb 1 (chars value)) _ _ (ground arith)
        ∙ if_true (ltb 0 (chars (slice_to 6 (digits_of value)))) _ _ (ground arith))

-- A text with at least six digits that is given to any of six boxes fills them with its first six digits, and
-- the form then lets the code pass.
pub handle_otp_change-passes :
    (i : ℕ) (value : String) (f : Form)
    → length f.otp ≡ 6
    → 6 ≤ chars (digits_of value)
    → step_2_refusal (record f { otp = (handle_otp_change i value f.otp).0 }) ≡ none
unfolding step_2_refusal
handle_otp_change-passes i value f h k =
    let e : chars (join_otp (handle_otp_change i value f.otp).0) ≡ 6 =
      ap (λ o. chars (join_otp o)) (filled i value f.otp k)
      ∙ six_boxes (slice_to 6 (digits_of value)) f.otp (chars-slice_to 6 (digits_of value) k) h in
    if_false (not (chars (join_otp (handle_otp_change i value f.otp).0) == 6)) _ _
      (ground (arith, e))

-- `n` seconds of the timer.
abbrev pub ticks : ℕ → ℕ → ℕ
ticks zero t = t
ticks (suc n) t = ticks n (tick t)

tick_lem : (t : ℕ) → tick t ≡ t - 1
unfolding tick
tick_lem t = ground arith

-- The timer counts down by one each second and stays at 0: after `n` seconds it shows what is left.
pub ticks-tick : (n t : ℕ) → ticks n t ≡ t - n
ticks-tick zero t = omega arith
ticks-tick (suc n) t = let h = ticks-tick n (tick t) in let k = tick_lem t in omega arith
