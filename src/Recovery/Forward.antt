-- ===== src/Recovery/Forward.antt =====
-- When the wizards of app/forgot-password/page.tsx and app/forgot-pin/page.tsx send, and go on.
use Prim.Native.String.{[], ◌∷◌}
use secure_vault.Prelude.{
  ℕ, String, ◌≡◌, ◌≤◌, false, chars, true, arith, refl, is_empty, none, ◌==◌, string_eq, Option,
  some, ◌<◌, if_both, nat_eq,
}
use secure_vault.Recovery.{
  Kind, password, pin, on_answer, Answer, told, thrown, reply, Stage, Wizard, step, handle, began,
  answer_to, Event, type_email, start, answered, Start, type_otp, refused, type_new, sends,
  type_confirm, form_of, asking, request_at, without_request, submit, resend,
}

-- What the reset asks for: the new value twice, with at least eight characters for a password and
-- exactly four for a PIN.
abbrev pub LengthFits : Kind → ℕ → Type 0
LengthFits password n = 8 ≤ n
LengthFits pin n = n ≡ 4

abbrev pub IsRefusal : Answer → Type 0
IsRefusal (thrown m) = Unit
IsRefusal (reply false body) = Unit
IsRefusal (reply true body) = ⊥

-- An answer that is not ok leaves the step.
refused_step :
    (kind : Kind) (stage : Stage) (a : Answer) (w : Wizard)
    → IsRefusal a
    → (on_answer kind stage a w).page.step ≡ w.page.step
unfolding on_answer told
refused_step kind stage (thrown m) w h = refl
refused_step kind stage (reply false body) w h = refl
refused_step kind stage (reply true body) w h = absurd h

empty_chars : (s : String) → is_empty s ≡ true → chars s ≡ 0
empty_chars [] h = refl
empty_chars (c ∷ s) h = cc

began_step : (stage : Stage) (s : Start) (w : Wizard) → (began stage s w).page.step ≡ w.page.step
unfolding began
began_step stage (refused m) w = refl
began_step stage (sends body) w = refl

handle_step :
    (kind : Kind) (f : Option Stage) (w : Wizard) → (handle kind f w).page.step ≡ w.page.step
unfolding handle
handle_step kind none w = refl
handle_step kind (some stage) w = began_step stage (start kind stage w.page) w

answer_to_step :
    (kind : Kind) (f : Option Stage) (a : Answer) (w : Wizard)
    → IsRefusal a
    → (answer_to kind f a w).page.step ≡ w.page.step
unfolding answer_to
answer_to_step kind none a w h = refl
answer_to_step kind (some stage) a w h = refused_step kind stage a w h

-- The events of an accepted answer.
abbrev pub IsAccepted : Event → Type 0
IsAccepted (answered i (reply true body)) = Unit
IsAccepted _ = ⊥

same_step : {A : Type 0} (m n : ℕ) → n ≡ m → m < n → A
same_step m n e h = absurd (omega (arith, e, h))

-- The wizard goes forward only on an accepted answer of the server: nothing that is typed or clicked, no
-- failed request and no refusal raises the step.
pub step-forward :
    (kind : Kind) (e : Event) (w : Wizard) → w.page.step < (step kind e w).page.step → IsAccepted e
unfolding step
step-forward kind (type_email s) w h = same_step _ _ refl h
step-forward kind (type_otp s) w h = same_step _ _ refl h
step-forward kind (type_new s) w h = same_step _ _ refl h
step-forward kind (type_confirm s) w h = same_step _ _ refl h
step-forward kind submit w h =
    same_step _ _
      (if_both (λ (v : Wizard). v.page.step ≡ w.page.step) w.page.loading refl
        (handle_step kind (form_of w.page.step) w))
      h
step-forward kind resend w h =
    same_step _ _
      (if_both (λ (v : Wizard). v.page.step ≡ w.page.step) (w.page.step == 2)
        (handle_step kind (some asking) w) refl)
      h
step-forward kind (answered i (reply true body)) w h = tt
step-forward kind (answered i (reply false body)) w h =
    same_step _ _
      (answer_to_step kind (request_at i w.requests) (reply false body)
        (record w { requests = without_request i w.requests }) tt)
      h
step-forward kind (answered i (thrown m)) w h =
    same_step _ _
      (answer_to_step kind (request_at i w.requests) (thrown m)
        (record w { requests = without_request i w.requests }) tt)
      h
