-- ===== src/Fetch/Completion.antt =====
-- That the calls of lib/api.ts and lib/admin-api.ts do not wait for ever.
use secure_vault.Fetch.{
  Phase, Call, Client, Event, first, retried, waiting, returned, failed, step, run,
}
use secure_vault.Fetch.Invariant.{Inv, run-Inv}
use secure_vault.Fetch.Progress.{Fits, pending, pending-step, can_go_on, work, weight}
use secure_vault.Prelude.{
  zero, suc, ◌+◌, ◌≤◌, Bool, false, String, List, [], ◌∷◌, ◌≡◌, refl, arith, All, length,
  Bool-cases, inl, inr,
}

-- A call that has ended, with a reply or with an exception.
abbrev pub HasEnded : Phase → Type 0
HasEnded (returned r) = Unit
HasEnded (failed f) = Unit
HasEnded p = ⊥

weightless-HasEnded : (p : Phase) → weight p ≡ 0 → HasEnded p
weightless-HasEnded first h = absurd (omega (arith, h))
weightless-HasEnded retried h = absurd (omega (arith, h))
weightless-HasEnded (waiting q) h = absurd (omega (arith, h))
weightless-HasEnded (returned r) h = tt
weightless-HasEnded (failed f) h = tt

workless-HasEnded : (cs : List Call) → work cs ≡ 0 → All (λ (c : Call). HasEnded c.phase) cs
unfolding work
workless-HasEnded [] h = tt
workless-HasEnded (c ∷ cs) h =
    (weightless-HasEnded c.phase (omega (arith, h)), workless-HasEnded cs (omega (arith, h)))

-- Every call has ended, and no refresh is under way.
pub record AtRest {S : Type 0} (s : Client S) : Type 0 where
  pub ended : All (λ (c : Call). HasEnded c.phase) s.calls
  pub no_refresh : s.refreshing ≡ false

idle-AtRest : {S : Type 0} (s : Client S) → pending s ≡ 0 → AtRest s
unfolding pending
idle-AtRest s h = elim (Bool-cases s.refreshing) [
  | inl e ↦ absurd (ground (arith, e, h))
  | inr e ↦ record { ended = workless-HasEnded s.calls (ground (arith, h)); no_refresh = e }
]

module _ {S : Type 0} (is_auth : String → Bool) (expire : S → S) where
  -- Each event is one that the network can bring in its turn.
  abbrev pub AllFit : List Event → Client S → Type 0
  AllFit [] s = Unit
  AllFit (e ∷ es) s = Fits s e × AllFit es (step is_auth expire e s)

  pub idle-no_event : (s : Client S) → pending s ≡ 0 → (e : Event) → Fits s e → ⊥
  idle-no_event s h e f = let l = pending-step is_auth expire e s f in omega (arith, h, l)

  pub length-pending :
      (es : List Event) (s : Client S)
      → AllFit es s
      → length es + pending (run is_auth expire es s) ≤ pending s
  unfolding run
  length-pending [] s h = omega arith
  length-pending (e ∷ es) s (f, fs) =
      let l = pending-step is_auth expire e s f in
      let k = length-pending es (step is_auth expire e s) fs in omega (arith, l, k)

  no_event-idle : (s : Client S) → Inv s → ((e : Event) → Fits s e → ⊥) → pending s ≡ 0
  no_event-idle s v h =
      elim (pending s) as (λ n. pending s ≡ n → pending s ≡ 0) [
        | zero ↦ λ e. e
        | suc n ↦ λ e. absurd (let (x, f) = can_go_on s v (λ k. omega (arith, e, k)) in h x f)
      ]
        refl

  -- From a state that keeps the invariant the network can bring at most as many events as the bound says, however it
  -- chooses them; and when it can bring none any more, every call has ended and no refresh is under way.
  pub run-AtRest :
      (es : List Event) (s : Client S)
      → Inv s
      → AllFit es s
      → ((e : Event) → Fits (run is_auth expire es s) e → ⊥)
      → (length es ≤ pending s) × AtRest (run is_auth expire es s)
  run-AtRest es s v f none_left = (
    let l = length-pending es s f in omega (arith, l),
    idle-AtRest (run is_auth expire es s)
        (no_event-idle (run is_auth expire es s) (run-Inv is_auth expire es s v) none_left),
  )
