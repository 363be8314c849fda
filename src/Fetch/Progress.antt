-- ===== src/Fetch/Progress.antt =====
-- That the calls of lib/api.ts and lib/admin-api.ts come to an end, and share one refresh.
use mathlib.Core.Option.{some-injective}
use secure_vault.Fetch.{
  Phase, Call, Client, RefreshAnswer, Event, Reply, answer, break, settle, granted, denied, broken,
  first, retried, waiting, returned, failed, step, on_reply, on_break, on_settle, move, set_call,
  call_at, finish, ensure_refresh, String, network, await_refresh, not, resume_calls, resume,
  waits_for,
}
use secure_vault.Fetch.Invariant.{Inv, PhaseFits, CallFits, promise_is_none}
use secure_vault.Prelude.{
  ℕ, zero, suc, ◌+◌, ◌≤◌, Bool, true, false, Option, none, some, List, [], ◌∷◌, if◌then◌else◌,
  arith, ◌≡◌, refl, subst, ◌<◌, if_both, ◌==◌, ◌&&◌, nat_eq, sym, ap, ◌∙◌, ◌≢◌, All, ◌⊎◌,
  Bool-cases, inl, inr,
}

-- How many events a call has before it at most.
abbrev pub weight : Phase → ℕ
weight first = 4
weight (waiting p) = 2
weight retried = 1
weight (returned r) = 0
weight (failed f) = 0

unfoldable pub work : List Call → ℕ
work [] = 0
work (c ∷ cs) = weight c.phase + work cs

-- Whether a call has a request on the way.
abbrev pub is_sent : Phase → Bool
is_sent first = true
is_sent retried = true
is_sent _ = false

module _ {S : Type 0} where
  unfoldable pub pending : Client S → ℕ
  unfolding work
  pending s = work s.calls + (if s.refreshing then 1 else 0)

  -- The network can only answer, or break, a request that is on its way.
  pub data Fits (s : Client S) : Event → Type 0 where
    answered :
        (i : ℕ) (c : Call) (r : Reply)
        → call_at i s.calls ≡ some c
        → is_sent c.phase ≡ true
        → Fits s (answer i r)
    broke :
        (i : ℕ) (c : Call) → call_at i s.calls ≡ some c → is_sent c.phase ≡ true → Fits s (break i)
    settled : (a : RefreshAnswer) → s.refreshing ≡ true → Fits s (settle a)

work-set_call :
    (i : ℕ) (c d : Call) (cs : List Call)
    → call_at i cs ≡ some c
    → work (set_call i d cs) + weight c.phase ≡ work cs + weight d.phase
unfolding work set_call call_at
work-set_call i c d [] e = cc
work-set_call zero c d (x ∷ cs) e =
    subst
      (λ (y : Call).
        (weight d.phase + work cs) + weight y.phase ≡ (weight x.phase + work cs) + weight d.phase)
      (some-injective _ _ e) (omega arith)
work-set_call (suc i) c d (x ∷ cs) e = let h = work-set_call i c d cs e in omega arith

weight-finish : (r : Reply) → weight (finish r) ≡ 0
unfolding finish
weight-finish r = ground arith

module _ {S : Type 0} where
  pending-move :
      (i : ℕ) (c : Call) (p : Phase) (s : Client S)
      → call_at i s.calls ≡ some c
      → pending (move i c p s) + weight c.phase ≡ pending s + weight p
  unfolding pending move
  pending-move i c p s e =
      let h = work-set_call i c (record c { phase = p }) s.calls e in ground arith

  pending-ensure_refresh : (s : Client S) → pending (ensure_refresh s) ≤ pending s + 1
  unfolding pending ensure_refresh
  pending-ensure_refresh s =
      if_both (λ (t : Client S). pending t ≤ pending s + 1) s.refreshing (omega arith)
        (ground arith)

  calls-ensure_refresh : (s : Client S) → (ensure_refresh s).calls ≡ s.calls
  unfolding ensure_refresh
  calls-ensure_refresh s = if_both (λ (t : Client S). t.calls ≡ s.calls) s.refreshing refl refl

  -- A call that goes to a lighter phase.
  pending-move_lighter :
      (i : ℕ) (c : Call) (p q : Phase) (s : Client S)
      → call_at i s.calls ≡ some c
      → c.phase ≡ p
      → weight q < weight p
      → pending (move i c q s) < pending s
  pending-move_lighter i c p q s e w h =
      let k = pending-move i c q s e in let l = ap weight w in omega arith

  pending-on_break :
      (p : Phase) (i : ℕ) (c : Call) (s : Client S)
      → call_at i s.calls ≡ some c
      → c.phase ≡ p
      → is_sent p ≡ true
      → pending (on_break p i c s) < pending s
  unfolding on_break
  pending-on_break first i c s e w h =
      pending-move_lighter i c first (failed network) s e w (omega arith)
  pending-on_break retried i c s e w h =
      pending-move_lighter i c retried (failed network) s e w (omega arith)
  pending-on_break (waiting q) i c s e w h = cc
  pending-on_break (returned q) i c s e w h = cc
  pending-on_break (failed q) i c s e w h = cc

  pending-await_refresh :
      (i : ℕ) (c : Call) (s : Client S)
      → call_at i s.calls ≡ some c
      → c.phase ≡ first
      → pending (await_refresh i c (ensure_refresh s)) < pending s
  unfolding await_refresh
  pending-await_refresh i c s e w =
      let k =
        pending-move i c (waiting (ensure_refresh s).promise) (ensure_refresh s)
          (ap (call_at i) (calls-ensure_refresh s) ∙ e) in
      let l = ap weight w in let m = pending-ensure_refresh s in omega arith

finish_lighter : (r : Reply) (p : Phase) → 0 < weight p → weight (finish r) < weight p
finish_lighter r p h = let k = weight-finish r in omega arith

weight_waiting :
    (a : RefreshAnswer) (c : Call) → 1 ≤ weight c.phase → weight (resume a c).phase ≤ weight c.phase
unfolding resume
weight_waiting granted c h = h
weight_waiting denied c h = omega arith
weight_waiting broken c h = omega arith

weight_phase :
    (p : Option ℕ) (a : RefreshAnswer) (c : Call) (ph : Phase)
    → c.phase ≡ ph
    → weight (if waits_for p c.phase then resume a c else c).phase ≤ weight c.phase
weight_phase p a c (waiting q) e =
    if_both (λ (d : Call). weight d.phase ≤ weight c.phase) (waits_for p c.phase)
      (weight_waiting a c (let l = ap weight e in omega arith)) (omega arith)
weight_phase none a c ph e = omega arith
weight_phase (some k) a c first e = rw e (omega arith)
weight_phase (some k) a c retried e = rw e (omega arith)
weight_phase (some k) a c (returned r) e = rw e (omega arith)
weight_phase (some k) a c (failed r) e = rw e (omega arith)

weight-resume :
    (p : Option ℕ) (a : RefreshAnswer) (c : Call)
    → weight (if waits_for p c.phase then resume a c else c).phase ≤ weight c.phase
unfolding resume
weight-resume p a c = weight_phase p a c c.phase refl

work-resume_calls :
    (p : Option ℕ) (a : RefreshAnswer) (cs : List Call) → work (resume_calls p a cs) ≤ work cs
unfolding work resume_calls
work-resume_calls p a [] = omega arith
work-resume_calls p a (c ∷ cs) =
    let h = weight-resume p a c in let k = work-resume_calls p a cs in omega arith

sent_or_ended : (n : ℕ) (p : Phase) → PhaseFits none n p → (is_sent p ≡ true) ⊎ (weight p ≡ 0)
sent_or_ended n first h = inl refl
sent_or_ended n retried h = inl refl
sent_or_ended n (waiting q) h = absurd (h.2 refl)
sent_or_ended n (returned r) h = inr refl
sent_or_ended n (failed f) h = inr refl

find_sent :
    (cs : List Call)
    → All (CallFits none) cs
    → work cs ≢ 0
    → (i : ℕ) × (c : Call) × (call_at i cs ≡ some c) × (is_sent c.phase ≡ true)
unfolding work call_at
find_sent [] v h = absurd (h refl)
find_sent (c ∷ cs) (v, vs) h = elim (sent_or_ended c.sent c.phase v) [
  | inl e ↦ (0, c, refl, e)
  | inr e ↦ let (i, d, f, g) = find_sent cs vs (λ k. h (ground (arith, e, k))) in (suc i, d, f, g)
]

module _ {S : Type 0} (is_auth : String → Bool) (expire : S → S) where
  pending-on_reply :
      (p : Phase) (i : ℕ) (c : Call) (r : Reply) (s : Client S)
      → call_at i s.calls ≡ some c
      → c.phase ≡ p
      → is_sent p ≡ true
      → pending (on_reply is_auth expire p i c r s) < pending s
  unfolding on_reply
  pending-on_reply first i c r s e w h =
      if_both (λ (t : Client S). pending t < pending s)
        (r.status == 401 && not (is_auth c.endpoint)) (pending-await_refresh i c s e w)
        (pending-move_lighter i c first (finish r) s e w (finish_lighter r first (omega arith)))
  pending-on_reply retried i c r s e w h =
      pending-move_lighter i c retried (finish r) s e w (finish_lighter r retried (omega arith))
  pending-on_reply (waiting q) i c r s e w h = cc
  pending-on_reply (returned q) i c r s e w h = cc
  pending-on_reply (failed q) i c r s e w h = cc

  pending-on_settle :
      (a : RefreshAnswer) (s : Client S)
      → s.refreshing ≡ true
      → pending (on_settle is_auth expire a s) < pending s
  unfolding pending on_settle
  pending-on_settle a s e = let h = work-resume_calls s.promise a s.calls in rw e (omega arith)

  -- Every answer and every break of a request on its way, and the end of a refresh under way, lowers
  -- the bound on the events to come: first requests weigh 4, waiting calls 2, retries 1, the refresh 1.
  pub pending-step :
      (e : Event) (s : Client S) → Fits s e → pending (step is_auth expire e s) < pending s
  unfolding step
  pending-step _ s (answered i c r e h) = rw (e, step) (pending-on_reply c.phase i c r s e refl h)
  pending-step _ s (broke i c e h) = rw (e, step) (pending-on_break c.phase i c s e refl h)
  pending-step _ s (settled a e) =
      subst (λ (t : Client S). pending t < pending s)
        (sym (ap (λ b. if b then on_settle is_auth expire a s else s) e)) (pending-on_settle a s e)

module _ {S : Type 0} where
  -- Nothing gets stuck: in a state that keeps the invariant and in which something is pending, some
  -- request or the refresh is on its way, so that the network can bring an event.
  pub can_go_on : (s : Client S) → Inv s → pending s ≢ 0 → (e : Event) × Fits s e
  unfolding pending
  can_go_on s v h = elim (Bool-cases s.refreshing) [
    | inl e ↦ (settle granted, settled granted e)
    | inr e ↦
        let quiet : All (CallFits none) s.calls =
          subst (λ p. All (CallFits p) s.calls) (promise_is_none s.promise (sym v.flag ∙ e))
            v.calls in
        let (i, c, f, g) = find_sent s.calls quiet (λ k. h (rw (e, k) refl)) in
        (break i, broke i c f g)
  ]
