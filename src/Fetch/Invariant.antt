-- ===== src/Fetch/Invariant.antt =====
-- What holds of the calls and the shared refresh between two events.
use mathlib.Core.Option.{some-injective}
use secure_vault.Fetch.{
  start, answer, break, settle, granted, denied, broken, first, retried, waiting, returned, failed,
  set_call, on_reply, move, finish, ensure_refresh, call_at, Phase, Client, Call, Reply, step,
  resume_calls, resume, on_break, network, RefreshAnswer, Event, waits_for, on_settle, run,
  await_refresh, after_answer,
}
use secure_vault.Prelude.{
  is_some, ℕ, zero, suc, ◌+◌, ◌≤◌, ◌==◌, nat_eq, String, Bool, true, false, not, ◌&&◌, Option, none,
  some, List, [], ◌∷◌, ◌++◌, if◌then◌else◌, arith, ◌≡◌, refl, All, ◌≢◌, subst, Bool-cases, inl, sym,
  inr, Option-cases, ◌∙◌, if_both, ap,
}

-- A call has sent its request once before its retry and at most twice in all, and it waits for no
-- other promise than the present one.
abbrev pub PhaseFits : Option ℕ → ℕ → Phase → Type 0
PhaseFits p n first = n ≡ 1
PhaseFits p n (waiting q) = (n ≡ 1) × (q ≡ p) × (p ≢ none)
PhaseFits p n retried = n ≡ 2
PhaseFits p n (returned r) = n ≤ 2
PhaseFits p n (failed f) = n ≤ 2

abbrev pub CallFits : Option ℕ → Call → Type 0
CallFits p c = PhaseFits p c.sent c.phase

-- `isRefreshing` holds exactly while there is a promise.
pub record Inv {S : Type 0} (s : Client S) : Type 0 where
  pub flag : s.refreshing ≡ is_some s.promise
  pub calls : All (CallFits s.promise) s.calls

finish-PhaseFits : (p : Option ℕ) (n : ℕ) (r : Reply) → n ≤ 2 → PhaseFits p n (finish r)
unfolding finish
finish-PhaseFits p n r h = ground arith

-- A promise where there was none: nobody was waiting.
PhaseFits-new : (k n : ℕ) (ph : Phase) → PhaseFits none n ph → PhaseFits (some k) n ph
PhaseFits-new k n first h = h
PhaseFits-new k n (waiting q) h = absurd (h.2 refl)
PhaseFits-new k n retried h = h
PhaseFits-new k n (returned r) h = h
PhaseFits-new k n (failed f) h = h

All-new : (k : ℕ) (cs : List Call) → All (CallFits none) cs → All (CallFits (some k)) cs
All-new k [] h = tt
All-new k (c ∷ cs) (h, hs) = (PhaseFits-new k c.sent c.phase h, All-new k cs hs)

All-set_call :
    (p : Option ℕ) (i : ℕ) (c : Call) (cs : List Call)
    → CallFits p c
    → All (CallFits p) cs
    → All (CallFits p) (set_call i c cs)
unfolding set_call
All-set_call p i c [] h hs = tt
All-set_call p zero c (d ∷ cs) h hs = (h, hs.1)
All-set_call p (suc i) c (d ∷ cs) h hs = (hs.0, All-set_call p i c cs h hs.1)

All-call_at :
    (p : Option ℕ) (i : ℕ) (cs : List Call) (c : Call)
    → All (CallFits p) cs
    → call_at i cs ≡ some c
    → CallFits p c
unfolding call_at
All-call_at p i [] c h e = cc
All-call_at p zero (d ∷ cs) c h e = subst (CallFits p) (some-injective _ _ e) h.0
All-call_at p (suc i) (d ∷ cs) c h e = All-call_at p i cs c h.1 e

All-start :
    (p : Option ℕ) (cs : List Call) (c : Call)
    → All (CallFits p) cs
    → CallFits p c
    → All (CallFits p) (cs ++ c ∷ [])
All-start p [] c h k = (k, tt)
All-start p (d ∷ cs) c (h, hs) k = (h, All-start p cs c hs k)

pub promise_is_none : (p : Option ℕ) → is_some p ≡ false → p ≡ none
promise_is_none none h = refl
promise_is_none (some n) h = cc

some_promise : (p : Option ℕ) → is_some p ≡ true → p ≢ none
some_promise none h = cc
some_promise (some n) h = λ e. cc

module _ {S : Type 0} where
  move-Inv :
      (i : ℕ) (c : Call) (ph : Phase) (s : Client S)
      → PhaseFits s.promise c.sent ph
      → Inv s
      → Inv (move i c ph s)
  unfolding move
  move-Inv i c ph s h v = record {
    flag = v.flag;
    calls = All-set_call s.promise i (record c { phase = ph }) s.calls h v.calls;
  }

  pub ensure_refresh_joins : (s : Client S) → s.refreshing ≡ true → ensure_refresh s ≡ s
  unfolding ensure_refresh
  ensure_refresh_joins s e = simp e

  pub ensure_refresh_starts :
      (s : Client S)
      → s.refreshing ≡ false
      → ensure_refresh s
        ≡ record s { refreshing = true; promise = some s.started; started = s.started + 1 }
  unfolding ensure_refresh
  ensure_refresh_starts s e = simp e

  ensure_refresh-Inv :
      (s : Client S) → Inv s → Inv (ensure_refresh s) × ((ensure_refresh s).promise ≢ none)
  unfolding ensure_refresh
  ensure_refresh-Inv s v = elim (Bool-cases s.refreshing) [
    | inl e ↦
        subst (λ (t : Client S). Inv t × (t.promise ≢ none)) (sym (ensure_refresh_joins s e))
          (v, some_promise s.promise (sym v.flag ∙ e))
    | inr e ↦
        let fresh : All (CallFits none) s.calls =
          subst (λ p. All (CallFits p) s.calls) (promise_is_none s.promise (sym v.flag ∙ e))
            v.calls in
        subst (λ (t : Client S). Inv t × (t.promise ≢ none)) (sym (ensure_refresh_starts s e))
          (record { flag = refl; calls = All-new s.started s.calls fresh }, λ q. cc)
  ]

  on_break-Inv :
      (ph : Phase) (i : ℕ) (c : Call) (s : Client S)
      → PhaseFits s.promise c.sent ph
      → Inv s
      → Inv (on_break ph i c s)
  unfolding on_break
  on_break-Inv first i c s h v = move-Inv i c (failed network) s (omega arith) v
  on_break-Inv retried i c s h v = move-Inv i c (failed network) s (omega arith) v
  on_break-Inv (waiting q) i c s h v = v
  on_break-Inv (returned q) i c s h v = v
  on_break-Inv (failed q) i c s h v = v

resume-fits :
    (a : RefreshAnswer) (endpoint : String) (n : ℕ) (ph : Phase)
    → n ≡ 1
    → CallFits none (resume a (record { endpoint = endpoint; phase = ph; sent = n }))
unfolding resume
resume-fits granted endpoint n ph h = omega arith
resume-fits denied endpoint n ph h = omega arith
resume-fits broken endpoint n ph h = omega arith

same_number : (m k : ℕ) → m ≡ k → (m == k) ≡ true
same_number m k h = ground arith

resume_phase :
    (p : Option ℕ) (a : RefreshAnswer) (endpoint : String) (ph : Phase) (n : ℕ)
    → PhaseFits p n ph
    → CallFits none (
        let c : Call = record { endpoint = endpoint; phase = ph; sent = n } in
        if waits_for p ph then resume a c else c)
resume_phase none a endpoint first n h = h
resume_phase none a endpoint (waiting q) n h = absurd (h.2 refl)
resume_phase none a endpoint retried n h = h
resume_phase none a endpoint (returned r) n h = h
resume_phase none a endpoint (failed f) n h = h
resume_phase (some k) a endpoint first n h = h
resume_phase (some k) a endpoint (waiting none) n h = cc
resume_phase (some k) a endpoint (waiting (some m)) n (h, e, w) =
    rw (same_number m k (some-injective _ _ e)) (resume-fits a endpoint n (waiting (some m)) h)
resume_phase (some k) a endpoint retried n h = h
resume_phase (some k) a endpoint (returned r) n h = h
resume_phase (some k) a endpoint (failed f) n h = h

-- After the refresh a call of any phase fits the absence of a promise.
resume-CallFits :
    (p : Option ℕ) (a : RefreshAnswer) (c : Call)
    → CallFits p c
    → CallFits none (if waits_for p c.phase then resume a c else c)
unfolding resume
resume-CallFits p a c h = resume_phase p a c.endpoint c.phase c.sent h

All-resume_calls :
    (p : Option ℕ) (a : RefreshAnswer) (cs : List Call)
    → All (CallFits p) cs
    → All (CallFits none) (resume_calls p a cs)
unfolding resume_calls
All-resume_calls p a [] h = tt
All-resume_calls p a (c ∷ cs) (h, hs) = (resume-CallFits p a c h, All-resume_calls p a cs hs)

module _ {S : Type 0} (is_auth : String → Bool) (expire : S → S) where
  on_reply-Inv :
      (ph : Phase) (i : ℕ) (c : Call) (r : Reply) (s : Client S)
      → PhaseFits s.promise c.sent ph
      → Inv s
      → Inv (on_reply is_auth expire ph i c r s)
  unfolding on_reply
  on_reply-Inv first i c r s h v = elim (Bool-cases (r.status == 401 && not (is_auth c.endpoint))) [
    | inl e ↦
        let (v', some') = ensure_refresh-Inv s v in
        rw e
          (move-Inv i c (waiting (ensure_refresh s).promise) (ensure_refresh s) (h, refl, some') v')
    | inr e ↦ rw e (move-Inv i c (finish r) s (finish-PhaseFits s.promise c.sent r (omega arith)) v)
  ]
  on_reply-Inv retried i c r s h v =
      move-Inv i c (finish r) s (finish-PhaseFits s.promise c.sent r (omega arith)) v
  on_reply-Inv (waiting q) i c r s h v = v
  on_reply-Inv (returned q) i c r s h v = v
  on_reply-Inv (failed q) i c r s h v = v

  on_settle-Inv : (a : RefreshAnswer) (s : Client S) → Inv s → Inv (on_settle is_auth expire a s)
  unfolding on_settle
  on_settle-Inv a s v = record { flag = refl; calls = All-resume_calls s.promise a s.calls v.calls }

  step-Inv : (e : Event) (s : Client S) → Inv s → Inv (step is_auth expire e s)
  unfolding step
  step-Inv (start endpoint) s v = record {
    flag = v.flag;
    calls =
        All-start s.promise s.calls (record { endpoint = endpoint; phase = first; sent = 1 })
          v.calls refl;
  }
  step-Inv (answer i r) s v = elim (Option-cases (call_at i s.calls)) [
    | inl e ↦ rw (e, step) v
    | inr (c, e) ↦
        rw (e, step) (on_reply-Inv c.phase i c r s (All-call_at s.promise i s.calls c v.calls e) v)
  ]
  step-Inv (break i) s v = elim (Option-cases (call_at i s.calls)) [
    | inl e ↦ rw (e, step) v
    | inr (c, e) ↦
        rw (e, step) (on_break-Inv c.phase i c s (All-call_at s.promise i s.calls c v.calls e) v)
  ]
  step-Inv (settle a) s v = if_both Inv s.refreshing (on_settle-Inv a s v) v

  -- Every sequence of events keeps the invariant: a refresh is marked as under way exactly while
  -- there is its promise, every waiting call waits for that promise, and a call has sent one request
  -- before its retry and at most two in all.
  pub run-Inv : (es : List Event) (s : Client S) → Inv s → Inv (run is_auth expire es s)
  unfolding run
  run-Inv [] s v = v
  run-Inv (e ∷ es) s v = run-Inv es (step is_auth expire e s) (step-Inv e s v)

  on_reply_started :
      (ph : Phase) (i : ℕ) (c : Call) (r : Reply) (s : Client S)
      → s.refreshing ≡ true
      → (on_reply is_auth expire ph i c r s).started ≡ s.started
  unfolding on_reply await_refresh move
  on_reply_started first i c r s h =
      if_both (λ (t : Client S). t.started ≡ s.started)
        (r.status == 401 && not (is_auth c.endpoint))
        (ap (λ (t : Client S). t.started) (ensure_refresh_joins s h)) refl
  on_reply_started retried i c r s h = refl
  on_reply_started (waiting q) i c r s h = refl
  on_reply_started (returned q) i c r s h = refl
  on_reply_started (failed q) i c r s h = refl

  on_break_started :
      (ph : Phase) (i : ℕ) (c : Call) (s : Client S) → (on_break ph i c s).started ≡ s.started
  unfolding on_break move
  on_break_started first i c s = refl
  on_break_started retried i c s = refl
  on_break_started (waiting q) i c s = refl
  on_break_started (returned q) i c s = refl
  on_break_started (failed q) i c s = refl

  after_answer_started :
      (a : RefreshAnswer) (s : Client S) → (after_answer is_auth expire a s).started ≡ s.started
  unfolding after_answer
  after_answer_started granted s = refl
  after_answer_started denied s = refl
  after_answer_started broken s = refl

  -- While a refresh is under way no event sends another one.
  pub started-step :
      (e : Event) (s : Client S)
      → s.refreshing ≡ true
      → (step is_auth expire e s).started ≡ s.started
  unfolding step on_settle
  started-step (start u) s h = refl
  started-step (answer i r) s h = elim (Option-cases (call_at i s.calls)) [
    | inl e ↦ rw (e, step) refl
    | inr (c, e) ↦ rw (e, step) (on_reply_started c.phase i c r s h)
  ]
  started-step (break i) s h = elim (Option-cases (call_at i s.calls)) [
    | inl e ↦ rw (e, step) refl
    | inr (c, e) ↦ rw (e, step) (on_break_started c.phase i c s)
  ]
  started-step (settle a) s h =
      if_both (λ (t : Client S). t.started ≡ s.started) s.refreshing (after_answer_started a s) refl
