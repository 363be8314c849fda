-- ===== src/Governance/Quorum.antt =====
-- What the quorum guarantees on the page of app/dashboard/governance/page.tsx.
use secure_vault.Governance.{
  State, Proposal, Board, Event, step, run, executed, executable, timelock_running, proposed,
  collecting_signatures, vetoed_by_owner, each, signed, put_state, ◌∷◌, next_state, Bool, true,
  false, offered, ltb, leb, has_execute, sign_arrives, handle_sign, handle_execute, has_timelock,
  handle_veto, click_execute, click_sign, has_sign, not, click_veto, has_veto, timer,
}
use secure_vault.Prelude.{
  ℕ, String, List, All, ◌≡◌, ◌≤◌, if_both, ◌==◌, [], string_eq, sym, refl, Bool-cases, ◌∙◌, inl,
  arith, ◌&&◌, inr, ◌+◌, subst, if_false, eq_iff, ◌<◌, if_true, eq_refl,
}

-- The states that only a quorum reaches.
abbrev pub needs_quorum : State → Bool
needs_quorum executed = true
needs_quorum executable = true
needs_quorum timelock_running = true
needs_quorum _ = false

abbrev pub Sound : Proposal → Type 0
Sound p =
    (p.signed_count ≤ p.total_custodians)
    × (needs_quorum p.state ≡ true → p.threshold_required ≤ p.signed_count)

-- No other proposal has the id.
abbrev pub AllOther : String → List Proposal → Type 0
AllOther id [] = Unit
AllOther id (p ∷ ps) = ((p.proposal_id == id) ≡ false) × AllOther id ps

abbrev pub Distinct : List Proposal → Type 0
Distinct [] = Unit
Distinct (p ∷ ps) = AllOther p.proposal_id ps × Distinct ps

pub record IsSound (b : Board) : Type 0 where
  pub sound : All Sound b.proposals
  pub distinct : Distinct b.proposals

All-each :
    (P : Proposal → Type 0) (f : Proposal → Proposal) (ps : List Proposal)
    → ((p : Proposal) → P p → P (f p))
    → All P ps
    → All P (each f ps)
unfolding each
All-each P f [] h v = tt
All-each P f (p ∷ ps) h (v, vs) = (h p v, All-each P f ps h vs)

-- The quorum is what the next state tells.
needs_quorum-next_state :
    (p : Proposal) (n : ℕ) → needs_quorum (next_state p n) ≡ leb p.threshold_required n
unfolding next_state
needs_quorum-next_state p n = ground arith

next_state-Sound :
    (p : Proposal) (n : ℕ)
    → n ≤ p.total_custodians
    → Sound (record p { signed_count = n; state = next_state p n })
next_state-Sound p n h = (h, λ k. let l = sym (needs_quorum-next_state p n) ∙ k in ground arith)

signed_full :
    (id : String) (p : Proposal) → ltb p.signed_count p.total_custodians ≡ false → signed id p ≡ p
unfolding signed
signed_full id p e =
    if_false (p.proposal_id == id && ltb p.signed_count p.total_custodians) _ _ (ground (arith, e))

signed-Sound : (id : String) (p : Proposal) → Sound p → Sound (signed id p)
unfolding signed
signed-Sound id p v = elim (Bool-cases (ltb p.signed_count p.total_custodians)) [
  | inl e ↦
      if_both Sound (p.proposal_id == id && ltb p.signed_count p.total_custodians)
        (next_state-Sound p (p.signed_count + 1) (ground arith)) v
  | inr e ↦ subst Sound (sym (signed_full id p e)) v
]

veto-Sound : (id : String) (p : Proposal) → Sound p → Sound (put_state vetoed_by_owner id p)
unfolding put_state
veto-Sound id p v = if_both Sound (p.proposal_id == id) (v.0, λ h. cc) v

AllOther-each :
    (id : String) (f : Proposal → Proposal) (ps : List Proposal)
    → ((p : Proposal) → (f p).proposal_id ≡ p.proposal_id)
    → AllOther id ps
    → AllOther id (each f ps)
unfolding each
AllOther-each id f [] h v = tt
AllOther-each id f (p ∷ ps) h (v, vs) = (rw (h p) v, AllOther-each id f ps h vs)

Distinct-each :
    (f : Proposal → Proposal) (ps : List Proposal)
    → ((p : Proposal) → (f p).proposal_id ≡ p.proposal_id)
    → Distinct ps
    → Distinct (each f ps)
unfolding each
Distinct-each f [] h v = tt
Distinct-each f (p ∷ ps) h (v, vs) =
    (rw (h p) (AllOther-each p.proposal_id f ps h v), Distinct-each f ps h vs)

offered-AllOther :
    (has : State → Bool) (id : String) (ps : List Proposal)
    → AllOther id ps
    → offered has id ps ≡ false
unfolding offered
offered-AllOther has id [] v = refl
offered-AllOther has id (p ∷ ps) (v, vs) = rw (v, offered-AllOther has id ps vs) refl

each-AllOther :
    (st : State) (id : String) (ps : List Proposal)
    → AllOther id ps
    → each (put_state st id) ps ≡ ps
unfolding each put_state
each-AllOther st id [] v = refl
each-AllOther st id (p ∷ ps) (v, vs) =
    let head = if_false (p.proposal_id == id) (record p { state = st }) p v in
    λ i. head i ∷ each-AllOther st id ps vs i

execute_needs_quorum : (st : State) → has_execute st ≡ true → needs_quorum st ≡ true
execute_needs_quorum executable h = refl
execute_needs_quorum proposed h = cc
execute_needs_quorum collecting_signatures h = cc
execute_needs_quorum timelock_running h = cc
execute_needs_quorum executed h = cc
execute_needs_quorum vetoed_by_owner h = cc

executable_quorum :
    (p : Proposal) → Sound p → has_execute p.state ≡ true → Sound (record p { state = executed })
executable_quorum p v h = (v.0, λ k. v.1 (execute_needs_quorum p.state h))

same_id : (a b : String) → (a == b) ≡ true → a ≡ b
same_id a b e = ground (arith, e, eq_iff a b)

execute-Sound :
    (id : String) (ps : List Proposal)
    → Distinct ps
    → offered has_execute id ps ≡ true
    → All Sound ps
    → All Sound (each (put_state executed id) ps)
unfolding each put_state offered
execute-Sound id [] d h v = tt
execute-Sound id (p ∷ ps) (d, ds) h (v, vs) = elim (Bool-cases (p.proposal_id == id)) [
  | inl e ↦
      let others : AllOther id ps = subst (λ j. AllOther j ps) (same_id p.proposal_id id e) d in
      (
        if_both Sound (p.proposal_id == id)
            (executable_quorum p v
              (ground (arith, e, h, offered-AllOther has_execute id ps others)))
            v,
        subst (All Sound) (sym (each-AllOther executed id ps others)) vs,
      )
  | inr e ↦ (
    subst Sound (sym (if_false (p.proposal_id == id) _ _ e)) v,
    execute-Sound id ps ds (ground (arith, e, h)) vs,
  )
]

put_state_id :
    (st : State) (id : String) (p : Proposal) → (put_state st id p).proposal_id ≡ p.proposal_id
unfolding put_state
put_state_id st id p =
    if_both (λ (q : Proposal). q.proposal_id ≡ p.proposal_id) (p.proposal_id == id) refl refl

signed_id : (id : String) (p : Proposal) → (signed id p).proposal_id ≡ p.proposal_id
unfolding signed
signed_id id p =
    if_both (λ (q : Proposal). q.proposal_id ≡ p.proposal_id)
      (p.proposal_id == id && ltb p.signed_count p.total_custodians) refl refl

arrives-IsSound : (due : List String) (b : Board) → IsSound b → IsSound (sign_arrives due b)
unfolding sign_arrives
arrives-IsSound [] b v = v
arrives-IsSound (id ∷ rest) b v = record {
  sound = All-each Sound (signed id) b.proposals (signed-Sound id) v.sound;
  distinct = Distinct-each (signed id) b.proposals (signed_id id) v.distinct;
}

execute-IsSound : (id : String) (b : Board) → IsSound b → IsSound (step (click_execute id) b)
unfolding step handle_execute
execute-IsSound id b v = elim (Bool-cases (offered has_execute id b.proposals)) [
  | inl e ↦ subst IsSound (sym (if_true _ _ _ e)) (record {
    sound = execute-Sound id b.proposals v.distinct e v.sound;
    distinct =
        Distinct-each (put_state executed id) b.proposals (put_state_id executed id) v.distinct;
  })
  | inr e ↦ subst IsSound (sym (if_false _ _ _ e)) v
]

step-IsSound : (e : Event) (b : Board) → IsSound b → IsSound (step e b)
unfolding step handle_sign handle_veto
step-IsSound (click_sign id) b v =
    if_both IsSound (offered has_sign id b.proposals && not b.is_signing)
      (record { sound = v.sound; distinct = v.distinct }) v
step-IsSound (click_execute id) b v = execute-IsSound id b v
step-IsSound (click_veto id) b v =
    if_both IsSound (offered has_veto id b.proposals)
      (record {
        sound = All-each Sound (put_state vetoed_by_owner id) b.proposals (veto-Sound id) v.sound;
        distinct =
            Distinct-each (put_state vetoed_by_owner id) b.proposals
              (put_state_id vetoed_by_owner id) v.distinct;
      })
      v
step-IsSound timer b v = arrives-IsSound b.due b v

-- On a board of distinct ids whose proposals are sound, every sequence of clicks and timers keeps each
-- proposal sound: never more signatures than custodians, and none that runs its time lock, can be executed or is executed
-- without the signatures of its threshold.
pub run-IsSound : (es : List Event) (b : Board) → IsSound b → IsSound (run es b)
unfolding run
run-IsSound [] b v = v
run-IsSound (e ∷ es) b v = run-IsSound es (step e b) (step-IsSound e b v)

pub put_here : (st : State) (p : Proposal) → put_state st p.proposal_id p ≡ record p { state = st }
unfolding put_state
put_here st p = if_true (p.proposal_id == p.proposal_id) _ _ (eq_refl p.proposal_id)

pub signed_here :
    (p : Proposal)
    → p.signed_count < p.total_custodians
    → signed p.proposal_id p
      ≡ record p { signed_count = p.signed_count + 1; state = next_state p (p.signed_count + 1) }
unfolding signed
signed_here p h =
    if_true (p.proposal_id == p.proposal_id && ltb p.signed_count p.total_custodians) _ _
      (rw (eq_refl p.proposal_id) (ground arith))

pub next_here :
    (p : Proposal) (n : ℕ)
    → p.threshold_required ≤ n
    → has_timelock p.timelock_expires_at ≡ false
    → next_state p n ≡ executable
unfolding next_state
next_here p n h l =
    if_true (leb p.threshold_required n) _ _ (ground arith)
    ∙ if_false (has_timelock p.timelock_expires_at) _ _ l
