-- ===== src/Governance/Vetoed.antt =====
-- What a veto on app/dashboard/governance/page.tsx is worth while a signature is on its way.
use secure_vault.Governance.{
  Proposal, State, Board, Event, run, step, click_sign, click_veto, click_execute, timer, each,
  signed, put_state, handle_sign, handle_veto, handle_execute, sign_arrives, offered, has_sign,
  has_veto, has_execute, executed, executable, vetoed_by_owner, collecting_signatures, has_timelock,
  next_state,
}
use secure_vault.Governance.Quorum.{put_here, signed_here, next_here}
use secure_vault.Prelude.{
  ℕ, zero, suc, ◌+◌, ◌≤◌, ◌<◌, String, Bool, true, false, Option, none, some, List, [], ◌∷◌, ◌≡◌,
  refl, ap, sym, ◌∙◌, subst, arith, ◌==◌, string_eq, eq_refl, ◌&&◌, if_true, not, ◌++◌,
}

-- The proposal in a row of the board.
unfoldable pub row_at : ℕ → List Proposal → Option Proposal
row_at n [] = none
row_at zero (p ∷ ps) = some p
row_at (suc n) (p ∷ ps) = row_at n ps

some_row : (p q : Proposal) → some p ≡ some q → p ≡ q
some_row p q e = ap (λ (o : Option Proposal). elim o [ none ↦ p | some x ↦ x ]) e

row_at-each :
    (f : Proposal → Proposal) (n : ℕ) (p : Proposal) (ps : List Proposal)
    → row_at n ps ≡ some p
    → row_at n (each f ps) ≡ some (f p)
unfolding row_at each
row_at-each f n p [] h = cc
row_at-each f zero p (q ∷ ps) h = ap (λ x. some (f x)) (some_row q p h)
row_at-each f (suc n) p (q ∷ ps) h = row_at-each f n p ps h

-- A row with the button offers it.
offered-row_at :
    (has : State → Bool) (n : ℕ) (p : Proposal) (ps : List Proposal)
    → row_at n ps ≡ some p
    → has p.state ≡ true
    → offered has p.proposal_id ps ≡ true
unfolding row_at offered
offered-row_at has n p [] h k = cc
offered-row_at has zero p (q ∷ ps) h k =
    let here : (q.proposal_id == p.proposal_id && has q.state) ≡ true =
      subst (λ (x : Proposal). (x.proposal_id == p.proposal_id && has x.state) ≡ true)
        (sym (some_row q p h)) (rw (eq_refl p.proposal_id, k) refl) in
    ground (arith, here)
offered-row_at has (suc n) p (q ∷ ps) h k =
    let there = offered-row_at has n p ps h k in ground (arith, there)

module _ (n : ℕ) (p : Proposal) where
  sign-Row :
      (b : Board)
      → row_at n b.proposals ≡ some p
      → p.state ≡ collecting_signatures
      → b.is_signing ≡ false
      → step (click_sign p.proposal_id) b ≡ handle_sign p.proposal_id b
  unfolding step
  sign-Row b r c h =
      let o = offered-row_at has_sign n p b.proposals r (ap has_sign c) in
      if_true (offered has_sign p.proposal_id b.proposals && not b.is_signing) _ b (rw (o, h) refl)

  veto-Row :
      (b : Board)
      → row_at n b.proposals ≡ some p
      → has_veto p.state ≡ true
      → step (click_veto p.proposal_id) b ≡ handle_veto p.proposal_id b
  unfolding step
  veto-Row b r c = if_true _ _ _ (offered-row_at has_veto n p b.proposals r c)

  execute-Row :
      (b : Board)
      → row_at n b.proposals ≡ some p
      → p.state ≡ executable
      → step (click_execute p.proposal_id) b ≡ handle_execute p.proposal_id b
  unfolding step
  execute-Row b r c =
      if_true _ _ _ (offered-row_at has_execute n p b.proposals r (ap has_execute c))

  veto-row_at :
      (b : Board)
      → row_at n b.proposals ≡ some p
      → has_veto p.state ≡ true
      → row_at n (step (click_veto p.proposal_id) b).proposals
        ≡ some (record p { state = vetoed_by_owner })
  unfolding handle_veto
  veto-row_at b r h =
      ap (λ (c : Board). row_at n c.proposals) (veto-Row b r h)
      ∙ row_at-each (put_state vetoed_by_owner p.proposal_id) n p b.proposals r
      ∙ ap some (put_here vetoed_by_owner p)

  veto-due :
      (b : Board)
      → row_at n b.proposals ≡ some p
      → has_veto p.state ≡ true
      → (step (click_veto p.proposal_id) b).due ≡ b.due
  unfolding handle_veto
  veto-due b r h = ap (λ (c : Board). c.due) (veto-Row b r h)

  timer-row_at :
      (b : Board)
      → row_at n b.proposals ≡ some p
      → b.due ≡ p.proposal_id ∷ []
      → p.signed_count < p.total_custodians
      → row_at n (step timer b).proposals
        ≡ some (record p {
          signed_count = p.signed_count + 1;
          state = next_state p (p.signed_count + 1);
        })
  unfolding step sign_arrives
  timer-row_at b r d h =
      ap (λ ids. row_at n (sign_arrives ids b).proposals) d
      ∙ row_at-each (signed p.proposal_id) n p b.proposals r
      ∙ ap some (signed_here p h)

  execute-row_at :
      (b : Board)
      → row_at n b.proposals ≡ some p
      → p.state ≡ executable
      → row_at n (step (click_execute p.proposal_id) b).proposals
        ≡ some (record p { state = executed })
  unfolding handle_execute
  execute-row_at b r h =
      ap (λ (c : Board). row_at n c.proposals) (execute-Row b r h)
      ∙ row_at-each (put_state executed p.proposal_id) n p b.proposals r
      ∙ ap some (put_here executed p)

-- The clicks and the timer: a signature, a veto while it is on its way, its arrival, and an execution.
abbrev pub vetoed_between : String → List Event
vetoed_between id = click_sign id ∷ click_veto id ∷ timer ∷ click_execute id ∷ []

module _ (n : ℕ) (p : Proposal) (b : Board) (r : row_at n b.proposals ≡ some p)
    (c : p.state ≡ collecting_signatures) (u : b.is_signing ≡ false) (d : b.due ≡ [])
    (k : p.signed_count < p.total_custodians) (q : p.threshold_required ≤ p.signed_count + 1)
    (l : has_timelock p.timelock_expires_at ≡ false) where
  abbrev clicked : Board
  clicked = handle_sign p.proposal_id b

  abbrev vetoed : Board
  vetoed = step (click_veto p.proposal_id) clicked

  vetoed-row_at : row_at n vetoed.proposals ≡ some (record p { state = vetoed_by_owner })
  unfolding handle_sign
  vetoed-row_at = veto-row_at n p clicked r (ap has_veto c)

  vetoed-due : vetoed.due ≡ p.proposal_id ∷ []
  unfolding handle_sign
  vetoed-due = veto-due n p clicked r (ap has_veto c) ∙ ap (λ ids. ids ++ p.proposal_id ∷ []) d

  arrived-row_at :
      row_at n (step timer vetoed).proposals
      ≡ some (record p { signed_count = p.signed_count + 1; state = executable })
  arrived-row_at =
      timer-row_at n (record p { state = vetoed_by_owner }) vetoed vetoed-row_at vetoed-due k
      ∙ ap (λ st. some (record p { signed_count = p.signed_count + 1; state = st }))
          (next_here (record p { state = vetoed_by_owner }) (p.signed_count + 1) q l)

  -- A veto that is given on a proposal without a time lock, while the signature that completes its quorum is on its
  -- way, does not last: the signature arrives, and then the proposal is executed.
  pub vetoed_then_executed :
      row_at n (run (vetoed_between p.proposal_id) b).proposals
      ≡ some (record p { signed_count = p.signed_count + 1; state = executed })
  unfolding run
  vetoed_then_executed =
      ap
        (λ (x : Board).
          row_at n
            (run (click_veto p.proposal_id ∷ timer ∷ click_execute p.proposal_id ∷ []) x).proposals)
        (sign-Row n p b r c u)
      ∙ execute-row_at n (record p { signed_count = p.signed_count + 1; state = executable })
          (step timer vetoed) arrived-row_at refl
