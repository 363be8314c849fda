-- ===== src/ZeroTrust/Revocation.antt =====
-- What a revocation is worth on the page of app/dashboard/security/zerotrust/page.tsx.
use secure_vault.ZeroTrust.{
  Grant, GrantPage, GrantEvent, revoked, map_grant, approved_at, revoked_grant, handle_approve,
  handle_revoke, handle_create_grant, grant_arrives, is_pending, is_active, offers, click_approve,
  click_revoke, fill_form, submit, timer, grant_step, grant_run,
}
use secure_vault.Prelude.{
  ℕ, String, true, false, List, [], ◌∷◌, ◌≡◌, refl, if_both, Bool-cases, inl, inr, All, ◌==◌,
  string_eq, is_empty, if◌then◌else◌, drop, subst, if_false, ap, ◌∙◌, sym, eq_iff, if_true, ◌++◌,
}

-- A grant with the id is revoked.
abbrev pub RevokedIf : String → Grant → Type 0
RevokedIf i g = (g.grant_id == i) ≡ true → g.status ≡ revoked

abbrev pub IsRevoked : String → GrantPage → Type 0
IsRevoked i p = All (RevokedIf i) p.grants

-- No request arrives.
abbrev pub NoTimer : GrantEvent → Type 0
NoTimer (timer now code) = ⊥
NoTimer e = Unit

revoked_not_pending :
    (i : String) (gs : List Grant) → All (RevokedIf i) gs → offers is_pending i gs ≡ false
revoked_not_pending i [] h = refl
revoked_not_pending i (g ∷ gs) (h, hs) = elim (Bool-cases (g.grant_id == i)) [
  | inl e ↦ rw (e, h e) (revoked_not_pending i gs hs)
  | inr e ↦ rw e (revoked_not_pending i gs hs)
]

revoke-All :
    (i j : String) (gs : List Grant)
    → All (RevokedIf i) gs
    → All (RevokedIf i) (map_grant j revoked_grant gs)
unfolding map_grant
revoke-All i j [] h = tt
revoke-All i j (g ∷ gs) (h, hs) =
    (if_both (RevokedIf i) (g.grant_id == j) (λ e. refl) h, revoke-All i j gs hs)

same_ids : (a i j : String) → (a == j) ≡ true → (a == i) ≡ true → (j == i) ≡ true
same_ids a i j e f = subst (λ x. (x == i) ≡ true) ((eq_iff a j).0 e) f

approve-one :
    (now : ℕ) (i j : String) (g : Grant)
    → (j == i) ≡ false
    → RevokedIf i g
    → RevokedIf i (if g.grant_id == j then approved_at now g else g)
approve-one now i j g n h = elim (Bool-cases (g.grant_id == j)) [
  | inl e ↦
      subst (RevokedIf i) (sym (if_true _ _ _ e))
        (λ f. let t : true ≡ false = sym (same_ids g.grant_id i j e f) ∙ n in cc)
  | inr e ↦ subst (RevokedIf i) (sym (if_false _ _ _ e)) h
]

approve-All :
    (now : ℕ) (i j : String) (gs : List Grant)
    → (j == i) ≡ false
    → All (RevokedIf i) gs
    → All (RevokedIf i) (map_grant j (approved_at now) gs)
unfolding map_grant
approve-All now i j [] n h = tt
approve-All now i j (g ∷ gs) n (h, hs) = (approve-one now i j g n h, approve-All now i j gs n hs)

approve-IsRevoked :
    (now : ℕ) (i j : String) (p : GrantPage)
    → IsRevoked i p
    → IsRevoked i (if offers is_pending j p.grants then handle_approve now j p else p)
unfolding handle_approve
approve-IsRevoked now i j p h = elim (Bool-cases (j == i)) [
  | inl e ↦
      subst (IsRevoked i)
        (sym (
          if_false _ _ _ (
            revoked_not_pending j p.grants
              (subst (λ x. All (RevokedIf x) p.grants) (sym ((eq_iff j i).0 e)) h))))
        h
  | inr e ↦
      if_both (IsRevoked i) (offers is_pending j p.grants) (approve-All now i j p.grants e h) h
]

step-IsRevoked :
    (i : String) (e : GrantEvent) (p : GrantPage)
    → NoTimer e
    → IsRevoked i p
    → IsRevoked i (grant_step e p)
unfolding grant_step handle_approve handle_revoke handle_create_grant
step-IsRevoked i (click_approve now j) p n h = approve-IsRevoked now i j p h
step-IsRevoked i (click_revoke j) p n h =
    if_both (IsRevoked i) (offers is_active j p.grants) (revoke-All i j p.grants h) h
step-IsRevoked i (fill_form scope why minutes) p n h = h
step-IsRevoked i submit p n h =
    if_both (IsRevoked i) p.is_submitting h (if_both (IsRevoked i) _ h h)
step-IsRevoked i (timer now code) p n h = absurd n

-- While no request for a grant arrives, a revoked grant stays revoked, whatever is clicked.
pub grant_run-IsRevoked :
    (i : String) (es : List GrantEvent) (p : GrantPage)
    → All NoTimer es
    → IsRevoked i p
    → IsRevoked i (grant_run es p)
unfolding grant_run
grant_run-IsRevoked i [] p n h = h
grant_run-IsRevoked i (e ∷ es) p (n, ns) h =
    grant_run-IsRevoked i es (grant_step e p) ns (step-IsRevoked i e p n h)

-- The page after the click on "submit" of a request with a justification.
abbrev submitted : GrantPage → GrantPage
submitted p = record p {
  is_submitting = true;
  waiting =
      record {
        seen_grants = p.grants;
        seen_scope = p.new_scope;
        seen_justification = p.new_justification;
        seen_duration = p.new_duration;
      }
      ∷ [];
}

submit-submitted :
    (p : GrantPage)
    → p.is_submitting ≡ false
    → p.waiting ≡ []
    → is_empty p.new_justification ≡ false
    → grant_step submit p ≡ submitted p
unfolding grant_step handle_create_grant
submit-submitted p s w j = if_false _ _ _ s ∙ if_false _ _ _ j ∙ (λ k. record p {
  is_submitting = true;
  waiting =
      w k
      ++ record {
        seen_grants = p.grants;
        seen_scope = p.new_scope;
        seen_justification = p.new_justification;
        seen_duration = p.new_duration;
      }
        ∷ [];
})

arrived :
    (i : String) (now : ℕ) (code : String) (p : GrantPage)
    → drop 1 (grant_run (click_revoke i ∷ timer now code ∷ []) (submitted p)).grants ≡ p.grants
unfolding grant_run grant_step handle_revoke grant_arrives
arrived i now code p =
    if_both (λ (q : GrantPage). drop 1 (grant_step (timer now code) q).grants ≡ p.grants)
      (offers is_active i p.grants) {x = handle_revoke i (submitted p)} {y = submitted p} refl refl

-- A grant that is revoked while a request is on its way is back when the request arrives: the list is the one
-- before the revocation.
pub lost_revocation :
    (i : String) (now : ℕ) (code : String) (p : GrantPage)
    → p.is_submitting ≡ false
    → p.waiting ≡ []
    → is_empty p.new_justification ≡ false
    → let q : GrantPage = grant_run (submit ∷ click_revoke i ∷ timer now code ∷ []) p in
      drop 1 q.grants ≡ p.grants
unfolding grant_run
lost_revocation i now code p s w j =
    ap (λ q. drop 1 (grant_run (click_revoke i ∷ timer now code ∷ []) q).grants)
      (submit-submitted p s w j)
    ∙ arrived i now code p
