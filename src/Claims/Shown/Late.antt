-- ===== src/Claims/Shown/Late.antt =====
-- What a late reply does to the drawer of app/dashboard/claims/page.tsx.
use secure_vault.Claims.{
  ClaimCase, ClaimStatus, ClaimsPage, map_claim, adjudicated, new_status, Decision,
  handle_adjudicate, waiting_reply, adjudicate_reply,
}
use secure_vault.Claims.Shown.{
  inspect_in, waiting_at, without_waiting, Deed, inspect, close_drawer, adjudicate, replied,
  reply_at, do_deed, do_deeds,
}
use secure_vault.Replies.{ok}
use secure_vault.Prelude.{
  ℕ, String, true, false, List, [], ◌∷◌, ◌==◌, string_eq, ◌≡◌, refl, if_false, Option, none, some,
  suc, zero, sym, ◌∙◌, ap, subst,
}

-- The claim at a place of the list.
unfoldable pub claim_at : ℕ → List ClaimCase → Option ClaimCase
claim_at n [] = none
claim_at zero (c ∷ cs) = some c
claim_at (suc n) (c ∷ cs) = claim_at n cs

-- The status of the claim in the drawer.
abbrev pub shown_status : ClaimsPage → Option ClaimStatus
shown_status p = elim p.selected_claim [ none ↦ none | some c ↦ some c.status ]

abbrev opened : ClaimCase → ClaimsPage → ClaimsPage
opened c p = record p { selected_claim = some c; show_detail_drawer = true }

some_claim : (c x : ClaimCase) → some c ≡ some x → c ≡ x
some_claim c x e = ap (λ (o : Option ClaimCase). elim o [ none ↦ c | some y ↦ y ]) e

inspect_in-claim_at :
    (n : ℕ) (x : ClaimCase) (cs : List ClaimCase) (p : ClaimsPage)
    → claim_at n cs ≡ some x
    → inspect_in n cs p ≡ opened x p
unfolding inspect_in claim_at
inspect_in-claim_at n x [] p h = cc
inspect_in-claim_at zero x (c ∷ cs) p h = ap (λ y. opened y p) (some_claim c x h)
inspect_in-claim_at (suc n) x (c ∷ cs) p h = inspect_in-claim_at n x cs p h

-- A change of another claim leaves this one.
claim_at-map_claim :
    (n : ℕ) (i : String) (f : ClaimCase → ClaimCase) (y : ClaimCase) (cs : List ClaimCase)
    → claim_at n cs ≡ some y
    → (y.id == i) ≡ false
    → claim_at n (map_claim i f cs) ≡ some y
unfolding claim_at map_claim
claim_at-map_claim n i f y [] h k = cc
claim_at-map_claim zero i f y (c ∷ cs) h k =
    let e = some_claim c y h in
    ap some (if_false _ _ _ (subst (λ (z : ClaimCase). (z.id == i) ≡ false) (sym e) k) ∙ e)
claim_at-map_claim (suc n) i f y (c ∷ cs) h k = claim_at-map_claim n i f y cs h k

-- The page with no request on its way.
abbrev pub quiet : ClaimsPage → ClaimsPage
quiet p = record p { waiting = [] }

-- A claim is decided on, the drawer is closed and opened on another claim, and then the reply comes.
abbrev pub late_reply : Decision → ℕ → ℕ → List Deed
late_reply d m n = inspect m ∷ adjudicate d ∷ close_drawer ∷ inspect n ∷ replied 0 (ok tt) ∷ []

-- A decision whose reply comes after another claim has been opened is shown on that other claim, whose status in the list
-- stays as it was.
pub late_adjudication :
    (d : Decision) (m n : ℕ) (x y : ClaimCase) (p : ClaimsPage)
    → claim_at m p.claims ≡ some x
    → claim_at n p.claims ≡ some y
    → (y.id == x.id) ≡ false
    → let q : ClaimsPage = do_deeds (late_reply d m n) (quiet p) in
      (shown_status q ≡ some (new_status d)) × (claim_at n q.claims ≡ some y)
unfolding do_deeds do_deed handle_adjudicate reply_at waiting_at without_waiting waiting_reply
    adjudicate_reply
late_adjudication d m n x y p h k e =
    let decided : ClaimsPage = do_deeds (adjudicate d ∷ close_drawer ∷ []) (opened x (quiet p)) in
    let path =
      ap (do_deeds (adjudicate d ∷ close_drawer ∷ inspect n ∷ replied 0 (ok tt) ∷ []))
        (inspect_in-claim_at m x p.claims (quiet p) h)
      ∙ ap (do_deeds (replied 0 (ok tt) ∷ [])) (inspect_in-claim_at n y p.claims decided k) in
    subst
      (λ (q : ClaimsPage). (shown_status q ≡ some (new_status d)) × (claim_at n q.claims ≡ some y))
      (sym path) (refl, claim_at-map_claim n x.id (adjudicated d p.typed_notes) y p.claims k e)
