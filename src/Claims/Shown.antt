-- ===== src/Claims/Shown.antt =====
-- What the list and the drawer of app/dashboard/claims/page.tsx show of one claim, while requests are on their way.
pub mod Late
use secure_vault.Claims.{
  ClaimCase, ClaimStatus, ClaimsPage, Waiting, disputing, adjudicating, handle_owner_dispute,
  handle_adjudicate, map_claim, map_drawer, dispute, disputed, adjudicated, new_status, Decision,
  rejected_disputed, dispute_reply, adjudicate_reply, waiting_reply, is_adjudication,
}
use secure_vault.Replies.{Outcome, ok, not_ok, offline}
use secure_vault.Prelude.{
  ℕ, String, Bool, true, false, List, [], ◌∷◌, ◌==◌, string_eq, ◌≡◌, refl, Bool-cases, inl, inr,
  if_true, if_false, if◌then◌else◌, All, Option, none, some, suc, subst, zero, sym, ◌∙◌, ap, any,
  if_both,
}

-- "Inspect Risk" on the claim at a place of the list; the list has no other places.
unfoldable pub inspect_in : ℕ → List ClaimCase → ClaimsPage → ClaimsPage
inspect_in n [] p = p
inspect_in zero (c ∷ cs) p = record p { selected_claim = some c; show_detail_drawer = true }
inspect_in (suc n) (c ∷ cs) p = inspect_in n cs p

-- The request on its way at a place of the list, and the others.
unfoldable pub waiting_at : ℕ → List Waiting → Option Waiting
waiting_at n [] = none
waiting_at zero (w ∷ ws) = some w
waiting_at (suc n) (w ∷ ws) = waiting_at n ws

unfoldable pub without_waiting : ℕ → List Waiting → List Waiting
without_waiting n [] = []
without_waiting zero (w ∷ ws) = ws
without_waiting (suc n) (w ∷ ws) = w ∷ without_waiting n ws

-- The clicks, and the ends of the requests in any order.
pub data Deed : Type 0 where
  inspect : ℕ → Deed
  close_drawer : Deed
  deny : String → Deed
  adjudicate : Decision → Deed
  type_notes : String → Deed
  replied : ℕ → Outcome Unit → Deed

unfoldable pub reply_at : Option Waiting → ℕ → Outcome Unit → ClaimsPage → ClaimsPage
unfolding waiting_reply without_waiting
reply_at none n reply p = p
reply_at (some w) n reply p =
    waiting_reply w reply (record p { waiting = without_waiting n p.waiting })

unfoldable pub do_deed : Deed → ClaimsPage → ClaimsPage
unfolding inspect_in handle_owner_dispute handle_adjudicate reply_at waiting_at
do_deed (inspect n) p = inspect_in n p.claims p
do_deed close_drawer p = record p { show_detail_drawer = false }
do_deed (deny i) p = handle_owner_dispute i p
do_deed (adjudicate d) p = handle_adjudicate d p
do_deed (type_notes text) p = record p { typed_notes = text }
do_deed (replied n reply) p = reply_at (waiting_at n p.waiting) n reply p

unfoldable pub do_deeds : List Deed → ClaimsPage → ClaimsPage
unfolding do_deed
do_deeds [] p = p
do_deeds (e ∷ es) p = do_deeds es (do_deed e p)

-- A claim has the status that `st` gives its id.
abbrev pub Has : (String → ClaimStatus) → ClaimCase → Type 0
Has st c = c.status ≡ st c.id

abbrev pub SelectedHas : (String → ClaimStatus) → Option ClaimCase → Type 0
SelectedHas st none = Unit
SelectedHas st (some c) = Has st c

-- One status for each id, in the list and in the drawer.
abbrev pub OneStatus : ClaimsPage → Type 0
OneStatus p =
    (st : String → ClaimStatus) × (All (Has st) p.claims × SelectedHas st p.selected_claim)

-- The drawer's claim has the id `i`, or has not, as `b` says.
abbrev pub DrawerIs : String → Bool → Option ClaimCase → Type 0
DrawerIs i b none = Unit
DrawerIs i b (some c) = (c.id == i) ≡ b

-- A reply finds the drawer as its request has left it: with the claim of the request, or with another one or none.
abbrev pub IsTimely : Option Waiting → Option ClaimCase → Type 0
IsTimely none o = Unit
IsTimely (some (disputing i was_in_drawer)) o = DrawerIs i was_in_drawer o
IsTimely (some (adjudicating d c notes)) o = DrawerIs c.id true o

abbrev pub DeedTimely : Deed → ClaimsPage → Type 0
DeedTimely (replied n reply) p = IsTimely (waiting_at n p.waiting) p.selected_claim
DeedTimely e p = Unit

abbrev pub AllTimely : List Deed → ClaimsPage → Type 0
AllTimely [] p = Unit
AllTimely (e ∷ es) p = DeedTimely e p × AllTimely es (do_deed e p)

-- The statuses after the claim `i` has got a new one.
abbrev put : String → ClaimStatus → (String → ClaimStatus) → String → ClaimStatus
put i s st j = if j == i then s else st j

-- A change that gives a claim the status `s`.
record Gives (f : ClaimCase → ClaimCase) (s : ClaimStatus) : Type 0 where
  keeps_id : (c : ClaimCase) → (f c).id ≡ c.id
  gives_status : (c : ClaimCase) → (f c).status ≡ s

module _ (i : String) (f : ClaimCase → ClaimCase) (s : ClaimStatus) (st : String → ClaimStatus)
    (g : Gives f s) where
  changed-Has : (c : ClaimCase) → (c.id == i) ≡ true → Has (put i s st) (f c)
  changed-Has c e = g.gives_status c ∙ sym (ap (put i s st) (g.keeps_id c) ∙ if_true _ _ _ e)

  unchanged-Has : (c : ClaimCase) → (c.id == i) ≡ false → Has st c → Has (put i s st) c
  unchanged-Has c e h = h ∙ sym (if_false _ _ _ e)

  map_claim-Has :
      (cs : List ClaimCase) → All (Has st) cs → All (Has (put i s st)) (map_claim i f cs)
  unfolding map_claim
  map_claim-Has [] h = tt
  map_claim-Has (c ∷ cs) (h, hs) = (
    elim (Bool-cases (c.id == i)) [
      | inl e ↦ subst (Has (put i s st)) (sym (if_true _ _ _ e)) (changed-Has c e)
      | inr e ↦ subst (Has (put i s st)) (sym (if_false _ _ _ e)) (unchanged-Has c e h)
    ],
    map_claim-Has cs hs,
  )

  drawer-Has :
      (b : Bool) (o : Option ClaimCase)
      → DrawerIs i b o
      → SelectedHas st o
      → SelectedHas (put i s st) (if b then map_drawer f o else o)
  drawer-Has true none t h = tt
  drawer-Has true (some c) t h = changed-Has c t
  drawer-Has false none t h = tt
  drawer-Has false (some c) t h = unchanged-Has c t h

disputed-Gives : (why : String) → Gives (disputed why) rejected_disputed
disputed-Gives why = record { keeps_id = λ c. refl; gives_status = λ c. refl }

adjudicated-Gives : (d : Decision) (why : String) → Gives (adjudicated d why) (new_status d)
adjudicated-Gives d why = record { keeps_id = λ c. refl; gives_status = λ c. refl }

dispute-OneStatus :
    (i : String) (b : Bool) (p : ClaimsPage)
    → DrawerIs i b p.selected_claim
    → OneStatus p
    → OneStatus (dispute i b p)
unfolding dispute
dispute-OneStatus i b p t (st, (a, h)) = (
  put i rejected_disputed st,
  (
    map_claim-Has i _ rejected_disputed st (disputed-Gives _) p.claims a,
    drawer-Has i _ rejected_disputed st (disputed-Gives _) b p.selected_claim t h,
  ),
)

-- What an adjudication of the claim `c` leaves, when it has had a reply.
adjudicated-OneStatus :
    (d : Decision) (c : ClaimCase) (notes : String) (cs : List ClaimCase) (o : Option ClaimCase)
    (st : String → ClaimStatus)
    → DrawerIs c.id true o
    → All (Has st) cs
    → SelectedHas st o
    → (x : String → ClaimStatus) × (All (Has x) (map_claim c.id (adjudicated d notes) cs)
        × SelectedHas x (map_drawer (adjudicated d notes) o))
adjudicated-OneStatus d c notes cs o st t a h = (
  put c.id (new_status d) st,
  (
    map_claim-Has c.id (adjudicated d notes) (new_status d) st (adjudicated-Gives d notes) cs a,
    drawer-Has c.id (adjudicated d notes) (new_status d) st (adjudicated-Gives d notes) true o t h,
  ),
)

reply-OneStatus :
    (o : Option Waiting) (n : ℕ) (reply : Outcome Unit) (p : ClaimsPage)
    → IsTimely o p.selected_claim
    → OneStatus p
    → OneStatus (reply_at o n reply p)
unfolding reply_at waiting_reply dispute_reply adjudicate_reply
reply-OneStatus none n reply p t h = h
reply-OneStatus (some (disputing i b)) n (ok u) p t h =
    dispute-OneStatus i b (record p { waiting = without_waiting n p.waiting }) t h
reply-OneStatus (some (disputing i b)) n not_ok p t h =
    dispute-OneStatus i b (record p { waiting = without_waiting n p.waiting }) t h
reply-OneStatus (some (disputing i b)) n offline p t h = h
reply-OneStatus (some (adjudicating d c notes)) n (ok u) p t (st, (a, h)) =
    adjudicated-OneStatus d c notes p.claims p.selected_claim st t a h
reply-OneStatus (some (adjudicating d c notes)) n not_ok p t (st, (a, h)) =
    adjudicated-OneStatus d c notes p.claims p.selected_claim st t a h
reply-OneStatus (some (adjudicating d c notes)) n offline p t h = h

inspect-OneStatus :
    (n : ℕ) (cs : List ClaimCase) (p : ClaimsPage) (st : String → ClaimStatus)
    → All (Has st) p.claims
    → SelectedHas st p.selected_claim
    → All (Has st) cs
    → OneStatus (inspect_in n cs p)
unfolding inspect_in
inspect-OneStatus n [] p st a h b = (st, (a, h))
inspect-OneStatus zero (c ∷ cs) p st a h (b, bs) = (st, (a, b))
inspect-OneStatus (suc n) (c ∷ cs) p st a h (b, bs) = inspect-OneStatus n cs p st a h bs

click-OneStatus :
    (d : Decision) (o : Option ClaimCase) (p : ClaimsPage)
    → p.selected_claim ≡ o
    → OneStatus p
    → OneStatus (handle_adjudicate d p)
unfolding handle_adjudicate
click-OneStatus d none p e (st, (a, h)) = rw e (st, (a, tt))
click-OneStatus d (some c) p e (st, (a, h)) = rw e (
    if_both OneStatus (any is_adjudication p.waiting) (st, (a, subst (SelectedHas st) e h))
      (st, (a, subst (SelectedHas st) e h)))

do_deed-OneStatus :
    (e : Deed) (p : ClaimsPage) → DeedTimely e p → OneStatus p → OneStatus (do_deed e p)
unfolding do_deed handle_owner_dispute
do_deed-OneStatus (inspect n) p t (st, (a, h)) = inspect-OneStatus n p.claims p st a h a
do_deed-OneStatus close_drawer p t h = h
do_deed-OneStatus (deny i) p t h = h
do_deed-OneStatus (adjudicate d) p t h = click-OneStatus d p.selected_claim p refl h
do_deed-OneStatus (type_notes text) p t h = h
do_deed-OneStatus (replied n reply) p t h = reply-OneStatus (waiting_at n p.waiting) n reply p t h

-- If the list and the drawer give each claim one status, they do so after any inspections, disputes and
-- adjudications, whatever the server replies and in whatever order, as long as each reply finds the drawer with the
-- claim that it had for its request, or, for a dispute of a claim outside the drawer, without that claim.
pub do_deeds-OneStatus :
    (es : List Deed) (p : ClaimsPage) → AllTimely es p → OneStatus p → OneStatus (do_deeds es p)
unfolding do_deeds
do_deeds-OneStatus [] p t h = h
do_deeds-OneStatus (e ∷ es) p (t, ts) h =
    do_deeds-OneStatus es (do_deed e p) ts (do_deed-OneStatus e p t h)
