-- ===== src/Nominees/Requests.antt =====
-- What app/dashboard/nominees/page.tsx sends.
use secure_vault.Allocations.{
  AllocationItem, allocations_request, handle_open_allocations, Drawer, edits,
}
use secure_vault.Allocations.Distinct.{Distinct, edits-Distinct}
use secure_vault.Nominees.{
  Nominee, NomineesPage, load_matrix, load_assets, fetch_nominees_and_matrix, handle_open_add_modal,
  first_page, handle_open_edit_modal, handle_copy_invite_link,
}
use secure_vault.Nominees.Events.{
  Payload, Sent, enrolled, invited, allocated, withdrawn, deleted, Move, NomineesEvent, Answer,
  accepted, denied, broken, select_tier, type_query, loaded, open_add, open_edit, fill, close_modal,
  save, save_answered, resend, invite_answered, copy_link, open_allocations, edit_allocations,
  close_drawer, save_allocations, allocations_answered, ask_revoke, drop_revoke, confirm_revoke,
  revoke_answered, drop_delete, confirm_delete, delete_answered, handle_save_nominee,
  handle_save_allocations, handle_revoke_nominee, handle_delete_nominee, save_payload, save_reply,
  nominees_step, nominees_requests, invite_reply, allocations_reply, revoke_reply, delete_reply,
}
use secure_vault.Prelude.{
  String, false, Option, none, some, List, ◌≡◌, is_empty, list_of, All, Bool-cases, trim, ◌||◌, inl,
  inr, neither, ◌∷◌, Bool, refl, All-append, [], if_both, is_some,
}
use secure_vault.Replies.{Outcome, ok, not_ok, offline}

-- The items that a nominee brings name each asset at most once.
abbrev pub ItemsDistinct : Option (List AllocationItem) → Type 0
ItemsDistinct none = Unit
ItemsDistinct (some items) = Distinct items

opened-Distinct :
    (i : String) (o : Option (List AllocationItem)) (d : Drawer)
    → ItemsDistinct o
    → Distinct (handle_open_allocations i o d).current_allocations
unfolding handle_open_allocations
opened-Distinct i none d h = tt
opened-Distinct i (some items) d h = h

module _ (Known : String → Type 0) where
  abbrev pub IdKnown : Option String → Type 0
  IdKnown none = Unit
  IdKnown (some i) = Known i

  pub record PayloadFits (body : Payload) : Type 0 where
    pub named : is_empty body.name ≡ false
    pub mailed : is_empty body.email ≡ false
    pub known : IdKnown body.id

  -- A request that the page may send: none of them removes a nominee.
  abbrev pub SentFits : Sent → Type 0
  SentFits (enrolled body) = PayloadFits body
  SentFits (invited i) = Known i
  SentFits (allocated path items) = Distinct items
  SentFits (withdrawn i) = Known i
  SentFits (deleted i) = ⊥

  -- A row of the list whose id is known and whose items are distinct.
  pub record RowFits (n : Nominee) : Type 0 where
    pub known : Known n.id
    pub distinct : ItemsDistinct n.asset_allocations

  -- The buttons of a row act on a row that fits.
  abbrev pub EventFits : NomineesEvent → Type 0
  EventFits (open_edit n) = RowFits n
  EventFits (resend n) = RowFits n
  EventFits (open_allocations n) = RowFits n
  EventFits (ask_revoke n) = RowFits n
  EventFits e = Unit

  abbrev pub NomineeKnown : Option Nominee → Type 0
  NomineeKnown none = Unit
  NomineeKnown (some n) = Known n.id

  -- What the page holds: a nominee under edit, one to revoke, the drawer's items, and none to delete.
  abbrev PageFits : NomineesPage → Type 0
  PageFits p =
      NomineeKnown p.editing_nominee
      × (NomineeKnown p.revoke_target
          × (Distinct p.drawer.current_allocations × (p.delete_target ≡ none)))

  abbrev MoveFits : Move → Type 0
  MoveFits (p, sent) = PageFits p × All SentFits (list_of sent)

  load_assets-Fits :
      (assets : Outcome (Option (List String))) (p : NomineesPage)
      → PageFits p
      → PageFits (load_assets assets p)
  unfolding load_assets
  load_assets-Fits (ok none) p h = h
  load_assets-Fits (ok (some ids)) p h = h
  load_assets-Fits not_ok p h = h
  load_assets-Fits offline p h = h

  load_matrix-Fits :
      (matrix : Outcome Unit) (assets : Outcome (Option (List String))) (p : NomineesPage)
      → PageFits p
      → PageFits (load_matrix matrix assets p)
  unfolding load_matrix
  load_matrix-Fits (ok x) assets p h = load_assets-Fits assets p h
  load_matrix-Fits not_ok assets p h = load_assets-Fits assets p h
  load_matrix-Fits offline assets p h = h

  fetch-Fits :
      (list : Outcome (Option (List Nominee))) (matrix : Outcome Unit)
      (assets : Outcome (Option (List String))) (p : NomineesPage)
      → PageFits p
      → PageFits (fetch_nominees_and_matrix list matrix assets p)
  unfolding fetch_nominees_and_matrix
  fetch-Fits (ok none) matrix assets p h = load_matrix-Fits matrix assets _ h
  fetch-Fits (ok (some ns)) matrix assets p h = load_matrix-Fits matrix assets _ h
  fetch-Fits not_ok matrix assets p h = load_matrix-Fits matrix assets p h
  fetch-Fits offline matrix assets p h = h

  payload_known :
      (o : Option Nominee) → NomineeKnown o → IdKnown (elim o [ none ↦ none | some n ↦ some n.id ])
  payload_known none h = h
  payload_known (some n) h = h

  handle_save-Fits : (p : NomineesPage) → PageFits p → MoveFits (handle_save_nominee p)
  unfolding handle_save_nominee save_payload
  handle_save-Fits p h =
      elim (Bool-cases
        (is_empty (trim p.form.nominee_name) || is_empty (trim p.form.nominee_email))) [
          | inl e ↦ rw e (h, tt)
          | inr e ↦
              let (a, b) = neither _ _ e in
              rw e (
                h,
                (
                  record { named = a; mailed = b; known = payload_known p.editing_nominee (h.0) },
                  tt,
                ),
              )
        ]

  save_allocations-Fits :
      (p : NomineesPage) (o : Option String)
      → p.drawer.selected_nominee ≡ o
      → PageFits p
      → MoveFits (handle_save_allocations p)
  unfolding handle_save_allocations allocations_request
  save_allocations-Fits p none e h = rw e (h, tt)
  save_allocations-Fits p (some i) e h = rw e (h, (h.1.1.0, tt))

  withdrawn-Fits :
      (p : NomineesPage) (o : Option Nominee)
      → PageFits p
      → NomineeKnown o
      → MoveFits (elim o [ none ↦ (p, none) | some n ↦ (p, some (withdrawn n.id)) ])
  withdrawn-Fits p none h k = (h, tt)
  withdrawn-Fits p (some n) h k = (h, (k, tt))

  deleted-Fits :
      (p : NomineesPage) (o : Option Nominee)
      → PageFits p
      → o ≡ none
      → MoveFits (elim o [ none ↦ (p, none) | some n ↦ (p, some (deleted n.id)) ])
  deleted-Fits p none h k = (h, tt)
  deleted-Fits p (some n) h k = cc

  open_allocations-Fits :
      (n : Nominee) (p : NomineesPage)
      → RowFits n
      → PageFits p
      → PageFits (record p { drawer = handle_open_allocations n.id n.asset_allocations p.drawer })
  open_allocations-Fits n p k (e, (t, (d, x))) =
      (e, (t, (opened-Distinct n.id n.asset_allocations p.drawer k.distinct, x)))

  saved-Fits :
      (o : Option Bool) (a : Answer) (p : NomineesPage)
      → PageFits p
      → MoveFits (elim o [ none ↦ (p, none) | some is_edit ↦ (save_reply is_edit a p, none) ])
  unfolding save_reply
  saved-Fits none a p h = (h, tt)
  saved-Fits (some b) accepted p h = (h, tt)
  saved-Fits (some b) (denied body) p h = (h, tt)
  saved-Fits (some b) broken p h = (h, tt)

  step-Fits :
      (e : NomineesEvent) (p : NomineesPage)
      → EventFits e
      → PageFits p
      → MoveFits (nominees_step e p)
  unfolding nominees_step handle_open_add_modal handle_open_edit_modal handle_copy_invite_link
      invite_reply allocations_reply revoke_reply delete_reply handle_revoke_nominee
      handle_delete_nominee edits
  step-Fits (select_tier tier) p k h = (h, tt)
  step-Fits (type_query q) p k h = (h, tt)
  step-Fits (loaded list matrix assets) p k h = (fetch-Fits list matrix assets p h, tt)
  step-Fits open_add p k (e, h) = ((tt, h), tt)
  step-Fits (open_edit n) p k (e, h) = ((k.known, h), tt)
  step-Fits (fill f) p k h = (h, tt)
  step-Fits close_modal p k h = (h, tt)
  step-Fits save p k h = if_both MoveFits (is_some p.saving) (h, tt) (handle_save-Fits p h)
  step-Fits (save_answered a) p k h = saved-Fits p.saving a p h
  step-Fits (resend n) p k h = (h, (k.known, tt))
  step-Fits (invite_answered accepted) p k h = (h, tt)
  step-Fits (invite_answered (denied body)) p k h = (h, tt)
  step-Fits (invite_answered broken) p k h = (h, tt)
  step-Fits (copy_link origin n) p k h = (if_both PageFits _ h h, tt)
  step-Fits (open_allocations n) p k h = (open_allocations-Fits n p k h, tt)
  step-Fits (edit_allocations e) p k (a, (t, (d, x))) =
      ((a, (t, (edits-Distinct (e ∷ []) p.drawer.current_allocations d, x))), tt)
  step-Fits close_drawer p k h = (h, tt)
  step-Fits save_allocations p k h =
      if_both MoveFits p.saving_allocations (h, tt) (save_allocations-Fits p _ refl h)
  step-Fits (allocations_answered accepted) p k h = (h, tt)
  step-Fits (allocations_answered (denied body)) p k h = (h, tt)
  step-Fits (allocations_answered broken) p k h = (h, tt)
  step-Fits (ask_revoke n) p k (e, (t, h)) = ((e, (k.known, h)), tt)
  step-Fits drop_revoke p k (e, (t, h)) = ((e, (tt, h)), tt)
  step-Fits confirm_revoke p k h = withdrawn-Fits p p.revoke_target h (h.1.0)
  step-Fits (revoke_answered accepted) p k (e, (t, h)) = ((e, (tt, h)), tt)
  step-Fits (revoke_answered (denied body)) p k h = (h, tt)
  step-Fits (revoke_answered broken) p k h = (h, tt)
  step-Fits drop_delete p k (e, (t, (d, x))) = ((e, (t, (d, refl))), tt)
  step-Fits confirm_delete p k h = deleted-Fits p p.delete_target h (h.1.1.1)
  step-Fits (delete_answered accepted) p k (e, (t, (d, x))) = ((e, (t, (d, refl))), tt)
  step-Fits (delete_answered (denied body)) p k h = (h, tt)
  step-Fits (delete_answered broken) p k h = (h, tt)

  from-Fit :
      (es : List NomineesEvent) (p : NomineesPage)
      → All EventFits es
      → PageFits p
      → All SentFits (nominees_requests es p)
  unfolding nominees_requests
  from-Fit [] p k h = tt
  from-Fit (e ∷ es) p (k, ks) h =
      let (f, sent) = step-Fits e p k h in
      All-append SentFits (list_of ((nominees_step e p).1))
        (nominees_requests es ((nominees_step e p).0)) sent
        (from-Fit es ((nominees_step e p).0) ks f)

  -- Whatever is loaded, clicked, typed and answered, in any order, if the rows whose buttons are clicked have known
  -- ids and name each asset at most once, then every nominee that the page saves has a name, an address and, in an
  -- edit, a known id; every revocation and invitation is for a known id; every list of allocations names each asset
  -- at most once; and no nominee is ever deleted.
  pub nominees_requests-Fit :
      (es : List NomineesEvent) → All EventFits es → All SentFits (nominees_requests es first_page)
  nominees_requests-Fit es k = from-Fit es first_page k (tt, (tt, (tt, refl)))
