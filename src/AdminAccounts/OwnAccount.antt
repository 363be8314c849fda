-- ===== src/AdminAccounts/OwnAccount.antt =====
-- What app/admin/admins/page.tsx cannot do to the account of the administrator who uses it.
pub mod Handlers
pub mod Runs
use secure_vault.AdminAccounts.{
  AccountsPage, AdminForm, AdminRequest, Move, is_self, create_admin, update_admin, reset_admin,
  delete_admin, disable_admin, enable_admin, update_reply, toggle_reply, reset_reply,
  handle_reset_password, handle_create, fetch_admins, delete_reply, create_reply, ltb, Reply,
  agreed, List, refused, broken, toggle_admin_status, ◌∷◌, toasted, is_active, handle_update,
  accounts_of, handle_delete,
}
use secure_vault.AdminAccounts.Events.{
  AccountEvent, modify_access, reset_password, ask_delete, covered, from_menu, from_dialog,
  unless_self, type_name_of, choose_role_of, account_step, account_requests, listed, type_search,
  fill_form, created, type_name, choose_role, updated, type_password, password_set, switch_status,
  switched, removed, open_create,
}
use secure_vault.Prelude.{
  String, Bool, true, false, Option, none, some, ◌==◌, ◌≡◌, ◌≤◌, string_eq, refl, sym, subst,
  is_empty, not, chars, list_of, All, if_both, Bool-cases, inl, inr, neither, ◌||◌, arith,
  if◌then◌else◌, ◌∙◌, All-append, [],
}
use secure_vault.Session.Data.{AdminUser, Role, AdminStatus}

-- A password that a request carries.
abbrev pub LongEnough : String → Type 0
LongEnough pw = 8 ≤ chars pw

pub record FormFits (f : AdminForm) : Type 0 where
  pub named : is_empty f.full_name ≡ false
  pub mailed : is_empty f.email ≡ false
  pub long : LongEnough f.password

module _ (me : AdminUser) (r : Role) (st : AdminStatus) where
  abbrev pub NotMine : String → Type 0
  NotMine i = (me.id == i) ≡ false

  -- A row of the administrator's own account has the role `r` and the status `st`.
  abbrev pub OwnAccess : AdminUser → Type 0
  OwnAccess a = (me.id == a.id) ≡ true → (a.role ≡ r) × (a.status ≡ st)

  -- What may be sent: nothing that removes, disables or enables the own account or gives it another role or
  -- status, and no password of less than eight characters.
  abbrev pub Spares : AdminRequest → Type 0
  Spares (create_admin f) = FormFits f
  Spares (update_admin i name role status) = (me.id == i) ≡ true → (role ≡ r) × (status ≡ st)
  Spares (reset_admin i pw) = LongEnough pw
  Spares (delete_admin i) = NotMine i
  Spares (disable_admin i) = NotMine i
  Spares (enable_admin i) = NotMine i

  abbrev pub EventFits : AccountEvent → Type 0
  EventFits (modify_access a) = OwnAccess a
  EventFits (reset_password a) = OwnAccess a
  EventFits (ask_delete a) = OwnAccess a
  EventFits e = Unit

  abbrev pub SelectedFits : Option AdminUser → Type 0
  SelectedFits none = Unit
  SelectedFits (some a) = OwnAccess a

  -- What the open dialog of deletion is about is not the own account.
  abbrev pub Deletable : Bool → Option AdminUser → Type 0
  Deletable false o = Unit
  Deletable true none = Unit
  Deletable true (some a) = NotMine a.id

  abbrev pub PageFits : AccountsPage → Type 0
  PageFits p =
      (p.current_admin_user ≡ some me)
      × (SelectedFits p.selected_admin × Deletable p.delete_open p.selected_admin)

  abbrev pub MoveFits : Move → Type 0
  MoveFits (p, sent) = PageFits p × All Spares (list_of sent)

  pub not_self :
      (o : Option AdminUser) (a : AdminUser) → o ≡ some me → is_self o a ≡ false → NotMine a.id
  not_self o a e h = subst (λ x. is_self x a ≡ false) e h

  pub same_id-Deletable :
      (b : Bool) (a c : AdminUser) → a.id ≡ c.id → Deletable b (some a) → Deletable b (some c)
  same_id-Deletable false a c e d = d
  same_id-Deletable true a c e d = subst NotMine e d

  -- With no dialog open another account may be selected.
  pub closed-Deletable :
      (p : AccountsPage) (o : Option AdminUser) → covered p ≡ false → Deletable p.delete_open o
  closed-Deletable p o e =
      let (a, b) = neither (p.create_open || p.edit_open || p.password_open) p.delete_open e in
      subst (λ x. Deletable x o) (sym b) tt

  pub from_menu-Fits :
      (m : Move) (p : AccountsPage)
      → PageFits p
      → (covered p ≡ false → MoveFits m)
      → MoveFits (from_menu m p)
  from_menu-Fits m p h k = elim (Bool-cases (covered p)) [
    | inl e ↦ rw e (h, tt)
    | inr e ↦ rw e (k e)
  ]

  pub unless_self-Fits :
      (a : AdminUser) (m : Move) (p : AccountsPage)
      → PageFits p
      → (covered p ≡ false → NotMine a.id → MoveFits m)
      → MoveFits (unless_self a m p)
  unless_self-Fits a m p h k = elim (Bool-cases (is_self p.current_admin_user a)) [
    | inl e ↦ rw e (h, tt)
    | inr e ↦ rw e (from_menu-Fits m p h (λ c. k c (not_self p.current_admin_user a (h.0) e)))
  ]

  pub from_dialog-Fits :
      (b : Bool) (m : Move) (p : AccountsPage)
      → PageFits p
      → (b ≡ true → MoveFits m)
      → MoveFits (from_dialog b m p)
  from_dialog-Fits true m p h k = if_both MoveFits (not p.submitting) (k refl) (h, tt)
  from_dialog-Fits false m p h k = (h, tt)
