-- ===== src/AdminAccounts/OwnAccount/Handlers.antt =====
-- The handlers and the replies of app/admin/admins/page.tsx, one lemma for each.
use secure_vault.AdminAccounts.{
  AccountsPage, is_self, update_admin, reset_admin, delete_admin, update_reply, toggle_reply,
  reset_reply, handle_create, fetch_admins, delete_reply, create_reply, ltb, Reply, agreed, List,
  refused, broken, toggle_admin_status, toasted, is_active,
}
use secure_vault.Prelude.{
  String, Bool, true, false, Option, none, some, ◌≡◌, string_eq, refl, sym, subst, is_empty, chars,
  if_both, Bool-cases, inl, inr, neither, ◌||◌, arith, if◌then◌else◌, ◌∙◌,
}
use secure_vault.Session.Data.{AdminUser, Role, AdminStatus}
use secure_vault.AdminAccounts.Events.{type_name_of, choose_role_of}
use secure_vault.AdminAccounts.OwnAccount.{
  PageFits, MoveFits, Spares, SelectedFits, NotMine, Deletable, not_self, same_id-Deletable,
}

module _ (me : AdminUser) (r : Role) (st : AdminStatus) where
  pub fetch_admins-Fits :
      (reply : Reply (List AdminUser)) (p : AccountsPage)
      → PageFits me r st p
      → PageFits me r st (fetch_admins reply p)
  unfolding fetch_admins
  fetch_admins-Fits (agreed admins) p h = h
  fetch_admins-Fits (refused e) p h = h
  fetch_admins-Fits (broken e) p h = h

  pub create_reply-Fits :
      (reply : Reply Unit) (p : AccountsPage)
      → PageFits me r st p
      → PageFits me r st (create_reply reply p)
  unfolding create_reply
  create_reply-Fits (agreed x) p h = h
  create_reply-Fits (refused e) p h = h
  create_reply-Fits (broken e) p h = h

  pub update_reply-Fits :
      (reply : Reply Unit) (p : AccountsPage)
      → PageFits me r st p
      → PageFits me r st (update_reply reply p)
  unfolding update_reply
  update_reply-Fits (agreed x) p h = h
  update_reply-Fits (refused e) p h = h
  update_reply-Fits (broken e) p h = h

  pub reset_reply-Fits :
      (reply : Reply Unit) (p : AccountsPage)
      → PageFits me r st p
      → PageFits me r st (reset_reply reply p)
  unfolding reset_reply
  reset_reply-Fits (agreed x) p h = h
  reset_reply-Fits (refused e) p h = h
  reset_reply-Fits (broken e) p h = h

  pub toggle_reply-Fits :
      (b : Bool) (reply : Reply Unit) (p : AccountsPage)
      → PageFits me r st p
      → PageFits me r st (toggle_reply b reply p)
  unfolding toggle_reply
  toggle_reply-Fits b (agreed x) p h = h
  toggle_reply-Fits b (refused e) p h = h
  toggle_reply-Fits b (broken e) p h = h

  pub delete_reply-Fits :
      (reply : Reply Unit) (p : AccountsPage)
      → PageFits me r st p
      → PageFits me r st (delete_reply reply p)
  unfolding delete_reply
  delete_reply-Fits (agreed x) p (c, (s, d)) = (c, (s, tt))
  delete_reply-Fits (refused e) p h = h
  delete_reply-Fits (broken e) p h = h

  pub handle_create-Fits :
      (p : AccountsPage) → PageFits me r st p → MoveFits me r st (handle_create p)
  unfolding handle_create
  handle_create-Fits p h =
      elim (Bool-cases (
        is_empty p.form_data.full_name
        || is_empty p.form_data.email
        || is_empty p.form_data.password)) [
          | inl e ↦ rw e (h, tt)
          | inr e ↦ elim (Bool-cases (ltb (chars p.form_data.password) 8)) [
            | inl k ↦ rw (e, k) (h, tt)
            | inr k ↦
                let (a, b) =
                  neither (is_empty p.form_data.full_name || is_empty p.form_data.email)
                    (is_empty p.form_data.password) e in
                let (c, d) =
                  neither (is_empty p.form_data.full_name) (is_empty p.form_data.email) a in
                rw (e, k) (h, (record { named = c; mailed = d; long = ground arith }, tt))
          ]
        ]

  pub updated-Fits :
      (p : AccountsPage) (o : Option AdminUser)
      → PageFits me r st p
      → SelectedFits me r st o
      → MoveFits me r st (elim o [
        | none ↦ (p, none)
        | some a ↦
            (record p { submitting = true }, some (update_admin a.id a.full_name a.role a.status))
      ])
  updated-Fits p none h k = (h, tt)
  updated-Fits p (some a) h k = (h, (k, tt))

  pub deleted-Fits :
      (p : AccountsPage) (o : Option AdminUser)
      → PageFits me r st p
      → Deletable me r st true o
      → MoveFits me r st (elim o [
        | none ↦ (p, none)
        | some a ↦ (record p { submitting = true }, some (delete_admin a.id))
      ])
  deleted-Fits p none h k = (h, tt)
  deleted-Fits p (some a) h k = (h, (k, tt))

  pub password-Fits :
      (p : AccountsPage) (o : Option AdminUser)
      → PageFits me r st p
      → MoveFits me r st (elim o [
        | none ↦ (p, none)
        | some a ↦
            if is_empty p.new_password
            then (p, none)
            else if ltb (chars p.new_password) 8
            then (toasted "Password must be at least 8 characters" p, none)
            else (record p { submitting = true }, some (reset_admin a.id p.new_password))
      ])
  password-Fits p none h = (h, tt)
  password-Fits p (some a) h =
      if_both (MoveFits me r st) (is_empty p.new_password) (h, tt)
        (elim (Bool-cases (ltb (chars p.new_password) 8)) [
          | inl k ↦ rw k (h, tt)
          | inr k ↦ rw k (h, (ground arith, tt))
        ])

  pub choose_role-Fits :
      (x : Role) (o : Option AdminUser) (p : AccountsPage)
      → p.selected_admin ≡ o
      → PageFits me r st p
      → PageFits me r st (choose_role_of x o p)
  unfolding choose_role_of
  choose_role-Fits x none p e h = h
  choose_role-Fits x (some a) p e (c, (s, d)) = elim (Bool-cases (is_self p.current_admin_user a)) [
    | inl k ↦ rw k (c, (s, d))
    | inr k ↦
        let n = not_self me r st p.current_admin_user a c k in
        rw k (
          c,
          (
            (λ f. absurd (let t : true ≡ false = sym f ∙ n in cc)),
            same_id-Deletable me r st p.delete_open a (record a { role = x }) refl
                (subst (Deletable me r st p.delete_open) e d),
          ),
        )
  ]

  pub type_name-Fits :
      (text : String) (o : Option AdminUser) (p : AccountsPage)
      → p.selected_admin ≡ o
      → PageFits me r st p
      → PageFits me r st (type_name_of text o p)
  unfolding type_name_of
  type_name-Fits text none p e h = h
  type_name-Fits text (some a) p e (c, (s, d)) = (
    c,
    (
      subst (SelectedFits me r st) e s,
      same_id-Deletable me r st p.delete_open a (record a { full_name = text }) refl
          (subst (Deletable me r st p.delete_open) e d),
    ),
  )

  pub toggle-Spares :
      (a : AdminUser) → NotMine me r st a.id → Spares me r st (toggle_admin_status a)
  unfolding toggle_admin_status
  toggle-Spares a n = if_both (Spares me r st) (is_active a.status) n n
