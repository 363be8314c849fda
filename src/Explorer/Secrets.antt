-- ===== src/Explorer/Secrets.antt =====
-- Which asset's secret and versions the drawer of app/dashboard/assets/explorer/page.tsx shows.
use secure_vault.Explorer.{Asset}
use secure_vault.Explorer.Drawer.{
  Drawer, DrawerEvent, drawer_step, drawer_run, ApiReply, good, bad, broken, is_asset, VersionItem,
  handle_open_asset_drawer, decrypt_reply, versions_reply, logs_reply, rollback_reply, delete_reply,
  rollback_request, open_asset, type_pin, decrypted, show_versions, got_versions, show_audit,
  got_logs, choose_version, rolled_back, choose_delete, deleted, close_drawer,
}
use secure_vault.Json.{Json}
use secure_vault.Prelude.{
  String, true, Option, none, some, List, [], ◌∷◌, ◌≡◌, refl, if_both, sym, ap, ◌∙◌, ◌&◌, eq_iff,
}
use secure_vault.Prelude.Decimal.{to_string}

-- `secret_of` is what the server keeps for each asset.
module _ (secret_of : String → Json) where
  -- The secret on the screen, if there is one, is that of the asset on the screen.
  abbrev pub Own : Option Asset → Option Json → Type 0
  Own o none = Unit
  Own none (some s) = ⊥
  Own (some a) (some s) = s ≡ secret_of a.id

  abbrev pub ShowsOwnSecret : Drawer → Type 0
  ShowsOwnSecret d = Own d.active_asset d.decrypted_data

  abbrev pub Answers : String → ApiReply Json → Type 0
  Answers i (good s) = s ≡ secret_of i
  Answers i (bad msg) = Unit
  Answers i (broken msg) = Unit

  -- A reply to a decryption comes while its asset is still in the drawer.
  abbrev pub InTime : DrawerEvent → Drawer → Type 0
  InTime (decrypted i reply) d = (is_asset i d.active_asset ≡ true) × Answers i reply
  InTime e d = Unit

  abbrev pub AllInTime : List DrawerEvent → Drawer → Type 0
  AllInTime [] d = Unit
  AllInTime (e ∷ es) d = InTime e d × AllInTime es (drawer_step e d)

  answered_owner :
      (i : String) (o : Option Asset) (s : Json)
      → is_asset i o ≡ true
      → s ≡ secret_of i
      → Own o (some s)
  answered_owner i none s h e = cc
  answered_owner i (some a) s h e = e ∙ ap secret_of (sym ((eq_iff a.id i).0 h))

  decrypted-Own :
      (i : String) (reply : ApiReply Json) (d : Drawer)
      → is_asset i d.active_asset ≡ true
      → Answers i reply
      → ShowsOwnSecret d
      → ShowsOwnSecret (decrypt_reply reply d)
  unfolding decrypt_reply
  decrypted-Own i (good s) d t a h = answered_owner i d.active_asset s t a
  decrypted-Own i (bad msg) d t a h = h
  decrypted-Own i (broken msg) d t a h = h

  drawer_step-Own :
      (e : DrawerEvent) (d : Drawer)
      → InTime e d
      → ShowsOwnSecret d
      → ShowsOwnSecret (drawer_step e d)
  unfolding drawer_step handle_open_asset_drawer versions_reply logs_reply rollback_reply
      delete_reply
  drawer_step-Own (open_asset a) d t h = tt
  drawer_step-Own (type_pin pin) d t h = h
  drawer_step-Own (decrypted i reply) d (t, a) h = decrypted-Own i reply d t a h
  drawer_step-Own show_versions d t h = h
  drawer_step-Own (got_versions (good vs)) d t h = h
  drawer_step-Own (got_versions (bad msg)) d t h = h
  drawer_step-Own (got_versions (broken msg)) d t h = h
  drawer_step-Own show_audit d t h = h
  drawer_step-Own (got_logs (good ls)) d t h = h
  drawer_step-Own (got_logs (bad msg)) d t h = h
  drawer_step-Own (got_logs (broken msg)) d t h = h
  drawer_step-Own (choose_version v) d t h = h
  drawer_step-Own (rolled_back n (good u)) d t h = h
  drawer_step-Own (rolled_back n (bad msg)) d t h = h
  drawer_step-Own (rolled_back n (broken msg)) d t h = h
  drawer_step-Own (choose_delete a) d t h = h
  drawer_step-Own (deleted i o (good u)) d t h = if_both ShowsOwnSecret (is_asset i o) h h
  drawer_step-Own (deleted i o (bad msg)) d t h = h
  drawer_step-Own (deleted i o (broken msg)) d t h = h
  drawer_step-Own close_drawer d t h = h

  -- If each reply to a decryption is for the asset that is in the drawer when the reply comes, and is what
  -- the server keeps for it, the drawer never shows the secret of another asset.
  pub drawer_run-ShowsOwnSecret :
      (es : List DrawerEvent) (d : Drawer)
      → AllInTime es d
      → ShowsOwnSecret d
      → ShowsOwnSecret (drawer_run es d)
  unfolding drawer_run
  drawer_run-ShowsOwnSecret [] d t h = h
  drawer_run-ShowsOwnSecret (e ∷ es) d (t, ts) h =
      drawer_run-ShowsOwnSecret es (drawer_step e d) ts (drawer_step-Own e d t h)

-- A reply that comes after another asset has been opened is shown there: the drawer of `b` shows the secret
-- of `a`.
pub late_secret :
    (a b : Asset) (secret : Json) (d : Drawer)
    → let e : Drawer =
        drawer_run (open_asset a ∷ open_asset b ∷ decrypted a.id (good secret) ∷ []) d in
      (e.active_asset ≡ some b) × (e.decrypted_data ≡ some secret)
unfolding drawer_run drawer_step handle_open_asset_drawer decrypt_reply
late_secret a b secret d = (refl, refl)

-- The versions of `a` stay in the list when `b` is opened and the list of its versions is refused: a choice
-- from it rolls `b` back to the number of a version of `a`.
pub stale_rollback :
    (a b : Asset) (v : VersionItem) (vs : List VersionItem) (msg : String) (d : Drawer)
    → let e : Drawer =
        drawer_run
          (open_asset a
            ∷ got_versions (good (v ∷ vs))
            ∷ open_asset b
            ∷ got_versions (bad msg)
            ∷ choose_version (some v)
            ∷ [])
          d in
      (e.versions ≡ v ∷ vs)
      × (rollback_request e
          ≡ some ("/v1/assets/" & b.id & "/rollback/" & to_string v.version_number))
unfolding drawer_run drawer_step handle_open_asset_drawer versions_reply rollback_request
stale_rollback a b v vs msg d = (refl, refl)
