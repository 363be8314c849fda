-- ===== src/Session/LoginState.antt =====
-- Who is logged in after a login and after a logout.
use secure_vault.Prelude.{
  String, Bool, true, false, none, some, ◌≡◌, ◌≢◌, arith, sym, ℕ, eq_iff, is_empty, ◌∙◌, last_of,
}
use secure_vault.Prelude.Clock.{to_iso_string}
use secure_vault.Session.Data.{◌>>◌, done, text, User, Browser, Item, Action}
use secure_vault.Session.Keys.{
  is_logged_in_key, current_user_id_key, user_key, logout_suffix, user_suffix, user_registry_key,
}
use secure_vault.Session.Keys.Laws.{user_key-ne_key, logout_key-ne_user_key, logout_key-ne_key}
use secure_vault.Session.Login.{bool_text, get_logout_time, set_logged_in}
use secure_vault.Session.RoundTrip.{user_at-saved}
use secure_vault.Session.Users.{
  get_current_user_id, set_current_user_id, is_logged_in, save_user, get_user,
}
use secure_vault.Session.Valid.{IsValid, user_at, get_user_lem}
use secure_vault.Session.Valid.Login.{
  flagged, erase, switched, logged_in, flag-Fits, erase-IsValid, set_logged_in_lem,
}
use secure_vault.Session.Valid.Save.{
  write, saved, write-IsValid, saved-IsValid, saved-current, current-Fits, save_user_lem,
  saved-slot,
}
use secure_vault.Storage.{get_item}
use secure_vault.Storage.Laws.{
  get_item-set_item_self, get_item-set_item_ne, get_item-remove_item_ne, eq_false,
  get_item-remove_item_self,
}

-- The three calls with which every page ends a login: `setCurrentUserId(user.id)`,
-- `saveUser(user)`, `setLoggedIn(true)`.
unfoldable pub establish : User → ℕ → Action (Unit {0})
establish user now = do set_current_user_id user.id; save_user user; set_logged_in true now

current_write :
    (id : String) (b : Browser)
    → b.window ≡ true
    → get_current_user_id (write current_user_id_key (text id) b) ≡ some id
unfolding get_current_user_id
current_write id b h = ground (arith, get_item-set_item_self current_user_id_key (text id) b.local)

-- A write under another key leaves the current user's id.
current-write_ne :
    (k : String) (item : Item) (b : Browser)
    → k ≢ current_user_id_key
    → get_current_user_id (write k item b) ≡ get_current_user_id b
unfolding get_current_user_id
current-write_ne k item b h = rw (get_item-set_item_ne k current_user_id_key item b.local h)

flag_ne_current : is_logged_in_key ≢ current_user_id_key
flag_ne_current = ground (arith, eq_iff is_logged_in_key current_user_id_key)

pub current-flagged :
    (value : Bool) (b : Browser) → get_current_user_id (flagged value b) ≡ get_current_user_id b
current-flagged value b =
    current-write_ne is_logged_in_key (text (bool_text value)) b flag_ne_current

-- The browser that a login leaves.
abbrev pub entered : User → ℕ → Browser → Browser
entered u now b = erase (user_key u.id logout_suffix) (
    saved (record u { last_active = to_iso_string now })
      (flagged true (saved u (write current_user_id_key (text u.id) b))))

pub user_at-flagged :
    (value : Bool) (id : String) (b : Browser) → user_at id (flagged value b) ≡ user_at id b
user_at-flagged value id b = rw (
    get_item-set_item_ne is_logged_in_key (user_key id user_suffix) (text (bool_text value)) b.local
      (λ e. user_key-ne_key id is_logged_in_key (omega arith) (sym e)))

-- The stages of a login, each valid.
abbrev stage_1 : User → Browser → Browser
stage_1 u b = write current_user_id_key (text u.id) b

abbrev stage_3 : User → Browser → Browser
stage_3 u b = flagged true (saved u (stage_1 u b))

stage_1-IsValid : (u : User) (b : Browser) → IsValid b → IsValid (stage_1 u b)
stage_1-IsValid u b v = write-IsValid current_user_id_key (text u.id) b (current-Fits u.id) v

stage_2-IsValid : (u : User) (b : Browser) → IsValid b → IsValid (saved u (stage_1 u b))
stage_2-IsValid u b v = saved-IsValid u (stage_1 u b) (stage_1-IsValid u b v)

stage_3-IsValid : (u : User) (b : Browser) → IsValid b → IsValid (stage_3 u b)
stage_3-IsValid u b v =
    write-IsValid is_logged_in_key (text (bool_text true)) _ (flag-Fits (bool_text true))
      (stage_2-IsValid u b v)

stage_3-current :
    (u : User) (b : Browser) → IsValid b → get_current_user_id (stage_3 u b) ≡ some u.id
stage_3-current u b v =
    current-flagged true (saved u (stage_1 u b))
    ∙ saved-current u (stage_1 u b) (stage_1-IsValid u b v)

stage_3-user :
    (u : User) (b : Browser) → is_empty u.id ≡ false → user_at u.id (stage_3 u b) ≡ some u
stage_3-user u b h =
    user_at-flagged true u.id (saved u (stage_1 u b)) ∙ user_at-saved u (stage_1 u b) h

switched-true :
    (now : ℕ) (id : String) (b : Browser)
    → is_empty id ≡ false
    → switched true now (some id) b ≡ logged_in now id b
unfolding switched
switched-true now id b h = rw h

pub establish_lem :
    (u : User) (now : ℕ) (b : Browser)
    → IsValid b
    → is_empty u.id ≡ false
    → establish u now b ≡ done tt (entered u now b)
unfolding establish set_current_user_id
establish_lem u now b v h =
    rw (save_user_lem u (stage_1 u b) (stage_1-IsValid u b v), ◌>>◌)
      (rw (
        set_logged_in_lem true now (saved u (stage_1 u b)) (stage_2-IsValid u b v),
        stage_3-current u b v,
        switched-true now u.id (stage_3 u b) h,
        stage_3-current u b v,
        stage_3-user u b h,
      ))

-- Reads that the removal of a logout time leaves alone.
erase_logout :
    (id k : String) (b : Browser)
    → last_of k ≢ b'e'
    → get_item k (erase (user_key id logout_suffix) b).local ≡ get_item k b.local
erase_logout id k b h =
    get_item-remove_item_ne (user_key id logout_suffix) k b.local (logout_key-ne_key id k h)

erase_logout_user :
    (id a : String) (b : Browser) → user_at a (erase (user_key id logout_suffix) b) ≡ user_at a b
erase_logout_user id a b = rw (
    get_item-remove_item_ne (user_key id logout_suffix) (user_key a user_suffix) b.local
      (logout_key-ne_user_key id a))

erase_logout_current :
    (id : String) (b : Browser)
    → get_current_user_id (erase (user_key id logout_suffix) b) ≡ get_current_user_id b
unfolding get_current_user_id
erase_logout_current id b = rw (erase_logout id current_user_id_key b (omega arith))

saved-flag :
    (u : User) (b : Browser)
    → get_item is_logged_in_key (saved u b).local ≡ get_item is_logged_in_key b.local
saved-flag u b = rw (
  saved-slot u b is_logged_in_key (ground (arith, eq_iff current_user_id_key is_logged_in_key))
      (ground (arith, eq_iff user_registry_key is_logged_in_key)),
  eq_false (user_key u.id user_suffix) is_logged_in_key
      (user_key-ne_key u.id is_logged_in_key (omega arith)),
)

module _ (u : User) (now : ℕ) (b : Browser) (v : IsValid b) (h : is_empty u.id ≡ false) where
  entered-IsValid : IsValid (entered u now b)
  entered-IsValid = erase-IsValid (user_key u.id logout_suffix) _ (
      saved-IsValid (record u { last_active = to_iso_string now }) (stage_3 u b)
        (stage_3-IsValid u b v))

  entered-current : get_current_user_id (entered u now b) ≡ some u.id
  entered-current =
      erase_logout_current u.id (saved (record u { last_active = to_iso_string now }) (stage_3 u b))
      ∙ saved-current (record u { last_active = to_iso_string now }) (stage_3 u b)
          (stage_3-IsValid u b v)

  entered-flag : get_item is_logged_in_key (entered u now b).local ≡ some (text "true")
  unfolding bool_text
  entered-flag =
      erase_logout u.id is_logged_in_key
        (saved (record u { last_active = to_iso_string now }) (stage_3 u b)) (omega arith)
      ∙ saved-flag (record u { last_active = to_iso_string now }) (stage_3 u b)
      ∙ get_item-set_item_self is_logged_in_key (text "true") (saved u (stage_1 u b)).local

  entered-user :
      user_at u.id (entered u now b) ≡ some (record u { last_active = to_iso_string now })
  entered-user =
      erase_logout_user u.id u.id
        (saved (record u { last_active = to_iso_string now }) (stage_3 u b))
      ∙ user_at-saved (record u { last_active = to_iso_string now }) (stage_3 u b) h

  -- In a valid browser, for a user with an id that is not empty, the login calls throw nothing; after
  -- them `isLoggedIn` is true, `getUser` gives that user with the time of the login as its last
  -- activity, `getLogoutTime` gives null, and the browser is valid.
  pub establish_logs_in :
      (establish u now b ≡ done tt (entered u now b))
      × (is_logged_in (entered u now b) ≡ true)
      × (get_user (entered u now b)
          ≡ done (some (record u { last_active = to_iso_string now })) (entered u now b))
      × (get_logout_time (entered u now b) ≡ none)
      × IsValid (entered u now b)
  unfolding is_logged_in get_logout_time
  establish_logs_in = (
    establish_lem u now b v h,
    ground (arith, entered-flag, entered-current, entered-IsValid.window),
    rw (get_user_lem (entered u now b) entered-IsValid) (rw (entered-current, entered-user)),
    ground (
      arith,
      h,
      entered-current,
      get_item-remove_item_self (user_key u.id logout_suffix)
          (saved (record u { last_active = to_iso_string now }) (stage_3 u b)).local,
    ),
    entered-IsValid,
  )
