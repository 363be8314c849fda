-- ===== src/Session/RoundTrip.antt =====
-- What is saved is found again, and what is saved for one user leaves the others alone.
use secure_vault.Prelude.{
  String, false, some, ◌≡◌, ◌≢◌, arith, is_empty, eq_refl, eq_iff, ◌∙◌, refl,
}
use secure_vault.Session.Data.{User, Browser, ◌>>◌, done, after, text, user_doc}
use secure_vault.Session.Keys.{user_key, user_suffix, current_user_id_key, user_registry_key}
use secure_vault.Session.Users.{save_user, registry_email, get_user_by_email, get_user}
use secure_vault.Session.Valid.{
  registry_of, IsValid, user_at, get_user_lem, get_user_registry_lem, stored_user_lem,
}
use secure_vault.Session.Valid.Save.{
  saved, saved-user_slot, save_user_lem, saved-IsValid, saved-current, write,
}
use secure_vault.Storage.{set_item, get_item}
use secure_vault.Storage.Laws.{get_item-set_item_ne, eq_false, get_item-set_item_self}

pub user_at-saved :
    (u : User) (b : Browser) → is_empty u.id ≡ false → user_at u.id (saved u b) ≡ some u
user_at-saved u b h = rw (h, saved-user_slot u b u.id, eq_refl u.id)

-- In a valid browser `getUser` after `saveUser(user)` gives that user, if its id is not empty.
pub get_user-save_user :
    (u : User) (b : Browser)
    → IsValid b
    → is_empty u.id ≡ false
    → (save_user u >> get_user) b ≡ done (some u) (after (save_user u b))
get_user-save_user u b v h =
    rw (save_user_lem u b v, ◌>>◌)
      (rw
        (get_user_lem (saved u b) (saved-IsValid u b v), saved-current u b v, user_at-saved u b h))

registry_of-saved :
    (u : User) (b : Browser)
    → registry_of (saved u b) ≡ set_item (registry_email u.email) u.id (registry_of b)
registry_of-saved u b = rw (
  get_item-set_item_ne current_user_id_key user_registry_key (text u.id) _ distinct,
  get_item-set_item_self user_registry_key _
      (write (user_key u.id user_suffix) (user_doc u) b).local,
)
  where
    distinct : current_user_id_key ≢ user_registry_key
    distinct = ground (arith, eq_iff current_user_id_key user_registry_key)

-- In a valid browser, after `saveUser(user)`, `getUserByEmail` gives that user for each address that
-- is the user's but for letter case and outer white space, if the user's id is not empty.
pub get_user_by_email-save_user :
    (u : User) (email : String) (b : Browser)
    → IsValid b
    → is_empty u.id ≡ false
    → registry_email email ≡ registry_email u.email
    → (save_user u >> get_user_by_email email) b ≡ done (some u) (after (save_user u b))
unfolding get_user_by_email
get_user_by_email-save_user u email b v h same =
    rw (save_user_lem u b v, ◌>>◌)
      (ground (
        arith,
        same,
        (saved-IsValid u b v).window,
        get_user_registry_lem (saved u b) (saved-IsValid u b v),
        registry_of-saved u b,
        get_item-set_item_self (registry_email u.email) u.id (registry_of b),
        stored_user_lem (some u.id) (saved u b) (saved-IsValid u b v),
        user_at-saved u b h,
      ))

-- In a valid browser `saveUser(user)` throws nothing and leaves the stored record of each other id, and the registry entry of
-- each other address, as they were.
pub save_user_keeps_others :
    (u : User) (id email : String) (b : Browser)
    → IsValid b
    → u.id ≢ id
    → registry_email u.email ≢ registry_email email
    → (save_user u b ≡ done tt (after (save_user u b)))
      × (get_item (user_key id user_suffix) (after (save_user u b)).local
          ≡ get_item (user_key id user_suffix) b.local)
      × (get_item (registry_email email) (registry_of (after (save_user u b)))
          ≡ get_item (registry_email email) (registry_of b))
save_user_keeps_others u id email b v other other_email = rw (save_user_lem u b v) (
  refl,
  saved-user_slot u b id ∙ rw (eq_false u.id id other),
  rw (registry_of-saved u b) (
      get_item-set_item_ne (registry_email u.email) (registry_email email) u.id (registry_of b)
        other_email),
)
