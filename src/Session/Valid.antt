-- ===== src/Session/Valid.antt =====
-- What holds of the browser's storage between two calls of lib/store.ts, and the calls that read.
pub mod Save
pub mod Login
use secure_vault.Prelude.{
  String, true, Option, none, some, ◌≡◌, refl, ◌==◌, string_eq, if◌then◌else◌, is_empty, arith,
  Bool-cases, inl, inr, List, [], ◌∷◌, sym, ap,
}
use secure_vault.Session.Data.{
  User, Registry, Item, text, user_doc, registry_doc, inactivity_doc, admin_doc, Browser, Outcome,
  done, threw,
}
use secure_vault.Session.Keys.{
  current_user_id_key, user_registry_key, user_key, user_suffix, is_logged_in_key,
}
use secure_vault.Session.Users.{
  as_text, get_current_user_id, get_user_registry, get_user, stored_user, parse_user,
  parse_registry,
}
use secure_vault.Storage.{get_item, set_item, remove_item}

-- A user's slot is empty or holds the user of that id.
abbrev pub IsUserSlot : String → Option Item → Type 0
IsUserSlot id none = Unit
IsUserSlot id (some (user_doc u)) = u.id ≡ id
IsUserSlot id (some _) = ⊥

abbrev pub IsRegistrySlot : Option Item → Type 0
IsRegistrySlot none = Unit
IsRegistrySlot (some (registry_doc r)) = Unit
IsRegistrySlot (some _) = ⊥

abbrev pub IsTextSlot : Option Item → Type 0
IsTextSlot none = Unit
IsTextSlot (some (text s)) = Unit
IsTextSlot (some _) = ⊥

pub record IsValid (b : Browser) : Type 0 where
  pub window : b.window ≡ true
  pub users : (id : String) → IsUserSlot id (get_item (user_key id user_suffix) b.local)
  pub registry : IsRegistrySlot (get_item user_registry_key b.local)
  pub current : IsTextSlot (get_item current_user_id_key b.local)
  pub flag : IsTextSlot (get_item is_logged_in_key b.local)

-- The user in a slot, the registry in its slot: what the calls return, as functions of the storage.
abbrev pub slot_user : Option Item → Option User
slot_user (some (user_doc u)) = some u
slot_user _ = none

abbrev pub slot_registry : Option Item → Registry
slot_registry (some (registry_doc r)) = r
slot_registry _ = []

abbrev pub user_at : String → Browser → Option User
user_at id b = if is_empty id then none else slot_user (get_item (user_key id user_suffix) b.local)

abbrev pub user_of : Option String → Browser → Option User
user_of none b = none
user_of (some id) b = user_at id b

abbrev pub registry_of : Browser → Registry
registry_of b = slot_registry (get_item user_registry_key b.local)

parse_user_lem :
    (id : String) (slot : Option Item) (b : Browser)
    → IsUserSlot id slot
    → parse_user slot b ≡ done (slot_user slot) b
parse_user_lem id none b h = refl
parse_user_lem id (some (user_doc u)) b h = refl
parse_user_lem id (some _) b h = absurd h

pub stored_user_lem :
    (id : Option String) (b : Browser) → IsValid b → stored_user id b ≡ done (user_of id b) b
stored_user_lem none b v = refl
stored_user_lem (some id) b v =
    ground (arith, parse_user_lem id (get_item (user_key id user_suffix) b.local) b (v.users id))

-- In a valid browser `getUser` throws nothing, changes nothing, and gives the current user.
pub get_user_lem :
    (b : Browser) → IsValid b → get_user b ≡ done (user_of (get_current_user_id b) b) b
unfolding get_user
get_user_lem b v = ground (arith, v.window, stored_user_lem (get_current_user_id b) b v)

parse_registry_lem :
    (slot : Option Item) (b : Browser)
    → IsRegistrySlot slot
    → parse_registry slot b ≡ done (slot_registry slot) b
parse_registry_lem none b h = refl
parse_registry_lem (some (registry_doc r)) b h = refl
parse_registry_lem (some _) b h = absurd h

pub get_user_registry_lem : (b : Browser) → IsValid b → get_user_registry b ≡ done (registry_of b) b
unfolding get_user_registry
get_user_registry_lem b v =
    simp v.window (parse_registry_lem (get_item user_registry_key b.local) b v.registry)

slot_user-id :
    (id : String) (slot : Option Item) (u : User)
    → IsUserSlot id slot
    → slot_user slot ≡ some u
    → u.id ≡ id
slot_user-id id (some (user_doc w)) u h e = ground arith
slot_user-id id none u h e = cc
slot_user-id id (some (text s)) u h e = absurd h
slot_user-id id (some _) u h e = absurd h

-- The user that is found under an id has that id.
pub user_at-id :
    (b : Browser) (id : String) (u : User) → IsValid b → user_at id b ≡ some u → u.id ≡ id
user_at-id b id u v e =
    ground (arith, slot_user-id id (get_item (user_key id user_suffix) b.local) u (v.users id))
