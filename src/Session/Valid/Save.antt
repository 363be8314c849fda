-- ===== src/Session/Valid/Save.antt =====
-- `saveUser` in a valid browser: what it leaves, and that the browser stays valid.
use secure_vault.Prelude.{
  String, some, ◌≡◌, string_eq, eq_iff, arith, ◌≢◌, sym, if◌then◌else◌, ◌==◌, ◌∙◌,
}
use secure_vault.Session.Data.{
  Item, Browser, text, User, Registry, user_doc, registry_doc, done, ◌>>◌, ◌>>=◌,
}
use secure_vault.Session.Keys.{
  current_user_id_key, user_registry_key, user_key, user_suffix, is_logged_in_key,
}
use secure_vault.Session.Keys.Laws.{user_key-ne_key, user_key-injective}
use secure_vault.Session.Users.{save_user, get_current_user_id, registry_email, register_user}
use secure_vault.Session.Valid.{
  IsValid, IsUserSlot, IsRegistrySlot, IsTextSlot, registry_of, get_item, get_user_registry_lem,
}
use secure_vault.Storage.{set_item}
use secure_vault.Storage.Laws.{get_item-set_item, get_item-set_item_self, get_item-set_item_ne}

-- One write to localStorage keeps the browser valid if it fits the key.
abbrev pub Fits : String → Item → Type 0
Fits k item =
    ((id : String) → user_key id user_suffix ≡ k → IsUserSlot id (some item))
    × (user_registry_key ≡ k → IsRegistrySlot (some item))
    × (current_user_id_key ≡ k → IsTextSlot (some item))
    × (is_logged_in_key ≡ k → IsTextSlot (some item))

abbrev pub write : String → Item → Browser → Browser
write k item b = record b { local = set_item k item b.local }

pub write-IsValid :
    (k : String) (item : Item) (b : Browser) → Fits k item → IsValid b → IsValid (write k item b)
write-IsValid k item b f v = record {
  window = v.window;
  users = λ id. ground (
    arith,
    get_item-set_item k (user_key id user_suffix) item b.local,
    eq_iff k (user_key id user_suffix),
    f.0 id,
    v.users id,
  );
  registry =
      ground
        (arith, get_item-set_item k user_registry_key item b.local, eq_iff k user_registry_key);
  current =
      ground
        (arith, get_item-set_item k current_user_id_key item b.local, eq_iff k current_user_id_key);
  flag =
      ground (arith, get_item-set_item k is_logged_in_key item b.local, eq_iff k is_logged_in_key);
}

Fits-user : (u : User) → Fits (user_key u.id user_suffix) (user_doc u)
Fits-user u = (
  (λ id e. sym (user_key-injective id u.id user_suffix e)),
  (λ e. absurd (user_key-ne_key u.id user_registry_key (omega arith) (sym e))),
  (λ e. absurd (user_key-ne_key u.id current_user_id_key (omega arith) (sym e))),
  (λ e. absurd (user_key-ne_key u.id is_logged_in_key (omega arith) (sym e))),
)

Fits-registry : (r : Registry) → Fits user_registry_key (registry_doc r)
Fits-registry r = (
  (λ id e. absurd (user_key-ne_key id user_registry_key (omega arith) e)),
  (λ e. tt),
  (λ e. absurd (current_ne e)),
  (λ e. absurd (flag_ne e)),
)
  where
    current_ne : current_user_id_key ≢ user_registry_key
    current_ne = ground (arith, eq_iff current_user_id_key user_registry_key)

    flag_ne : is_logged_in_key ≢ user_registry_key
    flag_ne = ground (arith, eq_iff is_logged_in_key user_registry_key)

-- A text may be written under any key that holds no document.
pub Fits-text :
    (k s : String)
    → ((id : String) → user_key id user_suffix ≢ k)
    → user_registry_key ≢ k
    → Fits k (text s)
Fits-text k s user registry =
    ((λ id e. absurd (user id e)), (λ e. absurd (registry e)), (λ e. tt), (λ e. tt))

pub current-Fits : (s : String) → Fits current_user_id_key (text s)
current-Fits s =
    Fits-text current_user_id_key s (λ id. user_key-ne_key id current_user_id_key (omega arith))
      (ground (arith, eq_iff user_registry_key current_user_id_key))

-- The browser after `saveUser(user)`.
abbrev pub saved : User → Browser → Browser
saved u b = write current_user_id_key (text u.id) (
    write user_registry_key (registry_doc (set_item (registry_email u.email) u.id (registry_of b)))
      (write (user_key u.id user_suffix) (user_doc u) b))

registry_of-write_user :
    (u : User) (b : Browser)
    → registry_of (write (user_key u.id user_suffix) (user_doc u) b) ≡ registry_of b
registry_of-write_user u b = rw (
    get_item-set_item_ne (user_key u.id user_suffix) user_registry_key (user_doc u) b.local
      (user_key-ne_key u.id user_registry_key (omega arith)))

register_user_lem :
    (email id : String) (b : Browser)
    → IsValid b
    → register_user email id b
      ≡ done tt (
          write user_registry_key
            (registry_doc (set_item (registry_email email) id (registry_of b)))
            b)
unfolding register_user
register_user_lem email id b v = rw (get_user_registry_lem b v, ◌>>=◌)

-- In a valid browser `saveUser` throws nothing.
pub save_user_lem : (u : User) (b : Browser) → IsValid b → save_user u b ≡ done tt (saved u b)
unfolding save_user
save_user_lem u b v =
    rw
      (
        register_user_lem u.email u.id (write (user_key u.id user_suffix) (user_doc u) b)
            (write-IsValid (user_key u.id user_suffix) (user_doc u) b (Fits-user u) v),
        ◌>>◌,
      )
      (rw (registry_of-write_user u b))

-- `saveUser` keeps a valid browser valid.
pub saved-IsValid : (u : User) (b : Browser) → IsValid b → IsValid (saved u b)
saved-IsValid u b v =
    let r = set_item (registry_email u.email) u.id (registry_of b) in
    let b1 = write (user_key u.id user_suffix) (user_doc u) b in
    let b2 = write user_registry_key (registry_doc r) b1 in
    write-IsValid current_user_id_key (text u.id) b2 (current-Fits u.id) (
      write-IsValid user_registry_key (registry_doc r) b1 (Fits-registry r)
        (write-IsValid (user_key u.id user_suffix) (user_doc u) b (Fits-user u) v))

-- What each slot holds after `saveUser`.
pub saved-slot :
    (u : User) (b : Browser) (k : String)
    → current_user_id_key ≢ k
    → user_registry_key ≢ k
    → get_item k (saved u b).local
      ≡ (if user_key u.id user_suffix == k then some (user_doc u) else get_item k b.local)
saved-slot u b k c r = rw (
  get_item-set_item_ne current_user_id_key k _ _ c,
  get_item-set_item_ne user_registry_key k _ _ r,
  get_item-set_item (user_key u.id user_suffix) k (user_doc u) b.local,
)

pub saved-current :
    (u : User) (b : Browser) → IsValid b → get_current_user_id (saved u b) ≡ some u.id
unfolding get_current_user_id
saved-current u b v = ground (
  arith,
  v.window,
  get_item-set_item_self current_user_id_key (text u.id)
      (write user_registry_key
        (registry_doc (set_item (registry_email u.email) u.id (registry_of b)))
        (write (user_key u.id user_suffix) (user_doc u) b)).local,
)

pub saved-user_slot :
    (u : User) (b : Browser) (id : String)
    → get_item (user_key id user_suffix) (saved u b).local
      ≡ (if u.id == id then some (user_doc u) else get_item (user_key id user_suffix) b.local)
saved-user_slot u b id =
    saved-slot u b (user_key id user_suffix)
      (λ e. user_key-ne_key id current_user_id_key (omega arith) (sym e))
      (λ e. user_key-ne_key id user_registry_key (omega arith) (sym e))
    ∙ ground (
      arith,
      eq_iff u.id id,
      eq_iff (user_key u.id user_suffix) (user_key id user_suffix),
      user_key-injective u.id id user_suffix,
    )
