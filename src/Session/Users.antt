-- ===== src/Session/Users.antt =====
-- The user functions of lib/store.ts: who is current, the registry of addresses, the stored users.
use secure_vault.Prelude.{
  String, Bool, true, false, ◌&&◌, Option, none, some, [], ◌==◌, string_eq, if◌then◌else◌, is_empty,
  to_lower_case, trim,
}
use secure_vault.Session.Data.{
  User, Registry, Item, text, user_doc, registry_doc, Browser, Outcome, done, threw, Action, ◌>>=◌,
  ◌>>◌,
}
use secure_vault.Session.Keys.{
  current_user_id_key, is_logged_in_key, user_registry_key, user_key, user_suffix,
}
use secure_vault.Storage.{get_item, set_item, remove_item}

-- `localStorage.setItem(key, item)` and `localStorage.removeItem(key)`
unfoldable pub put_local : String → Item → Action (Unit {0})
put_local k v b = done tt (record b { local = set_item k v b.local })

unfoldable pub drop_local : String → Action (Unit {0})
drop_local k b = done tt (record b { local = remove_item k b.local })

-- An item read as plain text; the keys read so hold no documents.
abbrev pub as_text : Option Item → Option String
as_text (some (text s)) = some s
as_text _ = none

-- `getCurrentUserId()`
unfoldable pub get_current_user_id : Browser → Option String
get_current_user_id b = if b.window then as_text (get_item current_user_id_key b.local) else none

-- `setCurrentUserId(userId)`
unfoldable pub set_current_user_id : String → Action (Unit {0})
unfolding put_local
set_current_user_id user_id = put_local current_user_id_key (text user_id)

-- `data ? JSON.parse(data) : default`, where the document is of one kind: any other text is refused.
abbrev pub parse_registry : Option Item → Browser → Outcome Registry
parse_registry none b = done [] b
parse_registry (some (registry_doc r)) b = done r b
parse_registry (some (text s)) b = if is_empty s then done [] b else threw b
parse_registry _ b = threw b

abbrev pub parse_user : Option Item → Browser → Outcome (Option User)
parse_user none b = done none b
parse_user (some (user_doc u)) b = done (some u) b
parse_user (some (text s)) b = if is_empty s then done none b else threw b
parse_user _ b = threw b

-- `getUserRegistry()`
unfoldable pub get_user_registry : Action Registry
get_user_registry b =
    if b.window then parse_registry (get_item user_registry_key b.local) b else done [] b

-- `email.toLowerCase().trim()`
unfoldable pub registry_email : String → String
registry_email email = trim (to_lower_case email)

-- `registerUser(email, userId)`; the registry is a map here, where "__proto__" is a name like any other.
unfoldable pub register_user : String → String → Action (Unit {0})
unfolding put_local registry_email
register_user email user_id = do
  registry ← get_user_registry
  put_local user_registry_key (registry_doc (set_item (registry_email email) user_id registry))

-- A registry entry that is missing or the empty text gives no user.
abbrev pub stored_user : Option String → Action (Option User)
stored_user none b = done none b
stored_user (some user_id) b =
    if is_empty user_id
    then done none b
    else parse_user (get_item (user_key user_id user_suffix) b.local) b

-- `getUserByEmail(email)`
unfoldable pub get_user_by_email : String → Action (Option User)
unfolding registry_email
get_user_by_email email b =
    if b.window
    then (do registry ← get_user_registry; stored_user (get_item (registry_email email) registry)) b
    else done none b

-- `getUser()`
unfoldable pub get_user : Action (Option User)
unfolding get_current_user_id
get_user b = if b.window then stored_user (get_current_user_id b) b else done none b

-- `saveUser(user)`, where `user` is no null
unfoldable pub save_user : User → Action (Unit {0})
unfolding put_local set_current_user_id
save_user user = do
  put_local (user_key user.id user_suffix) (user_doc user)
  register_user user.email user.id
  set_current_user_id user.id

abbrev pub is_true_text : Option String → Bool
is_true_text none = false
is_true_text (some s) = s == "true"

abbrev pub is_set : Option String → Bool
is_set none = false
is_set (some s) = true

-- `isLoggedIn()`
unfoldable pub is_logged_in : Browser → Bool
unfolding get_current_user_id
is_logged_in b =
    if b.window
    then is_true_text (as_text (get_item is_logged_in_key b.local))
      && is_set (get_current_user_id b)
    else false
