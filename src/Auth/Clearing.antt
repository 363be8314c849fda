-- ===== src/Auth/Clearing.antt =====
-- What `clearAuthState` removes, and what it leaves.
use text.Mathlib.Text.{starts_with}
use secure_vault.Auth.{clear_keys, clear_auth_state}
use secure_vault.Prelude.{
  String, Bool, true, false, List, [], ◌∷◌, none, if◌then◌else◌, ◌≡◌, refl, ◌==◌, string_eq, ◌||◌,
  arith, ◌&&◌, ◌∙◌, eq_iff, Bool-cases,
}
use secure_vault.Session.Data.{Browser, Item}
use secure_vault.Storage.{Storage, keys, remove_item, get_item}
use secure_vault.Storage.Laws.{get_item-remove_item}

abbrev mentions : String → List String → Bool
mentions k [] = false
mentions k (j ∷ js) = j == k || mentions k js

get_item_unlisted :
    (k : String) (m : Storage Item) → mentions k (keys m) ≡ false → get_item k m ≡ none
unfolding get_item keys
get_item_unlisted k [] h = refl
get_item_unlisted k ((j, v) ∷ m) h = ground (arith, get_item_unlisted k m)

get_item-clear_keys :
    (k : String) (ks : List String) (m : Storage Item)
    → get_item k (clear_keys ks m)
      ≡ (if starts_with k "sv_" && mentions k ks then none else get_item k m)
unfolding clear_keys
get_item-clear_keys k [] m = ground arith
get_item-clear_keys k (j ∷ ks) m =
    get_item-clear_keys k ks (if starts_with j "sv_" then remove_item j m else m)
    ∙ ground (arith, get_item-remove_item j k m, eq_iff j k)

-- In a browser, after `clearAuthState()` exactly the keys that begin with `sv_` are gone from
-- localStorage, every other key keeps its item, and sessionStorage is as it was.
pub get_item-clear_auth_state :
    (k : String) (b : Browser)
    → b.window ≡ true
    → (get_item k (clear_auth_state b).local
        ≡ (if starts_with k "sv_" then none else get_item k b.local))
      × ((clear_auth_state b).session ≡ b.session)
unfolding clear_auth_state
get_item-clear_auth_state k b w = (
  ground (
    arith,
    get_item-clear_keys k (keys b.local) b.local,
    Bool-cases (mentions k (keys b.local)),
    get_item_unlisted k b.local,
  ),
  ground arith,
)
