-- ===== src/Storage.antt =====
-- The Web Storage of a browser (localStorage, sessionStorage), as the program uses it: a list of
-- keys with their items, in the order in which the keys were first set.
pub mod Laws
use Prim.Native.String.{String}
use mathlib.Core.List.{List, [], ◌∷◌, map}
use mathlib.Core.Option.{Option, none, some}
use secure_vault.Prelude.{◌==◌, string_eq, if◌then◌else◌}

abbrev pub Storage : Type 0 → Type 0
Storage V = List (String × V)

module _ {V : Type 0} where
  -- `getItem(key)`
  unfoldable pub get_item : String → Storage V → Option V
  get_item k [] = none
  get_item k ((j, v) ∷ m) = if j == k then some v else get_item k m

  -- `setItem(key, value)`
  unfoldable pub set_item : String → V → Storage V → Storage V
  set_item k v [] = (k, v) ∷ []
  set_item k v ((j, w) ∷ m) = if j == k then (k, v) ∷ m else (j, w) ∷ set_item k v m

  -- `removeItem(key)`
  unfoldable pub remove_item : String → Storage V → Storage V
  remove_item k [] = []
  remove_item k ((j, v) ∷ m) = if j == k then remove_item k m else (j, v) ∷ remove_item k m

  -- `Object.keys(storage)`
  unfoldable pub keys : Storage V → List String
  keys m = map (λ e. e.0) m
