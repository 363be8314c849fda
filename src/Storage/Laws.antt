-- ===== src/Storage/Laws.antt =====
-- What a read finds after a write or a removal.
use secure_vault.Prelude.{
  String, [], ◌∷◌, none, some, ◌≡◌, refl, ◌==◌, string_eq, eq_iff, eq_refl, arith, if◌then◌else◌,
  ◌≢◌, false,
}
use secure_vault.Storage.{Storage, get_item, set_item, remove_item}

module _ {V : Type 0} where
  pub get_item-set_item :
      (k j : String) (v : V) (m : Storage V)
      → get_item j (set_item k v m) ≡ (if k == j then some v else get_item j m)
  unfolding get_item set_item
  get_item-set_item k j v [] = refl
  get_item-set_item k j v ((i, w) ∷ m) =
      ground (arith, eq_iff k j, eq_iff i k, eq_iff i j, get_item-set_item k j v m)

  pub get_item-remove_item :
      (k j : String) (m : Storage V)
      → get_item j (remove_item k m) ≡ (if k == j then none else get_item j m)
  unfolding get_item remove_item
  get_item-remove_item k j [] = ground arith
  get_item-remove_item k j ((i, w) ∷ m) =
      ground (arith, eq_iff k j, eq_iff i k, eq_iff i j, get_item-remove_item k j m)

pub eq_false : (k j : String) → k ≢ j → (k == j) ≡ false
eq_false k j h = ground (arith, eq_iff k j)

module _ {V : Type 0} where
  pub get_item-set_item_self :
      (k : String) (v : V) (m : Storage V) → get_item k (set_item k v m) ≡ some v
  get_item-set_item_self k v m = rw (get_item-set_item k k v m, eq_refl k)

  pub get_item-set_item_ne :
      (k j : String) (v : V) (m : Storage V) → k ≢ j → get_item j (set_item k v m) ≡ get_item j m
  get_item-set_item_ne k j v m h = rw (get_item-set_item k j v m, eq_false k j h)

  pub get_item-remove_item_self : (k : String) (m : Storage V) → get_item k (remove_item k m) ≡ none
  get_item-remove_item_self k m = rw (get_item-remove_item k k m, eq_refl k)

  pub get_item-remove_item_ne :
      (k j : String) (m : Storage V) → k ≢ j → get_item j (remove_item k m) ≡ get_item j m
  get_item-remove_item_ne k j m h = rw (get_item-remove_item k j m, eq_false k j h)
