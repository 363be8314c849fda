-- ===== src/Allocations/Distinct.antt =====
-- That the drawer of app/dashboard/nominees/page.tsx allocates an asset at most once.
use secure_vault.Allocations.{
  AllocationItem, is_allocated, without_asset, toggle_asset_allocation, edit, edits, Edit,
  new_allocation, update_asset_share, update_asset_condition, ℕ, toggle, set_share, share_value,
  set_condition,
}
use secure_vault.Prelude.{
  neither, String, List, [], ◌∷◌, ◌++◌, ◌==◌, string_eq, true, false, ◌≡◌, refl, if_both, arith,
  Bool-cases, inl, subst, sym, if_true, inr, if_false, eq_iff, ◌||◌, if◌then◌else◌, eq_refl, ap,
  ◌∙◌,
}

-- No asset occurs twice.
abbrev pub Distinct : List AllocationItem → Type 0
Distinct [] = Unit
Distinct (a ∷ items) = (is_allocated a.asset_id items ≡ false) × Distinct items

other_way : (i j : String) → (i == j) ≡ false → (j == i) ≡ false
other_way i j e = ground (arith, e, eq_iff i j, eq_iff j i)

is_allocated-without :
    (i j : String) (items : List AllocationItem)
    → is_allocated i items ≡ false
    → is_allocated i (without_asset j items) ≡ false
unfolding is_allocated without_asset
is_allocated-without i j [] h = refl
is_allocated-without i j (a ∷ items) h =
    let (e, k) = neither (a.asset_id == i) (is_allocated i items) h in
    let rest = is_allocated-without i j items k in
    if_both (λ xs. is_allocated i xs ≡ false) (a.asset_id == j) rest (ground (arith, e, rest))

without-Distinct :
    (i : String) (items : List AllocationItem) → Distinct items → Distinct (without_asset i items)
unfolding without_asset
without-Distinct i [] d = tt
without-Distinct i (a ∷ items) (d, ds) =
    if_both Distinct (a.asset_id == i) (without-Distinct i items ds)
      (is_allocated-without a.asset_id i items d, without-Distinct i items ds)

-- An asset that is not in the list stays out when another one comes in.
is_allocated-snoc :
    (i : String) (a : AllocationItem) (items : List AllocationItem)
    → is_allocated i items ≡ false
    → (a.asset_id == i) ≡ false
    → is_allocated i (items ++ a ∷ []) ≡ false
unfolding is_allocated
is_allocated-snoc i a [] h e = ground (arith, e)
is_allocated-snoc i a (b ∷ items) h e =
    let (f, k) = neither (b.asset_id == i) (is_allocated i items) h in
    ground (arith, f, is_allocated-snoc i a items k e)

snoc-Distinct :
    (a : AllocationItem) (items : List AllocationItem)
    → is_allocated a.asset_id items ≡ false
    → Distinct items
    → Distinct (items ++ a ∷ [])
unfolding is_allocated
snoc-Distinct a [] h d = (refl, tt)
snoc-Distinct a (b ∷ items) h (d, ds) =
    let (e, k) = neither (b.asset_id == a.asset_id) (is_allocated a.asset_id items) h in
    (
      is_allocated-snoc b.asset_id a items d (other_way b.asset_id a.asset_id e),
      snoc-Distinct a items k ds,
    )

toggle-Distinct :
    (i : String) (items : List AllocationItem)
    → Distinct items
    → Distinct (toggle_asset_allocation i items)
unfolding toggle_asset_allocation
toggle-Distinct i items d = elim (Bool-cases (is_allocated i items)) [
  | inl e ↦ subst Distinct (sym (if_true _ _ _ e)) (without-Distinct i items d)
  | inr e ↦ subst Distinct (sym (if_false _ _ _ e)) (snoc-Distinct (new_allocation i) items e d)
]

share_head :
    (i : String) (n : ℕ) (a : AllocationItem)
    → (if a.asset_id == i then record a { share_percentage = n } else a).asset_id ≡ a.asset_id
share_head i n a =
    if_both (λ (x : AllocationItem). x.asset_id ≡ a.asset_id) (a.asset_id == i) refl refl

share-is_allocated :
    (j i : String) (n : ℕ) (items : List AllocationItem)
    → is_allocated j (update_asset_share i n items) ≡ is_allocated j items
unfolding is_allocated update_asset_share
share-is_allocated j i n [] = refl
share-is_allocated j i n (a ∷ items) =
    λ k. (share_head i n a k == j) || share-is_allocated j i n items k

share-Distinct :
    (i : String) (n : ℕ) (items : List AllocationItem)
    → Distinct items
    → Distinct (update_asset_share i n items)
unfolding update_asset_share
share-Distinct i n [] d = tt
share-Distinct i n (a ∷ items) (d, ds) = (
  ap (λ j. is_allocated j (update_asset_share i n items)) (share_head i n a)
      ∙ share-is_allocated a.asset_id i n items
      ∙ d,
  share-Distinct i n items ds,
)

condition_head :
    (i : String) (c : String) (a : AllocationItem)
    → (if a.asset_id == i then record a { release_condition = c } else a).asset_id ≡ a.asset_id
condition_head i c a =
    if_both (λ (x : AllocationItem). x.asset_id ≡ a.asset_id) (a.asset_id == i) refl refl

condition-is_allocated :
    (j i : String) (c : String) (items : List AllocationItem)
    → is_allocated j (update_asset_condition i c items) ≡ is_allocated j items
unfolding is_allocated update_asset_condition
condition-is_allocated j i c [] = refl
condition-is_allocated j i c (a ∷ items) =
    λ k. (condition_head i c a k == j) || condition-is_allocated j i c items k

condition-Distinct :
    (i : String) (c : String) (items : List AllocationItem)
    → Distinct items
    → Distinct (update_asset_condition i c items)
unfolding update_asset_condition
condition-Distinct i c [] d = tt
condition-Distinct i c (a ∷ items) (d, ds) = (
  ap (λ j. is_allocated j (update_asset_condition i c items)) (condition_head i c a)
      ∙ condition-is_allocated a.asset_id i c items
      ∙ d,
  condition-Distinct i c items ds,
)

-- Whatever is edited in the drawer, a list without a double asset stays one: the rows that are saved name each
-- asset at most once.
pub edits-Distinct :
    (es : List Edit) (items : List AllocationItem) → Distinct items → Distinct (edits es items)
unfolding edits edit
edits-Distinct [] items d = d
edits-Distinct (toggle i ∷ es) items d =
    edits-Distinct es (toggle_asset_allocation i items) (toggle-Distinct i items d)
edits-Distinct (set_share i n ∷ es) items d =
    edits-Distinct es (update_asset_share i (share_value n) items)
      (share-Distinct i (share_value n) items d)
edits-Distinct (set_condition i c ∷ es) items d =
    edits-Distinct es (update_asset_condition i c items) (condition-Distinct i c items d)

is_allocated-last :
    (a : AllocationItem) (items : List AllocationItem)
    → is_allocated a.asset_id (items ++ a ∷ []) ≡ true
unfolding is_allocated
is_allocated-last a [] = ground (arith, eq_refl a.asset_id)
is_allocated-last a (b ∷ items) = ground (arith, is_allocated-last a items)

without_last :
    (a : AllocationItem) (items : List AllocationItem)
    → is_allocated a.asset_id items ≡ false
    → without_asset a.asset_id (items ++ a ∷ []) ≡ items
unfolding is_allocated without_asset
without_last a [] h = if_true _ _ _ (eq_refl a.asset_id)
without_last a (b ∷ items) h =
    let (e, k) = neither (b.asset_id == a.asset_id) (is_allocated a.asset_id items) h in
    if_false _ _ _ e ∙ ap (λ xs. b ∷ xs) (without_last a items k)

-- To choose an asset that is not allocated and to take the choice back leaves the list as it was.
pub toggle-toggle :
    (i : String) (items : List AllocationItem)
    → is_allocated i items ≡ false
    → toggle_asset_allocation i (toggle_asset_allocation i items) ≡ items
unfolding toggle_asset_allocation
toggle-toggle i items h =
    ap (toggle_asset_allocation i) (if_false _ _ _ h)
    ∙ if_true _ _ _ (is_allocated-last (new_allocation i) items)
    ∙ without_last (new_allocation i) items h
