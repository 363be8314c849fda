-- ===== src/Table.antt =====
-- `DataTable` of components/design-system/DataTable.tsx: the rows that a table shows after the search,
-- the sorting and the choice of a page. `to_text` is `String`, and `sort` the array's own `sort` by the
-- component's comparison.
pub mod Pages
use Prim.Native.Nat.{◌/◌, ◌*◌, max, min}
use secure_vault.Json.{Json, Fields, end, field, truthy, get_field, null}
use secure_vault.Prelude.{
  ℕ, ◌+◌, ◌-◌, String, Bool, Option, none, some, List, [], ◌∷◌, ◌==◌, string_eq, not, ◌&&◌, leb,
  if◌then◌else◌, keep, take, drop, length, includes, to_lower_case, is_empty, true, false, ◌||◌,
}

pub data Order : Type 0 where
  asc desc : Order

pub record View : Type 0 where
  pub search_term : String
  pub sort_field : Option String
  pub sort_order : Order
  pub current_page : ℕ

abbrev pub initial_view : View
initial_view = record { search_term = ""; sort_field = none; sort_order = asc; current_page = 1 }

-- `Math.max(1, Math.ceil(n / pageSize))`
unfoldable pub total_pages : ℕ → ℕ → ℕ
total_pages page_size n = max 1 ((n + (page_size - 1)) / page_size)

-- `rows.slice(start, start + pageSize)`
unfoldable pub page_of : ℕ → ℕ → List Fields → List Fields
page_of page_size page rows = take page_size (drop ((page - 1) * page_size) rows)

-- `val && String(val).toLowerCase().includes(term)` of some value of the row
unfoldable pub row_matches : (Json → String) → String → Fields → Bool
row_matches to_text term end = false
row_matches to_text term (field k v fs) =
    let rest = row_matches to_text term fs in
    (truthy v && includes (to_lower_case (to_text v)) term) || rest

unfoldable pub filtered : (Json → String) → String → List Fields → List Fields
unfolding row_matches
filtered to_text search_term rows =
    if is_empty search_term
    then rows
    else keep (row_matches to_text (to_lower_case search_term)) rows

-- The comparison that `sort` is given; undefined and null go last in both orders.
pub data Sign : Type 0 where
  minus none_of plus : Sign

abbrev pub negate : Sign → Sign
negate minus = plus
negate none_of = none_of
negate plus = minus

abbrev pub is_nullish : Option Json → Bool
is_nullish none = true
is_nullish (some null) = true
is_nullish (some v) = false

-- `same` is `===`, and `less` is `<`, on the values of two cells.
unfoldable pub compare_cells :
    (Option Json → Option Json → Bool)
    → (Option Json → Option Json → Bool)
    → Order
    → Option Json
    → Option Json
    → Sign
compare_cells same less order a b =
    if same a b
    then none_of
    else if is_nullish a
    then plus
    else if is_nullish b
    then minus
    else let res : Sign = if less a b then minus else plus in
      elim order [ asc ↦ res | desc ↦ negate res ]

unfoldable pub compare_rows :
    (Option Json → Option Json → Bool)
    → (Option Json → Option Json → Bool)
    → Order
    → String
    → Fields
    → Fields
    → Sign
unfolding compare_cells
compare_rows same less order key a b =
    compare_cells same less order (get_field key a) (get_field key b)

unfoldable pub handle_sort : Option String → View → View
handle_sort none v = v
handle_sort (some key) v = if is_empty key then v else elim v.sort_field [
  | none ↦ record v { sort_field = some key; sort_order = asc }
  | some old ↦
      if old == key
      then record v { sort_order = elim v.sort_order [ asc ↦ desc | desc ↦ asc ] }
      else record v { sort_field = some key; sort_order = asc }
]

unfoldable pub handle_search : String → View → View
handle_search term v = record v { search_term = term; current_page = 1 }

-- The two buttons; `total` is the number of pages that the table shows at the click.
unfoldable pub handle_previous : View → View
handle_previous v =
    if leb v.current_page 1 then v else record v { current_page = max 1 (v.current_page - 1) }

unfoldable pub handle_next : ℕ → View → View
handle_next total v =
    if leb total v.current_page
    then v
    else record v { current_page = min total (v.current_page + 1) }

module _ (to_text : Json → String) (sort : Order → String → List Fields → List Fields) where
  unfoldable pub sorted_rows : View → List Fields → List Fields
  unfolding filtered
  sorted_rows v rows = elim v.sort_field [
    | none ↦ filtered to_text v.search_term rows
    | some key ↦
        if is_empty key
        then filtered to_text v.search_term rows
        else sort v.sort_order key (filtered to_text v.search_term rows)
  ]

  unfoldable pub shown_rows : ℕ → View → List Fields → List Fields
  unfolding page_of sorted_rows
  shown_rows page_size v rows = page_of page_size v.current_page (sorted_rows v rows)
