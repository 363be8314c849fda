-- ===== src/Allocations.antt =====
-- The allocation drawer of app/dashboard/nominees/page.tsx: which assets a nominee is to receive, in which
-- share and when. A share is the whole number of the per cent field.
pub mod Distinct
use secure_vault.Prelude.{
  ℕ, String, Bool, Option, none, some, List, [], ◌∷◌, ◌++◌, ◌==◌, string_eq, nat_eq, not,
  if◌then◌else◌, keep, ◌&◌, true, false, ◌||◌,
}

pub record AllocationItem : Type 0 where
  pub asset_id : String
  pub share_percentage : ℕ
  pub release_condition : String

pub record Drawer : Type 0 where
  pub selected_nominee : Option String
  pub current_allocations : List AllocationItem
  pub is_open : Bool

unfoldable pub handle_open_allocations : String → Option (List AllocationItem) → Drawer → Drawer
handle_open_allocations id none d = record {
  selected_nominee = some id;
  current_allocations = [];
  is_open = true;
}
handle_open_allocations id (some items) d = record {
  selected_nominee = some id;
  current_allocations = items;
  is_open = true;
}

-- `prev.find((a) => a.assetId === assetId)`, as a test
unfoldable pub is_allocated : String → List AllocationItem → Bool
is_allocated asset_id [] = false
is_allocated asset_id (a ∷ items) =
    let rest = is_allocated asset_id items in a.asset_id == asset_id || rest

-- `prev.filter((a) => a.assetId !== assetId)`
unfoldable pub without_asset : String → List AllocationItem → List AllocationItem
without_asset asset_id [] = []
without_asset asset_id (a ∷ items) =
    let rest = without_asset asset_id items in if a.asset_id == asset_id then rest else a ∷ rest

abbrev pub new_allocation : String → AllocationItem
new_allocation asset_id = record {
  asset_id = asset_id;
  share_percentage = 100;
  release_condition = "IMMEDIATE_ON_CLAIM";
}

unfoldable pub toggle_asset_allocation : String → List AllocationItem → List AllocationItem
unfolding is_allocated without_asset
toggle_asset_allocation asset_id items =
    if is_allocated asset_id items
    then without_asset asset_id items
    else items ++ new_allocation asset_id ∷ []

-- What the number field gives: `parseFloat(e.target.value) || 100`
abbrev pub share_value : Option ℕ → ℕ
share_value none = 100
share_value (some n) = if n == 0 then 100 else n

unfoldable pub update_asset_share : String → ℕ → List AllocationItem → List AllocationItem
update_asset_share asset_id share [] = []
update_asset_share asset_id share (a ∷ items) =
    (if a.asset_id == asset_id then record a { share_percentage = share } else a)
    ∷ update_asset_share asset_id share items

unfoldable pub update_asset_condition : String → String → List AllocationItem → List AllocationItem
update_asset_condition asset_id condition [] = []
update_asset_condition asset_id condition (a ∷ items) =
    (if a.asset_id == asset_id then record a { release_condition = condition } else a)
    ∷ update_asset_condition asset_id condition items

pub data Edit : Type 0 where
  toggle : String → Edit
  set_share : String → Option ℕ → Edit
  set_condition : String → String → Edit

unfoldable pub edit : Edit → List AllocationItem → List AllocationItem
unfolding toggle_asset_allocation update_asset_share update_asset_condition
edit (toggle asset_id) items = toggle_asset_allocation asset_id items
edit (set_share asset_id share) items = update_asset_share asset_id (share_value share) items
edit (set_condition asset_id condition) items = update_asset_condition asset_id condition items

unfoldable pub edits : List Edit → List AllocationItem → List AllocationItem
unfolding edit
edits [] items = items
edits (e ∷ es) items = edits es (edit e items)

-- `handleSaveAllocations`: what is posted, and to where.
unfoldable pub allocations_request : Drawer → Option (String × List AllocationItem)
allocations_request d = elim d.selected_nominee [
  | none ↦ none
  | some id ↦ some ("/v1/nominees/" & id & "/allocations", d.current_allocations)
]
