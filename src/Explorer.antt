-- ===== src/Explorer.antt =====
-- The vault explorer of app/dashboard/assets/explorer/page.tsx: the query, the search in the list, and the
-- form for a new asset. Its drawer is modelled in the child Drawer.
pub mod Drawer
pub mod Secrets
use Prim.Native.Char.{Char, code}
use secure_vault.Json.{Json}
use secure_vault.Prelude.{
  ℕ, String, Bool, true, false, Option, none, some, List, ◌&◌, if◌then◌else◌, string_eq, nat_eq,
  ◌∷◌, ◌==◌, trim, to_lower_case, is_empty, includes, any, ◌||◌, keep, [], ◌++◌, not, map,
}
use secure_vault.Uploads.{UploadFile}

pub data Sensitivity : Type 0 where
  low : Sensitivity
  medium : Sensitivity
  high : Sensitivity
  critical : Sensitivity

pub record Asset : Type 0 where
  pub id : String
  pub name : String
  pub asset_type : String
  pub category : Option String
  pub description : Option String
  pub content : Option String
  pub has_content : Option Bool
  pub sensitivity : Sensitivity
  pub current_version : Option ℕ
  pub file_name : Option String
  pub file_size : Option ℕ
  pub mime_type : Option String
  pub is_encrypted : Bool
  pub kms_key_id : Option String
  pub tags : Option (List String)
  pub nominee_ids : Option (List String)
  pub updated_at : String
  pub created_at : Option String
  pub metadata : Option Json

pub record Filters : Type 0 where
  pub selected_category : String
  pub selected_sensitivity : String
  pub selected_tag : String
  pub search_query : String

-- `if (value !== "ALL") queryParams.set(key, value)`
abbrev pub unless_all : String → String → List (String × String)
unless_all key value = if value == "ALL" then [] else (key, value) ∷ []

abbrev pub unless_blank : String → String → List (String × String)
unless_blank key value = if is_empty value then [] else (key, value) ∷ []

-- The parameters of the request for the assets.
unfoldable pub query_params : Filters → List (String × String)
unfolding trim
query_params f =
    (("page", "1") ∷ ("page_size", "100") ∷ [])
    ++ unless_all "category" f.selected_category
    ++ unless_all "sensitivity" f.selected_sensitivity
    ++ unless_all "tag" f.selected_tag
    ++ unless_blank "search" (trim f.search_query)

-- `a.description && a.description.toLowerCase().includes(q)`
abbrev pub text_has : String → Option String → Bool
text_has q none = false
text_has q (some s) = includes (to_lower_case s) q

-- `a.tags && a.tags.some((t) => t.toLowerCase().includes(q))`
abbrev pub tags_have : String → Option (List String) → Bool
tags_have q none = false
tags_have q (some ts) = any (λ t. includes (to_lower_case t) q) ts

abbrev pub asset_matches : String → Asset → Bool
asset_matches q a =
    includes (to_lower_case a.name) q || text_has q a.description || tags_have q a.tags

-- `filteredAssets`
unfoldable pub filtered_assets : String → List Asset → List Asset
unfolding to_lower_case trim
filtered_assets search assets =
    if is_empty (trim search) then assets else keep (asset_matches (to_lower_case search)) assets

-- A piece longer by one character.
abbrev pub longer : Char → List String → List String
longer c [] = (Prim.Native.String.◌∷◌ c "") ∷ []
longer c (p ∷ ps) = (Prim.Native.String.◌∷◌ c p) ∷ ps

-- `s.split(",")`
unfoldable pub split_commas : String → List String
split_commas Prim.Native.String.[] = "" ∷ []
split_commas (Prim.Native.String.◌∷◌ c t) =
    let rest = split_commas t in if code c == b',' then "" ∷ rest else longer c rest

-- `assetTags.split(",").map((t) => t.trim()).filter(Boolean)`
unfoldable pub tag_list : String → List String
unfolding split_commas trim
tag_list s = keep (λ t. not (is_empty t)) (map trim (split_commas s))

pub data CreateType : Type 0 where
  as_file : CreateType
  as_credentials : CreateType
  as_financial : CreateType
  as_crypto : CreateType
  as_note : CreateType

pub record CreateForm : Type 0 where
  pub modal_open : Bool
  pub create_type : CreateType
  pub asset_name : String
  pub asset_description : String
  pub asset_sensitivity : String
  pub asset_tags : String
  pub secret_content : String
  pub uploaded_file : Option UploadFile

abbrev pub create_category : CreateType → String
create_category as_credentials = "CREDENTIALS"
create_category as_financial = "FINANCIAL"
create_category as_crypto = "CRYPTO"
create_category c = "NOTES"

-- What is sent to save an asset: the fields of a form with a file, or a document.
pub data SaveRequest : Type 0 where
  send_file : String → String → String → String → UploadFile → SaveRequest
  send_document : String → String → String → String → List String → String → SaveRequest

abbrev pub is_file : CreateType → Bool
is_file as_file = true
is_file c = false

abbrev pub document_of : CreateForm → SaveRequest
document_of f =
    send_document (trim f.asset_name) (create_category f.create_type) f.asset_description
      f.asset_sensitivity (tag_list f.asset_tags) f.secret_content

-- `handleSaveNewAsset` up to its request; none when the name is blank.
unfoldable pub save_request : CreateForm → Option SaveRequest
unfolding trim tag_list
save_request f = if is_empty (trim f.asset_name) then none else elim f.uploaded_file [
  | none ↦ some (document_of f)
  | some x ↦ some (
      if is_file f.create_type
      then send_file (trim f.asset_name) f.asset_description f.asset_sensitivity f.asset_tags x
      else document_of f)
]

-- `resetCreateForm`, and the dialog closed: the form after the asset is saved.
unfoldable pub after_save : CreateForm → CreateForm
after_save f = record f {
  modal_open = false;
  asset_name = "";
  asset_description = "";
  secret_content = "";
  asset_tags = "";
  asset_sensitivity = "MEDIUM";
  uploaded_file = none;
}
