-- ===== src/Uploads/Asset.antt =====
-- The form of app/dashboard/assets/add/page.tsx: its draft across the detour to the nominees' page, the file,
-- the tests before the upload, and the messages when the upload fails.
use secure_vault.Prelude.{
  ℕ, String, Bool, true, false, Option, none, some, List, ◌&◌, if◌then◌else◌, string_eq, nat_eq,
  ◌==◌, ◌++◌, not, ltb, leb, is_empty, ◌||◌, ◌*◌, ◌&&◌, includes, ◌∷◌, before_dot, [],
}
use secure_vault.Json.{Json, null, str, obj, end, property, ◌or_else◌, arr}
use secure_vault.Uploads.{UploadFile}
use text.Mathlib.Text.{starts_with}

pub record AssetForm : Type 0 where
  pub asset_type : String
  pub name : String
  pub description : String
  pub content : String
  pub edit_id : Option String
  pub selected_nominee_ids : List String
  pub file : Option UploadFile

pub record Draft : Type 0 where
  pub draft_type : String
  pub draft_name : String
  pub draft_description : String
  pub draft_content : String
  pub draft_edit : Option String

-- `handleRedirectToAddNominee`: the draft that is kept, and where the page goes; `encode` is
-- `encodeURIComponent`.
unfoldable pub draft_of : AssetForm → Draft
draft_of f = record {
  draft_type = f.asset_type;
  draft_name = f.name;
  draft_description = f.description;
  draft_content = f.content;
  draft_edit = f.edit_id;
}

abbrev is_set : Option String → Option String
is_set none = none
is_set (some s) = if is_empty s then none else some s

unfoldable pub current_path : AssetForm → String
current_path f = elim (is_set f.edit_id) [
  | none ↦ "/dashboard/assets/add"
  | some i ↦ "/dashboard/assets/add?edit=" & i
]

unfoldable pub nominees_path : (String → String) → AssetForm → String
nominees_path encode f = "/dashboard/nominees?returnTo=" & encode (current_path f)

-- `if (draft.x) setX(draft.x)`
abbrev pub kept : String → String → String
kept draft now = if is_empty draft then now else draft

abbrev pub kept_edit : Option String → Option String → Option String
kept_edit none now = now
kept_edit (some i) now = if is_empty i then now else some i

unfoldable pub restore : Draft → AssetForm → AssetForm
restore d f = record f {
  asset_type = kept d.draft_type f.asset_type;
  name = kept d.draft_name f.name;
  description = kept d.draft_description f.description;
  content = kept d.draft_content f.content;
  edit_id = kept_edit d.draft_edit f.edit_id;
}

-- The form when the page is opened.
abbrev pub new_form : AssetForm
new_form = record {
  asset_type = "";
  name = "";
  description = "";
  content = "";
  edit_id = none;
  selected_nominee_ids = [];
  file = none;
}

-- The type that a file's own type suggests, or the one that is set.
unfoldable pub detected_type : String → String → String
detected_type file_type now =
    if not (is_empty now)
    then now
    else if starts_with file_type "image/"
    then "image"
    else if starts_with file_type "video/"
    then "video"
    else if includes file_type "pdf"
    then "document"
    else now

-- `validateAndSetFile`, with the toast it shows.
unfoldable pub validate_and_set_file : UploadFile → AssetForm → AssetForm × Option String
unfolding before_dot detected_type
validate_and_set_file x f =
    if ltb (50 * 1024 * 1024) x.size then (f, some "File size exceeds 50MB limit") else (
      record f {
        file = some x;
        name = if is_empty f.name then before_dot x.file_name else f.name;
        asset_type = detected_type x.file_type f.asset_type;
      },
      none,
    )

-- The two numbers of the signed-in user that the page reads.
pub record StorageUse : Type 0 where
  pub storage_used : ℕ
  pub storage_limit : ℕ

abbrev pub needs_file : String → Bool
needs_file t = t == "image" || t == "video" || t == "document" || t == "legal-file"

abbrev pub needs_content : String → Bool
needs_content t = t == "password" || t == "note"

abbrev pub is_edit : AssetForm → Bool
is_edit f = elim (is_set f.edit_id) [ none ↦ false | some i ↦ true ]

abbrev pub has_file : AssetForm → Bool
has_file f = elim f.file [ none ↦ false | some x ↦ true ]

-- `user && user.storageUsed >= user.storageLimit`
abbrev pub is_full : Option StorageUse → Bool
is_full none = false
is_full (some u) = leb u.storage_limit u.storage_used

abbrev pub has_none {ℓ} : {A : Type ℓ} → List A → Bool
has_none [] = true
has_none (x ∷ xs) = false

-- The tests of `handleSubmit`: the text of the first that fails, or none when the upload begins.
unfoldable pub submit_error : Option StorageUse → AssetForm → Option String
submit_error user f =
    if is_empty f.asset_type || is_empty f.name
    then some "Please fill in asset type and name"
    else if has_none f.selected_nominee_ids
    then some "Please assign at least one nominee"
    else if needs_file f.asset_type && not (has_file f) && not (is_edit f)
    then some ("Please upload a file for " & f.asset_type & " asset")
    else if needs_content f.asset_type && is_empty f.content
    then some ("Please provide " & f.asset_type & " content")
    else if not (is_edit f) && is_full user
    then some "Storage limit reached! Please upgrade your plan."
    else none

-- How the upload's promise ends; a failure carries the toasts shown before it is rejected, and the message of the
-- error it is rejected with. It never settles when the handler of an ok reply throws.
pub data UploadResult : Type 0 where
  uploaded : UploadResult
  failed : List Json → String → UploadResult
  never_settles : UploadResult

-- `errData.detail || errData.error || {}`
abbrev pub detail_of : Json → Json
detail_of body = property "detail" body or_else property "error" body or_else obj end

abbrev pub is_upgrade_required : Option Json → Bool
is_upgrade_required (some (str s)) = s == "upgrade_required"
is_upgrade_required v = false

-- `typeof detail === "object" ? detail.message : detail`
abbrev pub upgrade_message : Json → Option Json
upgrade_message (obj fs) = property "message" (obj fs)
upgrade_message (arr xs) = none
upgrade_message v = some v

abbrev pub plain_message : Json → Json → Json
plain_message (str s) body = str s
plain_message v body =
    property "message" v or_else property "message" body or_else str "Upload failed"

-- `string_of` is the platform's String(value), which `new Error(value)` makes its message with; `none` is an exception.
module _ (string_of : Json → Option String) where
  -- `new Error(value).message`; where that throws, the `catch` around it makes another error.
  abbrev pub error_message : Json → String
  error_message v = elim (string_of v) [ none ↦ "Upload failed" | some t ↦ t ]

  -- The reply that is not ok, whose body is JSON and not null.
  unfoldable pub refused_upload : ℕ → Json → UploadResult
  refused_upload status body =
      let detail : Json = detail_of body in
      let msg : Option Json = upgrade_message detail in
      if status == 402 || is_upgrade_required (property "error" detail)
      then failed ((msg or_else str "Plan limit reached. Please upgrade your plan.") ∷ [])
          (error_message (msg or_else str "Upgrade required"))
      else failed [] (error_message (plain_message detail body))

  -- `xhr.onload`, for a reply's status and its body; `none` is a body that is no JSON.
  unfoldable pub on_load : ℕ → Option Json → UploadResult
  unfolding refused_upload
  on_load status body =
      if leb 200 status && ltb status 300
      then elim body [ none ↦ never_settles | some b ↦ uploaded ]
      else elim body [
        | none ↦ failed [] "Upload failed"
        | some null ↦ failed [] "Upload failed"
        | some b ↦ refused_upload status b
      ]

-- The toasts of an upload that has ended, those of the `catch` included:
-- `error?.message && error.message !== "Upgrade required"`.
unfoldable pub error_toasts : UploadResult → List Json
error_toasts (failed shown text) =
    if is_empty text || text == "Upgrade required" then shown else shown ++ str text ∷ []
error_toasts r = []
