-- ===== src/Nominees.antt =====
-- The nominees of app/dashboard/nominees/page.tsx: the list with its filter, the form, invitations, revocation,
-- and the drawer of Allocations. The matrix, the statuses and the dates are only shown; of the assets the ids are kept.
pub mod Events
pub mod Requests
use secure_vault.Allocations.{AllocationItem, Drawer, handle_open_allocations, allocations_request}
use secure_vault.Fetch.Errors.{extract_error_message}
use secure_vault.Json.{Json}
use secure_vault.Prelude.{
  string_eq, trim, to_lower_case, some, none, false, [], String, Option, List, ℕ, true,
  if◌then◌else◌, Bool, ◌==◌, length, is_empty, includes, ◌||◌, ◌&◌, keep,
}
use secure_vault.Replies.{Outcome, ok, offline, not_ok}

pub record Nominee : Type 0 where
  pub id : String
  pub name : String
  pub email : String
  pub relationship : String
  pub phone : Option String
  pub tier : String
  pub invitation_token : Option String
  pub asset_allocations : Option (List AllocationItem)
  pub notes : Option String

pub record NomineeForm : Type 0 where
  pub nominee_name : String
  pub nominee_email : String
  pub nominee_relationship : String
  pub nominee_phone : String
  pub nominee_tier : String
  pub nominee_notes : String

-- What a toast shows: a text of the page, the text of what the server has sent, or that of an exception of the
-- platform.
pub data Notice : Type 0 where
  success : String → Notice
  complaint : String → Notice
  server_text : Json → Notice
  platform_text : Notice

-- `saving` holds, while the form's request is on its way, whether it is an edit.
pub record NomineesPage : Type 0 where
  pub nominees : List Nominee
  pub asset_ids : List String
  pub loading : Bool
  pub selected_tier : String
  pub search_query : String
  pub modal_open : Bool
  pub editing_nominee : Option Nominee
  pub form : NomineeForm
  pub saving : Option Bool
  pub drawer : Drawer
  pub saving_allocations : Bool
  pub revoke_target : Option Nominee
  pub delete_target : Option Nominee
  pub clipboard : Option String
  pub toast : Option Notice

abbrev pub blank_form : NomineeForm
blank_form = record {
  nominee_name = "";
  nominee_email = "";
  nominee_relationship = "Spouse";
  nominee_phone = "";
  nominee_tier = "PRIMARY";
  nominee_notes = "";
}

abbrev pub first_page : NomineesPage
first_page = record {
  nominees = [];
  asset_ids = [];
  loading = true;
  selected_tier = "ALL";
  search_query = "";
  modal_open = false;
  editing_nominee = none;
  form = blank_form;
  saving = none;
  drawer = record { selected_nominee = none; current_allocations = []; is_open = false };
  saving_allocations = false;
  revoke_target = none;
  delete_target = none;
  clipboard = none;
  toast = none;
}

-- `x || ""`
abbrev pub text_or_empty : Option String → String
text_or_empty none = ""
text_or_empty (some s) = s

-- `s.trim() || undefined`
unfoldable pub trimmed : String → Option String
unfolding trim
trimmed s = if is_empty (trim s) then none else some (trim s)

-- The address of the list.
abbrev pub nominees_url : String → String
nominees_url tier = if tier == "ALL" then "/v1/nominees" else "/v1/nominees" & "?tier=" & tier

-- The replies of `fetchNomineesAndMatrix`, the next one asked for after the last; each ends the loading if it does
-- not come. `json.data || []` is `none` where the data is missing.
abbrev pub failed_load : NomineesPage → NomineesPage
failed_load p = record p {
  loading = false;
  toast = some (complaint "Failed to load beneficiaries");
}

unfoldable pub load_assets : Outcome (Option (List String)) → NomineesPage → NomineesPage
load_assets (ok none) p = record p { loading = false; asset_ids = [] }
load_assets (ok (some ids)) p = record p { loading = false; asset_ids = ids }
load_assets not_ok p = record p { loading = false }
load_assets offline p = failed_load p

unfoldable pub load_matrix :
    Outcome Unit → Outcome (Option (List String)) → NomineesPage → NomineesPage
unfolding load_assets
load_matrix offline assets p = failed_load p
load_matrix reply assets p = load_assets assets p

unfoldable pub fetch_nominees_and_matrix :
    Outcome (Option (List Nominee))
    → Outcome Unit
    → Outcome (Option (List String))
    → NomineesPage
    → NomineesPage
unfolding load_matrix
fetch_nominees_and_matrix offline matrix assets p = failed_load p
fetch_nominees_and_matrix not_ok matrix assets p = load_matrix matrix assets p
fetch_nominees_and_matrix (ok none) matrix assets p =
    load_matrix matrix assets (record p { nominees = [] })
fetch_nominees_and_matrix (ok (some ns)) matrix assets p =
    load_matrix matrix assets (record p { nominees = ns })

-- `filteredNominees`
unfoldable pub matches_query : String → Nominee → Bool
unfolding to_lower_case
matches_query q n =
    includes (to_lower_case n.name) q
    || includes (to_lower_case n.email) q
    || includes (to_lower_case n.relationship) q

unfoldable pub filtered_nominees : NomineesPage → List Nominee
unfolding trim to_lower_case matches_query
filtered_nominees p =
    if is_empty (trim p.search_query)
    then p.nominees
    else keep (matches_query (to_lower_case p.search_query)) p.nominees

-- `primaryCount` and `contingentCount`
abbrev pub count_tier : String → List Nominee → ℕ
count_tier tier ns = length (keep (λ (n : Nominee). n.tier == tier) ns)

unfoldable pub handle_open_add_modal : NomineesPage → NomineesPage
handle_open_add_modal p = record p { editing_nominee = none; form = blank_form; modal_open = true }

unfoldable pub handle_open_edit_modal : Nominee → NomineesPage → NomineesPage
handle_open_edit_modal n p = record p {
  editing_nominee = some n;
  form = record {
    nominee_name = n.name;
    nominee_email = n.email;
    nominee_relationship = n.relationship;
    nominee_phone = text_or_empty n.phone;
    nominee_tier = n.tier;
    nominee_notes = text_or_empty n.notes;
  };
  modal_open = true;
}

-- `handleCopyInviteLink`, at the given origin.
unfoldable pub handle_copy_invite_link : String → Option String → NomineesPage → NomineesPage
handle_copy_invite_link origin token p =
    if is_empty (text_or_empty token)
    then record p { toast = some (complaint "No active invitation token for this beneficiary") }
    else record p {
      clipboard = some (origin & "/nominee/invite/" & text_or_empty token);
      toast = some (success "Invitation link copied to clipboard");
    }
