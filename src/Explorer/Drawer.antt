-- ===== src/Explorer/Drawer.antt =====
-- The drawer of app/dashboard/assets/explorer/page.tsx: one asset with its secret, its versions and its audit.
use secure_vault.Explorer.{Asset, ◌∷◌, is_empty}
use secure_vault.Json.{Json}
use secure_vault.Prelude.{
  ℕ, String, Bool, true, false, Option, none, some, List, ◌&◌, if◌then◌else◌, string_eq, ◌==◌, [],
}
use secure_vault.Prelude.Decimal.{to_string}

pub record VersionItem : Type 0 where
  pub version_id : String
  pub version_number : ℕ
  pub version_name : String
  pub version_category : String
  pub version_content : Option String
  pub version_file : Option String
  pub version_size : Option ℕ
  pub version_sensitivity : String
  pub made_at : String
  pub made_by : String
  pub change_summary : Option String

pub record AccessLog : Type 0 where
  pub log_id : String
  pub action : String
  pub log_status : String
  pub accessor_type : String
  pub ip_address : String
  pub accessed_at : String
  pub details : Option Json

pub data Tab : Type 0 where
  overview : Tab
  versions_tab : Tab
  audit_tab : Tab

pub record Drawer : Type 0 where
  pub active_asset : Option Asset
  pub drawer_open : Bool
  pub drawer_tab : Tab
  pub pin_input : String
  pub decrypted_data : Option Json
  pub versions : List VersionItem
  pub rollback_target : Option VersionItem
  pub access_logs : List AccessLog
  pub delete_target : Option Asset
  pub toast : Option String

-- How a request ends: an ok reply and what it brings, a refusal with the message that `extractErrorMessage`
-- makes of it, or an exception with its message.
pub data ApiReply (T : Type 0) : Type 0 where
  good : T → ApiReply T
  bad : String → ApiReply T
  broken : String → ApiReply T

abbrev pub toasted : String → Drawer → Drawer
toasted text d = record d { toast = some text }

unfoldable pub handle_open_asset_drawer : Asset → Drawer → Drawer
handle_open_asset_drawer a d = record d {
  active_asset = some a;
  drawer_tab = overview;
  decrypted_data = none;
  pin_input = "";
  drawer_open = true;
}

-- The address and the PIN that `handleDecryptSecret` sends.
unfoldable pub decrypt_request : Drawer → Option (String × String)
decrypt_request d = elim d.active_asset [
  | none ↦ none
  | some a ↦ some ("/v1/assets/" & a.id & "/decrypt", d.pin_input)
]

-- `err.message || "Failed to decrypt secret"`
abbrev pub decrypt_error : String → String
decrypt_error msg = if is_empty msg then "Failed to decrypt secret" else msg

-- The rest of `handleDecryptSecret`.
unfoldable pub decrypt_reply : ApiReply Json → Drawer → Drawer
decrypt_reply (good secret) d =
    toasted "Secret revealed with KMS DEK decryption" (record d { decrypted_data = some secret })
decrypt_reply (bad msg) d = toasted (decrypt_error msg) d
decrypt_reply (broken msg) d = toasted (decrypt_error msg) d

unfoldable pub versions_request : Drawer → Option String
versions_request d = elim d.active_asset [
  | none ↦ none
  | some a ↦ some ("/v1/assets/" & a.id & "/versions")
]

-- The rest of `handleLoadVersions`: `json.data || []`.
unfoldable pub versions_reply : ApiReply (List VersionItem) → Drawer → Drawer
versions_reply (good vs) d = record d { versions = vs }
versions_reply (bad msg) d = d
versions_reply (broken msg) d = toasted "Failed to load version history" d

-- The rest of `handleLoadAccessLogs`.
unfoldable pub logs_reply : ApiReply (List AccessLog) → Drawer → Drawer
logs_reply (good ls) d = record d { access_logs = ls }
logs_reply (bad msg) d = d
logs_reply (broken msg) d = toasted "Failed to load access logs" d

-- The address that `handleExecuteRollback` posts to.
unfoldable pub rollback_request : Drawer → Option String
rollback_request d = elim d.active_asset [
  | none ↦ none
  | some a ↦ elim d.rollback_target [
    | none ↦ none
    | some v ↦ some ("/v1/assets/" & a.id & "/rollback/" & to_string v.version_number)
  ]
]

-- The rest of `handleExecuteRollback`, for the version `n` that was sent.
unfoldable pub rollback_reply : ℕ → ApiReply Unit → Drawer → Drawer
rollback_reply n (good u) d =
    toasted ("Rolled back to v" & to_string n) (record d { rollback_target = none })
rollback_reply n (bad msg) d = toasted msg d
rollback_reply n (broken msg) d = toasted msg d

abbrev pub is_asset : String → Option Asset → Bool
is_asset i none = false
is_asset i (some a) = a.id == i

-- The rest of `handleDeleteAsset`: the asset `i` was sent, and `then_active` was in the drawer.
unfoldable pub delete_reply : String → Option Asset → ApiReply Unit → Drawer → Drawer
delete_reply i then_active (good u) d =
    let e : Drawer =
      toasted "Asset deleted and quota released" (record d { delete_target = none }) in
    if is_asset i then_active then record e { drawer_open = false } else e
delete_reply i then_active (bad msg) d = toasted "Delete failed" d
delete_reply i then_active (broken msg) d = toasted msg d

-- What happens to the drawer; a reply to a decryption names the asset that was asked for.
pub data DrawerEvent : Type 0 where
  open_asset : Asset → DrawerEvent
  type_pin : String → DrawerEvent
  decrypted : String → ApiReply Json → DrawerEvent
  show_versions : DrawerEvent
  got_versions : ApiReply (List VersionItem) → DrawerEvent
  show_audit : DrawerEvent
  got_logs : ApiReply (List AccessLog) → DrawerEvent
  choose_version : Option VersionItem → DrawerEvent
  rolled_back : ℕ → ApiReply Unit → DrawerEvent
  choose_delete : Option Asset → DrawerEvent
  deleted : String → Option Asset → ApiReply Unit → DrawerEvent
  close_drawer : DrawerEvent

unfoldable pub drawer_step : DrawerEvent → Drawer → Drawer
unfolding handle_open_asset_drawer decrypt_reply versions_reply logs_reply rollback_reply
    delete_reply
drawer_step (open_asset a) d = handle_open_asset_drawer a d
drawer_step (type_pin pin) d = record d { pin_input = pin }
drawer_step (decrypted i reply) d = decrypt_reply reply d
drawer_step show_versions d = record d { drawer_tab = versions_tab }
drawer_step (got_versions reply) d = versions_reply reply d
drawer_step show_audit d = record d { drawer_tab = audit_tab }
drawer_step (got_logs reply) d = logs_reply reply d
drawer_step (choose_version v) d = record d { rollback_target = v }
drawer_step (rolled_back n reply) d = rollback_reply n reply d
drawer_step (choose_delete a) d = record d { delete_target = a }
drawer_step (deleted i then_active reply) d = delete_reply i then_active reply d
drawer_step close_drawer d = record d { drawer_open = false }

unfoldable pub drawer_run : List DrawerEvent → Drawer → Drawer
unfolding drawer_step
drawer_run [] d = d
drawer_run (e ∷ es) d = drawer_run es (drawer_step e d)
