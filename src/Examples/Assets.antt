-- ===== src/Examples/Assets.antt =====
-- Examples for the uploads, the explorer, the PIN dialog and the administrator's frame.
use secure_vault.Explorer.{Asset}
use secure_vault.Explorer
use secure_vault.Explorer.Drawer.{
  Drawer, DrawerEvent, drawer_run, drawer_step, open_asset, decrypted, good, close_drawer, overview,
  handle_open_asset_drawer,
}
use secure_vault.Explorer.Secrets.{drawer_run-ShowsOwnSecret, ShowsOwnSecret, AllInTime}
use secure_vault.Json.{arr, nil, Json, str, obj, field, end, get_field}
use secure_vault.PinModal.{PinEvent, typed, verify, new_dialog}
use secure_vault.PinModal
use secure_vault.Prelude.{
  Option, ◌⊎◌, String, true, false, none, some, List, [], ◌∷◌, ◌≡◌, refl, All,
}
use secure_vault.Uploads.{UploadFile, PaymentEvent, payments, type_utr, choose, submit}
use secure_vault.Uploads.Bounds.{payments-Fit, PaymentFits}
use secure_vault.Uploads
use secure_vault.Uploads.Asset.{on_load, error_toasts, refused_upload}
use secure_vault.Uploads.AssetLaws.{on_load-not_silent, rejected_with, is_text, told}

abbrev proof_image : UploadFile
proof_image = record { file_name = "proof.png"; file_type = "image/png"; size = 40000 }

abbrev paying : List PaymentEvent
paying = type_utr " 4021 " ∷ choose (some proof_image) ∷ submit ∷ []

payments-Fit_example : All PaymentFits (payments paying Uploads.new_dialog)
payments-Fit_example = payments-Fit paying

-- The platform's String on texts and on empty arrays; other values are not needed.
abbrev some_texts : Json → Option String
some_texts (str s) = some s
some_texts (arr nil) = some ""
some_texts v = none

-- A refusal whose message is an empty array.
abbrev quiet_body : Json
quiet_body = obj (field "detail" (obj (field "message" (arr nil) end)) end)

quiet : error_toasts (on_load some_texts 400 (some quiet_body)) ≡ []
unfolding error_toasts on_load refused_upload get_field
quiet = refl

on_load-not_silent_example :
    (rejected_with (on_load some_texts 400 (some quiet_body)) ≡ some "Upgrade required")
    ⊎ ((rejected_with (on_load some_texts 400 (some quiet_body)) ≡ some "")
        × (is_text (told (some quiet_body)) ≡ false))
on_load-not_silent_example =
    on_load-not_silent some_texts (λ s. refl) 400 (some quiet_body) refl quiet

abbrev asset : String → Asset
asset i = record {
  id = i;
  name = "Seed phrase";
  asset_type = "CRYPTO";
  category = none;
  description = none;
  content = none;
  has_content = some true;
  sensitivity = Explorer.critical;
  current_version = some 1;
  file_name = none;
  file_size = none;
  mime_type = none;
  is_encrypted = true;
  kms_key_id = none;
  tags = none;
  nominee_ids = none;
  updated_at = "2026-01-01T00:00:00.000Z";
  created_at = none;
  metadata = none;
}

abbrev closed_drawer : Drawer
closed_drawer = record {
  active_asset = none;
  drawer_open = false;
  drawer_tab = overview;
  pin_input = "";
  decrypted_data = none;
  versions = [];
  rollback_target = none;
  access_logs = [];
  delete_target = none;
  toast = none;
}

-- The secret of an asset in the example is the text of its id.
abbrev id_secret : String → Json
id_secret i = str i

abbrev drawer_events : List DrawerEvent
drawer_events = open_asset (asset "a1") ∷ decrypted "a1" (good (str "a1")) ∷ close_drawer ∷ []

in_time : AllInTime id_secret drawer_events closed_drawer
unfolding drawer_step handle_open_asset_drawer
in_time = (tt, ((refl, refl), (tt, tt)))

drawer_run-ShowsOwnSecret_example :
    ShowsOwnSecret id_secret (drawer_run drawer_events closed_drawer)
drawer_run-ShowsOwnSecret_example =
    drawer_run-ShowsOwnSecret id_secret drawer_events closed_drawer in_time tt

abbrev pin_events : List PinEvent
pin_events = typed 0 "4" ∷ typed 1 "0" ∷ typed 2 "2" ∷ typed 3 "1" ∷ verify (some "u1") ∷ []
