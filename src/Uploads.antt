-- ===== src/Uploads.antt =====
-- The files that the pages take: components/design-system/FileUploader.tsx and the payment dialog of
-- components/dashboard/payment-modal.tsx. What is sent is text and a file's name, type and size.
pub mod Bounds
pub mod Asset
pub mod AssetLaws
use secure_vault.Prelude.{
  ℕ, String, Bool, true, false, Option, none, some, List, ◌&◌, list_of, if◌then◌else◌, string_eq,
  ◌∷◌, trim, not, is_empty, any, [], ◌==◌, ◌++◌, ltb, ◌*◌, chars,
}
use secure_vault.Prelude.Decimal.{to_string}

pub record UploadFile : Type 0 where
  pub file_name : String
  pub file_type : String
  pub size : ℕ

pub record Uploader : Type 0 where
  pub local_error : Option String
  pub selected_file : Option UploadFile

-- `handleFiles`: the first of the dropped or chosen files.
unfoldable pub handle_files : ℕ → List UploadFile → Uploader → Uploader
handle_files max_mb [] u = record u { local_error = none }
handle_files max_mb (f ∷ fs) u =
    if ltb (max_mb * 1024 * 1024) f.size
    then record {
      local_error = some ("File size exceeds maximum allowed limit of " & to_string max_mb & "MB");
      selected_file = none;
    }
    else record { local_error = none; selected_file = some f }

-- `clearFile`
abbrev pub clear_file : Uploader → Uploader
clear_file u = record u { selected_file = none }

pub record PaymentDialog : Type 0 where
  pub utr_id : String
  pub screenshot : Option UploadFile
  pub loading : Bool
  pub is_success : Bool
  pub submitted : Option (String × String)
  pub toast : Option String

abbrev pub image_types : List String
image_types = "image/jpeg" ∷ "image/png" ∷ "image/webp" ∷ "image/jpg" ∷ []

abbrev pub is_image_type : String → Bool
is_image_type t = any (λ x. x == t) image_types

abbrev pub toasted : String → PaymentDialog → PaymentDialog
toasted text d = record d { toast = some text }

-- `handleFileChange`, with the first chosen file.
unfoldable pub handle_file_change : Option UploadFile → PaymentDialog → PaymentDialog
handle_file_change none d = d
handle_file_change (some f) d =
    if not (is_image_type f.file_type)
    then toasted "Please upload a valid image file (JPEG, PNG, or WebP)" d
    else if ltb (5 * 1024 * 1024) f.size
    then toasted "File size must be under 5MB" d
    else record d { screenshot = some f }

abbrev pub remove_screenshot : PaymentDialog → PaymentDialog
remove_screenshot d = record d { screenshot = none }

-- What `submitPaymentRequest` is called with, behind the plan's id.
pub record Payment : Type 0 where
  pub utr : String
  pub proof : UploadFile

-- `handleSubmit` up to the request: the text of the error, or what is sent.
unfoldable pub start_submit : PaymentDialog → PaymentDialog × Option Payment
unfolding trim
start_submit d =
    if ltb (chars (trim d.utr_id)) 4
    then (toasted "Please enter a valid UPI Transaction / UTR ID" d, none)
    else elim d.screenshot [
      | none ↦ (toasted "Please upload a screenshot of your successful UPI payment" d, none)
      | some f ↦ (record d { loading = true }, some (record { utr = trim d.utr_id; proof = f }))
    ]

-- How `submitPaymentRequest` ends: with a reply, or with an error and its message.
pub data PaymentReply : Type 0 where
  accepted : PaymentReply
  refused : String → PaymentReply

-- The rest of `handleSubmit`; `sent_utr` is the transaction that was sent.
unfoldable pub finish_submit : String → String → PaymentReply → PaymentDialog → PaymentDialog
finish_submit plan_name sent_utr accepted d = record d {
  toast = some "Payment request submitted successfully!";
  submitted = some (sent_utr, plan_name);
  is_success = true;
  loading = false;
}
finish_submit plan_name sent_utr (refused why) d = record d {
  toast = some (if is_empty why then "Failed to submit payment request" else why);
  loading = false;
}

unfoldable pub handle_modal_close : PaymentDialog → PaymentDialog
handle_modal_close d =
    if d.loading then d else record d { is_success = false; utr_id = ""; screenshot = none }

pub data PaymentEvent : Type 0 where
  type_utr : String → PaymentEvent
  choose : Option UploadFile → PaymentEvent
  drop_screenshot : PaymentEvent
  submit : PaymentEvent
  settle : String → String → PaymentReply → PaymentEvent
  close : PaymentEvent

-- The dialog after an event, and what the event sends.
unfoldable pub payment_step : PaymentEvent → PaymentDialog → PaymentDialog × Option Payment
unfolding handle_file_change start_submit finish_submit handle_modal_close
payment_step (type_utr text) d = (record d { utr_id = text }, none)
payment_step (choose file) d = (handle_file_change file d, none)
payment_step drop_screenshot d = (remove_screenshot d, none)
payment_step submit d = start_submit d
payment_step (settle plan_name sent reply) d = (finish_submit plan_name sent reply d, none)
payment_step close d = (handle_modal_close d, none)

-- All that a run of events sends.
unfoldable pub payments : List PaymentEvent → PaymentDialog → List Payment
unfolding payment_step
payments [] d = []
payments (e ∷ es) d = list_of ((payment_step e d).1) ++ payments es ((payment_step e d).0)

-- The dialog when the page is opened.
abbrev pub new_dialog : PaymentDialog
new_dialog = record {
  utr_id = "";
  screenshot = none;
  loading = false;
  is_success = false;
  submitted = none;
  toast = none;
}
