-- ===== src/Uploads/Bounds.antt =====
-- What components/dashboard/payment-modal.tsx sends, and which files components/design-system/FileUploader.tsx
-- keeps.
use secure_vault.Uploads.{
  UploadFile, Uploader, handle_files, PaymentDialog, Payment, PaymentEvent, payment_step, payments,
  handle_file_change, start_submit, finish_submit, handle_modal_close, is_image_type, new_dialog,
  type_utr, choose, drop_screenshot, submit, settle, close, accepted, refused,
}
use secure_vault.Prelude.{
  list_of, ℕ, true, Option, none, some, List, [], ◌∷◌, ◌≡◌, refl, arith, if_both, Bool-cases, inl,
  inr, All, ltb, trim, chars, ◌≤◌, ◌*◌, subst, sym, All-append,
}

-- A file that fits the dialog: an image of at most 5 MB.
pub record ImageFits (f : UploadFile) : Type 0 where
  pub image : is_image_type f.file_type ≡ true
  pub small : f.size ≤ 5242880

abbrev pub ScreenshotFits : Option UploadFile → Type 0
ScreenshotFits none = Unit
ScreenshotFits (some f) = ImageFits f

-- What may be sent: a transaction of four characters or more, and a file that fits.
pub record PaymentFits (p : Payment) : Type 0 where
  pub long : 4 ≤ chars p.utr
  pub proof_fits : ImageFits p.proof

handle_file_change-Fits :
    (file : Option UploadFile) (d : PaymentDialog)
    → ScreenshotFits d.screenshot
    → ScreenshotFits (handle_file_change file d).screenshot
unfolding handle_file_change
handle_file_change-Fits none d h = h
handle_file_change-Fits (some f) d h = elim (Bool-cases (is_image_type f.file_type)) [
  | inr e ↦ rw e h
  | inl e ↦ elim (Bool-cases (ltb 5242880 f.size)) [
    | inl k ↦ rw (e, k) h
    | inr k ↦ rw (e, k) (record { image = e; small = ground arith })
  ]
]

-- A dialog whose screenshot fits, and what it sends.
abbrev StepFits : PaymentDialog × Option Payment → Type 0
StepFits (d, sent) = ScreenshotFits d.screenshot × All PaymentFits (list_of sent)

start_submit-Fits :
    (d : PaymentDialog) (o : Option UploadFile)
    → d.screenshot ≡ o
    → ScreenshotFits o
    → StepFits (start_submit d)
unfolding start_submit
start_submit-Fits d none e h =
    if_both StepFits (ltb (chars (trim d.utr_id)) 4) (subst ScreenshotFits (sym e) h, tt)
      (rw e (subst ScreenshotFits (sym e) h, tt))
start_submit-Fits d (some f) e h = elim (Bool-cases (ltb (chars (trim d.utr_id)) 4)) [
  | inl k ↦ rw k (subst ScreenshotFits (sym e) h, tt)
  | inr k ↦
      rw (k, e)
        (subst ScreenshotFits (sym e) h, (record { long = ground arith; proof_fits = h }, tt))
]

payment_step-Fits :
    (e : PaymentEvent) (d : PaymentDialog)
    → ScreenshotFits d.screenshot
    → StepFits (payment_step e d)
unfolding payment_step handle_modal_close finish_submit
payment_step-Fits (type_utr text) d h = (h, tt)
payment_step-Fits (choose file) d h = (handle_file_change-Fits file d h, tt)
payment_step-Fits drop_screenshot d h = (tt, tt)
payment_step-Fits submit d h = start_submit-Fits d d.screenshot refl h
payment_step-Fits (settle plan_name sent accepted) d h = (h, tt)
payment_step-Fits (settle plan_name sent (refused why)) d h = (h, tt)
payment_step-Fits close d h =
    (if_both (λ (x : PaymentDialog). ScreenshotFits x.screenshot) d.loading h tt, tt)

payments_from-Fits :
    (es : List PaymentEvent) (d : PaymentDialog)
    → ScreenshotFits d.screenshot
    → All PaymentFits (payments es d)
unfolding payments
payments_from-Fits [] d h = tt
payments_from-Fits (e ∷ es) d h =
    let (k, sent) = payment_step-Fits e d h in
    All-append PaymentFits (list_of ((payment_step e d).1)) (payments es ((payment_step e d).0))
      sent (payments_from-Fits es ((payment_step e d).0) k)

-- Whatever is typed, chosen, sent, closed and answered, in any order, every payment that a dialog sends has
-- a transaction of at least four characters and an image of one of the four types of at most 5 MB.
pub payments-Fit : (es : List PaymentEvent) → All PaymentFits (payments es new_dialog)
payments-Fit es = payments_from-Fits es new_dialog tt

-- The choices of files in an uploader, one after another.
unfoldable pub choices : ℕ → List (List UploadFile) → Uploader → Uploader
unfolding handle_files
choices max_mb [] u = u
choices max_mb (fs ∷ more) u = choices max_mb more (handle_files max_mb fs u)

-- A selected file is within the limit.
abbrev pub SelectedWithin : ℕ → Option UploadFile → Type 0
SelectedWithin max_mb none = Unit
SelectedWithin max_mb (some f) = f.size ≤ max_mb * 1024 * 1024

handle_files-Within :
    (max_mb : ℕ) (fs : List UploadFile) (u : Uploader)
    → SelectedWithin max_mb u.selected_file
    → SelectedWithin max_mb (handle_files max_mb fs u).selected_file
unfolding handle_files
handle_files-Within max_mb [] u h = h
handle_files-Within max_mb (f ∷ fs) u h = elim (Bool-cases (ltb (max_mb * 1024 * 1024) f.size)) [
  | inl k ↦ rw k tt
  | inr k ↦ rw k (ground arith)
]

-- An uploader whose selected file is within its limit keeps it so, whatever is chosen.
pub choices-Within :
    (max_mb : ℕ) (choice : List (List UploadFile)) (u : Uploader)
    → SelectedWithin max_mb u.selected_file
    → SelectedWithin max_mb (choices max_mb choice u).selected_file
unfolding choices
choices-Within max_mb [] u h = h
choices-Within max_mb (fs ∷ more) u h =
    choices-Within max_mb more (handle_files max_mb fs u) (handle_files-Within max_mb fs u h)
