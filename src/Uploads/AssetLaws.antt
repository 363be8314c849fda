-- ===== src/Uploads/AssetLaws.antt =====
-- The form of app/dashboard/assets/add/page.tsx: its draft, its tests and its failures.
use secure_vault.Uploads.Asset.{
  AssetForm, draft_of, restore, new_form, kept, kept_edit, on_load, refused_upload, error_toasts,
  UploadResult, uploaded, failed, never_settles, detail_of, is_upgrade_required, plain_message,
  error_message, upgrade_message,
}
use secure_vault.Json.{
  ◌or_else◌, or_else-truthy, truthy, end, Json, null, str, obj, property, bool, num, arr,
}
use secure_vault.Prelude.{
  ℕ, String, Bool, true, false, Option, none, some, List, [], ◌∷◌, ◌≡◌, refl, if_both, Bool-cases,
  string_eq, nat_eq, inl, inr, ltb, leb, ◌≢◌, ◌↔◌, ◌&&◌, sym, is_empty, ap, is_empty-blank,
  if_false, eq_iff, ◌∙◌, ◌==◌, if_true, ◌||◌, ◌⊎◌, not,
}

kept_blank : (s : String) → kept s "" ≡ s
kept_blank s = elim (Bool-cases (is_empty s)) [
  | inl e ↦ rw e (sym (is_empty-blank s e))
  | inr e ↦ rw e refl
]

kept_edit-none : (o : Option String) → o ≢ some "" → kept_edit o none ≡ o
kept_edit-none none h = refl
kept_edit-none (some i) h = elim (Bool-cases (is_empty i)) [
  | inl e ↦ absurd (h (ap some (is_empty-blank i e)))
  | inr e ↦ rw e refl
]

-- The draft that is kept for the detour gives a new form the type, the name, the description, the content
-- and the edited asset back; the nominees that were chosen and the file are lost.
pub restore-draft_of :
    (f : AssetForm)
    → f.edit_id ≢ some ""
    → restore (draft_of f) new_form ≡ record f { selected_nominee_ids = []; file = none }
unfolding restore draft_of
restore-draft_of f h = λ i. record {
  asset_type = kept_blank f.asset_type i;
  name = kept_blank f.name i;
  description = kept_blank f.description i;
  content = kept_blank f.content i;
  edit_id = kept_edit-none f.edit_id h i;
  selected_nominee_ids = [];
  file = none;
}

-- The message of the error that a failed upload is rejected with.
abbrev pub rejected_with : UploadResult → Option String
rejected_with (failed shown text) = some text
rejected_with r = none

abbrev pub is_ok : ℕ → Bool
is_ok status = leb 200 status && ltb status 300

abbrev pub is_text : Json → Bool
is_text (str s) = true
is_text v = false

-- What a refusal that is not for the plan tells, by its body.
abbrev pub told : Option Json → Json
told none = str "Upload failed"
told (some null) = str "Upload failed"
told (some body) = plain_message (detail_of body) body

abbrev is_cons : List Json → Bool
is_cons [] = false
is_cons (x ∷ xs) = true

detail_of-truthy : (body : Json) → truthy (detail_of body) ≡ true
detail_of-truthy body =
    or_else-truthy (property "detail" body) _
      (or_else-truthy (property "error" body) (obj end) refl)

-- What is told when the detail is no text.
fallback_truthy :
    (o : Option Json) (body : Json)
    → truthy (o or_else property "message" body or_else str "Upload failed") ≡ true
fallback_truthy o body =
    or_else-truthy o (property "message" body or_else str "Upload failed")
      (or_else-truthy (property "message" body) (str "Upload failed") refl)

-- What is told is never an empty text.
plain_message-truthy : (v body : Json) → truthy v ≡ true → truthy (plain_message v body) ≡ true
plain_message-truthy (str s) body h = h
plain_message-truthy null body h = cc
plain_message-truthy (bool b) body h = fallback_truthy (property "message" (bool b)) body
plain_message-truthy (num n) body h = fallback_truthy (property "message" (num n)) body
plain_message-truthy (arr xs) body h = fallback_truthy (property "message" (arr xs)) body
plain_message-truthy (obj fs) body h = fallback_truthy (property "message" (obj fs)) body

-- A failure that has shown a toast before is not silent.
shown_toasts : (v : Json) (text : String) → is_cons (error_toasts (failed (v ∷ []) text)) ≡ true
unfolding error_toasts
shown_toasts v text =
    if_both (λ (ts : List Json). is_cons ts ≡ true) (is_empty text || text == "Upgrade required")
      refl refl

-- One that has not is silent only with one of two messages.
silent_text :
    (text : String)
    → error_toasts (failed [] text) ≡ []
    → (text ≡ "Upgrade required") ⊎ (is_empty text ≡ true)
unfolding error_toasts
silent_text text h = elim (Bool-cases (is_empty text)) [
  | inl e ↦ inr e
  | inr e ↦ elim (Bool-cases (text == "Upgrade required")) [
    | inl k ↦ inl ((eq_iff text "Upgrade required").0 k)
    | inr k ↦
        let both : (is_empty text || text == "Upgrade required") ≡ false = rw (e, k) refl in
        let said : str text ∷ [] ≡ [] = sym (if_false _ [] (str text ∷ []) both) ∙ h in
        absurd (let t : true ≡ false = ap is_cons said in cc)
  ]
]

-- A silent failure has the message "Upgrade required", or an empty one made of a value that is no text.
abbrev pub QuietOnly : Json → UploadResult → Type 0
QuietOnly v r =
    error_toasts r ≡ []
    → (rejected_with r ≡ some "Upgrade required")
      ⊎ ((rejected_with r ≡ some "") × (is_text v ≡ false))

shown_quiet : (w v : Json) (text : String) → QuietOnly w (failed (v ∷ []) text)
shown_quiet w v text h =
    absurd (let t : true ≡ false = sym (shown_toasts v text) ∙ ap is_cons h in cc)

module _ (string_of : Json → Option String)
    (texts : (s : String) → string_of (str s) ≡ some s) where
  -- The empty message is not made of a text that counts.
  empty_no_text :
      (v : Json) → truthy v ≡ true → is_empty (error_message string_of v) ≡ true → is_text v ≡ false
  empty_no_text (str s) t e = absurd (filled (texts s))
    where
      filled : string_of (str s) ≡ some s → ⊥
      filled f =
          let k = ap (λ o. is_empty (elim o [ none ↦ "Upload failed" | some x ↦ x ])) f in
          let l : true ≡ false = sym t ∙ ap not (sym k ∙ e) in cc
  empty_no_text null t e = refl
  empty_no_text (bool b) t e = refl
  empty_no_text (num n) t e = refl
  empty_no_text (arr xs) t e = refl
  empty_no_text (obj fs) t e = refl

  plain_quiet : (v : Json) → truthy v ≡ true → QuietOnly v (failed [] (error_message string_of v))
  plain_quiet v t h = elim (silent_text (error_message string_of v) h) [
    | inl e ↦ inl (ap some e)
    | inr e ↦ inr (ap some (is_empty-blank (error_message string_of v) e), empty_no_text v t e)
  ]

  refused_quiet :
      (status : ℕ) (body : Json)
      → QuietOnly (plain_message (detail_of body) body) (refused_upload string_of status body)
  unfolding refused_upload
  refused_quiet status body =
      let detail : Json = detail_of body in
      let msg : Option Json = upgrade_message detail in
      if_both (QuietOnly (plain_message detail body))
        (status == 402 || is_upgrade_required (property "error" detail))
        (shown_quiet (plain_message detail body)
          (msg or_else str "Plan limit reached. Please upgrade your plan.")
          (error_message string_of (msg or_else str "Upgrade required")))
        (plain_quiet (plain_message detail body)
          (plain_message-truthy detail body (detail_of-truthy body)))

  unread_quiet : QuietOnly (str "Upload failed") (failed [] "Upload failed")
  unfolding error_toasts
  unread_quiet h = absurd (let t : true ≡ false = ap is_cons h in cc)

  -- An upload that is answered by a refusal fails; it fails without a toast only if the error's message is "Upgrade
  -- required", or if it is empty, made of a value of the server that is no text, such as an empty array.
  pub on_load-not_silent :
      (status : ℕ) (body : Option Json)
      → is_ok status ≡ false
      → error_toasts (on_load string_of status body) ≡ []
      → (rejected_with (on_load string_of status body) ≡ some "Upgrade required")
        ⊎ ((rejected_with (on_load string_of status body) ≡ some "")
            × (is_text (told body) ≡ false))
  unfolding on_load
  on_load-not_silent status none h = rw h unread_quiet
  on_load-not_silent status (some null) h = rw h unread_quiet
  on_load-not_silent status (some (bool b)) h = rw h (refused_quiet status (bool b))
  on_load-not_silent status (some (num n)) h = rw h (refused_quiet status (num n))
  on_load-not_silent status (some (str s)) h = rw h (refused_quiet status (str s))
  on_load-not_silent status (some (arr xs)) h = rw h (refused_quiet status (arr xs))
  on_load-not_silent status (some (obj fs)) h = rw h (refused_quiet status (obj fs))

abbrev is_stuck : UploadResult → Bool
is_stuck never_settles = true
is_stuck r = false

module _ (string_of : Json → Option String) where
  refused_settles :
      (status : ℕ) (body : Json) → is_stuck (refused_upload string_of status body) ≡ false
  unfolding refused_upload
  refused_settles status body =
      if_both (λ r. is_stuck r ≡ false)
        (status == 402 || is_upgrade_required (property "error" (detail_of body))) {x = failed _ _}
        {y = failed _ _} refl refl

  refusal_settles :
      (status : ℕ) (body : Option Json)
      → is_ok status ≡ false
      → is_stuck (on_load string_of status body) ≡ false
  unfolding on_load
  refusal_settles status none h = rw h refl
  refusal_settles status (some null) h = rw h refl
  refusal_settles status (some (bool b)) h = rw h (refused_settles status (bool b))
  refusal_settles status (some (num n)) h = rw h (refused_settles status (num n))
  refusal_settles status (some (str s)) h = rw h (refused_settles status (str s))
  refusal_settles status (some (arr xs)) h = rw h (refused_settles status (arr xs))
  refusal_settles status (some (obj fs)) h = rw h (refused_settles status (obj fs))

  stuck_ok :
      (status : ℕ) (body : Option Json)
      → is_ok status ≡ true
      → is_stuck (on_load string_of status body) ≡ true
      → body ≡ none
  unfolding on_load
  stuck_ok status none e s = refl
  stuck_ok status (some b) e s =
      let t : false ≡ true = sym (ap is_stuck (if_true (is_ok status) uploaded _ e)) ∙ s in cc

  stuck_only :
      (status : ℕ) (body : Option Json)
      → is_stuck (on_load string_of status body) ≡ true
      → (is_ok status ≡ true) × (body ≡ none)
  unfolding on_load
  stuck_only status body s = elim (Bool-cases (is_ok status)) [
    | inr e ↦ let t : true ≡ false = sym s ∙ refusal_settles status body e in cc
    | inl e ↦ (e, stuck_ok status body e s)
  ]

  -- The form waits for ever exactly for an ok reply whose body is no JSON.
  pub on_load-never_settles :
      (status : ℕ) (body : Option Json)
      → (on_load string_of status body ≡ never_settles) ↔ ((is_ok status ≡ true) × (body ≡ none))
  unfolding on_load
  on_load-never_settles status body =
      (λ s. stuck_only status body (ap is_stuck s), λ h. let (e, b) = h in rw (b, e) refl)
