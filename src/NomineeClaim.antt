-- ===== src/NomineeClaim.antt =====
-- The nominee's way to a claim, app/nominee/verify/[token]/page.tsx: the owner's details, the code by mail, the
-- death certificate, and the three requests of a submission. `token` is the one in the page's address.
pub mod Gate
pub mod Order
use secure_vault.Json.{Json, null, bool, num, str, arr, obj, Items, nil, cons, ◌or_else◌}
use secure_vault.Prelude.{
  ℕ, String, Bool, true, false, Option, none, some, List, ◌&◌, ◌==◌, if◌then◌else◌, string_eq, ◌∷◌,
  ◌||◌, ltb, is_empty, includes, ◌*◌, [],
}
use secure_vault.Replies.{error_or}
use secure_vault.Uploads.{UploadFile}

pub data FlowStep : Type 0 where
  owner_details : FlowStep
  authenticate : FlowStep
  certificate : FlowStep
  confirmation : FlowStep

pub record NomineeDetails : Type 0 where
  pub name : String
  pub masked_email : String
  pub email : String
  pub relationship : Option String
  pub owner_name : Option String
  pub masked_owner_email : Option String
  pub owner_email : Option String

pub record RequestStatus : Type 0 where
  pub has_request : Bool
  pub status : Option String

pub record DeathForm : Type 0 where
  pub claimed_by_name : String
  pub claimed_by_relation : String
  pub claimed_by_email : String
  pub claimed_by_phone : String
  pub date_of_death : String
  pub place_of_death : String
  pub death_certificate_number : String
  pub remarks : String

pub record NomineePage : Type 0 where
  pub nominee_details : Option NomineeDetails
  pub request_status : Option RequestStatus
  pub flow_step : FlowStep
  pub is_authenticated : Bool
  pub otp : String
  pub otp_sent : Bool
  pub timer : ℕ
  pub claim_form : DeathForm
  pub death_doc_file : Option UploadFile
  pub toast : Option String
  pub route : Option String

abbrev pub empty_death_form : DeathForm
empty_death_form = record {
  claimed_by_name = "";
  claimed_by_relation = "";
  claimed_by_email = "";
  claimed_by_phone = "";
  date_of_death = "";
  place_of_death = "";
  death_certificate_number = "";
  remarks = "";
}

abbrev pub new_page : NomineePage
new_page = record {
  nominee_details = none;
  request_status = none;
  flow_step = owner_details;
  is_authenticated = false;
  otp = "";
  otp_sent = false;
  timer = 0;
  claim_form = empty_death_form;
  death_doc_file = none;
  toast = none;
  route = none;
}

abbrev pub toasted : String → NomineePage → NomineePage
toasted text p = record p { toast = some text }

abbrev pub text_of : Option String → String
text_of none = ""
text_of (some s) = s

-- The details that the link gives, in the page and in the form.
unfoldable pub show_details : NomineeDetails → NomineePage → NomineePage
show_details d p = record p {
  nominee_details = some d;
  claim_form = record (p.claim_form) {
    claimed_by_name = d.name;
    claimed_by_email = d.email;
    claimed_by_relation = text_of d.relationship;
  };
}

-- The states of a request that is on its way.
abbrev pub is_under_way : String → Bool
is_under_way s =
    s == "PENDING"
    || s == "PENDING_REVIEW"
    || s == "UNDER_REVIEW"
    || s == "APPROVED"
    || s == "COOLING_PERIOD"
    || s == "CLAIMED"
    || s == "NOMINEE_NOTIFIED"

-- `statusData.hasRequest && statusData.status`: the state of an earlier request.
abbrev pub earlier_request : RequestStatus → Option String
earlier_request r =
    if r.has_request
    then elim r.status [ none ↦ none | some s ↦ if is_empty s then none else some s ]
    else none

unfoldable pub show_status : String → RequestStatus → NomineePage → NomineePage
show_status token r p =
    let q : NomineePage = record p { request_status = some r } in
    elim (earlier_request r) [
      | none ↦ q
      | some s ↦
          if is_under_way s
          then record q { route = some ("/nominee/status/" & token) }
          else record q { flow_step = certificate }
    ]

-- What `loadDetailsAndStatus` meets: a link that is refused, the details with the request's status, if
-- that reply is ok, or an exception after what has been shown.
pub data Loaded : Type 0 where
  bad_link : Option String → Loaded
  found : NomineeDetails → Option RequestStatus → Loaded
  load_failed : Option NomineeDetails → Loaded

unfoldable pub load_details : String → Loaded → NomineePage → NomineePage
unfolding show_details show_status
load_details token (bad_link detail) p =
    toasted (error_or "Invalid or expired access link" detail) (record p { route = some "/" })
load_details token (found d none) p = show_details d p
load_details token (found d (some r)) p = show_status token r (show_details d p)
load_details token (load_failed none) p = toasted "Failed to load account details." p
load_details token (load_failed (some d)) p =
    toasted "Failed to load account details." (show_details d p)

-- The address that `handleSendOTP` sends a code to; none without one.
unfoldable pub send_otp_request : NomineePage → Option String
send_otp_request p = elim p.nominee_details [
  | none ↦ none
  | some d ↦ if is_empty d.email then none else some d.email
]

-- The address and the code that `handleVerifyOTP` sends.
unfoldable pub verify_otp_request : NomineePage → Option (String × String)
unfolding send_otp_request
verify_otp_request p =
    if is_empty p.otp
    then none
    else elim (send_otp_request p) [ none ↦ none | some email ↦ some (email, p.otp) ]

-- How a request for a code, or for its check, ends.
pub data CodeReply : Type 0 where
  code_ok : CodeReply
  code_refused : Option String → CodeReply
  code_failed : CodeReply

-- The rest of `handleSendOTP`, which has asked only for a nominee with an address.
unfoldable pub send_otp_reply : NomineeDetails → CodeReply → NomineePage → NomineePage
send_otp_reply d code_ok p =
    toasted ("Authentication code sent to " & d.masked_email)
      (record p { otp_sent = true; timer = 60; otp = "" })
send_otp_reply d (code_refused detail) p =
    toasted (error_or "Failed to send verification code." detail) p
send_otp_reply d code_failed p = toasted "Network error sending authentication code." p

unfoldable pub verify_otp_reply : CodeReply → NomineePage → NomineePage
verify_otp_reply code_ok p =
    toasted "Nominee authenticated successfully!"
      (record p { is_authenticated = true; flow_step = certificate })
verify_otp_reply (code_refused detail) p =
    toasted (error_or "Invalid code. Please check your email." detail) p
verify_otp_reply code_failed p = toasted "Authentication failed." p

-- `handleFileSelect`, with the chosen file.
unfoldable pub handle_file_select : Option UploadFile → NomineePage → NomineePage
handle_file_select none p = p
handle_file_select (some f) p =
    if ltb (10 * 1024 * 1024) f.size
    then toasted "File size exceeds 10MB limit." p
    else toasted ("Selected file: " & f.file_name) (record p { death_doc_file = some f })

-- The tests of `handleSubmitDeathCertificateForm`.
unfoldable pub submit_error : NomineePage → Option String
submit_error p =
    if is_empty p.claim_form.claimed_by_name
      || is_empty p.claim_form.claimed_by_relation
      || is_empty p.claim_form.claimed_by_phone
    then some "Please complete all required fields."
    else elim p.death_doc_file [
      | none ↦ some "Please upload the official Death Certificate."
      | some f ↦ none
    ]

-- The remarks that are sent with a claim.
unfoldable pub claim_remarks : DeathForm → String
claim_remarks f =
    "Date of Death: " & f.date_of_death & " | Place: " & f.place_of_death & " | Reg #: "
    & f.death_certificate_number & " | Notes: " & f.remarks

-- How one of the three requests ends: with an ok reply, with another whose `detail` is given, or in the
-- `catch`.
pub data StepReply : Type 0 where
  step_ok : StepReply
  step_refused : Option Json → StepReply
  step_failed : StepReply

pub data Sent : Type 0 where
  claim_sent : Sent
  document_sent : Sent
  completion_sent : Sent

-- What a submission has sent, what it shows and where it goes.
pub record Submission : Type 0 where
  pub sent : List Sent
  pub shown : Json
  pub goes_to : Option String

abbrev pub has_item : String → Items → Bool
has_item t nil = false
has_item t (cons (str s) xs) = s == t || has_item t xs
has_item t (cons x xs) = has_item t xs

-- `detail?.includes("already exists")`; none when there is no such method, which throws.
unfoldable pub says_exists : Option Json → Option Bool
says_exists none = some false
says_exists (some null) = some false
says_exists (some (str s)) = some (includes s "already exists")
says_exists (some (arr xs)) = some (has_item "already exists" xs)
says_exists (some v) = none

abbrev pub caught : List Sent → Submission
caught sent = record {
  sent = sent;
  shown = str "Error submitting claim. Please try again.";
  goes_to = none;
}

abbrev pub stopped : List Sent → Option Json → String → Submission
stopped sent detail fallback = record {
  sent = sent;
  shown = detail or_else str fallback;
  goes_to = none;
}

-- Step C, and the page that it leads to.
unfoldable pub complete_claim : String → StepReply → Submission
complete_claim token reply =
    let sent : List Sent = claim_sent ∷ document_sent ∷ completion_sent ∷ [] in
    let path : Option String = some ("/nominee/status/" & token) in
    elim reply [
      | step_ok ↦ record {
        sent = sent;
        shown = str "Death Certificate and verification request submitted successfully!";
        goes_to = path;
      }
      | step_refused detail ↦ record {
        sent = sent;
        shown = detail or_else str "Verification submitted.";
        goes_to = path;
      }
      | step_failed ↦ caught sent
    ]

-- Step B.
unfoldable pub upload_document : String → StepReply → StepReply → Submission
unfolding complete_claim
upload_document token step_ok complete = complete_claim token complete
upload_document token (step_refused detail) complete =
    stopped (claim_sent ∷ document_sent ∷ []) detail "Failed to upload Death Certificate file."
upload_document token step_failed complete = caught (claim_sent ∷ document_sent ∷ [])

-- `handleSubmitDeathCertificateForm` behind its tests: step A and the rest.
unfoldable pub submit_claim : String → StepReply → StepReply → StepReply → Submission
unfolding upload_document says_exists
submit_claim token step_ok upload complete = upload_document token upload complete
submit_claim token (step_refused detail) upload complete = elim (says_exists detail) [
  | none ↦ caught (claim_sent ∷ [])
  | some true ↦ upload_document token upload complete
  | some false ↦ stopped (claim_sent ∷ []) detail "Failed to initiate claim request."
]
submit_claim token step_failed upload complete = caught (claim_sent ∷ [])
