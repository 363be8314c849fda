-- ===== src/NomineeClaim/Gate.antt =====
-- Who gets to the form for the death certificate of app/nominee/verify/[token]/page.tsx.
use secure_vault.NomineeClaim.{
  FlowStep, owner_details, authenticate, certificate, confirmation, NomineePage, NomineeDetails,
  RequestStatus, DeathForm, Loaded, bad_link, found, load_failed, load_details, show_details,
  show_status, earlier_request, is_under_way, CodeReply, code_ok, code_refused, code_failed,
  send_otp_reply, verify_otp_reply, handle_file_select, new_page,
}
use secure_vault.Prelude.{
  neither, String, Bool, true, false, Option, none, some, List, [], ◌∷◌, ◌≡◌, refl, if_both,
  Bool-cases, inl, inr, any, not, ◌-◌, sym, ap, ◌∙◌,
}
use secure_vault.Uploads.{UploadFile}

-- What happens to the page: its requests' replies, the buttons of the first two steps and the fields.
pub data PageEvent : Type 0 where
  loaded : Loaded → PageEvent
  proceed : PageEvent
  back : PageEvent
  type_otp : String → PageEvent
  otp_answer : NomineeDetails → CodeReply → PageEvent
  verify_answer : CodeReply → PageEvent
  choose_document : Option UploadFile → PageEvent
  edit_form : DeathForm → PageEvent
  tick : PageEvent

-- "Proceed" stands in the first step, "Back" in the second.
abbrev pub proceed_from : FlowStep → FlowStep
proceed_from owner_details = authenticate
proceed_from s = s

abbrev pub back_from : FlowStep → FlowStep
back_from authenticate = owner_details
back_from s = s

unfoldable pub page_step : String → PageEvent → NomineePage → NomineePage
unfolding load_details send_otp_reply verify_otp_reply handle_file_select
page_step token (loaded l) p = load_details token l p
page_step token proceed p = record p { flow_step = proceed_from p.flow_step }
page_step token back p = record p { flow_step = back_from p.flow_step }
page_step token (type_otp text) p = record p { otp = text }
page_step token (otp_answer d reply) p = send_otp_reply d reply p
page_step token (verify_answer reply) p = verify_otp_reply reply p
page_step token (choose_document file) p = handle_file_select file p
page_step token (edit_form f) p = record p { claim_form = f }
page_step token tick p = record p { timer = p.timer - 1 }

unfoldable pub page_run : String → List PageEvent → NomineePage → NomineePage
unfolding page_step
page_run token [] p = p
page_run token (e ∷ es) p = page_run token es (page_step token e p)

-- A request that has ended, so that the form is offered again.
abbrev pub has_ended : Option String → Bool
has_ended none = false
has_ended (some s) = not (is_under_way s)

-- The events that open the form: a code that the server accepts, or a status of a request that has ended.
abbrev pub opens : PageEvent → Bool
opens (verify_answer code_ok) = true
opens (loaded (found d (some r))) = has_ended (earlier_request r)
opens e = false

abbrev pub is_early : FlowStep → Bool
is_early owner_details = true
is_early authenticate = true
is_early s = false

abbrev IsEarly : NomineePage → Type 0
IsEarly p = is_early p.flow_step ≡ true

proceed_early : (s : FlowStep) → is_early s ≡ true → is_early (proceed_from s) ≡ true
proceed_early owner_details h = refl
proceed_early authenticate h = refl
proceed_early certificate h = h
proceed_early confirmation h = h

back_early : (s : FlowStep) → is_early s ≡ true → is_early (back_from s) ≡ true
back_early owner_details h = refl
back_early authenticate h = refl
back_early certificate h = h
back_early confirmation h = h

show_status-IsEarly :
    (token : String) (r : RequestStatus) (o : Option String) (p : NomineePage)
    → earlier_request r ≡ o
    → has_ended o ≡ false
    → IsEarly p
    → IsEarly (show_status token r p)
unfolding show_status
show_status-IsEarly token r none p e n h = rw (show_status, e) h
show_status-IsEarly token r (some s) p e n h = elim (Bool-cases (is_under_way s)) [
  | inl u ↦ rw (show_status, e, u) h
  | inr u ↦ cc
]

load-IsEarly :
    (token : String) (l : Loaded) (p : NomineePage)
    → opens (loaded l) ≡ false
    → IsEarly p
    → IsEarly (load_details token l p)
unfolding load_details show_details
load-IsEarly token (bad_link detail) p n h = h
load-IsEarly token (found d none) p n h = h
load-IsEarly token (found d (some r)) p n h =
    show_status-IsEarly token r (earlier_request r) (show_details d p) refl n h
load-IsEarly token (load_failed none) p n h = h
load-IsEarly token (load_failed (some d)) p n h = h

step-IsEarly :
    (token : String) (e : PageEvent) (p : NomineePage)
    → opens e ≡ false
    → IsEarly p
    → IsEarly (page_step token e p)
unfolding page_step send_otp_reply verify_otp_reply handle_file_select
step-IsEarly token (loaded l) p n h = load-IsEarly token l p n h
step-IsEarly token proceed p n h = proceed_early p.flow_step h
step-IsEarly token back p n h = back_early p.flow_step h
step-IsEarly token (type_otp text) p n h = h
step-IsEarly token (otp_answer d code_ok) p n h = h
step-IsEarly token (otp_answer d (code_refused x)) p n h = h
step-IsEarly token (otp_answer d code_failed) p n h = h
step-IsEarly token (verify_answer code_ok) p n h = cc
step-IsEarly token (verify_answer (code_refused x)) p n h = h
step-IsEarly token (verify_answer code_failed) p n h = h
step-IsEarly token (choose_document none) p n h = h
step-IsEarly token (choose_document (some f)) p n h = if_both IsEarly _ h h
step-IsEarly token (edit_form f) p n h = h
step-IsEarly token tick p n h = h

run-IsEarly :
    (token : String) (es : List PageEvent) (p : NomineePage)
    → any opens es ≡ false
    → IsEarly p
    → IsEarly (page_run token es p)
unfolding page_run
run-IsEarly token [] p n h = h
run-IsEarly token (e ∷ es) p n h =
    let (m, ns) = neither (opens e) (any opens es) n in
    run-IsEarly token es (page_step token e p) ns (step-IsEarly token e p m h)

-- In a page that a nominee has opened, the form for the death certificate comes only after the server has
-- accepted a code, or has said that an earlier request exists and is not under way.
pub certificate-opens :
    (token : String) (es : List PageEvent)
    → (page_run token es new_page).flow_step ≡ certificate
    → any opens es ≡ true
certificate-opens token es c = elim (Bool-cases (any opens es)) [
  | inl h ↦ h
  | inr h ↦ let e : false ≡ true = sym (ap is_early c) ∙ run-IsEarly token es new_page h refl in cc
]
