-- ===== src/Requests/Verification.antt =====
-- lib/verification-api.ts; `admin_base_url` is `ADMIN_BASE_URL`, which the build's environment sets.
use secure_vault.Json.{str, obj, end, field}
use secure_vault.Prelude.{
  String, Option, none, some, [], ◌&◌, if◌then◌else◌, Bool, true, is_empty, ◌||◌, ◌==◌, string_eq,
}
use secure_vault.Requests.{
  Request, Response, Result, Page, text_or_json, page_query, admin_post, admin_get, no_body,
  json_body, append_text, admin_get_page,
}

unfoldable pub fetch_verification_stats : (Request → Response) → Result
unfolding text_or_json
fetch_verification_stats send = text_or_json (send (admin_get "/verification/stats"))

unfoldable pub fetch_verification_requests : (Request → Response) → Option String → Page → Result
unfolding text_or_json page_query append_text
fetch_verification_requests send status params = text_or_json (
    send (
      admin_get_page "/verification/requests" (page_query params (append_text "status" status []))))

unfoldable pub fetch_verification_detail : (Request → Response) → String → Result
unfolding text_or_json
fetch_verification_detail send id = text_or_json (send (admin_get ("/verification/requests/" & id)))

unfoldable pub assign_verification : (Request → Response) → String → Result
unfolding text_or_json
assign_verification send id =
    text_or_json (send (admin_post ("/verification/requests/" & id & "/assign") no_body))

pub data ReviewAction : Type 0 where
  approve reject request_more_docs : ReviewAction

abbrev pub action_text : ReviewAction → String
action_text approve = "APPROVE"
action_text reject = "REJECT"
action_text request_more_docs = "REQUEST_MORE_DOCS"

unfoldable pub review_verification : (Request → Response) → String → ReviewAction → String → Result
unfolding text_or_json
review_verification send id action remarks = text_or_json (
    send (
      admin_post ("/verification/requests/" & id & "/review") (
        json_body
          (obj (field "action" (str (action_text action)) (field "remarks" (str remarks) end))))))

unfoldable pub trigger_ai_analysis : (Request → Response) → String → Result
unfolding text_or_json
trigger_ai_analysis send id =
    text_or_json (send (admin_post ("/verification/requests/" & id & "/analyze") no_body))

unfoldable pub fetch_ai_result : (Request → Response) → String → Result
unfolding text_or_json
fetch_ai_result send id =
    text_or_json (send (admin_get ("/verification/requests/" & id & "/ai-result")))

pub data FileType : Type 0 where
  certificate government_id relationship_proof : FileType

abbrev pub file_type_text : FileType → String
file_type_text certificate = "certificate"
file_type_text government_id = "governmentId"
file_type_text relationship_proof = "relationshipProof"

unfoldable pub get_verification_file_url : String → String → FileType → String
get_verification_file_url admin_base_url id file_type =
    admin_base_url & "/verification/requests/" & id & "/file/" & file_type_text file_type

-- `!documentId || documentId === "undefined"`
abbrev pub lacks_document : Option String → Bool
lacks_document none = true
lacks_document (some d) = is_empty d || d == "undefined"

abbrev pub document_text : Option String → String
document_text none = "undefined"
document_text (some d) = d

unfoldable pub get_verification_document_url : String → String → Option String → String
get_verification_document_url admin_base_url request_id document_id =
    if lacks_document document_id
    then admin_base_url & "/verification/requests/" & request_id & "/file/certificate"
    else admin_base_url
      & "/verification/requests/"
      & request_id
      & "/document/"
      & document_text document_id
