-- ===== src/Requests/Payment.antt =====
-- lib/payment-api.ts and lib/payment-admin-api.ts.
use secure_vault.Fetch.Errors.{extract_error_message, any_message, raw_data}
use secure_vault.Json.{Json, null, str, obj, end, field}
use secure_vault.Prelude.{
  ℕ, String, Option, none, some, [], ◌&◌, if◌then◌else◌, ◌++◌, not, is_empty, ◌∷◌, ◌&&◌, ◌==◌,
  string_eq,
}
use secure_vault.Requests.{
  Request, Response, Result, user_api, read_json, message_or_json, admin_post, admin_get_page,
  admin_get, Query, type_error, post, no_body, json_body, get_method, to_string, form, error, value,
  object_url, error_value,
}

abbrev pub user_get : String → Request
user_get path = record {
  channel = user_api;
  method = get_method;
  path = path;
  query = none;
  body = no_body;
}

unfoldable pub fetch_plans : (Request → Response) → Result
unfolding message_or_json
fetch_plans send =
    message_or_json "Failed to load subscription plans" (send (user_get "/payments/plans"))

-- `throw new Error(…)` on the body of a refused payment; a text as it is, anything else printed.
unfoldable pub payment_refusal : (Json → String) → Json → Result
unfolding any_message
payment_refusal stringify null = type_error
payment_refusal stringify body = elim (any_message body "Failed to submit payment request") [
  | str m ↦ error m
  | j ↦ error (stringify j)
]

-- `stringify` is `JSON.stringify`, and `screenshot` names the chosen file.
unfoldable pub submit_payment_request :
    (Json → String) → (Request → Response) → String → String → String → Result
unfolding payment_refusal
submit_payment_request stringify send plan_id utr_id screenshot =
    let r : Response = send (record {
      channel = user_api;
      method = post;
      path = "/payments/request";
      query = none;
      body = form (("planId", plan_id) ∷ ("utrId", utr_id) ∷ []) screenshot;
    }) in
    if not r.ok then payment_refusal stringify (raw_data r.json) else value (raw_data r.json)

unfoldable pub fetch_my_payment_requests : (Request → Response) → Result
unfolding message_or_json
fetch_my_payment_requests send =
    message_or_json "Failed to fetch payment history" (send (user_get "/payments/my-requests"))

unfoldable pub fetch_my_subscription : (Request → Response) → Result
unfolding message_or_json
fetch_my_subscription send =
    message_or_json "Failed to fetch subscription details"
      (send (user_get "/payments/my-subscription"))

unfoldable pub fetch_admin_payment_stats : (Request → Response) → Result
unfolding message_or_json
fetch_admin_payment_stats send =
    message_or_json "Failed to fetch payment stats" (send (admin_get "/support/payments/stats"))

-- `throw new Error(extractAdminErrorMessage(body, message))`
unfoldable pub admin_error : String → Json → Result
unfolding extract_error_message
admin_error m body = elim (extract_error_message body m) [
  | none ↦ type_error
  | some (str e) ↦ error e
  | some j ↦ error_value j
]

-- A refusal is read as JSON, or as {}.
unfoldable pub refusal_or_json : String → Response → Result
unfolding admin_error read_json
refusal_or_json m r = if not r.ok then admin_error m (raw_data r.json) else read_json r

-- The body is read, or {}, before the status.
unfoldable pub refusal_or_data : String → Response → Result
unfolding admin_error
refusal_or_data m r = if not r.ok then admin_error m (raw_data r.json) else value (raw_data r.json)

-- `if (status && status !== "ALL") query.set("status", status)`
unfoldable pub status_query : Option String → Query
status_query none = []
status_query (some v) = if not (is_empty v) && not (v == "ALL") then ("status", v) ∷ [] else []

-- Without arguments, `skip` is 0 and `limit` 50.
abbrev pub or_default : ℕ → Option ℕ → ℕ
or_default d none = d
or_default d (some n) = n

unfoldable pub payment_query : Option String → Option ℕ → Option ℕ → Query
unfolding status_query
payment_query status skip limit =
    status_query status
    ++ ("skip", to_string (or_default 0 skip)) ∷ ("limit", to_string (or_default 50 limit)) ∷ []

unfoldable pub fetch_admin_payment_requests :
    (Request → Response) → Option String → Option ℕ → Option ℕ → Result
unfolding refusal_or_json payment_query
fetch_admin_payment_requests send status skip limit =
    refusal_or_json "Failed to load payment requests"
      (send (admin_get_page "/support/payments" (payment_query status skip limit)))

unfoldable pub fetch_admin_payment_detail : (Request → Response) → String → Result
unfolding refusal_or_json
fetch_admin_payment_detail send request_id =
    refusal_or_json "Failed to load payment request detail"
      (send (admin_get ("/support/payments/" & request_id)))

unfoldable pub get_payment_screenshot_url : String → String → String
get_payment_screenshot_url admin_base_url request_id =
    admin_base_url & "/support/payments/" & request_id & "/screenshot"

unfoldable pub fetch_payment_screenshot_blob : (Request → Response) → String → Result
fetch_payment_screenshot_blob send request_id =
    let r : Response = send (admin_get ("/support/payments/" & request_id & "/screenshot")) in
    if not r.ok then error "Failed to load payment screenshot" else object_url r

unfoldable pub approve_payment_request : (Request → Response) → String → Result
unfolding refusal_or_data
approve_payment_request send request_id =
    refusal_or_data "Failed to approve payment request"
      (send (admin_post ("/support/payments/" & request_id & "/approve") no_body))

unfoldable pub reject_payment_request : (Request → Response) → String → String → Result
unfolding refusal_or_data
reject_payment_request send request_id remark = refusal_or_data "Failed to reject payment request" (
    send (
      admin_post ("/support/payments/" & request_id & "/reject")
        (json_body (obj (field "remark" (str remark) end)))))
