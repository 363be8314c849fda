-- ===== src/Requests/Support.antt =====
-- lib/support-api.ts
use secure_vault.Json.{str, obj, end, field}
use secure_vault.Prelude.{String, [], ◌&◌}
use secure_vault.Requests.{
  Request, Response, Result, Page, text_or_json, page_query, admin_post, admin_get, admin_get_page,
  no_body, json_body,
}

unfoldable pub fetch_support_stats : (Request → Response) → Result
unfolding text_or_json
fetch_support_stats send = text_or_json (send (admin_get "/support/stats"))

unfoldable pub search_support_users : (Request → Response) → Page → Result
unfolding text_or_json page_query
search_support_users send params =
    text_or_json (send (admin_get_page "/support/users" (page_query params [])))

unfoldable pub fetch_support_user_profile : (Request → Response) → String → Result
unfolding text_or_json
fetch_support_user_profile send user_id =
    text_or_json (send (admin_get ("/support/users/" & user_id)))

unfoldable pub support_lock_user : (Request → Response) → String → String → Result
unfolding text_or_json
support_lock_user send user_id reason = text_or_json (
    send (
      admin_post ("/support/users/" & user_id & "/lock")
        (json_body (obj (field "reason" (str reason) end)))))

unfoldable pub support_unlock_user : (Request → Response) → String → Result
unfolding text_or_json
support_unlock_user send user_id =
    text_or_json (send (admin_post ("/support/users/" & user_id & "/unlock") no_body))

unfoldable pub support_reset_password : (Request → Response) → String → String → Result
unfolding text_or_json
support_reset_password send user_id new_password = text_or_json (
    send (
      admin_post ("/support/users/" & user_id & "/reset-password")
        (json_body (obj (field "newPassword" (str new_password) end)))))

unfoldable pub support_reset_pin : (Request → Response) → String → String → Result
unfolding text_or_json
support_reset_pin send user_id new_pin = text_or_json (
    send (
      admin_post ("/support/users/" & user_id & "/reset-pin")
        (json_body (obj (field "newPin" (str new_pin) end)))))

unfoldable pub support_disable_2fa : (Request → Response) → String → Result
unfolding text_or_json
support_disable_2fa send user_id =
    text_or_json (send (admin_post ("/support/users/" & user_id & "/disable-2fa") no_body))

unfoldable pub support_resend_verification : (Request → Response) → String → Result
unfolding text_or_json
support_resend_verification send user_id =
    text_or_json (send (admin_post ("/support/users/" & user_id & "/resend-verification") no_body))
