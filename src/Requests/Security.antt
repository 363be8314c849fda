-- ===== src/Requests/Security.antt =====
-- lib/security-api.ts
use secure_vault.Json.{str, obj, end, field}
use secure_vault.Prelude.{ℕ, String, Option, none, [], ◌&◌}
use secure_vault.Requests.{
  Request, Response, Result, Page, text_or_json, page_query, admin_post, admin_get, admin_get_page,
  no_body, json_body,
}

unfoldable pub fetch_security_stats : (Request → Response) → Result
unfolding text_or_json
fetch_security_stats send = text_or_json (send (admin_get "/security/stats"))

unfoldable pub fetch_login_history : (Request → Response) → Page → Result
unfolding text_or_json page_query
fetch_login_history send params =
    text_or_json (send (admin_get_page "/security/login-history" (page_query params [])))

unfoldable pub fetch_failed_logins : (Request → Response) → Page → Result
unfolding text_or_json page_query
fetch_failed_logins send params =
    text_or_json (send (admin_get_page "/security/failed-logins" (page_query params [])))

unfoldable pub fetch_otp_logs : (Request → Response) → Page → Result
unfolding text_or_json page_query
fetch_otp_logs send params =
    text_or_json (send (admin_get_page "/security/otp-logs" (page_query params [])))

unfoldable pub fetch_user_activity : (Request → Response) → Page → Result
unfolding text_or_json page_query
fetch_user_activity send params =
    text_or_json (send (admin_get_page "/security/user-activity" (page_query params [])))

unfoldable pub fetch_admin_activity : (Request → Response) → Page → Result
unfolding text_or_json page_query
fetch_admin_activity send params =
    text_or_json (send (admin_get_page "/security/admin-activity" (page_query params [])))

unfoldable pub fetch_asset_access_logs : (Request → Response) → Page → Result
unfolding text_or_json page_query
fetch_asset_access_logs send params =
    text_or_json (send (admin_get_page "/security/asset-access-logs" (page_query params [])))

unfoldable pub fetch_active_sessions : (Request → Response) → Page → Result
unfolding text_or_json page_query
fetch_active_sessions send params =
    text_or_json (send (admin_get_page "/security/sessions" (page_query params [])))

unfoldable pub terminate_session : (Request → Response) → String → Result
unfolding text_or_json
terminate_session send token_id =
    text_or_json (send (admin_post ("/security/sessions/" & token_id & "/terminate") no_body))

unfoldable pub lock_user : (Request → Response) → String → String → Result
unfolding text_or_json
lock_user send user_id reason = text_or_json (
    send (
      admin_post ("/security/users/" & user_id & "/lock")
        (json_body (obj (field "reason" (str reason) end)))))

unfoldable pub unlock_user : (Request → Response) → String → Result
unfolding text_or_json
unlock_user send user_id =
    text_or_json (send (admin_post ("/security/users/" & user_id & "/unlock") no_body))

unfoldable pub fetch_security_alerts : (Request → Response) → Option ℕ → Option ℕ → Result
unfolding text_or_json page_query
fetch_security_alerts send skip limit = text_or_json (
    send (
      admin_get_page "/security/alerts"
        (page_query (record { search = none; skip = skip; limit = limit }) [])))

unfoldable pub fetch_recent_activity : (Request → Response) → Result
unfolding text_or_json
fetch_recent_activity send = text_or_json (send (admin_get "/security/recent-activity"))
