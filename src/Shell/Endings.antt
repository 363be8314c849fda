-- ===== src/Shell/Endings.antt =====
-- What the pages' logins and logouts leave in the browser.
use secure_vault.Prelude.{
  ℕ, String, Bool, true, false, none, some, ◌≡◌, refl, is_empty, ap, if_true, ◌∙◌, not, arith,
  subst, eq_iff,
}
use secure_vault.Prelude.Clock.{to_iso_string}
use secure_vault.Session.Data.{User, Browser, done, text, ◌>>◌}
use secure_vault.Session.Keys.{
  current_user_id_key, pin_session_key, is_logged_in_key, user_key, logout_suffix,
}
use secure_vault.Session.Keys.Laws.{logout_key-ne_key}
use secure_vault.Session.Login.{bool_text}
use secure_vault.Session.LoginState.{entered, establish_lem, establish_logs_in}
use secure_vault.Session.LogoutState.{noted-flag, after_logout_lem}
use secure_vault.Session.Users.{get_current_user_id, set_current_user_id, is_logged_in}
use secure_vault.Session.Valid.{IsValid, user_of}
use secure_vault.Session.Valid.Login.{
  logged_out, flagged, end_pin_session, set_logged_in_lem, clear_pin_verified_session_lem,
  after_switch-IsValid,
}
use secure_vault.Session.Valid.Save.{write}
use secure_vault.Shell.{
  Answer, thrown, refused, accepted, two_factor, no_user, logged, goes, dashboard, login_page, home,
  handle_login, handle_2fa_verify, handle_google, handle_step_3, google_login_route,
  google_signup_route, open_dashboard, dashboard_logout, timeout_logout, enter, Route, landing_of,
  Landing, set_logged_in, get_item, Frame,
}
use secure_vault.Storage.Laws.{
  get_item-remove_item_ne, get_item-set_item_ne, get_item-set_item_self, get_item-remove_item_self,
}

-- The login page and the signup page send a visitor of Google's login to the same page.
pub google_login_route-google_signup_route :
    (u : User) (is_signup : Bool) → google_login_route u is_signup ≡ google_signup_route u is_signup
unfolding google_login_route google_signup_route
google_login_route-google_signup_route u true = refl
google_login_route-google_signup_route u false = refl

enter_lem :
    (u : User) (now : ℕ) (route : Route) (b : Browser)
    → IsValid b
    → is_empty u.id ≡ false
    → enter u now route b ≡ (entered u now b, goes route)
unfolding enter
enter_lem u now route b v h = ap (landing_of (goes route)) (establish_lem u now b v h)

-- In a valid browser, a user with an id that is not empty is entered by each of the four logins alike, and all but
-- Google's go to the dashboard.
pub logins_with_user :
    (u : User) (is_signup : Bool) (route : User → Bool → Route) (now : ℕ) (b : Browser)
    → IsValid b
    → is_empty u.id ≡ false
    → (handle_login (accepted (logged u is_signup)) now b ≡ (entered u now b, goes dashboard))
      × (handle_2fa_verify (accepted (logged u is_signup)) now b
          ≡ (entered u now b, goes dashboard))
      × (handle_google route (accepted (logged u is_signup)) now b
          ≡ (entered u now b, goes (route u is_signup)))
      × (handle_step_3 (accepted (logged u is_signup)) now b ≡ (entered u now b, goes dashboard))
unfolding handle_login handle_2fa_verify handle_google handle_step_3
logins_with_user u s route now b v h = (
  enter_lem u now dashboard b v h,
  enter_lem u now dashboard b v h,
  enter_lem u now (route u s) b v h,
  enter_lem u now dashboard b v h,
)

-- Whether a reply is accepted and brings a user.
abbrev pub brings_user : Answer → Bool
brings_user (accepted (logged u is_signup)) = true
brings_user a = false

-- The user that it brings has an id.
abbrev pub UserNamed : Answer → Type 0
UserNamed (accepted (logged u is_signup)) = is_empty u.id ≡ false
UserNamed a = Unit

entered-in :
    (u : User) (now : ℕ) (x : Landing) (o : Browser × Landing) (b : Browser)
    → IsValid b
    → is_empty u.id ≡ false
    → o ≡ (entered u now b, x)
    → is_logged_in (o.0) ≡ true
entered-in u now x o b v h e =
    ap (λ (r : Browser × Landing). is_logged_in (r.0)) e ∙ (establish_logs_in u now b v h).1

-- In a valid browser where nobody is logged in, each of the four logins logs in exactly if its reply is accepted and
-- brings a user: not after an exception, a question for a second factor or a refusal, even one whose body has a user.
pub logins-brings_user :
    (a : Answer) (route : User → Bool → Route) (now : ℕ) (b : Browser)
    → IsValid b
    → is_logged_in b ≡ false
    → UserNamed a
    → (is_logged_in ((handle_login a now b).0) ≡ brings_user a)
      × (is_logged_in ((handle_2fa_verify a now b).0) ≡ brings_user a)
      × (is_logged_in ((handle_google route a now b).0) ≡ brings_user a)
      × (is_logged_in ((handle_step_3 a now b).0) ≡ brings_user a)
unfolding handle_login handle_2fa_verify handle_google handle_step_3
logins-brings_user (thrown m) route now b v out h = (out, out, out, out)
logins-brings_user (refused e body) route now b v out h = (out, out, out, out)
logins-brings_user (accepted (two_factor id)) route now b v out h = (out, out, out, out)
logins-brings_user (accepted no_user) route now b v out h = (out, out, out, out)
logins-brings_user (accepted (logged u s)) route now b v out h =
    let to_dashboard =
      entered-in u now (goes dashboard) (enter u now dashboard b) b v h
        (enter_lem u now dashboard b v h) in
    (
      to_dashboard,
      to_dashboard,
      entered-in u now (goes (route u s)) (enter u now (route u s) b) b v h
          (enter_lem u now (route u s) b v h),
      to_dashboard,
    )

-- The frame of the dashboard when nobody is logged in.
abbrev pub turned_away : Frame
turned_away = record { route = some login_page; user = none; pin_verified = false }

turned_away_lem :
    (now : ℕ) (b : Browser) → is_logged_in b ≡ false → open_dashboard now b ≡ done turned_away b
unfolding open_dashboard
turned_away_lem now b h = if_true (not (is_logged_in b)) _ _ (ground (arith, h))

flag_text :
    (b : Browser) → get_item is_logged_in_key b.local ≡ some (text "false") → is_logged_in b ≡ false
unfolding is_logged_in
flag_text b h = ground (arith, h)

module _ (now later : ℕ) (id : String) (b : Browser) (v : IsValid b)
    (c : get_current_user_id b ≡ some id) (h : is_empty id ≡ false) where
  abbrev pub left : Browser
  left = logged_out now id (flagged false b)

  set_logged_in-false : set_logged_in false now b ≡ done tt left
  set_logged_in-false =
      set_logged_in_lem false now b v ∙ ap (done tt) (after_logout_lem now id b c h)

  left-window : left.window ≡ true
  left-window =
      (subst IsValid (after_logout_lem now id b c h) (after_switch-IsValid false now b v)).window

  left-flag : get_item is_logged_in_key left.local ≡ some (text "false")
  unfolding bool_text
  left-flag =
      get_item-remove_item_ne current_user_id_key is_logged_in_key _
        (ground (arith, eq_iff current_user_id_key is_logged_in_key))
      ∙ get_item-set_item_ne (user_key id logout_suffix) is_logged_in_key (text (to_iso_string now))
          _ (logout_key-ne_key id is_logged_in_key (omega arith))
      ∙ noted-flag now (user_of (get_current_user_id (flagged false b)) (flagged false b))
          (flagged false b)
      ∙ get_item-set_item_self is_logged_in_key (text "false") b.local

  -- In a valid browser with a current user whose id is not empty, the dashboard's logout leads home, leaves no time of
  -- a PIN session, and the dashboard then turns the visitor away to the login page.
  pub dashboard_logout_effect :
      (dashboard_logout now b ≡ done home (end_pin_session left))
      × (get_item pin_session_key (end_pin_session left).session ≡ none)
      × (open_dashboard later (end_pin_session left) ≡ done turned_away (end_pin_session left))
  unfolding dashboard_logout
  dashboard_logout_effect = (
    rw (set_logged_in-false, ◌>>◌)
        (rw (clear_pin_verified_session_lem left left-window, ◌>>◌) refl),
    get_item-remove_item_self pin_session_key left.session,
    turned_away_lem later (end_pin_session left) (flag_text (end_pin_session left) left-flag),
  )

  -- In a valid browser with a current user whose id is not empty, the session timeout leads to the login page,
  -- makes the empty text the current id, and the dashboard then turns the visitor away to the login page.
  pub timeout_logout_effect :
      (timeout_logout now b ≡ done login_page (write current_user_id_key (text "") left))
      × (open_dashboard later (write current_user_id_key (text "") left)
          ≡ done turned_away (write current_user_id_key (text "") left))
  unfolding timeout_logout set_current_user_id
  timeout_logout_effect = (
    rw (set_logged_in-false, ◌>>◌) refl,
    turned_away_lem later (write current_user_id_key (text "") left) (
        flag_text (write current_user_id_key (text "") left) (
          get_item-set_item_ne current_user_id_key is_logged_in_key (text "") left.local
            (ground (arith, eq_iff current_user_id_key is_logged_in_key))
          ∙ left-flag)),
  )
