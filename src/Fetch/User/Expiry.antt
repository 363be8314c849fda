-- ===== src/Fetch/User/Expiry.antt =====
-- What a refused refresh of lib/api.ts leaves in the browser.
use secure_vault.Fetch.{
  Call, Client, expire_each, waiting_calls, settle, denied, Option, step, Bool, on_settle,
  waits_for, suc, after_answer,
}
use secure_vault.Fetch.User.{expire_user, user_step, after, is_auth_endpoint}
use secure_vault.Prelude.{
  ℕ, ◌≤◌, String, List, [], ◌∷◌, ◌≡◌, none, some, true, false, subst, ◌⊎◌, sym, if_both, ap,
  is_empty, inl, inr, arith, eq_iff, ◌∙◌, if◌then◌else◌, Bool-cases, if_true, if_false,
}
use secure_vault.Prelude.Clock.{to_iso_string}
use secure_vault.Session.Data.{Browser, text}
use secure_vault.Session.Keys.{is_logged_in_key, current_user_id_key, user_key, logout_suffix}
use secure_vault.Session.Keys.Laws.{logout_key-ne_key}
use secure_vault.Session.Login.{bool_text}
use secure_vault.Session.LogoutState.{noted-flag}
use secure_vault.Session.Users.{get_current_user_id, is_logged_in}
use secure_vault.Session.Valid.{IsValid, user_of}
use secure_vault.Session.Valid.Login.{
  switched, after_switch, flagged, after_switch-IsValid, set_logged_in_lem,
}
use secure_vault.Storage.{get_item}
use secure_vault.Storage.Laws.{
  get_item-set_item_self, get_item-remove_item_ne, get_item-set_item_ne,
}

abbrev pub IsOut : Browser → Type 0
IsOut b = get_item is_logged_in_key b.local ≡ some (text "false")

switched-IsOut :
    (now : ℕ) (i : Option String) (b : Browser) → IsOut b → IsOut (switched false now i b)
unfolding switched
switched-IsOut now none b h = h
switched-IsOut now (some id) b h = if_both IsOut (is_empty id) h (
    get_item-remove_item_ne current_user_id_key is_logged_in_key _
      (ground (arith, eq_iff current_user_id_key is_logged_in_key))
    ∙ get_item-set_item_ne (user_key id logout_suffix) is_logged_in_key (text (to_iso_string now)) _
        (logout_key-ne_key id is_logged_in_key (omega arith))
    ∙ noted-flag now (user_of (get_current_user_id b) b) b
    ∙ h)

after_switch-IsOut : (now : ℕ) (b : Browser) → IsOut (after_switch false now b)
unfolding bool_text
after_switch-IsOut now b =
    switched-IsOut now (get_current_user_id (flagged false b)) (flagged false b)
      (get_item-set_item_self is_logged_in_key (text "false") b.local)

expire_user_lem : (now : ℕ) (b : Browser) → IsValid b → expire_user now b ≡ after_switch false now b
unfolding expire_user
expire_user_lem now b v = ap after (set_logged_in_lem false now b v)

expire_user-IsValid : (now : ℕ) (b : Browser) → IsValid b → IsValid (expire_user now b)
expire_user-IsValid now b v =
    subst IsValid (sym (expire_user_lem now b v)) (after_switch-IsValid false now b v)

expire_user-IsOut : (now : ℕ) (b : Browser) → IsValid b → IsOut (expire_user now b)
expire_user-IsOut now b v = subst IsOut (sym (expire_user_lem now b v)) (after_switch-IsOut now b)

still :
    (b : Browser) (waits : Bool) (n : ℕ)
    → waits ≡ false
    → IsOut b ⊎ (1 ≤ (if waits then suc n else n))
    → IsOut b ⊎ (1 ≤ n)
still b false n e h = h
still b true n e h = cc

-- Whoever is out stays out, and one call that waited is enough.
expire_each-IsOut :
    (now : ℕ) (p : Option ℕ) (cs : List Call) (b : Browser)
    → IsValid b
    → IsOut b ⊎ (1 ≤ waiting_calls p cs)
    → IsOut (expire_each is_auth_endpoint (expire_user now) p cs b)
unfolding expire_each waiting_calls
expire_each-IsOut now p [] b v (inl o) = o
expire_each-IsOut now p [] b v (inr h) = absurd (omega (arith, h))
expire_each-IsOut now p (c ∷ cs) b v h = elim (Bool-cases (waits_for p c.phase)) [
  | inl e ↦
      subst (λ x. IsOut (expire_each is_auth_endpoint (expire_user now) p cs x))
        (sym (if_true (waits_for p c.phase) _ _ e))
        (expire_each-IsOut now p cs (expire_user now b) (expire_user-IsValid now b v)
          (inl (expire_user-IsOut now b v)))
  | inr e ↦
      subst (λ x. IsOut (expire_each is_auth_endpoint (expire_user now) p cs x))
        (sym (if_false (waits_for p c.phase) _ _ e))
        (expire_each-IsOut now p cs b v (still b (waits_for p c.phase) (waiting_calls p cs) e h))
]

IsOut-is_logged_in : (b : Browser) → IsOut b → is_logged_in b ≡ false
unfolding is_logged_in
IsOut-is_logged_in b h = ground (arith, h)

-- In a valid browser, a refused refresh that some call waits for ends the user's login, however many calls
-- wait.
pub settle-denied_logs_out :
    (now : ℕ) (s : Client Browser)
    → IsValid s.store
    → s.refreshing ≡ true
    → 1 ≤ waiting_calls s.promise s.calls
    → is_logged_in (user_step now (settle denied) s).store ≡ false
unfolding user_step step on_settle after_answer
settle-denied_logs_out now s v r w =
    ap (λ (t : Client Browser). is_logged_in t.store)
      (if_true s.refreshing (on_settle is_auth_endpoint (expire_user now) denied s) s r)
    ∙ IsOut-is_logged_in _ (expire_each-IsOut now s.promise s.calls s.store v (inr w))
