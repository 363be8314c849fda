-- ===== src/Session/LogoutState.antt =====
-- What a logout leaves: nobody current, no PIN session, and a note of who left and when.
use secure_vault.Prelude.{
  String, false, Option, none, some, ◌≡◌, ◌≢◌, refl, arith, sym, ℕ, is_empty, ◌∙◌, ap, eq_iff,
}
use secure_vault.Prelude.Clock.{to_iso_string}
use secure_vault.Session.Data.{done, text, Browser, User, Item, inactivity_doc}
use secure_vault.Session.Keys.{
  current_user_id_key, user_key, pin_session_key, logout_suffix, user_suffix, is_logged_in_key,
  inactivity_key,
}
use secure_vault.Session.Keys.Laws.{user_key-ne_key, logout_key-ne_key, logout_key-ne_user_key}
use secure_vault.Session.Login.{set_logged_in}
use secure_vault.Session.LoginState.{current-flagged, user_at-flagged}
use secure_vault.Session.Users.{get_current_user_id, is_logged_in}
use secure_vault.Session.Valid.{IsValid, user_at, user_of}
use secure_vault.Session.Valid.Login.{
  switched, logged_out, after_switch, flagged, noted, set_logged_in_lem, erase, note_of,
}
use secure_vault.Session.Valid.Save.{write}
use secure_vault.Storage.{get_item}
use secure_vault.Storage.Laws.{
  get_item-remove_item_self, get_item-set_item_ne, get_item-remove_item_ne, get_item-set_item_self,
}

switched-false :
    (now : ℕ) (id : String) (b : Browser)
    → is_empty id ≡ false
    → switched false now (some id) b ≡ logged_out now id b
unfolding switched
switched-false now id b h = rw h

pub after_logout_lem :
    (now : ℕ) (id : String) (b : Browser)
    → get_current_user_id b ≡ some id
    → is_empty id ≡ false
    → after_switch false now b ≡ logged_out now id (flagged false b)
after_logout_lem now id b c h =
    ap (λ i. switched false now i (flagged false b)) (current-flagged false b ∙ c)
    ∙ switched-false now id (flagged false b) h

user_at-write :
    (k : String) (item : Item) (a : String) (b : Browser)
    → k ≢ user_key a user_suffix
    → user_at a (write k item b) ≡ user_at a b
user_at-write k item a b h = rw (get_item-set_item_ne k (user_key a user_suffix) item b.local h)

user_at-erase :
    (k a : String) (b : Browser) → k ≢ user_key a user_suffix → user_at a (erase k b) ≡ user_at a b
user_at-erase k a b h = rw (get_item-remove_item_ne k (user_key a user_suffix) b.local h)

user_at-noted :
    (now : ℕ) (u : Option User) (a : String) (b : Browser) → user_at a (noted now u b) ≡ user_at a b
user_at-noted now none a b = refl
user_at-noted now (some u) a b =
    user_at-write inactivity_key (inactivity_doc (note_of now u)) a b
      (λ e. user_key-ne_key a inactivity_key (omega arith) (sym e))

pub noted-flag :
    (now : ℕ) (u : Option User) (b : Browser)
    → get_item is_logged_in_key (noted now u b).local ≡ get_item is_logged_in_key b.local
noted-flag now none b = refl
noted-flag now (some u) b =
    get_item-set_item_ne inactivity_key is_logged_in_key (inactivity_doc (note_of now u)) b.local
      (ground (arith, eq_iff inactivity_key is_logged_in_key))

module _ (now : ℕ) (id : String) (b : Browser) (v : IsValid b) (c : get_current_user_id b ≡ some id)
    (h : is_empty id ≡ false) where
  gone-current : get_current_user_id (logged_out now id (flagged false b)) ≡ none
  unfolding get_current_user_id
  gone-current = ground (
    arith,
    get_item-remove_item_self current_user_id_key
        (write (user_key id logout_suffix) (text (to_iso_string now)) (
          noted now (user_of (get_current_user_id (flagged false b)) (flagged false b))
            (flagged false b))).local,
  )

  -- In a valid browser with a current user whose id is not empty, `setLoggedIn(false)` throws
  -- nothing; after it `isLoggedIn` is false, nobody is current, the PIN session's time is gone, the
  -- time of the logout stands under that user's id, and the stored record of every user is as it was.
  pub logout_effect :
      let b' = logged_out now id (flagged false b) in
      (set_logged_in false now b ≡ done tt b')
      × (is_logged_in b' ≡ false)
      × (get_current_user_id b' ≡ none)
      × (get_item pin_session_key b'.session ≡ none)
      × (get_item (user_key id logout_suffix) b'.local ≡ some (text (to_iso_string now)))
      × ((a : String) → user_at a b' ≡ user_at a b)
  unfolding is_logged_in
  logout_effect = (
    set_logged_in_lem false now b v ∙ ap (done tt) (after_logout_lem now id b c h),
    ground (arith, gone-current),
    gone-current,
    get_item-remove_item_self pin_session_key before.session,
    get_item-remove_item_ne current_user_id_key (user_key id logout_suffix) timed.local
          (λ e. logout_key-ne_key id current_user_id_key (omega arith) (sym e))
        ∙ get_item-set_item_self (user_key id logout_suffix) (text (to_iso_string now))
            before.local,
    λ a.
        user_at-erase current_user_id_key a timed
          (λ e. user_key-ne_key a current_user_id_key (omega arith) (sym e))
        ∙ user_at-write (user_key id logout_suffix) (text (to_iso_string now)) a before
            (logout_key-ne_user_key id a)
        ∙ user_at-noted now leaver a (flagged false b)
        ∙ user_at-flagged false a b,
  )
    where
      leaver : Option User
      leaver = user_of (get_current_user_id (flagged false b)) (flagged false b)

      before : Browser
      before = noted now leaver (flagged false b)

      timed : Browser
      timed = write (user_key id logout_suffix) (text (to_iso_string now)) before
