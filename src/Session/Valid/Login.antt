-- ===== src/Session/Valid/Login.antt =====
-- `setLoggedIn` and the PIN session in a valid browser.
use secure_vault.Prelude.{
  ℕ, Bool, ◌≡◌, arith, Option, true, ◌∙◌, some, if◌then◌else◌, Bool-cases, is_empty, ◌≢◌, sym, inl,
  eq_iff, inr, none, false, refl,
}
use secure_vault.Prelude.Clock.{to_iso_string}
use secure_vault.Session.Data.{InactivityData, done, User, text, ◌>>=◌, ◌>>◌, inactivity_doc}
use secure_vault.Session.Keys.{
  pin_session_key, logout_suffix, user_suffix, user_registry_key, inactivity_key,
}
use secure_vault.Session.Keys.Laws.{user_key-ne_key, logout_key-ne_user_key, logout_key-ne_key}
use secure_vault.Session.Login.{
  touch, log_out, log_in, leave_note, clear_pin_verified_session, bool_text, set_logged_in,
  for_current,
}
use secure_vault.Session.Valid.{
  IsValid, String, Browser, user_key, remove_item, get_current_user_id, current_user_id_key,
  is_logged_in_key, user_of, get_user_lem,
}
use secure_vault.Session.Valid.Save.{
  write, write-IsValid, Fits, saved-IsValid, saved, save_user_lem, Fits-text,
}
use secure_vault.Storage.Laws.{get_item-remove_item}

-- What `removeItem` leaves of a valid browser is valid.
abbrev pub erase : String → Browser → Browser
erase k b = record b { local = remove_item k b.local }

pub erase-IsValid : (k : String) (b : Browser) → IsValid b → IsValid (erase k b)
erase-IsValid k b v = record {
  window = v.window;
  users =
      λ id. ground (arith, get_item-remove_item k (user_key id user_suffix) b.local, v.users id);
  registry = ground (arith, get_item-remove_item k user_registry_key b.local);
  current = ground (arith, get_item-remove_item k current_user_id_key b.local);
  flag = ground (arith, get_item-remove_item k is_logged_in_key b.local);
}

abbrev pub end_pin_session : Browser → Browser
end_pin_session b = record b { session = remove_item pin_session_key b.session }

pub end_pin_session-IsValid : (b : Browser) → IsValid b → IsValid (end_pin_session b)
end_pin_session-IsValid b v = record {
  window = v.window;
  users = v.users;
  registry = v.registry;
  current = v.current;
  flag = v.flag;
}

pub flag-Fits : (s : String) → Fits is_logged_in_key (text s)
flag-Fits s =
    Fits-text is_logged_in_key s (λ id. user_key-ne_key id is_logged_in_key (omega arith))
      (ground (arith, eq_iff user_registry_key is_logged_in_key))

logout-Fits : (id s : String) → Fits (user_key id logout_suffix) (text s)
logout-Fits id s =
    Fits-text (user_key id logout_suffix) s (λ a e. logout_key-ne_user_key id a (sym e))
      (λ e. logout_key-ne_key id user_registry_key (omega arith) (sym e))

note-Fits : (d : InactivityData) → Fits inactivity_key (inactivity_doc d)
note-Fits d = (
  (λ id e. absurd (user_key-ne_key id inactivity_key (omega arith) e)),
  (λ e. absurd (registry_ne e)),
  (λ e. absurd (current_ne e)),
  (λ e. absurd (flag_ne e)),
)
  where
    registry_ne : user_registry_key ≢ inactivity_key
    registry_ne = ground (arith, eq_iff user_registry_key inactivity_key)

    current_ne : current_user_id_key ≢ inactivity_key
    current_ne = ground (arith, eq_iff current_user_id_key inactivity_key)

    flag_ne : is_logged_in_key ≢ inactivity_key
    flag_ne = ground (arith, eq_iff is_logged_in_key inactivity_key)

abbrev pub note_of : ℕ → User → InactivityData
note_of now u = record {
  user_id = u.id;
  email = u.email;
  full_name = u.full_name;
  logout_time = to_iso_string now;
}

-- The browser after the branch of `setLoggedIn(true)` for the current user.
abbrev pub touched : ℕ → Option User → Browser → Browser
touched now none b = b
touched now (some u) b = saved (record u { last_active = to_iso_string now }) b

abbrev pub noted : ℕ → Option User → Browser → Browser
noted now none b = b
noted now (some u) b = write inactivity_key (inactivity_doc (note_of now u)) b

abbrev pub logged_in : ℕ → String → Browser → Browser
logged_in now id b =
    erase (user_key id logout_suffix) (touched now (user_of (get_current_user_id b) b) b)

abbrev pub logged_out : ℕ → String → Browser → Browser
logged_out now id b = end_pin_session (
    erase current_user_id_key (
      write (user_key id logout_suffix) (text (to_iso_string now))
        (noted now (user_of (get_current_user_id b) b) b)))

abbrev pub flagged : Bool → Browser → Browser
flagged value b = write is_logged_in_key (text (bool_text value)) b

-- The browser after `setLoggedIn(value)`.
unfoldable pub switched : Bool → ℕ → Option String → Browser → Browser
switched value now none b = b
switched value now (some id) b =
    if is_empty id then b else if value then logged_in now id b else logged_out now id b

abbrev pub after_switch : Bool → ℕ → Browser → Browser
after_switch value now b =
    switched value now (get_current_user_id (flagged value b)) (flagged value b)

touch_lem :
    (now : ℕ) (u : Option User) (b : Browser)
    → IsValid b
    → touch now u b ≡ done tt (touched now u b)
unfolding touch
touch_lem now none b v = refl
touch_lem now (some u) b v = save_user_lem (record u { last_active = to_iso_string now }) b v

log_in_lem :
    (now : ℕ) (id : String) (b : Browser)
    → IsValid b
    → log_in now id b ≡ done tt (logged_in now id b)
unfolding log_in
log_in_lem now id b v =
    rw (get_user_lem b v, ◌>>=◌) (rw (touch_lem now (user_of (get_current_user_id b) b) b v, ◌>>◌))

leave_note_lem :
    (now : ℕ) (u : Option User) (b : Browser) → leave_note now u b ≡ done tt (noted now u b)
unfolding leave_note
leave_note_lem now none b = refl
leave_note_lem now (some u) b = refl

pub clear_pin_verified_session_lem :
    (b : Browser) → b.window ≡ true → clear_pin_verified_session b ≡ done tt (end_pin_session b)
unfolding clear_pin_verified_session
clear_pin_verified_session_lem b h = ground arith

noted-window : (now : ℕ) (u : Option User) (b : Browser) → (noted now u b).window ≡ b.window
noted-window now none b = refl
noted-window now (some u) b = refl

log_out_lem :
    (now : ℕ) (id : String) (b : Browser)
    → IsValid b
    → log_out now id b ≡ done tt (logged_out now id b)
unfolding log_out
log_out_lem now id b v =
    rw (get_user_lem b v, ◌>>=◌)
      (rw (leave_note_lem now (user_of (get_current_user_id b) b) b, ◌>>◌)
        (clear_pin_verified_session_lem _
          (noted-window now (user_of (get_current_user_id b) b) b ∙ v.window)))

-- In a valid browser `setLoggedIn` throws nothing.
pub set_logged_in_lem :
    (value : Bool) (now : ℕ) (b : Browser)
    → IsValid b
    → set_logged_in value now b ≡ done tt (after_switch value now b)
unfolding set_logged_in switched
set_logged_in_lem value now b v = branch value (get_current_user_id (flagged value b))
  where
    v' : IsValid (flagged value b)
    v' = write-IsValid is_logged_in_key (text (bool_text value)) b (flag-Fits (bool_text value)) v

    branch :
        (on : Bool) (id : Option String)
        → for_current (if on then log_in now else log_out now) id (flagged value b)
          ≡ done tt (switched on now id (flagged value b))
    branch on none = refl
    branch true (some id) = elim (Bool-cases (is_empty id)) [
      | inl e ↦ rw e refl
      | inr e ↦ rw e (log_in_lem now id (flagged value b) v')
    ]
    branch false (some id) = elim (Bool-cases (is_empty id)) [
      | inl e ↦ rw e refl
      | inr e ↦ rw e (log_out_lem now id (flagged value b) v')
    ]

touched-IsValid : (now : ℕ) (u : Option User) (b : Browser) → IsValid b → IsValid (touched now u b)
touched-IsValid now none b v = v
touched-IsValid now (some u) b v = saved-IsValid (record u { last_active = to_iso_string now }) b v

noted-IsValid : (now : ℕ) (u : Option User) (b : Browser) → IsValid b → IsValid (noted now u b)
noted-IsValid now none b v = v
noted-IsValid now (some u) b v =
    write-IsValid inactivity_key (inactivity_doc (note_of now u)) b (note-Fits (note_of now u)) v

switched-IsValid :
    (value : Bool) (now : ℕ) (id : Option String) (b : Browser)
    → IsValid b
    → IsValid (switched value now id b)
unfolding switched
switched-IsValid value now none b v = v
switched-IsValid true now (some id) b v = elim (Bool-cases (is_empty id)) [
  | inl e ↦ rw e v
  | inr e ↦ rw e (
      erase-IsValid (user_key id logout_suffix) _
        (touched-IsValid now (user_of (get_current_user_id b) b) b v))
]
switched-IsValid false now (some id) b v = elim (Bool-cases (is_empty id)) [
  | inl e ↦ rw e v
  | inr e ↦ rw e (
      end_pin_session-IsValid _ (
        erase-IsValid current_user_id_key _ (
          write-IsValid (user_key id logout_suffix) (text (to_iso_string now)) _
            (logout-Fits id (to_iso_string now))
            (noted-IsValid now (user_of (get_current_user_id b) b) b v))))
]

-- `setLoggedIn` keeps a valid browser valid.
pub after_switch-IsValid :
    (value : Bool) (now : ℕ) (b : Browser) → IsValid b → IsValid (after_switch value now b)
after_switch-IsValid value now b v =
    switched-IsValid value now (get_current_user_id (flagged value b)) (flagged value b)
      (write-IsValid is_logged_in_key (text (bool_text value)) b (flag-Fits (bool_text value)) v)
