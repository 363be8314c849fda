-- ===== src/Settings/InStep.antt =====
-- That the page of app/dashboard/settings/page.tsx and the browser's store hold the same user.
use secure_vault.Settings.{
  Settings, keep_user, profile_reply, pin_reply, period_reply, verify_reply, password_reply,
  setup_reply, choose_period, Period, TwoFactor, toasted, pin_changed, two_factor_enabled,
  period_text,
}
use secure_vault.Replies.{Reply, agreed, refused, broken}
use secure_vault.Session.Data.{User, Browser, Action, Outcome, done, threw}
use secure_vault.Session.Users.{get_user}
use secure_vault.Session.RoundTrip.{user_at-saved}
use secure_vault.Session.Valid.{IsValid, get_user_lem}
use secure_vault.Session.Valid.Save.{saved, save_user_lem, saved-IsValid, saved-current}
use secure_vault.Prelude.{
  String, true, false, Option, none, some, List, [], ◌∷◌, ◌≡◌, refl, is_empty, All, ◌∙◌, ap, sym,
  subst,
}

pub data Change : Type 0 where
  profile_answer : Reply User → Change
  password_answer : Reply Unit → Change
  pin_answer : User → String → Reply Unit → Change
  period_chosen : Period → Change
  period_answer : Period → Reply User → Change
  setup_answer : Reply TwoFactor → Change
  verify_answer : User → Reply Unit → Change

-- What an answer does to the page and to the browser.
unfoldable pub change : Change → Settings → Action Settings
unfolding profile_reply pin_reply period_reply verify_reply password_reply setup_reply choose_period
change (profile_answer reply) s b = profile_reply reply s b
change (password_answer reply) s b = done (password_reply reply s) b
change (pin_answer u pin reply) s b = pin_reply u pin reply s b
change (period_chosen p) s b = done (choose_period p s) b
change (period_answer p reply) s b = period_reply p reply s b
change (setup_answer reply) s b = done (setup_reply reply s) b
change (verify_answer u reply) s b = verify_reply u reply s b

unfoldable pub changes : List Change → Settings → Action Settings
unfolding change
changes [] s b = done s b
changes (e ∷ es) s b = elim (change e s b) [ done t c ↦ changes es t c | threw c ↦ threw c ]

-- The page's user is the one that the store gives.
pub record SameUser (s : Settings) (b : Browser) : Type 0 where
  pub valid : IsValid b
  pub same : get_user b ≡ done s.user b

abbrev pub StaysSame : Outcome Settings → Type 0
StaysSame (done s b) = SameUser s b
StaysSame (threw b) = ⊥

abbrev pub Named : User → Type 0
Named u = is_empty u.id ≡ false

abbrev pub ReplyNamed : Reply User → Type 0
ReplyNamed (agreed u) = Named u
ReplyNamed r = Unit

-- The users that answers bring and keep have an id.
abbrev pub ChangeNamed : Change → Type 0
ChangeNamed (profile_answer reply) = ReplyNamed reply
ChangeNamed (pin_answer u pin reply) = Named u
ChangeNamed (period_answer p reply) = ReplyNamed reply
ChangeNamed (verify_answer u reply) = Named u
ChangeNamed e = Unit

pub get_user-saved :
    (u : User) (b : Browser)
    → IsValid b
    → Named u
    → get_user (saved u b) ≡ done (some u) (saved u b)
get_user-saved u b v n =
    rw (get_user_lem (saved u b) (saved-IsValid u b v), saved-current u b v, user_at-saved u b n)

-- A function of the page that leaves its user alone.
abbrev LeavesUser : (Settings → Settings) → Type 0
LeavesUser f = (s : Settings) → (f s).user ≡ s.user

keep_user_lem :
    (u : User) (f : Settings → Settings) (s : Settings) (b : Browser)
    → IsValid b
    → keep_user u f s b ≡ done (f (record s { user = some u })) (saved u b)
unfolding keep_user
keep_user_lem u f s b v = rw (keep_user, save_user_lem u b v) refl

keep_user-StaysSame :
    (u : User) (f : Settings → Settings) (s : Settings) (b : Browser)
    → IsValid b
    → Named u
    → LeavesUser f
    → StaysSame (keep_user u f s b)
keep_user-StaysSame u f s b v n k = subst StaysSame (sym (keep_user_lem u f s b v)) (record {
  valid = saved-IsValid u b v;
  same =
      get_user-saved u b v n ∙ ap (λ o. done o (saved u b)) (sym (k (record s { user = some u })));
})

-- The page changes, but not its user, and the store stays.
unchanged_StaysSame : (s t : Settings) (b : Browser) → t.user ≡ s.user → SameUser s b → SameUser t b
unchanged_StaysSame s t b e h = record {
  valid = h.valid;
  same = h.same ∙ ap (λ o. done o b) (sym e);
}

choose_period-user :
    (p : Period) (s : Settings) (o : Option User) → s.user ≡ o → (choose_period p s).user ≡ s.user
unfolding choose_period
choose_period-user p s none e = rw e refl
choose_period-user p s (some u) e = rw e refl

change-StaysSame :
    (e : Change) (s : Settings) (b : Browser)
    → ChangeNamed e
    → SameUser s b
    → StaysSame (change e s b)
unfolding change profile_reply pin_reply period_reply verify_reply password_reply setup_reply
change-StaysSame (profile_answer (agreed u)) s b n h =
    keep_user-StaysSame u (toasted "Profile updated successfully!") s b h.valid n (λ t. refl)
change-StaysSame (profile_answer (refused x)) s b n h = unchanged_StaysSame s _ b refl h
change-StaysSame (profile_answer (broken x)) s b n h = unchanged_StaysSame s _ b refl h
change-StaysSame (password_answer (agreed x)) s b n h = unchanged_StaysSame s _ b refl h
change-StaysSame (password_answer (refused x)) s b n h = unchanged_StaysSame s _ b refl h
change-StaysSame (password_answer (broken x)) s b n h = unchanged_StaysSame s _ b refl h
change-StaysSame (pin_answer u pin (agreed x)) s b n h =
    keep_user-StaysSame (record u { pin = pin }) pin_changed s b h.valid n (λ t. refl)
change-StaysSame (pin_answer u pin (refused x)) s b n h = unchanged_StaysSame s _ b refl h
change-StaysSame (pin_answer u pin (broken x)) s b n h = unchanged_StaysSame s _ b refl h
change-StaysSame (period_chosen p) s b n h =
    unchanged_StaysSame s _ b (choose_period-user p s s.user refl) h
change-StaysSame (period_answer p (agreed u)) s b n h =
    keep_user-StaysSame u (toasted (period_text p)) s b h.valid n (λ t. refl)
change-StaysSame (period_answer p (refused x)) s b n h = unchanged_StaysSame s _ b refl h
change-StaysSame (period_answer p (broken x)) s b n h = unchanged_StaysSame s _ b refl h
change-StaysSame (setup_answer (agreed x)) s b n h = unchanged_StaysSame s _ b refl h
change-StaysSame (setup_answer (refused x)) s b n h = unchanged_StaysSame s _ b refl h
change-StaysSame (setup_answer (broken x)) s b n h = unchanged_StaysSame s _ b refl h
change-StaysSame (verify_answer u (agreed x)) s b n h =
    keep_user-StaysSame (record u { is_two_factor_enabled = true }) two_factor_enabled s b h.valid n
      (λ t. refl)
change-StaysSame (verify_answer u (refused x)) s b n h = unchanged_StaysSame s _ b refl h
change-StaysSame (verify_answer u (broken x)) s b n h = unchanged_StaysSame s _ b refl h

-- What follows an answer, if it keeps the two users the same.
then_StaysSame :
    (k : Settings → Action Settings)
    → ((t : Settings) (c : Browser) → SameUser t c → StaysSame (k t c))
    → (o : Outcome Settings) → StaysSame o
    → StaysSame (elim o [ done t c ↦ k t c | threw c ↦ threw c ])
then_StaysSame k f (done t c) h = f t c h
then_StaysSame k f (threw c) h = h

-- If the browser is valid and its store gives the page's user, both hold after any answers of the server
-- whose users have an id, and no handler ends in an exception.
pub changes-StaysSame :
    (es : List Change) (s : Settings) (b : Browser)
    → All ChangeNamed es
    → SameUser s b
    → StaysSame (changes es s b)
unfolding changes
changes-StaysSame [] s b n h = h
changes-StaysSame (e ∷ es) s b (n, ns) h =
    then_StaysSame (changes es) (λ t c k. changes-StaysSame es t c ns k) (change e s b)
      (change-StaysSame e s b n h)
