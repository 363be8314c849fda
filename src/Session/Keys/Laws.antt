-- ===== src/Session/Keys/Laws.antt =====
-- The keys of different users, and of different things, are different texts.
use text.Mathlib.TextLemmas.{append_assoc, append_cancel_left, append_cancel_right}
use secure_vault.Prelude.{String, ◌≡◌, ◌≢◌, sym, ap, ◌∙◌, arith, ◌&◌, last_of, last_from-append}
use secure_vault.Session.Keys.{user_key, user_suffix, logout_suffix}

pub user_key-injective : (a b suffix : String) → user_key a suffix ≡ user_key b suffix → a ≡ b
unfolding user_key
user_key-injective a b suffix e =
    append_cancel_right a b ("_" & suffix) (append_cancel_left "sv_" _ _ e)

-- Two users' records have different keys.
pub user_key-ne : {a b : String} (suffix : String) → a ≢ b → user_key a suffix ≢ user_key b suffix
user_key-ne {a} {b} suffix h e = h (user_key-injective a b suffix e)

last_of-user_key_user : (id : String) → last_of (user_key id user_suffix) ≡ b'r'
unfolding user_key
last_of-user_key_user id =
    ap last_of (sym (append_assoc "sv_" id "_user")) ∙ last_from-append 0 ("sv_" & id) "_" "user"

last_of-user_key_logout : (id : String) → last_of (user_key id logout_suffix) ≡ b'e'
unfolding user_key
last_of-user_key_logout id =
    ap last_of (sym (append_assoc "sv_" id "_logoutTime"))
    ∙ last_from-append 0 ("sv_" & id) "_" "logoutTime"

-- A key that does not end like a user's key is none.
pub user_key-ne_key : (id k : String) → last_of k ≢ b'r' → user_key id user_suffix ≢ k
user_key-ne_key id k h e = h (sym (ap last_of e) ∙ last_of-user_key_user id)

pub logout_key-ne_key : (id k : String) → last_of k ≢ b'e' → user_key id logout_suffix ≢ k
logout_key-ne_key id k h e = h (sym (ap last_of e) ∙ last_of-user_key_logout id)

pub logout_key-ne_user_key : (a b : String) → user_key a logout_suffix ≢ user_key b user_suffix
logout_key-ne_user_key a b =
    logout_key-ne_key a (user_key b user_suffix) (omega (arith, last_of-user_key_user b))
