-- ===== src/Auth.antt =====
-- lib/auth-utils.ts: clearing what the browser keeps. The server's answer to the logout request, or
-- its failure, changes nothing here; `hasValidSession` is a request with no state of its own.
pub mod Clearing
use text.Mathlib.Text.{starts_with}
use secure_vault.Prelude.{
  String, Bool, true, false, List, [], ◌∷◌, Option, none, some, if◌then◌else◌,
}
use secure_vault.Session.Data.{Browser, Item}
use secure_vault.Storage.{Storage, keys, remove_item}

-- The loop over `Object.keys(localStorage)`
unfoldable pub clear_keys : List String → Storage Item → Storage Item
clear_keys [] m = m
clear_keys (k ∷ ks) m = clear_keys ks (if starts_with k "sv_" then remove_item k m else m)

-- `clearAuthState()`
unfoldable pub clear_auth_state : Browser → Browser
unfolding clear_keys keys
clear_auth_state b = if b.window then record b { local = clear_keys (keys b.local) b.local } else b

-- `forceLogout()`: the browser after it, and the page that it goes to.
unfoldable pub force_logout : Browser → Browser × Option String
force_logout b = (clear_auth_state b, if b.window then some "/login" else none)
