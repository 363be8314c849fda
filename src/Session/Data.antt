-- ===== src/Session/Data.antt =====
-- The interfaces of lib/store.ts and lib/admin-store.ts, and what the browser keeps.
-- A stored document is kept as the value that JSON.stringify was given: JSON.parse gives it back.
use Prim.Native.Nat.{ℕ}
use Prim.Native.String.{String}
use mathlib.Core.Bool.{Bool}
use mathlib.Core.Option.{Option}
use secure_vault.Storage.{Storage}

pub data Plan : Type 0 where
  free pro premium : Plan

pub data AuthMethod : Type 0 where
  local google : AuthMethod

pub record User : Type 0 where
  pub id : String
  pub full_name : String
  pub email : String
  pub phone : String
  pub dob : String
  pub pin : String
  pub inactivity_period : ℕ
  pub created_at : String
  pub last_active : String
  pub plan : Plan
  pub storage_used : ℕ
  pub storage_limit : ℕ
  pub is_verified : Bool
  pub is_two_factor_enabled : Bool
  pub is_profile_complete : Bool
  pub auth_method : Option AuthMethod

pub record InactivityData : Type 0 where
  pub user_id : String
  pub email : String
  pub full_name : String
  pub logout_time : String

pub data Role : Type 0 where
  super_admin verification_admin security_admin support_admin : Role

pub data AdminStatus : Type 0 where
  active disabled : AdminStatus

pub record AdminUser : Type 0 where
  pub id : String
  pub full_name : String
  pub email : String
  pub role : Role
  pub status : AdminStatus
  pub last_login : Option String
  pub created_at : String

abbrev pub Registry : Type 0
Registry = Storage String

pub data Item : Type 0 where
  text : String → Item
  user_doc : User → Item
  registry_doc : Registry → Item
  inactivity_doc : InactivityData → Item
  admin_doc : AdminUser → Item

-- `window` is false while a page is rendered on the server.
pub record Browser : Type 0 where
  pub window : Bool
  pub local : Storage Item
  pub session : Storage Item

-- What a call gives: its value and the browser after it, or an exception and the browser then.
pub data Outcome (A : Type 0) : Type 0 where
  done : A → Browser → Outcome A
  threw : Browser → Outcome A

abbrev pub Action : Type 0 → Type 0
Action A = Browser → Outcome A

infixl 5 ◌>>=◌ ◌>>◌
abbrev pub ◌>>=◌ : {A B : Type 0} → Action A → (A → Action B) → Action B
◌>>=◌ m f b = elim (m b) [ done a b' ↦ f a b' | threw b' ↦ threw b' ]

abbrev pub ◌>>◌ : {A B : Type 0} → Action A → Action B → Action B
◌>>◌ m k b = elim (m b) [ done a b' ↦ k b' | threw b' ↦ threw b' ]

abbrev pub return : {A : Type 0} → A → Action A
return a b = done a b

abbrev pub after : {A : Type 0} → Outcome A → Browser
after (done a b) = b
after (threw b) = b
