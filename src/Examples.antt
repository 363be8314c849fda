-- ===== src/Examples.antt =====
-- Concrete users, browsers and clients for the examples of the modules below, about lib/store.ts, lib/api.ts and
-- the pages.
pub mod Sessions
pub mod Calls
pub mod Pages
pub mod Nominees
pub mod Admins
pub mod Dashboard
pub mod Policies
pub mod Assets
pub mod Access
use secure_vault.Fetch.{Client, waiting, first}
use secure_vault.Prelude.{ℕ, String, Bool, true, false, none, some, [], ◌∷◌, ◌≡◌, refl}
use secure_vault.Session.Data.{User, free, AdminUser, support_admin, active, Browser, text}
use secure_vault.Session.Keys.{current_user_id_key}
use secure_vault.Session.Users.{get_current_user_id}
use secure_vault.Session.Valid.{IsValid}
use secure_vault.Session.Valid.Save.{write, write-IsValid, current-Fits}
use secure_vault.Storage.{get_item, set_item}

abbrev pub visitor : Browser
visitor = record { window = true; local = []; session = [] }

pub visitor-IsValid : IsValid visitor
unfolding get_item
visitor-IsValid = record { window = refl; users = λ id. tt; registry = tt; current = tt; flag = tt }

abbrev pub owner : User
owner = record {
  id = "u1";
  full_name = "Asha Rao";
  email = "Asha@Vault.IO";
  phone = "9876543210";
  dob = "1980-02-29";
  pin = "";
  inactivity_period = 30;
  created_at = "2024-01-01T00:00:00.000Z";
  last_active = "2024-01-01T00:00:00.000Z";
  plan = free;
  storage_used = 0;
  storage_limit = 500;
  is_verified = true;
  is_two_factor_enabled = false;
  is_profile_complete = false;
  auth_method = none;
}

abbrev pub helper : AdminUser
helper = record {
  id = "a1";
  full_name = "Dev Shah";
  email = "dev@vault.io";
  role = support_admin;
  status = active;
  last_login = none;
  created_at = "2024-01-01T00:00:00.000Z";
}

-- A browser whose current user is the owner.
abbrev pub seated : Browser
seated = write current_user_id_key (text "u1") visitor

pub seated-IsValid : IsValid seated
seated-IsValid =
    write-IsValid current_user_id_key (text "u1") visitor (current-Fits "u1") visitor-IsValid

pub seated-current : get_current_user_id seated ≡ some "u1"
unfolding get_current_user_id get_item set_item
seated-current = refl

-- No call yet; and one call that waits for the refresh that it has sent.
abbrev pub idle : Client Browser
idle = record {
  refreshing = false;
  promise = none;
  started = 0;
  calls = [];
  store = visitor;
  redirects = 0;
}

abbrev pub waiting_client : Client Browser
waiting_client = record {
  refreshing = true;
  promise = some 0;
  started = 1;
  calls = record { endpoint = "/vault/assets"; phase = waiting (some 0); sent = 1 } ∷ [];
  store = seated;
  redirects = 0;
}
