-- ===== src/Json.antt =====
-- The values that `response.json()` gives, as the client reads them. Numbers are natural: the client
-- asks of a number here only whether it is 0.
use secure_vault.Prelude.{
  ℕ, String, Bool, true, false, not, Option, none, some, ◌==◌, string_eq, nat_eq, if◌then◌else◌,
  is_empty, ◌≡◌, arith,
}

mutual
  pub data Json : Type 0 where
    null : Json
    bool : Bool → Json
    num : ℕ → Json
    str : String → Json
    arr : Items → Json
    obj : Fields → Json

  pub data Items : Type 0 where
    nil : Items
    cons : Json → Items → Items

  pub data Fields : Type 0 where
    end : Fields
    field : String → Json → Fields → Fields

-- A field of an object; `none` is undefined.
unfoldable pub get_field : String → Fields → Option Json
get_field k end = none
get_field k (field j v fs) = if j == k then some v else get_field k fs

-- `{ ...fs, [k]: v }`
unfoldable pub set_field : String → Json → Fields → Fields
set_field k v end = field k v end
set_field k v (field j w fs) = if j == k then field k v fs else field j w (set_field k v fs)

-- `v.k`, of a value that is not null; arrays, texts and numbers have no field that the client reads.
abbrev pub property : String → Json → Option Json
property k (obj fs) = get_field k fs
property k _ = none

abbrev pub truthy : Json → Bool
truthy null = false
truthy (bool b) = b
truthy (num n) = not (n == 0)
truthy (str s) = not (is_empty s)
truthy (arr xs) = true
truthy (obj fs) = true

-- `v || w`
infixr 30 ◌or_else◌
abbrev pub ◌or_else◌ : Option Json → Json → Json
none or_else w = w
some v or_else w = if truthy v then v else w

pub or_else-truthy : (v : Option Json) (w : Json) → truthy w ≡ true → truthy (v or_else w) ≡ true
or_else-truthy none w h = h
or_else-truthy (some v) w h = ground arith
