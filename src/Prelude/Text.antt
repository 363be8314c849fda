-- ===== src/Prelude/Text.antt =====
-- What the program uses of JavaScript's strings: +, length, includes, toLowerCase, trim.
-- `toLowerCase` is modelled on the ASCII letters, and white space is ASCII's and the no-break space.
use Prim.Native.Char.{Char, code}
use Prim.Native.Nat.{◌≤◌, ℕ, suc, ◌-◌}
use Prim.Native.String.{String, [], ◌∷◌, char_at}
use mathlib.Core.Bool.{Bool, true, false, ◌&&◌, ◌||◌}
use mathlib.Core.Option.{none, some}
use mathlib.Core.Path.{◌≡◌, refl, sym, ap, ◌∙◌}
use native.Mathlib.Omega.{arith}
use text.Mathlib.Text.{find?}
use text.Mathlib.TextLemmas.{nil-append, cons-append}
use mathlib.Core.Logic.{inl, inr}
use secure_vault.Prelude.Tests.{if_both, Bool-cases, leb, ◌==◌, nat_eq, if◌then◌else◌}
use Prim.Native.String

-- `s + t`
infixr 66 ◌&◌
abbrev pub ◌&◌ : String → String → String
s & t = String.◌++◌ s t

-- `s.length`, in characters
abbrev pub chars : String → ℕ
chars [] = 0
chars (c ∷ s) = suc (chars s)

-- `!s`
abbrev pub is_empty : String → Bool
is_empty [] = true
is_empty (c ∷ s) = false

pub is_empty-blank : (s : String) → is_empty s ≡ true → s ≡ ""
is_empty-blank [] h = refl
is_empty-blank (c ∷ s) h = cc

pub is_empty-chars : (s : String) → 1 ≤ chars s → is_empty s ≡ false
is_empty-chars [] h = absurd (omega arith)
is_empty-chars (c ∷ s) h = refl

-- `s.includes(t)`
abbrev pub includes : String → String → Bool
includes s t = elim (find? s t) [ none ↦ false | some i ↦ true ]

lower_char : Char → Char
lower_char c =
    if leb b'A' (code c) && leb (code c) b'Z'
    then char_at "abcdefghijklmnopqrstuvwxyz" (code c - b'A')
    else c

unfoldable pub to_lower_case : String → String
unfolding lower_char
to_lower_case [] = []
to_lower_case (c ∷ s) = lower_char c ∷ to_lower_case s

abbrev pub is_space : ℕ → Bool
is_space c = (leb 9 c && leb c 13) || c == 32 || c == 160

abbrev pub is_digit : ℕ → Bool
is_digit c = leb b'0' c && leb c b'9'

-- The digits of a text: `s.replace(/\D/g, "")`
unfoldable pub digits_of : String → String
digits_of [] = []
digits_of (c ∷ s) = let rest = digits_of s in if is_digit (code c) then c ∷ rest else rest

pub chars-digits_of : (s : String) → chars (digits_of s) ≤ chars s
unfolding digits_of
chars-digits_of [] = omega arith
chars-digits_of (c ∷ s) =
    let h = chars-digits_of s in
    if_both (λ t. chars t ≤ suc (chars s)) (is_digit (code c)) (omega arith) (omega arith)

-- Without its first character that is no digit: `s.replace(/\D/, "")`
unfoldable pub without_first_nondigit : String → String
without_first_nondigit [] = []
without_first_nondigit (c ∷ s) =
    let rest = without_first_nondigit s in if is_digit (code c) then c ∷ rest else s

pub digits_of-append : (s t : String) → digits_of (s & t) ≡ digits_of s & digits_of t
unfolding digits_of
digits_of-append [] t = ap digits_of (nil-append t) ∙ sym (nil-append (digits_of t))
digits_of-append (c ∷ s) t = elim (Bool-cases (is_digit (code c))) [
  | inl e ↦ rw (cons-append, e, cons-append) (ap (λ r. c ∷ r) (digits_of-append s t))
  | inr e ↦ rw (cons-append, e) (digits_of-append s t)
]

-- At most one character of which the first that is no digit is taken away.
pub without_first_nondigit-digits :
    (s : String) → chars s ≤ 1 → digits_of (without_first_nondigit s) ≡ without_first_nondigit s
unfolding digits_of without_first_nondigit
without_first_nondigit-digits [] h = refl
without_first_nondigit-digits (c ∷ []) h = elim (Bool-cases (is_digit (code c))) [
  | inl e ↦ rw (e, e) refl
  | inr e ↦ rw e refl
]
without_first_nondigit-digits (c ∷ (d ∷ s)) h = absurd (omega arith)

-- Up to the first full stop: `s.split('.')[0]`
unfoldable pub before_dot : String → String
before_dot [] = []
before_dot (c ∷ s) = let rest = before_dot s in if code c == b'.' then [] else c ∷ rest

unfoldable pub trim_start : String → String
trim_start [] = []
trim_start (c ∷ s) = let rest = trim_start s in if is_space (code c) then rest else c ∷ s

abbrev trim_last : Char → String → String
trim_last c [] = if is_space (code c) then [] else c ∷ []
trim_last c (d ∷ s) = c ∷ d ∷ s

unfoldable pub trim_end : String → String
trim_end [] = []
trim_end (c ∷ s) = trim_last c (trim_end s)

unfoldable pub trim : String → String
unfolding trim_start trim_end
trim s = trim_end (trim_start s)

trims : trim " ab c  " ≡ "ab c"
unfolding trim
trims = refl

lowers : to_lower_case "Owner@Vault.IO" ≡ "owner@vault.io"
unfolding to_lower_case
lowers = refl

-- The last character, or the one given.
abbrev pub last_from : ℕ → String → ℕ
last_from d [] = d
last_from d (c ∷ s) = last_from (code c) s

abbrev pub last_of : String → ℕ
last_of s = last_from 0 s

-- The end of a text decides its last character.
pub last_from-append :
    (d : ℕ) (s : String) (c : Char) (t : String) → last_from d (s & (c ∷ t)) ≡ last_from 0 (c ∷ t)
last_from-append d [] c t = rw nil-append refl
last_from-append d (e ∷ s) c t = rw cons-append (last_from-append (code e) s c t)
