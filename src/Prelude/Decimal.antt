-- ===== src/Prelude/Decimal.antt =====
-- Numbers as text: `n.toString()` and `parseInt(s, 10)` (lib/store.ts), with their round trip.
use Prim.Native.Char.{Char, code}
use Prim.Native.Nat.{ℕ, zero, suc, ◌+◌, ◌-◌, ◌*◌, ◌/◌, ◌%◌, ◌<◌}
use Prim.Native.String.{[], ◌∷◌, char_at, String}
use mathlib.Core.Bool.{Bool, true, false, ◌&&◌}
use mathlib.Core.Logic.{inl, inr}
use mathlib.Core.Path.{◌≡◌, refl, ap, ◌∙◌}
use native.Mathlib.Omega.{arith}
use secure_vault.Prelude.Tests.{leb, ltb, ◌==◌, nat_eq, Bool-cases, if◌then◌else◌}
use secure_vault.Prelude.Text.{is_empty, trim_start}

abbrev pub digit : ℕ → Char
digit n = char_at "0123456789" n

-- The digits of `n` in front of `rest`; `fuel` bounds their number.
digits : ℕ → ℕ → String → String
digits zero n rest = rest
digits (suc fuel) n rest =
    let more = digits fuel (n / 10) (digit (n % 10) ∷ rest) in
    if ltb n 10 then digit n ∷ rest else more

-- `n.toString()`: a number has fewer digits than its successor has units.
unfoldable pub to_string : ℕ → String
unfolding digits
to_string n = digits (suc n) n []

abbrev is_digit : ℕ → Bool
is_digit c = leb b'0' c && leb c b'9'

pub data ParsedInt : Type 0 where
  nan : ParsedInt
  nonneg : ℕ → ParsedInt
  negative : ℕ → ParsedInt

-- The number that the leading digits give, after `acc`; the rest of the text is dropped.
scan : ℕ → String → ℕ
scan acc [] = acc
scan acc (c ∷ s) =
    let rest = scan (acc * 10 + (code c - b'0')) s in if is_digit (code c) then rest else acc

-- The digits that must follow the sign.
unsigned : (ℕ → ParsedInt) → String → ParsedInt
unfolding scan
unsigned sign [] = nan
unsigned sign (c ∷ s) = if is_digit (code c) then sign (scan 0 (c ∷ s)) else nan

signed : String → ParsedInt
unfolding unsigned
signed [] = nan
signed (c ∷ s) =
    if code c == b'-'
    then unsigned negative s
    else if code c == b'+'
    then unsigned nonneg s
    else unsigned nonneg (c ∷ s)

-- `parseInt(s, 10)`
unfoldable pub parse_int : String → ParsedInt
unfolding signed trim_start
parse_int s = signed (trim_start s)

parses : parse_int " 15px" ≡ nonneg 15
unfolding parse_int
parses = refl

prints : to_string 1790000000123 ≡ "1790000000123"
unfolding to_string
prints = refl

not_a_number : parse_int "px" ≡ nan
unfolding parse_int
not_a_number = refl

digit-code : (n : ℕ) → n < 10 → code (digit n) ≡ 48 + n
digit-code zero h = refl
digit-code (suc zero) h = refl
digit-code (suc (suc zero)) h = refl
digit-code (suc (suc (suc zero))) h = refl
digit-code (suc (suc (suc (suc zero)))) h = refl
digit-code (suc (suc (suc (suc (suc zero))))) h = refl
digit-code (suc (suc (suc (suc (suc (suc zero)))))) h = refl
digit-code (suc (suc (suc (suc (suc (suc (suc zero))))))) h = refl
digit-code (suc (suc (suc (suc (suc (suc (suc (suc zero)))))))) h = refl
digit-code (suc (suc (suc (suc (suc (suc (suc (suc (suc zero))))))))) h = refl
digit-code (suc (suc (suc (suc (suc (suc (suc (suc (suc (suc n)))))))))) h = absurd (omega arith)

is_digit-add : (n : ℕ) → n < 10 → is_digit (48 + n) ≡ true
is_digit-add n h = ground arith

scan-digit : (acc n : ℕ) (s : String) → n < 10 → scan acc (digit n ∷ s) ≡ scan (acc * 10 + n) s
unfolding scan
scan-digit acc n s h =
    let back : 48 + n - 48 ≡ n = omega arith in rw (digit-code n h, is_digit-add n h, back)

scan-digits : (fuel n : ℕ) (rest : String) → n < fuel → scan 0 (digits fuel n rest) ≡ scan n rest
unfolding digits
scan-digits zero n rest h = absurd (omega arith)
scan-digits (suc fuel) n rest h = elim (Bool-cases (ltb n 10)) [
  | inl small ↦ rw small (scan-digit 0 n rest (ground arith) ∙ ap (λ k. scan k rest) (omega arith))
  | inr large ↦ rw large (
      scan-digits fuel (n / 10) (digit (n % 10) ∷ rest) (ground arith)
      ∙ scan-digit (n / 10) (n % 10) rest (omega arith)
      ∙ ap (λ k. scan k rest) (omega arith))
]

-- A number's text begins with a digit.
abbrev StartsWithDigit : String → Type 0
StartsWithDigit [] = ⊥
StartsWithDigit (c ∷ s) = is_digit (code c) ≡ true

digits-StartsWithDigit :
    (fuel n : ℕ) (rest : String) → n < suc fuel → StartsWithDigit (digits (suc fuel) n rest)
unfolding digits
digits-StartsWithDigit zero n rest h =
    let small : ltb n 10 ≡ true = ground arith in rw small (ground (arith, digit-code n))
digits-StartsWithDigit (suc fuel) n rest h = elim (Bool-cases (ltb n 10)) [
  | inl small ↦ rw small (ground (arith, digit-code n))
  | inr large ↦
      rw large (digits-StartsWithDigit fuel (n / 10) (digit (n % 10) ∷ rest) (ground arith))
]

StartsWithDigit-not_empty : (s : String) → StartsWithDigit s → is_empty s ≡ false
StartsWithDigit-not_empty [] h = absurd h
StartsWithDigit-not_empty (c ∷ s) h = refl

-- A number's text is never empty.
pub to_string-not_empty : (n : ℕ) → is_empty (to_string n) ≡ false
unfolding to_string
to_string-not_empty n =
    StartsWithDigit-not_empty (digits (suc n) n []) (digits-StartsWithDigit n n [] (omega arith))

parse_int-digits : (s : String) → StartsWithDigit s → parse_int s ≡ nonneg (scan 0 s)
unfolding parse_int
parse_int-digits [] h = absurd h
parse_int-digits (c ∷ s) h = ground arith

-- `parseInt` reads back every number that `toString` has written.
pub parse_int-to_string : (n : ℕ) → parse_int (to_string n) ≡ nonneg n
unfolding to_string scan
parse_int-to_string n =
    parse_int-digits (digits (suc n) n []) (digits-StartsWithDigit n n [] (omega arith))
    ∙ ap nonneg (scan-digits (suc n) n [] (omega arith))
