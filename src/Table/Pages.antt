-- ===== src/Table/Pages.antt =====
-- The pages of components/design-system/DataTable.tsx.
use Prim.Native.Nat.{◌/◌, ◌*◌, max}
use native.Mathlib.Nat.{lt-div-mul-add, mul-le-mul_right}
use secure_vault.Json.{Fields}
use secure_vault.Prelude.{
  ◌<◌, ◌≤◌, ℕ, zero, suc, ◌+◌, ◌-◌, List, [], ◌∷◌, ◌++◌, take, drop, length, arith, ◌≡◌, refl, ◌∙◌,
  ap, sym,
}
use secure_vault.Table.{page_of, total_pages}

-- The rows of the pages 1, …, k one after another.
unfoldable pub first_pages : ℕ → ℕ → List Fields → List Fields
unfolding page_of
first_pages page_size zero rows = []
first_pages page_size (suc k) rows = first_pages page_size k rows ++ page_of page_size (suc k) rows

take_all : (n : ℕ) (xs : List Fields) → length xs ≤ n → take n xs ≡ xs
take_all zero [] h = refl
take_all zero (x ∷ xs) h = absurd (omega (arith, h))
take_all (suc n) [] h = refl
take_all (suc n) (x ∷ xs) h = rw (take_all n xs (omega arith))

take_nil : (n : ℕ) → take {A = Fields} n [] ≡ []
take_nil zero = refl
take_nil (suc n) = refl

take-sum : (m n : ℕ) (xs : List Fields) → take (m + n) xs ≡ take m xs ++ take n (drop m xs)
take-sum zero n xs = let e : 0 + n ≡ n = omega arith in ap (λ m. take m xs) e
take-sum (suc m) n [] = take_nil (suc m + n) ∙ sym (take_nil n)
take-sum (suc m) n (x ∷ xs) =
    let e : suc m + n ≡ suc (m + n) = omega arith in
    ap (λ k. take k (x ∷ xs)) e ∙ ap (λ ys. x ∷ ys) (take-sum m n xs)

first_pages-take :
    (size k : ℕ) (rows : List Fields) → first_pages size k rows ≡ take (k * size) rows
unfolding first_pages page_of
first_pages-take size zero rows = let e : 0 ≡ 0 * size = omega arith in ap (λ m. take m rows) e
first_pages-take size (suc k) rows =
    let d : suc k - 1 ≡ k = omega arith in
    let e : k * size + size ≡ suc k * size = omega arith in
    rw (first_pages-take size k rows) (
      ap (λ j. take (k * size) rows ++ take size (drop (j * size) rows)) d
      ∙ sym (take-sum (k * size) size rows)
      ∙ ap (λ m. take m rows) e)

ceil_enough : (size n : ℕ) → 0 < size → n ≤ total_pages size n * size
unfolding total_pages
ceil_enough size n h =
    let pages : ℕ = (n + (size - 1)) / size in
    let a = lt-div-mul-add {a = n + (size - 1)} h in
    let b = mul-le-mul_right {m = pages} {n = max 1 pages} size (omega arith) in omega arith

-- On pages of at least one row, the pages from the first to the last together are the rows, each once and in their
-- order.
pub first_pages-total_pages :
    (page_size : ℕ) (rows : List Fields)
    → 0 < page_size
    → first_pages page_size (total_pages page_size (length rows)) rows ≡ rows
first_pages-total_pages size rows h =
    first_pages-take size (total_pages size (length rows)) rows
    ∙ take_all (total_pages size (length rows) * size) rows (ceil_enough size (length rows) h)
