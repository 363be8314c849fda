-- ===== src/Policies/Selection.antt =====
-- The pickers of app/dashboard/policies/page.tsx: a list of chosen ids stands for a set, and each click flips
-- one id's membership.
use secure_vault.Policies.{toggle, selected}
use secure_vault.Prelude.{
  String, Bool, List, [], ◌∷◌, ◌++◌, ◌==◌, string_eq, true, false, ◌≡◌, refl, arith, Bool-cases,
  inl, inr, if_true, if_false, eq_iff, ◌||◌, if◌then◌else◌, keep, any, not, ap, sym, ◌∙◌, subst,
  ◌&&◌,
}

-- The set that a list of ids stands for, and the set after a click.
abbrev pub IdSet : Type 0
IdSet = String → Bool

abbrev pub set_of : List String → IdSet
set_of ids = λ i. selected i ids

-- The set with one id flipped.
abbrev pub flip : String → IdSet → IdSet
flip j s = λ i. if j == i then not (s i) else s i

-- The clicks, on the list and on the set.
unfoldable pub clicks : List String → List String → List String
unfolding toggle
clicks [] ids = ids
clicks (j ∷ js) ids = clicks js (toggle j ids)

unfoldable pub flips : List String → IdSet → IdSet
flips [] s = s
flips (j ∷ js) s = flips js (flip j s)

selected-append :
    (i j : String) (ids : List String) → selected i (ids ++ j ∷ []) ≡ (selected i ids || j == i)
unfolding selected
selected-append i j [] = ground arith
selected-append i j (a ∷ ids) = rw (selected-append i j ids) (ground arith)

and-true : (b : Bool) → (b && true) ≡ b
and-true true = refl
and-true false = refl

and-false : (b : Bool) → (b && false) ≡ false
and-false true = refl
and-false false = refl

-- `keep`'s step, for each result of its test.
any-choice {ℓ} :
    {A : Type ℓ} (p : A → Bool) (b : Bool) (x : A) (xs : List A)
    → any p (elim b [ true ↦ x ∷ xs | false ↦ xs ]) ≡ ((p x && b) || any p xs)
any-choice p true x xs = ap (λ c. c || any p xs) (sym (and-true (p x)))
any-choice p false x xs = ap (λ c. c || any p xs) (sym (and-false (p x)))

same_as : (i j a : String) → ((a == i) && not (a == j)) ≡ ((a == i) && not (j == i))
same_as i j a = ground (arith, eq_iff a i, eq_iff a j, eq_iff j i)

or-and : (b c d : Bool) → ((b && d) || (c && d)) ≡ ((b || c) && d)
or-and true true true = refl
or-and true true false = refl
or-and true false true = refl
or-and true false false = refl
or-and false c d = refl

-- Taking an id out of the list takes it out of the set.
selected-without :
    (i j : String) (ids : List String)
    → selected i (keep (λ a. not (a == j)) ids) ≡ (selected i ids && not (j == i))
unfolding selected
selected-without i j [] = refl
selected-without i j (a ∷ ids) =
    any-choice (λ x. x == i) (not (a == j)) a (keep (λ x. not (x == j)) ids)
    ∙ (λ k. same_as i j a k || selected-without i j ids k)
    ∙ or-and (a == i) (selected i ids) (not (j == i))

flip_in : (s e : Bool) → (e ≡ true → s ≡ true) → (s && not e) ≡ (if e then not s else s)
flip_in s true h = rw (h refl) refl
flip_in true false h = refl
flip_in false false h = refl

flip_out : (s e : Bool) → (e ≡ true → s ≡ false) → (s || e) ≡ (if e then not s else s)
flip_out s true h = rw (h refl) refl
flip_out true false h = refl
flip_out false false h = refl

same_id :
    (i j : String) (ids : List String) (b : Bool)
    → selected j ids ≡ b
    → (j == i) ≡ true
    → selected i ids ≡ b
same_id i j ids b h e = subst (λ x. selected x ids ≡ b) ((eq_iff j i).0 e) h

-- A click on the list is a flip of the set.
toggle-flip : (i j : String) (ids : List String) → set_of (toggle j ids) i ≡ flip j (set_of ids) i
unfolding toggle
toggle-flip i j ids = elim (Bool-cases (selected j ids)) [
  | inl e ↦
      ap (selected i) (if_true _ _ _ e)
      ∙ selected-without i j ids
      ∙ flip_in (selected i ids) (j == i) (same_id i j ids true e)
  | inr e ↦
      ap (selected i) (if_false _ _ _ e)
      ∙ selected-append i j ids
      ∙ flip_out (selected i ids) (j == i) (same_id i j ids false e)
]

flips_same :
    (js : List String) (s t : IdSet)
    → ((i : String) → s i ≡ t i)
    → (i : String) → flips js s i ≡ flips js t i
unfolding flips
flips_same [] s t h = h
flips_same (j ∷ js) s t h =
    flips_same js (flip j s) (flip j t) (λ i k. if j == i then not (h i k) else h i k)

-- Any clicks on a picker leave the list that stands for the set with these ids flipped: the list of ids
-- implements the set, whatever its order and its repetitions.
pub clicks-flips :
    (js ids : List String) (i : String) → set_of (clicks js ids) i ≡ flips js (set_of ids) i
unfolding clicks flips
clicks-flips [] ids i = refl
clicks-flips (j ∷ js) ids i =
    clicks-flips js (toggle j ids) i
    ∙ flips_same js (set_of (toggle j ids)) (flip j (set_of ids)) (λ x. toggle-flip x j ids) i
