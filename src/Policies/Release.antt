-- ===== src/Policies/Release.antt =====
-- The simulator of app/dashboard/policies/page.tsx: when it finds a policy unlocked.
use secure_vault.Policies.{
  Policy, simulate, simulate_immediate, simulate_cooling, simulate_approvals, simulate_date,
  target_date, is_past, immediate_on_trigger, after_cooling_period, multi_approval, date_locked,
  ConditionType, not, SimResult, is_empty,
}
use secure_vault.Prelude.Integers.{ℤ, pos, ltz, truthy_or, nonzero_or, not_below_trans}
use secure_vault.Prelude.Decimal.{parse_int}
use secure_vault.Prelude.{
  ℕ, String, Bool, true, false, Option, none, some, ◌≡◌, refl, arith, if◌then◌else◌, ◌≤◌, ◌&&◌, ◌∙◌,
  Bool-cases, sym, inl, inr,
}

-- What the simulator is told: the time, whether the switch has triggered, how many days ago, and how many
-- approvals there are.
pub record Circumstances : Type 0 where
  pub now : ℕ
  pub triggered : Bool
  pub days : String
  pub count : ℕ

-- The days that the field gives.
abbrev pub elapsed : Circumstances → ℤ
elapsed c = truthy_or (pos 0) (parse_int c.days)

-- `c` has come at least as far as `b`.
pub record NoEarlier (b c : Circumstances) : Type 0 where
  pub later : b.now ≤ c.now
  pub still_triggered : b.triggered ≡ true → c.triggered ≡ true
  pub more_days : ltz (elapsed c) (elapsed b) ≡ false
  pub more_approvals : b.count ≤ c.count

-- A verdict that a test chooses is the test's.
unlocked_branch :
    (b : Bool) (x y : SimResult)
    → x.is_unlocked ≡ true
    → y.is_unlocked ≡ false
    → (if b then x else y).is_unlocked ≡ b
unlocked_branch true x y h k = h
unlocked_branch false x y h k = k

locked_branch :
    (b : Bool) (x y : SimResult)
    → x.is_unlocked ≡ false
    → y.is_unlocked ≡ true
    → (if b then x else y).is_unlocked ≡ not b
locked_branch true x y h k = h
locked_branch false x y h k = k

two_branches :
    (t b : Bool) (x y z : SimResult)
    → x.is_unlocked ≡ false
    → y.is_unlocked ≡ false
    → z.is_unlocked ≡ true
    → (if not t then x else if b then y else z).is_unlocked ≡ (t && not b)
two_branches false b x y z h k l = h
two_branches true b x y z h k l = locked_branch b y z k l

simulate_immediate-unlocked :
    (triggered : Bool) → (simulate_immediate triggered).is_unlocked ≡ triggered
unfolding simulate_immediate
simulate_immediate-unlocked triggered = unlocked_branch triggered _ _ refl refl

-- The days that a policy's cooling period lasts.
abbrev buffer : Policy → ℤ
buffer p = nonzero_or (pos 14) p.cooling_period_days

simulate_cooling-unlocked :
    (p : Policy) (c : Circumstances)
    → (simulate_cooling p c.triggered c.days).is_unlocked
      ≡ (c.triggered && not (ltz (elapsed c) (buffer p)))
unfolding simulate_cooling
simulate_cooling-unlocked p c =
    two_branches c.triggered (ltz (elapsed c) (buffer p)) _ _ _ refl refl refl

-- The approvals that a policy needs.
abbrev needed : Policy → ℤ
needed p = nonzero_or (pos 2) p.required_approvals_count

simulate_approvals-unlocked :
    (p : Policy) (n : ℕ) → (simulate_approvals p n).is_unlocked ≡ not (ltz (pos n) (needed p))
unfolding simulate_approvals
simulate_approvals-unlocked p n = locked_branch (ltz (pos n) (needed p)) _ _ refl refl

-- A test that passes at `b` passes at `c`.
abbrev Keeps : Bool → Bool → Type 0
Keeps b c = b ≡ true → c ≡ true

cooling-Keeps :
    (s t x y : Bool) → Keeps s t → (x ≡ false → y ≡ false) → Keeps (s && not x) (t && not y)
cooling-Keeps false t x y h k e = cc
cooling-Keeps true t true y h k e = cc
cooling-Keeps true t false y h k e = rw (h refl, k refl) refl

not-Keeps : (x y : Bool) → (x ≡ false → y ≡ false) → Keeps (not x) (not y)
not-Keeps true y h e = cc
not-Keeps false y h e = rw (h refl) refl

module _ (time_of : String → Option ℕ) (to_locale_date : Option ℕ → String) where
  abbrev pub unlocked_in : Circumstances → Policy → Bool
  unlocked_in c p = (simulate time_of to_locale_date c.now c.triggered c.days c.count p).is_unlocked

  simulate_date-unlocked :
      (p : Policy) (now : ℕ)
      → (simulate_date time_of to_locale_date p now).is_unlocked
        ≡ is_past now (target_date time_of to_locale_date now p.unlock_date)
  unfolding simulate_date
  simulate_date-unlocked p now =
      unlocked_branch (is_past now (target_date time_of to_locale_date now p.unlock_date)) _ _ refl
        refl

  is_past-Keeps : (m n : ℕ) (time : Option ℕ) → m ≤ n → Keeps (is_past m time) (is_past n time)
  is_past-Keeps m n none h e = e
  is_past-Keeps m n (some time) h e = ground arith

  date-Keeps :
      (m n : ℕ) (date : Option String)
      → m ≤ n
      → Keeps
          (is_past m (target_date time_of to_locale_date m date))
          (is_past n (target_date time_of to_locale_date n date))
  date-Keeps m n none h = λ e. ground arith
  date-Keeps m n (some date) h = elim (Bool-cases (is_empty date)) [
    | inl x ↦ λ e. rw x (ground arith)
    | inr x ↦ rw x (is_past-Keeps m n (time_of date) h)
  ]

  carried_along : {x y x' y' : Bool} → x ≡ x' → y ≡ y' → Keeps x' y' → Keeps x y
  carried_along p q h e = q ∙ h (sym p ∙ e)

  stays_unlocked :
      (b c : Circumstances) (p : Policy) (t : ConditionType)
      → NoEarlier b c
      → p.condition_type ≡ t
      → Keeps (unlocked_in b p) (unlocked_in c p)
  unfolding simulate
  stays_unlocked b c p immediate_on_trigger h e = rw e (
      carried_along (simulate_immediate-unlocked b.triggered)
        (simulate_immediate-unlocked c.triggered) h.still_triggered)
  stays_unlocked b c p after_cooling_period h e = rw e (
      carried_along (simulate_cooling-unlocked p b) (simulate_cooling-unlocked p c) (
        cooling-Keeps b.triggered c.triggered _ _ h.still_triggered
          (λ k. not_below_trans (buffer p) (elapsed b) (elapsed c) k h.more_days)))
  stays_unlocked b c p multi_approval h e = rw e (
      carried_along (simulate_approvals-unlocked p b.count) (simulate_approvals-unlocked p c.count)
        (not-Keeps _ _
          (λ k. not_below_trans (needed p) (pos b.count) (pos c.count) k (ground arith))))
  stays_unlocked b c p date_locked h e = rw e (
      carried_along (simulate_date-unlocked p b.now) (simulate_date-unlocked p c.now)
        (date-Keeps b.now c.now p.unlock_date h.later))

  -- A policy that the simulator finds unlocked is not locked again by more days since the trigger, by more
  -- approvals or by a later time.
  pub simulate-stays_unlocked :
      (b c : Circumstances) (p : Policy)
      → NoEarlier b c
      → unlocked_in b p ≡ true
      → unlocked_in c p ≡ true
  simulate-stays_unlocked b c p h = stays_unlocked b c p p.condition_type h refl
