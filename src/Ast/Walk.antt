-- ===== src/Ast/Walk.antt =====
-- The loops `while (…) node = node.field` of the sources, and what they have reached when they end.
use zslay.Prelude.{
  Option, Option-cases, arith, inl, inr, none, refl, some, suc, zero, ℕ, ◌<◌, ◌≡◌, ◌≤◌,
}

-- `step` says which node the loop goes on with, `none` that its test fails.
follow : (ℕ → Option ℕ) → ℕ → ℕ → ℕ
follow step zero n = n
follow step (suc fuel) n = elim (step n) [ none ↦ n | some m ↦ follow step fuel m ]

unfoldable pub walk : (ℕ → Option ℕ) → ℕ → ℕ
unfolding follow
walk step n = follow step (suc n) n

-- A loop whose test fails at once stays where it is.
pub walk_stop : (step : ℕ → Option ℕ) (n : ℕ) → step n ≡ none → walk step n ≡ n
unfolding walk follow
walk_stop step n h = rw (h, follow) refl

-- The nodes that the loop passes on its way from one node to another.
pub data Steps (step : ℕ → Option ℕ) : ℕ → ℕ → Type 0 where
  stop : {n : ℕ} → Steps step n n
  more : {n m k : ℕ} → step n ≡ some m → Steps step m k → Steps step n k

module _ (step : ℕ → Option ℕ) (down : (n m : ℕ) → step n ≡ some m → m < n) where
  follow-Steps :
      (fuel n : ℕ)
      → n < fuel
      → Steps step n (follow step fuel n) × (step (follow step fuel n) ≡ none)
  unfolding follow
  follow-Steps zero n h = absurd (omega arith)
  follow-Steps (suc fuel) n h = elim (Option-cases (step n)) [
    | inl e ↦ rw (e, follow) (stop, e)
    | inr (m, e) ↦
        let (steps, ends) = follow-Steps fuel m (omega (arith, down n m e)) in
        rw (e, follow) (more e steps, ends)
  ]

  -- The loop ends, and stops at a node where its test fails.
  pub walk-Steps : (n : ℕ) → Steps step n (walk step n)
  unfolding walk
  walk-Steps n = (follow-Steps (suc n) n (omega arith)).0

  pub walk_ends : (n : ℕ) → step (walk step n) ≡ none
  unfolding walk
  walk_ends n = (follow-Steps (suc n) n (omega arith)).1

  pub Steps-le : {n k : ℕ} → Steps step n k → k ≤ n
  Steps-le stop = omega arith
  Steps-le (more {n} {m} e r) = omega (arith, down n m e, Steps-le r)

  pub walk_le : (n : ℕ) → walk step n ≤ n
  walk_le n = Steps-le (walk-Steps n)

-- A loop has one run, so where it stops is determined.
pub Steps-unique :
    {step : ℕ → Option ℕ} {n a b : ℕ}
    → Steps step n a
    → Steps step n b
    → step a ≡ none
    → step b ≡ none
    → a ≡ b
Steps-unique stop stop p q = refl
Steps-unique stop (more e r) p q = cc
Steps-unique (more e r) stop p q = cc
Steps-unique {step} {b} (more {m} {k} e r) (more {m = m'} e' r') p q =
    Steps-unique r (rw (← (same m m' (cc))) at r') p q
  where
    same : (x y : ℕ) → some x ≡ some y → x ≡ y
    same x y h = cc
