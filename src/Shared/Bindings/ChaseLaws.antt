-- ===== src/Shared/Bindings/ChaseLaws.antt =====
-- The search through bindings ends, and its set of visited variables cuts off cycles only.
use zslay.Prelude.{
  =#_iff, Bool-cases, List, Option, ap, arith, contains, false, inl, inr, length, none, refl, some,
  suc, sym, true, unvisited, unvisited-cons_lt, unvisited_le, zero, ℕ, ◌<◌, ◌=#◌, ◌↔◌, ◌∷◌, ◌≡◌,
  ◌≢◌, ◌≤◌, ◌⊎◌, some_eq,
}
use zslay.Shared.Bindings.{
  Binding, Lookup, chase, found, initializer, initializer_or, through, value, variable_or,
}

Lookup-cases : {R : Type 0} (l : Lookup R) → ((r : R) × (l ≡ found r)) ⊎ ((v : ℕ) × (l ≡ through v))
Lookup-cases (found r) = inl (r, refl)
Lookup-cases (through v) = inr (v, refl)

Binding-cases :
    {R : Type 0} (b : Binding R) → ((r : R) × (b ≡ value r)) ⊎ ((m : ℕ) × (b ≡ initializer m))
Binding-cases (value r) = inl (r, refl)
Binding-cases (initializer m) = inr (m, refl)

pub variable_or-through :
    {R : Type 0} (r : R) (o : Option ℕ) {v : ℕ} → variable_or r o ≡ through v → o ≡ some v
variable_or-through r none h = absurd (cc)
variable_or-through r (some w) h = cc

pub variable_or-found :
    {R : Type 0} (r : R) (o : Option ℕ) {a : R} → variable_or r o ≡ found a → (o ≡ none) × (a ≡ r)
variable_or-found r none h = (refl, cc)
variable_or-found r (some w) h = absurd (cc)

pub initializer_or-initializer :
    {R : Type 0} (r : R) (o : Option ℕ) {m : ℕ} → initializer_or r o ≡ initializer m → o ≡ some m
initializer_or-initializer r none h = absurd (cc)
initializer_or-initializer r (some w) h = cc

pub initializer_or-value :
    {R : Type 0} (r : R) (o : Option ℕ) {a : R}
    → initializer_or r o ≡ value a
    → (o ≡ none) × (a ≡ r)
initializer_or-value r none h = (refl, cc)
initializer_or-value r (some w) h = absurd (cc)

contains-tail : (v : ℕ) (vs : List ℕ) (w : ℕ) → contains (v ∷ vs) w ≡ false → contains vs w ≡ false
contains-tail v vs w h = ground arith

contains-cons :
    (v : ℕ) (vs : List ℕ) (w : ℕ)
    → (v =# w) ≡ false
    → contains (v ∷ vs) w ≡ true
    → contains vs w ≡ true
contains-cons v vs w q h = ground arith

module _ {R : Type 0} (look : ℕ → Lookup R) (bind : ℕ → Binding R) where
  -- From an expression to an answer, through variables outside the list and their initializers.
  pub data Leads (barred : List ℕ) : ℕ → R → Type 0 where
    at_once : {n : ℕ} {r : R} → look n ≡ found r → Leads barred n r
    at_variable :
        {n : ℕ} {r : R} (v : ℕ)
        → look n ≡ through v
        → contains barred v ≡ false
        → bind v ≡ value r
        → Leads barred n r
    onward :
        {n m : ℕ} {r : R} (v : ℕ)
        → look n ≡ through v
        → contains barred v ≡ false
        → bind v ≡ initializer m
        → Leads barred m r
        → Leads barred n r

  -- The same, with the number of initializers on the way.
  pub data Run (barred : List ℕ) : ℕ → ℕ → R → Type 0 where
    stop : {n : ℕ} {r : R} → look n ≡ found r → Run barred 0 n r
    halt :
        {n : ℕ} {r : R} (v : ℕ)
        → look n ≡ through v
        → contains barred v ≡ false
        → bind v ≡ value r
        → Run barred 0 n r
    next :
        {k n m : ℕ} {r : R} (v : ℕ)
        → look n ≡ through v
        → contains barred v ≡ false
        → bind v ≡ initializer m
        → Run barred k m r
        → Run barred (suc k) n r

  Leads-Run : {barred : List ℕ} {n : ℕ} {r : R} → Leads barred n r → (k : ℕ) × Run barred k n r
  Leads-Run (at_once e) = (0, stop e)
  Leads-Run (at_variable v e b q) = (0, halt v e b q)
  Leads-Run (onward v e b q l) = let (k, run) = Leads-Run l in (suc k, next v e b q run)

  Run-length_unique :
      {barred : List ℕ} {k j n : ℕ} {r q : R} → Run barred k n r → Run barred j n q → k ≡ j
  Run-length_unique (stop e) (stop e') = refl
  Run-length_unique (stop e) (halt v e' b q) = refl
  Run-length_unique (stop e) (next v e' b q run) = absurd (cc)
  Run-length_unique (halt v e b q) (stop e') = refl
  Run-length_unique (halt v e b q) (halt v' e' b' q') = refl
  Run-length_unique (halt v e b q) (next v' e' b' q' run) = absurd (let same : v ≡ v' = cc in cc)
  Run-length_unique (next v e b q run) (stop e') = absurd (cc)
  Run-length_unique (next v e b q run) (halt v' e' b' q') = absurd (let same : v ≡ v' = cc in cc)
  Run-length_unique {barred} (next {m} {r} v e b q run) (next {m = m'} {r = r'} v' e' b' q' run') =
      let same : v ≡ v' = cc in
      let to : m ≡ m' = cc in ap suc (Run-length_unique run (rw (← to) at run'))

  module _ (cut_off : R) (barred : List ℕ) where
    chase_sound :
        (fuel : ℕ) (visited : List ℕ) (n : ℕ) (r : R)
        → r ≢ cut_off
        → ((v : ℕ) → contains visited v ≡ false → contains barred v ≡ false)
        → chase look bind cut_off fuel visited n ≡ some r
        → Leads barred n r
    unfolding chase
    chase_sound zero visited n r d low h = absurd (ground arith)
    chase_sound (suc fuel) visited n r d low h = elim (Lookup-cases (look n)) [
      | inl (a, e) ↦ let same : a ≡ r = some_eq (rw (e, chase) at h) in at_once (rw same at e)
      | inr (v, e) ↦ elim (Bool-cases (contains visited v)) [
        | inl c ↦ absurd (d (sym (some_eq (rw c at (rw (e, chase) at h)))))
        | inr c ↦ elim (Binding-cases (bind v)) [
          | inl (a, q) ↦
              let same : a ≡ r = some_eq (rw q at (rw c at (rw (e, chase) at h))) in
              at_variable v e (low v c) (rw same at q)
          | inr (m, q) ↦ onward v e (low v c) q (
              chase_sound fuel (v ∷ visited) m r d (λ w k. low w (contains-tail v visited w k))
                (rw q at (rw c at (rw (e, chase) at h))))
        ]
      ]
    ]

    -- A visited variable is barred, or what follows it is at least as long.
    abbrev Later : ℕ → ℕ → Type 0
    Later k v =
        (contains barred v ≡ true)
        ⊎ ((i j : ℕ) × (q : R) × (bind v ≡ initializer i) × Run barred j i q × (k ≤ j))

    Later-shorter : (k v : ℕ) → Later (suc k) v → Later k v
    Later-shorter k v (inl b) = inl b
    Later-shorter k v (inr (i, j, q, e, run, h)) = inr (i, j, q, e, run, omega arith)

    Later-passed :
        (k v w m : ℕ) (r : R) (visited : List ℕ)
        → bind v ≡ initializer m
        → Run barred k m r
        → ((u : ℕ) → contains visited u ≡ true → Later (suc k) u)
        → contains (v ∷ visited) w ≡ true
        → Later k w
    Later-passed k v w m r visited e run later h = elim (Bool-cases (v =# w)) [
      | inl q ↦ let same = (=#_iff v w).0 q in inr (m, k, r, rw (← same) e, run, omega arith)
      | inr q ↦ Later-shorter k w (later w (contains-cons v visited w q h))
    ]

    chase_complete :
        (fuel k n : ℕ) (visited : List ℕ) (r a : R)
        → Run barred k n r
        → ((v : ℕ) → contains visited v ≡ true → Later k v)
        → chase look bind cut_off fuel visited n ≡ some a
        → a ≡ r
    unfolding chase
    chase_complete zero k n visited r a run later h = absurd (ground arith)
    chase_complete (suc fuel) k n visited r a (stop e) later h = sym (some_eq (rw (e, chase) at h))
    chase_complete (suc fuel) k n visited r a (halt v e b q) later h =
        elim (Bool-cases (contains visited v)) [
          | inl c ↦ elim (later v c) [
            | inl barred_v ↦ absurd (ground arith)
            | inr (i, j, q', e', run, l) ↦ absurd (cc)
          ]
          | inr c ↦ sym (some_eq (rw q at (rw c at (rw (e, chase) at h))))
        ]
    chase_complete (suc fuel) (suc k) n visited r a (next {m} v e b q run) later h =
        elim (Bool-cases (contains visited v)) [
          | inl c ↦ elim (later v c) [
            | inl barred_v ↦ absurd (ground arith)
            | inr (i, j, q', e', run', l) ↦
                let to : i ≡ m = cc in
                let same = Run-length_unique run (rw to at run') in absurd (omega arith)
          ]
          | inr c ↦
              chase_complete fuel k m (v ∷ visited) r a run
                (λ w. Later-passed k v w m r visited q run later)
                (rw q at (rw c at (rw (e, chase) at h)))
        ]

    module _ (variables : List ℕ)
        (bound : (n v : ℕ) → look n ≡ through v → contains variables v ≡ true) where
      chase_ends :
          (fuel : ℕ) (visited : List ℕ) (n : ℕ)
          → unvisited visited variables < fuel
          → (r : R) × (chase look bind cut_off fuel visited n ≡ some r)
      unfolding chase
      chase_ends zero visited n h = absurd (omega arith)
      chase_ends (suc fuel) visited n h = elim (Lookup-cases (look n)) [
        | inl (a, e) ↦ (a, rw (e, chase) refl)
        | inr (v, e) ↦ elim (Bool-cases (contains visited v)) [
          | inl c ↦ (cut_off, rw (e, chase) (rw c refl))
          | inr c ↦ elim (Binding-cases (bind v)) [
            | inl (a, q) ↦ (a, rw (e, chase) (rw c (rw q refl)))
            | inr (m, q) ↦
                let fewer = unvisited-cons_lt v visited variables c (bound n v e) in
                let (a, r) = chase_ends fuel (v ∷ visited) m (omega (arith, fewer)) in
                (a, rw (e, chase) (rw c (rw q r)))
          ]
        ]
      ]

      -- With fuel for every variable the search ends.
      pub chase_Answers :
          (fuel n : ℕ)
          → length variables < fuel
          → (r : R) × (chase look bind cut_off fuel barred n ≡ some r)
      chase_Answers fuel n h =
          chase_ends fuel barred n (omega (arith, unvisited_le barred variables))

      -- An answer other than the one at a cycle is one to which the bindings lead.
      pub chase_iff :
          (fuel n : ℕ) (r : R)
          → length variables < fuel
          → r ≢ cut_off
          → (chase look bind cut_off fuel barred n ≡ some r) ↔ Leads barred n r
      chase_iff fuel n r h d = (
        chase_sound fuel barred n r d (λ v k. k),
        λ l.
            let (k, run) = Leads-Run l in
            let (a, e) = chase_Answers fuel n h in
            let same = chase_complete fuel k n barred r a run (λ v b. inl b) e in rw same at e,
      )
