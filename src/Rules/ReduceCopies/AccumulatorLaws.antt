-- ===== src/Rules/ReduceCopies/AccumulatorLaws.antt =====
-- `referencesAccumulator` against the bindings that name the accumulator.
use zslay.Prelude.{
  =#_iff, Bool, Bool-cases, [], any, arith, false, inl, inr, length, refl, some, suc, true, ℕ, ◌=#◌,
  ◌↔◌, ◌≡◌, ◌≢◌,
}
use zslay.Ast.{IsScoped, SourceCode}
use zslay.Shared.ArrayMethod.{first_const_initializer, is_reassignment, resolve_array_binding}
use zslay.Shared.ArrayMethod.FuelLaws.{resolved_bound}
use zslay.Shared.Bindings.{initializer, through, value}
use zslay.Shared.Bindings.ChaseLaws.{
  Leads, at_once, at_variable, chase_Answers, chase_iff, initializer_or-initializer,
  initializer_or-value, onward, variable_or-found, variable_or-through,
}
use zslay.Rules.ReduceCopies.{accumulator_binding, accumulator_lookup, references_accumulator}

module _ (s : SourceCode) (accumulator : ℕ) where
  -- The expression is, inside wrappers, the accumulator or a `const` that was never reassigned and whose
  -- initializer names the accumulator.
  pub data NamesAccumulator : ℕ → Type 0 where
    itself : {n : ℕ} → resolve_array_binding s n ≡ some accumulator → NamesAccumulator n
    alias :
        {n m : ℕ} (v : ℕ)
        → resolve_array_binding s n ≡ some v
        → v ≢ accumulator
        → any is_reassignment (s.variable v).references ≡ false
        → first_const_initializer s (s.variable v).defs ≡ some m
        → NamesAccumulator m
        → NamesAccumulator n

  binding-value : (v : ℕ) → accumulator_binding s accumulator v ≡ value true → v ≡ accumulator
  binding-value v h = elim (Bool-cases (v =# accumulator)) [
    | inl q ↦ (=#_iff v accumulator).0 q
    | inr q ↦ elim (Bool-cases (any is_reassignment (s.variable v).references)) [
      | inl w ↦
          let c : value false ≡ value true = rw w at (rw (q, accumulator_binding) at h) in
          absurd (ground arith)
      | inr w ↦
          let c =
            initializer_or-value false (first_const_initializer s (s.variable v).defs)
              (rw w at (rw (q, accumulator_binding) at h)) in
          absurd (ground arith)
    ]
  ]

  binding-initializer :
      (v m : ℕ)
      → accumulator_binding s accumulator v ≡ initializer m
      → (v ≢ accumulator)
        × (any is_reassignment (s.variable v).references ≡ false)
        × (first_const_initializer s (s.variable v).defs ≡ some m)
  binding-initializer v m h = elim (Bool-cases (v =# accumulator)) [
    | inl q ↦ let c : value true ≡ initializer m = rw (q, accumulator_binding) at h in absurd (cc)
    | inr q ↦ elim (Bool-cases (any is_reassignment (s.variable v).references)) [
      | inl w ↦
          let c : value false ≡ initializer m = rw w at (rw (q, accumulator_binding) at h) in
          absurd (cc)
      | inr w ↦ (
        λ e. let c = (=#_iff v accumulator).1 e in ground arith,
        w,
        initializer_or-initializer false (first_const_initializer s (s.variable v).defs)
            (rw w at (rw (q, accumulator_binding) at h)),
      )
    ]
  ]

  initializer-binding :
      (v m : ℕ)
      → v ≢ accumulator
      → any is_reassignment (s.variable v).references ≡ false
      → first_const_initializer s (s.variable v).defs ≡ some m
      → accumulator_binding s accumulator v ≡ initializer m
  initializer-binding v m d w e = elim (Bool-cases (v =# accumulator)) [
    | inl q ↦ absurd (d ((=#_iff v accumulator).0 q))
    | inr q ↦ rw (q, accumulator_binding) (rw w (rw e refl))
  ]

  Leads-NamesAccumulator :
      {n : ℕ}
      → Leads (accumulator_lookup s) (accumulator_binding s accumulator) [] n true
      → NamesAccumulator n
  Leads-NamesAccumulator {n} (at_once e) =
      absurd (let (_, c) = variable_or-found false (resolve_array_binding s n) e in ground arith)
  Leads-NamesAccumulator {n} (at_variable v e b q) =
      itself (rw (← binding-value v q) (variable_or-through false (resolve_array_binding s n) e))
  Leads-NamesAccumulator {n} (onward {m} v e b q l) =
      let (other, stable, init) = binding-initializer v m q in
      alias v (variable_or-through false (resolve_array_binding s n) e) other stable init
        (Leads-NamesAccumulator l)

  NamesAccumulator-Leads :
      {n : ℕ}
      → NamesAccumulator n
      → Leads (accumulator_lookup s) (accumulator_binding s accumulator) [] n true
  NamesAccumulator-Leads {n} (itself e) =
      at_variable accumulator (rw (e, accumulator_lookup) refl) refl
        (rw ((=#_iff accumulator accumulator).1 refl, accumulator_binding) refl)
  NamesAccumulator-Leads {n} (alias v e other stable init names) =
      onward v (rw (e, accumulator_lookup) refl) refl (initializer-binding v _ other stable init)
        (NamesAccumulator-Leads names)

  -- With the trees of a parser and a scope analysis the search always answers, and it says yes exactly where
  -- the expression is the accumulator, or leads to it through a chain of `const` bindings that are never written
  -- again, wrappers aside; a cycle of bindings does not hide it.
  pub references_accumulator_iff :
      IsScoped s
      → (n : ℕ)
      → ((b : Bool) × (references_accumulator s accumulator n ≡ some b))
        × ((references_accumulator s accumulator n ≡ some true) ↔ NamesAccumulator n)
  unfolding references_accumulator
  references_accumulator_iff scoped n =
      let bound = λ (k v : ℕ) (e : accumulator_lookup s k ≡ through v).
        resolved_bound s scoped k v (variable_or-through false (resolve_array_binding s k) e) in
      let iff =
        chase_iff (accumulator_lookup s) (accumulator_binding s accumulator) false [] s.variables
          bound (suc (length s.variables)) n true (omega arith) (λ e. ground arith) in
      (
        chase_Answers (accumulator_lookup s) (accumulator_binding s accumulator) false []
            s.variables bound (suc (length s.variables)) n (omega arith),
        (λ h. Leads-NamesAccumulator (iff.0 h), λ names. iff.1 (NamesAccumulator-Leads names)),
      )
