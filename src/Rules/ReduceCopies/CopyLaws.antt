-- ===== src/Rules/ReduceCopies/CopyLaws.antt =====
-- What rules/no-reduce-accumulator-copy.ts reports.
use zslay.Prelude.{
  >>=-eq-some, Bool, Option, Option-cases, [], arith, false, inl, inr, refl, some, subst, sym, true,
  ℕ, ◌↔◌, ◌∙◌, ◌≡◌, some_eq, none_or_some, ◌⊎◌,
}
use zslay.Ast.{Call, IsScoped, SourceCode, as_call, report}
use zslay.Shared.ArrayMethod.{Target, array_method_target}
use zslay.Rules.ReduceCopies.{
  Reducer, accumulator_variable, call_in_reducer, copies_accumulator, copies_in, enclosing_reducer,
  no_reduce_accumulator_copy,
}
use zslay.Rules.ReduceCopies.ReducerLaws.{ReducerAround, enclosing_reducer_iff}
use zslay.Rules.ReduceCopies.WayLaws.{CopiesAccumulator, copies_accumulator-Decides}

yes_or_no : some true ≡ some false → ⊥
yes_or_no h = ground arith

module _ (s : SourceCode) where
  -- The node is a call inside a reducer that copies the reducer's accumulator.
  abbrev pub CopiesIn : ℕ → Type 0
  CopiesIn n =
      (call : Call) × (method : Target) × (reducer : Reducer) × (accumulator : ℕ) × (as_call
          (s.node n)
        ≡ some call)
      × (array_method_target s call.callee ≡ some method)
      × ReducerAround s (s.ancestors n) reducer
      × (accumulator_variable s reducer ≡ some accumulator)
      × CopiesAccumulator s accumulator reducer.initial_value method call.arguments

  call_in_reducer_sound :
      (n : ℕ) (call : Call) (method : Target) (reducer : Reducer) (accumulator : ℕ)
      → ◌≡◌ {A = Option (Call × Target × Reducer × ℕ)}
          (call_in_reducer s n)
          (some (call, method, reducer, accumulator))
      → CopiesAccumulator s accumulator reducer.initial_value method call.arguments
      → CopiesIn n
  unfolding call_in_reducer
  call_in_reducer_sound n call method reducer accumulator h k =
      let (c, e, q) = >>=-eq-some (as_call (s.node n)) _ h in
      let (m, e', q') = >>=-eq-some (array_method_target s c.callee) _ q in
      let (r, e'', q'') = >>=-eq-some (enclosing_reducer s n) _ q' in
      let (a, e3, q3) = >>=-eq-some (accumulator_variable s r) _ q'' in
      (
        c,
        m,
        r,
        a,
        e,
        e',
        (enclosing_reducer_iff s n r).0 e'',
        e3,
        subst (λ (c, m, d, a). CopiesAccumulator s a d.initial_value m c.arguments)
            (sym (some_eq q3)) k,
      )

  call_in_reducer_complete :
      (n : ℕ) (call : Call) (method : Target) (reducer : Reducer) (accumulator : ℕ)
      → as_call (s.node n) ≡ some call
      → array_method_target s call.callee ≡ some method
      → ReducerAround s (s.ancestors n) reducer
      → accumulator_variable s reducer ≡ some accumulator
      → ◌≡◌ {A = Option (Call × Target × Reducer × ℕ)}
          (call_in_reducer s n)
          (some (call, method, reducer, accumulator))
  unfolding call_in_reducer
  call_in_reducer_complete n call method reducer accumulator c m r a =
      rw (c, call_in_reducer) (rw m (rw ((enclosing_reducer_iff s n reducer).1 r) (rw a refl)))

  -- With the trees of a parser and a scope analysis the rule always answers. Where the node calls a method
  -- inside a reducer and copies the accumulator, the answer is one report of the node, and elsewhere it is no report.
  -- A copy is `Object.assign` of an object literal and of the accumulator among the sources, `Array.from`
  -- of it, or a copying array method on it where the reducer's initial value is known to be an array.
  pub no_reduce_accumulator_copy_iff :
      IsScoped s
      → (n : ℕ)
      → ((no_reduce_accumulator_copy s n ≡ some (report n "accumulatorCopy")) × CopiesIn n)
        ⊎ ((no_reduce_accumulator_copy s n ≡ some []) × ¬ CopiesIn n)
  unfolding no_reduce_accumulator_copy copies_in
  no_reduce_accumulator_copy_iff scoped n = elim (Option-cases (call_in_reducer s n)) [
    | inl e ↦ inr (
      rw e refl,
      λ (c, m, d, a, q, q', r, v, _).
          none_or_some (sym e ∙ call_in_reducer_complete n c m d a q q' r v),
    )
    | inr ((call, method, reducer, accumulator), e) ↦
        let ((b, q), i) =
          copies_accumulator-Decides s scoped accumulator reducer method call.arguments in
        go call method reducer accumulator b e q i
  ]
    where
      go :
          (call : Call) (method : Target) (reducer : Reducer) (accumulator : ℕ) (b : Bool)
          → call_in_reducer s n ≡ some (call, method, reducer, accumulator)
          → copies_accumulator s accumulator reducer method call.arguments ≡ some b
          → (copies_accumulator s accumulator reducer method call.arguments ≡ some true)
            ↔ CopiesAccumulator s accumulator reducer.initial_value method call.arguments
          → ((no_reduce_accumulator_copy s n ≡ some (report n "accumulatorCopy")) × CopiesIn n)
            ⊎ ((no_reduce_accumulator_copy s n ≡ some []) × ¬ CopiesIn n)
      go call method reducer accumulator true e q i =
          inl (rw e (rw q refl), call_in_reducer_sound n call method reducer accumulator e (i.0 q))
      go call method reducer accumulator false e q i = inr (
        rw e (rw q refl),
        λ (c, m, d, a, q', t, r, v, k). yes_or_no (
            sym (i.1 (moved (some_eq (sym e ∙ call_in_reducer_complete n c m d a q' t r v)) k))
            ∙ q),
      )
        where
          moved :
              {c : Call} {m : Target} {d : Reducer} {a : ℕ}
              → ◌≡◌ {A = Call × Target × Reducer × ℕ}
                  (call, method, reducer, accumulator)
                  (c, m, d, a)
              → CopiesAccumulator s a d.initial_value m c.arguments
              → CopiesAccumulator s accumulator reducer.initial_value method call.arguments
          moved same k =
              subst (λ (c, m, d, a). CopiesAccumulator s a d.initial_value m c.arguments) (sym same)
                k
