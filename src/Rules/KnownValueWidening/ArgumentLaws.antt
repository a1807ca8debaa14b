-- ===== src/Rules/KnownValueWidening/ArgumentLaws.antt =====
-- `hasKnownCallArgumentEvidence` against the expressions whose type is informative.
use zslay.Prelude.{
  >>=-eq-some, Bool, Option, Option-cases, [], arith, contains, false, inl, inr, length, none, refl,
  some, suc, sym, true, ℕ, ◌<◌, ◌↔◌, ◌∙◌, ◌≡◌, ◌≢◌,
}
use zslay.Ast.{
  Annotation, FunctionParts, IsScoped, IsTree, Node, SourceCode, Steps-unique, call_expression,
  identifier, ts_as_expression, ts_type_assertion, walk, walk-Steps, walk_ends,
}
use zslay.Shared.DictionaryTypes.{TypeEnvironment}
use zslay.Shared.Bindings.{chase, found, initializer, through, value}
use zslay.Shared.Bindings.ChaseLaws.{
  Leads, at_once, at_variable, chase_Answers, chase_iff, initializer_or-initializer,
  initializer_or-value, onward, variable_or-found,
}
use zslay.Rules.KnownValueWidening.{
  local_function_for_call, named_variable, stable_initializer, variable_type_annotation,
}
use zslay.Rules.KnownValueWidening.CallArguments.{
  argument_binding, argument_found, argument_lookup, has_informative_type,
  has_known_call_argument_evidence, informative_return,
}
use zslay.Rules.KnownValueWidening.ConstLaws.{StableConst, stable_initializer_iff}
use zslay.Rules.KnownValueWidening.EvidenceLaws.{named_bound}
use zslay.Rules.KnownValueWidening.KnownHereLaws.{
  ArgumentInside, Informative, KnownArgument, annotated, argument_step, argument_wrapped_below,
  constant, found_complete, found_eq, found_sound, here, through_complete, through_sound, value_eq,
}

module _ (s : SourceCode) (environment : TypeEnvironment) (fuel : ℕ) where
  binding-value :
      (v : ℕ)
      → argument_binding s environment fuel v ≡ value (some true)
      → (a : Annotation) × (variable_type_annotation s v ≡ some a)
        × Informative s environment fuel a.type_annotation
  binding-value v h = elim (Option-cases (variable_type_annotation s v)) [
    | inr (a, e) ↦ (a, e, value_eq (rw (e, argument_binding) at h))
    | inl e ↦
        let (_, c) =
          initializer_or-value (some false) (stable_initializer s v)
            (rw (e, argument_binding) at h) in
        absurd (ground arith)
  ]

  binding-initializer :
      (v m : ℕ)
      → argument_binding s environment fuel v ≡ initializer m
      → (variable_type_annotation s v ≡ none) × StableConst s v m
  binding-initializer v m h = elim (Option-cases (variable_type_annotation s v)) [
    | inr (a, e) ↦
        let c : value (has_informative_type s environment fuel a.type_annotation) ≡ initializer m =
          rw (e, argument_binding) at h in
        absurd (cc)
    | inl e ↦ (
      e,
      (stable_initializer_iff s v m).0 (
          initializer_or-initializer (some false) (stable_initializer s v)
            (rw (e, argument_binding) at h)),
    )
  ]

  module _ (tree : IsTree s) where
    down : (n m : ℕ) → argument_step s environment fuel n ≡ some m → m < n
    down n m h = argument_wrapped_below (s.node n) n m (tree.below n) h

    place : ℕ → ℕ
    place n = walk (argument_step s environment fuel) n

    place-ArgumentInside : (n : ℕ) → ArgumentInside s environment fuel n (place n)
    unfolding place
    place-ArgumentInside n = (
      walk-Steps (argument_step s environment fuel) down n,
      walk_ends (argument_step s environment fuel) down n,
    )

    place_complete : (n k : ℕ) → ArgumentInside s environment fuel n k → place n ≡ k
    unfolding place
    place_complete n k (r, q) =
        Steps-unique (walk-Steps (argument_step s environment fuel) down n) r
          (walk_ends (argument_step s environment fuel) down n) q

    -- the call on an expression, at the place inside its wrappers
    lookup_at :
        (n k : ℕ)
        → ArgumentInside s environment fuel n k
        → argument_lookup s environment fuel n ≡ argument_found s environment fuel k (s.node k)
    unfolding place
    lookup_at n k i = rw (← place_complete n k i) refl

    Leads-KnownArgument :
        {n : ℕ}
        → Leads
            (argument_lookup s environment fuel)
            (argument_binding s environment fuel)
            []
            n
            (some true)
        → KnownArgument s environment fuel n
    Leads-KnownArgument {n} (at_once e) = here (place-ArgumentInside n) (
        found_sound s environment fuel (place n) (s.node (place n)) refl
          (sym (lookup_at n (place n) (place-ArgumentInside n)) ∙ e))
    Leads-KnownArgument {n} (at_variable v e b q) =
        let (a, f, i) = binding-value v q in
        annotated v a (place-ArgumentInside n)
          (through_sound s environment fuel (place n) v (s.node (place n))
            (sym (lookup_at n (place n) (place-ArgumentInside n)) ∙ e))
          f i
    Leads-KnownArgument {n} (onward {m} v e b q l) =
        let (f, stable) = binding-initializer v m q in
        constant v (place-ArgumentInside n)
          (through_sound s environment fuel (place n) v (s.node (place n))
            (sym (lookup_at n (place n) (place-ArgumentInside n)) ∙ e))
          f stable (Leads-KnownArgument l)

    KnownArgument-Leads :
        {n : ℕ}
        → KnownArgument s environment fuel n
        → Leads
            (argument_lookup s environment fuel)
            (argument_binding s environment fuel)
            []
            n
            (some true)
    KnownArgument-Leads {n} (here {k} i known) =
        at_once (lookup_at n k i ∙ found_complete s environment fuel k (s.node k) refl known)
    KnownArgument-Leads {n} (annotated {k} v a i named f informative) =
        at_variable v (lookup_at n k i ∙ through_complete s environment fuel k v named) refl
          (rw (f, argument_binding) (rw informative refl))
    KnownArgument-Leads {n} (constant {k} {m} v i named f stable known) =
        onward v (lookup_at n k i ∙ through_complete s environment fuel k v named) refl
          (rw (f, argument_binding) (rw ((stable_initializer_iff s v m).1 stable) refl))
          (KnownArgument-Leads known)

    bound :
        IsScoped s
        → (k v : ℕ) → argument_lookup s environment fuel k ≡ through v
        → contains s.variables v ≡ true
    bound scoped k v e = named_bound s scoped (place k) v (
        through_sound s environment fuel (place k) v (s.node (place k))
          (sym (lookup_at k (place k) (place-ArgumentInside k)) ∙ e))

  module _
      (answers : (t : ℕ) → (b : Bool) × (has_informative_type s environment fuel t ≡ some b)) where
    informative_return-answers :
        (o : Option (ℕ × FunctionParts)) → informative_return s environment fuel o ≢ none
    informative_return-answers none h = ground arith
    informative_return-answers (some (i, f)) h = elim (Option-cases f.return_type) [
      | inl e ↦ absurd (let c : some false ≡ none = rw e at h in ground arith)
      | inr (a, e) ↦
          let (b, q) = answers a.type_annotation in
          absurd (let c : some b ≡ none = sym q ∙ (rw e at h) in ground arith)
    ]

    found-answers : (k : ℕ) (v : Node) → argument_found s environment fuel k v ≢ found none
    found-answers k (ts_as_expression e t) h =
        let (b, q) = answers t in
        absurd (let c : some b ≡ none = sym q ∙ found_eq h in ground arith)
    found-answers k (ts_type_assertion e t) h =
        let (b, q) = answers t in
        absurd (let c : some b ≡ none = sym q ∙ found_eq h in ground arith)
    found-answers k (call_expression callee arguments) h =
        informative_return-answers (local_function_for_call s callee) (found_eq h)
    found-answers k (identifier _ _) h =
        let (_, c) = variable_or-found (some false) (named_variable s k) h in absurd (ground arith)
    found-answers k _ h = let c = found_eq h in absurd (ground arith)

    binding-answers : (v : ℕ) → argument_binding s environment fuel v ≢ value none
    binding-answers v h = elim (Option-cases (variable_type_annotation s v)) [
      | inr (a, e) ↦
          let (b, q) = answers a.type_annotation in
          absurd (
            let c : some b ≡ none = sym q ∙ value_eq (rw (e, argument_binding) at h) in
            ground arith)
      | inl e ↦
          let (_, c) =
            initializer_or-value (some false) (stable_initializer s v)
              (rw (e, argument_binding) at h) in
          absurd (ground arith)
    ]

    Leads-answers :
        {n : ℕ} {o : Option Bool}
        → Leads (argument_lookup s environment fuel) (argument_binding s environment fuel) [] n o
        → o ≢ none
    Leads-answers {n} (at_once e) q =
        found-answers (walk (argument_step s environment fuel) n) _ (rw q at e)
    Leads-answers (at_variable v e b r) q = binding-answers v (rw q at r)
    Leads-answers (onward v e b r l) q = Leads-answers l q

    -- With the trees of a parser and a scope analysis, and where the classification of every type as an unsafe
    -- value ends, the search always answers, and it says yes exactly where the argument's type is informative: by an
    -- assertion, by the return type of the local function that it calls, by an expression that is evidence, by the
    -- annotation of the variable that it names, or by the initializer of a constant without annotation.
    pub has_known_call_argument_evidence_iff :
        IsScoped s
        → (n : ℕ)
        → ((b : Bool) × (has_known_call_argument_evidence s environment fuel n ≡ some b))
          × ((has_known_call_argument_evidence s environment fuel n ≡ some true)
              ↔ KnownArgument s environment fuel n)
    unfolding has_known_call_argument_evidence
    has_known_call_argument_evidence_iff scoped n =
        let (o, e) =
          chase_Answers (argument_lookup s environment fuel) (argument_binding s environment fuel)
            (some false) [] s.variables (bound scoped.tree scoped) (suc (length s.variables)) n
            (omega arith) in
        let iff = λ (r : Option Bool) (d : r ≢ some false).
          chase_iff (argument_lookup s environment fuel) (argument_binding s environment fuel)
            (some false) [] s.variables (bound scoped.tree scoped) (suc (length s.variables)) n r
            (omega arith) d in
        (
          go o e (λ q. Leads-answers ((iff none (λ h. ground arith)).0 (rw q at e)) refl),
          (
            λ h. Leads-KnownArgument scoped.tree (
                (iff (some true) (λ c. ground arith)).0 (
                  let (a, p, q) =
                    >>=-eq-some
                      (chase (argument_lookup s environment fuel)
                        (argument_binding s environment fuel) (some false)
                        (suc (length s.variables)) [] n)
                      (λ answer. answer) h in
                  rw q at p)),
            λ known.
                rw ((iff (some true) (λ c. ground arith)).1 (KnownArgument-Leads scoped.tree known))
                  refl,
          ),
        )
      where
        go :
            (o : Option Bool)
            → chase
                (argument_lookup s environment fuel)
                (argument_binding s environment fuel)
                (some false)
                (suc (length s.variables))
                []
                n
              ≡ some o
            → o ≢ none
            → (b : Bool) × (has_known_call_argument_evidence s environment fuel n ≡ some b)
        go none e d = absurd (d refl)
        go (some b) e d = (b, rw e refl)
