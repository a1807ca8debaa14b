-- ===== src/Rules/WidenThenAssert/LookupLaws.antt =====
-- What one step of `knownValueEvidence` in rules/no-widen-then-assert.ts finds.
use zslay.Prelude.{
  Bool-cases, List, Option, Option-cases, String, arith, false, inl, inr, none, refl, some, subst,
  sym, true, ℕ, ◌≡◌, some_eq, none_or_some,
}
use zslay.Ast.{
  Annotation, Assertion, Node, Reference, SourceCode, as_assertion, identifier, ts_as_expression,
  ts_type_assertion,
}
use zslay.Shared.Bindings.{found, initializer, through, value}
use zslay.Shared.Bindings.ChaseLaws.{
  initializer_or-initializer, initializer_or-value, variable_or-found, variable_or-through,
}
use zslay.Rules.WidenThenAssert.{broad_type_kind}
use zslay.Rules.WidenThenAssert.Flows.{
  KnownValueEvidence, annotated_identifier, const_declarator, function_boundary, is_known_value,
  known_value, local_initializer, resolved_variable_for_identifier, same_node, typed_evidence,
  value_binding, value_found,
}
use zslay.Rules.WidenThenAssert.KnownLaws.{
  InParentheses, KnownValue, Names, asserted, built, found_eq, same_node_iff, typed_evidence-some,
  value_eq,
}

module _ (s : SourceCode) (scopes : List (List Reference)) (boundary : Option ℕ) (start : ℕ) where
  -- an answer at an expression that is not in parentheses
  pub found_sound :
      (n k : ℕ) (v : Node) (e : KnownValueEvidence)
      → InParentheses s n k
      → s.node k ≡ v
      → value_found s scopes boundary k v ≡ found (some e)
      → KnownValue s scopes boundary start n e
  found_sound n k (ts_as_expression x t) e inside p h =
      let (b, q) = typed_evidence-some s t e (found_eq h) in
      subst (KnownValue s scopes boundary start n) q
        (asserted (record { expression = x; type_annotation = t }) inside (rw p refl) b)
  found_sound n k (ts_type_assertion x t) e inside p h =
      let (b, q) = typed_evidence-some s t e (found_eq h) in
      subst (KnownValue s scopes boundary start n) q
        (asserted (record { expression = x; type_annotation = t }) inside (rw p refl) b)
  found_sound n k (identifier x t) e inside p h =
      let (_, c) = variable_or-found none (resolved_variable_for_identifier s scopes k) h in
      absurd (none_or_some (sym c))
  found_sound n k v e inside p h = elim (Bool-cases (is_known_value v)) [
    | inl q ↦
        subst (KnownValue s scopes boundary start n) (known-some v e q (found_eq h))
          (built inside (rw p q))
    | inr q ↦ absurd (known-none v e q (found_eq h))
  ]
    where
      known-some :
          (v : Node) (e : KnownValueEvidence)
          → is_known_value v ≡ true
          → known_value s v ≡ some e
          → record { type = none } ≡ e
      known-some v e q h = some_eq (rw (q, known_value) at h)

      known-none :
          (v : Node) (e : KnownValueEvidence)
          → is_known_value v ≡ false
          → known_value s v ≡ some e
          → ⊥
      known-none v e q h = none_or_some (rw (q, known_value) at h)

  pub through_sound :
      (k v : ℕ) (w : Node)
      → s.node k ≡ w
      → value_found s scopes boundary k w ≡ through v
      → Names s scopes boundary k v
  through_sound k v (identifier x t) p h = (
    λ c. named x (rw p at c),
    variable_or-through none (resolved_variable_for_identifier s scopes k) h,
  )
    where
      named : (x : String) → some x ≡ none → ⊥
      named x c = ground arith
  through_sound k v _ p h = absurd (cc)

  pub through_complete :
      (k v : ℕ) (w : Node)
      → s.node k ≡ w
      → Names s scopes boundary k v
      → value_found s scopes boundary k w ≡ through v
  through_complete k v (identifier x t) p (named, e) = rw e refl
  through_complete k v _ p (named, e) = absurd (named (rw p refl))

  pub asserted_complete :
      (k : ℕ) (v : Node) (a : Assertion)
      → as_assertion v ≡ some a
      → broad_type_kind s a.type_annotation ≡ none
      → value_found s scopes boundary k v ≡ found (some (record { type = some a.type_annotation }))
  asserted_complete k (ts_as_expression e t) a q b =
      let same : t ≡ a.type_annotation = ground arith in rw same (rw (b, typed_evidence) refl)
  asserted_complete k (ts_type_assertion e t) a q b =
      let same : t ≡ a.type_annotation = ground arith in rw same (rw (b, typed_evidence) refl)
  asserted_complete k _ a q b = absurd (ground arith)

  pub built_complete :
      (k : ℕ) (v : Node)
      → is_known_value v ≡ true
      → value_found s scopes boundary k v ≡ found (some (record { type = none }))
  built_complete k (ts_as_expression e t) q = absurd (ground arith)
  built_complete k (ts_type_assertion e t) q = absurd (ground arith)
  built_complete k (identifier e t) q = absurd (ground arith)
  built_complete k _ q = ground arith

  pub binding-value :
      (v : ℕ) (e : KnownValueEvidence)
      → value_binding s scopes boundary v ≡ value (some e)
      → (i : ℕ) × (a : Annotation) × (annotated_identifier s (s.variable v).identifiers
          ≡ some (i, a))
        × (function_boundary s i ≡ boundary)
        × (broad_type_kind s a.type_annotation ≡ none)
        × (record { type = some a.type_annotation } ≡ e)
  binding-value v e h = elim (Option-cases (annotated_identifier s (s.variable v).identifiers)) [
    | inl q ↦
        let (_, c) =
          initializer_or-value none (local_initializer s scopes boundary v)
            (rw (q, value_binding) at h) in
        absurd (none_or_some (sym c))
    | inr ((i, a), q) ↦ elim (Bool-cases (same_node (function_boundary s i) boundary)) [
      | inl b ↦
          let (broad, same) =
            typed_evidence-some s a.type_annotation e
              (value_eq (rw b at (rw (q, value_binding) at h))) in
          (i, a, q, (same_node_iff (function_boundary s i) boundary).0 b, broad, same)
      | inr b ↦ absurd (none_or_some (value_eq (rw b at (rw (q, value_binding) at h))))
    ]
  ]

  pub binding-initializer :
      (v m : ℕ)
      → value_binding s scopes boundary v ≡ initializer m
      → (d : ℕ) × (i : ℕ) × (annotated_identifier s (s.variable v).identifiers ≡ none)
        × (const_declarator s v ≡ some (d, i, m))
        × (function_boundary s d ≡ boundary)
  binding-initializer v m h =
      elim (Option-cases (annotated_identifier s (s.variable v).identifiers)) [
        | inr ((i, a), q) ↦ absurd (never (rw (q, value_binding) at h))
        | inl q ↦
            let init =
              initializer_or-initializer none (local_initializer s scopes boundary v)
                (rw (q, value_binding) at h) in
            let (d, i, c, b) = local_sound init in (d, i, q, c, b)
      ]
    where
      never : {x : Option KnownValueEvidence} → value x ≡ initializer m → ⊥
      never c = cc

      local_sound :
          local_initializer s scopes boundary v ≡ some m
          → (d : ℕ) × (i : ℕ) × (const_declarator s v ≡ some (d, i, m))
            × (function_boundary s d ≡ boundary)
      local_sound e = elim (Option-cases (const_declarator s v)) [
        | inl p ↦ absurd (let c : none ≡ some m = rw (p, local_initializer) at e in ground arith)
        | inr ((d, i, init), p) ↦ elim (Bool-cases (same_node (function_boundary s d) boundary)) [
          | inl b ↦
              let same : init ≡ m =
                (let c : some init ≡ some m = rw b at (rw (p, local_initializer) at e) in cc) in
              (d, i, rw same at p, (same_node_iff (function_boundary s d) boundary).0 b)
          | inr b ↦
              absurd
                (let c : none ≡ some m = rw b at (rw (p, local_initializer) at e) in ground arith)
        ]
      ]

  pub binding-annotated :
      (v i : ℕ) (a : Annotation)
      → annotated_identifier s (s.variable v).identifiers ≡ some (i, a)
      → function_boundary s i ≡ boundary
      → broad_type_kind s a.type_annotation ≡ none
      → value_binding s scopes boundary v ≡ value (some (record { type = some a.type_annotation }))
  binding-annotated v i a q b broad =
      rw (q, value_binding)
        (rw ((same_node_iff (function_boundary s i) boundary).1 b)
          (rw (broad, typed_evidence) refl))

  pub binding-constant :
      (v d i m : ℕ)
      → annotated_identifier s (s.variable v).identifiers ≡ none
      → const_declarator s v ≡ some (d, i, m)
      → function_boundary s d ≡ boundary
      → value_binding s scopes boundary v ≡ initializer m
  binding-constant v d i m q c b =
      rw (q, value_binding)
        (rw (c, local_initializer) (rw ((same_node_iff (function_boundary s d) boundary).1 b) refl))
