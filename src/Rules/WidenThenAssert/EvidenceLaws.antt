-- ===== src/Rules/WidenThenAssert/EvidenceLaws.antt =====
-- `knownValueEvidence` of rules/no-widen-then-assert.ts against the values whose type is known.
use zslay.Prelude.{
  List, Option, [], arith, contains, length, none, refl, some, subst, suc, sym, true, ℕ, ◌<◌, ◌↔◌,
  ◌∙◌, ◌∷◌, ◌≡◌, none_or_some,
}
use zslay.Ast.{IsTree, Reference, SourceCode, Steps-unique, walk-Steps, walk_ends}
use zslay.Shared.Bindings.{through}
use zslay.Shared.Bindings.ChaseLaws.{Leads, at_once, at_variable, chase_Answers, chase_iff, onward}
use zslay.Rules.WidenThenAssert.{unwrap_expression_parentheses}
use zslay.Rules.WidenThenAssert.Flows.{
  KnownValueEvidence, known_value_evidence, value_binding, value_found, value_lookup,
}
use zslay.Rules.WidenThenAssert.KnownLaws.{
  AreResolved, InParentheses, KnownValue, Names, annotated, asserted, built, constant,
  parentheses_step, parenthesized_below, resolved_bound,
}
use zslay.Rules.WidenThenAssert.LookupLaws.{
  found_sound, through_sound, through_complete, asserted_complete, built_complete, binding-value,
  binding-initializer, binding-annotated, binding-constant,
}

module _ (s : SourceCode) (scopes : List (List Reference)) (boundary : Option ℕ) (start : ℕ) where
  module _ (tree : IsTree s) where
    down : (n m : ℕ) → parentheses_step s n ≡ some m → m < n
    down n m h = parenthesized_below (s.node n) n m (tree.below n) h

    pub place-InParentheses : (n : ℕ) → InParentheses s n (unwrap_expression_parentheses s n)
    unfolding unwrap_expression_parentheses
    place-InParentheses n =
        (walk-Steps (parentheses_step s) down n, walk_ends (parentheses_step s) down n)

    pub place_complete : (n k : ℕ) → InParentheses s n k → unwrap_expression_parentheses s n ≡ k
    unfolding unwrap_expression_parentheses
    place_complete n k (r, q) =
        Steps-unique (walk-Steps (parentheses_step s) down n) r
          (walk_ends (parentheses_step s) down n) q

    lookup_at :
        (n k : ℕ)
        → InParentheses s n k
        → value_lookup s scopes boundary n ≡ value_found s scopes boundary k (s.node k)
    lookup_at n k i = rw (← place_complete n k i) refl

    lookup-Names :
        (n v : ℕ)
        → value_lookup s scopes boundary n ≡ through v
        → Names s scopes boundary (unwrap_expression_parentheses s n) v
    lookup-Names n v e =
        through_sound s scopes boundary start (unwrap_expression_parentheses s n) v
          (s.node (unwrap_expression_parentheses s n)) refl e

    Leads-KnownValue :
        {n : ℕ} (e : KnownValueEvidence)
        → Leads
            (value_lookup s scopes boundary)
            (value_binding s scopes boundary)
            (start ∷ [])
            n
            (some e)
        → KnownValue s scopes boundary start n e
    Leads-KnownValue {n} e (at_once q) =
        found_sound s scopes boundary start n (unwrap_expression_parentheses s n)
          (s.node (unwrap_expression_parentheses s n)) e (place-InParentheses n) refl q
    Leads-KnownValue {n} e (at_variable v q b r) =
        let (i, a, identified, inside, broad, same) = binding-value s scopes boundary start v e r in
        subst (KnownValue s scopes boundary start n) same
          (annotated v i a (place-InParentheses n) (lookup-Names n v q) b identified inside broad)
    Leads-KnownValue {n} e (onward {m} v q b r l) =
        let (d, i, plain, c, inside) = binding-initializer s scopes boundary start v m r in
        constant v d i (place-InParentheses n) (lookup-Names n v q) b plain c inside
          (Leads-KnownValue e l)

    KnownValue-Leads :
        {n : ℕ} {e : KnownValueEvidence}
        → KnownValue s scopes boundary start n e
        → Leads
            (value_lookup s scopes boundary)
            (value_binding s scopes boundary)
            (start ∷ [])
            n
            (some e)
    KnownValue-Leads {n} (asserted {k} a i q broad) =
        at_once (lookup_at n k i ∙ asserted_complete s scopes boundary start k (s.node k) a q broad)
    KnownValue-Leads {n} (built {k} i q) =
        at_once (lookup_at n k i ∙ built_complete s scopes boundary start k (s.node k) q)
    KnownValue-Leads {n} (annotated {k} v j a i named b identified inside broad) =
        at_variable v
          (lookup_at n k i ∙ through_complete s scopes boundary start k v (s.node k) refl named) b
          (binding-annotated s scopes boundary start v j a identified inside broad)
    KnownValue-Leads {n} (constant {k} {m} v d j i named b plain c inside known) =
        onward v
          (lookup_at n k i ∙ through_complete s scopes boundary start k v (s.node k) refl named) b
          (binding-constant s scopes boundary start v d j m plain c inside) (KnownValue-Leads known)

    -- With the tree of a parser, and references that resolve to variables of the program, the search always
    -- answers, and it finds exactly the evidence of a value of known type: of an assertion that is not broad, of an
    -- expression that builds the value, of a variable with a type that is not broad in the same function, or of the
    -- initializer of such a constant; a cycle of bindings does not hide it.
    pub known_value_evidence_iff :
        AreResolved s scopes
        → (n : ℕ)
        → ((o : Option KnownValueEvidence) × (known_value_evidence s scopes boundary start n
              ≡ some o))
          × ((e : KnownValueEvidence)
              → (known_value_evidence s scopes boundary start n ≡ some (some e))
                ↔ KnownValue s scopes boundary start n e)
    unfolding known_value_evidence
    known_value_evidence_iff resolved n = (
      chase_Answers (value_lookup s scopes boundary) (value_binding s scopes boundary) none
          (start ∷ []) s.variables bound (suc (length s.variables)) n (omega arith),
      λ e.
          let iff =
            chase_iff (value_lookup s scopes boundary) (value_binding s scopes boundary) none
              (start ∷ []) s.variables bound (suc (length s.variables)) n (some e) (omega arith)
              (λ c. none_or_some (sym c)) in
          (λ h. Leads-KnownValue e (iff.0 h), λ known. iff.1 (KnownValue-Leads known)),
    )
      where
        bound :
            (k v : ℕ) → value_lookup s scopes boundary k ≡ through v → contains s.variables v ≡ true
        bound k v e =
            resolved_bound s scopes (unwrap_expression_parentheses s k) v resolved
              (lookup-Names k v e).1
