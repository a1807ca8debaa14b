-- ===== src/Rules/WidenThenAssert/FlowLaws.antt =====
-- What rules/no-widen-then-assert.ts reports.
use zslay.Prelude.{
  &&_iff, Bool-cases, List, Memᴰ, Option, Option-cases, String, [], arith, false, if◌then◌else◌,
  inl, inr, ltb, none, refl, some, subst, sym, true, ℕ, ◌<◌, ◌↔◌, ◌∙◌, ◌∷◌, ◌≡◌, ◌⊎◌, some_eq,
  none_or_some, true_or_false,
}
use zslay.Ast.{
  Assertion, IsTree, Node, Reference, Report, SourceCode, as_assertion, as_identifier,
  ts_as_expression, ts_type_assertion,
}
use zslay.Rules.ReportLists.{Reports, Reports-iff, Reports-nothing, Reports-one}
use zslay.Rules.WidenThenAssert.{
  BroadTypeKind, assertion_is_narrower, unwrap_expression_parentheses,
}
use zslay.Rules.WidenThenAssert.Flows.{
  KnownValueEvidence, asserted_variable, binding_with, check_assertion, check_variable,
  function_boundary, known_value_evidence, no_widen_then_assert, recreates,
  resolved_variable_for_identifier, same_node, widen_then_assert_at, widened_binding, widened_from,
  widening_declarator,
}
use zslay.Rules.WidenThenAssert.KnownLaws.{AreResolved, InParentheses, KnownValue, same_node_iff}
use zslay.Rules.WidenThenAssert.EvidenceLaws.{
  known_value_evidence_iff, place-InParentheses, place_complete,
}

ltb_iff : (a b : ℕ) → (ltb a b ≡ true) ↔ (a < b)
ltb_iff a b = ground arith

module _ (s : SourceCode) (scopes : List (List Reference)) where
  abbrev assertion_report : ℕ → String → Report
  assertion_report n name = record {
    node = n;
    message_id = "widenThenAssert";
    placeholders = ("name", name) ∷ [];
  }

  -- The variable's declarator widens a value of known type, and ends before the assertion, which stands in the same
  -- function and is narrower than the declarator's kind.
  pub record RecreatesType (n t v : ℕ) : Type 0 where
    pub declarator : ℕ
    pub kind : BroadTypeKind
    pub expression : ℕ
    pub lost_evidence : KnownValueEvidence
    pub widening : widening_declarator s v ≡ some (declarator, kind, expression)
    pub is_known : KnownValue s scopes (function_boundary s declarator) v expression lost_evidence
    pub is_later : s.end declarator < s.start n
    pub same_function : function_boundary s n ≡ function_boundary s declarator
    pub narrower : assertion_is_narrower s kind lost_evidence.type t ≡ true

  -- The node asserts a local name, in parentheses or not, to a type that its variable's declarator erased.
  pub record WidensThenAsserts (n : ℕ) (r : Report) : Type 0 where
    pub assertion : Assertion
    pub place : ℕ
    pub name : String
    pub variable : ℕ
    pub is_assertion : as_assertion (s.node n) ≡ some assertion
    pub inside : InParentheses s assertion.expression place
    pub is_name : as_identifier (s.node place) ≡ some name
    pub resolved : resolved_variable_for_identifier s scopes place ≡ some variable
    pub recreated : RecreatesType n assertion.type_annotation variable
    pub reported : r ≡ assertion_report n name

  -- what a variable needs, by its declarator's data
  abbrev Aligned : ℕ → ℕ → ℕ → ℕ × BroadTypeKind × ℕ → Type 0
  Aligned n t v (d, kind, expression) =
      (x : KnownValueEvidence) × KnownValue s scopes (function_boundary s d) v expression x
      × (s.end d < s.start n)
      × (function_boundary s n ≡ function_boundary s d)
      × (assertion_is_narrower s kind x.type t ≡ true)

  RecreatesType-Aligned :
      (n t v d : ℕ) (kind : BroadTypeKind) (expression : ℕ)
      → widening_declarator s v ≡ some (d, kind, expression)
      → RecreatesType n t v
      → Aligned n t v (d, kind, expression)
  RecreatesType-Aligned n t v d kind expression e c =
      subst (Aligned n t v) (some_eq (sym c.widening ∙ e))
        (c.lost_evidence, c.is_known, c.is_later, c.same_function, c.narrower)

  module _ (tree : IsTree s) (are_resolved : AreResolved s scopes) where
    recreates_iff :
        (n t d : ℕ) (kind : BroadTypeKind) (evidence : KnownValueEvidence)
        → (recreates s n t (binding_with s d kind (some evidence)) ≡ true) ↔ (
            (s.end d < s.start n)
            × (function_boundary s n ≡ function_boundary s d)
            × (assertion_is_narrower s kind evidence.type t ≡ true))
    recreates_iff n t d kind evidence = (
      λ h.
          let (a, rest) = (&&_iff (ltb (s.end d) (s.start n)) _).0 h in
          let (b, c) =
            (&&_iff (same_node (function_boundary s n) (function_boundary s d)) _).0 rest in
          ((ltb_iff _ _).0 a, (same_node_iff _ _).0 b, c),
      λ (a, b, c). (&&_iff _ _).1 ((ltb_iff _ _).1 a, (&&_iff _ _).1 ((same_node_iff _ _).1 b, c)),
    )

    variable-Reports :
        (n t v : ℕ) (name : String)
        → Reports
            (check_variable s scopes n t (some (name, v)))
            (λ r. RecreatesType n t v × (r ≡ assertion_report n name))
    unfolding widened_binding
    variable-Reports n t v name = elim (Option-cases (widening_declarator s v)) [
      | inl e ↦
          rw (e, widened_from) (Reports-nothing _ (λ r (c, _). none_or_some (sym e ∙ c.widening)))
      | inr ((d, kind, expression), e) ↦
          let ((o, q), i) =
            known_value_evidence_iff s scopes (function_boundary s d) v tree are_resolved
              expression in
          rw (e, widened_from) (rw q (go d kind expression o e q i))
    ]
      where
        go :
            (d : ℕ) (kind : BroadTypeKind) (expression : ℕ) (o : Option KnownValueEvidence)
            → widening_declarator s v ≡ some (d, kind, expression)
            → known_value_evidence s scopes (function_boundary s d) v expression ≡ some o
            → ((x : KnownValueEvidence)
                → (known_value_evidence s scopes (function_boundary s d) v expression
                    ≡ some (some x))
                  ↔ KnownValue s scopes (function_boundary s d) v expression x)
            → Reports
                (some (
                  if recreates s n t (binding_with s d kind o)
                  then assertion_report n name ∷ []
                  else []))
                (λ r. RecreatesType n t v × (r ≡ assertion_report n name))
        go d kind expression none e q i = Reports-nothing _ (λ r (c, _). never c)
          where
            never : RecreatesType n t v → ⊥
            never c =
                let (x, known, _, _, _) = RecreatesType-Aligned n t v d kind expression e c in
                none_or_some (some_eq (sym q ∙ (i x).1 known))
        go d kind expression (some evidence) e q i =
            elim (Bool-cases (recreates s n t (binding_with s d kind (some evidence)))) [
              | inl b ↦
                  let (later, same, narrower) = (recreates_iff n t d kind evidence).0 b in
                  rw b (
                    Reports-one (assertion_report n name) _
                      (
                        record {
                          declarator = d;
                          kind = kind;
                          expression = expression;
                          lost_evidence = evidence;
                          widening = e;
                          is_known = (i evidence).0 q;
                          is_later = later;
                          same_function = same;
                          narrower = narrower;
                        },
                        refl,
                      )
                      (λ r (_, p). p))
              | inr b ↦ rw b (Reports-nothing _ (λ r (c, _). other c b))
            ]
          where
            other :
                RecreatesType n t v
                → recreates s n t (binding_with s d kind (some evidence)) ≡ false
                → ⊥
            other c b =
                let (x, known, later, same, narrower) =
                  RecreatesType-Aligned n t v d kind expression e c in
                let only : x ≡ evidence = some_eq (some_eq (sym ((i x).1 known) ∙ q)) in
                true_or_false
                  ((recreates_iff n t d kind evidence).1 (later, same, rw only at narrower)) b

    assertion-Reports :
        (n : ℕ) (a : Assertion)
        → as_assertion (s.node n) ≡ some a
        → Reports (check_assertion s scopes n a.expression a.type_annotation) (WidensThenAsserts n)
    unfolding check_assertion asserted_variable
    assertion-Reports n a e =
        elim (Option-cases
          (as_identifier (s.node (unwrap_expression_parentheses s a.expression)))) [
            | inl p ↦
                rw (p, asserted_variable)
                  (Reports-nothing _ (λ r w. none_or_some (sym p ∙ (at_place w).0)))
            | inr (name, p) ↦
                elim (Option-cases (
                  resolved_variable_for_identifier s scopes
                    (unwrap_expression_parentheses s a.expression))) [
                      | inl q ↦
                          rw (p, asserted_variable)
                            (rw q
                              (Reports-nothing _ (λ r w. none_or_some (sym q ∙ (at_place w).1))))
                      | inr (v, q) ↦
                          rw (p, asserted_variable)
                            (rw q (
                              Reports-iff (forth name v p q) (back name v p q)
                                (variable-Reports n a.type_annotation v name)))
                    ]
          ]
      where
        -- a report, told with the assertion and its place
        at_place :
            {r : Report} (w : WidensThenAsserts n r)
            → (as_identifier (s.node (unwrap_expression_parentheses s a.expression)) ≡ some w.name)
              × (resolved_variable_for_identifier s scopes
                    (unwrap_expression_parentheses s a.expression)
                  ≡ some w.variable)
              × RecreatesType n a.type_annotation w.variable
        at_place w =
            let same : w.assertion ≡ a = some_eq (sym w.is_assertion ∙ e) in
            let there : unwrap_expression_parentheses s a.expression ≡ w.place =
              rw (← same)
                (place_complete s scopes none 0 tree w.assertion.expression w.place w.inside) in
            (rw there w.is_name, rw there w.resolved, rw (← same) w.recreated)

        forth :
            (name : String) (v : ℕ)
            → as_identifier (s.node (unwrap_expression_parentheses s a.expression)) ≡ some name
            → resolved_variable_for_identifier s scopes
                (unwrap_expression_parentheses s a.expression)
              ≡ some v
            → (r : Report) → RecreatesType n a.type_annotation v × (r ≡ assertion_report n name)
            → WidensThenAsserts n r
        forth name v p q r (c, reported) = record {
          assertion = a;
          place = unwrap_expression_parentheses s a.expression;
          name = name;
          variable = v;
          is_assertion = e;
          inside = place-InParentheses s scopes none 0 tree a.expression;
          is_name = p;
          resolved = q;
          recreated = c;
          reported = reported;
        }

        back :
            (name : String) (v : ℕ)
            → as_identifier (s.node (unwrap_expression_parentheses s a.expression)) ≡ some name
            → resolved_variable_for_identifier s scopes
                (unwrap_expression_parentheses s a.expression)
              ≡ some v
            → (r : Report) → WidensThenAsserts n r
            → RecreatesType n a.type_annotation v × (r ≡ assertion_report n name)
        back name v p q r w =
            let (x, y, c) = at_place w in
            let same_name : w.name ≡ name = some_eq (sym x ∙ p) in
            let same : w.variable ≡ v = some_eq (sym y ∙ q) in
            (rw same at c, rw same_name at w.reported)

    as_assertion-at :
        (n : ℕ) (v : Node)
        → ((as_assertion v ≡ none) × (widen_then_assert_at s scopes n v ≡ some []))
          ⊎ ((a : Assertion) × (as_assertion v ≡ some a)
              × (widen_then_assert_at s scopes n v
                  ≡ check_assertion s scopes n a.expression a.type_annotation))
    as_assertion-at n (ts_as_expression e t) =
        inr (record { expression = e; type_annotation = t }, refl, refl)
    as_assertion-at n (ts_type_assertion e t) =
        inr (record { expression = e; type_annotation = t }, refl, refl)
    as_assertion-at n _ = inl (refl, refl)

    -- With the tree of a parser, and references that resolve to variables of the program, the rule always answers,
    -- and its reports are exactly those of an assertion, on a name of a constant, to a type that is narrower than the
    -- broad type of the constant's declarator, where the value is one of known type, the declarator ends before the
    -- assertion, and both stand in the same function.
    pub no_widen_then_assert_iff :
        (n : ℕ)
        → (reports : List Report) × (no_widen_then_assert s scopes n ≡ some reports)
          × ((r : Report) → Memᴰ r reports ↔ WidensThenAsserts n r)
    unfolding no_widen_then_assert
    no_widen_then_assert_iff n = elim (as_assertion-at n (s.node n)) [
      | inl (e, q) ↦
          rw q
            (Reports-nothing (WidensThenAsserts n) (λ r w. none_or_some (sym e ∙ w.is_assertion)))
      | inr (a, e, q) ↦ rw q (assertion-Reports n a e)
    ]
