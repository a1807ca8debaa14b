-- ===== src/Rules/KnownValueWidening/HandlerLaws.antt =====
-- What the handlers of rules/no-known-value-widening.ts report.
use zslay.Prelude.{
  Bool, Bool-cases, List, Memᴰ, Option, Option-cases, String, [], ap, eq_iff, false, if◌then◌else◌,
  inl, inr, none, none_or_some, refl, some, some_eq, subst, sym, true, true_or_false, ℕ, ◌==◌, ◌↔◌,
  ◌∙◌, ◌≡◌,
}
use zslay.Ast.{Annotation, FunctionParts, IsScoped, Node, Report, SourceCode, identifier}
use zslay.Shared.DictionaryTypes.{TypeEnvironment}
use zslay.Shared.DictionaryTypes.WideningTargets.{WideningTarget, classify_widening_target}
use zslay.Rules.ReportLists.{Reports, Reports-eq, Reports-iff, Reports-nothing}
use zslay.Rules.KnownValueWidening.{enclosing_function, function_name, has_parent_assertion}
use zslay.Rules.KnownValueWidening.CallArguments.{
  PredicateCall, has_informative_type, has_known_call_argument_evidence, predicate_call,
}
use zslay.Rules.KnownValueWidening.KnownHereLaws.{KnownArgument}
use zslay.Rules.KnownValueWidening.ArgumentLaws.{has_known_call_argument_evidence_iff}
use zslay.Rules.KnownValueWidening.Handlers.{
  argument_report, assigned_declarator, binding_subject, is_block_statement,
  on_arrow_function_expression, on_assertion, on_assignment_expression, on_call_expression,
  on_return_statement, on_variable_declarator, return_subject,
}
use zslay.Rules.KnownValueWidening.AnnotationLaws.{FlowsInto, annotation-Reports, type-Reports}

identifier_eq :
    {x y : String} {o q : Option Annotation} → identifier x o ≡ identifier y q → (x ≡ y) × (o ≡ q)
identifier_eq h = (cc, cc)

pair_eq :
    {x y : String} {o q : Option Annotation}
    → ◌≡◌ {A = Option (String × Option Annotation)} (some (x, o)) (some (y, q))
    → (x ≡ y) × (o ≡ q)
pair_eq h = (cc, cc)

module _ (s : SourceCode) (fuel : ℕ) (environment : TypeEnvironment) where
  module _ (scoped : IsScoped s)
      (targets : (t : ℕ)
        → (o : Option WideningTarget) × (classify_widening_target s environment fuel t ≡ some o))
      (answers : (t : ℕ) → (b : Bool) × (has_informative_type s environment fuel t ≡ some b)) where
    pub declarator-Reports :
        (i e : ℕ) (v : Node)
        → s.node i ≡ v
        → Reports (on_variable_declarator s fuel (some environment) i (some e)) (λ r.
          (name : String) × (a : Annotation) × (s.node i ≡ identifier name (some a))
          × FlowsInto s fuel environment e a.type_annotation (binding_subject name) r)
    unfolding on_variable_declarator
    declarator-Reports i e (identifier name o) p =
        Reports-eq (rw (p, on_variable_declarator) (rw p refl)) (
          Reports-iff (λ r (a, q, f). (name, a, p ∙ ap (λ x. identifier name x) q, f))
            (λ r (x, a, q, f).
              let (named, typed) = identifier_eq (sym p ∙ q) in
              (
                a,
                typed,
                subst (λ y. FlowsInto s fuel environment e a.type_annotation (binding_subject y) r)
                    (sym named) f,
              ))
            (annotation-Reports s fuel environment scoped targets answers e o
              (binding_subject name)))
    declarator-Reports i e _ p =
        Reports-eq (rw (p, on_variable_declarator) refl)
          (Reports-nothing _ (λ r (x, a, q, f). let c = sym p ∙ q in cc))

    pub assignment-Reports :
        (operator : String) (left e : ℕ)
        → Reports (on_assignment_expression s fuel (some environment) operator left e) (λ r.
          (name : String) × (a : Annotation) × (operator ≡ "=")
          × (assigned_declarator s fuel left ≡ some (name, some a))
          × FlowsInto s fuel environment e a.type_annotation (binding_subject name) r)
    unfolding on_assignment_expression
    assignment-Reports operator left e = elim (Bool-cases (operator == "=")) [
      | inr x ↦
          Reports-eq (rw (x, on_assignment_expression) refl)
            (Reports-nothing _ (λ r (n, a, q, _, _). true_or_false ((eq_iff operator "=").1 q) x))
      | inl x ↦ elim (Option-cases (assigned_declarator s fuel left)) [
        | inl d ↦
            Reports-eq (rw (x, on_assignment_expression) (rw d refl))
              (Reports-nothing _ (λ r (n, a, _, q, _). none_or_some (sym d ∙ q)))
        | inr ((name, o), d) ↦ Reports-eq (rw (x, on_assignment_expression) (rw d refl)) (
            Reports-iff
              (λ r (a, q, f).
                (name, a, (eq_iff operator "=").0 x, d ∙ ap (λ y. some (name, y)) q, f))
              (λ r (y, a, _, q, f).
                let (named, typed) = pair_eq (sym d ∙ q) in
                (
                  a,
                  typed,
                  subst
                      (λ z. FlowsInto s fuel environment e a.type_annotation (binding_subject z) r)
                      (sym named) f,
                ))
              (annotation-Reports s fuel environment scoped targets answers e o
                (binding_subject name)))
      ]
    ]

    pub return-Reports :
        (n e : ℕ)
        → Reports (on_return_statement s fuel (some environment) n (some e)) (λ r.
          (owner : ℕ × FunctionParts) × (a : Annotation) × (enclosing_function s n ≡ some owner)
          × (owner.1.return_type ≡ some a)
          × FlowsInto s fuel environment e a.type_annotation
              (return_subject (function_name s (some owner)))
              r)
    unfolding on_return_statement
    return-Reports n e = elim (Option-cases (enclosing_function s n)) [
      | inl x ↦ Reports-eq (rw (x, on_return_statement) refl) (
          Reports-iff (λ r (a, q, _). absurd (none_or_some q))
            (λ r (_, a, q, _, _). absurd (none_or_some (sym x ∙ q)))
            (annotation-Reports s fuel environment scoped targets answers e none
              (return_subject (function_name s none))))
      | inr (owner, x) ↦ Reports-eq (rw (x, on_return_statement) refl) (
          Reports-iff (λ r (a, q, f). (owner, a, x, q, f))
            (λ r (o, a, q, t, f). returned owner o a (some_eq (sym q ∙ x)) t r f)
            (annotation-Reports s fuel environment scoped targets answers e owner.1.return_type
              (return_subject (function_name s (some owner)))))
    ]
      where
        returned :
            (owner o : ℕ × FunctionParts) (a : Annotation)
            → o ≡ owner
            → o.1.return_type ≡ some a
            → (r : Report)
            → FlowsInto s fuel environment e a.type_annotation
                (return_subject (function_name s (some o)))
                r
            → (b : Annotation) × (owner.1.return_type ≡ some b)
              × FlowsInto s fuel environment e b.type_annotation
                  (return_subject (function_name s (some owner)))
                  r
        returned owner o a same t r f =
            subst
              (λ x.
                (b : Annotation) × (x.1.return_type ≡ some b)
                × FlowsInto s fuel environment e b.type_annotation
                    (return_subject (function_name s (some x))) r)
              same (a, t, f)

    pub arrow-Reports :
        (n : ℕ) (f : FunctionParts)
        → Reports (on_arrow_function_expression s fuel (some environment) n f) (λ r.
          (e : ℕ) × (a : Annotation) × (f.body ≡ some e)
          × (is_block_statement (s.node e) ≡ false)
          × (f.return_type ≡ some a)
          × FlowsInto s fuel environment e a.type_annotation
              (return_subject (function_name s (some (n, f))))
              r)
    unfolding on_arrow_function_expression function_name
    arrow-Reports n f = elim (Option-cases f.body) [
      | inl x ↦
          Reports-eq (rw (x, on_arrow_function_expression) refl)
            (Reports-nothing _ (λ r (e, a, q, _, _, _). none_or_some (sym x ∙ q)))
      | inr (e, x) ↦ elim (Bool-cases (is_block_statement (s.node e))) [
        | inl b ↦ Reports-eq (rw (x, on_arrow_function_expression) (rw b refl)) (
            Reports-nothing _ (λ r (e', a, q, c, _, _).
              let same : e' ≡ e = some_eq (sym q ∙ x) in true_or_false b (rw same at c)))
        | inr b ↦ Reports-eq (rw (x, on_arrow_function_expression) (rw b refl)) (
            Reports-iff (λ r (a, q, w). (e, a, x, b, q, w))
              (λ r (e', a, q, c, t, w).
                let same : e' ≡ e = some_eq (sym q ∙ x) in
                (
                  a,
                  t,
                  subst
                      (λ y.
                        FlowsInto s fuel environment y a.type_annotation
                          (return_subject (function_name s (some (n, f)))) r)
                      same w,
                ))
              (annotation-Reports s fuel environment scoped targets answers e f.return_type
                (return_subject (function_name s (some (n, f))))))
      ]
    ]

    pub assertion-Reports :
        (n e t : ℕ)
        → Reports (on_assertion s fuel (some environment) n e t) (λ r.
          (has_parent_assertion s n ≡ false) × FlowsInto s fuel environment e t "assertion" r)
    unfolding on_assertion
    assertion-Reports n e t = elim (Bool-cases (has_parent_assertion s n)) [
      | inl x ↦
          Reports-eq (rw (x, on_assertion) refl) (Reports-nothing _ (λ r (q, _). true_or_false x q))
      | inr x ↦ Reports-eq (rw (x, on_assertion) refl) (
          Reports-iff (λ r f. (x, f)) (λ r (_, f). f)
            (type-Reports s fuel environment scoped targets answers e t "assertion"))
    ]

    pub call-Reports :
        (callee : ℕ) (arguments : List ℕ)
        → Reports (on_call_expression s fuel (some environment) callee arguments) (λ r.
          (call : PredicateCall) × (predicate_call s callee arguments ≡ some call)
          × KnownArgument s environment fuel call.passed
          × Memᴰ r (argument_report s fuel call))
    unfolding on_call_expression
    call-Reports callee arguments = elim (Option-cases (predicate_call s callee arguments)) [
      | inl x ↦
          Reports-eq (rw (x, on_call_expression) refl)
            (Reports-nothing _ (λ r (c, q, _, _). none_or_some (sym x ∙ q)))
      | inr (call, x) ↦
          let ((b, q), i) =
            has_known_call_argument_evidence_iff s environment fuel answers scoped call.passed in
          Reports-eq (rw (x, on_call_expression) (rw q refl)) (go call x b q i)
    ]
      where
        go :
            (call : PredicateCall)
            → predicate_call s callee arguments ≡ some call
            → (b : Bool) → has_known_call_argument_evidence s environment fuel call.passed ≡ some b
            → (has_known_call_argument_evidence s environment fuel call.passed ≡ some true)
              ↔ KnownArgument s environment fuel call.passed
            → Reports (some (if b then argument_report s fuel call else [])) (λ r.
              (c : PredicateCall) × (predicate_call s callee arguments ≡ some c)
              × KnownArgument s environment fuel c.passed
              × Memᴰ r (argument_report s fuel c))
        go call x true q i = (
          argument_report s fuel call,
          refl,
          λ r. (
            λ m. (call, x, i.0 q, m),
            λ (c, y, _, m).
                let same : c ≡ call = some_eq (sym y ∙ x) in
                subst (λ z. Memᴰ r (argument_report s fuel z)) same m,
          ),
        )
        go call x false q i = Reports-nothing _ (λ r (c, y, k, _).
            let same : c ≡ call = some_eq (sym y ∙ x) in
            let known = subst (λ z. KnownArgument s environment fuel z.passed) same k in
            true_or_false refl (some_eq (sym (i.1 known) ∙ q)))
