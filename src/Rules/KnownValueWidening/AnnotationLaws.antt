-- ===== src/Rules/KnownValueWidening/AnnotationLaws.antt =====
-- What rules/no-known-value-widening.ts reports where a value flows into a type.
use zslay.Prelude.{
  Bool, Option, String, ap, none, none_or_some, refl, some, some_eq, subst, sym, ℕ, ◌>>=◌, ◌∙◌, ◌≡◌,
}
use zslay.Ast.{Annotation, IsScoped, Report, SourceCode}
use zslay.Shared.DictionaryTypes.{TypeEnvironment}
use zslay.Shared.DictionaryTypes.WideningTargets.{WideningTarget, classify_widening_target}
use zslay.Rules.ReportLists.{Reports, Reports-eq, Reports-iff, Reports-nothing}
use zslay.Rules.KnownValueWidening.{report_flow}
use zslay.Rules.KnownValueWidening.CallArguments.{has_informative_type}
use zslay.Rules.KnownValueWidening.FlowLaws.{Widened, report_flow_iff}
use zslay.Rules.KnownValueWidening.Handlers.{flow_into, target_from_annotation}

module _ (s : SourceCode) (fuel : ℕ) (environment : TypeEnvironment) where
  -- The type is a widening target that takes evidence from the expression.
  abbrev pub FlowsInto : ℕ → ℕ → String → Report → Type 0
  FlowsInto e t subject r =
      (k : WideningTarget) × (classify_widening_target s environment fuel t ≡ some (some k))
      × Widened s e (some k) subject r

  module _ (scoped : IsScoped s)
      (targets : (t : ℕ)
        → (o : Option WideningTarget) × (classify_widening_target s environment fuel t ≡ some o))
      (answers : (t : ℕ) → (b : Bool) × (has_informative_type s environment fuel t ≡ some b)) where
    pub type-Reports :
        (e t : ℕ) (subject : String)
        → Reports
            (classify_widening_target s environment fuel t >>= λ destination.
              report_flow s e destination subject)
            (FlowsInto e t subject)
    type-Reports e t subject =
        let (o, q) = targets t in
        Reports-eq (ap (λ x. x >>= λ destination. report_flow s e destination subject) q) (
          Reports-iff (λ r w. forth o q r w) (λ r f. back o q r f)
            (report_flow_iff s scoped e o subject))
      where
        forth :
            (o : Option WideningTarget)
            → classify_widening_target s environment fuel t ≡ some o
            → (r : Report) → Widened s e o subject r
            → FlowsInto e t subject r
        forth o q r (k, p, exempt, known, w) = (k, rw p at q, (k, refl, exempt, known, w))

        back :
            (o : Option WideningTarget)
            → classify_widening_target s environment fuel t ≡ some o
            → (r : Report) → FlowsInto e t subject r
            → Widened s e o subject r
        back o q r (k, p, w) =
            let same : some k ≡ o = some_eq (sym p ∙ q) in
            subst (λ x. Widened s e x subject r) same w

    pub annotation-Reports :
        (e : ℕ) (o : Option Annotation) (subject : String)
        → Reports
            (flow_into s fuel (some environment) e o subject)
            (λ r. (a : Annotation) × (o ≡ some a) × FlowsInto e a.type_annotation subject r)
    unfolding flow_into target_from_annotation report_flow
    annotation-Reports e none subject = Reports-nothing _ (λ r (a, q, _). none_or_some q)
    annotation-Reports e (some a) subject =
        Reports-iff (λ r f. (a, refl, f))
          (λ r (b, q, f).
            let same : b ≡ a = some_eq (sym q) in
            subst (λ x. FlowsInto e x.type_annotation subject r) same f)
          (type-Reports e a.type_annotation subject)
