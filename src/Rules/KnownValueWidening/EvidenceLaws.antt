-- ===== src/Rules/KnownValueWidening/EvidenceLaws.antt =====
-- `hasKnownEvidence` against the expressions that are evidence, directly or through constants.
use zslay.Prelude.{
  >>=-eq-some, Bool, Bool-cases, Option, [], arith, contains, false, inl, inr, length, none, refl,
  some, suc, true, ℕ, ◌<◌, ◌↔◌, ◌≡◌, ◌≢◌, true_or_false,
}
use zslay.Ast.{
  IsBelow, IsScoped, IsTree, Node, SourceCode, Steps, Steps-unique, as_identifier, identifier,
  walk-Steps, walk_ends,
}
use zslay.Shared.Scope.{resolve_variable}
use zslay.Shared.ArrayMethod.FuelLaws.{find_binding_bound}
use zslay.Shared.DictionaryTypes.EvidenceExpressions.{
  evidence_wrapped, is_evidence, is_known_evidence_expression,
}
use zslay.Shared.Bindings.{found, through, value}
use zslay.Shared.Bindings.ChaseLaws.{
  Leads, at_once, at_variable, chase_Answers, chase_iff, initializer_or-initializer,
  initializer_or-value, onward, variable_or-found, variable_or-through,
}
use zslay.Rules.KnownValueWidening.{
  evidence_binding, evidence_lookup, has_known_evidence, named_variable, stable_initializer,
  unwrap_expression,
}
use zslay.Rules.KnownValueWidening.ConstLaws.{StableConst, stable_initializer_iff}

evidence_wrapped_below : (v : Node) (n m : ℕ) → IsBelow n v → evidence_wrapped v ≡ some m → m < n
evidence_wrapped_below (identifier _ _) n m b h = absurd (ground arith)
evidence_wrapped_below _ n m b h = ground arith

not_wrapped : (v : Node) → is_evidence v ≡ true → evidence_wrapped v ≡ none
not_wrapped v h = ground arith

module _ (s : SourceCode) where
  abbrev unwrap_step : ℕ → Option ℕ
  unwrap_step k = evidence_wrapped (s.node k)

  -- `k` stands in parentheses and type-only wrappers inside `n`, and is no such wrapper.
  abbrev pub StandsInside : ℕ → ℕ → Type 0
  StandsInside n k = Steps unwrap_step n k × (evidence_wrapped (s.node k) ≡ none)

  -- Inside its wrappers the expression is a literal, an array, an object, a function or another kind of evidence.
  abbrev pub Evident : ℕ → Type 0
  Evident n = (k : ℕ) × Steps unwrap_step n k × (is_evidence (s.node k) ≡ true)

  -- Evidence, or a name of a constant whose initializer is.
  pub data KnownEvidence : ℕ → Type 0 where
    evident : {n : ℕ} → Evident n → KnownEvidence n
    constant :
        {n m : ℕ} (k v : ℕ)
        → StandsInside n k
        → named_variable s k ≡ some v
        → StableConst s v m
        → KnownEvidence m
        → KnownEvidence n

  pub named_bound :
      IsScoped s → (n v : ℕ) → named_variable s n ≡ some v → contains s.variables v ≡ true
  unfolding named_variable
  named_bound scoped n v h =
      let (name, _, q) = >>=-eq-some (as_identifier (s.node n)) (resolve_variable s n) h in
      find_binding_bound s.variables name (s.get_scope n) v (scoped.bound n) q

  evidence_binding-value : (v : ℕ) → evidence_binding s v ≢ value true
  evidence_binding-value v h =
      let (_, c) = initializer_or-value false (stable_initializer s v) h in ground arith

  module _ (tree : IsTree s) where
    down : (n m : ℕ) → unwrap_step n ≡ some m → m < n
    down n m h = evidence_wrapped_below (s.node n) n m (tree.below n) h

    pub unwrap_expression-StandsInside : (n : ℕ) → StandsInside n (unwrap_expression s n)
    unfolding unwrap_expression
    unwrap_expression-StandsInside n = (walk-Steps unwrap_step down n, walk_ends unwrap_step down n)

    pub unwrap_expression_complete : (n k : ℕ) → StandsInside n k → unwrap_expression s n ≡ k
    unfolding unwrap_expression
    unwrap_expression_complete n k (r, q) =
        Steps-unique (walk-Steps unwrap_step down n) r (walk_ends unwrap_step down n) q

    is_known_evidence_expression_iff :
        (n : ℕ) → (is_known_evidence_expression s n ≡ true) ↔ Evident n
    unfolding is_known_evidence_expression unwrap_expression
    is_known_evidence_expression_iff n = (
      λ h. (unwrap_expression s n, walk-Steps unwrap_step down n, h),
      λ (k, r, e). rw (← unwrap_expression_complete n k (r, not_wrapped (s.node k) e)) at e,
    )

    Leads-KnownEvidence :
        {n : ℕ} → Leads (evidence_lookup s) (evidence_binding s) [] n true → KnownEvidence n
    Leads-KnownEvidence {n} (at_once q) = elim (Bool-cases (is_known_evidence_expression s n)) [
      | inl e ↦ evident ((is_known_evidence_expression_iff n).0 e)
      | inr e ↦
          let (_, c) =
            variable_or-found false (named_variable s (unwrap_expression s n))
              (rw (e, evidence_lookup) at q) in
          absurd (true_or_false refl c)
    ]
    Leads-KnownEvidence (at_variable v q b r) = absurd (evidence_binding-value v r)
    Leads-KnownEvidence {n} (onward {m} v q b r l) =
        elim (Bool-cases (is_known_evidence_expression s n)) [
          | inl e ↦ evident ((is_known_evidence_expression_iff n).0 e)
          | inr e ↦
              constant (unwrap_expression s n) v (unwrap_expression-StandsInside n)
                (variable_or-through false (named_variable s (unwrap_expression s n))
                  (rw (e, evidence_lookup) at q))
                ((stable_initializer_iff s v m).0
                  (initializer_or-initializer false (stable_initializer s v) r))
                (Leads-KnownEvidence l)
        ]

    KnownEvidence-Leads :
        {n : ℕ} → KnownEvidence n → Leads (evidence_lookup s) (evidence_binding s) [] n true
    KnownEvidence-Leads {n} (evident e) =
        at_once (rw ((is_known_evidence_expression_iff n).1 e, evidence_lookup) refl)
    KnownEvidence-Leads {n} (constant {m} k v inside named stable known) =
        elim (Bool-cases (is_known_evidence_expression s n)) [
          | inl e ↦ at_once (rw (e, evidence_lookup) refl)
          | inr e ↦
              let same = unwrap_expression_complete n k inside in
              let init = (stable_initializer_iff s v m).1 stable in
              onward v (rw (e, evidence_lookup) (rw same (rw named refl))) refl
                (rw (init, evidence_binding) refl) (KnownEvidence-Leads known)
        ]

  -- With the trees of a parser and a scope analysis the search always answers, and it says yes exactly where the
  -- expression is evidence inside its wrappers, or there names a constant, declared once and never written again,
  -- whose initializer is known evidence in turn.
  pub has_known_evidence_iff :
      IsScoped s
      → (n : ℕ)
      → ((b : Bool) × (has_known_evidence s n ≡ some b))
        × ((has_known_evidence s n ≡ some true) ↔ KnownEvidence n)
  unfolding has_known_evidence
  has_known_evidence_iff scoped n =
      let iff =
        chase_iff (evidence_lookup s) (evidence_binding s) false [] s.variables bound
          (suc (length s.variables)) n true (omega arith) (λ e. ground arith) in
      (
        chase_Answers (evidence_lookup s) (evidence_binding s) false [] s.variables bound
            (suc (length s.variables)) n (omega arith),
        (
          λ h. Leads-KnownEvidence scoped.tree (iff.0 h),
          λ known. iff.1 (KnownEvidence-Leads scoped.tree known),
        ),
      )
    where
      bound : (k v : ℕ) → evidence_lookup s k ≡ through v → contains s.variables v ≡ true
      bound k v e = elim (Bool-cases (is_known_evidence_expression s k)) [
        | inl q ↦ absurd (let c : found true ≡ through v = rw (q, evidence_lookup) at e in cc)
        | inr q ↦ named_bound scoped (unwrap_expression s k) v (
            variable_or-through false (named_variable s (unwrap_expression s k))
              (rw (q, evidence_lookup) at e))
      ]
