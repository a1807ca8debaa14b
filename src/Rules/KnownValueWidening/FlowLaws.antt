-- ===== src/Rules/KnownValueWidening/FlowLaws.antt =====
-- What `reportFlow` of rules/no-known-value-widening.ts reports.
use zslay.Prelude.{
  &&_iff, Bool, Bool-cases, List, Memᴰ, Option, String, [], arith, false, inl, inr, none, refl,
  some, sym, true, ℕ, ◌&&◌, ◌↔◌, ◌∙◌, ◌∷◌, ◌≡◌, true_or_false,
}
use mathlib.Core.List.Memᴰ
use zslay.Ast.{IsScoped, IsTree, Node, Report, SourceCode, object_expression}
use zslay.Shared.DictionaryTypes.WideningTargets.{
  WideningTarget, anonymous_object, generic_container, object_target, open_dictionary,
  unknown_target,
}
use zslay.Rules.KnownValueWidening.{
  has_known_evidence, is_dictionary_accumulator_target, is_empty_object, is_empty_object_literal,
  report_flow, target_text, unwrap_expression,
}
use zslay.Rules.KnownValueWidening.EvidenceLaws.{
  KnownEvidence, StandsInside, has_known_evidence_iff, unwrap_expression-StandsInside,
  unwrap_expression_complete,
}

-- The targets of an object that is filled later.
pub data Accumulates : WideningTarget → Type 0 where
  dictionary : Accumulates open_dictionary
  container : Accumulates generic_container

accumulator_target_sound :
    (k : WideningTarget) → is_dictionary_accumulator_target k ≡ true → Accumulates k
accumulator_target_sound open_dictionary h = dictionary
accumulator_target_sound generic_container h = container
accumulator_target_sound anonymous_object h = absurd (ground arith)
accumulator_target_sound object_target h = absurd (ground arith)
accumulator_target_sound unknown_target h = absurd (ground arith)

accumulator_target_complete :
    (k : WideningTarget) → Accumulates k → is_dictionary_accumulator_target k ≡ true
accumulator_target_complete _ dictionary = refl
accumulator_target_complete _ container = refl

empty_object_sound : (v : Node) → is_empty_object v ≡ true → v ≡ object_expression []
empty_object_sound (object_expression []) h = refl
empty_object_sound (object_expression (p ∷ ps)) h = absurd (ground arith)
empty_object_sound _ h = absurd (ground arith)

module _ (s : SourceCode) where
  -- `{}`, inside wrappers, for a target that it may fill later
  abbrev pub IsExempt : ℕ → WideningTarget → Type 0
  IsExempt expression k =
      Accumulates k × ((i : ℕ) × StandsInside s expression i × (s.node i ≡ object_expression []))

  abbrev widening_report : ℕ → String → WideningTarget → Report
  widening_report expression subject k = record {
    node = expression;
    message_id = "widening";
    placeholders = ("subject", subject) ∷ ("target", target_text k) ∷ [];
  }

  -- A report names the target of a known value that is not exempt.
  abbrev pub Widened : ℕ → Option WideningTarget → String → Report → Type 0
  Widened expression destination subject r =
      (k : WideningTarget) × (destination ≡ some k)
      × (IsExempt expression k → ⊥)
      × KnownEvidence s expression
      × (r ≡ widening_report expression subject k)

  empty_object_iff :
      IsTree s
      → (n : ℕ)
      → (is_empty_object_literal s n ≡ true)
        ↔ ((i : ℕ) × StandsInside s n i × (s.node i ≡ object_expression []))
  unfolding is_empty_object_literal
  empty_object_iff tree n = (
    λ h. (
      unwrap_expression s n,
      unwrap_expression-StandsInside s tree n,
      empty_object_sound (s.node (unwrap_expression s n)) h,
    ),
    λ (i, inside, e). rw (unwrap_expression_complete s tree n i inside) (rw e refl),
  )

  IsExempt-iff :
      IsTree s
      → (n : ℕ) (k : WideningTarget)
      → ((is_dictionary_accumulator_target k && is_empty_object_literal s n) ≡ true) ↔ IsExempt n k
  IsExempt-iff tree n k = (
    λ h.
        let (a, b) = (&&_iff (is_dictionary_accumulator_target k) _).0 h in
        (accumulator_target_sound k a, (empty_object_iff tree n).0 b),
    λ (a, b). (&&_iff _ _).1 (accumulator_target_complete k a, (empty_object_iff tree n).1 b),
  )

  -- With the trees of a parser and a scope analysis a flow always has an answer. A report is in it exactly where there
  -- is a target, the expression is known evidence, and the report stands on the expression and gives the subject and
  -- the target's kind; but none is in it for an empty object literal where the target is an open dictionary or
  -- a generic container.
  pub report_flow_iff :
      IsScoped s
      → (expression : ℕ) (destination : Option WideningTarget) (subject : String)
      → (reports : List Report) × (report_flow s expression destination subject ≡ some reports)
        × ((r : Report) → Memᴰ r reports ↔ Widened expression destination subject r)
  unfolding report_flow
  report_flow_iff scoped expression none subject =
      ([], refl, λ r. (λ m. absurd (Memᴰ.not-nil m), λ (k, e, _, _, _). absurd (none_or_some e)))
    where
      none_or_some : {k : WideningTarget} → none ≡ some k → ⊥
      none_or_some h = ground arith
  report_flow_iff scoped expression (some k) subject =
      elim (Bool-cases
        (is_dictionary_accumulator_target k && is_empty_object_literal s expression)) [
          | inl x ↦ (
            [],
            rw (x, report_flow) refl,
            λ r. (
              λ m. absurd (Memᴰ.not-nil m),
              λ (k', e, exempt, _, _).
                  absurd
                    (exempt (rw (same k k' e) at ((IsExempt-iff scoped.tree expression k).0 x))),
            ),
          )
          | inr x ↦ let ((b, e), i) = has_known_evidence_iff s scoped expression in go b x e i
        ]
    where
      same : (x y : WideningTarget) → some x ≡ some y → x ≡ y
      same x y h = cc

      go :
          (b : Bool)
          → (is_dictionary_accumulator_target k && is_empty_object_literal s expression) ≡ false
          → has_known_evidence s expression ≡ some b
          → (has_known_evidence s expression ≡ some true) ↔ KnownEvidence s expression
          → (reports : List Report) × (report_flow s expression (some k) subject ≡ some reports)
            × ((r : Report) → Memᴰ r reports ↔ Widened expression (some k) subject r)
      go true x e i = (
        widening_report expression subject k ∷ [],
        rw (x, report_flow) (rw e refl),
        λ r. (
          λ m. (
            k,
            refl,
            λ exempt. true_or_false ((IsExempt-iff scoped.tree expression k).1 exempt) x,
            i.0 e,
            Memᴰ.eq_of_singleton m,
          ),
          λ (k', q, _, _, w). Memᴰ.head (rw (same k k' q) w),
        ),
      )
      go false x e i = (
        [],
        rw (x, report_flow) (rw e refl),
        λ r. (
          λ m. absurd (Memᴰ.not-nil m),
          λ (k', q, _, known, w). absurd (never (sym (i.1 known) ∙ e)),
        ),
      )
        where
          never : some true ≡ some false → ⊥
          never h = ground arith
