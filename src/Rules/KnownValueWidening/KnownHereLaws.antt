-- ===== src/Rules/KnownValueWidening/KnownHereLaws.antt =====
-- What `hasKnownCallArgumentEvidence` finds at an expression.
use zslay.Prelude.{
  >>=-eq-some, Bool, List, Option, Option-cases, arith, false, inl, inr, none, refl, some, sym,
  true, ℕ, ◌<◌, ◌∙◌, ◌≡◌,
}
use zslay.Ast.{
  Annotation, Assertion, FunctionParts, IsBelow, Node, SourceCode, Steps, as_assertion, as_call,
  as_identifier, as_identifier-eq-some, call_expression, identifier, ts_as_expression,
  ts_type_assertion,
}
use zslay.Shared.Scope.{resolve_variable}
use zslay.Shared.ArrayMethod.FuelLaws.{}
use zslay.Shared.DictionaryTypes.{TypeEnvironment}
use zslay.Shared.DictionaryTypes.EvidenceExpressions.{is_known_evidence_expression}
use zslay.Shared.Bindings.{found, through, value}
use zslay.Shared.Bindings.ChaseLaws.{variable_or-found, variable_or-through}
use zslay.Rules.KnownValueWidening.{
  argument_wrapped, local_function_for_call, named_variable, variable_type_annotation,
}
use zslay.Rules.KnownValueWidening.CallArguments.{
  argument_found, has_informative_type, informative_return,
}
use zslay.Rules.KnownValueWidening.ConstLaws.{StableConst}

pub argument_wrapped_below :
    (v : Node) (n m : ℕ) → IsBelow n v → argument_wrapped v ≡ some m → m < n
argument_wrapped_below (identifier _ _) n m b h = absurd (ground arith)
argument_wrapped_below _ n m b h = ground arith

pub found_eq : {a b : Option Bool} → found a ≡ found b → a ≡ b
found_eq h = cc

pub value_eq : {a b : Option Bool} → value a ≡ value b → a ≡ b
value_eq h = cc

module _ (s : SourceCode) (environment : TypeEnvironment) (fuel : ℕ) where
  abbrev pub argument_step : ℕ → Option ℕ
  argument_step k = argument_wrapped (s.node k)

  -- `k` stands in parentheses, `!` and `satisfies` inside `n`, and is no such wrapper.
  abbrev pub ArgumentInside : ℕ → ℕ → Type 0
  ArgumentInside n k = Steps argument_step n k × (argument_wrapped (s.node k) ≡ none)

  abbrev pub Informative : ℕ → Type 0
  Informative t = has_informative_type s environment fuel t ≡ some true

  -- What is known of an expression that is no wrapper, without a variable.
  pub data KnownHere : ℕ → Type 0 where
    asserted :
        {k : ℕ} (a : Assertion)
        → as_assertion (s.node k) ≡ some a
        → Informative a.type_annotation
        → KnownHere k
    called :
        {k callee : ℕ} {arguments : List ℕ} (owner : ℕ × FunctionParts) (a : Annotation)
        → s.node k ≡ call_expression callee arguments
        → local_function_for_call s callee ≡ some owner
        → owner.1.return_type ≡ some a
        → Informative a.type_annotation
        → KnownHere k
    evident :
        {k : ℕ}
        → as_assertion (s.node k) ≡ none
        → as_call (s.node k) ≡ none
        → as_identifier (s.node k) ≡ none
        → is_known_evidence_expression s k ≡ true
        → KnownHere k

  -- Known by itself, by the annotation of the variable that it names, or by the initializer of the constant that
  -- it names and that has no annotation.
  pub data KnownArgument : ℕ → Type 0 where
    here : {n k : ℕ} → ArgumentInside n k → KnownHere k → KnownArgument n
    annotated :
        {n k : ℕ} (v : ℕ) (a : Annotation)
        → ArgumentInside n k
        → named_variable s k ≡ some v
        → variable_type_annotation s v ≡ some a
        → Informative a.type_annotation
        → KnownArgument n
    constant :
        {n k m : ℕ} (v : ℕ)
        → ArgumentInside n k
        → named_variable s k ≡ some v
        → variable_type_annotation s v ≡ none
        → StableConst s v m
        → KnownArgument m
        → KnownArgument n

  informative_return_sound :
      (o : Option (ℕ × FunctionParts))
      → informative_return s environment fuel o ≡ some true
      → (owner : ℕ × FunctionParts) × (a : Annotation) × (o ≡ some owner)
        × (owner.1.return_type ≡ some a)
        × Informative a.type_annotation
  informative_return_sound none h = absurd (ground arith)
  informative_return_sound (some (i, f)) h = elim (Option-cases f.return_type) [
    | inl e ↦ absurd (let c : some false ≡ some true = rw e at h in ground arith)
    | inr (a, e) ↦ ((i, f), a, refl, e, rw e at h)
  ]

  pub found_sound :
      (k : ℕ) (v : Node)
      → s.node k ≡ v
      → argument_found s environment fuel k v ≡ found (some true)
      → KnownHere k
  found_sound k (ts_as_expression e t) p h =
      asserted (record { expression = e; type_annotation = t }) (rw p refl) (found_eq h)
  found_sound k (ts_type_assertion e t) p h =
      asserted (record { expression = e; type_annotation = t }) (rw p refl) (found_eq h)
  found_sound k (call_expression callee arguments) p h =
      let (owner, a, q, r, i) =
        informative_return_sound (local_function_for_call s callee) (found_eq h) in
      called owner a p q r i
  found_sound k (identifier _ _) p h =
      let (_, c) = variable_or-found (some false) (named_variable s k) h in absurd (ground arith)
  found_sound k _ p h =
      evident (rw p refl) (rw p refl) (rw p refl) (let c = found_eq h in ground arith)

  pub through_sound :
      (k v : ℕ) (w : Node)
      → argument_found s environment fuel k w ≡ through v
      → named_variable s k ≡ some v
  through_sound k v (identifier _ _) h = variable_or-through (some false) (named_variable s k) h
  through_sound k v _ h = absurd (cc)

  pub found_complete :
      (k : ℕ) (v : Node)
      → s.node k ≡ v
      → KnownHere k
      → argument_found s environment fuel k v ≡ found (some true)
  found_complete k v p (asserted a e i) = go v a (rw p at e) i
    where
      go :
          (v : Node) (a : Assertion)
          → as_assertion v ≡ some a
          → Informative a.type_annotation
          → argument_found s environment fuel k v ≡ found (some true)
      go (ts_as_expression e t) a q i =
          let same : t ≡ a.type_annotation = ground arith in rw same (rw i refl)
      go (ts_type_assertion e t) a q i =
          let same : t ≡ a.type_annotation = ground arith in rw same (rw i refl)
      go _ a q i = absurd (ground arith)
  found_complete k v p (called owner a e q r i) =
      rw (sym p ∙ e, argument_found) (rw (q, informative_return) (rw r (rw i refl)))
  found_complete k v p (evident a c i e) = go v (rw p at a) (rw p at c) (rw p at i) e
    where
      go :
          (v : Node)
          → as_assertion v ≡ none
          → as_call v ≡ none
          → as_identifier v ≡ none
          → is_known_evidence_expression s k ≡ true
          → argument_found s environment fuel k v ≡ found (some true)
      go (ts_as_expression e t) a c i h = absurd (ground arith)
      go (ts_type_assertion e t) a c i h = absurd (ground arith)
      go (call_expression e t) a c i h = absurd (ground arith)
      go (identifier e t) a c i h = absurd (ground arith)
      go _ a c i h = rw h refl

  pub through_complete :
      (k v : ℕ)
      → named_variable s k ≡ some v
      → argument_found s environment fuel k (s.node k) ≡ through v
  unfolding named_variable
  through_complete k v h =
      let (name, e, q) = >>=-eq-some (as_identifier (s.node k)) (resolve_variable s k) h in
      let (t, p) = as_identifier-eq-some (s.node k) name e in rw (p, argument_found) (rw h refl)
