-- ===== src/Rules/KnownValueWidening/CallArguments.antt =====
-- rules/no-known-value-widening.ts: the arguments of a call of a type predicate.
use zslay.Prelude.{
  Bool, List, Option, [], false, get_elem?, guard, is_some, length, none, not, some, suc, true, ℕ,
  ◌>>=◌, ◌>>◌,
}
use zslay.Ast.{
  FunctionParts, Node, SourceCode, call_expression, identifier, spread_element, ts_as_expression,
  ts_type_assertion, walk,
}
use zslay.Shared.Bindings.{found, value, Binding, Lookup, chase, initializer_or, variable_or}
use zslay.Shared.FunctionParameters.{contains_unknown_type, function_parameter_type_annotation}
use zslay.Shared.DictionaryTypes.{TypeEnvironment}
use zslay.Shared.DictionaryTypes.UnsafeValues.{classify_unsafe_dictionary_value}
use zslay.Shared.DictionaryTypes.EvidenceExpressions.{is_known_evidence_expression}
use zslay.Rules.KnownValueWidening.{
  argument_wrapped, local_function_for_call, named_variable, stable_initializer,
  type_predicate_subject_index, variable_type_annotation,
}

abbrev pub is_spread_element : Node → Bool
is_spread_element (spread_element _) = true
is_spread_element _ = false

-- A call of a type predicate, with the parameter that the predicate is about and its argument.
pub record PredicateCall : Type 0 where
  pub owner : ℕ × FunctionParts
  pub parameter : ℕ
  pub passed : ℕ

module _ (s : SourceCode) (environment : TypeEnvironment) (fuel : ℕ) where
  unfoldable pub has_informative_type : ℕ → Option Bool
  has_informative_type t = classify_unsafe_dictionary_value s environment fuel t >>= λ unsafe.
      some (not (is_some unsafe))

  -- the return type of the function that a call runs
  abbrev pub informative_return : Option (ℕ × FunctionParts) → Option Bool
  informative_return none = some false
  informative_return (some (_, f)) = elim f.return_type [
    | none ↦ some false
    | some a ↦ has_informative_type a.type_annotation
  ]

  -- `hasKnownCallArgumentEvidence`: what it asks of an expression without wrappers, and of a variable
  abbrev pub argument_found : ℕ → Node → Lookup (Option Bool)
  argument_found n (ts_as_expression _ t) = found (has_informative_type t)
  argument_found n (ts_type_assertion _ t) = found (has_informative_type t)
  argument_found n (call_expression callee _) =
      found (informative_return (local_function_for_call s callee))
  argument_found n (identifier _ _) = variable_or (some false) (named_variable s n)
  argument_found n _ = found (some (is_known_evidence_expression s n))

  abbrev pub argument_lookup : ℕ → Lookup (Option Bool)
  argument_lookup n =
      let m = walk (λ k. argument_wrapped (s.node k)) n in argument_found m (s.node m)

  abbrev pub argument_binding : ℕ → Binding (Option Bool)
  argument_binding v = elim (variable_type_annotation s v) [
    | some a ↦ value (has_informative_type a.type_annotation)
    | none ↦ initializer_or (some false) (stable_initializer s v)
  ]

  unfoldable pub has_known_call_argument_evidence : ℕ → Option Bool
  has_known_call_argument_evidence n =
      chase argument_lookup argument_binding (some false) (suc (length s.variables)) [] n
      >>= λ answer. answer

module _ (s : SourceCode) where
  -- the guards of the `CallExpression` handler, up to the one on the evidence
  unfoldable pub predicate_call : ℕ → List ℕ → Option PredicateCall
  predicate_call callee arguments = do
    owner ← local_function_for_call s callee
    index ← type_predicate_subject_index s owner.1
    parameter ← get_elem? owner.1.params index
    argument ← get_elem? arguments index
    guard (not (is_spread_element (s.node argument)))
    annotation ← function_parameter_type_annotation s parameter
    guard (contains_unknown_type s annotation.type_annotation)
    some (record { owner = owner; parameter = parameter; passed = argument })
