-- ===== src/Rules/ReduceCopies.antt =====
-- rules/no-reduce-accumulator-copy.ts. The searches answer `none` where their fuel runs out.
pub mod ReducerLaws
pub mod AccumulatorLaws
pub mod WayLaws
pub mod CopyLaws
use zslay.Prelude.{
  Bool, List, Option, String, [], any, any_answer, both_answer, false, find, guard, has_name,
  if◌then◌else◌, is_empty, is_some, leb, length, none, some, suc, true, ℕ, ◌&&◌, ◌=#◌, ◌==◌, ◌>>=◌,
  ◌>>◌, ◌∷◌,
}
use zslay.Ast.{
  Call, FunctionParts, Node, Report, SourceCode, arrow_function_expression, as_call, as_identifier,
  as_object, assignment_pattern, function, function_declaration, function_expression, parent,
  report,
}
use zslay.Shared.ArrayMethod.{
  Target, array_method_target, first_const_initializer, is_known_array_expression, is_reassignment,
  resolve_array_binding, unwrap_array_expression,
}
use zslay.Shared.Bindings.{
  Binding, Lookup, chase, found, initializer, initializer_or, through, value, variable_or,
}

-- What `enclosingReducer` returns.
pub record Reducer : Type 0 where
  pub callback : ℕ
  pub accumulator : ℕ
  pub initial_value : Option ℕ

abbrev pub first_of : List ℕ → Option ℕ
first_of [] = none
first_of (x ∷ _) = some x

abbrev pub rest_of : List ℕ → List ℕ
rest_of [] = []
rest_of (_ ∷ xs) = xs

abbrev pub is_function_declaration : Node → Bool
is_function_declaration (function function_declaration _) = true
is_function_declaration _ = false

-- An arrow function or a function expression, with its parts.
abbrev pub as_callback : Node → Option FunctionParts
as_callback (function arrow_function_expression f) = some f
as_callback (function function_expression f) = some f
as_callback _ = none

-- `firstParameter?.type === "AssignmentPattern" ? firstParameter.left : firstParameter`
abbrev pub without_default : ℕ → Node → ℕ
without_default p (assignment_pattern left _ _) = left
without_default p _ = p

abbrev pub reduce_methods : List String
reduce_methods = "reduce" ∷ "reduceRight" ∷ []

abbrev pub copy_methods : List String
copy_methods = "concat" ∷ "slice" ∷ "toSpliced" ∷ "toSorted" ∷ "toReversed" ∷ "with" ∷ []

module _ (s : SourceCode) where
  -- The loop over `owner`, from the callback's ancestors.
  unfoldable pub outside_wrappers : ℕ → List ℕ → Option ℕ
  outside_wrappers callback [] = none
  outside_wrappers callback (owner ∷ above) = elim (unwrap_array_expression s owner =# callback) [
    | true ↦ outside_wrappers callback above
    | false ↦ some owner
  ]

  unfoldable pub accumulator_parameter : FunctionParts → Option ℕ
  accumulator_parameter f = do
    first ← first_of f.params
    let accumulator = without_default first (s.node first)
    name ← as_identifier (s.node accumulator)
    some accumulator

  -- the tests on the call that owns the callback
  unfoldable pub reducer_call : ℕ → FunctionParts → Call → Option Reducer
  reducer_call callback f call = do
    method ← array_method_target s call.callee
    guard (has_name reduce_methods method.name && leb (length call.arguments) 2)
    first ← first_of call.arguments
    guard (unwrap_array_expression s first =# callback)
    accumulator ← accumulator_parameter f
    some (record {
      callback = callback;
      accumulator = accumulator;
      initial_value = first_of (rest_of call.arguments);
    })

  unfoldable pub reducer_at : ℕ → FunctionParts → List ℕ → Option Reducer
  reducer_at callback f above = do
    owner ← outside_wrappers callback above
    call ← as_call (s.node owner)
    reducer_call callback f call

  -- The loop of `enclosingReducer`, over the ancestors.
  unfoldable pub reducer_from : List ℕ → Option Reducer
  reducer_from [] = none
  reducer_from (p ∷ above) = elim (is_function_declaration (s.node p)) [
    | true ↦ none
    | false ↦ elim (as_callback (s.node p)) [
      | none ↦ reducer_from above
      | some f ↦ reducer_at p f above
    ]
  ]

  unfoldable pub enclosing_reducer : ℕ → Option Reducer
  enclosing_reducer n = reducer_from (s.ancestors n)

  -- `referencesAccumulator`: what it asks of an expression, and of a variable not visited yet
  abbrev pub accumulator_lookup : ℕ → Lookup Bool
  accumulator_lookup n = variable_or false (resolve_array_binding s n)

  abbrev pub accumulator_binding : ℕ → ℕ → Binding Bool
  accumulator_binding accumulator v =
      if v =# accumulator
      then value true
      else if any is_reassignment (s.variable v).references
      then value false
      else initializer_or false (first_const_initializer s (s.variable v).defs)

  unfoldable pub references_accumulator : ℕ → ℕ → Option Bool
  references_accumulator accumulator n =
      chase accumulator_lookup (accumulator_binding accumulator) false (suc (length s.variables)) []
        n

  unfoldable pub is_global_copy_owner : ℕ → String → Bool
  is_global_copy_owner n name = elim (as_identifier (s.node (unwrap_array_expression s n))) [
    | none ↦ false
    | some x ↦ x == name && (elim (resolve_array_binding s (unwrap_array_expression s n)) [
      | none ↦ true
      | some v ↦ is_empty (s.variable v).defs
    ])
  ]

  -- `getDeclaredVariables(…).find(…)`
  unfoldable pub accumulator_variable : Reducer → Option ℕ
  accumulator_variable reducer =
      find (λ v. any (λ i. s.start i =# s.start reducer.accumulator) (s.variable v).identifiers)
        (s.get_declared_variables reducer.callback)

  abbrev pub is_object_literal : ℕ → Bool
  is_object_literal n = is_some (as_object (s.node (unwrap_array_expression s n)))

  -- `Object.assign({…}, …)`
  unfoldable pub assign_copies : ℕ → List ℕ → Option Bool
  assign_copies accumulator [] = some false
  assign_copies accumulator (target ∷ sources) =
      if is_object_literal target
      then any_answer (references_accumulator accumulator) sources
      else some false

  -- `Array.from(…)`
  unfoldable pub from_copies : ℕ → List ℕ → Option Bool
  from_copies accumulator [] = some false
  from_copies accumulator (source ∷ _) = references_accumulator accumulator source

  abbrev pub is_known_array : Option ℕ → Option Bool
  is_known_array none = some false
  is_known_array (some initial) = is_known_array_expression s initial

  -- a copying method of the accumulator, which is known to be an array by its initial value
  unfoldable pub method_copies : ℕ → Reducer → Target → Option Bool
  method_copies accumulator reducer method =
      both_answer (is_known_array reducer.initial_value)
        (references_accumulator accumulator method.object)

  unfoldable pub copies_accumulator : ℕ → Reducer → Target → List ℕ → Option Bool
  copies_accumulator accumulator reducer method arguments =
      if method.name == "assign" && is_global_copy_owner method.object "Object"
      then assign_copies accumulator arguments
      else if method.name == "from" && is_global_copy_owner method.object "Array"
      then from_copies accumulator arguments
      else if has_name copy_methods method.name
      then method_copies accumulator reducer method
      else some false

  -- The call with its method, its reducer and the variable of the accumulator, where there are all.
  unfoldable pub call_in_reducer : ℕ → Option (Call × Target × Reducer × ℕ)
  call_in_reducer n = do
    call ← as_call (s.node n)
    method ← array_method_target s call.callee
    reducer ← enclosing_reducer n
    accumulator ← accumulator_variable reducer
    some (call, method, reducer, accumulator)

  unfoldable pub copies_in : ℕ → Option (Call × Target × Reducer × ℕ) → Option (List Report)
  copies_in n none = some []
  copies_in n (some (call, method, reducer, accumulator)) = do
    copies ← copies_accumulator accumulator reducer method call.arguments
    some (if copies then report n "accumulatorCopy" else [])

  unfoldable pub no_reduce_accumulator_copy : ℕ → Option (List Report)
  unfolding copies_in
  no_reduce_accumulator_copy n = copies_in n (call_in_reducer n)
