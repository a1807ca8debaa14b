-- ===== src/Tests/ReduceTests.antt =====
-- The rule on copies of an accumulator on a reducer.
use zslay.Prelude.{
  All, Bool, List, ◌⊎◌, [], arith, false, if◌then◌else◌, none, refl, some, suc, true, zero, ℕ, ◌<◌,
  ◌==◌, ◌↔◌, ◌∷◌, ◌≡◌,
}
use zslay.Ast.{
  IsScoped, IsTree, Report, Scope, SourceCode, Variable, array_expression,
  arrow_function_expression, call_expression, expression_statement, function, identifier,
  member_expression, program, walk,
}
use zslay.Tests.Sample.{Entry, source_of, source_of-IsTree, variable_at}
use zslay.Shared.ArrayMethod.{
  array_method_target, evidence, is_known_array_expression, is_known_array_within,
  resolve_array_binding, unwrap_array_expression,
}
use zslay.Shared.Scope.{find_binding}
use zslay.Shared.Bindings.{chase}
use zslay.Rules.ReduceCopies.{
  accumulator_parameter, accumulator_variable, assign_copies, call_in_reducer, copies_accumulator,
  copies_in, enclosing_reducer, from_copies, is_global_copy_owner, method_copies,
  no_reduce_accumulator_copy, outside_wrappers, reducer_at, reducer_call, reducer_from,
  references_accumulator,
}
use zslay.Rules.ReduceCopies.AccumulatorLaws.{NamesAccumulator, references_accumulator_iff}
use zslay.Rules.ReduceCopies.CopyLaws.{CopiesIn, no_reduce_accumulator_copy_iff}

-- xs.reduce(acc => acc.concat(x), []);
abbrev reducer : List Entry
reducer =
    (identifier "acc" none, 6 ∷ 11 ∷ 12 ∷ 13 ∷ [])
    ∷ (identifier "acc" none, 3 ∷ 5 ∷ 6 ∷ 11 ∷ 12 ∷ 13 ∷ [])
    ∷ (identifier "concat" none, 3 ∷ 5 ∷ 6 ∷ 11 ∷ 12 ∷ 13 ∷ [])
    ∷ (member_expression 1 2 false, 5 ∷ 6 ∷ 11 ∷ 12 ∷ 13 ∷ [])
    ∷ (identifier "x" none, 5 ∷ 6 ∷ 11 ∷ 12 ∷ 13 ∷ [])
    ∷ (call_expression 3 (4 ∷ []), 6 ∷ 11 ∷ 12 ∷ 13 ∷ [])
    ∷ (
      function arrow_function_expression (record {
        id = none;
        type_parameters = [];
        params = 0 ∷ [];
        return_type = none;
        body = some 5;
      }),
      11 ∷ 12 ∷ 13 ∷ [],
    )
    ∷ (identifier "xs" none, 9 ∷ 11 ∷ 12 ∷ 13 ∷ [])
    ∷ (identifier "reduce" none, 9 ∷ 11 ∷ 12 ∷ 13 ∷ [])
    ∷ (member_expression 7 8 false, 11 ∷ 12 ∷ 13 ∷ [])
    ∷ (array_expression [], 11 ∷ 12 ∷ 13 ∷ [])
    ∷ (call_expression 9 (6 ∷ 10 ∷ []), 12 ∷ 13 ∷ [])
    ∷ (expression_statement 11, 13 ∷ [])
    ∷ (program (12 ∷ []), [])
    ∷ []

abbrev accumulator_scope : Scope
accumulator_scope name = if name == "acc" then some 0 else none

abbrev accumulator_variables : List Variable
accumulator_variables =
    record {
      name = "acc";
      identifiers = 0 ∷ [];
      defs = record { type = "Parameter"; node = 6; parent = none } ∷ [];
      references = [];
    }
    ∷ []

abbrev reducer_source : SourceCode
reducer_source = source_of reducer accumulator_variables accumulator_scope

reducer_source-IsTree : IsTree reducer_source
reducer_source-IsTree =
    source_of-IsTree reducer accumulator_variables accumulator_scope (omega arith) (ground arith)

accumulator_defined : (v : ℕ) → All (λ d. d.node < 100) (variable_at accumulator_variables v).defs
accumulator_defined zero = (omega arith, tt)
accumulator_defined (suc v) = tt

reducer_source-IsScoped : IsScoped reducer_source
reducer_source-IsScoped = record {
  tree = reducer_source-IsTree;
  bound = λ n. ((λ name v h. ground arith), tt);
  defined = accumulator_defined;
}

abbrev copy_report : Report
copy_report = record { node = 5; message_id = "accumulatorCopy"; placeholders = [] }

reducer_run :
    (references_accumulator reducer_source 0 1 ≡ some true)
    × (references_accumulator reducer_source 0 4 ≡ some false)
    × (no_reduce_accumulator_copy reducer_source 5 ≡ some (copy_report ∷ []))
    × (no_reduce_accumulator_copy reducer_source 11 ≡ some [])
unfolding references_accumulator chase resolve_array_binding unwrap_array_expression find_binding
    walk no_reduce_accumulator_copy copies_in call_in_reducer array_method_target enclosing_reducer
    reducer_from reducer_at outside_wrappers reducer_call accumulator_parameter accumulator_variable
    copies_accumulator is_global_copy_owner assign_copies from_copies method_copies
    is_known_array_expression is_known_array_within evidence
reducer_run = (refl, refl, refl, refl)

references_accumulator_example :
    ((b : Bool) × (references_accumulator reducer_source 0 1 ≡ some b))
    × ((references_accumulator reducer_source 0 1 ≡ some true)
        ↔ NamesAccumulator reducer_source 0 1)
references_accumulator_example =
    references_accumulator_iff reducer_source 0 reducer_source-IsScoped 1

no_reduce_accumulator_copy_example :
    ((no_reduce_accumulator_copy reducer_source 5 ≡ some (copy_report ∷ []))
      × CopiesIn reducer_source 5)
    ⊎ ((no_reduce_accumulator_copy reducer_source 5 ≡ some []) × ¬ CopiesIn reducer_source 5)
no_reduce_accumulator_copy_example =
    no_reduce_accumulator_copy_iff reducer_source reducer_source-IsScoped 5
