-- ===== src/Shared/DictionaryTypes/UnsafeValues/LoopLaws.antt =====
-- An alias parameter whose argument is a union that names the parameter again.
use zslay.Prelude.{
  List, Option, String, ap, arith, false, none, refl, some, suc, zero, ℕ, ◌>>=◌, ◌∷◌, ◌≡◌,
}
use zslay.Ast.{SourceCode, as_identifier, ts_type_reference, ts_union_type}
use zslay.Shared.DictionaryTypes.{
  Arguments, TypeEnvironment, argument, is_unapplied_reference_to, unwrap_transparent_type,
}
use zslay.Shared.DictionaryTypes.UnsafeValues.{
  UnsafeValue, inside, some_member, some_unsafe, union_verdict, inside, is_wrapper, some_member,
  unsafe_value_within, value_plan,
}

some_unsafe-none :
    (value : ℕ → Option (Option UnsafeValue)) (r : ℕ) (ts : List ℕ)
    → value r ≡ none
    → some_unsafe value (r ∷ ts) ≡ none
some_unsafe-none value r ts e = rw (e, some_unsafe)

module _ (s : SourceCode) (environment : TypeEnvironment) (substitutions : Arguments)
    (resolving : List String) (name : String) (t r n : ℕ) (ts arguments : List ℕ)
    (is_union : s.node (unwrap_transparent_type s t) ≡ ts_union_type (r ∷ ts))
    (is_reference : s.node (unwrap_transparent_type s r) ≡ ts_type_reference n arguments)
    (named : as_identifier (s.node n) ≡ some name) (bound : argument name substitutions ≡ some t)
    (no_wrapper : is_wrapper s environment name (unwrap_transparent_type s r) ≡ false) where
  union_plan : value_plan s environment substitutions resolving t ≡ some_member (r ∷ ts)
  unfolding value_plan
  union_plan = rw (is_union, value_plan)

  applied : is_unapplied_reference_to s t name ≡ false
  unfolding is_unapplied_reference_to
  applied = rw (is_union, is_unapplied_reference_to)

  reference_plan : value_plan s environment substitutions resolving r ≡ inside t
  unfolding value_plan
  reference_plan = rw (is_reference, value_plan) (ground (arith, applied))

  -- With `name` bound to a union whose first member is `name`, the search for an unsafe value returns for no
  -- amount of fuel: the recursion of the code does not end.
  pub unsafe_value_never_ends :
      (fuel : ℕ) → unsafe_value_within s environment fuel substitutions resolving t ≡ none
  unfolding unsafe_value_within
  unsafe_value_never_ends zero = refl
  unsafe_value_never_ends (suc zero) = rw (union_plan, unsafe_value_within)
  unsafe_value_never_ends (suc (suc fuel)) =
      rw (union_plan, unsafe_value_within)
        (ap (λ found. found >>= λ b. some (union_verdict b))
          (some_unsafe-none
            (λ k. unsafe_value_within s environment (suc fuel) substitutions resolving k) r ts
            (rw (reference_plan, unsafe_value_within) (unsafe_value_never_ends fuel))))
