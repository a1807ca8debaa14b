-- ===== src/Shared/DictionaryTypes/UnsafeValues/EndLaws.antt =====
-- `unsafeDirectValue` ends in a program without generic aliases.
use zslay.Prelude.{
  All-mem, Bool, Bool-cases, List, Memᴰ, Option, Option-cases, String, [], ap, arith, false,
  has_name, inl, inr, jump_cost, length, names_left, names_left-cons_lt, names_left_le, none, refl,
  some, suc, true, zero, ℕ, ◌*◌, ◌+◌, ◌<◌, ◌>>=◌, ◌∷◌, ◌≡◌, ◌≤◌,
}
use zslay.Ast.{
  IsBelow, IsTree, Node, SourceCode, ts_any_keyword, ts_intersection_type, ts_keyword,
  ts_object_keyword, ts_type_literal, ts_type_reference, ts_union_type, ts_unknown_keyword, walk_le,
}
use zslay.Shared.ArrayMethod.UnwrapLaws.{annotation_wrapped_below}
use zslay.Shared.TypeAlias.{as_alias, create_type_alias_environment, visible_type_alias}
use zslay.Shared.DictionaryTypes.{
  TypeEnvironment, argument, head_of, interfaces_named, reference_name, unwrap_transparent_type,
}
use zslay.Shared.DictionaryTypes.AliasLaws.{
  IsMonomorphic, alias_substitution-no_parameters, binding_names, length-binding_names,
  mem-of_head_of, visible_alias,
}
use zslay.Shared.DictionaryTypes.UnsafeValues.{
  UnsafeValue, ValuePlan, all_values, every_member, inside, intersection_verdict, is_wrapper,
  result, some_member, some_unsafe, union_verdict, unsafe_value_within, value_of_alias,
  value_of_interface, value_of_name, value_of_node, value_plan,
}

-- a result came back
abbrev pub Answers {ℓ} : {A : Type ℓ} → Option A → Type ℓ
Answers {A} o = (a : A) × (o ≡ some a)

some_unsafe-Answers :
    (value : ℕ → Option (Option UnsafeValue)) (ts : List ℕ)
    → ((t : ℕ) → Memᴰ t ts → Answers (value t))
    → Answers (some_unsafe value ts)
some_unsafe-Answers value [] h = (false, refl)
some_unsafe-Answers value (t ∷ ts) h =
    let (v, e) = h t (Memᴰ.head refl) in
    let (b, q) = some_unsafe-Answers value ts (λ k m. h k (Memᴰ.tail m)) in go v e b q
  where
    go :
        (v : Option UnsafeValue)
        → value t ≡ some v
        → (b : Bool) → some_unsafe value ts ≡ some b
        → Answers (some_unsafe value (t ∷ ts))
    go none e b q = (b, rw (e, some_unsafe) q)
    go (some v) e b q = (true, rw (e, some_unsafe))

all_values-Answers :
    (value : ℕ → Option (Option UnsafeValue)) (ts : List ℕ)
    → ((t : ℕ) → Memᴰ t ts → Answers (value t))
    → Answers (all_values value ts)
all_values-Answers value [] h = ([], refl)
all_values-Answers value (t ∷ ts) h =
    let (v, e) = h t (Memᴰ.head refl) in
    let (vs, q) = all_values-Answers value ts (λ k m. h k (Memᴰ.tail m)) in (v ∷ vs, ground arith)

abbrev pub alias_names : TypeEnvironment → List String
alias_names environment = binding_names environment.type_aliases

-- The measure of the recursions: the names that are left to resolve, then the place in the tree.
abbrev pub cost : TypeEnvironment → ℕ → List String → ℕ → ℕ
cost environment root resolving t = names_left resolving (alias_names environment) * suc root + t

-- The fuel that suffices: one way down the tree for each type binding, and one more.
abbrev pub enough : TypeEnvironment → ℕ → ℕ → ℕ
enough environment root t = suc (length environment.type_aliases * suc root + t)

module _ (s : SourceCode) (tree : IsTree s) where
  pub unwrap_transparent_type_le : (t : ℕ) → unwrap_transparent_type s t ≤ t
  unfolding unwrap_transparent_type
  unwrap_transparent_type_le t =
      walk_le _ (λ k m h. annotation_wrapped_below (s.node k) k m (tree.below k) h) t

  module _ (environment : TypeEnvironment) (root : ℕ)
      (of_root : environment.type_aliases ≡ create_type_alias_environment s root)
      (mono : IsMonomorphic s environment.type_aliases) where
    -- What a call goes on with is smaller.
    abbrev Smaller : List String → ℕ → ValuePlan → Type 0
    Smaller resolving t (result v) = Unit
    Smaller resolving t (some_member ts) = (k : ℕ) → Memᴰ k ts → k < t
    Smaller resolving t (every_member ts) = (k : ℕ) → Memᴰ k ts → k < t
    Smaller resolving t (inside k) = k < t
    Smaller resolving t (ValuePlan.aliased next resolving' body) =
        (next ≡ [])
        × (names_left resolving' (alias_names environment)
            < names_left resolving (alias_names environment))
        × (body < root)

    alias-Smaller :
        (resolving : List String) (t u : ℕ) (name : String) (arguments : List ℕ)
        → Smaller resolving t (value_of_alias s environment [] resolving u name arguments)
    alias-Smaller resolving t u name arguments =
        elim (Option-cases (visible_type_alias s environment.type_aliases name u)) [
          | inl e ↦ rw (e, value_of_alias) tt
          | inr (a, e) ↦ elim (Bool-cases (has_name resolving name)) [
            | inl q ↦ rw (e, value_of_alias) (rw q tt)
            | inr q ↦ elim (Option-cases (as_alias (s.node a))) [
              | inl f ↦ rw (e, value_of_alias) (rw q (rw f tt))
              | inr (alias, f) ↦
                  let (known, plain, low) =
                    visible_alias s tree root u a name alias (rw of_root at mono) (rw of_root at e)
                      f in
                  let subst_none = alias_substitution-no_parameters s alias arguments [] plain in
                  let fewer =
                    names_left-cons_lt name resolving (alias_names environment) q
                      (rw (← of_root) at known) in
                  rw (e, value_of_alias) (rw q (rw f (rw subst_none (refl, fewer, low))))
            ]
          ]
        ]

    interface-Smaller :
        (resolving : List String) (t : ℕ) (ds : List ℕ) (otherwise : ValuePlan)
        → Smaller resolving t otherwise
        → Smaller resolving t (value_of_interface s environment ds otherwise)
    interface-Smaller resolving t [] otherwise k = k
    interface-Smaller resolving t (d ∷ ds) otherwise k = tt

    name-Smaller :
        (resolving : List String) (t u : ℕ) (name : String) (arguments : List ℕ)
        → ((k : ℕ) → Memᴰ k arguments → k < t)
        → Smaller resolving t (value_of_name s environment [] resolving u name arguments)
    unfolding argument
    name-Smaller resolving t u name arguments low =
        elim (Bool-cases (is_wrapper s environment name u)) [
          | inl w ↦ elim (Option-cases (head_of arguments)) [
            | inl e ↦ rw (w, value_of_name) (rw e tt)
            | inr (k, e) ↦ rw (w, value_of_name) (rw e (low k (mem-of_head_of arguments k e)))
          ]
          | inr w ↦
              rw (w, value_of_name)
                (interface-Smaller resolving t (interfaces_named s environment name) _
                  (alias-Smaller resolving t u name arguments))
        ]

    node-Smaller :
        (resolving : List String) (t u : ℕ) (v : Node)
        → IsBelow u v
        → u ≤ t
        → Smaller resolving t (value_of_node s environment [] resolving u v)
    node-Smaller resolving t u (ts_keyword ts_unknown_keyword) b h = tt
    node-Smaller resolving t u (ts_keyword ts_any_keyword) b h = tt
    node-Smaller resolving t u (ts_keyword ts_object_keyword) b h = tt
    node-Smaller resolving t u (ts_type_literal members) b h = tt
    node-Smaller resolving t u (ts_union_type ts) b h =
        λ k m. omega (arith, All-mem (λ x. x < u) {xs = ts} b m)
    node-Smaller resolving t u (ts_intersection_type ts) b h =
        λ k m. omega (arith, All-mem (λ x. x < u) {xs = ts} b m)
    node-Smaller resolving t u (ts_type_reference n ts) b h =
        go (reference_name s (record { type_name = n; arguments = ts }))
      where
        go :
            (o : Option String)
            → Smaller resolving t (elim o [
              | none ↦ result none
              | some name ↦ value_of_name s environment [] resolving u name ts
            ])
        go none = tt
        go (some name) =
            name-Smaller resolving t u name ts
              (λ k m. omega (arith, All-mem (λ x. x < u) {xs = ts} b.1 m))
    node-Smaller resolving t u _ b h = tt

    plan-Smaller :
        (resolving : List String) (t : ℕ)
        → Smaller resolving t (value_plan s environment [] resolving t)
    unfolding value_plan
    plan-Smaller resolving t =
        node-Smaller resolving t (unwrap_transparent_type s t)
          (s.node (unwrap_transparent_type s t)) (tree.below (unwrap_transparent_type s t))
          (unwrap_transparent_type_le t)

    ends_step :
        (fuel : ℕ) (resolving : List String) (t : ℕ) (p : ValuePlan)
        → ((seen : List String) (k : ℕ)
            → cost environment root seen k < fuel
            → Answers (unsafe_value_within s environment fuel [] seen k))
        → value_plan s environment [] resolving t ≡ p
        → Smaller resolving t p
        → cost environment root resolving t < suc fuel
        → Answers (unsafe_value_within s environment (suc fuel) [] resolving t)
    unfolding unsafe_value_within
    ends_step fuel resolving t (result v) ih e k h = (v, rw (e, unsafe_value_within))
    ends_step fuel resolving t (some_member ts) ih e k h =
        let (b, q) =
          some_unsafe-Answers (λ x. unsafe_value_within s environment fuel [] resolving x) ts
            (λ x m. ih resolving x (omega (arith, k x m))) in
        (
          union_verdict b,
          rw (e, unsafe_value_within) (ap (λ o. o >>= λ found. some (union_verdict found)) q),
        )
    ends_step fuel resolving t (every_member ts) ih e k h =
        let (vs, q) =
          all_values-Answers (λ x. unsafe_value_within s environment fuel [] resolving x) ts
            (λ x m. ih resolving x (omega (arith, k x m))) in
        (
          intersection_verdict vs,
          rw (e, unsafe_value_within) (ap (λ o. o >>= λ us. some (intersection_verdict us)) q),
        )
    ends_step fuel resolving t (inside x) ih e k h =
        let (v, q) = ih resolving x (omega arith) in (v, rw (e, unsafe_value_within) q)
    ends_step fuel resolving t (ValuePlan.aliased next resolving' body) ih e k h =
        let (v, q) = ih resolving' body (
          jump_cost (names_left resolving' (alias_names environment))
            (names_left resolving (alias_names environment)) root body t fuel k.1 k.2 h) in
        (v, rw (e, unsafe_value_within) (rw (k.0) q))

    pub unsafe_value_within-Answers :
        (fuel : ℕ) (resolving : List String) (t : ℕ)
        → cost environment root resolving t < fuel
        → Answers (unsafe_value_within s environment fuel [] resolving t)
    unsafe_value_within-Answers zero resolving t h = absurd (omega arith)
    unsafe_value_within-Answers (suc fuel) resolving t h =
        ends_step fuel resolving t (value_plan s environment [] resolving t)
          (unsafe_value_within-Answers fuel) refl (plan-Smaller resolving t) h

    pub cost_le : (t : ℕ) → cost environment root [] t < enough environment root t
    cost_le t =
        let p : names_left [] (alias_names environment) * suc root
            ≤ length environment.type_aliases * suc root =
          (let q = names_left_le [] (alias_names environment) in
            let r = length-binding_names environment.type_aliases in grind arith) in
        omega (arith, p)
