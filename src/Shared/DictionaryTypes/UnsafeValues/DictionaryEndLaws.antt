-- ===== src/Shared/DictionaryTypes/UnsafeValues/DictionaryEndLaws.antt =====
-- `dictionaryValueTypes` and the two classifications end in a program without generic aliases.
use zslay.Prelude.{
  All, All-mem, Bool-cases, List, Memᴰ, Option, Option-cases, String, [], arith, gather, get_elem?,
  has_name, inl, inr, jump_cost, names_left, names_left-cons_lt, none, refl, some, suc, zero, ℕ,
  ◌&&◌, ◌+◌, ◌<◌, ◌==◌, ◌||◌, ◌≤◌, ◌∷◌, ◌≡◌, ◌++◌,
}
use zslay.Ast.{
  IsBelow, IsTree, Node, SourceCode, ts_index_signature, ts_mapped_type, ts_type_literal,
  ts_type_reference,
}
use zslay.Shared.TypeAlias.{as_alias, create_type_alias_environment, visible_type_alias}
use zslay.Shared.TypeAlias.Resolve.{head_of}
use zslay.Shared.DictionaryTypes.{
  TypeEnvironment, argument, is_built_in, reference_name, unwrap_transparent_type,
}
use zslay.Shared.DictionaryTypes.AliasLaws.{
  IsMonomorphic, alias_substitution-no_parameters, visible_alias,
}
use zslay.Shared.DictionaryTypes.UnsafeValues.{
  DictionaryPlan, ResolvedType, UnsafeValue, classify_unsafe_dictionary,
  classify_unsafe_dictionary_value, dictionary_plan, dictionary_values_within, first_unsafe,
  index_value, is_wrapper, mapped_value, source, source_type, unsafe_value_within, values,
  values_of_alias, values_of_name, values_of_node,
}
use zslay.Shared.DictionaryTypes.UnsafeValues.EndLaws.{
  Answers, alias_names, cost, cost_le, enough, unsafe_value_within-Answers,
  unwrap_transparent_type_le,
}

mem-of_get_elem? : (xs : List ℕ) (i x : ℕ) → get_elem? xs i ≡ some x → Memᴰ x xs
mem-of_get_elem? [] i x e = absurd (ground arith)
mem-of_get_elem? (y ∷ ys) zero x e = Memᴰ.head (ground arith)
mem-of_get_elem? (y ∷ ys) (suc i) x e = Memᴰ.tail (mem-of_get_elem? ys i x e)

All-append {ℓ κ} :
    {A : Type ℓ} (P : A → Type κ) (xs ys : List A) → All P xs → All P ys → All P (xs ++ ys)
All-append P [] ys h k = k
All-append P (x ∷ xs) ys h k = (h.0, All-append P xs ys h.1 k)

module _ (s : SourceCode) (tree : IsTree s) where
  -- A value type stands under no arguments, and not above `bound`.
  abbrev Plain : ℕ → ResolvedType → Type 0
  Plain bound r = (r.substitutions ≡ []) × (r.type ≤ bound)

  index-All :
      (bound u m : ℕ) (v : Node)
      → IsBelow m v
      → m < u
      → u ≤ bound
      → All (Plain bound) (index_value [] v)
  index-All bound u m (ts_index_signature ps none) b h k = tt
  index-All bound u m (ts_index_signature ps (some a)) b h k = ((refl, omega arith), tt)
  index-All bound u m _ b h k = tt

  members-All :
      (bound u : ℕ) (ms : List ℕ)
      → All (λ m. m < u) ms
      → u ≤ bound
      → All (Plain bound) (gather (λ m. index_value [] (s.node m)) ms)
  members-All bound u [] b k = tt
  members-All bound u (m ∷ ms) b k =
      All-append (Plain bound) (index_value [] (s.node m)) _
        (index-All bound u m (s.node m) (tree.below m) b.0 k) (members-All bound u ms b.1 k)

  mapped-All :
      (bound : ℕ) (o : Option ℕ)
      → ((t : ℕ) → o ≡ some t → t ≤ bound)
      → All (Plain bound) (mapped_value [] o)
  mapped-All bound none h = tt
  mapped-All bound (some t) h = ((refl, h t refl), tt)

  module _ (environment : TypeEnvironment) (root : ℕ)
      (of_root : environment.type_aliases ≡ create_type_alias_environment s root)
      (mono : IsMonomorphic s environment.type_aliases) where
    abbrev names : List String
    names = alias_names environment

    -- What a call finds, or goes on with, is small.
    abbrev Smaller : ℕ → List String → ℕ → DictionaryPlan → Type 0
    Smaller bound resolving t (values rs) = All (Plain bound) rs
    Smaller bound resolving t (source k) = k < t
    Smaller bound resolving t (DictionaryPlan.aliased next resolving' body) =
        (next ≡ []) × (names_left resolving' names < names_left resolving names) × (body < root)

    alias-Smaller :
        (bound : ℕ) (resolving : List String) (t u : ℕ) (name : String) (arguments : List ℕ)
        → Smaller bound resolving t (values_of_alias s environment [] resolving u name arguments)
    alias-Smaller bound resolving t u name arguments =
        elim (Option-cases (visible_type_alias s environment.type_aliases name u)) [
          | inl e ↦ rw (e, values_of_alias) tt
          | inr (a, e) ↦ elim (Bool-cases (has_name resolving name)) [
            | inl q ↦ rw (e, values_of_alias) (rw q tt)
            | inr q ↦ elim (Option-cases (as_alias (s.node a))) [
              | inl f ↦ rw (e, values_of_alias) (rw q (rw f tt))
              | inr (alias, f) ↦
                  let (known, plain, low) =
                    visible_alias s tree root u a name alias (rw of_root at mono) (rw of_root at e)
                      f in
                  let subst_none = alias_substitution-no_parameters s alias arguments [] plain in
                  let fewer = names_left-cons_lt name resolving names q (rw (← of_root) at known) in
                  rw (e, values_of_alias) (rw q (rw f (rw subst_none (refl, fewer, low))))
            ]
          ]
        ]

    source-Smaller :
        (bound : ℕ) (resolving : List String) (t : ℕ) (arguments : List ℕ)
        → ((k : ℕ) → Memᴰ k arguments → k < t)
        → Smaller bound resolving t (source_type (head_of arguments))
    source-Smaller bound resolving t [] low = tt
    source-Smaller bound resolving t (x ∷ xs) low = low x (Memᴰ.head refl)

    name-Smaller :
        (bound : ℕ) (resolving : List String) (t u : ℕ) (name : String) (arguments : List ℕ)
        → ((k : ℕ) → Memᴰ k arguments → k < t)
        → t ≤ bound
        → Smaller bound resolving t (values_of_name s environment [] resolving u name arguments)
    unfolding argument
    name-Smaller bound resolving t u name arguments low h =
        elim (Bool-cases (is_wrapper s environment name u)) [
          | inl w ↦ rw (w, values_of_name) (source-Smaller bound resolving t arguments low)
          | inr w ↦ elim (Bool-cases (name == "Record" && is_built_in s environment name u)) [
            | inl r ↦
                rw (w, values_of_name)
                  (rw r (
                    mapped-All bound (get_elem? arguments 1)
                      (λ k e. omega (arith, low k (mem-of_get_elem? arguments 1 k e)))))
            | inr r ↦
                elim (Bool-cases
                  ((name == "Pick" || name == "Omit") && is_built_in s environment name u)) [
                    | inl p ↦
                        rw (w, values_of_name)
                          (rw r (rw p (source-Smaller bound resolving t arguments low)))
                    | inr p ↦
                        rw (w, values_of_name)
                          (rw r (rw p (alias-Smaller bound resolving t u name arguments)))
                  ]
          ]
        ]

    node-Smaller :
        (bound : ℕ) (resolving : List String) (t u : ℕ) (v : Node)
        → IsBelow u v
        → u ≤ t
        → t ≤ bound
        → Smaller bound resolving t (values_of_node s environment [] resolving u v)
    node-Smaller bound resolving t u (ts_type_literal ms) b h k =
        members-All bound u ms b (omega arith)
    node-Smaller bound resolving t u (ts_mapped_type key constraint name none) b h k = tt
    node-Smaller bound resolving t u (ts_mapped_type key constraint none (some a)) b h k =
        ((refl, omega arith), tt)
    node-Smaller bound resolving t u (ts_mapped_type key constraint (some n) (some a)) b h k =
        ((refl, omega arith), tt)
    node-Smaller bound resolving t u (ts_type_reference n ts) b h k =
        go (reference_name s (record { type_name = n; arguments = ts }))
      where
        go :
            (o : Option String)
            → Smaller bound resolving t (elim o [
              | none ↦ values []
              | some name ↦ values_of_name s environment [] resolving u name ts
            ])
        go none = tt
        go (some name) =
            name-Smaller bound resolving t u name ts
              (λ x m. omega (arith, All-mem (λ y. y < u) {xs = ts} b.1 m)) k
    node-Smaller bound resolving t u _ b h k = tt

    plan-Smaller :
        (bound : ℕ) (resolving : List String) (t : ℕ)
        → t ≤ bound
        → Smaller bound resolving t (dictionary_plan s environment [] resolving t)
    unfolding dictionary_plan
    plan-Smaller bound resolving t h =
        node-Smaller bound resolving t (unwrap_transparent_type s t)
          (s.node (unwrap_transparent_type s t)) (tree.below (unwrap_transparent_type s t))
          (unwrap_transparent_type_le s tree t) h

    -- an answer whose value types are small
    abbrev Found : ℕ → Option (List ResolvedType) → Type 0
    Found bound o = (rs : List ResolvedType) × (o ≡ some rs) × All (Plain bound) rs

    ends_step :
        (bound fuel : ℕ) (resolving : List String) (t : ℕ) (p : DictionaryPlan)
        → ((seen : List String) (k : ℕ)
            → k ≤ bound
            → cost environment root seen k < fuel
            → Found bound (dictionary_values_within s environment fuel [] seen k))
        → dictionary_plan s environment [] resolving t ≡ p
        → Smaller bound resolving t p
        → t ≤ bound
        → root ≤ bound
        → cost environment root resolving t < suc fuel
        → Found bound (dictionary_values_within s environment (suc fuel) [] resolving t)
    unfolding dictionary_values_within
    ends_step bound fuel resolving t (values rs) ih e k low r h =
        (rs, rw (e, dictionary_values_within), k)
    ends_step bound fuel resolving t (source x) ih e k low r h =
        let (rs, q, a) = ih resolving x (omega arith) (omega arith) in
        (rs, rw (e, dictionary_values_within) q, a)
    ends_step bound fuel resolving t (DictionaryPlan.aliased next resolving' body) ih e k low r h =
        let (rs, q, a) = ih resolving' body (omega (arith, k.2)) (
          jump_cost (names_left resolving' names) (names_left resolving names) root body t fuel k.1
            k.2 h) in
        (rs, rw (e, dictionary_values_within) (rw (k.0) q), a)

    dictionary_values_within-Found :
        (bound fuel : ℕ) (resolving : List String) (t : ℕ)
        → t ≤ bound
        → root ≤ bound
        → cost environment root resolving t < fuel
        → Found bound (dictionary_values_within s environment fuel [] resolving t)
    dictionary_values_within-Found bound zero resolving t low r h = absurd (omega arith)
    dictionary_values_within-Found bound (suc fuel) resolving t low r h =
        ends_step bound fuel resolving t (dictionary_plan s environment [] resolving t)
          (λ seen k l c. dictionary_values_within-Found bound fuel seen k l r c) refl
          (plan-Smaller bound resolving t low) low r h

    first_unsafe-Answers :
        (bound fuel : ℕ) (rs : List ResolvedType)
        → All (Plain bound) rs
        → enough environment root bound ≤ fuel
        → Answers (first_unsafe s environment fuel rs)
    first_unsafe-Answers bound fuel [] a h = (none, refl)
    first_unsafe-Answers bound fuel (r ∷ rs) a h =
        let (v, e) =
          unsafe_value_within-Answers s tree environment root of_root mono fuel [] r.type
            (omega (arith, cost_le s tree environment root of_root mono bound, a.0.1)) in
        let (w, q) = first_unsafe-Answers bound fuel rs a.1 h in go v (rw (a.0.0) e) w q
      where
        go :
            (v : Option UnsafeValue)
            → unsafe_value_within s environment fuel r.substitutions [] r.type ≡ some v
            → (w : Option UnsafeValue) → first_unsafe s environment fuel rs ≡ some w
            → Answers (first_unsafe s environment fuel (r ∷ rs))
        go none e w q = (w, rw (e, first_unsafe) q)
        go (some v) e w q = (some v, rw (e, first_unsafe))

    -- In a tree whose program declares no generic alias, the two classifications of a type end, with fuel for
    -- one way down the tree for each type binding of the program, and one more.
    pub classify_unsafe_dictionary_ends :
        (t fuel : ℕ)
        → enough environment root (t + root) ≤ fuel
        → Answers (classify_unsafe_dictionary s environment fuel t)
          × Answers (classify_unsafe_dictionary_value s environment fuel t)
    unfolding classify_unsafe_dictionary classify_unsafe_dictionary_value
    classify_unsafe_dictionary_ends t fuel h =
        let low = cost_le s tree environment root of_root mono t in
        let (rs, e, a) =
          dictionary_values_within-Found (t + root) fuel [] t (omega arith) (omega arith)
            (omega arith) in
        let (v, q) = first_unsafe-Answers (t + root) fuel rs a h in
        (
          (v, rw (e, classify_unsafe_dictionary) q),
          unsafe_value_within-Answers s tree environment root of_root mono fuel [] t (omega arith),
        )
