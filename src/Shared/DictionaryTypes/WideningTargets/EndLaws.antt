-- ===== src/Shared/DictionaryTypes/WideningTargets/EndLaws.antt =====
-- `classifyWideningTarget` ends in a program without generic aliases.
use zslay.Prelude.{
  All-mem, Bool-cases, List, Memᴰ, Option, Option-cases, String, [], ap, arith, inl, inr, is_empty,
  names_left, names_left-cons_lt, none, refl, some, suc, zero, ℕ, ◌&&◌, ◌+◌, ◌<◌, ◌==◌, ◌>>=◌, ◌∷◌,
  ◌≡◌, ◌≤◌,
}
use zslay.Ast.{
  IsBelow, IsTree, Node, SourceCode, ts_keyword, ts_mapped_type, ts_object_keyword, ts_type_literal,
  ts_type_reference, ts_unknown_keyword,
}
use zslay.Shared.TypeAlias.{as_alias, create_type_alias_environment, visible_type_alias}
use zslay.Shared.DictionaryTypes.{
  TypeEnvironment, is_built_in, reference_name, unwrap_transparent_type,
}
use zslay.Shared.DictionaryTypes.AliasLaws.{
  IsMonomorphic, alias_substitution-no_parameters, mem-of_head_of, visible_alias,
}
use zslay.Shared.TypeAlias.Resolve.{head_of}
use zslay.Shared.DictionaryTypes.UnsafeValues.{is_wrapper}
use zslay.Shared.DictionaryTypes.UnsafeValues.EndLaws.{
  Answers, alias_names, cost, cost_le, enough, unwrap_transparent_type_le,
}
use zslay.Shared.DictionaryTypes.WideningTargets.{
  WideningPlan, classify_widening_target, has_index_signature, into_alias, open_if, through_alias,
  widening, widening_if_key, widening_inside, widening_of_alias, widening_of_key,
  widening_of_members, widening_of_name, widening_of_node, widening_of_wrapped, widening_plan,
}
use zslay.Shared.DictionaryTypes.WideningTargets.BroadLaws.{
  broad_target_within-Answers, jump, key-Answers,
}

module _ (s : SourceCode) (tree : IsTree s) (environment : TypeEnvironment) (root : ℕ)
    (of_root : environment.type_aliases ≡ create_type_alias_environment s root)
    (mono : IsMonomorphic s environment.type_aliases) where
  abbrev names : List String
  names = alias_names environment

  module _ (t : ℕ) where
    -- What a call goes on with is smaller.
    abbrev Smaller : WideningPlan → Type 0
    Smaller (widening found) = Unit
    Smaller (widening_if_key key) = key < t
    Smaller (widening_inside k) = k < t
    Smaller (into_alias generic next name body) =
        (next ≡ []) × (names_left (name ∷ []) names < names_left [] names) × (body < root)

    alias-Smaller :
        (u : ℕ) (name : String) (arguments : List ℕ)
        → Smaller (widening_of_alias s environment u name arguments)
    alias-Smaller u name arguments =
        elim (Option-cases (visible_type_alias s environment.type_aliases name u)) [
          | inl e ↦ rw (e, widening_of_alias) tt
          | inr (a, e) ↦ elim (Option-cases (as_alias (s.node a))) [
            | inl f ↦ rw (e, widening_of_alias) (rw f tt)
            | inr (alias, f) ↦
                let (in_scope, plain, low) =
                  visible_alias s tree root u a name alias (rw of_root at mono) (rw of_root at e)
                    f in
                let no_arguments = alias_substitution-no_parameters s alias arguments [] plain in
                let fewer = names_left-cons_lt name [] names refl (rw (← of_root) at in_scope) in
                rw (e, widening_of_alias) (rw f (rw no_arguments (refl, fewer, low)))
          ]
        ]

    key-Smaller :
        (o : Option ℕ) → ((k : ℕ) → o ≡ some k → k < t) → Smaller (widening_of_key s environment o)
    key-Smaller none h = tt
    key-Smaller (some k) h = h k refl

    wrapped-Smaller :
        (o : Option ℕ)
        → ((k : ℕ) → o ≡ some k → k < t)
        → Smaller (widening_of_wrapped s environment o)
    wrapped-Smaller none h = tt
    wrapped-Smaller (some k) h = h k refl

    name-Smaller :
        (u : ℕ) (name : String) (arguments : List ℕ)
        → ((k : ℕ) → Memᴰ k arguments → k < t)
        → Smaller (widening_of_name s environment u name arguments)
    name-Smaller u name arguments low =
        let first =
          λ (k : ℕ) (e : head_of arguments ≡ some k). low k (mem-of_head_of arguments k e) in
        elim (Bool-cases (is_wrapper s environment name u)) [
          | inl w ↦ rw (w, widening_of_name) (wrapped-Smaller (head_of arguments) first)
          | inr w ↦ elim (Bool-cases (name == "Record" && is_built_in s environment name u)) [
            | inl r ↦ rw (w, widening_of_name) (rw r (key-Smaller (head_of arguments) first))
            | inr r ↦ rw (w, widening_of_name) (rw r (alias-Smaller u name arguments))
          ]
        ]

    members-Smaller : (members : List ℕ) → Smaller (widening_of_members s environment members)
    members-Smaller members = elim (Bool-cases (has_index_signature s environment members)) [
      | inl e ↦ rw (e, widening_of_members) tt
      | inr e ↦ elim (Bool-cases (is_empty members)) [
        | inl q ↦ rw (e, widening_of_members) (rw q tt)
        | inr q ↦ rw (e, widening_of_members) (rw q tt)
      ]
    ]

    node-Smaller :
        (u : ℕ) (v : Node) → IsBelow u v → u ≤ t → Smaller (widening_of_node s environment u v)
    node-Smaller u (ts_keyword ts_unknown_keyword) b h = tt
    node-Smaller u (ts_keyword ts_object_keyword) b h = tt
    node-Smaller u (ts_type_literal ms) b h = members-Smaller ms
    node-Smaller u (ts_mapped_type key constraint name a) b h = tt
    node-Smaller u (ts_type_reference n ts) b h =
        go (reference_name s (record { type_name = n; arguments = ts }))
      where
        go :
            (o : Option String)
            → Smaller (elim o [
              | none ↦ widening none
              | some name ↦ widening_of_name s environment u name ts
            ])
        go none = tt
        go (some name) =
            name-Smaller u name ts (λ k m. omega (arith, All-mem (λ x. x < u) {xs = ts} b.1 m))
    node-Smaller u _ b h = tt

  step :
      (bound fuel t : ℕ) (p : WideningPlan)
      → ((k : ℕ)
          → k ≤ bound
          → cost environment root [] k + enough environment root bound < fuel
          → Answers (classify_widening_target s environment fuel k))
      → widening_plan s environment t ≡ p
      → Smaller t p
      → t ≤ bound
      → root ≤ bound
      → cost environment root [] t + enough environment root bound < suc fuel
      → Answers (classify_widening_target s environment (suc fuel) t)
  unfolding classify_widening_target
  step bound fuel t (widening found) ih e k low r h = (found, rw (e, classify_widening_target))
  step bound fuel t (widening_if_key key) ih e k low r h =
      let (b, q) =
        key-Answers s tree environment root of_root mono bound fuel key (omega arith)
          (omega arith) in
      (
        open_if b,
        rw (e, classify_widening_target) (ap (λ o. o >>= λ broad. some (open_if broad)) q),
      )
  step bound fuel t (widening_inside x) ih e k low r h =
      let (v, q) = ih x (omega arith) (omega arith) in (v, rw (e, classify_widening_target) q)
  step bound fuel t (into_alias generic next name body) ih e k low r h =
      let (v, q) =
        broad_target_within-Answers s tree environment root of_root mono bound fuel (name ∷ []) body
          (omega (arith, k.2)) r
          (jump s tree environment root of_root mono (names_left (name ∷ []) names)
            (names_left [] names) body t fuel (enough environment root bound) k.1 k.2 h) in
      (
        through_alias generic v,
        rw (e, classify_widening_target)
            (rw (k.0) (ap (λ o. o >>= λ found. some (through_alias generic found)) q)),
      )

  within-Answers :
      (bound fuel t : ℕ)
      → t ≤ bound
      → root ≤ bound
      → cost environment root [] t + enough environment root bound < fuel
      → Answers (classify_widening_target s environment fuel t)
  unfolding widening_plan
  within-Answers bound zero t low r h = absurd (omega arith)
  within-Answers bound (suc fuel) t low r h =
      step bound fuel t (widening_plan s environment t) (λ k l c. within-Answers bound fuel k l r c)
        refl
        (node-Smaller t (unwrap_transparent_type s t) (s.node (unwrap_transparent_type s t))
          (tree.below (unwrap_transparent_type s t)) (unwrap_transparent_type_le s tree t))
        low r h

  pub classify_widening_target_ends :
      (t fuel : ℕ)
      → enough environment root (t + root) + enough environment root (t + root) ≤ fuel
      → Answers (classify_widening_target s environment fuel t)
  classify_widening_target_ends t fuel h =
      within-Answers (t + root) fuel t (omega arith) (omega arith)
        (omega (arith, cost_le s tree environment root of_root mono t))
