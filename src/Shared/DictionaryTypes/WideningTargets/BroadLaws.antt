-- ===== src/Shared/DictionaryTypes/WideningTargets/BroadLaws.antt =====
-- `classifyAliasBroadTarget` ends in a program without generic aliases.
use zslay.Prelude.{
  ◌>>=◌, All-mem, Bool-cases, List, Memᴰ, Option, Option-cases, String, [], ap, arith, has_name,
  inl, inr, jump_cost, names_left, names_left-cons_lt, none, refl, some, suc, zero, ℕ, ◌&&◌, ◌*◌,
  ◌+◌, ◌<◌, ◌==◌, ◌≡◌, ◌≤◌,
}
use zslay.Ast.{
  IsBelow, IsTree, Node, SourceCode, ts_keyword, ts_mapped_type, ts_object_keyword, ts_type_literal,
  ts_type_reference, ts_unknown_keyword,
}
use zslay.Shared.TypeAlias.{as_alias, create_type_alias_environment, visible_type_alias}
use zslay.Shared.DictionaryTypes.{
  TypeEnvironment, argument, is_built_in, reference_name, unwrap_transparent_type,
}
use zslay.Shared.DictionaryTypes.AliasLaws.{
  IsMonomorphic, alias_substitution-no_parameters, mem-of_head_of, visible_alias,
}
use zslay.Shared.TypeAlias.Resolve.{head_of}
use zslay.Shared.DictionaryTypes.UnsafeValues.{is_wrapper}
use zslay.Shared.DictionaryTypes.UnsafeValues.EndLaws.{
  Answers, alias_names, cost, cost_le, enough, unwrap_transparent_type_le,
}
use zslay.Shared.DictionaryTypes.WideningTargets.{
  BroadPlan, broad_aliased, broad_inside, broad_key_within, broad_of_alias, broad_of_key,
  broad_of_name, broad_of_node, broad_of_wrapped, broad_plan, broad_target_within, open_if,
  open_if_key, target,
}
use zslay.Shared.DictionaryTypes.WideningTargets.KeyLaws.{broad_key_within-Answers}

module _ (s : SourceCode) (tree : IsTree s) (environment : TypeEnvironment) (root : ℕ)
    (of_root : environment.type_aliases ≡ create_type_alias_environment s root)
    (mono : IsMonomorphic s environment.type_aliases) where
  abbrev names : List String
  names = alias_names environment

  -- A jump into an alias leaves as much fuel for a key as there was.
  pub jump :
      (a b body t fuel spare : ℕ)
      → a < b
      → body < root
      → b * suc root + t + spare < suc fuel
      → a * suc root + body + spare < fuel
  jump a b body t fuel spare h low k =
      omega (arith, jump_cost a b root body t (b * suc root + t) h low (omega arith))

  pub key-Answers :
      (bound fuel key : ℕ)
      → key ≤ bound
      → enough environment root bound ≤ fuel
      → Answers (broad_key_within s environment fuel [] [] key)
  key-Answers bound fuel key low h =
      broad_key_within-Answers s tree environment root of_root mono fuel [] key
        (omega (arith, cost_le s tree environment root of_root mono bound))

  module _ (resolving : List String) (t : ℕ) where
    -- What a call goes on with is smaller.
    abbrev Smaller : BroadPlan → Type 0
    Smaller (target found) = Unit
    Smaller (open_if_key key) = key < t
    Smaller (broad_inside k) = k < t
    Smaller (broad_aliased next resolving' body) =
        (next ≡ []) × (names_left resolving' names < names_left resolving names) × (body < root)

    broad_alias-Smaller :
        (u : ℕ) (name : String) (arguments : List ℕ)
        → Smaller (broad_of_alias s environment [] resolving u name arguments)
    broad_alias-Smaller u name arguments =
        elim (Option-cases (visible_type_alias s environment.type_aliases name u)) [
          | inl e ↦ rw (e, broad_of_alias) tt
          | inr (a, e) ↦ elim (Bool-cases (has_name resolving name)) [
            | inl q ↦ rw (e, broad_of_alias) (rw q tt)
            | inr q ↦ elim (Option-cases (as_alias (s.node a))) [
              | inl f ↦ rw (e, broad_of_alias) (rw q (rw f tt))
              | inr (alias, f) ↦
                  let (in_scope, plain, low) =
                    visible_alias s tree root u a name alias (rw of_root at mono) (rw of_root at e)
                      f in
                  let no_arguments = alias_substitution-no_parameters s alias arguments [] plain in
                  let fewer =
                    names_left-cons_lt name resolving names q (rw (← of_root) at in_scope) in
                  rw (e, broad_of_alias) (rw q (rw f (rw no_arguments (refl, fewer, low))))
            ]
          ]
        ]

    broad_key-Smaller :
        (o : Option ℕ) → ((k : ℕ) → o ≡ some k → k < t) → Smaller (broad_of_key s environment o)
    broad_key-Smaller none h = tt
    broad_key-Smaller (some k) h = h k refl

    broad_wrapped-Smaller :
        (o : Option ℕ) → ((k : ℕ) → o ≡ some k → k < t) → Smaller (broad_of_wrapped s environment o)
    broad_wrapped-Smaller none h = tt
    broad_wrapped-Smaller (some k) h = h k refl

    broad_name-Smaller :
        (u : ℕ) (name : String) (arguments : List ℕ)
        → ((k : ℕ) → Memᴰ k arguments → k < t)
        → Smaller (broad_of_name s environment [] resolving u name arguments)
    unfolding argument
    broad_name-Smaller u name arguments low =
        let first =
          λ (k : ℕ) (e : head_of arguments ≡ some k). low k (mem-of_head_of arguments k e) in
        elim (Bool-cases (is_wrapper s environment name u)) [
          | inl w ↦ rw (w, broad_of_name) (broad_wrapped-Smaller (head_of arguments) first)
          | inr w ↦ elim (Bool-cases (name == "Record" && is_built_in s environment name u)) [
            | inl r ↦ rw (w, broad_of_name) (rw r (broad_key-Smaller (head_of arguments) first))
            | inr r ↦ rw (w, broad_of_name) (rw r (broad_alias-Smaller u name arguments))
          ]
        ]

    broad_node-Smaller :
        (u : ℕ) (v : Node)
        → IsBelow u v
        → u ≤ t
        → Smaller (broad_of_node s environment [] resolving u v)
    broad_node-Smaller u (ts_keyword ts_unknown_keyword) b h = tt
    broad_node-Smaller u (ts_keyword ts_object_keyword) b h = tt
    broad_node-Smaller u (ts_type_literal ms) b h = tt
    broad_node-Smaller u (ts_mapped_type key constraint name a) b h = omega (arith, b.1.0)
    broad_node-Smaller u (ts_type_reference n ts) b h =
        go (reference_name s (record { type_name = n; arguments = ts }))
      where
        go :
            (o : Option String)
            → Smaller (elim o [
              | none ↦ target none
              | some name ↦ broad_of_name s environment [] resolving u name ts
            ])
        go none = tt
        go (some name) =
            broad_name-Smaller u name ts
              (λ k m. omega (arith, All-mem (λ x. x < u) {xs = ts} b.1 m))
    broad_node-Smaller u _ b h = tt

  broad_step :
      (bound fuel : ℕ) (resolving : List String) (t : ℕ) (p : BroadPlan)
      → ((seen : List String) (k : ℕ)
          → k ≤ bound
          → cost environment root seen k + enough environment root bound < fuel
          → Answers (broad_target_within s environment fuel [] seen k))
      → broad_plan s environment [] resolving t ≡ p
      → Smaller resolving t p
      → t ≤ bound
      → root ≤ bound
      → cost environment root resolving t + enough environment root bound < suc fuel
      → Answers (broad_target_within s environment (suc fuel) [] resolving t)
  unfolding broad_target_within
  broad_step bound fuel resolving t (target found) ih e k low r h =
      (found, rw (e, broad_target_within))
  broad_step bound fuel resolving t (open_if_key key) ih e k low r h =
      let (b, q) = key-Answers bound fuel key (omega arith) (omega arith) in
      (open_if b, rw (e, broad_target_within) (ap (λ o. o >>= λ broad. some (open_if broad)) q))
  broad_step bound fuel resolving t (broad_inside x) ih e k low r h =
      let (v, q) = ih resolving x (omega arith) (omega arith) in (v, rw (e, broad_target_within) q)
  broad_step bound fuel resolving t (broad_aliased next resolving' body) ih e k low r h =
      let (v, q) = ih resolving' body (omega (arith, k.2)) (
        jump (names_left resolving' names) (names_left resolving names) body t fuel
          (enough environment root bound) k.1 k.2 h) in
      (v, rw (e, broad_target_within) (rw (k.0) q))

  pub broad_target_within-Answers :
      (bound fuel : ℕ) (resolving : List String) (t : ℕ)
      → t ≤ bound
      → root ≤ bound
      → cost environment root resolving t + enough environment root bound < fuel
      → Answers (broad_target_within s environment fuel [] resolving t)
  unfolding broad_plan
  broad_target_within-Answers bound zero resolving t low r h = absurd (omega arith)
  broad_target_within-Answers bound (suc fuel) resolving t low r h =
      broad_step bound fuel resolving t (broad_plan s environment [] resolving t)
        (λ seen k l c. broad_target_within-Answers bound fuel seen k l r c) refl
        (broad_node-Smaller resolving t (unwrap_transparent_type s t)
          (s.node (unwrap_transparent_type s t)) (tree.below (unwrap_transparent_type s t))
          (unwrap_transparent_type_le s tree t))
        low r h
