-- ===== src/Shared/DictionaryTypes/WideningTargets/KeyLaws.antt =====
-- `isBroadMappedKey` ends in a program without generic aliases.
use zslay.Prelude.{
  All-mem, Bool, Bool-cases, List, Memᴰ, Option, Option-cases, String, [], any_answer, arith, false,
  has_name, inl, inr, jump_cost, names_left, names_left-cons_lt, refl, some, suc, true, zero, ℕ,
  ◌&&◌, ◌<◌, ◌==◌, ◌∷◌, ◌≡◌, ◌≤◌,
}
use zslay.Ast.{
  IsBelow, IsTree, Node, SourceCode, ts_keyword, ts_number_keyword, ts_string_keyword,
  ts_symbol_keyword, ts_type_reference, ts_union_type,
}
use zslay.Shared.TypeAlias.{as_alias, create_type_alias_environment, visible_type_alias}
use zslay.Shared.DictionaryTypes.{
  TypeEnvironment, argument, is_built_in, reference_name, unwrap_transparent_type,
}
use zslay.Shared.DictionaryTypes.AliasLaws.{IsMonomorphic, visible_alias}
use zslay.Shared.DictionaryTypes.UnsafeValues.EndLaws.{
  Answers, alias_names, cost, unwrap_transparent_type_le,
}
use zslay.Shared.DictionaryTypes.WideningTargets.{
  KeyPlan, broad_key_within, key_aliased, key_inside, key_of_alias, key_of_name, key_of_node,
  key_of_reference, key_plan, known, some_key,
}

any_answer-Answers :
    (test : ℕ → Option Bool) (ts : List ℕ)
    → ((t : ℕ) → Memᴰ t ts → Answers (test t))
    → Answers (any_answer test ts)
any_answer-Answers test [] h = (false, refl)
any_answer-Answers test (t ∷ ts) h =
    let (b, e) = h t (Memᴰ.head refl) in
    let (c, q) = any_answer-Answers test ts (λ k m. h k (Memᴰ.tail m)) in go b e c q
  where
    go :
        (b : Bool)
        → test t ≡ some b
        → (c : Bool) → any_answer test ts ≡ some c
        → Answers (any_answer test (t ∷ ts))
    go false e c q = (c, rw (e, any_answer) q)
    go true e c q = (true, rw (e, any_answer) refl)

module _ (s : SourceCode) (tree : IsTree s) (environment : TypeEnvironment) (root : ℕ)
    (of_root : environment.type_aliases ≡ create_type_alias_environment s root)
    (mono : IsMonomorphic s environment.type_aliases) where
  -- What a call goes on with is smaller.
  abbrev Smaller : List String → ℕ → KeyPlan → Type 0
  Smaller visited t (known b) = Unit
  Smaller visited t (some_key ts) = (k : ℕ) → Memᴰ k ts → k < t
  Smaller visited t (key_inside k) = k < t
  Smaller visited t (key_aliased visited' body) =
      (names_left visited' (alias_names environment) < names_left visited (alias_names environment))
      × (body < root)

  alias-Smaller :
      (visited : List String) (t u : ℕ) (name : String)
      → Smaller visited t (key_of_name s environment visited u name)
  alias-Smaller visited t u name =
      elim (Bool-cases (name == "PropertyKey" && is_built_in s environment name u)) [
        | inl p ↦ rw (p, key_of_name) tt
        | inr p ↦ elim (Option-cases (visible_type_alias s environment.type_aliases name u)) [
          | inl e ↦ rw (p, key_of_name) (rw e tt)
          | inr (a, e) ↦ elim (Option-cases (as_alias (s.node a))) [
            | inl f ↦ rw (p, key_of_name) (rw e (rw f tt))
            | inr (alias, f) ↦
                let (in_scope, plain, low) =
                  visible_alias s tree root u a name alias (rw of_root at mono) (rw of_root at e)
                    f in
                elim (Bool-cases (has_name visited name)) [
                  | inl q ↦ rw (p, key_of_name) (rw e (rw f (rw (plain, key_of_alias) (rw q tt))))
                  | inr q ↦
                      let fewer =
                        names_left-cons_lt name visited (alias_names environment) q
                          (rw (← of_root) at in_scope) in
                      rw (p, key_of_name)
                        (rw e (rw f (rw (plain, key_of_alias) (rw q (fewer, low)))))
                ]
          ]
        ]
      ]

  node-Smaller :
      (visited : List String) (t u : ℕ) (v : Node)
      → IsBelow u v
      → u ≤ t
      → Smaller visited t (key_of_node s environment [] visited u v)
  unfolding argument
  node-Smaller visited t u (ts_keyword ts_string_keyword) b h = tt
  node-Smaller visited t u (ts_keyword ts_number_keyword) b h = tt
  node-Smaller visited t u (ts_keyword ts_symbol_keyword) b h = tt
  node-Smaller visited t u (ts_union_type ts) b h =
      λ k m. omega (arith, All-mem (λ x. x < u) {xs = ts} b m)
  node-Smaller visited t u (ts_type_reference n ts) b h =
      elim (Option-cases (reference_name s (record { type_name = n; arguments = ts }))) [
        | inl e ↦ rw (e, key_of_reference) tt
        | inr (name, e) ↦ rw (e, key_of_reference) (alias-Smaller visited t u name)
      ]
  node-Smaller visited t u _ b h = tt

  plan-Smaller :
      (visited : List String) (t : ℕ) → Smaller visited t (key_plan s environment [] visited t)
  unfolding key_plan
  plan-Smaller visited t =
      node-Smaller visited t (unwrap_transparent_type s t) (s.node (unwrap_transparent_type s t))
        (tree.below (unwrap_transparent_type s t)) (unwrap_transparent_type_le s tree t)

  ends_step :
      (fuel : ℕ) (visited : List String) (t : ℕ) (p : KeyPlan)
      → ((seen : List String) (k : ℕ)
          → cost environment root seen k < fuel
          → Answers (broad_key_within s environment fuel [] seen k))
      → key_plan s environment [] visited t ≡ p
      → Smaller visited t p
      → cost environment root visited t < suc fuel
      → Answers (broad_key_within s environment (suc fuel) [] visited t)
  unfolding broad_key_within
  ends_step fuel visited t (known b) ih e k h = (b, rw (e, broad_key_within))
  ends_step fuel visited t (some_key ts) ih e k h =
      let (b, q) =
        any_answer-Answers (λ x. broad_key_within s environment fuel [] visited x) ts
          (λ x m. ih visited x (omega (arith, k x m))) in
      (b, rw (e, broad_key_within) q)
  ends_step fuel visited t (key_inside x) ih e k h =
      let (b, q) = ih visited x (omega arith) in (b, rw (e, broad_key_within) q)
  ends_step fuel visited t (key_aliased visited' body) ih e k h =
      let (b, q) = ih visited' body (
        jump_cost (names_left visited' (alias_names environment))
          (names_left visited (alias_names environment)) root body t fuel k.0 k.1 h) in
      (b, rw (e, broad_key_within) q)

  pub broad_key_within-Answers :
      (fuel : ℕ) (visited : List String) (t : ℕ)
      → cost environment root visited t < fuel
      → Answers (broad_key_within s environment fuel [] visited t)
  broad_key_within-Answers zero visited t h = absurd (omega arith)
  broad_key_within-Answers (suc fuel) visited t h =
      ends_step fuel visited t (key_plan s environment [] visited t) (broad_key_within-Answers fuel)
        refl (plan-Smaller visited t) h
