-- ===== src/Shared/DictionaryTypes/WideningTargets/BroadEnds.antt =====
-- The targets that `classifyAliasBroadTarget` finds, without fuel.
use zslay.Prelude.{
  Bool, Bool-cases, List, Option, Option-cases, String, [], arith, false, has_name, inl, inr, none,
  refl, some, suc, true, zero, ℕ, ◌&&◌, ◌==◌, ◌>>=◌, ◌∷◌, ◌≡◌,
}
use zslay.Shared.TypeAlias.Resolve.{head_of}
use zslay.Ast.{
  Node, SourceCode, as_identifier, ts_keyword, ts_mapped_type, ts_object_keyword, ts_type_literal,
  ts_type_reference, ts_unknown_keyword,
}
use zslay.Shared.TypeAlias.{Alias, as_alias, visible_type_alias}
use zslay.Shared.DictionaryTypes.{
  Arguments, TypeEnvironment, alias_substitution, argument, is_built_in, is_unapplied_reference_to,
  unwrap_transparent_type,
}
use zslay.Shared.DictionaryTypes.UnsafeValues.{is_wrapper}
use zslay.Shared.DictionaryTypes.WideningTargets.{
  BroadPlan, WideningTarget, broad_aliased, broad_inside, broad_key_within, broad_of_alias,
  broad_of_key, broad_of_name, broad_of_node, broad_of_wrapped, broad_plan, broad_target_within,
  has_index_signature, object_target, open_dictionary, open_if, open_if_key, target, unknown_target,
}
use zslay.Shared.DictionaryTypes.WideningTargets.OpenKeys.{
  HasAlias, OpenKey, Reads, Refers, broad_key_sound,
}

-- A question for a key that is answered gives an open dictionary, where the key is one.
pub opened_sound :
    (q : Option Bool) (x : WideningTarget)
    → (q >>= λ broad. some (open_if broad)) ≡ some (some x)
    → (q ≡ some true) × (x ≡ open_dictionary)
opened_sound none x h = absurd (ground arith)
opened_sound (some false) x h = absurd (ground arith)
opened_sound (some true) x h = (refl, cc)

module _ (s : SourceCode) (environment : TypeEnvironment) where
  -- One of the transparent wrappers, which no type of the program hides.
  abbrev pub wraps : ℕ → String → Bool
  wraps t name = is_wrapper s environment name (unwrap_transparent_type s t)

  abbrev pub is_record : ℕ → String → Bool
  is_record t name =
      name == "Record" && is_built_in s environment name (unwrap_transparent_type s t)

  -- `unknown`, `object`, a type literal with an index signature, a mapped type or a `Record` with an open key, and
  -- what an argument, a wrapper or an alias, each followed once, gives of them.
  pub data BroadEnd : Arguments → List String → ℕ → WideningTarget → Type 0 where
    unknown_type :
        {base : Arguments} {resolving : List String} {t : ℕ}
        → Reads s environment t (ts_keyword ts_unknown_keyword)
        → BroadEnd base resolving t unknown_target
    object_type :
        {base : Arguments} {resolving : List String} {t : ℕ}
        → Reads s environment t (ts_keyword ts_object_keyword)
        → BroadEnd base resolving t object_target
    indexed :
        {base : Arguments} {resolving : List String} {t : ℕ} (members : List ℕ)
        → Reads s environment t (ts_type_literal members)
        → has_index_signature s environment members ≡ true
        → BroadEnd base resolving t open_dictionary
    mapped :
        {base : Arguments} {resolving : List String} {t : ℕ} (p key : ℕ) (a v : Option ℕ)
        → Reads s environment t (ts_mapped_type p key a v)
        → OpenKey s environment base [] key
        → BroadEnd base resolving t open_dictionary
    passed :
        {base : Arguments} {resolving : List String} {t : ℕ} {x : WideningTarget} (name : String)
        (ts : List ℕ) (u : ℕ)
        → Refers s environment t name ts
        → argument name base ≡ some u
        → is_unapplied_reference_to s u name ≡ false
        → BroadEnd base resolving u x
        → BroadEnd base resolving t x
    wrapped :
        {base : Arguments} {resolving : List String} {t : ℕ} {x : WideningTarget} (name : String)
        (u : ℕ) (us : List ℕ)
        → Refers s environment t name (u ∷ us)
        → argument name base ≡ none
        → wraps t name ≡ true
        → BroadEnd base resolving u x
        → BroadEnd base resolving t x
    bare_record :
        {base : Arguments} {resolving : List String} {t : ℕ} (name : String)
        → Refers s environment t name []
        → argument name base ≡ none
        → wraps t name ≡ false
        → is_record t name ≡ true
        → BroadEnd base resolving t open_dictionary
    record_of :
        {base : Arguments} {resolving : List String} {t : ℕ} (name : String) (key : ℕ) (ks : List ℕ)
        → Refers s environment t name (key ∷ ks)
        → argument name base ≡ none
        → wraps t name ≡ false
        → is_record t name ≡ true
        → OpenKey s environment base [] key
        → BroadEnd base resolving t open_dictionary
    aliased :
        {base : Arguments} {resolving : List String} {t : ℕ} {x : WideningTarget} (name : String)
        (ts : List ℕ) (alias : Alias) (next : Arguments)
        → Refers s environment t name ts
        → argument name base ≡ none
        → wraps t name ≡ false
        → is_record t name ≡ false
        → HasAlias s environment t name alias
        → has_name resolving name ≡ false
        → alias_substitution s alias ts base ≡ some next
        → BroadEnd next (name ∷ resolving) alias.type_annotation x
        → BroadEnd base resolving t x

  -- what a plan asks for
  abbrev Means : Arguments → List String → ℕ → BroadPlan → Type 0
  Means base resolving t (target none) = Unit
  Means base resolving t (target (some x)) = BroadEnd base resolving t x
  Means base resolving t (open_if_key key) =
      OpenKey s environment base [] key → BroadEnd base resolving t open_dictionary
  Means base resolving t (broad_inside k) =
      (x : WideningTarget) → BroadEnd base resolving k x → BroadEnd base resolving t x
  Means base resolving t (broad_aliased next seen body) =
      (x : WideningTarget) → BroadEnd next seen body x → BroadEnd base resolving t x

  module _ (base : Arguments) (resolving : List String) (t : ℕ) where
    wrapped-Means :
        (name : String) (ts : List ℕ)
        → Refers s environment t name ts
        → argument name base ≡ none
        → wraps t name ≡ true
        → Means base resolving t (broad_of_wrapped s environment (head_of ts))
    wrapped-Means name [] r x w = tt
    wrapped-Means name (u ∷ us) r x w = λ y k. wrapped name u us r x w k

    record-Means :
        (name : String) (ts : List ℕ)
        → Refers s environment t name ts
        → argument name base ≡ none
        → wraps t name ≡ false
        → is_record t name ≡ true
        → Means base resolving t (broad_of_key s environment (head_of ts))
    record-Means name [] r x w y = bare_record name r x w y
    record-Means name (u ∷ us) r x w y = λ k. record_of name u us r x w y k

    alias-Means :
        (name : String) (ts : List ℕ)
        → Refers s environment t name ts
        → argument name base ≡ none
        → wraps t name ≡ false
        → is_record t name ≡ false
        → Means base resolving t
            (broad_of_alias s environment base resolving (unwrap_transparent_type s t) name ts)
    alias-Means name ts r x w y =
        elim (Option-cases
          (visible_type_alias s environment.type_aliases name (unwrap_transparent_type s t))) [
            | inl e ↦ rw (e, broad_of_alias) tt
            | inr (a, e) ↦ elim (Bool-cases (has_name resolving name)) [
              | inl z ↦ rw (e, broad_of_alias) (rw z tt)
              | inr z ↦ elim (Option-cases (as_alias (s.node a))) [
                | inl q ↦ rw (e, broad_of_alias) (rw z (rw q tt))
                | inr (alias, q) ↦ elim (Option-cases (alias_substitution s alias ts base)) [
                  | inl m ↦ rw (e, broad_of_alias) (rw z (rw q (rw m tt)))
                  | inr (next, m) ↦
                      rw (e, broad_of_alias)
                        (rw z
                          (rw q (rw m (λ _ k. aliased name ts alias next r x w y (a, e, q) z m k))))
                ]
              ]
            ]
          ]

    name-Means :
        (name : String) (ts : List ℕ)
        → Refers s environment t name ts
        → Means base resolving t
            (broad_of_name s environment base resolving (unwrap_transparent_type s t) name ts)
    name-Means name ts r = elim (Option-cases (argument name base)) [
      | inr (u, x) ↦ elim (Bool-cases (is_unapplied_reference_to s u name)) [
        | inl y ↦ rw (x, broad_of_name) (rw y tt)
        | inr y ↦ rw (x, broad_of_name) (rw y (λ _ k. passed name ts u r x y k))
      ]
      | inl x ↦ elim (Bool-cases (wraps t name)) [
        | inl w ↦ rw (x, broad_of_name) (rw w (wrapped-Means name ts r x w))
        | inr w ↦ elim (Bool-cases (is_record t name)) [
          | inl y ↦ rw (x, broad_of_name) (rw w (rw y (record-Means name ts r x w y)))
          | inr y ↦ rw (x, broad_of_name) (rw w (rw y (alias-Means name ts r x w y)))
        ]
      ]
    ]

    node-Means :
        (v : Node)
        → Reads s environment t v
        → Means base resolving t
            (broad_of_node s environment base resolving (unwrap_transparent_type s t) v)
    node-Means (ts_keyword ts_unknown_keyword) e = unknown_type e
    node-Means (ts_keyword ts_object_keyword) e = object_type e
    node-Means (ts_type_literal ms) e = elim (Bool-cases (has_index_signature s environment ms)) [
      | inl x ↦ rw (x, open_if) (indexed ms e x)
      | inr x ↦ rw (x, open_if) tt
    ]
    node-Means (ts_mapped_type p key a v) e = λ k. mapped p key a v e k
    node-Means (ts_type_reference n ts) e = elim (Option-cases (as_identifier (s.node n))) [
      | inl q ↦ rw (q, broad_of_node) tt
      | inr (name, q) ↦ rw (q, broad_of_node) (name-Means name ts (n, e, q))
    ]
    node-Means _ e = tt

  plan-BroadEnd :
      (fuel : ℕ) (base : Arguments) (resolving : List String) (t : ℕ) (p : BroadPlan)
      (x : WideningTarget)
      → ((next : Arguments) (seen : List String) (k : ℕ)
          → broad_target_within s environment fuel next seen k ≡ some (some x)
          → BroadEnd next seen k x)
      → broad_plan s environment base resolving t ≡ p
      → Means base resolving t p
      → broad_target_within s environment (suc fuel) base resolving t ≡ some (some x)
      → BroadEnd base resolving t x
  unfolding broad_target_within
  plan-BroadEnd fuel base resolving t (target none) x ih e means h =
      absurd (let p = rw (e, broad_target_within) at h in ground arith)
  plan-BroadEnd fuel base resolving t (target (some y)) x ih e means h =
      let same : y ≡ x = (let p = rw (e, broad_target_within) at h in cc) in rw same at means
  plan-BroadEnd fuel base resolving t (open_if_key key) x ih e means h =
      let (q, same) =
        opened_sound (broad_key_within s environment fuel base [] key) x
          (rw (e, broad_target_within) at h) in
      rw same (means (broad_key_sound s environment base fuel [] key q))
  plan-BroadEnd fuel base resolving t (broad_inside k) x ih e means h =
      means x (ih base resolving k (rw (e, broad_target_within) at h))
  plan-BroadEnd fuel base resolving t (broad_aliased next seen body) x ih e means h =
      means x (ih next seen body (rw (e, broad_target_within) at h))

  pub broad_target_sound :
      (x : WideningTarget) (fuel : ℕ) (base : Arguments) (resolving : List String) (t : ℕ)
      → broad_target_within s environment fuel base resolving t ≡ some (some x)
      → BroadEnd base resolving t x
  unfolding broad_target_within broad_plan
  broad_target_sound x zero base resolving t h = absurd (ground arith)
  broad_target_sound x (suc fuel) base resolving t h =
      plan-BroadEnd fuel base resolving t (broad_plan s environment base resolving t) x
        (broad_target_sound x fuel) refl
        (node-Means base resolving t (s.node (unwrap_transparent_type s t)) refl) h
