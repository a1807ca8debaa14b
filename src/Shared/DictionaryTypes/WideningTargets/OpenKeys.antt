-- ===== src/Shared/DictionaryTypes/WideningTargets/OpenKeys.antt =====
-- The keys that `isBroadMappedKey` accepts, without fuel.
use zslay.Prelude.{
  Bool, Bool-cases, List, Memᴰ, Option, Option-cases, String, [], any_answer, arith, false,
  has_name, inl, inr, is_empty, none, refl, some, suc, true, zero, ℕ, ◌&&◌, ◌==◌, ◌∷◌, ◌≡◌, ◌⊎◌,
  ◌∙◌,
}
use mathlib.Core.List.Memᴰ
use zslay.Ast.{
  Node, SourceCode, as_identifier, ts_keyword, ts_number_keyword, ts_string_keyword,
  ts_symbol_keyword, ts_type_reference, ts_union_type,
}
use zslay.Shared.TypeAlias.{Alias, as_alias, visible_type_alias}
use zslay.Shared.DictionaryTypes.{
  Arguments, TypeEnvironment, argument, is_built_in, is_unapplied_reference_to,
  unwrap_transparent_type,
}
use zslay.Shared.DictionaryTypes.WideningTargets.{
  KeyPlan, broad_key_within, key_aliased, key_inside, key_of_alias, key_of_name, key_of_node,
  key_of_reference, key_plan, known, some_key,
}

-- A search that finds something found it at one of its places.
any_answer_sound :
    (test : ℕ → Option Bool) (ts : List ℕ)
    → any_answer test ts ≡ some true
    → (k : ℕ) × Memᴰ k ts × (test k ≡ some true)
any_answer_sound test [] h = absurd (ground arith)
any_answer_sound test (t ∷ ts) h = elim (Option-cases (test t)) [
  | inl e ↦ absurd (let p = rw (e, any_answer) at h in ground arith)
  | inr (true, e) ↦ (t, Memᴰ.head refl, e)
  | inr (false, e) ↦
      let (k, m, q) = any_answer_sound test ts (rw (e, any_answer) at h) in (k, Memᴰ.tail m, q)
]

any_answer_complete :
    (test : ℕ → Option Bool) (ts : List ℕ) (k : ℕ) (b : Bool)
    → Memᴰ k ts
    → ((c : Bool) → test k ≡ some c → c ≡ true)
    → any_answer test ts ≡ some b
    → b ≡ true
any_answer_complete test [] k b m only h = absurd (Memᴰ.not-nil m)
any_answer_complete test (t ∷ ts) k b m only h = elim (Option-cases (test t)) [
  | inl e ↦ absurd (let p = rw (e, any_answer) at h in ground arith)
  | inr (true, e) ↦ (let p = rw (e, any_answer) at h in ground arith)
  | inr (false, e) ↦ elim (Memᴰ.cases_cons m) [
    | inl same ↦ absurd (let p = only false (rw (same) e) in ground arith)
    | inr later ↦ any_answer_complete test ts k b later only (rw (e, any_answer) at h)
  ]
]

module _ (s : SourceCode) (environment : TypeEnvironment) where
  -- The type, inside its parentheses and `readonly`, is of this form.
  abbrev pub Reads : ℕ → Node → Type 0
  Reads t v = s.node (unwrap_transparent_type s t) ≡ v

  -- It is a reference to this name with these arguments.
  abbrev pub Refers : ℕ → String → List ℕ → Type 0
  Refers t name ts =
      (n : ℕ) × Reads t (ts_type_reference n ts) × (as_identifier (s.node n) ≡ some name)

  -- The arguments say nothing about the name, or give the name itself.
  abbrev pub Free : Arguments → String → Type 0
  Free base name =
      (argument name base ≡ none)
      ⊎ ((u : ℕ) × (argument name base ≡ some u) × (is_unapplied_reference_to s u name ≡ true))

  abbrev pub is_property_key : ℕ → String → Bool
  is_property_key t name =
      name == "PropertyKey" && is_built_in s environment name (unwrap_transparent_type s t)

  abbrev pub HasAlias : ℕ → String → Alias → Type 0
  HasAlias t name alias =
      (a : ℕ) × (visible_type_alias s environment.type_aliases name (unwrap_transparent_type s t)
        ≡ some a)
      × (as_alias (s.node a) ≡ some alias)

  -- `string`, `number`, `symbol`, the built-in `PropertyKey`, a union with one of these, and what an argument or
  -- an alias without parameters, each followed once, gives of them.
  pub data OpenKey (base : Arguments) : List String → ℕ → Type 0 where
    text :
        {visited : List String} {t : ℕ}
        → Reads t (ts_keyword ts_string_keyword)
        → OpenKey base visited t
    number :
        {visited : List String} {t : ℕ}
        → Reads t (ts_keyword ts_number_keyword)
        → OpenKey base visited t
    symbol :
        {visited : List String} {t : ℕ}
        → Reads t (ts_keyword ts_symbol_keyword)
        → OpenKey base visited t
    member :
        {visited : List String} {t : ℕ} (ts : List ℕ) (k : ℕ)
        → Reads t (ts_union_type ts)
        → Memᴰ k ts
        → OpenKey base visited k
        → OpenKey base visited t
    passed :
        {visited : List String} {t : ℕ} (name : String) (ts : List ℕ) (u : ℕ)
        → Refers t name ts
        → argument name base ≡ some u
        → is_unapplied_reference_to s u name ≡ false
        → OpenKey base visited u
        → OpenKey base visited t
    property_key :
        {visited : List String} {t : ℕ} (name : String) (ts : List ℕ)
        → Refers t name ts
        → Free base name
        → is_property_key t name ≡ true
        → OpenKey base visited t
    aliased :
        {visited : List String} {t : ℕ} (name : String) (ts : List ℕ) (alias : Alias)
        → Refers t name ts
        → Free base name
        → is_property_key t name ≡ false
        → HasAlias t name alias
        → is_empty alias.parameters ≡ true
        → has_name visited name ≡ false
        → OpenKey base (name ∷ visited) alias.type_annotation
        → OpenKey base visited t

  module _ (base : Arguments) where
    -- what a plan asks for
    abbrev Means : List String → ℕ → KeyPlan → Type 0
    Means visited t (known true) = OpenKey base visited t
    Means visited t (known false) = Unit
    Means visited t (some_key ts) =
        (k : ℕ) → Memᴰ k ts → OpenKey base visited k → OpenKey base visited t
    Means visited t (key_inside k) = OpenKey base visited k → OpenKey base visited t
    Means visited t (key_aliased visited' body) =
        OpenKey base visited' body → OpenKey base visited t

    name-Means :
        (visited : List String) (t : ℕ) (name : String) (ts : List ℕ)
        → Refers t name ts
        → Free base name
        → Means visited t (key_of_name s environment visited (unwrap_transparent_type s t) name)
    name-Means visited t name ts r free = elim (Bool-cases (is_property_key t name)) [
      | inl p ↦ rw (p, key_of_name) (property_key name ts r free p)
      | inr p ↦
          elim (Option-cases
            (visible_type_alias s environment.type_aliases name (unwrap_transparent_type s t))) [
              | inl e ↦ rw (p, key_of_name) (rw e tt)
              | inr (a, e) ↦ elim (Option-cases (as_alias (s.node a))) [
                | inl q ↦ rw (p, key_of_name) (rw e (rw q tt))
                | inr (alias, q) ↦ rw (p, key_of_name) (rw e (rw q (alias-Means alias (a, e, q) p)))
              ]
            ]
    ]
      where
        alias-Means :
            (alias : Alias)
            → HasAlias t name alias
            → is_property_key t name ≡ false
            → Means visited t (key_of_alias s environment visited name alias)
        alias-Means alias at p = elim (Bool-cases (is_empty alias.parameters)) [
          | inr x ↦ rw (x, key_of_alias) tt
          | inl x ↦ elim (Bool-cases (has_name visited name)) [
            | inl y ↦ rw (x, key_of_alias) (rw y tt)
            | inr y ↦ rw (x, key_of_alias) (rw y (λ k. aliased name ts alias r free p at x y k))
          ]
        ]

    node-Means :
        (visited : List String) (t : ℕ) (v : Node)
        → Reads t v
        → Means visited t (key_of_node s environment base visited (unwrap_transparent_type s t) v)
    node-Means visited t (ts_keyword ts_string_keyword) e = text e
    node-Means visited t (ts_keyword ts_number_keyword) e = number e
    node-Means visited t (ts_keyword ts_symbol_keyword) e = symbol e
    node-Means visited t (ts_union_type ts) e = λ k m opens. member ts k e m opens
    node-Means visited t (ts_type_reference n ts) e =
        elim (Option-cases (as_identifier (s.node n))) [
          | inl q ↦ rw (q, key_of_reference) tt
          | inr (name, q) ↦ elim (Option-cases (argument name base)) [
            | inl x ↦
                rw (q, key_of_reference) (rw x (name-Means visited t name ts (n, e, q) (inl x)))
            | inr (u, x) ↦ elim (Bool-cases (is_unapplied_reference_to s u name)) [
              | inl y ↦
                  rw (q, key_of_reference)
                    (rw x (rw y (name-Means visited t name ts (n, e, q) (inr (u, x, y)))))
              | inr y ↦
                  rw (q, key_of_reference) (rw x (rw y (λ k. passed name ts u (n, e, q) x y k)))
            ]
          ]
        ]
    node-Means visited t _ e = tt

    plan-OpenKey :
        (fuel : ℕ) (visited : List String) (t : ℕ) (p : KeyPlan)
        → ((seen : List String) (k : ℕ)
            → broad_key_within s environment fuel base seen k ≡ some true
            → OpenKey base seen k)
        → key_plan s environment base visited t ≡ p
        → Means visited t p
        → broad_key_within s environment (suc fuel) base visited t ≡ some true
        → OpenKey base visited t
    unfolding broad_key_within
    plan-OpenKey fuel visited t (known true) ih e means h = means
    plan-OpenKey fuel visited t (known false) ih e means h =
        absurd (let p = rw (e, broad_key_within) at h in ground arith)
    plan-OpenKey fuel visited t (some_key ts) ih e means h =
        let (k, m, q) =
          any_answer_sound (λ k. broad_key_within s environment fuel base visited k) ts
            (rw (e, broad_key_within) at h) in
        means k m (ih visited k q)
    plan-OpenKey fuel visited t (key_inside k) ih e means h =
        means (ih visited k (rw (e, broad_key_within) at h))
    plan-OpenKey fuel visited t (key_aliased seen body) ih e means h =
        means (ih seen body (rw (e, broad_key_within) at h))

    pub broad_key_sound :
        (fuel : ℕ) (visited : List String) (t : ℕ)
        → broad_key_within s environment fuel base visited t ≡ some true
        → OpenKey base visited t
    unfolding broad_key_within key_plan
    broad_key_sound zero visited t h = absurd (ground arith)
    broad_key_sound (suc fuel) visited t h =
        plan-OpenKey fuel visited t (key_plan s environment base visited t) (broad_key_sound fuel)
          refl (node-Means visited t (s.node (unwrap_transparent_type s t)) refl) h

    name_plan :
        (visited : List String) (t : ℕ) (name : String) (ts : List ℕ)
        → Refers t name ts
        → Free base name
        → key_plan s environment base visited t
          ≡ key_of_name s environment visited (unwrap_transparent_type s t) name
    unfolding key_plan
    name_plan visited t name ts (n, e, q) (inl x) =
        rw (e, key_plan) (rw (q, key_of_reference) (rw x refl))
    name_plan visited t name ts (n, e, q) (inr (u, x, y)) =
        rw (e, key_plan) (rw (q, key_of_reference) (rw x (rw y refl)))

    pub broad_key_complete :
        {visited : List String} {t : ℕ}
        → OpenKey base visited t
        → (fuel : ℕ) (b : Bool) → broad_key_within s environment fuel base visited t ≡ some b
        → b ≡ true
    unfolding broad_key_within key_plan
    broad_key_complete k zero b h = absurd (ground arith)
    broad_key_complete (text e) (suc fuel) b h =
        let p = rw (e, broad_key_within) at h in ground arith
    broad_key_complete (number e) (suc fuel) b h =
        let p = rw (e, broad_key_within) at h in ground arith
    broad_key_complete (symbol e) (suc fuel) b h =
        let p = rw (e, broad_key_within) at h in ground arith
    broad_key_complete (member {visited} ts k e m opens) (suc fuel) b h =
        any_answer_complete (λ k. broad_key_within s environment fuel base visited k) ts k b m
          (λ c q. broad_key_complete opens fuel c q) (rw (e, broad_key_within) at h)
    broad_key_complete (passed {visited} {t} name ts u (n, e, q) x y opens) (suc fuel) b h =
        let plan : key_plan s environment base visited t ≡ key_inside u =
          rw (e, key_plan) (rw (q, key_of_reference) (rw x (rw y refl))) in
        broad_key_complete opens fuel b (rw (plan, broad_key_within) at h)
    broad_key_complete (property_key {visited} {t} name ts r free p) (suc fuel) b h =
        let plan : key_plan s environment base visited t ≡ known true =
          name_plan visited t name ts r free ∙ rw (p, key_of_name) refl in
        let q = rw (plan, broad_key_within) at h in ground arith
    broad_key_complete (aliased {visited} {t} name ts alias r free p (a, v, q) x y opens) (suc fuel)
          b h =
        let plan : key_plan s environment base visited t
            ≡ key_aliased (name ∷ visited) alias.type_annotation =
          name_plan visited t name ts r free
          ∙ rw (p, key_of_name) (rw v (rw q (rw (x, key_of_alias) (rw y refl)))) in
        broad_key_complete opens fuel b (rw (plan, broad_key_within) at h)
