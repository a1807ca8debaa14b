-- ===== src/Shared/DictionaryTypes/WideningTargets/Targets.antt =====
-- The targets that `classifyWideningTarget` finds, without fuel.
use zslay.Prelude.{
  Bool-cases, List, Option, Option-cases, String, [], arith, false, inl, inr, is_empty, none, refl,
  some, suc, true, zero, ℕ, ◌>>=◌, ◌∷◌, ◌≡◌,
}
use zslay.Ast.{
  Node, SourceCode, as_identifier, ts_keyword, ts_mapped_type, ts_object_keyword, ts_type_literal,
  ts_type_reference, ts_unknown_keyword,
}
use zslay.Shared.TypeAlias.{Alias, as_alias, visible_type_alias}
use zslay.Shared.TypeAlias.Resolve.{head_of}
use zslay.Shared.DictionaryTypes.{
  Arguments, TypeEnvironment, alias_substitution, unwrap_transparent_type,
}
use zslay.Shared.DictionaryTypes.WideningTargets.{
  WideningPlan, WideningTarget, anonymous_object, broad_key_within, broad_target_within,
  classify_widening_target, generic_container, has_index_signature, into_alias, object_target,
  open_dictionary, through_alias, unknown_target, widening, widening_if_key, widening_inside,
  widening_of_alias, widening_of_key, widening_of_members, widening_of_name, widening_of_node,
  widening_of_wrapped, widening_plan,
}
use zslay.Shared.DictionaryTypes.WideningTargets.OpenKeys.{
  HasAlias, OpenKey, Reads, Refers, broad_key_sound,
}
use zslay.Shared.DictionaryTypes.WideningTargets.BroadEnds.{
  BroadEnd, broad_target_sound, is_record, opened_sound, wraps,
}

-- What the type behind an alias with parameters makes of a target.
generic_sound :
    (q : Option (Option WideningTarget)) (x : WideningTarget)
    → (q >>= λ found. some (through_alias true found)) ≡ some (some x)
    → (q ≡ some (some open_dictionary)) × (x ≡ generic_container)
generic_sound none x h = absurd (ground arith)
generic_sound (some none) x h = absurd (ground arith)
generic_sound (some (some open_dictionary)) x h = (refl, cc)
generic_sound (some (some anonymous_object)) x h = absurd (ground arith)
generic_sound (some (some generic_container)) x h = absurd (ground arith)
generic_sound (some (some object_target)) x h = absurd (ground arith)
generic_sound (some (some unknown_target)) x h = absurd (ground arith)

pub plain_answer :
    (q : Option (Option WideningTarget)) (o : Option WideningTarget)
    → (q >>= λ found. some (through_alias false found)) ≡ some o
    → q ≡ some o
plain_answer none o h = absurd (ground arith)
plain_answer (some found) o h = h

module _ (s : SourceCode) (environment : TypeEnvironment) where
  -- The type is one of these: `unknown`; `object`; a type literal with members, of which no one is an index
  -- signature; an open dictionary, which is a type literal with an index signature, a mapped type, or a `Record`
  -- with an open key; a wrapper around such a type; an alias without parameters for a broad type; or a generic
  -- container, which is an alias with parameters for an open dictionary.
  pub data WidensTo : ℕ → WideningTarget → Type 0 where
    unknown_type :
        {t : ℕ} → Reads s environment t (ts_keyword ts_unknown_keyword) → WidensTo t unknown_target
    object_type :
        {t : ℕ} → Reads s environment t (ts_keyword ts_object_keyword) → WidensTo t object_target
    members :
        {t : ℕ} (m : ℕ) (ms : List ℕ)
        → Reads s environment t (ts_type_literal (m ∷ ms))
        → has_index_signature s environment (m ∷ ms) ≡ false
        → WidensTo t anonymous_object
    indexed :
        {t : ℕ} (ms : List ℕ)
        → Reads s environment t (ts_type_literal ms)
        → has_index_signature s environment ms ≡ true
        → WidensTo t open_dictionary
    mapped :
        {t : ℕ} (p key : ℕ) (a v : Option ℕ)
        → Reads s environment t (ts_mapped_type p key a v)
        → WidensTo t open_dictionary
    bare_record :
        {t : ℕ} (name : String)
        → Refers s environment t name []
        → wraps s environment t name ≡ false
        → is_record s environment t name ≡ true
        → WidensTo t open_dictionary
    record_of :
        {t : ℕ} (name : String) (key : ℕ) (ks : List ℕ)
        → Refers s environment t name (key ∷ ks)
        → wraps s environment t name ≡ false
        → is_record s environment t name ≡ true
        → OpenKey s environment [] [] key
        → WidensTo t open_dictionary
    wrapped :
        {t : ℕ} {x : WideningTarget} (name : String) (u : ℕ) (us : List ℕ)
        → Refers s environment t name (u ∷ us)
        → wraps s environment t name ≡ true
        → WidensTo u x
        → WidensTo t x
    plain_alias :
        {t : ℕ} {x : WideningTarget} (name : String) (ts : List ℕ) (alias : Alias)
        (next : Arguments)
        → Refers s environment t name ts
        → wraps s environment t name ≡ false
        → is_record s environment t name ≡ false
        → HasAlias s environment t name alias
        → alias_substitution s alias ts [] ≡ some next
        → is_empty alias.parameters ≡ true
        → BroadEnd s environment next (name ∷ []) alias.type_annotation x
        → WidensTo t x
    generic_alias :
        {t : ℕ} (name : String) (ts : List ℕ) (alias : Alias) (next : Arguments)
        → Refers s environment t name ts
        → wraps s environment t name ≡ false
        → is_record s environment t name ≡ false
        → HasAlias s environment t name alias
        → alias_substitution s alias ts [] ≡ some next
        → is_empty alias.parameters ≡ false
        → BroadEnd s environment next (name ∷ []) alias.type_annotation open_dictionary
        → WidensTo t generic_container

  -- what a plan asks for
  abbrev Means : ℕ → WideningPlan → Type 0
  Means t (widening none) = Unit
  Means t (widening (some x)) = WidensTo t x
  Means t (widening_if_key key) = OpenKey s environment [] [] key → WidensTo t open_dictionary
  Means t (widening_inside k) = (x : WideningTarget) → WidensTo k x → WidensTo t x
  Means t (into_alias true next name body) =
      BroadEnd s environment next (name ∷ []) body open_dictionary → WidensTo t generic_container
  Means t (into_alias false next name body) =
      (x : WideningTarget) → BroadEnd s environment next (name ∷ []) body x → WidensTo t x

  module _ (t : ℕ) where
    wrapped-Means :
        (name : String) (ts : List ℕ)
        → Refers s environment t name ts
        → wraps s environment t name ≡ true
        → Means t (widening_of_wrapped s environment (head_of ts))
    wrapped-Means name [] r w = tt
    wrapped-Means name (u ∷ us) r w = λ x k. wrapped name u us r w k

    record-Means :
        (name : String) (ts : List ℕ)
        → Refers s environment t name ts
        → wraps s environment t name ≡ false
        → is_record s environment t name ≡ true
        → Means t (widening_of_key s environment (head_of ts))
    record-Means name [] r w y = bare_record name r w y
    record-Means name (u ∷ us) r w y = λ k. record_of name u us r w y k

    alias-Means :
        (name : String) (ts : List ℕ)
        → Refers s environment t name ts
        → wraps s environment t name ≡ false
        → is_record s environment t name ≡ false
        → Means t (widening_of_alias s environment (unwrap_transparent_type s t) name ts)
    alias-Means name ts r w y =
        elim (Option-cases
          (visible_type_alias s environment.type_aliases name (unwrap_transparent_type s t))) [
            | inl e ↦ rw (e, widening_of_alias) tt
            | inr (a, e) ↦ elim (Option-cases (as_alias (s.node a))) [
              | inl q ↦ rw (e, widening_of_alias) (rw q tt)
              | inr (alias, q) ↦ elim (Option-cases (alias_substitution s alias ts [])) [
                | inl m ↦ rw (e, widening_of_alias) (rw q (rw m tt))
                | inr (next, m) ↦ elim (Bool-cases (is_empty alias.parameters)) [
                  | inl z ↦
                      rw (e, widening_of_alias)
                        (rw q (
                          rw m
                            (rw z (λ x k. plain_alias name ts alias next r w y (a, e, q) m z k))))
                  | inr z ↦
                      rw (e, widening_of_alias)
                        (rw q (
                          rw m
                            (rw z (λ k. generic_alias name ts alias next r w y (a, e, q) m z k))))
                ]
              ]
            ]
          ]

    name-Means :
        (name : String) (ts : List ℕ)
        → Refers s environment t name ts
        → Means t (widening_of_name s environment (unwrap_transparent_type s t) name ts)
    name-Means name ts r = elim (Bool-cases (wraps s environment t name)) [
      | inl w ↦ rw (w, widening_of_name) (wrapped-Means name ts r w)
      | inr w ↦ elim (Bool-cases (is_record s environment t name)) [
        | inl y ↦ rw (w, widening_of_name) (rw y (record-Means name ts r w y))
        | inr y ↦ rw (w, widening_of_name) (rw y (alias-Means name ts r w y))
      ]
    ]

    members-Means :
        (ms : List ℕ)
        → Reads s environment t (ts_type_literal ms)
        → Means t (widening_of_members s environment ms)
    members-Means [] e = tt
    members-Means (m ∷ ms) e = elim (Bool-cases (has_index_signature s environment (m ∷ ms))) [
      | inl i ↦ rw (i, widening_of_members) (indexed (m ∷ ms) e i)
      | inr i ↦ rw (i, widening_of_members) (members m ms e i)
    ]

    node-Means :
        (v : Node)
        → Reads s environment t v
        → Means t (widening_of_node s environment (unwrap_transparent_type s t) v)
    node-Means (ts_keyword ts_unknown_keyword) e = unknown_type e
    node-Means (ts_keyword ts_object_keyword) e = object_type e
    node-Means (ts_type_literal ms) e = members-Means ms e
    node-Means (ts_mapped_type p key a v) e = mapped p key a v e
    node-Means (ts_type_reference n ts) e = elim (Option-cases (as_identifier (s.node n))) [
      | inl q ↦ rw (q, widening_of_node) tt
      | inr (name, q) ↦ rw (q, widening_of_node) (name-Means name ts (n, e, q))
    ]
    node-Means _ e = tt

  plan-WidensTo :
      (fuel t : ℕ) (p : WideningPlan) (x : WideningTarget)
      → ((k : ℕ) → classify_widening_target s environment fuel k ≡ some (some x) → WidensTo k x)
      → widening_plan s environment t ≡ p
      → Means t p
      → classify_widening_target s environment (suc fuel) t ≡ some (some x)
      → WidensTo t x
  unfolding classify_widening_target
  plan-WidensTo fuel t (widening none) x ih e means h =
      absurd (let p = rw (e, classify_widening_target) at h in ground arith)
  plan-WidensTo fuel t (widening (some y)) x ih e means h =
      let same : y ≡ x = (let p = rw (e, classify_widening_target) at h in cc) in rw same at means
  plan-WidensTo fuel t (widening_if_key key) x ih e means h =
      let (q, same) =
        opened_sound (broad_key_within s environment fuel [] [] key) x
          (rw (e, classify_widening_target) at h) in
      rw same (means (broad_key_sound s environment [] fuel [] key q))
  plan-WidensTo fuel t (widening_inside k) x ih e means h =
      means x (ih k (rw (e, classify_widening_target) at h))
  plan-WidensTo fuel t (into_alias true next name body) x ih e means h =
      let (q, same) =
        generic_sound (broad_target_within s environment fuel next (name ∷ []) body) x
          (rw (e, classify_widening_target) at h) in
      rw same
        (means (broad_target_sound s environment open_dictionary fuel next (name ∷ []) body q))
  plan-WidensTo fuel t (into_alias false next name body) x ih e means h = means x (
      broad_target_sound s environment x fuel next (name ∷ []) body (
        plain_answer (broad_target_within s environment fuel next (name ∷ []) body) (some x)
          (rw (e, classify_widening_target) at h)))

  pub classify_sound :
      (x : WideningTarget) (fuel t : ℕ)
      → classify_widening_target s environment fuel t ≡ some (some x)
      → WidensTo t x
  unfolding classify_widening_target widening_plan
  classify_sound x zero t h = absurd (ground arith)
  classify_sound x (suc fuel) t h =
      plan-WidensTo fuel t (widening_plan s environment t) x (classify_sound x fuel) refl
        (node-Means t (s.node (unwrap_transparent_type s t)) refl) h
