-- ===== src/Rules/UnknownTypes/ResolveLaws.antt =====
-- The rules that resolve types, against the types that a declared type spells out.
use zslay.Prelude.{
  All-mem, Bool, Bool-cases, List, Memᴰ, Option-cases, [], arith, false, if◌then◌else◌, inl, inr,
  refl, some, true, ℕ, ◌<◌, ◌↔◌, ◌∷◌, ◌≡◌, ◌≢◌,
}
use mathlib.Core.Path.{fun_ext}
use mathlib.Core.List.Memᴰ
use zslay.Ast.{
  Annotation, FunctionKind, FunctionParts, IsBelow, IsTree, Node, SourceCode, function, ts_keyword,
  ts_object_keyword, ts_parenthesized_type, ts_type_alias_declaration, ts_type_reference,
  ts_union_type, ts_unknown_keyword,
}
use zslay.Shared.TypeAlias.{TypeBinding}
use zslay.Shared.TypeAlias.Resolve.{Matcher, no_substitution}
use zslay.Shared.TypeAlias.Resolve.MatchLaws.{Matches, matcher_of, resolved_type_matches_iff}
use zslay.Rules.UnknownTypes.{
  aliases_in, is_promise_name, no_unknown_returns, no_unknown_type_aliases, object_matcher,
  resolves_to, return_matcher, returns_in, unknown_matcher,
}

-- `unknown`
abbrev pub is_unknown : Node → Bool
is_unknown (ts_keyword ts_unknown_keyword) = true
is_unknown _ = false

-- `object`
abbrev pub is_object : Node → Bool
is_object (ts_keyword ts_object_keyword) = true
is_object _ = false

-- what stands in parentheses, and the members of a union
abbrev pub alternatives : Node → List ℕ
alternatives (ts_parenthesized_type t) = t ∷ []
alternatives (ts_union_type ts) = ts
alternatives _ = []

abbrev first_of_list : List ℕ → List ℕ
first_of_list [] = []
first_of_list (x ∷ _) = x ∷ []

-- Besides, what a promise is of.
abbrev pub awaited : SourceCode → Node → List ℕ
awaited s (ts_parenthesized_type t) = t ∷ []
awaited s (ts_union_type ts) = ts
awaited s (ts_type_reference name arguments) =
    if is_promise_name s name then first_of_list arguments else []
awaited s _ = []

pub alternatives_below : (n : ℕ) (v : Node) (c : ℕ) → IsBelow n v → Memᴰ c (alternatives v) → c < n
alternatives_below n (ts_parenthesized_type t) c b (Memᴰ.head e) = rw e b.0
alternatives_below n (ts_parenthesized_type t) c b (Memᴰ.tail m) = elim (Memᴰ.not-nil m) [ ]
alternatives_below n (ts_union_type ts) c b m = All-mem (λ x. x < n) b m
alternatives_below n _ c b m = elim (Memᴰ.not-nil m) [ ]

first_below : (n : ℕ) (xs : List ℕ) (c : ℕ) → Memᴰ c (first_of_list xs) → Memᴰ c xs
first_below n [] c m = m
first_below n (x ∷ xs) c (Memᴰ.head e) = Memᴰ.head e
first_below n (x ∷ xs) c (Memᴰ.tail m) = elim (Memᴰ.not-nil m) [ ]

module _ (s : SourceCode) where
  awaited_below : (n : ℕ) (v : Node) (c : ℕ) → IsBelow n v → Memᴰ c (awaited s v) → c < n
  awaited_below n (ts_parenthesized_type t) c b (Memᴰ.head e) = rw e b.0
  awaited_below n (ts_parenthesized_type t) c b (Memᴰ.tail m) = elim (Memᴰ.not-nil m) [ ]
  awaited_below n (ts_union_type ts) c b m = All-mem (λ x. x < n) b m
  awaited_below n (ts_type_reference name arguments) c b m =
      elim (Bool-cases (is_promise_name s name)) [
        | inl e ↦ All-mem (λ x. x < n) b.1 (first_below n arguments c (rw e at m))
        | inr e ↦ elim (Memᴰ.not-nil (rw e at m)) [ ]
      ]
  awaited_below n _ c b m = elim (Memᴰ.not-nil m) [ ]

  module _ (environment : List TypeBinding) where
    unknown_matcher_at :
        (rec : ℕ → Bool) (v : Node)
        → unknown_matcher rec v ≡ matcher_of s environment is_unknown alternatives rec v
    unknown_matcher_at rec (ts_keyword ts_unknown_keyword) = refl
    unknown_matcher_at rec (ts_parenthesized_type t) = ground arith
    unknown_matcher_at rec (ts_union_type ts) = refl
    unknown_matcher_at rec _ = refl

    return_matcher_at :
        (rec : ℕ → Bool) (v : Node)
        → return_matcher s rec v ≡ matcher_of s environment is_unknown (awaited s) rec v
    return_matcher_at rec (ts_keyword ts_unknown_keyword) = refl
    return_matcher_at rec (ts_parenthesized_type t) = ground arith
    return_matcher_at rec (ts_union_type ts) = refl
    return_matcher_at rec (ts_type_reference name []) = ground arith
    return_matcher_at rec (ts_type_reference name (x ∷ xs)) = ground arith
    return_matcher_at rec _ = refl

    object_matcher_at :
        (rec : ℕ → Bool) (v : Node)
        → object_matcher rec v ≡ matcher_of s environment is_object alternatives rec v
    object_matcher_at rec (ts_keyword ts_object_keyword) = refl
    object_matcher_at rec (ts_parenthesized_type t) = ground arith
    object_matcher_at rec (ts_union_type ts) = refl
    object_matcher_at rec _ = refl

    -- The type is, or spells out through aliases and their arguments, a type of the kind `here`.
    abbrev pub Spells : (Node → Bool) → (Node → List ℕ) → ℕ → Type 0
    Spells here parts t = Matches s environment here parts no_substitution [] t

    resolves_iff :
        (here : Node → Bool) (parts : Node → List ℕ) (matcher : Matcher)
        → ((rec : ℕ → Bool) (v : Node) → matcher rec v ≡ matcher_of s environment here parts rec v)
        → ((t c : ℕ) → Memᴰ c (parts (s.node t)) → c < t)
        → (t : ℕ) → (resolves_to s matcher (some environment) t ≡ true) ↔ Spells here parts t
    unfolding resolves_to
    resolves_iff here parts matcher same below t =
        let e : matcher ≡ matcher_of s environment here parts =
          fun_ext (λ rec. fun_ext (λ v. same rec v)) in
        rw e (resolved_type_matches_iff s environment here parts below t)

    module _ (tree : IsTree s) where
      unknown_return_iff :
          (t : ℕ)
          → (resolves_to s (return_matcher s) (some environment) t ≡ true)
            ↔ Spells is_unknown (awaited s) t
      unknown_return_iff =
          resolves_iff is_unknown (awaited s) (return_matcher s) return_matcher_at
            (λ t c m. awaited_below t (s.node t) c (tree.below t) m)

      unknown_alias_iff :
          (t : ℕ)
          → (resolves_to s unknown_matcher (some environment) t ≡ true)
            ↔ Spells is_unknown alternatives t
      unknown_alias_iff =
          resolves_iff is_unknown alternatives unknown_matcher unknown_matcher_at
            (λ t c m. alternatives_below t (s.node t) c (tree.below t) m)

      pub object_iff :
          (t : ℕ)
          → (resolves_to s object_matcher (some environment) t ≡ true)
            ↔ Spells is_object alternatives t
      object_iff =
          resolves_iff is_object alternatives object_matcher object_matcher_at
            (λ t c m. alternatives_below t (s.node t) c (tree.below t) m)

      -- A function is reported exactly when its declared return type is `unknown`, or spells it out through
      -- parentheses, unions, promises, visible aliases and the arguments of these.
      pub no_unknown_returns_iff :
          (n : ℕ)
          → (no_unknown_returns s (some environment) n ≢ []) ↔ (
              (k : FunctionKind) × (f : FunctionParts) × (a : Annotation) × (s.node n
                ≡ function k f)
              × (f.return_type ≡ some a)
              × Spells is_unknown (awaited s) a.type_annotation)
      unfolding no_unknown_returns
      no_unknown_returns_iff n = (
        go (s.node n) refl,
        λ (k, f, a, e, q, m).
            rw (e, returns_in)
              (rw q (rw ((unknown_return_iff a.type_annotation).1 m) (ground arith))),
      )
        where
          go :
              (v : Node)
              → s.node n ≡ v
              → returns_in s (some environment) v ≢ []
              → (k : FunctionKind) × (f : FunctionParts) × (a : Annotation) × (s.node n
                  ≡ function k f)
                × (f.return_type ≡ some a)
                × Spells is_unknown (awaited s) a.type_annotation
          go (function k f) e h = elim (Option-cases f.return_type) [
            | inl q ↦ absurd (h (rw (returns_in, q)))
            | inr (a, q) ↦
                elim (Bool-cases
                  (resolves_to s (return_matcher s) (some environment) a.type_annotation)) [
                    | inl r ↦ (k, f, a, e, q, (unknown_return_iff a.type_annotation).0 r)
                    | inr r ↦ absurd (h (rw (returns_in, q) (rw r)))
                  ]
          ]
          go _ e h = absurd (h refl)

      -- A type alias is reported exactly when its type is `unknown`, or spells it out through parentheses,
      -- unions, visible aliases and the arguments of these.
      pub no_unknown_type_aliases_iff :
          (n : ℕ)
          → (no_unknown_type_aliases s (some environment) n ≢ []) ↔ (
              (i t : ℕ) × (ps : List ℕ) × (s.node n ≡ ts_type_alias_declaration i ps t)
              × Spells is_unknown alternatives t)
      unfolding no_unknown_type_aliases
      no_unknown_type_aliases_iff n = (
        go (s.node n) refl,
        λ (i, t, ps, e, m). rw (e, aliases_in) (rw ((unknown_alias_iff t).1 m) (ground arith)),
      )
        where
          go :
              (v : Node)
              → s.node n ≡ v
              → aliases_in s (some environment) v ≢ []
              → (i t : ℕ) × (ps : List ℕ) × (s.node n ≡ ts_type_alias_declaration i ps t)
                × Spells is_unknown alternatives t
          go (ts_type_alias_declaration i ps t) e h =
              elim (Bool-cases (resolves_to s unknown_matcher (some environment) t)) [
                | inl r ↦ (i, t, ps, e, (unknown_alias_iff t).0 r)
                | inr r ↦ absurd (h (rw (aliases_in, r)))
              ]
          go _ e h = absurd (h refl)
