-- ===== src/Rules/Calls/FilterMapLaws.antt =====
-- no-array-filter-map against the syntax of two adjacent passes over an array.
use zslay.Prelude.{
  Bool, Bool-cases, List, Memᴰ, Option, Option-cases, String, [], arith, eq_iff, false, inl, inr,
  none, refl, some, subst, sym, true, ℕ, ◌==◌, ◌↔◌, ◌∙◌, ◌∷◌, ◌≡◌, ◌⊎◌,
}
use mathlib.Core.List.Memᴰ
use zslay.Ast.{
  Annotation, IsScoped, IsTree, Member, Report, SourceCode, as_call, as_call-eq-some,
  as_identifier-eq-some, as_member, as_member-eq-some, as_string_literal-eq-some, call_expression,
  identifier, literal, member_expression, string_value,
}
use zslay.Shared.ArrayMethod.{
  Target, array_method_target, is_known_array_expression, static_name, unwrap_array_expression,
}
use zslay.Shared.ArrayMethod.UnwrapLaws.{WrappedIn, unwrap_array_expression_iff}
use zslay.Shared.ArrayMethod.KnownLaws.{KnownArray}
use zslay.Shared.ArrayMethod.FuelLaws.{is_known_array_expression_ends}
use zslay.Shared.ArrayMethod.DecideLaws.{is_known_array_expression_iff}
use zslay.Rules.Calls.{
  adjacent_passes, called_target, no_array_filter_map, other_pass, passes_report,
}

other_pass-cases :
    (outer inner : String)
    → other_pass outer ≡ some inner
    → ((outer ≡ "map") × (inner ≡ "filter")) ⊎ ((outer ≡ "filter") × (inner ≡ "map"))
other_pass-cases outer inner h = elim (Bool-cases (outer == "map")) [
  | inl q ↦ inl ((eq_iff outer "map").0 q, ground arith)
  | inr q ↦ elim (Bool-cases (outer == "filter")) [
    | inl q' ↦ inr ((eq_iff outer "filter").0 q', ground arith)
    | inr q' ↦ absurd (ground arith)
  ]
]

pair_eq :
    (a b c d : Target)
    → ◌≡◌ {A = Option (Target × Target)} (some (a, b)) (some (c, d))
    → (a ≡ c) × (b ≡ d)
pair_eq a b c d h = ground arith

true_or_false : some true ≡ some false → ⊥
true_or_false h = ground arith

no_passes : {p : Target × Target} → none ≡ some p → ⊥
no_passes h = ground arith

module _ (s : SourceCode) where
  -- The callee is, inside wrappers, a member by this name: `object.name` or `object["name"]`.
  pub data Accesses (c : ℕ) : String → ℕ → Type 0 where
    by_name :
        {k o p : ℕ} {t : Option Annotation} {name : String}
        → WrappedIn s k c
        → s.node k ≡ member_expression o p false
        → s.node p ≡ identifier name t
        → Accesses c name o
    by_text :
        {k o p : ℕ} {name : String}
        → WrappedIn s k c
        → s.node k ≡ member_expression o p true
        → s.node p ≡ literal (string_value name)
        → Accesses c name o

  pub data Calls (n : ℕ) : String → ℕ → Type 0 where
    calls :
        {c o : ℕ} {args : List ℕ} {name : String}
        → s.node n ≡ call_expression c args
        → Accesses c name o
        → Calls n name o

  -- One pass over an array behind the other; `a` is the call inside, `b` the call around it.
  pub data Passes (n : ℕ) : Target → Target → Type 0 where
    map_behind_filter :
        {m x y : ℕ}
        → Calls n "map" y
        → WrappedIn s m y
        → Calls m "filter" x
        → Passes n (record { name = "filter"; object = x }) (record { name = "map"; object = y })
    filter_behind_map :
        {m x y : ℕ}
        → Calls n "filter" y
        → WrappedIn s m y
        → Calls m "map" x
        → Passes n (record { name = "map"; object = x }) (record { name = "filter"; object = y })

  abbrev pub ArrayPasses : ℕ → Report → Type 0
  ArrayPasses n r =
      (a b : Target) × Passes n a b
      × KnownArray s a.object
      × (r ≡ record {
        node = n;
        message_id = "arrayFilterMap";
        placeholders = ("first", a.name) ∷ ("second", b.name) ∷ [];
      })

  module _ (tree : IsTree s) where
    target_sound :
        (c : ℕ) (t : Target) → array_method_target s c ≡ some t → Accesses c t.name t.object
    unfolding array_method_target
    target_sound c t h = elim (Option-cases (as_member (s.node (unwrap_array_expression s c)))) [
      | inl e ↦ absurd (ground arith)
      | inr (m, e) ↦ elim (Option-cases (static_name s m)) [
        | inl e' ↦ absurd (ground arith)
        | inr (name, e') ↦
            let found : some (record { name = name; object = m.object }) ≡ some t =
              rw (e', array_method_target) at (rw (e, array_method_target) at h) in
            let same : record { name = name; object = m.object } ≡ t = ground arith in
            subst (λ u. Accesses c u.name u.object) same (go m name e' (as_member-eq-some _ m e))
      ]
    ]
      where
        wrapped : WrappedIn s (unwrap_array_expression s c) c
        wrapped = (unwrap_array_expression_iff s tree c (unwrap_array_expression s c)).0 refl

        go :
            (m : Member) (name : String)
            → static_name s m ≡ some name
            → s.node (unwrap_array_expression s c)
              ≡ member_expression m.object m.property m.computed
            → Accesses c name m.object
        go m name h e = elim (Bool-cases m.computed) [
          | inl q ↦
              by_text wrapped (rw (← q) e)
                (as_string_literal-eq-some (s.node m.property) name (ground arith))
          | inr q ↦
              let (t, r) = as_identifier-eq-some (s.node m.property) name (ground arith) in
              by_name wrapped (rw (← q) e) r
        ]

    target_complete :
        {c o : ℕ} {name : String}
        → Accesses c name o
        → array_method_target s c ≡ some (record { name = name; object = o })
    unfolding array_method_target
    target_complete {c} (by_name {k} w e q) =
        let i = (unwrap_array_expression_iff s tree c k).1 w in
        rw (i, array_method_target) (rw (e, array_method_target) (rw q refl))
    target_complete {c} (by_text {k} w e q) =
        let i = (unwrap_array_expression_iff s tree c k).1 w in
        rw (i, array_method_target) (rw (e, array_method_target) (rw q refl))

    called_sound : (n : ℕ) (t : Target) → called_target s n ≡ some t → Calls n t.name t.object
    unfolding called_target
    called_sound n t h = elim (Option-cases (as_call (s.node n))) [
      | inl e ↦ absurd (ground arith)
      | inr (call, e) ↦
          calls (as_call-eq-some (s.node n) call e)
            (target_sound call.callee t (rw (e, called_target) at h))
    ]

    called_complete :
        {n o : ℕ} {name : String}
        → Calls n name o
        → called_target s n ≡ some (record { name = name; object = o })
    unfolding called_target
    called_complete (calls e a) = rw (e, called_target) (target_complete a)

    Passes-of_names :
        (n m x y : ℕ) (a b : String)
        → Calls n b y
        → WrappedIn s m y
        → Calls m a x
        → other_pass b ≡ some a
        → Passes n (record { name = a; object = x }) (record { name = b; object = y })
    Passes-of_names n m x y a b c w d h = elim (other_pass-cases b a h) [
      | inl (p, q) ↦ rw (q, p) (map_behind_filter (rw p at c) w (rw q at d))
      | inr (p, q) ↦ rw (q, p) (filter_behind_map (rw p at c) w (rw q at d))
    ]

    Passes-sound : (n : ℕ) (a b : Target) → adjacent_passes s n ≡ some (a, b) → Passes n a b
    unfolding adjacent_passes
    Passes-sound n a b h = elim (Option-cases (called_target s n)) [
      | inl e ↦ absurd (ground arith)
      | inr (b', e) ↦ elim (Option-cases (other_pass b'.name)) [
        | inl e' ↦ absurd (ground arith)
        | inr (wanted, e') ↦
            elim (Option-cases (called_target s (unwrap_array_expression s b'.object))) [
              | inl e'' ↦ absurd (ground arith)
              | inr (a', e'') ↦ elim (Bool-cases (a'.name == wanted)) [
                | inl q ↦
                    let found : some (a', b') ≡ some (a, b) =
                      rw (q, adjacent_passes) at
                        (rw (e'', adjacent_passes) at
                          (rw (e', adjacent_passes) at (rw (e, adjacent_passes) at h))) in
                    let (same_a, same_b) = pair_eq a' b' a b found in
                    rw (← same_a, ← same_b)
                      (Passes-of_names n (unwrap_array_expression s b'.object) a'.object b'.object
                        a'.name b'.name (called_sound n b' e)
                        ((unwrap_array_expression_iff s tree b'.object _).0 refl)
                        (called_sound _ a' e'') (rw ((eq_iff a'.name wanted).0 q) e'))
                | inr q ↦ absurd (ground arith)
              ]
            ]
      ]
    ]

    Passes-complete : {n : ℕ} {a b : Target} → Passes n a b → adjacent_passes s n ≡ some (a, b)
    unfolding adjacent_passes
    Passes-complete (map_behind_filter {m} {x} {y} c w d) =
        rw (called_complete c, adjacent_passes)
          (rw ((unwrap_array_expression_iff s tree y m).1 w) (rw (called_complete d) refl))
    Passes-complete (filter_behind_map {m} {x} {y} c w d) =
        rw (called_complete c, adjacent_passes)
          (rw ((unwrap_array_expression_iff s tree y m).1 w) (rw (called_complete d) refl))

  -- With the trees of a parser and a scope analysis the rule always answers, and its reports on a node are
  -- exactly those of a `map` call directly on a `filter` call, or of a `filter` call on a `map` call, where the
  -- inner receiver has local evidence of an array; each names the two methods, the inner first.
  pub no_array_filter_map_iff :
      IsScoped s
      → (n : ℕ)
      → (reports : List Report) × (no_array_filter_map s n ≡ some reports)
        × ((r : Report) → Memᴰ r reports ↔ ArrayPasses n r)
  unfolding no_array_filter_map
  no_array_filter_map_iff scoped n = elim (Option-cases (adjacent_passes s n)) [
    | inl e ↦ (
      [],
      rw (e, no_array_filter_map),
      λ r. (
        λ m. absurd (Memᴰ.not-nil m),
        λ (a, b, p, k, q). absurd (no_passes (sym e ∙ Passes-complete scoped.tree p)),
      ),
    )
    | inr ((a, b), e) ↦
        let (known, q) = is_known_array_expression_ends s scoped a.object in go a b known e q
  ]
    where
      go :
          (a b : Target) (known : Bool)
          → adjacent_passes s n ≡ some (a, b)
          → is_known_array_expression s a.object ≡ some known
          → (reports : List Report) × (no_array_filter_map s n ≡ some reports)
            × ((r : Report) → Memᴰ r reports ↔ ArrayPasses n r)
      go a b true e q = (
        passes_report s n (a, b) true,
        rw (e, no_array_filter_map) (rw q refl),
        λ r. (
          λ m. (
            a,
            b,
            Passes-sound scoped.tree n a b e,
            (is_known_array_expression_iff s scoped a.object).1.0 q,
            Memᴰ.eq_of_singleton m,
          ),
          λ (a', b', p, k, q').
              let (x, y) = pair_eq a b a' b' (sym e ∙ Passes-complete scoped.tree p) in
              Memᴰ.head (rw (x, y) q'),
        ),
      )
      go a b false e q = (
        [],
        rw (e, no_array_filter_map) (rw q refl),
        λ r. (
          λ m. absurd (Memᴰ.not-nil m),
          λ (a', b', p, k, q').
              let (x, y) = pair_eq a b a' b' (sym e ∙ Passes-complete scoped.tree p) in
              let known = (is_known_array_expression_iff s scoped a'.object).1.1 k in
              absurd (true_or_false (sym (rw x known) ∙ q)),
        ),
      )
