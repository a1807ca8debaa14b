-- ===== src/Rules/Expressions/SpreadLaws.antt =====
-- no-conditional-empty-object-spread against the syntax that it rejects.
use zslay.Prelude.{
  &&_iff, List, List-cases, Option-cases, [], arith, false, if-nonempty, inl, inr, refl, some, true,
  ||_iff, ℕ, ◌<◌, ◌↔◌, ◌∷◌, ◌≡◌, ◌≢◌, ◌⊎◌,
}
use zslay.Ast.{
  IsTree, Node, SourceCode, Steps, Steps-unique, as_conditional, as_conditional-eq-some, as_object,
  conditional_expression, object_expression, parent, spread_element, walk, walk-Steps, walk_ends,
}
use zslay.Rules.Assertions.{parenthesized, unwrap_parenthesized_expression}
use zslay.Rules.Assertions.ChainLaws.{parenthesized_below}
use zslay.Rules.Expressions.{
  as_spread, is_conditional_empty_object_spread, is_empty_object_expression,
  no_conditional_empty_object_spread, parent_is_object,
}

module _ (s : SourceCode) where
  -- `{ ...(test ? {} : value) }`, either way round and in any parentheses
  pub data ConditionalSpread (n : ℕ) : Type 0 where
    spreads :
        {p e k t c a : ℕ} {ps above : List ℕ}
        → s.node n ≡ spread_element e
        → s.ancestors n ≡ p ∷ above
        → s.node p ≡ object_expression ps
        → Steps (λ m. parenthesized (s.node m)) e k
        → s.node k ≡ conditional_expression t c a
        → (s.node c ≡ object_expression []) ⊎ (s.node a ≡ object_expression [])
        → ConditionalSpread n

  as_spread-eq-some : (v : Node) (e : ℕ) → as_spread v ≡ some e → v ≡ spread_element e
  as_spread-eq-some (spread_element x) e h = ground arith
  as_spread-eq-some _ e h = absurd (ground arith)

  as_object-eq-some : (v : Node) (ps : List ℕ) → as_object v ≡ some ps → v ≡ object_expression ps
  as_object-eq-some (object_expression xs) ps h = ground arith
  as_object-eq-some _ ps h = absurd (ground arith)

  empty_object : (n : ℕ) → is_empty_object_expression s n ≡ true → s.node n ≡ object_expression []
  empty_object n h = elim (Option-cases (as_object (s.node n))) [
    | inl e ↦
        let c : false ≡ true = rw (e, is_empty_object_expression) at h in absurd (ground arith)
    | inr (ps, e) ↦ elim (List-cases ps) [
      | inl q ↦ rw (← q) (as_object-eq-some (s.node n) ps e)
      | inr (x, xs, q) ↦
          let c : false ≡ true = rw q at (rw (e, is_empty_object_expression) at h) in
          absurd (ground arith)
    ]
  ]

  module _ (tree : IsTree s) where
    parentheses_down : (n m : ℕ) → parenthesized (s.node n) ≡ some m → m < n
    parentheses_down n m h = parenthesized_below (s.node n) n m (tree.below n) h

    conditional_inside :
        (e : ℕ)
        → is_conditional_empty_object_spread s e ≡ true
        → (t c a : ℕ) × (s.node (walk (λ m. parenthesized (s.node m)) e)
            ≡ conditional_expression t c a)
          × ((s.node c ≡ object_expression []) ⊎ (s.node a ≡ object_expression []))
    unfolding is_conditional_empty_object_spread unwrap_parenthesized_expression
    conditional_inside e h =
        elim (Option-cases (as_conditional (s.node (walk (λ m. parenthesized (s.node m)) e)))) [
          | inl q ↦
              let c : false ≡ true = rw (q, is_conditional_empty_object_spread) at h in
              absurd (ground arith)
          | inr (c, q) ↦ (
            c.test,
            c.consequent,
            c.alternate,
            as_conditional-eq-some _ c q,
            elim ((||_iff (is_empty_object_expression s c.consequent) _).0
                (rw (q, is_conditional_empty_object_spread) at h)) [
                  | inl o ↦ inl (empty_object c.consequent o)
                  | inr o ↦ inr (empty_object c.alternate o)
                ],
          )
        ]

    ConditionalSpread-sound :
        (n : ℕ) → no_conditional_empty_object_spread s n ≢ [] → ConditionalSpread n
    unfolding no_conditional_empty_object_spread is_conditional_empty_object_spread
        unwrap_parenthesized_expression
    ConditionalSpread-sound n h = elim (Option-cases (as_spread (s.node n))) [
      | inl e ↦ absurd (h (rw (e, no_conditional_empty_object_spread) refl))
      | inr (e, i) ↦
          let r = (if-nonempty _ _ []).0 (rw (i, no_conditional_empty_object_spread) at h) in
          let (a, b) = (&&_iff (parent_is_object s (parent s n)) _).0 r in
          let (t, c, x, q, o) = conditional_inside e b in
          elim (List-cases (s.ancestors n)) [
            | inl z ↦ let c : false ≡ true = rw (z, parent) at a in absurd (ground arith)
            | inr (p, above, z) ↦ elim (Option-cases (as_object (s.node p))) [
              | inl y ↦
                  let c : false ≡ true = rw y at (rw (z, parent) at a) in absurd (ground arith)
              | inr (ps, y) ↦
                  spreads (as_spread-eq-some (s.node n) e i) z (as_object-eq-some (s.node p) ps y)
                    (walk-Steps _ parentheses_down e) q o
            ]
          ]
    ]

    conditional_outside :
        {e k t c a : ℕ}
        → Steps (λ m. parenthesized (s.node m)) e k
        → s.node k ≡ conditional_expression t c a
        → (s.node c ≡ object_expression []) ⊎ (s.node a ≡ object_expression [])
        → is_conditional_empty_object_spread s e ≡ true
    unfolding is_conditional_empty_object_spread unwrap_parenthesized_expression
    conditional_outside {e} w q o =
        let same =
          Steps-unique (walk-Steps _ parentheses_down e) w (walk_ends _ parentheses_down e)
            (rw q refl) in
        rw (same, is_conditional_empty_object_spread)
          (rw q (elim o [
            | inl x ↦ rw (x, is_empty_object_expression) refl
            | inr x ↦ rw (x, is_empty_object_expression) (ground arith)
          ]))

    ConditionalSpread-complete :
        {n : ℕ} → ConditionalSpread n → no_conditional_empty_object_spread s n ≢ []
    unfolding no_conditional_empty_object_spread
    ConditionalSpread-complete {n} (spreads i z y w q o) =
        rw (i, no_conditional_empty_object_spread)
          (rw (z, parent) (rw y (rw (conditional_outside w q o) (λ c. absurd (ground arith)))))

    -- On a tree, no-conditional-empty-object-spread reports a node exactly when it is a spread directly in an object
    -- literal, of a ternary, in any parentheses, that has an empty object literal as one of its branches.
    pub no_conditional_empty_object_spread_iff :
        (n : ℕ) → (no_conditional_empty_object_spread s n ≢ []) ↔ ConditionalSpread n
    no_conditional_empty_object_spread_iff n =
        (ConditionalSpread-sound n, ConditionalSpread-complete)
