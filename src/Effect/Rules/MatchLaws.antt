-- ===== src/Effect/Rules/MatchLaws.antt =====
-- prefer-effect-match against the syntax of a chain of ternaries.
use zslay.Prelude.{
  Bool-cases, Option, Option-cases, String, [], ap, arith, eq_iff, eq_refl, false, inl, inr, ltb,
  none, refl, some, subst, suc, true, zero, ℕ, ◌+◌, ◌<◌, ◌↔◌, ◌≡◌, ◌≢◌,
}
use zslay.Ast.{
  Conditional, IsBelow, IsTree, Node, SourceCode, as_conditional, as_conditional-eq-some,
  conditional_expression,
}
use zslay.Effect.TaggedValues.{is_named}
use zslay.Effect.Rules.{
  compared_value, count_checks, is_nested_conditional, prefer_effect_match, prefer_in,
}

module _ (s : SourceCode) where
  -- `length` ternaries, each the alternate of the one before, that all compare the text `value` with a
  -- literal; the last alternate is no ternary.
  pub data LiteralChain (value : String) : ℕ → ℕ → Type 0 where
    last : {n : ℕ} → as_conditional (s.node n) ≡ none → LiteralChain value n 0
    link :
        {n k : ℕ} (c : Conditional)
        → as_conditional (s.node n) ≡ some c
        → compared_value s c.test ≡ some value
        → LiteralChain value c.alternate k
        → LiteralChain value n (suc k)

  is_named-eq : (o : Option String) (value : String) → is_named o value ≡ true → o ≡ some value
  is_named-eq none value h = absurd (ground arith)
  is_named-eq (some x) value h = ap some ((eq_iff x value).0 h)

  count_checks_sound :
      (fuel : ℕ) (value : String) (n start total : ℕ)
      → count_checks s fuel value n start ≡ some total
      → (k : ℕ) × LiteralChain value n k × (total ≡ start + k)
  unfolding count_checks
  count_checks_sound zero value n start total h = absurd (ground arith)
  count_checks_sound (suc fuel) value n start total h =
      elim (Option-cases (as_conditional (s.node n))) [
        | inl e ↦ (0, last e, ground arith)
        | inr (c, e) ↦ elim (Bool-cases (is_named (compared_value s c.test) value)) [
          | inr q ↦ absurd (ground arith)
          | inl q ↦
              let (k, chain, sum) =
                count_checks_sound fuel value c.alternate (start + 1) total (ground arith) in
              (suc k, link c e (is_named-eq (compared_value s c.test) value q) chain, omega arith)
        ]
      ]

  module _ (tree : IsTree s) where
    alternate_below :
        (n : ℕ) (c : Conditional) → as_conditional (s.node n) ≡ some c → c.alternate < n
    alternate_below n c e = go (s.node n) (tree.below n) e
      where
        go : (v : Node) → IsBelow n v → as_conditional v ≡ some c → c.alternate < n
        go (conditional_expression t q a) b h = ground arith
        go _ b h = absurd (ground arith)

    count_checks_complete :
        {value : String} {n k : ℕ} (fuel start : ℕ)
        → n < fuel
        → LiteralChain value n k
        → count_checks s fuel value n start ≡ some (start + k)
    unfolding count_checks
    count_checks_complete zero start h chain = absurd (omega arith)
    count_checks_complete (suc fuel) start h (last e) = rw (e, count_checks) (ground arith)
    count_checks_complete {value} (suc fuel) start h (link {n} {k} c e q chain) =
        let rest =
          count_checks_complete fuel (start + 1) (omega (arith, alternate_below n c e)) chain in
        rw (e, count_checks) (rw q (ground (arith, eq_refl value, rest)))

    LiteralChain-suc :
        {value : String} {n k : ℕ} (c : Conditional)
        → LiteralChain value n k
        → as_conditional (s.node n) ≡ some c
        → (j : ℕ) × (k ≡ suc j)
          × (compared_value s c.test ≡ some value)
          × LiteralChain value c.alternate j
    LiteralChain-suc c (last e) h = absurd (ground arith)
    LiteralChain-suc {value} c (link {k} d e q chain) h =
        let same : d ≡ c = cc in
        (
          k,
          refl,
          subst (λ x. compared_value s x.test ≡ some value) same q,
          subst (λ x. LiteralChain value x.alternate k) same chain,
        )

    prefer_sound :
        (n : ℕ)
        → prefer_effect_match s n ≢ []
        → (is_nested_conditional s n ≡ false)
          × ((value : String) × (k : ℕ) × LiteralChain value n (suc (suc k)))
    unfolding prefer_effect_match
    prefer_sound n = go (s.node n) refl
      where
        go :
            (v : Node)
            → s.node n ≡ v
            → prefer_in s n v ≢ []
            → (is_nested_conditional s n ≡ false)
              × ((value : String) × (k : ℕ) × LiteralChain value n (suc (suc k)))
        go (conditional_expression t q a) e h = elim (Option-cases (compared_value s t)) [
          | inl q ↦ absurd (ground arith)
          | inr (value, found) ↦ elim (Option-cases (count_checks s (suc a) value a 1)) [
            | inl q ↦ absurd (ground arith)
            | inr (total, counted) ↦
                let (k, chain, sum) = count_checks_sound (suc a) value a 1 total counted in
                let (j, pos) = positive k total sum (ground arith) in
                (
                  ground arith,
                  (
                    value,
                    j,
                    link (record { test = t; consequent = q; alternate = a }) (rw e) found
                        (subst (LiteralChain value a) pos chain),
                  ),
                )
          ]
        ]
          where
            positive : (k total : ℕ) → total ≡ 1 + k → ltb 1 total ≡ true → (j : ℕ) × (k ≡ suc j)
            positive zero total p q = absurd (ground arith)
            positive (suc j) total p q = (j, refl)
        go _ e h = absurd (h refl)

    prefer_complete :
        (n : ℕ) (value : String) (k : ℕ)
        → is_nested_conditional s n ≡ false
        → LiteralChain value n (suc (suc k))
        → prefer_effect_match s n ≢ []
    unfolding prefer_effect_match
    prefer_complete n value k outer (link c e q chain) =
        let v = as_conditional-eq-some (s.node n) c e in
        let counted = count_checks_complete (suc c.alternate) 1 (omega arith) chain in
        rw (v, prefer_in) (rw (outer, q) (rw counted (ground arith)))

    -- The rule reports a ternary exactly when it does not stand directly in another, and it begins a
    -- chain of two or more that compare one text with literals, up to the alternate that is no ternary.
    pub prefer_effect_match_iff :
        (n : ℕ)
        → (prefer_effect_match s n ≢ []) ↔ (
            (is_nested_conditional s n ≡ false)
            × ((value : String) × (k : ℕ) × LiteralChain value n (suc (suc k))))
    prefer_effect_match_iff n =
        (prefer_sound n, λ (outer, (value, k, chain)). prefer_complete n value k outer chain)
