-- ===== src/Rules/Assertions/ChainLaws.antt =====
-- no-chained-type-assertions against the syntax of a chain.
use zslay.Prelude.{
  =#_iff, &&_iff, Bool, Bool-cases, List, Option, Option-cases, [], arith, false, inl, inr, ltb,
  none, not, refl, some, suc, true, zero, ℕ, ◌&&◌, ◌+◌, ◌<◌, ◌=#◌, ◌||◌, ◌↔◌, ◌∷◌, ◌≡◌, ◌≢◌,
}
use zslay.Ast.{
  Assertion, IsBelow, IsTree, Node, SourceCode, as_assertion, parenthesized_expression,
  ts_as_expression, ts_type_assertion, walk_le,
}
use zslay.Rules.Assertions.{
  asserts_other, chain_from, chained_in, is_const_assertion, is_forbidden_assertion_chain,
  is_outermost_assertion_in_chain, no_chained_type_assertions, outermost_from, parenthesized,
  unwrap_parenthesized_expression,
}

assertion_below :
    (v : Node) (n : ℕ) (a : Assertion) → IsBelow n v → as_assertion v ≡ some a → a.expression < n
assertion_below (ts_as_expression e t) n a b h = ground arith
assertion_below (ts_type_assertion e t) n a b h = ground arith
assertion_below _ n a b h = absurd (ground arith)

pub parenthesized_below : (v : Node) (n m : ℕ) → IsBelow n v → parenthesized v ≡ some m → m < n
parenthesized_below (parenthesized_expression e) n m b h = ground arith
parenthesized_below _ n m b h = absurd (ground arith)

pub parenthesized-eq-some :
    (v : Node) (e : ℕ) → parenthesized v ≡ some e → v ≡ parenthesized_expression e
parenthesized-eq-some (parenthesized_expression x) e h = ground arith
parenthesized-eq-some _ e h = absurd (ground arith)

module _ (s : SourceCode) where
  -- `k` assertions, each inside the one before but for parentheses, down to an expression that is none; the
  -- Boolean says whether one of them is no `as const`.
  pub data AssertionChain : ℕ → ℕ → Bool → Type 0 where
    ends : {n : ℕ} → as_assertion (s.node n) ≡ none → AssertionChain n 0 false
    asserts :
        {n k : ℕ} {b : Bool} (a : Assertion)
        → as_assertion (s.node n) ≡ some a
        → AssertionChain (unwrap_parenthesized_expression s a.expression) k b
        → AssertionChain n (suc k) (not (is_const_assertion s a) || b)

  -- Around a node, but for parentheses, there is no assertion of it.
  pub data Outermost : ℕ → List ℕ → Type 0 where
    at_root : {n : ℕ} → Outermost n []
    in_parentheses :
        {n p : ℕ} {above : List ℕ}
        → s.node p ≡ parenthesized_expression n
        → Outermost p above
        → Outermost n (p ∷ above)
    in_other :
        {n p : ℕ} {above : List ℕ}
        → s.node p ≢ parenthesized_expression n
        → ((a : Assertion) → as_assertion (s.node p) ≡ some a → a.expression ≢ n)
        → Outermost n (p ∷ above)

  asserts_other_sound :
      (p n : ℕ)
      → asserts_other s p n ≡ true
      → (a : Assertion) → as_assertion (s.node p) ≡ some a
      → a.expression ≢ n
  asserts_other_sound p n h a e q =
      let r = rw (e, asserts_other) at h in let t = (=#_iff a.expression n).1 q in ground arith

  asserts_other_complete :
      (p n : ℕ)
      → ((a : Assertion) → as_assertion (s.node p) ≡ some a → a.expression ≢ n)
      → asserts_other s p n ≡ true
  asserts_other_complete p n h = elim (Option-cases (as_assertion (s.node p))) [
    | inl e ↦ rw (e, asserts_other)
    | inr (a, e) ↦ elim (Bool-cases (a.expression =# n)) [
      | inl q ↦ absurd (h a e ((=#_iff a.expression n).0 q))
      | inr q ↦ rw (e, asserts_other) (rw q)
    ]
  ]

  Outermost-sound : (n : ℕ) (above : List ℕ) → outermost_from s n above ≡ true → Outermost n above
  unfolding outermost_from
  Outermost-sound n [] h = at_root
  Outermost-sound n (p ∷ above) h = elim (Option-cases (parenthesized (s.node p))) [
    | inl e ↦
        in_other (λ q. let r : parenthesized (s.node p) ≡ some n = rw q in cc)
          (asserts_other_sound p n (rw (e, outermost_from) at h))
    | inr (x, e) ↦ elim (Bool-cases (x =# n)) [
      | inl q ↦
          let same = (=#_iff x n).0 q in
          in_parentheses (parenthesized-eq-some (s.node p) n (rw same at e))
            (Outermost-sound p above (rw q at (rw (e, outermost_from) at h)))
      | inr q ↦
          in_other
            (λ r. let t : parenthesized (s.node p) ≡ some n = rw r in ground (arith, =#_iff x n))
            (asserts_other_sound p n (rw q at (rw (e, outermost_from) at h)))
    ]
  ]

  Outermost-complete :
      {n : ℕ} {above : List ℕ} → Outermost n above → outermost_from s n above ≡ true
  unfolding outermost_from
  Outermost-complete at_root = refl
  Outermost-complete {n} (in_parentheses {p} e r) =
      rw (e, outermost_from) (rw ((=#_iff n n).1 refl) (Outermost-complete r))
  Outermost-complete {n} (in_other {p} d h) = elim (Option-cases (parenthesized (s.node p))) [
    | inl e ↦ rw (e, outermost_from) (asserts_other_complete p n h)
    | inr (x, e) ↦ elim (Bool-cases (x =# n)) [
      | inl q ↦
          let same = (=#_iff x n).0 q in
          absurd (d (parenthesized-eq-some (s.node p) n (rw same at e)))
      | inr q ↦ rw (e, outermost_from) (rw q (asserts_other_complete p n h))
    ]
  ]

  module _ (tree : IsTree s) where
    inner_lt :
        (n : ℕ) (a : Assertion)
        → as_assertion (s.node n) ≡ some a
        → unwrap_parenthesized_expression s a.expression < n
    unfolding unwrap_parenthesized_expression
    inner_lt n a e =
        let low =
          walk_le _ (λ k m h. parenthesized_below (s.node k) k m (tree.below k) h) a.expression in
        omega (arith, low, assertion_below (s.node n) n a (tree.below n) e)

    chain_exists : (fuel n : ℕ) → n < fuel → (k : ℕ) × (b : Bool) × AssertionChain n k b
    chain_exists zero n h = absurd (omega arith)
    chain_exists (suc fuel) n h = elim (Option-cases (as_assertion (s.node n))) [
      | inl e ↦ (0, false, ends e)
      | inr (a, e) ↦
          let (k, b, c) =
            chain_exists fuel (unwrap_parenthesized_expression s a.expression)
              (omega (arith, inner_lt n a e)) in
          (suc k, not (is_const_assertion s a) || b, asserts a e c)
    ]

    chain_from_lem :
        (fuel count : ℕ) (c : Bool) {n k : ℕ} {b : Bool}
        → n < fuel
        → AssertionChain n k b
        → chain_from s fuel n count c ≡ (ltb 1 (count + k) && (c || b))
    unfolding chain_from
    chain_from_lem zero count c h r = absurd (omega arith)
    chain_from_lem (suc fuel) count c h (ends e) = rw (e, chain_from) (ground arith)
    chain_from_lem (suc fuel) count c h (asserts {n} {k} {b} a e r) =
        let ih =
          chain_from_lem fuel (count + 1) (c || not (is_const_assertion s a))
            (omega (arith, inner_lt n a e)) r in
        rw (e, chain_from) (rw ih (ground arith))

    forbidden_sound :
        (n : ℕ)
        → is_forbidden_assertion_chain s n ≡ true
        → (k : ℕ) × AssertionChain n (suc (suc k)) true
    unfolding is_forbidden_assertion_chain
    forbidden_sound n h =
        let (k, b, r) = chain_exists (suc n) n (omega arith) in
        go k b r (chain_from_lem (suc n) 0 false (omega arith) r)
      where
        go :
            (k : ℕ) (b : Bool)
            → AssertionChain n k b
            → chain_from s (suc n) n 0 false ≡ (ltb 1 (0 + k) && (false || b))
            → (j : ℕ) × AssertionChain n (suc (suc j)) true
        go (suc (suc k)) true r e = (k, r)
        go zero b r e = absurd (ground arith)
        go (suc zero) b r e = absurd (ground arith)
        go (suc (suc k)) false r e = absurd (ground arith)

    forbidden_complete :
        (n k : ℕ) → AssertionChain n (suc (suc k)) true → is_forbidden_assertion_chain s n ≡ true
    unfolding is_forbidden_assertion_chain
    forbidden_complete n k r =
        let e = chain_from_lem (suc n) 0 false (omega arith) r in ground arith

    starts_with_assertion :
        {n k : ℕ} {b : Bool}
        → AssertionChain n (suc k) b
        → (a : Assertion) × (as_assertion (s.node n) ≡ some a)
    starts_with_assertion (asserts a e c) = (a, e)

    -- The rule reports a node exactly when it is the outermost of a chain of two or more type assertions, each
    -- the expression of the one around it but for parentheses, of which one at least is no `as const`.
    pub no_chained_type_assertions_iff :
        (n : ℕ)
        → (no_chained_type_assertions s n ≢ [])
          ↔ (Outermost n (s.ancestors n) × ((k : ℕ) × AssertionChain n (suc (suc k)) true))
    unfolding no_chained_type_assertions is_outermost_assertion_in_chain
    no_chained_type_assertions_iff n = (forth (as_assertion (s.node n)), λ (o, (k, r)). back k o r)
      where
        forth :
            (v : Option Assertion)
            → chained_in s n v ≢ []
            → Outermost n (s.ancestors n) × ((k : ℕ) × AssertionChain n (suc (suc k)) true)
        forth none h = absurd (h refl)
        forth (some a) h =
            elim (Bool-cases
              (is_outermost_assertion_in_chain s n && is_forbidden_assertion_chain s n)) [
                | inl q ↦
                    let both = (&&_iff (is_outermost_assertion_in_chain s n) _).0 q in
                    (Outermost-sound n (s.ancestors n) both.0, forbidden_sound n both.1)
                | inr q ↦ absurd (h (ground arith))
              ]

        back :
            (k : ℕ)
            → Outermost n (s.ancestors n)
            → AssertionChain n (suc (suc k)) true
            → chained_in s n (as_assertion (s.node n)) ≢ []
        back k o r =
            let (a, e) = starts_with_assertion r in
            rw (e, is_outermost_assertion_in_chain, Outermost-complete o, forbidden_complete n k r)
              (λ h. absurd (ground arith))
