-- ===== src/Shared/TypeAlias/Resolve/MatchLaws.antt =====
-- `resolvedTypeMatches` against a relation: resolving a type ends, and finds what the aliases spell out.
use zslay.Prelude.{
  Bool, List, Memᴰ, [], any, any-of-mem, arith, false, inl, inr, length, mem-of-any, refl, suc,
  true, unvisited, unvisited_le, zero, ||_iff, ℕ, ◌<◌, ◌||◌, ◌↔◌, ◌≡◌, ◌≤◌,
}
use zslay.Ast.{Node, SourceCode}
use zslay.Shared.TypeAlias.Resolve.SmallerLaws.{aliases_of, length-aliases_of, plan-Smaller}
use zslay.Shared.TypeAlias.Resolve.{
  Matcher, Plan, Substitutions, depth, evaluate, evaluate_argument, evaluate_node, expand,
  match_here, no_substitution, plan, resolved_type_matches, substitute,
}
use zslay.Shared.TypeAlias.{TypeBinding}

module _ (s : SourceCode) (environment : List TypeBinding) where
  module _ (here : Node → Bool) (parts : Node → List ℕ) where
    -- A type matches: what its name stands for does, or it does itself, or one of its parts does. The
    -- substitutions are those in force, and `resolving` the aliases that it stands inside.
    pub data Matches : Substitutions → List ℕ → ℕ → Type 0 where
      in_argument :
          {m captured : Substitutions} {resolving : List ℕ} {t u : ℕ}
          → plan s environment m resolving t ≡ substitute u captured
          → Matches captured resolving u
          → Matches m resolving t
      in_alias :
          {m next : Substitutions} {resolving resolving' : List ℕ} {t body : ℕ}
          → plan s environment m resolving t ≡ expand next resolving' body
          → Matches next resolving' body
          → Matches m resolving t
      itself :
          {m : Substitutions} {resolving : List ℕ} {t : ℕ}
          → plan s environment m resolving t ≡ match_here
          → here (s.node t) ≡ true
          → Matches m resolving t
      in_part :
          {m : Substitutions} {resolving : List ℕ} {t c : ℕ}
          → plan s environment m resolving t ≡ match_here
          → Memᴰ c (parts (s.node t))
          → Matches m resolving c
          → Matches m resolving t

    -- A matcher that looks at a type and asks for its parts.
    abbrev pub matcher_of : Matcher
    matcher_of rec v = here v || any rec (parts v)

    node_sound :
        (argument : Substitutions → ℕ → Bool) (alias : Substitutions → List ℕ → ℕ → Bool)
        → (resolving : List ℕ)
        → ((m : Substitutions) (u : ℕ) → argument m u ≡ true → Matches m resolving u)
        → ((m : Substitutions) (r : List ℕ) (u : ℕ) → alias m r u ≡ true → Matches m r u)
        → (fuel : ℕ) (m : Substitutions) (t : ℕ)
        → evaluate_node s environment matcher_of argument alias fuel m resolving t ≡ true
        → Matches m resolving t
    unfolding evaluate_node
    node_sound argument alias resolving by_argument by_alias zero m t h = absurd (ground arith)
    node_sound argument alias resolving by_argument by_alias (suc fuel) m t h =
        go (plan s environment m resolving t) refl
          (node_sound argument alias resolving by_argument by_alias fuel m)
      where
        rec : ℕ → Bool
        rec c = evaluate_node s environment matcher_of argument alias fuel m resolving c

        go :
            (p : Plan)
            → plan s environment m resolving t ≡ p
            → ((c : ℕ) → rec c ≡ true → Matches m resolving c)
            → Matches m resolving t
        go match_here e ih =
            elim ((||_iff (here (s.node t)) (any rec (parts (s.node t)))).0
              (rw (e, evaluate_node) at h)) [
                | inl q ↦ itself e q
                | inr q ↦
                    let (c, k, r) = mem-of-any rec (parts (s.node t)) q in in_part e k (ih c r)
              ]
        go (substitute u captured) e ih =
            in_argument e (by_argument captured u (rw (e, evaluate_node) at h))
        go (expand next resolving' body) e ih =
            in_alias e (by_alias next resolving' body (rw (e, evaluate_node) at h))

    argument_sound :
        (alias : Substitutions → List ℕ → ℕ → Bool)
        → ((m : Substitutions) (r : List ℕ) (u : ℕ) → alias m r u ≡ true → Matches m r u)
        → (d : ℕ) (m : Substitutions) (resolving : List ℕ) (t : ℕ)
        → evaluate_argument s environment matcher_of alias d m resolving t ≡ true
        → Matches m resolving t
    unfolding evaluate_argument
    argument_sound alias by_alias zero m resolving t h =
        node_sound (λ _ _. false) alias resolving (λ k u q. absurd (ground arith)) by_alias (suc t)
          m t h
    argument_sound alias by_alias (suc d) m resolving t h =
        node_sound (λ k u. evaluate_argument s environment matcher_of alias d k resolving u) alias
          resolving (λ k u q. argument_sound alias by_alias d k resolving u q) by_alias (suc t) m t
          h

    evaluate_sound :
        (n : ℕ) (m : Substitutions) (resolving : List ℕ) (t : ℕ)
        → evaluate s environment matcher_of n m resolving t ≡ true
        → Matches m resolving t
    unfolding evaluate
    evaluate_sound zero m resolving t h =
        argument_sound (λ _ _ _. false) (λ k r u q. absurd (ground arith)) (depth m) m resolving t h
    evaluate_sound (suc n) m resolving t h =
        argument_sound (λ k r u. evaluate s environment matcher_of n k r u)
          (λ k r u q. evaluate_sound n k r u q) (depth m) m resolving t h

    module _ (parts_below : (t c : ℕ) → Memᴰ c (parts (s.node t)) → c < t) where
      node_complete :
          (argument : Substitutions → ℕ → Bool) (alias : Substitutions → List ℕ → ℕ → Bool)
          → (fuel : ℕ) {m : Substitutions} {resolving : List ℕ} {t : ℕ}
          → ((k : Substitutions) (u : ℕ)
              → depth k < depth m
              → Matches k resolving u
              → argument k u ≡ true)
          → ((k : Substitutions) (r : List ℕ) (u : ℕ)
              → unvisited r (aliases_of environment) < unvisited resolving (aliases_of environment)
              → Matches k r u
              → alias k r u ≡ true)
          → t < fuel
          → Matches m resolving t
          → evaluate_node s environment matcher_of argument alias fuel m resolving t ≡ true
      unfolding evaluate_node
      node_complete argument alias zero by_argument by_alias h k = absurd (omega arith)
      node_complete argument alias (suc fuel) by_argument by_alias h
            (in_argument {m} {captured} {resolving} {t} {u} e k) =
          let smaller : depth captured < depth m =
            rw e at (plan-Smaller s environment m resolving t) in
          rw (e, evaluate_node) (by_argument captured u smaller k)
      node_complete argument alias (suc fuel) by_argument by_alias h
            (in_alias {m} {next} {resolving} {resolving'} {t} {body} e k) =
          rw (e, evaluate_node)
            (by_alias next resolving' body (rw e at (plan-Smaller s environment m resolving t)) k)
      node_complete argument alias (suc fuel) by_argument by_alias h (itself e q) =
          rw (e, evaluate_node) (rw q)
      node_complete argument alias (suc fuel) by_argument by_alias h
            (in_part {m} {resolving} {t} {c} e q k) =
          let below = parts_below t c q in
          let found =
            any-of-mem
              (λ x. evaluate_node s environment matcher_of argument alias fuel m resolving x) q
              (node_complete argument alias fuel by_argument by_alias (omega arith) k) in
          rw (e, evaluate_node) (ground arith)

      argument_complete :
          (alias : Substitutions → List ℕ → ℕ → Bool) (d : ℕ)
          → {m : Substitutions} {resolving : List ℕ} {t : ℕ} → depth m ≤ d
          → ((k : Substitutions) (r : List ℕ) (u : ℕ)
              → unvisited r (aliases_of environment) < unvisited resolving (aliases_of environment)
              → Matches k r u
              → alias k r u ≡ true)
          → Matches m resolving t
          → evaluate_argument s environment matcher_of alias d m resolving t ≡ true
      unfolding evaluate_argument
      argument_complete alias zero {t} h by_alias k =
          node_complete (λ _ _. false) alias (suc t) (λ c u lt q. absurd (omega arith)) by_alias
            (omega arith) k
      argument_complete alias (suc d) {resolving} {t} h by_alias k =
          node_complete (λ c u. evaluate_argument s environment matcher_of alias d c resolving u)
            alias (suc t) (λ c u lt q. argument_complete alias d (omega arith) by_alias q) by_alias
            (omega arith) k

      evaluate_complete :
          (n : ℕ) {m : Substitutions} {resolving : List ℕ} {t : ℕ}
          → unvisited resolving (aliases_of environment) ≤ n
          → Matches m resolving t
          → evaluate s environment matcher_of n m resolving t ≡ true
      unfolding evaluate
      evaluate_complete zero {m} h k =
          argument_complete (λ _ _ _. false) (depth m) (omega arith)
            (λ c r u lt q. absurd (omega arith)) k
      evaluate_complete (suc n) {m} h k =
          argument_complete (λ c r u. evaluate s environment matcher_of n c r u) (depth m)
            (omega arith) (λ c r u lt q. evaluate_complete n (omega arith) q) k

      -- For a matcher that looks at a type and asks for parts that lie below it: with one round of fuel for
      -- each binding of the environment, resolving ends with `true` exactly if the type matches by finitely
      -- many steps into parts, arguments and aliases.
      pub resolved_type_matches_iff :
          (t : ℕ)
          → (resolved_type_matches s environment matcher_of t ≡ true) ↔ Matches no_substitution [] t
      unfolding resolved_type_matches
      resolved_type_matches_iff t = (
        evaluate_sound (length environment) no_substitution [] t,
        evaluate_complete (length environment) (
            omega (arith, unvisited_le [] (aliases_of environment), length-aliases_of environment)),
      )
