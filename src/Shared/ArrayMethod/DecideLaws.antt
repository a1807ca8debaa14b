-- ===== src/Shared/ArrayMethod/DecideLaws.antt =====
-- `isKnownArrayExpression` decides the relation: the set of visited variables cuts off cycles only.
use zslay.Prelude.{
  =#_iff, Bool, Bool-cases, List, Option-cases, [], any, arith, contains, has_name, inl, inr, refl,
  some, subst, suc, true, zero, ℕ, ◌=#◌, ◌↔◌, ◌∙◌, ◌∷◌, ◌≡◌, ◌≤◌,
}
use zslay.Ast.{IsScoped, Node, SourceCode, array_expression, call_expression, identifier}
use zslay.Shared.ArrayMethod.{
  array_method_target, array_preserving_methods, binding_evidence, evidence, first_annotation,
  first_const_initializer, initializer, is_known_array_expression, is_known_array_within,
  is_reassignment, known_array_fuel, node_evidence, resolve_array_binding, unwrap_array_expression,
}
use zslay.Shared.ArrayMethod.KnownLaws.{
  KnownArray, KnownArray-Run, Run, Run-unique, descend, finish, jump, known_sound,
}
use zslay.Shared.ArrayMethod.FuelLaws.{is_known_array_expression_ends}

module _ (s : SourceCode) where
  -- The initializer of a variable needs at least `h` more calls.
  abbrev Needs : ℕ → ℕ → Type 0
  Needs h v =
      (i k : ℕ) × (binding_evidence s v (s.variable v) ≡ initializer v i) × Run s k i × (h ≤ k)

  abbrev AllNeed : ℕ → List ℕ → Type 0
  AllNeed h visited = (v : ℕ) → contains visited v ≡ true → Needs h v

  -- With visited variables that all need more calls than are left, the set makes no difference.
  same_evidence :
      (h n : ℕ) (visited : List ℕ)
      → Run s h n
      → AllNeed h visited
      → evidence s visited n ≡ evidence s [] n
  unfolding evidence
  same_evidence h n visited r needs = go (s.node u) refl
    where
      u : ℕ
      u = unwrap_array_expression s n

      at_binding :
          (v : ℕ)
          → evidence s [] n ≡ binding_evidence s v (s.variable v)
          → contains visited v ≡ true
          → ⊥
      at_binding v e c =
          let (i, k, origin, run, le) = needs v c in
          let again : Run s (suc k) n = jump {v = v} (e ∙ origin) run in
          omega (arith, Run-unique s r again)

      go : (x : Node) → s.node u ≡ x → node_evidence s visited u x ≡ node_evidence s [] u x
      go (array_expression es) e = refl
      go (call_expression callee args) e = refl
      go (identifier name t) e = elim (Option-cases (resolve_array_binding s u)) [
        | inl q ↦ rw q
        | inr (v, q) ↦ elim (Bool-cases (contains visited v)) [
          | inl c ↦ absurd (at_binding v (rw (e, node_evidence) (rw q)) c)
          | inr c ↦ rw (q, c)
        ]
      ]
      go _ e = refl

  binding_initializer :
      (w v i : ℕ)
      → binding_evidence s w (s.variable w) ≡ initializer v i
      → binding_evidence s v (s.variable v) ≡ initializer v i
  binding_initializer w v i h = elim (Bool-cases (any is_reassignment (s.variable w).references)) [
    | inl q ↦ absurd (let p = rw q at h in ground arith)
    | inr q ↦ elim (Option-cases (first_annotation s (s.variable w).identifiers)) [
      | inr (a, f) ↦ absurd (let p = rw (q, f) at h in ground arith)
      | inl f ↦ elim (Option-cases (first_const_initializer s (s.variable w).defs)) [
        | inl g ↦ absurd (let p = rw (q, f, g) at h in ground arith)
        | inr (j, g) ↦
            let same : w ≡ v = (let p = rw (q, f, g) at h in ground arith) in
            subst (λ x. binding_evidence s x (s.variable x) ≡ initializer v i) same h
      ]
    ]
  ]

  evidence_initializer :
      (n v i : ℕ)
      → evidence s [] n ≡ initializer v i
      → binding_evidence s v (s.variable v) ≡ initializer v i
  unfolding evidence
  evidence_initializer n v i = go (s.node u)
    where
      u : ℕ
      u = unwrap_array_expression s n

      go :
          (x : Node)
          → node_evidence s [] u x ≡ initializer v i
          → binding_evidence s v (s.variable v) ≡ initializer v i
      go (array_expression es) h = absurd (ground arith)
      go (call_expression callee args) h = elim (Option-cases (array_method_target s callee)) [
        | inl q ↦ absurd (let p = rw q at h in ground arith)
        | inr (m, q) ↦ elim (Bool-cases (has_name array_preserving_methods m.name)) [
          | inl k ↦ absurd (let p = rw (q, k) at h in ground arith)
          | inr k ↦ absurd (let p = rw (q, k) at h in ground arith)
        ]
      ]
      go (identifier name t) h = elim (Option-cases (resolve_array_binding s u)) [
        | inl q ↦ absurd (let p = rw q at h in ground arith)
        | inr (w, q) ↦ binding_initializer w v i (rw q at h)
      ]
      go _ h = absurd (ground arith)

  known_complete :
      (fuel h n : ℕ) (visited : List ℕ) (b : Bool)
      → Run s h n
      → AllNeed h visited
      → is_known_array_within s fuel visited n ≡ some b
      → b ≡ true
  unfolding is_known_array_within
  known_complete zero h n visited b r needs e = absurd (ground arith)
  known_complete (suc fuel) h n visited b (finish q) needs e =
      let same = same_evidence 0 n visited (finish q) needs in
      (let p = rw (same, is_known_array_within) at e in
        let p' = rw (q, is_known_array_within) at p in ground arith)
  known_complete (suc fuel) (suc h) n visited b (descend {o} q r) needs e =
      let same = same_evidence (suc h) n visited (descend q r) needs in
      known_complete fuel h o visited b r
        (λ v c. let (i, k, origin, run, le) = needs v c in (i, k, origin, run, omega arith))
        (let p = rw (same, is_known_array_within) at e in rw (q, is_known_array_within) at p)
  known_complete (suc fuel) (suc h) n visited b (jump {v} {i} q r) needs e =
      let same = same_evidence (suc h) n visited (jump {v = v} q r) needs in
      known_complete fuel h i (v ∷ visited) b r
        (λ w c. elim (Bool-cases (v =# w)) [
          | inl is_v ↦
              let eq : v ≡ w = (=#_iff v w).0 is_v in
              subst (Needs h) eq (i, h, evidence_initializer n v i q, r, omega arith)
          | inr other ↦
              let (j, k, origin, run, le) = needs w (ground arith) in
              (j, k, origin, run, omega arith)
        ])
        (let p = rw (same, is_known_array_within) at e in rw (q, is_known_array_within) at p)

  -- On the trees that a parser and a scope analysis produce, an answer always comes back, and it is `true` exactly for
  -- the expressions with local evidence of an array: a literal, an array method of such an expression, a
  -- binding that is never reassigned and is annotated as an array, or one that has no annotation and is a
  -- `const` of such an expression.
  pub is_known_array_expression_iff :
      IsScoped s
      → (n : ℕ)
      → ((b : Bool) × (is_known_array_expression s n ≡ some b))
        × ((is_known_array_expression s n ≡ some true) ↔ KnownArray s n)
  unfolding is_known_array_expression
  is_known_array_expression_iff scoped n = (
    is_known_array_expression_ends s scoped n,
    (
      known_sound s (known_array_fuel s n) [] n,
      λ k.
          let (h, r) = KnownArray-Run s k in
          let (b, e) = is_known_array_expression_ends s scoped n in
          let yes_b =
            known_complete (known_array_fuel s n) h n [] b r (λ v c. absurd (ground arith)) e in
          rw (← yes_b) e,
    ),
  )
