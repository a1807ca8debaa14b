-- ===== src/Rules/Expressions/TypeofLaws.antt =====
-- no-runtime-typeof against the syntax that they reject.
use zslay.Prelude.{
  &&_iff, =#_iff, Bool, Bool-cases, List, List-cases, Option, Option-cases, String, [], arith,
  eq_iff, false, has_name, if-nonempty, inl, inr, none, not, refl, some, true, ℕ, ◌=#◌, ◌==◌, ◌↔◌,
  ◌∷◌, ◌≡◌, ◌≢◌,
}
use zslay.Ast.{
  Annotation, FunctionParts, Node, SourceCode, as_binary, as_binary-eq-some, as_runtime_function,
  binary_expression, is_program, literal, parent, program, string_value, ts_type_predicate,
  unary_expression,
}
use zslay.Rules.Expressions.{
  as_unary, equality_tests, is_existence_probe, is_inside_type_guard, is_type_predicate,
  is_undefined_text, no_runtime_typeof, other_side, probes, returns_predicate, type_guard_from,
}

not_both : (b : Bool) → not b ≡ true → b ≡ true → ⊥
not_both b h e = ground arith

module _ (s : SourceCode) where
  -- The innermost function around a node, without leaving the program, returns a type predicate. The list is
  -- the chain of ancestors.
  pub data InTypeGuard : List ℕ → Type 0 where
    here :
        {n : ℕ} {above : List ℕ} (f : FunctionParts) (a : Annotation) (p : ℕ)
        (t : Option Annotation)
        → as_runtime_function (s.node n) ≡ some f
        → f.return_type ≡ some a
        → s.node a.type_annotation ≡ ts_type_predicate p t
        → InTypeGuard (n ∷ above)
    outward :
        {n : ℕ} {above : List ℕ}
        → is_program (s.node n) ≡ false
        → as_runtime_function (s.node n) ≡ none
        → InTypeGuard above
        → InTypeGuard (n ∷ above)

  function_no_program :
      (v : Node) (f : FunctionParts) → as_runtime_function v ≡ some f → is_program v ≡ false
  function_no_program (program _) f h = absurd (ground arith)
  function_no_program _ f h = refl

  predicate_node :
      (v : Node)
      → is_type_predicate v ≡ true
      → (p : ℕ) × (t : Option Annotation) × (v ≡ ts_type_predicate p t)
  predicate_node (ts_type_predicate p t) h = (p, t, refl)
  predicate_node _ h = absurd (ground arith)

  InTypeGuard-sound : (path : List ℕ) → type_guard_from s path ≡ true → InTypeGuard path
  unfolding type_guard_from
  InTypeGuard-sound [] h = absurd (ground arith)
  InTypeGuard-sound (n ∷ above) h = elim (Bool-cases (is_program (s.node n))) [
    | inl e ↦ absurd (ground arith)
    | inr e ↦ elim (Option-cases (as_runtime_function (s.node n))) [
      | inl e' ↦ outward e e' (InTypeGuard-sound above (rw e' at (rw e at h)))
      | inr (f, e') ↦
          let r : returns_predicate s f ≡ true = rw e' at (rw e at h) in
          elim (Option-cases f.return_type) [
            | inl q ↦ let c : false ≡ true = rw (q, returns_predicate) at r in absurd (ground arith)
            | inr (a, q) ↦
                let (p, t, i) =
                  predicate_node (s.node a.type_annotation) (rw (q, returns_predicate) at r) in
                here f a p t e' q i
          ]
    ]
  ]

  InTypeGuard-complete : {path : List ℕ} → InTypeGuard path → type_guard_from s path ≡ true
  unfolding type_guard_from
  InTypeGuard-complete (here {n} f a p t e q i) =
      rw (function_no_program (s.node n) f e) (rw e (rw (q, returns_predicate) (rw i refl)))
  InTypeGuard-complete (outward e e' r) = rw e (rw e' (InTypeGuard-complete r))

  -- The node is a side of an equality test of which the other side is the text "undefined".
  pub data ExistenceProbe (n : ℕ) : Type 0 where
    left_of :
        {p r : ℕ} {operator : String} {above : List ℕ}
        → s.ancestors n ≡ p ∷ above
        → s.node p ≡ binary_expression operator n r
        → has_name equality_tests operator ≡ true
        → s.node r ≡ literal (string_value "undefined")
        → ExistenceProbe n
    right_of :
        {p l r : ℕ} {operator : String} {above : List ℕ}
        → s.ancestors n ≡ p ∷ above
        → s.node p ≡ binary_expression operator l r
        → l ≢ n
        → has_name equality_tests operator ≡ true
        → s.node l ≡ literal (string_value "undefined")
        → ExistenceProbe n

  undefined_node : (v : Node) → is_undefined_text v ≡ true → v ≡ literal (string_value "undefined")
  undefined_node (literal (string_value x)) h = rw ((eq_iff x "undefined").0 h) refl
  undefined_node _ h = absurd (ground arith)

  ExistenceProbe-sound : (n : ℕ) → is_existence_probe s n ≡ true → ExistenceProbe n
  unfolding is_existence_probe
  ExistenceProbe-sound n h = elim (List-cases (s.ancestors n)) [
    | inl e ↦ let c : false ≡ true = rw (e, parent) at h in absurd (ground arith)
    | inr (p, above, e) ↦ elim (Option-cases (as_binary (s.node p))) [
      | inl e' ↦
          let c : false ≡ true = rw (e', probes) at (rw (e, probes, parent) at h) in
          absurd (ground arith)
      | inr (b, e') ↦
          let (x, y) =
            (&&_iff (has_name equality_tests b.operator)
                (is_undefined_text (s.node (other_side s b n)))).0
              (rw (e', probes) at (rw (e, probes, parent) at h)) in
          let u = undefined_node (s.node (other_side s b n)) y in
          elim (Bool-cases (b.left =# n)) [
            | inl q ↦
                let same = (=#_iff b.left n).0 q in
                left_of {r = b.right} {operator = b.operator} e
                  (rw (← same) (as_binary-eq-some (s.node p) b e')) x (rw (q, other_side) at u)
            | inr q ↦
                right_of {l = b.left} {r = b.right} e (as_binary-eq-some (s.node p) b e')
                  (λ same. let c = (=#_iff b.left n).1 same in absurd (ground arith)) x
                  (rw (q, other_side) at u)
          ]
    ]
  ]

  ExistenceProbe-complete : {n : ℕ} → ExistenceProbe n → is_existence_probe s n ≡ true
  unfolding is_existence_probe
  ExistenceProbe-complete {n} (left_of {p} {r} e q h u) =
      rw (e, parent) (rw (q, probes) (rw ((=#_iff n n).1 refl) (rw (h, u) refl)))
  ExistenceProbe-complete {n} (right_of {p} {l} e q d h u) = elim (Bool-cases (l =# n)) [
    | inl b ↦ absurd (d ((=#_iff l n).0 b))
    | inr b ↦ rw (e, parent) (rw (q, probes) (rw b (rw (h, u) refl)))
  ]

  -- A `typeof` that the rule rejects, with the option `allowInTypeGuards`.
  pub record RuntimeTypeof (allow : Bool) (n : ℕ) : Type 0 where
    pub operand : ℕ
    pub is_typeof : s.node n ≡ unary_expression "typeof" operand
    pub no_probe : ExistenceProbe n → ⊥
    pub no_guard : allow ≡ true → InTypeGuard (s.ancestors n) → ⊥

  as_unary-eq-some :
      (v : Node) (u : String × ℕ) → as_unary v ≡ some u → v ≡ unary_expression u.0 u.1
  as_unary-eq-some (unary_expression operator e) u h = ground arith
  as_unary-eq-some _ u h = absurd (ground arith)

  -- no-runtime-typeof reports a node exactly when it is a `typeof` expression that is neither compared with the
  -- text "undefined" nor, where the option allows it, directly in a function that returns a type predicate.
  pub no_runtime_typeof_iff :
      (allow : Bool) (n : ℕ) → (no_runtime_typeof s allow n ≢ []) ↔ RuntimeTypeof allow n
  unfolding no_runtime_typeof is_inside_type_guard
  no_runtime_typeof_iff allow n = (forth, back)
    where
      forth : no_runtime_typeof s allow n ≢ [] → RuntimeTypeof allow n
      forth h = elim (Option-cases (as_unary (s.node n))) [
        | inl e ↦ absurd (h (rw (e, no_runtime_typeof) refl))
        | inr (u, e) ↦
            let r = (if-nonempty _ _ []).0 (rw (e, no_runtime_typeof) at h) in
            let (a, b) = (&&_iff (u.0 == "typeof") _).0 r in
            let (c, d) = (&&_iff (not (is_existence_probe s n)) _).0 b in
            record {
              operand = u.1;
              is_typeof = rw (← (eq_iff u.0 "typeof").0 a) (as_unary-eq-some (s.node n) u e);
              no_probe = λ p. not_both _ c (ExistenceProbe-complete p);
              no_guard =
                  λ q p. not_both (is_inside_type_guard s n) (rw q at d) (InTypeGuard-complete p);
            }
      ]

      back : RuntimeTypeof allow n → no_runtime_typeof s allow n ≢ []
      back r =
          rw (r.is_typeof, no_runtime_typeof)
            (elim (Bool-cases (is_existence_probe s n)) [
              | inl p ↦ absurd (r.no_probe (ExistenceProbe-sound n p))
              | inr p ↦ rw p (elim (Bool-cases allow) [
                | inr q ↦ rw q (λ x. absurd (ground arith))
                | inl q ↦ rw q (elim (Bool-cases (is_inside_type_guard s n)) [
                  | inl g ↦ absurd (r.no_guard q (InTypeGuard-sound (s.ancestors n) g))
                  | inr g ↦ rw g (λ x. absurd (ground arith))
                ])
              ])
            ])
