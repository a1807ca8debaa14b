-- ===== src/Rules/WidenThenAssert/KnownLaws.antt =====
-- The values whose type is known to rules/no-widen-then-assert.ts.
use zslay.Prelude.{
  All, Bool, Bool-cases, List, Option, Option-cases, [], arith, contains, false, find, inl, inr,
  none, some, subst, true, ℕ, ◌<◌, ◌↔◌, ◌∷◌, ◌≡◌, ◌≢◌, some_eq, none_or_some,
}
use zslay.Ast.{
  Annotation, Assertion, IsBelow, Node, Reference, SourceCode, Steps, as_assertion, as_identifier,
}
use zslay.Shared.Bindings.{found, value}
use zslay.Rules.WidenThenAssert.{broad_type_kind, parenthesized_content}
use zslay.Rules.WidenThenAssert.Flows.{
  KnownValueEvidence, annotated_identifier, const_declarator, function_boundary, is_known_value,
  refers_at, resolved_variable_for_identifier, same_node, typed_evidence,
}

pub parenthesized_below :
    (v : Node) (n m : ℕ) → IsBelow n v → parenthesized_content v ≡ some m → m < n
parenthesized_below _ n m b h = ground arith

pub same_node_iff : (o q : Option ℕ) → (same_node o q ≡ true) ↔ (o ≡ q)
same_node_iff o q = ground arith

pub found_eq : {x y : Option KnownValueEvidence} → found x ≡ found y → x ≡ y
found_eq h = cc

pub value_eq : {x y : Option KnownValueEvidence} → value x ≡ value y → x ≡ y
value_eq h = cc

module _ (s : SourceCode) where
  abbrev pub parentheses_step : ℕ → Option ℕ
  parentheses_step k = parenthesized_content (s.node k)

  -- `k` stands in parentheses inside `n`, and is none.
  abbrev pub InParentheses : ℕ → ℕ → Type 0
  InParentheses n k = Steps parentheses_step n k × (parenthesized_content (s.node k) ≡ none)

  -- The references of the scopes resolve to variables of the program.
  abbrev pub AreResolved : List (List Reference) → Type 0
  AreResolved scopes =
      All
        (λ references.
          All (λ r. (v : ℕ) → r.resolved ≡ some v → contains s.variables v ≡ true) references)
        scopes

  pub resolved_bound :
      (scopes : List (List Reference)) (n v : ℕ)
      → AreResolved scopes
      → resolved_variable_for_identifier s scopes n ≡ some v
      → contains s.variables v ≡ true
  unfolding resolved_variable_for_identifier
  resolved_bound [] n v r h = absurd (ground arith)
  resolved_bound (references ∷ scopes) n v r h =
      elim (Option-cases (find (refers_at s n) references)) [
        | inl e ↦ resolved_bound scopes n v r.1 (rw (e, resolved_variable_for_identifier) at h)
        | inr (reference, e) ↦
            All-find (λ x. (w : ℕ) → x.resolved ≡ some w → contains s.variables w ≡ true)
              (refers_at s n) references reference r.0 e v
              (rw (e, resolved_variable_for_identifier) at h)
      ]
    where
      All-find :
          (P : Reference → Type 0) (p : Reference → Bool) (xs : List Reference) (x : Reference)
          → All P xs
          → find p xs ≡ some x
          → P x
      All-find P p [] x a e = absurd (ground arith)
      All-find P p (y ∷ ys) x a e = elim (Bool-cases (p y)) [
        | inl q ↦ subst P (let c : some y ≡ some x = rw q at e in cc) a.0
        | inr q ↦ All-find P p ys x a.1 (rw q at e)
      ]

  pub typed_evidence-some :
      (t : ℕ) (k : KnownValueEvidence)
      → typed_evidence s t ≡ some k
      → (broad_type_kind s t ≡ none) × (record { type = some t } ≡ k)
  typed_evidence-some t k h = elim (Option-cases (broad_type_kind s t)) [
    | inl e ↦ (e, some_eq (rw (e, typed_evidence) at h))
    | inr (b, e) ↦ absurd (none_or_some (rw (e, typed_evidence) at h))
  ]

  module _ (scopes : List (List Reference)) (boundary : Option ℕ) where
    -- The identifier names the variable.
    abbrev pub Names : ℕ → ℕ → Type 0
    Names k v =
        (as_identifier (s.node k) ≢ none) × (resolved_variable_for_identifier s scopes k ≡ some v)

    -- A value of known type: an assertion of a type that is not broad, a literal or another expression that builds
    -- the value, a variable annotated so in the same function, or a constant of it with such an initializer. The
    -- variables on the way are others than `start`.
    pub data KnownValue (start : ℕ) : ℕ → KnownValueEvidence → Type 0 where
      asserted :
          {n k : ℕ} (a : Assertion)
          → InParentheses n k
          → as_assertion (s.node k) ≡ some a
          → broad_type_kind s a.type_annotation ≡ none
          → KnownValue start n (record { type = some a.type_annotation })
      built :
          {n k : ℕ}
          → InParentheses n k
          → is_known_value (s.node k) ≡ true
          → KnownValue start n (record { type = none })
      annotated :
          {n k : ℕ} (v i : ℕ) (a : Annotation)
          → InParentheses n k
          → Names k v
          → contains (start ∷ []) v ≡ false
          → annotated_identifier s (s.variable v).identifiers ≡ some (i, a)
          → function_boundary s i ≡ boundary
          → broad_type_kind s a.type_annotation ≡ none
          → KnownValue start n (record { type = some a.type_annotation })
      constant :
          {n k m : ℕ} {e : KnownValueEvidence} (v d i : ℕ)
          → InParentheses n k
          → Names k v
          → contains (start ∷ []) v ≡ false
          → annotated_identifier s (s.variable v).identifiers ≡ none
          → const_declarator s v ≡ some (d, i, m)
          → function_boundary s d ≡ boundary
          → KnownValue start m e
          → KnownValue start n e
