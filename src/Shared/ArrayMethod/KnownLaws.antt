-- ===== src/Shared/ArrayMethod/KnownLaws.antt =====
-- `isKnownArrayExpression` against a relation without fuel and without the set of visited variables.
use zslay.Prelude.{
  Bool-cases, List, Option, Option-cases, String, [], any, ap, arith, contains, false, has_name,
  inl, inr, none, refl, some, suc, true, zero, ℕ, ◌∷◌, ◌≡◌,
}
use zslay.Ast.{Annotation, Node, SourceCode, array_expression, call_expression, identifier}
use zslay.Shared.ArrayMethod.{
  Evidence, Target, answer, array_method_target, array_preserving_methods, binding_evidence,
  call_evidence, evidence, first_annotation, first_const_initializer, identifier_evidence,
  initializer, is_array_annotation, is_known_array_within, is_reassignment, node_evidence, receiver,
  resolve_array_binding, unwrap_array_expression,
}

module _ (s : SourceCode) where
  -- Local evidence that an expression is an array.
  pub data KnownArray : ℕ → Type 0 where
    array_literal :
        {n : ℕ} (es : List ℕ)
        → s.node (unwrap_array_expression s n) ≡ array_expression es
        → KnownArray n
    array_method :
        {n : ℕ} (callee : ℕ) (args : List ℕ) (m : Target)
        → s.node (unwrap_array_expression s n) ≡ call_expression callee args
        → array_method_target s callee ≡ some m
        → has_name array_preserving_methods m.name ≡ true
        → KnownArray m.object
        → KnownArray n
    annotated_binding :
        {n : ℕ} (name : String) (t : Option Annotation) (v : ℕ) (a : Annotation)
        → s.node (unwrap_array_expression s n) ≡ identifier name t
        → resolve_array_binding s (unwrap_array_expression s n) ≡ some v
        → any is_reassignment (s.variable v).references ≡ false
        → first_annotation s (s.variable v).identifiers ≡ some a
        → is_array_annotation s a.type_annotation ≡ true
        → KnownArray n
    const_binding :
        {n : ℕ} (name : String) (t : Option Annotation) (v init : ℕ)
        → s.node (unwrap_array_expression s n) ≡ identifier name t
        → resolve_array_binding s (unwrap_array_expression s n) ≡ some v
        → any is_reassignment (s.variable v).references ≡ false
        → first_annotation s (s.variable v).identifiers ≡ none
        → first_const_initializer s (s.variable v).defs ≡ some init
        → KnownArray init
        → KnownArray n

  -- The same as a run of the code that visits no variable twice, with its number of calls.
  pub data Run : ℕ → ℕ → Type 0 where
    finish : {n : ℕ} → evidence s [] n ≡ answer true → Run 0 n
    descend : {n o h : ℕ} → evidence s [] n ≡ receiver o → Run h o → Run (suc h) n
    jump : {n v i h : ℕ} → evidence s [] n ≡ initializer v i → Run h i → Run (suc h) n

  pub Run-unique : {h h' n : ℕ} → Run h n → Run h' n → h ≡ h'
  Run-unique (finish e) (finish q) = refl
  Run-unique (finish e) (descend q r) = cc
  Run-unique (finish e) (jump q r) = cc
  Run-unique (descend e r) (finish q) = cc
  Run-unique (descend {o} {h} e r) (descend {o = o'} {h = h'} q r') =
      let same : o ≡ o' = cc in ap suc (Run-unique (rw same at r) r')
  Run-unique (descend e r) (jump q r') = cc
  Run-unique (jump e r) (finish q) = cc
  Run-unique (jump e r) (descend q r') = cc
  Run-unique (jump {i} e r) (jump {i = i'} q r') =
      let same : i ≡ i' = cc in ap suc (Run-unique (rw same at r) r')

  pub KnownArray-Run : {n : ℕ} → KnownArray n → (h : ℕ) × Run h n
  unfolding evidence
  KnownArray-Run (array_literal es e) = (0, finish (rw e))
  KnownArray-Run (array_method callee args m e target kept k) =
      let (h, r) = KnownArray-Run k in
      (suc h, descend (rw (e, node_evidence) (rw (target, kept))) r)
  KnownArray-Run (annotated_binding name t v a e q w f g) =
      (0, finish (rw (e, node_evidence) (rw (q, w, f, g))))
  KnownArray-Run (const_binding name t v init e q w f g k) =
      let (h, r) = KnownArray-Run k in
      (suc h, jump {v = v} (rw (e, node_evidence) (rw (q, w, f, g))) r)

  -- What a call that finds something of `n` says of it, given what it has found of the node it goes on to.
  abbrev Supports : Evidence → ℕ → Type 0
  Supports (answer true) n = KnownArray n
  Supports (answer false) n = Unit
  Supports (receiver o) n = KnownArray o → KnownArray n
  Supports (initializer v i) n = KnownArray i → KnownArray n

  binding-Supports :
      (n v : ℕ) (name : String) (t : Option Annotation)
      → s.node (unwrap_array_expression s n) ≡ identifier name t
      → resolve_array_binding s (unwrap_array_expression s n) ≡ some v
      → Supports (binding_evidence s v (s.variable v)) n
  binding-Supports n v name t e q =
      elim (Bool-cases (any is_reassignment (s.variable v).references)) [
        | inl w ↦ rw w tt
        | inr w ↦ elim (Option-cases (first_annotation s (s.variable v).identifiers)) [
          | inr (a, f) ↦ elim (Bool-cases (is_array_annotation s a.type_annotation)) [
            | inl g ↦ rw (w, f, g) (annotated_binding name t v a e q w f g)
            | inr g ↦ rw (w, f, g) tt
          ]
          | inl f ↦ elim (Option-cases (first_const_initializer s (s.variable v).defs)) [
            | inl g ↦ rw (w, f, g) tt
            | inr (i, g) ↦ rw (w, f, g) (const_binding name t v i e q w f g)
          ]
        ]
      ]

  call-Supports :
      (n callee : ℕ) (args : List ℕ)
      → s.node (unwrap_array_expression s n) ≡ call_expression callee args
      → Supports (call_evidence s (array_method_target s callee)) n
  call-Supports n callee args e = elim (Option-cases (array_method_target s callee)) [
    | inl q ↦ rw q tt
    | inr (m, q) ↦ elim (Bool-cases (has_name array_preserving_methods m.name)) [
      | inl k ↦ rw (q, k) (array_method callee args m e q k)
      | inr k ↦ rw (q, k) tt
    ]
  ]

  identifier-Supports :
      (visited : List ℕ) (n : ℕ) (name : String) (t : Option Annotation)
      → s.node (unwrap_array_expression s n) ≡ identifier name t
      → Supports
          (identifier_evidence s visited (resolve_array_binding s (unwrap_array_expression s n)))
          n
  identifier-Supports visited n name t e =
      elim (Option-cases (resolve_array_binding s (unwrap_array_expression s n))) [
        | inl q ↦ rw q tt
        | inr (v, q) ↦ elim (Bool-cases (contains visited v)) [
          | inl c ↦ rw (q, c) tt
          | inr c ↦ rw (q, c) (binding-Supports n v name t e q)
        ]
      ]

  evidence-Supports : (visited : List ℕ) (n : ℕ) → Supports (evidence s visited n) n
  unfolding evidence
  evidence-Supports visited n = go (s.node (unwrap_array_expression s n)) refl
    where
      go :
          (v : Node)
          → s.node (unwrap_array_expression s n) ≡ v
          → Supports (node_evidence s visited (unwrap_array_expression s n) v) n
      go (array_expression es) e = array_literal es e
      go (call_expression callee args) e = call-Supports n callee args e
      go (identifier name t) e = identifier-Supports visited n name t e
      go _ e = tt

  known_step :
      (fuel : ℕ) (visited : List ℕ) (n : ℕ) (x : Evidence)
      → ((seen : List ℕ) (m : ℕ) → is_known_array_within s fuel seen m ≡ some true → KnownArray m)
      → evidence s visited n ≡ x
      → Supports x n
      → is_known_array_within s (suc fuel) visited n ≡ some true
      → KnownArray n
  unfolding is_known_array_within
  known_step fuel visited n (answer true) ih e k h = k
  known_step fuel visited n (answer false) ih e k h =
      absurd (let q = rw (e, is_known_array_within) at h in ground arith)
  known_step fuel visited n (receiver o) ih e k h =
      k (ih visited o (rw (e, is_known_array_within) at h))
  known_step fuel visited n (initializer v i) ih e k h =
      k (ih (v ∷ visited) i (rw (e, is_known_array_within) at h))

  pub known_sound :
      (fuel : ℕ) (visited : List ℕ) (n : ℕ)
      → is_known_array_within s fuel visited n ≡ some true
      → KnownArray n
  unfolding is_known_array_within
  known_sound zero visited n h = absurd (ground arith)
  known_sound (suc fuel) visited n h =
      known_step fuel visited n (evidence s visited n) (known_sound fuel) refl
        (evidence-Supports visited n) h
