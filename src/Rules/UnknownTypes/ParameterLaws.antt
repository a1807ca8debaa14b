-- ===== src/Rules/UnknownTypes/ParameterLaws.antt =====
-- The loop of no-unknown-parameters: which reports it makes.
use zslay.Prelude.{
  Bool-cases, Memᴰ, Option, Option-cases, String, [], arith, eq_iff, eq_refl, gather-mem, inl, inr,
  mem-of-gather, refl, some, true, ||_iff, ℕ, ◌==◌, ◌||◌, ◌↔◌, ◌∷◌, ◌≡◌, ◌≢◌,
}
use mathlib.Core.List.Memᴰ
use zslay.Ast.{
  Annotation, FunctionKind, FunctionParts, IsTree, Node, Report, SourceCode, as_identifier-eq-some,
  function, identifier, ts_type_predicate,
}
use zslay.Shared.FunctionParameters.{
  contains_unknown_type, function_parameter_binding_name, function_parameter_type_annotation,
}
use zslay.Shared.FunctionParameters.UnknownLaws.{ContainsUnknown, contains_unknown_type_iff}
use zslay.Rules.UnknownTypes.{
  check_unknown_parameter, is_type_predicate_subject, no_unknown_parameters, predicate_subject,
  unknown_parameters_in,
}

module _ (s : SourceCode) where
  -- The return type is a type predicate `name is …`.
  pub data PredicateOn (f : FunctionParts) (name : String) : Type 0 where
    predicate_on :
        (a : Annotation) (subject : ℕ) (t : Option Annotation) (t' : Option Annotation)
        → f.return_type ≡ some a
        → s.node a.type_annotation ≡ ts_type_predicate subject t
        → s.node subject ≡ identifier name t'
        → PredicateOn f name

  subject_sound :
      (a : Annotation) (f : FunctionParts) (name : String) (v : Node)
      → f.return_type ≡ some a
      → s.node a.type_annotation ≡ v
      → predicate_subject s v ≡ some name
      → PredicateOn f name
  subject_sound a f name (ts_type_predicate subject t) r e h =
      let (t', q) = as_identifier-eq-some (s.node subject) name h in
      predicate_on a subject t t' r e q
  subject_sound a f name _ r e h = absurd (ground arith)

  is_type_predicate_subject_sound :
      (f : FunctionParts) (name : String)
      → is_type_predicate_subject s f name ≡ true
      → PredicateOn f name
  unfolding is_type_predicate_subject
  is_type_predicate_subject_sound f name h = elim (Option-cases f.return_type) [
    | inl e ↦ absurd (ground arith)
    | inr (a, e) ↦ elim (Option-cases (predicate_subject s (s.node a.type_annotation))) [
      | inl q ↦ absurd (ground arith)
      | inr (x, q) ↦
          let same : x ≡ name = (eq_iff x name).0 (ground arith) in
          subject_sound a f name (s.node a.type_annotation) e refl (rw same at q)
    ]
  ]

  is_type_predicate_subject_complete :
      {f : FunctionParts} {name : String}
      → PredicateOn f name
      → is_type_predicate_subject s f name ≡ true
  unfolding is_type_predicate_subject
  is_type_predicate_subject_complete {name} (predicate_on a subject t t' r e q) =
      rw (r, is_type_predicate_subject) (rw e (rw q (eq_refl name)))

  -- A report on a parameter whose annotation is or contains `unknown`, and whose name is neither `cause` nor the
  -- subject of the function's type predicate.
  pub data UnknownParameter (n : ℕ) : Report → Type 0 where
    unknown_parameter :
        (k : FunctionKind) (f : FunctionParts) (p : ℕ) (a : Annotation) {r : Report}
        → s.node n ≡ function k f
        → Memᴰ p f.params
        → function_parameter_type_annotation s p ≡ some a
        → ContainsUnknown s a.type_annotation
        → function_parameter_binding_name s p ≢ "cause"
        → ¬ PredicateOn f (function_parameter_binding_name s p)
        → r ≡ record {
          node = a.type_annotation;
          message_id = "unknownParameter";
          placeholders = ("parameter", function_parameter_binding_name s p) ∷ [];
        }
        → UnknownParameter n r

  module _ (tree : IsTree s) where
    check_sound :
        (n p : ℕ) (k : FunctionKind) (f : FunctionParts) (r : Report)
        → s.node n ≡ function k f
        → Memᴰ p f.params
        → Memᴰ r (check_unknown_parameter s f p)
        → UnknownParameter n r
    unfolding check_unknown_parameter
    check_sound n p k f r e m h = elim (Option-cases (function_parameter_type_annotation s p)) [
      | inl q ↦ absurd (Memᴰ.not-nil (rw (q, check_unknown_parameter) at h))
      | inr (a, q) ↦
          let h1 = rw (q, check_unknown_parameter) at h in
          elim (Bool-cases (contains_unknown_type s a.type_annotation)) [
            | inr u ↦ absurd (Memᴰ.not-nil (rw u at h1))
            | inl u ↦ elim (Bool-cases (name == "cause" || is_type_predicate_subject s f name)) [
              | inl c ↦ absurd (Memᴰ.not-nil (rw c at (rw u at h1)))
              | inr c ↦
                  unknown_parameter k f p a e m q
                    ((contains_unknown_type_iff s tree a.type_annotation).0 u)
                    (λ x. let y = (eq_iff name "cause").1 x in ground arith)
                    (λ x. let y = is_type_predicate_subject_complete x in ground arith)
                    (Memᴰ.eq_of_singleton (rw c at (rw u at h1)))
            ]
          ]
    ]
      where
        name : String
        name = function_parameter_binding_name s p

    check_complete :
        (f : FunctionParts) (p : ℕ) (a : Annotation)
        → function_parameter_type_annotation s p ≡ some a
        → ContainsUnknown s a.type_annotation
        → function_parameter_binding_name s p ≢ "cause"
        → ¬ PredicateOn f (function_parameter_binding_name s p)
        → check_unknown_parameter s f p
          ≡ record {
            node = a.type_annotation;
            message_id = "unknownParameter";
            placeholders = ("parameter", function_parameter_binding_name s p) ∷ [];
          }
            ∷ []
    unfolding check_unknown_parameter
    check_complete f p a q u c g =
        rw (q, check_unknown_parameter)
          (rw ((contains_unknown_type_iff s tree a.type_annotation).1 u)
            (elim (Bool-cases (name == "cause" || is_type_predicate_subject s f name)) [
              | inr e ↦ rw e
              | inl e ↦ elim ((||_iff (name == "cause") _).0 e) [
                | inl x ↦ absurd (c ((eq_iff name "cause").0 x))
                | inr x ↦ absurd (g (is_type_predicate_subject_sound f name x))
              ]
            ]))
      where
        name : String
        name = function_parameter_binding_name s p

    -- The reports on a node are exactly those on its parameters whose annotation is or contains `unknown`, and
    -- that are neither named `cause` nor the subject of the type predicate that the function returns; each
    -- stands at the annotation and gives the parameter's name.
    pub no_unknown_parameters_iff :
        (n : ℕ) (r : Report) → Memᴰ r (no_unknown_parameters s n) ↔ UnknownParameter n r
    unfolding no_unknown_parameters
    no_unknown_parameters_iff n r = (go (s.node n) refl, back)
      where
        go : (v : Node) → s.node n ≡ v → Memᴰ r (unknown_parameters_in s v) → UnknownParameter n r
        go (function k f) e h =
            let (p, m, i) = mem-of-gather (check_unknown_parameter s f) f.params h in
            check_sound n p k f r e m i
        go _ e h = absurd (Memᴰ.not-nil h)

        back : UnknownParameter n r → Memᴰ r (unknown_parameters_in s (s.node n))
        back (unknown_parameter k f p a e m q u c g same) =
            rw (e, unknown_parameters_in)
              (gather-mem (check_unknown_parameter s f) m
                (rw (check_complete f p a q u c g) (Memᴰ.head same)))
