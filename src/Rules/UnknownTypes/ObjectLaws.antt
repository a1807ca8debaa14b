-- ===== src/Rules/UnknownTypes/ObjectLaws.antt =====
-- no-object-parameters against the types that the parameters' annotations spell out.
use zslay.Prelude.{
  Bool-cases, List, Memᴰ, Option-cases, [], gather-mem, inl, inr, mem-of-gather, refl, some, ℕ, ◌↔◌,
  ◌∷◌, ◌≡◌,
}
use mathlib.Core.List.Memᴰ
use zslay.Ast.{Annotation, FunctionKind, FunctionParts, IsTree, Node, Report, SourceCode, function}
use zslay.Shared.FunctionParameters.{
  function_parameter_binding_name, function_parameter_type_annotation,
}
use zslay.Shared.TypeAlias.{TypeBinding}
use zslay.Rules.UnknownTypes.{
  check_object_parameter, no_object_parameters, object_matcher, object_parameters_in, resolves_to,
}
use zslay.Rules.UnknownTypes.ResolveLaws.{Spells, alternatives, is_object, object_iff}

module _ (s : SourceCode) (environment : List TypeBinding) where
  -- A report on a parameter whose annotation spells out `object`.
  pub data ObjectParameter (n : ℕ) (r : Report) : Type 0 where
    object_parameter :
        (k : FunctionKind) (f : FunctionParts) (p : ℕ) (a : Annotation)
        → s.node n ≡ function k f
        → Memᴰ p f.params
        → function_parameter_type_annotation s p ≡ some a
        → Spells s environment is_object alternatives a.type_annotation
        → r ≡ record {
          node = a.type_annotation;
          message_id = "objectParameter";
          placeholders = ("parameter", function_parameter_binding_name s p) ∷ [];
        }
        → ObjectParameter n r

  module _ (tree : IsTree s) where
    check_object_sound :
        (n p : ℕ) (k : FunctionKind) (f : FunctionParts) (r : Report)
        → s.node n ≡ function k f
        → Memᴰ p f.params
        → Memᴰ r (check_object_parameter s (some environment) p)
        → ObjectParameter n r
    unfolding check_object_parameter
    check_object_sound n p k f r e m h =
        elim (Option-cases (function_parameter_type_annotation s p)) [
          | inl q ↦ absurd (Memᴰ.not-nil (rw (q, check_object_parameter) at h))
          | inr (a, q) ↦
              let h1 = rw (q, check_object_parameter) at h in
              elim (Bool-cases
                (resolves_to s object_matcher (some environment) a.type_annotation)) [
                  | inr u ↦ absurd (Memᴰ.not-nil (rw u at h1))
                  | inl u ↦
                      object_parameter k f p a e m q
                        ((object_iff s environment tree a.type_annotation).0 u)
                        (Memᴰ.eq_of_singleton (rw u at h1))
                ]
        ]

    -- On a tree, the reports of no-object-parameters on a node are exactly those on its parameters whose
    -- annotation is `object`, or spells it out through parentheses, unions, visible aliases and the arguments of
    -- these; each stands at the annotation and gives the parameter's name.
    pub no_object_parameters_iff :
        (n : ℕ) (r : Report)
        → Memᴰ r (no_object_parameters s (some environment) n) ↔ ObjectParameter n r
    unfolding no_object_parameters check_object_parameter
    no_object_parameters_iff n r = (go (s.node n) refl, back)
      where
        go :
            (v : Node)
            → s.node n ≡ v
            → Memᴰ r (object_parameters_in s (some environment) v)
            → ObjectParameter n r
        go (function k f) e h =
            let (p, m, i) =
              mem-of-gather (check_object_parameter s (some environment)) f.params h in
            check_object_sound n p k f r e m i
        go _ e h = absurd (Memᴰ.not-nil h)

        back : ObjectParameter n r → Memᴰ r (object_parameters_in s (some environment) (s.node n))
        back (object_parameter k f p a e m q u same) =
            rw (e, object_parameters_in)
              (gather-mem (check_object_parameter s (some environment)) m (
                rw (q, check_object_parameter)
                  (rw ((object_iff s environment tree a.type_annotation).1 u) (Memᴰ.head same))))
