-- ===== src/Effect/TaggedValues/HandlerLaws.antt =====
-- `isInsideBroadEffectHandler` against the syntax of a broad handler.
use zslay.Prelude.{
  &&_iff, Bool-cases, List, Option, Option-cases, String, [], arith, contains, eq_iff, eq_refl,
  false, has_name, inl, inr, true, ℕ, ◌&&◌, ◌↔◌, ◌∷◌, ◌≡◌,
}
use zslay.Ast.{
  Annotation, SourceCode, as_call, as_call-eq-some, as_identifier, as_identifier-eq-some, as_member,
  as_member-eq-some, call_expression, identifier, is_function_expression, member_expression,
}
use zslay.Effect.TaggedValues.{
  broad_effect_catch_methods, calls_method, handles, inside_handler, is_argument_of,
  is_broad_effect_catch_call, is_inside_broad_effect_handler,
}

module _ (s : SourceCode) where
  -- `Effect.catch(…)`, `Effect.catchAll(…)` or `Effect.catchIf(…)` with its arguments
  pub data BroadCatch (n : ℕ) : List ℕ → Type 0 where
    catch_call :
        (c o p : ℕ) (name : String) (t t' : Option Annotation) {args : List ℕ}
        → s.node n ≡ call_expression c args
        → s.node c ≡ member_expression o p false
        → s.node o ≡ identifier "Effect" t
        → s.node p ≡ identifier name t'
        → has_name broad_effect_catch_methods name ≡ true
        → BroadCatch n args

  -- The innermost function around a node is an argument of a broad catch. The list is the chain of
  -- ancestors.
  pub data InHandler : List ℕ → Type 0 where
    here :
        {f p : ℕ} {above args : List ℕ}
        → is_function_expression (s.node f) ≡ true
        → BroadCatch p args
        → contains args f ≡ true
        → InHandler (f ∷ p ∷ above)
    outward :
        {n : ℕ} {above : List ℕ}
        → is_function_expression (s.node n) ≡ false
        → InHandler above
        → InHandler (n ∷ above)

  method_call :
      (c : ℕ)
      → calls_method s "Effect" broad_effect_catch_methods c ≡ true
      → (o p : ℕ) × (name : String) × (t t' : Option Annotation) × (s.node c
          ≡ member_expression o p false)
        × (s.node o ≡ identifier "Effect" t)
        × (s.node p ≡ identifier name t')
        × (has_name broad_effect_catch_methods name ≡ true)
  method_call c h = elim (Option-cases (as_member (s.node c))) [
    | inl e ↦ absurd (ground arith)
    | inr (m, e) ↦ elim (Option-cases (as_identifier (s.node m.object))) [
      | inl e' ↦ absurd (ground arith)
      | inr (owner, e') ↦ elim (Option-cases (as_identifier (s.node m.property))) [
        | inl e'' ↦ absurd (ground arith)
        | inr (name, e'') ↦
            let (t, q) = as_identifier-eq-some (s.node m.object) owner e' in
            let (t', q') = as_identifier-eq-some (s.node m.property) name e'' in
            let q'' = as_member-eq-some (s.node c) m e in
            (
              m.object,
              m.property,
              name,
              t,
              t',
              ground (arith, q''),
              ground (arith, q, eq_iff owner "Effect"),
              q',
              ground arith,
            )
      ]
    ]
  ]

  handles-InHandler :
      (f : ℕ) (above : List ℕ)
      → is_function_expression (s.node f) ≡ true
      → handles s f above ≡ true
      → InHandler (f ∷ above)
  unfolding is_broad_effect_catch_call
  handles-InHandler f [] e h = absurd (ground arith)
  handles-InHandler f (p ∷ above) e h = elim (Option-cases (as_call (s.node p))) [
    | inl q ↦ absurd (ground arith)
    | inr (call, q) ↦
        let (broad, argument) =
          (&&_iff (is_broad_effect_catch_call s p) (is_argument_of s f p)).0 h in
        let called : calls_method s "Effect" broad_effect_catch_methods call.callee ≡ true =
          rw (q, is_broad_effect_catch_call) at broad in
        let listed : contains call.arguments f ≡ true = rw (q, is_argument_of) at argument in
        let (o, k, name, t, t', a, b, c, d) = method_call call.callee called in
        here e (catch_call call.callee o k name t t' (as_call-eq-some (s.node p) call q) a b c d)
          listed
  ]

  inside_handler_sound : (path : List ℕ) → inside_handler s path ≡ true → InHandler path
  unfolding inside_handler
  inside_handler_sound [] h = absurd (ground arith)
  inside_handler_sound (n ∷ above) h = elim (Bool-cases (is_function_expression (s.node n))) [
    | inl e ↦ handles-InHandler n above e (ground arith)
    | inr e ↦ outward e (inside_handler_sound above (ground arith))
  ]

  BroadCatch-call :
      {p : ℕ} {args : List ℕ} (f : ℕ)
      → BroadCatch p args
      → contains args f ≡ true
      → (is_broad_effect_catch_call s p && is_argument_of s f p) ≡ true
  unfolding is_broad_effect_catch_call
  BroadCatch-call f (catch_call c o k name t t' e e' e'' e''' m) h =
      ground (arith, eq_refl "Effect")

  inside_handler_complete : {path : List ℕ} → InHandler path → inside_handler s path ≡ true
  unfolding inside_handler
  inside_handler_complete (here {f} e c h) = rw e (BroadCatch-call f c h)
  inside_handler_complete (outward e r) = rw e (inside_handler_complete r)

  -- A node counts as inside a broad handler exactly when the innermost arrow function or function
  -- expression around it is itself an argument of a call of `Effect.catch`, `catchAll` or `catchIf`.
  pub inside_broad_handler_iff :
      (n : ℕ) → (is_inside_broad_effect_handler s n ≡ true) ↔ InHandler (s.ancestors n)
  unfolding is_inside_broad_effect_handler
  inside_broad_handler_iff n = (inside_handler_sound (s.ancestors n), inside_handler_complete)
