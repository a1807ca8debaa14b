-- ===== src/Rules/ReduceCopies/ReducerLaws.antt =====
-- `enclosingReducer` against the calls of `reduce` and `reduceRight`.
use zslay.Prelude.{
  &&_iff, =#_iff, >>=-eq-some, Bool-cases, List, Option, Option-cases, String, [], arith, false,
  has_name, inl, inr, leb, length, none, refl, some, subst, true, ℕ, ◌&&◌, ◌=#◌, ◌↔◌, ◌∷◌, ◌≡◌, ◌≢◌,
  some_eq, none_or_some,
}
use zslay.Ast.{
  Annotation, Call, FunctionParts, Node, SourceCode, as_call, as_identifier, assignment_pattern,
}
use zslay.Shared.ArrayMethod.{Target, array_method_target, unwrap_array_expression}
use zslay.Rules.ReduceCopies.{
  Reducer, accumulator_parameter, as_callback, enclosing_reducer, first_of, is_function_declaration,
  outside_wrappers, reduce_methods, reducer_at, reducer_call, reducer_from, rest_of,
  without_default,
}

first_of-eq-some : (xs : List ℕ) (x : ℕ) → first_of xs ≡ some x → xs ≡ x ∷ rest_of xs
first_of-eq-some [] x h = absurd (none_or_some h)
first_of-eq-some (y ∷ ys) x h = ground arith

callback_declaration :
    (v : Node) (f : FunctionParts) → as_callback v ≡ some f → is_function_declaration v ≡ false
callback_declaration v f h = ground arith

module _ (s : SourceCode) where
  -- The first node of the list that is not the callback inside wrappers.
  pub data OwnedBy (callback : ℕ) : List ℕ → ℕ → Type 0 where
    wrapper :
        {p owner : ℕ} {above : List ℕ}
        → unwrap_array_expression s p ≡ callback
        → OwnedBy callback above owner
        → OwnedBy callback (p ∷ above) owner
    owned :
        {p : ℕ} {above : List ℕ}
        → unwrap_array_expression s p ≢ callback
        → OwnedBy callback (p ∷ above) p

  -- The plain name of a function's first parameter, but for a default.
  pub data FirstParameter (f : FunctionParts) : ℕ → Type 0 where
    named :
        {p : ℕ} {ps : List ℕ} {name : String}
        → f.params ≡ p ∷ ps
        → without_default p (s.node p) ≡ p
        → as_identifier (s.node p) ≡ some name
        → FirstParameter f p
    with_default :
        {p a d : ℕ} {ps : List ℕ} {t : Option Annotation} {name : String}
        → f.params ≡ p ∷ ps
        → s.node p ≡ assignment_pattern a d t
        → as_identifier (s.node a) ≡ some name
        → FirstParameter f a

  -- A call of a reducing method on the callback, with an initial value or none.
  pub record ReduceCall (callback : ℕ) (call : Call) (initial : Option ℕ) : Type 0 where
    pub method : Target
    pub first : ℕ
    pub others : List ℕ
    pub is_method : array_method_target s call.callee ≡ some method
    pub reduces : has_name reduce_methods method.name ≡ true
    pub few : leb (length call.arguments) 2 ≡ true
    pub arguments : call.arguments ≡ first ∷ others
    pub is_callback : unwrap_array_expression s first ≡ callback
    pub is_initial : first_of others ≡ initial

  -- The nearest function around, if it is the callback of such a call, with its accumulator.
  pub data ReducerAround : List ℕ → Reducer → Type 0 where
    outward :
        {p : ℕ} {above : List ℕ} {r : Reducer}
        → is_function_declaration (s.node p) ≡ false
        → as_callback (s.node p) ≡ none
        → ReducerAround above r
        → ReducerAround (p ∷ above) r
    here :
        {p owner accumulator : ℕ} {above : List ℕ} {initial : Option ℕ} (f : FunctionParts)
        (call : Call)
        → as_callback (s.node p) ≡ some f
        → OwnedBy p above owner
        → as_call (s.node owner) ≡ some call
        → ReduceCall p call initial
        → FirstParameter f accumulator
        → ReducerAround
            (p ∷ above)
            (record { callback = p; accumulator = accumulator; initial_value = initial })

  OwnedBy-sound :
      (callback : ℕ) (above : List ℕ) (owner : ℕ)
      → outside_wrappers s callback above ≡ some owner
      → OwnedBy callback above owner
  unfolding outside_wrappers
  OwnedBy-sound callback [] owner h = absurd (none_or_some h)
  OwnedBy-sound callback (p ∷ above) owner h =
      elim (Bool-cases (unwrap_array_expression s p =# callback)) [
        | inl q ↦
            wrapper ((=#_iff _ _).0 q)
              (OwnedBy-sound callback above owner (rw (q, outside_wrappers) at h))
        | inr q ↦
            let same : p ≡ owner =
              (let c : some p ≡ some owner = rw (q, outside_wrappers) at h in cc) in
            subst (OwnedBy callback (p ∷ above)) same
              (owned (λ e. absurd (let c = (=#_iff _ _).1 e in ground arith)))
      ]

  OwnedBy-complete :
      {callback owner : ℕ} {above : List ℕ}
      → OwnedBy callback above owner
      → outside_wrappers s callback above ≡ some owner
  unfolding outside_wrappers
  OwnedBy-complete (wrapper e o) = rw ((=#_iff _ _).1 e, outside_wrappers) (OwnedBy-complete o)
  OwnedBy-complete {callback} (owned {p} d) =
      elim (Bool-cases (unwrap_array_expression s p =# callback)) [
        | inl q ↦ absurd (d ((=#_iff _ _).0 q))
        | inr q ↦ rw (q, outside_wrappers) refl
      ]

  parameter_complete :
      (f : FunctionParts) (a : ℕ) → FirstParameter f a → accumulator_parameter s f ≡ some a
  unfolding accumulator_parameter
  parameter_complete f a (named e q i) = rw (e, accumulator_parameter) (rw q (rw i refl))
  parameter_complete f a (with_default e q i) = rw (e, accumulator_parameter) (rw q (rw i refl))

  parameter_sound :
      (f : FunctionParts) (a : ℕ) → accumulator_parameter s f ≡ some a → FirstParameter f a
  unfolding accumulator_parameter
  parameter_sound f a h =
      let (p, e, q) = >>=-eq-some (first_of f.params) _ h in
      let (name, i, r) = >>=-eq-some (as_identifier (s.node (without_default p (s.node p)))) _ q in
      go p (s.node p) name refl (first_of-eq-some f.params p e) i r
    where
      go :
          (p : ℕ) (v : Node) (name : String)
          → s.node p ≡ v
          → f.params ≡ p ∷ rest_of f.params
          → as_identifier (s.node (without_default p v)) ≡ some name
          → some (without_default p v) ≡ some a
          → FirstParameter f a
      go p (assignment_pattern l d t) name k e i r =
          let same : l ≡ a = cc in subst (FirstParameter f) same (with_default e k i)
      go p _ name k e i r =
          let same : p ≡ a = cc in subst (FirstParameter f) same (named e (rw k refl) i)

  -- what a call gives, by its first argument
  record_of : ℕ → ℕ → List ℕ → Reducer
  record_of callback accumulator arguments = record {
    callback = callback;
    accumulator = accumulator;
    initial_value = first_of (rest_of arguments);
  }

  call_sound :
      (callback : ℕ) (f : FunctionParts) (call : Call) (r : Reducer)
      → reducer_call s callback f call ≡ some r
      → (a : ℕ) × FirstParameter f a
        × ReduceCall callback call (first_of (rest_of call.arguments))
        × (record_of callback a call.arguments ≡ r)
  unfolding reducer_call record_of
  call_sound callback f call r h =
      let (method, m, q) = >>=-eq-some (array_method_target s call.callee) _ h in
      elim (Bool-cases (has_name reduce_methods method.name && leb (length call.arguments) 2)) [
        | inr t ↦ absurd (none_or_some (rw t at q))
        | inl t ↦
            let (first, e, q') = >>=-eq-some (first_of call.arguments) _ (rw t at q) in
            elim (Bool-cases (unwrap_array_expression s first =# callback)) [
              | inr u ↦ absurd (none_or_some (rw u at q'))
              | inl u ↦
                  let (a, p, same) = >>=-eq-some (accumulator_parameter s f) _ (rw u at q') in
                  let (reduces, few) = (&&_iff (has_name reduce_methods method.name) _).0 t in
                  (
                    a,
                    parameter_sound f a p,
                    record {
                      method = method;
                      first = first;
                      others = rest_of call.arguments;
                      is_method = m;
                      reduces = reduces;
                      few = few;
                      arguments = first_of-eq-some call.arguments first e;
                      is_callback = (=#_iff _ _).0 u;
                      is_initial = refl;
                    },
                    some_eq same,
                  )
            ]
      ]

  call_complete :
      {callback : ℕ} {call : Call} {initial : Option ℕ} {a : ℕ} (f : FunctionParts)
      → ReduceCall callback call initial
      → FirstParameter f a
      → reducer_call s callback f call
        ≡ some (record { callback = callback; accumulator = a; initial_value = initial })
  unfolding reducer_call
  call_complete {a} f c p =
      rw (c.is_method, reducer_call)
        (rw c.reduces (
          rw c.few (
            rw c.arguments (
              rw ((=#_iff _ _).1 c.is_callback)
                (rw (parameter_complete f a p) (rw c.is_initial refl))))))

  reducer_sound :
      (above : List ℕ) (r : Reducer) → reducer_from s above ≡ some r → ReducerAround above r
  unfolding reducer_from reducer_at record_of
  reducer_sound [] r h = absurd (none_or_some h)
  reducer_sound (p ∷ above) r h = elim (Bool-cases (is_function_declaration (s.node p))) [
    | inl d ↦ absurd (none_or_some (rw (d, reducer_from) at h))
    | inr d ↦ elim (Option-cases (as_callback (s.node p))) [
      | inl c ↦ outward d c (reducer_sound above r (rw c at (rw (d, reducer_from) at h)))
      | inr (f, c) ↦
          let (owner, o, q) =
            >>=-eq-some (outside_wrappers s p above) _ (rw c at (rw (d, reducer_from) at h)) in
          let (call, e, q') = >>=-eq-some (as_call (s.node owner)) _ q in
          let (a, parameter, reduce, same) = call_sound p f call r q' in
          subst (ReducerAround (p ∷ above)) same
            (here f call c (OwnedBy-sound p above owner o) e reduce parameter)
    ]
  ]

  reducer_complete :
      {above : List ℕ} {r : Reducer} → ReducerAround above r → reducer_from s above ≡ some r
  unfolding reducer_from reducer_at
  reducer_complete (outward d c r) = rw (d, reducer_from) (rw c (reducer_complete r))
  reducer_complete (here {p} f call c o e reduce parameter) =
      rw (callback_declaration (s.node p) f c, reducer_from)
        (rw c (rw (OwnedBy-complete o) (rw e (call_complete f reduce parameter))))

  -- The search finds exactly the reducer around a node.
  pub enclosing_reducer_iff :
      (n : ℕ) (r : Reducer) → (enclosing_reducer s n ≡ some r) ↔ ReducerAround (s.ancestors n) r
  unfolding enclosing_reducer
  enclosing_reducer_iff n r = (reducer_sound (s.ancestors n) r, reducer_complete)
