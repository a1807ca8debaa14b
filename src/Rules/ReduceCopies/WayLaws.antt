-- ===== src/Rules/ReduceCopies/WayLaws.antt =====
-- The ways to copy an accumulator that rules/no-reduce-accumulator-copy.ts knows.
use zslay.Prelude.{
  &&_iff, Decides, Decides-false, Decides-if, Decides-iff, List, Memᴰ, Option, Option-cases, String,
  [], any_answer-Decides, arith, both_answer-Decides, eq_iff, false, has_name, if◌then◌else◌, inl,
  inr, refl, some, true, ℕ, ◌&&◌, ◌==◌, ◌∷◌, ◌≡◌, ◌≢◌, none_or_some, true_or_false,
}
use zslay.Ast.{IsScoped, SourceCode}
use zslay.Shared.ArrayMethod.{Target, is_known_array_expression}
use zslay.Shared.ArrayMethod.KnownLaws.{KnownArray}
use zslay.Shared.ArrayMethod.DecideLaws.{is_known_array_expression_iff}
use zslay.Rules.ReduceCopies.{
  Reducer, assign_copies, copies_accumulator, copy_methods, from_copies, is_global_copy_owner,
  is_known_array, is_object_literal, method_copies, references_accumulator,
}
use zslay.Rules.ReduceCopies.AccumulatorLaws.{NamesAccumulator, references_accumulator_iff}

cons_eq : {x y : ℕ} {xs ys : List ℕ} → (x ∷ xs) ≡ (y ∷ ys) → (x ≡ y) × (xs ≡ ys)
cons_eq h = (ground arith, ground arith)

yes_or_no : some true ≡ some false → ⊥
yes_or_no h = ground arith

-- `Object.assign` and `Array.from` are not among the copying methods.
copy_method_other :
    (name : String) → has_name copy_methods name ≡ true → (name ≢ "assign") × (name ≢ "from")
copy_method_other name h = (
  λ e. let c : has_name copy_methods "assign" ≡ true = rw e at h in ground arith,
  λ e. let c : has_name copy_methods "from" ≡ true = rw e at h in ground arith,
)

module _ (s : SourceCode) (accumulator : ℕ) (initial : Option ℕ) (method : Target) where
  -- The ways in which a call of a method copies the accumulator.
  pub data CopiesAccumulator : List ℕ → Type 0 where
    assign :
        {target : ℕ} {sources : List ℕ}
        → method.name ≡ "assign"
        → is_global_copy_owner s method.object "Object" ≡ true
        → is_object_literal s target ≡ true
        → (k : ℕ) × Memᴰ k sources × NamesAccumulator s accumulator k
        → CopiesAccumulator (target ∷ sources)
    array_from :
        {source : ℕ} {others : List ℕ}
        → method.name ≡ "from"
        → is_global_copy_owner s method.object "Array" ≡ true
        → NamesAccumulator s accumulator source
        → CopiesAccumulator (source ∷ others)
    array_copy :
        {arguments : List ℕ} (seed : ℕ)
        → has_name copy_methods method.name ≡ true
        → initial ≡ some seed
        → KnownArray s seed
        → NamesAccumulator s accumulator method.object
        → CopiesAccumulator arguments

  abbrev AssignCopies : List ℕ → Type 0
  AssignCopies [] = ⊥
  AssignCopies (target ∷ sources) =
      (is_object_literal s target ≡ true)
      × ((k : ℕ) × Memᴰ k sources × NamesAccumulator s accumulator k)

  abbrev FromCopies : List ℕ → Type 0
  FromCopies [] = ⊥
  FromCopies (source ∷ _) = NamesAccumulator s accumulator source

  abbrev MethodCopies : Type 0
  MethodCopies =
      (seed : ℕ) × (initial ≡ some seed)
      × KnownArray s seed
      × NamesAccumulator s accumulator method.object

  assign-CopiesAccumulator :
      (arguments : List ℕ)
      → method.name ≡ "assign"
      → is_global_copy_owner s method.object "Object" ≡ true
      → AssignCopies arguments
      → CopiesAccumulator arguments
  assign-CopiesAccumulator [] e g k = elim k [ ]
  assign-CopiesAccumulator (target ∷ sources) e g (o, k) = assign e g o k

  from-CopiesAccumulator :
      (arguments : List ℕ)
      → method.name ≡ "from"
      → is_global_copy_owner s method.object "Array" ≡ true
      → FromCopies arguments
      → CopiesAccumulator arguments
  from-CopiesAccumulator [] e g k = elim k [ ]
  from-CopiesAccumulator (source ∷ others) e g k = array_from e g k

  CopiesAccumulator-assign :
      (arguments : List ℕ)
      → method.name ≡ "assign"
      → CopiesAccumulator arguments
      → AssignCopies arguments
  CopiesAccumulator-assign _ e (assign _ _ o k) = (o, k)
  CopiesAccumulator-assign _ e (array_from e' _ _) = absurd (cc)
  CopiesAccumulator-assign _ e (array_copy _ m _ _ _) =
      absurd ((copy_method_other method.name m).0 e)

  CopiesAccumulator-from :
      (arguments : List ℕ)
      → method.name ≡ "from"
      → CopiesAccumulator arguments
      → FromCopies arguments
  CopiesAccumulator-from _ e (assign e' _ _ _) = absurd (cc)
  CopiesAccumulator-from _ e (array_from _ _ k) = k
  CopiesAccumulator-from _ e (array_copy _ m _ _ _) = absurd ((copy_method_other method.name m).1 e)

  module _ (scoped : IsScoped s) where
    assign_copies-Decides :
        (arguments : List ℕ)
        → Decides (assign_copies s accumulator arguments) (AssignCopies arguments)
    unfolding assign_copies
    assign_copies-Decides [] = Decides-false (λ h. h)
    assign_copies-Decides (target ∷ sources) =
        Decides-if (is_object_literal s target)
          (λ e.
            Decides-iff _ (λ k. (e, k)) (λ (_, k). k)
              (any_answer-Decides (references_accumulator s accumulator)
                (NamesAccumulator s accumulator) (references_accumulator_iff s accumulator scoped)
                sources))
          (λ e. Decides-false (λ (c, _). ground arith))

    from_copies-Decides :
        (arguments : List ℕ) → Decides (from_copies s accumulator arguments) (FromCopies arguments)
    unfolding from_copies
    from_copies-Decides [] = Decides-false (λ h. h)
    from_copies-Decides (source ∷ _) = references_accumulator_iff s accumulator scoped source

    is_known_array-Decides :
        Decides (is_known_array s initial) ((seed : ℕ) × (initial ≡ some seed) × KnownArray s seed)
    is_known_array-Decides = elim (Option-cases initial) [
      | inl e ↦ rw e (Decides-false (λ (seed, q, _). none_or_some q))
      | inr (seed, e) ↦ rw e (
          Decides-iff (is_known_array_expression s seed) (λ k. (seed, refl, k))
            (λ (seed', q, k). let same : seed ≡ seed' = cc in rw (← same) at k)
            (is_known_array_expression_iff s scoped seed))
    ]

module _ (s : SourceCode) (scoped : IsScoped s) (accumulator : ℕ) (reducer : Reducer)
    (method : Target) where
  method_copies-Decides :
      Decides
        (method_copies s accumulator reducer method)
        (MethodCopies s accumulator reducer.initial_value method)
  unfolding method_copies
  method_copies-Decides =
      Decides-iff (method_copies s accumulator reducer method)
        (λ ((seed, e, k), a). (seed, e, k, a)) (λ (seed, e, k, a). ((seed, e, k), a))
        (both_answer-Decides (is_known_array s reducer.initial_value)
          (references_accumulator s accumulator method.object)
          (is_known_array-Decides s accumulator reducer.initial_value method scoped)
          (references_accumulator_iff s accumulator scoped method.object))

  -- Where it is neither `Object.assign` nor `Array.from`.
  other-Decides :
      (arguments : List ℕ)
      → ((method.name == "assign" && is_global_copy_owner s method.object "Object") ≡ false)
      → ((method.name == "from" && is_global_copy_owner s method.object "Array") ≡ false)
      → Decides
          (if has_name copy_methods method.name
            then method_copies s accumulator reducer method
            else some false)
          (CopiesAccumulator s accumulator reducer.initial_value method arguments)
  other-Decides arguments a f =
      Decides-if (has_name copy_methods method.name)
        (λ m.
          Decides-iff (method_copies s accumulator reducer method)
            (λ (seed, e, k, d). array_copy seed m e k d) (λ c. behind arguments a f c)
            method_copies-Decides)
        (λ m. Decides-false (λ c. not_listed arguments a f m c))
    where
      behind :
          (xs : List ℕ)
          → ((method.name == "assign" && is_global_copy_owner s method.object "Object") ≡ false)
          → ((method.name == "from" && is_global_copy_owner s method.object "Array") ≡ false)
          → CopiesAccumulator s accumulator reducer.initial_value method xs
          → MethodCopies s accumulator reducer.initial_value method
      behind _ a f (assign e g _ _) =
          absurd (true_or_false ((&&_iff _ _).1 ((eq_iff _ _).1 e, g)) a)
      behind _ a f (array_from e g _) =
          absurd (true_or_false ((&&_iff _ _).1 ((eq_iff _ _).1 e, g)) f)
      behind _ a f (array_copy seed m e k d) = (seed, e, k, d)

      not_listed :
          (xs : List ℕ)
          → ((method.name == "assign" && is_global_copy_owner s method.object "Object") ≡ false)
          → ((method.name == "from" && is_global_copy_owner s method.object "Array") ≡ false)
          → has_name copy_methods method.name ≡ false
          → CopiesAccumulator s accumulator reducer.initial_value method xs
          → ⊥
      not_listed _ a f m (assign e g _ _) = true_or_false ((&&_iff _ _).1 ((eq_iff _ _).1 e, g)) a
      not_listed _ a f m (array_from e g _) = true_or_false ((&&_iff _ _).1 ((eq_iff _ _).1 e, g)) f
      not_listed _ a f m (array_copy seed m' e k d) = true_or_false m' m

  pub copies_accumulator-Decides :
      (arguments : List ℕ)
      → Decides
          (copies_accumulator s accumulator reducer method arguments)
          (CopiesAccumulator s accumulator reducer.initial_value method arguments)
  unfolding copies_accumulator
  copies_accumulator-Decides arguments =
      Decides-if (method.name == "assign" && is_global_copy_owner s method.object "Object")
        (λ a.
          let (e, g) = (&&_iff _ _).0 a in
          let named = (eq_iff method.name "assign").0 e in
          Decides-iff (assign_copies s accumulator arguments)
            (assign-CopiesAccumulator s accumulator reducer.initial_value method arguments named g)
            (CopiesAccumulator-assign s accumulator reducer.initial_value method arguments named)
            (assign_copies-Decides s accumulator reducer.initial_value method scoped arguments))
        (λ a.
          Decides-if (method.name == "from" && is_global_copy_owner s method.object "Array")
            (λ f.
              let (e, g) = (&&_iff _ _).0 f in
              let named = (eq_iff method.name "from").0 e in
              Decides-iff (from_copies s accumulator arguments)
                (from-CopiesAccumulator s accumulator reducer.initial_value method arguments named
                  g)
                (CopiesAccumulator-from s accumulator reducer.initial_value method arguments named)
                (from_copies-Decides s accumulator reducer.initial_value method scoped arguments))
            (λ f. other-Decides arguments a f))
