-- ===== src/Shared/DictionaryTypes/ArgumentLaws.antt =====
-- `resolvedSubstitutionArgument` against a relation without fuel.
use zslay.Prelude.{
  Bool-cases, List, Option-cases, String, [], arith, false, has_name, inl, inr, length, names_left,
  names_left-cons_lt, names_left_le, none, refl, some, suc, true, zero, ℕ, ◌<◌, ◌↔◌, ◌∷◌, ◌≡◌,
}
use zslay.Ast.{SourceCode}
use zslay.Shared.DictionaryTypes.{
  Arguments, argument, referred_name, resolved_substitution_argument, resolved_within,
}

abbrev pub names_of : Arguments → List String
names_of [] = []
names_of ((x, _) ∷ rest) = x ∷ names_of rest

argument-has_name :
    (name : String) (base : Arguments) (t : ℕ)
    → argument name base ≡ some t
    → has_name (names_of base) name ≡ true
unfolding argument
argument-has_name name [] t h = absurd (ground arith)
argument-has_name name ((x, u) ∷ rest) t h = ground (arith, argument-has_name name rest t)

length-names_of : (base : Arguments) → length (names_of base) ≡ length base
length-names_of [] = refl
length-names_of (e ∷ rest) = omega (arith, length-names_of rest)

module _ (s : SourceCode) (base : Arguments) where
  -- Following a type by the names that it refers to, each once, as far as the map has them.
  pub data Resolves : List String → ℕ → ℕ → Type 0 where
    other_type :
        {resolving : List String} {t : ℕ} → referred_name s t ≡ none → Resolves resolving t t
    cyclic :
        {resolving : List String} {t : ℕ} (name : String)
        → referred_name s t ≡ some name
        → has_name resolving name ≡ true
        → Resolves resolving t t
    unbound :
        {resolving : List String} {t : ℕ} (name : String)
        → referred_name s t ≡ some name
        → argument name base ≡ none
        → Resolves resolving t t
    bound :
        {resolving : List String} {t u k : ℕ} (name : String)
        → referred_name s t ≡ some name
        → has_name resolving name ≡ false
        → argument name base ≡ some u
        → Resolves (name ∷ resolving) u k
        → Resolves resolving t k

  within-Resolves :
      (fuel : ℕ) (resolving : List String) (t : ℕ)
      → names_left resolving (names_of base) < fuel
      → Resolves resolving t (resolved_within s fuel base resolving t)
  unfolding resolved_within
  within-Resolves zero resolving t h = absurd (omega arith)
  within-Resolves (suc fuel) resolving t h = elim (Option-cases (referred_name s t)) [
    | inl e ↦ rw (e, resolved_within) (other_type e)
    | inr (name, e) ↦ elim (Bool-cases (has_name resolving name)) [
      | inl q ↦ rw (e, resolved_within) (rw q (cyclic name e q))
      | inr q ↦ elim (Option-cases (argument name base)) [
        | inl k ↦ rw (e, resolved_within) (rw q (rw k (unbound name e k)))
        | inr (u, k) ↦
            let fewer =
              names_left-cons_lt name resolving (names_of base) q
                (argument-has_name name base u k) in
            rw (e, resolved_within)
              (rw q
                (rw k (bound name e q k (within-Resolves fuel (name ∷ resolving) u (omega arith)))))
      ]
    ]
  ]

  Resolves-unique :
      {resolving : List String} {t a b : ℕ}
      → Resolves resolving t a
      → Resolves resolving t b
      → a ≡ b
  Resolves-unique (other_type e) (other_type _) = refl
  Resolves-unique (other_type e) (cyclic x p q) = refl
  Resolves-unique (other_type e) (unbound x p q) = refl
  Resolves-unique (other_type e) (bound x p q k r) = cc
  Resolves-unique (cyclic x p q) (other_type e) = refl
  Resolves-unique (cyclic x p q) (cyclic _ _ _) = refl
  Resolves-unique (cyclic x p q) (unbound _ _ _) = refl
  Resolves-unique (cyclic x p q) (bound y p' q' k r) = absurd (let same : x ≡ y = cc in cc)
  Resolves-unique (unbound x p q) (other_type e) = refl
  Resolves-unique (unbound x p q) (cyclic _ _ _) = refl
  Resolves-unique (unbound x p q) (unbound _ _ _) = refl
  Resolves-unique (unbound x p q) (bound y p' q' k r) = absurd (let same : x ≡ y = cc in cc)
  Resolves-unique (bound x p q k r) (other_type e) = cc
  Resolves-unique (bound x p q k r) (cyclic y p' q') = absurd (let same : x ≡ y = cc in cc)
  Resolves-unique (bound x p q k r) (unbound y p' q') = absurd (let same : x ≡ y = cc in cc)
  Resolves-unique (bound {u} x p q k r) (bound {u = v} y p' q' k' r') =
      let name : y ≡ x = cc in
      let place : v ≡ u = cc in Resolves-unique r (rw place at (rw name at r'))

  -- Resolving an argument ends, whatever cycles the map has, and returns exactly the type that is reached by
  -- following references that the map binds, no name twice.
  pub resolved_substitution_argument_iff :
      (t u : ℕ) → (resolved_substitution_argument s base t ≡ u) ↔ Resolves [] t u
  unfolding resolved_substitution_argument
  resolved_substitution_argument_iff t u = (
    λ e. rw e at (within-Resolves (suc (length base)) [] t enough),
    λ r. Resolves-unique (within-Resolves (suc (length base)) [] t enough) r,
  )
    where
      enough : names_left [] (names_of base) < suc (length base)
      enough = omega (arith, names_left_le [] (names_of base), length-names_of base)
