-- ===== src/Shared/TypeAlias/Resolve/SmallerLaws.antt =====
-- Every step of `resolvedTypeMatches` on to another type is down: an argument lies deeper in the
-- substitutions, and an alias is expanded once only.
use zslay.Prelude.{
  =#_iff, Bool-cases, List, Memᴰ, Option, Option-cases, String, [], arith, contains, eq_iff,
  if◌then◌else◌, inl, inr, is_empty, length, mem-of-filter, none, refl, some, true, unvisited,
  unvisited-cons_lt, ℕ, ◌<◌, ◌∷◌, ◌≡◌, ◌≤◌,
}
use zslay.Ast.{SourceCode, TypeReference, as_identifier, as_type_reference}
use zslay.Shared.TypeAlias.NearestLaws.{nearest_type_bindings_lem}
use zslay.Shared.TypeAlias.Resolve.{
  Plan, Substitutions, alias_substitutions, bind, depth, expand, expand_alias, lookup, match_here,
  no_substitution, plan, plan_name, substitute,
}
use zslay.Shared.TypeAlias.{
  TypeBinding, as_alias, candidates, nearest_type_bindings, only_alias, visible_type_alias,
}

lookup-depth :
    (name : String) (m : Substitutions) (u : ℕ) (captured : Substitutions)
    → lookup name m ≡ some (u, captured)
    → depth captured < depth m
unfolding lookup depth
lookup-depth name no_substitution u captured h = absurd (ground arith)
lookup-depth name (bind x t c rest) u captured h = ground (arith, lookup-depth name rest u captured)

-- the declarations of the aliases of an environment
pub aliases_of : List TypeBinding → List ℕ
aliases_of [] = []
aliases_of (b ∷ bs) = elim b.alias [ none ↦ aliases_of bs | some a ↦ a ∷ aliases_of bs ]

pub length-aliases_of : (bs : List TypeBinding) → length (aliases_of bs) ≤ length bs
unfolding aliases_of
length-aliases_of [] = omega arith
length-aliases_of (b ∷ bs) = let ih = length-aliases_of bs in ground arith

contains-aliases_of :
    (b : TypeBinding) (bs : List TypeBinding) (a : ℕ)
    → Memᴰ b bs
    → b.alias ≡ some a
    → contains (aliases_of bs) a ≡ true
unfolding aliases_of
contains-aliases_of b [] a m e = elim m [ ]
contains-aliases_of b (c ∷ bs) a (Memᴰ.head same) e =
    let q : c.alias ≡ some a = rw (← same) e in rw (q, aliases_of) (ground (arith, =#_iff a a))
contains-aliases_of b (c ∷ bs) a (Memᴰ.tail m) e =
    let ih = contains-aliases_of b bs a m e in ground arith

module _ (s : SourceCode) (environment : List TypeBinding) where
  nearest-candidate :
      (name : String) (n : ℕ) (b : TypeBinding)
      → Memᴰ b (nearest_type_bindings s environment name n)
      → Memᴰ b (candidates s environment name)
  nearest-candidate name n b m = elim (nearest_type_bindings_lem s environment name n) [
    | inl (far, e) ↦ elim (rw e at m) [ ]
    | inr (d, l, e) ↦ (mem-of-filter _ b (candidates s environment name) (rw e at m)).0
  ]

  -- A visible alias is that of a binding of the name.
  pub visible_type_alias_from :
      (name : String) (n a : ℕ)
      → visible_type_alias s environment name n ≡ some a
      → (b : TypeBinding) × Memᴰ b environment × (b.name ≡ name) × (b.alias ≡ some a)
  unfolding visible_type_alias
  visible_type_alias_from name n a h =
      go (nearest_type_bindings s environment name n) (nearest-candidate name n) (ground arith)
    where
      go :
          (bs : List TypeBinding)
          → ((b : TypeBinding) → Memᴰ b bs → Memᴰ b (candidates s environment name))
          → only_alias s environment bs ≡ some a
          → (b : TypeBinding) × Memᴰ b environment × (b.name ≡ name) × (b.alias ≡ some a)
      go [] inside q = absurd (ground arith)
      go (b ∷ []) inside q =
          let (m, e) = mem-of-filter _ b environment (inside b (Memᴰ.head refl)) in
          (b, m, (eq_iff b.name name).0 e, q)
      go (b ∷ c ∷ bs) inside q = absurd (ground arith)

  pub visible_type_alias_bound :
      (name : String) (n a : ℕ)
      → visible_type_alias s environment name n ≡ some a
      → contains (aliases_of environment) a ≡ true
  visible_type_alias_bound name n a h =
      let (b, m, _, e) = visible_type_alias_from name n a h in
      contains-aliases_of b environment a m e

  -- What a plan goes on with is smaller: an argument lies deeper, an alias is new.
  abbrev pub Smaller : Substitutions → List ℕ → Plan → Type 0
  Smaller m resolving match_here = Unit
  Smaller m resolving (substitute u captured) = depth captured < depth m
  Smaller m resolving (expand next resolving' body) =
      unvisited resolving' (aliases_of environment) < unvisited resolving (aliases_of environment)

  expand-Smaller :
      (m : Substitutions) (resolving arguments : List ℕ) (name : String) (t : ℕ)
      → Smaller m resolving (
          expand_alias s environment m resolving arguments
            (visible_type_alias s environment name t))
  expand-Smaller m resolving arguments name t =
      elim (Option-cases (visible_type_alias s environment name t)) [
        | inl e ↦ rw e tt
        | inr (a, e) ↦ elim (Bool-cases (contains resolving a)) [
          | inl q ↦ rw (e, q) tt
          | inr q ↦ elim (Option-cases (as_alias (s.node a))) [
            | inl f ↦ rw (e, q, f) tt
            | inr (alias, f) ↦ elim (Option-cases (alias_substitutions s alias arguments m)) [
              | inl g ↦ rw (e, q, f, g) tt
              | inr (next, g) ↦
                  rw (e, q, f, g)
                    (unvisited-cons_lt a resolving (aliases_of environment) q
                      (visible_type_alias_bound name t a e))
            ]
          ]
        ]
      ]

  pub plan-Smaller :
      (m : Substitutions) (resolving : List ℕ) (t : ℕ)
      → Smaller m resolving (plan s environment m resolving t)
  unfolding plan
  plan-Smaller m resolving t = at_reference (as_type_reference (s.node t))
    where
      at_lookup :
          (arguments : List ℕ) (name : String) (o : Option (ℕ × Substitutions))
          → lookup name m ≡ o
          → Smaller m resolving (elim o [
            | some (u, captured) ↦
                if is_empty arguments
                then substitute u captured
                else expand_alias s environment m resolving arguments
                    (visible_type_alias s environment name t)
            | none ↦
                expand_alias s environment m resolving arguments
                  (visible_type_alias s environment name t)
          ])
      at_lookup arguments name none g = expand-Smaller m resolving arguments name t
      at_lookup arguments name (some (u, captured)) g = elim (Bool-cases (is_empty arguments)) [
        | inl h ↦ rw h (lookup-depth name m u captured g)
        | inr h ↦ rw h (expand-Smaller m resolving arguments name t)
      ]

      at_name :
          (arguments : List ℕ) (o : Option String)
          → Smaller m resolving (elim o [
            | none ↦ match_here
            | some name ↦ plan_name s environment m resolving t arguments name
          ])
      at_name arguments none = tt
      at_name arguments (some name) = at_lookup arguments name (lookup name m) refl

      at_reference :
          (o : Option TypeReference)
          → Smaller m resolving (elim o [
            | none ↦ match_here
            | some r ↦ elim (as_identifier (s.node r.type_name)) [
              | none ↦ match_here
              | some name ↦ plan_name s environment m resolving t r.arguments name
            ]
          ])
      at_reference none = tt
      at_reference (some r) = at_name r.arguments (as_identifier (s.node r.type_name))
