-- ===== src/Rules/Expressions/SymbolLaws.antt =====
-- no-shape-in-symbol-names against the occurrences of the forbidden term.
use zslay.Prelude.{
  &&_iff, =#_iff, Bool-cases, List, List-cases, Option-cases, String, [], arith, codes, false, inl,
  inr, is_some, refl, some, strip_prefix, strip_prefix-append, strip_prefix_sound, true, ℕ, ◌++◌,
  ◌=#◌, ◌↔◌, ◌∷◌, ◌≡◌, ◌≢◌,
}
use zslay.Ast.{SourceCode, as_member, as_member-eq-some, member_expression, parent}
use zslay.Rules.Expressions.{
  borrowed_from, contains_forbidden_symbol_name, forbidden_symbol_name, includes,
  is_borrowed_member_name, no_shape_in_symbol_names, symbol_name, to_lower_case,
}

includes_sound :
    (text part : List ℕ)
    → includes text part ≡ true
    → (front rest : List ℕ) × (text ≡ front ++ (part ++ rest))
unfolding includes
includes_sound [] part h = elim (Option-cases (strip_prefix part [])) [
  | inl e ↦ absurd (ground arith)
  | inr (rest, e) ↦ ([], rest, strip_prefix_sound part [] rest e)
]
includes_sound (c ∷ text) part h = elim (Option-cases (strip_prefix part (c ∷ text))) [
  | inr (rest, e) ↦ ([], rest, strip_prefix_sound part (c ∷ text) rest e)
  | inl e ↦
      let (front, rest, q) = includes_sound text part (rw (e, is_some) at h) in
      (c ∷ front, rest, rw (← q) refl)
]

includes_complete : (front part rest : List ℕ) → includes (front ++ (part ++ rest)) part ≡ true
unfolding includes
includes_complete (c ∷ front) part rest = rw (includes_complete front part rest) (ground arith)
includes_complete [] part rest = starts (part ++ rest) (strip_prefix-append part rest)
  where
    starts : (text : List ℕ) → strip_prefix part text ≡ some rest → includes text part ≡ true
    starts [] e = rw (e, includes) refl
    starts (c ∷ text) e = rw (e, includes) refl

-- The lower case of a name has "shape" somewhere.
abbrev pub Forbidden : String → Type 0
Forbidden name =
    (front rest : List ℕ) × (to_lower_case (codes name) ≡ front ++ (forbidden_symbol_name ++ rest))

module _ (s : SourceCode) where
  -- `object.name`, of which the node is the name
  abbrev pub Borrowed : ℕ → Type 0
  Borrowed n =
      (p o : ℕ) × (above : List ℕ) × (s.ancestors n ≡ p ∷ above)
      × (s.node p ≡ member_expression o n false)

  Borrowed-sound : (n : ℕ) → is_borrowed_member_name s n ≡ true → Borrowed n
  unfolding is_borrowed_member_name
  Borrowed-sound n h = elim (List-cases (s.ancestors n)) [
    | inl e ↦ let c : false ≡ true = rw (e, parent) at h in absurd (ground arith)
    | inr (p, above, e) ↦ elim (Option-cases (as_member (s.node p))) [
      | inl e' ↦
          let c : false ≡ true = rw (e', borrowed_from) at (rw (e, parent, borrowed_from) at h) in
          absurd (ground arith)
      | inr (m, e') ↦
          let (a, b) =
            (&&_iff (m.property =# n) _).0
              (rw (e', borrowed_from) at (rw (e, parent, borrowed_from) at h)) in
          let plain : m.computed ≡ false = ground arith in
          (
            p,
            m.object,
            above,
            e,
            rw (← (=#_iff m.property n).0 a, ← plain) (as_member-eq-some (s.node p) m e'),
          )
    ]
  ]

  Borrowed-complete : (n : ℕ) → Borrowed n → is_borrowed_member_name s n ≡ true
  unfolding is_borrowed_member_name
  Borrowed-complete n (p, o, above, e, q) =
      rw (e, parent) (rw (q, borrowed_from) (rw ((=#_iff n n).1 refl) refl))

  -- no-shape-in-symbol-names reports a node exactly when it is an identifier, a private or a JSX identifier whose
  -- name, in lower case, contains "shape", and it is not the name in an access `object.name`.
  pub no_shape_in_symbol_names_iff :
      (n : ℕ)
      → (no_shape_in_symbol_names s n ≢ []) ↔ (
          (name : String) × (symbol_name (s.node n) ≡ some name)
          × Forbidden name
          × (Borrowed n → ⊥))
  unfolding no_shape_in_symbol_names contains_forbidden_symbol_name
  no_shape_in_symbol_names_iff n =
      (forth, λ (name, e, (front, rest, q), free). back name e front rest q free)
    where
      forth :
          no_shape_in_symbol_names s n ≢ []
          → (name : String) × (symbol_name (s.node n) ≡ some name)
            × Forbidden name
            × (Borrowed n → ⊥)
      forth h = elim (Option-cases (symbol_name (s.node n))) [
        | inl e ↦ absurd (h (rw (e, no_shape_in_symbol_names) refl))
        | inr (name, e) ↦ elim (Bool-cases (contains_forbidden_symbol_name name)) [
          | inr q ↦ absurd (h (rw (e, no_shape_in_symbol_names) (rw q refl)))
          | inl q ↦ elim (Bool-cases (is_borrowed_member_name s n)) [
            | inl q' ↦ absurd (h (rw (e, no_shape_in_symbol_names) (rw q (rw q' refl))))
            | inr q' ↦ (
              name,
              e,
              includes_sound _ _ q,
              λ b. let c = Borrowed-complete n b in absurd (ground arith),
            )
          ]
        ]
      ]

      back :
          (name : String)
          → symbol_name (s.node n) ≡ some name
          → (front rest : List ℕ)
          → to_lower_case (codes name) ≡ front ++ (forbidden_symbol_name ++ rest)
          → (Borrowed n → ⊥)
          → no_shape_in_symbol_names s n ≢ []
      back name e front rest q free = elim (Bool-cases (is_borrowed_member_name s n)) [
        | inl b ↦ absurd (free (Borrowed-sound n b))
        | inr b ↦
            let found : contains_forbidden_symbol_name name ≡ true =
              rw (q, contains_forbidden_symbol_name)
                (includes_complete front forbidden_symbol_name rest) in
            rw (e, no_shape_in_symbol_names) (rw found (rw b (λ c. absurd (ground arith))))
      ]
