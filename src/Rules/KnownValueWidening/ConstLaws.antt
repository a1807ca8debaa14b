-- ===== src/Rules/KnownValueWidening/ConstLaws.antt =====
-- The constants through which the searches of rules/no-known-value-widening.ts go on.
use zslay.Prelude.{
  &&_iff, >>=-eq-some, Bool-cases, List, Option, Option-cases, String, [], all, arith, eq_iff,
  false, inl, inr, refl, some, true, ℕ, ◌==◌, ◌↔◌, ◌∷◌, ◌≡◌, some_eq, none_or_some,
}
use zslay.Ast.{
  Declarator, Definition, Node, SourceCode, as_declarator, declaration_kind, parent,
  variable_declaration, variable_declarator,
}
use zslay.Rules.KnownValueWidening.{
  is_const_declaration, is_initial_or_read, is_stable_const_variable, only_definition,
  stable_initializer, variable_declarator_of,
}

only_definition-eq-some :
    (ds : List Definition) (d : Definition) → only_definition ds ≡ some d → ds ≡ d ∷ []
only_definition-eq-some [] d h = absurd (ground arith)
only_definition-eq-some (c ∷ []) d h = ground arith
only_definition-eq-some (c ∷ e ∷ ds) d h = absurd (ground arith)

as_declarator-eq-some :
    (v : Node) (d : Declarator) → as_declarator v ≡ some d → v ≡ variable_declarator d.id d.init
as_declarator-eq-some (variable_declarator i e) d h = ground arith
as_declarator-eq-some _ d h = absurd (ground arith)

declaration_kind-eq-some :
    (v : Node) (kind : String)
    → declaration_kind v ≡ some kind
    → (ds : List ℕ) × (v ≡ variable_declaration kind ds)
declaration_kind-eq-some (variable_declaration k ds) kind h = (ds, ground arith)
declaration_kind-eq-some _ kind h = absurd (ground arith)

false_or_true : false ≡ true → ⊥
false_or_true h = ground arith

pair_eq :
    {x y : ℕ} {d e : Declarator}
    → ◌≡◌ {A = Option (ℕ × Declarator)} (some (x, d)) (some (y, e))
    → (x ≡ y) × (d ≡ e)
pair_eq h = (cc, cc)

module _ (s : SourceCode) where
  -- The variable is a constant with one definition, which has an initializer and is its only write.
  pub record StableConst (v m : ℕ) : Type 0 where
    pub definition : Definition
    pub id : ℕ
    pub declaration : ℕ
    pub declarators : List ℕ
    pub only : (s.variable v).defs ≡ definition ∷ []
    pub is_variable : definition.type ≡ "Variable"
    pub initialized : s.node definition.node ≡ variable_declarator id (some m)
    pub declared : parent s definition.node ≡ some declaration
    pub is_const : s.node declaration ≡ variable_declaration "const" declarators
    pub unwritten : all is_initial_or_read (s.variable v).references ≡ true

  declarator_sound :
      (v n : ℕ) (e : Declarator)
      → variable_declarator_of s v ≡ some (n, e)
      → (d : Definition) × ((s.variable v).defs ≡ d ∷ [])
        × (d.type ≡ "Variable")
        × (d.node ≡ n)
        × (s.node d.node ≡ variable_declarator e.id e.init)
  unfolding variable_declarator_of
  declarator_sound v n e h =
      let (d, p, q) = >>=-eq-some (only_definition (s.variable v).defs) _ h in
      elim (Bool-cases (d.type == "Variable")) [
        | inr t ↦ absurd (none_or_some (rw t at q))
        | inl t ↦
            let (e', p', q') = >>=-eq-some (as_declarator (s.node d.node)) _ (rw t at q) in
            let (same, eq) = pair_eq q' in
            (
              d,
              only_definition-eq-some _ d p,
              (eq_iff d.type "Variable").0 t,
              same,
              as_declarator-eq-some (s.node d.node) e (rw eq at p'),
            )
      ]

  stable_sound :
      (v n : ℕ)
      → is_stable_const_variable s v n ≡ true
      → (p : ℕ) × (ds : List ℕ) × (parent s n ≡ some p)
        × (s.node p ≡ variable_declaration "const" ds)
        × (all is_initial_or_read (s.variable v).references ≡ true)
  unfolding is_stable_const_variable
  stable_sound v n h =
      let (c, r) = (&&_iff (is_const_declaration s (parent s n)) _).0 h in
      elim (Option-cases (parent s n)) [
        | inl e ↦ absurd (false_or_true (rw (e, is_const_declaration) at c))
        | inr (p, e) ↦ elim (Option-cases (declaration_kind (s.node p))) [
          | inl q ↦ absurd (false_or_true (rw q at (rw (e, is_const_declaration) at c)))
          | inr (kind, q) ↦
              let is_const =
                (eq_iff kind "const").0 (rw q at (rw (e, is_const_declaration) at c)) in
              let (ds, k) = declaration_kind-eq-some (s.node p) "const" (rw is_const at q) in
              (p, ds, e, k, r)
        ]
      ]

  stable_initializer_sound : (v m : ℕ) → stable_initializer s v ≡ some m → StableConst v m
  unfolding stable_initializer
  stable_initializer_sound v m h =
      let ((n, e), p, q) = >>=-eq-some (variable_declarator_of s v) _ h in
      let (init, p', q') = >>=-eq-some e.init _ q in
      elim (Bool-cases (is_stable_const_variable s v n)) [
        | inr t ↦ absurd (none_or_some (rw t at q'))
        | inl t ↦
            let same : init ≡ m = some_eq (rw t at q') in
            let (d, only, is_variable, place, initialized) = declarator_sound v n e p in
            let (declaration, declarators, declared, is_const, unwritten) = stable_sound v n t in
            record {
              definition = d;
              id = e.id;
              declaration = declaration;
              declarators = declarators;
              only = only;
              is_variable = is_variable;
              initialized = rw (p', same) at initialized;
              declared = rw (← place) at declared;
              is_const = is_const;
              unwritten = unwritten;
            }
      ]

  stable_initializer_complete : (v m : ℕ) → StableConst v m → stable_initializer s v ≡ some m
  unfolding stable_initializer variable_declarator_of is_stable_const_variable
  stable_initializer_complete v m c =
      rw (c.only, stable_initializer)
        (rw c.is_variable (
          rw c.initialized
            (rw c.declared (rw (c.is_const, is_const_declaration) (rw c.unwritten refl)))))

  pub stable_initializer_iff : (v m : ℕ) → (stable_initializer s v ≡ some m) ↔ StableConst v m
  stable_initializer_iff v m = (stable_initializer_sound v m, stable_initializer_complete v m)
