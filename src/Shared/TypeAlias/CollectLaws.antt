-- ===== src/Shared/TypeAlias/CollectLaws.antt =====
-- `createTypeAliasEnvironment` collects the bindings that the nodes of a program declare.
use zslay.Prelude.{
  All-mem, Memᴰ, Option-cases, arith, gather, gather-mem, inl, inr, mem-of-gather, refl, some, suc,
  zero, ℕ, ◌<◌, ◌≤◌, ◌↔◌, ◌≡◌,
}
use mathlib.Core.List.Memᴰ
use zslay.Ast.{IsTree, SourceCode}
use zslay.Shared.TypeAlias.{
  TypeBinding, collect_within, create_type_alias_environment, declared_type_binding, own_bindings,
}

module _ (s : SourceCode) where
  -- A node below another in the tree, or the same.
  pub data Descendant : ℕ → ℕ → Type 0 where
    here : {n : ℕ} → Descendant n n
    below : {n c d : ℕ} → Memᴰ c (s.children n) → Descendant c d → Descendant n d

  own_bindings-declared :
      (n : ℕ) (b : TypeBinding) → Memᴰ b (own_bindings s n) → declared_type_binding s n ≡ some b
  own_bindings-declared n b m = elim (Option-cases (declared_type_binding s n)) [
    | inl e ↦ absurd (Memᴰ.not-nil (rw (e, own_bindings) at m))
    | inr (x, e) ↦ let same = Memᴰ.eq_of_singleton (rw (e, own_bindings) at m) in rw (e, same)
  ]

  declared-own_bindings :
      (n : ℕ) (b : TypeBinding) → declared_type_binding s n ≡ some b → Memᴰ b (own_bindings s n)
  declared-own_bindings n b e = rw (e, own_bindings) (Memᴰ.head refl)

  collect_sound :
      (fuel n : ℕ) (b : TypeBinding)
      → Memᴰ b (collect_within s fuel n)
      → (d : ℕ) × Descendant n d × (declared_type_binding s d ≡ some b)
  unfolding collect_within
  collect_sound zero n b m = absurd (Memᴰ.not-nil m)
  collect_sound (suc fuel) n b m = elim (Memᴰ.append_cases (own_bindings s n) m) [
    | inl k ↦ (n, here, own_bindings-declared n b k)
    | inr k ↦
        let (c, i, j) = mem-of-gather (λ x. collect_within s fuel x) (s.children n) k in
        let (d, r, e) = collect_sound fuel c b j in (d, below i r, e)
  ]

  module _ (tree : IsTree s) where
    collect_complete :
        {n d : ℕ} (fuel : ℕ) (b : TypeBinding)
        → n < fuel
        → Descendant n d
        → declared_type_binding s d ≡ some b
        → Memᴰ b (collect_within s fuel n)
    unfolding collect_within
    collect_complete zero b h r e = absurd (omega arith)
    collect_complete {n} (suc fuel) b h here e =
        Memᴰ.append_left (gather (λ x. collect_within s fuel x) (s.children n))
          (declared-own_bindings n b e)
    collect_complete {n} (suc fuel) b h (below {c} i r) e =
        let low = All-mem (λ x. x < n) {xs = s.children n} (tree.visited n) i in
        Memᴰ.append_right (own_bindings s n)
          (gather-mem (λ x. collect_within s fuel x) i (collect_complete fuel b (omega arith) r e))

    Descendant-le : {n d : ℕ} → Descendant n d → d ≤ n
    Descendant-le here = omega arith
    Descendant-le {n} (below i r) =
        omega (arith, All-mem (λ x. x < n) {xs = s.children n} (tree.visited n) i, Descendant-le r)

    -- On a tree the traversal ends, and the environment of a program holds exactly the bindings that its nodes
    -- declare.
    pub create_type_alias_environment_iff :
        (root : ℕ) (b : TypeBinding)
        → Memᴰ b (create_type_alias_environment s root)
          ↔ ((d : ℕ) × Descendant root d × (declared_type_binding s d ≡ some b))
    unfolding create_type_alias_environment
    create_type_alias_environment_iff root b = (
      collect_sound (suc root) root b,
      λ (d, r, e). collect_complete (suc root) b (omega arith) r e,
    )

    declared_alias :
        (n a : ℕ) (b : TypeBinding) → declared_type_binding s n ≡ some b → b.alias ≡ some a → a ≡ n
    unfolding declared_type_binding
    declared_alias n a b h e = ground arith

    -- The declaration of a collected alias does not stand above the root.
    pub alias_le :
        (root a : ℕ) (b : TypeBinding)
        → Memᴰ b (create_type_alias_environment s root)
        → b.alias ≡ some a
        → a ≤ root
    alias_le root a b m e =
        let (d, r, q) = (create_type_alias_environment_iff root b).0 m in
        omega (arith, Descendant-le r, declared_alias d a b q e)
