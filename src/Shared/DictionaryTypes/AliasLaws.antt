-- ===== src/Shared/DictionaryTypes/AliasLaws.antt =====
-- What the aliases of a program's environment are: declarations of the tree below its root. And programs in which
-- no alias has type parameters.
use zslay.Prelude.{
  List, Memᴰ, String, [], arith, eq_refl, has_name, length, refl, some, true, ℕ, ◌<◌, ◌∷◌, ◌≡◌,
}
use mathlib.Core.List.Memᴰ
use zslay.Ast.{IsBelow, IsTree, Node, SourceCode, ts_type_alias_declaration}
use zslay.Shared.TypeAlias.{
  Alias, TypeBinding, as_alias, create_type_alias_environment, visible_type_alias,
}
use zslay.Shared.TypeAlias.CollectLaws.{alias_le}
use zslay.Shared.TypeAlias.Resolve.{head_of}
use zslay.Shared.TypeAlias.Resolve.SmallerLaws.{visible_type_alias_from}
use zslay.Shared.DictionaryTypes.{Arguments, alias_substitution, set_arguments}

pub binding_names : List TypeBinding → List String
binding_names [] = []
binding_names (b ∷ bs) = b.name ∷ binding_names bs

pub length-binding_names : (bs : List TypeBinding) → length (binding_names bs) ≡ length bs
unfolding binding_names
length-binding_names [] = refl
length-binding_names (b ∷ bs) = omega (arith, length-binding_names bs)

has_name-binding_names :
    (b : TypeBinding) (bs : List TypeBinding)
    → Memᴰ b bs
    → has_name (binding_names bs) b.name ≡ true
unfolding binding_names
has_name-binding_names b [] m = absurd (Memᴰ.not-nil m)
has_name-binding_names b (c ∷ bs) (Memᴰ.head e) = rw (← e) (ground (arith, eq_refl b.name))
has_name-binding_names b (c ∷ bs) (Memᴰ.tail m) = ground (arith, has_name-binding_names b bs m)

pub mem-of_head_of : (xs : List ℕ) (x : ℕ) → head_of xs ≡ some x → Memᴰ x xs
mem-of_head_of [] x e = absurd (ground arith)
mem-of_head_of (y ∷ ys) x e = Memᴰ.head (ground arith)

pub alias_below :
    (v : Node) (n : ℕ) (alias : Alias)
    → IsBelow n v
    → as_alias v ≡ some alias
    → alias.type_annotation < n
alias_below (ts_type_alias_declaration i ps t) n alias b e = ground arith
alias_below _ n alias b e = absurd (ground arith)

module _ (s : SourceCode) where
  -- No alias of the environment has type parameters.
  abbrev pub IsMonomorphic : List TypeBinding → Type 0
  IsMonomorphic aliases =
      (b : TypeBinding) (a : ℕ) (alias : Alias)
      → Memᴰ b aliases
      → b.alias ≡ some a
      → as_alias (s.node a) ≡ some alias
      → alias.parameters ≡ []

  pub alias_substitution-no_parameters :
      (alias : Alias) (arguments : List ℕ) (base : Arguments)
      → alias.parameters ≡ []
      → alias_substitution s alias arguments base ≡ some base
  unfolding alias_substitution set_arguments
  alias_substitution-no_parameters alias arguments base e = rw (e, alias_substitution)

  -- A visible alias of a program without generic aliases: its name is one of the environment's, it takes no
  -- arguments, and its type stands below the root.
  pub visible_alias :
      IsTree s
      → (root u a : ℕ) (name : String) (alias : Alias)
      → IsMonomorphic (create_type_alias_environment s root)
      → visible_type_alias s (create_type_alias_environment s root) name u ≡ some a
      → as_alias (s.node a) ≡ some alias
      → (has_name (binding_names (create_type_alias_environment s root)) name ≡ true)
        × (alias.parameters ≡ [])
        × (alias.type_annotation < root)
  visible_alias tree root u a name alias mono h e =
      let (b, m, same, q) =
        visible_type_alias_from s (create_type_alias_environment s root) name u a h in
      let low = alias_le s tree root a b m q in
      let body = alias_below (s.node a) a alias (tree.below a) e in
      (
        rw same at (has_name-binding_names b (create_type_alias_environment s root) m),
        mono b a alias m q e,
        omega arith,
      )
