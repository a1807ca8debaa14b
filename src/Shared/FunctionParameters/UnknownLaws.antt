-- ===== src/Shared/FunctionParameters/UnknownLaws.antt =====
-- `containsUnknownType` against the syntax of a type.
use zslay.Prelude.{
  All-mem, Bool, List, Memᴰ, any-of-mem, arith, mem-of-any, refl, subst, suc, true, zero, ℕ, ◌<◌,
  ◌↔◌, ◌≡◌,
}
use zslay.Ast.{
  IsBelow, IsTree, Node, SourceCode, fields, ts_keyword, ts_parenthesized_type, ts_union_type,
  ts_unknown_keyword,
}
use zslay.Shared.FunctionParameters.{contains_unknown_type, contains_unknown_within, unknown_in}

module _ (s : SourceCode) where
  -- `unknown` itself, in parentheses, or as a member of a union, at any depth
  pub data ContainsUnknown : ℕ → Type 0 where
    unknown : {t : ℕ} → s.node t ≡ ts_keyword ts_unknown_keyword → ContainsUnknown t
    in_parentheses :
        {t u : ℕ} → s.node t ≡ ts_parenthesized_type u → ContainsUnknown u → ContainsUnknown t
    in_union :
        {t u : ℕ} (ts : List ℕ)
        → s.node t ≡ ts_union_type ts
        → Memᴰ u ts
        → ContainsUnknown u
        → ContainsUnknown t

  unknown_in_sound :
      (rec : ℕ → Bool) (v : Node) (t : ℕ)
      → ((u : ℕ) → rec u ≡ true → ContainsUnknown u)
      → s.node t ≡ v
      → unknown_in s rec v ≡ true
      → ContainsUnknown t
  unknown_in_sound rec (ts_keyword ts_unknown_keyword) t ih e h = unknown e
  unknown_in_sound rec (ts_parenthesized_type u) t ih e h = in_parentheses e (ih u h)
  unknown_in_sound rec (ts_union_type ts) t ih e h =
      let (u, m, q) = mem-of-any rec ts h in in_union ts e m (ih u q)
  unknown_in_sound rec _ t ih e h = absurd (ground arith)

  ContainsUnknown-sound : (fuel t : ℕ) → contains_unknown_within s fuel t ≡ true → ContainsUnknown t
  unfolding contains_unknown_within
  ContainsUnknown-sound zero t h = absurd (ground arith)
  ContainsUnknown-sound (suc fuel) t h =
      unknown_in_sound (contains_unknown_within s fuel) (s.node t) t (ContainsUnknown-sound fuel)
        refl h

  module _ (tree : IsTree s) where
    field_below : (t u : ℕ) (v : Node) → s.node t ≡ v → Memᴰ u (fields v) → u < t
    field_below t u v e m =
        All-mem (λ c. c < t) {xs = fields v} (subst (IsBelow t) e (tree.below t)) m

    ContainsUnknown-complete :
        {t : ℕ} (fuel : ℕ) → t < fuel → ContainsUnknown t → contains_unknown_within s fuel t ≡ true
    unfolding contains_unknown_within
    ContainsUnknown-complete zero h k = absurd (omega arith)
    ContainsUnknown-complete (suc fuel) h (unknown e) = rw e
    ContainsUnknown-complete (suc fuel) h (in_parentheses {t} {u} e k) =
        let below = field_below t u (ts_parenthesized_type u) e (Memᴰ.head refl) in
        rw e (ContainsUnknown-complete fuel (omega arith) k)
    ContainsUnknown-complete (suc fuel) h (in_union {t} {u} ts e m k) =
        let below = field_below t u (ts_union_type ts) e m in
        rw e (
          any-of-mem (contains_unknown_within s fuel) m
            (ContainsUnknown-complete fuel (omega arith) k))

    -- On a tree the recursion ends, and answers `true` exactly for `unknown` itself and for parentheses and
    -- unions that hold it at some depth.
    pub contains_unknown_type_iff : (t : ℕ) → (contains_unknown_type s t ≡ true) ↔ ContainsUnknown t
    unfolding contains_unknown_type
    contains_unknown_type_iff t =
        (ContainsUnknown-sound (suc t) t, ContainsUnknown-complete (suc t) (omega arith))
