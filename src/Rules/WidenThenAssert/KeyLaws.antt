-- ===== src/Rules/WidenThenAssert/KeyLaws.antt =====
-- The keys of a broad record in rules/no-widen-then-assert.ts.
use zslay.Prelude.{
  All-mem, Bool, List, Memᴰ, Option-cases, String, all-of-mem, arith, eq_iff, eq_refl, false, inl,
  inr, mem-of-all, none, refl, some, subst, suc, sym, true, zero, ℕ, ◌<◌, ◌↔◌, ◌∙◌, ◌≡◌, ◌≤◌,
}
use zslay.Ast.{
  IsBelow, IsTree, Node, SourceCode, as_identifier, fields, ts_any_keyword, ts_keyword,
  ts_number_keyword, ts_string_keyword, ts_symbol_keyword, ts_type_reference, ts_union_type,
  ts_unknown_keyword, walk_le,
}
use zslay.Rules.WidenThenAssert.{
  is_broad_record_key_type, reference_is_named, is_top, is_unknown_or_any_type, key_in,
  parenthesized_type, record_key_within, unwrap_type_parentheses,
}

pub parenthesized_type_below :
    (v : Node) (n m : ℕ) → IsBelow n v → parenthesized_type v ≡ some m → m < n
parenthesized_type_below _ n m b h = ground arith

module _ (s : SourceCode) where
  -- Names are compared as `typeReferenceName` gives them.
  abbrev pub IsNamed : ℕ → String → Type 0
  IsNamed n name = as_identifier (s.node n) ≡ some name

  -- The node of a type inside its parentheses.
  abbrev pub bare : ℕ → Node
  bare t = s.node (unwrap_type_parentheses s t)

  pub data Top (t : ℕ) : Type 0 where
    is_unknown : bare t ≡ ts_keyword ts_unknown_keyword → Top t
    is_any : bare t ≡ ts_keyword ts_any_keyword → Top t

  -- `string`, `number`, `symbol`, `PropertyKey`, or a union of such keys.
  pub data BroadKey : ℕ → Type 0 where
    string_key : {t : ℕ} → bare t ≡ ts_keyword ts_string_keyword → BroadKey t
    number_key : {t : ℕ} → bare t ≡ ts_keyword ts_number_keyword → BroadKey t
    symbol_key : {t : ℕ} → bare t ≡ ts_keyword ts_symbol_keyword → BroadKey t
    union_key :
        {t : ℕ} (ts : List ℕ)
        → bare t ≡ ts_union_type ts
        → ((k : ℕ) → Memᴰ k ts → BroadKey k)
        → BroadKey t
    property_key :
        {t n : ℕ} {ts : List ℕ}
        → bare t ≡ ts_type_reference n ts
        → IsNamed n "PropertyKey"
        → BroadKey t

  pub top_iff : (t : ℕ) → (is_unknown_or_any_type s t ≡ true) ↔ Top t
  unfolding is_unknown_or_any_type
  top_iff t = (λ h. sound (bare t) refl h, complete)
    where
      sound : (v : Node) → bare t ≡ v → is_top v ≡ true → Top t
      sound (ts_keyword ts_unknown_keyword) e h = is_unknown e
      sound (ts_keyword ts_any_keyword) e h = is_any e
      sound _ e h = absurd (ground arith)

      complete : Top t → is_top (bare t) ≡ true
      complete (is_unknown e) = rw e refl
      complete (is_any e) = rw e refl

  pub IsNamed-iff : (n : ℕ) (name : String) → (reference_is_named s n name ≡ true) ↔ IsNamed n name
  IsNamed-iff n name = elim (Option-cases (as_identifier (s.node n))) [
    | inl e ↦ (
      λ h. absurd (let c : false ≡ true = rw (e, reference_is_named) at h in ground arith),
      λ h. absurd (let c : none ≡ some name = sym e ∙ h in ground arith),
    )
    | inr (x, e) ↦ (
      λ h. rw ((eq_iff x name).0 (rw (e, reference_is_named) at h)) at e,
      λ h. rw (h, reference_is_named) (eq_refl name),
    )
  ]

  key_in_sound :
      (rec : ℕ → Bool) (t : ℕ) (v : Node)
      → ((k : ℕ) → rec k ≡ true → BroadKey k)
      → bare t ≡ v
      → key_in s rec v ≡ true
      → BroadKey t
  key_in_sound rec t (ts_keyword ts_string_keyword) ih e h = string_key e
  key_in_sound rec t (ts_keyword ts_number_keyword) ih e h = number_key e
  key_in_sound rec t (ts_keyword ts_symbol_keyword) ih e h = symbol_key e
  key_in_sound rec t (ts_union_type ts) ih e h =
      union_key ts e (λ k m. ih k (mem-of-all rec ts h k m))
  key_in_sound rec t (ts_type_reference n ts) ih e h =
      property_key e ((IsNamed-iff n "PropertyKey").0 h)
  key_in_sound rec t _ ih e h = absurd (ground arith)

  key_within_sound : (fuel t : ℕ) → record_key_within s fuel t ≡ true → BroadKey t
  unfolding record_key_within
  key_within_sound zero t h = absurd (ground arith)
  key_within_sound (suc fuel) t h =
      key_in_sound (record_key_within s fuel) t (bare t) (key_within_sound fuel) refl h

  module _ (tree : IsTree s) where
    pub bare_le : (t : ℕ) → unwrap_type_parentheses s t ≤ t
    unfolding unwrap_type_parentheses
    bare_le t = walk_le _ (λ k m h. parenthesized_type_below (s.node k) k m (tree.below k) h) t

    pub field_below : (t k : ℕ) (v : Node) → bare t ≡ v → Memᴰ k (fields v) → k < t
    field_below t k v e m =
        let low =
          All-mem (λ c. c < unwrap_type_parentheses s t) {xs = fields v}
            (subst (IsBelow (unwrap_type_parentheses s t)) e
              (tree.below (unwrap_type_parentheses s t)))
            m in
        omega (arith, bare_le t, low)

    key_within_complete :
        {t : ℕ} (fuel : ℕ) → t < fuel → BroadKey t → record_key_within s fuel t ≡ true
    unfolding record_key_within
    key_within_complete zero h k = absurd (omega arith)
    key_within_complete (suc fuel) h (string_key e) = rw e refl
    key_within_complete (suc fuel) h (number_key e) = rw e refl
    key_within_complete (suc fuel) h (symbol_key e) = rw e refl
    key_within_complete (suc fuel) h (property_key {n} e q) =
        rw e ((IsNamed-iff n "PropertyKey").1 q)
    key_within_complete (suc fuel) h (union_key {t} ts e ks) = rw e (
        all-of-mem (record_key_within s fuel) ts (λ k m.
          key_within_complete fuel (omega (arith, field_below t k (ts_union_type ts) e m))
            (ks k m)))

    pub key_iff : (t : ℕ) → (is_broad_record_key_type s t ≡ true) ↔ BroadKey t
    unfolding is_broad_record_key_type
    key_iff t = (key_within_sound (suc t) t, key_within_complete (suc t) (omega arith))
