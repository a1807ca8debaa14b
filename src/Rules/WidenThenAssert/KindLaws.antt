-- ===== src/Rules/WidenThenAssert/KindLaws.antt =====
-- `broadTypeKind` of rules/no-widen-then-assert.ts against the syntax of a type.
use zslay.Prelude.{
  &&_iff, Bool, Bool-cases, List, Memᴰ, Option, Option-cases, [], ap, arith, false, inl, inr, refl,
  some, suc, sym, true, zero, ℕ, ◌&&◌, ◌<◌, ◌↔◌, ◌∙◌, ◌∷◌, ◌≡◌,
}
use zslay.Ast.{
  IsTree, Node, SourceCode, Steps-unique, stop, ts_any_keyword, ts_keyword, ts_object_keyword,
  ts_type_literal, ts_type_reference, ts_unknown_keyword, walk, walk-Steps, walk_ends,
}
use zslay.Rules.WidenThenAssert.{
  BroadTypeKind, broad_arguments, broad_record_within, broad_type_kind, index_signature_types,
  is_broad_record_key_type, is_broad_record_type, reference_is_named, is_unknown_or_any_type,
  kind_of_node, object_kind, parenthesized_type, record_in, record_kind, top_kind,
  unwrap_type_parentheses,
}
use zslay.Rules.WidenThenAssert.KeyLaws.{
  is_unknown, is_any, BroadKey, IsNamed, Top, bare, field_below, key_iff, IsNamed-iff,
  parenthesized_type_below, top_iff,
}

module _ (s : SourceCode) where
  -- `Record<K, V>` or `{ [key: K]: V }` with a broad key and top values, also behind `Readonly`.
  pub data BroadRecord : ℕ → Type 0 where
    behind_readonly :
        {t n k : ℕ} {ts : List ℕ}
        → bare s t ≡ ts_type_reference n (k ∷ ts)
        → IsNamed s n "Readonly"
        → BroadRecord k
        → BroadRecord t
    record_type :
        {t n k v : ℕ}
        → bare s t ≡ ts_type_reference n (k ∷ v ∷ [])
        → IsNamed s n "Record"
        → BroadKey s k
        → Top s v
        → BroadRecord t
    index_type :
        {t m k v : ℕ}
        → bare s t ≡ ts_type_literal (m ∷ [])
        → index_signature_types s (s.node m) ≡ some (k, v)
        → BroadKey s k
        → Top s v
        → BroadRecord t

  abbrev pub Broad : ℕ → BroadTypeKind → Type 0
  Broad t top_kind = Top s t
  Broad t object_kind = bare s t ≡ ts_keyword ts_object_keyword
  Broad t record_kind = BroadRecord t

  pair_iff :
      (k v : ℕ)
      → IsTree s
      → ((is_broad_record_key_type s k && is_unknown_or_any_type s v) ≡ true)
        ↔ (BroadKey s k × Top s v)
  pair_iff k v tree = (
    λ h.
        let (a, b) = (&&_iff (is_broad_record_key_type s k) _).0 h in
        ((key_iff s tree k).0 a, (top_iff s v).0 b),
    λ (a, b). (&&_iff _ _).1 ((key_iff s tree k).1 a, (top_iff s v).1 b),
  )

  module _ (tree : IsTree s) where
    record_sound :
        (t n k : ℕ) (ts : List ℕ)
        → bare s t ≡ ts_type_reference n (k ∷ ts)
        → IsNamed s n "Record"
        → broad_arguments s (k ∷ ts) ≡ true
        → BroadRecord t
    record_sound t n k [] e name h = absurd (ground arith)
    record_sound t n k (v ∷ []) e name h =
        let (a, b) = (pair_iff k v tree).0 h in record_type e name a b
    record_sound t n k (v ∷ w ∷ ts) e name h = absurd (ground arith)

    record_in_sound :
        (rec : ℕ → Bool) (t : ℕ) (v : Node)
        → ((k : ℕ) → rec k ≡ true → BroadRecord k)
        → bare s t ≡ v
        → record_in s rec v ≡ true
        → BroadRecord t
    record_in_sound rec t (ts_type_reference n []) ih e h = absurd (ground arith)
    record_in_sound rec t (ts_type_reference n (k ∷ ts)) ih e h =
        elim (Bool-cases (reference_is_named s n "Readonly")) [
          | inl q ↦
              behind_readonly e ((IsNamed-iff s n "Readonly").0 q) (ih k (rw (q, record_in) at h))
          | inr q ↦
              let (a, b) =
                (&&_iff (reference_is_named s n "Record") _).0 (rw (q, record_in) at h) in
              record_sound t n k ts e ((IsNamed-iff s n "Record").0 a) b
        ]
    record_in_sound rec t (ts_type_literal []) ih e h = absurd (ground arith)
    record_in_sound rec t (ts_type_literal (m ∷ [])) ih e h =
        elim (Option-cases (index_signature_types s (s.node m))) [
          | inl q ↦ absurd (let c : false ≡ true = rw (q, record_in) at h in ground arith)
          | inr ((k, v), q) ↦
              let (a, b) = (pair_iff k v tree).0 (rw (q, record_in) at h) in index_type e q a b
        ]
    record_in_sound rec t (ts_type_literal (m ∷ o ∷ ms)) ih e h = absurd (ground arith)
    record_in_sound rec t _ ih e h = absurd (ground arith)

    record_within_sound : (fuel t : ℕ) → broad_record_within s fuel t ≡ true → BroadRecord t
    unfolding broad_record_within
    record_within_sound zero t h = absurd (ground arith)
    record_within_sound (suc fuel) t h =
        record_in_sound (broad_record_within s fuel) t (bare s t) (record_within_sound fuel) refl h

    not_readonly : (n : ℕ) → IsNamed s n "Record" → reference_is_named s n "Readonly" ≡ false
    not_readonly n e = rw (e, reference_is_named) refl

    record_within_complete :
        {t : ℕ} (fuel : ℕ) → t < fuel → BroadRecord t → broad_record_within s fuel t ≡ true
    unfolding broad_record_within
    record_within_complete zero h r = absurd (omega arith)
    record_within_complete (suc fuel) h (behind_readonly {t} {n} {k} {ts} e name r) = rw e (
        rw ((IsNamed-iff s n "Readonly").1 name) (
          record_within_complete fuel
            (omega (
              arith,
              field_below s tree t k (ts_type_reference n (k ∷ ts)) e (Memᴰ.tail (Memᴰ.head refl)),
            ))
            r))
    record_within_complete (suc fuel) h (record_type {n} {k} {v} e name a b) = rw e (
        rw (not_readonly n name)
          ((&&_iff _ _).1 ((IsNamed-iff s n "Record").1 name, (pair_iff k v tree).1 (a, b))))
    record_within_complete (suc fuel) h (index_type {k} {v} e q a b) =
        rw e (rw q ((pair_iff k v tree).1 (a, b)))

    record_iff : (t : ℕ) → (is_broad_record_type s t ≡ true) ↔ BroadRecord t
    unfolding is_broad_record_type
    record_iff t = (record_within_sound (suc t) t, record_within_complete (suc t) (omega arith))

    unwrapped_twice :
        (t : ℕ)
        → unwrap_type_parentheses s (unwrap_type_parentheses s t) ≡ unwrap_type_parentheses s t
    unfolding unwrap_type_parentheses
    unwrapped_twice t =
        Steps-unique (walk-Steps step down u) stop (walk_ends step down u) (walk_ends step down t)
      where
        step : ℕ → Option ℕ
        step k = parenthesized_type (s.node k)

        u : ℕ
        u = walk step t

        down : (n m : ℕ) → step n ≡ some m → m < n
        down n m h = parenthesized_type_below (s.node n) n m (tree.below n) h

    record_at : {u : ℕ} (t : ℕ) → bare s u ≡ bare s t → BroadRecord u → BroadRecord t
    record_at t e (behind_readonly q name r) = behind_readonly (sym e ∙ q) name r
    record_at t e (record_type q name a b) = record_type (sym e ∙ q) name a b
    record_at t e (index_type q i a b) = index_type (sym e ∙ q) i a b

    inner_record_iff :
        (t : ℕ) → (is_broad_record_type s (unwrap_type_parentheses s t) ≡ true) ↔ BroadRecord t
    inner_record_iff t =
        let same = ap (λ k. s.node k) (unwrapped_twice t) in
        let iff = record_iff (unwrap_type_parentheses s t) in
        (
          λ h. record_at t same (iff.0 h),
          λ r. iff.1 (record_at (unwrap_type_parentheses s t) (sym same) r),
        )

    kind_sound :
        (t : ℕ) (v : Node) (k : BroadTypeKind)
        → bare s t ≡ v
        → kind_of_node s (unwrap_type_parentheses s t) v ≡ some k
        → Broad t k
    kind_sound t (ts_keyword ts_unknown_keyword) top_kind e h = is_unknown e
    kind_sound t (ts_keyword ts_unknown_keyword) object_kind e h = absurd (ground arith)
    kind_sound t (ts_keyword ts_unknown_keyword) record_kind e h = absurd (ground arith)
    kind_sound t (ts_keyword ts_any_keyword) top_kind e h = is_any e
    kind_sound t (ts_keyword ts_any_keyword) object_kind e h = absurd (ground arith)
    kind_sound t (ts_keyword ts_any_keyword) record_kind e h = absurd (ground arith)
    kind_sound t (ts_keyword ts_object_keyword) object_kind e h = e
    kind_sound t (ts_keyword ts_object_keyword) top_kind e h = absurd (ground arith)
    kind_sound t (ts_keyword ts_object_keyword) record_kind e h = absurd (ground arith)
    kind_sound t _ top_kind e h = absurd (ground arith)
    kind_sound t _ object_kind e h = absurd (ground arith)
    kind_sound t _ record_kind e h = (inner_record_iff t).0 (ground arith)

    kind_complete :
        (t : ℕ) (k : BroadTypeKind)
        → Broad t k
        → kind_of_node s (unwrap_type_parentheses s t) (bare s t) ≡ some k
    kind_complete t top_kind (is_unknown e) = rw (e, kind_of_node) refl
    kind_complete t top_kind (is_any e) = rw (e, kind_of_node) refl
    kind_complete t object_kind e = rw (e, kind_of_node) refl
    kind_complete t record_kind r = go (bare s t) r refl ((inner_record_iff t).1 r)
      where
        go :
            (v : Node)
            → BroadRecord t
            → bare s t ≡ v
            → is_broad_record_type s (unwrap_type_parentheses s t) ≡ true
            → kind_of_node s (unwrap_type_parentheses s t) v ≡ some record_kind
        go v (behind_readonly q name r') e h = rw (sym e ∙ q, kind_of_node) (rw h refl)
        go v (record_type q name a b) e h = rw (sym e ∙ q, kind_of_node) (rw h refl)
        go v (index_type q i a b) e h = rw (sym e ∙ q, kind_of_node) (rw h refl)

    -- On a tree the classification of a broad type ends, and is exactly this, parentheses aside: `unknown` and `any`
    -- are top, `object` is an object, and a record is `Record<K, V>`, `{ [key: K]: V }`, or one of these behind
    -- `Readonly`, with a top `V` and a `K` of `string`, `number`, `symbol`, `PropertyKey` and unions of them.
    pub broad_type_kind_iff :
        (t : ℕ) (k : BroadTypeKind) → (broad_type_kind s t ≡ some k) ↔ Broad t k
    unfolding broad_type_kind
    broad_type_kind_iff t k = (kind_sound t (bare s t) k refl, kind_complete t k)
