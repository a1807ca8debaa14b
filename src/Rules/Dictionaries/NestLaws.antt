-- ===== src/Rules/Dictionaries/NestLaws.antt =====
-- no-unsafe-dictionary-type reports the outermost unsafe dictionaries.
use zslay.Prelude.{
  Bool-cases, List, Option, Option-cases, [], arith, false, inl, inr, is_some, none, refl, some,
  sym, true, ℕ, ◌>>=◌, ◌∙◌, ◌∷◌, ◌≡◌, ◌≢◌,
}
use zslay.Ast.{Report, SourceCode, is_program}
use zslay.Shared.DictionaryTypes.{TypeEnvironment}
use zslay.Shared.DictionaryTypes.UnsafeValues.{UnsafeValue, classify_unsafe_dictionary}
use zslay.Rules.Dictionaries.{
  is_inside_type_parameter_constraint, is_plain_alias_consumer_use, is_type_node, is_unsafe_type,
  outermost_unsafe, report_if_unsafe, should_report_type, unsafe_report,
}

some_report : {r : Report} {rs : List Report} → some [] ≡ some (r ∷ rs) → ⊥
some_report h = ground arith

report_eq : (xs ys : List Report) → some xs ≡ some ys → xs ≡ ys
report_eq xs ys h = ground arith

none_report : {r : Report} {rs : List Report} → none ≡ some (r ∷ rs) → ⊥
none_report h = ground arith

module _ (s : SourceCode) (fuel : ℕ) where
  -- A node of a chain of ancestors, below the program.
  pub data Inside (n : ℕ) : List ℕ → Type 0 where
    here : {above : List ℕ} → is_program (s.node n) ≡ false → Inside n (n ∷ above)
    further :
        {p : ℕ} {above : List ℕ}
        → is_program (s.node p) ≡ false
        → Inside n above
        → Inside n (p ∷ above)

  module _ (environment : TypeEnvironment) where
    -- A type that is no unsafe dictionary, or a node that is no type.
    abbrev pub Harmless : ℕ → Type 0
    Harmless k =
        is_type_node (s.node k) ≡ true → classify_unsafe_dictionary s environment fuel k ≡ some none

    Harmless-sound : (k : ℕ) → is_unsafe_type s fuel environment k ≡ some false → Harmless k
    unfolding is_unsafe_type
    Harmless-sound k h e =
        go (classify_unsafe_dictionary s environment fuel k) refl (rw (e, is_unsafe_type) at h)
      where
        go :
            (o : Option (Option UnsafeValue))
            → classify_unsafe_dictionary s environment fuel k ≡ o
            → (do unsafe ← o; some (is_some unsafe)) ≡ some false
            → classify_unsafe_dictionary s environment fuel k ≡ some none
        go none q h = absurd (ground arith)
        go (some none) q h = q
        go (some (some v)) q h = absurd (ground arith)

    outermost_step :
        (p : ℕ) (above : List ℕ)
        → is_program (s.node p) ≡ false
        → outermost_unsafe s fuel environment (p ∷ above) ≡ some true
        → (is_unsafe_type s fuel environment p ≡ some false)
          × (outermost_unsafe s fuel environment above ≡ some true)
    unfolding outermost_unsafe
    outermost_step p above e h = elim (Option-cases (is_unsafe_type s fuel environment p)) [
      | inl q ↦ let c : none ≡ some true = rw q at (rw e at h) in absurd (ground arith)
      | inr (b, q) ↦ elim (Bool-cases b) [
        | inl y ↦
            let c : some false ≡ some true = rw y at (rw q at (rw e at h)) in absurd (ground arith)
        | inr y ↦ (rw (← y) q, rw y at (rw q at (rw e at h)))
      ]
    ]

    outermost_sound :
        (k : ℕ) (path : List ℕ)
        → outermost_unsafe s fuel environment path ≡ some true
        → Inside k path
        → is_unsafe_type s fuel environment k ≡ some false
    unfolding outermost_unsafe
    outermost_sound k path h (here {above} e) = (outermost_step k above e h).0
    outermost_sound k path h (further {p} {above} e i) =
        outermost_sound k above (outermost_step p above e h).1 i

    -- What a report says of its type.
    pub record ReportedType (n : ℕ) (v : UnsafeValue) : Type 0 where
      pub unsafe : classify_unsafe_dictionary s environment fuel n ≡ some (some v)
      pub no_constraint : is_inside_type_parameter_constraint s n ≡ false
      pub no_alias_use : is_plain_alias_consumer_use s environment n ≡ false
      pub outermost : (k : ℕ) → Inside k (s.ancestors n) → Harmless k

    classified :
        (n : ℕ) (r : Report) (rs : List Report) (v : UnsafeValue)
        → classify_unsafe_dictionary s environment fuel n ≡ some (some v)
        → is_inside_type_parameter_constraint s n ≡ false
        → is_plain_alias_consumer_use s environment n ≡ false
        → report_if_unsafe s fuel environment n ≡ some (r ∷ rs)
        → ReportedType n v × (unsafe_report n (some v) ≡ r ∷ rs)
    unfolding report_if_unsafe should_report_type
    classified n r rs v q e a h =
        let after = rw q at (rw a at (rw (e, report_if_unsafe, should_report_type) at h)) in
        elim (Option-cases (outermost_unsafe s fuel environment (s.ancestors n))) [
          | inl o ↦ absurd (none_report (rw o at after))
          | inr (true, o) ↦ (
            record {
              unsafe = q;
              no_constraint = e;
              no_alias_use = a;
              outermost = λ k i. Harmless-sound k (outermost_sound k (s.ancestors n) o i);
            },
            report_eq (unsafe_report n (some v)) (r ∷ rs) (rw o at after),
          )
          | inr (false, o) ↦ absurd (some_report (rw o at after))
        ]

    ReportedType-sound :
        (n : ℕ) (r : Report) (rs : List Report)
        → report_if_unsafe s fuel environment n ≡ some (r ∷ rs)
        → (v : UnsafeValue) × ReportedType n v × (unsafe_report n (some v) ≡ r ∷ rs)
    unfolding report_if_unsafe should_report_type
    ReportedType-sound n r rs h = elim (Bool-cases (is_inside_type_parameter_constraint s n)) [
      | inl e ↦ absurd (some_report (rw (e, report_if_unsafe, should_report_type) at h))
      | inr e ↦ elim (Bool-cases (is_plain_alias_consumer_use s environment n)) [
        | inl a ↦ absurd (some_report (rw a at (rw (e, report_if_unsafe, should_report_type) at h)))
        | inr a ↦
            let after = rw a at (rw (e, report_if_unsafe, should_report_type) at h) in
            elim (Option-cases (classify_unsafe_dictionary s environment fuel n)) [
              | inl q ↦ absurd (none_report (rw q at after))
              | inr (w, q) ↦ elim (Option-cases w) [
                | inl z ↦ absurd (some_report (rw z at (rw q at after)))
                | inr (v, z) ↦
                    let (reported, same) = classified n r rs v (rw (← z) q) e a h in
                    (v, reported, same)
              ]
            ]
      ]
    ]

    -- Inside a type that classifies as an unsafe dictionary, the handler reports no type.
    pub no_report_within :
        (n m : ℕ) (v : UnsafeValue) (q : Report) (qs : List Report)
        → is_type_node (s.node n) ≡ true
        → classify_unsafe_dictionary s environment fuel n ≡ some (some v)
        → Inside n (s.ancestors m)
        → report_if_unsafe s fuel environment m ≢ some (q ∷ qs)
    no_report_within n m v q qs d e i k =
        let (w, inner, _) = ReportedType-sound m q qs k in never v (sym e ∙ inner.outermost n i d)
      where
        never : (v : UnsafeValue) → some (some v) ≡ some none → ⊥
        never v h = ground arith
