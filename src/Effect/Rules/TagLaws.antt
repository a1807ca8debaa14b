-- ===== src/Effect/Rules/TagLaws.antt =====
-- The two rules on manual `_tag` tests against the syntax of such a test.
use zslay.Prelude.{
  &&_iff, Bool-cases, List, List-cases, Option, Option-cases, String, [], arith, eq_iff, eq_refl,
  false, has_name, inl, inr, none, refl, some, true, ℕ, ◌&&◌, ◌++◌, ◌↔◌, ◌≡◌, ◌≢◌, ◌⊎◌,
}
use zslay.Ast.{
  Annotation, Node, SourceCode, as_identifier, as_identifier-eq-some, as_member, as_member-eq-some,
  as_string_literal, as_string_literal-eq-some, binary_expression, identifier, literal,
  member_expression, string_value, switch_statement,
}
use zslay.Effect.TaggedValues.{
  equality_operators, is_string_literal, is_tag_member, tag_member_from_comparison,
}
use zslay.Effect.Rules.{
  error_tag_in, no_manual_effect_error_tag, no_manual_tag_comparison, tag_comparison_in,
}

module _ (s : SourceCode) where
  -- `x._tag` and `x["_tag"]`
  pub data TagMember (n : ℕ) : Type 0 where
    dotted :
        (o p : ℕ) (t : Option Annotation)
        → s.node n ≡ member_expression o p false
        → s.node p ≡ identifier "_tag" t
        → TagMember n
    quoted :
        (o p : ℕ)
        → s.node n ≡ member_expression o p true
        → s.node p ≡ literal (string_value "_tag")
        → TagMember n

  -- A comparison of a `_tag` member with a string literal, either way round, or a `switch` on one.
  pub data TagTest (n : ℕ) : Type 0 where
    member_left :
        (o : String) (l r : ℕ) (value : String)
        → s.node n ≡ binary_expression o l r
        → has_name equality_operators o ≡ true
        → TagMember l
        → s.node r ≡ literal (string_value value)
        → TagTest n
    member_right :
        (o : String) (l r : ℕ) (value : String)
        → s.node n ≡ binary_expression o l r
        → has_name equality_operators o ≡ true
        → TagMember r
        → s.node l ≡ literal (string_value value)
        → TagTest n
    discriminant :
        (d : ℕ) (cases : List ℕ) → s.node n ≡ switch_statement d cases → TagMember d → TagTest n

  is_tag_member_sound : (n : ℕ) → is_tag_member s n ≡ true → TagMember n
  unfolding is_tag_member
  is_tag_member_sound n h = elim (Option-cases (as_member (s.node n))) [
    | inl e ↦ absurd (ground arith)
    | inr (m, e) ↦ elim (Bool-cases m.computed) [
      | inl c ↦ elim (Option-cases (as_string_literal (s.node m.property))) [
        | inl e' ↦ absurd (ground arith)
        | inr (value, e') ↦
            quoted m.object m.property (let q = as_member-eq-some (s.node n) m e in cc) (
              let q = as_string_literal-eq-some (s.node m.property) value e' in
              ground (arith, q, eq_iff value "_tag"))
      ]
      | inr c ↦ elim (Option-cases (as_identifier (s.node m.property))) [
        | inl e' ↦ absurd (ground arith)
        | inr (name, e') ↦
            let (t, q) = as_identifier-eq-some (s.node m.property) name e' in
            dotted m.object m.property t (let q' = as_member-eq-some (s.node n) m e in cc)
              (ground (arith, q, eq_iff name "_tag"))
      ]
    ]
  ]

  is_tag_member_complete : (n : ℕ) → TagMember n → is_tag_member s n ≡ true
  unfolding is_tag_member
  is_tag_member_complete n (dotted o p t e e') = ground (arith, eq_refl "_tag")
  is_tag_member_complete n (quoted o p e e') = ground (arith, eq_refl "_tag")

  -- A node is a `_tag` member for the code exactly when it is `x._tag` or `x["_tag"]`.
  pub is_tag_member_iff : (n : ℕ) → (is_tag_member s n ≡ true) ↔ TagMember n
  is_tag_member_iff n = (is_tag_member_sound n, is_tag_member_complete n)

  string_literal_of :
      (n : ℕ) → is_string_literal s n ≡ true → (v : String) × (s.node n ≡ literal (string_value v))
  string_literal_of n h = elim (Option-cases (as_string_literal (s.node n))) [
    | inl e ↦ absurd (ground arith)
    | inr (v, e) ↦ (v, as_string_literal-eq-some (s.node n) v e)
  ]

  -- A comparison is recognised exactly when it compares a `_tag` member with a string literal.
  comparison-TagTest :
      (n : ℕ) (o : String) (l r : ℕ)
      → s.node n ≡ binary_expression o l r
      → tag_member_from_comparison s (record { operator = o; left = l; right = r }) ≢ none
      → TagTest n
  unfolding tag_member_from_comparison
  comparison-TagTest n o l r e h = elim (Bool-cases (has_name equality_operators o)) [
    | inr q ↦ absurd (h (rw q))
    | inl q ↦ elim (Bool-cases (is_tag_member s l && is_string_literal s r)) [
      | inl left ↦
          let both = (&&_iff (is_tag_member s l) (is_string_literal s r)).0 left in
          let (v, lit) = string_literal_of r both.1 in
          member_left o l r v e q (is_tag_member_sound l both.0) lit
      | inr left ↦ elim (Bool-cases (is_tag_member s r && is_string_literal s l)) [
        | inr right ↦ absurd (h (rw (q, left, right)))
        | inl right ↦
            let both = (&&_iff (is_tag_member s r) (is_string_literal s l)).0 right in
            let (v, lit) = string_literal_of l both.1 in
            member_right o l r v e q (is_tag_member_sound r both.0) lit
      ]
    ]
  ]

  error_tag_reports : (n : ℕ) → no_manual_effect_error_tag s n ≢ [] → TagTest n
  unfolding no_manual_effect_error_tag
  error_tag_reports n = go (s.node n) refl
    where
      go : (v : Node) → s.node n ≡ v → error_tag_in s n v ≢ [] → TagTest n
      go (binary_expression o l r) e h =
          comparison-TagTest n o l r e (λ q. h (rw (q, error_tag_in)))
      go (switch_statement d cases) e h =
          discriminant d cases e (is_tag_member_sound d (ground arith))
      go _ e h = absurd (h refl)

  tag_comparison_reports : (n : ℕ) → no_manual_tag_comparison s n ≢ [] → TagTest n
  unfolding no_manual_tag_comparison
  tag_comparison_reports n = go (s.node n) refl
    where
      go : (v : Node) → s.node n ≡ v → tag_comparison_in s n v ≢ [] → TagTest n
      go (binary_expression o l r) e h =
          comparison-TagTest n o l r e (λ q. h (rw (q, tag_comparison_in)))
      go (switch_statement d cases) e h =
          discriminant d cases e (is_tag_member_sound d (ground arith))
      go _ e h = absurd (h refl)

  comparison_recognised :
      (o : String) (l r : ℕ) (value : String)
      → has_name equality_operators o ≡ true
      → ((TagMember l × (s.node r ≡ literal (string_value value)))
          ⊎ (TagMember r × (s.node l ≡ literal (string_value value))))
      → (m : ℕ) × (tag_member_from_comparison s (record { operator = o; left = l; right = r })
          ≡ some m)
  unfolding tag_member_from_comparison
  comparison_recognised o l r value q (inl (m, e)) =
      (l, let t = is_tag_member_complete l m in ground arith)
  comparison_recognised o l r value q (inr (m, e)) =
      elim (Bool-cases (is_tag_member s l && is_string_literal s r)) [
        | inl both ↦ (l, ground arith)
        | inr neither ↦ (r, let t = is_tag_member_complete r m in ground arith)
      ]

  reports_of_comparison :
      (n : ℕ) (o : String) (l r m : ℕ)
      → s.node n ≡ binary_expression o l r
      → tag_member_from_comparison s (record { operator = o; left = l; right = r }) ≡ some m
      → no_manual_effect_error_tag s n ++ no_manual_tag_comparison s n ≢ []
  unfolding no_manual_effect_error_tag no_manual_tag_comparison
  reports_of_comparison n o l r m e q =
      rw (e, error_tag_in, tag_comparison_in) (rw q (ground arith))

  TagTest-reports :
      (n : ℕ) → TagTest n → no_manual_effect_error_tag s n ++ no_manual_tag_comparison s n ≢ []
  unfolding no_manual_effect_error_tag no_manual_tag_comparison
  TagTest-reports n (member_left o l r value e q m v) =
      let (k, found) = comparison_recognised o l r value q (inl (m, v)) in
      reports_of_comparison n o l r k e found
  TagTest-reports n (member_right o l r value e q m v) =
      let (k, found) = comparison_recognised o l r value q (inr (m, v)) in
      reports_of_comparison n o l r k e found
  TagTest-reports n (discriminant d cases e m) =
      let t = is_tag_member_complete d m in
      rw (e, error_tag_in, tag_comparison_in) (rw t (ground arith))

  -- One of the two rules reports a node exactly when it is a manual test of a tag: an equality, either
  -- way round, of a `_tag` member with a string literal, or a `switch` on a `_tag` member.
  pub tag_rules_iff :
      (n : ℕ) → (no_manual_effect_error_tag s n ++ no_manual_tag_comparison s n ≢ []) ↔ TagTest n
  tag_rules_iff n = (
    λ h. elim (List-cases (no_manual_effect_error_tag s n)) [
      | inl e ↦ tag_comparison_reports n (λ q. h (rw (e, q)))
      | inr (x, xs, e) ↦ error_tag_reports n (λ q. cc)
    ],
    TagTest-reports n,
  )
