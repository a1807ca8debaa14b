-- ===== src/Tests/SafetyTests.antt =====
-- The rule on safety comments on a small program.
use zslay.Prelude.{
  Bool, List, [], codes, false, if◌then◌else◌, leb, none, refl, strip_prefix, trim, trim_end,
  trim_front, trim_start, true, ℕ, ◌&&◌, ◌=#◌, ◌||◌, ◌↔◌, ◌∷◌, ◌≡◌, ◌⊎◌,
}
use zslay.Ast.{
  Comment, SourceCode, expression_statement, identifier, program, report_with, ts_as_expression,
  ts_keyword, ts_string_keyword,
}
use zslay.Tests.Sample.{Entry, no_scope, source_of}
use zslay.Rules.Assertions.{
  MarkerOption, configured_safety_markers, has_safety_comment, has_safety_justification_before,
  is_const_assertion, justifies, marked_behind, marked_here, marker_array, marker_text, no_markers,
  other_marker, pattern_test, require_safety_comment, safety_from,
}
use zslay.Rules.Assertions.MarkerLaws.{BehindBoundary, StartsMarked, pattern_test_iff}

-- /* SAFETY: checked */ x as string;
abbrev asserted : List Entry
asserted =
    (identifier "x" none, 2 ∷ 3 ∷ 4 ∷ [])
    ∷ (ts_keyword ts_string_keyword, 2 ∷ 3 ∷ 4 ∷ [])
    ∷ (ts_as_expression 0 1, 3 ∷ 4 ∷ [])
    ∷ (expression_statement 2, 4 ∷ [])
    ∷ (program (3 ∷ []), [])
    ∷ []

abbrev plain_source : SourceCode
plain_source = source_of asserted [] no_scope

abbrev safety_comments : ℕ → List Comment
safety_comments n = if n =# 3 then record { value = " SAFETY: checked"; end = 1 } ∷ [] else []

abbrev commented_source : SourceCode
commented_source = record plain_source { get_comments_before = safety_comments }

abbrev is_ascii_letter : ℕ → Bool
is_ascii_letter c = (leb b'a' c && leb c b'z') || (leb b'A' c && leb c b'Z')

abbrev proven : MarkerOption
proven = marker_array (marker_text " PROVEN " ∷ other_marker ∷ [])

safety_run :
    (require_safety_comment is_ascii_letter commented_source no_markers 2 ≡ [])
    × (require_safety_comment is_ascii_letter plain_source no_markers 2
        ≡ report_with 2 "missingSafetyComment" (("marker", "SAFETY") ∷ []))
    × (require_safety_comment is_ascii_letter commented_source proven 2
        ≡ report_with 2 "missingSafetyComment" (("marker", "PROVEN") ∷ []))
    × (pattern_test is_ascii_letter ("SAFETY" ∷ []) (codes "UNSAFETY: no") ≡ false)
unfolding require_safety_comment has_safety_comment safety_from has_safety_justification_before
    pattern_test marked_here marked_behind justifies trim_start strip_prefix
    configured_safety_markers trim trim_end trim_front is_const_assertion
safety_run = (refl, refl, refl, refl)

pattern_test_example :
    (pattern_test is_ascii_letter ("SAFETY" ∷ []) (codes " SAFETY: checked") ≡ true) ↔ (
      StartsMarked is_ascii_letter ("SAFETY" ∷ []) (codes " SAFETY: checked")
      ⊎ BehindBoundary is_ascii_letter ("SAFETY" ∷ []) (codes " SAFETY: checked"))
pattern_test_example = pattern_test_iff is_ascii_letter ("SAFETY" ∷ []) (codes " SAFETY: checked")
