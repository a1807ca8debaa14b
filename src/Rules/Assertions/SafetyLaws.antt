-- ===== src/Rules/Assertions/SafetyLaws.antt =====
-- require-safety-comment-for-type-assertion against the places where a justification may stand.
use zslay.Prelude.{Bool, List, Memᴰ, String, codes, false, some, true, ℕ, ◌∷◌, ◌≡◌, ◌≤◌, ◌⊎◌}
use zslay.Ast.{Comment, SourceCode, export_named_declaration, is_program}
use zslay.Rules.Assertions.{comment_owner, has_safety_justification_before}
use zslay.Rules.Assertions.MarkerLaws.{BehindBoundary, StartsMarked}

module _ (is_letter_or_number : ℕ → Bool) (s : SourceCode) (markers : List String)
    (assertion : ℕ) where
  -- A comment directly before a node that ends before the assertion and carries a marker with its
  -- justification.
  pub data Comments (owner : ℕ) : Type 0 where
    comment :
        (c : Comment)
        → Memᴰ c (s.get_comments_before owner)
        → c.end ≤ s.start assertion
        → StartsMarked is_letter_or_number markers (codes c.value)
          ⊎ BehindBoundary is_letter_or_number markers (codes c.value)
        → Comments owner

  -- A justification for the assertion, from a node around it and the ancestors of that node: before the node
  -- itself, before the export of a statement, or farther out, but neither beyond a statement or a class
  -- property nor at the program.
  pub data JustifiedFrom : ℕ → List ℕ → Type 0 where
    before : {n : ℕ} {above : List ℕ} → Comments n → JustifiedFrom n above
    before_export :
        {n p : ℕ} {above : List ℕ}
        → comment_owner (s.node n) ≡ true
        → s.node p ≡ export_named_declaration (some n)
        → Comments p
        → JustifiedFrom n (p ∷ above)
    outward :
        {n p : ℕ} {above : List ℕ}
        → comment_owner (s.node n) ≡ false
        → is_program (s.node p) ≡ false
        → JustifiedFrom p above
        → JustifiedFrom n (p ∷ above)

  abbrev has_before : ℕ → Bool
  has_before owner = has_safety_justification_before is_letter_or_number s markers assertion owner
