-- ===== src/Rules/Assertions/MarkerLaws.antt =====
-- `markerPattern` of require-safety-comment-for-type-assertion against what the regular expression says.
use zslay.Prelude.{
  &&_iff, =#_iff, All, Bool, Bool-cases, List, List-cases, Memᴰ, Option-cases, String, [],
  any-of-mem, arith, codes, false, inl, inr, is_space, mem-of-any, refl, strip_prefix,
  strip_prefix-append, strip_prefix_sound, trim_start, true, ||_iff, ℕ, ◌++◌, ◌=#◌, ◌↔◌, ◌∷◌, ◌≡◌,
  ◌⊎◌,
}
use zslay.Rules.Assertions.{
  behind, is_boundary, justifies, marked_behind, marked_here, pattern_test,
}

-- `\s*`
abbrev pub Spaces : List ℕ → Type 0
Spaces text = All (λ c. is_space c ≡ true) text

heads_eq : (c d : ℕ) (xs ys : List ℕ) → c ∷ xs ≡ d ∷ ys → c ≡ d
heads_eq c d xs ys h = ground arith

trim_start_sound :
    (text : List ℕ) (c : ℕ) (rest : List ℕ)
    → trim_start text ≡ c ∷ rest
    → (spaces : List ℕ) × Spaces spaces × (text ≡ spaces ++ (c ∷ rest)) × (is_space c ≡ false)
unfolding trim_start
trim_start_sound [] c rest h = absurd (ground arith)
trim_start_sound (d ∷ text) c rest h = elim (Bool-cases (is_space d)) [
  | inl e ↦
      let (spaces, all_spaces, q, no_space) =
        trim_start_sound text c rest (rw (e, trim_start) at h) in
      (d ∷ spaces, (e, all_spaces), rw (← q) refl, no_space)
  | inr e ↦
      let same : d ∷ text ≡ c ∷ rest = rw (e, trim_start) at h in
      ([], tt, same, rw (heads_eq d c text rest same) at e)
]

trim_start_complete :
    (spaces : List ℕ) (c : ℕ) (rest : List ℕ)
    → Spaces spaces
    → is_space c ≡ false
    → trim_start (spaces ++ (c ∷ rest)) ≡ c ∷ rest
unfolding trim_start
trim_start_complete [] c rest h e = rw (e, trim_start) refl
trim_start_complete (d ∷ spaces) c rest h e =
    rw (h.0, trim_start) (trim_start_complete spaces c rest h.1 e)

-- `\s*:\s*\S` and the rest of the text
pub data Justified : List ℕ → Type 0 where
  justified :
      {text : List ℕ} (before after rest : List ℕ) (c : ℕ)
      → Spaces before
      → Spaces after
      → is_space c ≡ false
      → text ≡ before ++ (b':' ∷ (after ++ (c ∷ rest)))
      → Justified text

Justified-sound : (text : List ℕ) → justifies text ≡ true → Justified text
unfolding justifies
Justified-sound text h = elim (List-cases (trim_start text)) [
  | inl e ↦ let c : false ≡ true = rw (e, justifies) at h in absurd (ground arith)
  | inr (c, more, e) ↦
      let (a, b) = (&&_iff (c =# b':') _).0 (rw (e, justifies) at h) in
      elim (List-cases (trim_start more)) [
        | inl q ↦ let c : false ≡ true = rw q at b in absurd (ground arith)
        | inr (x, rest, q) ↦
            let (before, all_before, r, _) = trim_start_sound text c more e in
            let (after, all_after, r', no_space) = trim_start_sound more x rest q in
            justified before after rest x all_before all_after no_space
              (rw (← (=#_iff c b':').0 a, ← r') r)
      ]
]

Justified-complete : (text : List ℕ) → Justified text → justifies text ≡ true
unfolding justifies
Justified-complete text (justified before after rest c p q e same) =
    rw (same, trim_start_complete before b':' (after ++ (c ∷ rest)) p refl, justifies)
      (rw (trim_start_complete after c rest q e) refl)

module _ (is_letter_or_number : ℕ → Bool) where
  -- A marker of the list at the start of a text, with its justification.
  pub data StartsMarked (markers : List String) (text : List ℕ) : Type 0 where
    at_start :
        (m : String) (rest : List ℕ)
        → Memᴰ m markers
        → text ≡ codes m ++ rest
        → Justified rest
        → StartsMarked markers text

  -- The same behind a code that is no letter, no digit and no `_`.
  pub data BehindBoundary (markers : List String) (text : List ℕ) : Type 0 where
    behind_boundary :
        (front : List ℕ) (b : ℕ) (rest : List ℕ)
        → is_boundary is_letter_or_number b ≡ true
        → text ≡ front ++ (b ∷ rest)
        → StartsMarked markers rest
        → BehindBoundary markers text

  here_sound :
      (markers : List String) (text : List ℕ)
      → marked_here is_letter_or_number markers text ≡ true
      → StartsMarked markers text
  unfolding marked_here
  here_sound markers text h =
      let (m, i, q) = mem-of-any (λ k. behind (strip_prefix (codes k) text)) markers h in
      elim (Option-cases (strip_prefix (codes m) text)) [
        | inl e ↦ let c : false ≡ true = rw e at q in absurd (ground arith)
        | inr (rest, e) ↦
            at_start m rest i (strip_prefix_sound (codes m) text rest e)
              (Justified-sound rest (rw e at q))
      ]

  here_complete :
      (markers : List String) (text : List ℕ)
      → StartsMarked markers text
      → marked_here is_letter_or_number markers text ≡ true
  unfolding marked_here
  here_complete markers text (at_start m rest i e j) =
      any-of-mem (λ k. behind (strip_prefix (codes k) text)) i
        (rw (e, strip_prefix-append (codes m) rest) (Justified-complete rest j))

  behind_sound :
      (markers : List String) (text : List ℕ)
      → marked_behind is_letter_or_number markers text ≡ true
      → BehindBoundary markers text
  unfolding marked_behind
  behind_sound markers [] h = absurd (ground arith)
  behind_sound markers (c ∷ text) h = elim ((||_iff _ _).0 h) [
    | inl q ↦
        let (b, k) = (&&_iff (is_boundary is_letter_or_number c) _).0 q in
        behind_boundary [] c text b refl (here_sound markers text k)
    | inr q ↦ later (behind_sound markers text q)
  ]
    where
      later : BehindBoundary markers text → BehindBoundary markers (c ∷ text)
      later (behind_boundary front b rest e q j) =
          behind_boundary (c ∷ front) b rest e (rw (← q) refl) j

  behind_complete :
      (markers : List String) (front : List ℕ) (b : ℕ) (rest : List ℕ)
      → is_boundary is_letter_or_number b ≡ true
      → StartsMarked markers rest
      → marked_behind is_letter_or_number markers (front ++ (b ∷ rest)) ≡ true
  unfolding marked_behind
  behind_complete markers [] b rest e j =
      rw (e, marked_behind) (rw (here_complete markers rest j) refl)
  behind_complete markers (c ∷ front) b rest e j =
      let later = behind_complete markers front b rest e j in
      rw (later, marked_behind) (ground arith)

  -- The pattern of the markers matches a text exactly when one of them stands at its start, or behind a code
  -- that is no letter, no digit and no `_`, and spaces, a colon, spaces and something else follow it.
  pub pattern_test_iff :
      (markers : List String) (text : List ℕ)
      → (pattern_test is_letter_or_number markers text ≡ true)
        ↔ (StartsMarked markers text ⊎ BehindBoundary markers text)
  unfolding pattern_test
  pattern_test_iff markers text = (
    λ h. elim ((||_iff _ _).0 h) [
      | inl q ↦ inl (here_sound markers text q)
      | inr q ↦ inr (behind_sound markers text q)
    ],
    λ r. elim r [ inl q ↦ rw (here_complete markers text q) refl | inr q ↦ back q ],
  )
    where
      back : BehindBoundary markers text → pattern_test is_letter_or_number markers text ≡ true
      back (behind_boundary front b rest e q j) =
          rw (q, behind_complete markers front b rest e j, pattern_test) (ground arith)
