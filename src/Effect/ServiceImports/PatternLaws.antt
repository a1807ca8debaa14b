-- ===== src/Effect/ServiceImports/PatternLaws.antt =====
-- The matchers of no-service-constructor-imports against the texts that the expressions denote.
use zslay.Prelude.{
  List, Option-cases, [], ap, arith, inl, inr, strip_prefix-append, strip_prefix_sound, true,
  ||_iff, ℕ, ◌++◌, ◌↔◌, ◌∷◌, ◌≡◌, ◌⊎◌,
}
use zslay.Effect.ServiceImports.{
  codes, extension_behind, is_script_extension, is_test_file, matches_here, strip_prefix,
}

-- The extensions that `[cm]?[jt]sx?` denotes.
abbrev pub script_extensions : List (List ℕ)
script_extensions =
    codes "js"
    ∷ codes "ts"
    ∷ codes "jsx"
    ∷ codes "tsx"
    ∷ codes "cjs"
    ∷ codes "cts"
    ∷ codes "cjsx"
    ∷ codes "ctsx"
    ∷ codes "mjs"
    ∷ codes "mts"
    ∷ codes "mjsx"
    ∷ codes "mtsx"
    ∷ []

-- one of a list
abbrev pub OneOf : List (List ℕ) → List ℕ → Type 0
OneOf [] text = ⊥
OneOf (x ∷ xs) text = (text ≡ x) ⊎ OneOf xs text

-- `name.test.ext` and `name.spec.ext`
pub data TestFile (text : List ℕ) : Type 0 where
  test_file :
      (front extension : List ℕ)
      → OneOf script_extensions extension
      → text ≡ front ++ (codes ".test." ++ extension)
      → TestFile text
  spec_file :
      (front extension : List ℕ)
      → OneOf script_extensions extension
      → text ≡ front ++ (codes ".spec." ++ extension)
      → TestFile text

script_extension_complete :
    (text : List ℕ) → OneOf script_extensions text → is_script_extension text ≡ true
script_extension_complete text h = ground arith

script_extension_sound :
    (text : List ℕ) → is_script_extension text ≡ true → OneOf script_extensions text
script_extension_sound [] h = absurd (ground arith)
script_extension_sound (a ∷ []) h = absurd (ground arith)
script_extension_sound (a ∷ b ∷ []) h = ground arith
script_extension_sound (a ∷ b ∷ c ∷ []) h = ground arith
script_extension_sound (a ∷ b ∷ c ∷ d ∷ []) h = ground arith
script_extension_sound (a ∷ b ∷ c ∷ d ∷ e ∷ r) h = absurd (ground arith)

extension_behind_sound :
    (prefix text : List ℕ)
    → extension_behind (strip_prefix prefix text) ≡ true
    → (e : List ℕ) × OneOf script_extensions e × (text ≡ prefix ++ e)
extension_behind_sound prefix text h = elim (Option-cases (strip_prefix prefix text)) [
  | inl q ↦ absurd (ground arith)
  | inr (e, q) ↦ (e, script_extension_sound e (rw q at h), strip_prefix_sound prefix text e q)
]

here-TestFile : (text : List ℕ) → matches_here text ≡ true → TestFile text
unfolding matches_here
here-TestFile text h =
    elim ((||_iff (extension_behind (strip_prefix (codes ".test.") text)) _).0 h) [
      | inl a ↦
          let (e, listed, q) = extension_behind_sound (codes ".test.") text a in
          test_file [] e listed q
      | inr b ↦
          let (e, listed, q) = extension_behind_sound (codes ".spec.") text b in
          spec_file [] e listed q
    ]

TestFile-cons : (c : ℕ) {text : List ℕ} → TestFile text → TestFile (c ∷ text)
TestFile-cons c (test_file front e listed q) = test_file (c ∷ front) e listed (ap (λ t. c ∷ t) q)
TestFile-cons c (spec_file front e listed q) = spec_file (c ∷ front) e listed (ap (λ t. c ∷ t) q)

is_test_file_sound : (text : List ℕ) → is_test_file text ≡ true → TestFile text
unfolding is_test_file
is_test_file_sound [] h = here-TestFile [] h
is_test_file_sound (c ∷ text) h = elim ((||_iff (matches_here (c ∷ text)) _).0 h) [
  | inl a ↦ here-TestFile (c ∷ text) a
  | inr b ↦ TestFile-cons c (is_test_file_sound text b)
]

is_test_file-append :
    (front text : List ℕ) → matches_here text ≡ true → is_test_file (front ++ text) ≡ true
unfolding is_test_file
is_test_file-append [] [] h = h
is_test_file-append [] (c ∷ text) h = ground arith
is_test_file-append (c ∷ front) text h = ground (arith, is_test_file-append front text h)

is_test_file_complete : {text : List ℕ} → TestFile text → is_test_file text ≡ true
unfolding matches_here
is_test_file_complete (test_file front e listed q) = rw q (
    is_test_file-append front _ (
      rw (strip_prefix-append (codes ".test.") e)
        (ground (arith, script_extension_complete e listed))))
is_test_file_complete (spec_file front e listed q) = rw q (
    is_test_file-append front _ (
      rw (strip_prefix-append (codes ".spec.") e)
        (ground (arith, script_extension_complete e listed))))

-- A file counts as a test file exactly when its name ends in `.test.` or `.spec.` and one of the twelve
-- script extensions from `js` to `mtsx`.
pub is_test_file_iff : (text : List ℕ) → (is_test_file text ≡ true) ↔ TestFile text
is_test_file_iff text = (is_test_file_sound text, is_test_file_complete)
