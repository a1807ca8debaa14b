-- ===== src/Effect/ServiceImports.antt =====
-- effect/rules/no-service-constructor-imports.ts. Texts are lists of code units, and the two regular
-- expressions are matchers over them.
pub mod PatternLaws
use zslay.Prelude.{
  Bool, List, Option, String, [], codes, false, get_or, if◌then◌else◌, is_some, leb, none, not,
  some, strip_prefix, ℕ, ◌&&◌, ◌++◌, ◌=#◌, ◌||◌, ◌∷◌,
}
use zslay.Ast.{
  Node, Report, SourceCode, as_identifier, as_import_specifier, as_string_literal,
  import_declaration,
}

abbrev pub is_upper : ℕ → Bool
is_upper c = leb b'A' c && leb c b'Z'

-- `/^make[A-Z]/u`
unfoldable pub is_service_constructor_name : List ℕ → Bool
is_service_constructor_name name = elim (strip_prefix (codes "make") name) [
  | none ↦ false
  | some [] ↦ false
  | some (c ∷ _) ↦ is_upper c
]

-- `[jt]sx?$`
abbrev pub ends_in_script : List ℕ → Bool
ends_in_script (c ∷ d ∷ []) = (c =# b'j' || c =# b't') && d =# b's'
ends_in_script (c ∷ d ∷ e ∷ []) = (c =# b'j' || c =# b't') && d =# b's' && e =# b'x'
ends_in_script _ = false

-- `[cm]?[jt]sx?$`
abbrev pub is_script_extension : List ℕ → Bool
is_script_extension [] = false
is_script_extension (c ∷ text) =
    ends_in_script (c ∷ text) || ((c =# b'c' || c =# b'm') && ends_in_script text)

abbrev pub extension_behind : Option (List ℕ) → Bool
extension_behind none = false
extension_behind (some text) = is_script_extension text

-- `\.(?:test|spec)\.[cm]?[jt]sx?$` at the front of a text
unfoldable pub matches_here : List ℕ → Bool
matches_here text =
    extension_behind (strip_prefix (codes ".test.") text)
    || extension_behind (strip_prefix (codes ".spec.") text)

-- `TEST_FILE.test`: a match at some position
unfoldable pub is_test_file : List ℕ → Bool
is_test_file [] = matches_here []
is_test_file (c ∷ text) = matches_here (c ∷ text) || is_test_file text

-- `replaceAll("\\", "/")`
unfoldable pub forward_slashes : List ℕ → List ℕ
forward_slashes [] = []
forward_slashes (c ∷ text) = (if c =# 92 then b'/' else c) ∷ forward_slashes text

unfoldable pub is_project_local_import : List ℕ → Bool
is_project_local_import source =
    is_some (strip_prefix (codes "./") source) || is_some (strip_prefix (codes "../") source)

module _ (s : SourceCode) where
  -- `getImportedName`: an identifier's name or a string literal's value
  abbrev pub imported_name : ℕ → String
  imported_name imported = elim (as_identifier (s.node imported)) [
    | some name ↦ name
    | none ↦ get_or (as_string_literal (s.node imported)) ""
  ]

module _ (s : SourceCode) (filename : String) where
  -- One round of the loop over the specifiers.
  unfoldable pub check_specifier : ℕ → List Report
  check_specifier specifier = elim (as_import_specifier (s.node specifier)) [
    | none ↦ []
    | some imported ↦
        if is_service_constructor_name (codes (imported_name s imported))
        then record {
          node = specifier;
          message_id = "serviceConstructorImport";
          placeholders = ("name", imported_name s imported) ∷ [];
        }
          ∷ []
        else []
  ]

  unfoldable pub check_specifiers : List ℕ → List Report
  check_specifiers [] = []
  check_specifiers (x ∷ xs) = check_specifier x ++ check_specifiers xs

  import_in : Node → List Report
  import_in (import_declaration source specifiers) =
      if is_test_file (forward_slashes (codes filename))
        || not (is_project_local_import (codes source))
      then []
      else check_specifiers specifiers
  import_in _ = []

  unfoldable pub no_service_constructor_imports : ℕ → List Report
  unfolding import_in
  no_service_constructor_imports n = import_in (s.node n)
