-- ===== src/Prelude/Texts.antt =====
-- Texts as lists of code units, and what JavaScript counts as white space.
use Prim.Native.Nat.{ℕ}
use Prim.Native.Char.{Char, code}
use Prim.Native.String.{String}
use mathlib.Core.Path.{◌≡◌, refl}
use mathlib.Core.Bool.{Bool}
use mathlib.Core.Option.{Option, none, some}
use mathlib.Core.List.{List, [], ◌∷◌, ◌++◌}
use native.Mathlib.Omega.{arith}
use zslay.Prelude.Tests.{if◌then◌else◌, ◌=#◌}
use zslay.Prelude.Lists.{contains}

abbrev pub codes : String → List ℕ
codes String.[] = []
codes (String.◌∷◌ c s) = code c ∷ codes s

-- What is left of a text behind a prefix; `startsWith` where it is not needed.
unfoldable pub strip_prefix : List ℕ → List ℕ → Option (List ℕ)
strip_prefix [] text = some text
strip_prefix (c ∷ prefix) [] = none
strip_prefix (c ∷ prefix) (d ∷ text) = if c =# d then strip_prefix prefix text else none

pub strip_prefix_sound :
    (prefix text rest : List ℕ) → strip_prefix prefix text ≡ some rest → text ≡ prefix ++ rest
unfolding strip_prefix
strip_prefix_sound [] text rest h = ground arith
strip_prefix_sound (c ∷ prefix) [] rest h = absurd (ground arith)
strip_prefix_sound (c ∷ prefix) (d ∷ text) rest h =
    ground (arith, strip_prefix_sound prefix text rest)

pub strip_prefix-append : (prefix rest : List ℕ) → strip_prefix prefix (prefix ++ rest) ≡ some rest
unfolding strip_prefix
strip_prefix-append [] rest = refl
strip_prefix-append (c ∷ prefix) rest = ground (arith, strip_prefix-append prefix rest)

-- What `trim` removes and `\s` matches: tab, line feed, vertical tab, form feed, carriage return, space, and the
-- Unicode spaces and line ends.
abbrev pub white_space : List ℕ
white_space =
    9 ∷ 10 ∷ 11 ∷ 12 ∷ 13 ∷ 32 ∷ 160 ∷ 5760 ∷ 8192 ∷ 8193 ∷ 8194 ∷ 8195 ∷ 8196 ∷ 8197 ∷ 8198 ∷ 8199
    ∷ 8200 ∷ 8201 ∷ 8202 ∷ 8232 ∷ 8233 ∷ 8239 ∷ 8287 ∷ 12288 ∷ 65279 ∷ []

abbrev pub is_space : ℕ → Bool
is_space c = contains white_space c

unfoldable pub trim_start : List ℕ → List ℕ
trim_start [] = []
trim_start (c ∷ text) = if is_space c then trim_start text else c ∷ text

-- The same on texts: `trimStart`, `trimEnd` and `trim`.
abbrev drop_blank : Char → String → String
drop_blank c String.[] = if is_space (code c) then "" else String.◌∷◌ c ""
drop_blank c (String.◌∷◌ d t) = String.◌∷◌ c (String.◌∷◌ d t)

unfoldable pub trim_end : String → String
trim_end String.[] = ""
trim_end (String.◌∷◌ c t) = drop_blank c (trim_end t)

unfoldable pub trim_front : String → String
trim_front String.[] = ""
trim_front (String.◌∷◌ c t) = if is_space (code c) then trim_front t else String.◌∷◌ c t

unfoldable pub trim : String → String
unfolding trim_end trim_front
trim t = trim_end (trim_front t)

-- `replaceAll(/\s+/gu, "")`
unfoldable pub without_spaces : String → String
without_spaces String.[] = ""
without_spaces (String.◌∷◌ c t) =
    let rest = without_spaces t in if is_space (code c) then rest else String.◌∷◌ c rest
