-- ===== src/Shared/Bindings.antt =====
-- The searches of the rules that follow a value through local bindings: at an expression they answer, or go
-- through a variable; at a variable that they have not visited they answer, or go on with its initializer.
pub mod ChaseLaws
use zslay.Prelude.{List, Option, contains, false, none, some, suc, true, zero, ℕ, ◌∷◌}

-- What a search finds at an expression: its answer, or the variable that the expression names.
pub data Lookup (R : Type 0) : Type 0 where
  found : R → Lookup R
  through : ℕ → Lookup R

-- What it finds at a variable: its answer, or the initializer with which it goes on.
pub data Binding (R : Type 0) : Type 0 where
  value : R → Binding R
  initializer : ℕ → Binding R

-- The usual answers where there is no variable, and where there is no initializer.
abbrev pub variable_or : {R : Type 0} → R → Option ℕ → Lookup R
variable_or r none = found r
variable_or r (some v) = through v

abbrev pub initializer_or : {R : Type 0} → R → Option ℕ → Binding R
initializer_or r none = value r
initializer_or r (some m) = initializer m

module _ {R : Type 0} (look : ℕ → Lookup R) (bind : ℕ → Binding R) (cut_off : R) where
  -- The recursion with the set of visited variables, which answers `cut_off` at a variable of the set; `none`
  -- says that the fuel ran out.
  unfoldable pub chase : ℕ → List ℕ → ℕ → Option R
  chase zero visited n = none
  chase (suc fuel) visited n = elim (look n) [
    | found r ↦ some r
    | through v ↦ elim (contains visited v) [
      | true ↦ some cut_off
      | false ↦ elim (bind v) [ value r ↦ some r | initializer m ↦ chase fuel (v ∷ visited) m ]
    ]
  ]
