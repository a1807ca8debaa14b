-- ===== src/Prelude/Visits.antt =====
-- The measure of the searches that keep a set of what they have visited.
use Prim.Native.Nat.{ℕ, suc, ◌≤◌, ◌<◌}
use mathlib.Core.Path.{◌≡◌}
use mathlib.Core.Bool.{true, false}
use mathlib.Core.List.{List, [], ◌∷◌}
use native.Mathlib.Omega.{arith}
use zslay.Prelude.Tests.{if◌then◌else◌, =#_iff}
use zslay.Prelude.Lists.{length, contains, has_name}
use Prim.Native.String.{String}
use text.Mathlib.TextEquality.{eq_iff}
use Prim.Native.Nat.{◌+◌, ◌*◌}

-- How many entries of a list a growing set has not visited yet: the measure of a search that visits none
-- twice.
pub unvisited : List ℕ → List ℕ → ℕ
unvisited visited [] = 0
unvisited visited (v ∷ vs) =
    let rest = unvisited visited vs in if contains visited v then rest else suc rest

pub unvisited_le : (visited vs : List ℕ) → unvisited visited vs ≤ length vs
unfolding unvisited
unvisited_le visited [] = omega arith
unvisited_le visited (v ∷ vs) = ground (arith, unvisited_le visited vs)

unvisited-cons_le :
    (x : ℕ) (visited vs : List ℕ) → unvisited (x ∷ visited) vs ≤ unvisited visited vs
unfolding unvisited
unvisited-cons_le x visited [] = omega arith
unvisited-cons_le x visited (v ∷ vs) = ground (arith, unvisited-cons_le x visited vs)

pub unvisited-cons_lt :
    (x : ℕ) (visited vs : List ℕ)
    → contains visited x ≡ false
    → contains vs x ≡ true
    → unvisited (x ∷ visited) vs < unvisited visited vs
unfolding unvisited
unvisited-cons_lt x visited [] h k = absurd (ground arith)
unvisited-cons_lt x visited (v ∷ vs) h k =
    ground (arith, unvisited-cons_le x visited vs, unvisited-cons_lt x visited vs, =#_iff v x)

-- The same for a set of names.
pub names_left : List String → List String → ℕ
names_left visited [] = 0
names_left visited (v ∷ vs) =
    let rest = names_left visited vs in if has_name visited v then rest else suc rest

pub names_left_le : (visited vs : List String) → names_left visited vs ≤ length vs
unfolding names_left
names_left_le visited [] = omega arith
names_left_le visited (v ∷ vs) = ground (arith, names_left_le visited vs)

names_left-cons_le :
    (x : String) (visited vs : List String) → names_left (x ∷ visited) vs ≤ names_left visited vs
unfolding names_left
names_left-cons_le x visited [] = omega arith
names_left-cons_le x visited (v ∷ vs) = ground (arith, names_left-cons_le x visited vs)

pub names_left-cons_lt :
    (x : String) (visited vs : List String)
    → has_name visited x ≡ false
    → has_name vs x ≡ true
    → names_left (x ∷ visited) vs < names_left visited vs
unfolding names_left
names_left-cons_lt x visited [] h k = absurd (ground arith)
names_left-cons_lt x visited (v ∷ vs) h k = ground (
  arith,
  names_left-cons_le x visited vs,
  names_left-cons_lt x visited vs,
  eq_iff v x,
  eq_iff x v,
)

-- A search goes on at a place below `k`, with fewer left to visit, or below the place where it is: the product
-- of the two measures falls.
pub jump_cost : (a b k i n f : ℕ) → a < b → i < k → b * suc k + n < suc f → a * suc k + i < f
jump_cost a b k i n f h j m = let p : suc a * suc k ≤ b * suc k = grind arith in omega (arith, p)
