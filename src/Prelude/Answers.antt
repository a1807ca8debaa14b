-- ===== src/Prelude/Answers.antt =====
-- Tests that may run out of fuel.
use Prim.Native.Nat.{ℕ}
use zslay.Prelude.Tests.{if◌then◌else◌}
use mathlib.Core.Path.{◌≡◌, refl}
use mathlib.Core.Logic.{◌↔◌, ◌⊎◌, inl, inr}
use mathlib.Core.Bool.{Bool, true, false}
use mathlib.Core.Option.{Option, none, some}
use mathlib.Core.List.{Memᴰ, List, [], ◌∷◌}
use mathlib.Core.List.Memᴰ
use native.Mathlib.Omega.{arith}

-- An answer comes back, and it is `true` exactly where `P` holds.
abbrev pub Decides : Option Bool → Type 0 → Type 0
Decides o P = ((b : Bool) × (o ≡ some b)) × ((o ≡ some true) ↔ P)

pub Decides-iff : {P Q : Type 0} (o : Option Bool) → (P → Q) → (Q → P) → Decides o P → Decides o Q
Decides-iff o f g (a, i) = (a, (λ h. f (i.0 h), λ q. i.1 (g q)))

pub Decides-false : {P : Type 0} → (P → ⊥) → Decides (some false) P
Decides-false h = ((false, refl), (λ e. absurd (ground arith), λ p. absurd (h p)))

-- `expressions.some(…)` on such a test; it stops at the first that passes.
abbrev pub any_answer : (ℕ → Option Bool) → List ℕ → Option Bool
any_answer test [] = some false
any_answer test (n ∷ ns) = elim (test n) [
  | none ↦ none
  | some true ↦ some true
  | some false ↦ any_answer test ns
]

pub any_answer-Decides :
    (test : ℕ → Option Bool) (P : ℕ → Type 0)
    → ((n : ℕ) → Decides (test n) (P n))
    → (ns : List ℕ) → Decides (any_answer test ns) ((n : ℕ) × Memᴰ n ns × P n)
any_answer-Decides test P h [] = Decides-false (λ (n, m, p). absurd (Memᴰ.not-nil m))
any_answer-Decides test P h (n ∷ ns) =
    let ((b, e), i) = h n in go b e i (any_answer-Decides test P h ns)
  where
    go :
        (b : Bool)
        → test n ≡ some b
        → (test n ≡ some true) ↔ P n
        → Decides (any_answer test ns) ((k : ℕ) × Memᴰ k ns × P k)
        → Decides (any_answer test (n ∷ ns)) ((k : ℕ) × Memᴰ k (n ∷ ns) × P k)
    go true e i rest = (
      (true, rw (e, any_answer) refl),
      (λ _. (n, Memᴰ.head refl, i.0 e), λ _. rw (e, any_answer) refl),
    )
    go false e i ((c, q), j) = (
      (c, rw (e, any_answer) q),
      (
        λ h. let (k, m, p) = j.0 (rw (e, any_answer) at h) in (k, Memᴰ.tail m, p),
        λ (k, m, p). rw (e, any_answer) (j.1 (earlier k p (Memᴰ.cases_cons m))),
      ),
    )
      where
        earlier : (k : ℕ) → P k → (k ≡ n) ⊎ Memᴰ k ns → (x : ℕ) × Memᴰ x ns × P x
        earlier k p (inl same) =
            let c : test n ≡ some true = i.1 (rw same at p) in
            absurd (let d : some false ≡ some true = rw e at c in ground arith)
        earlier k p (inr m) = (k, m, p)

pub Decides-if :
    {P : Type 0} (b : Bool) {o q : Option Bool}
    → (b ≡ true → Decides o P)
    → (b ≡ false → Decides q P)
    → Decides (if b then o else q) P
Decides-if true f g = f refl
Decides-if false f g = g refl

-- `a && b`, where the second test is reached only behind the first
abbrev pub both_answer : Option Bool → Option Bool → Option Bool
both_answer none second = none
both_answer (some true) second = second
both_answer (some false) second = some false

pub both_answer-Decides :
    {P Q : Type 0} (a b : Option Bool)
    → Decides a P
    → Decides b Q
    → Decides (both_answer a b) (P × Q)
both_answer-Decides none b ((x, e), i) d = absurd (ground arith)
both_answer-Decides (some true) b (y, i) d = Decides-iff b (λ q. (i.0 refl, q)) (λ (_, q). q) d
both_answer-Decides (some false) b (y, i) d =
    Decides-false (λ (p, _). let c = i.1 p in ground arith)
