-- ===== src/Prelude/Lists.antt =====
-- Array methods of the source as functions on lists, over the native numbers.
use Prim.Native.Nat.{ℕ, zero, suc, compare, Ordering}
use Prim.Native.String.{String}
use text.Mathlib.Text.{◌==◌}
use mathlib.Core.Path.{◌≡◌, refl}
use mathlib.Core.Logic.{◌↔◌, ◌≢◌, ◌⊎◌, inl, inr}
use zslay.Prelude.Tests.{Bool-cases, if◌then◌else◌}
use mathlib.Core.Bool.{Bool, true, false, ◌&&◌, ◌||◌, cond}
use mathlib.Core.Option.{Option, none, some}
use mathlib.Core.List.{Memᴰ, List, [], ◌∷◌, ◌++◌}
use mathlib.Core.List.Memᴰ
use native.Mathlib.Omega.{arith}

module _ {ℓ} {A : Type ℓ} where
  abbrev pub length : List A → ℕ
  length [] = 0
  length (_ ∷ xs) = suc (length xs)

  -- `xs[i]`, `none` for `undefined`
  abbrev pub get_elem? : List A → ℕ → Option A
  get_elem? [] i = none
  get_elem? (x ∷ xs) zero = some x
  get_elem? (x ∷ xs) (suc i) = get_elem? xs i

  -- `xs.some(p)`
  abbrev pub any : (A → Bool) → List A → Bool
  any p [] = false
  any p (x ∷ xs) = p x || any p xs

  -- `xs.every(p)`
  abbrev pub all : (A → Bool) → List A → Bool
  all p [] = true
  all p (x ∷ xs) = p x && all p xs

  -- `xs.find(p)`
  abbrev pub find : (A → Bool) → List A → Option A
  find p [] = none
  find p (x ∷ xs) = cond (p x) (some x) (find p xs)

  abbrev pub filter : (A → Bool) → List A → List A
  filter p [] = []
  filter p (x ∷ xs) = cond (p x) (x ∷ filter p xs) (filter p xs)

  -- `xs.flatMap(f)`, or a loop whose rounds each add to a result
  abbrev pub gather {κ} : {B : Type κ} → (A → List B) → List A → List B
  gather f [] = []
  gather f (x ∷ xs) = f x ++ gather f xs

  abbrev pub All {κ} : (A → Type κ) → List A → Type κ
  All P [] = Unit
  All P (x ∷ xs) = P x × All P xs

  abbrev pub is_empty : List A → Bool
  is_empty [] = true
  is_empty (_ ∷ _) = false

  -- `??`
  abbrev pub or_else : Option A → Option A → Option A
  or_else none o = o
  or_else (some a) _ = some a

  abbrev pub get_or : Option A → A → A
  get_or none a = a
  get_or (some a) _ = a

pub List-cases {ℓ} :
    {A : Type ℓ} (xs : List A) → (xs ≡ []) ⊎ ((x : A) × (rest : List A) × (xs ≡ x ∷ rest))
List-cases [] = inl refl
List-cases (x ∷ xs) = inr (x, xs, refl)

abbrev pub contains : List ℕ → ℕ → Bool
contains [] a = false
contains (x ∷ xs) a = elim (compare x a) [ Ordering.eq ↦ true | _ ↦ contains xs a ]

-- `names.has(name)` and `names.includes(name)`
abbrev pub has_name : List String → String → Bool
has_name [] a = false
has_name (x ∷ xs) a = x == a || has_name xs a

infixl 5 ◌>>=◌ ◌>>◌
abbrev pub ◌>>=◌ {ℓ κ} : {A : Type ℓ} {B : Type κ} → Option A → (A → Option B) → Option B
none >>= f = none
some a >>= f = f a

abbrev pub ◌>>◌ {ℓ κ} : {A : Type ℓ} {B : Type κ} → Option A → Option B → Option B
m >> k = m >>= λ _. k

-- an early `return` where a test fails
abbrev pub guard : Bool → Option (Unit {0})
guard true = some tt
guard false = none

abbrev pub is_some {ℓ} : {A : Type ℓ} → Option A → Bool
is_some none = false
is_some (some _) = true

pub >>=-eq-some {ℓ κ} :
    {A : Type ℓ} {B : Type κ} (m : Option A) (f : A → Option B) {b : B}
    → (m >>= f) ≡ some b
    → (a : A) × (m ≡ some a) × (f a ≡ some b)
>>=-eq-some none f h = absurd (ground arith)
>>=-eq-some (some a) f h = (a, refl, h)

module _ {ℓ} {A : Type ℓ} where
  pub mem-of-any :
      (p : A → Bool) (xs : List A) → any p xs ≡ true → (x : A) × Memᴰ x xs × (p x ≡ true)
  mem-of-any p [] h = absurd (ground arith)
  mem-of-any p (x ∷ xs) h = elim (Bool-cases (p x)) [
    | inl e ↦ (x, Memᴰ.head refl, e)
    | inr e ↦ let (y, m, q) = mem-of-any p xs (rw e at h) in (y, Memᴰ.tail m, q)
  ]

  pub any-of-mem : (p : A → Bool) {x : A} {xs : List A} → Memᴰ x xs → p x ≡ true → any p xs ≡ true
  any-of-mem p (Memᴰ.head e) h = rw (← e) (rw h)
  any-of-mem p {xs = y ∷ ys} (Memᴰ.tail m) h = let r = any-of-mem p m h in ground arith

  pub All-mem {κ} : (P : A → Type κ) {x : A} {xs : List A} → All P xs → Memᴰ x xs → P x
  All-mem P a (Memᴰ.head e) = rw e a.0
  All-mem P a (Memᴰ.tail m) = All-mem P a.1 m

  pub mem-of-filter :
      (p : A → Bool) (x : A) (xs : List A) → Memᴰ x (filter p xs) → Memᴰ x xs × (p x ≡ true)
  mem-of-filter p x [] m = elim (Memᴰ.not-nil m) [ ]
  mem-of-filter p x (y ∷ ys) m = elim (Bool-cases (p y)) [
    | inl e ↦ elim (Memᴰ.cases_cons (rw e at m)) [
      | inl q ↦ (Memᴰ.head q, rw q e)
      | inr r ↦ let (k, h) = mem-of-filter p x ys r in (Memᴰ.tail k, h)
    ]
    | inr e ↦ let (k, h) = mem-of-filter p x ys (rw e at m) in (Memᴰ.tail k, h)
  ]

  pub mem-of-gather {κ} :
      {B : Type κ} (f : A → List B) {y : B} (xs : List A)
      → Memᴰ y (gather f xs)
      → (x : A) × Memᴰ x xs × Memᴰ y (f x)
  mem-of-gather f [] m = elim (Memᴰ.not-nil m) [ ]
  mem-of-gather f (x ∷ xs) m = elim (Memᴰ.append_cases (f x) m) [
    | inl k ↦ (x, Memᴰ.head refl, k)
    | inr k ↦ let (z, i, j) = mem-of-gather f xs k in (z, Memᴰ.tail i, j)
  ]

  pub gather-mem {κ} :
      {B : Type κ} (f : A → List B) {x : A} {y : B} {xs : List A}
      → Memᴰ x xs
      → Memᴰ y (f x)
      → Memᴰ y (gather f xs)
  gather-mem f {xs = []} k m = elim (Memᴰ.not-nil k) [ ]
  gather-mem f {xs = z ∷ zs} (Memᴰ.head e) m = Memᴰ.append_left (gather f zs) (rw e at m)
  gather-mem f {xs = z ∷ zs} (Memᴰ.tail k) m = Memᴰ.append_right (f z) (gather-mem f k m)

-- A list that a test decides.
pub if-nonempty {ℓ} :
    {A : Type ℓ} (b : Bool) (x : A) (xs : List A) → ((if b then x ∷ xs else []) ≢ []) ↔ (b ≡ true)
if-nonempty true x xs = (λ h. refl, λ e h. absurd (ground arith))
if-nonempty false x xs = (λ h. absurd (h refl), λ e h. absurd (ground arith))

pub mem-of-all {ℓ} :
    {A : Type ℓ} (p : A → Bool) (xs : List A) → all p xs ≡ true → (x : A) → Memᴰ x xs → p x ≡ true
mem-of-all p [] h x m = absurd (Memᴰ.not-nil m)
mem-of-all p (y ∷ ys) h x (Memᴰ.head e) = rw e (ground arith)
mem-of-all p (y ∷ ys) h x (Memᴰ.tail m) = mem-of-all p ys (ground arith) x m

pub all-of-mem {ℓ} :
    {A : Type ℓ} (p : A → Bool) (xs : List A) → ((x : A) → Memᴰ x xs → p x ≡ true) → all p xs ≡ true
all-of-mem p [] h = refl
all-of-mem p (y ∷ ys) h =
    let first = h y (Memᴰ.head refl) in
    let rest = all-of-mem p ys (λ x m. h x (Memᴰ.tail m)) in ground arith
