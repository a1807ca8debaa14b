-- ===== src/Shared/TypeAlias/NearestLaws.antt =====
-- The loop of `nearestTypeBindings` keeps the candidates at the least distance, in their order.
use zslay.Ast.{SourceCode}
use zslay.Prelude.{
  All, Bool, Bool-cases, List, Memᴰ, Option, Option-cases, String, [], arith, false, filter,
  if◌then◌else◌, inl, inr, ltb, none, refl, some, ℕ, ◌++◌, ◌=#◌, ◌∷◌, ◌≡◌, ◌≤◌, ◌⊎◌,
}
use mathlib.Core.List.Memᴰ
use mathlib.Core.List.{append_assoc, append-nil}
use zslay.Shared.TypeAlias.{
  TypeBinding, candidates, nearest_from, nearest_type_bindings, scope_distance,
}

abbrev closer : ℕ → Option ℕ → ℕ
closer b none = b
closer b (some d) = if ltb d b then d else b

abbrev is_distance : Option ℕ → ℕ → Bool
is_distance none d = false
is_distance (some e) d = e =# d

module _ {A : Type 0} (distance : A → Option ℕ) where
  -- the least of `b` and the distances
  pub least : ℕ → List A → ℕ
  least b [] = b
  least b (c ∷ cs) = least (closer b (distance c)) cs

  abbrev pub at_distance : ℕ → A → Bool
  at_distance d c = is_distance (distance c) d

  least_le : (b : ℕ) (cs : List A) → least b cs ≤ b
  unfolding least
  least_le b [] = omega arith
  least_le b (c ∷ cs) = let ih = least_le (closer b (distance c)) cs in ground arith

  cons-append : (xs ys : List A) (c : A) → (xs ++ c ∷ []) ++ ys ≡ xs ++ (c ∷ ys)
  cons-append xs ys c = append_assoc xs (c ∷ []) ys

  nearest_from-some :
      (m b : ℕ) (found cs : List A)
      → least b cs ≡ m
      → nearest_from distance (some b) found cs
        ≡ (if m =# b then found else []) ++ filter (at_distance m) cs
  unfolding nearest_from least
  nearest_from-some m b found [] h = ground (arith, append-nil found)
  nearest_from-some m b found (c ∷ cs) h = elim (Option-cases (distance c)) [
    | inl e ↦ let ih = nearest_from-some m b found cs (rw (e, least) at h) in ground arith
    | inr (d, e) ↦ ground (
      arith,
      nearest_from-some m b found cs,
      nearest_from-some m b (found ++ c ∷ []) cs,
      nearest_from-some m d (c ∷ []) cs,
      cons-append found (filter (at_distance m) cs) c,
      least_le d cs,
      least_le b cs,
    )
  ]

  -- nothing at a finite distance
  abbrev pub IsFar : List A → Type 0
  IsFar cs = All (λ c. distance c ≡ none) cs

  -- `d` is the least distance, and some candidate stands there.
  abbrev pub IsLeast : ℕ → List A → Type 0
  IsLeast d cs =
      ((c : A) × Memᴰ c cs × (distance c ≡ some d))
      × ((c : A) (e : ℕ) → Memᴰ c cs → distance c ≡ some e → d ≤ e)

  least_bound :
      (b : ℕ) (cs : List A) (c : A) (e : ℕ) → Memᴰ c cs → distance c ≡ some e → least b cs ≤ e
  unfolding least
  least_bound b [] c e m h = elim m [ ]
  least_bound b (x ∷ cs) c e (Memᴰ.head same) h =
      let q : distance x ≡ some e = rw (← same) h in
      let low = least_le (closer b (distance x)) cs in ground arith
  least_bound b (x ∷ cs) c e (Memᴰ.tail m) h = least_bound (closer b (distance x)) cs c e m h

  least_found :
      (b : ℕ) (cs : List A)
      → (least b cs ≡ b) ⊎ ((c : A) × Memᴰ c cs × (distance c ≡ some (least b cs)))
  unfolding least
  least_found b [] = inl refl
  least_found b (x ∷ cs) = elim (Option-cases (distance x)) [
    | inl e ↦ rw (e, least) (later b (least_found b cs))
    | inr (d, e) ↦ elim (Bool-cases (ltb d b)) [
      | inr q ↦ rw (e, least) (rw q (later b (least_found b cs)))
      | inl q ↦
          rw (e, least)
            (rw q (elim (least_found d cs) [
              | inl same ↦ inr (x, Memᴰ.head refl, rw same e)
              | inr (c, m, h) ↦ inr (c, Memᴰ.tail m, h)
            ]))
    ]
  ]
    where
      later :
          (k : ℕ)
          → (least k cs ≡ k) ⊎ ((c : A) × Memᴰ c cs × (distance c ≡ some (least k cs)))
          → (least k cs ≡ k) ⊎ ((c : A) × Memᴰ c (x ∷ cs) × (distance c ≡ some (least k cs)))
      later k (inl h) = inl h
      later k (inr (c, m, h)) = inr (c, Memᴰ.tail m, h)

  -- The loop returns nothing if no candidate is at a distance, and else the candidates at the least one.
  pub nearest_from-none :
      (cs : List A)
      → (IsFar cs × (nearest_from distance none [] cs ≡ []))
        ⊎ ((d : ℕ) × IsLeast d cs × (nearest_from distance none [] cs ≡ filter (at_distance d) cs))
  unfolding nearest_from
  nearest_from-none [] = inl (tt, refl)
  nearest_from-none (c ∷ cs) = elim (Option-cases (distance c)) [
    | inl e ↦ elim (nearest_from-none cs) [
      | inl (far, q) ↦ inl ((e, far), rw (e, nearest_from) q)
      | inr (d, ((x, m, at), low), q) ↦ inr (
        d,
        (
          (x, Memᴰ.tail m, at),
          λ y k n h. elim (Memᴰ.cases_cons n) [
            | inl same ↦ absurd (let p : distance c ≡ some k = rw (← same) h in ground arith)
            | inr n' ↦ low y k n' h
          ],
        ),
        rw (e, nearest_from) q,
      )
    ]
    | inr (d, e) ↦ inr (least d cs, (reached d e, below d e), kept d e)
  ]
    where
      reached :
          (d : ℕ)
          → distance c ≡ some d
          → (x : A) × Memᴰ x (c ∷ cs) × (distance x ≡ some (least d cs))
      reached d e = elim (least_found d cs) [
        | inl same ↦ (c, Memᴰ.head refl, rw same e)
        | inr (x, m, h) ↦ (x, Memᴰ.tail m, h)
      ]

      below :
          (d : ℕ)
          → distance c ≡ some d
          → (x : A) (k : ℕ) → Memᴰ x (c ∷ cs)
          → distance x ≡ some k
          → least d cs ≤ k
      below d e x k n h = elim (Memᴰ.cases_cons n) [
        | inl same ↦
            let p : distance c ≡ some k = rw (← same) h in let low = least_le d cs in ground arith
        | inr n' ↦ least_bound d cs x k n' h
      ]

      kept :
          (d : ℕ)
          → distance c ≡ some d
          → nearest_from distance none [] (c ∷ cs) ≡ filter (at_distance (least d cs)) (c ∷ cs)
      kept d e = let run = nearest_from-some (least d cs) d (c ∷ []) cs refl in ground arith

-- The bindings of a name that count at a use: none if no scope that declares the name is around the use, and
-- else all that stand in the innermost such scope, in the order of the program.
pub nearest_type_bindings_lem :
    (s : SourceCode) (environment : List TypeBinding) (name : String) (use_node : ℕ)
    → (IsFar (scope_distance s environment use_node) (candidates s environment name)
        × (nearest_type_bindings s environment name use_node ≡ []))
      ⊎ ((d : ℕ) × IsLeast (scope_distance s environment use_node) d (candidates s environment name)
          × (nearest_type_bindings s environment name use_node
              ≡ filter
                  (at_distance (scope_distance s environment use_node) d)
                  (candidates s environment name)))
unfolding nearest_type_bindings
nearest_type_bindings_lem s environment name use_node =
    nearest_from-none (scope_distance s environment use_node) (candidates s environment name)
