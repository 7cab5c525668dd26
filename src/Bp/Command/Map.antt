-- ===== src/Bp/Command/Map.antt =====
-- The map from protocol identifiers to the data of the client protocols.
use dcp_vardis.Prelude.{
  ℕ, ◌<◌, ◌≡◌, inl, inr, refl, ap, Bool-cases, true, false, List, [], ◌∷◌, arith, ltb, ◌==◌,
  ==_refl, ==_iff,
}
use dcp_vardis.Bp.Command.{contains, assign, erase}

module _ {A : Type 0} where
  -- All keys of the map are above `k`.
  abbrev pub Above : ℕ → List (ℕ × A) → Type 0
  Above k [] = Unit {0}
  Above k ((l, x) ∷ xs) = (k < l) × Above k xs

  abbrev pub Sorted : List (ℕ × A) → Type 0
  Sorted [] = Unit {0}
  Sorted ((k, x) ∷ xs) = Above k xs × Sorted xs

  -- Every entry satisfies `P`.
  abbrev pub All : (ℕ → A → Type 0) → List (ℕ × A) → Type 0
  All P [] = Unit {0}
  All P ((k, x) ∷ xs) = P k x × All P xs

  Above-le : (k l : ℕ) (xs : List (ℕ × A)) → k < l → Above l xs → Above k xs
  Above-le k l [] h a = tt
  Above-le k l ((m, x) ∷ xs) h a = (omega (arith, h, a.0), Above-le k l xs h a.1)

  Above-assign :
      (m k : ℕ) (x : A) (xs : List (ℕ × A)) → m < k → Above m xs → Above m (assign k x xs)
  unfolding assign
  Above-assign m k x [] h a = (h, tt)
  Above-assign m k x ((l, y) ∷ ys) h a = elim (Bool-cases (ltb k l)) [
    | inl before ↦ simp before (h, a)
    | inr after ↦ elim (Bool-cases (l == k)) [
      | inl here ↦ simp (after, here) (h, a.1)
      | inr there ↦ simp (after, there) (a.0, Above-assign m k x ys h a.1)
    ]
  ]

  pub Sorted-assign : (k : ℕ) (x : A) (xs : List (ℕ × A)) → Sorted xs → Sorted (assign k x xs)
  unfolding assign
  Sorted-assign k x [] s = (tt, tt)
  Sorted-assign k x ((l, y) ∷ ys) s = elim (Bool-cases (ltb k l)) [
    | inl before ↦
        simp before ((ground (arith, before), Above-le k l ys (ground (arith, before)) s.0), s)
    | inr after ↦ elim (Bool-cases (l == k)) [
      | inl here ↦ simp (after, here) (rw (← (==_iff l k).0 here) s.0, s.1)
      | inr there ↦
          simp (after, there)
            (Above-assign l k x ys (ground (arith, after, there)) s.0, Sorted-assign k x ys s.1)
    ]
  ]

  Above-erase : (m k : ℕ) (xs : List (ℕ × A)) → Above m xs → Above m (erase k xs)
  unfolding erase
  Above-erase m k [] a = tt
  Above-erase m k ((l, y) ∷ ys) a = elim (Bool-cases (l == k)) [
    | inl here ↦ simp here a.1
    | inr there ↦ simp there (a.0, Above-erase m k ys a.1)
  ]

  pub Sorted-erase : (k : ℕ) (xs : List (ℕ × A)) → Sorted xs → Sorted (erase k xs)
  unfolding erase
  Sorted-erase k [] s = tt
  Sorted-erase k ((l, y) ∷ ys) s = elim (Bool-cases (l == k)) [
    | inl here ↦ simp here s.1
    | inr there ↦ simp there (Above-erase l k ys s.0, Sorted-erase k ys s.1)
  ]

  pub All-assign :
      (P : ℕ → A → Type 0) (k : ℕ) (x : A) (xs : List (ℕ × A))
      → P k x
      → All P xs
      → All P (assign k x xs)
  unfolding assign
  All-assign P k x [] h a = (h, tt)
  All-assign P k x ((l, y) ∷ ys) h a = elim (Bool-cases (ltb k l)) [
    | inl before ↦ simp before (h, a)
    | inr after ↦ elim (Bool-cases (l == k)) [
      | inl here ↦ simp (after, here) (h, a.1)
      | inr there ↦ simp (after, there) (a.0, All-assign P k x ys h a.1)
    ]
  ]

  pub All-erase : (P : ℕ → A → Type 0) (k : ℕ) (xs : List (ℕ × A)) → All P xs → All P (erase k xs)
  unfolding erase
  All-erase P k [] a = tt
  All-erase P k ((l, y) ∷ ys) a = elim (Bool-cases (l == k)) [
    | inl here ↦ simp here a.1
    | inr there ↦ simp there (a.0, All-erase P k ys a.1)
  ]

  -- Of a new key.
  pub contains-assign : (k : ℕ) (x : A) (xs : List (ℕ × A)) → contains k (assign k x xs) ≡ true
  unfolding assign
  contains-assign k x [] = ground (arith, ==_refl k)
  contains-assign k x ((l, y) ∷ ys) = elim (Bool-cases (ltb k l)) [
    | inl before ↦ simp (before, ==_refl k) refl
    | inr after ↦ elim (Bool-cases (l == k)) [
      | inl here ↦ simp (after, here, ==_refl k) refl
      | inr there ↦ simp (after, there) (contains-assign k x ys)
    ]
  ]

  pub erase-assign :
      (k : ℕ) (x : A) (xs : List (ℕ × A)) → contains k xs ≡ false → erase k (assign k x xs) ≡ xs
  unfolding assign erase
  erase-assign k x [] new = simp (==_refl k) refl
  erase-assign k x ((l, y) ∷ ys) new = elim (Bool-cases (ltb k l)) [
    | inl before ↦ simp (before, ==_refl k) refl
    | inr after ↦ elim (Bool-cases (l == k)) [
      | inl here ↦ absurd (ground (arith, new, here))
      | inr there ↦
          simp (after, there)
            (ap (λ zs. (l, y) ∷ zs) (erase-assign k x ys (ground (arith, new, there))))
    ]
  ]
