-- ===== src/Prelude/Tests.antt =====
-- Boolean tests on the native numbers, the conditional, and the update of a map.
use Prim.Native.Nat.{ℕ, ◌≤◌, ◌<◌, compare, Ordering}
use mathlib.Core.Path.{◌≡◌, refl}
use mathlib.Core.Logic.{◌≢◌, ◌↔◌, ◌⊎◌, inl, inr}
use mathlib.Core.Bool.{Bool, true, false}
use native.Mathlib.Omega.{arith}

-- These compute to `compare`, which `ground` and `grind` read with no lemma listed.
abbrev pub ltb : ℕ → ℕ → Bool
ltb a b = elim (compare a b) [ Ordering.lt ↦ true | _ ↦ false ]

abbrev pub leb : ℕ → ℕ → Bool
leb a b = elim (compare a b) [ Ordering.gt ↦ false | _ ↦ true ]

infix 50 ◌==◌
abbrev pub ◌==◌ : ℕ → ℕ → Bool
a == b = elim (compare a b) [ Ordering.eq ↦ true | _ ↦ false ]

infix 1 if◌then◌else◌
abbrev pub if◌then◌else◌ {ℓ} : {A : Type ℓ} → Bool → A → A → A
if true then x else y = x
if false then x else y = y

-- `omega` reads a test through such lemmas.
pub ltb→lt : (a b : ℕ) → ltb a b ≡ true → a < b
ltb→lt a b h = ground arith

pub lt→ltb : (a b : ℕ) → a < b → ltb a b ≡ true
lt→ltb a b h = ground arith

pub le→ltb : (a b : ℕ) → a ≤ b → ltb b a ≡ false
le→ltb a b h = ground arith

pub pos→ne_zero : (a : ℕ) → 0 < a → (a == 0) ≡ false
pos→ne_zero a h = ground arith

pub ==_refl : (a : ℕ) → (a == a) ≡ true
==_refl a = ground arith

pub leb→le : (a b : ℕ) → leb a b ≡ true → a ≤ b
leb→le a b h = ground arith

pub ==_iff : (a b : ℕ) → ((a == b) ≡ true) ↔ (a ≡ b)
==_iff a b = ground arith

pub ruleset tests = (arith, ltb→lt, lt→ltb, leb→le)

-- To split on a computed value and keep the equation.
pub Bool-cases : (b : Bool) → (b ≡ true) ⊎ (b ≡ false)
Bool-cases true = inl refl
Bool-cases false = inr refl

-- An array indexed by numbers, with the element at `k` replaced.
abbrev pub update {ℓ} : {A : Type ℓ} → (ℕ → A) → ℕ → A → ℕ → A
update f k x j = if k == j then x else f j

-- What a write to one element leaves the same for that element is the same for all.
pub update_same {ℓ κ} :
    {A : Type ℓ} {B : Type κ} (h : A → B) (f : ℕ → A) (k : ℕ) (x : A)
    → h x ≡ h (f k)
    → (j : ℕ) → h (update f k x j) ≡ h (f j)
update_same h f k x e j = elim (Bool-cases (k == j)) [
  | inl hit ↦ rw hit (rw (← (==_iff k j).0 hit) e)
  | inr miss ↦ rw miss
]

-- A property of an updated element: of the new one at its place, of the old ones elsewhere.
pub update_elim {ℓ κ} :
    {A : Type ℓ} (P : A → Type κ) (f : ℕ → A) (k : ℕ) (x : A) (j : ℕ)
    → (k ≡ j → P x)
    → (k ≢ j → P (f j))
    → P (update f k x j)
update_elim P f k x j here there = elim (Bool-cases (k == j)) [
  | inl hit ↦ rw hit (here ((==_iff k j).0 hit))
  | inr miss ↦ rw miss (there (ground (arith, miss)))
]
