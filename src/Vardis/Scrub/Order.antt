-- ===== src/Vardis/Scrub/Order.antt =====
-- The set of active variables is in ascending order, and an iterator that is incremented points to
-- the next larger element.
use dcp_vardis.Prelude.{ℕ, ◌<◌, ◌≡◌, refl, List, [], ◌∷◌, ◌++◌, arith}
use dcp_vardis.Vardis.Data.{set_insert}
use dcp_vardis.Vardis.Scrub.{set_begin, set_next}

-- The order in which a std::set keeps its elements.
abbrev AllAbove : ℕ → List ℕ → Type 0
AllAbove x [] = Unit {0}
AllAbove x (y ∷ ys) = (x < y) × AllAbove x ys

abbrev pub Ascending : List ℕ → Type 0
Ascending [] = Unit {0}
Ascending (x ∷ xs) = AllAbove x xs × Ascending xs

AllAbove-append : (x v : ℕ) (us vs : List ℕ) → AllAbove x (us ++ (v ∷ vs)) → x < v
AllAbove-append x v [] vs h = h.0
AllAbove-append x v (u ∷ us) vs h = AllAbove-append x v us vs h.1

set_next-above : (v : ℕ) (vs : List ℕ) → AllAbove v vs → set_next v vs ≡ set_begin vs
unfolding set_next
set_next-above v [] h = refl
set_next-above v (x ∷ xs) h = ground (arith, h.0)

-- The iterator behind `v` points to what follows `v`.
pub set_next-append :
    (v : ℕ) (us vs : List ℕ)
    → Ascending (us ++ (v ∷ vs))
    → set_next v (us ++ (v ∷ vs)) ≡ set_begin vs
unfolding set_next
set_next-append v [] vs h = ground (arith, set_next-above v vs h.0)
set_next-append v (u ∷ us) vs h =
    ground (arith, AllAbove-append u v us vs h.0, set_next-append v us vs h.1)

AllAbove-set_insert : (x v : ℕ) (vs : List ℕ) → x < v → AllAbove x vs → AllAbove x (set_insert v vs)
unfolding set_insert
AllAbove-set_insert x v [] p h = (p, tt)
AllAbove-set_insert x v (y ∷ ys) p h = ground (arith, AllAbove-set_insert x v ys p h.1)

AllAbove-trans : (x y : ℕ) (ys : List ℕ) → x < y → AllAbove y ys → AllAbove x ys
AllAbove-trans x y [] p h = tt
AllAbove-trans x y (z ∷ zs) p h = (omega (arith, h.0), AllAbove-trans x y zs p h.1)

-- Inserting into the set keeps the order.
set_insert-Ascending : (v : ℕ) (vs : List ℕ) → Ascending vs → Ascending (set_insert v vs)
unfolding set_insert
set_insert-Ascending v [] h = (tt, tt)
set_insert-Ascending v (y ∷ ys) h =
    ground (arith, AllAbove-trans v y ys, AllAbove-set_insert y v ys, set_insert-Ascending v ys h.1)
