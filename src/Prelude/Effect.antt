-- ===== src/Prelude/Effect.antt =====
-- Code that changes a state and may throw. An exception does not undo what was written before it
-- (common/exceptions.h), so it comes back beside the state at which it was thrown.
use Prim.Native.Nat.{ℕ}

-- The exception classes of common/exceptions.h, std::invalid_argument, and the undefined
-- behaviour of an access outside a buffer.
pub data Error : Type 0 where
  area_exception assembly_area_exception disassembly_area_exception : Error
  ring_buffer_exception avl_tree_exception vardis_store_exception : Error
  vardis_transmit_exception vardis_receive_exception shm_exception : Error
  invalid_argument out_of_bounds : Error

pub data Outcome (S A : Type 0) : Type 0 where
  ok : A → S → Outcome S A
  throw : Error → S → Outcome S A

abbrev pub Exec : Type 0 → Type 0 → Type 0
Exec S A = S → Outcome S A

abbrev pub Void : Type 0
Void = Unit {0}

module _ {S A B : Type 0} where
  abbrev pub continue : Outcome S A → (A → Exec S B) → Outcome S B
  continue (ok a s) f = f a s
  continue (throw e s) f = throw e s

infixl 5 ◌>>=◌ ◌>>◌
abbrev pub ◌>>=◌ : {S A B : Type 0} → Exec S A → (A → Exec S B) → Exec S B
◌>>=◌ m f s = continue (m s) f

abbrev pub ◌>>◌ : {S B : Type 0} → Exec S Void → Exec S B → Exec S B
m >> k = m >>= λ _. k

module _ {S A : Type 0} where
  abbrev pub pure : A → Exec S A
  pure a s = ok a s

  abbrev pub raise : Error → Exec S A
  raise e s = throw e s

  abbrev pub gets : (S → A) → Exec S A
  gets f s = ok (f s) s

  abbrev pub state : Outcome S A → S
  state (ok a s) = s
  state (throw e s) = s

abbrev pub modify : {S : Type 0} → (S → S) → Exec S Void
modify f s = ok tt (f s)

-- The call returns, and its final state satisfies `P`.
abbrev pub Succeeds : {S A : Type 0} → Outcome S A → (S → Type 0) → Type 0
Succeeds (ok a s) P = P s
Succeeds (throw e s) P = ⊥

-- The call returns, and its result and final state satisfy `P`.
abbrev pub Yields : {S A : Type 0} → Outcome S A → (A → S → Type 0) → Type 0
Yields (ok a s) P = P a s
Yields (throw e s) P = ⊥

pub Yields-bind :
    {S A B : Type 0} (o : Outcome S A) (f : A → Exec S B) (P : S → Type 0) (Q : B → S → Type 0)
    → Succeeds o P
    → ((a : A) (s : S) → P s → Yields (f a s) Q)
    → Yields (continue o f) Q
Yields-bind (ok a s) f P Q h k = k a s h
Yields-bind (throw e s) f P Q h k = elim h [ ]

pub Succeeds-bind :
    {S A B : Type 0} (o : Outcome S A) (f : A → Exec S B) (P Q : S → Type 0)
    → Succeeds o P
    → ((a : A) (s : S) → P s → Succeeds (f a s) Q)
    → Succeeds (continue o f) Q
Succeeds-bind (ok a s) f P Q h k = k a s h
Succeeds-bind (throw e s) f P Q h k = elim h [ ]

pub Succeeds-map :
    {S A : Type 0} (o : Outcome S A) (P Q : S → Type 0)
    → Succeeds o P
    → ((s : S) → P s → Q s)
    → Succeeds o Q
Succeeds-map (ok a s) P Q h k = k s h
Succeeds-map (throw e s) P Q h k = elim h [ ]

pub Succeeds-and :
    {S A : Type 0} (o : Outcome S A) (P Q : S → Type 0)
    → Succeeds o P
    → Succeeds o Q
    → Succeeds o (λ s. P s × Q s)
Succeeds-and (ok a s) P Q h k = (h, k)
Succeeds-and (throw e s) P Q h k = elim h [ ]

-- A property of the whole final state, and one of it at every index.
pub Succeeds-both :
    {S A : Type 0} (o : Outcome S A) (P : S → Type 0) (R : S → ℕ → Type 0) (Q : S → Type 0)
    → Succeeds o P
    → ((n : ℕ) → Succeeds o (λ s. R s n))
    → ((s : S) → P s → ((n : ℕ) → R s n) → Q s)
    → Succeeds o Q
Succeeds-both (ok a s) P R Q h k f = f s h k
Succeeds-both (throw e s) P R Q h k f = elim h [ ]

pub Yields-chain :
    {S A B : Type 0} (o : Outcome S A) (f : A → Exec S B) (P : A → S → Type 0) (Q : B → S → Type 0)
    → Yields o P
    → ((a : A) (s : S) → P a s → Yields (f a s) Q)
    → Yields (continue o f) Q
Yields-chain (ok a s) f P Q h k = k a s h
Yields-chain (throw e s) f P Q h k = elim h [ ]

pub Yields-map :
    {S A : Type 0} (o : Outcome S A) (P Q : A → S → Type 0)
    → Yields o P
    → ((a : A) (s : S) → P a s → Q a s)
    → Yields o Q
Yields-map (ok a s) P Q h k = k a s h
Yields-map (throw e s) P Q h k = elim h [ ]

pub Succeeds-state : {S A : Type 0} (P : S → Type 0) (o : Outcome S A) → Succeeds o P → P (state o)
Succeeds-state P (ok a s) h = h
Succeeds-state P (throw e s) h = elim h [ ]

-- What two pieces of code keep, exception or not, they keep one behind the other.
pub state-continue :
    {S A B : Type 0} (P : S → Type 0) (o : Outcome S A) (f : A → Exec S B)
    → P (state o)
    → ((a : A) (s : S) → P s → P (state (f a s)))
    → P (state (continue o f))
state-continue P (ok a s) f h k = k a s h
state-continue P (throw e s) f h k = h
