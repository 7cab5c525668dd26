-- ===== src/Common/Area/Write.antt =====
-- Serialization into an area: what is written, and when it overflows.
use native.Mathlib.Decide.{dec_lt}
use mathlib.Core.List.{append_assoc, append-nil}
use dcp_vardis.Prelude.{
  ℕ, zero, suc, ◌*◌, ◌+◌, ◌-◌, ◌/◌, ◌%◌, ◌^◌, ◌≤◌, ◌<◌, ◌≡◌, refl, ◌∙◌, ap, inl, inr, List, [], ◌∷◌,
  ◌++◌, arith, length, length-append, ltb, Bool-cases, if◌then◌else◌,
}
use dcp_vardis.Prelude.Effect.{
  Error, assembly_area_exception, Outcome, Exec, Void, state, ok, throw, continue, pure, ◌>>◌,
}
use dcp_vardis.Common.Area.{
  AssemblyArea, serialize_byte, serialize_byte_block, serialize_uint16_n, serialize_uint32_n,
  serialize_uint64_n,
}

-- The counters add up, and count the bytes that were written.
pub record IsValid (a : AssemblyArea) : Type 0 where
  pub balanced : a.bytes_used + a.bytes_available ≡ a.initial_available
  pub counted : length a.written ≡ a.bytes_used

-- The area with `bs` written behind what it holds.
unfoldable pub append : AssemblyArea → List ℕ → AssemblyArea
append a bs = record a {
  bytes_used = a.bytes_used + length bs;
  bytes_available = a.bytes_available - length bs;
  written = a.written ++ bs;
}

abbrev pub IsThrow : {S A : Type 0} → Outcome S A → Type 0
IsThrow (ok a s) = ⊥
IsThrow (throw e s) = Unit {0}

-- `m` writes exactly the bytes `bs` if they fit, and throws if they do not.
pub record Writes (m : Exec AssemblyArea Void) (bs : List ℕ) : Type 0 where
  pub fits : (a : AssemblyArea) → length bs ≤ a.bytes_available → m a ≡ ok tt (append a bs)
  pub overflows : (a : AssemblyArea) → a.bytes_available < length bs → IsThrow (m a)

append-IsValid :
    (a : AssemblyArea) (bs : List ℕ)
    → length bs ≤ a.bytes_available
    → IsValid a
    → IsValid (append a bs)
unfolding append
append-IsValid a bs h v = omega (arith, length-append a.written bs)

pub append-append :
    (a : AssemblyArea) (bs cs : List ℕ) → append (append a bs) cs ≡ append a (bs ++ cs)
unfolding append
append-append a bs cs = ground (arith, length-append bs cs, append_assoc a.written bs cs)

pub append_nothing : (a : AssemblyArea) → append a [] ≡ a
unfolding append
append_nothing a = ground (arith, append-nil a.written)

pub bytes_available-append :
    (a : AssemblyArea) (bs : List ℕ) → (append a bs).bytes_available ≡ a.bytes_available - length bs
unfolding append
bytes_available-append a bs = refl

pub Writes-byte : (b : ℕ) → Writes (serialize_byte b) (b ∷ [])
unfolding serialize_byte append
Writes-byte b = record { fits = λ a h. ground arith; overflows = λ a h. ground arith }

pub Writes-block : (pb : List ℕ) → 0 < length pb → Writes (serialize_byte_block pb) pb
unfolding serialize_byte_block append
Writes-block pb h = record { fits = λ a k. ground arith; overflows = λ a k. ground arith }

pub Writes-pure : Writes (pure tt) []
unfolding append
Writes-pure = record {
  fits = λ a h. ground (arith, append-nil a.written);
  overflows = λ a h. absurd (omega arith);
}

IsThrow-continue :
    {S A B : Type 0} (o : Outcome S A) (f : A → Exec S B) → IsThrow o → IsThrow (continue o f)
IsThrow-continue (ok a s) f h = elim h [ ]
IsThrow-continue (throw e s) f h = tt

pub Writes->> :
    {m k : Exec AssemblyArea Void} {bs cs : List ℕ}
    → Writes m bs
    → Writes k cs
    → Writes (m >> k) (bs ++ cs)
unfolding append
Writes->> {m} {k} {bs} {cs} v w = record { fits = both; overflows = late }
  where
    both :
        (a : AssemblyArea)
        → length (bs ++ cs) ≤ a.bytes_available
        → continue (m a) (λ _. k) ≡ ok tt (append a (bs ++ cs))
    both a h = rw (v.fits a (omega (arith, length-append bs cs))) (
        w.fits (append a bs) (omega (arith, length-append bs cs))
        ∙ ap (ok tt) (append-append a bs cs))

    late :
        (a : AssemblyArea)
        → a.bytes_available < length (bs ++ cs)
        → IsThrow (continue (m a) (λ _. k))
    late a h = elim (dec_lt a.bytes_available (length bs)) [
      | yes p ↦ IsThrow-continue (m a) (λ _. k) (v.overflows a p)
      | no p ↦
          rw (v.fits a (omega arith))
            (w.overflows (append a bs) (omega (arith, length-append bs cs)))
    ]

-- A guard that only throws when the bytes do not fit changes nothing.
Writes-guard :
    {m : Exec AssemblyArea Void} {bs : List ℕ} (n : ℕ) (e : Error)
    → n ≤ length bs
    → Writes m bs
    → Writes (λ a. if ltb a.bytes_available n then throw e a else m a) bs
Writes-guard {m} {bs} n e h v = record {
  fits = λ a k. ground (arith, v.fits a);
  overflows = λ a k. elim (Bool-cases (ltb a.bytes_available n)) [
    | inl t ↦ rw t tt
    | inr f ↦ rw f (v.overflows a k)
  ];
}

-- The wire format of an unsigned integer of `w` bytes: the most significant byte first.
abbrev pub big_endian : ℕ → ℕ → List ℕ
big_endian zero v = []
big_endian (suc w) v = (v / 2 ^ (8 * w) % 2 ^ 8) ∷ big_endian w v

Writes-low : (v : ℕ) → Writes (serialize_byte (v % 2 ^ 8)) (big_endian 1 v)
Writes-low v = let e : v / 1 ≡ v = omega arith in rw e (Writes-byte (v % 2 ^ 8))

-- `serialize_uint16_n` writes the two bytes of its argument, or throws where they do not fit.
pub Writes-uint16 : (v : ℕ) → Writes (serialize_uint16_n v) (big_endian 2 v)
unfolding serialize_uint16_n
Writes-uint16 v =
    Writes-guard 2 assembly_area_exception (omega arith)
      (Writes->> (Writes-byte (v / 2 ^ 8 % 2 ^ 8)) (Writes-low v))

pub Writes-uint32 : (v : ℕ) → Writes (serialize_uint32_n v) (big_endian 4 v)
unfolding serialize_uint32_n
Writes-uint32 v = Writes-guard 4 assembly_area_exception (omega arith) (
    Writes->> (Writes-byte (v / 2 ^ 24 % 2 ^ 8)) (
      Writes->> (Writes-byte (v / 2 ^ 16 % 2 ^ 8))
        (Writes->> (Writes-byte (v / 2 ^ 8 % 2 ^ 8)) (Writes-low v))))

pub Writes-uint64 : (v : ℕ) → Writes (serialize_uint64_n v) (big_endian 8 v)
unfolding serialize_uint64_n
Writes-uint64 v = Writes-guard 4 assembly_area_exception (omega arith) (
    Writes->> (Writes-byte (v / 2 ^ 56 % 2 ^ 8)) (
      Writes->> (Writes-byte (v / 2 ^ 48 % 2 ^ 8)) (
        Writes->> (Writes-byte (v / 2 ^ 40 % 2 ^ 8)) (
          Writes->> (Writes-byte (v / 2 ^ 32 % 2 ^ 8)) (
            Writes->> (Writes-byte (v / 2 ^ 24 % 2 ^ 8)) (
              Writes->> (Writes-byte (v / 2 ^ 16 % 2 ^ 8))
                (Writes->> (Writes-byte (v / 2 ^ 8 % 2 ^ 8)) (Writes-low v))))))))

-- A write that fits keeps the counters right.
pub Writes-IsValid :
    {m : Exec AssemblyArea Void} {bs : List ℕ}
    → Writes m bs
    → (a : AssemblyArea) → length bs ≤ a.bytes_available
    → IsValid a
    → IsValid (state (m a))
Writes-IsValid {m} {bs} w a h v = rw (w.fits a h) (append-IsValid a bs h v)
