-- ===== src/Common/Area/Read.antt =====
-- Reading from an area: which bytes are consumed, and that reading undoes writing.
use mathlib.Core.List.{append_assoc}
use dcp_vardis.Prelude.{
  ℕ, ◌+◌, ◌-◌, ◌^◌, ◌≤◌, ◌<◌, ◌≡◌, refl, sym, ◌∙◌, ap, List, [], ◌∷◌, ◌++◌, arith, length,
  length-append, drop, take, drop-length, take-length,
}
use dcp_vardis.Prelude.Effect.{Exec, ok, continue, ◌>>=◌, pure}
use dcp_vardis.Common.Area.{
  DisassemblyArea, deserialize_byte, deserialize_byte_block, deserialize_uint16_n,
  deserialize_uint32_n,
}
use dcp_vardis.Common.Area.Write.{big_endian}

-- The counters add up, and as many bytes are available as the buffer still has.
pub record IsReadable (d : DisassemblyArea) : Type 0 where
  pub balanced : d.bytes_used + d.bytes_available ≡ d.initial_available
  pub covered : length d.pending ≡ d.bytes_available

-- The area with `n` bytes consumed, of which `rest` is left.
unfoldable pub advance : DisassemblyArea → ℕ → List ℕ → DisassemblyArea
advance d n rest = record d {
  bytes_used = d.bytes_used + n;
  bytes_available = d.bytes_available - n;
  pending = rest;
}

pub advance-advance :
    (d : DisassemblyArea) (m n : ℕ) (r s : List ℕ)
    → advance (advance d m r) n s ≡ advance d (m + n) s
unfolding advance
advance-advance d m n r s = ground arith

-- Where the buffer continues with `bs`, `m` consumes just these bytes and returns `x`.
pub record Reads {A : Type 0} (m : Exec DisassemblyArea A) (x : A) (bs : List ℕ) : Type 0 where
  pub reads :
      (d : DisassemblyArea) (rest : List ℕ)
      → d.pending ≡ bs ++ rest
      → length bs ≤ d.bytes_available
      → m d ≡ ok x (advance d (length bs) rest)

pub Reads-pure : {A : Type 0} (x : A) → Reads (pure x) x []
unfolding advance
Reads-pure x = record { reads = λ d rest e h. ground arith }

pub Reads->>= :
    {A B : Type 0} {m : Exec DisassemblyArea A} (f : A → Exec DisassemblyArea B) {x : A} {y : B}
    {bs cs : List ℕ}
    → Reads m x bs
    → Reads (f x) y cs
    → Reads (m >>= f) y (bs ++ cs)
unfolding advance
Reads->>= {A} {B} {m} f {x} {y} {bs} {cs} v w = record { reads = both }
  where
    both :
        (d : DisassemblyArea) (rest : List ℕ)
        → d.pending ≡ (bs ++ cs) ++ rest
        → length (bs ++ cs) ≤ d.bytes_available
        → continue (m d) f ≡ ok y (advance d (length (bs ++ cs)) rest)
    both d rest e h =
        rw
          (v.reads d (cs ++ rest) (e ∙ append_assoc bs cs rest)
            (omega (arith, length-append bs cs)))
          (w.reads (advance d (length bs) (cs ++ rest)) rest refl
              (omega (arith, length-append bs cs))
            ∙ ap (ok y) (
                advance-advance d (length bs) (length cs) (cs ++ rest) rest
                ∙ ap (λ (n : ℕ). advance d n rest) (sym (length-append bs cs))))

pub Reads-byte : (b : ℕ) → Reads deserialize_byte b (b ∷ [])
unfolding deserialize_byte advance
Reads-byte b = record { reads = λ d rest e h. ground arith }

pub Reads-block : (pb : List ℕ) → 0 < length pb → Reads (deserialize_byte_block (length pb)) pb pb
unfolding deserialize_byte_block advance
Reads-block pb h = record {
  reads = λ d rest e k. ground (
    arith,
    ap (drop (length pb)) e,
    ap (take (length pb)) e,
    ap length e,
    drop-length pb rest,
    take-length pb rest,
    length-append pb rest,
  );
}

-- Reading an unsigned integer of 16 bits gives back what was written.
pub Reads-uint16 : (v : ℕ) → v < 2 ^ 16 → Reads deserialize_uint16_n v (big_endian 2 v)
unfolding deserialize_uint16_n deserialize_byte advance
Reads-uint16 v h = record { reads = λ d rest e k. ground arith }

pub Reads-uint32 : (v : ℕ) → v < 2 ^ 32 → Reads deserialize_uint32_n v (big_endian 4 v)
unfolding deserialize_uint32_n deserialize_byte advance
Reads-uint32 v h = record { reads = λ d rest e k. ground arith }
