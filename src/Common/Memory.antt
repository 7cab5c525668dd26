-- ===== src/Common/Memory.antt =====
-- Byte arrays: what `std::memcpy` writes into one, and what is read back.
use dcp_vardis.Prelude.{
  ℕ, zero, suc, ◌+◌, ◌≤◌, ◌<◌, ◌≡◌, ◌⊎◌, inl, refl, ap, ◌∙◌, List, [], ◌∷◌, length, arith, update,
  ==_refl,
}
use mathlib.Core.Path.{ap₂}

unfoldable pub write_block : (ℕ → ℕ) → ℕ → List ℕ → ℕ → ℕ
write_block buffer offs [] = buffer
write_block buffer offs (b ∷ bs) = write_block (update buffer offs b) (offs + 1) bs

unfoldable pub read_block : (ℕ → ℕ) → ℕ → ℕ → List ℕ
read_block buffer offs zero = []
read_block buffer offs (suc n) = buffer offs ∷ read_block buffer (offs + 1) n

-- Outside its range a write changes nothing.
write_block-outside :
    (buffer : ℕ → ℕ) (offs : ℕ) (bs : List ℕ) (j : ℕ)
    → (j < offs) ⊎ (offs + length bs ≤ j)
    → write_block buffer offs bs j ≡ buffer j
unfolding write_block
write_block-outside buffer offs [] j h = refl
write_block-outside buffer offs (b ∷ bs) j h =
    write_block-outside (update buffer offs b) (offs + 1) bs j (omega (arith, h))
    ∙ ground (arith, h)

pub length-read_block : (buffer : ℕ → ℕ) (offs n : ℕ) → length (read_block buffer offs n) ≡ n
unfolding read_block
length-read_block buffer offs zero = refl
length-read_block buffer offs (suc n) = ap suc (length-read_block buffer (offs + 1) n)

-- What has been written is read.
pub read_block-write_block :
    (buffer : ℕ → ℕ) (offs : ℕ) (bs : List ℕ)
    → read_block (write_block buffer offs bs) offs (length bs) ≡ bs
unfolding read_block write_block
read_block-write_block buffer offs [] = refl
read_block-write_block buffer offs (b ∷ bs) =
    ap₂ ◌∷◌
      (write_block-outside (update buffer offs b) (offs + 1) bs offs (inl (omega arith))
        ∙ ground (arith, ==_refl offs))
      (read_block-write_block (update buffer offs b) (offs + 1) bs)

-- A write leaves what lies apart from it.
pub read_block-apart :
    (buffer : ℕ → ℕ) (offs : ℕ) (bs : List ℕ) (from n : ℕ)
    → (offs + length bs ≤ from) ⊎ (from + n ≤ offs)
    → read_block (write_block buffer offs bs) from n ≡ read_block buffer from n
unfolding read_block
read_block-apart buffer offs bs from zero h = refl
read_block-apart buffer offs bs from (suc n) h =
    ap₂ ◌∷◌ (write_block-outside buffer offs bs from (omega (arith, h)))
      (read_block-apart buffer offs bs (from + 1) n (omega (arith, h)))
