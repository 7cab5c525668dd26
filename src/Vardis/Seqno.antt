-- ===== src/Vardis/Seqno.antt =====
-- `more_recent_seqno` of dcp/vardis/vardis_transmissible_types.h: sequence numbers of one byte,
-- compared round the circle of 256.
use dcp_vardis.Prelude.{
  ℕ, ◌+◌, ◌-◌, ◌%◌, ◌^◌, ◌<◌, ◌≡◌, Bool, false, ◌&&◌, ◌||◌, ◌⊎◌, ◌↔◌, arith, ltb, leb,
}

-- `operator-` of TransmissibleIntegral<byte>, which wraps.
abbrev pub sub_byte : ℕ → ℕ → ℕ
sub_byte a b = (a + 2 ^ 8 - b) % 2 ^ 8

-- VarSeqnoT::modulus
abbrev pub modulus : ℕ
modulus = 255 + 1

unfoldable pub more_recent_seqno : ℕ → ℕ → Bool
more_recent_seqno a b = (ltb b a && leb (sub_byte a b) 127) || (ltb a b && ltb 128 (sub_byte b a))

-- For bytes `a` and `b`: `a` is more recent than `b` exactly when it lies 1 to 127 steps ahead of
-- `b` on the circle of 256.
pub more_recent_seqno_lem :
    (a b : ℕ)
    → a < 2 ^ 8
    → b < 2 ^ 8
    → more_recent_seqno a b ≡ (ltb 0 (sub_byte a b) && ltb (sub_byte a b) 128)
unfolding more_recent_seqno
more_recent_seqno_lem a b h k = ground arith

-- Of two sequence numbers of one byte not both are more recent than the other; neither is exactly
-- when they are equal or opposite on the circle, 128 steps apart.
pub more_recent_seqno_order :
    (a b : ℕ)
    → a < 2 ^ 8
    → b < 2 ^ 8
    → ((more_recent_seqno a b && more_recent_seqno b a) ≡ false)
      × (((more_recent_seqno a b || more_recent_seqno b a) ≡ false)
          ↔ ((a ≡ b) ⊎ (sub_byte a b ≡ 128)))
unfolding more_recent_seqno
more_recent_seqno_order a b h k = (ground arith, (λ e. ground arith, λ e. ground arith))
