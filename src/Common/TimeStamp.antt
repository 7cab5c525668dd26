-- ===== src/Common/TimeStamp.antt =====
-- TimeStampT of dcp/common/global_types_constants.h: a time point of the high resolution clock, as
-- its count of nanoseconds since the epoch.
-- The record is written to an area as the eight bytes that the host stores it in. How the host
-- does that is not in the repository: it is a parameter.
use dcp_vardis.Prelude.{
  ℕ, ◌-◌, ◌/◌, ◌%◌, ◌^◌, ◌<◌, ◌≤◌, ◌≡◌, List, length, if◌then◌else◌, ltb, arith, ◌*◌, ◌+◌,
}

pub record HostClock : Type 0 where
  pub to_bytes : ℕ → List ℕ
  pub of_bytes : List ℕ → ℕ
  pub length_to_bytes : (t : ℕ) → length (to_bytes t) ≡ 8
  pub of_bytes_to_bytes : (t : ℕ) → t < 2 ^ 63 → of_bytes (to_bytes t) ≡ t

-- The result is cast to 32 bits.
unfoldable pub milliseconds_passed_since : ℕ → ℕ → ℕ
milliseconds_passed_since t past = if ltb t past then 0 else (t - past) / 1000000 % 2 ^ 32

-- The result is at most the time that passed; and if that fits 32 bits of milliseconds, less than
-- a millisecond is missing from it. A reference time in the future counts as now.
pub milliseconds_passed_since_bounds :
    (t past : ℕ)
    → (milliseconds_passed_since t past * 1000000 ≤ t - past)
      × (t - past < 2 ^ 32 * 1000000
          → t - past < milliseconds_passed_since t past * 1000000 + 1000000)
unfolding milliseconds_passed_since
milliseconds_passed_since_bounds t past = (ground arith, λ h. ground arith)
