-- ===== src/Vardis/Receiver/Halves.antt =====
-- Where the loop over the containers of a payload stops.
use dcp_vardis.Prelude.{ℕ, suc, zero, ◌+◌, ◌≤◌, ◌<◌, ◌≡◌, List, ◌++◌, length, lt→ltb, arith, some}
use dcp_vardis.Prelude.Effect.{ok}
use dcp_vardis.Common.TimeStamp.{HostClock}
use dcp_vardis.Common.Area.{DisassemblyArea}
use dcp_vardis.Common.Area.Read.{Reads, advance}
use dcp_vardis.Vardis.Receiver.{Received, next_container, extract_loop}

extract_loop-stops :
    (clock : HostClock) (fuel : ℕ) (r : Received) (area : DisassemblyArea)
    → area.bytes_available ≤ area.bytes_used
    → extract_loop clock fuel r area ≡ ok (some r) area
unfolding extract_loop
extract_loop-stops clock zero r area h = ground arith
extract_loop-stops clock (suc fuel) r area h = ground arith

-- On an area of which nothing has been read, the loop (with fuel for a round) reads the first
-- container and nothing of the bytes behind it, if these are no more than those of the container:
-- they are dropped without an exception, whatever they are.
pub extract_loop-second_half :
    (clock : HostClock) (fuel : ℕ) (r s : Received) (area : DisassemblyArea) (bs rest : List ℕ)
    → Reads (next_container clock r) s bs
    → 0 < length bs
    → length rest ≤ length bs
    → area.bytes_used ≡ 0
    → area.bytes_available ≡ length bs + length rest
    → area.pending ≡ bs ++ rest
    → extract_loop clock (suc fuel) r area ≡ ok (some s) (advance area (length bs) rest)
unfolding extract_loop advance
extract_loop-second_half clock fuel r s area bs rest m nonempty few u a e =
    let first = m.reads area rest e (omega arith) in
    simp (lt→ltb area.bytes_used area.bytes_available (omega arith), first)
      (extract_loop-stops clock fuel s (advance area (length bs) rest) (omega arith))
