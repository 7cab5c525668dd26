-- ===== src/Vardis/Transmit/Steps.antt =====
-- The steps of the six kinds: what one round of the loop of each `makeICType*` function does.
pub mod Creates
pub mod Updates
pub mod Deletes
pub mod Summaries
pub mod Requests
use dcp_vardis.Prelude.{ℕ, ◌%◌, ◌^◌, ◌≤◌, ◌≡◌, true, List, ◌∷◌, length, arith}
use dcp_vardis.Prelude.Effect.{ok}
use dcp_vardis.Vardis.Queue.{VarIdQueue, elem, contains, remove, front, pop_front}
use dcp_vardis.Vardis.Queue.Laws.{IsValid, pop_front_lem}
use dcp_vardis.Vardis.Types.Wire.{IsValidValue}
use dcp_vardis.Vardis.Store.{IdentifierState}
use dcp_vardis.Vardis.Data.{Data}
use dcp_vardis.Vardis.Invariant.{IsConfigured}
use dcp_vardis.Vardis.Transmit.{Kind, take_next}

-- The front of a valid queue is taken without an exception.
pub take_next_lem :
    (k : Kind) (d : Data) (v : ℕ) (rest : List ℕ)
    → IsValid (k.queue d)
    → (k.queue d).queue ≡ v ∷ rest
    → take_next k d ≡ ok v (k.set_queue (remove (k.queue d) v) d)
unfolding take_next
take_next_lem k d v rest h e = let p = pop_front_lem v rest h e in rw (p.0, p.1)

abbrev pub slot : Data → ℕ → IdentifierState
slot d v = d.store.id_states v

-- An identifier at the front of a valid queue is contained in it.
pub contains-front :
    {q : VarIdQueue} (v : ℕ) (rest : List ℕ) → IsValid q → q.queue ≡ v ∷ rest → contains q v ≡ true
unfolding contains elem
contains-front {q} v rest h e = ground (arith, h.agree v)

-- The value that the store returns is one that `serialize` writes whole.
pub read_back_IsValidValue :
    (d : Data) (v : ℕ)
    → IsConfigured d
    → length (slot d v).value ≤ d.max_value_length
    → IsValidValue (record { len = length (slot d v).value % 2 ^ 8; block = (slot d v).value })
read_back_IsValidValue d v c h = omega arith
