-- ===== src/Vardis/Receive/Delivery.antt =====
-- An update on its way from one node to another.
use dcp_vardis.Prelude.{ℕ, ◌≤◌, ◌<◌, ◌≡◌, ◌≢◌, refl, true, false, List, arith, length}
use dcp_vardis.Prelude.Effect.{continue, Succeeds}
use dcp_vardis.Common.Area.{AssemblyArea}
use dcp_vardis.Common.Area.Write.{append}
use dcp_vardis.Vardis.Types.{VarUpdateT}
use dcp_vardis.Vardis.Types.Wire.{IsValidValue, Writes-update}
use dcp_vardis.Vardis.Transmit.{Tx}
use dcp_vardis.Vardis.Transmit.Kinds.{instruction_size_var_update, send_update}
use dcp_vardis.Common.Area.Read.{Reads}
use dcp_vardis.Vardis.Types.Codec.{deserialize_update}
use dcp_vardis.Vardis.Types.RoundTrip.{Reads-update}
use dcp_vardis.Vardis.Seqno.{more_recent_seqno}
use dcp_vardis.Vardis.Data.{Data}
use dcp_vardis.Vardis.Invariant.{Good, IsLegal}
use dcp_vardis.Vardis.Receive.{process_var_update}
use dcp_vardis.Vardis.Service.{status_ok, handle_rtdb_read_request}
use dcp_vardis.Vardis.Service.Reads.{Confirms, IsForeign, process_var_update-read}
use dcp_vardis.Vardis.Transmit.Steps.{slot, read_back_IsValidValue}
use dcp_vardis.Vardis.Transmit.Steps.Updates.{
  update_of, update_bytes, update_bytes-size, send_update_lem,
}

-- Between the areas `a` and `a'`, a record has been written with which `value` gets to `c`: read
-- back, it is the same record; and once `c` has processed it at the time `now`, a request to read
-- `v` is answered with `value` and this time.
pub record Delivers (c : Data) (now v : ℕ) (value : List ℕ) (a a' : AssemblyArea) : Type 0 where
  bytes : List ℕ
  sent : VarUpdateT
  wrote : a' ≡ append a bytes
  reads : Reads deserialize_update sent bytes
  answered :
      Confirms
        (continue (process_var_update now sent c) λ _. handle_rtdb_read_request v)
        (record { status = status_ok; value = value; t_stamp = now })

-- What a node writes when it sends an update of its variable `v` is read by another node as a record
-- with which the value gets there: once the other node has processed it, its applications read the
-- value of the first node and the time of reception. The first node has repetitions of the update
-- left, and room for the record in its area. The second node has the variable, not deleted and of a
-- foreign producer; its sequence number is another one and not more recent, and its limit on the
-- length of values is not exceeded. The data of both nodes satisfy the invariant.
pub update-delivered :
    (t : Tx) (c : Data) (now v : ℕ)
    → Good t.protocol
    → Good c
    → (slot t.protocol v).used ≡ true
    → 0 < (slot t.protocol v).db_entry.count_update
    → instruction_size_var_update t.protocol v ≤ t.area.bytes_available
    → c.store.is_active ≡ true
    → IsForeign c v
    → length (slot t.protocol v).value ≤ c.max_value_length
    → (slot c v).db_entry.seqno ≢ (slot t.protocol v).db_entry.seqno
    → more_recent_seqno (slot c v).db_entry.seqno (slot t.protocol v).db_entry.seqno ≡ false
    → Succeeds (send_update v t) λ t'. Delivers c now v (slot t.protocol v).value t.area t'.area
update-delivered t c now v g h u left room on f k new newer =
    rw
      (send_update_lem t v (append t.area (update_bytes p v)) u left l.own_id (
        (Writes-update (update_of (slot p v)) small).fits t.area
          (omega (arith, update_bytes-size p v))))
      (record {
        bytes = update_bytes p v;
        sent = update_of (slot p v);
        wrote = refl;
        reads = Reads-update (update_of (slot p v)) small;
        answered = rw l.own_id (
            process_var_update-read c now
              (record {
                var_id = v;
                seqno = (slot p v).db_entry.seqno;
                value = (update_of (slot p v)).value;
              })
              h on f l.value_some k new newer);
      })
  where
    p : Data
    p = t.protocol

    l : IsLegal p v (slot p v)
    l = (g.coherent v).legal u

    small : IsValidValue (update_of (slot p v)).value
    small = read_back_IsValidValue p v g.configured l.value_at_most
