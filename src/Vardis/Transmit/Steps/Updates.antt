-- ===== src/Vardis/Transmit/Steps/Updates.antt =====
-- One VarUpdate record is sent.
use dcp_vardis.Prelude.{
  ℕ, ◌%◌, ◌^◌, ◌≤◌, ◌<◌, ◌≡◌, refl, sym, ◌∙◌, true, List, [], ◌∷◌, arith, length, update_same, ltb,
  if◌then◌else◌, ==_refl, ◌&&◌,
}
use dcp_vardis.Prelude.Effect.{Succeeds, ok}
use dcp_vardis.Common.Area.{AssemblyArea}
use dcp_vardis.Common.Area.Write.{append}
use dcp_vardis.Vardis.Types.{VarUpdateT}
use dcp_vardis.Vardis.Types.Codec.{serialize_update}
use dcp_vardis.Vardis.Types.Wire.{encode_update, Writes-update}
use dcp_vardis.Vardis.Queue.{remove, insert}
use dcp_vardis.Vardis.Queue.Laws.{IsValid}
use dcp_vardis.Vardis.Queue.Requeue.{requeue, contains-requeue, requeue-IsValid, queue-requeue}
use dcp_vardis.Vardis.Store.{IdentifierState, set_state, read_value, get_db_entry, modify_db_entry}
use dcp_vardis.Vardis.Data.{Data}
use dcp_vardis.Vardis.Invariant.{At, Good, IsConfigured}
use dcp_vardis.Vardis.Transmit.{Tx, send_next}
use dcp_vardis.Vardis.Transmit.Records.{Sent, Sends}
use dcp_vardis.Vardis.Transmit.Steps.{slot, take_next_lem, contains-front, read_back_IsValidValue}
use dcp_vardis.Vardis.Transmit.Kinds.{
  instruction_size_var_update, send_update, add_var_update, decrement, updates,
}

-- The record that goes out for a slot.
abbrev pub update_of : IdentifierState → VarUpdateT
update_of i = record {
  var_id = i.db_entry.var_id;
  seqno = i.db_entry.seqno;
  value = record { len = length i.value % 2 ^ 8; block = i.value };
}

-- The slot with the repetition counter stepped down.
abbrev pub updated_once : IdentifierState → IdentifierState
updated_once i = record i {
  db_entry = record i.db_entry { count_update = decrement i.db_entry.count_update };
}

pub send_update_lem :
    (t : Tx) (v : ℕ) (a : AssemblyArea)
    → (slot t.protocol v).used ≡ true
    → 0 < (slot t.protocol v).db_entry.count_update
    → (slot t.protocol v).db_entry.var_id ≡ v
    → serialize_update (update_of (slot t.protocol v)) t.area ≡ ok tt a
    → send_update v t
      ≡ ok tt (record t {
        area = a;
        protocol = record t.protocol {
          store = set_state v (updated_once (slot t.protocol v)) t.protocol.store;
          update_q =
              if ltb 0 (decrement (slot t.protocol v).db_entry.count_update)
              then insert t.protocol.update_q v
              else t.protocol.update_q;
        };
      })
unfolding send_update add_var_update get_db_entry modify_db_entry read_value
send_update_lem t v a u c i w = ground (arith, ==_refl v)

-- The records of VarUpdate containers.
abbrev pub update_bytes : Data → ℕ → List ℕ
update_bytes d v = encode_update (update_of (slot d v))

-- The protocol data after `v` has been sent.
abbrev updated : Data → ℕ → Data
updated d v = record d {
  store = set_state v (updated_once (slot d v)) d.store;
  update_q = requeue (ltb 0 (decrement (slot d v).db_entry.count_update)) d.update_q v;
}

updated-At :
    (d : Data) (v w : ℕ)
    → IsConfigured d
    → (slot d v).used ≡ true
    → 0 < (slot d v).db_entry.count_update
    → At d v
    → At d w
    → At (updated d v) w
updated-At d v w c u n here there =
    ground
      (arith, contains-requeue (ltb 0 (decrement (slot d v).db_entry.count_update)) d.update_q v w)

updated-Good :
    (d : Data) (v : ℕ)
    → (slot d v).used ≡ true
    → 0 < (slot d v).db_entry.count_update
    → Good d
    → Good (updated d v)
updated-Good d v u n g = record {
  configured = ground arith;
  queues = record {
    create_valid = g.queues.create_valid;
    delete_valid = g.queues.delete_valid;
    update_valid = requeue-IsValid _ v g.queues.update_valid;
    summary_valid = g.queues.summary_valid;
    req_upd_valid = g.queues.req_upd_valid;
    req_create_valid = g.queues.req_create_valid;
  };
  coherent = λ w. updated-At d v w g.configured u n (g.coherent v) (g.coherent w);
}

update_bytes-updated : (d : Data) (v w : ℕ) → update_bytes (updated d v) w ≡ update_bytes d w
update_bytes-updated d v w =
    update_same (λ i. encode_update (update_of i)) d.store.id_states v (updated_once (slot d v))
      refl w

updates-sends :
    (t : Tx) (v : ℕ) (rest : List ℕ)
    → Good t.protocol
    → t.protocol.update_q.queue ≡ v ∷ rest
    → length (update_bytes t.protocol v) ≤ t.area.bytes_available
    → Succeeds (send_next updates t) (Sent updates update_bytes t v rest)
unfolding send_next
updates-sends t v rest g e h =
    rw
      (
        take_next_lem updates d v rest valid e,
        send_update_lem (record t { protocol = record d { update_q = remove d.update_q v } }) v
            (append t.area (update_bytes d v)) used some_left (i.legal used).own_id
            ((Writes-update (update_of (slot d v))
                (read_back_IsValidValue d v g.configured (i.legal used).value_at_most)).fits
              t.area h),
      )
      (record {
        good = updated-Good d v used some_left g;
        wrote = refl;
        back = if ltb 0 (decrement (slot d v).db_entry.count_update) then v ∷ [] else [];
        left = queue-requeue _ v rest valid e;
        same = update_bytes-updated d v;
        count = refl;
      })
  where
    d : Data
    d = t.protocol

    i : At d v
    i = g.coherent v

    valid : IsValid d.update_q
    valid = g.queues.update_valid

    queued : ((slot d v).used && ltb 0 (slot d v).db_entry.count_update) ≡ true
    queued = sym i.updates ∙ contains-front v rest valid e

    used : (slot d v).used ≡ true
    used = ground (arith, queued)

    some_left : 0 < (slot d v).db_entry.count_update
    some_left = ground (arith, queued)

pub update_bytes-size :
    (d : Data) (v : ℕ) → length (update_bytes d v) ≡ instruction_size_var_update d v
unfolding instruction_size_var_update
update_bytes-size d v = omega arith

-- VarUpdate containers can be sent.
pub updates-Sends : Sends updates update_bytes
updates-Sends = record {
  valid = λ d g. g.queues.update_valid;
  sized = λ d v g c. update_bytes-size d v;
  capped = λ d n h on. (h, omega arith);
  sends = updates-sends;
}
