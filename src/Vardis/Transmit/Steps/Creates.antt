-- ===== src/Vardis/Transmit/Steps/Creates.antt =====
-- One VarCreate record is sent.
use dcp_vardis.Prelude.{
  ℕ, ◌%◌, ◌^◌, ◌≤◌, ◌<◌, ◌≡◌, refl, sym, ◌∙◌, true, List, [], ◌∷◌, arith, length, update_same, ltb,
  if◌then◌else◌, ==_refl, ◌&&◌,
}
use dcp_vardis.Prelude.Effect.{Succeeds, ok}
use dcp_vardis.Common.TimeStamp.{HostClock}
use dcp_vardis.Common.Area.{AssemblyArea}
use dcp_vardis.Common.Area.Write.{append}
use dcp_vardis.Vardis.Types.{VarCreateT}
use dcp_vardis.Vardis.Types.Codec.{serialize_create}
use dcp_vardis.Vardis.Types.Wire.{encode_create, Writes-create, length-encode_create}
use dcp_vardis.Vardis.Queue.{remove, insert}
use dcp_vardis.Vardis.Queue.Laws.{IsValid}
use dcp_vardis.Vardis.Queue.Requeue.{requeue, contains-requeue, requeue-IsValid, queue-requeue}
use dcp_vardis.Vardis.Store.{
  IdentifierState, set_state, read_value, read_description, get_db_entry, modify_db_entry,
}
use dcp_vardis.Vardis.Data.{Data}
use dcp_vardis.Vardis.Invariant.{At, Good, IsConfigured}
use dcp_vardis.Vardis.Transmit.{Tx, send_next}
use dcp_vardis.Vardis.Transmit.Records.{Sent, Sends}
use dcp_vardis.Vardis.Transmit.Steps.{slot, take_next_lem, contains-front, read_back_IsValidValue}
use dcp_vardis.Vardis.Transmit.Kinds.{
  instruction_size_var_create, send_create, add_var_create, create_record, decrement, creates,
}

-- The record that goes out for a slot.
abbrev pub create_of : IdentifierState → VarCreateT
create_of i =
    create_record i.db_entry i.descr (record { len = length i.value % 2 ^ 8; block = i.value })

-- The slot with the repetition counter stepped down.
abbrev pub created_once : IdentifierState → IdentifierState
created_once i = record i {
  db_entry = record i.db_entry { count_create = decrement i.db_entry.count_create };
}

send_create_lem :
    (clock : HostClock) (t : Tx) (v : ℕ) (a : AssemblyArea)
    → (slot t.protocol v).used ≡ true
    → 0 < (slot t.protocol v).db_entry.count_create
    → (slot t.protocol v).db_entry.var_id ≡ v
    → serialize_create clock (create_of (slot t.protocol v)) t.area ≡ ok tt a
    → send_create clock v t
      ≡ ok tt (record t {
        area = a;
        protocol = record t.protocol {
          store = set_state v (created_once (slot t.protocol v)) t.protocol.store;
          create_q =
              if ltb 0 (decrement (slot t.protocol v).db_entry.count_create)
              then insert t.protocol.create_q v
              else t.protocol.create_q;
        };
      })
unfolding send_create add_var_create create_record get_db_entry modify_db_entry read_value
    read_description
send_create_lem clock t v a u c i w = ground (arith, ==_refl v)

-- The records of VarCreate containers.
abbrev pub create_bytes : HostClock → Data → ℕ → List ℕ
create_bytes clock d v = encode_create clock (create_of (slot d v))

-- The protocol data after `v` has been sent.
abbrev created : Data → ℕ → Data
created d v = record d {
  store = set_state v (created_once (slot d v)) d.store;
  create_q = requeue (ltb 0 (decrement (slot d v).db_entry.count_create)) d.create_q v;
}

created-At :
    (d : Data) (v w : ℕ)
    → IsConfigured d
    → (slot d v).used ≡ true
    → 0 < (slot d v).db_entry.count_create
    → At d v
    → At d w
    → At (created d v) w
created-At d v w c u n here there =
    ground
      (arith, contains-requeue (ltb 0 (decrement (slot d v).db_entry.count_create)) d.create_q v w)

created-Good :
    (d : Data) (v : ℕ)
    → (slot d v).used ≡ true
    → 0 < (slot d v).db_entry.count_create
    → Good d
    → Good (created d v)
created-Good d v u n g = record {
  configured = ground arith;
  queues = record {
    create_valid = requeue-IsValid _ v g.queues.create_valid;
    delete_valid = g.queues.delete_valid;
    update_valid = g.queues.update_valid;
    summary_valid = g.queues.summary_valid;
    req_upd_valid = g.queues.req_upd_valid;
    req_create_valid = g.queues.req_create_valid;
  };
  coherent = λ w. created-At d v w g.configured u n (g.coherent v) (g.coherent w);
}

create_bytes-created :
    (clock : HostClock) (d : Data) (v w : ℕ)
    → create_bytes clock (created d v) w ≡ create_bytes clock d w
unfolding create_record
create_bytes-created clock d v w =
    update_same (λ i. encode_create clock (create_of i)) d.store.id_states v
      (created_once (slot d v)) refl w

creates-sends :
    (clock : HostClock) (t : Tx) (v : ℕ) (rest : List ℕ)
    → Good t.protocol
    → t.protocol.create_q.queue ≡ v ∷ rest
    → length (create_bytes clock t.protocol v) ≤ t.area.bytes_available
    → Succeeds (send_next (creates clock) t) (Sent (creates clock) (create_bytes clock) t v rest)
unfolding send_next create_record
creates-sends clock t v rest g e h =
    rw
      (
        take_next_lem (creates clock) d v rest valid e,
        send_create_lem clock (record t { protocol = record d { create_q = remove d.create_q v } })
            v (append t.area (create_bytes clock d v)) used some_left (i.legal used).own_id
            ((Writes-create clock (create_of (slot d v))
                (read_back_IsValidValue d v g.configured (i.legal used).value_at_most)).fits
              t.area h),
      )
      (record {
        good = created-Good d v used some_left g;
        wrote = refl;
        back = if ltb 0 (decrement (slot d v).db_entry.count_create) then v ∷ [] else [];
        left = queue-requeue _ v rest valid e;
        same = create_bytes-created clock d v;
        count = refl;
      })
  where
    d : Data
    d = t.protocol

    i : At d v
    i = g.coherent v

    valid : IsValid d.create_q
    valid = g.queues.create_valid

    queued : ((slot d v).used && ltb 0 (slot d v).db_entry.count_create) ≡ true
    queued = sym i.creates ∙ contains-front v rest valid e

    used : (slot d v).used ≡ true
    used = ground (arith, queued)

    some_left : 0 < (slot d v).db_entry.count_create
    some_left = ground (arith, queued)

create_bytes-size :
    (clock : HostClock) (d : Data) (v : ℕ)
    → length (create_bytes clock d v) ≡ instruction_size_var_create d v
unfolding instruction_size_var_create create_record
create_bytes-size clock d v = length-encode_create clock (create_of (slot d v))

-- VarCreate containers can be sent.
pub creates-Sends : (clock : HostClock) → Sends (creates clock) (create_bytes clock)
creates-Sends clock = record {
  valid = λ d g. g.queues.create_valid;
  sized = λ d v g c. create_bytes-size clock d v;
  capped = λ d n h on. (h, omega arith);
  sends = creates-sends clock;
}
