-- ===== src/Vardis/Transmit/Steps/Requests.antt =====
-- One VarReqUpdate or VarReqCreate record is sent: the identifier leaves its queue.
use dcp_vardis.Prelude.{ℕ, ◌≤◌, ◌≡◌, refl, true, false, List, [], ◌∷◌, arith, length}
use dcp_vardis.Prelude.Effect.{Succeeds, ok}
use dcp_vardis.Common.Area.{AssemblyArea}
use dcp_vardis.Common.Area.Write.{append, Writes-byte}
use dcp_vardis.Vardis.Types.Codec.{serialize_req_update, serialize_req_create}
use dcp_vardis.Vardis.Types.Wire.{encode_summ, Writes-summ}
use dcp_vardis.Vardis.Queue.{remove}
use dcp_vardis.Vardis.Queue.Laws.{IsValid, contains-remove, remove-IsValid}
use dcp_vardis.Vardis.Queue.Requeue.{queue-requeue}
use dcp_vardis.Vardis.Store.{get_db_entry}
use dcp_vardis.Vardis.Data.{Data}
use dcp_vardis.Vardis.Invariant.{At, Good}
use dcp_vardis.Vardis.Transmit.{Tx, send_next}
use dcp_vardis.Vardis.Transmit.Records.{Sent, Sends}
use dcp_vardis.Vardis.Transmit.Steps.{slot, take_next_lem, contains-front}
use dcp_vardis.Vardis.Transmit.Steps.Summaries.{summary_of}
use dcp_vardis.Vardis.Transmit.Kinds.{
  send_req_update, add_var_req_update, req_updates, send_req_create, add_var_req_create,
  req_creates,
}

-- The records of VarReqUpdate containers: what this node has of the variable.
abbrev pub req_update_bytes : Data → ℕ → List ℕ
req_update_bytes d v = encode_summ (summary_of d v)

abbrev pub req_create_bytes : Data → ℕ → List ℕ
req_create_bytes d v = v ∷ []

send_req_update_lem :
    (t : Tx) (v : ℕ) (a : AssemblyArea)
    → (slot t.protocol v).used ≡ true
    → serialize_req_update (record { upd_spec = summary_of t.protocol v }) t.area ≡ ok tt a
    → send_req_update v t ≡ ok tt (record t { area = a })
unfolding send_req_update add_var_req_update get_db_entry
send_req_update_lem t v a u w = ground arith

send_req_create_lem :
    (t : Tx) (v : ℕ) (a : AssemblyArea)
    → serialize_req_create (record { var_id = v }) t.area ≡ ok tt a
    → send_req_create v t ≡ ok tt (record t { area = a })
unfolding send_req_create add_var_req_create
send_req_create_lem t v a w = ground arith

update_requested-Good :
    (d : Data) (v : ℕ) → Good d → Good (record d { req_upd_q = remove d.req_upd_q v })
update_requested-Good d v g = record {
  configured = ground arith;
  queues = record {
    create_valid = g.queues.create_valid;
    delete_valid = g.queues.delete_valid;
    update_valid = g.queues.update_valid;
    summary_valid = g.queues.summary_valid;
    req_upd_valid = remove-IsValid v g.queues.req_upd_valid;
    req_create_valid = g.queues.req_create_valid;
  };
  coherent = λ w. still w (g.coherent w);
}
  where
    still : (w : ℕ) → At d w → At (record d { req_upd_q = remove d.req_upd_q v }) w
    still w i = ground (arith, contains-remove d.req_upd_q v w)

create_requested-Good :
    (d : Data) (v : ℕ) → Good d → Good (record d { req_create_q = remove d.req_create_q v })
create_requested-Good d v g = record {
  configured = ground arith;
  queues = record {
    create_valid = g.queues.create_valid;
    delete_valid = g.queues.delete_valid;
    update_valid = g.queues.update_valid;
    summary_valid = g.queues.summary_valid;
    req_upd_valid = g.queues.req_upd_valid;
    req_create_valid = remove-IsValid v g.queues.req_create_valid;
  };
  coherent = λ w. still w (g.coherent w);
}
  where
    still : (w : ℕ) → At d w → At (record d { req_create_q = remove d.req_create_q v }) w
    still w i = ground (arith, contains-remove d.req_create_q v w)

req_updates-sends :
    (t : Tx) (v : ℕ) (rest : List ℕ)
    → Good t.protocol
    → t.protocol.req_upd_q.queue ≡ v ∷ rest
    → length (req_update_bytes t.protocol v) ≤ t.area.bytes_available
    → Succeeds (send_next req_updates t) (Sent req_updates req_update_bytes t v rest)
unfolding send_next serialize_req_update
req_updates-sends t v rest g e h =
    rw
      (
        take_next_lem req_updates d v rest valid e,
        send_req_update_lem (record t { protocol = record d { req_upd_q = remove d.req_upd_q v } })
            v (append t.area (req_update_bytes d v)) used
            ((Writes-summ (summary_of d v)).fits t.area h),
      )
      (record {
        good = update_requested-Good d v g;
        wrote = refl;
        back = [];
        left = queue-requeue false v rest valid e;
        same = λ w. refl;
        count = refl;
      })
  where
    d : Data
    d = t.protocol

    valid : IsValid d.req_upd_q
    valid = g.queues.req_upd_valid

    used : (slot d v).used ≡ true
    used = ground (arith, contains-front v rest valid e, (g.coherent v).req_updates)

req_creates-sends :
    (t : Tx) (v : ℕ) (rest : List ℕ)
    → Good t.protocol
    → t.protocol.req_create_q.queue ≡ v ∷ rest
    → length (req_create_bytes t.protocol v) ≤ t.area.bytes_available
    → Succeeds (send_next req_creates t) (Sent req_creates req_create_bytes t v rest)
unfolding send_next serialize_req_create
req_creates-sends t v rest g e h =
    rw
      (
        take_next_lem req_creates d v rest valid e,
        send_req_create_lem
            (record t { protocol = record d { req_create_q = remove d.req_create_q v } }) v
            (append t.area (v ∷ [])) ((Writes-byte v).fits t.area h),
      )
      (record {
        good = create_requested-Good d v g;
        wrote = refl;
        back = [];
        left = queue-requeue false v rest valid e;
        same = λ w. refl;
        count = refl;
      })
  where
    d : Data
    d = t.protocol

    valid : IsValid d.req_create_q
    valid = g.queues.req_create_valid

-- Requests for updates can be sent, for the variables that this node has in an older version.
pub req_updates-Sends : Sends req_updates req_update_bytes
req_updates-Sends = record {
  valid = λ d g. g.queues.req_upd_valid;
  sized = λ d v g c. refl;
  capped = λ d n h on. (h, omega arith);
  sends = req_updates-sends;
}

-- Requests for creations can be sent, for variables that this node does not have.
pub req_creates-Sends : Sends req_creates req_create_bytes
req_creates-Sends = record {
  valid = λ d g. g.queues.req_create_valid;
  sized = λ d v g c. refl;
  capped = λ d n h on. (h, omega arith);
  sends = req_creates-sends;
}
