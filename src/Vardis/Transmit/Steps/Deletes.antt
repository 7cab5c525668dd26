-- ===== src/Vardis/Transmit/Steps/Deletes.antt =====
-- One VarDelete record is sent.
use dcp_vardis.Prelude.{
  ℕ, ◌≤◌, ◌<◌, ◌≡◌, refl, sym, ◌∙◌, true, List, [], ◌∷◌, arith, length, ltb, if◌then◌else◌, ==_refl,
  ◌&&◌,
}
use dcp_vardis.Prelude.Effect.{Succeeds, ok}
use dcp_vardis.Common.Area.{AssemblyArea}
use dcp_vardis.Common.Area.Write.{append, Writes-byte}
use dcp_vardis.Vardis.Types.Codec.{serialize_delete}
use dcp_vardis.Vardis.Queue.{remove, insert}
use dcp_vardis.Vardis.Queue.Laws.{IsValid}
use dcp_vardis.Vardis.Queue.Requeue.{requeue, contains-requeue, requeue-IsValid, queue-requeue}
use dcp_vardis.Vardis.Store.{
  IdentifierState, set_state, identifier_is_allocated, get_db_entry, modify_db_entry,
}
use dcp_vardis.Vardis.Data.{Data}
use dcp_vardis.Vardis.Invariant.{At, Good, IsConfigured}
use dcp_vardis.Vardis.Transmit.{Tx, send_next}
use dcp_vardis.Vardis.Transmit.Records.{Sent, Sends}
use dcp_vardis.Vardis.Transmit.Steps.{slot, take_next_lem, contains-front}
use dcp_vardis.Vardis.Transmit.Kinds.{send_delete, add_var_delete, decrement, deletes}

-- The slot with the repetition counter stepped down.
abbrev deleted_once : IdentifierState → IdentifierState
deleted_once i = record i {
  db_entry = record i.db_entry { count_delete = decrement i.db_entry.count_delete };
}

send_delete_lem :
    (t : Tx) (v : ℕ) (a : AssemblyArea)
    → (slot t.protocol v).used ≡ true
    → 0 < (slot t.protocol v).db_entry.count_delete
    → serialize_delete (record { var_id = v }) t.area ≡ ok tt a
    → send_delete v t
      ≡ ok tt (record t {
        area = a;
        protocol = record t.protocol {
          store = set_state v (deleted_once (slot t.protocol v)) t.protocol.store;
          delete_q =
              if ltb 0 (decrement (slot t.protocol v).db_entry.count_delete)
              then insert t.protocol.delete_q v
              else t.protocol.delete_q;
        };
      })
unfolding send_delete add_var_delete get_db_entry modify_db_entry identifier_is_allocated
send_delete_lem t v a u c w = ground (arith, ==_refl v)

-- The records of VarDelete containers.
abbrev pub delete_bytes : Data → ℕ → List ℕ
delete_bytes d v = v ∷ []

-- The protocol data after `v` has been sent.
abbrev deleted : Data → ℕ → Data
deleted d v = record d {
  store = set_state v (deleted_once (slot d v)) d.store;
  delete_q = requeue (ltb 0 (decrement (slot d v).db_entry.count_delete)) d.delete_q v;
}

deleted-At :
    (d : Data) (v w : ℕ)
    → IsConfigured d
    → (slot d v).used ≡ true
    → 0 < (slot d v).db_entry.count_delete
    → At d v
    → At d w
    → At (deleted d v) w
deleted-At d v w c u n here there =
    ground
      (arith, contains-requeue (ltb 0 (decrement (slot d v).db_entry.count_delete)) d.delete_q v w)

deleted-Good :
    (d : Data) (v : ℕ)
    → (slot d v).used ≡ true
    → 0 < (slot d v).db_entry.count_delete
    → Good d
    → Good (deleted d v)
deleted-Good d v u n g = record {
  configured = ground arith;
  queues = record {
    create_valid = g.queues.create_valid;
    delete_valid = requeue-IsValid _ v g.queues.delete_valid;
    update_valid = g.queues.update_valid;
    summary_valid = g.queues.summary_valid;
    req_upd_valid = g.queues.req_upd_valid;
    req_create_valid = g.queues.req_create_valid;
  };
  coherent = λ w. deleted-At d v w g.configured u n (g.coherent v) (g.coherent w);
}

deletes-sends :
    (t : Tx) (v : ℕ) (rest : List ℕ)
    → Good t.protocol
    → t.protocol.delete_q.queue ≡ v ∷ rest
    → length (delete_bytes t.protocol v) ≤ t.area.bytes_available
    → Succeeds (send_next deletes t) (Sent deletes delete_bytes t v rest)
unfolding send_next serialize_delete
deletes-sends t v rest g e h =
    rw
      (
        take_next_lem deletes d v rest valid e,
        send_delete_lem (record t { protocol = record d { delete_q = remove d.delete_q v } }) v
            (append t.area (delete_bytes d v)) used some_left ((Writes-byte v).fits t.area h),
      )
      (record {
        good = deleted-Good d v used some_left g;
        wrote = refl;
        back = if ltb 0 (decrement (slot d v).db_entry.count_delete) then v ∷ [] else [];
        left = queue-requeue _ v rest valid e;
        same = λ w. refl;
        count = refl;
      })
  where
    d : Data
    d = t.protocol

    i : At d v
    i = g.coherent v

    valid : IsValid d.delete_q
    valid = g.queues.delete_valid

    queued : ((slot d v).used && ltb 0 (slot d v).db_entry.count_delete) ≡ true
    queued = sym i.deletes ∙ contains-front v rest valid e

    used : (slot d v).used ≡ true
    used = ground (arith, queued)

    some_left : 0 < (slot d v).db_entry.count_delete
    some_left = ground (arith, queued)

-- VarDelete containers can be sent.
pub deletes-Sends : Sends deletes delete_bytes
deletes-Sends = record {
  valid = λ d g. g.queues.delete_valid;
  sized = λ d v g c. refl;
  capped = λ d n h on. (h, omega arith);
  sends = deletes-sends;
}
