-- ===== src/Vardis/Transmit/Steps/Summaries.antt =====
-- One VarSumm record is sent: the identifier goes to the end of its queue.
use dcp_vardis.Prelude.{
  ℕ, ◌≤◌, ◌≡◌, refl, sym, ◌∙◌, not, true, List, [], ◌∷◌, ◌++◌, arith, length, ◌&&◌,
}
use dcp_vardis.Prelude.Effect.{Succeeds, Succeeds-map, ok}
use dcp_vardis.Common.Area.{AssemblyArea}
use dcp_vardis.Common.Area.Write.{append}
use dcp_vardis.Vardis.Types.{VarSummT}
use dcp_vardis.Vardis.Types.Codec.{serialize_summ}
use dcp_vardis.Vardis.Types.Wire.{encode_summ, Writes-summ}
use dcp_vardis.Vardis.Queue.{remove, insert}
use dcp_vardis.Vardis.Queue.Laws.{IsValid}
use dcp_vardis.Vardis.Queue.Requeue.{requeue, contains-requeue, requeue-IsValid, queue-requeue}
use dcp_vardis.Vardis.Store.{get_db_entry}
use dcp_vardis.Vardis.Data.{Data}
use dcp_vardis.Vardis.Invariant.{At, Good}
use dcp_vardis.Vardis.Transmit.{Tx, send_next}
use dcp_vardis.Vardis.Transmit.Records.{Sent, Sends}
use dcp_vardis.Vardis.Transmit.Steps.{slot, take_next_lem, contains-front}
use dcp_vardis.Vardis.Transmit.Kinds.{send_summary, add_var_summary, summaries}

abbrev pub summary_of : Data → ℕ → VarSummT
summary_of d v = record { var_id = v; seqno = (slot d v).db_entry.seqno }

-- The records of VarSumm containers.
abbrev pub summary_bytes : Data → ℕ → List ℕ
summary_bytes d v = encode_summ (summary_of d v)

send_summary_lem :
    (t : Tx) (v : ℕ) (a : AssemblyArea)
    → (slot t.protocol v).used ≡ true
    → serialize_summ (summary_of t.protocol v) t.area ≡ ok tt a
    → send_summary v t
      ≡ ok tt (record t {
        area = a;
        protocol = record t.protocol { summary_q = insert t.protocol.summary_q v };
      })
unfolding send_summary add_var_summary get_db_entry
send_summary_lem t v a u w = ground arith

abbrev pub summarised : Data → ℕ → Data
summarised d v = record d { summary_q = requeue true d.summary_q v }

summarised-Good :
    (d : Data) (v : ℕ)
    → ((slot d v).used && not (slot d v).db_entry.is_deleted) ≡ true
    → Good d
    → Good (summarised d v)
summarised-Good d v u g = record {
  configured = ground arith;
  queues = record {
    create_valid = g.queues.create_valid;
    delete_valid = g.queues.delete_valid;
    update_valid = g.queues.update_valid;
    summary_valid = requeue-IsValid true v g.queues.summary_valid;
    req_upd_valid = g.queues.req_upd_valid;
    req_create_valid = g.queues.req_create_valid;
  };
  coherent = λ w. still w (g.coherent w);
}
  where
    still : (w : ℕ) → At d w → At (summarised d v) w
    still w i = ground (arith, contains-requeue true d.summary_q v w)

-- The record is sent, and what stood behind it in the queue now stands before it.
pub summaries-rotates :
    (t : Tx) (v : ℕ) (rest : List ℕ)
    → Good t.protocol
    → t.protocol.summary_q.queue ≡ v ∷ rest
    → length (summary_bytes t.protocol v) ≤ t.area.bytes_available
    → Succeeds (send_next summaries t) λ t'.
      Sent summaries summary_bytes t v rest t' × (t'.protocol.summary_q.queue ≡ rest ++ (v ∷ []))
unfolding send_next
summaries-rotates t v rest g e h =
    rw
      (
        take_next_lem summaries d v rest valid e,
        send_summary_lem (record t { protocol = record d { summary_q = remove d.summary_q v } }) v
            (append t.area (summary_bytes d v)) (ground (arith, queued))
            ((Writes-summ (summary_of d v)).fits t.area h),
      )
      (
        record {
          good = summarised-Good d v queued g;
          wrote = refl;
          back = v ∷ [];
          left = queue-requeue true v rest valid e;
          same = λ w. refl;
          count = refl;
        },
        queue-requeue true v rest valid e,
      )
  where
    d : Data
    d = t.protocol

    valid : IsValid d.summary_q
    valid = g.queues.summary_valid

    queued : ((slot d v).used && not (slot d v).db_entry.is_deleted) ≡ true
    queued = sym (g.coherent v).summaries ∙ contains-front v rest valid e

summaries-sends :
    (t : Tx) (v : ℕ) (rest : List ℕ)
    → Good t.protocol
    → t.protocol.summary_q.queue ≡ v ∷ rest
    → length (summary_bytes t.protocol v) ≤ t.area.bytes_available
    → Succeeds (send_next summaries t) (Sent summaries summary_bytes t v rest)
summaries-sends t v rest g e h =
    Succeeds-map (send_next summaries t) _ _ (summaries-rotates t v rest g e h) (λ t' p. p.0)

-- Containers of summaries can be sent; a `maxSummaries` of zero disables them.
pub summaries-Sends : Sends summaries summary_bytes
summaries-Sends = record {
  valid = λ d g. g.queues.summary_valid;
  sized = λ d v g c. refl;
  capped = λ d n h on. (ground arith, ground arith);
  sends = summaries-sends;
}
