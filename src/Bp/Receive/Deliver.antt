-- ===== src/Bp/Receive/Deliver.antt =====
-- What becomes of a received payload.
use dcp_vardis.Prelude.{
  ℕ, ◌+◌, ◌≤◌, ◌<◌, ◌≡◌, refl, sym, ap, ◌∙◌, Bool, true, false, not, Option, List, [], ◌∷◌, ◌++◌,
  length, length-append, arith, ltb, ◌==◌, ==_refl, if◌then◌else◌,
}
use dcp_vardis.Prelude.Effect.{Exec, continue, Outcome, ok, throw, pure, area_exception}
use dcp_vardis.Common.Area.Write.{IsThrow}
use dcp_vardis.Common.Area.{DisassemblyArea, deserialize_byte_block}
use dcp_vardis.Common.RingBuffer
use dcp_vardis.Common.Area.Read.{advance, Reads-block}
use dcp_vardis.Common.FiniteQueue.{
  on_free_list, pushed, PushResult, FiniteQueue, push_wait, push_wait_by,
}
use dcp_vardis.Common.FiniteQueue.Valid.{IsValid, view}
use dcp_vardis.Common.FiniteQueue.Run.{push_wait-Returns}
use dcp_vardis.Bp.Types.{BpPayloadHeaderT}
use dcp_vardis.Bp.Segment.{Contention}
use dcp_vardis.Bp.Command.{BpClientProtocolData}
use dcp_vardis.Bp.Receive.{Reception, handler, delivered, deliver_to, indicate, set_entry}

continue-IsThrow :
    {S A B : Type 0} (o : Outcome S A) (f : A → Exec S B)
    → ((a : A) (s : S) → IsThrow (f a s))
    → IsThrow (continue o f)
continue-IsThrow (ok a s) f h = h a s
continue-IsThrow (throw e s) f h = tt

thrown : {S A B : Type 0} (o : Outcome S A) (f : A → Exec S B) → IsThrow o → IsThrow (continue o f)
thrown (ok a s) f h = elim h [ ]
thrown (throw e s) f h = tt

push-IsThrow :
    (q : FiniteQueue) (locked : Bool) (wake : Option FiniteQueue) (h : Exec FiniteQueue (List ℕ))
    → q.has_data ≡ false
    → locked ≡ true
    → ((q : FiniteQueue) → IsThrow (h q))
    → IsThrow (push_wait_by 5 locked wake h q)
unfolding push_wait_by
push-IsThrow q locked wake h idle free k =
    simp (idle, free)
      (continue-IsThrow (on_free_list RingBuffer.pop q) _ (λ d q'. thrown (h q') _ (k q')))

delivered-IsThrow :
    (hdr : BpPayloadHeaderT) (client : BpClientProtocolData)
    (read : Outcome DisassemblyArea (List ℕ)) (o : Outcome FiniteQueue PushResult) (x : Reception)
    → IsThrow o
    → IsThrow (delivered hdr client read o x)
delivered-IsThrow hdr client read (ok r q) x h = elim h [ ]
delivered-IsThrow hdr client read (throw e q) x h = tt

empty_block_throws :
    (n : ℕ) (d : DisassemblyArea) → n ≡ 0 → deserialize_byte_block n d ≡ throw area_exception d
unfolding deserialize_byte_block
empty_block_throws n d empty = rw empty refl

not_dropped :
    {S A : Type 0} (o p q : Outcome S A) (a b : Bool)
    → a ≡ false
    → b ≡ false
    → IsThrow o
    → IsThrow (if a then p else if b then q else o)
not_dropped o p q a b e f h = rw (e, f) h

-- Delivery of a payload of length zero to its registered protocol throws, where the buffers of the
-- queue of indications can hold the header of an indication, the queue has no data and its lock is
-- obtained.
pub deliver_to-empty_throws :
    (indication : ℕ → List ℕ) (others : Contention) (hdr : BpPayloadHeaderT)
    (client : BpClientProtocolData) (x : Reception)
    → client.static_info.protocol_id ≡ hdr.protocol_id
    → hdr.length ≡ 0
    → length (indication 0) ≤ client.segment.pq_receive_payload_indication.buffer_size
    → client.segment.pq_receive_payload_indication.has_data ≡ false
    → others.locked ≡ true
    → IsThrow (deliver_to indication others hdr client x)
unfolding deliver_to
deliver_to-empty_throws indication others hdr client x own empty fits idle free =
    not_dropped _ _ _ (not (client.static_info.protocol_id == hdr.protocol_id)) _ its_own small (
      delivered-IsThrow hdr client (deserialize_byte_block hdr.length x.area) _ x (
        push-IsThrow client.segment.pq_receive_payload_indication others.locked others.wake
          (handler (indication hdr.length) (deserialize_byte_block hdr.length x.area)) idle free
          (λ q. rw (empty_block_throws hdr.length x.area empty) tt)))
  where
    its_own : not (client.static_info.protocol_id == hdr.protocol_id) ≡ false
    its_own = rw own (ap not (==_refl hdr.protocol_id))

    small :
        ltb client.segment.pq_receive_payload_indication.buffer_size
          (hdr.length + length (indication hdr.length))
        ≡ false
    small = rw empty (ground (arith, fits))

branch_eq :
    {A : Type 0} (o p q : A) (a b : Bool)
    → a ≡ false
    → b ≡ false
    → (if a then p else if b then q else o) ≡ o
branch_eq o p q a b e f = rw (e, f) refl

push_wait_lem :
    (q : FiniteQueue) (wake : Option FiniteQueue) (bs : List ℕ)
    → push_wait 5 true wake bs q ≡ push_wait_by 5 true wake (pure bs) q
unfolding push_wait
push_wait_lem q wake bs = refl

delivered_ok :
    (hdr : BpPayloadHeaderT) (client : BpClientProtocolData) (x : Reception)
    (indication bytes : List ℕ) (others : Contention) (read : Outcome DisassemblyArea (List ℕ))
    (d : DisassemblyArea) (q q' : FiniteQueue)
    → others.locked ≡ true
    → read ≡ ok bytes d
    → push_wait 5 true others.wake (indication ++ bytes) q ≡ ok pushed q'
    → delivered hdr client read
        (push_wait_by 5 others.locked others.wake (handler indication read) q)
        x
      ≡ ok tt (set_entry hdr.protocol_id (indicate client q') (record x { area = d }))
delivered_ok hdr client x indication bytes others read d q q' free got done =
    rw (got, free)
      (ap (λ o. delivered hdr client (ok bytes d) o x)
        (sym (push_wait_lem q others.wake (indication ++ bytes)) ∙ done))

-- A payload of at least a byte that the area holds is delivered to its registered protocol: it goes,
-- behind the header of an indication, to the end of the queue of indications, which stays valid,
-- and is taken from the area, and nothing else changes. The queue of indications is valid and has no
-- data, its lock is obtained, and its buffers can hold the indication with the payload.
pub deliver_to-stored :
    (indication : ℕ → List ℕ) (others : Contention) (hdr : BpPayloadHeaderT)
    (client : BpClientProtocolData) (x : Reception) (bytes rest : List ℕ)
    → client.static_info.protocol_id ≡ hdr.protocol_id
    → x.area.pending ≡ bytes ++ rest
    → length bytes ≡ hdr.length
    → 0 < hdr.length
    → hdr.length ≤ x.area.bytes_available
    → hdr.length + length (indication hdr.length)
      ≤ client.segment.pq_receive_payload_indication.buffer_size
    → IsValid client.segment.pq_receive_payload_indication
    → client.segment.pq_receive_payload_indication.has_data ≡ false
    → others.locked ≡ true
    → (q : FiniteQueue) × (deliver_to indication others hdr client x
        ≡ ok tt (
            set_entry hdr.protocol_id
              (indicate client q)
              (record x { area = advance x.area hdr.length rest })))
      × IsValid q
      × (view q
          ≡ view client.segment.pq_receive_payload_indication
            ++ ((indication hdr.length ++ bytes) ∷ []))
unfolding deliver_to
deliver_to-stored indication others hdr client x bytes rest own e same some_bytes enough fits v idle
      free =
    let r =
      push_wait-Returns client.segment.pq_receive_payload_indication 5 v (λ h. ground (arith, h))
        others.wake (indication hdr.length ++ bytes) idle (omega (arith, total, same, some_bytes))
        (omega (arith, total, same, fits)) in
    (
      r.after,
      branch_eq _ _ _ (not (client.static_info.protocol_id == hdr.protocol_id))
            (ltb client.segment.pq_receive_payload_indication.buffer_size
              (hdr.length + length (indication hdr.length)))
            (rw own (ap not (==_refl hdr.protocol_id))) (ground (arith, fits))
          ∙ delivered_ok hdr client x (indication hdr.length) bytes others
              (deserialize_byte_block hdr.length x.area) (advance x.area hdr.length rest)
              client.segment.pq_receive_payload_indication r.after free read r.returned,
      r.valid,
      r.blocks,
    )
  where
    total : length (indication hdr.length ++ bytes) ≡ length (indication hdr.length) + length bytes
    total = length-append (indication hdr.length) bytes

    read : deserialize_byte_block hdr.length x.area ≡ ok bytes (advance x.area hdr.length rest)
    read = rw (← same) (
        (Reads-block bytes (omega (arith, same, some_bytes))).reads x.area rest e
          (omega (arith, same, enough)))
