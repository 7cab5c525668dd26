-- ===== src/Bp/Receive.antt =====
-- dcp/bp/bp_receiver.cc: what the receiver does with a beacon. The sniffer, its thread and the
-- averages that it keeps are not modelled, nor is the mutex.
pub mod Deliver
use dcp_vardis.Prelude.{
  ℕ, zero, suc, ◌+◌, ◌%◌, ◌^◌, Bool, true, false, not, Option, none, some, List, ◌++◌,
  if◌then◌else◌, length, ltb, leb, ◌==◌,
}
use dcp_vardis.Prelude.Effect.{
  Outcome, Exec, Void, ok, throw, ◌>>=◌, ◌>>◌, pure, raise, gets, modify,
}
use dcp_vardis.Common.Area.{DisassemblyArea, skip, deserialize_byte_block, resize_disassembly}
use dcp_vardis.Common.FiniteQueue.{FiniteQueue, PushResult, push_wait_by}
use dcp_vardis.Bp.Types.{
  BpHeaderT, BpPayloadHeaderT, bp_header_size, bp_payload_header_size, deserialize_header,
  deserialize_payload_header, is_well_formed,
}
use dcp_vardis.Bp.Segment.{Contention}
use dcp_vardis.Bp.Command.{BpRuntimeData, BpClientProtocolData, find, assign}

-- The runtime data and the area that the beacon is read from.
pub record Reception : Type 0 where
  pub runtime : BpRuntimeData
  pub area : DisassemblyArea

abbrev with_area : {A : Type 0} → Reception → Outcome DisassemblyArea A → Outcome Reception A
with_area x (ok a d) = ok a (record x { area = d })
with_area x (throw e d) = throw e (record x { area = d })

abbrev pub on_area : {A : Type 0} → Exec DisassemblyArea A → Exec Reception A
on_area m x = with_area x (m x.area)

-- The entry under a key, whatever its own identifier is.
abbrev pub set_entry : ℕ → BpClientProtocolData → Reception → Reception
set_entry key client x = record x {
  runtime = record x.runtime { client_protocols = assign key client x.runtime.client_protocols };
}

-- A payload that is dropped: its bytes are skipped, and counted for the client.
abbrev pub drop_payload : BpPayloadHeaderT → BpClientProtocolData → Exec Reception Void
drop_payload hdr client = do
  on_area (skip hdr.length)
  modify (
      set_entry hdr.protocol_id (record client {
        cnt_dropped_incoming_payloads = (client.cnt_dropped_incoming_payloads + 1) % 2 ^ 32;
      }))

-- The handler of the push: what it writes, or what it throws, when it reads the payload.
abbrev pub handler : List ℕ → Outcome DisassemblyArea (List ℕ) → Exec FiniteQueue (List ℕ)
handler indication (ok bytes d) = pure (indication ++ bytes)
handler indication (throw e d) = raise e

abbrev pub area_after : {A : Type 0} → Outcome DisassemblyArea A → DisassemblyArea
area_after (ok a d) = d
area_after (throw e d) = d

abbrev pub indicate : BpClientProtocolData → FiniteQueue → BpClientProtocolData
indicate client q = record client {
  segment = record client.segment { pq_receive_payload_indication = q };
}

-- What follows the push into the queue of indications.
abbrev pub delivered :
    BpPayloadHeaderT
    → BpClientProtocolData
    → Outcome DisassemblyArea (List ℕ)
    → Outcome FiniteQueue PushResult
    → Exec Reception Void
delivered hdr client read (ok r q) x =
    if r.timed_out
    then drop_payload hdr (indicate client q) x
    else modify
        (λ x. set_entry hdr.protocol_id (indicate client q) (record x { area = area_after read })) x
delivered hdr client read (throw e q) x =
    throw e (set_entry hdr.protocol_id (indicate client q) (record x { area = area_after read }))

-- The rest of `deliver_payload` for a registered protocol; `indication` is what a
-- BPReceivePayload_Indication of that length is in memory, and 5 ms the short time-out.
unfoldable pub deliver_to :
    (ℕ → List ℕ) → Contention → BpPayloadHeaderT → BpClientProtocolData → Exec Reception Void
unfolding push_wait_by deserialize_byte_block
deliver_to indication others hdr client x =
    if not (client.static_info.protocol_id == hdr.protocol_id)
    then drop_payload hdr client x
    else if ltb client.segment.pq_receive_payload_indication.buffer_size
        (hdr.length + length (indication hdr.length))
    then drop_payload hdr client x
    else let read = deserialize_byte_block hdr.length x.area in
      delivered hdr client read
        (push_wait_by 5 others.locked others.wake (handler (indication hdr.length) read)
          client.segment.pq_receive_payload_indication)
        x

abbrev deliver_found :
    (ℕ → List ℕ) → Contention → BpPayloadHeaderT → Option BpClientProtocolData → Exec Reception Void
deliver_found indication others hdr none = on_area (skip hdr.length)
deliver_found indication others hdr (some client) =
    let counted = record client {
      cnt_received_payloads = (client.cnt_received_payloads + 1) % 2 ^ 32;
    } in
    modify (set_entry hdr.protocol_id counted) >> deliver_to indication others hdr counted

unfoldable pub deliver_payload : (ℕ → List ℕ) → Contention → BpPayloadHeaderT → Exec Reception Void
unfolding deliver_to find assign skip
deliver_payload indication others hdr x =
    deliver_found indication others hdr (find hdr.protocol_id x.runtime.client_protocols) x

-- The loop over the payloads: `n` are left, and `others` is what happens at each.
unfoldable pub deliver_payloads : (ℕ → List ℕ) → (ℕ → Contention) → ℕ → Exec Reception Void
unfolding deliver_payload deserialize_payload_header
deliver_payloads indication others zero x = pure tt x
deliver_payloads indication others (suc n) x =
    if ltb x.area.bytes_available bp_payload_header_size
    then pure tt x
    else (do
      hdr ← on_area deserialize_payload_header
      available ← gets (λ x. x.area.bytes_available)
      if ltb available hdr.length
          then pure tt
          else (do deliver_payload indication (others n) hdr; deliver_payloads indication others n))
        x

unfoldable pub process_received_payload : (ℕ → List ℕ) → (ℕ → Contention) → Exec Reception Void
unfolding deserialize_header is_well_formed resize_disassembly deliver_payloads
process_received_payload indication others x =
    if leb x.area.bytes_available bp_header_size
    then pure tt x
    else (do
      hdr ← on_area deserialize_header
      x ← gets (λ x. x)
      if not (is_well_formed hdr x.runtime.own_node_identifier x.runtime.own_network_identifier)
          then pure tt
          else if ltb x.area.bytes_available hdr.length
          then modify (λ x. record x { runtime = record x.runtime { bp_exit_flag = true } })
          else (do
            if ltb hdr.length x.area.bytes_available
                then on_area (resize_disassembly (bp_header_size + hdr.length))
                else pure tt
            deliver_payloads indication others hdr.num_payloads))
        x
