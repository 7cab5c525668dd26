-- ===== src/Bp/Tests.antt =====
-- A segment, a request and a reception on which the theorems are tried.
use dcp_vardis.Prelude.{ℕ, ◌≡◌, inl, refl, true, false, none, some, List, [], ◌∷◌, ◌++◌, arith}
use dcp_vardis.Prelude.Effect.{ok, state, Succeeds, Yields}
use dcp_vardis.Common.Area.{AssemblyArea, DisassemblyArea}
use dcp_vardis.Common.Area.Write.{append, IsThrow}
use dcp_vardis.Common.Area.Read.{advance}
use dcp_vardis.Common.Tests.{two_buffers, two_buffers-IsValid, one_block, one_block-Dimensions}
use dcp_vardis.Common.RingBuffer
use dcp_vardis.Common.FiniteQueue.{FiniteQueue, QueueMemory}
use dcp_vardis.Common.FiniteQueue.Valid.{IsValid, view}
use dcp_vardis.Bp.Types.{BpHeaderT, serialize_header, deserialize_header}
use dcp_vardis.Bp.Types.RoundTrip.{encode_header, header_round_trip}
use dcp_vardis.Bp.Segment.{
  BpShmControlSegment, BpStaticClientInfo, Contention, transmit_payload, bp_status_ok,
  bp_status_internal_shared_memory_error,
}
use dcp_vardis.Bp.Segment.Transmit.{transmit_payload-drophead, transmit_payload-buffer_lost}
use dcp_vardis.Bp.Command.{
  BpRuntimeData, BpClientProtocolData, BpRegisterProtocolRequest, handle_register_protocol,
  handle_deregister_protocol,
}
use dcp_vardis.Bp.Command.Kept.{IsValidRuntime, handle_register_protocol-IsValidRuntime}
use dcp_vardis.Bp.Command.Undo.{register-deregister}
use dcp_vardis.Bp.Receive.{Reception, deliver_to, set_entry, indicate}
use dcp_vardis.Bp.Receive.Deliver.{deliver_to-stored, deliver_to-empty_throws}

abbrev header : BpHeaderT
header = record {
  version = 1;
  magic_no = 18814;
  sender_id = 77;
  network_id = 3;
  length = 260;
  num_payloads = 2;
  seqno = 70000;
}

abbrev blank_area : AssemblyArea
blank_area = record { initial_available = 20; bytes_available = 20; bytes_used = 0; written = [] }

unfoldable header_area : DisassemblyArea
unfolding encode_header
header_area = record {
  initial_available = 19;
  bytes_available = 19;
  bytes_used = 0;
  pending = encode_header header ++ (9 ∷ []);
}

header_round_trip_example :
    (serialize_header header blank_area ≡ ok tt (append blank_area (encode_header header)))
    × (deserialize_header header_area ≡ ok header (advance header_area 18 (9 ∷ [])))
unfolding header_area
header_round_trip_example =
    header_round_trip header blank_area header_area (9 ∷ [])
      (record {
        magic_no_small = omega arith;
        sender_id_small = omega arith;
        network_id_small = omega arith;
        length_small = omega arith;
        seqno_small = omega arith;
      })
      (omega arith) refl (omega arith)

abbrev info : ℕ → BpStaticClientInfo
info mode = record {
  protocol_id = 2;
  max_payload_size = 100;
  queueing_mode = mode;
  max_entries = 2;
  allow_multiple_payloads = false;
}

-- The buffer has a payload.
abbrev segment : ℕ → BpShmControlSegment
segment mode = record {
  pq_transmit_payload_confirm = two_buffers;
  pq_receive_payload_indication = two_buffers;
  queue = two_buffers;
  buffer = one_block;
  generate_transmit_payload_confirms = false;
  static_client_info = info mode;
}

abbrev alone : Contention
alone = record { locked = true; wake = none }

transmit_payload-drophead_example :
    Succeeds
      (transmit_payload 5 alone (1 ∷ 2 ∷ []) (segment 3))
      (λ r. IsValid r.queue × (view r.queue ≡ (1 ∷ 2 ∷ []) ∷ []))
transmit_payload-drophead_example =
    transmit_payload-drophead 5 alone (1 ∷ 2 ∷ []) (segment 3) refl two_buffers-IsValid
      (λ e. omega (arith, e)) refl (omega arith) (omega arith)

transmit_payload-buffer_lost_example :
    Yields
      (transmit_payload 5 alone (1 ∷ 2 ∷ []) (segment 0))
      (λ status r. (status ≡ bp_status_internal_shared_memory_error) × (view r.buffer ≡ []))
transmit_payload-buffer_lost_example =
    transmit_payload-buffer_lost 5 alone (1 ∷ 2 ∷ []) (segment 0) (inl refl) one_block-Dimensions
      refl (λ e. omega (arith, e)) refl refl

abbrev queue_memory : QueueMemory
queue_memory = record {
  queue_ring = λ i. record { offs = i; len = 3 };
  free_ring = λ i. record { offs = 0; len = i };
  buffers = λ i. i;
}

abbrev request : BpRegisterProtocolRequest
request = record {
  static_info = info 3;
  generate_transmit_payload_confirms = false;
  memory = some (record {
    confirms = queue_memory;
    indications = queue_memory;
    payloads = queue_memory;
    payload = queue_memory;
  });
}

abbrev runtime : BpRuntimeData
runtime = record {
  own_node_identifier = 5;
  own_network_identifier = 3;
  max_beacon_size = 1000;
  bp_is_active = true;
  bp_exit_flag = false;
  bp_sequence_number = 0;
  client_protocols = [];
}

handle_register_protocol-IsValidRuntime_example :
    IsValidRuntime (state (handle_register_protocol 8 300 300 true request runtime))
handle_register_protocol-IsValidRuntime_example =
    handle_register_protocol-IsValidRuntime 8 300 300 true request runtime
      (record { sorted = tt; registered = tt })

abbrev registered : BpRuntimeData
registered = state (handle_register_protocol 8 300 300 true request runtime)

accepted : handle_register_protocol 8 300 300 true request runtime ≡ ok bp_status_ok registered
unfolding handle_register_protocol RingBuffer.push
accepted = refl

register-deregister_example :
    handle_deregister_protocol 16 16 2 registered ≡ ok bp_status_ok runtime
register-deregister_example =
    register-deregister 8 300 300 16 true request runtime registered accepted

abbrev client : BpClientProtocolData
client = record {
  static_info = info 3;
  segment = segment 3;
  cnt_outgoing_payloads = 0;
  cnt_received_payloads = 1;
  cnt_dropped_outgoing_payloads = 0;
  cnt_dropped_incoming_payloads = 0;
}

abbrev indication : ℕ → List ℕ
indication n = n ∷ 0 ∷ []

-- A beacon of which two bytes are left.
abbrev reception : Reception
reception = record {
  runtime = record runtime { client_protocols = (2, client) ∷ [] };
  area = record {
    initial_available = 24;
    bytes_available = 2;
    bytes_used = 22;
    pending = 8 ∷ 9 ∷ [];
  };
}

deliver_to-stored_example :
    (q : FiniteQueue) × (deliver_to indication alone
        (record { protocol_id = 2; length = 2 })
        client
        reception
      ≡ ok tt (
          set_entry 2
            (indicate client q)
            (record reception { area = advance reception.area 2 [] })))
    × IsValid q
    × (view q ≡ (2 ∷ 0 ∷ 8 ∷ 9 ∷ []) ∷ [])
deliver_to-stored_example =
    deliver_to-stored indication alone (record { protocol_id = 2; length = 2 }) client reception
      (8 ∷ 9 ∷ []) [] refl refl refl (omega arith) (omega arith) (omega arith) two_buffers-IsValid
      refl refl

deliver_to-empty_throws_example :
    IsThrow (deliver_to indication alone (record { protocol_id = 2; length = 0 }) client reception)
deliver_to-empty_throws_example =
    deliver_to-empty_throws indication alone (record { protocol_id = 2; length = 0 }) client
      reception refl refl (omega arith) refl refl
