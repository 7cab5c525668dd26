-- ===== src/Bp/Segment.antt =====
-- dcp/bp/bp_shm_control_segment.{h,cc}: the shared memory between the beaconing protocol and one
-- client protocol, and what a client does to hand over a payload.
pub mod Transmit
use dcp_vardis.Prelude.{
  ℕ, zero, suc, ◌+◌, ◌%◌, ◌^◌, Bool, true, false, ◌||◌, Option, List, if◌then◌else◌, length, leb,
  ltb, ◌==◌,
}
use dcp_vardis.Prelude.Effect.{Outcome, Exec, Void, ok, throw, ◌>>=◌, ◌>>◌, pure, gets}
use dcp_vardis.Common.FiniteQueue
use dcp_vardis.Common.FiniteQueue.{
  FiniteQueue, QueueMemory, PushResult, stored_elements, new_finite_queue,
}

-- The status codes of common/services_status.h.
pub data BpStatus : Type 0 where
  bp_status_ok bp_status_protocol_already_registered bp_status_illegal_max_payload_size : BpStatus
  bp_status_unknown_protocol bp_status_payload_too_large bp_status_empty_payload : BpStatus
  bp_status_illegal_dropping_queue_size bp_status_internal_error : BpStatus
  bp_status_internal_shared_memory_error : BpStatus

-- BPQueueingMode is a number of 16 bits, and these are its four values.
abbrev pub bp_qmode_once : ℕ
bp_qmode_once = 0

abbrev pub bp_qmode_repeat : ℕ
bp_qmode_repeat = 1

abbrev pub bp_qmode_queue_droptail : ℕ
bp_qmode_queue_droptail = 2

abbrev pub bp_qmode_queue_drophead : ℕ
bp_qmode_queue_drophead = 3

-- BPStaticClientInfo, without the name.
pub record BpStaticClientInfo : Type 0 where
  pub protocol_id : ℕ
  pub max_payload_size : ℕ
  pub queueing_mode : ℕ
  pub max_entries : ℕ
  pub allow_multiple_payloads : Bool

pub record BpShmControlSegment : Type 0 where
  pub pq_transmit_payload_confirm : FiniteQueue
  pub pq_receive_payload_indication : FiniteQueue
  pub queue : FiniteQueue
  pub buffer : FiniteQueue
  pub generate_transmit_payload_confirms : Bool
  pub static_client_info : BpStaticClientInfo

-- maxQueueLength and maxBufferSize; `confirm_size` is sizeof(BPTransmitPayload_Confirm).
abbrev pub max_queue_length : ℕ
max_queue_length = 10

abbrev pub max_buffer_size : ℕ
max_buffer_size = 1500 + 128

pub record SegmentMemory : Type 0 where
  pub confirms : QueueMemory
  pub indications : QueueMemory
  pub payloads : QueueMemory
  pub payload : QueueMemory

-- The constructor.
unfoldable pub new_segment :
    ℕ → BpStaticClientInfo → Bool → SegmentMemory → Exec Void BpShmControlSegment
unfolding new_finite_queue
new_segment confirm_size info confirms memory = do
  confirm ← new_finite_queue max_queue_length (confirm_size + 128) max_queue_length memory.confirms
  indication ← new_finite_queue max_queue_length max_buffer_size max_queue_length memory.indications
  queue ←
      new_finite_queue max_queue_length max_buffer_size
        (if ltb info.max_entries 1 then 1 else info.max_entries) memory.payloads
  buffer ← new_finite_queue max_queue_length max_buffer_size 1 memory.payload
  pure (record {
    pq_transmit_payload_confirm = confirm;
    pq_receive_payload_indication = indication;
    queue = queue;
    buffer = buffer;
    generate_transmit_payload_confirms = confirms;
    static_client_info = info;
  })

abbrev with_queue :
    {A : Type 0} → BpShmControlSegment → Outcome FiniteQueue A → Outcome BpShmControlSegment A
with_queue s (ok a q) = ok a (record s { queue = q })
with_queue s (throw e q) = throw e (record s { queue = q })

abbrev pub on_queue : {A : Type 0} → Exec FiniteQueue A → Exec BpShmControlSegment A
on_queue m s = with_queue s (m s.queue)

abbrev pub with_buffer :
    {A : Type 0} → BpShmControlSegment → Outcome FiniteQueue A → Outcome BpShmControlSegment A
with_buffer s (ok a q) = ok a (record s { buffer = q })
with_buffer s (throw e q) = throw e (record s { buffer = q })

abbrev pub on_buffer : {A : Type 0} → Exec FiniteQueue A → Exec BpShmControlSegment A
on_buffer m s = with_buffer s (m s.buffer)

abbrev pub status_of : PushResult → BpStatus
status_of r = if r.timed_out then bp_status_internal_shared_memory_error else bp_status_ok

-- What the other processes do to one call: whether the lock is obtained, and what ends a wait.
pub record Contention : Type 0 where
  pub locked : Bool
  pub wake : Option FiniteQueue

-- transmit_payload (PushHandler): `bytes` is what the handler writes, `timeout_ms` the default
-- time-out of the queue.
unfoldable pub transmit_payload : ℕ → Contention → List ℕ → Exec BpShmControlSegment BpStatus
unfolding FiniteQueue.push_wait FiniteQueue.push_wait_force FiniteQueue.reset stored_elements
transmit_payload timeout_ms others bytes s =
    let mode = s.static_client_info.queueing_mode in
    if mode == bp_qmode_once || mode == bp_qmode_repeat
    then (do
      on_buffer FiniteQueue.reset
      r ← on_buffer (FiniteQueue.push_wait timeout_ms others.locked others.wake bytes)
      pure (status_of r))
        s
    else if mode == bp_qmode_queue_drophead
    then (do
      r ← on_queue (FiniteQueue.push_wait_force timeout_ms others.locked bytes)
      pure (status_of r))
        s
    else if mode == bp_qmode_queue_droptail
    then (if leb s.static_client_info.max_entries (stored_elements s.queue)
        then pure bp_status_ok s
        else (do
          r ← on_queue (FiniteQueue.push_wait timeout_ms others.locked others.wake bytes)
          pure (status_of r))
            s)
    else pure bp_status_internal_error s

-- transmit_payload (BPLengthT, byte*), for a payload that is no null pointer: its first `len` bytes
-- are handed over. `request_size` is sizeof(BPTransmitPayload_Request).
unfoldable pub transmit_bytes : ℕ → ℕ → Contention → List ℕ → Exec BpShmControlSegment BpStatus
unfolding transmit_payload
transmit_bytes request_size timeout_ms others payload s =
    if length payload == 0
    then pure bp_status_empty_payload s
    else if ltb ((s.static_client_info.max_payload_size + request_size) % 2 ^ 16) (length payload)
    then pure bp_status_payload_too_large s
    else transmit_payload timeout_ms others payload s
