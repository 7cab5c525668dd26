-- ===== src/Bp/Command.antt =====
-- dcp/bp/bp_management_command.cc, with bp_runtime_data.h and bp_client_protocol_data.{h,cc}: the
-- requests that a client protocol or a user sends over the command socket. A handler returns the
-- status of the confirmation that it sends. Statistics, time stamps, the mutex and the log are not
-- modelled, but for the conversion of a queueing mode into a string, which the log asks for.
pub mod Map
pub mod Kept
pub mod Undo
use dcp_vardis.Prelude.{
  ℕ, zero, suc, ◌+◌, ◌-◌, ◌%◌, ◌^◌, Bool, true, false, not, ◌||◌, ◌&&◌, Option, none, some, List,
  [], ◌∷◌, if◌then◌else◌, length, ltb, leb, ◌==◌,
}
use dcp_vardis.Prelude.Effect.{
  Outcome, Exec, Void, ok, throw, ◌>>=◌, ◌>>◌, pure, raise, gets, modify, invalid_argument,
  shm_exception,
}
use dcp_vardis.Common.FiniteQueue
use dcp_vardis.Common.FiniteQueue.{FiniteQueue, stored_elements}
use dcp_vardis.Bp.Types.{bp_header_size, bp_payload_header_size}
use dcp_vardis.Bp.Segment.{
  BpStatus, bp_status_ok, bp_status_protocol_already_registered, bp_status_illegal_max_payload_size,
  bp_status_unknown_protocol, bp_status_illegal_dropping_queue_size, bp_status_internal_error,
  BpStaticClientInfo, BpShmControlSegment, SegmentMemory, new_segment, on_queue, on_buffer,
  bp_qmode_once, bp_qmode_repeat, bp_qmode_queue_droptail, bp_qmode_queue_drophead,
}

-- BPClientProtocolData, with the shared segment that `pSCS` points to.
pub record BpClientProtocolData : Type 0 where
  pub static_info : BpStaticClientInfo
  pub segment : BpShmControlSegment
  pub cnt_outgoing_payloads : ℕ
  pub cnt_received_payloads : ℕ
  pub cnt_dropped_outgoing_payloads : ℕ
  pub cnt_dropped_incoming_payloads : ℕ

-- The protocols in the order of their identifiers, each with its key.
pub record BpRuntimeData : Type 0 where
  pub own_node_identifier : ℕ
  pub own_network_identifier : ℕ
  pub max_beacon_size : ℕ
  pub bp_is_active : Bool
  pub bp_exit_flag : Bool
  pub bp_sequence_number : ℕ
  pub client_protocols : List (ℕ × BpClientProtocolData)

-- std::map: `find`, and the assignment to an element that may be new.
unfoldable pub find : {A : Type 0} → ℕ → List (ℕ × A) → Option A
find k [] = none
find k ((l, x) ∷ xs) = if l == k then some x else find k xs

abbrev pub contains : {A : Type 0} → ℕ → List (ℕ × A) → Bool
contains k [] = false
contains k ((l, x) ∷ xs) = (l == k) || contains k xs

unfoldable pub assign : {A : Type 0} → ℕ → A → List (ℕ × A) → List (ℕ × A)
assign k x [] = (k, x) ∷ []
assign k x ((l, y) ∷ ys) =
    if ltb k l
    then (k, x) ∷ ((l, y) ∷ ys)
    else if l == k
    then (k, x) ∷ ys
    else (l, y) ∷ assign k x ys

unfoldable pub erase : {A : Type 0} → ℕ → List (ℕ × A) → List (ℕ × A)
erase k [] = []
erase k ((l, y) ∷ ys) = if l == k then ys else (l, y) ∷ erase k ys

-- A request of the wrong size.
abbrev pub wrong_size : Exec BpRuntimeData BpStatus
wrong_size = do modify (λ r. record r { bp_exit_flag = true }); pure bp_status_internal_error

unfoldable pub handle_shut_down : Exec BpRuntimeData Void
handle_shut_down = modify λ r. record r { bp_exit_flag = true }

-- `request_size` is the size of the request's struct, `nbytes` that of what was received.
unfoldable pub handle_activate : ℕ → ℕ → Exec BpRuntimeData BpStatus
handle_activate request_size nbytes r =
    if not (nbytes == request_size)
    then wrong_size r
    else (do modify (λ r. record r { bp_is_active = true }); pure bp_status_ok) r

unfoldable pub handle_deactivate : ℕ → ℕ → Exec BpRuntimeData BpStatus
handle_deactivate request_size nbytes r =
    if not (nbytes == request_size)
    then wrong_size r
    else (do modify (λ r. record r { bp_is_active = false }); pure bp_status_ok) r

abbrev pub is_queue_mode : ℕ → Bool
is_queue_mode mode = mode == bp_qmode_queue_droptail || mode == bp_qmode_queue_drophead

-- bp_queueing_mode_to_string throws for any other mode.
abbrev pub is_known_mode : ℕ → Bool
is_known_mode mode = mode == bp_qmode_once || mode == bp_qmode_repeat || is_queue_mode mode

-- BPRegisterProtocol_Request; `memory` is what the segment's shared memory holds, if it can be had.
pub record BpRegisterProtocolRequest : Type 0 where
  pub static_info : BpStaticClientInfo
  pub generate_transmit_payload_confirms : Bool
  pub memory : Option SegmentMemory

abbrev in_memory : {A : Type 0} → Option SegmentMemory → (SegmentMemory → Exec Void A) → Exec Void A
in_memory none m = raise shm_exception
in_memory (some memory) m = m memory

abbrev returned : {A : Type 0} → Outcome Void A → Exec BpRuntimeData A
returned (ok a s) = pure a
returned (throw e s) = raise e

-- The largest payload that fits a beacon, on size_t.
abbrev pub payload_limit : ℕ → ℕ
payload_limit max_beacon_size =
    (max_beacon_size + 2 ^ 64 - (bp_header_size + bp_payload_header_size)) % 2 ^ 64

-- The construction of the new entry of the list, and its assignment.
unfoldable pub add_client : ℕ → BpRegisterProtocolRequest → Exec BpRuntimeData BpStatus
unfolding new_segment assign
add_client confirm_size req = do
  segment ← returned (
      in_memory req.memory
        (new_segment confirm_size req.static_info req.generate_transmit_payload_confirms) tt)
  modify (λ r. record r {
    client_protocols =
        assign req.static_info.protocol_id
          (record {
            static_info = req.static_info;
            segment = segment;
            cnt_outgoing_payloads = 0;
            cnt_received_payloads = 0;
            cnt_dropped_outgoing_payloads = 0;
            cnt_dropped_incoming_payloads = 0;
          })
          r.client_protocols;
  })
  pure bp_status_ok

-- `logged` says whether the log's level makes it evaluate its arguments.
unfoldable pub handle_register_protocol :
    ℕ → ℕ → ℕ → Bool → BpRegisterProtocolRequest → Exec BpRuntimeData BpStatus
unfolding add_client
handle_register_protocol confirm_size request_size nbytes logged req r =
    let sci = req.static_info in
    if not (nbytes == request_size)
    then wrong_size r
    else if logged && not (is_known_mode sci.queueing_mode)
    then raise invalid_argument r
    else if contains sci.protocol_id r.client_protocols
    then pure bp_status_protocol_already_registered r
    else if sci.max_payload_size == 0
    then pure bp_status_illegal_max_payload_size r
    else if ltb (payload_limit r.max_beacon_size) sci.max_payload_size
    then pure bp_status_illegal_max_payload_size r
    else if is_queue_mode sci.queueing_mode && sci.max_entries == 0
    then pure bp_status_illegal_dropping_queue_size r
    else add_client confirm_size req r

unfoldable pub handle_deregister_protocol : ℕ → ℕ → ℕ → Exec BpRuntimeData BpStatus
unfolding erase
handle_deregister_protocol request_size nbytes protocol_id r =
    if not (nbytes == request_size)
    then wrong_size r
    else if not (contains protocol_id r.client_protocols)
    then pure bp_status_unknown_protocol r
    else (do
      modify (λ r. record r { client_protocols = erase protocol_id r.client_protocols })
      pure bp_status_ok)
        r

abbrev for_client :
    {A : Type 0}
    → Option BpClientProtocolData
    → A
    → (BpClientProtocolData → Exec BpRuntimeData (BpStatus × A))
    → Exec BpRuntimeData (BpStatus × A)
for_client none nothing action = pure (bp_status_unknown_protocol, nothing)
for_client (some client) nothing action = action client

-- handleRegularRequestUsingSharedMemory: the action is for the client that the request names.
-- `nothing` stands for the field that a refusal leaves unset.
unfoldable pub handle_regular_request :
    {A : Type 0}
    → ℕ
    → ℕ
    → ℕ
    → A
    → (BpClientProtocolData → Exec BpRuntimeData (BpStatus × A))
    → Exec BpRuntimeData (BpStatus × A)
unfolding find
handle_regular_request request_size nbytes protocol_id nothing action r =
    if not (nbytes == request_size)
    then (do status ← wrong_size; pure (status, nothing)) r
    else for_client (find protocol_id r.client_protocols) nothing action r

-- A call of a queue of the segment of `client`, which stays in the list.
abbrev in_segment :
    {A : Type 0} → ℕ → BpClientProtocolData → Exec BpShmControlSegment A → Exec BpRuntimeData A
in_segment protocol_id client m r = store (m client.segment)
  where
    store : {A : Type 0} → Outcome BpShmControlSegment A → Outcome BpRuntimeData A
    store (ok a s) = ok a (record r {
      client_protocols = assign protocol_id (record client { segment = s }) r.client_protocols;
    })
    store (throw e s) = throw e (record r {
      client_protocols = assign protocol_id (record client { segment = s }) r.client_protocols;
    })

unfoldable pub handle_clear_buffer : ℕ → ℕ → ℕ → Exec BpRuntimeData (BpStatus × Void)
unfolding handle_regular_request assign FiniteQueue.reset
handle_clear_buffer request_size nbytes protocol_id =
    handle_regular_request request_size nbytes protocol_id tt λ client.
      let mode = client.static_info.queueing_mode in
      if mode == bp_qmode_once || mode == bp_qmode_repeat
      then (do in_segment protocol_id client (on_buffer FiniteQueue.reset); pure (bp_status_ok, tt))
      else if is_queue_mode mode
      then (do in_segment protocol_id client (on_queue FiniteQueue.reset); pure (bp_status_ok, tt))
      else (do status ← wrong_size; pure (status, tt))

unfoldable pub handle_query_number_buffered_payloads : ℕ → ℕ → ℕ → Exec BpRuntimeData (BpStatus × ℕ)
unfolding handle_regular_request stored_elements
handle_query_number_buffered_payloads request_size nbytes protocol_id =
    handle_regular_request request_size nbytes protocol_id 0 λ client.
      let mode = client.static_info.queueing_mode in
      if mode == bp_qmode_once || mode == bp_qmode_repeat
      then pure (bp_status_ok, stored_elements client.segment.buffer)
      else if is_queue_mode mode
      then pure (bp_status_ok, stored_elements client.segment.queue)
      else (do status ← wrong_size; pure (status, 0))
