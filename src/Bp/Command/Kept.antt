-- ===== src/Bp/Command/Kept.antt =====
-- What holds of the registered client protocols between any two requests.
use dcp_vardis.Prelude.{
  ℕ, ◌<◌, ◌≤◌, ◌≡◌, refl, Bool, true, false, not, ◌&&◌, arith, ltb, ◌==◌, if◌then◌else◌,
}
use dcp_vardis.Prelude.Effect.{
  Outcome, Void, ok, throw, state, continue, pure, raise, invalid_argument,
}
use dcp_vardis.Bp.Segment.{
  BpStatus, bp_status_ok, bp_status_protocol_already_registered, bp_status_illegal_max_payload_size,
  bp_status_illegal_dropping_queue_size, bp_status_unknown_protocol, BpStaticClientInfo,
  BpShmControlSegment, new_segment,
}
use dcp_vardis.Bp.Command.{
  BpRuntimeData, BpClientProtocolData, BpRegisterProtocolRequest, contains, assign, erase,
  payload_limit, is_queue_mode, is_known_mode, returned, in_memory, wrong_size, add_client,
  handle_register_protocol, handle_deregister_protocol,
}
use dcp_vardis.Bp.Command.Map.{Sorted, All, Sorted-assign, Sorted-erase, All-assign, All-erase}

-- What registration demands of the static information.
pub record IsAcceptable (max_beacon_size : ℕ) (info : BpStaticClientInfo) : Type 0 where
  pub some_payload : 0 < info.max_payload_size
  pub payload_fits : info.max_payload_size ≤ payload_limit max_beacon_size
  pub some_entries : is_queue_mode info.queueing_mode ≡ true → 0 < info.max_entries

abbrev pub IsRegistered : ℕ → ℕ → BpClientProtocolData → Type 0
IsRegistered max_beacon_size key client =
    (client.static_info.protocol_id ≡ key) × IsAcceptable max_beacon_size client.static_info

-- The map is sorted, and every entry stands under its identifier and is acceptable.
pub record IsValidRuntime (r : BpRuntimeData) : Type 0 where
  pub sorted : Sorted r.client_protocols
  pub registered : All (IsRegistered r.max_beacon_size) r.client_protocols

add_client-IsValidRuntime :
    (confirm_size : ℕ) (req : BpRegisterProtocolRequest) (r : BpRuntimeData)
    → IsValidRuntime r
    → IsAcceptable r.max_beacon_size req.static_info
    → IsValidRuntime (state (add_client confirm_size req r))
unfolding add_client
add_client-IsValidRuntime confirm_size req r v a = go (
    in_memory req.memory
      (new_segment confirm_size req.static_info req.generate_transmit_payload_confirms) tt)
  where
    client : BpShmControlSegment → BpClientProtocolData
    client segment = record {
      static_info = req.static_info;
      segment = segment;
      cnt_outgoing_payloads = 0;
      cnt_received_payloads = 0;
      cnt_dropped_outgoing_payloads = 0;
      cnt_dropped_incoming_payloads = 0;
    }

    go :
        (o : Outcome Void BpShmControlSegment)
        → IsValidRuntime (
            state (
              continue (returned o r) λ segment s. ok bp_status_ok (record s {
                client_protocols =
                    assign req.static_info.protocol_id (client segment) s.client_protocols;
              })))
    go (ok segment s) = record {
      sorted =
          Sorted-assign req.static_info.protocol_id (client segment) r.client_protocols v.sorted;
      registered =
          All-assign (IsRegistered r.max_beacon_size) req.static_info.protocol_id (client segment)
            r.client_protocols (refl, a) v.registered;
    }
    go (throw e s) = v

-- A refused registration leaves the protocols, and an accepted one has passed every test.
guarded :
    (r : BpRuntimeData) (o : Outcome BpRuntimeData BpStatus) (a b c d e f : Bool)
    → IsValidRuntime r
    → (d ≡ false → e ≡ false → f ≡ false → IsValidRuntime (state o))
    → IsValidRuntime (
        state (
          if a
          then wrong_size r
          else if b
          then raise invalid_argument r
          else if c
          then pure bp_status_protocol_already_registered r
          else if d
          then pure bp_status_illegal_max_payload_size r
          else if e
          then pure bp_status_illegal_max_payload_size r
          else if f
          then pure bp_status_illegal_dropping_queue_size r
          else o))
guarded r o true b c d e f v k = record { sorted = v.sorted; registered = v.registered }
guarded r o false true c d e f v k = v
guarded r o false false true d e f v k = v
guarded r o false false false true e f v k = v
guarded r o false false false false true f v k = v
guarded r o false false false false false true v k = v
guarded r o false false false false false false v k = k refl refl refl

acceptable :
    (max_beacon_size : ℕ) (info : BpStaticClientInfo)
    → (info.max_payload_size == 0) ≡ false
    → ltb (payload_limit max_beacon_size) info.max_payload_size ≡ false
    → (is_queue_mode info.queueing_mode && info.max_entries == 0) ≡ false
    → IsAcceptable max_beacon_size info
acceptable max_beacon_size info a b c = record {
  some_payload = ground (arith, a);
  payload_fits = not_above (payload_limit max_beacon_size) b;
  some_entries = λ q. ground (arith, c, q);
}
  where
    not_above : (n : ℕ) → ltb n info.max_payload_size ≡ false → info.max_payload_size ≤ n
    not_above n h = ground (arith, h)

-- Whatever a registration request says, and also where it fails: the registered protocols stay in
-- the order of their identifiers, each under its own, with a payload size that is not zero and fits a
-- beacon, and at least one entry in the modes with a queue.
pub handle_register_protocol-IsValidRuntime :
    (confirm_size request_size nbytes : ℕ) (logged : Bool) (req : BpRegisterProtocolRequest)
    (r : BpRuntimeData)
    → IsValidRuntime r
    → IsValidRuntime
        (state (handle_register_protocol confirm_size request_size nbytes logged req r))
unfolding handle_register_protocol
handle_register_protocol-IsValidRuntime confirm_size request_size nbytes logged req r v =
    guarded r (add_client confirm_size req r) (not (nbytes == request_size))
      (logged && not (is_known_mode sci.queueing_mode))
      (contains sci.protocol_id r.client_protocols) (sci.max_payload_size == 0)
      (ltb (payload_limit r.max_beacon_size) sci.max_payload_size)
      (is_queue_mode sci.queueing_mode && sci.max_entries == 0) v
      (λ a b c.
        add_client-IsValidRuntime confirm_size req r v (acceptable r.max_beacon_size sci a b c))
  where
    sci : BpStaticClientInfo
    sci = req.static_info

pub handle_deregister_protocol-IsValidRuntime :
    (request_size nbytes protocol_id : ℕ) (r : BpRuntimeData)
    → IsValidRuntime r
    → IsValidRuntime (state (handle_deregister_protocol request_size nbytes protocol_id r))
unfolding handle_deregister_protocol
handle_deregister_protocol-IsValidRuntime request_size nbytes protocol_id r v =
    go (not (nbytes == request_size)) (not (contains protocol_id r.client_protocols))
  where
    go :
        (a b : Bool)
        → IsValidRuntime (
            state (
              if a
              then wrong_size r
              else if b
              then pure bp_status_unknown_protocol r
              else ok bp_status_ok
                  (record r { client_protocols = erase protocol_id r.client_protocols })))
    go true b = record { sorted = v.sorted; registered = v.registered }
    go false true = v
    go false false = record {
      sorted = Sorted-erase protocol_id r.client_protocols v.sorted;
      registered =
          All-erase (IsRegistered r.max_beacon_size) protocol_id r.client_protocols v.registered;
    }
