-- ===== src/Bp/Command/Undo.antt =====
-- A registration that was accepted, and its deregistration.
use dcp_vardis.Prelude.{
  ℕ, ◌≡◌, refl, sym, ap, Bool, true, false, not, ◌&&◌, arith, ltb, ◌==◌, ==_refl, if◌then◌else◌,
}
use dcp_vardis.Prelude.Effect.{
  Outcome, Void, ok, throw, state, continue, pure, raise, invalid_argument,
}
use dcp_vardis.Bp.Segment.{
  BpStatus, bp_status_ok, bp_status_protocol_already_registered, bp_status_illegal_max_payload_size,
  bp_status_illegal_dropping_queue_size, BpShmControlSegment, new_segment,
}
use dcp_vardis.Bp.Command.{
  BpRuntimeData, BpClientProtocolData, BpRegisterProtocolRequest, contains, assign, payload_limit,
  is_queue_mode, is_known_mode, returned, in_memory, wrong_size, add_client,
  handle_register_protocol, handle_deregister_protocol,
}
use dcp_vardis.Bp.Command.Map.{erase-assign, contains-assign}

-- What a registration that was accepted has done.
record Added (req : BpRegisterProtocolRequest) (r r' : BpRuntimeData) : Type 0 where
  client : BpClientProtocolData
  new : contains req.static_info.protocol_id r.client_protocols ≡ false
  added :
      r'
      ≡ record r { client_protocols = assign req.static_info.protocol_id client r.client_protocols }

-- Only the last branch of a registration accepts.
abbrev is_accepted : Outcome BpRuntimeData BpStatus → Bool
is_accepted (ok bp_status_ok r) = true
is_accepted (ok s r) = false
is_accepted (throw e r) = false

not_accepted :
    {o : Outcome BpRuntimeData BpStatus} {r : BpRuntimeData}
    → is_accepted o ≡ false
    → o ≡ ok bp_status_ok r
    → ⊥
not_accepted e h = ground (arith, e, ap is_accepted h)

accepted_last :
    {T : Type 0} (r r' : BpRuntimeData) (o : Outcome BpRuntimeData BpStatus) (a b c d e f : Bool)
    → (c ≡ false → o ≡ ok bp_status_ok r' → T)
    → (if a
        then wrong_size r
        else if b
        then raise invalid_argument r
        else if c
        then pure bp_status_protocol_already_registered r
        else if d
        then pure bp_status_illegal_max_payload_size r
        else if e
        then pure bp_status_illegal_max_payload_size r
        else if f
        then pure bp_status_illegal_dropping_queue_size r
        else o)
      ≡ ok bp_status_ok r'
    → T
accepted_last r r' o true b c d e f k h = absurd (not_accepted refl h)
accepted_last r r' o false true c d e f k h = absurd (not_accepted refl h)
accepted_last r r' o false false true d e f k h = absurd (not_accepted refl h)
accepted_last r r' o false false false true e f k h = absurd (not_accepted refl h)
accepted_last r r' o false false false false true f k h = absurd (not_accepted refl h)
accepted_last r r' o false false false false false true k h = absurd (not_accepted refl h)
accepted_last r r' o false false false false false false k h = k refl h

add_client-Added :
    (confirm_size : ℕ) (req : BpRegisterProtocolRequest) (r r' : BpRuntimeData)
    → contains req.static_info.protocol_id r.client_protocols ≡ false
    → add_client confirm_size req r ≡ ok bp_status_ok r'
    → Added req r r'
unfolding add_client
add_client-Added confirm_size req r r' new = go (
    in_memory req.memory
      (new_segment confirm_size req.static_info req.generate_transmit_payload_confirms) tt)
  where
    client : BpShmControlSegment → BpClientProtocolData
    client segment = record {
      static_info = req.static_info;
      segment = segment;
      cnt_outgoing_payloads = 0;
      cnt_received_payloads = 0;
      cnt_dropped_outgoing_payloads = 0;
      cnt_dropped_incoming_payloads = 0;
    }

    go :
        (o : Outcome Void BpShmControlSegment)
        → continue (returned o r) (λ segment s. ok bp_status_ok (record s {
          client_protocols = assign req.static_info.protocol_id (client segment) s.client_protocols;
        }))
          ≡ ok bp_status_ok r'
        → Added req r r'
    go (ok segment s) h = record { client = client segment; new = new; added = sym (ap state h) }
    go (throw e s) h = absurd (not_accepted refl h)

handle_register_protocol-Added :
    (confirm_size request_size nbytes : ℕ) (logged : Bool) (req : BpRegisterProtocolRequest)
    (r r' : BpRuntimeData)
    → handle_register_protocol confirm_size request_size nbytes logged req r ≡ ok bp_status_ok r'
    → Added req r r'
unfolding handle_register_protocol
handle_register_protocol-Added confirm_size request_size nbytes logged req r r' =
    accepted_last r r' (add_client confirm_size req r) (not (nbytes == request_size))
      (logged && not (is_known_mode req.static_info.queueing_mode))
      (contains req.static_info.protocol_id r.client_protocols)
      (req.static_info.max_payload_size == 0)
      (ltb (payload_limit r.max_beacon_size) req.static_info.max_payload_size)
      (is_queue_mode req.static_info.queueing_mode && req.static_info.max_entries == 0)
      (λ new. add_client-Added confirm_size req r r' new)

-- After a registration that was accepted, to deregister the protocol is accepted as well, and leaves
-- the runtime data as they were before the registration.
pub register-deregister :
    (confirm_size request_size nbytes deregister_size : ℕ) (logged : Bool)
    (req : BpRegisterProtocolRequest) (r r' : BpRuntimeData)
    → handle_register_protocol confirm_size request_size nbytes logged req r ≡ ok bp_status_ok r'
    → handle_deregister_protocol deregister_size deregister_size req.static_info.protocol_id r'
      ≡ ok bp_status_ok r
unfolding handle_deregister_protocol
register-deregister confirm_size request_size nbytes deregister_size logged req r r' h =
    let a = handle_register_protocol-Added confirm_size request_size nbytes logged req r r' h in
    simp
      (
        a.added,
        ==_refl deregister_size,
        contains-assign req.static_info.protocol_id a.client r.client_protocols,
        erase-assign req.static_info.protocol_id a.client r.client_protocols a.new,
      )
      refl
