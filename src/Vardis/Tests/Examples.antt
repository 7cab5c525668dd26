-- ===== src/Vardis/Tests/Examples.antt =====
-- The theorems on a running node, at the nodes `producer` and `consumer`.
use dcp_vardis.Prelude.{
  ℕ, ◌<◌, ◌≡◌, ◌⊎◌, refl, sym, true, false, [], ◌∷◌, arith, length, if◌then◌else◌, ◌^◌,
}
use dcp_vardis.Prelude.Effect.{Succeeds, Yields, continue, state}
use dcp_vardis.Vardis.Seqno.{more_recent_seqno}
use dcp_vardis.Vardis.Data.{Data, set_insert}
use dcp_vardis.Vardis.Invariant.{Good}
use dcp_vardis.Vardis.Receive.{process_var_create, process_var_update, process_var_delete}
use dcp_vardis.Vardis.Receive.Order.{NoOlder, process_var_update-NoOlder}
use dcp_vardis.Vardis.Receive.Delivery.{Delivers, update-delivered}
use dcp_vardis.Vardis.Transmit.Steps.{slot}
use dcp_vardis.Vardis.Transmit.Steps.Updates.{update_bytes-size}
use dcp_vardis.Vardis.Transmit.Steps.Creates.{create_bytes, creates-Sends}
use dcp_vardis.Vardis.Transmit.{Tx, make_container}
use dcp_vardis.Vardis.Transmit.Container.{Made, make_container_lem}
use dcp_vardis.Vardis.Transmit.Kinds.{
  creates, construct_payload, send_update, make_ic_type_summaries,
}
use dcp_vardis.Vardis.Transmit.Rotation.{Rotated, make_ic_type_summaries-Rotated}
use dcp_vardis.Vardis.Transmit.Payload.{Extended, construct_payload_lem}
use dcp_vardis.Vardis.History.{
  transmitter_runs, Reach-Good, initial_data, Reach, next, update_requested,
}
use dcp_vardis.Vardis.Receiver.{receive}
use dcp_vardis.Vardis.Receiver.Kept.{receive-Good}
use dcp_vardis.Vardis.Scrub.{scrub}
use dcp_vardis.Vardis.Scrub.Kept.{scrubbed}
use dcp_vardis.Vardis.Scrub.Order.{Ascending}
use dcp_vardis.Vardis.Scrub.Batch.{scrub-Scrubbed}
use dcp_vardis.Vardis.Service.{
  status_ok, variable_is_deleted, refusal, handle_rtdb_create_request, handle_rtdb_update_request,
  handle_rtdb_delete_request, handle_rtdb_read_request, create_variable, install_variable,
  created_entry, apply_update, update_variable,
}
use dcp_vardis.Vardis.Service.Reads.{
  Confirms, process_var_update-read, handle_rtdb_update_request-read,
  handle_rtdb_delete_request-read, process_var_delete-read,
}
use dcp_vardis.Vardis.Service.Refusals.{
  IsAnswered, handle_rtdb_create_request-IsAnswered, handle_rtdb_update_request-IsAnswered,
  handle_rtdb_delete_request-IsAnswered,
}
use dcp_vardis.Vardis.Store.{
  allocate_identifier, set_db_entry, update_value, update_description, identifier_is_allocated,
  get_db_entry, modify_db_entry,
}
use dcp_vardis.Vardis.Receive.{add_received, fill_slot, activate, acceptable, received_entry}
use dcp_vardis.Vardis.Tests.{
  host, limits, consumer, consumer-Good, consumer-IsForeign, producer_fresh, producer,
  producer-Reach, producer-Good, producer-IsOwn, request_7, request_7-named, update_7, new_value_7,
  room, tx, payload,
}

-- A node whose application creates a variable and updates it.
abbrev updated_producer : Data
updated_producer = state (handle_rtdb_update_request 2000 new_value_7 producer)

new_value_7-small : length new_value_7.value.block < 2 ^ 8
new_value_7-small = omega arith

updated_producer-Reach : Reach host producer_fresh updated_producer
updated_producer-Reach = next producer-Reach (update_requested 2000 new_value_7 new_value_7-small)

updated_producer-Good : Good updated_producer
updated_producer-Good = Reach-Good host 2 limits updated_producer-Reach

consumer-is_active : consumer.store.is_active ≡ true
unfolding initial_data process_var_create add_received fill_slot activate acceptable received_entry
    allocate_identifier set_db_entry update_value update_description identifier_is_allocated
consumer-is_active = refl

consumer-Ascending : Ascending consumer.active_variables
unfolding initial_data process_var_create add_received fill_slot activate acceptable received_entry
    allocate_identifier set_db_entry update_value update_description identifier_is_allocated
    set_insert
consumer-Ascending = (tt, tt)

consumer-max_value_length : consumer.max_value_length ≡ 16
unfolding initial_data process_var_create add_received fill_slot activate acceptable received_entry
    allocate_identifier set_db_entry update_value update_description identifier_is_allocated
consumer-max_value_length = refl

consumer-seqno : (slot consumer 7).db_entry.seqno ≡ 0
unfolding initial_data process_var_create add_received fill_slot activate acceptable received_entry
    allocate_identifier set_db_entry update_value update_description identifier_is_allocated
consumer-seqno = refl

producer-is_active : producer.store.is_active ≡ true
unfolding initial_data handle_rtdb_create_request create_variable install_variable created_entry
    fill_slot activate allocate_identifier set_db_entry update_value update_description
    identifier_is_allocated
producer-is_active = refl

producer-max_value_length : producer.max_value_length ≡ 16
unfolding initial_data handle_rtdb_create_request create_variable install_variable created_entry
    fill_slot activate allocate_identifier set_db_entry update_value update_description
    identifier_is_allocated
producer-max_value_length = refl

updated_producer-slot :
    ((slot updated_producer 7).used ≡ true)
    × ((slot updated_producer 7).db_entry.seqno ≡ 1)
    × ((slot updated_producer 7).value ≡ 66 ∷ 67 ∷ [])
unfolding initial_data handle_rtdb_create_request create_variable install_variable created_entry
    fill_slot activate allocate_identifier set_db_entry update_value update_description
    identifier_is_allocated handle_rtdb_update_request apply_update get_db_entry modify_db_entry
    update_variable
updated_producer-slot = (refl, refl, refl)

updated_producer-left : 0 < (slot updated_producer 7).db_entry.count_update
unfolding initial_data handle_rtdb_create_request create_variable install_variable created_entry
    fill_slot activate allocate_identifier set_db_entry update_value update_description
    identifier_is_allocated handle_rtdb_update_request apply_update get_db_entry modify_db_entry
    update_variable
updated_producer-left = omega arith

zero_not_more_recent : more_recent_seqno 0 1 ≡ false
unfolding more_recent_seqno
zero_not_more_recent = refl

transmitter_runs_example :
    (construct_payload host (record { protocol = producer; area = room; containers_added = 0 })).1
    ≡ false
transmitter_runs_example = transmitter_runs host 2 limits producer room 0 producer-Reach

Reach-Good_example : Good updated_producer
Reach-Good_example = Reach-Good host 2 limits updated_producer-Reach

-- A container of updates with one record for variable 7.
receive-Good_example :
    let after = receive host (λ k. 3000) (payload (2 ∷ 1 ∷ 7 ∷ 1 ∷ 1 ∷ 68 ∷ [])) consumer in
    Good after.0 × ((after.1 ≡ false) ⊎ (after.0 ≡ consumer))
receive-Good_example =
    receive-Good host (λ k. 3000) (payload (2 ∷ 1 ∷ 7 ∷ 1 ∷ 1 ∷ 68 ∷ [])) consumer consumer-Good

make_container_lem_example :
    Succeeds (make_container (creates host) tx) (Made (creates host) (create_bytes host) tx)
make_container_lem_example =
    make_container_lem (creates host) (create_bytes host) (creates-Sends host) tx producer-Good

construct_payload_lem_example :
    ((construct_payload host tx).1 ≡ false) × Extended tx (construct_payload host tx).0
construct_payload_lem_example = construct_payload_lem host tx producer-Good

abbrev updated_tx : Tx
updated_tx = record { protocol = updated_producer; area = room; containers_added = 0 }

make_ic_type_summaries-Rotated_example : Succeeds (make_ic_type_summaries tx) (Rotated tx)
make_ic_type_summaries-Rotated_example = make_ic_type_summaries-Rotated tx producer-Good

update-delivered_example :
    Succeeds
      (send_update 7 updated_tx)
      λ t'. Delivers consumer 3000 7 (slot updated_producer 7).value room t'.area
update-delivered_example =
    update-delivered updated_tx consumer 3000 7 updated_producer-Good consumer-Good
      updated_producer-slot.0 updated_producer-left
      (rw (sym (update_bytes-size updated_producer 7), updated_producer-slot.2) (omega arith))
      consumer-is_active consumer-IsForeign
      (rw (updated_producer-slot.2, consumer-max_value_length) (omega arith))
      (rw (consumer-seqno, updated_producer-slot.1) (omega arith))
      (rw (consumer-seqno, updated_producer-slot.1) zero_not_more_recent)

process_var_update-NoOlder_example :
    Succeeds
      (process_var_update 3000 update_7 consumer)
      (λ d'. NoOlder (consumer.store.id_states 7) (d'.store.id_states 7))
process_var_update-NoOlder_example =
    process_var_update-NoOlder consumer 3000 update_7 7 consumer-Good

process_var_update-read_example :
    Confirms
      (continue (process_var_update 3000 update_7 consumer) λ _. handle_rtdb_read_request 7)
      (record { status = status_ok; value = 66 ∷ 67 ∷ []; t_stamp = 3000 })
process_var_update-read_example =
    process_var_update-read consumer 3000 update_7 consumer-Good consumer-is_active
      consumer-IsForeign (omega arith) (rw consumer-max_value_length (omega arith))
      (rw consumer-seqno (omega arith)) (rw consumer-seqno zero_not_more_recent)

handle_rtdb_update_request-read_example :
    Confirms
      (continue
        (handle_rtdb_update_request 2000 new_value_7 producer)
        λ _. handle_rtdb_read_request 7)
      (record { status = status_ok; value = 66 ∷ 67 ∷ []; t_stamp = 2000 })
handle_rtdb_update_request-read_example =
    handle_rtdb_update_request-read producer 2000 new_value_7 producer-Good producer-is_active
      producer-IsOwn (omega arith) (rw producer-max_value_length (omega arith))

handle_rtdb_delete_request-read_example :
    Confirms
      (continue (handle_rtdb_delete_request 7 producer) λ _. handle_rtdb_read_request 7)
      (refusal variable_is_deleted)
handle_rtdb_delete_request-read_example =
    handle_rtdb_delete_request-read producer 7 producer-is_active producer-IsOwn

process_var_delete-read_example :
    Confirms
      (continue
        (process_var_delete (record { var_id = 7 }) consumer)
        λ _. handle_rtdb_read_request 7)
      (refusal variable_is_deleted)
process_var_delete-read_example =
    process_var_delete-read consumer (record { var_id = 7 }) consumer-is_active consumer-IsForeign

handle_rtdb_create_request-IsAnswered_example :
    IsAnswered consumer (handle_rtdb_create_request 2000 2001 request_7 consumer)
handle_rtdb_create_request-IsAnswered_example =
    handle_rtdb_create_request-IsAnswered consumer 2000 2001 request_7 request_7-named consumer-Good

handle_rtdb_update_request-IsAnswered_example :
    IsAnswered consumer (handle_rtdb_update_request 2000 new_value_7 consumer)
handle_rtdb_update_request-IsAnswered_example =
    handle_rtdb_update_request-IsAnswered consumer 2000 new_value_7 new_value_7-small consumer-Good

handle_rtdb_delete_request-IsAnswered_example :
    IsAnswered consumer (handle_rtdb_delete_request 7 consumer)
handle_rtdb_delete_request-IsAnswered_example =
    handle_rtdb_delete_request-IsAnswered consumer 7 consumer-Good

-- Sixty milliseconds later, with a timeout of fifty.
scrub-Scrubbed_example : Yields (scrub 60001500 consumer) λ p d'.
    (p.numvars ≡ 0)
    × Good d'
    × ((v : ℕ)
        → (d'.store.id_states v).db_entry ≡ (
            if (consumer.store.id_states v).used
            then scrubbed 60001500 (consumer.store.id_states v).db_entry
            else (consumer.store.id_states v).db_entry))
scrub-Scrubbed_example =
    scrub-Scrubbed 60001500 consumer consumer-Good consumer-Ascending consumer-is_active
