-- ===== src/Vardis/Transmit.antt =====
-- The `makeICType*` functions of dcp/vardis/vardis_protocol_data.cc and `construct_payload` of
-- dcp/vardis/vardis_transmitter.cc: instruction containers are written into the payload of a beacon.
-- The six functions run the same steps on different queues; `make_container` is these steps.
pub mod Fitting
pub mod Records
pub mod Container
pub mod Kinds
pub mod Steps
pub mod Payload
pub mod Rotation
use dcp_vardis.Prelude.{
  ℕ, zero, suc, ◌+◌, ◌%◌, ◌^◌, Bool, true, false, not, ◌||◌, List, [], ◌∷◌, if◌then◌else◌, ltb, leb,
  ◌==◌, ◌&&◌, min,
}
use dcp_vardis.Prelude.Effect.{
  Outcome, Exec, Void, ok, throw, ◌>>=◌, ◌>>◌, pure, raise, gets, modify, vardis_transmit_exception,
}
use dcp_vardis.Common.TimeStamp.{HostClock}
use dcp_vardis.Common.Area.{AssemblyArea}
use dcp_vardis.Vardis.Types.{
  VarValueT, max_records, var_spec_fixed_size, var_update_fixed_size, var_summ_fixed_size,
  var_delete_fixed_size, var_req_update_fixed_size, var_req_create_fixed_size, ic_header_fixed_size,
  ictype_summaries, ictype_updates, ictype_request_varupdates, ictype_request_varcreates,
  ictype_create_variables, ictype_delete_variables, StringT,
}
use dcp_vardis.Vardis.Types.Codec.{
  serialize_create, serialize_summ, serialize_update, serialize_delete, serialize_req_update,
  serialize_req_create, serialize_header,
}
use dcp_vardis.Vardis.Queue.{VarIdQueue, empty, front, pop_front, insert}
use dcp_vardis.Vardis.Store.{
  DbEntry, size_of_value, size_of_description, read_value, read_description,
}
use dcp_vardis.Vardis.Data.{Data, on_store, entry_of, modify_entry, variable_exists}

-- The protocol data, the area of the payload, and the count of the containers in it.
pub record Tx : Type 0 where
  pub protocol : Data
  pub area : AssemblyArea
  pub containers_added : ℕ

abbrev pub with_protocol : {A : Type 0} → Tx → Outcome Data A → Outcome Tx A
with_protocol t (ok a d) = ok a (record t { protocol = d })
with_protocol t (throw e d) = throw e (record t { protocol = d })

abbrev pub on_protocol : {A : Type 0} → Exec Data A → Exec Tx A
on_protocol m t = with_protocol t (m t.protocol)

abbrev pub with_area : {A : Type 0} → Tx → Outcome AssemblyArea A → Outcome Tx A
with_area t (ok a s) = ok a (record t { area = s })
with_area t (throw e s) = throw e (record t { area = s })

abbrev pub on_area : {A : Type 0} → Exec AssemblyArea A → Exec Tx A
on_area m t = with_area t (m t.area)

-- numberFittingRecords: `it` runs through `queue`, `bytes` is `bytesToBeAdded`.
unfoldable pub fitting_loop : (ℕ → ℕ) → ℕ → List ℕ → ℕ → ℕ → ℕ
fitting_loop size available [] number bytes = number
fitting_loop size available (v ∷ vs) number bytes =
    let rest = fitting_loop size available vs (number + 1) (bytes + size v) in
    if leb (bytes + size v) available && ltb number max_records then rest else number

unfoldable pub number_fitting_records : List ℕ → ℕ → (ℕ → ℕ) → ℕ
number_fitting_records queue available size =
    min (fitting_loop size available queue 0 ic_header_fixed_size) max_records

-- What one of the six functions does in its own way: its queue, the size of a record, the type of
-- its container, whether it is enabled, a cap on the number of records, and the work on the
-- identifier that has been taken from the queue.
pub record Kind : Type 0 where
  pub queue : Data → VarIdQueue
  pub set_queue : VarIdQueue → Data → Data
  pub size : Data → ℕ → ℕ
  pub ic_type : ℕ
  pub enabled : Data → Bool
  pub cap : Data → ℕ → ℕ
  pub send : ℕ → Exec Tx Void

abbrev pub with_queue : {A : Type 0} → (VarIdQueue → Data) → Outcome VarIdQueue A → Outcome Data A
with_queue back (ok a q) = ok a (back q)
with_queue back (throw e q) = throw e (back q)

module _ (k : Kind) where
  open k use {queue, set_queue, size, ic_type, enabled, cap, send}

  -- `q.front ()`, then `q.pop_front ()`.
  unfoldable pub take_next : Exec Data ℕ
  take_next d = with_queue (λ q. set_queue q d) ((do v ← front; pop_front; pure v) (queue d))

  unfoldable pub send_next : Exec Tx Void
  send_next = do v ← on_protocol take_next; send v

  unfoldable pub send_records : ℕ → Exec Tx Void
  send_records zero = pure tt
  send_records (suc n) = do send_next; send_records n

  -- The header, the records and the count, once the number of records is known.
  unfoldable pub write_container : ℕ → Exec Tx Void
  write_container number = do
    if number == 0 then raise vardis_transmit_exception else pure tt
    on_area (serialize_header (record { ic_type = ic_type; ic_num_records = number % 2 ^ 8 }))
    send_records number
    modify (λ t. record t { containers_added = (t.containers_added + 1) % 2 ^ 32 })

  -- The size of the record at the front of the queue, which `front ()` reads.
  unfoldable pub first_size : Data → List ℕ → ℕ
  first_size d [] = 0
  first_size d (v ∷ vs) = size d v

  unfoldable pub make_container : Exec Tx Void
  make_container t =
      let d = t.protocol in
      if empty (queue d)
        || ltb t.area.bytes_available (first_size d (queue d).queue + ic_header_fixed_size)
        || not (enabled d)
      then pure tt t
      else write_container
          (cap d (number_fitting_records (queue d).queue t.area.bytes_available (size d))) t
