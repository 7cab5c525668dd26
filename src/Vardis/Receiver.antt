-- ===== src/Vardis/Receiver.antt =====
-- dcp/vardis/vardis_receiver.cc: a received payload is split into its records, which are then
-- processed kind by kind. The queue from which `receiver_thread` takes payloads is not modelled;
-- `times k` is what the system clock returns for the k-th record of a kind.
pub mod Bounded
pub mod Kept
pub mod Containers
pub mod Halves
use dcp_vardis.Prelude.{
  ℕ, zero, suc, ◌+◌, Bool, true, false, List, [], ◌∷◌, ◌++◌, Option, none, some, if◌then◌else◌, ltb,
  ◌==◌,
}
use dcp_vardis.Prelude.Effect.{
  Outcome, Exec, Void, ok, throw, ◌>>=◌, ◌>>◌, pure, raise, vardis_receive_exception,
}
use dcp_vardis.Common.TimeStamp.{HostClock}
use dcp_vardis.Common.Area.{DisassemblyArea}
use dcp_vardis.Vardis.Types.{
  VarSummT, VarUpdateT, VarCreateT, VarDeleteT, VarReqUpdateT, VarReqCreateT, IcHeaderT,
  ictype_summaries, ictype_updates, ictype_request_varupdates, ictype_request_varcreates,
  ictype_create_variables, ictype_delete_variables,
}
use dcp_vardis.Vardis.Types.Codec.{
  deserialize_summ, deserialize_update, deserialize_create, deserialize_delete,
  deserialize_req_update, deserialize_req_create, deserialize_header,
}
use dcp_vardis.Vardis.Data.{Data}
use dcp_vardis.Vardis.Receive.{
  process_var_create, process_var_delete, process_var_update, process_var_summary,
  process_var_requpdate, process_var_reqcreate,
}

-- The six deques of `process_received_payload`.
pub record Received : Type 0 where
  pub ic_summaries : List VarSummT
  pub ic_updates : List VarUpdateT
  pub ic_request_var_updates : List VarReqUpdateT
  pub ic_request_var_creates : List VarReqCreateT
  pub ic_create_variables : List VarCreateT
  pub ic_delete_variables : List VarDeleteT

abbrev pub nothing_received : Received
nothing_received = record {
  ic_summaries = [];
  ic_updates = [];
  ic_request_var_updates = [];
  ic_request_var_creates = [];
  ic_create_variables = [];
  ic_delete_variables = [];
}

module _ {T : Type 0} (deserialize : Exec DisassemblyArea T) where
  unfoldable pub extract_records : ℕ → Exec DisassemblyArea (List T)
  extract_records zero = pure []
  extract_records (suc n) = do
    element ← deserialize
    elements ← extract_records n
    pure (element ∷ elements)

  unfoldable pub extract_instruction_container_elements :
      IcHeaderT → List T → Exec DisassemblyArea (List T)
  extract_instruction_container_elements header result_list =
      if header.ic_num_records == 0
      then raise vardis_receive_exception
      else (do elements ← extract_records header.ic_num_records; pure (result_list ++ elements))

-- The dispatch on the type of a container.
unfoldable pub extract_container : HostClock → IcHeaderT → Received → Exec DisassemblyArea Received
extract_container clock h r =
    if h.ic_type == ictype_summaries
    then (do
      xs ← extract_instruction_container_elements deserialize_summ h r.ic_summaries
      pure (record r { ic_summaries = xs }))
    else if h.ic_type == ictype_updates
    then (do
      xs ← extract_instruction_container_elements deserialize_update h r.ic_updates
      pure (record r { ic_updates = xs }))
    else if h.ic_type == ictype_request_varupdates
    then (do
      xs ← extract_instruction_container_elements deserialize_req_update h r.ic_request_var_updates
      pure (record r { ic_request_var_updates = xs }))
    else if h.ic_type == ictype_request_varcreates
    then (do
      xs ← extract_instruction_container_elements deserialize_req_create h r.ic_request_var_creates
      pure (record r { ic_request_var_creates = xs }))
    else if h.ic_type == ictype_create_variables
    then (do
      xs ← extract_instruction_container_elements (deserialize_create clock) h r.ic_create_variables
      pure (record r { ic_create_variables = xs }))
    else if h.ic_type == ictype_delete_variables
    then (do
      xs ← extract_instruction_container_elements deserialize_delete h r.ic_delete_variables
      pure (record r { ic_delete_variables = xs }))
    else raise vardis_receive_exception

unfoldable pub next_container : HostClock → Received → Exec DisassemblyArea Received
next_container clock r = do header ← deserialize_header; extract_container clock header r

-- `while (area.used() < area.available())`, on fuel: `none` when the fuel has run out.
unfoldable pub extract_loop : HostClock → ℕ → Received → Exec DisassemblyArea (Option Received)
extract_loop clock zero r area =
    if ltb area.bytes_used area.bytes_available then pure none area else pure (some r) area
extract_loop clock (suc fuel) r area =
    if ltb area.bytes_used area.bytes_available
    then (next_container clock r >>= extract_loop clock fuel) area
    else pure (some r) area

-- `process` on the k-th record, then on the following ones.
unfoldable pub for_each : {T : Type 0} → (ℕ → T → Exec Data Void) → ℕ → List T → Exec Data Void
for_each process k [] = pure tt
for_each process k (x ∷ xs) = do process k x; for_each process (k + 1) xs

unfoldable pub process_records : (ℕ → ℕ) → Received → Exec Data Void
process_records times r = do
  for_each (λ k. process_var_create (times k)) 0 r.ic_create_variables
  for_each (λ k. process_var_delete) 0 r.ic_delete_variables
  for_each (λ k. process_var_update (times k)) 0 r.ic_updates
  for_each (λ k. process_var_summary) 0 r.ic_summaries
  for_each (λ k. process_var_requpdate) 0 r.ic_request_var_updates
  for_each (λ k. process_var_reqcreate) 0 r.ic_request_var_creates

-- What a payload does to the protocol data, once it has been split.
unfoldable pub process_extracted :
    (ℕ → ℕ) → Outcome DisassemblyArea (Option Received) → Exec Data Void
process_extracted times (ok none area) = raise vardis_receive_exception
process_extracted times (ok (some r) area) = process_records times r
process_extracted times (throw e area) = raise e

-- As many rounds as there are bytes are enough.
unfoldable pub process_received_payload : HostClock → (ℕ → ℕ) → DisassemblyArea → Exec Data Void
process_received_payload clock times area =
    process_extracted times (extract_loop clock area.bytes_available nothing_received area)

-- The handlers of `receiver_thread` set `vardis_exitFlag`; the Boolean is the flag afterwards.
unfoldable pub exit_flag : Outcome Data Void → Data × Bool
exit_flag (ok _ d) = (d, false)
exit_flag (throw e d) = (d, true)

unfoldable pub receive : HostClock → (ℕ → ℕ) → DisassemblyArea → Data → Data × Bool
receive clock times area d = exit_flag (process_received_payload clock times area d)
