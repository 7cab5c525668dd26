-- ===== src/Vardis/Service.antt =====
-- The `handle_rtdb_*_request` functions of dcp/vardis/vardis_protocol_data.cc: the service that a
-- node offers its own applications. `now` is what `get_current_system_time` returns; a request to
-- create reads the clock twice.
pub mod Refusals
pub mod Reads
use dcp_vardis.Prelude.{
  ℕ, ◌^◌, ◌+◌, ◌%◌, Bool, true, false, not, ◌||◌, List, [], length, if◌then◌else◌, ltb, ◌==◌,
}
use dcp_vardis.Prelude.Effect.{Exec, Void, ◌>>=◌, ◌>>◌, pure, gets, modify}
use dcp_vardis.Vardis.Types.{VarValueT, VarSpecT}
use dcp_vardis.Vardis.Seqno.{modulus}
use dcp_vardis.Vardis.Store.{DbEntry, Statistics, increment, update_value, read_value}
use dcp_vardis.Vardis.Data.{
  Data, on_store, variable_exists, entry_of, modify_entry, producer_is_me, modify_stats,
  schedule_update,
}
use dcp_vardis.Vardis.Receive.{fill_slot, activate, deleted_entry, enqueue_delete}

-- VARDIS_STATUS_* of dcp/common/services_status.h
pub data Status : Type 0 where
  status_ok inactive variable_exists_already variable_description_too_long value_too_long : Status
  empty_value illegal_repcount variable_does_not_exist not_producer variable_is_deleted : Status

-- RTDB_Create_Request and the other requests of dcp/vardis/vardis_service_primitives.h
pub record CreateRequest : Type 0 where
  pub spec : VarSpecT
  pub value : VarValueT

pub record UpdateRequest : Type 0 where
  pub var_id : ℕ
  pub value : VarValueT

unfoldable pub created_entry : ℕ → ℕ → ℕ → VarSpecT → DbEntry
created_entry own created stamped spec = record {
  var_id = spec.var_id;
  prod_id = own;
  rep_cnt = spec.rep_cnt;
  creation_time = created;
  timeout = spec.timeout;
  seqno = 0;
  t_stamp = stamped;
  count_update = 0;
  count_create = spec.rep_cnt;
  count_delete = 0;
  is_deleted = false;
}

-- The database entry is written, and the variable put into its queues.
unfoldable pub install_variable : Bool → ℕ → ℕ → CreateRequest → Exec Data Status
unfolding created_entry
install_variable exists created stamped r d =
    (do
      fill_slot exists r.spec.var_id (created_entry d.own_node_identifier created stamped r.spec)
          r.spec.descr r.value
      modify (activate r.spec.var_id)
      modify_stats
          (λ s. record s { count_handle_rtdb_create = increment s.count_handle_rtdb_create })
      pure status_ok)
      d

-- The checks on the request itself, then the effect.
unfoldable pub create_variable : Bool → ℕ → ℕ → CreateRequest → Exec Data Status
create_variable exists created stamped r d =
    if ltb d.max_description_length (length r.spec.descr)
    then pure variable_description_too_long d
    else if ltb d.max_value_length (length r.value.block)
    then pure value_too_long d
    else if length r.value.block == 0
    then pure empty_value d
    else if r.spec.rep_cnt == 0 || ltb d.max_repetitions r.spec.rep_cnt
    then pure illegal_repcount d
    else install_variable exists created stamped r d

unfoldable pub handle_rtdb_create_request : ℕ → ℕ → CreateRequest → Exec Data Status
unfolding variable_exists entry_of
handle_rtdb_create_request created stamped r = do
  active ← gets (λ d. d.store.is_active)
  if active
      then (do
        exists ← variable_exists r.spec.var_id
        if exists
            then (do
              oldent ← entry_of r.spec.var_id
              own ← gets (λ d. d.own_node_identifier)
              if oldent.prod_id == own
                  then create_variable true created stamped r
                  else pure variable_exists_already)
            else create_variable false created stamped r)
      else pure inactive

-- What stands between a request for a variable and its effect: the demon is active, the variable
-- exists.
unfoldable pub on_variable : {A : Type 0} → (Status → A) → ℕ → (DbEntry → Exec Data A) → Exec Data A
unfolding variable_exists entry_of
on_variable refuse v k = do
  active ← gets (λ d. d.store.is_active)
  if active
      then (do
        exists ← variable_exists v
        if exists then (do entry ← entry_of v; k entry) else pure (refuse variable_does_not_exist))
      else pure (refuse inactive)

unfoldable pub apply_update : ℕ → UpdateRequest → Exec Data Status
unfolding modify_entry update_value schedule_update
apply_update now r = do
  modify_entry r.var_id
      (λ e. record e { seqno = (e.seqno + 1) % modulus; count_update = e.rep_cnt; t_stamp = now })
  on_store (update_value r.var_id r.value)
  schedule_update r.var_id
  modify_stats (λ s. record s { count_handle_rtdb_update = increment s.count_handle_rtdb_update })
  pure status_ok

-- The operator of VarLenT that compares the length with the limit takes a VarLenT, one byte, so that
-- the limit is narrowed too.
unfoldable pub update_variable : ℕ → UpdateRequest → DbEntry → Bool → Exec Data Status
update_variable now r entry me d =
    if not me
    then pure not_producer d
    else if entry.is_deleted
    then pure variable_is_deleted d
    else if ltb (d.max_value_length % 2 ^ 8) (length r.value.block % 2 ^ 8)
    then pure value_too_long d
    else if length r.value.block % 2 ^ 8 == 0
    then pure empty_value d
    else apply_update now r d

unfoldable pub handle_rtdb_update_request : ℕ → UpdateRequest → Exec Data Status
unfolding on_variable producer_is_me update_variable
handle_rtdb_update_request now r =
    on_variable (λ s. s) r.var_id
      λ entry. do me ← producer_is_me r.var_id; update_variable now r entry me

unfoldable pub delete_variable : ℕ → DbEntry → Bool → Exec Data Status
unfolding enqueue_delete modify_entry deleted_entry
delete_variable v entry me d =
    if not me
    then pure not_producer d
    else if entry.is_deleted
    then pure variable_is_deleted d
    else (do
      modify (enqueue_delete v)
      modify_entry v deleted_entry
      modify_stats
          (λ s. record s { count_handle_rtdb_delete = increment s.count_handle_rtdb_delete })
      pure status_ok)
        d

unfoldable pub handle_rtdb_delete_request : ℕ → Exec Data Status
unfolding on_variable producer_is_me delete_variable
handle_rtdb_delete_request v =
    on_variable (λ s. s) v λ entry. do me ← producer_is_me v; delete_variable v entry me

-- RTDB_Read_Confirm: the status, and the value with its time stamp.
pub record ReadConfirm : Type 0 where
  pub status : Status
  pub value : List ℕ
  pub t_stamp : ℕ

-- A confirm of a refusal carries no value, and the clock at its epoch.
unfoldable pub refusal : Status → ReadConfirm
refusal s = record { status = s; value = []; t_stamp = 0 }

unfoldable pub handle_rtdb_read_request : ℕ → Exec Data ReadConfirm
unfolding on_variable read_value refusal
handle_rtdb_read_request v = on_variable refusal v λ entry.
    if entry.is_deleted then pure (refusal variable_is_deleted) else (do
      value ← on_store (read_value v)
      modify_stats (λ s. record s { count_handle_rtdb_read = increment s.count_handle_rtdb_read })
      pure (record { status = status_ok; value = value.block; t_stamp = entry.t_stamp }))
