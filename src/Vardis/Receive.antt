-- ===== src/Vardis/Receive.antt =====
-- The `process_var_*` functions of dcp/vardis/vardis_protocol_data.cc: what a node does with each
-- instruction record that it receives. `now` is what `get_current_system_time` returns.
pub mod Order
pub mod Delivery
use dcp_vardis.Prelude.{
  ℕ, ◌<◌, Bool, true, false, not, ◌&&◌, ◌||◌, length, if◌then◌else◌, ltb, leb, ◌==◌,
}
use dcp_vardis.Prelude.Effect.{Exec, Void, ◌>>=◌, ◌>>◌, pure, gets, modify}
use dcp_vardis.Vardis.Types.{
  VarValueT, StringT, VarSummT, VarUpdateT, VarSpecT, VarCreateT, VarDeleteT, VarReqUpdateT,
  VarReqCreateT,
}
use dcp_vardis.Vardis.Seqno.{more_recent_seqno}
use dcp_vardis.Vardis.Queue.{insert, remove, contains}
use dcp_vardis.Vardis.Store.{
  DbEntry, Statistics, increment, allocate_identifier, set_db_entry, update_value,
  update_description,
}
use dcp_vardis.Vardis.Data.{
  Data, on_store, set_insert, variable_exists, entry_of, modify_entry, producer_is_me, modify_stats,
  remove_from_queues, request_create, request_update, schedule_update, schedule_create,
}

-- The tests on a received VarCreate.
unfoldable pub acceptable : Data → VarCreateT → Bool
acceptable d create =
    not (create.spec.prod_id == d.own_node_identifier)
    && leb (length create.spec.descr) d.max_description_length
    && ltb 0 (length create.spec.descr)
    && leb (length create.update.value.block) d.max_value_length
    && ltb 0 (length create.update.value.block)
    && leb create.spec.rep_cnt d.max_repetitions
    && ltb 0 create.spec.rep_cnt

unfoldable pub received_entry : ℕ → VarCreateT → DbEntry
received_entry now create = record {
  var_id = create.spec.var_id;
  prod_id = create.spec.prod_id;
  rep_cnt = create.spec.rep_cnt;
  creation_time = create.spec.creation_time;
  timeout = create.spec.timeout;
  seqno = create.update.seqno;
  t_stamp = now;
  count_update = 0;
  count_create = create.spec.rep_cnt;
  count_delete = 0;
  is_deleted = false;
}

-- `active_variables.insert`, and the queues: out of all, then into two.
unfoldable pub activate : ℕ → Data → Data
unfolding set_insert remove_from_queues
activate v d =
    let cleared =
      remove_from_queues v (record d { active_variables = set_insert v d.active_variables }) in
    record cleared { create_q = insert cleared.create_q v; summary_q = insert cleared.summary_q v }

-- Both branches of `if (not variable_exists) allocate_identifier`, then the slot is filled.
unfoldable pub fill_slot : Bool → ℕ → DbEntry → StringT → VarValueT → Exec Data Void
fill_slot exists v entry descr value = do
  if exists then pure tt else on_store (allocate_identifier v)
  on_store (set_db_entry v entry)
  on_store (update_description v descr)
  on_store (update_value v value)

-- The statistics are taken into a copy (`auto vardis_stats = ...`), so that the count of the store
-- stays as it is.
unfoldable pub add_received : Bool → ℕ → VarCreateT → Exec Data Void
unfolding received_entry
add_received exists now create d =
    if acceptable d create
    then (do
      fill_slot exists create.spec.var_id (received_entry now create) create.spec.descr
          create.update.value
      modify (activate create.spec.var_id))
        d
    else pure tt d

unfoldable pub process_var_create : ℕ → VarCreateT → Exec Data Void
unfolding variable_exists entry_of
process_var_create now create = do
  exists ← variable_exists create.spec.var_id
  if exists
      then (do
        oldent ← entry_of create.spec.var_id
        if leb create.spec.creation_time oldent.creation_time
            then pure tt
            else add_received true now create)
      else add_received false now create

-- The entry of a variable that starts to be deleted.
unfoldable pub deleted_entry : DbEntry → DbEntry
deleted_entry e = record e {
  is_deleted = true;
  count_update = 0;
  count_create = 0;
  count_delete = e.rep_cnt;
}

unfoldable pub enqueue_delete : ℕ → Data → Data
unfolding remove_from_queues
enqueue_delete v d =
    let cleared = remove_from_queues v d in record cleared { delete_q = insert cleared.delete_q v }

unfoldable pub process_var_delete : VarDeleteT → Exec Data Void
unfolding variable_exists entry_of producer_is_me modify_entry deleted_entry enqueue_delete
process_var_delete del = do
  exists ← variable_exists del.var_id
  if exists
      then (do
        entry ← entry_of del.var_id
        me ← if entry.is_deleted then pure true else producer_is_me del.var_id
        if entry.is_deleted || me then pure tt else (do
          modify_entry del.var_id deleted_entry
          modify (enqueue_delete del.var_id)
          modify_stats
              (λ s. record s { count_process_var_delete = increment s.count_process_var_delete })))
      else pure tt

-- This node is ahead of the sender: it schedules updates, unless they are scheduled already.
unfoldable pub educate : ℕ → Exec Data Void
unfolding modify_entry
educate v d =
    if contains d.update_q v
    then pure tt d
    else (do
      modify (λ d. record d { update_q = insert d.update_q v })
      modify_entry v (λ e. record e { count_update = e.rep_cnt }))
        d

-- The value of an update that is newer than this node's.
unfoldable pub adopt : ℕ → VarUpdateT → Exec Data Void
unfolding modify_entry schedule_update update_value
adopt now update = do
  modify_entry update.var_id
      (λ e. record e { seqno = update.seqno; t_stamp = now; count_update = e.rep_cnt })
  on_store (update_value update.var_id update.value)
  schedule_update update.var_id
  modify (λ d. record d { req_upd_q = remove d.req_upd_q update.var_id })
  modify_stats (λ s. record s { count_process_var_update = increment s.count_process_var_update })

unfoldable pub process_known_update : ℕ → VarUpdateT → DbEntry → Bool → Exec Data Void
unfolding educate
process_known_update now update entry me d =
    if me
    then pure tt d
    else if ltb d.max_value_length (length update.value.block) || length update.value.block == 0
    then pure tt d
    else if entry.seqno == update.seqno
    then pure tt d
    else if more_recent_seqno entry.seqno update.seqno
    then educate update.var_id d
    else adopt now update d

unfoldable pub process_var_update : ℕ → VarUpdateT → Exec Data Void
unfolding variable_exists entry_of producer_is_me request_create process_known_update
process_var_update now update = do
  exists ← variable_exists update.var_id
  if exists
      then (do
        entry ← entry_of update.var_id
        if entry.is_deleted
            then pure tt
            else (do me ← producer_is_me update.var_id; process_known_update now update entry me))
      else request_create update.var_id

unfoldable pub process_known_summary : VarSummT → DbEntry → Bool → Exec Data Void
unfolding educate request_update
process_known_summary summ entry me d =
    if me
    then pure tt d
    else if entry.seqno == summ.seqno
    then pure tt d
    else if more_recent_seqno entry.seqno summ.seqno
    then educate summ.var_id d
    else (do
      request_update summ.var_id
      modify_stats
          (λ s. record s { count_process_var_summary = increment s.count_process_var_summary }))
        d

unfoldable pub process_var_summary : VarSummT → Exec Data Void
unfolding variable_exists entry_of producer_is_me request_create process_known_summary
process_var_summary summ = do
  exists ← variable_exists summ.var_id
  if exists
      then (do
        entry ← entry_of summ.var_id
        if entry.is_deleted
            then pure tt
            else (do me ← producer_is_me summ.var_id; process_known_summary summ entry me))
      else request_create summ.var_id

unfoldable pub process_var_requpdate : VarReqUpdateT → Exec Data Void
unfolding variable_exists entry_of modify_entry schedule_update request_create
process_var_requpdate requpd = do
  exists ← variable_exists requpd.upd_spec.var_id
  if exists
      then (do
        entry ← entry_of requpd.upd_spec.var_id
        if entry.is_deleted || more_recent_seqno requpd.upd_spec.seqno entry.seqno
            then pure tt
            else (do
              modify_entry requpd.upd_spec.var_id (λ e. record e { count_update = e.rep_cnt })
              schedule_update requpd.upd_spec.var_id
              modify_stats (λ s. record s {
                count_process_var_requpdate = increment s.count_process_var_requpdate;
              })))
      else request_create requpd.upd_spec.var_id

unfoldable pub process_var_reqcreate : VarReqCreateT → Exec Data Void
unfolding variable_exists entry_of modify_entry schedule_create request_create
process_var_reqcreate reqcreate = do
  exists ← variable_exists reqcreate.var_id
  if exists
      then (do
        entry ← entry_of reqcreate.var_id
        if entry.is_deleted then pure tt else (do
          modify_entry reqcreate.var_id (λ e. record e { count_create = e.rep_cnt })
          schedule_create reqcreate.var_id
          modify_stats (λ s. record s {
            count_process_var_reqcreate = increment s.count_process_var_reqcreate;
          })))
      else request_create reqcreate.var_id
