-- ===== src/Vardis/Transmit/Kinds.antt =====
-- The six kinds of instruction containers: the `addVar*` and `instructionSize*` functions, what each
-- `makeICType*` function does with an identifier, and `construct_payload`, which calls the six.
use dcp_vardis.Prelude.{
  ℕ, ◌+◌, ◌-◌, ◌%◌, ◌^◌, Bool, true, false, not, if◌then◌else◌, ltb, ◌==◌, min,
}
use dcp_vardis.Prelude.Effect.{
  Outcome, Exec, Void, ok, throw, ◌>>=◌, ◌>>◌, pure, raise, modify, vardis_transmit_exception,
}
use dcp_vardis.Common.TimeStamp.{HostClock}
use dcp_vardis.Vardis.Types.{
  VarCreateT, VarValueT, StringT, var_spec_fixed_size, var_update_fixed_size, var_summ_fixed_size,
  var_delete_fixed_size, var_req_update_fixed_size, var_req_create_fixed_size, ictype_summaries,
  ictype_updates, ictype_request_varupdates, ictype_request_varcreates, ictype_create_variables,
  ictype_delete_variables,
}
use dcp_vardis.Vardis.Types.Codec.{
  serialize_create, serialize_summ, serialize_update, serialize_delete, serialize_req_update,
  serialize_req_create,
}
use dcp_vardis.Vardis.Queue.{insert}
use dcp_vardis.Vardis.Store.{
  DbEntry, size_of_value, size_of_description, read_value, read_description,
}
use dcp_vardis.Vardis.Data.{Data, on_store, entry_of, modify_entry, variable_exists}
use dcp_vardis.Vardis.Transmit.{Tx, Kind, on_protocol, on_area, make_container}

-- `count--` on a byte.
abbrev pub decrement : ℕ → ℕ
decrement n = (n + 2 ^ 8 - 1) % 2 ^ 8

unfoldable pub instruction_size_var_create : Data → ℕ → ℕ
unfolding size_of_value size_of_description
instruction_size_var_create d v =
    var_spec_fixed_size
    + size_of_description d.store v
    + var_update_fixed_size
    + size_of_value d.store v

unfoldable pub instruction_size_var_update : Data → ℕ → ℕ
unfolding size_of_value
instruction_size_var_update d v = var_update_fixed_size + size_of_value d.store v

unfoldable pub create_record : DbEntry → StringT → VarValueT → VarCreateT
create_record e descr value = record {
  spec = record {
    var_id = e.var_id;
    prod_id = e.prod_id;
    rep_cnt = e.rep_cnt;
    creation_time = e.creation_time;
    timeout = e.timeout;
    descr = descr;
  };
  update = record { var_id = e.var_id; seqno = e.seqno; value = value };
}

unfoldable pub add_var_create : HostClock → DbEntry → Exec Tx Void
add_var_create clock e = do
  descr ← on_protocol (on_store (read_description e.var_id))
  value ← on_protocol (on_store (read_value e.var_id))
  on_area (serialize_create clock (create_record e descr value))

unfoldable pub add_var_summary : ℕ → DbEntry → Exec Tx Void
add_var_summary v e = on_area (serialize_summ (record { var_id = v; seqno = e.seqno }))

unfoldable pub add_var_update : DbEntry → Exec Tx Void
add_var_update e = do
  value ← on_protocol (on_store (read_value e.var_id))
  on_area (serialize_update (record { var_id = e.var_id; seqno = e.seqno; value = value }))

unfoldable pub add_var_delete : ℕ → Exec Tx Void
add_var_delete v = on_area (serialize_delete (record { var_id = v }))

unfoldable pub add_var_req_create : ℕ → Exec Tx Void
add_var_req_create v = on_area (serialize_req_create (record { var_id = v }))

unfoldable pub add_var_req_update : ℕ → DbEntry → Exec Tx Void
add_var_req_update v e =
    on_area (serialize_req_update (record { upd_spec = record { var_id = v; seqno = e.seqno } }))

unfoldable pub send_create : HostClock → ℕ → Exec Tx Void
unfolding entry_of modify_entry
send_create clock v = do
  before ← on_protocol (entry_of v)
  if before.count_create == 0 then raise vardis_transmit_exception else pure tt
  on_protocol (modify_entry v (λ e. record e { count_create = decrement e.count_create }))
  entry ← on_protocol (entry_of v)
  add_var_create clock entry
  if ltb 0 entry.count_create
      then on_protocol (modify (λ d. record d { create_q = insert d.create_q v }))
      else pure tt

unfoldable pub send_summary : ℕ → Exec Tx Void
unfolding entry_of
send_summary v = do
  on_protocol (modify (λ d. record d { summary_q = insert d.summary_q v }))
  entry ← on_protocol (entry_of v)
  add_var_summary v entry

unfoldable pub send_update : ℕ → Exec Tx Void
unfolding entry_of modify_entry
send_update v = do
  before ← on_protocol (entry_of v)
  if before.count_update == 0 then raise vardis_transmit_exception else pure tt
  on_protocol (modify_entry v (λ e. record e { count_update = decrement e.count_update }))
  entry ← on_protocol (entry_of v)
  add_var_update entry
  if ltb 0 entry.count_update
      then on_protocol (modify (λ d. record d { update_q = insert d.update_q v }))
      else pure tt

unfoldable pub send_delete : ℕ → Exec Tx Void
unfolding variable_exists entry_of modify_entry
send_delete v = do
  exists ← on_protocol (variable_exists v)
  if exists then pure tt else raise vardis_transmit_exception
  before ← on_protocol (entry_of v)
  if before.count_delete == 0 then raise vardis_transmit_exception else pure tt
  on_protocol (modify_entry v (λ e. record e { count_delete = decrement e.count_delete }))
  add_var_delete v
  entry ← on_protocol (entry_of v)
  if ltb 0 entry.count_delete
      then on_protocol (modify (λ d. record d { delete_q = insert d.delete_q v }))
      else pure tt

unfoldable pub send_req_update : ℕ → Exec Tx Void
unfolding entry_of
send_req_update v = do entry ← on_protocol (entry_of v); add_var_req_update v entry

unfoldable pub send_req_create : ℕ → Exec Tx Void
send_req_create v = add_var_req_create v

abbrev pub creates : HostClock → Kind
creates clock = record {
  queue = λ d. d.create_q;
  set_queue = λ q d. record d { create_q = q };
  size = instruction_size_var_create;
  ic_type = ictype_create_variables;
  enabled = λ d. true;
  cap = λ d n. n;
  send = send_create clock;
}

abbrev pub summaries : Kind
summaries = record {
  queue = λ d. d.summary_q;
  set_queue = λ q d. record d { summary_q = q };
  size = λ d v. var_summ_fixed_size;
  ic_type = ictype_summaries;
  enabled = λ d. not (d.max_summaries == 0);
  cap = λ d n. min n d.max_summaries;
  send = send_summary;
}

abbrev pub updates : Kind
updates = record {
  queue = λ d. d.update_q;
  set_queue = λ q d. record d { update_q = q };
  size = instruction_size_var_update;
  ic_type = ictype_updates;
  enabled = λ d. true;
  cap = λ d n. n;
  send = send_update;
}

abbrev pub deletes : Kind
deletes = record {
  queue = λ d. d.delete_q;
  set_queue = λ q d. record d { delete_q = q };
  size = λ d v. var_delete_fixed_size;
  ic_type = ictype_delete_variables;
  enabled = λ d. true;
  cap = λ d n. n;
  send = send_delete;
}

abbrev pub req_updates : Kind
req_updates = record {
  queue = λ d. d.req_upd_q;
  set_queue = λ q d. record d { req_upd_q = q };
  size = λ d v. var_req_update_fixed_size;
  ic_type = ictype_request_varupdates;
  enabled = λ d. true;
  cap = λ d n. n;
  send = send_req_update;
}

abbrev pub req_creates : Kind
req_creates = record {
  queue = λ d. d.req_create_q;
  set_queue = λ q d. record d { req_create_q = q };
  size = λ d v. var_req_create_fixed_size;
  ic_type = ictype_request_varcreates;
  enabled = λ d. true;
  cap = λ d n. n;
  send = send_req_create;
}

unfoldable pub make_ic_type_create_variables : HostClock → Exec Tx Void
make_ic_type_create_variables clock = make_container (creates clock)

unfoldable pub make_ic_type_summaries : Exec Tx Void
make_ic_type_summaries = make_container summaries

unfoldable pub make_ic_type_updates : Exec Tx Void
make_ic_type_updates = make_container updates

unfoldable pub make_ic_type_delete_variables : Exec Tx Void
make_ic_type_delete_variables = make_container deletes

unfoldable pub make_ic_type_request_var_updates : Exec Tx Void
make_ic_type_request_var_updates = make_container req_updates

unfoldable pub make_ic_type_request_var_creates : Exec Tx Void
make_ic_type_request_var_creates = make_container req_creates

unfoldable pub make_containers : HostClock → Exec Tx Void
make_containers clock = do
  make_ic_type_create_variables clock
  make_ic_type_delete_variables
  make_ic_type_request_var_creates
  make_ic_type_summaries
  make_ic_type_updates
  make_ic_type_request_var_updates

-- The handler of an exception sets `vardis_exitFlag` and takes the containers back; the Boolean is
-- the flag afterwards.
unfoldable pub handle_exception : Outcome Tx Void → Tx × Bool
handle_exception (ok _ t) = (t, false)
handle_exception (throw e t) = (record t { containers_added = 0 }, true)

unfoldable pub construct_payload : HostClock → Tx → Tx × Bool
unfolding handle_exception
construct_payload clock t = handle_exception (make_containers clock t)
