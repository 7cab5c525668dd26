-- ===== src/Vardis/Invariant/Served.antt =====
-- Every request of an application is answered without an exception and keeps the invariant at every
-- variable `v`; a request to create needs a description.
use dcp_vardis.Prelude.{ℕ, ◌<◌, ◌≤◌, ◌≡◌, ◌≢◌, ◌^◌, refl, Bool, true, false, length, arith}
use dcp_vardis.Prelude.Effect.{Succeeds}
use dcp_vardis.Vardis.Queue.{remove}
use dcp_vardis.Vardis.Queue.Laws.{contains-insert, contains-remove}
use dcp_vardis.Vardis.Store.{DbEntry, Statistics, increment}
use dcp_vardis.Vardis.Data.{Data}
use dcp_vardis.Vardis.Service.{
  CreateRequest, UpdateRequest, created_entry, install_variable, create_variable, apply_update,
  handle_rtdb_create_request, handle_rtdb_update_request, handle_rtdb_delete_request,
  handle_rtdb_read_request,
}
use dcp_vardis.Vardis.Invariant.{At, IsConfigured}
use dcp_vardis.Vardis.Invariant.Filling.{full_slot, fill_slot_lem, activate-At}

pub handle_rtdb_read_request-At :
    (d : Data) (r v : ℕ) → At d v → Succeeds (handle_rtdb_read_request r d) (λ d'. At d' v)
unfolding handle_rtdb_read_request
handle_rtdb_read_request-At d r v there = ground arith

apply_update-At :
    (d : Data) (now : ℕ) (r : UpdateRequest) (v : ℕ)
    → IsConfigured d
    → (d.store.id_states r.var_id).used ≡ true
    → (d.store.id_states r.var_id).db_entry.is_deleted ≡ false
    → length r.value.block ≤ d.max_value_length
    → length r.value.block ≢ 0
    → At d r.var_id
    → At d v
    → Succeeds (apply_update now r d) (λ d'. At d' v)
unfolding apply_update
apply_update-At d now r v c u n k p here there =
    ground (arith, contains-insert d.update_q r.var_id v)

pub handle_rtdb_update_request-At :
    (d : Data) (now : ℕ) (r : UpdateRequest) (v : ℕ)
    → IsConfigured d
    → length r.value.block < 2 ^ 8
    → At d r.var_id
    → At d v
    → Succeeds (handle_rtdb_update_request now r d) (λ d'. At d' v)
unfolding handle_rtdb_update_request
handle_rtdb_update_request-At d now r v c small here there =
    ground (arith, apply_update-At d now r v c)

pub handle_rtdb_delete_request-At :
    (d : Data) (r v : ℕ)
    → IsConfigured d
    → At d r
    → At d v
    → Succeeds (handle_rtdb_delete_request r d) (λ d'. At d' v)
unfolding handle_rtdb_delete_request
handle_rtdb_delete_request-At d r v c here there = ground (
  arith,
  contains-remove d.create_q r v,
  contains-remove d.delete_q r v,
  contains-remove d.update_q r v,
  contains-remove d.summary_q r v,
  contains-remove d.req_upd_q r v,
  contains-remove d.req_create_q r v,
  contains-insert (remove d.delete_q r) r v,
)

abbrev bumped : Statistics → Statistics
bumped s = record s { count_handle_rtdb_create = increment s.count_handle_rtdb_create }

install_variable-At :
    (d : Data) (exists : Bool) (created stamped : ℕ) (r : CreateRequest) (v : ℕ)
    → IsConfigured d
    → 0 < length r.spec.descr
    → length r.spec.descr ≤ d.max_description_length
    → length r.value.block ≤ d.max_value_length
    → length r.value.block ≢ 0
    → 0 < r.spec.rep_cnt
    → r.spec.rep_cnt ≤ d.max_repetitions
    → (d.store.id_states r.spec.var_id).used ≡ exists
    → At d v
    → Succeeds (install_variable exists created stamped r d) (λ d'. At d' v)
unfolding install_variable
install_variable-At d exists created stamped r v c named a b n p q u there =
    let entry : DbEntry = created_entry d.own_node_identifier created stamped r.spec in
    rw
      (fill_slot_lem d exists r.spec.var_id entry r.spec.descr r.value u named (omega arith)
        (omega arith) (omega arith))
      (counted _ v (
        activate-At d r.spec.var_id v exists (full_slot entry r.spec.descr r.value) refl refl refl
          refl refl (omega arith) there))
  where
    counted :
        (e : Data) (w : ℕ)
        → At e w
        → At (record e { store = record e.store { stats = bumped e.store.stats } }) w
    counted e w h = ground arith

create_variable-At :
    (d : Data) (exists : Bool) (created stamped : ℕ) (r : CreateRequest) (v : ℕ)
    → IsConfigured d
    → 0 < length r.spec.descr
    → (d.store.id_states r.spec.var_id).used ≡ exists
    → At d v
    → Succeeds (create_variable exists created stamped r d) (λ d'. At d' v)
unfolding create_variable
create_variable-At d exists created stamped r v c named u there =
    ground (arith, install_variable-At d exists created stamped r v c named)

pub handle_rtdb_create_request-At :
    (d : Data) (created stamped : ℕ) (r : CreateRequest) (v : ℕ)
    → IsConfigured d
    → 0 < length r.spec.descr
    → At d v
    → Succeeds (handle_rtdb_create_request created stamped r d) (λ d'. At d' v)
unfolding handle_rtdb_create_request
handle_rtdb_create_request-At d created stamped r v c named there = ground (
  arith,
  create_variable-At d true created stamped r v c named,
  create_variable-At d false created stamped r v c named,
)
