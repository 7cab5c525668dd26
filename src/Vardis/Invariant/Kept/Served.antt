-- ===== src/Vardis/Invariant/Kept/Served.antt =====
-- A request of an application is answered without an exception, and leaves protocol data that
-- satisfy the invariant.
use dcp_vardis.Prelude.{ℕ, ◌<◌, ◌≤◌, ◌≡◌, ◌≢◌, ◌^◌, Bool, true, false, length, arith}
use dcp_vardis.Prelude.Effect.{Succeeds, Succeeds-both}
use dcp_vardis.Vardis.Queue.Laws.{insert-IsValid, remove-IsValid}
use dcp_vardis.Vardis.Store.{DbEntry}
use dcp_vardis.Vardis.Data.{Data}
use dcp_vardis.Vardis.Service.{
  CreateRequest, UpdateRequest, created_entry, install_variable, create_variable, apply_update,
  handle_rtdb_create_request, handle_rtdb_update_request, handle_rtdb_delete_request,
  handle_rtdb_read_request,
}
use dcp_vardis.Vardis.Invariant.{At, IsConfigured, Good}
use dcp_vardis.Vardis.Invariant.Filling.{full_slot, fill_slot_lem}
use dcp_vardis.Vardis.Invariant.Served.{
  handle_rtdb_create_request-At, handle_rtdb_update_request-At, handle_rtdb_delete_request-At,
  handle_rtdb_read_request-At,
}
use dcp_vardis.Vardis.Invariant.Kept.{IsFramed, Good-IsFramed, IsFramed-Good, activate-IsFramed}

read-IsFramed : (d : Data) (r : ℕ) → IsFramed d → Succeeds (handle_rtdb_read_request r d) IsFramed
unfolding handle_rtdb_read_request
read-IsFramed d r f = ground arith

apply_update-IsFramed :
    (d : Data) (now : ℕ) (r : UpdateRequest)
    → IsFramed d
    → (d.store.id_states r.var_id).used ≡ true
    → length r.value.block ≤ d.max_value_length
    → length r.value.block ≢ 0
    → Succeeds (apply_update now r d) IsFramed
unfolding apply_update
apply_update-IsFramed d now r f u k p =
    ground (arith, insert-IsValid r.var_id f.queues.update_valid)

update-IsFramed :
    (d : Data) (now : ℕ) (r : UpdateRequest)
    → IsFramed d
    → length r.value.block < 2 ^ 8
    → Succeeds (handle_rtdb_update_request now r d) IsFramed
unfolding handle_rtdb_update_request
update-IsFramed d now r f small = ground (arith, apply_update-IsFramed d now r f)

delete-IsFramed :
    (d : Data) (r : ℕ) → IsFramed d → Succeeds (handle_rtdb_delete_request r d) IsFramed
unfolding handle_rtdb_delete_request
delete-IsFramed d r f = ground (
  arith,
  remove-IsValid r f.queues.create_valid,
  insert-IsValid r (remove-IsValid r f.queues.delete_valid),
  remove-IsValid r f.queues.update_valid,
  remove-IsValid r f.queues.summary_valid,
  remove-IsValid r f.queues.req_upd_valid,
  remove-IsValid r f.queues.req_create_valid,
)

install_variable-IsFramed :
    (d : Data) (exists : Bool) (created stamped : ℕ) (r : CreateRequest)
    → IsFramed d
    → 0 < length r.spec.descr
    → length r.spec.descr ≤ d.max_description_length
    → length r.value.block ≤ d.max_value_length
    → length r.value.block ≢ 0
    → (d.store.id_states r.spec.var_id).used ≡ exists
    → Succeeds (install_variable exists created stamped r d) IsFramed
unfolding install_variable
install_variable-IsFramed d exists created stamped r f named a b n u =
    let entry : DbEntry = created_entry d.own_node_identifier created stamped r.spec in
    let c : IsConfigured d = f.configured in
    let after = activate-IsFramed d r.spec.var_id exists (full_slot entry r.spec.descr r.value) f in
    rw
      (fill_slot_lem d exists r.spec.var_id entry r.spec.descr r.value u named (omega arith)
        (omega arith) (omega arith))
      (ground (arith, after))

create_variable-IsFramed :
    (d : Data) (exists : Bool) (created stamped : ℕ) (r : CreateRequest)
    → IsFramed d
    → 0 < length r.spec.descr
    → (d.store.id_states r.spec.var_id).used ≡ exists
    → Succeeds (create_variable exists created stamped r d) IsFramed
unfolding create_variable
create_variable-IsFramed d exists created stamped r f named u =
    ground (arith, install_variable-IsFramed d exists created stamped r f named)

create-IsFramed :
    (d : Data) (created stamped : ℕ) (r : CreateRequest)
    → IsFramed d
    → 0 < length r.spec.descr
    → Succeeds (handle_rtdb_create_request created stamped r d) IsFramed
unfolding handle_rtdb_create_request
create-IsFramed d created stamped r f named = ground (
  arith,
  create_variable-IsFramed d true created stamped r f named,
  create_variable-IsFramed d false created stamped r f named,
)

-- From data that satisfy the invariant, `handle_rtdb_create_request` throws no exception if the
-- description is not empty, and the data satisfy the invariant afterwards.
pub handle_rtdb_create_request-Good :
    (d : Data) (created stamped : ℕ) (r : CreateRequest)
    → 0 < length r.spec.descr
    → Good d
    → Succeeds (handle_rtdb_create_request created stamped r d) Good
handle_rtdb_create_request-Good d created stamped r named g =
    Succeeds-both _ IsFramed At Good (create-IsFramed d created stamped r (Good-IsFramed d g) named)
      (λ v. handle_rtdb_create_request-At d created stamped r v g.configured named (g.coherent v))
      IsFramed-Good

-- From data that satisfy the invariant, `handle_rtdb_update_request` throws no exception if the
-- value has at most 255 bytes, and the data satisfy the invariant afterwards.
pub handle_rtdb_update_request-Good :
    (d : Data) (now : ℕ) (r : UpdateRequest)
    → length r.value.block < 2 ^ 8
    → Good d
    → Succeeds (handle_rtdb_update_request now r d) Good
handle_rtdb_update_request-Good d now r small g =
    Succeeds-both _ IsFramed At Good (update-IsFramed d now r (Good-IsFramed d g) small)
      (λ v.
        handle_rtdb_update_request-At d now r v g.configured small (g.coherent r.var_id)
          (g.coherent v))
      IsFramed-Good

-- From data that satisfy the invariant, `handle_rtdb_delete_request` throws no exception, and the
-- data satisfy the invariant afterwards.
pub handle_rtdb_delete_request-Good :
    (d : Data) (r : ℕ) → Good d → Succeeds (handle_rtdb_delete_request r d) Good
handle_rtdb_delete_request-Good d r g =
    Succeeds-both _ IsFramed At Good (delete-IsFramed d r (Good-IsFramed d g))
      (λ v. handle_rtdb_delete_request-At d r v g.configured (g.coherent r) (g.coherent v))
      IsFramed-Good

-- `handle_rtdb_read_request` returns, and keeps the invariant.
pub handle_rtdb_read_request-Good :
    (d : Data) (r : ℕ) → Good d → Succeeds (handle_rtdb_read_request r d) Good
handle_rtdb_read_request-Good d r g =
    Succeeds-both _ IsFramed At Good (read-IsFramed d r (Good-IsFramed d g))
      (λ v. handle_rtdb_read_request-At d r v (g.coherent v)) IsFramed-Good
