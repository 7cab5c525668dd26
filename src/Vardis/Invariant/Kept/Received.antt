-- ===== src/Vardis/Invariant/Kept/Received.antt =====
-- A received instruction record is processed without an exception, whatever it holds, and leaves
-- protocol data that satisfy the invariant.
use dcp_vardis.Prelude.{ℕ, ◌≤◌, ◌≡◌, ◌≢◌, Bool, true, false, length, arith, Bool-cases, inl, inr}
use dcp_vardis.Prelude.Effect.{Succeeds, Succeeds-both}
use dcp_vardis.Vardis.Types.{
  VarSummT, VarUpdateT, VarCreateT, VarDeleteT, VarReqUpdateT, VarReqCreateT,
}
use dcp_vardis.Vardis.Queue.Laws.{insert-IsValid, remove-IsValid}
use dcp_vardis.Vardis.Data.{Data}
use dcp_vardis.Vardis.Receive.{
  process_var_create, process_var_delete, process_var_update, process_var_summary, acceptable,
  received_entry, add_received, adopt, process_var_requpdate, process_var_reqcreate,
}
use dcp_vardis.Vardis.Invariant.{At, Good}
use dcp_vardis.Vardis.Invariant.Filling.{full_slot, fill_slot_lem}
use dcp_vardis.Vardis.Invariant.Received.{
  IsAcceptable, acceptable-IsAcceptable, process_var_create-At, process_var_delete-At,
  process_var_update-At, process_var_summary-At, process_var_requpdate-At, process_var_reqcreate-At,
}
use dcp_vardis.Vardis.Invariant.Kept.{IsFramed, Good-IsFramed, IsFramed-Good, activate-IsFramed}

reqcreate-IsFramed :
    (d : Data) (r : VarReqCreateT) → IsFramed d → Succeeds (process_var_reqcreate r d) IsFramed
unfolding process_var_reqcreate
reqcreate-IsFramed d r f = ground (
  arith,
  insert-IsValid r.var_id f.queues.create_valid,
  insert-IsValid r.var_id f.queues.req_create_valid,
)

requpdate-IsFramed :
    (d : Data) (r : VarReqUpdateT) → IsFramed d → Succeeds (process_var_requpdate r d) IsFramed
unfolding process_var_requpdate
requpdate-IsFramed d r f = ground (
  arith,
  insert-IsValid r.upd_spec.var_id f.queues.update_valid,
  insert-IsValid r.upd_spec.var_id f.queues.req_create_valid,
)

summary-IsFramed :
    (d : Data) (r : VarSummT) → IsFramed d → Succeeds (process_var_summary r d) IsFramed
unfolding process_var_summary
summary-IsFramed d r f = ground (
  arith,
  insert-IsValid r.var_id f.queues.update_valid,
  insert-IsValid r.var_id f.queues.req_upd_valid,
  insert-IsValid r.var_id f.queues.req_create_valid,
)

adopt-IsFramed :
    (d : Data) (now : ℕ) (r : VarUpdateT)
    → IsFramed d
    → (d.store.id_states r.var_id).used ≡ true
    → length r.value.block ≤ d.max_value_length
    → length r.value.block ≢ 0
    → Succeeds (adopt now r d) IsFramed
unfolding adopt
adopt-IsFramed d now r f u k p = ground (
  arith,
  insert-IsValid r.var_id f.queues.update_valid,
  remove-IsValid r.var_id f.queues.req_upd_valid,
)

update-IsFramed :
    (d : Data) (now : ℕ) (r : VarUpdateT)
    → IsFramed d
    → Succeeds (process_var_update now r d) IsFramed
unfolding process_var_update
update-IsFramed d now r f = ground (
  arith,
  insert-IsValid r.var_id f.queues.update_valid,
  insert-IsValid r.var_id f.queues.req_create_valid,
  adopt-IsFramed d now r f,
)

delete-IsFramed :
    (d : Data) (r : VarDeleteT) → IsFramed d → Succeeds (process_var_delete r d) IsFramed
unfolding process_var_delete
delete-IsFramed d r f = ground (
  arith,
  remove-IsValid r.var_id f.queues.create_valid,
  insert-IsValid r.var_id (remove-IsValid r.var_id f.queues.delete_valid),
  remove-IsValid r.var_id f.queues.update_valid,
  remove-IsValid r.var_id f.queues.summary_valid,
  remove-IsValid r.var_id f.queues.req_upd_valid,
  remove-IsValid r.var_id f.queues.req_create_valid,
)

add_received-IsFramed :
    (d : Data) (exists : Bool) (now : ℕ) (r : VarCreateT)
    → IsFramed d
    → (d.store.id_states r.spec.var_id).used ≡ exists
    → Succeeds (add_received exists now r d) IsFramed
unfolding add_received
add_received-IsFramed d exists now r f u = elim (Bool-cases (acceptable d r)) [
  | inr refused ↦ rw refused f
  | inl accepted ↦
      let c = f.configured in
      let a : IsAcceptable d r = acceptable-IsAcceptable d r accepted in
      rw
        (
          accepted,
          fill_slot_lem d exists r.spec.var_id (received_entry now r) r.spec.descr r.update.value u
              a.descr_some (omega arith) a.value_some (omega arith),
        )
        (activate-IsFramed d r.spec.var_id exists
          (full_slot (received_entry now r) r.spec.descr r.update.value) f)
]

create-IsFramed :
    (d : Data) (now : ℕ) (r : VarCreateT)
    → IsFramed d
    → Succeeds (process_var_create now r d) IsFramed
unfolding process_var_create
create-IsFramed d now r f =
    ground (arith, add_received-IsFramed d true now r f, add_received-IsFramed d false now r f)

-- From data that satisfy the invariant, `process_var_reqcreate` throws no exception, whatever the
-- record holds, and the data satisfy the invariant afterwards.
pub process_var_reqcreate-Good :
    (d : Data) (r : VarReqCreateT) → Good d → Succeeds (process_var_reqcreate r d) Good
process_var_reqcreate-Good d r g =
    Succeeds-both _ IsFramed At Good (reqcreate-IsFramed d r (Good-IsFramed d g))
      (λ v. process_var_reqcreate-At d r v g.configured (g.coherent r.var_id) (g.coherent v))
      IsFramed-Good

-- From data that satisfy the invariant, `process_var_requpdate` throws no exception, whatever the
-- record holds, and the data satisfy the invariant afterwards.
pub process_var_requpdate-Good :
    (d : Data) (r : VarReqUpdateT) → Good d → Succeeds (process_var_requpdate r d) Good
process_var_requpdate-Good d r g =
    Succeeds-both _ IsFramed At Good (requpdate-IsFramed d r (Good-IsFramed d g))
      (λ v.
        process_var_requpdate-At d r v g.configured (g.coherent r.upd_spec.var_id) (g.coherent v))
      IsFramed-Good

-- From data that satisfy the invariant, `process_var_summary` throws no exception, whatever the
-- record holds, and the data satisfy the invariant afterwards.
pub process_var_summary-Good :
    (d : Data) (r : VarSummT) → Good d → Succeeds (process_var_summary r d) Good
process_var_summary-Good d r g =
    Succeeds-both _ IsFramed At Good (summary-IsFramed d r (Good-IsFramed d g))
      (λ v. process_var_summary-At d r v g.configured (g.coherent r.var_id) (g.coherent v))
      IsFramed-Good

-- From data that satisfy the invariant, `process_var_update` throws no exception, whatever the
-- record holds, and the data satisfy the invariant afterwards.
pub process_var_update-Good :
    (d : Data) (now : ℕ) (r : VarUpdateT) → Good d → Succeeds (process_var_update now r d) Good
process_var_update-Good d now r g =
    Succeeds-both _ IsFramed At Good (update-IsFramed d now r (Good-IsFramed d g))
      (λ v. process_var_update-At d now r v g.configured (g.coherent r.var_id) (g.coherent v))
      IsFramed-Good

-- From data that satisfy the invariant, `process_var_delete` throws no exception, whatever the
-- record holds, and the data satisfy the invariant afterwards.
pub process_var_delete-Good :
    (d : Data) (r : VarDeleteT) → Good d → Succeeds (process_var_delete r d) Good
process_var_delete-Good d r g =
    Succeeds-both _ IsFramed At Good (delete-IsFramed d r (Good-IsFramed d g))
      (λ v. process_var_delete-At d r v g.configured (g.coherent r.var_id) (g.coherent v))
      IsFramed-Good

-- From data that satisfy the invariant, `process_var_create` throws no exception, whatever the
-- record holds, and the data satisfy the invariant afterwards.
pub process_var_create-Good :
    (d : Data) (now : ℕ) (r : VarCreateT) → Good d → Succeeds (process_var_create now r d) Good
process_var_create-Good d now r g =
    Succeeds-both _ IsFramed At Good (create-IsFramed d now r (Good-IsFramed d g))
      (λ v. process_var_create-At d now r v g.configured (g.coherent v)) IsFramed-Good
