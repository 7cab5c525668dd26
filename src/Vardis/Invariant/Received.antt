-- ===== src/Vardis/Invariant/Received.antt =====
-- Every received instruction record is processed without an exception and keeps the invariant at
-- every variable `v`.
use dcp_vardis.Prelude.{
  ℕ, ◌<◌, ◌≤◌, ◌≡◌, ◌≢◌, Bool, true, false, length, arith, refl, Bool-cases, inl, inr,
}
use dcp_vardis.Prelude.Effect.{Succeeds}
use dcp_vardis.Vardis.Types.{
  VarSummT, VarUpdateT, VarCreateT, VarDeleteT, VarReqUpdateT, VarReqCreateT,
}
use dcp_vardis.Vardis.Queue.{remove}
use dcp_vardis.Vardis.Queue.Laws.{contains-insert, contains-remove}
use dcp_vardis.Vardis.Data.{Data}
use dcp_vardis.Vardis.Receive.{
  process_var_create, process_var_delete, process_var_update, process_var_summary, acceptable,
  received_entry, add_received, adopt, process_var_requpdate, process_var_reqcreate,
}
use dcp_vardis.Vardis.Invariant.{At, IsConfigured}
use dcp_vardis.Vardis.Invariant.Filling.{full_slot, fill_slot_lem, activate-At}

pub process_var_reqcreate-At :
    (d : Data) (r : VarReqCreateT) (v : ℕ)
    → IsConfigured d
    → At d r.var_id
    → At d v
    → Succeeds (process_var_reqcreate r d) (λ d'. At d' v)
unfolding process_var_reqcreate
process_var_reqcreate-At d r v c here there =
    ground (arith, contains-insert d.create_q r.var_id v, contains-insert d.req_create_q r.var_id v)

pub process_var_requpdate-At :
    (d : Data) (r : VarReqUpdateT) (v : ℕ)
    → IsConfigured d
    → At d r.upd_spec.var_id
    → At d v
    → Succeeds (process_var_requpdate r d) (λ d'. At d' v)
unfolding process_var_requpdate
process_var_requpdate-At d r v c here there = ground (
  arith,
  contains-insert d.update_q r.upd_spec.var_id v,
  contains-insert d.req_create_q r.upd_spec.var_id v,
)

pub process_var_summary-At :
    (d : Data) (r : VarSummT) (v : ℕ)
    → IsConfigured d
    → At d r.var_id
    → At d v
    → Succeeds (process_var_summary r d) (λ d'. At d' v)
unfolding process_var_summary
process_var_summary-At d r v c here there = ground (
  arith,
  contains-insert d.update_q r.var_id v,
  contains-insert d.req_upd_q r.var_id v,
  contains-insert d.req_create_q r.var_id v,
)

-- The update of an older value, once all tests have passed.
adopt-At :
    (d : Data) (now : ℕ) (r : VarUpdateT) (v : ℕ)
    → IsConfigured d
    → (d.store.id_states r.var_id).used ≡ true
    → (d.store.id_states r.var_id).db_entry.is_deleted ≡ false
    → length r.value.block ≤ d.max_value_length
    → length r.value.block ≢ 0
    → At d r.var_id
    → At d v
    → Succeeds (adopt now r d) (λ d'. At d' v)
unfolding adopt
adopt-At d now r v c u n k p here there =
    ground (arith, contains-insert d.update_q r.var_id v, contains-remove d.req_upd_q r.var_id v)

pub process_var_update-At :
    (d : Data) (now : ℕ) (r : VarUpdateT) (v : ℕ)
    → IsConfigured d
    → At d r.var_id
    → At d v
    → Succeeds (process_var_update now r d) (λ d'. At d' v)
unfolding process_var_update
process_var_update-At d now r v c here there = ground (
  arith,
  contains-insert d.update_q r.var_id v,
  contains-insert d.req_create_q r.var_id v,
  adopt-At d now r v c,
)

pub process_var_delete-At :
    (d : Data) (r : VarDeleteT) (v : ℕ)
    → IsConfigured d
    → At d r.var_id
    → At d v
    → Succeeds (process_var_delete r d) (λ d'. At d' v)
unfolding process_var_delete
process_var_delete-At d r v c here there = ground (
  arith,
  contains-remove d.create_q r.var_id v,
  contains-remove d.delete_q r.var_id v,
  contains-remove d.update_q r.var_id v,
  contains-remove d.summary_q r.var_id v,
  contains-remove d.req_upd_q r.var_id v,
  contains-remove d.req_create_q r.var_id v,
  contains-insert (remove d.delete_q r.var_id) r.var_id v,
)

-- What the tests on a received VarCreate ensure.
pub record IsAcceptable (d : Data) (r : VarCreateT) : Type 0 where
  pub descr_some : 0 < length r.spec.descr
  pub descr_at_most : length r.spec.descr ≤ d.max_description_length
  pub value_some : 0 < length r.update.value.block
  pub value_at_most : length r.update.value.block ≤ d.max_value_length
  pub repeats : 0 < r.spec.rep_cnt
  pub repeats_at_most : r.spec.rep_cnt ≤ d.max_repetitions

pub acceptable-IsAcceptable : (d : Data) (r : VarCreateT) → acceptable d r ≡ true → IsAcceptable d r
unfolding acceptable
acceptable-IsAcceptable d r h = ground arith

add_received-At :
    (d : Data) (exists : Bool) (now : ℕ) (r : VarCreateT) (v : ℕ)
    → IsConfigured d
    → (d.store.id_states r.spec.var_id).used ≡ exists
    → At d v
    → Succeeds (add_received exists now r d) (λ d'. At d' v)
unfolding add_received
add_received-At d exists now r v c u there = elim (Bool-cases (acceptable d r)) [
  | inr refused ↦ rw refused there
  | inl accepted ↦
      let a : IsAcceptable d r = acceptable-IsAcceptable d r accepted in
      rw
        (
          accepted,
          fill_slot_lem d exists r.spec.var_id (received_entry now r) r.spec.descr r.update.value u
              a.descr_some (omega arith) a.value_some (omega arith),
        )
        (activate-At d r.spec.var_id v exists
          (full_slot (received_entry now r) r.spec.descr r.update.value) refl refl refl refl refl
          (omega arith) there)
]

pub process_var_create-At :
    (d : Data) (now : ℕ) (r : VarCreateT) (v : ℕ)
    → IsConfigured d
    → At d v
    → Succeeds (process_var_create now r d) (λ d'. At d' v)
unfolding process_var_create
process_var_create-At d now r v c there =
    ground (arith, add_received-At d true now r v c, add_received-At d false now r v c)
