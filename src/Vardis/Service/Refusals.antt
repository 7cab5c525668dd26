-- ===== src/Vardis/Service/Refusals.antt =====
-- A request that is refused changes nothing.
use dcp_vardis.Prelude.{ℕ, ◌^◌, ◌<◌, ◌≡◌, ◌⊎◌, inl, refl, Bool, true, false, length, arith}
use dcp_vardis.Prelude.Effect.{Outcome, Void, ok, throw, continue, ◌>>◌, modify, pure, Succeeds}
use dcp_vardis.Vardis.Store.{increment}
use dcp_vardis.Vardis.Receive.{fill_slot, activate}
use dcp_vardis.Vardis.Invariant.{Good}
use dcp_vardis.Vardis.Invariant.Kept.Served.{
  handle_rtdb_create_request-Good, handle_rtdb_update_request-Good, handle_rtdb_delete_request-Good,
}
use dcp_vardis.Vardis.Data.{Data, modify_stats}
use dcp_vardis.Vardis.Service.{
  Status, status_ok, created_entry, CreateRequest, UpdateRequest, install_variable, create_variable,
  apply_update, handle_rtdb_create_request, handle_rtdb_update_request, handle_rtdb_delete_request,
}

-- The status is the one of success, or the state is as before; where the call throws, nothing is
-- said.
abbrev OkOrSame : Data → Outcome Data Status → Type 0
OkOrSame d (ok s d') = (s ≡ status_ok) ⊎ (d' ≡ d)
OkOrSame d (throw e d') = Unit {0}

-- The call returns; its status is the one of success, or the state is as before.
abbrev pub IsAnswered : Data → Outcome Data Status → Type 0
IsAnswered d (ok s d') = (s ≡ status_ok) ⊎ (d' ≡ d)
IsAnswered d (throw e d') = ⊥

OkOrSame-IsAnswered :
    (d : Data) (o : Outcome Data Status) → OkOrSame d o → Succeeds o Good → IsAnswered d o
OkOrSame-IsAnswered d (ok s d') h k = h
OkOrSame-IsAnswered d (throw e d') h k = k

install_variable-OkOrSame :
    (d : Data) (exists : Bool) (created stamped : ℕ) (r : CreateRequest)
    → OkOrSame d (install_variable exists created stamped r d)
unfolding install_variable
install_variable-OkOrSame d exists created stamped r = go (
    fill_slot exists r.spec.var_id (created_entry d.own_node_identifier created stamped r.spec)
      r.spec.descr r.value d)
  where
    go :
        (o : Outcome Data Void)
        → OkOrSame d (
            continue o λ _. do
              modify (activate r.spec.var_id)
              modify_stats (λ s. record s {
                count_handle_rtdb_create = increment s.count_handle_rtdb_create;
              })
              pure status_ok)
    go (ok _ d') = inl refl
    go (throw e d') = tt

create_variable-OkOrSame :
    (d : Data) (exists : Bool) (created stamped : ℕ) (r : CreateRequest)
    → OkOrSame d (create_variable exists created stamped r d)
unfolding create_variable
create_variable-OkOrSame d exists created stamped r =
    ground (arith, install_variable-OkOrSame d exists created stamped r)

create-OkOrSame :
    (d : Data) (created stamped : ℕ) (r : CreateRequest)
    → OkOrSame d (handle_rtdb_create_request created stamped r d)
unfolding handle_rtdb_create_request
create-OkOrSame d created stamped r = ground (
  arith,
  create_variable-OkOrSame d true created stamped r,
  create_variable-OkOrSame d false created stamped r,
)

apply_update-OkOrSame : (d : Data) (now : ℕ) (r : UpdateRequest) → OkOrSame d (apply_update now r d)
unfolding apply_update
apply_update-OkOrSame d now r = ground arith

update-OkOrSame :
    (d : Data) (now : ℕ) (r : UpdateRequest) → OkOrSame d (handle_rtdb_update_request now r d)
unfolding handle_rtdb_update_request
update-OkOrSame d now r = ground (arith, apply_update-OkOrSame d now r)

delete-OkOrSame : (d : Data) (v : ℕ) → OkOrSame d (handle_rtdb_delete_request v d)
unfolding handle_rtdb_delete_request
delete-OkOrSame d v = ground arith

-- With data that satisfy the invariant, a request to create a variable with a description is
-- answered, and unless the answer is VARDIS_STATUS_OK it has changed nothing.
pub handle_rtdb_create_request-IsAnswered :
    (d : Data) (created stamped : ℕ) (r : CreateRequest)
    → 0 < length r.spec.descr
    → Good d
    → IsAnswered d (handle_rtdb_create_request created stamped r d)
handle_rtdb_create_request-IsAnswered d created stamped r named g =
    OkOrSame-IsAnswered d _ (create-OkOrSame d created stamped r)
      (handle_rtdb_create_request-Good d created stamped r named g)

-- With data that satisfy the invariant, a request to update a variable to a value of at most 255
-- bytes is answered, and unless the answer is VARDIS_STATUS_OK it has changed nothing.
pub handle_rtdb_update_request-IsAnswered :
    (d : Data) (now : ℕ) (r : UpdateRequest)
    → length r.value.block < 2 ^ 8
    → Good d
    → IsAnswered d (handle_rtdb_update_request now r d)
handle_rtdb_update_request-IsAnswered d now r small g =
    OkOrSame-IsAnswered d _ (update-OkOrSame d now r)
      (handle_rtdb_update_request-Good d now r small g)

-- With data that satisfy the invariant, a request to delete a variable is answered, and unless the
-- answer is VARDIS_STATUS_OK it has changed nothing.
pub handle_rtdb_delete_request-IsAnswered :
    (d : Data) (v : ℕ) → Good d → IsAnswered d (handle_rtdb_delete_request v d)
handle_rtdb_delete_request-IsAnswered d v g =
    OkOrSame-IsAnswered d _ (delete-OkOrSame d v) (handle_rtdb_delete_request-Good d v g)
