-- ===== src/Vardis/Service/Reads.antt =====
-- What an application reads after a variable has been created, updated or deleted.
use dcp_vardis.Prelude.{ℕ, ◌<◌, ◌≤◌, ◌≡◌, ◌≢◌, ◌^◌, true, false, length, arith, ==_refl}
use dcp_vardis.Prelude.Effect.{Outcome, ok, throw, continue}
use dcp_vardis.Vardis.Types.{VarUpdateT, VarDeleteT}
use dcp_vardis.Vardis.Seqno.{more_recent_seqno}
use dcp_vardis.Vardis.Data.{Data}
use dcp_vardis.Vardis.Invariant.{Good, IsConfigured}
use dcp_vardis.Vardis.Receive.{process_var_update, process_var_delete, adopt}
use dcp_vardis.Vardis.Service.{
  status_ok, variable_is_deleted, UpdateRequest, ReadConfirm, refusal, apply_update,
  handle_rtdb_update_request, handle_rtdb_delete_request, handle_rtdb_read_request,
}

-- The call returns the confirm `c`.
abbrev pub Confirms : Outcome Data ReadConfirm → ReadConfirm → Type 0
Confirms (ok c' d) c = c' ≡ c
Confirms (throw e d) c = ⊥

-- A variable of another node that this node has and that is not deleted.
pub record IsForeign (d : Data) (v : ℕ) : Type 0 where
  pub used : (d.store.id_states v).used ≡ true
  pub live : (d.store.id_states v).db_entry.is_deleted ≡ false
  pub foreign : (d.store.id_states v).db_entry.prod_id ≢ d.own_node_identifier

-- One of this node.
pub record IsOwn (d : Data) (v : ℕ) : Type 0 where
  pub used : (d.store.id_states v).used ≡ true
  pub live : (d.store.id_states v).db_entry.is_deleted ≡ false
  pub own : (d.store.id_states v).db_entry.prod_id ≡ d.own_node_identifier

adopt-read :
    (d : Data) (now : ℕ) (r : VarUpdateT)
    → IsConfigured d
    → d.store.is_active ≡ true
    → (d.store.id_states r.var_id).used ≡ true
    → (d.store.id_states r.var_id).db_entry.is_deleted ≡ false
    → length r.value.block ≤ d.max_value_length
    → length r.value.block ≢ 0
    → Confirms
        (continue (adopt now r d) λ _. handle_rtdb_read_request r.var_id)
        (record { status = status_ok; value = r.value.block; t_stamp = now })
unfolding adopt handle_rtdb_read_request
adopt-read d now r c on u n k p = ground (arith, ==_refl r.var_id)

-- At an active node whose data satisfy the invariant, a received update of a legal length for a
-- live variable of another node, with a sequence number that is different and than which this
-- node's is not more recent, is what an application reads next, with the time of its reception.
pub process_var_update-read :
    (d : Data) (now : ℕ) (r : VarUpdateT)
    → Good d
    → d.store.is_active ≡ true
    → IsForeign d r.var_id
    → 0 < length r.value.block
    → length r.value.block ≤ d.max_value_length
    → (d.store.id_states r.var_id).db_entry.seqno ≢ r.seqno
    → more_recent_seqno (d.store.id_states r.var_id).db_entry.seqno r.seqno ≡ false
    → Confirms
        (continue (process_var_update now r d) λ _. handle_rtdb_read_request r.var_id)
        (record { status = status_ok; value = r.value.block; t_stamp = now })
unfolding process_var_update
process_var_update-read d now r g on f k p new newer =
    let read = adopt-read d now r g.configured on f.used f.live p (omega arith) in
    ground (arith, f.used, f.live, f.foreign, read)

apply_update-read :
    (d : Data) (now : ℕ) (r : UpdateRequest)
    → IsConfigured d
    → d.store.is_active ≡ true
    → (d.store.id_states r.var_id).used ≡ true
    → (d.store.id_states r.var_id).db_entry.is_deleted ≡ false
    → length r.value.block ≤ d.max_value_length
    → length r.value.block ≢ 0
    → Confirms
        (continue (apply_update now r d) λ _. handle_rtdb_read_request r.var_id)
        (record { status = status_ok; value = r.value.block; t_stamp = now })
unfolding apply_update handle_rtdb_read_request
apply_update-read d now r c on u n k p = ground (arith, ==_refl r.var_id)

-- At an active node whose data satisfy the invariant, a value of a legal length that an
-- application writes to a live variable of its own node is what it reads next, with the time of
-- the request.
pub handle_rtdb_update_request-read :
    (d : Data) (now : ℕ) (r : UpdateRequest)
    → Good d
    → d.store.is_active ≡ true
    → IsOwn d r.var_id
    → 0 < length r.value.block
    → length r.value.block ≤ d.max_value_length
    → Confirms
        (continue (handle_rtdb_update_request now r d) λ _. handle_rtdb_read_request r.var_id)
        (record { status = status_ok; value = r.value.block; t_stamp = now })
unfolding handle_rtdb_update_request
handle_rtdb_update_request-read d now r g on o k p =
    let c = g.configured in
    let small : length r.value.block < 2 ^ 8 = omega (arith, c.values_small) in
    let read = apply_update-read d now r c on o.used o.live p (omega arith) in
    ground (arith, o.used, o.live, o.own, small, read)

-- At an active node, once an application has deleted a live variable of this node, the next read
-- of it is answered as deleted.
pub handle_rtdb_delete_request-read :
    (d : Data) (v : ℕ)
    → d.store.is_active ≡ true
    → IsOwn d v
    → Confirms
        (continue (handle_rtdb_delete_request v d) λ _. handle_rtdb_read_request v)
        (refusal variable_is_deleted)
unfolding handle_rtdb_delete_request handle_rtdb_read_request
handle_rtdb_delete_request-read d v on o = ground (arith, o.used, o.live, o.own, ==_refl v)

-- At an active node, once the VarDelete of a live variable of another node has been processed,
-- the next read of it is answered as deleted.
pub process_var_delete-read :
    (d : Data) (r : VarDeleteT)
    → d.store.is_active ≡ true
    → IsForeign d r.var_id
    → Confirms
        (continue (process_var_delete r d) λ _. handle_rtdb_read_request r.var_id)
        (refusal variable_is_deleted)
unfolding process_var_delete handle_rtdb_read_request
process_var_delete-read d r on f = ground (arith, f.used, f.live, f.foreign, ==_refl r.var_id)
