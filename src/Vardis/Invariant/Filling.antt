-- ===== src/Vardis/Invariant/Filling.antt =====
-- A slot of the store is filled for a variable that is created, here or at another node: the
-- effect of `fill_slot` in one step, and that `activate` restores the invariant behind it.
use dcp_vardis.Prelude.{
  ℕ, ◌<◌, ◌≤◌, ◌≡◌, ◌+◌, ◌%◌, ◌^◌, Bool, true, false, length, arith, if◌then◌else◌, List, [], ◌∷◌,
  ◌==◌,
}
use dcp_vardis.Prelude.Effect.{ok}
use dcp_vardis.Vardis.Types.{VarValueT, StringT}
use dcp_vardis.Vardis.Queue.{elem, remove}
use dcp_vardis.Vardis.Queue.Laws.{contains-insert, contains-remove}
use dcp_vardis.Vardis.Store.{Store, DbEntry, IdentifierState, set_state}
use dcp_vardis.Vardis.Store.Slots.{
  set_db_entry_lem, allocate_identifier_lem, set_db_entry-set_state, update_description-set_state,
  update_value-set_state,
}
use dcp_vardis.Vardis.Data.{Data, set_insert}
use dcp_vardis.Vardis.Receive.{fill_slot, activate}
use dcp_vardis.Vardis.Invariant.{At, IsLegal}

abbrev pub full_slot : DbEntry → StringT → VarValueT → IdentifierState
full_slot entry descr value = record {
  used = true;
  db_entry = entry;
  value = value.block;
  descr = descr;
}

abbrev counted : Store → Store
counted s = record s { number_current_variables = (s.number_current_variables + 1) % 2 ^ 32 }

-- The store with the slot of `v` filled; a variable that is new is counted.
abbrev pub filled : Bool → ℕ → IdentifierState → Store → Store
filled exists v i s = set_state v i (record s {
  number_current_variables =
      if exists then s.number_current_variables else (s.number_current_variables + 1) % 2 ^ 32;
})

-- With a description and a value of legal length `fill_slot` returns, and replaces the slot.
pub fill_slot_lem :
    (d : Data) (exists : Bool) (v : ℕ) (entry : DbEntry) (descr : StringT) (value : VarValueT)
    → (d.store.id_states v).used ≡ exists
    → 0 < length descr
    → length descr ≤ d.store.descr_buffer_size
    → 0 < length value.block
    → length value.block ≤ d.store.value_buffer_size
    → fill_slot exists v entry descr value d
      ≡ ok tt (record d { store = filled exists v (full_slot entry descr value) d.store })
unfolding fill_slot
fill_slot_lem d true v entry descr value u a b p q =
    let i : IdentifierState = d.store.id_states v in
    rw (
      set_db_entry_lem d.store v entry u,
      update_description-set_state d.store v entry i.value i.descr descr a b,
      update_value-set_state d.store v entry i.value descr value p q,
    )
fill_slot_lem d false v entry descr value u a b p q =
    let i : IdentifierState = d.store.id_states v in
    let s : Store = counted d.store in
    rw (
      allocate_identifier_lem d.store v u,
      set_db_entry-set_state s v i.db_entry i.value i.descr entry,
      update_description-set_state s v entry i.value i.descr descr a b,
      update_value-set_state s v entry i.value descr value p q,
    )

elem-set_insert :
    (v w : ℕ) (xs : List ℕ) → elem w (set_insert v xs) ≡ (if v == w then true else elem w xs)
unfolding set_insert elem
elem-set_insert v w [] = ground arith
elem-set_insert v w (x ∷ xs) = ground (arith, elem-set_insert v w xs)

pub activate-At :
    (d : Data) (v w : ℕ) (exists : Bool) (i : IdentifierState)
    → i.used ≡ true
    → i.db_entry.is_deleted ≡ false
    → i.db_entry.count_create ≡ i.db_entry.rep_cnt
    → i.db_entry.count_update ≡ 0
    → i.db_entry.count_delete ≡ 0
    → IsLegal d v i
    → At d w
    → At (activate v (record d { store = filled exists v i d.store })) w
unfolding activate
activate-At d v w exists i u n c p q l there = ground (
  arith,
  elem-set_insert v w d.active_variables,
  contains-remove d.create_q v w,
  contains-remove d.delete_q v w,
  contains-remove d.update_q v w,
  contains-remove d.summary_q v w,
  contains-remove d.req_upd_q v w,
  contains-remove d.req_create_q v w,
  contains-insert (remove d.create_q v) v w,
  contains-insert (remove d.summary_q v) v w,
)
