-- ===== src/Vardis/Store.antt =====
-- dcp/vardis/vardis_store_interface.h: the variable store, as the protocol sees it through
-- VariableStoreI. Every identifier has a slot with its own buffer for the value and for the
-- description; what `update_value` and `update_description` refuse is what the array store
-- (dcp/vardis/vardis_store_array.h) refuses.
pub mod Slots
use dcp_vardis.Prelude.{
  ℕ, ◌+◌, ◌-◌, ◌%◌, ◌^◌, Bool, true, false, not, List, [], length, if◌then◌else◌, ltb, ◌==◌, update,
}
use dcp_vardis.Prelude.Effect.{Exec, Void, pure, raise, modify, vardis_store_exception}
use dcp_vardis.Vardis.Types.{VarValueT, StringT}

-- DBEntry of dcp/vardis/vardis_rtdb_entry.h
pub record DbEntry : Type 0 where
  pub var_id : ℕ
  pub prod_id : ℕ
  pub rep_cnt : ℕ
  pub creation_time : ℕ
  pub timeout : ℕ
  pub seqno : ℕ
  pub t_stamp : ℕ
  pub count_update : ℕ
  pub count_create : ℕ
  pub count_delete : ℕ
  pub is_deleted : Bool

-- IdentifierState, with the contents of the two buffers in place of their offsets.
pub record IdentifierState : Type 0 where
  pub used : Bool
  pub db_entry : DbEntry
  pub value : List ℕ
  pub descr : List ℕ

-- VardisProtocolStatistics
pub record Statistics : Type 0 where
  pub count_handle_rtdb_create : ℕ
  pub count_handle_rtdb_delete : ℕ
  pub count_handle_rtdb_update : ℕ
  pub count_handle_rtdb_read : ℕ
  pub count_process_var_create : ℕ
  pub count_process_var_delete : ℕ
  pub count_process_var_update : ℕ
  pub count_process_var_summary : ℕ
  pub count_process_var_requpdate : ℕ
  pub count_process_var_reqcreate : ℕ

-- `++` on an unsigned long.
abbrev pub increment : ℕ → ℕ
increment n = (n + 1) % 2 ^ 64

pub record Store : Type 0 where
  pub is_active : Bool
  pub value_buffer_size : ℕ
  pub descr_buffer_size : ℕ
  pub stats : Statistics
  pub number_current_variables : ℕ
  pub id_states : ℕ → IdentifierState

abbrev pub set_state : ℕ → IdentifierState → Store → Store
set_state v i s = record s { id_states = update s.id_states v i }

unfoldable pub identifier_is_allocated : Store → ℕ → Bool
identifier_is_allocated s v = (s.id_states v).used

unfoldable pub allocate_identifier : ℕ → Exec Store Void
allocate_identifier v s =
    if (s.id_states v).used
    then raise vardis_store_exception s
    else modify
        (λ s.
          set_state v (record (s.id_states v) { used = true })
            (record s { number_current_variables = (s.number_current_variables + 1) % 2 ^ 32 }))
        s

unfoldable pub deallocate_identifier : ℕ → Exec Store Void
deallocate_identifier v s =
    if (s.id_states v).used
    then modify
        (λ s.
          set_state v (record (s.id_states v) { used = false; value = []; descr = [] })
            (record s {
              number_current_variables = (s.number_current_variables + 2 ^ 32 - 1) % 2 ^ 32;
            }))
        s
    else raise vardis_store_exception s

unfoldable pub set_db_entry : ℕ → DbEntry → Exec Store Void
set_db_entry v e s =
    if (s.id_states v).used
    then modify (λ s. set_state v (record (s.id_states v) { db_entry = e }) s) s
    else raise vardis_store_exception s

-- `get_db_entry_ref` returns a reference: `get_db_entry` reads through it, and `modify_db_entry`
-- writes through it.
unfoldable pub get_db_entry : ℕ → Exec Store DbEntry
get_db_entry v s =
    if (s.id_states v).used then pure (s.id_states v).db_entry s else raise vardis_store_exception s

unfoldable pub modify_db_entry : ℕ → (DbEntry → DbEntry) → Exec Store Void
modify_db_entry v f s =
    if (s.id_states v).used
    then modify
        (λ s. set_state v (record (s.id_states v) { db_entry = f (s.id_states v).db_entry }) s) s
    else raise vardis_store_exception s

unfoldable pub update_value : ℕ → VarValueT → Exec Store Void
update_value v new s =
    if not (s.id_states v).used
    then raise vardis_store_exception s
    else if length new.block == 0
    then raise vardis_store_exception s
    else if ltb s.value_buffer_size (length new.block)
    then raise vardis_store_exception s
    else modify (λ s. set_state v (record (s.id_states v) { value = new.block }) s) s

unfoldable pub update_description : ℕ → StringT → Exec Store Void
update_description v new s =
    if not (s.id_states v).used
    then raise vardis_store_exception s
    else if length new == 0
    then raise vardis_store_exception s
    else if ltb s.descr_buffer_size (length new)
    then raise vardis_store_exception s
    else modify (λ s. set_state v (record (s.id_states v) { descr = new }) s) s

-- `rv.len` is a byte.
unfoldable pub read_value : ℕ → Exec Store VarValueT
read_value v s =
    if (s.id_states v).used
    then pure (record { len = length (s.id_states v).value % 2 ^ 8; block = (s.id_states v).value })
        s
    else raise vardis_store_exception s

unfoldable pub read_description : ℕ → Exec Store StringT
read_description v s =
    if (s.id_states v).used then pure (s.id_states v).descr s else raise vardis_store_exception s

unfoldable pub size_of_value : Store → ℕ → ℕ
size_of_value s v = length (s.id_states v).value

unfoldable pub size_of_description : Store → ℕ → ℕ
size_of_description s v = length (s.id_states v).descr
