-- ===== src/Vardis/Tests/Stores.antt =====
-- The array store on which the theorems are tried: values and descriptions of up to 32 bytes.
use dcp_vardis.Prelude.{◌≡◌, List, [], ◌∷◌, arith, false}
use dcp_vardis.Prelude.Effect.{state, Succeeds, Succeeds-state}
use dcp_vardis.Vardis.Store.{DbEntry, Statistics}
use dcp_vardis.Vardis.ArrayStore.{ArrayContents, new_contents, initialize_array_store}
use dcp_vardis.Vardis.ArrayStore.Valid.{IsValid, view}
use dcp_vardis.Vardis.ArrayStore.Init.{IsNew, initialize_array_store-IsNew}
use dcp_vardis.Vardis.ArrayStore.Run.{
  Call, allocate, deallocate, write_value, read_the_value, run, slot_run, slot_run_refines,
}

abbrev no_statistics : Statistics
no_statistics = record {
  count_handle_rtdb_create = 0;
  count_handle_rtdb_delete = 0;
  count_handle_rtdb_update = 0;
  count_handle_rtdb_read = 0;
  count_process_var_create = 0;
  count_process_var_delete = 0;
  count_process_var_update = 0;
  count_process_var_summary = 0;
  count_process_var_requpdate = 0;
  count_process_var_reqcreate = 0;
}

abbrev no_entry : DbEntry
no_entry = record {
  var_id = 0;
  prod_id = 0;
  rep_cnt = 0;
  creation_time = 0;
  timeout = 0;
  seqno = 0;
  t_stamp = 0;
  count_update = 0;
  count_create = 0;
  count_delete = 0;
  is_deleted = false;
}

-- The memory held something before.
abbrev raw_store : ArrayContents
raw_store =
    new_contents 44 44 no_statistics (λ v. no_entry) (λ i. i) (λ i. 7)
      (λ i. record { buffer_offs = i; descr_offs = 3 })

initialize_array_store-IsNew_example : Succeeds (initialize_array_store 32 32 raw_store) IsNew
initialize_array_store-IsNew_example =
    initialize_array_store-IsNew 44 44 32 32 no_statistics (λ v. no_entry) (λ i. i) (λ i. 7)
      (λ i. record { buffer_offs = i; descr_offs = 3 }) (omega arith) (omega arith) (omega arith)
      (omega arith)

abbrev new_store : ArrayContents
new_store = state (initialize_array_store 32 32 raw_store)

new_store-IsValid : IsValid new_store
new_store-IsValid =
    (Succeeds-state IsNew (initialize_array_store 32 32 raw_store) (
      initialize_array_store-IsNew 44 44 32 32 no_statistics (λ v. no_entry) (λ i. i) (λ i. 7)
        (λ i. record { buffer_offs = i; descr_offs = 3 }) (omega arith) (omega arith) (omega arith)
        (omega arith))).valid

abbrev store_calls : List Call
store_calls =
    record { var_id = 7; small = omega arith; op = allocate }
    ∷ record { var_id = 9; small = omega arith; op = allocate }
    ∷ record {
      var_id = 7;
      small = omega arith;
      op = write_value (record { len = 2; block = 1 ∷ 2 ∷ [] });
    }
    ∷ record { var_id = 9; small = omega arith; op = deallocate }
    ∷ record { var_id = 7; small = omega arith; op = read_the_value }
    ∷ []

slot_run_refines_example : run store_calls new_store ≡ slot_run store_calls (view new_store)
slot_run_refines_example = slot_run_refines store_calls new_store new_store-IsValid
