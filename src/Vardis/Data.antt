-- ===== src/Vardis/Data.antt =====
-- VardisProtocolData of dcp/vardis/vardis_protocol_data.h: the variable store, the set of active
-- variables, and the six queues of variables whose instruction records are to be sent.
use dcp_vardis.Prelude.{ℕ, Bool, List, [], ◌∷◌, if◌then◌else◌, ltb, ◌==◌}
use dcp_vardis.Prelude.Effect.{Outcome, Exec, Void, ok, throw, ◌>>=◌, gets, modify}
use dcp_vardis.Vardis.Queue.{VarIdQueue, insert, remove, contains}
use dcp_vardis.Vardis.Store.{
  Store, DbEntry, Statistics, identifier_is_allocated, get_db_entry, modify_db_entry,
}

pub record Data : Type 0 where
  pub own_node_identifier : ℕ
  pub max_summaries : ℕ
  pub max_description_length : ℕ
  pub max_value_length : ℕ
  pub max_repetitions : ℕ
  pub store : Store
  pub active_variables : List ℕ
  pub create_q : VarIdQueue
  pub delete_q : VarIdQueue
  pub update_q : VarIdQueue
  pub summary_q : VarIdQueue
  pub req_upd_q : VarIdQueue
  pub req_create_q : VarIdQueue

-- A call of the store inside the protocol.
abbrev pub with_store : {A : Type 0} → Data → Outcome Store A → Outcome Data A
with_store d (ok a s) = ok a (record d { store = s })
with_store d (throw e s) = throw e (record d { store = s })

abbrev pub on_store : {A : Type 0} → Exec Store A → Exec Data A
on_store m d = with_store d (m d.store)

-- std::set::insert, which keeps the elements in ascending order.
unfoldable pub set_insert : ℕ → List ℕ → List ℕ
set_insert v [] = v ∷ []
set_insert v (x ∷ xs) =
    let rest = set_insert v xs in
    if v == x then x ∷ xs else if ltb v x then v ∷ (x ∷ xs) else x ∷ rest

unfoldable pub variable_exists : ℕ → Exec Data Bool
unfolding identifier_is_allocated
variable_exists v = gets (λ d. identifier_is_allocated d.store v)

unfoldable pub entry_of : ℕ → Exec Data DbEntry
unfolding get_db_entry
entry_of v = on_store (get_db_entry v)

unfoldable pub modify_entry : ℕ → (DbEntry → DbEntry) → Exec Data Void
unfolding modify_db_entry
modify_entry v f = on_store (modify_db_entry v f)

unfoldable pub producer_is_me : ℕ → Exec Data Bool
unfolding entry_of
producer_is_me v = do entry ← entry_of v; gets (λ d. entry.prod_id == d.own_node_identifier)

abbrev pub modify_stats : (Statistics → Statistics) → Exec Data Void
modify_stats f = modify λ d. record d { store = record d.store { stats = f d.store.stats } }

-- `varId` leaves every queue.
unfoldable pub remove_from_queues : ℕ → Data → Data
remove_from_queues v d = record d {
  create_q = remove d.create_q v;
  delete_q = remove d.delete_q v;
  update_q = remove d.update_q v;
  summary_q = remove d.summary_q v;
  req_upd_q = remove d.req_upd_q v;
  req_create_q = remove d.req_create_q v;
}

-- `if (not updateQ.contains (varId)) updateQ.insert (varId)`, and the same on the other queues.
unfoldable pub request_create : ℕ → Exec Data Void
request_create v = modify λ d. record d {
  req_create_q = if contains d.req_create_q v then d.req_create_q else insert d.req_create_q v;
}

unfoldable pub request_update : ℕ → Exec Data Void
request_update v = modify λ d. record d {
  req_upd_q = if contains d.req_upd_q v then d.req_upd_q else insert d.req_upd_q v;
}

unfoldable pub schedule_create : ℕ → Exec Data Void
schedule_create v =
    modify
      λ d. record d { create_q = if contains d.create_q v then d.create_q else insert d.create_q v }

unfoldable pub schedule_update : ℕ → Exec Data Void
schedule_update v =
    modify
      λ d. record d { update_q = if contains d.update_q v then d.update_q else insert d.update_q v }
