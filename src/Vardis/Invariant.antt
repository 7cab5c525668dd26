-- ===== src/Vardis/Invariant.antt =====
-- The invariant of VardisProtocolData: which variables stand in which queue, and what the entry of
-- a variable holds.
pub mod Filling
pub mod Received
pub mod Served
pub mod Kept
use dcp_vardis.Prelude.{
  ℕ, ◌<◌, ◌≤◌, ◌≡◌, Bool, true, false, not, ◌&&◌, ◌||◌, length, ltb, arith, ◌^◌,
}
use dcp_vardis.Prelude.Effect.{Outcome, state}
use dcp_vardis.Vardis.Queue.{VarIdQueue, contains, insert, remove, elem}
use dcp_vardis.Vardis.Queue.Laws.{IsValid}
use dcp_vardis.Vardis.Store.{Store, DbEntry, IdentifierState}
use dcp_vardis.Vardis.Data.{Data}

-- What the entry of an allocated variable holds: its own identifier, a legal repetition count that
-- no counter exceeds, a value and a description within the limits.
pub record IsLegal (d : Data) (v : ℕ) (i : IdentifierState) : Type 0 where
  pub own_id : i.db_entry.var_id ≡ v
  pub repeats : 0 < i.db_entry.rep_cnt
  pub repeats_at_most : i.db_entry.rep_cnt ≤ d.max_repetitions
  pub create_at_most : i.db_entry.count_create ≤ i.db_entry.rep_cnt
  pub update_at_most : i.db_entry.count_update ≤ i.db_entry.rep_cnt
  pub delete_at_most : i.db_entry.count_delete ≤ i.db_entry.rep_cnt
  pub value_some : 0 < length i.value
  pub value_at_most : length i.value ≤ d.max_value_length
  pub descr_some : 0 < length i.descr
  pub descr_at_most : length i.descr ≤ d.max_description_length

-- A variable stands in a queue for its creation, update or deletion exactly as long as its counter
-- is positive; in the queue of summaries exactly if it is not deleted. A deleted variable is neither
-- created nor updated, a live one not deleted. Updates are requested for live variables only, and
-- creations only for variables that this node does not have. The active variables are those that are
-- allocated.
pub record IsCoherent (d : Data) (v : ℕ) (i : IdentifierState) : Type 0 where
  pub active : elem v d.active_variables ≡ i.used
  pub creates : contains d.create_q v ≡ (i.used && ltb 0 i.db_entry.count_create)
  pub updates : contains d.update_q v ≡ (i.used && ltb 0 i.db_entry.count_update)
  pub deletes : contains d.delete_q v ≡ (i.used && ltb 0 i.db_entry.count_delete)
  pub summaries : contains d.summary_q v ≡ (i.used && not i.db_entry.is_deleted)
  pub req_updates : (contains d.req_upd_q v && not (i.used && not i.db_entry.is_deleted)) ≡ false
  pub req_creates : (contains d.req_create_q v && i.used) ≡ false
  pub live : i.db_entry.is_deleted ≡ false → i.used ≡ true → i.db_entry.count_delete ≡ 0
  pub dead :
      i.db_entry.is_deleted ≡ true
      → i.used ≡ true
      → (i.db_entry.count_create ≡ 0) × (i.db_entry.count_update ≡ 0)
  pub legal : i.used ≡ true → IsLegal d v i

abbrev pub At : Data → ℕ → Type 0
At d v = IsCoherent d v (d.store.id_states v)

-- The limits of the configuration fit the buffers of the store and the bytes that carry them, and
-- each queue is a queue without duplicates.
pub record IsConfigured (d : Data) : Type 0 where
  pub values_fit : d.max_value_length ≤ d.store.value_buffer_size
  pub descrs_fit : d.max_description_length ≤ d.store.descr_buffer_size
  pub values_small : d.max_value_length < 2 ^ 8
  pub descrs_small : d.max_description_length < 2 ^ 8
  pub repeats_small : d.max_repetitions < 2 ^ 8

pub record HasValidQueues (d : Data) : Type 0 where
  pub create_valid : IsValid d.create_q
  pub delete_valid : IsValid d.delete_q
  pub update_valid : IsValid d.update_q
  pub summary_valid : IsValid d.summary_q
  pub req_upd_valid : IsValid d.req_upd_q
  pub req_create_valid : IsValid d.req_create_q

-- What the protocol data satisfies between two calls.
pub record Good (d : Data) : Type 0 where
  pub configured : IsConfigured d
  pub queues : HasValidQueues d
  pub coherent : (v : ℕ) → At d v
