-- ===== src/Vardis/Receive/Order.antt =====
-- A received update never replaces a value by an older one.
use dcp_vardis.Prelude.{ℕ, ◌≤◌, ◌≡◌, ◌≢◌, true, false, length, arith}
use dcp_vardis.Prelude.Effect.{Succeeds}
use dcp_vardis.Vardis.Types.{VarUpdateT}
use dcp_vardis.Vardis.Seqno.{more_recent_seqno}
use dcp_vardis.Vardis.Data.{Data}
use dcp_vardis.Vardis.Store.{IdentifierState}
use dcp_vardis.Vardis.Invariant.{Good, IsConfigured}
use dcp_vardis.Vardis.Receive.{process_var_update, adopt}

-- The old sequence number is not more recent than the new one, and where both are the same, so are
-- the value and its time.
pub record NoOlder (old new : IdentifierState) : Type 0 where
  pub ordered : more_recent_seqno old.db_entry.seqno new.db_entry.seqno ≡ false
  pub same_value : new.db_entry.seqno ≡ old.db_entry.seqno → new.value ≡ old.value
  pub same_time :
      new.db_entry.seqno ≡ old.db_entry.seqno → new.db_entry.t_stamp ≡ old.db_entry.t_stamp

more_recent_seqno-same : (a : ℕ) → more_recent_seqno a a ≡ false
unfolding more_recent_seqno
more_recent_seqno-same a = ground arith

adopt-NoOlder :
    (d : Data) (now : ℕ) (r : VarUpdateT) (w : ℕ)
    → IsConfigured d
    → (d.store.id_states r.var_id).used ≡ true
    → length r.value.block ≤ d.max_value_length
    → length r.value.block ≢ 0
    → (d.store.id_states r.var_id).db_entry.seqno ≢ r.seqno
    → more_recent_seqno (d.store.id_states r.var_id).db_entry.seqno r.seqno ≡ false
    → Succeeds (adopt now r d) (λ d'. NoOlder (d.store.id_states w) (d'.store.id_states w))
unfolding adopt
adopt-NoOlder d now r w c u k p new newer =
    ground (arith, more_recent_seqno-same (d.store.id_states w).db_entry.seqno)

-- With data that satisfy the invariant, whatever update is received, it is processed without an
-- exception. For every variable `w` the old sequence number is not more recent than the new one, and
-- its value and the time of it change only together with its sequence number.
pub process_var_update-NoOlder :
    (d : Data) (now : ℕ) (r : VarUpdateT) (w : ℕ)
    → Good d
    → Succeeds
        (process_var_update now r d)
        (λ d'. NoOlder (d.store.id_states w) (d'.store.id_states w))
unfolding process_var_update
process_var_update-NoOlder d now r w g = ground (
  arith,
  adopt-NoOlder d now r w g.configured,
  more_recent_seqno-same (d.store.id_states w).db_entry.seqno,
)
