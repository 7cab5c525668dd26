-- ===== src/Vardis/Scrub.antt =====
-- The scrubbing thread of dcp/vardis/vardis_scrubber.cc: variables whose value has not been updated
-- for longer than their timeout are marked as deleted. A pass goes through the set of active
-- variables in batches, and gives up the lock of the variable store after each of them. What the
-- thread keeps from one batch to the next is a `Pass`: the number of variables that it still has
-- to look at, and an iterator. Nothing is ever erased from the set of active variables, so an
-- iterator stays valid while the lock is given up; it is modelled as the element that it points
-- to, and as `none` at the end of the set.
pub mod Kept
pub mod Batch
pub mod Order
use dcp_vardis.Prelude.{
  ℕ, zero, suc, ◌+◌, ◌%◌, ◌^◌, Bool, true, false, ◌||◌, List, [], ◌∷◌, if◌then◌else◌, ltb, leb,
  ◌==◌, Option, none, some, length, min,
}
use dcp_vardis.Prelude.Effect.{Exec, Void, ◌>>=◌, ◌>>◌, pure, raise, gets, modify, out_of_bounds}
use dcp_vardis.Common.TimeStamp.{milliseconds_passed_since}
use dcp_vardis.Vardis.Store.{DbEntry}
use dcp_vardis.Vardis.Data.{Data, entry_of, modify_entry}
use dcp_vardis.Vardis.Receive.{deleted_entry, enqueue_delete}

-- The condition under which a variable is passed over. The milliseconds are an uint32_t; the
-- comparison with a VarTimeoutT, whose operator takes one of its own 16-bit type, narrows them.
unfoldable pub is_fresh : ℕ → DbEntry → Bool
unfolding milliseconds_passed_since
is_fresh curr_time ent =
    ent.is_deleted
    || ent.timeout == 0
    || leb (milliseconds_passed_since curr_time ent.t_stamp % 2 ^ 16) ent.timeout

unfoldable pub scrub_variable : ℕ → ℕ → Exec Data Void
unfolding entry_of modify_entry deleted_entry enqueue_delete
scrub_variable curr_time v = do
  ent ← entry_of v
  if is_fresh curr_time ent
      then pure tt
      else (do modify_entry v deleted_entry; modify (enqueue_delete v))

pub record Pass : Type 0 where
  pub numvars : ℕ
  pub var_it : Option ℕ

-- begin () of the set of active variables, and ++ on an iterator that points to an element.
abbrev pub set_begin : List ℕ → Option ℕ
set_begin [] = none
set_begin (x ∷ xs) = some x

unfoldable pub set_next : ℕ → List ℕ → Option ℕ
set_next v [] = none
set_next v (x ∷ xs) = let rest = set_next v xs in if ltb v x then some x else rest

abbrev pub batch_size : ℕ
batch_size = 50

-- *var_it, which is undefined at the end of the set.
abbrev pub deref : Option ℕ → Exec Data ℕ
deref none = raise out_of_bounds
deref (some v) = pure v

-- The body of the loop of a batch, which returns the next iterator.
unfoldable pub scrub_next : ℕ → Option ℕ → Exec Data (Option ℕ)
unfolding set_next
scrub_next curr_time var_it = do
  v ← deref var_it
  scrub_variable curr_time v
  gets (λ d. set_next v d.active_variables)

-- The loop of a batch at the index `i`. Its bound is computed anew in every round, from a `numvars`
-- that the body has decremented.
unfoldable pub batch_loop : ℕ → ℕ → ℕ → Option ℕ → Exec Data Pass
unfolding scrub_next
batch_loop curr_time i zero var_it = pure (record { numvars = 0; var_it = var_it })
batch_loop curr_time i (suc n) var_it =
    if ltb i (min batch_size (suc n))
    then (do next ← scrub_next curr_time var_it; batch_loop curr_time (i + 1) n next)
    else pure (record { numvars = suc n; var_it = var_it })

-- What happens under one lock.
unfoldable pub scrub_batch : ℕ → Pass → Exec Data Pass
unfolding batch_loop
scrub_batch curr_time p = batch_loop curr_time 0 p.numvars p.var_it

-- Batches until no variable is left.
unfoldable pub scrub_batches : ℕ → ℕ → Pass → Exec Data Pass
scrub_batches zero curr_time p = pure p
scrub_batches (suc fuel) curr_time p =
    if p.numvars == 0
    then pure p
    else (do q ← scrub_batch curr_time p; scrub_batches fuel curr_time q)

-- A pass between whose batches nothing else happens; each batch looks at a variable at least, so
-- that there are no more batches than variables.
unfoldable pub scrub : ℕ → Exec Data Pass
unfolding scrub_batches
scrub curr_time = do
  active ← gets (λ d. d.store.is_active)
  vs ← gets (λ d. d.active_variables)
  if active
      then scrub_batches (length vs) curr_time
          (record { numvars = length vs; var_it = set_begin vs })
      else pure (record { numvars = 0; var_it = none })
