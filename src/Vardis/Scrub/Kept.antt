-- ===== src/Vardis/Scrub/Kept.antt =====
-- Scrubbing a variable marks it if it has timed out, and keeps the invariant.
use dcp_vardis.Common.TimeStamp.{milliseconds_passed_since}
use dcp_vardis.Prelude.{
  ◌-◌, ◌||◌, ◌++◌, ◌/◌, ◌%◌, ◌^◌, not, ◌&&◌, ltb, ℕ, ◌≡◌, refl, ◌∙◌, true, List, [], ◌∷◌, arith,
  if◌then◌else◌,
}
use dcp_vardis.Prelude.Effect.{Succeeds, Succeeds-both}
use dcp_vardis.Vardis.Queue.{elem, remove}
use dcp_vardis.Vardis.Queue.Laws.{insert-IsValid, remove-IsValid, contains-insert, contains-remove}
use dcp_vardis.Vardis.Store.{DbEntry}
use dcp_vardis.Vardis.Data.{Data}
use dcp_vardis.Vardis.Receive.{deleted_entry}
use dcp_vardis.Vardis.Invariant.{At, IsConfigured, Good}
use dcp_vardis.Vardis.Invariant.Kept.{IsFramed, Good-IsFramed, IsFramed-Good}
use dcp_vardis.Vardis.Scrub.{is_fresh, scrub_variable}

scrub_variable-At :
    (d : Data) (now v w : ℕ)
    → IsConfigured d
    → (d.store.id_states v).used ≡ true
    → At d v
    → At d w
    → Succeeds (scrub_variable now v d) (λ d'. At d' w)
unfolding scrub_variable is_fresh
scrub_variable-At d now v w c u here there = ground (
  arith,
  contains-remove d.create_q v w,
  contains-remove d.delete_q v w,
  contains-remove d.update_q v w,
  contains-remove d.summary_q v w,
  contains-remove d.req_upd_q v w,
  contains-remove d.req_create_q v w,
  contains-insert (remove d.delete_q v) v w,
)

scrub_variable-IsFramed :
    (d : Data) (now v : ℕ)
    → (d.store.id_states v).used ≡ true
    → IsFramed d
    → Succeeds (scrub_variable now v d) IsFramed
unfolding scrub_variable
scrub_variable-IsFramed d now v u f = ground (
  arith,
  remove-IsValid v f.queues.create_valid,
  insert-IsValid v (remove-IsValid v f.queues.delete_valid),
  remove-IsValid v f.queues.update_valid,
  remove-IsValid v f.queues.summary_valid,
  remove-IsValid v f.queues.req_upd_valid,
  remove-IsValid v f.queues.req_create_valid,
)

pub scrub_variable-Good :
    (d : Data) (now v : ℕ)
    → (d.store.id_states v).used ≡ true
    → Good d
    → Succeeds (scrub_variable now v d) Good
scrub_variable-Good d now v u g =
    Succeeds-both _ IsFramed At Good (scrub_variable-IsFramed d now v u (Good-IsFramed d g))
      (λ w. scrub_variable-At d now v w g.configured u (g.coherent v) (g.coherent w)) IsFramed-Good

-- The entry of a variable after a pass at the time `now`: marked as deleted, with as many VarDelete
-- records to be sent as the variable has repetitions, if it is live, its timeout is not zero, and
-- the milliseconds that have passed since the last update, modulo 2 ^ 16, exceed the timeout.
abbrev pub scrubbed : ℕ → DbEntry → DbEntry
scrubbed now e =
    if not e.is_deleted && ltb 0 e.timeout && ltb e.timeout ((now - e.t_stamp) / 1000000 % 2 ^ 16)
    then record e {
      is_deleted = true;
      count_update = 0;
      count_create = 0;
      count_delete = e.rep_cnt;
    }
    else e

-- A second look changes nothing.
scrubbed_again : (now : ℕ) (e : DbEntry) → scrubbed now (scrubbed now e) ≡ scrubbed now e
scrubbed_again now e = ground arith

-- What scrubbing leaves at `w`: the slot is allocated as it was, and its entry has been looked at
-- if `w` is among the variables `vs`.
pub record ScrubbedAt (now : ℕ) (vs : List ℕ) (d d' : Data) (w : ℕ) : Type 0 where
  pub used : (d'.store.id_states w).used ≡ (d.store.id_states w).used
  pub entry : (d'.store.id_states w).db_entry ≡ (
      if elem w vs
      then scrubbed now (d.store.id_states w).db_entry
      else (d.store.id_states w).db_entry)

scrub_variable-ScrubbedAt :
    (d : Data) (now v w : ℕ)
    → (d.store.id_states v).used ≡ true
    → Succeeds
        (scrub_variable now v d)
        λ d'. ScrubbedAt now (v ∷ []) d d' w × (d'.active_variables ≡ d.active_variables)
unfolding scrub_variable deleted_entry is_fresh milliseconds_passed_since elem
scrub_variable-ScrubbedAt d now v w u = ground arith

-- What scrubbing the variables `vs` does to the data.
pub record Scrubbed (now : ℕ) (vs : List ℕ) (d d' : Data) : Type 0 where
  pub good : Good d'
  pub active : d'.active_variables ≡ d.active_variables
  pub at : (w : ℕ) → ScrubbedAt now vs d d' w

pub Scrubbed-none : (now : ℕ) (d : Data) → Good d → Scrubbed now [] d d
unfolding elem
Scrubbed-none now d g = record {
  good = g;
  active = refl;
  at = λ w. record { used = refl; entry = refl };
}

pub elem-append : (w : ℕ) (us vs : List ℕ) → elem w (us ++ vs) ≡ (elem w us || elem w vs)
unfolding elem
elem-append w [] vs = refl
elem-append w (u ∷ us) vs = ground (arith, elem-append w us vs)

ScrubbedAt-trans :
    (now : ℕ) (us vs : List ℕ) (d d' d'' : Data) (w : ℕ)
    → ScrubbedAt now us d d' w
    → ScrubbedAt now vs d' d'' w
    → ScrubbedAt now (us ++ vs) d d'' w
ScrubbedAt-trans now us vs d d' d'' w a b = ground (
  arith,
  a.used,
  b.used,
  a.entry,
  b.entry,
  elem-append w us vs,
  scrubbed_again now (d.store.id_states w).db_entry,
)

pub Scrubbed-trans :
    (now : ℕ) (us vs : List ℕ) (d d' d'' : Data)
    → Scrubbed now us d d'
    → Scrubbed now vs d' d''
    → Scrubbed now (us ++ vs) d d''
Scrubbed-trans now us vs d d' d'' a b = record {
  good = b.good;
  active = b.active ∙ a.active;
  at = λ w. ScrubbedAt-trans now us vs d d' d'' w (a.at w) (b.at w);
}

pub scrub_variable-Scrubbed :
    (d : Data) (now v : ℕ)
    → (d.store.id_states v).used ≡ true
    → Good d
    → Succeeds (scrub_variable now v d) (Scrubbed now (v ∷ []) d)
scrub_variable-Scrubbed d now v u g =
    Succeeds-both _ Good
      (λ d' w. ScrubbedAt now (v ∷ []) d d' w × (d'.active_variables ≡ d.active_variables))
      (Scrubbed now (v ∷ []) d) (scrub_variable-Good d now v u g)
      (λ w. scrub_variable-ScrubbedAt d now v w u)
      (λ d' good at. record { good = good; active = (at 0).1; at = λ w. (at w).0 })
