-- ===== src/Vardis/Invariant/Kept.antt =====
-- Received records and requests keep the configuration and the shape of the queues.
pub mod Received
pub mod Served
use dcp_vardis.Prelude.{ℕ, Bool, true, ◌<◌, ◌≤◌, ◌≡◌, length, if◌then◌else◌, arith}
use dcp_vardis.Vardis.Queue.{insert, remove}
use dcp_vardis.Vardis.Queue.Laws.{IsValid, insert-IsValid, remove-IsValid}
use dcp_vardis.Vardis.Store.{IdentifierState}
use dcp_vardis.Vardis.Data.{Data, remove_from_queues}
use dcp_vardis.Vardis.Receive.{activate}
use dcp_vardis.Vardis.Invariant.{At, IsConfigured, HasValidQueues, Good}
use dcp_vardis.Vardis.Invariant.Filling.{filled}

pub record IsFramed (d : Data) : Type 0 where
  pub configured : IsConfigured d
  pub queues : HasValidQueues d

-- What `Good` says of the data as a whole, and at every variable.
pub Good-IsFramed : (d : Data) → Good d → IsFramed d
Good-IsFramed d g = record { configured = g.configured; queues = g.queues }

pub IsFramed-Good : (d : Data) → IsFramed d → ((v : ℕ) → At d v) → Good d
IsFramed-Good d f h = record { configured = f.configured; queues = f.queues; coherent = h }

pub remove_from_queues-HasValidQueues :
    (d : Data) (v : ℕ) → HasValidQueues d → HasValidQueues (remove_from_queues v d)
unfolding remove_from_queues
remove_from_queues-HasValidQueues d v h = record {
  create_valid = remove-IsValid v h.create_valid;
  delete_valid = remove-IsValid v h.delete_valid;
  update_valid = remove-IsValid v h.update_valid;
  summary_valid = remove-IsValid v h.summary_valid;
  req_upd_valid = remove-IsValid v h.req_upd_valid;
  req_create_valid = remove-IsValid v h.req_create_valid;
}

pub activate-IsFramed :
    (d : Data) (v : ℕ) (exists : Bool) (i : IdentifierState)
    → IsFramed d
    → IsFramed (activate v (record d { store = filled exists v i d.store }))
unfolding activate
activate-IsFramed d v exists i f = ground (
  arith,
  insert-IsValid v (remove-IsValid v f.queues.create_valid),
  insert-IsValid v (remove-IsValid v f.queues.summary_valid),
  remove-IsValid v f.queues.delete_valid,
  remove-IsValid v f.queues.update_valid,
  remove-IsValid v f.queues.req_upd_valid,
  remove-IsValid v f.queues.req_create_valid,
)
