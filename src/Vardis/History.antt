-- ===== src/Vardis/History.antt =====
-- A node over time: payloads are received, applications make requests, payloads are built, and the
-- scrubbing thread looks at batches of variables, in any order. Each of these runs under the lock
-- of the variable store (with lockingForIndividualContainers switched off), so that a run of the
-- demon is a sequence of them. A batch of a scrubbing pass is one of these steps, not the pass: the
-- thread gives up the lock between two batches. Where it stands in its pass is left open: the step
-- is there for any number of variables and any iterator. The thread reads the beginning and the
-- size of the set of active variables without the lock when it starts a pass; the step holds for
-- whatever it read.
use dcp_vardis.Prelude.{ℕ, ◌<◌, ◌≤◌, ◌≡◌, ◌^◌, true, false, [], arith, length}
use dcp_vardis.Prelude.Effect.{state, Succeeds-state}
use dcp_vardis.Common.TimeStamp.{HostClock}
use dcp_vardis.Common.Area.{AssemblyArea, DisassemblyArea}
use dcp_vardis.Vardis.Queue.{empty_queue, contains, elem}
use dcp_vardis.Vardis.Queue.Laws.{empty_queue-IsValid}
use dcp_vardis.Vardis.Store.{IdentifierState, Statistics}
use dcp_vardis.Vardis.Data.{Data}
use dcp_vardis.Vardis.Invariant.{Good}
use dcp_vardis.Vardis.Invariant.Kept.Served.{
  handle_rtdb_create_request-Good, handle_rtdb_update_request-Good, handle_rtdb_delete_request-Good,
  handle_rtdb_read_request-Good,
}
use dcp_vardis.Vardis.Service.{
  CreateRequest, UpdateRequest, handle_rtdb_create_request, handle_rtdb_update_request,
  handle_rtdb_delete_request, handle_rtdb_read_request,
}
use dcp_vardis.Vardis.Transmit.Kinds.{construct_payload}
use dcp_vardis.Vardis.Transmit.Payload.{construct_payload_lem}
use dcp_vardis.Vardis.Scrub.{Pass, scrub_batch}
use dcp_vardis.Vardis.Scrub.Batch.{scrub_batch-Good}
use dcp_vardis.Vardis.Receiver.{receive}
use dcp_vardis.Vardis.Receiver.Kept.{receive-Good}

-- The limits of the configuration, and the sizes of the buffers of the store.
pub record Limits : Type 0 where
  pub max_summaries : ℕ
  pub max_description_length : ℕ
  pub max_value_length : ℕ
  pub max_repetitions : ℕ
  pub value_buffer_size : ℕ
  pub descr_buffer_size : ℕ
  pub values_fit : max_value_length ≤ value_buffer_size
  pub descrs_fit : max_description_length ≤ descr_buffer_size
  pub values_small : max_value_length < 2 ^ 8
  pub descrs_small : max_description_length < 2 ^ 8
  pub repeats_small : max_repetitions < 2 ^ 8

-- A slot that is not allocated.
abbrev free_slot : IdentifierState
free_slot = record {
  used = false;
  db_entry = record {
    var_id = 0;
    prod_id = 0;
    rep_cnt = 0;
    creation_time = 0;
    timeout = 0;
    seqno = 0;
    t_stamp = 0;
    count_update = 0;
    count_create = 0;
    count_delete = 0;
    is_deleted = false;
  };
  value = [];
  descr = [];
}

abbrev no_statistics : Statistics
no_statistics = record {
  count_handle_rtdb_create = 0;
  count_handle_rtdb_delete = 0;
  count_handle_rtdb_update = 0;
  count_handle_rtdb_read = 0;
  count_process_var_create = 0;
  count_process_var_delete = 0;
  count_process_var_update = 0;
  count_process_var_summary = 0;
  count_process_var_requpdate = 0;
  count_process_var_reqcreate = 0;
}

-- The data of a node that has just started: no variable, and empty queues.
unfoldable pub initial_data : ℕ → Limits → Data
initial_data own l = record {
  own_node_identifier = own;
  max_summaries = l.max_summaries;
  max_description_length = l.max_description_length;
  max_value_length = l.max_value_length;
  max_repetitions = l.max_repetitions;
  store = record {
    is_active = true;
    value_buffer_size = l.value_buffer_size;
    descr_buffer_size = l.descr_buffer_size;
    stats = no_statistics;
    number_current_variables = 0;
    id_states = λ v. free_slot;
  };
  active_variables = [];
  create_q = empty_queue;
  delete_q = empty_queue;
  update_q = empty_queue;
  summary_q = empty_queue;
  req_upd_q = empty_queue;
  req_create_q = empty_queue;
}

pub initial_data-Good : (own : ℕ) (l : Limits) → Good (initial_data own l)
unfolding initial_data empty_queue contains elem
initial_data-Good own l = record {
  configured = record {
    values_fit = l.values_fit;
    descrs_fit = l.descrs_fit;
    values_small = l.values_small;
    descrs_small = l.descrs_small;
    repeats_small = l.repeats_small;
  };
  queues = record {
    create_valid = empty_queue-IsValid;
    delete_valid = empty_queue-IsValid;
    update_valid = empty_queue-IsValid;
    summary_valid = empty_queue-IsValid;
    req_upd_valid = empty_queue-IsValid;
    req_create_valid = empty_queue-IsValid;
  };
  coherent = λ v. ground arith;
}

module _ (clock : HostClock) where
  -- One thing that happens to the data. The value of a request has a length that fits a byte.
  pub data Step (d : Data) : Data → Type 0 where
    received : (times : ℕ → ℕ) (area : DisassemblyArea) → Step d (receive clock times area d).0
    create_requested :
        (created stamped : ℕ) (r : CreateRequest)
        → 0 < length r.spec.descr
        → Step d (state (handle_rtdb_create_request created stamped r d))
    update_requested :
        (now : ℕ) (r : UpdateRequest)
        → length r.value.block < 2 ^ 8
        → Step d (state (handle_rtdb_update_request now r d))
    delete_requested : (v : ℕ) → Step d (state (handle_rtdb_delete_request v d))
    read_requested : (v : ℕ) → Step d (state (handle_rtdb_read_request v d))
    transmitted :
        (area : AssemblyArea) (n : ℕ)
        → Step d
            (construct_payload clock
              (record { protocol = d; area = area; containers_added = n })).0.protocol
    scrubbed : (now : ℕ) (p : Pass) → Step d (state (scrub_batch now p d))

  -- What can be reached from `d`.
  pub data Reach (d : Data) : Data → Type 0 where
    start : Reach d d
    next : {d' d'' : Data} → Reach d d' → Step d' d'' → Reach d d''

  pub Step-Good : {d d' : Data} → Step d d' → Good d → Good d'
  Step-Good {d} (received times area) g = (receive-Good clock times area d g).0
  Step-Good {d} (create_requested created stamped r named) g =
      Succeeds-state Good _ (handle_rtdb_create_request-Good d created stamped r named g)
  Step-Good {d} (update_requested now r small) g =
      Succeeds-state Good _ (handle_rtdb_update_request-Good d now r small g)
  Step-Good {d} (delete_requested v) g =
      Succeeds-state Good _ (handle_rtdb_delete_request-Good d v g)
  Step-Good {d} (read_requested v) g = Succeeds-state Good _ (handle_rtdb_read_request-Good d v g)
  Step-Good {d} (transmitted area n) g = (construct_payload_lem clock _ g).1.good
  Step-Good {d} (scrubbed now p) g = scrub_batch-Good now p d g

  -- Whatever has been received, requested, transmitted and scrubbed (a batch of variables at a time)
  -- since the start, in whatever order, the data satisfy the invariant, provided that each of these
  -- ran under one lock of the variable store (lockingForIndividualContainers is off), and that no
  -- request to create had an empty description and no request to update a value of more than 255
  -- bytes.
  pub Reach-Good : (own : ℕ) (l : Limits) {d : Data} → Reach (initial_data own l) d → Good d
  Reach-Good own l start = initial_data-Good own l
  Reach-Good own l (next r s) = Step-Good s (Reach-Good own l r)

  -- In every data that can be reached from the start, by steps each of which runs under one lock of
  -- the variable store (lockingForIndividualContainers is off), and among which no request to create
  -- has an empty description and no request to update a value of more than 255 bytes,
  -- `construct_payload` throws no exception while it builds a payload: its handler does not set the
  -- exit flag.
  pub transmitter_runs :
      (own : ℕ) (l : Limits) (d : Data) (area : AssemblyArea) (n : ℕ)
      → Reach (initial_data own l) d
      → (construct_payload clock (record { protocol = d; area = area; containers_added = n })).1
        ≡ false
  transmitter_runs own l d area n r =
      (construct_payload_lem clock (record { protocol = d; area = area; containers_added = n })
        (Reach-Good own l r)).0
