-- ===== src/Vardis/Tests.antt =====
-- Two small nodes on which the theorems are tried: `fresh` has no variable, `consumer` has received
-- the creation of variable 7 by node 2, and `producer` is node 2 itself.
pub mod Examples
pub mod Records
pub mod Stores
use dcp_vardis.Prelude.{
  ℕ, ◌+◌, ◌*◌, ◌/◌, ◌%◌, ◌^◌, ◌≤◌, ◌<◌, ◌≡◌, refl, true, false, List, [], ◌∷◌, ◌++◌, length, arith,
}
use dcp_vardis.Prelude.Effect.{state, Succeeds-state}
use dcp_vardis.Common.TimeStamp.{HostClock}
use dcp_vardis.Common.Area.{AssemblyArea, DisassemblyArea}
use dcp_vardis.Vardis.Types.{VarCreateT, VarUpdateT, VarSpecT, VarValueT}
use dcp_vardis.Vardis.Data.{Data}
use dcp_vardis.Vardis.Invariant.{Good}
use dcp_vardis.Vardis.Invariant.Kept.Received.{process_var_create-Good}
use dcp_vardis.Vardis.Receive.{
  process_var_create, add_received, fill_slot, activate, acceptable, received_entry,
}
use dcp_vardis.Vardis.Service.{
  CreateRequest, UpdateRequest, handle_rtdb_create_request, create_variable, install_variable,
  created_entry,
}
use dcp_vardis.Vardis.Service.Reads.{IsForeign, IsOwn}
use dcp_vardis.Vardis.Store.{
  allocate_identifier, set_db_entry, update_value, update_description, identifier_is_allocated,
}
use dcp_vardis.Vardis.Transmit.{Tx}
use dcp_vardis.Vardis.History.{
  Limits, initial_data, initial_data-Good, Reach, Step, start, next, create_requested, received,
  Step-Good,
}

-- A host that stores the lowest byte first.
abbrev pub host_to_bytes : ℕ → List ℕ
host_to_bytes t =
    (t % 2 ^ 8)
    ∷ (t / 2 ^ 8 % 2 ^ 8)
    ∷ (t / 2 ^ 16 % 2 ^ 8)
    ∷ (t / 2 ^ 24 % 2 ^ 8)
    ∷ (t / 2 ^ 32 % 2 ^ 8)
    ∷ (t / 2 ^ 40 % 2 ^ 8)
    ∷ (t / 2 ^ 48 % 2 ^ 8)
    ∷ (t / 2 ^ 56 % 2 ^ 8)
    ∷ []

abbrev pub host_of_bytes : List ℕ → ℕ
host_of_bytes [] = 0
host_of_bytes (b ∷ bs) = b + 2 ^ 8 * host_of_bytes bs

pub host_of_bytes_to_bytes : (t : ℕ) → t < 2 ^ 63 → host_of_bytes (host_to_bytes t) ≡ t
host_of_bytes_to_bytes t h = omega arith

abbrev pub host : HostClock
host = record {
  to_bytes = host_to_bytes;
  of_bytes = host_of_bytes;
  length_to_bytes = λ t. refl;
  of_bytes_to_bytes = host_of_bytes_to_bytes;
}

abbrev pub limits : Limits
limits = record {
  max_summaries = 20;
  max_description_length = 32;
  max_value_length = 16;
  max_repetitions = 3;
  value_buffer_size = 16;
  descr_buffer_size = 32;
  values_fit = omega arith;
  descrs_fit = omega arith;
  values_small = omega arith;
  descrs_small = omega arith;
  repeats_small = omega arith;
}

abbrev pub fresh : Data
fresh = initial_data 1 limits

pub fresh-Good : Good fresh
fresh-Good = initial_data-Good 1 limits

abbrev pub spec_7 : VarSpecT
spec_7 = record {
  var_id = 7;
  prod_id = 2;
  rep_cnt = 2;
  creation_time = 1000;
  timeout = 50;
  descr = 72 ∷ 105 ∷ [];
}

abbrev pub value_a : VarValueT
value_a = record { len = 1; block = 65 ∷ [] }

abbrev pub value_b : VarValueT
value_b = record { len = 2; block = 66 ∷ 67 ∷ [] }

abbrev pub create_7 : VarCreateT
create_7 = record { spec = spec_7; update = record { var_id = 7; seqno = 0; value = value_a } }

abbrev pub update_7 : VarUpdateT
update_7 = record { var_id = 7; seqno = 1; value = value_b }

abbrev pub request_7 : CreateRequest
request_7 = record { spec = spec_7; value = value_a }

abbrev pub new_value_7 : UpdateRequest
new_value_7 = record { var_id = 7; value = value_b }

abbrev pub consumer : Data
consumer = state (process_var_create 1500 create_7 fresh)

pub consumer-Good : Good consumer
consumer-Good = Succeeds-state Good _ (process_var_create-Good fresh 1500 create_7 fresh-Good)

pub consumer-IsForeign : IsForeign consumer 7
unfolding initial_data process_var_create add_received fill_slot activate acceptable received_entry
    allocate_identifier set_db_entry update_value update_description identifier_is_allocated
consumer-IsForeign = record { used = refl; live = refl; foreign = omega arith }

abbrev pub producer_fresh : Data
producer_fresh = initial_data 2 limits

pub request_7-named : 0 < length request_7.spec.descr
request_7-named = omega arith

-- The producer after the request to create its variable.
abbrev pub producer : Data
producer = state (handle_rtdb_create_request 1000 1001 request_7 producer_fresh)

pub producer-Reach : Reach host producer_fresh producer
producer-Reach = next start (create_requested 1000 1001 request_7 request_7-named)

pub producer-Good : Good producer
producer-Good =
    Step-Good host (create_requested 1000 1001 request_7 request_7-named)
      (initial_data-Good 2 limits)

pub producer-IsOwn : IsOwn producer 7
unfolding initial_data handle_rtdb_create_request create_variable install_variable created_entry
    fill_slot activate allocate_identifier set_db_entry update_value update_description
    identifier_is_allocated
producer-IsOwn = record { used = refl; live = refl; own = refl }

-- An empty area for a payload of 200 bytes.
abbrev pub room : AssemblyArea
room = record { initial_available = 200; bytes_available = 200; bytes_used = 0; written = [] }

abbrev pub tx : Tx
tx = record { protocol = producer; area = room; containers_added = 0 }

-- A payload that has not been read yet.
abbrev pub payload : List ℕ → DisassemblyArea
payload bs = record {
  initial_available = length bs;
  bytes_available = length bs;
  bytes_used = 0;
  pending = bs;
}
