-- ===== src/Common/Tests.antt =====
-- A ring buffer and a shared-memory queue on which the theorems are tried.
use dcp_vardis.Prelude.{ℕ, ◌≡◌, ◌+◌, ◌*◌, inl, refl, true, false, List, [], ◌∷◌, arith}
use dcp_vardis.Prelude.Effect.{throw, ring_buffer_exception, Succeeds}
use dcp_vardis.Common.RingBuffer.{RingBuffer}
use dcp_vardis.Common.RingBuffer.Refine
use dcp_vardis.Common.RingBuffer.Run.{Op, put, take_out, look, run, queue_run, run_refines}
use dcp_vardis.Common.FiniteQueue.{
  DescrT, FiniteQueue, QueueMemory, new_finite_queue, pop_nowait, reset,
}
use dcp_vardis.Common.FiniteQueue.Valid
use dcp_vardis.Common.FiniteQueue.Valid.{view}
use dcp_vardis.Common.FiniteQueue.Run
use dcp_vardis.Common.FiniteQueue.Run.{
  append, force, take_one, take_all, RunReturns, block_run, run-Returns,
}
use dcp_vardis.Common.FiniteQueue.Reset.{Dimensions, reset-pop_nowait_throws}
use dcp_vardis.Common.FiniteQueue.Construct.{Returned, new_finite_queue-IsValid}

-- Two places in use of an array of three; the first element stands in the last place.
abbrev ring : RingBuffer ℕ
ring = record {
  max_ring_buffer_elements = 3;
  next_in = 0;
  next_out = 2;
  max_capacity = 2;
  current_number_elements = 1;
  the_ring = λ i. i + 7;
}

ring-IsValid : Refine.IsValid ring
ring-IsValid = record {
  some_capacity = omega arith;
  capacity_small = omega arith;
  at_most = omega arith;
  out_inside = omega arith;
  in_behind = refl;
}

abbrev ring_calls : List (Op ℕ)
ring_calls = put 5 ∷ put 6 ∷ take_out ∷ look ∷ take_out ∷ take_out ∷ []

run_refines_example : run ring_calls ring ≡ queue_run 2 ring_calls (9 ∷ [])
run_refines_example = run_refines ring_calls ring ring-IsValid

-- Two buffers of four bytes, both free.
abbrev pub empty_ring : RingBuffer DescrT
empty_ring = record {
  max_ring_buffer_elements = 3;
  next_in = 0;
  next_out = 0;
  max_capacity = 2;
  current_number_elements = 0;
  the_ring = λ i. record { offs = 0; len = 0 };
}

abbrev pub two_buffers : FiniteQueue
two_buffers = record {
  number_buffers = 2;
  buffer_size = 4;
  queue = empty_ring;
  free_list = record {
    max_ring_buffer_elements = 3;
    next_in = 2;
    next_out = 0;
    max_capacity = 2;
    current_number_elements = 2;
    the_ring = λ i. record { offs = i * 32; len = 0 };
  };
  buffer_space = λ i. 0;
  has_data = false;
}

pub two_buffers-IsValid : Valid.IsValid two_buffers
two_buffers-IsValid = record {
  queue_ring = record {
    some_capacity = omega arith;
    capacity_small = omega arith;
    at_most = omega arith;
    out_inside = omega arith;
    in_behind = refl;
  };
  free_ring = record {
    some_capacity = omega arith;
    capacity_small = omega arith;
    at_most = omega arith;
    out_inside = omega arith;
    in_behind = refl;
  };
  queue_capacity = omega arith;
  free_capacity = refl;
  balanced = refl;
  separate = ((inl (omega arith), tt), (tt, tt));
  fit = tt;
  flag = refl;
}

abbrev queue_calls : List Run.Op
queue_calls = append (1 ∷ []) ∷ append (2 ∷ 3 ∷ []) ∷ force (4 ∷ []) ∷ take_one ∷ take_all ∷ []

run-Returns_example :
    RunReturns two_buffers (Run.run 5 queue_calls two_buffers) (block_run 2 queue_calls [])
run-Returns_example =
    run-Returns 5 queue_calls two_buffers two_buffers-IsValid (λ e. omega (arith, e))
      (
        (omega arith, omega arith),
        ((omega arith, omega arith), ((omega arith, omega arith), (tt, (tt, tt)))),
      )

abbrev memory : QueueMemory
memory = record {
  queue_ring = λ i. record { offs = i; len = 3 };
  free_ring = λ i. record { offs = 0; len = i };
  buffers = λ i. i;
}

new_finite_queue-IsValid_example :
    Returned (new_finite_queue 10 1628 1 memory tt) (λ q. Valid.IsValid q × (view q ≡ []))
new_finite_queue-IsValid_example =
    new_finite_queue-IsValid 10 1628 1 memory (omega arith) (omega arith)

-- A queue with one block.
abbrev pub one_block : FiniteQueue
one_block = record two_buffers {
  queue = record empty_ring { next_in = 1; current_number_elements = 1 };
  has_data = true;
}

pub one_block-Dimensions : Dimensions one_block
one_block-Dimensions = record {
  some_buffers = omega arith;
  some_capacity = omega arith;
  queue_capacity = omega arith;
  free_capacity = refl;
  queue_size = omega arith;
  free_size = omega arith;
}

reset-pop_nowait_throws_example :
    Succeeds (reset one_block) (λ r. pop_nowait 5 true r ≡ throw ring_buffer_exception r)
reset-pop_nowait_throws_example =
    reset-pop_nowait_throws one_block 5 one_block-Dimensions refl (λ e. omega (arith, e))
