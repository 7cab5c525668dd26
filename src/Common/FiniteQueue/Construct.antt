-- ===== src/Common/FiniteQueue/Construct.antt =====
-- The constructor of the shared-memory queue.
use dcp_vardis.Prelude.{ℕ, ◌+◌, ◌≤◌, ◌<◌, ◌≡◌, refl, false, [], arith, ltb, leb}
use dcp_vardis.Prelude.Effect.{Outcome, Void, ok, throw, Succeeds, ring_buffer_exception}
use dcp_vardis.Common.FiniteQueue.{
  FiniteQueue, initialize_queue_and_free_list, new_finite_queue, built, QueueMemory,
}
use dcp_vardis.Common.FiniteQueue.Valid.{IsValid, view}
use dcp_vardis.Common.FiniteQueue.Reset.{Dimensions, initialize_queue_and_free_list-IsValid}

-- The call returns a value that satisfies `P`.
abbrev pub Returned : {S A : Type 0} → Outcome S A → (A → Type 0) → Type 0
Returned (ok a s) P = P a
Returned (throw e s) P = ⊥

Returned-built :
    (o : Outcome FiniteQueue Void) (P : FiniteQueue → Type 0)
    → Succeeds o P
    → Returned (built o tt) P
Returned-built (ok a q) P h = h
Returned-built (throw e q) P h = h

-- The constructor, for a capacity of at least one and at most the number of buffers, returns a valid
-- and empty queue, whatever the memory held.
pub new_finite_queue-IsValid :
    (buffers size max_cap : ℕ) (memory : QueueMemory)
    → 0 < max_cap
    → max_cap ≤ buffers
    → Returned (new_finite_queue buffers size max_cap memory tt) (λ q. IsValid q × (view q ≡ []))
unfolding new_finite_queue
new_finite_queue-IsValid buffers size max_cap memory filled fits =
    simp
      (
        least max_cap filled,
        most max_cap fits,
        least buffers (omega (arith, filled, fits)),
        most buffers (omega arith),
      )
      (Returned-built (initialize_queue_and_free_list fresh) (λ q. IsValid q × (view q ≡ []))
        (initialize_queue_and_free_list-IsValid fresh dimensions refl))
  where
    least : (n : ℕ) → 0 < n → ltb n 1 ≡ false
    least n h = ground arith

    most : (n : ℕ) → n ≤ buffers → leb (buffers + 1) n ≡ false
    most n h = ground arith

    fresh : FiniteQueue
    fresh = record {
      number_buffers = buffers;
      buffer_size = size;
      queue = record {
        max_ring_buffer_elements = buffers + 1;
        next_in = 0;
        next_out = 0;
        max_capacity = max_cap;
        current_number_elements = 0;
        the_ring = memory.queue_ring;
      };
      free_list = record {
        max_ring_buffer_elements = buffers + 1;
        next_in = 0;
        next_out = 0;
        max_capacity = buffers;
        current_number_elements = 0;
        the_ring = memory.free_ring;
      };
      buffer_space = memory.buffers;
      has_data = false;
    }

    dimensions : Dimensions fresh
    dimensions = record {
      some_buffers = omega (arith, filled, fits);
      some_capacity = filled;
      queue_capacity = fits;
      free_capacity = refl;
      queue_size = omega arith;
      free_size = omega arith;
    }

-- A capacity beyond the number of buffers is refused.
pub new_finite_queue_throws :
    (buffers size max_cap : ℕ) (memory : QueueMemory)
    → buffers < max_cap
    → new_finite_queue buffers size max_cap memory tt ≡ throw ring_buffer_exception tt
unfolding new_finite_queue
new_finite_queue_throws buffers size max_cap memory h = ground arith
