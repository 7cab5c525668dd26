-- ===== src/Common/RingBuffer.antt =====
-- FixedMemRingBuffer of dcp/common/fixedmem_ring_buffer.h: a ring buffer in an array of
-- `max_ring_buffer_elements` places. The array is a function on its indices. The name of the buffer
-- and its checks are not modelled, nor is the output operator.
pub mod Refine
pub mod Run
use dcp_vardis.Prelude.{
  ℕ, ◌+◌, ◌-◌, ◌%◌, ◌^◌, Bool, true, false, ◌||◌, if◌then◌else◌, ltb, leb, ◌==◌, update,
}
use dcp_vardis.Prelude.Effect.{Exec, Void, pure, raise, ok, modify, ring_buffer_exception}

pub record RingBuffer (A : Type 0) : Type 0 where
  pub max_ring_buffer_elements : ℕ
  pub next_in : ℕ
  pub next_out : ℕ
  pub max_capacity : ℕ
  pub current_number_elements : ℕ
  pub the_ring : ℕ → A

module _ {A : Type 0} where
  -- The constructor, over an array that holds something.
  unfoldable pub new_ring_buffer : ℕ → ℕ → (ℕ → A) → Exec Void (RingBuffer A)
  new_ring_buffer elements max_cap ring =
      if ltb max_cap 1 || leb elements max_cap
      then raise ring_buffer_exception
      else pure (record {
        max_ring_buffer_elements = elements;
        next_in = 0;
        next_out = 0;
        max_capacity = max_cap;
        current_number_elements = 0;
        the_ring = ring;
      })

  unfoldable pub is_empty : RingBuffer A → Bool
  is_empty r = r.current_number_elements == 0

  unfoldable pub is_full : RingBuffer A → Bool
  is_full r = r.current_number_elements == r.max_capacity

  unfoldable pub stored_elements : RingBuffer A → ℕ
  stored_elements r = r.current_number_elements % 2 ^ 32

  unfoldable pub pop : Exec (RingBuffer A) A
  unfolding is_empty
  pop r =
      if is_empty r
      then raise ring_buffer_exception r
      else ok (r.the_ring r.next_out) (record r {
        next_out = (r.next_out + 1) % r.max_ring_buffer_elements;
        current_number_elements = r.current_number_elements - 1;
      })

  unfoldable pub peek : Exec (RingBuffer A) A
  unfolding is_empty
  peek r = if is_empty r then raise ring_buffer_exception r else pure (r.the_ring r.next_out) r

  unfoldable pub push : A → Exec (RingBuffer A) Void
  unfolding is_full
  push buf r =
      if is_full r
      then raise ring_buffer_exception r
      else modify
          (λ r. record r {
            the_ring = update r.the_ring r.next_in buf;
            next_in = (r.next_in + 1) % r.max_ring_buffer_elements;
            current_number_elements = r.current_number_elements + 1;
          })
          r

  unfoldable pub reset : RingBuffer A → RingBuffer A
  reset r = record r { next_in = 0; next_out = 0; current_number_elements = 0 }
