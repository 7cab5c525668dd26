-- ===== src/Common/FiniteQueue.antt =====
-- ShmFiniteQueue of dcp/common/sharedmem_finite_queue.h: a queue of byte buffers in shared memory.
-- Descriptors of buffers stand in a ring buffer `queue` or in a ring buffer `free_list`.
-- A PushHandler is the list of the bytes that it writes; it returns their number. What a PopHandler
-- is called with is part of the result. The other processes enter in three ways: whether the lock
-- was obtained in time (`locked`), and what a wait on a condition variable ended with (`wake`): a
-- time-out, or the queue as the others have left it. Names and magic numbers are not modelled.
pub mod Valid
pub mod Hold
pub mod Refine
pub mod Drain
pub mod Run
pub mod Reset
pub mod Construct
use dcp_vardis.Prelude.{
  ℕ, zero, suc, ◌+◌, ◌-◌, ◌*◌, ◌/◌, Bool, true, false, not, List, [], ◌∷◌, Option, none, some,
  length, if◌then◌else◌, ltb, ◌==◌,
}
use dcp_vardis.Prelude.Effect.{
  Outcome, Exec, Void, ok, throw, ◌>>=◌, ◌>>◌, pure, raise, gets, modify, shm_exception,
}
use dcp_vardis.Common.Memory.{write_block, read_block}
use dcp_vardis.Common.RingBuffer
use dcp_vardis.Common.RingBuffer.{RingBuffer, is_empty, is_full}

pub record DescrT : Type 0 where
  pub offs : ℕ
  pub len : ℕ

pub record FiniteQueue : Type 0 where
  pub number_buffers : ℕ
  pub buffer_size : ℕ
  pub queue : RingBuffer DescrT
  pub free_list : RingBuffer DescrT
  pub buffer_space : ℕ → ℕ
  pub has_data : Bool

abbrev pub actual_buffer_size : ℕ → ℕ
actual_buffer_size size = 8 * ((size + 4 * 8) / 8)

abbrev with_queue :
    {A : Type 0} → FiniteQueue → Outcome (RingBuffer DescrT) A → Outcome FiniteQueue A
with_queue q (ok a r) = ok a (record q { queue = r })
with_queue q (throw e r) = throw e (record q { queue = r })

abbrev pub on_queue : {A : Type 0} → Exec (RingBuffer DescrT) A → Exec FiniteQueue A
on_queue m q = with_queue q (m q.queue)

abbrev with_free_list :
    {A : Type 0} → FiniteQueue → Outcome (RingBuffer DescrT) A → Outcome FiniteQueue A
with_free_list q (ok a r) = ok a (record q { free_list = r })
with_free_list q (throw e r) = throw e (record q { free_list = r })

abbrev pub on_free_list : {A : Type 0} → Exec (RingBuffer DescrT) A → Exec FiniteQueue A
on_free_list m q = with_free_list q (m q.free_list)

-- The loop of `initialize_queue_and_freelist`: `i` is the next index, `n` rounds are left.
unfoldable pub fill_free_list : ℕ → ℕ → Exec FiniteQueue Void
fill_free_list i zero q = pure tt q
fill_free_list i (suc n) q =
    (do
      on_free_list
          (RingBuffer.push (record { offs = i * actual_buffer_size q.buffer_size; len = 0 }))
      fill_free_list (i + 1) n)
      q

unfoldable pub initialize_queue_and_free_list : Exec FiniteQueue Void
unfolding fill_free_list RingBuffer.reset
initialize_queue_and_free_list q =
    (do
      modify (λ q. record q {
        queue = RingBuffer.reset q.queue;
        free_list = RingBuffer.reset q.free_list;
      })
      fill_free_list 0 q.number_buffers)
      q

unfoldable pub reset : Exec FiniteQueue Void
unfolding initialize_queue_and_free_list
reset = initialize_queue_and_free_list

-- What stands in the shared memory before the constructor runs.
pub record QueueMemory : Type 0 where
  pub queue_ring : ℕ → DescrT
  pub free_ring : ℕ → DescrT
  pub buffers : ℕ → ℕ

abbrev pub built : Outcome FiniteQueue Void → Exec Void FiniteQueue
built (ok a q) = pure q
built (throw e q) = raise e

-- The constructor, for the template arguments `buffers` and `size`: the capacity of the queue may be
-- smaller than the number of buffers.
unfoldable pub new_finite_queue : ℕ → ℕ → ℕ → QueueMemory → Exec Void FiniteQueue
unfolding RingBuffer.new_ring_buffer initialize_queue_and_free_list
new_finite_queue buffers size max_cap memory = do
  queue ← RingBuffer.new_ring_buffer (buffers + 1) max_cap memory.queue_ring
  free_list ← RingBuffer.new_ring_buffer (buffers + 1) buffers memory.free_ring
  built (
      initialize_queue_and_free_list (record {
        number_buffers = buffers;
        buffer_size = size;
        queue = queue;
        free_list = free_list;
        buffer_space = memory.buffers;
        has_data = false;
      }))

unfoldable pub stored_elements : FiniteQueue → ℕ
unfolding RingBuffer.stored_elements
stored_elements q = RingBuffer.stored_elements q.queue

-- What a call that pushes has found: it timed out, or the queue was full.
pub record PushResult : Type 0 where
  pub timed_out : Bool
  pub is_full : Bool

-- What a call that pops or peeks has found, and the bytes that its handler was called with.
pub record PopResult : Type 0 where
  pub timed_out : Bool
  pub further_entries : Bool
  pub handled : Option (List ℕ)

abbrev pub pushed : PushResult
pushed = record { timed_out = false; is_full = false }

abbrev pub push_timed_out : PushResult
push_timed_out = record { timed_out = true; is_full = false }

abbrev pub pop_timed_out : PopResult
pop_timed_out = record { timed_out = true; further_entries = false; handled = none }

abbrev pub nothing_popped : PopResult
nothing_popped = record { timed_out = false; further_entries = false; handled = none }

-- The end of every push: the handler fills the buffer, whose descriptor goes into the queue.
unfoldable pub fill_buffer : List ℕ → DescrT → Exec FiniteQueue PushResult
unfolding write_block
fill_buffer handler descr q =
    (do
      modify (λ q. record q { buffer_space = write_block q.buffer_space descr.offs handler })
      if length handler == 0
          then on_free_list (RingBuffer.push (record descr { len = length handler }))
          else if ltb q.buffer_size (length handler)
          then raise shm_exception
          else (do
            on_queue (RingBuffer.push (record descr { len = length handler }))
            modify (λ q. record q { has_data = true }))
      pure pushed)
      q

-- The handler of a pop reads the buffer, whose descriptor goes into the free list.
unfoldable pub take_first : Exec FiniteQueue (List ℕ)
unfolding read_block
take_first = do
  descr ← on_queue RingBuffer.pop
  bytes ← gets (λ q. read_block q.buffer_space descr.offs descr.len)
  on_free_list (RingBuffer.push (record descr { len = 0 }))
  pure bytes

-- The end of `pop_wait` and `pop_nowait`.
unfoldable pub empty_buffer : Exec FiniteQueue PopResult
unfolding take_first is_empty
empty_buffer = do
  bytes ← take_first
  last ← gets (λ q. is_empty q.queue)
  modify (λ q. if last then record q { has_data = false } else q)
  pure (record { timed_out = false; further_entries = not last; handled = some bytes })

-- The loop of the popall calls: `n` is at least the number of its rounds.
unfoldable pub drain : ℕ → Exec FiniteQueue (List (List ℕ))
unfolding take_first is_empty
drain zero q = pure [] q
drain (suc n) q =
    if is_empty q.queue
    then pure [] q
    else (do bytes ← take_first; rest ← drain n; pure (bytes ∷ rest)) q

unfoldable pub drain_all : Exec FiniteQueue (Option (List (List ℕ)))
unfolding drain
drain_all q =
    (do
      all ← drain q.queue.current_number_elements
      modify (λ q. record q { has_data = false })
      pure (some all))
      q

unfoldable pub peek_buffer : Exec FiniteQueue PopResult
unfolding read_block
peek_buffer = do
  descr ← on_queue RingBuffer.peek
  bytes ← gets (λ q. read_block q.buffer_space descr.offs descr.len)
  pure (record { timed_out = false; further_entries = false; handled = some bytes })

-- What stands at the start of every call: a time-out of zero is refused, and the lock is taken.
unfoldable pub locked_call : {A : Type 0} → ℕ → Bool → A → Exec FiniteQueue A → Exec FiniteQueue A
locked_call timeout_ms locked gave_up call =
    if timeout_ms == 0 then raise shm_exception else if locked then call else pure gave_up

-- A wait on a condition variable: `none` is a time-out.
unfoldable pub wait_then :
    {A : Type 0} → Option FiniteQueue → A → Exec FiniteQueue A → Exec FiniteQueue A
wait_then none gave_up call = pure gave_up
wait_then (some q') gave_up call = do modify (λ q. q'); call

-- `push_wait` waits for `cond_full` whenever the queue has data. The handler may throw: its
-- buffer is then in neither ring.
unfoldable pub push_wait_by :
    ℕ → Bool → Option FiniteQueue → Exec FiniteQueue (List ℕ) → Exec FiniteQueue PushResult
unfolding locked_call wait_then fill_buffer
push_wait_by timeout_ms locked wake handler =
    locked_call timeout_ms locked push_timed_out
      λ q. if q.has_data then wait_then wake push_timed_out fill q else fill q
  where
    fill : Exec FiniteQueue PushResult
    fill = do descr ← on_free_list RingBuffer.pop; bytes ← handler; fill_buffer bytes descr

unfoldable pub push_wait : ℕ → Bool → Option FiniteQueue → List ℕ → Exec FiniteQueue PushResult
unfolding push_wait_by
push_wait timeout_ms locked wake handler = push_wait_by timeout_ms locked wake (pure handler)

unfoldable pub push_nowait : ℕ → Bool → List ℕ → Exec FiniteQueue PushResult
unfolding locked_call fill_buffer is_full
push_nowait timeout_ms locked handler = locked_call timeout_ms locked push_timed_out λ q.
    if is_full q.queue
    then pure (record { timed_out = false; is_full = true }) q
    else (on_free_list RingBuffer.pop >>= fill_buffer handler) q

-- A full queue gives up its oldest entry.
unfoldable pub push_wait_force : ℕ → Bool → List ℕ → Exec FiniteQueue PushResult
unfolding locked_call fill_buffer is_full
push_wait_force timeout_ms locked handler = locked_call timeout_ms locked push_timed_out λ q.
    if is_full q.queue
    then (on_queue RingBuffer.pop >>= fill_buffer handler) q
    else (on_free_list RingBuffer.pop >>= fill_buffer handler) q

unfoldable pub pop_wait : ℕ → Bool → Option FiniteQueue → Exec FiniteQueue PopResult
unfolding locked_call wait_then empty_buffer
pop_wait timeout_ms locked wake =
    locked_call timeout_ms locked pop_timed_out
      λ q. if q.has_data then empty_buffer q else wait_then wake pop_timed_out empty_buffer q

unfoldable pub pop_nowait : ℕ → Bool → Exec FiniteQueue PopResult
unfolding locked_call empty_buffer
pop_nowait timeout_ms locked =
    locked_call timeout_ms locked pop_timed_out
      λ q. if q.has_data then empty_buffer q else pure nothing_popped q

unfoldable pub peek_wait : ℕ → Bool → Option FiniteQueue → Exec FiniteQueue PopResult
unfolding locked_call wait_then peek_buffer
peek_wait timeout_ms locked wake =
    locked_call timeout_ms locked pop_timed_out
      λ q. if q.has_data then peek_buffer q else wait_then wake pop_timed_out peek_buffer q

unfoldable pub peek_nowait : ℕ → Bool → Exec FiniteQueue PopResult
unfolding locked_call peek_buffer
peek_nowait timeout_ms locked =
    locked_call timeout_ms locked pop_timed_out
      λ q. if q.has_data then peek_buffer q else pure nothing_popped q

-- The popall calls: what the handler was called with, or nothing after a time-out.
unfoldable pub popall_wait :
    ℕ → Bool → Option FiniteQueue → Exec FiniteQueue (Option (List (List ℕ)))
unfolding locked_call wait_then drain_all
popall_wait timeout_ms locked wake =
    locked_call timeout_ms locked none
      λ q. if q.has_data then drain_all q else wait_then wake none drain_all q

unfoldable pub popall_nowait : ℕ → Bool → Exec FiniteQueue (Option (List (List ℕ)))
unfolding locked_call drain_all
popall_nowait timeout_ms locked =
    locked_call timeout_ms locked none λ q. if q.has_data then drain_all q else pure (some []) q
