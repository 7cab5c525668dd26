-- ===== src/Common/FiniteQueue/Reset.antt =====
-- `initialize_queue_and_freelist`, when a queue is set up and when it is reset.
use dcp_vardis.Prelude.{
  ℕ, zero, suc, ◌+◌, ◌*◌, ◌≤◌, ◌<◌, ◌≡◌, ◌≢◌, inr, refl, sym, ap, subst, ◌∙◌, Bool, true, false,
  List, [], ◌∷◌, ◌++◌, length, length-append, arith, ◌==◌,
}
use native.Mathlib.Nat.{mod-eq_of_lt}
use dcp_vardis.Prelude.Effect.{throw, Succeeds, Succeeds-map, ring_buffer_exception}
use dcp_vardis.Common.RingBuffer
use dcp_vardis.Common.RingBuffer.{RingBuffer, pop, is_empty}
use dcp_vardis.Common.RingBuffer.Refine
use dcp_vardis.Common.RingBuffer.Refine.{contents, Pushed, push-Pushed}
use dcp_vardis.Common.FiniteQueue.{
  DescrT, FiniteQueue, actual_buffer_size, fill_free_list, initialize_queue_and_free_list, reset,
  pop_nowait,
}
use dcp_vardis.Common.FiniteQueue.Valid.{
  IsValid, AllDisjoint, Separate, Separate-snoc, view, payloads, is_empty_lem,
}

-- All buffers lie below `a`.
AllBelow : ℕ → ℕ → List DescrT → Type 0
AllBelow size a [] = Unit {0}
AllBelow size a (d ∷ ds) = (d.offs + size ≤ a) × AllBelow size a ds

AllBelow-snoc :
    (size a a' : ℕ) (ds : List DescrT)
    → a + size ≤ a'
    → AllBelow size a ds
    → AllBelow size a' (ds ++ (record { offs = a; len = 0 } ∷ []))
unfolding AllBelow
AllBelow-snoc size a a' [] p h = (p, tt)
AllBelow-snoc size a a' (d ∷ ds) p h = (omega (arith, h.0, p), AllBelow-snoc size a a' ds p h.1)

AllBelow-disjoint : (size a : ℕ) (ds : List DescrT) → AllBelow size a ds → AllDisjoint size a ds
unfolding AllBelow
AllBelow-disjoint size a [] h = tt
AllBelow-disjoint size a (d ∷ ds) h = (inr (omega (arith, h.0)), AllBelow-disjoint size a ds h.1)

next_buffer : (i s : ℕ) → i * actual_buffer_size s + s ≤ (i + 1) * actual_buffer_size s
next_buffer i s = go (actual_buffer_size s) (omega arith)
  where
    go : (a : ℕ) → s ≤ a → i * a + s ≤ (i + 1) * a
    go a h = ground arith

-- What the loop has done before the round for the index `i`; it does not touch the flag.
record Filled (flag : Bool) (i : ℕ) (q : FiniteQueue) : Type 0 where
  queue_ring : Refine.IsValid q.queue
  ring : Refine.IsValid q.free_list
  queue_capacity : q.queue.max_capacity ≤ q.number_buffers
  capacity : q.free_list.max_capacity ≡ q.number_buffers
  nothing : contents q.queue ≡ []
  count : length (contents q.free_list) ≡ i
  separate : Separate q.buffer_size (contents q.free_list)
  below : AllBelow q.buffer_size (i * actual_buffer_size q.buffer_size) (contents q.free_list)
  same_flag : q.has_data ≡ flag

fill_free_list-Filled :
    (flag : Bool) (i n : ℕ) (q : FiniteQueue)
    → i + n ≡ q.number_buffers
    → Filled flag i q
    → Succeeds (fill_free_list i n q) (λ r. Filled flag r.number_buffers r)
unfolding fill_free_list
fill_free_list-Filled flag i zero q e f = subst (λ k. Filled flag k q) {x = i} (omega (arith, e)) f
fill_free_list-Filled flag i (suc n) q e f = rw p.pushed (
    fill_free_list-Filled flag (i + 1) n (record q { free_list = p.after }) (omega (arith, e))
      (record {
        queue_ring = f.queue_ring;
        ring = p.valid;
        queue_capacity = f.queue_capacity;
        capacity = p.capacity ∙ f.capacity;
        nothing = f.nothing;
        count =
            ap length p.added
            ∙ length-append (contents q.free_list) (this ∷ [])
            ∙ ap (λ k. k + 1) f.count;
        separate = rw p.added (
            Separate-snoc q.buffer_size this (contents q.free_list) f.separate
              (AllBelow-disjoint q.buffer_size _ (contents q.free_list) f.below));
        below = rw p.added (
            AllBelow-snoc q.buffer_size _ _ (contents q.free_list) (next_buffer i q.buffer_size)
              f.below);
        same_flag = f.same_flag;
      }))
  where
    this : DescrT
    this = record { offs = i * actual_buffer_size q.buffer_size; len = 0 }

    p : Pushed q.free_list this
    p = push-Pushed q.free_list this f.ring (omega (arith, f.capacity, f.count, e))

-- The dimensions that the constructor of the control structure gives its two rings.
pub record Dimensions (q : FiniteQueue) : Type 0 where
  pub some_buffers : 0 < q.number_buffers
  pub some_capacity : 0 < q.queue.max_capacity
  pub queue_capacity : q.queue.max_capacity ≤ q.number_buffers
  pub free_capacity : q.free_list.max_capacity ≡ q.number_buffers
  pub queue_size : q.number_buffers < q.queue.max_ring_buffer_elements
  pub free_size : q.number_buffers < q.free_list.max_ring_buffer_elements

ring-reset :
    {A : Type 0} (r : RingBuffer A)
    → 0 < r.max_capacity
    → r.max_capacity < r.max_ring_buffer_elements
    → Refine.IsValid (RingBuffer.reset r)
unfolding RingBuffer.reset
ring-reset r some small = record {
  some_capacity = some;
  capacity_small = small;
  at_most = omega arith;
  out_inside = omega (arith, small);
  in_behind = sym (mod-eq_of_lt (omega (arith, small)));
}

initialize-Filled :
    (q : FiniteQueue)
    → Dimensions q
    → Succeeds (initialize_queue_and_free_list q) (λ r. Filled q.has_data r.number_buffers r)
unfolding initialize_queue_and_free_list RingBuffer.reset AllBelow
initialize-Filled q d =
    fill_free_list-Filled q.has_data 0 q.number_buffers
      (record q { queue = RingBuffer.reset q.queue; free_list = RingBuffer.reset q.free_list })
      (omega arith)
      (record {
        queue_ring =
            ring-reset q.queue d.some_capacity (omega (arith, d.queue_size, d.queue_capacity));
        ring =
            ring-reset q.free_list (omega (arith, d.some_buffers, d.free_capacity))
              (omega (arith, d.free_size, d.free_capacity));
        queue_capacity = d.queue_capacity;
        capacity = d.free_capacity;
        nothing = refl;
        count = refl;
        separate = tt;
        below = tt;
        same_flag = refl;
      })

Filled-IsValid : (q : FiniteQueue) → Filled false q.number_buffers q → IsValid q
Filled-IsValid q f = record {
  queue_ring = f.queue_ring;
  free_ring = f.ring;
  queue_capacity = f.queue_capacity;
  free_capacity = f.capacity;
  balanced = omega (arith, ap length f.nothing, f.count);
  separate = rw f.nothing f.separate;
  fit = rw f.nothing tt;
  flag = rw f.nothing f.same_flag;
}

-- A queue whose flag is clear is valid and empty once it has been initialized.
pub initialize_queue_and_free_list-IsValid :
    (q : FiniteQueue)
    → Dimensions q
    → q.has_data ≡ false
    → Succeeds (initialize_queue_and_free_list q) (λ r. IsValid r × (view r ≡ []))
initialize_queue_and_free_list-IsValid q d clear =
    Succeeds-map (initialize_queue_and_free_list q) _ _ (initialize-Filled q d) (λ r f. (
      Filled-IsValid r (subst (λ b. Filled b r.number_buffers r) clear f),
      ap (payloads r.buffer_space) f.nothing,
    ))

-- What `reset` leaves: no block, and the same flag.
pub reset_lem :
    (q : FiniteQueue)
    → Dimensions q
    → Succeeds (reset q) (λ r. (r.has_data ≡ q.has_data) × (view r ≡ []))
unfolding reset
reset_lem q d =
    Succeeds-map (initialize_queue_and_free_list q) _ _ (initialize-Filled q d)
      (λ r f. (f.same_flag, ap (payloads r.buffer_space) f.nothing))

pop_nowait_throws :
    (q : FiniteQueue) (timeout_ms : ℕ)
    → q.has_data ≡ true
    → timeout_ms ≢ 0
    → contents q.queue ≡ []
    → pop_nowait timeout_ms true q ≡ throw ring_buffer_exception q
unfolding pop_nowait pop
pop_nowait_throws q timeout_ms flag on nothing =
    simp (timed, flag, none_left)
      (ap (λ b. throw ring_buffer_exception (record q { has_data = b })) (sym flag))
  where
    timed : (timeout_ms == 0) ≡ false
    timed = ground (arith, on)

    none_left : is_empty q.queue ≡ true
    none_left = is_empty_lem q.queue ∙ ap (λ xs. length xs == 0) nothing

-- On a queue whose flag says that it has data, with rings of the dimensions that the constructor
-- gives them, `reset` returns, but does not clear the flag: the next call of `pop_nowait` that
-- obtains the lock, with a time-out that is not zero, throws, since its ring is empty.
pub reset-pop_nowait_throws :
    (q : FiniteQueue) (timeout_ms : ℕ)
    → Dimensions q
    → q.has_data ≡ true
    → timeout_ms ≢ 0
    → Succeeds (reset q) (λ r. pop_nowait timeout_ms true r ≡ throw ring_buffer_exception r)
unfolding reset
reset-pop_nowait_throws q timeout_ms d flag on =
    Succeeds-map (initialize_queue_and_free_list q) _ _ (initialize-Filled q d)
      (λ r f. pop_nowait_throws r timeout_ms (f.same_flag ∙ flag) on f.nothing)
