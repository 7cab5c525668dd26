-- ===== src/Common/FiniteQueue/Hold.antt =====
-- Between the two halves of a push or a pop, one descriptor is in neither of the two rings.
use dcp_vardis.Prelude.{
  ℕ, suc, ◌+◌, ◌≤◌, ◌<◌, ◌≡◌, refl, ap, subst, ◌∙◌, true, not, List, [], ◌∷◌, ◌++◌, length,
  length-append, arith, ◌==◌,
}
use dcp_vardis.Common.RingBuffer.Refine
use dcp_vardis.Common.RingBuffer.Refine.{
  contents, length-window, Popped, pop-Popped, Pushed, push-Pushed,
}
use dcp_vardis.Common.FiniteQueue.{DescrT, FiniteQueue}
use dcp_vardis.Common.FiniteQueue.Valid.{
  Disjoint, AllDisjoint, Separate, Fit, IsValid, Separate-relen, Fit-snoc,
}

-- `d` has left its ring, and belongs between the queue and the free list.
pub record Holds (d : DescrT) (q : FiniteQueue) : Type 0 where
  pub queue_ring : Refine.IsValid q.queue
  pub free_ring : Refine.IsValid q.free_list
  pub queue_capacity : q.queue.max_capacity ≤ q.number_buffers
  pub room : length (contents q.queue) < q.queue.max_capacity
  pub free_capacity : q.free_list.max_capacity ≡ q.number_buffers
  pub balanced : suc (length (contents q.queue) + length (contents q.free_list)) ≡ q.number_buffers
  pub separate : Separate q.buffer_size (contents q.queue ++ (d ∷ contents q.free_list))
  pub fit : Fit q.buffer_size (contents q.queue)

AllDisjoint-insert :
    (size a : ℕ) (d : DescrT) (ds es : List DescrT)
    → Disjoint size a d.offs
    → AllDisjoint size a (ds ++ es)
    → AllDisjoint size a (ds ++ (d ∷ es))
AllDisjoint-insert size a d [] es h k = (h, k)
AllDisjoint-insert size a d (e ∷ ds) es h k = (k.0, AllDisjoint-insert size a d ds es h k.1)

-- A descriptor that leads the list may stand further behind.
Separate-insert :
    (size : ℕ) (d : DescrT) (ds es : List DescrT)
    → Separate size (d ∷ (ds ++ es))
    → Separate size (ds ++ (d ∷ es))
Separate-insert size d [] es h = h
Separate-insert size d (e ∷ ds) es h = (
  AllDisjoint-insert size e.offs d ds es (omega (arith, h.0.0)) h.1.0,
  Separate-insert size d ds es (h.0.1, h.1.1),
)

-- It may also go to the very end, with another length.
AllDisjoint-last :
    (size a n : ℕ) (d : DescrT) (ds es : List DescrT)
    → AllDisjoint size a (ds ++ (d ∷ es))
    → AllDisjoint size a (ds ++ (es ++ (record d { len = n } ∷ [])))
AllDisjoint-last size a n d [] [] h = h
AllDisjoint-last size a n d [] (e ∷ es) h = (h.1.0, AllDisjoint-last size a n d [] es (h.0, h.1.1))
AllDisjoint-last size a n d (x ∷ ds) es h = (h.0, AllDisjoint-last size a n d ds es h.1)

Separate-last :
    (size n : ℕ) (d : DescrT) (ds es : List DescrT)
    → Separate size (ds ++ (d ∷ es))
    → Separate size (ds ++ (es ++ (record d { len = n } ∷ [])))
Separate-last size n d [] [] h = h
Separate-last size n d [] (e ∷ es) h = (
  AllDisjoint-last size e.offs n d [] es (omega (arith, h.0.0), h.1.0),
  Separate-last size n d [] es (h.0.1, h.1.1),
)
Separate-last size n d (x ∷ ds) es h =
    (AllDisjoint-last size x.offs n d ds es h.0, Separate-last size n d ds es h.1)

-- The first descriptor of the free list.
pub free-Holds :
    (q : FiniteQueue) (d : DescrT) (ds : List DescrT)
    → IsValid q
    → contents q.free_list ≡ d ∷ ds
    → length (contents q.queue) < q.queue.max_capacity
    → (p : Popped q.free_list d ds) → Holds d (record q { free_list = p.after })
free-Holds q d ds v first room p = record {
  room = room;
  queue_ring = v.queue_ring;
  free_ring = p.valid;
  queue_capacity = v.queue_capacity;
  free_capacity = p.capacity ∙ v.free_capacity;
  balanced = omega (arith, ap length first, ap length p.left, v.balanced);
  separate =
      rw p.left (subst (λ xs. Separate q.buffer_size (contents q.queue ++ xs)) first v.separate);
  fit = v.fit;
}

-- The first descriptor of the queue.
pub front-Holds :
    (q : FiniteQueue) (d : DescrT) (ds : List DescrT)
    → IsValid q
    → contents q.queue ≡ d ∷ ds
    → (p : Popped q.queue d ds) → Holds d (record q { queue = p.after })
front-Holds q d ds v first p = record {
  room = omega (
    arith,
    p.capacity,
    ap length p.left,
    ap length first,
    v.queue_ring.at_most,
    length-window q.queue.the_ring q.queue.max_ring_buffer_elements q.queue.next_out
        q.queue.current_number_elements,
  );
  queue_ring = p.valid;
  free_ring = v.free_ring;
  queue_capacity = omega (arith, p.capacity, v.queue_capacity);
  free_capacity = v.free_capacity;
  balanced = omega (arith, ap length first, ap length p.left, v.balanced);
  separate = rw p.left (
      Separate-insert q.buffer_size d ds (contents q.free_list)
        (subst (λ xs. Separate q.buffer_size (xs ++ contents q.free_list)) first v.separate));
  fit = rw p.left (subst (Fit q.buffer_size) first v.fit).1;
}

pub room_free :
    (d : DescrT) (q : FiniteQueue)
    → Holds d q
    → length (contents q.free_list) < q.free_list.max_capacity
room_free d q h = omega (arith, h.balanced, h.free_capacity)

pub room_queue :
    (d : DescrT) (q : FiniteQueue) → Holds d q → length (contents q.queue) < q.queue.max_capacity
room_queue d q h = h.room

-- The descriptor goes into the queue, with the new contents of its buffer.
pub queued-IsValid :
    (d : DescrT) (n : ℕ) (space : ℕ → ℕ) (q : FiniteQueue)
    → Holds d q
    → n ≤ q.buffer_size
    → (p : Pushed q.queue (record d { len = n }))
    → IsValid (record q { queue = p.after; buffer_space = space; has_data = true })
queued-IsValid d n space q h small p = record {
  queue_ring = p.valid;
  free_ring = h.free_ring;
  queue_capacity = omega (arith, p.capacity, h.queue_capacity);
  free_capacity = h.free_capacity;
  balanced = omega (arith, longer, h.balanced);
  separate =
      rw p.added
        (Separate-relen q.buffer_size n (contents q.queue) (contents q.free_list) d h.separate);
  fit = rw p.added (Fit-snoc q.buffer_size (record d { len = n }) (contents q.queue) h.fit small);
  flag = ground (arith, longer);
}
  where
    longer : length (contents p.after) ≡ length (contents q.queue) + 1
    longer = ap length p.added ∙ length-append (contents q.queue) (record d { len = n } ∷ [])

-- The descriptor goes into the free list, and the flag follows the queue.
pub freed-IsValid :
    (d : DescrT) (q : FiniteQueue)
    → Holds d q
    → (p : Pushed q.free_list (record d { len = 0 }))
    → IsValid (record q { free_list = p.after; has_data = not (length (contents q.queue) == 0) })
freed-IsValid d q h p = record {
  queue_ring = h.queue_ring;
  free_ring = p.valid;
  queue_capacity = h.queue_capacity;
  free_capacity = p.capacity ∙ h.free_capacity;
  balanced = omega (
    arith,
    ap length p.added,
    length-append (contents q.free_list) (record d { len = 0 } ∷ []),
    h.balanced,
  );
  separate =
      rw p.added
        (Separate-last q.buffer_size 0 d (contents q.queue) (contents q.free_list) h.separate);
  fit = h.fit;
  flag = refl;
}
