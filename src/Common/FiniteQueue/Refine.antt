-- ===== src/Common/FiniteQueue/Refine.antt =====
-- Calls of a valid shared-memory queue do to it what a bounded queue of byte blocks does.
use dcp_vardis.Prelude.{
  ℕ, ◌≤◌, ◌<◌, ◌≡◌, ◌≢◌, inl, inr, refl, sym, ap, ◌∙◌, Bool-cases, true, false, not, List, [], ◌∷◌,
  ◌++◌, length, drop, arith, ◌==◌, ltb, some,
}
use mathlib.Core.Path.{ap₂}
use dcp_vardis.Prelude.Effect.{Outcome, ok, ◌>>=◌, pure, continue}
use dcp_vardis.Common.RingBuffer
use dcp_vardis.Common.RingBuffer.{RingBuffer, is_full, is_empty}
use dcp_vardis.Common.RingBuffer.Refine.{
  contents, length-window, Popped, pop-Popped, Pushed, push-Pushed, peek-first,
}
use dcp_vardis.Common.Memory.{write_block, read_block-write_block}
use dcp_vardis.Common.FiniteQueue.{
  DescrT, FiniteQueue, pushed, on_queue, on_free_list, fill_buffer, take_first, empty_buffer,
  peek_buffer,
}
use dcp_vardis.Common.FiniteQueue.Valid.{
  IsValid, view, payload, payloads, payloads-apart, payloads-snoc, length-payloads,
  AllDisjoint-first, is_empty_lem,
}
use dcp_vardis.Common.FiniteQueue.Hold.{
  Holds, free-Holds, front-Holds, room_free, room_queue, queued-IsValid, freed-IsValid,
}

-- The first element of a list that is not empty.
pub first_of :
    {A : Type 0} (xs : List A) → 0 < length xs → (x : A) × (rest : List A) × (xs ≡ x ∷ rest)
first_of [] filled = absurd (omega (arith, filled))
first_of (x ∷ rest) filled = (x, rest, refl)

-- The call returns `a` and a valid queue of the blocks `xs`, of the same dimensions.
pub record Returns {A : Type 0} (q : FiniteQueue) (o : Outcome FiniteQueue A) (a : A)
    (xs : List (List ℕ)) : Type 0 where
  pub after : FiniteQueue
  pub returned : o ≡ ok a after
  pub valid : IsValid after
  pub blocks : view after ≡ xs
  pub same_capacity : after.queue.max_capacity ≡ q.queue.max_capacity
  pub same_size : after.buffer_size ≡ q.buffer_size

-- A block that is not empty and fits goes from the handler to the end of the queue.
pub fill_buffer-Returns :
    (q : FiniteQueue) (d : DescrT) (bs : List ℕ)
    → Holds d q
    → 0 < length bs
    → length bs ≤ q.buffer_size
    → Returns q (fill_buffer bs d q) pushed (view q ++ (bs ∷ []))
unfolding fill_buffer
fill_buffer-Returns q d bs h filled small = record {
  after = record q { queue = p.after; buffer_space = space; has_data = true };
  returned = simp (not_empty, fits, p.pushed) refl;
  valid = queued-IsValid d (length bs) space q h small p;
  blocks =
      ap (payloads space) p.added
      ∙ payloads-snoc space (record d { len = length bs }) (contents q.queue)
      ∙ ap₂ (λ xs x. xs ++ (x ∷ []))
          (payloads-apart q.buffer_space q.buffer_size d.offs bs (contents q.queue) small
            (AllDisjoint-first q.buffer_size (contents q.queue) (contents q.free_list) d h.separate)
            h.fit)
          (read_block-write_block q.buffer_space d.offs bs);
  same_capacity = p.capacity;
  same_size = refl;
}
  where
    space : ℕ → ℕ
    space = write_block q.buffer_space d.offs bs

    p : Pushed q.queue (record d { len = length bs })
    p = push-Pushed q.queue (record d { len = length bs }) h.queue_ring (room_queue d q h)

    not_empty : (length bs == 0) ≡ false
    not_empty = ground (arith, filled)

    fits : ltb q.buffer_size (length bs) ≡ false
    fits = ground (arith, small)

-- The block in front leaves the queue; the flag is not yet set.
pub record Taken (q : FiniteQueue) (x : List ℕ) (xs : List (List ℕ)) : Type 0 where
  pub after : FiniteQueue
  pub taken : take_first q ≡ ok x after
  pub valid : IsValid (record after { has_data = not (length (contents after.queue) == 0) })
  pub blocks : view after ≡ xs
  pub same_flag : after.has_data ≡ q.has_data
  pub same_capacity : after.queue.max_capacity ≡ q.queue.max_capacity
  pub same_size : after.buffer_size ≡ q.buffer_size

pub take_first-Taken :
    (q : FiniteQueue) (d : DescrT) (ds : List DescrT)
    → IsValid q
    → contents q.queue ≡ d ∷ ds
    → Taken q (payload q.buffer_space d) (payloads q.buffer_space ds)
unfolding take_first
take_first-Taken q d ds v first = record {
  after = record q { queue = p.after; free_list = f.after };
  taken = simp (p.popped, f.pushed) refl;
  valid = freed-IsValid d (record q { queue = p.after }) h f;
  blocks = ap (payloads q.buffer_space) p.left;
  same_flag = refl;
  same_capacity = p.capacity;
  same_size = refl;
}
  where
    p : Popped q.queue d ds
    p = pop-Popped q.queue d ds v.queue_ring first

    h : Holds d (record q { queue = p.after })
    h = front-Holds q d ds v first p

    f : Pushed q.free_list (record d { len = 0 })
    f =
        push-Pushed q.free_list (record d { len = 0 }) v.free_ring
          (room_free d (record q { queue = p.after }) h)

pub length-view : (q : FiniteQueue) → length (view q) ≡ length (contents q.queue)
length-view q = length-payloads q.buffer_space (contents q.queue)

-- A push into a queue with room takes the first free buffer.
pub append-Returns :
    (q : FiniteQueue) (bs : List ℕ)
    → IsValid q
    → 0 < length bs
    → length bs ≤ q.buffer_size
    → length (contents q.queue) ≢ q.queue.max_capacity
    → Returns q ((on_free_list RingBuffer.pop >>= fill_buffer bs) q) pushed (view q ++ (bs ∷ []))
append-Returns q bs v filled small room =
    let few : length (contents q.queue) < q.queue.max_capacity = omega (
      arith,
      room,
      v.queue_ring.at_most,
      length-window q.queue.the_ring q.queue.max_ring_buffer_elements q.queue.next_out
          q.queue.current_number_elements,
    ) in
    let (d, ds, first) =
      first_of (contents q.free_list) (omega (arith, v.balanced, few, v.queue_capacity)) in
    let p = pop-Popped q.free_list d ds v.free_ring first in
    let r =
      fill_buffer-Returns (record q { free_list = p.after }) d bs (free-Holds q d ds v first few p)
        filled small in
    record {
      after = r.after;
      returned = simp p.popped r.returned;
      valid = r.valid;
      blocks = r.blocks;
      same_capacity = r.same_capacity;
      same_size = r.same_size;
    }

-- A forced push into a full queue takes the buffer in front.
pub force-Returns :
    (q : FiniteQueue) (bs : List ℕ)
    → IsValid q
    → 0 < length bs
    → length bs ≤ q.buffer_size
    → 0 < length (contents q.queue)
    → Returns q
        ((on_queue RingBuffer.pop >>= fill_buffer bs) q)
        pushed
        (drop 1 (view q) ++ (bs ∷ []))
force-Returns q bs v filled small full =
    let (d, ds, first) = first_of (contents q.queue) full in
    let p = pop-Popped q.queue d ds v.queue_ring first in
    let r =
      fill_buffer-Returns (record q { queue = p.after }) d bs (front-Holds q d ds v first p) filled
        small in
    record {
      after = r.after;
      returned = simp p.popped r.returned;
      valid = r.valid;
      blocks =
          r.blocks
          ∙ ap (λ xs. payloads q.buffer_space xs ++ (bs ∷ [])) p.left
          ∙ sym (ap (λ xs. drop 1 (payloads q.buffer_space xs) ++ (bs ∷ [])) first);
      same_capacity = r.same_capacity ∙ p.capacity;
      same_size = r.same_size;
    }

-- The flag is cleared when the block that leaves was the last.
pub empty_buffer-Returns :
    (q : FiniteQueue)
    → IsValid q
    → q.has_data ≡ true
    → (x : List ℕ) (xs : List (List ℕ)) → Taken q x xs
    → Returns q
        (empty_buffer q)
        (record { timed_out = false; further_entries = not (length xs == 0); handled = some x })
        xs
unfolding empty_buffer
empty_buffer-Returns q v flag x xs t = record {
  after = record t.after { has_data = not (length (contents t.after.queue) == 0) };
  returned =
      simp (t.taken, is_empty_lem t.after.queue)
        (elim (Bool-cases (length (contents t.after.queue) == 0)) [
          | inl last ↦ simp (last, none_left last) refl
          | inr more ↦ simp (more, some_left more, sym (t.same_flag ∙ flag)) refl
        ]);
  valid = t.valid;
  blocks = t.blocks;
  same_capacity = t.same_capacity;
  same_size = t.same_size;
}
  where
    counted : length xs ≡ length (contents t.after.queue)
    counted = ap length (sym t.blocks) ∙ length-view t.after

    none_left : (length (contents t.after.queue) == 0) ≡ true → (length xs == 0) ≡ true
    none_left last = ap (λ n. n == 0) counted ∙ last

    some_left : (length (contents t.after.queue) == 0) ≡ false → (length xs == 0) ≡ false
    some_left more = ap (λ n. n == 0) counted ∙ more

-- A call that changes nothing, and one whose result is wrapped.
pub stays-Returns :
    {A : Type 0} (q : FiniteQueue) (a : A) → IsValid q → Returns q (ok a q) a (view q)
stays-Returns q a v = record {
  after = q;
  returned = refl;
  valid = v;
  blocks = refl;
  same_capacity = refl;
  same_size = refl;
}

pub map-Returns :
    {A B : Type 0} (q : FiniteQueue) (o : Outcome FiniteQueue A) (f : A → B) (a : A)
    (xs : List (List ℕ))
    → Returns q o a xs
    → Returns q (continue o λ r. pure (f r)) (f a) xs
map-Returns q o f a xs r = record {
  after = r.after;
  returned = rw r.returned refl;
  valid = r.valid;
  blocks = r.blocks;
  same_capacity = r.same_capacity;
  same_size = r.same_size;
}

-- The block in front is shown, and stays.
pub peek_buffer-Returns :
    (q : FiniteQueue) (d : DescrT) (ds : List DescrT)
    → IsValid q
    → contents q.queue ≡ d ∷ ds
    → Returns q
        (peek_buffer q)
        (record {
          timed_out = false;
          further_entries = false;
          handled = some (payload q.buffer_space d);
        })
        (view q)
unfolding peek_buffer
peek_buffer-Returns q d ds v first = record {
  after = q;
  returned = simp (peek-first q.queue d ds v.queue_ring first) refl;
  valid = v;
  blocks = refl;
  same_capacity = refl;
  same_size = refl;
}
