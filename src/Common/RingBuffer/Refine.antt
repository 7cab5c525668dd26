-- ===== src/Common/RingBuffer/Refine.antt =====
-- A ring buffer behaves as the bounded queue of the elements that it holds.
use dcp_vardis.Prelude.{
  ℕ, zero, suc, ◌+◌, ◌-◌, ◌%◌, ◌≤◌, ◌<◌, ◌≡◌, ◌≢◌, refl, sym, ap, ◌∙◌, List, [], ◌∷◌, ◌++◌, arith,
  length, if◌then◌else◌, ◌==◌, update, ==_refl,
}
use mathlib.Core.Path.{ap₂}
use native.Mathlib.Nat.{mod-add-mod, mod-eq_of_lt, mod-eq-sub-mod, add-zero}
use native.Mathlib.Decide.{dec_lt}
use dcp_vardis.Prelude.Effect.{
  Outcome, Exec, Void, ok, throw, ring_buffer_exception, pure, raise, modify,
}
use dcp_vardis.Common.RingBuffer.{RingBuffer, push, pop, peek}

-- Fewer steps round the array than it has places do not come back to the start.
round-ne : {size i k : ℕ} → i < size → suc k < size → (i + suc k) % size ≢ i
round-ne {size} {i} {k} inside few = elim (dec_lt (i + suc k) size) [
  | yes p ↦ omega (arith, mod-eq_of_lt p)
  | no p ↦ omega (
    arith,
    mod-eq-sub-mod {n = i + suc k} {m = size} (omega arith),
    mod-eq_of_lt {n = i + suc k - size} {m = size} (omega arith),
  )
]

-- A step from the end, or at the start, makes the stretch longer by one.
step_behind : (size i n : ℕ) → ((i + n) % size + 1) % size ≡ (i + (n + 1)) % size
step_behind size i n = rw mod-add-mod (ap (λ k. k % size) (omega arith))

step_ahead : (size i n : ℕ) → ((i + 1) % size + n) % size ≡ (i + (n + 1)) % size
step_ahead size i n = rw mod-add-mod (ap (λ k. k % size) (omega arith))

-- The bounded queue: a list with the front first, and the number of elements that it may hold.
module _ {A : Type 0} where
  unfoldable pub enqueue : ℕ → A → Exec (List A) Void
  enqueue cap x xs =
      if length xs == cap then raise ring_buffer_exception xs else modify (λ xs. xs ++ (x ∷ [])) xs

  unfoldable pub dequeue : Exec (List A) A
  dequeue [] = raise ring_buffer_exception []
  dequeue (x ∷ xs) = ok x xs

  unfoldable pub queue_front : Exec (List A) A
  queue_front [] = raise ring_buffer_exception []
  queue_front (x ∷ xs) = pure x (x ∷ xs)

  -- The `n` elements from index `i` on, going round after `size` places.
  abbrev pub window : (ℕ → A) → ℕ → ℕ → ℕ → List A
  window ring size i zero = []
  window ring size i (suc n) = ring i ∷ window ring size ((i + 1) % size) n

  abbrev pub contents : RingBuffer A → List A
  contents r = window r.the_ring r.max_ring_buffer_elements r.next_out r.current_number_elements

  -- The indices are in the array, the capacity is below its size, and the elements lie between
  -- the two indices.
  pub record IsValid (r : RingBuffer A) : Type 0 where
    pub some_capacity : 0 < r.max_capacity
    pub capacity_small : r.max_capacity < r.max_ring_buffer_elements
    pub at_most : r.current_number_elements ≤ r.max_capacity
    pub out_inside : r.next_out < r.max_ring_buffer_elements
    pub in_behind :
        r.next_in ≡ (r.next_out + r.current_number_elements) % r.max_ring_buffer_elements

  pub length-window : (ring : ℕ → A) (size i n : ℕ) → length (window ring size i n) ≡ n
  length-window ring size i zero = refl
  length-window ring size i (suc n) = ap suc (length-window ring size ((i + 1) % size) n)

  update_self : (f : ℕ → A) (i : ℕ) (x : A) → update f i x i ≡ x
  update_self f i x = ground (arith, ==_refl i)

  update_other : (f : ℕ → A) (i j : ℕ) (x : A) → i ≢ j → update f i x j ≡ f j
  update_other f i j x h = ground arith

  -- Writing just behind a window extends it.
  window-update :
      (ring : ℕ → A) (size i n j : ℕ) (x : A)
      → i < size
      → n < size
      → j ≡ (i + n) % size
      → window (update ring j x) size i (suc n) ≡ window ring size i n ++ (x ∷ [])
  window-update ring size i zero j x inside few e =
      let here : j ≡ i = e ∙ ap (λ k. k % size) (add-zero i) ∙ mod-eq_of_lt inside in
      rw (here, update_self ring i x) refl
  window-update ring size i (suc n) j x inside few e =
      ap₂ ◌∷◌ (update_other ring j i x (λ h. round-ne inside few (sym e ∙ h))) (
        window-update ring size ((i + 1) % size) n j x (omega arith) (omega arith)
          (e ∙ ap (λ k. k % size) (omega arith) ∙ sym (step_ahead size i n)))

  -- The outcome of an operation on the ring, seen as one on its contents.
  abbrev pub observe : {B : Type 0} → Outcome (RingBuffer A) B → Outcome (List A) B
  observe (ok b r) = ok b (contents r)
  observe (throw e r) = throw e (contents r)

  -- Both outcomes leave a valid ring.
  abbrev pub LeavesValid : {B : Type 0} → Outcome (RingBuffer A) B → Type 0
  LeavesValid (ok b r) = IsValid r
  LeavesValid (throw e r) = IsValid r

  -- An exception leaves the ring valid as well.
  pub push-LeavesValid : (r : RingBuffer A) (x : A) → IsValid r → LeavesValid (push x r)
  unfolding push
  push-LeavesValid r x v = ground (
    arith,
    v.in_behind,
    step_behind r.max_ring_buffer_elements r.next_out r.current_number_elements,
  )

  pub pop-LeavesValid : (r : RingBuffer A) → IsValid r → LeavesValid (pop r)
  unfolding pop
  pop-LeavesValid r v = ground (
    arith,
    v.in_behind,
    step_ahead r.max_ring_buffer_elements r.next_out (r.current_number_elements - 1),
  )

  window-pred :
      (ring : ℕ → A) (size i n : ℕ)
      → n ≢ 0
      → window ring size i n ≡ ring i ∷ window ring size ((i + 1) % size) (n - 1)
  window-pred ring size i zero h = absurd (h refl)
  window-pred ring size i (suc n) h = ap (λ k. window ring size i (suc k)) (omega arith)

  -- `push` is `enqueue` on the contents, in its status and in what it leaves.
  pub push_refines :
      (r : RingBuffer A) (x : A)
      → IsValid r
      → observe (push x r) ≡ enqueue r.max_capacity x (contents r)
  unfolding push enqueue
  push_refines r x v = ground (
    arith,
    length-window r.the_ring r.max_ring_buffer_elements r.next_out r.current_number_elements,
    window-update r.the_ring r.max_ring_buffer_elements r.next_out r.current_number_elements
        r.next_in x v.out_inside (omega (arith, v.at_most, v.capacity_small)) v.in_behind,
  )

  pub pop_refines : (r : RingBuffer A) → IsValid r → observe (pop r) ≡ dequeue (contents r)
  unfolding pop dequeue
  pop_refines r v = ground (
    arith,
    window-pred r.the_ring r.max_ring_buffer_elements r.next_out r.current_number_elements,
  )

  pub peek_refines : (r : RingBuffer A) → IsValid r → observe (peek r) ≡ queue_front (contents r)
  unfolding peek queue_front
  peek_refines r v = ground (
    arith,
    window-pred r.the_ring r.max_ring_buffer_elements r.next_out r.current_number_elements,
  )

  pub peek-first :
      (r : RingBuffer A) (x : A) (xs : List A) → IsValid r → contents r ≡ x ∷ xs → peek r ≡ ok x r
  unfolding peek
  peek-first r x xs v e = ground (arith, filled, pred, e)
    where
      filled : r.current_number_elements ≢ 0
      filled = omega (
        arith,
        length-window r.the_ring r.max_ring_buffer_elements r.next_out r.current_number_elements,
        ap length e,
      )

      pred :
          contents r
          ≡ r.the_ring r.next_out
            ∷ window r.the_ring r.max_ring_buffer_elements
                ((r.next_out + 1) % r.max_ring_buffer_elements)
                (r.current_number_elements - 1)
      pred =
          window-pred r.the_ring r.max_ring_buffer_elements r.next_out r.current_number_elements
            filled

  -- What `pop` does to a ring whose contents are known, and `push` to one with room.
  pub record Popped (r : RingBuffer A) (x : A) (xs : List A) : Type 0 where
    pub after : RingBuffer A
    pub popped : pop r ≡ ok x after
    pub left : contents after ≡ xs
    pub valid : IsValid after
    pub capacity : after.max_capacity ≡ r.max_capacity

  pub pop-Popped :
      (r : RingBuffer A) (x : A) (xs : List A) → IsValid r → contents r ≡ x ∷ xs → Popped r x xs
  unfolding pop
  pop-Popped r x xs v e = record {
    after = record r {
      next_out = (r.next_out + 1) % r.max_ring_buffer_elements;
      current_number_elements = r.current_number_elements - 1;
    };
    popped = ground (arith, some, pred, e);
    left = ground (arith, some, pred, e);
    valid = ground (
      arith,
      some,
      v.in_behind,
      step_ahead r.max_ring_buffer_elements r.next_out (r.current_number_elements - 1),
    );
    capacity = refl;
  }
    where
      some : r.current_number_elements ≢ 0
      some = omega (
        arith,
        length-window r.the_ring r.max_ring_buffer_elements r.next_out r.current_number_elements,
        ap length e,
      )

      pred :
          contents r
          ≡ r.the_ring r.next_out
            ∷ window r.the_ring r.max_ring_buffer_elements
                ((r.next_out + 1) % r.max_ring_buffer_elements)
                (r.current_number_elements - 1)
      pred =
          window-pred r.the_ring r.max_ring_buffer_elements r.next_out r.current_number_elements
            some

  pub record Pushed (r : RingBuffer A) (x : A) : Type 0 where
    pub after : RingBuffer A
    pub pushed : push x r ≡ ok tt after
    pub added : contents after ≡ contents r ++ (x ∷ [])
    pub valid : IsValid after
    pub capacity : after.max_capacity ≡ r.max_capacity

  pub push-Pushed :
      (r : RingBuffer A) (x : A) → IsValid r → length (contents r) < r.max_capacity → Pushed r x
  unfolding push
  push-Pushed r x v room = record {
    after = record r {
      the_ring = update r.the_ring r.next_in x;
      next_in = (r.next_in + 1) % r.max_ring_buffer_elements;
      current_number_elements = r.current_number_elements + 1;
    };
    pushed = ground (arith, few);
    added = extended;
    valid = ground (
      arith,
      few,
      v.in_behind,
      step_behind r.max_ring_buffer_elements r.next_out r.current_number_elements,
    );
    capacity = refl;
  }
    where
      few : r.current_number_elements < r.max_capacity
      few = omega (
        arith,
        room,
        length-window r.the_ring r.max_ring_buffer_elements r.next_out r.current_number_elements,
      )

      extended :
          window
            (update r.the_ring r.next_in x)
            r.max_ring_buffer_elements
            r.next_out
            (r.current_number_elements + 1)
          ≡ contents r ++ (x ∷ [])
      extended =
          ap (window (update r.the_ring r.next_in x) r.max_ring_buffer_elements r.next_out)
            {y = suc r.current_number_elements} (omega arith)
          ∙ window-update r.the_ring r.max_ring_buffer_elements r.next_out r.current_number_elements
              r.next_in x v.out_inside (omega (arith, few, v.capacity_small)) v.in_behind
