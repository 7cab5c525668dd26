-- ===== src/Common/FiniteQueue/Drain.antt =====
-- The popall calls hand over every block in the queue.
use dcp_vardis.Prelude.{
  ℕ, zero, suc, ◌-◌, ◌≢◌, ◌≡◌, refl, sym, ap, subst, ◌∙◌, true, false, not, List, [], ◌∷◌, length,
  arith, ◌==◌, some,
}
use dcp_vardis.Prelude.Effect.{ok, pure, ◌>>=◌, ◌>>◌, continue, modify}
use dcp_vardis.Common.RingBuffer.{is_empty}
use dcp_vardis.Common.RingBuffer.Refine.{contents, length-window}
use dcp_vardis.Common.FiniteQueue.{DescrT, FiniteQueue, take_first, drain, drain_all}
use dcp_vardis.Common.FiniteQueue.Valid.{
  IsValid, view, payload, payloads, length-payloads, is_empty_lem,
}
use dcp_vardis.Common.FiniteQueue.Refine.{Returns, Taken, first_of, length-view, take_first-Taken}

-- What the loop of `n` rounds does to a queue of `n` blocks.
record Drained (q : FiniteQueue) (n : ℕ) : Type 0 where
  after : FiniteQueue
  drained : drain n q ≡ ok (view q) after
  valid : IsValid (record after { has_data = false })
  blocks : view after ≡ []
  same_capacity : after.queue.max_capacity ≡ q.queue.max_capacity
  same_size : after.buffer_size ≡ q.buffer_size

pub suc_test : (n : ℕ) → (suc n == 0) ≡ false
suc_test n = ground arith

-- While blocks are left, the flag is right.
still_valid :
    (q : FiniteQueue) (n : ℕ)
    → q.has_data ≡ true
    → length (contents q.queue) ≡ suc n
    → IsValid (record q { has_data = not (length (contents q.queue) == 0) })
    → IsValid q
still_valid q n flag more v =
    subst (λ b. IsValid (record q { has_data = b }))
      (ap (λ k. not (k == 0)) more ∙ ap not (suc_test n) ∙ sym flag) v

not_empty : (q : FiniteQueue) (n : ℕ) → length (contents q.queue) ≡ suc n → is_empty q.queue ≡ false
not_empty q n more = is_empty_lem q.queue ∙ ap (λ k. k == 0) more ∙ suc_test n

-- The last block leaves.
drain_more :
    (q : FiniteQueue) (n : ℕ) (x : List ℕ) (xs : List (List ℕ)) (q' q'' : FiniteQueue)
    → is_empty q.queue ≡ false
    → take_first q ≡ ok x q'
    → drain n q' ≡ ok xs q''
    → drain (suc n) q ≡ ok (x ∷ xs) q''
unfolding drain
drain_more q n x xs q' q'' filled taken rest = simp (filled, taken, rest) refl

last-Drained :
    (q : FiniteQueue) (x : List ℕ) (xs : List (List ℕ))
    → length (contents q.queue) ≡ 1
    → view q ≡ x ∷ xs
    → (t : Taken q x xs) → xs ≡ []
    → Drained q 1
unfolding drain
last-Drained q x xs one seen t none_left = record {
  after = t.after;
  drained = simp (not_empty q 0 one, t.taken, seen, none_left) refl;
  valid =
      subst (λ b. IsValid (record t.after { has_data = b }))
        (ap (λ k. not (k == 0)) (sym (length-view t.after) ∙ ap length (t.blocks ∙ none_left)))
        t.valid;
  blocks = t.blocks ∙ none_left;
  same_capacity = t.same_capacity;
  same_size = t.same_size;
}

-- A block leaves, and then the others.
next-Drained :
    (q : FiniteQueue) (n : ℕ) (x : List ℕ) (xs : List (List ℕ))
    → length (contents q.queue) ≡ suc (suc n)
    → view q ≡ x ∷ xs
    → (t : Taken q x xs) → Drained t.after (suc n)
    → Drained q (suc (suc n))
next-Drained q n x xs more seen t rest = record {
  after = rest.after;
  drained = step ∙ ap (λ ys. ok ys rest.after) (ap (λ ys. x ∷ ys) t.blocks ∙ sym seen);
  valid = rest.valid;
  blocks = rest.blocks;
  same_capacity = rest.same_capacity ∙ t.same_capacity;
  same_size = rest.same_size ∙ t.same_size;
}
  where
    step : drain (suc (suc n)) q ≡ ok (x ∷ view t.after) rest.after
    step =
        drain_more q (suc n) x (view t.after) t.after rest.after (not_empty q (suc n) more) t.taken
          rest.drained

drain-Drained :
    (n : ℕ) (q : FiniteQueue)
    → IsValid q
    → q.has_data ≡ true
    → length (contents q.queue) ≡ suc n
    → Drained q (suc n)
drain-Drained zero q v flag more =
    let (d, ds, first) = first_of (contents q.queue) (omega (arith, more)) in
    last-Drained q (payload q.buffer_space d) (payloads q.buffer_space ds) more
      (ap (payloads q.buffer_space) first) (take_first-Taken q d ds v first)
      (ap (payloads q.buffer_space) (no_tail ds (omega (arith, ap length first, more))))
  where
    no_tail : (ds : List DescrT) → length ds ≡ 0 → ds ≡ []
    no_tail [] e = refl
    no_tail (x ∷ xs) e = absurd (omega (arith, e))
drain-Drained (suc n) q v flag more =
    let (d, ds, first) = first_of (contents q.queue) (omega (arith, more)) in
    let t = take_first-Taken q d ds v first in
    let left : length (contents t.after.queue) ≡ suc n =
      sym (length-view t.after)
      ∙ ap length t.blocks
      ∙ length-payloads q.buffer_space ds
      ∙ omega (arith, ap length first, more) in
    next-Drained q n (payload q.buffer_space d) (payloads q.buffer_space ds) more
      (ap (payloads q.buffer_space) first) t
      (drain-Drained n t.after (still_valid t.after n (t.same_flag ∙ flag) left t.valid)
        (t.same_flag ∙ flag) left)

drain_all_lem :
    (q q' : FiniteQueue) (n : ℕ) (xs : List (List ℕ))
    → q.queue.current_number_elements ≡ n
    → drain n q ≡ ok xs q'
    → drain_all q ≡ ok (some xs) (record q' { has_data = false })
unfolding drain_all
drain_all_lem q q' n xs counted done =
    ap
      (λ n. ((drain n >>= λ all. modify (λ q. record q { has_data = false }) >> pure (some all)) q))
      counted
    ∙ ap (λ o. continue o λ all. modify (λ q. record q { has_data = false }) >> pure (some all))
        done

-- The loop of a queue that has data runs as often as there are blocks: it hands over all of them,
-- the first to arrive first, and leaves the queue valid and empty.
pub drain_all-Returns :
    (q : FiniteQueue) → IsValid q → q.has_data ≡ true → Returns q (drain_all q) (some (view q)) []
drain_all-Returns q v flag = record {
  after = record t.after { has_data = false };
  returned = drain_all_lem q t.after _ (view q) counted t.drained;
  valid = t.valid;
  blocks = t.blocks;
  same_capacity = t.same_capacity;
  same_size = t.same_size;
}
  where
    has : length (contents q.queue) ≢ 0
    has e = ground (arith, v.flag, flag, e)

    counted : q.queue.current_number_elements ≡ suc (length (contents q.queue) - 1)
    counted = omega (
      arith,
      length-window q.queue.the_ring q.queue.max_ring_buffer_elements q.queue.next_out
          q.queue.current_number_elements,
      has,
    )

    t : Drained q (suc (length (contents q.queue) - 1))
    t = drain-Drained (length (contents q.queue) - 1) q v flag (omega (arith, has))
