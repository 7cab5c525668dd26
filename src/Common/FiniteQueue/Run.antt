-- ===== src/Common/FiniteQueue/Run.antt =====
-- Sequences of the calls of the shared-memory queue that do not wait, against a bounded queue of
-- blocks.
use dcp_vardis.Prelude.{
  ℕ, ◌≤◌, ◌<◌, ◌≡◌, ◌≢◌, inl, inr, refl, sym, ap, subst, ◌∙◌, ◌⊎◌, Bool, Bool-cases, true, false,
  not, List, [], ◌∷◌, ◌++◌, length, drop, arith, ◌==◌, if◌then◌else◌, Option, some,
}
use mathlib.Core.Path.{ap₂}
use dcp_vardis.Prelude.Effect.{Outcome, Exec, ok, pure, ◌>>=◌, continue}
use dcp_vardis.Common.RingBuffer.Refine.{contents, length-window}
use dcp_vardis.Common.FiniteQueue.{
  DescrT, FiniteQueue, PushResult, PopResult, pushed, nothing_popped, push_nowait, push_wait,
  push_wait_force, pop_nowait, peek_nowait, popall_nowait, empty_buffer, peek_buffer, drain_all,
}
use dcp_vardis.Common.FiniteQueue.Valid.{IsValid, view, payload, payloads}
use dcp_vardis.Common.FiniteQueue.Refine.{
  stays-Returns, map-Returns, Returns, append-Returns, force-Returns, take_first-Taken,
  empty_buffer-Returns, peek_buffer-Returns, length-view,
}
use dcp_vardis.Common.FiniteQueue.Drain.{drain_all-Returns, suc_test}

-- The calls, and what they return.
pub data Op : Type 0 where
  append force : List ℕ → Op
  take_one look take_all : Op

pub data Answer : Type 0 where
  push_answer : PushResult → Answer
  pop_answer : PopResult → Answer
  all_answer : Option (List (List ℕ)) → Answer

-- The handlers write something, and no more than a buffer holds.
abbrev pub Fitting : ℕ → Op → Type 0
Fitting size (append bs) = (0 < length bs) × (length bs ≤ size)
Fitting size (force bs) = (0 < length bs) × (length bs ≤ size)
Fitting size take_one = Unit {0}
Fitting size look = Unit {0}
Fitting size take_all = Unit {0}

abbrev pub AllFitting : ℕ → List Op → Type 0
AllFitting size [] = Unit {0}
AllFitting size (op ∷ ops) = Fitting size op × AllFitting size ops

-- A call whose lock is free.
unfoldable pub step : ℕ → Op → Exec FiniteQueue Answer
step ms (append bs) = do r ← push_nowait ms true bs; pure (push_answer r)
step ms (force bs) = do r ← push_wait_force ms true bs; pure (push_answer r)
step ms take_one = do r ← pop_nowait ms true; pure (pop_answer r)
step ms look = do r ← peek_nowait ms true; pure (pop_answer r)
step ms take_all = do r ← popall_nowait ms true; pure (all_answer r)

unfoldable pub run : ℕ → List Op → Exec FiniteQueue (List Answer)
run ms [] = pure []
run ms (op ∷ ops) = do a ← step ms op; rest ← run ms ops; pure (a ∷ rest)

unfoldable pub block_step : ℕ → Op → List (List ℕ) → Answer × List (List ℕ)
block_step most (append bs) xs =
    if length xs == most
    then (push_answer (record { timed_out = false; is_full = true }), xs)
    else (push_answer pushed, xs ++ (bs ∷ []))
block_step most (force bs) xs =
    (push_answer pushed, (if length xs == most then drop 1 xs else xs) ++ (bs ∷ []))
block_step most take_one [] = (pop_answer nothing_popped, [])
block_step most take_one (x ∷ xs) = (
  pop_answer
      (record { timed_out = false; further_entries = not (length xs == 0); handled = some x }),
  xs,
)
block_step most look [] = (pop_answer nothing_popped, [])
block_step most look (x ∷ xs) =
    (pop_answer (record { timed_out = false; further_entries = false; handled = some x }), x ∷ xs)
block_step most take_all xs = (all_answer (some xs), [])

unfoldable pub block_run : ℕ → List Op → List (List ℕ) → List Answer
block_run most [] xs = []
block_run most (op ∷ ops) xs = let (a, xs') = block_step most op xs in a ∷ block_run most ops xs'

counted : (q : FiniteQueue) → q.queue.current_number_elements ≡ length (contents q.queue)
counted q = sym (
    length-window q.queue.the_ring q.queue.max_ring_buffer_elements q.queue.next_out
      q.queue.current_number_elements)

tested :
    (q : FiniteQueue) {b : Bool}
    → (length (contents q.queue) == q.queue.max_capacity) ≡ b
    → (q.queue.current_number_elements == q.queue.max_capacity) ≡ b
tested q e = ap (λ n. n == q.queue.max_capacity) (counted q) ∙ e

module _ (q : FiniteQueue) (ms : ℕ) (v : IsValid q) (on : ms ≢ 0) where
  timed : (ms == 0) ≡ false
  timed = ground (arith, on)

  abbrev StepReturns : Op → Type 0
  StepReturns op =
      Returns q (step ms op q) (block_step q.queue.max_capacity op (view q)).0
        (block_step q.queue.max_capacity op (view q)).1

  append-StepReturns :
      (bs : List ℕ) → 0 < length bs → length bs ≤ q.buffer_size → StepReturns (append bs)
  unfolding step block_step push_nowait
  append-StepReturns bs filled small =
      elim (Bool-cases (length (contents q.queue) == q.queue.max_capacity)) [
        | inl full ↦
            simp (timed, tested q full, length-view q, full)
              (stays-Returns q (push_answer (record { timed_out = false; is_full = true })) v)
        | inr room ↦
            simp (timed, tested q room, length-view q, room)
              (map-Returns q _ push_answer pushed (view q ++ (bs ∷ []))
                (append-Returns q bs v filled small (λ e. ground (arith, e, room))))
      ]

  pub push_wait_force-Returns :
      (bs : List ℕ)
      → 0 < length bs
      → length bs ≤ q.buffer_size
      → Returns q (push_wait_force ms true bs q) pushed (
          (if length (view q) == q.queue.max_capacity then drop 1 (view q) else view q)
          ++ (bs ∷ []))
  unfolding push_wait_force
  push_wait_force-Returns bs filled small =
      elim (Bool-cases (length (contents q.queue) == q.queue.max_capacity)) [
        | inl full ↦
            simp (timed, tested q full, length-view q, full)
              (force-Returns q bs v filled small (ground (arith, full, v.queue_ring.some_capacity)))
        | inr room ↦
            simp (timed, tested q room, length-view q, room)
              (append-Returns q bs v filled small (λ e. ground (arith, e, room)))
      ]

  force-StepReturns :
      (bs : List ℕ) → 0 < length bs → length bs ≤ q.buffer_size → StepReturns (force bs)
  unfolding step block_step
  force-StepReturns bs filled small =
      map-Returns q (push_wait_force ms true bs q) push_answer pushed _
        (push_wait_force-Returns bs filled small)

  -- Whether the queue has data is whether it has a first block.
  first_case :
      ((q.has_data ≡ false) × (contents q.queue ≡ []))
      ⊎ ((q.has_data ≡ true) × (d : DescrT) × (ds : List DescrT) × (contents q.queue ≡ d ∷ ds))
  first_case = go (contents q.queue) refl
    where
      go :
          (xs : List DescrT)
          → contents q.queue ≡ xs
          → ((q.has_data ≡ false) × (contents q.queue ≡ []))
            ⊎ ((q.has_data ≡ true)
                × (d : DescrT) × (ds : List DescrT) × (contents q.queue ≡ d ∷ ds))
      go [] e = inl (v.flag ∙ ap (λ xs. not (length xs == 0)) e, e)
      go (d ∷ ds) e =
          inr (v.flag ∙ ap (λ xs. not (length xs == 0)) e ∙ ap not (suc_test (length ds)), d, ds, e)

  -- A push that need not wait.
  pub push_wait-Returns :
      (wake : Option FiniteQueue) (bs : List ℕ)
      → q.has_data ≡ false
      → 0 < length bs
      → length bs ≤ q.buffer_size
      → Returns q (push_wait ms true wake bs q) pushed (view q ++ (bs ∷ []))
  unfolding push_wait
  push_wait-Returns wake bs flag filled small =
      simp (timed, flag)
        (append-Returns q bs v filled small
          (λ e. ground (arith, e, v.flag, flag, v.queue_ring.some_capacity)))

  take_one-StepReturns : StepReturns take_one
  unfolding step block_step pop_nowait
  take_one-StepReturns = elim first_case [
    | inl (flag, none_left) ↦
        simp (timed, flag, none_left)
          (subst (Returns q (ok (pop_answer nothing_popped) q) (pop_answer nothing_popped))
            (ap (payloads q.buffer_space) none_left)
            (stays-Returns q (pop_answer nothing_popped) v))
    | inr (flag, d, ds, first) ↦
        simp (timed, flag, first)
          (map-Returns q (empty_buffer q) pop_answer _ (payloads q.buffer_space ds) (
            empty_buffer-Returns q v flag (payload q.buffer_space d) (payloads q.buffer_space ds)
              (take_first-Taken q d ds v first)))
  ]

  look-StepReturns : StepReturns look
  unfolding step block_step peek_nowait
  look-StepReturns = elim first_case [
    | inl (flag, none_left) ↦
        simp (timed, flag, none_left)
          (subst (Returns q (ok (pop_answer nothing_popped) q) (pop_answer nothing_popped))
            (ap (payloads q.buffer_space) none_left)
            (stays-Returns q (pop_answer nothing_popped) v))
    | inr (flag, d, ds, first) ↦
        simp (timed, flag, first)
          (subst (Returns q (continue (peek_buffer q) λ r. pure (pop_answer r)) _)
            (ap (payloads q.buffer_space) first)
            (map-Returns q (peek_buffer q) pop_answer _ (view q)
              (peek_buffer-Returns q d ds v first)))
  ]

  take_all-StepReturns : StepReturns take_all
  unfolding step block_step popall_nowait
  take_all-StepReturns = elim first_case [
    | inl (flag, none_left) ↦
        simp (timed, flag, none_left)
          (subst (Returns q (ok (all_answer (some [])) q) (all_answer (some [])))
            (ap (payloads q.buffer_space) none_left) (stays-Returns q (all_answer (some [])) v))
    | inr (flag, d, ds, first) ↦
        simp (timed, flag)
          (map-Returns q (drain_all q) all_answer (some (view q)) [] (drain_all-Returns q v flag))
  ]

  step-StepReturns : (op : Op) → Fitting q.buffer_size op → StepReturns op
  step-StepReturns (append bs) f = append-StepReturns bs f.0 f.1
  step-StepReturns (force bs) f = force-StepReturns bs f.0 f.1
  step-StepReturns take_one f = take_one-StepReturns
  step-StepReturns look f = look-StepReturns
  step-StepReturns take_all f = take_all-StepReturns

-- What a run has to return, and the queue that it leaves.
pub record RunReturns (q : FiniteQueue) (o : Outcome FiniteQueue (List Answer))
    (answers : List Answer) : Type 0 where
  pub after : FiniteQueue
  pub returned : o ≡ ok answers after
  pub valid : IsValid after

run_more :
    (ms : ℕ) (op : Op) (ops : List Op) (q q' q'' : FiniteQueue) (a : Answer) (rest : List Answer)
    → step ms op q ≡ ok a q'
    → run ms ops q' ≡ ok rest q''
    → run ms (op ∷ ops) q ≡ ok (a ∷ rest) q''
unfolding run
run_more ms op ops q q' q'' a rest e f = rw (e, f) refl

-- Any sequence of the calls push_nowait, push_wait_force, pop_nowait, peek_nowait and popall_nowait
-- on a valid queue returns, answers as a bounded queue of byte blocks with the same capacity does,
-- and leaves the shared-memory queue valid. Every call obtains the lock, the time-out is not zero,
-- and each push handler writes at least a byte and at most a buffer.
pub run-Returns :
    (ms : ℕ) (ops : List Op) (q : FiniteQueue)
    → IsValid q
    → ms ≢ 0
    → AllFitting q.buffer_size ops
    → RunReturns q (run ms ops q) (block_run q.queue.max_capacity ops (view q))
unfolding run block_run
run-Returns ms [] q v on fits = record { after = q; returned = refl; valid = v }
run-Returns ms (op ∷ ops) q v on fits =
    let r = step-StepReturns q ms v on op fits.0 in
    let rest =
      run-Returns ms ops r.after r.valid on
        (subst (λ n. AllFitting n ops) (sym r.same_size) fits.1) in
    record {
      after = rest.after;
      returned =
          run_more ms op ops q r.after rest.after _ _ r.returned rest.returned
          ∙ ap₂
              (λ n xs.
                ok ((block_step q.queue.max_capacity op (view q)).0 ∷ block_run n ops xs)
                  rest.after)
              r.same_capacity r.blocks;
      valid = rest.valid;
    }
