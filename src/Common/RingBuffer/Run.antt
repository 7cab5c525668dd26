-- ===== src/Common/RingBuffer/Run.antt =====
-- Sequences of calls of a ring buffer.
use dcp_vardis.Prelude.{ℕ, ◌≡◌, refl, ap, ◌∙◌, List, [], ◌∷◌, Option, none, some, arith}
use mathlib.Core.Path.{ap₂}
use dcp_vardis.Prelude.Effect.{Error, Outcome, Exec, ok, throw, ◌>>=◌, ◌>>◌, pure, continue, state}
use dcp_vardis.Common.RingBuffer.{RingBuffer, push, pop, peek}
use dcp_vardis.Common.RingBuffer.Refine.{
  enqueue, dequeue, queue_front, contents, observe, IsValid, LeavesValid, push-LeavesValid,
  pop-LeavesValid, push_refines, pop_refines, peek_refines,
}

-- A call.
pub data Op (A : Type 0) : Type 0 where
  put : A → Op A
  take_out look : Op A

-- What a call answers: an element, nothing, or an exception.
pub data Answer (A : Type 0) : Type 0 where
  answered : Option A → Answer A
  failed : Error → Answer A

module _ {A : Type 0} where
  unfoldable pub step : Op A → Exec (RingBuffer A) (Option A)
  step (put x) = do push x; pure none
  step take_out = do x ← pop; pure (some x)
  step look = do x ← peek; pure (some x)

  unfoldable pub queue_step : ℕ → Op A → Exec (List A) (Option A)
  queue_step most (put x) = do enqueue most x; pure none
  queue_step most take_out = do x ← dequeue; pure (some x)
  queue_step most look = do x ← queue_front; pure (some x)

  abbrev pub answer : {S : Type 0} → Outcome S (Option A) → Answer A × S
  answer (ok x s) = (answered x, s)
  answer (throw e s) = (failed e, s)

  -- The answers of a sequence of calls; the next call follows also after an exception.
  unfoldable pub run : List (Op A) → RingBuffer A → List (Answer A)
  run [] r = []
  run (op ∷ ops) r = let (a, r') = answer (step op r) in a ∷ run ops r'

  unfoldable pub queue_run : ℕ → List (Op A) → List A → List (Answer A)
  queue_run most [] xs = []
  queue_run most (op ∷ ops) xs =
      let (a, xs') = answer (queue_step most op xs) in a ∷ queue_run most ops xs'

  -- The outcomes `o` of a ring and `q` of a queue answer the same, and leave the same elements.
  record Agree {B : Type 0} (most : ℕ) (o : Outcome (RingBuffer A) B) (q : Outcome (List A) B)
      : Type 0 where
    same : observe o ≡ q
    valid : LeavesValid o
    capacity : (state o).max_capacity ≡ most

  record StepRefines (most : ℕ) (o : Outcome (RingBuffer A) (Option A))
      (q : Outcome (List A) (Option A)) : Type 0 where
    same_answer : (answer o).0 ≡ (answer q).0
    same_contents : contents (answer o).1 ≡ (answer q).1
    still_valid : IsValid (answer o).1
    same_capacity : (answer o).1.max_capacity ≡ most

  Agree-StepRefines :
      {B : Type 0} (most : ℕ) (f : B → Option A) (o : Outcome (RingBuffer A) B)
      (q : Outcome (List A) B)
      → Agree most o q
      → StepRefines most (continue o λ b. pure (f b)) (continue q λ b. pure (f b))
  Agree-StepRefines most f (ok b r) q a = rw (← a.same) (record {
    same_answer = refl;
    same_contents = refl;
    still_valid = a.valid;
    same_capacity = a.capacity;
  })
  Agree-StepRefines most f (throw e r) q a = rw (← a.same) (record {
    same_answer = refl;
    same_contents = refl;
    still_valid = a.valid;
    same_capacity = a.capacity;
  })

  push-capacity : (r : RingBuffer A) (x : A) → (state (push x r)).max_capacity ≡ r.max_capacity
  unfolding push
  push-capacity r x = ground arith

  pop-capacity : (r : RingBuffer A) → (state (pop r)).max_capacity ≡ r.max_capacity
  unfolding pop
  pop-capacity r = ground arith

  peek-kept : (r : RingBuffer A) → state (peek r) ≡ r
  unfolding peek
  peek-kept r = ground arith

  peek-LeavesValid : (r : RingBuffer A) → IsValid r → LeavesValid (peek r)
  unfolding peek
  peek-LeavesValid r v = ground arith

  step-StepRefines :
      (r : RingBuffer A) (op : Op A)
      → IsValid r
      → StepRefines r.max_capacity (step op r) (queue_step r.max_capacity op (contents r))
  unfolding step queue_step
  step-StepRefines r (put x) v =
      Agree-StepRefines r.max_capacity (λ _. none) (push x r)
        (enqueue r.max_capacity x (contents r))
        (record {
          same = push_refines r x v;
          valid = push-LeavesValid r x v;
          capacity = push-capacity r x;
        })
  step-StepRefines r take_out v =
      Agree-StepRefines r.max_capacity some (pop r) (dequeue (contents r))
        (record { same = pop_refines r v; valid = pop-LeavesValid r v; capacity = pop-capacity r })
  step-StepRefines r look v =
      Agree-StepRefines r.max_capacity some (peek r) (queue_front (contents r)) (record {
        same = peek_refines r v;
        valid = peek-LeavesValid r v;
        capacity = ap (λ s. s.max_capacity) (peek-kept r);
      })

  -- No sequence of calls tells a valid ring buffer from the bounded queue of its contents.
  pub run_refines :
      (ops : List (Op A)) (r : RingBuffer A)
      → IsValid r
      → run ops r ≡ queue_run r.max_capacity ops (contents r)
  unfolding run queue_run
  run_refines [] r v = refl
  run_refines (op ∷ ops) r v =
      let s = step-StepRefines r op v in
      ap₂ ◌∷◌ s.same_answer (
        run_refines ops (answer (step op r)).1 s.still_valid
        ∙ ap₂ (λ c xs. queue_run c ops xs) s.same_capacity s.same_contents)
