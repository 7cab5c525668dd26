-- ===== src/Vardis/Queue/Requeue.antt =====
-- An identifier that is taken from the front of a queue, and put back at the end or not.
use mathlib.Core.List.{append-nil}
use dcp_vardis.Prelude.{
  ℕ, ◌≡◌, sym, ◌∙◌, Bool, true, false, List, [], ◌∷◌, ◌++◌, arith, if◌then◌else◌, ◌==◌,
}
use dcp_vardis.Vardis.Queue.{VarIdQueue, contains, remove, insert}
use dcp_vardis.Vardis.Queue.Laws.{
  IsValid, contains-insert, contains-remove, insert-IsValid, remove-IsValid, pop_front_lem,
}

abbrev pub requeue : Bool → VarIdQueue → ℕ → VarIdQueue
requeue b q v = if b then insert (remove q v) v else remove q v

pub contains-requeue :
    (b : Bool) (q : VarIdQueue) (v w : ℕ)
    → contains (requeue b q v) w ≡ (if v == w then b else contains q w)
contains-requeue b q v w = ground (arith, contains-insert (remove q v) v w, contains-remove q v w)

pub requeue-IsValid : (b : Bool) {q : VarIdQueue} (v : ℕ) → IsValid q → IsValid (requeue b q v)
requeue-IsValid true v h = insert-IsValid v (remove-IsValid v h)
requeue-IsValid false v h = remove-IsValid v h

pub queue-requeue :
    (b : Bool) {q : VarIdQueue} (v : ℕ) (rest : List ℕ)
    → IsValid q
    → q.queue ≡ v ∷ rest
    → (requeue b q v).queue ≡ rest ++ (if b then v ∷ [] else [])
unfolding insert contains
queue-requeue false {q} v rest h e = (pop_front_lem v rest h e).2 ∙ sym (append-nil rest)
queue-requeue true {q} v rest h e =
    ground (arith, (pop_front_lem v rest h e).2, contains-remove q v v)
