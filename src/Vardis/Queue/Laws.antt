-- ===== src/Vardis/Queue/Laws.antt =====
-- VarIdQueue: the set and the deque agree, and what each operation does to both.
use dcp_vardis.Prelude.{
  ℕ, ◌≢◌, ◌≡◌, refl, sym, ◌∙◌, ◌≤◌, ◌<◌, true, false, List, [], ◌∷◌, ◌++◌, inl, inr, arith, length,
  if◌then◌else◌, ◌==◌, Bool-cases,
}
use dcp_vardis.Prelude.Effect.{ok}
use dcp_vardis.Vardis.Queue.{
  VarIdQueue, empty_queue, elem, erase, empty, size, contains, remove, insert, front, pop_front,
}

pub elem-erase :
    (v w : ℕ) (xs : List ℕ) → elem w (erase v xs) ≡ (if v == w then false else elem w xs)
unfolding elem erase
elem-erase v w [] = ground arith
elem-erase v w (x ∷ xs) = ground (arith, elem-erase v w xs)

pub elem-append :
    (v : ℕ) (xs ys : List ℕ) → elem v (xs ++ ys) ≡ (if elem v xs then true else elem v ys)
unfolding elem
elem-append v [] ys = refl
elem-append v (x ∷ xs) ys = ground (arith, elem-append v xs ys)

-- No element stands twice.
abbrev pub Distinct : List ℕ → Type 0
Distinct [] = Unit {0}
Distinct (x ∷ xs) = (elem x xs ≡ false) × Distinct xs

pub Distinct-erase : (v : ℕ) (xs : List ℕ) → Distinct xs → Distinct (erase v xs)
unfolding erase
Distinct-erase v [] d = tt
Distinct-erase v (x ∷ xs) d = ground (arith, Distinct-erase v xs d.1, elem-erase v x xs)

pub Distinct-snoc :
    (v : ℕ) (xs : List ℕ) → elem v xs ≡ false → Distinct xs → Distinct (xs ++ (v ∷ []))
unfolding elem
Distinct-snoc v [] e d = (refl, tt)
Distinct-snoc v (x ∷ xs) e d = ground (arith, Distinct-snoc v xs, elem-append x xs (v ∷ []))

pub erase_absent : (v : ℕ) (xs : List ℕ) → elem v xs ≡ false → erase v xs ≡ xs
unfolding elem erase
erase_absent v [] e = refl
erase_absent v (x ∷ xs) e = ground (arith, erase_absent v xs)

length-erase-le : (v : ℕ) (xs : List ℕ) → length (erase v xs) ≤ length xs
unfolding erase
length-erase-le v [] = omega arith
length-erase-le v (x ∷ xs) = ground (arith, length-erase-le v xs)

length-erase-lt : (v : ℕ) (xs : List ℕ) → elem v xs ≡ true → length (erase v xs) < length xs
unfolding elem erase
length-erase-lt v [] e = cc
length-erase-lt v (x ∷ xs) e = ground (arith, length-erase-le v xs, length-erase-lt v xs)

-- The set holds what the deque holds, neither holds anything twice.
pub record IsValid (q : VarIdQueue) : Type 0 where
  pub agree : (v : ℕ) → elem v q.members ≡ elem v q.queue
  pub distinct_members : Distinct q.members
  pub distinct_queue : Distinct q.queue

pub contains-insert :
    (q : VarIdQueue) (v w : ℕ) → contains (insert q v) w ≡ (if v == w then true else contains q w)
unfolding contains insert
contains-insert q v w = ground arith

pub contains-remove :
    (q : VarIdQueue) (v w : ℕ) → contains (remove q v) w ≡ (if v == w then false else contains q w)
unfolding contains remove
contains-remove q v w = ground (arith, elem-erase v w q.members)

-- `insert` keeps the set and the deque in agreement and free of duplicates.
pub insert-IsValid : {q : VarIdQueue} (v : ℕ) → IsValid q → IsValid (insert q v)
unfolding insert
insert-IsValid {q} v h = elim (Bool-cases (elem v q.members)) [
  | inl old ↦ rw old h
  | inr new ↦ rw new (record {
    agree = λ w. ground (arith, h.agree w, elem-append w q.queue (v ∷ []));
    distinct_members = (new, h.distinct_members);
    distinct_queue = Distinct-snoc v q.queue (sym (h.agree v) ∙ new) h.distinct_queue;
  })
]

-- `remove` does too.
pub remove-IsValid : {q : VarIdQueue} (v : ℕ) → IsValid q → IsValid (remove q v)
unfolding remove
remove-IsValid {q} v h = elim (Bool-cases (elem v q.members)) [
  | inr absent ↦ rw absent h
  | inl present ↦ rw present (record {
    agree = λ w. ground (arith, h.agree w, elem-erase v w q.members, elem-erase v w q.queue);
    distinct_members = Distinct-erase v q.members h.distinct_members;
    distinct_queue = Distinct-erase v q.queue h.distinct_queue;
  })
]

pub empty_queue-IsValid : IsValid empty_queue
unfolding empty_queue
empty_queue-IsValid = record { agree = λ v. refl; distinct_members = tt; distinct_queue = tt }

-- Every element of the one list stands in the other, and the other has no duplicates.
Distinct-length-le :
    (xs ys : List ℕ)
    → Distinct xs
    → ((v : ℕ) → elem v xs ≡ true → elem v ys ≡ true)
    → length xs ≤ length ys
unfolding elem
Distinct-length-le [] ys d sub = omega arith
Distinct-length-le (x ∷ xs) ys d sub = ground (
  arith,
  length-erase-lt x ys (sub x (ground arith)),
  Distinct-length-le xs (erase x ys) d.1 rest,
)
  where
    rest : (v : ℕ) → elem v xs ≡ true → elem v (erase x ys) ≡ true
    rest v e = ground (arith, elem-erase x v ys, sub v)

-- `size`, the number of elements of the set, is the length of the deque.
pub size-length : {q : VarIdQueue} → IsValid q → size q ≡ length q.queue
unfolding size
size-length {q} h = omega (
  arith,
  Distinct-length-le q.members q.queue h.distinct_members (λ v e. sym (h.agree v) ∙ e),
  Distinct-length-le q.queue q.members h.distinct_queue (λ v e. h.agree v ∙ e),
)

-- On a valid queue that is not empty, `front` returns the first identifier and changes nothing, and
-- `pop_front` succeeds; the deque keeps the rest in order.
pub pop_front_lem :
    {q : VarIdQueue} (v : ℕ) (rest : List ℕ)
    → IsValid q
    → q.queue ≡ v ∷ rest
    → (front q ≡ ok v q) × (pop_front q ≡ ok tt (remove q v)) × ((remove q v).queue ≡ rest)
unfolding pop_front elem
pop_front_lem {q} v rest h e = ground (
  arith,
  h.agree v,
  erase_absent v rest,
  front_of q.members (h.agree v),
  rest_of q.queue h.distinct_queue,
)
  where
    front_of : (ms : List ℕ) → elem v ms ≡ elem v q.queue → ms ≢ []
    front_of ms a n = ground arith

    rest_of : (xs : List ℕ) → Distinct xs → xs ≡ v ∷ rest → elem v rest ≡ false
    rest_of xs d x = ground arith

-- `empty`, a test of the set, tells whether the deque is empty.
pub empty-nil : {q : VarIdQueue} → IsValid q → q.queue ≡ [] → empty q ≡ true
unfolding empty elem
empty-nil {q} h e = none_of q.members (λ v. ground (arith, h.agree v))
  where
    none_of :
        (ms : List ℕ)
        → ((v : ℕ) → elem v ms ≡ false)
        → (elim ms [ [] ↦ true | _ ∷ _ ↦ false ]) ≡ true
    none_of [] a = refl
    none_of (m ∷ ms) a = ground (arith, a m)

pub empty-cons :
    {q : VarIdQueue} (v : ℕ) (rest : List ℕ) → IsValid q → q.queue ≡ v ∷ rest → empty q ≡ false
unfolding empty elem
empty-cons {q} v rest h e = ground (arith, h.agree v)
