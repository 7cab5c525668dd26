-- ===== src/Vardis/Queue.antt =====
-- VarIdQueue of dcp/vardis/vardis_protocol_data.h: a queue of variable identifiers without
-- duplicates, a std::set `members` beside a std::deque `queue`.
pub mod Laws
pub mod Requeue
use dcp_vardis.Prelude.{
  ℕ, Bool, true, false, not, ◌||◌, List, [], ◌∷◌, ◌++◌, length, if◌then◌else◌, ◌==◌,
}
use dcp_vardis.Prelude.Effect.{Exec, Void, ◌>>=◌, pure, raise, modify, gets, invalid_argument}

-- The head of `queue` is the front of the deque. `members` lists the elements of the set.
pub record VarIdQueue : Type 0 where
  pub members : List ℕ
  pub queue : List ℕ

unfoldable pub elem : ℕ → List ℕ → Bool
elem v [] = false
elem v (x ∷ xs) = x == v || elem v xs

-- `std::set::erase` on `members`, and `std::remove` followed by `erase` on `queue`.
unfoldable pub erase : ℕ → List ℕ → List ℕ
erase v [] = []
erase v (x ∷ xs) = let rest = erase v xs in if x == v then rest else x ∷ rest

unfoldable pub empty_queue : VarIdQueue
empty_queue = record { members = []; queue = [] }

unfoldable pub empty : VarIdQueue → Bool
empty q = elim q.members [ [] ↦ true | _ ∷ _ ↦ false ]

unfoldable pub size : VarIdQueue → ℕ
size q = length q.members

unfoldable pub contains : VarIdQueue → ℕ → Bool
unfolding elem
contains q v = elem v q.members

unfoldable pub remove : VarIdQueue → ℕ → VarIdQueue
unfolding contains erase
remove q v =
    if contains q v then record { members = erase v q.members; queue = erase v q.queue } else q

unfoldable pub insert : VarIdQueue → ℕ → VarIdQueue
unfolding contains
insert q v =
    if contains q v then q else record { members = v ∷ q.members; queue = q.queue ++ (v ∷ []) }

-- `queue.front ()` of an empty deque is undefined; it is guarded by `empty ()`.
deque_front : List ℕ → Exec VarIdQueue ℕ
deque_front [] = raise invalid_argument
deque_front (x ∷ xs) = pure x

unfoldable pub front : Exec VarIdQueue ℕ
unfolding deque_front empty
front q = if empty q then raise invalid_argument q else deque_front q.queue q

unfoldable pub pop_front : Exec VarIdQueue Void
unfolding front remove
pop_front = do v ← front; modify (λ q. remove q v)
