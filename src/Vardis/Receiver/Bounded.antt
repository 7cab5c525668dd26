-- ===== src/Vardis/Receiver/Bounded.antt =====
-- The loop over the containers of a payload ends: each container takes bytes away.
use dcp_vardis.Prelude.{
  ℕ, zero, suc, ◌+◌, ◌≤◌, inl, inr, Bool, Bool-cases, true, false, List, [], ◌∷◌, Option, none,
  some, arith, if◌then◌else◌, ltb, ◌==◌,
}
use dcp_vardis.Prelude.Effect.{
  Error, Outcome, Exec, ok, throw, continue, ◌>>=◌, pure, raise, vardis_receive_exception,
}
use dcp_vardis.Common.TimeStamp.{HostClock}
use dcp_vardis.Common.Area.{
  DisassemblyArea, deserialize_byte, deserialize_byte_block, deserialize_uint16_n,
}
use dcp_vardis.Vardis.Types.{IcHeaderT}
use dcp_vardis.Vardis.Types.Codec.{
  deserialize_value, deserialize_string, deserialize_node_id, deserialize_summ, deserialize_update,
  deserialize_spec, deserialize_create, deserialize_delete, deserialize_req_update,
  deserialize_req_create, deserialize_header,
}
use dcp_vardis.Vardis.Receiver.{
  Received, extract_records, extract_instruction_container_elements, extract_container,
  next_container, extract_loop,
}

-- If the call returned, it took at least `n` bytes away.
abbrev TookAtLeast : {A : Type 0} → ℕ → DisassemblyArea → Outcome DisassemblyArea A → Type 0
TookAtLeast n d (ok x d') = d'.bytes_available + n ≤ d.bytes_available
TookAtLeast n d (throw e d') = Unit {0}

-- A read that takes at least `n` bytes whenever it returns.
record Takes {A : Type 0} (n : ℕ) (m : Exec DisassemblyArea A) : Type 0 where
  takes : (d : DisassemblyArea) → TookAtLeast n d (m d)

Takes-pure : {A : Type 0} (x : A) → Takes 0 (pure x)
Takes-pure x = record { takes = λ d. omega arith }

Takes->>= :
    {A B : Type 0} {m : Exec DisassemblyArea A} {f : A → Exec DisassemblyArea B} {n k : ℕ}
    → Takes n m
    → ((x : A) → Takes k (f x))
    → Takes (n + k) (m >>= f)
Takes->>= {A} {B} {m} {f} {n} {k} t u = record { takes = λ d. go d (m d) (t.takes d) }
  where
    after :
        (d d' : DisassemblyArea) (o : Outcome DisassemblyArea B)
        → d'.bytes_available + n ≤ d.bytes_available
        → TookAtLeast k d' o
        → TookAtLeast (n + k) d o
    after d d' (ok y a) h i = omega arith
    after d d' (throw e a) h i = tt

    go :
        (d : DisassemblyArea) (o : Outcome DisassemblyArea A)
        → TookAtLeast n d o
        → TookAtLeast (n + k) d (continue o f)
    go d (ok x d') h = after d d' (f x d') h ((u x).takes d')
    go d (throw e d') h = tt

Takes-if :
    {A : Type 0} {m m' : Exec DisassemblyArea A} (n : ℕ) (b : Bool)
    → Takes n m
    → Takes n m'
    → Takes n (if b then m else m')
Takes-if n true t u = t
Takes-if n false t u = u

Takes-byte : Takes 1 deserialize_byte
unfolding deserialize_byte
Takes-byte = record { takes = λ d. ground arith }

Takes-block : (n : ℕ) → Takes 0 (deserialize_byte_block n)
unfolding deserialize_byte_block
Takes-block n = record { takes = λ d. ground arith }

Takes-uint16 : Takes 0 deserialize_uint16_n
unfolding deserialize_uint16_n deserialize_byte
Takes-uint16 = record { takes = λ d. ground arith }

Takes-value : Takes 1 deserialize_value
unfolding deserialize_value
Takes-value =
    Takes->>= Takes-byte
      λ len. Takes->>= (Takes-if 0 (ltb 0 len) (Takes-block len) (Takes-pure [])) λ b. Takes-pure _

Takes-string : Takes 1 deserialize_string
unfolding deserialize_string
Takes-string = Takes->>= Takes-byte λ len. Takes-if 0 (ltb 0 len) (Takes-block len) (Takes-pure [])

Takes-node_id : Takes 0 deserialize_node_id
unfolding deserialize_node_id
Takes-node_id = Takes->>= (Takes-block 6) λ bs. Takes-pure _

Takes-summ : Takes 2 deserialize_summ
unfolding deserialize_summ
Takes-summ = Takes->>= Takes-byte λ v. Takes->>= Takes-byte λ s. Takes-pure _

Takes-update : Takes 3 deserialize_update
unfolding deserialize_update
Takes-update =
    Takes->>= Takes-byte λ v. Takes->>= Takes-byte λ s. Takes->>= Takes-value λ x. Takes-pure _

Takes-create : (clock : HostClock) → Takes 6 (deserialize_create clock)
unfolding deserialize_create deserialize_spec
Takes-create clock =
    Takes->>=
      (Takes->>= Takes-byte λ v. Takes->>= Takes-node_id λ p. Takes->>= Takes-byte λ r.
        Takes->>= (Takes-block 8)
          λ c. Takes->>= Takes-uint16 λ t. Takes->>= Takes-string λ s. Takes-pure _)
      λ spec. Takes->>= Takes-update λ u. Takes-pure _

Takes-delete : Takes 1 deserialize_delete
unfolding deserialize_delete
Takes-delete = Takes->>= Takes-byte λ v. Takes-pure _

Takes-req_update : Takes 2 deserialize_req_update
unfolding deserialize_req_update
Takes-req_update = Takes->>= Takes-summ λ s. Takes-pure _

Takes-req_create : Takes 1 deserialize_req_create
unfolding deserialize_req_create
Takes-req_create = Takes->>= Takes-byte λ v. Takes-pure _

Takes-header : Takes 2 deserialize_header
unfolding deserialize_header
Takes-header = Takes->>= Takes-byte λ t. Takes->>= Takes-byte λ n. Takes-pure _

Takes-weaken : {A : Type 0} {m : Exec DisassemblyArea A} (n : ℕ) → Takes n m → Takes 0 m
Takes-weaken {A} {m} n t = record { takes = λ d. go d (m d) (t.takes d) }
  where
    go :
        (d : DisassemblyArea) (o : Outcome DisassemblyArea A)
        → TookAtLeast n d o
        → TookAtLeast 0 d o
    go d (ok x d') h = omega arith
    go d (throw e d') h = tt

Takes-records :
    {T : Type 0} {m : Exec DisassemblyArea T} (n : ℕ) → Takes 0 m → Takes 0 (extract_records m n)
unfolding extract_records
Takes-records zero t = Takes-pure []
Takes-records (suc n) t = Takes->>= t λ x. Takes->>= (Takes-records n t) λ xs. Takes-pure (x ∷ xs)

Takes-raise : {A : Type 0} (e : Error) → Takes {A = A} 0 (raise e)
Takes-raise e = record { takes = λ d. tt }

Takes-elements :
    {T R : Type 0} {m : Exec DisassemblyArea T} (n : ℕ) (h : IcHeaderT) (xs : List T)
    (f : List T → R)
    → Takes n m
    → Takes 0 (extract_instruction_container_elements m h xs >>= λ ys. pure (f ys))
unfolding extract_instruction_container_elements
Takes-elements n h xs f t =
    Takes->>=
      (Takes-if 0 (h.ic_num_records == 0) (Takes-raise vardis_receive_exception)
        (Takes->>= (Takes-records h.ic_num_records (Takes-weaken n t)) λ ys. Takes-pure _))
      λ ys. Takes-pure (f ys)

Takes-container :
    (clock : HostClock) (h : IcHeaderT) (r : Received) → Takes 0 (extract_container clock h r)
unfolding extract_container
Takes-container clock h r = Takes-if 0 _ (Takes-elements 2 h r.ic_summaries _ Takes-summ) (
    Takes-if 0 _ (Takes-elements 3 h r.ic_updates _ Takes-update) (
      Takes-if 0 _ (Takes-elements 2 h r.ic_request_var_updates _ Takes-req_update) (
        Takes-if 0 _ (Takes-elements 1 h r.ic_request_var_creates _ Takes-req_create) (
          Takes-if 0 _ (Takes-elements 6 h r.ic_create_variables _ (Takes-create clock)) (
            Takes-if 0 _ (Takes-elements 1 h r.ic_delete_variables _ Takes-delete)
              (Takes-raise vardis_receive_exception))))))

Takes-next : (clock : HostClock) (r : Received) → Takes 2 (next_container clock r)
unfolding next_container
Takes-next clock r = Takes->>= Takes-header λ h. Takes-container clock h r

-- The loop did not run out of fuel.
abbrev pub HasEnded : Outcome DisassemblyArea (Option Received) → Type 0
HasEnded (ok none area) = ⊥
HasEnded (ok (some r) area) = Unit {0}
HasEnded (throw e area) = Unit {0}

HasEnded-continue :
    (clock : HostClock) (fuel : ℕ) (area : DisassemblyArea) (o : Outcome DisassemblyArea Received)
    → area.bytes_available ≤ suc fuel
    → TookAtLeast 2 area o
    → ((s : Received) (a : DisassemblyArea)
        → a.bytes_available ≤ fuel
        → HasEnded (extract_loop clock fuel s a))
    → HasEnded (continue o (extract_loop clock fuel))
HasEnded-continue clock fuel area (ok s a) h k ih = ih s a (omega arith)
HasEnded-continue clock fuel area (throw e a) h k ih = tt

-- With at least as much fuel as bytes are available, whatever the payload holds and whatever has
-- been received before, the loop ends: with the records, or with an exception.
pub extract_loop-HasEnded :
    (clock : HostClock) (fuel : ℕ) (r : Received) (area : DisassemblyArea)
    → area.bytes_available ≤ fuel
    → HasEnded (extract_loop clock fuel r area)
unfolding extract_loop
extract_loop-HasEnded clock zero r area h = ground arith
extract_loop-HasEnded clock (suc fuel) r area h =
    elim (Bool-cases (ltb area.bytes_used area.bytes_available)) [
      | inr done ↦ simp done tt
      | inl more ↦ simp more (
          HasEnded-continue clock fuel area (next_container clock r area) h
            ((Takes-next clock r).takes area) (extract_loop-HasEnded clock fuel))
    ]
