-- ===== src/Common/FiniteQueue/Valid.antt =====
-- The invariant of the shared-memory queue, and the list of byte blocks that a valid queue stands for.
use dcp_vardis.Prelude.{
  ℕ, suc, ◌+◌, ◌≤◌, ◌≡◌, ◌⊎◌, refl, sym, ap, not, List, [], ◌∷◌, ◌++◌, length, arith, ◌==◌,
}
use mathlib.Core.Path.{ap₂}
use dcp_vardis.Prelude.Effect.{Outcome, ok, throw}
use dcp_vardis.Common.RingBuffer.{RingBuffer, is_empty, is_full}
use dcp_vardis.Common.RingBuffer.Refine
use dcp_vardis.Common.RingBuffer.Refine.{contents, length-window}
use dcp_vardis.Common.FiniteQueue.{DescrT, FiniteQueue}
use dcp_vardis.Common.Memory.{read_block, write_block, read_block-apart}

-- The bytes of a descriptor's buffer.
abbrev pub payload : (ℕ → ℕ) → DescrT → List ℕ
payload space d = read_block space d.offs d.len

abbrev pub payloads : (ℕ → ℕ) → List DescrT → List (List ℕ)
payloads space [] = []
payloads space (d ∷ ds) = payload space d ∷ payloads space ds

abbrev pub view : FiniteQueue → List (List ℕ)
view q = payloads q.buffer_space (contents q.queue)

-- The outcome of a call, seen as one on the blocks in the queue.
abbrev pub observe : {A : Type 0} → Outcome FiniteQueue A → Outcome (List (List ℕ)) A
observe (ok a q) = ok a (view q)
observe (throw e q) = throw e (view q)

-- Two buffers of `size` bytes do not overlap.
abbrev pub Disjoint : ℕ → ℕ → ℕ → Type 0
Disjoint size a b = (a + size ≤ b) ⊎ (b + size ≤ a)

abbrev pub AllDisjoint : ℕ → ℕ → List DescrT → Type 0
AllDisjoint size a [] = Unit {0}
AllDisjoint size a (d ∷ ds) = Disjoint size a d.offs × AllDisjoint size a ds

abbrev pub Separate : ℕ → List DescrT → Type 0
Separate size [] = Unit {0}
Separate size (d ∷ ds) = AllDisjoint size d.offs ds × Separate size ds

abbrev pub Fit : ℕ → List DescrT → Type 0
Fit size [] = Unit {0}
Fit size (d ∷ ds) = (d.len ≤ size) × Fit size ds

pub AllDisjoint-snoc :
    (size a : ℕ) (d : DescrT) (ds : List DescrT)
    → AllDisjoint size a ds
    → Disjoint size a d.offs
    → AllDisjoint size a (ds ++ (d ∷ []))
AllDisjoint-snoc size a d [] h k = (k, tt)
AllDisjoint-snoc size a d (e ∷ ds) h k = (h.0, AllDisjoint-snoc size a d ds h.1 k)

pub Separate-snoc :
    (size : ℕ) (d : DescrT) (ds : List DescrT)
    → Separate size ds
    → AllDisjoint size d.offs ds
    → Separate size (ds ++ (d ∷ []))
Separate-snoc size d [] h k = (tt, tt)
Separate-snoc size d (e ∷ ds) h k =
    (AllDisjoint-snoc size e.offs d ds h.0 (omega (arith, k.0)), Separate-snoc size d ds h.1 k.1)

-- The first descriptor may go to the end with another length.
pub Separate-rotate :
    (size n : ℕ) (d : DescrT) (ds : List DescrT)
    → Separate size (d ∷ ds)
    → Separate size (ds ++ (record d { len = n } ∷ []))
Separate-rotate size n d ds h = Separate-snoc size (record d { len = n }) ds h.1 h.0

pub Separate-tail : (size : ℕ) (ds es : List DescrT) → Separate size (ds ++ es) → Separate size es
Separate-tail size [] es h = h
Separate-tail size (d ∷ ds) es h = Separate-tail size ds es h.1

-- Between the two parts of a list of descriptors, one that leads the second changes places.
pub AllDisjoint-relen :
    (size a n : ℕ) (ds es : List DescrT) (d : DescrT)
    → AllDisjoint size a (ds ++ (d ∷ es))
    → AllDisjoint size a ((ds ++ (record d { len = n } ∷ [])) ++ es)
AllDisjoint-relen size a n [] es d h = h
AllDisjoint-relen size a n (e ∷ ds) es d h = (h.0, AllDisjoint-relen size a n ds es d h.1)

pub Separate-relen :
    (size n : ℕ) (ds es : List DescrT) (d : DescrT)
    → Separate size (ds ++ (d ∷ es))
    → Separate size ((ds ++ (record d { len = n } ∷ [])) ++ es)
Separate-relen size n [] es d h = h
Separate-relen size n (e ∷ ds) es d h =
    (AllDisjoint-relen size e.offs n ds es d h.0, Separate-relen size n ds es d h.1)

pub Fit-snoc :
    (size : ℕ) (d : DescrT) (ds : List DescrT)
    → Fit size ds
    → d.len ≤ size
    → Fit size (ds ++ (d ∷ []))
Fit-snoc size d [] h k = (k, tt)
Fit-snoc size d (e ∷ ds) h k = (h.0, Fit-snoc size d ds h.1 k)

pub payloads-snoc :
    (space : ℕ → ℕ) (d : DescrT) (ds : List DescrT)
    → payloads space (ds ++ (d ∷ [])) ≡ payloads space ds ++ (payload space d ∷ [])
payloads-snoc space d [] = refl
payloads-snoc space d (e ∷ ds) = ap (λ ps. payload space e ∷ ps) (payloads-snoc space d ds)

pub length-payloads : (space : ℕ → ℕ) (ds : List DescrT) → length (payloads space ds) ≡ length ds
length-payloads space [] = refl
length-payloads space (d ∷ ds) = ap suc (length-payloads space ds)

-- A write into a buffer that is disjoint from the others leaves their blocks.
pub payloads-apart :
    (space : ℕ → ℕ) (size a : ℕ) (bs : List ℕ) (ds : List DescrT)
    → length bs ≤ size
    → AllDisjoint size a ds
    → Fit size ds
    → payloads (write_block space a bs) ds ≡ payloads space ds
payloads-apart space size a bs [] l h f = refl
payloads-apart space size a bs (d ∷ ds) l h f =
    ap₂ ◌∷◌ (read_block-apart space a bs d.offs d.len (omega (arith, h.0, f.0, l)))
      (payloads-apart space size a bs ds l h.1 f.1)

-- The buffer that leads the free list is disjoint from those in the queue.
pub AllDisjoint-first :
    (size : ℕ) (ds es : List DescrT) (d : DescrT)
    → Separate size (ds ++ (d ∷ es))
    → AllDisjoint size d.offs ds
AllDisjoint-first size [] es d h = tt
AllDisjoint-first size (e ∷ ds) es d h =
    (omega (arith, head ds h.0), AllDisjoint-first size ds es d h.1)
  where
    head :
        (xs : List DescrT) → AllDisjoint size e.offs (xs ++ (d ∷ es)) → Disjoint size e.offs d.offs
    head [] k = k.0
    head (x ∷ xs) k = head xs k.1

-- Descriptors are in the queue or in the free list, `number_buffers` in all, their buffers do not
-- overlap, and the flag says whether the queue has any.
pub record IsValid (q : FiniteQueue) : Type 0 where
  pub queue_ring : Refine.IsValid q.queue
  pub free_ring : Refine.IsValid q.free_list
  pub queue_capacity : q.queue.max_capacity ≤ q.number_buffers
  pub free_capacity : q.free_list.max_capacity ≡ q.number_buffers
  pub balanced : length (contents q.queue) + length (contents q.free_list) ≡ q.number_buffers
  pub separate : Separate q.buffer_size (contents q.queue ++ contents q.free_list)
  pub fit : Fit q.buffer_size (contents q.queue)
  pub flag : q.has_data ≡ not (length (contents q.queue) == 0)

pub is_empty_lem : (r : RingBuffer DescrT) → is_empty r ≡ (length (contents r) == 0)
unfolding is_empty
is_empty_lem r =
    ap (λ n. n == 0)
      (sym
        (length-window r.the_ring r.max_ring_buffer_elements r.next_out r.current_number_elements))

pub is_full_lem : (r : RingBuffer DescrT) → is_full r ≡ (length (contents r) == r.max_capacity)
unfolding is_full
is_full_lem r =
    ap (λ n. n == r.max_capacity)
      (sym
        (length-window r.the_ring r.max_ring_buffer_elements r.next_out r.current_number_elements))
