-- ===== src/Vardis/ArrayStore/Allocate.antt =====
-- Identifiers take buffers from the free list, and give them back.
use mathlib.Core.Path.{fun_ext}
use dcp_vardis.Prelude.{
  ℕ, suc, ◌+◌, ◌%◌, ◌^◌, ◌≤◌, ◌<◌, ◌≡◌, inl, inr, refl, sym, ap, ◌∙◌, Bool-cases, true, false, List,
  [], ◌∷◌, length, arith, update, if◌then◌else◌, subst, update_elim,
}
use dcp_vardis.Prelude.Effect.{ok, state}
use dcp_vardis.Common.RingBuffer.{RingBuffer, is_empty}
use dcp_vardis.Common.RingBuffer.Refine.{contents, length-window, Popped, pop-Popped}
use dcp_vardis.Vardis.Store
use dcp_vardis.Vardis.Store.{IdentifierState}
use dcp_vardis.Vardis.ArrayStore.{
  ArrayContents, ArrayState, FreeListEntry, number_identifiers, occupy, allocate_identifier,
}
use dcp_vardis.Common.Memory.{read_block}
use dcp_vardis.Vardis.ArrayStore.Valid.{
  view, view_state, observe, IsValid, Apart, Apart-sym, AllApart, Separate, buffers_of, used_below,
  used_below-update, used_below-lt,
}

-- A free identifier means a free buffer.
some_buffer :
    (c : ArrayContents) (v : ℕ)
    → IsValid c
    → v < number_identifiers
    → (c.id_states v).used ≡ false
    → (e : FreeListEntry) × (rest : List FreeListEntry) × (contents c.free_list ≡ e ∷ rest)
some_buffer c v h small u =
    go (contents c.free_list) refl
      (omega (arith, h.balanced, used_below-lt c.id_states v number_identifiers small u))
  where
    go :
        (xs : List FreeListEntry)
        → contents c.free_list ≡ xs
        → 0 < length (contents c.free_list)
        → (e : FreeListEntry) × (rest : List FreeListEntry) × (contents c.free_list ≡ e ∷ rest)
    go [] same some = absurd (omega (arith, ap length same, some))
    go (e ∷ rest) same some = (e, rest, same)

one_fewer :
    (free left used used' total : ℕ)
    → free ≡ suc left
    → free + used ≡ total
    → used' + 0 ≡ used + 1
    → left + used' ≡ total
one_fewer free left used used' total a b c = omega arith

-- After `v` has taken the first free buffers.
occupied-IsValid :
    (c : ArrayContents) (v : ℕ) (e : FreeListEntry) (rest : List FreeListEntry)
    → IsValid c
    → v < number_identifiers
    → (c.id_states v).used ≡ false
    → contents c.free_list ≡ e ∷ rest
    → (p : Popped c.free_list e rest) → IsValid (occupy v e (record c { free_list = p.after }))
unfolding occupy
occupied-IsValid c v e rest h small u first p =
    let sep : Separate vs ds (e ∷ rest) = subst (Separate vs ds) first h.separate in
    record {
      ring = p.valid;
      capacity = p.capacity ∙ h.capacity;
      balanced =
          one_fewer (length (contents c.free_list)) (length (contents p.after)) _ _ _
            (ap length first ∙ sym (ap (λ xs. suc (length xs)) p.left)) h.balanced
            (subst
              (λ b.
                used_below (update c.id_states v taken) number_identifiers + (if b then 1 else 0)
                ≡ used_below c.id_states number_identifiers + 1)
              u (used_below-update c.id_states v taken number_identifiers small));
      separate = rw p.left sep.1;
      free_apart = λ w.
          update_elim (λ s. s.used ≡ true → AllApart vs ds (buffers_of s) (contents p.after))
            c.id_states v taken w (λ same x. rw p.left sep.0) (λ n x. rw p.left (apart w x).1);
      used_apart = λ w x n.
          update_elim
            (λ s.
              s.used ≡ true
              → (update c.id_states v taken x).used ≡ true
              → Apart vs ds (buffers_of s) (buffers_of (update c.id_states v taken x)))
            c.id_states v taken w
            (λ same _.
              update_elim (λ s. s.used ≡ true → Apart vs ds e (buffers_of s)) c.id_states v taken x
                (λ also. absurd (n (sym same ∙ also)))
                (λ _ b. Apart-sym vs ds (buffers_of (c.id_states x)) e (apart x b).0))
            (λ _ a.
              update_elim
                (λ s. s.used ≡ true → Apart vs ds (buffers_of (c.id_states w)) (buffers_of s))
                c.id_states v taken x (λ _ _. (apart w a).0) (λ _ b. h.used_apart w x n a b));
      val_fits = λ w.
          update_elim (λ s. s.val_size ≤ vs) c.id_states v taken w (λ _. h.val_fits v)
            (λ _. h.val_fits w);
      descr_fits = λ w.
          update_elim (λ s. s.descr_size ≤ ds) c.id_states v taken w (λ _. h.descr_fits v)
            (λ _. h.descr_fits w);
      unused_empty = λ w.
          update_elim (λ s. s.used ≡ false → (s.val_size ≡ 0) × (s.descr_size ≡ 0)) c.id_states v
            taken w (λ _ x. h.unused_empty v u) (λ _. h.unused_empty w);
    }
  where
    vs : ℕ
    vs = c.value_buffer_size

    ds : ℕ
    ds = c.descr_buffer_size

    taken : ArrayState
    taken = record (c.id_states v) {
      used = true;
      val_offs = e.buffer_offs;
      descr_offs = e.descr_offs;
    }

    apart :
        (w : ℕ)
        → (c.id_states w).used ≡ true
        → AllApart vs ds (buffers_of (c.id_states w)) (e ∷ rest)
    apart w x = subst (AllApart vs ds (buffers_of (c.id_states w))) first (h.free_apart w x)

-- A free identifier is allocated as in the store with one slot for each identifier: there always
-- is a free pair of buffers, and none that another identifier uses is given out.
pub record Allocated (c : ArrayContents) (v : ℕ) : Type 0 where
  pub same : observe (allocate_identifier v c) ≡ Store.allocate_identifier v (view c)
  pub valid : IsValid (state (allocate_identifier v c))

not_empty :
    (r : RingBuffer FreeListEntry) {n : ℕ} → length (contents r) ≡ suc n → is_empty r ≡ false
unfolding is_empty
not_empty r e = ground (
  arith,
  e,
  length-window r.the_ring r.max_ring_buffer_elements r.next_out r.current_number_elements,
)

refused : (c : ArrayContents) (v : ℕ) → (c.id_states v).used ≡ true → IsValid c → Allocated c v
unfolding allocate_identifier Store.allocate_identifier
refused c v used h = record { same = simp used refl; valid = simp used h }

store_lem :
    (c : ArrayContents) (v : ℕ)
    → (c.id_states v).used ≡ false
    → Store.allocate_identifier v (view c)
      ≡ ok tt (
          Store.set_state v
            (record (view_state c (c.id_states v)) { used = true })
            (record (view c) {
              number_current_variables = (c.number_current_variables + 1) % 2 ^ 32;
            }))
unfolding Store.allocate_identifier
store_lem c v free = simp free refl

allocate_identifier_lem :
    (c : ArrayContents) (v : ℕ) (e : FreeListEntry) (rest : List FreeListEntry)
    → (c.id_states v).used ≡ false
    → contents c.free_list ≡ e ∷ rest
    → (p : Popped c.free_list e rest)
    → allocate_identifier v c ≡ ok tt (occupy v e (record c { free_list = p.after }))
unfolding allocate_identifier
allocate_identifier_lem c v e rest free first p = simp (free, some, p.popped) refl
  where
    some : is_empty c.free_list ≡ false
    some = not_empty c.free_list (ap length first)

-- What the protocol sees of an identifier that takes over buffers: it is used, and holds nothing.
view-occupy :
    (c : ArrayContents) (v : ℕ) (e : FreeListEntry) (free_list : RingBuffer FreeListEntry)
    → (c.id_states v).val_size ≡ 0
    → (c.id_states v).descr_size ≡ 0
    → view (occupy v e (record c { free_list = free_list }))
      ≡ Store.set_state v
          (record (view_state c (c.id_states v)) { used = true })
          (record (view c) { number_current_variables = (c.number_current_variables + 1) % 2 ^ 32 })
unfolding occupy read_block
view-occupy c v e free_list a b =
    ap
      (λ g. record (view c) {
        id_states = g;
        number_current_variables = (c.number_current_variables + 1) % 2 ^ 32;
      })
      (fun_ext λ w. ground (arith, a, b))

pub allocate_identifier-Allocated :
    (c : ArrayContents) (v : ℕ) → IsValid c → v < number_identifiers → Allocated c v
allocate_identifier-Allocated c v h small = elim (Bool-cases (c.id_states v).used) [
  | inl used ↦ refused c v used h
  | inr free ↦
      let (e, rest, first) = some_buffer c v h small free in
      let p = pop-Popped c.free_list e rest h.ring first in
      let done = allocate_identifier_lem c v e rest free first p in
      let nothing = h.unused_empty v free in
      record {
        same =
            ap observe done
            ∙ ap (ok tt) (view-occupy c v e p.after nothing.0 nothing.1)
            ∙ sym (store_lem c v free);
        valid = rw done (occupied-IsValid c v e rest h small free first p);
      }
]
