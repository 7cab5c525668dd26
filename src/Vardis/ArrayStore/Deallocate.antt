-- ===== src/Vardis/ArrayStore/Deallocate.antt =====
-- An identifier gives its buffers back to the free list.
use mathlib.Core.Path.{fun_ext}
use dcp_vardis.Prelude.{
  ℕ, suc, ◌+◌, ◌-◌, ◌%◌, ◌^◌, ◌≤◌, ◌<◌, ◌≡◌, inl, inr, refl, sym, ap, ◌∙◌, Bool-cases, true, false,
  [], ◌∷◌, length, length-append, arith, update, subst, update_elim,
}
use dcp_vardis.Prelude.Effect.{ok, state}
use dcp_vardis.Common.RingBuffer.{RingBuffer}
use dcp_vardis.Common.RingBuffer.Refine.{contents, Pushed, push-Pushed}
use dcp_vardis.Vardis.Store
use dcp_vardis.Vardis.ArrayStore.{
  ArrayContents, ArrayState, FreeListEntry, number_identifiers, deallocate_identifier,
}
use dcp_vardis.Common.Memory.{read_block}
use dcp_vardis.Vardis.ArrayStore.Valid.{
  view, observe, IsValid, Apart, AllApart, AllApart-snoc, Separate-snoc, buffers_of,
  used_below-freed,
}

one_more :
    (free free' used used' total : ℕ)
    → free' ≡ free + 1
    → free + used ≡ total
    → suc used' ≡ used
    → free' + used' ≡ total
one_more free free' used used' total a b c = omega arith

-- There is room in the free list for the buffers of an identifier that is in use.
room : (free used used' total : ℕ) → free + used ≡ total → suc used' ≡ used → free < total
room free used used' total a b = omega arith

abbrev vacated : ArrayState → ArrayState
vacated i = record i { used = false; val_size = 0; descr_size = 0 }

-- The contents after the last statement of `deallocate_identifier`.
abbrev released : ArrayContents → ℕ → RingBuffer FreeListEntry → ArrayContents
released c v free_list = record c {
  id_states = update c.id_states v (vacated (c.id_states v));
  free_list = free_list;
  number_current_variables = (c.number_current_variables + 2 ^ 32 - 1) % 2 ^ 32;
}

released-IsValid :
    (c : ArrayContents) (v : ℕ)
    → IsValid c
    → v < number_identifiers
    → (c.id_states v).used ≡ true
    → (p : Pushed c.free_list (buffers_of (c.id_states v))) → IsValid (released c v p.after)
released-IsValid c v h small u p = record {
  ring = p.valid;
  capacity = p.capacity ∙ h.capacity;
  balanced =
      one_more (length (contents c.free_list)) _ _ _ _
        (ap length p.added ∙ length-append (contents c.free_list) (buffers_of (c.id_states v) ∷ []))
        h.balanced
        (used_below-freed c.id_states v (vacated (c.id_states v)) number_identifiers small u refl);
  separate =
      rw p.added (Separate-snoc vs ds _ (contents c.free_list) h.separate (h.free_apart v u));
  free_apart = λ w.
      update_elim (λ s. s.used ≡ true → AllApart vs ds (buffers_of s) (contents p.after))
        c.id_states v (vacated (c.id_states v)) w (λ _ x. absurd (clash x))
        (λ n x. rw p.added (
          AllApart-snoc vs ds _ _ (contents c.free_list) (h.free_apart w x)
            (h.used_apart w v (λ e. n (sym e)) x u)));
  used_apart = λ w x n.
      update_elim
        (λ s.
          s.used ≡ true
          → (update c.id_states v (vacated (c.id_states v)) x).used ≡ true
          → Apart vs ds (buffers_of s)
              (buffers_of (update c.id_states v (vacated (c.id_states v)) x)))
        c.id_states v (vacated (c.id_states v)) w (λ _ a. absurd (clash a))
        (λ _ a.
          update_elim (λ s. s.used ≡ true → Apart vs ds (buffers_of (c.id_states w)) (buffers_of s))
            c.id_states v (vacated (c.id_states v)) x (λ _ b. absurd (clash b))
            (λ _ b. h.used_apart w x n a b));
  val_fits = λ w.
      update_elim (λ s. s.val_size ≤ vs) c.id_states v (vacated (c.id_states v)) w
        (λ _. omega arith) (λ _. h.val_fits w);
  descr_fits = λ w.
      update_elim (λ s. s.descr_size ≤ ds) c.id_states v (vacated (c.id_states v)) w
        (λ _. omega arith) (λ _. h.descr_fits w);
  unused_empty = λ w.
      update_elim (λ s. s.used ≡ false → (s.val_size ≡ 0) × (s.descr_size ≡ 0)) c.id_states v
        (vacated (c.id_states v)) w (λ _ _. (refl, refl)) (λ _. h.unused_empty w);
}
  where
    vs : ℕ
    vs = c.value_buffer_size

    ds : ℕ
    ds = c.descr_buffer_size

    clash : false ≡ true → ⊥
    clash p = ground arith

deallocate_identifier_lem :
    (c : ArrayContents) (v : ℕ)
    → (c.id_states v).used ≡ true
    → (p : Pushed c.free_list (buffers_of (c.id_states v)))
    → deallocate_identifier v c ≡ ok tt (released c v p.after)
unfolding deallocate_identifier
deallocate_identifier_lem c v u p = simp (u, p.pushed) refl

view-released :
    (c : ArrayContents) (v : ℕ) (free_list : RingBuffer FreeListEntry)
    → (c.id_states v).used ≡ true
    → Store.deallocate_identifier v (view c) ≡ ok tt (view (released c v free_list))
unfolding Store.deallocate_identifier read_block
view-released c v free_list u = simp u (
    ap
      (λ g. ok tt (record (view c) {
        id_states = g;
        number_current_variables = (c.number_current_variables + 2 ^ 32 - 1) % 2 ^ 32;
      }))
      (fun_ext λ w. ground (arith, u)))

pub record Deallocated (c : ArrayContents) (v : ℕ) : Type 0 where
  pub same : observe (deallocate_identifier v c) ≡ Store.deallocate_identifier v (view c)
  pub valid : IsValid (state (deallocate_identifier v c))

refused : (c : ArrayContents) (v : ℕ) → (c.id_states v).used ≡ false → IsValid c → Deallocated c v
unfolding deallocate_identifier Store.deallocate_identifier
refused c v free h = record { same = simp free refl; valid = simp free h }

-- Deallocation is that of the store with one slot for each identifier.
pub deallocate_identifier-Deallocated :
    (c : ArrayContents) (v : ℕ) → IsValid c → v < number_identifiers → Deallocated c v
deallocate_identifier-Deallocated c v h small = elim (Bool-cases (c.id_states v).used) [
  | inr free ↦ refused c v free h
  | inl used ↦
      let p = push-Pushed c.free_list (buffers_of (c.id_states v)) h.ring (
        subst (λ n. length (contents c.free_list) < n) (sym h.capacity)
          (room _ _ _ _ h.balanced (
            used_below-freed c.id_states v (vacated (c.id_states v)) number_identifiers small used
              refl))) in
      let done = deallocate_identifier_lem c v used p in
      record {
        same = ap observe done ∙ sym (view-released c v p.after used);
        valid = rw done (released-IsValid c v h small used p);
      }
]
