-- ===== src/Vardis/ArrayStore/Kept.antt =====
-- Every operation keeps the array store valid; deallocation gives the buffers back.
use dcp_vardis.Prelude.{
  ℕ, ◌+◌, ◌≤◌, ◌<◌, ◌≡◌, refl, sym, ap, ◌∙◌, Bool, true, false, not, length, arith, update,
  if◌then◌else◌, ◌==◌, ltb, update_elim,
}
use dcp_vardis.Prelude.Effect.{vardis_store_exception, Void, ok, throw, state}
use dcp_vardis.Common.RingBuffer.Refine.{contents}
use dcp_vardis.Vardis.Types.{VarValueT, StringT}
use dcp_vardis.Vardis.Store.{DbEntry}
use dcp_vardis.Vardis.ArrayStore.{
  ArrayContents, ArrayState, number_identifiers, set_db_entry, modify_db_entry, update_value,
  update_description,
}
use dcp_vardis.Vardis.ArrayStore.Valid.{IsValid, Apart, AllApart, buffers_of, used_below-same}

-- A slot that is in use gets a new entry or new sizes within the limits, and keeps its buffers.
rewritten-IsValid :
    (c : ArrayContents) (v : ℕ) (i : ArrayState) (values descrs : ℕ → ℕ)
    → IsValid c
    → v < number_identifiers
    → (c.id_states v).used ≡ true
    → i.used ≡ true
    → buffers_of i ≡ buffers_of (c.id_states v)
    → i.val_size ≤ c.value_buffer_size
    → i.descr_size ≤ c.descr_buffer_size
    → IsValid (record c {
      id_states = update c.id_states v i;
      value_buffer = values;
      description_buffer = descrs;
    })
rewritten-IsValid c v i values descrs h small u ui same vals dscs = record {
  ring = h.ring;
  capacity = h.capacity;
  balanced =
      ap (λ n. length (contents c.free_list) + n)
        (used_below-same c.id_states v i number_identifiers small u ui)
      ∙ h.balanced;
  separate = h.separate;
  free_apart = λ w.
      update_elim (λ s. s.used ≡ true → AllApart vs ds (buffers_of s) (contents c.free_list))
        c.id_states v i w (λ _ _. rw same (h.free_apart v u)) (λ _ x. h.free_apart w x);
  used_apart = λ w x n.
      update_elim
        (λ s.
          s.used ≡ true
          → (update c.id_states v i x).used ≡ true
          → Apart vs ds (buffers_of s) (buffers_of (update c.id_states v i x)))
        c.id_states v i w
        (λ here _.
          update_elim (λ s. s.used ≡ true → Apart vs ds (buffers_of i) (buffers_of s)) c.id_states v
            i x (λ also. absurd (n (sym here ∙ also)))
            (λ other b. rw same (h.used_apart v x other u b)))
        (λ away a.
          update_elim (λ s. s.used ≡ true → Apart vs ds (buffers_of (c.id_states w)) (buffers_of s))
            c.id_states v i x (λ here _. rw same (h.used_apart w v (λ e. away (sym e)) a u))
            (λ _ b. h.used_apart w x n a b));
  val_fits =
      λ w. update_elim (λ s. s.val_size ≤ vs) c.id_states v i w (λ _. vals) (λ _. h.val_fits w);
  descr_fits =
      λ w. update_elim (λ s. s.descr_size ≤ ds) c.id_states v i w (λ _. dscs) (λ _. h.descr_fits w);
  unused_empty = λ w.
      update_elim (λ s. s.used ≡ false → (s.val_size ≡ 0) × (s.descr_size ≡ 0)) c.id_states v i w
        (λ _ x. absurd (clash ui x)) (λ _. h.unused_empty w);
}
  where
    vs : ℕ
    vs = c.value_buffer_size

    ds : ℕ
    ds = c.descr_buffer_size

    clash : {b : Bool} → b ≡ true → b ≡ false → ⊥
    clash p q = ground arith

-- What holds of the states before and after a change holds of the state that a guarded change
-- leaves.
guarded :
    (P : ArrayContents → Type 0) (c c' : ArrayContents) (used : Bool)
    → P c
    → (used ≡ true → P c')
    → P (state {A = Void} (if not used then throw vardis_store_exception c else ok tt c'))
guarded P c c' true h k = k refl
guarded P c c' false h k = h

guarded_thrice :
    (P : ArrayContents → Type 0) (c c' : ArrayContents) (used nothing long : Bool)
    → P c
    → (used ≡ true → long ≡ false → P c')
    → P (
        state {A = Void} (
          if not used
          then throw vardis_store_exception c
          else if nothing
          then throw vardis_store_exception c
          else if long
          then throw vardis_store_exception c
          else ok tt c'))
guarded_thrice P c c' false nothing long h k = h
guarded_thrice P c c' true true long h k = h
guarded_thrice P c c' true false true h k = h
guarded_thrice P c c' true false false h k = k refl refl

module _ (c : ArrayContents) (v : ℕ) (h : IsValid c) (small : v < number_identifiers) where
  pub set_db_entry-IsValid : (e : DbEntry) → IsValid (state (set_db_entry v e c))
  unfolding set_db_entry
  set_db_entry-IsValid e = guarded IsValid c _ (c.id_states v).used h λ used.
      rewritten-IsValid c v _ c.value_buffer c.description_buffer h small used used refl
        (h.val_fits v) (h.descr_fits v)

  pub modify_db_entry-IsValid : (f : DbEntry → DbEntry) → IsValid (state (modify_db_entry v f c))
  unfolding modify_db_entry
  modify_db_entry-IsValid f = guarded IsValid c _ (c.id_states v).used h λ used.
      rewritten-IsValid c v _ c.value_buffer c.description_buffer h small used used refl
        (h.val_fits v) (h.descr_fits v)

  pub update_value-IsValid : (new : VarValueT) → IsValid (state (update_value v new c))
  unfolding update_value
  update_value-IsValid new =
      guarded_thrice IsValid c _ (c.id_states v).used (length new.block == 0)
        (ltb c.value_buffer_size (length new.block)) h
        λ used short.
          rewritten-IsValid c v _ _ c.description_buffer h small used used refl
            (ground (arith, short)) (h.descr_fits v)

  pub update_description-IsValid : (new : StringT) → IsValid (state (update_description v new c))
  unfolding update_description
  update_description-IsValid new =
      guarded_thrice IsValid c _ (c.id_states v).used (length new == 0)
        (ltb c.descr_buffer_size (length new)) h
        λ used short.
          rewritten-IsValid c v _ c.value_buffer _ h small used used refl (h.val_fits v)
            (ground (arith, short))
