-- ===== src/Vardis/ArrayStore/Refine.antt =====
-- The operations on the array store are, to the protocol, those of the store with one slot for each
-- identifier.
use mathlib.Core.Path.{fun_ext}
use dcp_vardis.Prelude.{
  ℕ, ◌≤◌, ◌≡◌, ◌≢◌, inl, inr, refl, sym, ap, Bool, Bool-cases, true, false, not, List, length,
  arith, update, if◌then◌else◌, ◌==◌, ltb,
}
use dcp_vardis.Prelude.Effect.{vardis_store_exception, Void, ok, throw}
use dcp_vardis.Vardis.Types.{VarValueT, StringT}
use dcp_vardis.Vardis.Store
use dcp_vardis.Vardis.Store.{DbEntry, IdentifierState}
use dcp_vardis.Vardis.ArrayStore.{
  ArrayContents, set_db_entry, get_db_entry, modify_db_entry, update_value, read_value,
  update_description, read_description, size_of_value, size_of_description, identifier_is_allocated,
}
use dcp_vardis.Common.Memory.{
  write_block, read_block, read_block-write_block, read_block-apart, length-read_block,
}
use dcp_vardis.Vardis.ArrayStore.Valid.{view, view_state, observe, IsValid}

-- A change of the slots that the protocol sees as a change of one slot.
view_lem :
    (c : ArrayContents) (f : ℕ → IdentifierState) (v : ℕ) (i : IdentifierState)
    → ((w : ℕ) → f w ≡ update (view c).id_states v i w)
    → record (view c) { id_states = f } ≡ Store.set_state v i (view c)
view_lem c f v i h = ap (λ g. record (view c) { id_states = g }) (fun_ext h)

pub set_db_entry_refines :
    (c : ArrayContents) (v : ℕ) (e : DbEntry)
    → observe (set_db_entry v e c) ≡ Store.set_db_entry v e (view c)
unfolding set_db_entry Store.set_db_entry
set_db_entry_refines c v e = elim (Bool-cases (c.id_states v).used) [
  | inr free ↦ simp free refl
  | inl used ↦ simp used (ap (ok tt) (view_lem c _ v _ λ w. ground arith))
]

pub get_db_entry_refines :
    (c : ArrayContents) (v : ℕ) → observe (get_db_entry v c) ≡ Store.get_db_entry v (view c)
unfolding get_db_entry Store.get_db_entry
get_db_entry_refines c v = elim (Bool-cases (c.id_states v).used) [
  | inr free ↦ simp free refl
  | inl used ↦ simp used refl
]

pub modify_db_entry_refines :
    (c : ArrayContents) (v : ℕ) (f : DbEntry → DbEntry)
    → observe (modify_db_entry v f c) ≡ Store.modify_db_entry v f (view c)
unfolding modify_db_entry Store.modify_db_entry
modify_db_entry_refines c v f = elim (Bool-cases (c.id_states v).used) [
  | inr free ↦ simp free refl
  | inl used ↦ simp used (ap (ok tt) (view_lem c _ v _ λ w. ground arith))
]

pub read_value_refines :
    (c : ArrayContents) (v : ℕ) → observe (read_value v c) ≡ Store.read_value v (view c)
unfolding read_value Store.read_value
read_value_refines c v =
    let e = length-read_block c.value_buffer (c.id_states v).val_offs (c.id_states v).val_size in
    elim (Bool-cases (c.id_states v).used) [
      | inr free ↦ simp free refl
      | inl used ↦ simp (used, e) refl
    ]

pub read_description_refines :
    (c : ArrayContents) (v : ℕ) → observe (read_description v c) ≡ Store.read_description v (view c)
unfolding read_description Store.read_description
read_description_refines c v = elim (Bool-cases (c.id_states v).used) [
  | inr free ↦ simp free refl
  | inl used ↦ simp used refl
]

pub sizes_refine :
    (c : ArrayContents) (v : ℕ)
    → (size_of_value c v ≡ Store.size_of_value (view c) v)
      × (size_of_description c v ≡ Store.size_of_description (view c) v)
      × (identifier_is_allocated c v ≡ Store.identifier_is_allocated (view c) v)
unfolding size_of_value Store.size_of_value size_of_description Store.size_of_description
    identifier_is_allocated Store.identifier_is_allocated
sizes_refine c v = (
  sym (length-read_block c.value_buffer (c.id_states v).val_offs (c.id_states v).val_size),
  sym (
      length-read_block c.description_buffer (c.id_states v).descr_offs (c.id_states v).descr_size),
  refl,
)

-- A write to the buffer of `v` leaves the values of the other identifiers.
other_value :
    (c : ArrayContents) (v w : ℕ) (bs : List ℕ)
    → IsValid c
    → (c.id_states v).used ≡ true
    → length bs ≤ c.value_buffer_size
    → v ≢ w
    → read_block
        (write_block c.value_buffer (c.id_states v).val_offs bs)
        (c.id_states w).val_offs
        (c.id_states w).val_size
      ≡ read_block c.value_buffer (c.id_states w).val_offs (c.id_states w).val_size
unfolding read_block
other_value c v w bs h u k n = elim (Bool-cases (c.id_states w).used) [
  | inr free ↦ rw (h.unused_empty w free).0 refl
  | inl used ↦
      read_block-apart c.value_buffer (c.id_states v).val_offs bs (c.id_states w).val_offs
        (c.id_states w).val_size (omega (arith, (h.used_apart v w n u used).values, h.val_fits w))
]

other_descr :
    (c : ArrayContents) (v w : ℕ) (bs : List ℕ)
    → IsValid c
    → (c.id_states v).used ≡ true
    → length bs ≤ c.descr_buffer_size
    → v ≢ w
    → read_block
        (write_block c.description_buffer (c.id_states v).descr_offs bs)
        (c.id_states w).descr_offs
        (c.id_states w).descr_size
      ≡ read_block c.description_buffer (c.id_states w).descr_offs (c.id_states w).descr_size
unfolding read_block
other_descr c v w bs h u k n = elim (Bool-cases (c.id_states w).used) [
  | inr free ↦ rw (h.unused_empty w free).1 refl
  | inl used ↦
      read_block-apart c.description_buffer (c.id_states v).descr_offs bs (c.id_states w).descr_offs
        (c.id_states w).descr_size
        (omega (arith, (h.used_apart v w n u used).descrs, h.descr_fits w))
]

-- Three tests that both stores make, before a change that both see alike.
three_tests :
    (c c' : ArrayContents) (s' : Store.Store) (used nothing long : Bool)
    → (used ≡ true → long ≡ false → view c' ≡ s')
    → observe {A = Void} (
        if not used
        then throw vardis_store_exception c
        else if nothing
        then throw vardis_store_exception c
        else if long
        then throw vardis_store_exception c
        else ok tt c')
      ≡ (if not used
          then throw vardis_store_exception (view c)
          else if nothing
          then throw vardis_store_exception (view c)
          else if long
          then throw vardis_store_exception (view c)
          else ok tt s')
three_tests c c' s' false nothing long h = refl
three_tests c c' s' true true long h = refl
three_tests c c' s' true false true h = refl
three_tests c c' s' true false false h = ap (ok tt) (h refl refl)

value_written :
    (c : ArrayContents) (v w : ℕ) (bs : List ℕ)
    → (v ≢ w
        → read_block
            (write_block c.value_buffer (c.id_states v).val_offs bs)
            (c.id_states w).val_offs
            (c.id_states w).val_size
          ≡ read_block c.value_buffer (c.id_states w).val_offs (c.id_states w).val_size)
    → view_state
        (record c { value_buffer = write_block c.value_buffer (c.id_states v).val_offs bs })
        (update c.id_states v (record (c.id_states v) { val_size = length bs }) w)
      ≡ update (view c).id_states v (record (view_state c (c.id_states v)) { value = bs }) w
value_written c v w bs others =
    ground (arith, read_block-write_block c.value_buffer (c.id_states v).val_offs bs, others)

pub update_value_refines :
    (c : ArrayContents) (v : ℕ) (new : VarValueT)
    → IsValid c
    → observe (update_value v new c) ≡ Store.update_value v new (view c)
unfolding update_value Store.update_value
update_value_refines c v new h =
    three_tests c _ _ (c.id_states v).used (length new.block == 0)
      (ltb c.value_buffer_size (length new.block))
      λ used short. view_lem c _ v _ λ w.
        value_written c v w new.block
          λ n. other_value c v w new.block h used (ground (arith, short)) n

descr_written :
    (c : ArrayContents) (v w : ℕ) (bs : List ℕ)
    → (v ≢ w
        → read_block
            (write_block c.description_buffer (c.id_states v).descr_offs bs)
            (c.id_states w).descr_offs
            (c.id_states w).descr_size
          ≡ read_block c.description_buffer (c.id_states w).descr_offs (c.id_states w).descr_size)
    → view_state
        (record c {
          description_buffer = write_block c.description_buffer (c.id_states v).descr_offs bs;
        })
        (update c.id_states v (record (c.id_states v) { descr_size = length bs }) w)
      ≡ update (view c).id_states v (record (view_state c (c.id_states v)) { descr = bs }) w
descr_written c v w bs others =
    ground
      (arith, read_block-write_block c.description_buffer (c.id_states v).descr_offs bs, others)

pub update_description_refines :
    (c : ArrayContents) (v : ℕ) (new : StringT)
    → IsValid c
    → observe (update_description v new c) ≡ Store.update_description v new (view c)
unfolding update_description Store.update_description
update_description_refines c v new h =
    three_tests c _ _ (c.id_states v).used (length new == 0) (ltb c.descr_buffer_size (length new))
      λ used short.
        view_lem c _ v _
          λ w. descr_written c v w new λ n. other_descr c v w new h used (ground (arith, short)) n
