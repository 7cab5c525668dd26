-- ===== src/Vardis/Store/Slots.antt =====
-- What the operations of the store do to the slot of one identifier.
use mathlib.Core.Path.{fun_ext}
use dcp_vardis.Prelude.{
  ℕ, ◌+◌, ◌%◌, ◌^◌, ◌<◌, ◌≤◌, ◌≡◌, refl, ap, Bool, true, false, length, if◌then◌else◌, ◌==◌,
  ==_refl, pos→ne_zero, le→ltb, List,
}
use dcp_vardis.Prelude.Effect.{ok}
use dcp_vardis.Vardis.Types.{VarValueT, StringT}
use dcp_vardis.Vardis.Store.{
  Store, DbEntry, IdentifierState, set_state, allocate_identifier, set_db_entry, update_value,
  update_description,
}

-- The later of two writes to one slot is what stays.
set_state-set_state :
    (s : Store) (v : ℕ) (i j : IdentifierState) → set_state v j (set_state v i s) ≡ set_state v j s
set_state-set_state s v i j =
    ap (λ (f : ℕ → IdentifierState). record s { id_states = f }) (fun_ext λ w. twice w (v == w))
  where
    twice :
        (w : ℕ) (b : Bool)
        → (if b then j else (if b then i else s.id_states w)) ≡ (if b then j else s.id_states w)
    twice w true = refl
    twice w false = refl

pub allocate_identifier_lem :
    (s : Store) (v : ℕ)
    → (s.id_states v).used ≡ false
    → allocate_identifier v s
      ≡ ok tt (
          set_state v
            (record (s.id_states v) { used = true })
            (record s { number_current_variables = (s.number_current_variables + 1) % 2 ^ 32 }))
unfolding allocate_identifier
allocate_identifier_lem s v u = rw u

pub set_db_entry_lem :
    (s : Store) (v : ℕ) (e : DbEntry)
    → (s.id_states v).used ≡ true
    → set_db_entry v e s
      ≡ ok tt (set_state v (record (s.id_states v) { used = true; db_entry = e }) s)
unfolding set_db_entry
set_db_entry_lem s v e u = rw u

-- The same on a store in which the slot has just been written.
module _ (s : Store) (v : ℕ) (e : DbEntry) (x y : List ℕ) where
  abbrev pub written : Store
  written = set_state v (record { used = true; db_entry = e; value = x; descr = y }) s

  pub set_db_entry-set_state :
      (e' : DbEntry)
      → set_db_entry v e' written
        ≡ ok tt (set_state v (record { used = true; db_entry = e'; value = x; descr = y }) s)
  unfolding set_db_entry
  set_db_entry-set_state e' = rw (==_refl v) (ap (ok tt) (set_state-set_state s v _ _))

  pub update_description-set_state :
      (descr : StringT)
      → 0 < length descr
      → length descr ≤ s.descr_buffer_size
      → update_description v descr written
        ≡ ok tt (set_state v (record { used = true; db_entry = e; value = x; descr = descr }) s)
  unfolding update_description
  update_description-set_state descr a b =
      rw (==_refl v, pos→ne_zero (length descr) a, le→ltb (length descr) s.descr_buffer_size b)
        (ap (ok tt) (set_state-set_state s v _ _))

  pub update_value-set_state :
      (value : VarValueT)
      → 0 < length value.block
      → length value.block ≤ s.value_buffer_size
      → update_value v value written
        ≡ ok tt
            (set_state v (record { used = true; db_entry = e; value = value.block; descr = y }) s)
  unfolding update_value
  update_value-set_state value a b =
      rw
        (
          ==_refl v,
          pos→ne_zero (length value.block) a,
          le→ltb (length value.block) s.value_buffer_size b,
        )
        (ap (ok tt) (set_state-set_state s v _ _))
