-- ===== src/Vardis/ArrayStore/Valid.antt =====
-- The invariant of the array store: no two identifiers share a buffer, no free buffer is in use, and
-- there are as many buffers as identifiers.
use dcp_vardis.Prelude.{
  ℕ, zero, suc, ◌+◌, ◌≤◌, ◌<◌, ◌≡◌, ◌≢◌, ◌⊎◌, refl, true, false, List, [], ◌∷◌, ◌++◌, length, arith,
  update, if◌then◌else◌, ==_refl,
}
use dcp_vardis.Prelude.Effect.{Outcome, ok, throw}
use dcp_vardis.Common.RingBuffer.Refine
use dcp_vardis.Common.RingBuffer.Refine.{contents}
use dcp_vardis.Vardis.Store.{Store, IdentifierState}
use dcp_vardis.Vardis.ArrayStore.{ArrayContents, ArrayState, FreeListEntry, number_identifiers}
use dcp_vardis.Common.Memory.{read_block}

-- What the protocol sees of a slot.
abbrev pub view_state : ArrayContents → ArrayState → IdentifierState
view_state c i = record {
  used = i.used;
  db_entry = i.db_entry;
  value = read_block c.value_buffer i.val_offs i.val_size;
  descr = read_block c.description_buffer i.descr_offs i.descr_size;
}

-- The store that the array contents stand for.
abbrev pub view : ArrayContents → Store
view c = record {
  is_active = c.is_active;
  value_buffer_size = c.value_buffer_size;
  descr_buffer_size = c.descr_buffer_size;
  stats = c.stats;
  number_current_variables = c.number_current_variables;
  id_states = λ v. view_state c (c.id_states v);
}

-- The outcome of an operation, as the protocol sees it.
abbrev pub observe : {A : Type 0} → Outcome ArrayContents A → Outcome Store A
observe (ok a c) = ok a (view c)
observe (throw e c) = throw e (view c)

abbrev pub buffers_of : ArrayState → FreeListEntry
buffers_of i = record { buffer_offs = i.val_offs; descr_offs = i.descr_offs }

-- Two stretches of `size` bytes do not overlap.
abbrev pub Disjoint : ℕ → ℕ → ℕ → Type 0
Disjoint size a b = (a + size ≤ b) ⊎ (b + size ≤ a)

-- Two pairs of buffers are apart.
pub record Apart (vs ds : ℕ) (a b : FreeListEntry) : Type 0 where
  pub values : Disjoint vs a.buffer_offs b.buffer_offs
  pub descrs : Disjoint ds a.descr_offs b.descr_offs

pub Apart-sym : (vs ds : ℕ) (a b : FreeListEntry) → Apart vs ds a b → Apart vs ds b a
Apart-sym vs ds a b h = record {
  values = omega (arith, h.values);
  descrs = omega (arith, h.descrs);
}

abbrev pub AllApart : ℕ → ℕ → FreeListEntry → List FreeListEntry → Type 0
AllApart vs ds a [] = Unit {0}
AllApart vs ds a (x ∷ xs) = Apart vs ds a x × AllApart vs ds a xs

abbrev pub Separate : ℕ → ℕ → List FreeListEntry → Type 0
Separate vs ds [] = Unit {0}
Separate vs ds (x ∷ xs) = AllApart vs ds x xs × Separate vs ds xs

pub AllApart-snoc :
    (vs ds : ℕ) (a x : FreeListEntry) (xs : List FreeListEntry)
    → AllApart vs ds a xs
    → Apart vs ds a x
    → AllApart vs ds a (xs ++ (x ∷ []))
AllApart-snoc vs ds a x [] h k = (k, tt)
AllApart-snoc vs ds a x (y ∷ ys) h k = (h.0, AllApart-snoc vs ds a x ys h.1 k)

pub Separate-snoc :
    (vs ds : ℕ) (x : FreeListEntry) (xs : List FreeListEntry)
    → Separate vs ds xs
    → AllApart vs ds x xs
    → Separate vs ds (xs ++ (x ∷ []))
Separate-snoc vs ds x [] h k = (tt, tt)
Separate-snoc vs ds x (y ∷ ys) h k =
    (AllApart-snoc vs ds y x ys h.0 (Apart-sym vs ds x y k.0), Separate-snoc vs ds x ys h.1 k.1)

-- The identifiers below `n` that are allocated.
abbrev pub used_below : (ℕ → ArrayState) → ℕ → ℕ
used_below f zero = 0
used_below f (suc n) = (if (f n).used then 1 else 0) + used_below f n

used_below-above :
    (f : ℕ → ArrayState) (v : ℕ) (i : ArrayState) (n : ℕ)
    → n ≤ v
    → used_below (update f v i) n ≡ used_below f n
used_below-above f v i zero h = refl
used_below-above f v i (suc n) h = ground (arith, used_below-above f v i n)

-- What an update of one slot does to the count.
pub used_below-update :
    (f : ℕ → ArrayState) (v : ℕ) (i : ArrayState) (n : ℕ)
    → v < n
    → used_below (update f v i) n + (if (f v).used then 1 else 0)
      ≡ used_below f n + (if i.used then 1 else 0)
used_below-update f v i zero h = absurd (omega arith)
used_below-update f v i (suc n) h =
    ground (arith, used_below-update f v i n, used_below-above f v i n, ==_refl v)

-- Two used slots count the same, a freed slot one less.
pub used_below-same :
    (f : ℕ → ArrayState) (v : ℕ) (i : ArrayState) (n : ℕ)
    → v < n
    → (f v).used ≡ true
    → i.used ≡ true
    → used_below (update f v i) n ≡ used_below f n
used_below-same f v i n h u k = ground (arith, u, k, used_below-update f v i n h)

pub used_below-freed :
    (f : ℕ → ArrayState) (v : ℕ) (i : ArrayState) (n : ℕ)
    → v < n
    → (f v).used ≡ true
    → i.used ≡ false
    → suc (used_below (update f v i) n) ≡ used_below f n
used_below-freed f v i n h u k = ground (arith, u, k, used_below-update f v i n h)

used_below-le : (f : ℕ → ArrayState) (n : ℕ) → used_below f n ≤ n
used_below-le f zero = omega arith
used_below-le f (suc n) = ground (arith, used_below-le f n)

-- As long as an identifier is free, not all are in use.
pub used_below-lt : (f : ℕ → ArrayState) (v n : ℕ) → v < n → (f v).used ≡ false → used_below f n < n
used_below-lt f v zero h u = absurd (omega arith)
used_below-lt f v (suc n) h u = ground (arith, used_below-lt f v n, used_below-le f n)

pub record IsValid (c : ArrayContents) : Type 0 where
  pub ring : Refine.IsValid c.free_list
  pub capacity : c.free_list.max_capacity ≡ number_identifiers
  pub balanced :
      length (contents c.free_list) + used_below c.id_states number_identifiers ≡ number_identifiers
  pub separate : Separate c.value_buffer_size c.descr_buffer_size (contents c.free_list)
  pub free_apart :
      (v : ℕ)
      → (c.id_states v).used ≡ true
      → AllApart c.value_buffer_size c.descr_buffer_size
          (buffers_of (c.id_states v))
          (contents c.free_list)
  pub used_apart :
      (v w : ℕ)
      → v ≢ w
      → (c.id_states v).used ≡ true
      → (c.id_states w).used ≡ true
      → Apart c.value_buffer_size c.descr_buffer_size
          (buffers_of (c.id_states v))
          (buffers_of (c.id_states w))
  pub val_fits : (v : ℕ) → (c.id_states v).val_size ≤ c.value_buffer_size
  pub descr_fits : (v : ℕ) → (c.id_states v).descr_size ≤ c.descr_buffer_size
  pub unused_empty :
      (v : ℕ)
      → (c.id_states v).used ≡ false
      → ((c.id_states v).val_size ≡ 0) × ((c.id_states v).descr_size ≡ 0)
