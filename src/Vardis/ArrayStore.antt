-- ===== src/Vardis/ArrayStore.antt =====
-- ArrayVariableStoreBase of dcp/vardis/vardis_store_array.h: the variable store in one piece of
-- memory. Values and descriptions lie in two byte arrays, at offsets that identifiers take from a
-- free list. The byte arrays are functions on their indices, so that an access beyond their end is not
-- an error here; null pointers and the versions of the functions for raw buffers are not modelled.
pub mod Valid
pub mod Refine
pub mod Allocate
pub mod Deallocate
pub mod Kept
pub mod Run
pub mod Init
use dcp_vardis.Prelude.{
  ℕ, zero, suc, ◌+◌, ◌-◌, ◌*◌, ◌/◌, ◌%◌, ◌^◌, Bool, true, false, not, List, [], ◌∷◌, length,
  if◌then◌else◌, ltb, leb, ◌==◌, update,
}
use dcp_vardis.Prelude.Effect.{
  Outcome, Exec, Void, ok, throw, ◌>>=◌, ◌>>◌, pure, raise, modify, vardis_store_exception,
}
use dcp_vardis.Common.RingBuffer
use dcp_vardis.Common.RingBuffer.{RingBuffer, is_empty}
use dcp_vardis.Vardis.Types.{VarValueT, StringT}
use dcp_vardis.Vardis.Store.{DbEntry, Statistics}
use dcp_vardis.Common.Memory.{write_block, read_block}

-- IdentifierState
pub record ArrayState : Type 0 where
  pub db_entry : DbEntry
  pub used : Bool
  pub val_offs : ℕ
  pub descr_offs : ℕ
  pub val_size : ℕ
  pub descr_size : ℕ

pub record FreeListEntry : Type 0 where
  pub buffer_offs : ℕ
  pub descr_offs : ℕ

-- VarIdT::max_number_identifiers, and as many buffers.
abbrev pub number_identifiers : ℕ
number_identifiers = 256

-- ArrayContents with the template's two sizes; of the global state, what the protocol uses while it
-- runs.
pub record ArrayContents : Type 0 where
  pub value_buffer_size : ℕ
  pub descr_buffer_size : ℕ
  pub is_active : Bool
  pub stats : Statistics
  pub number_current_variables : ℕ
  pub id_states : ℕ → ArrayState
  pub free_list : RingBuffer FreeListEntry
  pub value_buffer : ℕ → ℕ
  pub description_buffer : ℕ → ℕ

-- The size of a buffer in the arrays, a multiple of the size of uint64_t.
abbrev pub actual_buffer_size : ℕ → ℕ
actual_buffer_size size = 8 * ((size + 2 * 8) / 8)

abbrev pub set_state : ℕ → ArrayState → ArrayContents → ArrayContents
set_state v i c = record c { id_states = update c.id_states v i }

abbrev with_free_list :
    {A : Type 0} → ArrayContents → Outcome (RingBuffer FreeListEntry) A → Outcome ArrayContents A
with_free_list c (ok a r) = ok a (record c { free_list = r })
with_free_list c (throw e r) = throw e (record c { free_list = r })

abbrev on_free_list : {A : Type 0} → Exec (RingBuffer FreeListEntry) A → Exec ArrayContents A
on_free_list m c = with_free_list c (m c.free_list)

-- The loop of `initialize_array_store`, with `i` the next index and `n` the rounds that are left.
unfoldable pub fill_free_list : ℕ → ℕ → Exec ArrayContents Void
fill_free_list i zero c = pure tt c
fill_free_list i (suc n) c =
    (do
      on_free_list (
          RingBuffer.push (record {
            buffer_offs = i * actual_buffer_size c.value_buffer_size;
            descr_offs = i * actual_buffer_size c.descr_buffer_size;
          }))
      fill_free_list (i + 1) n)
      c

-- ArrayContents as its constructor leaves it, in memory that holds `values` and `descrs`, and an
-- array of free list entries and identifier states in `ring` and `states`.
abbrev pub new_contents :
    ℕ → ℕ → Statistics → (ℕ → DbEntry) → (ℕ → ℕ) → (ℕ → ℕ) → (ℕ → FreeListEntry) → ArrayContents
new_contents value_size descr_size stats entries values descrs ring = record {
  value_buffer_size = value_size;
  descr_buffer_size = descr_size;
  is_active = true;
  stats = stats;
  number_current_variables = 0;
  id_states = λ v. record {
    db_entry = entries v;
    used = false;
    val_offs = 0;
    descr_offs = 0;
    val_size = 0;
    descr_size = 0;
  };
  free_list = record {
    max_ring_buffer_elements = number_identifiers + 1;
    next_in = 0;
    next_out = 0;
    max_capacity = number_identifiers;
    current_number_elements = 0;
    the_ring = ring;
  };
  value_buffer = values;
  description_buffer = descrs;
}

-- The tests on the lengths are in unsigned arithmetic of 64 bits. The configuration that is stored
-- afterwards is in Data.
unfoldable pub initialize_array_store : ℕ → ℕ → Exec ArrayContents Void
unfolding fill_free_list
initialize_array_store max_descr_len max_val_len c =
    if leb ((c.descr_buffer_size + 2 ^ 64 - 8) % 2 ^ 64) max_descr_len
    then raise vardis_store_exception c
    else if leb ((c.value_buffer_size + 2 ^ 64 - 8) % 2 ^ 64) max_val_len
    then raise vardis_store_exception c
    else fill_free_list 0 number_identifiers c

-- An identifier takes over a pair of buffers.
unfoldable pub occupy : ℕ → FreeListEntry → ArrayContents → ArrayContents
occupy v e c =
    set_state v
      (record (c.id_states v) { used = true; val_offs = e.buffer_offs; descr_offs = e.descr_offs })
      (record c { number_current_variables = (c.number_current_variables + 1) % 2 ^ 32 })

unfoldable pub allocate_identifier : ℕ → Exec ArrayContents Void
unfolding is_empty occupy
allocate_identifier v c =
    if (c.id_states v).used
    then raise vardis_store_exception c
    else if is_empty c.free_list
    then raise vardis_store_exception c
    else (do fl_entry ← on_free_list RingBuffer.pop; modify (occupy v fl_entry)) c

unfoldable pub vacate : ℕ → ArrayContents → ArrayContents
vacate v c = set_state v (record (c.id_states v) { used = false; val_size = 0; descr_size = 0 }) c

unfoldable pub deallocate_identifier : ℕ → Exec ArrayContents Void
unfolding vacate
deallocate_identifier v c =
    if not (c.id_states v).used
    then raise vardis_store_exception c
    else (do
      modify (vacate v)
      on_free_list (
          RingBuffer.push (record {
            buffer_offs = (c.id_states v).val_offs;
            descr_offs = (c.id_states v).descr_offs;
          }))
      modify (λ c. record c {
        number_current_variables = (c.number_current_variables + 2 ^ 32 - 1) % 2 ^ 32;
      }))
        c

unfoldable pub identifier_is_allocated : ArrayContents → ℕ → Bool
identifier_is_allocated c v = (c.id_states v).used

unfoldable pub set_db_entry : ℕ → DbEntry → Exec ArrayContents Void
set_db_entry v new_entry c =
    if not (c.id_states v).used
    then raise vardis_store_exception c
    else modify (λ c. set_state v (record (c.id_states v) { db_entry = new_entry }) c) c

-- Reading, and writing, through the reference that `get_db_entry_ref` returns.
unfoldable pub get_db_entry : ℕ → Exec ArrayContents DbEntry
get_db_entry v c =
    if not (c.id_states v).used
    then raise vardis_store_exception c
    else pure (c.id_states v).db_entry c

unfoldable pub modify_db_entry : ℕ → (DbEntry → DbEntry) → Exec ArrayContents Void
modify_db_entry v f c =
    if not (c.id_states v).used
    then raise vardis_store_exception c
    else modify
        (λ c. set_state v (record (c.id_states v) { db_entry = f (c.id_states v).db_entry }) c) c

unfoldable pub update_value : ℕ → VarValueT → Exec ArrayContents Void
unfolding write_block
update_value v newval c =
    if not (c.id_states v).used
    then raise vardis_store_exception c
    else if length newval.block == 0
    then raise vardis_store_exception c
    else if ltb c.value_buffer_size (length newval.block)
    then raise vardis_store_exception c
    else modify
        (λ c.
          set_state v (record (c.id_states v) { val_size = length newval.block })
            (record c {
              value_buffer = write_block c.value_buffer (c.id_states v).val_offs newval.block;
            }))
        c

unfoldable pub read_value : ℕ → Exec ArrayContents VarValueT
unfolding read_block
read_value v c =
    if not (c.id_states v).used
    then raise vardis_store_exception c
    else pure
        (record {
          len = (c.id_states v).val_size % 2 ^ 8;
          block = read_block c.value_buffer (c.id_states v).val_offs (c.id_states v).val_size;
        })
        c

unfoldable pub size_of_value : ArrayContents → ℕ → ℕ
size_of_value c v = (c.id_states v).val_size

unfoldable pub update_description : ℕ → StringT → Exec ArrayContents Void
unfolding write_block
update_description v new_descr c =
    if not (c.id_states v).used
    then raise vardis_store_exception c
    else if length new_descr == 0
    then raise vardis_store_exception c
    else if ltb c.descr_buffer_size (length new_descr)
    then raise vardis_store_exception c
    else modify
        (λ c.
          set_state v (record (c.id_states v) { descr_size = length new_descr })
            (record c {
              description_buffer =
                  write_block c.description_buffer (c.id_states v).descr_offs new_descr;
            }))
        c

unfoldable pub read_description : ℕ → Exec ArrayContents StringT
unfolding read_block
read_description v c =
    if not (c.id_states v).used
    then raise vardis_store_exception c
    else pure
        (read_block c.description_buffer (c.id_states v).descr_offs (c.id_states v).descr_size) c

unfoldable pub size_of_description : ArrayContents → ℕ → ℕ
size_of_description c v = (c.id_states v).descr_size
