-- ===== src/Common/Area.antt =====
-- dcp/common/area.h: areas into which records are serialized and from which they are read, over a
-- chunk of memory (MemoryChunkAssemblyArea, MemoryChunkDisassemblyArea).
-- `written` is the buffer up to `pointer`, `pending` the buffer from `pointer` on. A null pointer
-- is not modelled: the callers hand over the address of a buffer.
pub mod Write
pub mod Read
use dcp_vardis.Prelude.{
  ℕ, ◌+◌, ◌-◌, ◌*◌, ◌/◌, ◌%◌, ◌^◌, List, [], ◌∷◌, ◌++◌, ◌||◌, length, take, drop, if◌then◌else◌,
  ltb, ◌==◌,
}
use dcp_vardis.Prelude.Effect.{
  Exec, Void, ◌>>=◌, ◌>>◌, pure, raise, gets, modify, area_exception, assembly_area_exception,
  disassembly_area_exception, out_of_bounds,
}

-- Area, with `bytes_used` and `bytes_available` of at most `initial_available`, so that neither
-- `+=` nor `-=` wraps.
pub record AssemblyArea : Type 0 where
  pub initial_available : ℕ
  pub bytes_available : ℕ
  pub bytes_used : ℕ
  pub written : List ℕ

pub record DisassemblyArea : Type 0 where
  pub initial_available : ℕ
  pub bytes_available : ℕ
  pub bytes_used : ℕ
  pub pending : List ℕ

-- The constructor of MemoryChunkAssemblyArea, over memory that it is given.
unfoldable pub new_assembly_area : ℕ → Exec Void AssemblyArea
new_assembly_area size =
    if size == 0
    then raise assembly_area_exception
    else pure
        (record { initial_available = size; bytes_available = size; bytes_used = 0; written = [] })

unfoldable pub new_disassembly_area : List ℕ → DisassemblyArea
new_disassembly_area memblock = record {
  initial_available = length memblock;
  bytes_available = length memblock;
  bytes_used = 0;
  pending = memblock;
}

-- Area::incr, together with the write through `pointer` before it.
unfoldable pub incr : List ℕ → Exec AssemblyArea Void
incr bs a =
    let by = length bs in
    if ltb a.bytes_available by
    then raise area_exception a
    else modify
        (λ a. record a {
          bytes_used = a.bytes_used + by;
          bytes_available = a.bytes_available - by;
          written = a.written ++ bs;
        })
        a

unfoldable pub assert_block : ℕ → Exec AssemblyArea Void
assert_block size a =
    if size == 0
    then raise area_exception a
    else if ltb a.bytes_available size
    then raise area_exception a
    else pure tt a

-- AssemblyArea::resize: `available` becomes what the new size leaves over.
unfoldable pub resize : ℕ → Exec AssemblyArea Void
resize new_initial a =
    if new_initial == 0 || ltb new_initial a.bytes_used
    then raise area_exception a
    else modify
        (λ a. record a {
          initial_available = new_initial;
          bytes_available = new_initial - a.bytes_used;
        })
        a

-- MemoryChunkAssemblyArea::reset
unfoldable pub reset : Exec AssemblyArea Void
reset = modify λ a. record a { bytes_available = a.initial_available; bytes_used = 0; written = [] }

unfoldable pub serialize_byte : ℕ → Exec AssemblyArea Void
unfolding incr
serialize_byte b a =
    if a.bytes_available == 0 then raise assembly_area_exception a else incr (b ∷ []) a

unfoldable pub serialize_byte_block : List ℕ → Exec AssemblyArea Void
unfolding assert_block incr
serialize_byte_block pb = do assert_block (length pb); incr pb

unfoldable pub serialize_uint16_n : ℕ → Exec AssemblyArea Void
unfolding serialize_byte
serialize_uint16_n val a =
    if ltb a.bytes_available 2 then raise assembly_area_exception a else write a
  where
    write : Exec AssemblyArea Void
    write = do serialize_byte (val / 2 ^ 8 % 2 ^ 8); serialize_byte (val % 2 ^ 8)

unfoldable pub serialize_uint32_n : ℕ → Exec AssemblyArea Void
unfolding serialize_byte
serialize_uint32_n val a =
    if ltb a.bytes_available 4 then raise assembly_area_exception a else write a
  where
    write : Exec AssemblyArea Void
    write = do
      serialize_byte (val / 2 ^ 24 % 2 ^ 8)
      serialize_byte (val / 2 ^ 16 % 2 ^ 8)
      serialize_byte (val / 2 ^ 8 % 2 ^ 8)
      serialize_byte (val % 2 ^ 8)

-- The guard is on `sizeof(uint32_t)`, as in the source.
unfoldable pub serialize_uint64_n : ℕ → Exec AssemblyArea Void
unfolding serialize_byte
serialize_uint64_n val a =
    if ltb a.bytes_available 4 then raise assembly_area_exception a else write a
  where
    write : Exec AssemblyArea Void
    write = do
      serialize_byte (val / 2 ^ 56 % 2 ^ 8)
      serialize_byte (val / 2 ^ 48 % 2 ^ 8)
      serialize_byte (val / 2 ^ 40 % 2 ^ 8)
      serialize_byte (val / 2 ^ 32 % 2 ^ 8)
      serialize_byte (val / 2 ^ 24 % 2 ^ 8)
      serialize_byte (val / 2 ^ 16 % 2 ^ 8)
      serialize_byte (val / 2 ^ 8 % 2 ^ 8)
      serialize_byte (val % 2 ^ 8)

-- Area::incr of a disassembly area, with the pointer moved over the bytes that were read.
unfoldable pub skip : ℕ → Exec DisassemblyArea Void
skip by d =
    if ltb d.bytes_available by
    then raise area_exception d
    else modify
        (λ d. record d {
          bytes_used = d.bytes_used + by;
          bytes_available = d.bytes_available - by;
          pending = drop by d.pending;
        })
        d

-- Read `*pointer`.
first : List ℕ → Exec DisassemblyArea ℕ
first [] = raise out_of_bounds
first (b ∷ bs) = pure b

-- Area::resize of a disassembly area.
unfoldable pub resize_disassembly : ℕ → Exec DisassemblyArea Void
resize_disassembly new_initial d =
    if new_initial == 0 || ltb new_initial d.bytes_used
    then raise area_exception d
    else modify
        (λ d. record d {
          initial_available = new_initial;
          bytes_available = new_initial - d.bytes_used;
        })
        d

unfoldable pub deserialize_byte : Exec DisassemblyArea ℕ
unfolding first skip
deserialize_byte d = if d.bytes_available == 0 then raise disassembly_area_exception d else read d
  where
    read : Exec DisassemblyArea ℕ
    read = do b ← first d.pending; skip 1; pure b

unfoldable pub peek_byte : Exec DisassemblyArea ℕ
unfolding first
peek_byte d =
    if d.bytes_available == 0 then raise disassembly_area_exception d else first d.pending d

unfoldable pub deserialize_byte_block : ℕ → Exec DisassemblyArea (List ℕ)
unfolding skip
deserialize_byte_block size d =
    if size == 0
    then raise area_exception d
    else if ltb d.bytes_available size
    then raise area_exception d
    else if ltb (length d.pending) size
    then raise out_of_bounds d
    else (do skip size; pure (take size d.pending)) d

unfoldable pub deserialize_uint16_n : Exec DisassemblyArea ℕ
unfolding deserialize_byte
deserialize_uint16_n d =
    if ltb d.bytes_available 2 then raise disassembly_area_exception d else read d
  where
    read : Exec DisassemblyArea ℕ
    read = do b1 ← deserialize_byte; b2 ← deserialize_byte; pure ((b1 * 2 ^ 8 + b2) % 2 ^ 16)

-- The guard is on `sizeof(uint16_t)`, as in the source.
unfoldable pub deserialize_uint32_n : Exec DisassemblyArea ℕ
unfolding deserialize_byte
deserialize_uint32_n d =
    if ltb d.bytes_available 2 then raise disassembly_area_exception d else read d
  where
    read : Exec DisassemblyArea ℕ
    read = do
      b1 ← deserialize_byte
      b2 ← deserialize_byte
      b3 ← deserialize_byte
      b4 ← deserialize_byte
      pure ((b1 * 2 ^ 24 + b2 * 2 ^ 16 + b3 * 2 ^ 8 + b4) % 2 ^ 32)
