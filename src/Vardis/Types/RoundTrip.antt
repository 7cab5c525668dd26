-- ===== src/Vardis/Types/RoundTrip.antt =====
-- Reading a record back from the bytes that `serialize` wrote for it.
use mathlib.Core.List.{append-nil}
use dcp_vardis.Prelude.{
  ℕ, ◌%◌, ◌^◌, ◌<◌, ◌≤◌, ◌≡◌, subst, List, [], ◌∷◌, ◌++◌, arith, length, ltb, if◌then◌else◌, suc,
  lt→ltb,
}
use dcp_vardis.Prelude.Effect.{ok, Exec, ◌>>=◌, pure}
use dcp_vardis.Common.TimeStamp.{HostClock}
use dcp_vardis.Common.Area.{AssemblyArea, DisassemblyArea, deserialize_byte_block}
use dcp_vardis.Common.Area.Write.{append}
use dcp_vardis.Common.Area.Read.{
  advance, Reads, Reads->>=, Reads-pure, Reads-byte, Reads-block, Reads-uint16,
}
use dcp_vardis.Vardis.Types.{
  VarValueT, StringT, VarSummT, VarUpdateT, VarSpecT, VarCreateT, IcHeaderT,
}
use dcp_vardis.Vardis.Types.Codec.{
  node_id, to_uint64_t, deserialize_value, deserialize_string, deserialize_node_id,
  deserialize_summ, deserialize_update, deserialize_spec, deserialize_create, deserialize_header,
  serialize_create,
}
use dcp_vardis.Vardis.Types.Wire.{
  IsValidValue, Writes-create, encode_value, encode_string, encode_summ, encode_update, encode_spec,
  encode_create, encode_header,
}

-- A read whose result is returned with no more bytes read.
pub Reads-map :
    {A B : Type 0} {m : Exec DisassemblyArea A} (f : A → B) {x : A} {bs : List ℕ}
    → Reads m x bs
    → Reads (m >>= λ a. pure (f a)) (f x) bs
Reads-map {m = m} f {x} {bs} r =
    subst (Reads (m >>= λ a. pure (f a)) (f x)) (append-nil bs) (Reads->>= _ r (Reads-pure (f x)))

Reads-block_if :
    (n : ℕ) (pb : List ℕ)
    → n ≡ length pb
    → Reads (if ltb 0 n then deserialize_byte_block n else pure []) pb pb
Reads-block_if n [] e = rw e (Reads-pure [])
Reads-block_if n (b ∷ bs) e =
    rw (e, lt→ltb 0 (suc (length bs)) (omega arith)) (Reads-block (b ∷ bs) (omega arith))

pub Reads-value : (v : VarValueT) → IsValidValue v → Reads deserialize_value v (encode_value v)
unfolding deserialize_value
Reads-value v h = Reads->>= _ (Reads-byte v.len) (
    Reads-map (λ block. record { len = v.len; block = block })
      (Reads-block_if v.len v.block h.same))

Reads-string : (s : StringT) → length s < 2 ^ 8 → Reads deserialize_string s (encode_string s)
unfolding deserialize_string
Reads-string s h =
    Reads->>= _ (Reads-byte (length s % 2 ^ 8)) (Reads-block_if (length s % 2 ^ 8) s (omega arith))

to_uint64_t-node_id : (n : ℕ) → n < 2 ^ 48 → to_uint64_t (node_id n) ≡ n
unfolding to_uint64_t
to_uint64_t-node_id n h = omega arith

pub Reads-node_id : (n : ℕ) → n < 2 ^ 48 → Reads deserialize_node_id n (node_id n)
unfolding deserialize_node_id
Reads-node_id n h =
    subst (λ x. Reads deserialize_node_id x (node_id n)) (to_uint64_t-node_id n h)
      (Reads-map to_uint64_t (Reads-block (node_id n) (omega arith)))

pub Reads-summ : (s : VarSummT) → Reads deserialize_summ s (encode_summ s)
unfolding deserialize_summ
Reads-summ s =
    Reads->>= _ (Reads-byte s.var_id)
      (Reads-map (λ seqno. record { var_id = s.var_id; seqno = seqno }) (Reads-byte s.seqno))

pub Reads-update :
    (u : VarUpdateT) → IsValidValue u.value → Reads deserialize_update u (encode_update u)
unfolding deserialize_update
Reads-update u h = Reads->>= _ (Reads-byte u.var_id) (
    Reads->>= _ (Reads-byte u.seqno) (
      Reads-map (λ value. record { var_id = u.var_id; seqno = u.seqno; value = value })
        (Reads-value u.value h)))

pub Reads-header : (h : IcHeaderT) → Reads deserialize_header h (encode_header h)
unfolding deserialize_header
Reads-header h = Reads->>= _ (Reads-byte h.ic_type) (
    Reads-map (λ n. record { ic_type = h.ic_type; ic_num_records = n })
      (Reads-byte h.ic_num_records))

-- The fields of a specification fit the integers that carry them.
pub record IsValidSpec (s : VarSpecT) : Type 0 where
  pub prod_id_small : s.prod_id < 2 ^ 48
  pub creation_time_small : s.creation_time < 2 ^ 63
  pub timeout_small : s.timeout < 2 ^ 16
  pub descr_small : length s.descr < 2 ^ 8

module _ (clock : HostClock) where
  open clock use {to_bytes, of_bytes, length_to_bytes, of_bytes_to_bytes}

  Reads-time : (t : ℕ) → Reads (deserialize_byte_block 8) (to_bytes t) (to_bytes t)
  Reads-time t =
      subst (λ n. Reads (deserialize_byte_block n) (to_bytes t) (to_bytes t)) (length_to_bytes t)
        (Reads-block (to_bytes t) (omega (arith, length_to_bytes t)))

  pub Reads-spec :
      (s : VarSpecT) → IsValidSpec s → Reads (deserialize_spec clock) s (encode_spec clock s)
  unfolding deserialize_spec
  Reads-spec s h = Reads->>= _ (Reads-byte s.var_id) (
      Reads->>= _ (Reads-node_id s.prod_id h.prod_id_small) (
        Reads->>= _ (Reads-byte s.rep_cnt) (
          Reads->>= _ (Reads-time s.creation_time) (
            Reads->>= _ (Reads-uint16 s.timeout h.timeout_small) (
              subst
                (λ t.
                  Reads
                    (deserialize_string >>= λ d.
                      pure (spec_of s d (of_bytes (to_bytes s.creation_time))))
                    (spec_of s s.descr t) (encode_string s.descr))
                (of_bytes_to_bytes s.creation_time h.creation_time_small)
                (Reads-map (λ d. spec_of s d (of_bytes (to_bytes s.creation_time)))
                  (Reads-string s.descr h.descr_small)))))))
    where
      spec_of : VarSpecT → StringT → ℕ → VarSpecT
      spec_of s d t = record s { creation_time = t; descr = d }

  pub Reads-create :
      (c : VarCreateT)
      → IsValidSpec c.spec
      → IsValidValue c.update.value
      → Reads (deserialize_create clock) c (encode_create clock c)
  unfolding deserialize_create
  Reads-create c h k =
      Reads->>= _ (Reads-spec c.spec h)
        (Reads-map (λ u. record { spec = c.spec; update = u }) (Reads-update c.update k))

-- For a VarCreate whose fields fit the integers that carry them: `serialize` writes its encoding
-- into an area with room for it, and `deserialize`, on an area that continues with the encoding,
-- returns the VarCreate and stops just behind it.
pub create_round_trip :
    (clock : HostClock) (c : VarCreateT) (a : AssemblyArea) (d : DisassemblyArea) (rest : List ℕ)
    → IsValidSpec c.spec
    → IsValidValue c.update.value
    → length (encode_create clock c) ≤ a.bytes_available
    → d.pending ≡ encode_create clock c ++ rest
    → length (encode_create clock c) ≤ d.bytes_available
    → (serialize_create clock c a ≡ ok tt (append a (encode_create clock c)))
      × (deserialize_create clock d ≡ ok c (advance d (length (encode_create clock c)) rest))
create_round_trip clock c a d rest h k room e enough =
    ((Writes-create clock c k).fits a room, (Reads-create clock c h k).reads d rest e enough)
