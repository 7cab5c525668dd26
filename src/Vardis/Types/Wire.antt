-- ===== src/Vardis/Types/Wire.antt =====
-- The wire format of the records as lists of bytes, and that `serialize` writes it.
use dcp_vardis.Prelude.{
  ℕ, ◌+◌, ◌%◌, ◌^◌, ◌<◌, ◌≡◌, refl, List, [], ◌∷◌, ◌++◌, arith, length, length-append, ltb,
  if◌then◌else◌, suc, lt→ltb,
}
use dcp_vardis.Prelude.Effect.{pure}
use dcp_vardis.Common.TimeStamp.{HostClock}
use dcp_vardis.Common.Area.{serialize_byte_block}
use dcp_vardis.Common.Area.Write.{
  Writes, Writes->>, Writes-byte, Writes-block, Writes-pure, Writes-uint16, big_endian,
}
use dcp_vardis.Vardis.Types.{
  VarValueT, StringT, VarSummT, VarUpdateT, VarSpecT, VarCreateT, IcHeaderT, var_update_fixed_size,
  var_spec_fixed_size,
}
use dcp_vardis.Vardis.Types.Codec.{
  node_id, serialize_value, serialize_string, serialize_node_id, serialize_summ, serialize_update,
  serialize_spec, serialize_create, serialize_header,
}

-- The two lengths of a value agree and fit the byte that is written.
pub record IsValidValue (v : VarValueT) : Type 0 where
  pub same : v.len ≡ length v.block
  pub small : v.len < 2 ^ 8

abbrev pub encode_value : VarValueT → List ℕ
encode_value v = v.len ∷ v.block

abbrev pub encode_string : StringT → List ℕ
encode_string s = (length s % 2 ^ 8) ∷ s

abbrev pub encode_summ : VarSummT → List ℕ
encode_summ s = s.var_id ∷ s.seqno ∷ []

abbrev pub encode_update : VarUpdateT → List ℕ
encode_update u = u.var_id ∷ u.seqno ∷ encode_value u.value

abbrev pub encode_header : IcHeaderT → List ℕ
encode_header h = h.ic_type ∷ h.ic_num_records ∷ []

-- A block behind its length: nothing is written where the length is 0.
Writes-block_if :
    (n : ℕ) (pb : List ℕ)
    → n ≡ length pb
    → Writes (if ltb 0 n then serialize_byte_block pb else pure tt) pb
Writes-block_if n [] e = rw e Writes-pure
Writes-block_if n (b ∷ bs) e =
    rw (e, lt→ltb 0 (suc (length bs)) (omega arith)) (Writes-block (b ∷ bs) (omega arith))

pub Writes-value : (v : VarValueT) → IsValidValue v → Writes (serialize_value v) (encode_value v)
unfolding serialize_value
Writes-value v h = Writes->> (Writes-byte v.len) (Writes-block_if v.len v.block h.same)

Writes-string : (s : StringT) → Writes (serialize_string s) (encode_string s)
unfolding serialize_string
Writes-string s = Writes->> (Writes-byte (length s % 2 ^ 8)) (Writes-block_if (length s) s refl)

pub Writes-node_id : (n : ℕ) → Writes (serialize_node_id n) (node_id n)
unfolding serialize_node_id
Writes-node_id n = Writes-block (node_id n) (omega arith)

pub Writes-summ : (s : VarSummT) → Writes (serialize_summ s) (encode_summ s)
unfolding serialize_summ
Writes-summ s = Writes->> (Writes-byte s.var_id) (Writes-byte s.seqno)

pub Writes-update :
    (u : VarUpdateT) → IsValidValue u.value → Writes (serialize_update u) (encode_update u)
unfolding serialize_update
Writes-update u h =
    Writes->> (Writes-byte u.var_id) (Writes->> (Writes-byte u.seqno) (Writes-value u.value h))

pub Writes-header : (h : IcHeaderT) → Writes (serialize_header h) (encode_header h)
unfolding serialize_header
Writes-header h = Writes->> (Writes-byte h.ic_type) (Writes-byte h.ic_num_records)

module _ (clock : HostClock) where
  open clock use {to_bytes, length_to_bytes}

  abbrev pub encode_spec : VarSpecT → List ℕ
  encode_spec s =
      s.var_id
      ∷ (node_id s.prod_id
          ++ (s.rep_cnt
              ∷ (to_bytes s.creation_time ++ (big_endian 2 s.timeout ++ encode_string s.descr))))

  abbrev pub encode_create : VarCreateT → List ℕ
  encode_create c = encode_spec c.spec ++ encode_update c.update

  pub length-encode_spec :
      (s : VarSpecT) → length (encode_spec s) ≡ var_spec_fixed_size + length s.descr
  length-encode_spec s = omega (
    arith,
    length_to_bytes s.creation_time,
    length-append (to_bytes s.creation_time) (big_endian 2 s.timeout ++ encode_string s.descr),
  )

  -- The size of a record is the one by which the sender plans: the fixed size of its two parts, the
  -- length of the description and that of the value.
  pub length-encode_create :
      (c : VarCreateT)
      → length (encode_create c)
        ≡ var_spec_fixed_size
          + length c.spec.descr
          + var_update_fixed_size
          + length c.update.value.block
  length-encode_create c = omega (
    arith,
    length-append (encode_spec c.spec) (encode_update c.update),
    length-encode_spec c.spec,
  )

  Writes-spec : (s : VarSpecT) → Writes (serialize_spec clock s) (encode_spec s)
  unfolding serialize_spec
  Writes-spec s = Writes->> (Writes-byte s.var_id) (
      Writes->> (Writes-node_id s.prod_id) (
        Writes->> (Writes-byte s.rep_cnt) (
          Writes->>
            (Writes-block (to_bytes s.creation_time)
              (omega (arith, length_to_bytes s.creation_time)))
            (Writes->> (Writes-uint16 s.timeout) (Writes-string s.descr)))))

  pub Writes-create :
      (c : VarCreateT)
      → IsValidValue c.update.value
      → Writes (serialize_create clock c) (encode_create c)
  unfolding serialize_create
  Writes-create c h = Writes->> (Writes-spec c.spec) (Writes-update c.update h)
