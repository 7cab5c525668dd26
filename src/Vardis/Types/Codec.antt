-- ===== src/Vardis/Types/Codec.antt =====
-- The `serialize` and `deserialize` functions of dcp/vardis/vardis_transmissible_types.h, and those of
-- StringT, NodeIdentifierT and TimeStampT in dcp/common/global_types_constants.h.
use dcp_vardis.Prelude.{ℕ, ◌+◌, ◌*◌, ◌/◌, ◌%◌, ◌^◌, List, [], ◌∷◌, length, if◌then◌else◌, ltb}
use dcp_vardis.Prelude.Effect.{Exec, Void, ◌>>=◌, ◌>>◌, pure}
use dcp_vardis.Common.TimeStamp.{HostClock}
use dcp_vardis.Common.Area.{
  AssemblyArea, DisassemblyArea, serialize_byte, serialize_byte_block, serialize_uint16_n,
  deserialize_byte, deserialize_byte_block, deserialize_uint16_n,
}
use dcp_vardis.Vardis.Types.{
  VarValueT, StringT, VarSummT, VarUpdateT, VarSpecT, VarCreateT, VarDeleteT, VarReqUpdateT,
  VarReqCreateT, IcHeaderT,
}

unfoldable pub serialize_value : VarValueT → Exec AssemblyArea Void
serialize_value v = do
  serialize_byte v.len
  if ltb 0 v.len then serialize_byte_block v.block else pure tt

unfoldable pub deserialize_value : Exec DisassemblyArea VarValueT
deserialize_value = do
  len ← deserialize_byte
  block ← if ltb 0 len then deserialize_byte_block len else pure []
  pure (record { len = len; block = block })

unfoldable pub serialize_string : StringT → Exec AssemblyArea Void
serialize_string s = do
  serialize_byte (length s % 2 ^ 8)
  if ltb 0 (length s) then serialize_byte_block s else pure tt

unfoldable pub deserialize_string : Exec DisassemblyArea StringT
deserialize_string = do
  len ← deserialize_byte
  if ltb 0 len then deserialize_byte_block len else pure []

-- The six bytes `nodeId`, the first the most significant of `to_uint64_t`.
abbrev pub node_id : ℕ → List ℕ
node_id n =
    (n / 2 ^ 40 % 2 ^ 8)
    ∷ (n / 2 ^ 32 % 2 ^ 8)
    ∷ (n / 2 ^ 24 % 2 ^ 8)
    ∷ (n / 2 ^ 16 % 2 ^ 8)
    ∷ (n / 2 ^ 8 % 2 ^ 8)
    ∷ (n % 2 ^ 8)
    ∷ []

-- NodeIdentifierT::to_uint64_t
unfoldable pub to_uint64_t : List ℕ → ℕ
to_uint64_t [] = 0
to_uint64_t (b ∷ bs) = b * 2 ^ (8 * length bs) + to_uint64_t bs

unfoldable pub serialize_node_id : ℕ → Exec AssemblyArea Void
serialize_node_id n = serialize_byte_block (node_id n)

unfoldable pub deserialize_node_id : Exec DisassemblyArea ℕ
unfolding to_uint64_t
deserialize_node_id = do bs ← deserialize_byte_block 6; pure (to_uint64_t bs)

unfoldable pub serialize_summ : VarSummT → Exec AssemblyArea Void
serialize_summ s = do serialize_byte s.var_id; serialize_byte s.seqno

unfoldable pub deserialize_summ : Exec DisassemblyArea VarSummT
deserialize_summ = do
  var_id ← deserialize_byte
  seqno ← deserialize_byte
  pure (record { var_id = var_id; seqno = seqno })

unfoldable pub serialize_update : VarUpdateT → Exec AssemblyArea Void
serialize_update u = do serialize_byte u.var_id; serialize_byte u.seqno; serialize_value u.value

unfoldable pub deserialize_update : Exec DisassemblyArea VarUpdateT
deserialize_update = do
  var_id ← deserialize_byte
  seqno ← deserialize_byte
  value ← deserialize_value
  pure (record { var_id = var_id; seqno = seqno; value = value })

module _ (clock : HostClock) where
  open clock use {to_bytes, of_bytes}

  unfoldable pub serialize_spec : VarSpecT → Exec AssemblyArea Void
  serialize_spec s = do
    serialize_byte s.var_id
    serialize_node_id s.prod_id
    serialize_byte s.rep_cnt
    serialize_byte_block (to_bytes s.creation_time)
    serialize_uint16_n s.timeout
    serialize_string s.descr

  unfoldable pub deserialize_spec : Exec DisassemblyArea VarSpecT
  deserialize_spec = do
    var_id ← deserialize_byte
    prod_id ← deserialize_node_id
    rep_cnt ← deserialize_byte
    creation_time ← deserialize_byte_block 8
    timeout ← deserialize_uint16_n
    descr ← deserialize_string
    pure (record {
      var_id = var_id;
      prod_id = prod_id;
      rep_cnt = rep_cnt;
      creation_time = of_bytes creation_time;
      timeout = timeout;
      descr = descr;
    })

  unfoldable pub serialize_create : VarCreateT → Exec AssemblyArea Void
  serialize_create c = do serialize_spec c.spec; serialize_update c.update

  unfoldable pub deserialize_create : Exec DisassemblyArea VarCreateT
  deserialize_create = do
    spec ← deserialize_spec
    update ← deserialize_update
    pure (record { spec = spec; update = update })

unfoldable pub serialize_delete : VarDeleteT → Exec AssemblyArea Void
serialize_delete d = serialize_byte d.var_id

unfoldable pub deserialize_delete : Exec DisassemblyArea VarDeleteT
deserialize_delete = do var_id ← deserialize_byte; pure (record { var_id = var_id })

unfoldable pub serialize_req_update : VarReqUpdateT → Exec AssemblyArea Void
unfolding serialize_summ
serialize_req_update r = serialize_summ r.upd_spec

unfoldable pub deserialize_req_update : Exec DisassemblyArea VarReqUpdateT
deserialize_req_update = do upd_spec ← deserialize_summ; pure (record { upd_spec = upd_spec })

unfoldable pub serialize_req_create : VarReqCreateT → Exec AssemblyArea Void
serialize_req_create r = serialize_byte r.var_id

unfoldable pub deserialize_req_create : Exec DisassemblyArea VarReqCreateT
deserialize_req_create = do var_id ← deserialize_byte; pure (record { var_id = var_id })

unfoldable pub serialize_header : IcHeaderT → Exec AssemblyArea Void
serialize_header h = do serialize_byte h.ic_type; serialize_byte h.ic_num_records

unfoldable pub deserialize_header : Exec DisassemblyArea IcHeaderT
deserialize_header = do
  ic_type ← deserialize_byte
  ic_num_records ← deserialize_byte
  pure (record { ic_type = ic_type; ic_num_records = ic_num_records })
