-- ===== src/Bp/Types.antt =====
-- dcp/bp/bp_transmissible_types.h: the header of a beacon and that of a payload in it. Lengths,
-- protocol and network identifiers have 16 bits; a node identifier is the number of its six bytes.
pub mod RoundTrip
use dcp_vardis.Prelude.{ℕ, ◌+◌, Bool, not, ◌&&◌, ◌==◌, ltb}
use dcp_vardis.Prelude.Effect.{Exec, Void, ◌>>=◌, ◌>>◌, pure}
use dcp_vardis.Common.Area.{
  AssemblyArea, DisassemblyArea, serialize_byte, serialize_uint16_n, serialize_uint32_n,
  deserialize_byte, deserialize_uint16_n, deserialize_uint32_n,
}
use dcp_vardis.Vardis.Types.Codec.{serialize_node_id, deserialize_node_id}

pub record BpHeaderT : Type 0 where
  pub version : ℕ
  pub magic_no : ℕ
  pub sender_id : ℕ
  pub network_id : ℕ
  pub length : ℕ
  pub num_payloads : ℕ
  pub seqno : ℕ

abbrev pub bp_header_version : ℕ
bp_header_version = 1

abbrev pub bp_magic_no : ℕ
bp_magic_no = 18814

-- BPHeaderT::fixed_size()
abbrev pub bp_header_size : ℕ
bp_header_size = 1 + 2 + 6 + 2 + 2 + 1 + 4

unfoldable pub serialize_header : BpHeaderT → Exec AssemblyArea Void
serialize_header h = do
  serialize_byte h.version
  serialize_uint16_n h.magic_no
  serialize_node_id h.sender_id
  serialize_uint16_n h.network_id
  serialize_uint16_n h.length
  serialize_byte h.num_payloads
  serialize_uint32_n h.seqno

unfoldable pub deserialize_header : Exec DisassemblyArea BpHeaderT
deserialize_header = do
  version ← deserialize_byte
  magic_no ← deserialize_uint16_n
  sender_id ← deserialize_node_id
  network_id ← deserialize_uint16_n
  length ← deserialize_uint16_n
  num_payloads ← deserialize_byte
  seqno ← deserialize_uint32_n
  pure (record {
    version = version;
    magic_no = magic_no;
    sender_id = sender_id;
    network_id = network_id;
    length = length;
    num_payloads = num_payloads;
    seqno = seqno;
  })

unfoldable pub is_well_formed : BpHeaderT → ℕ → ℕ → Bool
is_well_formed h own_node_id netw_id =
    h.version == bp_header_version
    && h.magic_no == bp_magic_no
    && not (h.sender_id == own_node_id)
    && h.network_id == netw_id
    && ltb 0 h.num_payloads
    && ltb 0 h.length

pub record BpPayloadHeaderT : Type 0 where
  pub protocol_id : ℕ
  pub length : ℕ

-- BPPayloadHeaderT::fixed_size()
abbrev pub bp_payload_header_size : ℕ
bp_payload_header_size = 2 + 2

unfoldable pub serialize_payload_header : BpPayloadHeaderT → Exec AssemblyArea Void
serialize_payload_header h = do serialize_uint16_n h.protocol_id; serialize_uint16_n h.length

unfoldable pub deserialize_payload_header : Exec DisassemblyArea BpPayloadHeaderT
deserialize_payload_header = do
  protocol_id ← deserialize_uint16_n
  length ← deserialize_uint16_n
  pure (record { protocol_id = protocol_id; length = length })
