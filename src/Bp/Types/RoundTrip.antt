-- ===== src/Bp/Types/RoundTrip.antt =====
-- The headers are read back from the bytes that were written for them.
use dcp_vardis.Prelude.{ap, ◌∙◌, ℕ, ◌^◌, ◌<◌, ◌≤◌, ◌≡◌, List, [], ◌∷◌, ◌++◌, length, arith}
use dcp_vardis.Prelude.Effect.{ok}
use dcp_vardis.Common.Area.{AssemblyArea, DisassemblyArea}
use dcp_vardis.Common.Area.Write.{
  append, big_endian, Writes, Writes->>, Writes-byte, Writes-uint16, Writes-uint32,
}
use dcp_vardis.Common.Area.Read.{advance, Reads, Reads->>=, Reads-byte, Reads-uint16, Reads-uint32}
use dcp_vardis.Vardis.Types.Codec.{node_id}
use dcp_vardis.Vardis.Types.Wire.{Writes-node_id}
use dcp_vardis.Vardis.Types.RoundTrip.{Reads-node_id, Reads-map}
use dcp_vardis.Bp.Types.{
  BpHeaderT, BpPayloadHeaderT, serialize_header, deserialize_header, deserialize_payload_header,
  bp_header_size,
}

-- The fields fit the integers that carry them.
pub record IsValidHeader (h : BpHeaderT) : Type 0 where
  pub magic_no_small : h.magic_no < 2 ^ 16
  pub sender_id_small : h.sender_id < 2 ^ 48
  pub network_id_small : h.network_id < 2 ^ 16
  pub length_small : h.length < 2 ^ 16
  pub seqno_small : h.seqno < 2 ^ 32

pub record IsValidPayloadHeader (h : BpPayloadHeaderT) : Type 0 where
  pub protocol_id_small : h.protocol_id < 2 ^ 16
  pub length_small : h.length < 2 ^ 16

unfoldable pub encode_header : BpHeaderT → List ℕ
encode_header h =
    (h.version ∷ [])
    ++ (big_endian 2 h.magic_no
        ++ (node_id h.sender_id
            ++ (big_endian 2 h.network_id
                ++ (big_endian 2 h.length ++ ((h.num_payloads ∷ []) ++ big_endian 4 h.seqno)))))

unfoldable pub encode_payload_header : BpPayloadHeaderT → List ℕ
encode_payload_header h = big_endian 2 h.protocol_id ++ big_endian 2 h.length

Writes-header : (h : BpHeaderT) → Writes (serialize_header h) (encode_header h)
unfolding serialize_header encode_header
Writes-header h = Writes->> (Writes-byte h.version) (
    Writes->> (Writes-uint16 h.magic_no) (
      Writes->> (Writes-node_id h.sender_id) (
        Writes->> (Writes-uint16 h.network_id) (
          Writes->> (Writes-uint16 h.length)
            (Writes->> (Writes-byte h.num_payloads) (Writes-uint32 h.seqno))))))

pub Reads-header : (h : BpHeaderT) → IsValidHeader h → Reads deserialize_header h (encode_header h)
unfolding deserialize_header encode_header
Reads-header h v = Reads->>= _ (Reads-byte h.version) (
    Reads->>= _ (Reads-uint16 h.magic_no v.magic_no_small) (
      Reads->>= _ (Reads-node_id h.sender_id v.sender_id_small) (
        Reads->>= _ (Reads-uint16 h.network_id v.network_id_small) (
          Reads->>= _ (Reads-uint16 h.length v.length_small) (
            Reads->>= _ (Reads-byte h.num_payloads) (
              Reads-map (λ seqno. record h { seqno = seqno })
                (Reads-uint32 h.seqno v.seqno_small)))))))

pub Reads-payload_header :
    (h : BpPayloadHeaderT)
    → IsValidPayloadHeader h
    → Reads deserialize_payload_header h (encode_payload_header h)
unfolding deserialize_payload_header encode_payload_header
Reads-payload_header h v =
    Reads->>= _ (Reads-uint16 h.protocol_id v.protocol_id_small)
      (Reads-map (λ n. record h { length = n }) (Reads-uint16 h.length v.length_small))

-- `fixed_size` is the number of bytes.
pub length-encode_header : (h : BpHeaderT) → length (encode_header h) ≡ bp_header_size
unfolding encode_header
length-encode_header h = omega arith

-- For a beacon header whose fields fit the integers that carry them: `serialize` writes 18 bytes
-- into an area with room for them, and `deserialize`, on an area that continues with these bytes,
-- returns the header and stops just behind it.
pub header_round_trip :
    (h : BpHeaderT) (a : AssemblyArea) (d : DisassemblyArea) (rest : List ℕ)
    → IsValidHeader h
    → bp_header_size ≤ a.bytes_available
    → d.pending ≡ encode_header h ++ rest
    → bp_header_size ≤ d.bytes_available
    → (serialize_header h a ≡ ok tt (append a (encode_header h)))
      × (deserialize_header d ≡ ok h (advance d bp_header_size rest))
header_round_trip h a d rest v room e enough = (
  (Writes-header h).fits a (omega (arith, length-encode_header h, room)),
  (Reads-header h v).reads d rest e (omega (arith, length-encode_header h, enough))
      ∙ ap (λ n. ok h (advance d n rest)) (length-encode_header h),
)
