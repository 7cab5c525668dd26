-- ===== src/Vardis/Types.antt =====
-- dcp/vardis/vardis_transmissible_types.h: the records of the protocol. The identifiers, lengths, counters and sequence numbers of one byte
-- and the timeout of two are numbers; a node identifier is the number NodeIdentifierT::to_uint64_t
-- of its six bytes, which tells two identifiers apart as `memcmp` does.
pub mod Codec
pub mod Wire
pub mod RoundTrip
use dcp_vardis.Prelude.{ℕ, ◌+◌, List}

-- VarValueT has a length `len` of its own beside that of its memory block.
pub record VarValueT : Type 0 where
  pub len : ℕ
  pub block : List ℕ

-- StringT: a memory block of at most 255 bytes.
abbrev pub StringT : Type 0
StringT = List ℕ

pub record VarSummT : Type 0 where
  pub var_id : ℕ
  pub seqno : ℕ

pub record VarUpdateT : Type 0 where
  pub var_id : ℕ
  pub seqno : ℕ
  pub value : VarValueT

pub record VarSpecT : Type 0 where
  pub var_id : ℕ
  pub prod_id : ℕ
  pub rep_cnt : ℕ
  pub creation_time : ℕ
  pub timeout : ℕ
  pub descr : StringT

pub record VarCreateT : Type 0 where
  pub spec : VarSpecT
  pub update : VarUpdateT

pub record VarDeleteT : Type 0 where
  pub var_id : ℕ

pub record VarReqUpdateT : Type 0 where
  pub upd_spec : VarSummT

pub record VarReqCreateT : Type 0 where
  pub var_id : ℕ

pub record IcHeaderT : Type 0 where
  pub ic_type : ℕ
  pub ic_num_records : ℕ

-- The instruction container types.
abbrev pub ictype_summaries : ℕ
ictype_summaries = 1

abbrev pub ictype_updates : ℕ
ictype_updates = 2

abbrev pub ictype_request_varupdates : ℕ
ictype_request_varupdates = 3

abbrev pub ictype_request_varcreates : ℕ
ictype_request_varcreates = 4

abbrev pub ictype_create_variables : ℕ
ictype_create_variables = 5

abbrev pub ictype_delete_variables : ℕ
ictype_delete_variables = 6

abbrev pub max_records : ℕ
max_records = 255

-- The `fixed_size` of each record: the bytes that every value of it takes.
abbrev pub var_value_fixed_size : ℕ
var_value_fixed_size = 1

abbrev pub var_summ_fixed_size : ℕ
var_summ_fixed_size = 1 + 1

abbrev pub var_update_fixed_size : ℕ
var_update_fixed_size = 1 + 1 + var_value_fixed_size

abbrev pub var_spec_fixed_size : ℕ
var_spec_fixed_size = 1 + 6 + 1 + 1 + 8 + 2

abbrev pub var_delete_fixed_size : ℕ
var_delete_fixed_size = 1

abbrev pub var_req_update_fixed_size : ℕ
var_req_update_fixed_size = var_summ_fixed_size

abbrev pub var_req_create_fixed_size : ℕ
var_req_create_fixed_size = 1

abbrev pub ic_header_fixed_size : ℕ
ic_header_fixed_size = 1 + 1
