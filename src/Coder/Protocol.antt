-- ===== src/Coder/Protocol.antt =====
-- net/coder/abstract_protocol.h, tinypb_protocol.h and tinypb_protocol.cc: a message. The first field
-- is the one that TinyPBProtocol inherits.
use talon_rpc.Prelude.{ℕ, List, [], Bool, false}
use talon_rpc.Prelude.Int.{ℤ, pos}

pub record TinyPbProtocol : Type 0 where
  pub msg_id : List ℕ
  pub pk_len : ℤ
  pub msg_id_len : ℤ
  pub method_name_len : ℤ
  pub method_name : List ℕ
  pub err_code : ℤ
  pub err_info_len : ℤ
  pub err_info : List ℕ
  pub pb_data : List ℕ
  pub check_sum : ℤ
  pub parse_success : Bool

abbrev pub pb_start : ℕ
pb_start = 0x02

abbrev pub pb_end : ℕ
pb_end = 0x03

-- std::make_shared<TinyPBProtocol>()
abbrev pub new_message : TinyPbProtocol
new_message = record {
  msg_id = [];
  pk_len = pos 0;
  msg_id_len = pos 0;
  method_name_len = pos 0;
  method_name = [];
  err_code = pos 0;
  err_info_len = pos 0;
  err_info = [];
  pb_data = [];
  check_sum = pos 0;
  parse_success = false;
}
