-- ===== src/Wire/Call.antt =====
-- servercomm/command.go and servercomm/command_binary.go: the request and the response of a remote object call.
pub mod RoundTrip
use micserver.Prelude.{ℕ, ◌+◌, Bool, false, [], Option, none, some, length, ◌>>◌}
use micserver.Prelude.Int.{ℤ, pos}
use micserver.Wire.Bytes.{Bytes}
use micserver.Wire.Write.{
  Writer, elements, write_binary_string, write_u64, write_bool, write_byte_slice, write_message,
}
use micserver.Wire.Read.{
  Reader, ReadResult, to_u64, read_string, read_int64, read_bool, read_byte_slice, read_message,
}

pub record SRocRequest : Type 0 where
  pub from_module_id : Bytes
  pub to_module_id : Bytes
  pub seq : ℤ
  pub call_str : Bytes
  pub call_arg : Option Bytes
  pub need_return : Bool

abbrev pub new_s_roc_request : SRocRequest
new_s_roc_request = record {
  from_module_id = [];
  to_module_id = [];
  seq = pos 0;
  call_str = [];
  call_arg = none;
  need_return = false;
}

unfoldable pub size_s_roc_request : Option SRocRequest → ℕ
size_s_roc_request none = 4
size_s_roc_request (some o) =
    4
    + 4
    + length o.from_module_id
    + 4
    + length o.to_module_id
    + 8
    + 4
    + length o.call_str
    + 4
    + length (elements o.call_arg)
    + 1

unfoldable pub write_s_roc_request_body : SRocRequest → Writer
write_s_roc_request_body o = do
  write_binary_string o.from_module_id
  write_binary_string o.to_module_id
  write_u64 (to_u64 o.seq)
  write_binary_string o.call_str
  write_byte_slice o.call_arg
  write_bool o.need_return

unfoldable pub write_s_roc_request : Option SRocRequest → Writer
write_s_roc_request = write_message (λ o. size_s_roc_request (some o)) write_s_roc_request_body

unfoldable pub read_s_roc_request_body : Reader SRocRequest
read_s_roc_request_body = do
  read_string (λ o. o.from_module_id) (λ o v. record o { from_module_id = v })
  read_string (λ o. o.to_module_id) (λ o v. record o { to_module_id = v })
  read_int64 (λ o v. record o { seq = v })
  read_string (λ o. o.call_str) (λ o v. record o { call_str = v })
  read_byte_slice (λ o v. record o { call_arg = v })
  read_bool (λ o v. record o { need_return = v })

unfoldable pub read_s_roc_request : Bytes → ℕ → Option SRocRequest → ReadResult SRocRequest
read_s_roc_request = read_message new_s_roc_request read_s_roc_request_body

pub record SRocResponse : Type 0 where
  pub from_module_id : Bytes
  pub to_module_id : Bytes
  pub req_seq : ℤ
  pub res_data : Option Bytes
  pub error : Bytes

abbrev pub new_s_roc_response : SRocResponse
new_s_roc_response = record {
  from_module_id = [];
  to_module_id = [];
  req_seq = pos 0;
  res_data = none;
  error = [];
}

unfoldable pub size_s_roc_response : Option SRocResponse → ℕ
size_s_roc_response none = 4
size_s_roc_response (some o) =
    4
    + 4
    + length o.from_module_id
    + 4
    + length o.to_module_id
    + 8
    + 4
    + length (elements o.res_data)
    + 4
    + length o.error

unfoldable pub write_s_roc_response_body : SRocResponse → Writer
write_s_roc_response_body o = do
  write_binary_string o.from_module_id
  write_binary_string o.to_module_id
  write_u64 (to_u64 o.req_seq)
  write_byte_slice o.res_data
  write_binary_string o.error

unfoldable pub write_s_roc_response : Option SRocResponse → Writer
write_s_roc_response = write_message (λ o. size_s_roc_response (some o)) write_s_roc_response_body

unfoldable pub read_s_roc_response_body : Reader SRocResponse
read_s_roc_response_body = do
  read_string (λ o. o.from_module_id) (λ o v. record o { from_module_id = v })
  read_string (λ o. o.to_module_id) (λ o v. record o { to_module_id = v })
  read_int64 (λ o v. record o { req_seq = v })
  read_byte_slice (λ o v. record o { res_data = v })
  read_string (λ o. o.error) (λ o v. record o { error = v })

unfoldable pub read_s_roc_response : Bytes → ℕ → Option SRocResponse → ReadResult SRocResponse
read_s_roc_response = read_message new_s_roc_response read_s_roc_response_body
