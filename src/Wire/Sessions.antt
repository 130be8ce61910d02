-- ===== src/Wire/Sessions.antt =====
-- servercomm/command.go and servercomm/command_binary.go: the messages about client sessions.
pub mod RoundTrip
use micserver.Prelude.{ℕ, ◌+◌, [], Option, none, some, length, ◌>>◌}
use micserver.Wire.Bytes.{Bytes}
use micserver.Wire.Write.{Writer, elements, write_binary_string, write_string_map, write_message}
use micserver.Wire.Read.{Reader, ReadResult, StringMap, read_string, read_string_map, read_message}
use micserver.Wire.Sizes.{sum_sizes, size_pair}

pub record SUpdateSession : Type 0 where
  pub from_module_id : Bytes
  pub to_module_id : Bytes
  pub client_conn_id : Bytes
  pub session_uuid : Bytes
  pub session : StringMap

abbrev pub new_s_update_session : SUpdateSession
new_s_update_session = record {
  from_module_id = [];
  to_module_id = [];
  client_conn_id = [];
  session_uuid = [];
  session = none;
}

unfoldable pub size_s_update_session : Option SUpdateSession → ℕ
size_s_update_session none = 4
size_s_update_session (some o) =
    4
    + 4
    + length o.from_module_id
    + 4
    + length o.to_module_id
    + 4
    + length o.client_conn_id
    + 4
    + length o.session_uuid
    + 4
    + sum_sizes size_pair (elements o.session)

unfoldable pub write_s_update_session_body : SUpdateSession → Writer
write_s_update_session_body o = do
  write_binary_string o.from_module_id
  write_binary_string o.to_module_id
  write_binary_string o.client_conn_id
  write_binary_string o.session_uuid
  write_string_map o.session

unfoldable pub write_s_update_session : Option SUpdateSession → Writer
write_s_update_session =
    write_message (λ o. size_s_update_session (some o)) write_s_update_session_body

unfoldable pub read_s_update_session_body : Reader SUpdateSession
read_s_update_session_body = do
  read_string (λ o. o.from_module_id) (λ o v. record o { from_module_id = v })
  read_string (λ o. o.to_module_id) (λ o v. record o { to_module_id = v })
  read_string (λ o. o.client_conn_id) (λ o v. record o { client_conn_id = v })
  read_string (λ o. o.session_uuid) (λ o v. record o { session_uuid = v })
  read_string_map (λ o. o.session) (λ o v. record o { session = v })

unfoldable pub read_s_update_session : Bytes → ℕ → Option SUpdateSession → ReadResult SUpdateSession
read_s_update_session = read_message new_s_update_session read_s_update_session_body

pub record SReqCloseConnect : Type 0 where
  pub from_module_id : Bytes
  pub to_module_id : Bytes
  pub client_conn_id : Bytes

abbrev pub new_s_req_close_connect : SReqCloseConnect
new_s_req_close_connect = record { from_module_id = []; to_module_id = []; client_conn_id = [] }

unfoldable pub size_s_req_close_connect : Option SReqCloseConnect → ℕ
size_s_req_close_connect none = 4
size_s_req_close_connect (some o) =
    4 + 4 + length o.from_module_id + 4 + length o.to_module_id + 4 + length o.client_conn_id

unfoldable pub write_s_req_close_connect_body : SReqCloseConnect → Writer
write_s_req_close_connect_body o = do
  write_binary_string o.from_module_id
  write_binary_string o.to_module_id
  write_binary_string o.client_conn_id

unfoldable pub write_s_req_close_connect : Option SReqCloseConnect → Writer
write_s_req_close_connect =
    write_message (λ o. size_s_req_close_connect (some o)) write_s_req_close_connect_body

unfoldable pub read_s_req_close_connect_body : Reader SReqCloseConnect
read_s_req_close_connect_body = do
  read_string (λ o. o.from_module_id) (λ o v. record o { from_module_id = v })
  read_string (λ o. o.to_module_id) (λ o v. record o { to_module_id = v })
  read_string (λ o. o.client_conn_id) (λ o v. record o { client_conn_id = v })

unfoldable pub read_s_req_close_connect :
    Bytes → ℕ → Option SReqCloseConnect → ReadResult SReqCloseConnect
read_s_req_close_connect = read_message new_s_req_close_connect read_s_req_close_connect_body
