-- ===== src/Wire/Forward.antt =====
-- servercomm/command.go and servercomm/command_binary.go: the messages that carry a payload from module to module, and between a gate and a module.
pub mod RoundTrip
use micserver.Prelude.{ℕ, ◌+◌, [], Option, none, some, length, ◌>>◌}
use micserver.Wire.Bytes.{Bytes}
use micserver.Wire.Write.{
  Writer, elements, write_binary_string, write_u16, write_byte_slice, write_string_map,
  write_message,
}
use micserver.Wire.Read.{
  Reader, ReadResult, StringMap, read_string, read_uint, read_byte_slice, read_string_map,
  read_pointer, read_message,
}
use micserver.Wire.Sizes.{sum_sizes, size_pair}
use micserver.Wire.Info.{ModuleInfo, size_module_info, write_module_info, read_module_info}

pub record SForwardToModule : Type 0 where
  pub from_module_id : Bytes
  pub to_module_id : Bytes
  pub msg_id : ℕ
  pub payload : Option Bytes

abbrev pub new_s_forward_to_module : SForwardToModule
new_s_forward_to_module = record {
  from_module_id = [];
  to_module_id = [];
  msg_id = 0;
  payload = none;
}

unfoldable pub size_s_forward_to_module : Option SForwardToModule → ℕ
size_s_forward_to_module none = 4
size_s_forward_to_module (some o) =
    4
    + 4
    + length o.from_module_id
    + 4
    + length o.to_module_id
    + 2
    + 4
    + length (elements o.payload)

unfoldable pub write_s_forward_to_module_body : SForwardToModule → Writer
write_s_forward_to_module_body o = do
  write_binary_string o.from_module_id
  write_binary_string o.to_module_id
  write_u16 o.msg_id
  write_byte_slice o.payload

unfoldable pub write_s_forward_to_module : Option SForwardToModule → Writer
write_s_forward_to_module =
    write_message (λ o. size_s_forward_to_module (some o)) write_s_forward_to_module_body

unfoldable pub read_s_forward_to_module_body : Reader SForwardToModule
read_s_forward_to_module_body = do
  read_string (λ o. o.from_module_id) (λ o v. record o { from_module_id = v })
  read_string (λ o. o.to_module_id) (λ o v. record o { to_module_id = v })
  read_uint 2 (λ o v. record o { msg_id = v })
  read_byte_slice (λ o v. record o { payload = v })

unfoldable pub read_s_forward_to_module :
    Bytes → ℕ → Option SForwardToModule → ReadResult SForwardToModule
read_s_forward_to_module = read_message new_s_forward_to_module read_s_forward_to_module_body

pub record ModuleMessage : Type 0 where
  pub from_module : Option ModuleInfo
  pub msg_id : ℕ
  pub payload : Option Bytes

abbrev pub new_module_message : ModuleMessage
new_module_message = record { from_module = none; msg_id = 0; payload = none }

unfoldable pub size_module_message : Option ModuleMessage → ℕ
size_module_message none = 4
size_module_message (some o) =
    4 + size_module_info o.from_module + 2 + 4 + length (elements o.payload)

unfoldable pub write_module_message_body : ModuleMessage → Writer
write_module_message_body o = do
  write_module_info o.from_module
  write_u16 o.msg_id
  write_byte_slice o.payload

unfoldable pub write_module_message : Option ModuleMessage → Writer
write_module_message = write_message (λ o. size_module_message (some o)) write_module_message_body

unfoldable pub read_module_message_body : Reader ModuleMessage
read_module_message_body = do
  read_pointer size_module_info read_module_info (λ o. o.from_module)
      (λ o v. record o { from_module = v })
  read_uint 2 (λ o v. record o { msg_id = v })
  read_byte_slice (λ o v. record o { payload = v })

unfoldable pub read_module_message : Bytes → ℕ → Option ModuleMessage → ReadResult ModuleMessage
read_module_message = read_message new_module_message read_module_message_body

pub record SForwardToClient : Type 0 where
  pub from_module_id : Bytes
  pub to_gate_id : Bytes
  pub to_client_id : Bytes
  pub msg_id : ℕ
  pub payload : Option Bytes

abbrev pub new_s_forward_to_client : SForwardToClient
new_s_forward_to_client = record {
  from_module_id = [];
  to_gate_id = [];
  to_client_id = [];
  msg_id = 0;
  payload = none;
}

unfoldable pub size_s_forward_to_client : Option SForwardToClient → ℕ
size_s_forward_to_client none = 4
size_s_forward_to_client (some o) =
    4
    + 4
    + length o.from_module_id
    + 4
    + length o.to_gate_id
    + 4
    + length o.to_client_id
    + 2
    + 4
    + length (elements o.payload)

unfoldable pub write_s_forward_to_client_body : SForwardToClient → Writer
write_s_forward_to_client_body o = do
  write_binary_string o.from_module_id
  write_binary_string o.to_gate_id
  write_binary_string o.to_client_id
  write_u16 o.msg_id
  write_byte_slice o.payload

unfoldable pub write_s_forward_to_client : Option SForwardToClient → Writer
write_s_forward_to_client =
    write_message (λ o. size_s_forward_to_client (some o)) write_s_forward_to_client_body

unfoldable pub read_s_forward_to_client_body : Reader SForwardToClient
read_s_forward_to_client_body = do
  read_string (λ o. o.from_module_id) (λ o v. record o { from_module_id = v })
  read_string (λ o. o.to_gate_id) (λ o v. record o { to_gate_id = v })
  read_string (λ o. o.to_client_id) (λ o v. record o { to_client_id = v })
  read_uint 2 (λ o v. record o { msg_id = v })
  read_byte_slice (λ o v. record o { payload = v })

unfoldable pub read_s_forward_to_client :
    Bytes → ℕ → Option SForwardToClient → ReadResult SForwardToClient
read_s_forward_to_client = read_message new_s_forward_to_client read_s_forward_to_client_body

pub record SForwardFromGate : Type 0 where
  pub from_module_id : Bytes
  pub to_module_id : Bytes
  pub client_conn_id : Bytes
  pub session : StringMap
  pub msg_id : ℕ
  pub payload : Option Bytes

abbrev pub new_s_forward_from_gate : SForwardFromGate
new_s_forward_from_gate = record {
  from_module_id = [];
  to_module_id = [];
  client_conn_id = [];
  session = none;
  msg_id = 0;
  payload = none;
}

unfoldable pub size_s_forward_from_gate : Option SForwardFromGate → ℕ
size_s_forward_from_gate none = 4
size_s_forward_from_gate (some o) =
    4
    + 4
    + length o.from_module_id
    + 4
    + length o.to_module_id
    + 4
    + length o.client_conn_id
    + 4
    + sum_sizes size_pair (elements o.session)
    + 2
    + 4
    + length (elements o.payload)

unfoldable pub write_s_forward_from_gate_body : SForwardFromGate → Writer
write_s_forward_from_gate_body o = do
  write_binary_string o.from_module_id
  write_binary_string o.to_module_id
  write_binary_string o.client_conn_id
  write_string_map o.session
  write_u16 o.msg_id
  write_byte_slice o.payload

unfoldable pub write_s_forward_from_gate : Option SForwardFromGate → Writer
write_s_forward_from_gate =
    write_message (λ o. size_s_forward_from_gate (some o)) write_s_forward_from_gate_body

unfoldable pub read_s_forward_from_gate_body : Reader SForwardFromGate
read_s_forward_from_gate_body = do
  read_string (λ o. o.from_module_id) (λ o v. record o { from_module_id = v })
  read_string (λ o. o.to_module_id) (λ o v. record o { to_module_id = v })
  read_string (λ o. o.client_conn_id) (λ o v. record o { client_conn_id = v })
  read_string_map (λ o. o.session) (λ o v. record o { session = v })
  read_uint 2 (λ o v. record o { msg_id = v })
  read_byte_slice (λ o v. record o { payload = v })

unfoldable pub read_s_forward_from_gate :
    Bytes → ℕ → Option SForwardFromGate → ReadResult SForwardFromGate
read_s_forward_from_gate = read_message new_s_forward_from_gate read_s_forward_from_gate_body

pub record ClientMessage : Type 0 where
  pub from_module : Option ModuleInfo
  pub client_conn_id : Bytes
  pub msg_id : ℕ
  pub payload : Option Bytes

abbrev pub new_client_message : ClientMessage
new_client_message = record { from_module = none; client_conn_id = []; msg_id = 0; payload = none }

unfoldable pub size_client_message : Option ClientMessage → ℕ
size_client_message none = 4
size_client_message (some o) =
    4
    + size_module_info o.from_module
    + 4
    + length o.client_conn_id
    + 2
    + 4
    + length (elements o.payload)

unfoldable pub write_client_message_body : ClientMessage → Writer
write_client_message_body o = do
  write_module_info o.from_module
  write_binary_string o.client_conn_id
  write_u16 o.msg_id
  write_byte_slice o.payload

unfoldable pub write_client_message : Option ClientMessage → Writer
write_client_message = write_message (λ o. size_client_message (some o)) write_client_message_body

unfoldable pub read_client_message_body : Reader ClientMessage
read_client_message_body = do
  read_pointer size_module_info read_module_info (λ o. o.from_module)
      (λ o v. record o { from_module = v })
  read_string (λ o. o.client_conn_id) (λ o v. record o { client_conn_id = v })
  read_uint 2 (λ o v. record o { msg_id = v })
  read_byte_slice (λ o v. record o { payload = v })

unfoldable pub read_client_message : Bytes → ℕ → Option ClientMessage → ReadResult ClientMessage
read_client_message = read_message new_client_message read_client_message_body
