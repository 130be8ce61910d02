-- ===== src/Wire/Commands.antt =====
-- servercomm/command_binary.go: what all messages offer through msg.MsgStruct, and the tables
-- between message numbers and names.
pub mod RoundTrip
use Prim.Native.String.{String}
use text.Mathlib.Text.{◌==◌ as str_eq}
use micserver.Prelude.{ℕ, ◌==◌, if◌then◌else◌, Option, none, some}
use micserver.Wire.Bytes.{Bytes}
use micserver.Wire.Write.{Writer}
use micserver.Wire.Read.{ReadResult}
use micserver.Wire.Info.{
  ModuleInfo, new_module_info, size_module_info, write_module_info, read_module_info,
}
use micserver.Wire.Basic.{
  STimeTickCommand, new_s_time_tick, size_s_time_tick, write_s_time_tick, read_s_time_tick,
  STestCommand, new_s_test, size_s_test, write_s_test, read_s_test, SLoginCommand, new_s_login,
  size_s_login, write_s_login, read_s_login, SLogoutCommand, new_s_logout, size_s_logout,
  write_s_logout, read_s_logout, SSeverStartOkCommand, new_s_sever_start_ok, size_s_sever_start_ok,
  write_s_sever_start_ok, read_s_sever_start_ok,
}
use micserver.Wire.Notify.{
  SLoginRetCommand, new_s_login_ret, size_s_login_ret, write_s_login_ret, read_s_login_ret,
  SStartRelyNotifyCommand, new_s_start_rely_notify, size_s_start_rely_notify,
  write_s_start_rely_notify, read_s_start_rely_notify, SStartMyNotifyCommand, new_s_start_my_notify,
  size_s_start_my_notify, write_s_start_my_notify, read_s_start_my_notify, SNotifyAllInfo,
  new_s_notify_all_info, size_s_notify_all_info, write_s_notify_all_info, read_s_notify_all_info,
  SNotifySafelyQuit, new_s_notify_safely_quit, size_s_notify_safely_quit,
  write_s_notify_safely_quit, read_s_notify_safely_quit,
}
use micserver.Wire.Sessions.{
  SUpdateSession, new_s_update_session, size_s_update_session, write_s_update_session,
  read_s_update_session, SReqCloseConnect, new_s_req_close_connect, size_s_req_close_connect,
  write_s_req_close_connect, read_s_req_close_connect,
}
use micserver.Wire.Forward.{
  SForwardToModule, new_s_forward_to_module, size_s_forward_to_module, write_s_forward_to_module,
  read_s_forward_to_module, ModuleMessage, new_module_message, size_module_message,
  write_module_message, read_module_message, SForwardToClient, new_s_forward_to_client,
  size_s_forward_to_client, write_s_forward_to_client, read_s_forward_to_client, SForwardFromGate,
  new_s_forward_from_gate, size_s_forward_from_gate, write_s_forward_from_gate,
  read_s_forward_from_gate, ClientMessage, new_client_message, size_client_message,
  write_client_message, read_client_message,
}
use micserver.Wire.Call.{
  SRocRequest, new_s_roc_request, size_s_roc_request, write_s_roc_request, read_s_roc_request,
  SRocResponse, new_s_roc_response, size_s_roc_response, write_s_roc_response, read_s_roc_response,
}
use micserver.Wire.Bind.{
  SRocBind, new_s_roc_bind, size_s_roc_bind, write_s_roc_bind, read_s_roc_bind,
}

-- A message of any type.
pub data Command : Type 0 where
  module_info : ModuleInfo → Command
  s_time_tick : STimeTickCommand → Command
  s_test : STestCommand → Command
  s_login : SLoginCommand → Command
  s_logout : SLogoutCommand → Command
  s_sever_start_ok : SSeverStartOkCommand → Command
  s_login_ret : SLoginRetCommand → Command
  s_start_rely_notify : SStartRelyNotifyCommand → Command
  s_start_my_notify : SStartMyNotifyCommand → Command
  s_notify_all_info : SNotifyAllInfo → Command
  s_notify_safely_quit : SNotifySafelyQuit → Command
  s_update_session : SUpdateSession → Command
  s_req_close_connect : SReqCloseConnect → Command
  s_forward_to_module : SForwardToModule → Command
  module_message : ModuleMessage → Command
  s_forward_to_client : SForwardToClient → Command
  s_forward_from_gate : SForwardFromGate → Command
  client_message : ClientMessage → Command
  s_roc_request : SRocRequest → Command
  s_roc_response : SRocResponse → Command
  s_roc_bind : SRocBind → Command

-- GetMsgId
unfoldable pub get_msg_id : Command → ℕ
get_msg_id (module_info o) = 36
get_msg_id (s_time_tick o) = 37
get_msg_id (s_test o) = 38
get_msg_id (s_login o) = 39
get_msg_id (s_logout o) = 40
get_msg_id (s_sever_start_ok o) = 41
get_msg_id (s_login_ret o) = 42
get_msg_id (s_start_rely_notify o) = 43
get_msg_id (s_start_my_notify o) = 44
get_msg_id (s_notify_all_info o) = 45
get_msg_id (s_notify_safely_quit o) = 46
get_msg_id (s_update_session o) = 47
get_msg_id (s_req_close_connect o) = 48
get_msg_id (s_forward_to_module o) = 49
get_msg_id (module_message o) = 50
get_msg_id (s_forward_to_client o) = 51
get_msg_id (s_forward_from_gate o) = 52
get_msg_id (client_message o) = 53
get_msg_id (s_roc_request o) = 54
get_msg_id (s_roc_response o) = 55
get_msg_id (s_roc_bind o) = 56

-- GetMsgName
unfoldable pub get_msg_name : Command → String
get_msg_name (module_info o) = "servercomm.ModuleInfo"
get_msg_name (s_time_tick o) = "servercomm.STimeTickCommand"
get_msg_name (s_test o) = "servercomm.STestCommand"
get_msg_name (s_login o) = "servercomm.SLoginCommand"
get_msg_name (s_logout o) = "servercomm.SLogoutCommand"
get_msg_name (s_sever_start_ok o) = "servercomm.SSeverStartOKCommand"
get_msg_name (s_login_ret o) = "servercomm.SLoginRetCommand"
get_msg_name (s_start_rely_notify o) = "servercomm.SStartRelyNotifyCommand"
get_msg_name (s_start_my_notify o) = "servercomm.SStartMyNotifyCommand"
get_msg_name (s_notify_all_info o) = "servercomm.SNotifyAllInfo"
get_msg_name (s_notify_safely_quit o) = "servercomm.SNotifySafelyQuit"
get_msg_name (s_update_session o) = "servercomm.SUpdateSession"
get_msg_name (s_req_close_connect o) = "servercomm.SReqCloseConnect"
get_msg_name (s_forward_to_module o) = "servercomm.SForwardToModule"
get_msg_name (module_message o) = "servercomm.ModuleMessage"
get_msg_name (s_forward_to_client o) = "servercomm.SForwardToClient"
get_msg_name (s_forward_from_gate o) = "servercomm.SForwardFromGate"
get_msg_name (client_message o) = "servercomm.ClientMessage"
get_msg_name (s_roc_request o) = "servercomm.SROCRequest"
get_msg_name (s_roc_response o) = "servercomm.SROCResponse"
get_msg_name (s_roc_bind o) = "servercomm.SROCBind"

-- GetSize
unfoldable pub get_size : Command → ℕ
get_size (module_info o) = size_module_info (some o)
get_size (s_time_tick o) = size_s_time_tick (some o)
get_size (s_test o) = size_s_test (some o)
get_size (s_login o) = size_s_login (some o)
get_size (s_logout o) = size_s_logout (some o)
get_size (s_sever_start_ok o) = size_s_sever_start_ok (some o)
get_size (s_login_ret o) = size_s_login_ret (some o)
get_size (s_start_rely_notify o) = size_s_start_rely_notify (some o)
get_size (s_start_my_notify o) = size_s_start_my_notify (some o)
get_size (s_notify_all_info o) = size_s_notify_all_info (some o)
get_size (s_notify_safely_quit o) = size_s_notify_safely_quit (some o)
get_size (s_update_session o) = size_s_update_session (some o)
get_size (s_req_close_connect o) = size_s_req_close_connect (some o)
get_size (s_forward_to_module o) = size_s_forward_to_module (some o)
get_size (module_message o) = size_module_message (some o)
get_size (s_forward_to_client o) = size_s_forward_to_client (some o)
get_size (s_forward_from_gate o) = size_s_forward_from_gate (some o)
get_size (client_message o) = size_client_message (some o)
get_size (s_roc_request o) = size_s_roc_request (some o)
get_size (s_roc_response o) = size_s_roc_response (some o)
get_size (s_roc_bind o) = size_s_roc_bind (some o)

-- WriteBinary
unfoldable pub write_binary : Command → Writer
write_binary (module_info o) = write_module_info (some o)
write_binary (s_time_tick o) = write_s_time_tick (some o)
write_binary (s_test o) = write_s_test (some o)
write_binary (s_login o) = write_s_login (some o)
write_binary (s_logout o) = write_s_logout (some o)
write_binary (s_sever_start_ok o) = write_s_sever_start_ok (some o)
write_binary (s_login_ret o) = write_s_login_ret (some o)
write_binary (s_start_rely_notify o) = write_s_start_rely_notify (some o)
write_binary (s_start_my_notify o) = write_s_start_my_notify (some o)
write_binary (s_notify_all_info o) = write_s_notify_all_info (some o)
write_binary (s_notify_safely_quit o) = write_s_notify_safely_quit (some o)
write_binary (s_update_session o) = write_s_update_session (some o)
write_binary (s_req_close_connect o) = write_s_req_close_connect (some o)
write_binary (s_forward_to_module o) = write_s_forward_to_module (some o)
write_binary (module_message o) = write_module_message (some o)
write_binary (s_forward_to_client o) = write_s_forward_to_client (some o)
write_binary (s_forward_from_gate o) = write_s_forward_from_gate (some o)
write_binary (client_message o) = write_client_message (some o)
write_binary (s_roc_request o) = write_s_roc_request (some o)
write_binary (s_roc_response o) = write_s_roc_response (some o)
write_binary (s_roc_bind o) = write_s_roc_bind (some o)

-- A reader that is called on an object of its own: the object stays as it was where the reader
-- answers nil. The object comes with how far the reader went; `none` is a panic.
abbrev pub into : {O : Type 0} → (O → Command) → O → ReadResult O → Option (ℕ × Command)
into wrap o none = none
into wrap o (some (n, none)) = some (n, wrap o)
into wrap o (some (n, some p)) = some (n, wrap p)

-- ReadBinary
unfoldable pub read_binary : Command → Bytes → ℕ → Option (ℕ × Command)
read_binary (module_info o) bs spare = into module_info o (read_module_info bs spare (some o))
read_binary (s_time_tick o) bs spare = into s_time_tick o (read_s_time_tick bs spare (some o))
read_binary (s_test o) bs spare = into s_test o (read_s_test bs spare (some o))
read_binary (s_login o) bs spare = into s_login o (read_s_login bs spare (some o))
read_binary (s_logout o) bs spare = into s_logout o (read_s_logout bs spare (some o))
read_binary (s_sever_start_ok o) bs spare =
    into s_sever_start_ok o (read_s_sever_start_ok bs spare (some o))
read_binary (s_login_ret o) bs spare = into s_login_ret o (read_s_login_ret bs spare (some o))
read_binary (s_start_rely_notify o) bs spare =
    into s_start_rely_notify o (read_s_start_rely_notify bs spare (some o))
read_binary (s_start_my_notify o) bs spare =
    into s_start_my_notify o (read_s_start_my_notify bs spare (some o))
read_binary (s_notify_all_info o) bs spare =
    into s_notify_all_info o (read_s_notify_all_info bs spare (some o))
read_binary (s_notify_safely_quit o) bs spare =
    into s_notify_safely_quit o (read_s_notify_safely_quit bs spare (some o))
read_binary (s_update_session o) bs spare =
    into s_update_session o (read_s_update_session bs spare (some o))
read_binary (s_req_close_connect o) bs spare =
    into s_req_close_connect o (read_s_req_close_connect bs spare (some o))
read_binary (s_forward_to_module o) bs spare =
    into s_forward_to_module o (read_s_forward_to_module bs spare (some o))
read_binary (module_message o) bs spare =
    into module_message o (read_module_message bs spare (some o))
read_binary (s_forward_to_client o) bs spare =
    into s_forward_to_client o (read_s_forward_to_client bs spare (some o))
read_binary (s_forward_from_gate o) bs spare =
    into s_forward_from_gate o (read_s_forward_from_gate bs spare (some o))
read_binary (client_message o) bs spare =
    into client_message o (read_client_message bs spare (some o))
read_binary (s_roc_request o) bs spare = into s_roc_request o (read_s_roc_request bs spare (some o))
read_binary (s_roc_response o) bs spare =
    into s_roc_response o (read_s_roc_response bs spare (some o))
read_binary (s_roc_bind o) bs spare = into s_roc_bind o (read_s_roc_bind bs spare (some o))

-- The object that a receiver makes before it reads.
unfoldable pub blank : Command → Command
blank (module_info o) = module_info new_module_info
blank (s_time_tick o) = s_time_tick new_s_time_tick
blank (s_test o) = s_test new_s_test
blank (s_login o) = s_login new_s_login
blank (s_logout o) = s_logout new_s_logout
blank (s_sever_start_ok o) = s_sever_start_ok new_s_sever_start_ok
blank (s_login_ret o) = s_login_ret new_s_login_ret
blank (s_start_rely_notify o) = s_start_rely_notify new_s_start_rely_notify
blank (s_start_my_notify o) = s_start_my_notify new_s_start_my_notify
blank (s_notify_all_info o) = s_notify_all_info new_s_notify_all_info
blank (s_notify_safely_quit o) = s_notify_safely_quit new_s_notify_safely_quit
blank (s_update_session o) = s_update_session new_s_update_session
blank (s_req_close_connect o) = s_req_close_connect new_s_req_close_connect
blank (s_forward_to_module o) = s_forward_to_module new_s_forward_to_module
blank (module_message o) = module_message new_module_message
blank (s_forward_to_client o) = s_forward_to_client new_s_forward_to_client
blank (s_forward_from_gate o) = s_forward_from_gate new_s_forward_from_gate
blank (client_message o) = client_message new_client_message
blank (s_roc_request o) = s_roc_request new_s_roc_request
blank (s_roc_response o) = s_roc_response new_s_roc_response
blank (s_roc_bind o) = s_roc_bind new_s_roc_bind

unfoldable pub msg_id_to_string : ℕ → String
msg_id_to_string id =
    if id == 36
    then "servercomm.ModuleInfo"
    else if id == 37
    then "servercomm.STimeTickCommand"
    else if id == 38
    then "servercomm.STestCommand"
    else if id == 39
    then "servercomm.SLoginCommand"
    else if id == 40
    then "servercomm.SLogoutCommand"
    else if id == 41
    then "servercomm.SSeverStartOKCommand"
    else if id == 42
    then "servercomm.SLoginRetCommand"
    else if id == 43
    then "servercomm.SStartRelyNotifyCommand"
    else if id == 44
    then "servercomm.SStartMyNotifyCommand"
    else if id == 45
    then "servercomm.SNotifyAllInfo"
    else if id == 46
    then "servercomm.SNotifySafelyQuit"
    else if id == 47
    then "servercomm.SUpdateSession"
    else if id == 48
    then "servercomm.SReqCloseConnect"
    else if id == 49
    then "servercomm.SForwardToModule"
    else if id == 50
    then "servercomm.ModuleMessage"
    else if id == 51
    then "servercomm.SForwardToClient"
    else if id == 52
    then "servercomm.SForwardFromGate"
    else if id == 53
    then "servercomm.ClientMessage"
    else if id == 54
    then "servercomm.SROCRequest"
    else if id == 55
    then "servercomm.SROCResponse"
    else if id == 56
    then "servercomm.SROCBind"
    else ""

unfoldable pub string_to_msg_id : String → ℕ
string_to_msg_id name =
    if str_eq name "servercomm.ModuleInfo"
    then 36
    else if str_eq name "servercomm.STimeTickCommand"
    then 37
    else if str_eq name "servercomm.STestCommand"
    then 38
    else if str_eq name "servercomm.SLoginCommand"
    then 39
    else if str_eq name "servercomm.SLogoutCommand"
    then 40
    else if str_eq name "servercomm.SSeverStartOKCommand"
    then 41
    else if str_eq name "servercomm.SLoginRetCommand"
    then 42
    else if str_eq name "servercomm.SStartRelyNotifyCommand"
    then 43
    else if str_eq name "servercomm.SStartMyNotifyCommand"
    then 44
    else if str_eq name "servercomm.SNotifyAllInfo"
    then 45
    else if str_eq name "servercomm.SNotifySafelyQuit"
    then 46
    else if str_eq name "servercomm.SUpdateSession"
    then 47
    else if str_eq name "servercomm.SReqCloseConnect"
    then 48
    else if str_eq name "servercomm.SForwardToModule"
    then 49
    else if str_eq name "servercomm.ModuleMessage"
    then 50
    else if str_eq name "servercomm.SForwardToClient"
    then 51
    else if str_eq name "servercomm.SForwardFromGate"
    then 52
    else if str_eq name "servercomm.ClientMessage"
    then 53
    else if str_eq name "servercomm.SROCRequest"
    then 54
    else if str_eq name "servercomm.SROCResponse"
    then 55
    else if str_eq name "servercomm.SROCBind"
    then 56
    else 0
