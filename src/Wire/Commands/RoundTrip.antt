-- ===== src/Wire/Commands/RoundTrip.antt =====
-- Every message that the encoding can carry survives it.
use micserver.Prelude.{
  ℕ, ◌^◌, ◌<◌, ◌≡◌, refl, sym, ◌++◌, ◌+◌, [], ◌∷◌, some, length, length-append, append-nil, arith,
  ◌∙◌, ap,
}
use micserver.Wire.Bytes.{Bytes, le_bytes, le_value, length-le_bytes}
use micserver.Wire.Write.{Writer}
use micserver.Wire.Writes.{Writes, encode_message}
use micserver.Wire.Read.{ReadResult, read_message}
use micserver.Wire.Run.{run_writer, run_writer-Writes}
use micserver.Wire.Commands.{
  Command, get_msg_id, get_msg_name, get_size, write_binary, read_binary, blank, into,
  msg_id_to_string, string_to_msg_id,
}
use micserver.Wire.Info.{new_module_info, read_module_info}
use micserver.Wire.Info.RoundTrip.{
  IsModuleInfo, encode_module_info_body, size-length_module_info, Writes-module_info,
  ReadsBack-module_info,
}
use micserver.Wire.Basic.{
  new_s_time_tick, read_s_time_tick, new_s_test, read_s_test, new_s_login, read_s_login,
  SLogoutCommand, size_s_logout, write_s_logout, read_s_logout, new_s_sever_start_ok,
  read_s_sever_start_ok,
}
use micserver.Wire.Basic.RoundTrip.{
  IsSTimeTickCommand, encode_s_time_tick_body, size-length_s_time_tick, Writes-s_time_tick,
  ReadsBack-s_time_tick, IsSTestCommand, encode_s_test_body, size-length_s_test, Writes-s_test,
  ReadsBack-s_test, IsSLoginCommand, encode_s_login_body, size-length_s_login, Writes-s_login,
  ReadsBack-s_login, IsSLogoutCommand, encode_s_logout, encode_s_logout_body, Writes-s_logout,
  IsSSeverStartOkCommand, encode_s_sever_start_ok_body, size-length_s_sever_start_ok,
  Writes-s_sever_start_ok, ReadsBack-s_sever_start_ok,
}
use micserver.Wire.Notify.{
  new_s_login_ret, read_s_login_ret, new_s_start_rely_notify, read_s_start_rely_notify,
  new_s_start_my_notify, read_s_start_my_notify, new_s_notify_all_info, read_s_notify_all_info,
  new_s_notify_safely_quit, read_s_notify_safely_quit,
}
use micserver.Wire.Notify.RoundTrip.{
  IsSLoginRetCommand, encode_s_login_ret_body, size-length_s_login_ret, Writes-s_login_ret,
  ReadsBack-s_login_ret, IsSStartRelyNotifyCommand, encode_s_start_rely_notify_body,
  size-length_s_start_rely_notify, Writes-s_start_rely_notify, ReadsBack-s_start_rely_notify,
  IsSStartMyNotifyCommand, encode_s_start_my_notify_body, size-length_s_start_my_notify,
  Writes-s_start_my_notify, ReadsBack-s_start_my_notify, IsSNotifyAllInfo,
  encode_s_notify_all_info_body, size-length_s_notify_all_info, Writes-s_notify_all_info,
  ReadsBack-s_notify_all_info, IsSNotifySafelyQuit, encode_s_notify_safely_quit_body,
  size-length_s_notify_safely_quit, Writes-s_notify_safely_quit, ReadsBack-s_notify_safely_quit,
}
use micserver.Wire.Sessions.{
  new_s_update_session, read_s_update_session, new_s_req_close_connect, read_s_req_close_connect,
}
use micserver.Wire.Sessions.RoundTrip.{
  IsSUpdateSession, encode_s_update_session_body, size-length_s_update_session,
  Writes-s_update_session, ReadsBack-s_update_session, IsSReqCloseConnect,
  encode_s_req_close_connect_body, size-length_s_req_close_connect, Writes-s_req_close_connect,
  ReadsBack-s_req_close_connect,
}
use micserver.Wire.Forward.{
  new_s_forward_to_module, read_s_forward_to_module, new_module_message, read_module_message,
  new_s_forward_to_client, read_s_forward_to_client, new_s_forward_from_gate,
  read_s_forward_from_gate, new_client_message, read_client_message,
}
use micserver.Wire.Forward.RoundTrip.{
  IsSForwardToModule, encode_s_forward_to_module_body, size-length_s_forward_to_module,
  Writes-s_forward_to_module, ReadsBack-s_forward_to_module, IsModuleMessage,
  encode_module_message_body, size-length_module_message, Writes-module_message,
  ReadsBack-module_message, IsSForwardToClient, encode_s_forward_to_client_body,
  size-length_s_forward_to_client, Writes-s_forward_to_client, ReadsBack-s_forward_to_client,
  IsSForwardFromGate, encode_s_forward_from_gate_body, size-length_s_forward_from_gate,
  Writes-s_forward_from_gate, ReadsBack-s_forward_from_gate, IsClientMessage,
  encode_client_message_body, size-length_client_message, Writes-client_message,
  ReadsBack-client_message,
}
use micserver.Wire.Call.{
  new_s_roc_request, read_s_roc_request, new_s_roc_response, read_s_roc_response,
}
use micserver.Wire.Call.RoundTrip.{
  IsSRocRequest, encode_s_roc_request_body, size-length_s_roc_request, Writes-s_roc_request,
  ReadsBack-s_roc_request, IsSRocResponse, encode_s_roc_response_body, size-length_s_roc_response,
  Writes-s_roc_response, ReadsBack-s_roc_response,
}
use micserver.Wire.Bind.{with_ids, new_s_roc_bind, size_s_roc_bind, read_s_roc_bind}
use micserver.Wire.Bind.Written.{last_id}
use micserver.Wire.Bind.LastId.{s_roc_bind_arrives_as_last_id}

-- What the encoding can carry: integers within their width, sizes that four bytes hold, maps
-- without a key twice, and of an SROCBind one identifier.
abbrev pub IsCommand : Command → Type 0
IsCommand (Command.module_info o) = IsModuleInfo o
IsCommand (Command.s_time_tick o) = IsSTimeTickCommand o
IsCommand (Command.s_test o) = IsSTestCommand o
IsCommand (Command.s_login o) = IsSLoginCommand o
IsCommand (Command.s_logout o) = IsSLogoutCommand o
IsCommand (Command.s_sever_start_ok o) = IsSSeverStartOkCommand o
IsCommand (Command.s_login_ret o) = IsSLoginRetCommand o
IsCommand (Command.s_start_rely_notify o) = IsSStartRelyNotifyCommand o
IsCommand (Command.s_start_my_notify o) = IsSStartMyNotifyCommand o
IsCommand (Command.s_notify_all_info o) = IsSNotifyAllInfo o
IsCommand (Command.s_notify_safely_quit o) = IsSNotifySafelyQuit o
IsCommand (Command.s_update_session o) = IsSUpdateSession o
IsCommand (Command.s_req_close_connect o) = IsSReqCloseConnect o
IsCommand (Command.s_forward_to_module o) = IsSForwardToModule o
IsCommand (Command.module_message o) = IsModuleMessage o
IsCommand (Command.s_forward_to_client o) = IsSForwardToClient o
IsCommand (Command.s_forward_from_gate o) = IsSForwardFromGate o
IsCommand (Command.client_message o) = IsClientMessage o
IsCommand (Command.s_roc_request o) = IsSRocRequest o
IsCommand (Command.s_roc_response o) = IsSRocResponse o
IsCommand (Command.s_roc_bind o) =
    (size_s_roc_bind (some o) < 2 ^ 32) × ((id : Bytes) × (o.obj_ids ≡ some (id ∷ [])))

-- The command is written into a buffer of its size, and read back from there to its end.
abbrev pub Survives : Command → Bytes → ℕ → Type 0
Survives c buf spare =
    (bs : Bytes) × (n : ℕ) × (run_writer (write_binary c) buf ≡ some (bs, n))
    × (read_binary (blank c) bs spare ≡ some (get_size c, c))
    × (length bs ≡ get_size c)

length-encode_some :
    {O : Type 0} (e : O → Bytes) (o : O) → length (encode_message e (some o)) ≡ 4 + length (e o)
unfolding encode_message
length-encode_some e o = rw (length-append, length-le_bytes)

survives :
    {O : Type 0} (wrap : O → Command) (o new : O) (size : ℕ) (w : Writer) (e : O → Bytes)
    (read : Bytes → ReadResult O) (buf : Bytes)
    → Writes w (encode_message e (some o))
    → size ≡ 4 + length (e o)
    → read (encode_message e (some o) ++ []) ≡ some (length (encode_message e (some o)), some o)
    → length buf ≡ size
    → (bs : Bytes) × (n : ℕ) × (run_writer w buf ≡ some (bs, n))
      × (into wrap new (read bs) ≡ some (size, wrap o))
      × (length bs ≡ size)
survives wrap o new size w e read buf hw hs hr hb =
    let l = length-encode_some e o in
    let same : length (encode_message e (some o)) ≡ size = omega (arith, l) in
    (
      encode_message e (some o),
      length (encode_message e (some o)),
      run_writer-Writes w (encode_message e (some o)) buf hw (omega arith),
      ap (into wrap new) (ap read (sym (append-nil _)) ∙ hr) ∙ ap (λ n. some (n, wrap o)) same,
      same,
    )

-- Every command that the encoding can carry (integers within their width, sizes that four bytes
-- hold, maps without a key twice, and of an SROCBind one id) is written into a buffer of the length
-- that GetSize gives without a panic, and ReadBinary on that buffer gives it back, every field, and
-- ends where the buffer ends.
pub command-Survives :
    (c : Command) (buf : Bytes) (spare : ℕ)
    → IsCommand c
    → length buf ≡ get_size c
    → Survives c buf spare
unfolding write_binary read_binary blank get_size read_message read_module_info read_s_time_tick
    read_s_test read_s_login read_s_logout read_s_sever_start_ok read_s_login_ret
    read_s_start_rely_notify read_s_start_my_notify read_s_notify_all_info read_s_notify_safely_quit
    read_s_update_session read_s_req_close_connect read_s_forward_to_module read_module_message
    read_s_forward_to_client read_s_forward_from_gate read_client_message read_s_roc_request
    read_s_roc_response read_s_roc_bind size_s_logout encode_message encode_s_logout_body le_bytes
    le_value last_id
command-Survives (Command.module_info o) buf spare h hb =
    survives Command.module_info o new_module_info _ _ encode_module_info_body
      (λ bs. read_module_info bs spare (some new_module_info)) buf (Writes-module_info (some o))
      (size-length_module_info o) ((ReadsBack-module_info (some o) h).run [] spare) hb
command-Survives (Command.s_time_tick o) buf spare h hb =
    survives Command.s_time_tick o new_s_time_tick _ _ encode_s_time_tick_body
      (λ bs. read_s_time_tick bs spare (some new_s_time_tick)) buf (Writes-s_time_tick (some o))
      (size-length_s_time_tick o) ((ReadsBack-s_time_tick o h).run [] spare) hb
command-Survives (Command.s_test o) buf spare h hb =
    survives Command.s_test o new_s_test _ _ encode_s_test_body
      (λ bs. read_s_test bs spare (some new_s_test)) buf (Writes-s_test (some o))
      (size-length_s_test o) ((ReadsBack-s_test o h).run [] spare) hb
command-Survives (Command.s_login o) buf spare h hb =
    survives Command.s_login o new_s_login _ _ encode_s_login_body
      (λ bs. read_s_login bs spare (some new_s_login)) buf (Writes-s_login (some o))
      (size-length_s_login o) ((ReadsBack-s_login o h).run [] spare) hb
command-Survives (Command.s_logout SLogoutCommand.logout) buf spare h hb =
    let run =
      run_writer-Writes (write_s_logout (some SLogoutCommand.logout))
        (encode_s_logout (some SLogoutCommand.logout)) buf
        (Writes-s_logout (some SLogoutCommand.logout)) hb in
    (encode_s_logout (some SLogoutCommand.logout), 4, run, refl, refl)
command-Survives (Command.s_sever_start_ok o) buf spare h hb =
    survives Command.s_sever_start_ok o new_s_sever_start_ok _ _ encode_s_sever_start_ok_body
      (λ bs. read_s_sever_start_ok bs spare (some new_s_sever_start_ok)) buf
      (Writes-s_sever_start_ok (some o)) (size-length_s_sever_start_ok o)
      ((ReadsBack-s_sever_start_ok o h).run [] spare) hb
command-Survives (Command.s_login_ret o) buf spare h hb =
    survives Command.s_login_ret o new_s_login_ret _ _ encode_s_login_ret_body
      (λ bs. read_s_login_ret bs spare (some new_s_login_ret)) buf (Writes-s_login_ret (some o))
      (size-length_s_login_ret o) ((ReadsBack-s_login_ret o h).run [] spare) hb
command-Survives (Command.s_start_rely_notify o) buf spare h hb =
    survives Command.s_start_rely_notify o new_s_start_rely_notify _ _
      encode_s_start_rely_notify_body
      (λ bs. read_s_start_rely_notify bs spare (some new_s_start_rely_notify)) buf
      (Writes-s_start_rely_notify (some o)) (size-length_s_start_rely_notify o)
      ((ReadsBack-s_start_rely_notify o h).run [] spare) hb
command-Survives (Command.s_start_my_notify o) buf spare h hb =
    survives Command.s_start_my_notify o new_s_start_my_notify _ _ encode_s_start_my_notify_body
      (λ bs. read_s_start_my_notify bs spare (some new_s_start_my_notify)) buf
      (Writes-s_start_my_notify (some o)) (size-length_s_start_my_notify o)
      ((ReadsBack-s_start_my_notify o h).run [] spare) hb
command-Survives (Command.s_notify_all_info o) buf spare h hb =
    survives Command.s_notify_all_info o new_s_notify_all_info _ _ encode_s_notify_all_info_body
      (λ bs. read_s_notify_all_info bs spare (some new_s_notify_all_info)) buf
      (Writes-s_notify_all_info (some o)) (size-length_s_notify_all_info o)
      ((ReadsBack-s_notify_all_info o h).run [] spare) hb
command-Survives (Command.s_notify_safely_quit o) buf spare h hb =
    survives Command.s_notify_safely_quit o new_s_notify_safely_quit _ _
      encode_s_notify_safely_quit_body
      (λ bs. read_s_notify_safely_quit bs spare (some new_s_notify_safely_quit)) buf
      (Writes-s_notify_safely_quit (some o)) (size-length_s_notify_safely_quit o)
      ((ReadsBack-s_notify_safely_quit o h).run [] spare) hb
command-Survives (Command.s_update_session o) buf spare h hb =
    survives Command.s_update_session o new_s_update_session _ _ encode_s_update_session_body
      (λ bs. read_s_update_session bs spare (some new_s_update_session)) buf
      (Writes-s_update_session (some o)) (size-length_s_update_session o)
      ((ReadsBack-s_update_session o h).run [] spare) hb
command-Survives (Command.s_req_close_connect o) buf spare h hb =
    survives Command.s_req_close_connect o new_s_req_close_connect _ _
      encode_s_req_close_connect_body
      (λ bs. read_s_req_close_connect bs spare (some new_s_req_close_connect)) buf
      (Writes-s_req_close_connect (some o)) (size-length_s_req_close_connect o)
      ((ReadsBack-s_req_close_connect o h).run [] spare) hb
command-Survives (Command.s_forward_to_module o) buf spare h hb =
    survives Command.s_forward_to_module o new_s_forward_to_module _ _
      encode_s_forward_to_module_body
      (λ bs. read_s_forward_to_module bs spare (some new_s_forward_to_module)) buf
      (Writes-s_forward_to_module (some o)) (size-length_s_forward_to_module o)
      ((ReadsBack-s_forward_to_module o h).run [] spare) hb
command-Survives (Command.module_message o) buf spare h hb =
    survives Command.module_message o new_module_message _ _ encode_module_message_body
      (λ bs. read_module_message bs spare (some new_module_message)) buf
      (Writes-module_message (some o)) (size-length_module_message o)
      ((ReadsBack-module_message o h).run [] spare) hb
command-Survives (Command.s_forward_to_client o) buf spare h hb =
    survives Command.s_forward_to_client o new_s_forward_to_client _ _
      encode_s_forward_to_client_body
      (λ bs. read_s_forward_to_client bs spare (some new_s_forward_to_client)) buf
      (Writes-s_forward_to_client (some o)) (size-length_s_forward_to_client o)
      ((ReadsBack-s_forward_to_client o h).run [] spare) hb
command-Survives (Command.s_forward_from_gate o) buf spare h hb =
    survives Command.s_forward_from_gate o new_s_forward_from_gate _ _
      encode_s_forward_from_gate_body
      (λ bs. read_s_forward_from_gate bs spare (some new_s_forward_from_gate)) buf
      (Writes-s_forward_from_gate (some o)) (size-length_s_forward_from_gate o)
      ((ReadsBack-s_forward_from_gate o h).run [] spare) hb
command-Survives (Command.client_message o) buf spare h hb =
    survives Command.client_message o new_client_message _ _ encode_client_message_body
      (λ bs. read_client_message bs spare (some new_client_message)) buf
      (Writes-client_message (some o)) (size-length_client_message o)
      ((ReadsBack-client_message o h).run [] spare) hb
command-Survives (Command.s_roc_request o) buf spare h hb =
    survives Command.s_roc_request o new_s_roc_request _ _ encode_s_roc_request_body
      (λ bs. read_s_roc_request bs spare (some new_s_roc_request)) buf
      (Writes-s_roc_request (some o)) (size-length_s_roc_request o)
      ((ReadsBack-s_roc_request o h).run [] spare) hb
command-Survives (Command.s_roc_response o) buf spare h hb =
    survives Command.s_roc_response o new_s_roc_response _ _ encode_s_roc_response_body
      (λ bs. read_s_roc_response bs spare (some new_s_roc_response)) buf
      (Writes-s_roc_response (some o)) (size-length_s_roc_response o)
      ((ReadsBack-s_roc_response o h).run [] spare) hb
command-Survives (Command.s_roc_bind o) buf spare (h, (id, e)) hb =
    let (bs, n, w, r, l) = s_roc_bind_arrives_as_last_id o id [] e buf spare h hb in
    let same : with_ids o (id ∷ []) ≡ o = ap (λ ids. record o { obj_ids = ids }) (sym e) in
    (
      bs,
      n,
      w,
      ap (into Command.s_roc_bind new_s_roc_bind) r
          ∙ ap (λ p. some (size_s_roc_bind (some o), Command.s_roc_bind p)) same,
      l,
    )

-- The number and the name of a command belong together: each is found from the other.
pub id_name :
    (c : Command)
    → (string_to_msg_id (get_msg_name c) ≡ get_msg_id c)
      × (msg_id_to_string (get_msg_id c) ≡ get_msg_name c)
unfolding string_to_msg_id get_msg_name get_msg_id msg_id_to_string
id_name (Command.module_info o) = (refl, refl)
id_name (Command.s_time_tick o) = (refl, refl)
id_name (Command.s_test o) = (refl, refl)
id_name (Command.s_login o) = (refl, refl)
id_name (Command.s_logout o) = (refl, refl)
id_name (Command.s_sever_start_ok o) = (refl, refl)
id_name (Command.s_login_ret o) = (refl, refl)
id_name (Command.s_start_rely_notify o) = (refl, refl)
id_name (Command.s_start_my_notify o) = (refl, refl)
id_name (Command.s_notify_all_info o) = (refl, refl)
id_name (Command.s_notify_safely_quit o) = (refl, refl)
id_name (Command.s_update_session o) = (refl, refl)
id_name (Command.s_req_close_connect o) = (refl, refl)
id_name (Command.s_forward_to_module o) = (refl, refl)
id_name (Command.module_message o) = (refl, refl)
id_name (Command.s_forward_to_client o) = (refl, refl)
id_name (Command.s_forward_from_gate o) = (refl, refl)
id_name (Command.client_message o) = (refl, refl)
id_name (Command.s_roc_request o) = (refl, refl)
id_name (Command.s_roc_response o) = (refl, refl)
id_name (Command.s_roc_bind o) = (refl, refl)
