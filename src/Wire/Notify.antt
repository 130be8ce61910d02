-- ===== src/Wire/Notify.antt =====
-- servercomm/command.go and servercomm/command_binary.go: the messages that carry the information on modules.
pub mod RoundTrip
use micserver.Prelude.{ℕ, ◌+◌, List, Option, none, some, ◌>>◌}
use micserver.Wire.Bytes.{Bytes}
use micserver.Wire.Write.{Writer, elements, write_u32, write_message}
use micserver.Wire.Read.{Reader, ReadResult, read_uint, read_pointer, read_pointers, read_message}
use micserver.Wire.Sizes.{sum_sizes}
use micserver.Wire.Info.{
  ModuleInfo, size_module_info, write_module_info, write_module_infos, read_module_info,
}

pub record SLoginRetCommand : Type 0 where
  pub loginfailed : ℕ
  pub destination : Option ModuleInfo

abbrev pub new_s_login_ret : SLoginRetCommand
new_s_login_ret = record { loginfailed = 0; destination = none }

unfoldable pub size_s_login_ret : Option SLoginRetCommand → ℕ
size_s_login_ret none = 4
size_s_login_ret (some o) = 4 + 4 + size_module_info o.destination

unfoldable pub write_s_login_ret_body : SLoginRetCommand → Writer
write_s_login_ret_body o = do write_u32 o.loginfailed; write_module_info o.destination

unfoldable pub write_s_login_ret : Option SLoginRetCommand → Writer
write_s_login_ret = write_message (λ o. size_s_login_ret (some o)) write_s_login_ret_body

unfoldable pub read_s_login_ret_body : Reader SLoginRetCommand
read_s_login_ret_body = do
  read_uint 4 (λ o v. record o { loginfailed = v })
  read_pointer size_module_info read_module_info (λ o. o.destination)
      (λ o v. record o { destination = v })

unfoldable pub read_s_login_ret : Bytes → ℕ → Option SLoginRetCommand → ReadResult SLoginRetCommand
read_s_login_ret = read_message new_s_login_ret read_s_login_ret_body

pub record SStartRelyNotifyCommand : Type 0 where
  pub server_infos : Option (List (Option ModuleInfo))

abbrev pub new_s_start_rely_notify : SStartRelyNotifyCommand
new_s_start_rely_notify = record { server_infos = none }

unfoldable pub size_s_start_rely_notify : Option SStartRelyNotifyCommand → ℕ
size_s_start_rely_notify none = 4
size_s_start_rely_notify (some o) = 4 + 4 + sum_sizes size_module_info (elements o.server_infos)

unfoldable pub write_s_start_rely_notify_body : SStartRelyNotifyCommand → Writer
write_s_start_rely_notify_body o = write_module_infos o.server_infos

unfoldable pub write_s_start_rely_notify : Option SStartRelyNotifyCommand → Writer
write_s_start_rely_notify =
    write_message (λ o. size_s_start_rely_notify (some o)) write_s_start_rely_notify_body

unfoldable pub read_s_start_rely_notify_body : Reader SStartRelyNotifyCommand
read_s_start_rely_notify_body =
    read_pointers read_module_info (λ o. o.server_infos) (λ o v. record o { server_infos = v })

unfoldable pub read_s_start_rely_notify :
    Bytes → ℕ → Option SStartRelyNotifyCommand → ReadResult SStartRelyNotifyCommand
read_s_start_rely_notify = read_message new_s_start_rely_notify read_s_start_rely_notify_body

pub record SStartMyNotifyCommand : Type 0 where
  pub module_info : Option ModuleInfo

abbrev pub new_s_start_my_notify : SStartMyNotifyCommand
new_s_start_my_notify = record { module_info = none }

unfoldable pub size_s_start_my_notify : Option SStartMyNotifyCommand → ℕ
size_s_start_my_notify none = 4
size_s_start_my_notify (some o) = 4 + size_module_info o.module_info

unfoldable pub write_s_start_my_notify_body : SStartMyNotifyCommand → Writer
write_s_start_my_notify_body o = write_module_info o.module_info

unfoldable pub write_s_start_my_notify : Option SStartMyNotifyCommand → Writer
write_s_start_my_notify =
    write_message (λ o. size_s_start_my_notify (some o)) write_s_start_my_notify_body

unfoldable pub read_s_start_my_notify_body : Reader SStartMyNotifyCommand
read_s_start_my_notify_body =
    read_pointer size_module_info read_module_info (λ o. o.module_info)
      (λ o v. record o { module_info = v })

unfoldable pub read_s_start_my_notify :
    Bytes → ℕ → Option SStartMyNotifyCommand → ReadResult SStartMyNotifyCommand
read_s_start_my_notify = read_message new_s_start_my_notify read_s_start_my_notify_body

pub record SNotifyAllInfo : Type 0 where
  pub server_infos : Option (List (Option ModuleInfo))

abbrev pub new_s_notify_all_info : SNotifyAllInfo
new_s_notify_all_info = record { server_infos = none }

unfoldable pub size_s_notify_all_info : Option SNotifyAllInfo → ℕ
size_s_notify_all_info none = 4
size_s_notify_all_info (some o) = 4 + 4 + sum_sizes size_module_info (elements o.server_infos)

unfoldable pub write_s_notify_all_info_body : SNotifyAllInfo → Writer
write_s_notify_all_info_body o = write_module_infos o.server_infos

unfoldable pub write_s_notify_all_info : Option SNotifyAllInfo → Writer
write_s_notify_all_info =
    write_message (λ o. size_s_notify_all_info (some o)) write_s_notify_all_info_body

unfoldable pub read_s_notify_all_info_body : Reader SNotifyAllInfo
read_s_notify_all_info_body =
    read_pointers read_module_info (λ o. o.server_infos) (λ o v. record o { server_infos = v })

unfoldable pub read_s_notify_all_info :
    Bytes → ℕ → Option SNotifyAllInfo → ReadResult SNotifyAllInfo
read_s_notify_all_info = read_message new_s_notify_all_info read_s_notify_all_info_body

pub record SNotifySafelyQuit : Type 0 where
  pub target_server_info : Option ModuleInfo

abbrev pub new_s_notify_safely_quit : SNotifySafelyQuit
new_s_notify_safely_quit = record { target_server_info = none }

unfoldable pub size_s_notify_safely_quit : Option SNotifySafelyQuit → ℕ
size_s_notify_safely_quit none = 4
size_s_notify_safely_quit (some o) = 4 + size_module_info o.target_server_info

unfoldable pub write_s_notify_safely_quit_body : SNotifySafelyQuit → Writer
write_s_notify_safely_quit_body o = write_module_info o.target_server_info

unfoldable pub write_s_notify_safely_quit : Option SNotifySafelyQuit → Writer
write_s_notify_safely_quit =
    write_message (λ o. size_s_notify_safely_quit (some o)) write_s_notify_safely_quit_body

unfoldable pub read_s_notify_safely_quit_body : Reader SNotifySafelyQuit
read_s_notify_safely_quit_body =
    read_pointer size_module_info read_module_info (λ o. o.target_server_info)
      (λ o v. record o { target_server_info = v })

unfoldable pub read_s_notify_safely_quit :
    Bytes → ℕ → Option SNotifySafelyQuit → ReadResult SNotifySafelyQuit
read_s_notify_safely_quit = read_message new_s_notify_safely_quit read_s_notify_safely_quit_body
