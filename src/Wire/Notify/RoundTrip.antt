-- ===== src/Wire/Notify/RoundTrip.antt =====
-- What the writers of the messages that carry the information on modules leave in a buffer, and that the readers find it again.
use micserver.Prelude.{
  ◌+◌, ◌^◌, ◌<◌, ◌≡◌, refl, ◌++◌, Option, some, length, length-append, All, arith,
}
use micserver.Wire.Bytes.{Bytes, le_bytes, length-le_bytes}
use micserver.Wire.Write.{elements, write_u32}
use micserver.Wire.Writes.{Writes, Writes-seq, Writes-put, Writes-message, encode_message}
use micserver.Wire.Reads.{Reads, Reads-seq, Reads-uint, FitsSlice}
use micserver.Wire.Nested.{ReadsBack, ReadsBack-some, Reads-pointer, length-encode_message}
use micserver.Wire.Notify.{
  SLoginRetCommand, new_s_login_ret, size_s_login_ret, write_s_login_ret_body, write_s_login_ret,
  read_s_login_ret_body, read_s_login_ret, SStartRelyNotifyCommand, new_s_start_rely_notify,
  size_s_start_rely_notify, write_s_start_rely_notify_body, write_s_start_rely_notify,
  read_s_start_rely_notify_body, read_s_start_rely_notify, SStartMyNotifyCommand,
  new_s_start_my_notify, size_s_start_my_notify, write_s_start_my_notify_body,
  write_s_start_my_notify, read_s_start_my_notify_body, read_s_start_my_notify, SNotifyAllInfo,
  new_s_notify_all_info, size_s_notify_all_info, write_s_notify_all_info_body,
  write_s_notify_all_info, read_s_notify_all_info_body, read_s_notify_all_info, SNotifySafelyQuit,
  new_s_notify_safely_quit, size_s_notify_safely_quit, write_s_notify_safely_quit_body,
  write_s_notify_safely_quit, read_s_notify_safely_quit_body, read_s_notify_safely_quit,
}
use micserver.Wire.Info.{size_module_info}
use micserver.Wire.Info.RoundTrip.{
  IsInfoPointer, encode_module_info, encode_module_infos, size_module_info_pos,
  length-encode_module_info, length-encode_module_infos, Writes-module_info, Writes-module_infos,
  ReadsBack-module_info, Reads-module_infos,
}

pub record IsSLoginRetCommand (o : SLoginRetCommand) : Type 0 where
  pub loginfailed_fits : o.loginfailed < 2 ^ 32
  pub destination_valid : IsInfoPointer o.destination
  pub size_fits : size_s_login_ret (some o) < 2 ^ 32

unfoldable pub encode_s_login_ret_body : SLoginRetCommand → Bytes
encode_s_login_ret_body o = le_bytes 4 o.loginfailed ++ (encode_module_info o.destination)

abbrev pub encode_s_login_ret : Option SLoginRetCommand → Bytes
encode_s_login_ret = encode_message encode_s_login_ret_body

pub size-length_s_login_ret :
    (o : SLoginRetCommand) → size_s_login_ret (some o) ≡ 4 + length (encode_s_login_ret_body o)
unfolding encode_s_login_ret_body size_s_login_ret
size-length_s_login_ret o =
    simp (length-append, length-le_bytes, length-encode_module_info) (omega arith)

pub Writes-s_login_ret :
    (o : Option SLoginRetCommand) → Writes (write_s_login_ret o) (encode_s_login_ret o)
unfolding write_s_login_ret write_s_login_ret_body encode_s_login_ret_body write_u32
Writes-s_login_ret =
    Writes-message _ _ _ size-length_s_login_ret
      (λ o. Writes-seq (Writes-put _) (Writes-module_info _))

Reads-s_login_ret :
    (o : SLoginRetCommand)
    → IsSLoginRetCommand o
    → Reads read_s_login_ret_body (encode_s_login_ret_body o) new_s_login_ret o
unfolding read_s_login_ret_body encode_s_login_ret_body size_s_login_ret size_module_info
Reads-s_login_ret o h = Reads-seq (Reads-uint _ _ _ _ (omega arith)) (
    Reads-pointer _ _ _ _ _ _ _ (length-encode_message _ o.destination)
      (ReadsBack-module_info o.destination h.destination_valid))

pub ReadsBack-s_login_ret :
    (o : SLoginRetCommand)
    → IsSLoginRetCommand o
    → ReadsBack read_s_login_ret encode_s_login_ret (some o)
unfolding read_s_login_ret size_s_login_ret
ReadsBack-s_login_ret o h =
    ReadsBack-some _ _ _ o
      (omega (arith, size-length_s_login_ret o, size_module_info_pos o.destination))
      (omega (arith, size-length_s_login_ret o)) (Reads-s_login_ret o h)

pub record IsSStartRelyNotifyCommand (o : SStartRelyNotifyCommand) : Type 0 where
  pub server_infos_valid : All IsInfoPointer (elements o.server_infos)
  pub server_infos_count : FitsSlice o.server_infos
  pub size_fits : size_s_start_rely_notify (some o) < 2 ^ 32

unfoldable pub encode_s_start_rely_notify_body : SStartRelyNotifyCommand → Bytes
encode_s_start_rely_notify_body o = encode_module_infos o.server_infos

abbrev pub encode_s_start_rely_notify : Option SStartRelyNotifyCommand → Bytes
encode_s_start_rely_notify = encode_message encode_s_start_rely_notify_body

pub size-length_s_start_rely_notify :
    (o : SStartRelyNotifyCommand)
    → size_s_start_rely_notify (some o) ≡ 4 + length (encode_s_start_rely_notify_body o)
unfolding encode_s_start_rely_notify_body size_s_start_rely_notify
size-length_s_start_rely_notify o = simp length-encode_module_infos (omega arith)

pub Writes-s_start_rely_notify :
    (o : Option SStartRelyNotifyCommand)
    → Writes (write_s_start_rely_notify o) (encode_s_start_rely_notify o)
unfolding write_s_start_rely_notify write_s_start_rely_notify_body encode_s_start_rely_notify_body
Writes-s_start_rely_notify =
    Writes-message _ _ _ size-length_s_start_rely_notify (λ o. Writes-module_infos _)

Reads-s_start_rely_notify :
    (o : SStartRelyNotifyCommand)
    → IsSStartRelyNotifyCommand o
    → Reads read_s_start_rely_notify_body
        (encode_s_start_rely_notify_body o)
        new_s_start_rely_notify
        o
unfolding read_s_start_rely_notify_body encode_s_start_rely_notify_body size_s_start_rely_notify
    size_module_info encode_module_infos
Reads-s_start_rely_notify o h =
    Reads-module_infos _ _ (λ o m n. (refl, refl)) _ _ refl h.server_infos_count
      h.server_infos_valid

pub ReadsBack-s_start_rely_notify :
    (o : SStartRelyNotifyCommand)
    → IsSStartRelyNotifyCommand o
    → ReadsBack read_s_start_rely_notify encode_s_start_rely_notify (some o)
unfolding read_s_start_rely_notify size_s_start_rely_notify
ReadsBack-s_start_rely_notify o h =
    ReadsBack-some _ _ _ o (omega (arith, size-length_s_start_rely_notify o))
      (omega (arith, size-length_s_start_rely_notify o)) (Reads-s_start_rely_notify o h)

pub record IsSStartMyNotifyCommand (o : SStartMyNotifyCommand) : Type 0 where
  pub module_info_valid : IsInfoPointer o.module_info
  pub size_fits : size_s_start_my_notify (some o) < 2 ^ 32

unfoldable pub encode_s_start_my_notify_body : SStartMyNotifyCommand → Bytes
encode_s_start_my_notify_body o = encode_module_info o.module_info

abbrev pub encode_s_start_my_notify : Option SStartMyNotifyCommand → Bytes
encode_s_start_my_notify = encode_message encode_s_start_my_notify_body

pub size-length_s_start_my_notify :
    (o : SStartMyNotifyCommand)
    → size_s_start_my_notify (some o) ≡ 4 + length (encode_s_start_my_notify_body o)
unfolding encode_s_start_my_notify_body size_s_start_my_notify
size-length_s_start_my_notify o = simp length-encode_module_info (omega arith)

pub Writes-s_start_my_notify :
    (o : Option SStartMyNotifyCommand)
    → Writes (write_s_start_my_notify o) (encode_s_start_my_notify o)
unfolding write_s_start_my_notify write_s_start_my_notify_body encode_s_start_my_notify_body
Writes-s_start_my_notify =
    Writes-message _ _ _ size-length_s_start_my_notify (λ o. Writes-module_info _)

Reads-s_start_my_notify :
    (o : SStartMyNotifyCommand)
    → IsSStartMyNotifyCommand o
    → Reads read_s_start_my_notify_body (encode_s_start_my_notify_body o) new_s_start_my_notify o
unfolding read_s_start_my_notify_body encode_s_start_my_notify_body size_s_start_my_notify
    size_module_info
Reads-s_start_my_notify o h =
    Reads-pointer _ _ _ _ _ _ _ (length-encode_message _ o.module_info)
      (ReadsBack-module_info o.module_info h.module_info_valid)

pub ReadsBack-s_start_my_notify :
    (o : SStartMyNotifyCommand)
    → IsSStartMyNotifyCommand o
    → ReadsBack read_s_start_my_notify encode_s_start_my_notify (some o)
unfolding read_s_start_my_notify size_s_start_my_notify
ReadsBack-s_start_my_notify o h =
    ReadsBack-some _ _ _ o
      (omega (arith, size-length_s_start_my_notify o, size_module_info_pos o.module_info))
      (omega (arith, size-length_s_start_my_notify o)) (Reads-s_start_my_notify o h)

pub record IsSNotifyAllInfo (o : SNotifyAllInfo) : Type 0 where
  pub server_infos_valid : All IsInfoPointer (elements o.server_infos)
  pub server_infos_count : FitsSlice o.server_infos
  pub size_fits : size_s_notify_all_info (some o) < 2 ^ 32

unfoldable pub encode_s_notify_all_info_body : SNotifyAllInfo → Bytes
encode_s_notify_all_info_body o = encode_module_infos o.server_infos

abbrev pub encode_s_notify_all_info : Option SNotifyAllInfo → Bytes
encode_s_notify_all_info = encode_message encode_s_notify_all_info_body

pub size-length_s_notify_all_info :
    (o : SNotifyAllInfo)
    → size_s_notify_all_info (some o) ≡ 4 + length (encode_s_notify_all_info_body o)
unfolding encode_s_notify_all_info_body size_s_notify_all_info
size-length_s_notify_all_info o = simp length-encode_module_infos (omega arith)

pub Writes-s_notify_all_info :
    (o : Option SNotifyAllInfo) → Writes (write_s_notify_all_info o) (encode_s_notify_all_info o)
unfolding write_s_notify_all_info write_s_notify_all_info_body encode_s_notify_all_info_body
Writes-s_notify_all_info =
    Writes-message _ _ _ size-length_s_notify_all_info (λ o. Writes-module_infos _)

Reads-s_notify_all_info :
    (o : SNotifyAllInfo)
    → IsSNotifyAllInfo o
    → Reads read_s_notify_all_info_body (encode_s_notify_all_info_body o) new_s_notify_all_info o
unfolding read_s_notify_all_info_body encode_s_notify_all_info_body size_s_notify_all_info
    size_module_info encode_module_infos
Reads-s_notify_all_info o h =
    Reads-module_infos _ _ (λ o m n. (refl, refl)) _ _ refl h.server_infos_count
      h.server_infos_valid

pub ReadsBack-s_notify_all_info :
    (o : SNotifyAllInfo)
    → IsSNotifyAllInfo o
    → ReadsBack read_s_notify_all_info encode_s_notify_all_info (some o)
unfolding read_s_notify_all_info size_s_notify_all_info
ReadsBack-s_notify_all_info o h =
    ReadsBack-some _ _ _ o (omega (arith, size-length_s_notify_all_info o))
      (omega (arith, size-length_s_notify_all_info o)) (Reads-s_notify_all_info o h)

pub record IsSNotifySafelyQuit (o : SNotifySafelyQuit) : Type 0 where
  pub target_server_info_valid : IsInfoPointer o.target_server_info
  pub size_fits : size_s_notify_safely_quit (some o) < 2 ^ 32

unfoldable pub encode_s_notify_safely_quit_body : SNotifySafelyQuit → Bytes
encode_s_notify_safely_quit_body o = encode_module_info o.target_server_info

abbrev pub encode_s_notify_safely_quit : Option SNotifySafelyQuit → Bytes
encode_s_notify_safely_quit = encode_message encode_s_notify_safely_quit_body

pub size-length_s_notify_safely_quit :
    (o : SNotifySafelyQuit)
    → size_s_notify_safely_quit (some o) ≡ 4 + length (encode_s_notify_safely_quit_body o)
unfolding encode_s_notify_safely_quit_body size_s_notify_safely_quit
size-length_s_notify_safely_quit o = simp length-encode_module_info (omega arith)

pub Writes-s_notify_safely_quit :
    (o : Option SNotifySafelyQuit)
    → Writes (write_s_notify_safely_quit o) (encode_s_notify_safely_quit o)
unfolding write_s_notify_safely_quit write_s_notify_safely_quit_body
    encode_s_notify_safely_quit_body
Writes-s_notify_safely_quit =
    Writes-message _ _ _ size-length_s_notify_safely_quit (λ o. Writes-module_info _)

Reads-s_notify_safely_quit :
    (o : SNotifySafelyQuit)
    → IsSNotifySafelyQuit o
    → Reads read_s_notify_safely_quit_body
        (encode_s_notify_safely_quit_body o)
        new_s_notify_safely_quit
        o
unfolding read_s_notify_safely_quit_body encode_s_notify_safely_quit_body size_s_notify_safely_quit
    size_module_info
Reads-s_notify_safely_quit o h =
    Reads-pointer _ _ _ _ _ _ _ (length-encode_message _ o.target_server_info)
      (ReadsBack-module_info o.target_server_info h.target_server_info_valid)

pub ReadsBack-s_notify_safely_quit :
    (o : SNotifySafelyQuit)
    → IsSNotifySafelyQuit o
    → ReadsBack read_s_notify_safely_quit encode_s_notify_safely_quit (some o)
unfolding read_s_notify_safely_quit size_s_notify_safely_quit
ReadsBack-s_notify_safely_quit o h =
    ReadsBack-some _ _ _ o
      (omega (arith, size-length_s_notify_safely_quit o, size_module_info_pos o.target_server_info))
      (omega (arith, size-length_s_notify_safely_quit o)) (Reads-s_notify_safely_quit o h)
