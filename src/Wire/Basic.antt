-- ===== src/Wire/Basic.antt =====
-- servercomm/command.go and servercomm/command_binary.go: the login, logout and test messages.
pub mod RoundTrip
use micserver.Prelude.{ℕ, ◌+◌, [], Option, none, some, length, more, ◌>>◌}
use micserver.Prelude.Int.{ℤ, pos}
use micserver.Wire.Bytes.{Bytes}
use micserver.Wire.Write.{Writer, write_binary_string, write_u32, write_u64, write_message}
use micserver.Wire.Read.{
  Reader, ReadResult, to_u64, read_string, read_uint, read_int64, read_message,
}

pub record STimeTickCommand : Type 0 where
  pub testno : ℕ

abbrev pub new_s_time_tick : STimeTickCommand
new_s_time_tick = record { testno = 0 }

unfoldable pub size_s_time_tick : Option STimeTickCommand → ℕ
size_s_time_tick none = 4
size_s_time_tick (some o) = 4 + 4

unfoldable pub write_s_time_tick_body : STimeTickCommand → Writer
write_s_time_tick_body o = write_u32 o.testno

unfoldable pub write_s_time_tick : Option STimeTickCommand → Writer
write_s_time_tick = write_message (λ o. size_s_time_tick (some o)) write_s_time_tick_body

unfoldable pub read_s_time_tick_body : Reader STimeTickCommand
read_s_time_tick_body = read_uint 4 (λ o v. record o { testno = v })

unfoldable pub read_s_time_tick : Bytes → ℕ → Option STimeTickCommand → ReadResult STimeTickCommand
read_s_time_tick = read_message new_s_time_tick read_s_time_tick_body

pub record STestCommand : Type 0 where
  pub testno : ℕ
  pub testttring : Bytes

abbrev pub new_s_test : STestCommand
new_s_test = record { testno = 0; testttring = [] }

unfoldable pub size_s_test : Option STestCommand → ℕ
size_s_test none = 4
size_s_test (some o) = 4 + 4 + 4 + length o.testttring

unfoldable pub write_s_test_body : STestCommand → Writer
write_s_test_body o = do write_u32 o.testno; write_binary_string o.testttring

unfoldable pub write_s_test : Option STestCommand → Writer
write_s_test = write_message (λ o. size_s_test (some o)) write_s_test_body

unfoldable pub read_s_test_body : Reader STestCommand
read_s_test_body = do
  read_uint 4 (λ o v. record o { testno = v })
  read_string (λ o. o.testttring) (λ o v. record o { testttring = v })

unfoldable pub read_s_test : Bytes → ℕ → Option STestCommand → ReadResult STestCommand
read_s_test = read_message new_s_test read_s_test_body

pub record SLoginCommand : Type 0 where
  pub module_id : Bytes
  pub module_addr : Bytes
  pub connect_priority : ℤ
  pub module_number : ℕ
  pub version : ℕ

abbrev pub new_s_login : SLoginCommand
new_s_login = record {
  module_id = [];
  module_addr = [];
  connect_priority = pos 0;
  module_number = 0;
  version = 0;
}

unfoldable pub size_s_login : Option SLoginCommand → ℕ
size_s_login none = 4
size_s_login (some o) = 4 + 4 + length o.module_id + 4 + length o.module_addr + 8 + 4 + 8

unfoldable pub write_s_login_body : SLoginCommand → Writer
write_s_login_body o = do
  write_binary_string o.module_id
  write_binary_string o.module_addr
  write_u64 (to_u64 o.connect_priority)
  write_u32 o.module_number
  write_u64 o.version

unfoldable pub write_s_login : Option SLoginCommand → Writer
write_s_login = write_message (λ o. size_s_login (some o)) write_s_login_body

unfoldable pub read_s_login_body : Reader SLoginCommand
read_s_login_body = do
  read_string (λ o. o.module_id) (λ o v. record o { module_id = v })
  read_string (λ o. o.module_addr) (λ o v. record o { module_addr = v })
  read_int64 (λ o v. record o { connect_priority = v })
  read_uint 4 (λ o v. record o { module_number = v })
  read_uint 8 (λ o v. record o { version = v })

unfoldable pub read_s_login : Bytes → ℕ → Option SLoginCommand → ReadResult SLoginCommand
read_s_login = read_message new_s_login read_s_login_body

pub data SLogoutCommand : Type 0 where
  logout : SLogoutCommand

abbrev pub new_s_logout : SLogoutCommand
new_s_logout = logout

unfoldable pub size_s_logout : Option SLogoutCommand → ℕ
size_s_logout none = 4
size_s_logout (some o) = 4 + 0

unfoldable pub write_s_logout_body : SLogoutCommand → Writer
write_s_logout_body o = more

unfoldable pub write_s_logout : Option SLogoutCommand → Writer
write_s_logout = write_message (λ o. size_s_logout (some o)) write_s_logout_body

unfoldable pub read_s_logout_body : Reader SLogoutCommand
read_s_logout_body = more

unfoldable pub read_s_logout : Bytes → ℕ → Option SLogoutCommand → ReadResult SLogoutCommand
read_s_logout = read_message new_s_logout read_s_logout_body

pub record SSeverStartOkCommand : Type 0 where
  pub module_id : Bytes

abbrev pub new_s_sever_start_ok : SSeverStartOkCommand
new_s_sever_start_ok = record { module_id = [] }

unfoldable pub size_s_sever_start_ok : Option SSeverStartOkCommand → ℕ
size_s_sever_start_ok none = 4
size_s_sever_start_ok (some o) = 4 + 4 + length o.module_id

unfoldable pub write_s_sever_start_ok_body : SSeverStartOkCommand → Writer
write_s_sever_start_ok_body o = write_binary_string o.module_id

unfoldable pub write_s_sever_start_ok : Option SSeverStartOkCommand → Writer
write_s_sever_start_ok =
    write_message (λ o. size_s_sever_start_ok (some o)) write_s_sever_start_ok_body

unfoldable pub read_s_sever_start_ok_body : Reader SSeverStartOkCommand
read_s_sever_start_ok_body = read_string (λ o. o.module_id) (λ o v. record o { module_id = v })

unfoldable pub read_s_sever_start_ok :
    Bytes → ℕ → Option SSeverStartOkCommand → ReadResult SSeverStartOkCommand
read_s_sever_start_ok = read_message new_s_sever_start_ok read_s_sever_start_ok_body
