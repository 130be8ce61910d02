-- ===== src/Wire/Info.antt =====
-- servercomm/command.go and servercomm/command_binary.go: ModuleInfo, which other messages carry.
pub mod RoundTrip
use micserver.Prelude.{ℕ, ◌+◌, List, [], Option, none, some, length, ◌>>◌}
use micserver.Wire.Bytes.{Bytes}
use micserver.Wire.Write.{
  Writer, elements, write_binary_string, write_u32, write_u64, write_count, write_each,
  write_message,
}
use micserver.Wire.Read.{Reader, ReadResult, read_string, read_uint, read_message}

pub record ModuleInfo : Type 0 where
  pub module_id : Bytes
  pub module_addr : Bytes
  pub module_number : ℕ
  pub version : ℕ

abbrev pub new_module_info : ModuleInfo
new_module_info = record { module_id = []; module_addr = []; module_number = 0; version = 0 }

unfoldable pub size_module_info : Option ModuleInfo → ℕ
size_module_info none = 4
size_module_info (some o) = 4 + 4 + length o.module_id + 4 + length o.module_addr + 4 + 8

unfoldable pub write_module_info_body : ModuleInfo → Writer
write_module_info_body o = do
  write_binary_string o.module_id
  write_binary_string o.module_addr
  write_u32 o.module_number
  write_u64 o.version

unfoldable pub write_module_info : Option ModuleInfo → Writer
write_module_info = write_message (λ o. size_module_info (some o)) write_module_info_body

-- The count and the elements of a []*ModuleInfo.
unfoldable pub write_module_infos : Option (List (Option ModuleInfo)) → Writer
write_module_infos o = do write_count o; write_each write_module_info (elements o)

unfoldable pub read_module_info_body : Reader ModuleInfo
read_module_info_body = do
  read_string (λ o. o.module_id) (λ o v. record o { module_id = v })
  read_string (λ o. o.module_addr) (λ o v. record o { module_addr = v })
  read_uint 4 (λ o v. record o { module_number = v })
  read_uint 8 (λ o v. record o { version = v })

unfoldable pub read_module_info : Bytes → ℕ → Option ModuleInfo → ReadResult ModuleInfo
read_module_info = read_message new_module_info read_module_info_body
