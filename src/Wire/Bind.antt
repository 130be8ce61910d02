-- ===== src/Wire/Bind.antt =====
-- servercomm/command.go and servercomm/command_binary.go: SROCBind, the notice of which objects a
-- module holds. The offset stays at the first of its identifiers while all are written, and while
-- all are read.
pub mod Written
pub mod LastId
use micserver.Prelude.{
  ℕ, ◌+◌, ◌*◌, Bool, false, List, [], ◌∷◌, ◌++◌, Option, none, some, length, drop, ltb,
  if◌then◌else◌, panic, stop, more, ◌>>◌,
}
use micserver.Wire.Bytes.{Bytes, le_bytes}
use micserver.Wire.Write.{
  Writer, elements, poke, write_binary_string, write_bool, write_count, write_each, write_message,
}
use micserver.Wire.Read.{
  Reader, ReadResult, read_binary_string, read_string, read_bool, read_count, unless_nil, repeat,
  read_message,
}
use micserver.Wire.Sizes.{sum_sizes}

pub record SRocBind : Type 0 where
  pub host_module_id : Bytes
  pub is_delete : Bool
  pub obj_type : Bytes
  pub obj_ids : Option (List Bytes)

abbrev pub new_s_roc_bind : SRocBind
new_s_roc_bind = record { host_module_id = []; is_delete = false; obj_type = []; obj_ids = none }

unfoldable pub size_s_roc_bind : Option SRocBind → ℕ
size_s_roc_bind none = 4
size_s_roc_bind (some o) =
    4
    + 4
    + length o.host_module_id
    + 1
    + 4
    + length o.obj_type
    + 4
    + sum_sizes (λ id. length id + 4) (elements o.obj_ids)

-- writeBinaryString on a slice of length 0, whose capacity reaches to the end of the buffer.
unfoldable pub write_in_place : Bytes → Writer
write_in_place s = poke (le_bytes 4 (length s) ++ s)

unfoldable pub write_s_roc_bind_body : SRocBind → Writer
write_s_roc_bind_body o = do
  write_binary_string o.host_module_id
  write_bool o.is_delete
  write_binary_string o.obj_type
  write_count o.obj_ids
  write_each write_in_place (elements o.obj_ids)

unfoldable pub write_s_roc_bind : Option SRocBind → Writer
write_s_roc_bind = write_message (λ o. size_s_roc_bind (some o)) write_s_roc_bind_body

abbrev pub with_ids : SRocBind → List Bytes → SRocBind
with_ids o ids = record o { obj_ids = some ids }

-- `obj.ObjIDs[i4i] = string(readBinaryString(data[offset:])); offset += 0`
unfoldable pub read_in_place : Reader SRocBind
read_in_place r =
    if ltb (length r.bytes) r.offset
    then panic
    else elim (read_binary_string (drop r.offset r.bytes) r.spare) [
      | none ↦ panic
      | some s ↦ more (record r { obj = with_ids r.obj (elements r.obj.obj_ids ++ (s ∷ [])) })
    ]

unfoldable pub read_ids : ℕ → Reader SRocBind
read_ids n r =
    if ltb (length r.bytes) (r.offset + n * 0)
    then stop r
    else repeat n read_in_place (record r { obj = with_ids r.obj [] })

unfoldable pub read_s_roc_bind_body : Reader SRocBind
read_s_roc_bind_body = do
  read_string (λ o. o.host_module_id) (λ o v. record o { host_module_id = v })
  read_bool (λ o v. record o { is_delete = v })
  read_string (λ o. o.obj_type) (λ o v. record o { obj_type = v })
  read_count (λ n. unless_nil n (read_ids n))

unfoldable pub read_s_roc_bind : Bytes → ℕ → Option SRocBind → ReadResult SRocBind
read_s_roc_bind = read_message new_s_roc_bind read_s_roc_bind_body
