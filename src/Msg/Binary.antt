-- ===== src/Msg/Binary.antt =====
-- msg/message_binary.go and msg/pool.go: a message with its buffer.
use micserver.Prelude.{
  ℕ, ◌+◌, ◌*◌, Option, none, some, List, [], ◌∷◌, ◌++◌, ltb, if◌then◌else◌, length, take, drop,
  replicate,
}
use micserver.Wire.Bytes.{Bytes}
use micserver.Msg.Pool

-- MessageBinary. ProtoData is a slice of the buffer, given by its bounds; the base's callback and
-- object are left out.
pub record MessageBinary : Type 0 where
  pub total_length : ℕ
  pub msg_id : ℕ
  pub proto_length : ℕ
  pub proto_data : Option (ℕ × ℕ)
  pub buffer : Bytes

-- The bytes of ProtoData.
unfoldable pub proto_bytes : MessageBinary → Bytes
proto_bytes m = elim m.proto_data [ none ↦ [] | some (offset, n) ↦ take n (drop offset m.buffer) ]

abbrev pub message_max_size : ℕ
message_max_size = 8 * 1024 * 1024

-- sizeControl of msg/pool.go
abbrev pub size_control : List ℕ
size_control =
    32 ∷ 64 ∷ 128 ∷ 256 ∷ 512 ∷ 1024 ∷ 2048 ∷ 4096 ∷ 6144 ∷ 8192 ∷ 10240 ∷ 15360 ∷ 20480 ∷ 25600
    ∷ 30720 ∷ 35840 ∷ 40960 ∷ 46080 ∷ 51200 ∷ 56320 ∷ 61440 ∷ 65536 ∷ 131072 ∷ 262144 ∷ 524288
    ∷ 1048576 ∷ 2097152 ∷ 4194304 ∷ 8388608 ∷ []

unfoldable pub new_msg_binary_by_size : ℕ → MessageBinary
new_msg_binary_by_size size = record {
  total_length = 0;
  msg_id = 0;
  proto_length = 0;
  proto_data = none;
  buffer = replicate size 0;
}

-- What the sync.Pools have to hand at one moment, by class.
abbrev pub Pooled : Type 0
Pooled = ℕ → Option MessageBinary

-- GetMessageBinary; `none` is nil.
unfoldable pub get_message_binary : Pooled → ℕ → Option MessageBinary
get_message_binary pooled total_length =
    Pool.get size_control new_msg_binary_by_size pooled total_length

unfoldable pub reset : MessageBinary → MessageBinary
reset m = record m { total_length = 0; msg_id = 0; proto_data = none }

-- Free: the message as it goes into a pool, and the class of that pool.
unfoldable pub free : MessageBinary → Option ℕ × MessageBinary
free m = (Pool.put_class size_control (length m.buffer), reset m)

unfoldable pub set_total_length : ℕ → MessageBinary → MessageBinary
set_total_length v m = record m { total_length = v }

unfoldable pub set_msg_id : ℕ → MessageBinary → MessageBinary
set_msg_id v m = record m { msg_id = v }

pub data Error : Type 0 where
  source_out_of_range no_memory out_of_range : Error

-- Read: the copy, in a buffer that is replaced if it is too short. `none` is no error.
unfoldable pub copy_in : ℕ → Bytes → MessageBinary → MessageBinary
copy_in soffset bs m = record m {
  buffer = take soffset m.buffer ++ (bs ++ drop (soffset + length bs) m.buffer);
}

unfoldable pub read : Pooled → ℕ → Bytes → ℕ → ℕ → MessageBinary → MessageBinary × Option Error
read pooled soffset bs doffset n m =
    let bs' = take n (drop doffset bs) in
    if ltb (length bs) (doffset + n)
    then (m, some source_out_of_range)
    else if ltb (length m.buffer) (soffset + n)
    then elim (get_message_binary pooled (soffset + n)) [
      | none ↦ (m, some no_memory)
      | some tmp ↦ (copy_in soffset bs' (record m { buffer = tmp.buffer }), none)
    ]
    else (copy_in soffset bs' m, none)

unfoldable pub set_proto_data_bound : ℕ → ℕ → MessageBinary → MessageBinary × Option Error
set_proto_data_bound offset n m =
    if ltb (length m.buffer) (offset + n)
    then (m, some out_of_range)
    else (record m { proto_data = some (offset, n); proto_length = n }, none)
