-- ===== src/Msg/Encode.antt =====
-- msg/codec.go, the side that makes messages. `none` outside is a panic, inside it is nil.
use micserver.Prelude.{
  ℕ, ◌+◌, Option, none, some, ◌++◌, ltb, if◌then◌else◌, length, take, drop, leb,
}
use micserver.Wire.Bytes.{Bytes, le_bytes}
use micserver.Wire.Run.{run_writer}
use micserver.Wire.Commands.{Command, get_msg_id, get_size, write_binary}
use micserver.Msg.Binary.{
  MessageBinary, message_max_size, Pooled, get_message_binary, reset, set_total_length, set_msg_id,
  read, set_proto_data_bound,
}

abbrev pub default_msg_head_size : ℕ
default_msg_head_size = 6

-- DefaultWriteHead
unfoldable pub default_write_head : Bytes → ℕ → ℕ → Option Bytes
default_write_head bs total_len msg_id =
    if ltb (length bs) 6
    then none
    else some (le_bytes 4 total_len ++ (le_bytes 2 msg_id ++ drop 6 bs))

abbrev pub Made : Type 0
Made = Option (Option MessageBinary)

-- A message without content, for one that is too large.
unfoldable pub empty_message : Pooled → Made
empty_message pooled = elim (get_message_binary pooled 0) [
  | none ↦ none
  | some m ↦ some (some (reset m))
]

-- What both ways of making a message do once its content is in its buffer: set the bounds of the
-- content, then the lengths and the id, and write the head.
unfoldable pub with_head : ℕ → ℕ → MessageBinary → Made
with_head cmd_id total m =
    let m' = set_msg_id cmd_id (set_total_length total m) in
    elim (default_write_head m'.buffer total cmd_id) [
      | none ↦ none
      | some bs ↦ some (some (record m' { buffer = bs }))
    ]

unfoldable pub finish : ℕ → ℕ → ℕ → MessageBinary → Made
finish cmd_id data_len total m =
    with_head cmd_id total (set_proto_data_bound default_msg_head_size data_len m).0

-- DefaultEncodeBytes; `again` is what the pools have to hand if Read has to replace the buffer.
unfoldable pub default_encode_bytes : Pooled → Pooled → ℕ → Bytes → Made
default_encode_bytes pooled again cmd_id proto_data =
    let data_len = length proto_data in
    let total = default_msg_head_size + data_len in
    if leb message_max_size total
    then empty_message pooled
    else elim (get_message_binary pooled total) [
      | none ↦ some none
      | some m ↦
          finish cmd_id data_len total (read again default_msg_head_size proto_data 0 data_len m).0
    ]

-- WriteBinary on the message's buffer behind the head.
unfoldable pub write_obj : Command → ℕ → MessageBinary → Option MessageBinary
write_obj v total m =
    if ltb (length m.buffer) total
    then none
    else elim (run_writer (write_binary v) (drop default_msg_head_size (take total m.buffer))) [
      | none ↦ none
      | some (bs, n) ↦
          some (record m {
            buffer = take default_msg_head_size m.buffer ++ (bs ++ drop total m.buffer);
          })
    ]

-- DefaultEncodeObj, for the commands of servercomm.
unfoldable pub default_encode_obj : Pooled → Command → Made
default_encode_obj pooled v =
    let data_len = get_size v in
    let total = default_msg_head_size + data_len in
    if leb message_max_size total
    then empty_message pooled
    else elim (get_message_binary pooled total) [
      | none ↦ some none
      | some m ↦ elim (write_obj v total m) [
        | none ↦ none
        | some m' ↦ finish (get_msg_id v) data_len total m'
      ]
    ]
