-- ===== src/Msg/Decode.antt =====
-- msg/codec.go, the side that takes messages out of a connection's buffer.
use micserver.Prelude.{
  ℕ, zero, suc, ◌+◌, Bool, true, false, not, ◌&&◌, Option, none, some, List, [], ◌∷◌, ◌++◌, ltb,
  if◌then◌else◌, length, take, drop,
}
use micserver.Prelude.Int.{ℤ, pos, negsuc, sub_ℕ, to_ℕ}
use micserver.Wire.Bytes.{Bytes, le_value}
use micserver.Buffer.{IoBuffer}
use micserver.Buffer
use micserver.Msg.Binary.{
  MessageBinary, Pooled, get_message_binary, set_total_length, set_msg_id, set_proto_data_bound,
}
use micserver.Msg.Binary

pub record DefaultCodec : Type 0 where
  pub in_msg : Bool
  pub total_len : ℕ
  pub proto_len : ℤ
  pub msg_id : ℕ

pub data Error : Type 0 where
  data_not_enough cmd_len : Error
  buffer : Buffer.Error → Error
  message : Binary.Error → Error
  -- A panic that the deferred function turned into an error.
  recovered : Error

-- readHead
unfoldable pub read_head : Bytes → DefaultCodec → DefaultCodec × Option Error
read_head bs c =
    let total = le_value (take 4 bs) in
    let c' : DefaultCodec = record c {
      total_len = total;
      proto_len = sub_ℕ total 6;
      msg_id = le_value (take 2 (drop 4 bs));
    } in
    if ltb (length bs) 6
    then (c, some data_not_enough)
    else if ltb total 6
    then (c', some cmd_len)
    else (c', none)

-- m <= z
unfoldable pub at_least : ℤ → ℤ → Bool
at_least (pos n) (pos m) = not (ltb n m)
at_least (pos n) (negsuc m) = true
at_least (negsuc n) (pos m) = false
at_least (negsuc n) (negsuc m) = not (ltb m n)

-- Where the loop stands: the codec, the buffer, and the messages handed to the callback so far.
-- The callback is outside the model: it returns, and does not touch the codec or the buffer.
pub record State : Type 0 where
  pub codec : DefaultCodec
  pub buf : IoBuffer
  pub given : List MessageBinary

pub data Outcome : Type 0 where
  go_on : State → Outcome
  end_with : Option Error → State → Outcome

-- The first half of the loop's body: the head of the next message.
unfoldable pub head_step : State → Outcome
head_step s =
    if not s.codec.in_msg && at_least (Buffer.len s.buf) (pos 6)
    then elim (Buffer.read (pos 0) (pos 6) s.buf) [
      | none ↦ end_with (some recovered) s
      | some (buf, (bs, some e)) ↦ end_with (some (buffer e)) (record s { buf = buf })
      | some (buf, (bs, none)) ↦
          let r = read_head bs s.codec in
          elim r.1 [
            | some e ↦ end_with (some e) (record s { buf = buf; codec = r.0 })
            | none ↦ go_on (record s { buf = buf; codec = record r.0 { in_msg = true } })
          ]
    ]
    else go_on s

-- A message with its content, or none if there is no memory for it.
unfoldable pub give :
    Pooled → Pooled → Bytes → DefaultCodec → List MessageBinary → Option Error × List MessageBinary
give pooled again bs c given = elim (get_message_binary pooled c.total_len) [
  | none ↦ (none, given)
  | some m ↦
      let m₁ = set_msg_id c.msg_id (set_total_length c.total_len m) in
      let r = Binary.read again 6 bs 0 (to_ℕ c.proto_len) m₁ in
      elim r.1 [
        | some e ↦ (some (message e), given)
        | none ↦ (none, given ++ ((set_proto_data_bound 6 (to_ℕ c.proto_len) r.0).0 ∷ []))
      ]
]

-- The second half: the body of the message, if all of it has arrived.
unfoldable pub body_step : Pooled → Pooled → State → Outcome
body_step pooled again s =
    if s.codec.in_msg && at_least (Buffer.len s.buf) s.codec.proto_len
    then elim (Buffer.read (pos 0) s.codec.proto_len s.buf) [
      | none ↦ end_with (some recovered) s
      | some (buf, (bs, some e)) ↦ end_with (some (buffer e)) (record s { buf = buf })
      | some (buf, (bs, none)) ↦
          let r = give pooled again bs s.codec s.given in
          elim r.0 [
            | some e ↦ end_with (some e) (record s { buf = buf })
            | none ↦
                go_on (record { buf = buf; codec = record s.codec { in_msg = false }; given = r.1 })
          ]
    ]
    else end_with none s

unfoldable pub after_head : Pooled → Pooled → Outcome → Outcome
after_head pooled again (go_on s) = body_step pooled again s
after_head pooled again (end_with e s) = end_with e s

-- RangeMsgBinary, whose loop runs on fuel; `none` is a loop that the fuel does not end. `pooled k`
-- is what the pools have to hand at the k-th moment.
unfoldable pub range_from : (ℕ → Pooled) → ℕ → ℕ → State → Option (State × Option Error)
range_from pooled zero k s = none
range_from pooled (suc fuel) k s = elim (after_head (pooled k) (pooled (k + 1)) (head_step s)) [
  | go_on s' ↦ range_from pooled fuel (k + 2) s'
  | end_with e s' ↦ some (s', e)
]

-- Every round but the first takes a head off the buffer, so this fuel is enough.
unfoldable pub range_msg_binary : (ℕ → Pooled) → State → Option (State × Option Error)
range_msg_binary pooled s = range_from pooled (to_ℕ (Buffer.len s.buf) + 2) 0 s
