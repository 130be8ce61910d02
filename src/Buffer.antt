-- ===== src/Buffer.antt =====
-- util/buffer/io_buffer.go: the buffer between a connection and the message codec. A method
-- returns the buffer afterwards with its result, and `none` for a panic. An int is unbounded.
pub mod Queue
pub mod Laws
pub mod Reading
pub mod Receiving
mod Tests
use micserver.Prelude.{
  ℕ, ◌+◌, ◌-◌, ◌*◌, Bool, true, false, not, ◌&&◌, ◌||◌, [], ◌++◌, Option, none, some, length, take,
  drop, replicate, ltb, leb, ◌==◌, if◌then◌else◌,
}
use Prim.Native.Nat.{min}
use mathlib.Core.Option
use micserver.Prelude.Int.{ℤ, pos, is_negative, to_ℕ, sub_ℕ, ◌+ℤ◌, ltb_ℕ, ltb_pos}
use micserver.Wire.Bytes.{Bytes}

pub data Error : Type 0 where
  buf_nil reader_nil not_enough over_size less_0 : Error
  -- What the reader returns.
  reader : ℕ → Error

pub record IoBuffer : Type 0 where
  pub buf : Option Bytes
  pub start : ℕ
  pub end : ℕ
  pub max_length : ℕ
  pub default_length : ℕ
  pub ban_auto_resize : Bool

abbrev pub Outcome : Type 0 → Type 0
Outcome R = Option (IoBuffer × R)

-- make([]byte, n)
abbrev pub zeros : ℕ → Bytes
zeros n = replicate n 0

-- copy(dst, src), as the new content of dst.
unfoldable pub copy : Bytes → Bytes → Bytes
copy dst src = take (length dst) src ++ drop (length src) dst

unfoldable pub new_io_buffer : ℕ → IoBuffer
new_io_buffer n = record {
  buf = some (zeros n);
  start = 0;
  end = 0;
  max_length = n;
  default_length = n;
  ban_auto_resize = false;
}

unfoldable pub set_ban_auto_resize : Bool → IoBuffer → IoBuffer
set_ban_auto_resize value b = record b { ban_auto_resize = value }

-- Len()
unfoldable pub len : IoBuffer → ℤ
len b = sub_ℕ b.end b.start

-- RemainSize(), as max_length - end + start.
unfoldable pub remain_size : IoBuffer → ℤ
remain_size b = sub_ℕ (b.max_length + b.start) b.end

-- b.buf[b.start:b.end], where those bounds are in order.
unfoldable pub used : IoBuffer → Bytes → Option Bytes
used b bs =
    if leb b.start b.end && leb b.end (length bs)
    then some (take (b.end - b.start) (drop b.start bs))
    else none

-- The length of a nil slice is 0.
abbrev pub or_nil : Option Bytes → Bytes
or_nil none = []
or_nil (some bs) = bs

unfoldable pub grow : IoBuffer → Outcome (Option Error)
grow b = elim b.buf [
  | none ↦ some (b, some buf_nil)
  | some bs ↦ if b.start == 0 then some (b, none) else elim (used b bs) [
    | none ↦ none
    | some u ↦ some (record b { buf = some (copy bs u); end = b.end - b.start; start = 0 }, none)
  ]
]

-- resize, where the content is copied into the new memory,
unfoldable pub resize_used : ℕ → IoBuffer → Option IoBuffer
resize_used n b = elim (used b (or_nil b.buf)) [
  | none ↦ none
  | some u ↦
      some (record b {
        buf = some (copy (zeros n) u);
        end = b.end - b.start;
        start = 0;
        max_length = n;
      })
]

-- and in whole.
unfoldable pub resize : ℕ → IoBuffer → Option IoBuffer
resize n b =
    if b.end == 0 && b.start == 0
    then some (record b { buf = some (zeros n); max_length = n })
    else resize_used n b

-- Seek(n)
unfoldable pub seek : ℕ → IoBuffer → Outcome (Bytes × Option Error)
seek n b = elim b.buf [
  | none ↦ some (b, ([], some buf_nil))
  | some bs ↦
      if leb (b.start + n) b.end
      then elim (leb (b.start + n) (length bs)) [
        | true ↦ some (b, (take n (drop b.start bs), none))
        | false ↦ none
      ]
      else some (b, ([], some not_enough))
]

-- SeekAll()
unfoldable pub seek_all : IoBuffer → Outcome (Bytes × Option Error)
seek_all b = elim b.buf [
  | none ↦ some (b, ([], some buf_nil))
  | some bs ↦ Option.map (λ u. (b, (u, none))) (used b bs)
]

-- The part of Read behind the tests of its arguments.
unfoldable pub read_bytes : ℕ → ℕ → Bytes → IoBuffer → Outcome (Bytes × Option Error)
read_bytes offset n bs b =
    if ltb b.end (b.start + offset + n)
    then some (b, ([], some not_enough))
    else if ltb (length bs) (b.start + offset + n)
    then none
    else some
        (record b { start = b.start + offset + n }, (take n (drop (b.start + offset) bs), none))

-- Read(offset, n)
unfoldable pub read : ℤ → ℤ → IoBuffer → Outcome (Bytes × Option Error)
read offset n b = elim b.buf [
  | none ↦ some (b, ([], some buf_nil))
  | some bs ↦
      if ltb_ℕ b.max_length n
      then some (b, ([], some over_size))
      else if is_negative offset || is_negative n
      then some (b, ([], some less_0))
      else read_bytes (to_ℕ offset) (to_ℕ n) bs b
]

-- Write(src), in its parts: giving back the memory of an enlarged buffer that is empty,
unfoldable pub shrink : ℕ → IoBuffer → Option IoBuffer
shrink limit b = if b.end == 0 && leb limit b.max_length then resize b.default_length b else some b

-- enlarging it once, up to 16 times the default length,
unfoldable pub enlarge : ℕ → IoBuffer → Option IoBuffer
enlarge target b = if leb target (b.default_length * 16) then resize target b else some b

unfoldable pub make_room : ℕ → IoBuffer → Option IoBuffer
make_room size b =
    if ltb_pos (remain_size b) size && not b.ban_auto_resize
    then enlarge (b.end + size) b
    else some b

-- and the copy.
unfoldable pub append : Bytes → IoBuffer → Outcome (Option Error)
append src b =
    let bs = or_nil b.buf in
    if ltb_pos (remain_size b) (length src)
    then some (b, some over_size)
    else if ltb (length bs) b.end
    then none
    else let n = min (length src) (length bs - b.end) in
      some
        (record b { buf = some (take b.end bs ++ copy (drop b.end bs) src); end = b.end + n }, none)

unfoldable pub write : Bytes → IoBuffer → Outcome (Option Error)
write src b = elim (grow b) [
  | none ↦ none
  | some (b₁, some e) ↦ some (b₁, some e)
  | some (b₁, none) ↦ elim (shrink (b₁.default_length * 2) b₁) [
    | none ↦ none
    | some b₂ ↦ elim (make_room (length src) b₂) [ none ↦ none | some b₃ ↦ append src b₃ ]
  ]
]

-- MoveStart(n)
unfoldable pub move_start : ℤ → IoBuffer → IoBuffer × Option Error
move_start n b =
    let tmp = pos b.start +ℤ n in
    if is_negative tmp
    then (b, some less_0)
    else if ltb (to_ℕ tmp) b.end
    then (b, some over_size)
    else (record b { start = to_ℕ tmp }, none)

-- One call of the io.Reader: it is given the room, and answers the bytes that it put there and an
-- error, if any.
abbrev pub IoReader : Type 0
IoReader = ℕ → Bytes × Option Error

-- The part of ReadFromReader behind the call.
unfoldable pub after_read : ℕ → IoBuffer → Outcome (ℕ × Option Error)
after_read n b =
    if (n == b.max_length - (b.end - n)) && not b.ban_auto_resize
    then Option.map (λ b'. (b', (n, none))) (enlarge (b.max_length * 2) b)
    else some (b, (n, none))

-- The bytes arrive behind `end`, which moves only where the call has no error.
unfoldable pub receive : Bytes × Option Error → IoBuffer → Outcome (ℕ × Option Error)
receive (got, e) b =
    let bs = or_nil b.buf in
    let b' = record b { buf = some (take b.end bs ++ copy (drop b.end bs) got) } in
    if ltb (length bs) b.end then none else elim e [
      | some x ↦ some (b', (length got, some x))
      | none ↦ after_read (length got) (record b' { end = b.end + length got })
    ]

-- ReadFromReader()
unfoldable pub read_from_reader : Option IoReader → IoBuffer → Outcome (ℕ × Option Error)
read_from_reader none b = some (b, (0, some reader_nil))
read_from_reader (some source) b = elim (grow b) [
  | none ↦ none
  | some (b₁, some e) ↦ some (b₁, (0, some e))
  | some (b₁, none) ↦ elim (shrink (b₁.default_length * 2 + 1) b₁) [
    | none ↦ none
    | some b₂ ↦ receive (source (length (or_nil b₂.buf) - b₂.end)) b₂
  ]
]
