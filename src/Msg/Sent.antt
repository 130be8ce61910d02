-- ===== src/Msg/Sent.antt =====
-- What the encoders of msg/codec.go put into a message's buffer.
use micserver.Prelude.{
  ℕ, ◌+◌, ◌≤◌, ◌<◌, ◌≡◌, refl, sym, ap, ◌∙◌, some, ◌++◌, length, arith, take, drop, le→ltb, lt→leb,
  length-append, length-take, append_assoc,
}
use micserver.Wire.Bytes.{Bytes, le_bytes, length-le_bytes}
use micserver.Wire.Reads.{take-exact, drop-exact}
use micserver.Msg.Binary.{
  MessageBinary, Pooled, message_max_size, get_message_binary, set_total_length, set_msg_id,
  proto_bytes,
}
use micserver.Msg.Supply.{IsPooled, get_message_binary-fits}
use micserver.Msg.Encode.{default_encode_bytes, default_write_head, finish, with_head}
use micserver.Msg.Given.{Carries, filled, read-filled, bound-filled, length-filled}
use micserver.Msg.Frames.{frame}

-- The message carries the content, and its buffer begins with the frame.
pub record IsSent (id : ℕ) (content : Bytes) (m : MessageBinary) : Type 0 where
  pub carries : Carries id content m
  pub on_wire : take m.total_length m.buffer ≡ frame (id, content)

abbrev pub headed : ℕ → Bytes → MessageBinary → MessageBinary
headed id content m = record {
  total_length = 6 + length content;
  msg_id = id;
  proto_length = length content;
  proto_data = some (6, length content);
  buffer =
      le_bytes 4 (6 + length content)
      ++ (le_bytes 2 id ++ (content ++ drop (6 + length content) m.buffer));
}

pub finish-headed :
    (id : ℕ) (content : Bytes) (m : MessageBinary)
    → 6 + length content ≤ length m.buffer
    → finish id (length content) (6 + length content) (filled content m)
      ≡ some (some (headed id content m))
unfolding finish with_head default_write_head set_total_length set_msg_id
finish-headed id content m h =
    let l6 : length (take 6 m.buffer) ≡ 6 = rw length-take (omega (arith, h)) in
    let d : drop 6 (filled content m).buffer ≡ content ++ drop (6 + length content) m.buffer =
      drop-exact 6 (take 6 m.buffer) _ l6 in
    ap (with_head id (6 + length content)) (bound-filled content m h)
    ∙ simp
        (
          with_head,
          le→ltb (length (filled content m).buffer) 6 (omega (arith, h, length-filled content m h)),
          d,
        )
        refl

pub headed-IsSent :
    (id : ℕ) (content : Bytes) (m : MessageBinary) → IsSent id content (headed id content m)
unfolding proto_bytes
headed-IsSent id content m =
    let n = length content in
    let rest = drop (6 + n) m.buffer in
    let a = le_bytes 4 (6 + n) in
    let b = le_bytes 2 id in
    let two : a ++ (b ++ (content ++ rest)) ≡ (a ++ b) ++ (content ++ rest) =
      sym (append_assoc a b (content ++ rest)) in
    let all : a ++ (b ++ (content ++ rest)) ≡ frame (id, content) ++ rest =
      sym (append_assoc a (b ++ content) rest ∙ ap (λ t. a ++ t) (append_assoc b content rest)) in
    let l6 : length (a ++ b) ≡ 6 = simp (length-append, length-le_bytes) refl in
    let lf : length (frame (id, content)) ≡ 6 + n =
      simp (length-append, length-le_bytes) (omega arith) in
    record {
      carries = record {
        total = refl;
        same_id = refl;
        proto = refl;
        same_bytes =
            ap (λ t. take n (drop 6 t)) two
            ∙ (ap (take n) (drop-exact 6 (a ++ b) (content ++ rest) l6)
                ∙ take-exact n content rest refl);
      };
      on_wire = ap (take (6 + n)) all ∙ take-exact (6 + n) (frame (id, content)) rest lf;
    }

-- DefaultEncodeBytes, for a content that with its head is shorter than the largest message, and
-- pools with objects of the right size: it does not panic and is not refused, and gives a message
-- that carries the id and the content and has their frame at the front of its buffer.
pub default_encode_bytes-IsSent :
    (pooled again : Pooled) (id : ℕ) (content : Bytes)
    → IsPooled pooled
    → 6 + length content < message_max_size
    → (m : MessageBinary) × (default_encode_bytes pooled again id content ≡ some (some m))
      × IsSent id content m
unfolding default_encode_bytes
default_encode_bytes-IsSent pooled again id content good small =
    let n = length content in
    let (m, e, fits) = get_message_binary-fits pooled (6 + n) good (omega (arith, small)) in
    (headed id content m, encoded m e fits, headed-IsSent id content m)
  where
    encoded :
        (m : MessageBinary)
        → get_message_binary pooled (6 + length content) ≡ some m
        → 6 + length content ≤ length m.buffer
        → default_encode_bytes pooled again id content ≡ some (some (headed id content m))
    encoded m e fits =
        simp
          (
            default_encode_bytes,
            lt→leb (6 + length content) message_max_size small,
            e,
            read-filled again content m fits,
          )
          (finish-headed id content m fits)
