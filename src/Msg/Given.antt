-- ===== src/Msg/Given.antt =====
-- The message that the loop of RangeMsgBinary in msg/codec.go hands to its callback.
use micserver.Prelude.{
  ℕ, ◌+◌, ◌≤◌, ◌≡◌, refl, ap, ◌∙◌, none, some, List, [], ◌∷◌, ◌++◌, length, arith, le→ltb, take,
  drop, length-append, length-take, length-drop, take-length,
}
use micserver.Prelude.Int.{pos}
use micserver.Wire.Bytes.{Bytes}
use micserver.Wire.Reads.{take-exact, drop-exact}
use micserver.Msg.Binary.{
  MessageBinary, Pooled, proto_bytes, message_max_size, get_message_binary, set_total_length,
  set_msg_id, set_proto_data_bound, copy_in,
}
use micserver.Msg.Binary
use micserver.Msg.Supply.{IsPooled, get_message_binary-fits}
use micserver.Msg.Decode.{DefaultCodec, give}

-- The message has this id and this content.
pub record Carries (id : ℕ) (content : Bytes) (m : MessageBinary) : Type 0 where
  pub total : m.total_length ≡ 6 + length content
  pub same_id : m.msg_id ≡ id
  pub proto : m.proto_length ≡ length content
  pub same_bytes : proto_bytes m ≡ content

-- Read and SetProtoDataBound on a message whose buffer is long enough.
abbrev pub filled : Bytes → MessageBinary → MessageBinary
filled bs m = record m { buffer = take 6 m.buffer ++ (bs ++ drop (6 + length bs) m.buffer) }

pub read-filled :
    (again : Pooled) (bs : Bytes) (m : MessageBinary)
    → 6 + length bs ≤ length m.buffer
    → Binary.read again 6 bs 0 (length bs) m ≡ (filled bs m, none)
unfolding Binary.read copy_in
read-filled again bs m h =
    rw
      (
        le→ltb (length bs) (0 + length bs) (omega arith),
        le→ltb (length m.buffer) (6 + length bs) h,
        take-length bs,
      )
      refl

pub length-filled :
    (bs : Bytes) (m : MessageBinary)
    → 6 + length bs ≤ length m.buffer
    → length (filled bs m).buffer ≡ length m.buffer
length-filled bs m h = simp (length-append, length-take, length-drop) (omega (arith, h))

pub bound-filled :
    (bs : Bytes) (m : MessageBinary)
    → 6 + length bs ≤ length m.buffer
    → (set_proto_data_bound 6 (length bs) (filled bs m)).0
      ≡ record (filled bs m) { proto_data = some (6, length bs); proto_length = length bs }
unfolding set_proto_data_bound
bound-filled bs m h =
    rw
      (le→ltb (length (filled bs m).buffer) (6 + length bs)
        (omega (arith, h, length-filled bs m h)))
      refl

give-step :
    (pooled again : Pooled) (n : ℕ) (bs : Bytes) (c : DefaultCodec) (given : List MessageBinary)
    (m₀ m₂ : MessageBinary)
    → get_message_binary pooled c.total_len ≡ some m₀
    → c.proto_len ≡ pos n
    → Binary.read again 6 bs 0 n (set_msg_id c.msg_id (set_total_length c.total_len m₀))
      ≡ (m₂, none)
    → give pooled again bs c given ≡ (none, given ++ ((set_proto_data_bound 6 n m₂).0 ∷ []))
unfolding give
give-step pooled again n bs c given m₀ m₂ e p r = simp (give, e, p, r) refl

pub give_lem :
    (pooled again : Pooled) (bs : Bytes) (c : DefaultCodec) (given : List MessageBinary)
    → IsPooled pooled
    → c.total_len ≡ 6 + length bs
    → c.proto_len ≡ pos (length bs)
    → 6 + length bs ≤ message_max_size
    → (m : MessageBinary) × (give pooled again bs c given ≡ (none, given ++ (m ∷ [])))
      × Carries c.msg_id bs m
unfolding set_total_length set_msg_id proto_bytes
give_lem pooled again bs c given h t p small =
    let (m₀, e, fits) = get_message_binary-fits pooled c.total_len h (omega (arith, t, small)) in
    let n = length bs in
    let m₁ = record m₀ { total_length = c.total_len; msg_id = c.msg_id } in
    let k : 6 + n ≤ length m₀.buffer = omega (arith, fits, t) in
    let l6 : length (take 6 m₀.buffer) ≡ 6 = rw length-take (omega (arith, k)) in
    (
      record (filled bs m₁) { proto_data = some (6, n); proto_length = n },
      give-step pooled again n bs c given m₀ (filled bs m₁) e p (read-filled again bs m₁ k)
          ∙ ap (λ m. (none, given ++ (m ∷ []))) (bound-filled bs m₁ k),
      record {
        total = t;
        same_id = refl;
        proto = refl;
        same_bytes =
            ap (take n) (drop-exact 6 (take 6 m₀.buffer) (bs ++ drop (6 + n) m₀.buffer) l6)
            ∙ take-exact n bs (drop (6 + n) m₀.buffer) refl;
      },
    )

pub zero_add : (n : ℕ) → 0 + n ≡ n
zero_add n = omega arith
