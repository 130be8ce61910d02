-- ===== src/Msg/Stream.antt =====
-- The stream of messages on a connection: what RangeMsgBinary of msg/codec.go takes out of it.
use micserver.Prelude.{
  ℕ, zero, suc, ◌+◌, ◌^◌, ◌≤◌, ◌<◌, ◌≡◌, refl, sym, ap, ◌∙◌, none, some, List, [], ◌∷◌, ◌++◌,
  length, arith, inl, inr, length-append, append_assoc, append-nil, All,
}
use mathlib.Core.Path.{subst}
use micserver.Prelude.Int.{to_ℕ}
use micserver.Wire.Bytes.{Bytes, le_bytes}
use micserver.Wire.Reads.{take-exact, drop-exact}
use micserver.Buffer
use micserver.Msg.Binary.{MessageBinary, Pooled}
use micserver.Msg.Supply.{IsPooled}
use micserver.Msg.Decode.{
  State, go_on, end_with, head_step, body_step, after_head, range_from, range_msg_binary,
}
use micserver.Msg.Given.{Carries}
use micserver.Msg.Rounds.{
  AtHead, AtBody, head_step-AtBody, head_step-skip, body_step-AtHead, body_step-waits, len-Holds,
}
use micserver.Msg.Frames.{
  framed, frame, frames, FitsFrame, length-framed, framed_injective, length-frames,
}

-- The bytes p of the stream are to come: they are in the buffer, or their head is in the codec.
pub data Unread (p : Bytes) (s : State) : Type 0 where
  at_head : AtHead p s → Unread p s
  at_body :
      (id n : ℕ) (q : Bytes)
      → id < 2 ^ 16
      → 6 + n < 2 ^ 32
      → p ≡ framed id n q
      → AtBody id n q s
      → Unread p s

-- p begins a message and does not end it.
pub data IsPartial (p : Bytes) : Type 0 where
  no_head : length p < 6 → IsPartial p
  no_body :
      (id n : ℕ) (q : Bytes)
      → id < 2 ^ 16
      → 6 + n < 2 ^ 32
      → p ≡ framed id n q
      → length q < n
      → IsPartial p

-- What one round does to a whole message at the front of the stream,
body_round :
    (pooled again : Pooled) (m : ℕ × Bytes) (p : Bytes) (s : State)
    → IsPooled pooled
    → FitsFrame m
    → AtBody m.0 (length m.1) (m.1 ++ p) s
    → (s' : State) × (m' : MessageBinary) × (body_step pooled again s ≡ go_on s')
      × AtHead p s'
      × (s'.given ≡ s.given ++ (m' ∷ []))
      × Carries m.0 m.1 m'
body_round pooled again (id, content) p s good (hid, small) h =
    let n = length content in
    let fits : n ≤ length (content ++ p) = rw length-append (omega arith) in
    let (s', m', e, a, g, c) =
      body_step-AtHead pooled again id n (content ++ p) s good small fits h in
    (
      s',
      m',
      e,
      subst (λ q. AtHead q s') (drop-exact n content p refl) a,
      g,
      subst (λ q. Carries id q m') (take-exact n content p refl) c,
    )

frame-append :
    (id : ℕ) (content p : Bytes)
    → frame (id, content) ++ p ≡ framed id (length content) (content ++ p)
frame-append id content p =
    let a = le_bytes 4 (6 + length content) in
    let b = le_bytes 2 id in
    append_assoc a (b ++ content) p ∙ ap (λ t. a ++ t) (append_assoc b content p)

too_short : (j k : ℕ) (q : Bytes) → length (framed j k q) < 6 → ⊥
too_short j k q h = ground (arith, length-framed j k q)

round_message :
    (pooled again : Pooled) (m : ℕ × Bytes) (p : Bytes) (s : State)
    → IsPooled pooled
    → FitsFrame m
    → Unread (frame m ++ p) s
    → (s' : State) × (m' : MessageBinary) × (after_head pooled again (head_step s) ≡ go_on s')
      × AtHead p s'
      × (s'.given ≡ s.given ++ (m' ∷ []))
      × Carries m.0 m.1 m'
unfolding after_head
round_message pooled again (id, content) p s good (hid, small) (at_head h) =
    let n = length content in
    let (s₁, e₁, b, g₁) =
      head_step-AtBody id n (content ++ p) s hid (omega (arith, small))
        (subst (λ q. AtHead q s) (frame-append id content p) h) in
    let (s₂, m', e₂, a, g₂, c) = body_round pooled again (id, content) p s₁ good (hid, small) b in
    (s₂, m', ap (after_head pooled again) e₁ ∙ e₂, a, g₂ ∙ ap (λ g. g ++ (m' ∷ [])) g₁, c)
round_message pooled again (id, content) p s good (hid, small) (at_body j k q hj hk e h) =
    let n = length content in
    let (ei, en, eq) =
      framed_injective j k id n q (content ++ p) hj hid hk (omega (arith, small))
        (sym e ∙ frame-append id content p) in
    let b : AtBody id n (content ++ p) s =
      subst (λ j. AtBody j n (content ++ p) s) ei
        (subst (λ k. AtBody j k (content ++ p) s) en (subst (λ q. AtBody j k q s) eq h)) in
    let (s₂, m', e₂, a, g₂, c) = body_round pooled again (id, content) p s good (hid, small) b in
    (
      s₂,
      m',
      ap (after_head pooled again)
            (head_step-skip s (length q) (len-Holds q s.buf h.holds) (inl h.inside))
          ∙ e₂,
      a,
      g₂,
      c,
    )

-- and to the beginning of one.
round_partial :
    (pooled again : Pooled) (p : Bytes) (s : State)
    → IsPartial p
    → Unread p s
    → (s' : State) × (after_head pooled again (head_step s) ≡ end_with none s')
      × Unread p s'
      × (s'.given ≡ s.given)
unfolding after_head
round_partial pooled again p s (no_head short) (at_head h) =
    let l = len-Holds p s.buf h.holds in
    (
      s,
      ap (after_head pooled again) (head_step-skip s (length p) l (inr short))
          ∙ body_step-waits pooled again s (length p) l (inl h.outside),
      at_head h,
      refl,
    )
round_partial pooled again p s (no_head short) (at_body j k q hj hk e h) =
    absurd (too_short j k q (subst (λ x. length x < 6) e short))
round_partial pooled again p s (no_body id n q hi hn e short) (at_head h) =
    let (s₁, e₁, b, g₁) = head_step-AtBody id n q s hi hn (subst (λ q. AtHead q s) e h) in
    (
      s₁,
      ap (after_head pooled again) e₁
          ∙ body_step-waits pooled again s₁ (length q) (len-Holds q s₁.buf b.holds)
              (inr (n, b.proto, short)),
      at_body id n q hi hn e b,
      g₁,
    )
round_partial pooled again p s (no_body id n q hi hn e short) (at_body j k r hj hk f h) =
    let (_, en, eq) = framed_injective id n j k q r hi hj hn hk (sym e ∙ f) in
    let l = len-Holds r s.buf h.holds in
    (
      s,
      ap (after_head pooled again) (head_step-skip s (length r) l (inl h.inside))
          ∙ body_step-waits pooled again s (length r) l
              (inr (k, h.proto, omega (arith, en, short, ap length eq))),
      at_body j k r hj hk f h,
      refl,
    )

-- The messages handed on are the ones of the stream, in its order.
abbrev pub Delivered : List (ℕ × Bytes) → List MessageBinary → Type 0
Delivered [] [] = Unit
Delivered [] (m' ∷ out) = ⊥
Delivered (m ∷ ms) [] = ⊥
Delivered (m ∷ ms) (m' ∷ out) = Carries m.0 m.1 m' × Delivered ms out

range_from-Delivered :
    (pooled : ℕ → Pooled) (ms : List (ℕ × Bytes)) (p : Bytes) (fuel k : ℕ) (s : State)
    → ((i : ℕ) → IsPooled (pooled i))
    → All FitsFrame ms
    → IsPartial p
    → Unread (frames ms ++ p) s
    → length ms < fuel
    → (s' : State) × (out : List MessageBinary) × (range_from pooled fuel k s ≡ some (s', none))
      × Unread p s'
      × (s'.given ≡ s.given ++ out)
      × Delivered ms out
unfolding range_from
range_from-Delivered pooled ms p zero k s good fits part u f = ground arith
range_from-Delivered pooled [] p (suc fuel) k s good fits part u f =
    let (s', e, u', g) = round_partial (pooled k) (pooled (k + 1)) p s part u in
    (s', [], rw (range_from, e) refl, u', g ∙ sym (append-nil s.given), tt)
range_from-Delivered pooled (m ∷ ms) p (suc fuel) k s good (fit, fits) part u f =
    let (s₁, m', e, a, g, c) =
      round_message (pooled k) (pooled (k + 1)) m (frames ms ++ p) s (good k) fit
        (subst (λ q. Unread q s) (append_assoc (frame m) (frames ms) p) u) in
    let (s', out, e', u', g', d) =
      range_from-Delivered pooled ms p fuel (k + 2) s₁ good fits part (at_head a)
        (omega (arith, f)) in
    (
      s',
      m' ∷ out,
      rw (range_from, e) e',
      u',
      g' ∙ (ap (λ g. g ++ out) g ∙ append_assoc s.given (m' ∷ []) out),
      (c, d),
    )

-- The fuel is enough for the messages that can be there.
fuel_enough :
    (ms : List (ℕ × Bytes)) (p : Bytes) (s : State)
    → Unread (frames ms ++ p) s
    → length ms < to_ℕ (Buffer.len s.buf) + 2
fuel_enough ms p s (at_head h) =
    rw (len-Holds (frames ms ++ p) s.buf h.holds, length-append) (omega (arith, length-frames ms))
fuel_enough ms p s (at_body id n q hi hn e h) =
    let l : length (frames ms) + length p ≡ 6 + length q =
      sym (length-append (frames ms) p) ∙ (ap length e ∙ length-framed id n q) in
    rw (len-Holds q s.buf h.holds) (omega (arith, l, length-frames ms))

-- RangeMsgBinary, wherever the last call left the codec: if the bytes still to come of the stream
-- are the frames of some messages, each of an id of 16 bits and a size that the encoder accepts,
-- with the beginning of another message or nothing behind them, and the pools hold objects of the
-- right size, then the loop ends without an error, it hands exactly these messages on, in their order and
-- with their ids and contents, and that beginning is what is still to come.
pub range_msg_binary-Delivered :
    (pooled : ℕ → Pooled) (ms : List (ℕ × Bytes)) (p : Bytes) (s : State)
    → ((i : ℕ) → IsPooled (pooled i))
    → All FitsFrame ms
    → IsPartial p
    → Unread (frames ms ++ p) s
    → (s' : State) × (out : List MessageBinary) × (range_msg_binary pooled s ≡ some (s', none))
      × Unread p s'
      × (s'.given ≡ s.given ++ out)
      × Delivered ms out
unfolding range_msg_binary
range_msg_binary-Delivered pooled ms p s good fits part u =
    range_from-Delivered pooled ms p (to_ℕ (Buffer.len s.buf) + 2) 0 s good fits part u
      (fuel_enough ms p s u)
