-- ===== src/Msg/Rounds.antt =====
-- One round of the loop of RangeMsgBinary in msg/codec.go.
use micserver.Prelude.{
  ℕ, ◌+◌, ◌^◌, ◌≤◌, ◌<◌, ◌≡◌, refl, sym, ap, ◌∙◌, true, false, none, some, List, [], ◌∷◌, ◌++◌, ◌⊎◌,
  length, arith, inl, inr, Bool-cases, le→ltb, lt→ltb, le→leb, take, drop, length-append,
  length-take, take-length, append_assoc,
}
use mathlib.Core.Path.{subst}
use micserver.Prelude.Int.{pos, sub_ℕ}
use micserver.Wire.Bytes.{Bytes, le_bytes, le_value, length-le_bytes, le_value-le_bytes}
use micserver.Wire.Reads.{take-exact, drop-exact}
use micserver.Buffer.{IoBuffer}
use micserver.Buffer
use micserver.Buffer.Queue.{Holds}
use micserver.Buffer.Reading.{read_lem}
use micserver.Msg.Binary.{MessageBinary, Pooled, message_max_size}
use micserver.Msg.Supply.{IsPooled}
use micserver.Msg.Decode.{
  DefaultCodec, State, go_on, end_with, read_head, at_least, head_step, give, body_step,
}
use micserver.Msg.Given.{Carries, give_lem, zero_add}

-- Reading from the front of the buffer.
read_front :
    (n : ℕ) (xs : Bytes) (b : IoBuffer)
    → Holds xs b
    → n ≤ length xs
    → (b' : IoBuffer) × (Buffer.read (pos 0) (pos n) b ≡ some (b', (take n xs, none)))
      × Holds (drop n xs) b'
read_front n xs b h fits = elim (read_lem 0 n xs b h) [
  | inl (_, (b', e, u, _)) ↦ (b', e, subst (λ k. Holds (drop k xs) b') (zero_add n) u.holds)
  | inr (over, _) ↦ ground arith
]

pub len-Holds : (xs : Bytes) (b : IoBuffer) → Holds xs b → Buffer.len b ≡ pos (length xs)
unfolding Buffer.len
len-Holds xs b h =
    rw (le→leb b.start b.end (omega (arith, h.start_at, h.end_at)))
      (ap pos (omega (arith, h.start_at, h.end_at)))

-- The bytes p of the stream are to come: the codec is between messages,
pub record AtHead (p : Bytes) (s : State) : Type 0 where
  pub holds : Holds p s.buf
  pub outside : s.codec.in_msg ≡ false

-- or it has taken off the head of a message of n bytes.
pub record AtBody (id n : ℕ) (p : Bytes) (s : State) : Type 0 where
  pub holds : Holds p s.buf
  pub inside : s.codec.in_msg ≡ true
  pub total : s.codec.total_len ≡ 6 + n
  pub proto : s.codec.proto_len ≡ pos n
  pub same_id : s.codec.msg_id ≡ id

-- The codec with the head's contents.
abbrev read_codec : DefaultCodec → ℕ → ℕ → DefaultCodec
read_codec c id n = record { in_msg = true; total_len = 6 + n; proto_len = pos n; msg_id = id }

read_head-frame :
    (c : DefaultCodec) (id n : ℕ)
    → id < 2 ^ 16
    → 6 + n < 2 ^ 32
    → read_head (le_bytes 4 (6 + n) ++ le_bytes 2 id) c
      ≡ (record c { total_len = 6 + n; proto_len = pos n; msg_id = id }, none)
unfolding read_head
read_head-frame c id n hid hn =
    let a = le_bytes 4 (6 + n) in
    let b = le_bytes 2 id in
    let t : le_value (take 4 (a ++ b)) ≡ 6 + n =
      ap le_value (take-exact 4 a b (length-le_bytes 4 (6 + n))) ∙ le_value-le_bytes 4 (6 + n) hn in
    let d : drop 4 (a ++ b) ≡ b = drop-exact 4 a b (length-le_bytes 4 (6 + n)) in
    let u : le_value (take 2 b) ≡ id =
      ap le_value (ap (λ k. take k b) (sym (length-le_bytes 2 id)) ∙ take-length b)
      ∙ le_value-le_bytes 2 id hid in
    let l : length (a ++ b) ≡ 6 = simp (length-append, length-le_bytes) refl in
    let z : sub_ℕ (6 + n) 6 ≡ pos n = rw (le→leb 6 (6 + n) (omega arith)) (ap pos (omega arith)) in
    rw (t, d, u, l, z, le→ltb (6 + n) 6 (omega arith)) refl

head-step :
    (s : State) (l : ℕ) (bs : Bytes) (b' : IoBuffer) (c' : DefaultCodec)
    → s.codec.in_msg ≡ false
    → Buffer.len s.buf ≡ pos l
    → 6 ≤ l
    → Buffer.read (pos 0) (pos 6) s.buf ≡ some (b', (bs, none))
    → read_head bs s.codec ≡ (c', none)
    → head_step s ≡ go_on (record s { buf = b'; codec = record c' { in_msg = true } })
unfolding head_step at_least
head-step s l bs b' c' o n fits r e = simp (head_step, o, n, le→ltb l 6 fits, r, e) refl

-- The head of a message is taken off.
pub head_step-AtBody :
    (id n : ℕ) (p : Bytes) (s : State)
    → id < 2 ^ 16
    → 6 + n < 2 ^ 32
    → AtHead (le_bytes 4 (6 + n) ++ (le_bytes 2 id ++ p)) s
    → (s' : State) × (head_step s ≡ go_on s') × AtBody id n p s' × (s'.given ≡ s.given)
head_step-AtBody id n p s hid hn h =
    let frame_head = le_bytes 4 (6 + n) ++ le_bytes 2 id in
    let bs = le_bytes 4 (6 + n) ++ (le_bytes 2 id ++ p) in
    let assoc : bs ≡ frame_head ++ p = sym (append_assoc (le_bytes 4 (6 + n)) (le_bytes 2 id) p) in
    let l6 : length frame_head ≡ 6 = simp (length-append, length-le_bytes) refl in
    let l : length bs ≡ 6 + length p =
      rw assoc (length-append frame_head p ∙ ap (λ k. k + length p) l6) in
    let (b', e, held) = read_front 6 bs s.buf h.holds (omega (arith, l)) in
    let taken : take 6 bs ≡ frame_head = ap (take 6) assoc ∙ take-exact 6 frame_head p l6 in
    let left : drop 6 bs ≡ p = ap (drop 6) assoc ∙ drop-exact 6 frame_head p l6 in
    (
      record s { buf = b'; codec = read_codec s.codec id n },
      head-step s (length bs) (take 6 bs) b'
          (record s.codec { total_len = 6 + n; proto_len = pos n; msg_id = id }) h.outside
          (len-Holds bs s.buf h.holds) (omega (arith, l)) e
          (ap (λ t. read_head t s.codec) taken ∙ read_head-frame s.codec id n hid hn),
      record {
        holds = subst (λ q. Holds q b') left held;
        inside = refl;
        total = refl;
        proto = refl;
        same_id = refl;
      },
      refl,
    )

-- Inside a message, and before a whole head, the first half does nothing.
pub head_step-skip :
    (s : State) (l : ℕ)
    → Buffer.len s.buf ≡ pos l
    → (s.codec.in_msg ≡ true) ⊎ (l < 6)
    → head_step s ≡ go_on s
unfolding head_step at_least
head_step-skip s l n (inl i) = simp (head_step, i) refl
head_step-skip s l n (inr f) = elim (Bool-cases s.codec.in_msg) [
  | inl i ↦ simp (head_step, i) refl
  | inr o ↦ simp (head_step, o, n, lt→ltb l 6 f) refl
]

body-step :
    (pooled again : Pooled) (s : State) (l n : ℕ) (bs : Bytes) (b' : IoBuffer)
    (given : List MessageBinary)
    → s.codec.in_msg ≡ true
    → Buffer.len s.buf ≡ pos l
    → s.codec.proto_len ≡ pos n
    → n ≤ l
    → Buffer.read (pos 0) (pos n) s.buf ≡ some (b', (bs, none))
    → give pooled again bs s.codec s.given ≡ (none, given)
    → body_step pooled again s
      ≡ go_on (record { buf = b'; codec = record s.codec { in_msg = false }; given = given })
unfolding body_step at_least
body-step pooled again s l n bs b' given i e p fits r g =
    simp (body_step, i, e, p, le→ltb l n fits, r, g) refl

-- The rest of the message is taken off, and the message handed on.
pub body_step-AtHead :
    (pooled again : Pooled) (id n : ℕ) (p : Bytes) (s : State)
    → IsPooled pooled
    → 6 + n ≤ message_max_size
    → n ≤ length p
    → AtBody id n p s
    → (s' : State) × (m : MessageBinary) × (body_step pooled again s ≡ go_on s')
      × AtHead (drop n p) s'
      × (s'.given ≡ s.given ++ (m ∷ []))
      × Carries id (take n p) m
body_step-AtHead pooled again id n p s good small fits h =
    let (b', e, held) = read_front n p s.buf h.holds fits in
    let l : length (take n p) ≡ n = rw length-take (omega (arith, fits)) in
    let (m, g, c) =
      give_lem pooled again (take n p) s.codec s.given good (h.total ∙ ap (λ k. 6 + k) (sym l))
        (h.proto ∙ ap pos (sym l)) (omega (arith, l, small)) in
    (
      record { buf = b'; codec = record s.codec { in_msg = false }; given = s.given ++ (m ∷ []) },
      m,
      body-step pooled again s (length p) n (take n p) b' (s.given ++ (m ∷ [])) h.inside
          (len-Holds p s.buf h.holds) h.proto fits e g,
      record { holds = held; outside = refl },
      refl,
      subst (λ i. Carries i (take n p) m) h.same_id c,
    )

-- Without all of a message the loop ends, and nothing is lost.
pub body_step-waits :
    (pooled again : Pooled) (s : State) (l : ℕ)
    → Buffer.len s.buf ≡ pos l
    → (s.codec.in_msg ≡ false) ⊎ ((n : ℕ) × (s.codec.proto_len ≡ pos n) × (l < n))
    → body_step pooled again s ≡ end_with none s
unfolding body_step at_least
body_step-waits pooled again s l e (inl o) = simp (body_step, o) refl
body_step-waits pooled again s l e (inr (n, p, f)) = elim (Bool-cases s.codec.in_msg) [
  | inl i ↦ simp (body_step, i, e, p, lt→ltb l n f) refl
  | inr o ↦ simp (body_step, o) refl
]
