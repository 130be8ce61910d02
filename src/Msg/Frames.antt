-- ===== src/Msg/Frames.antt =====
-- The frames that msg/codec.go puts around messages, and that their heads can be read off.
use micserver.Prelude.{
  ℕ, ◌+◌, ◌*◌, ◌^◌, ◌≤◌, ◌<◌, ◌≡◌, sym, ap, ◌∙◌, List, [], ◌∷◌, ◌++◌, length, arith, take, drop,
  length-append,
}
use micserver.Wire.Bytes.{Bytes, le_bytes, le_value, length-le_bytes, le_value-le_bytes}
use micserver.Wire.Reads.{take-exact, drop-exact}
use micserver.Msg.Binary.{message_max_size}

-- A message as it stands on the wire, with the stream behind it.
abbrev pub framed : ℕ → ℕ → Bytes → Bytes
framed id n q = le_bytes 4 (6 + n) ++ (le_bytes 2 id ++ q)

abbrev pub frame : ℕ × Bytes → Bytes
frame (id, content) = framed id (length content) content

abbrev pub frames : List (ℕ × Bytes) → Bytes
frames [] = []
frames (m ∷ ms) = frame m ++ frames ms

-- An id is a uint16, and a message has a size that the encoder accepts.
abbrev pub FitsFrame : ℕ × Bytes → Type 0
FitsFrame (id, content) = (id < 2 ^ 16) × (6 + length content ≤ message_max_size)

-- The parts of a head can be read off.
pub framed_total :
    (id n : ℕ) (q : Bytes) → 6 + n < 2 ^ 32 → le_value (take 4 (framed id n q)) ≡ 6 + n
framed_total id n q h =
    ap le_value (take-exact 4 (le_bytes 4 (6 + n)) (le_bytes 2 id ++ q) (length-le_bytes 4 (6 + n)))
    ∙ le_value-le_bytes 4 (6 + n) h

pub framed_id :
    (id n : ℕ) (q : Bytes) → id < 2 ^ 16 → le_value (take 2 (drop 4 (framed id n q))) ≡ id
framed_id id n q h =
    ap (λ t. le_value (take 2 t))
      (drop-exact 4 (le_bytes 4 (6 + n)) (le_bytes 2 id ++ q) (length-le_bytes 4 (6 + n)))
    ∙ (ap le_value (take-exact 2 (le_bytes 2 id) q (length-le_bytes 2 id))
        ∙ le_value-le_bytes 2 id h)

pub framed_rest : (id n : ℕ) (q : Bytes) → drop 2 (drop 4 (framed id n q)) ≡ q
framed_rest id n q =
    ap (drop 2) (drop-exact 4 (le_bytes 4 (6 + n)) (le_bytes 2 id ++ q) (length-le_bytes 4 (6 + n)))
    ∙ drop-exact 2 (le_bytes 2 id) q (length-le_bytes 2 id)

pub length-framed : (id n : ℕ) (q : Bytes) → length (framed id n q) ≡ 6 + length q
length-framed id n q = simp (length-append, length-le_bytes) (omega arith)

pub framed_injective :
    (id n j k : ℕ) (q r : Bytes)
    → id < 2 ^ 16
    → j < 2 ^ 16
    → 6 + n < 2 ^ 32
    → 6 + k < 2 ^ 32
    → framed id n q ≡ framed j k r
    → (id ≡ j) × (n ≡ k) × (q ≡ r)
framed_injective id n j k q r hi hj hn hk e =
    let t : 6 + n ≡ 6 + k =
      sym (framed_total id n q hn) ∙ (ap (λ x. le_value (take 4 x)) e ∙ framed_total j k r hk) in
    (
      sym (framed_id id n q hi) ∙ (ap (λ x. le_value (take 2 (drop 4 x))) e ∙ framed_id j k r hj),
      omega (arith, t),
      sym (framed_rest id n q) ∙ (ap (λ x. drop 2 (drop 4 x)) e ∙ framed_rest j k r),
    )

pub length-frames : (ms : List (ℕ × Bytes)) → 6 * length ms ≤ length (frames ms)
length-frames [] = omega arith
length-frames (m ∷ ms) = simp (length-append, length-le_bytes) (omega (arith, length-frames ms))
