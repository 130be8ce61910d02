-- ===== src/Buffer/Reading.antt =====
-- What Read of util/buffer/io_buffer.go does to the queue that the buffer represents.
use micserver.Prelude.{
  ℕ, zero, suc, ◌+◌, ◌≤◌, ◌<◌, ◌≡◌, ◌∙◌, ap, sym, refl, ◌⊎◌, inl, inr, [], ◌∷◌, ◌++◌, none, some,
  length, take, drop, arith, length-append, length-take, length-drop, append_assoc, le→ltb, lt→ltb,
  ltb, ltb→lt, ltb→le, Bool-cases, take-append-drop,
}
use micserver.Prelude.Int.{pos}
use micserver.Wire.Bytes.{Bytes}
use micserver.Buffer.{IoBuffer, Error, over_size, not_enough, read, read_bytes}
use micserver.Buffer.Queue.{length-memory, Holds}
use micserver.Buffer.Laws.{Updated}

drop-append_into : (n : ℕ) (a ys : Bytes) → drop (length a + n) (a ++ ys) ≡ drop n ys
drop-append_into n [] ys = ap (λ k. drop k ys) (omega arith)
drop-append_into n (x ∷ a) ys =
    let e : suc (length a) + n ≡ suc (length a + n) = omega arith in
    ap (λ k. drop k (x ∷ (a ++ ys))) e ∙ drop-append_into n a ys

take-append_fit : (n : ℕ) (xs ys : Bytes) → n ≤ length xs → take n (xs ++ ys) ≡ take n xs
take-append_fit zero xs ys h = refl
take-append_fit (suc n) [] ys h = ground arith
take-append_fit (suc n) (x ∷ xs) ys h = ap (◌∷◌ x) (take-append_fit n xs ys (omega arith))

take-drop-append :
    (n o : ℕ) (xs ys : Bytes) → o + n ≤ length xs → take n (drop o (xs ++ ys)) ≡ take n (drop o xs)
take-drop-append n zero xs ys h = take-append_fit n xs ys (omega arith)
take-drop-append n (suc o) [] ys h = ground arith
take-drop-append n (suc o) (x ∷ xs) ys h = take-drop-append n o xs ys (omega arith)

-- Giving up the first k bytes of the content.
Holds-drop :
    (k : ℕ) (xs : Bytes) (b : IoBuffer)
    → Holds xs b
    → k ≤ length xs
    → Holds (drop k xs) (record b { start = b.start + k })
Holds-drop k xs b h fits =
    let lk : length (take k xs) ≡ k = rw length-take (omega (arith, fits)) in
    let cut : take k xs ++ (drop k xs ++ h.free) ≡ xs ++ h.free =
      sym (append_assoc (take k xs) (drop k xs) h.free)
      ∙ ap (λ t. t ++ h.free) (take-append-drop k xs) in
    record {
      before = h.before ++ take k xs;
      free = h.free;
      stored =
          h.stored
          ∙ ap some (
              sym (
                append_assoc h.before (take k xs) (drop k xs ++ h.free)
                ∙ ap (λ t. h.before ++ t) cut));
      start_at = simp (length-append, lk) (omega (arith, h.start_at));
      end_at = simp (length-append, lk, length-drop) (omega (arith, h.end_at, fits));
      size = simp (length-append, lk, length-drop) (omega (arith, h.size, fits));
      limit = h.limit;
    }

-- Reading n bytes behind the next `offset` ones from a buffer that holds xs. If there are as many,
-- the call answers them, and the buffer holds what is behind them. If not, it answers an error and
-- the buffer is as it was.
pub read_lem :
    (offset n : ℕ) (xs : Bytes) (b : IoBuffer)
    → Holds xs b
    → ((offset + n ≤ length xs)
        × ((b' : IoBuffer) × (read (pos offset) (pos n) b
              ≡ some (b', (take n (drop offset xs), none)))
            × Updated (drop (offset + n) xs) b b'
            × (b'.max_length ≡ b.max_length)))
      ⊎ ((length xs < offset + n)
          × ((e : Error) × (read (pos offset) (pos n) b ≡ some (b, ([], some e)))))
unfolding read read_bytes
read_lem offset n xs b h =
    let m = length-memory h in
    elim (Bool-cases (ltb (length xs) (offset + n))) [
      | inl over ↦ inr (
        ltb→lt (length xs) (offset + n) over,
        elim (Bool-cases (ltb b.max_length n)) [
          | inl big ↦ (over_size, simp (read, read_bytes, h.stored, big) refl)
          | inr small ↦ (
            not_enough,
            simp
                (
                  read,
                  read_bytes,
                  h.stored,
                  small,
                  lt→ltb b.end (b.start + offset + n)
                      (omega (arith, h.end_at, h.start_at, ltb→lt (length xs) (offset + n) over)),
                )
                refl,
          )
        ],
      )
      | inr ok ↦
          let k : b.start + offset + n ≡ b.start + (offset + n) = omega arith in
          let taken : take n (drop (b.start + offset) (h.before ++ (xs ++ h.free)))
              ≡ take n (drop offset xs) =
            rw (sym h.start_at, drop-append_into offset h.before (xs ++ h.free))
              (take-drop-append n offset xs h.free
                (omega (arith, ltb→le (length xs) (offset + n) ok))) in
          let fits = ltb→le (length xs) (offset + n) ok in
          inl (
            fits,
            (
              record b { start = b.start + offset + n },
              simp
                  (
                    read,
                    read_bytes,
                    h.stored,
                    le→ltb b.max_length n (omega (arith, h.size, fits)),
                    le→ltb b.end (b.start + offset + n) (omega (arith, fits, h.start_at, h.end_at)),
                    m,
                    le→ltb b.max_length (b.start + offset + n)
                        (omega (arith, fits, h.start_at, h.size)),
                  )
                  (ap
                    (λ u. some (
                      record b {
                        buf = some (h.before ++ (xs ++ h.free));
                        start = b.start + offset + n;
                      },
                      (u, none),
                    ))
                    taken),
              record {
                holds = rw (k) (Holds-drop (offset + n) xs b h fits);
                same_default = refl;
                same_ban = refl;
              },
              refl,
            ),
          )
    ]
