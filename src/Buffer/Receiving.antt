-- ===== src/Buffer/Receiving.antt =====
-- What ReadFromReader of util/buffer/io_buffer.go does to the queue that the buffer represents.
use micserver.Prelude.{
  ℕ, ◌+◌, ◌-◌, ◌*◌, ◌≤◌, ◌≡◌, ap, sym, refl, inl, inr, [], ◌++◌, Option, none, some, length, drop,
  arith, length-append, length-drop, append_assoc, le→ltb, leb, leb→le, Bool-cases, ◌==◌, ◌&&◌, not,
  ◌∙◌, append-nil,
}
use micserver.Wire.Bytes.{Bytes}
use micserver.Buffer.{
  IoBuffer, Error, or_nil, read_from_reader, IoReader, receive, after_read, enlarge, copy,
}
use micserver.Buffer.Queue.{
  length-memory, cut-end, copy_lem, Holds, Compacted-trans, grow-Compacted, resize-Compacted,
}
use micserver.Buffer.Laws.{Updated, Updated-trans, shrink-Compacted}

-- The bytes of a call of the reader that the buffer keeps.
abbrev pub kept : Bytes × Option Error → Bytes
kept (got, none) = got
kept (got, some e) = []

after_read-Updated :
    (n : ℕ) (ys : Bytes) (b : IoBuffer)
    → Holds ys b
    → (b' : IoBuffer) × (after_read n b ≡ some (b', (n, none))) × Updated ys b b'
unfolding after_read enlarge
after_read-Updated n ys b h =
    let same : Updated ys b b = record { holds = h; same_default = refl; same_ban = refl } in
    elim (Bool-cases ((n == b.max_length - (b.end - n)) && not b.ban_auto_resize)) [
      | inr f ↦ (b, rw f refl, same)
      | inl f ↦ elim (Bool-cases (leb (b.max_length * 2) (b.default_length * 16))) [
        | inl w ↦
            let (b', e, c, _) =
              resize-Compacted (b.max_length * 2) ys b h (omega (arith, h.size))
                (leb→le (b.max_length * 2) (b.default_length * 16) w) in
            (
              b',
              simp (f, w, e) refl,
              Updated-trans c (record { holds = c.holds; same_default = refl; same_ban = refl }),
            )
        | inr w ↦ (b, rw (f, w) refl, same)
      ]
    ]

-- The memory with the bytes that the reader put behind the end.
Holds-received :
    (got xs : Bytes) (b : IoBuffer) (h : Holds xs b)
    → length got ≤ length h.free
    → Holds xs (record b { buf = some ((h.before ++ xs) ++ copy h.free got) })
      × Holds
          (xs ++ got)
          (record b { buf = some ((h.before ++ xs) ++ copy h.free got); end = b.end + length got })
Holds-received got xs b h fits =
    let c = copy_lem h.free got fits in
    let lc : length (copy h.free got) ≡ length h.free =
      simp (c, length-append, length-drop) (omega (arith, fits)) in
    (
      record {
        before = h.before;
        free = copy h.free got;
        stored = ap some (append_assoc h.before xs (copy h.free got));
        start_at = h.start_at;
        end_at = h.end_at;
        size = rw lc h.size;
        limit = h.limit;
      },
      record {
        before = h.before;
        free = drop (length got) h.free;
        stored = rw c (
            ap some (
              append_assoc h.before xs (got ++ drop (length got) h.free)
              ∙ ap (λ t. h.before ++ t) (sym (append_assoc xs got (drop (length got) h.free)))));
        start_at = h.start_at;
        end_at = simp length-append (omega (arith, h.end_at));
        size = simp (length-append, length-drop) (omega (arith, h.size, fits));
        limit = h.limit;
      },
    )

receive-Updated :
    (answer : Bytes × Option Error) (xs : Bytes) (b : IoBuffer) (h : Holds xs b)
    → length answer.0 ≤ length h.free
    → (b' : IoBuffer) × (receive answer b ≡ some (b', (length answer.0, answer.1)))
      × Updated (xs ++ kept answer) b b'
unfolding receive
receive-Updated (got, none) xs b h fits =
    let m = length-memory h in
    let (t, d) = cut-end h in
    let (_, k) = Holds-received got xs b h fits in
    let (b', e, u) = after_read-Updated (length got) (xs ++ got) _ k in
    (
      b',
      simp (receive, h.stored, t, d, m, le→ltb b.max_length b.end (omega (arith, h.end_at, h.size)))
          e,
      record { holds = u.holds; same_default = u.same_default; same_ban = u.same_ban },
    )
receive-Updated (got, some x) xs b h fits =
    let m = length-memory h in
    let (t, d) = cut-end h in
    let (k, _) = Holds-received got xs b h fits in
    (
      record b { buf = some ((h.before ++ xs) ++ copy h.free got) },
      simp (receive, h.stored, t, d, m, le→ltb b.max_length b.end (omega (arith, h.end_at, h.size)))
          refl,
      record { holds = rw (append-nil) k; same_default = refl; same_ban = refl },
    )

-- ReadFromReader on a buffer that holds xs never panics, if the reader keeps to the room that it
-- is given: it asks the reader once, for some number of bytes, and hands on the reader's count and
-- error. Without an error the bytes stand behind xs afterwards; with one, the buffer still holds xs.
pub read_from_reader_lem :
    (source : IoReader) (xs : Bytes) (b : IoBuffer)
    → Holds xs b
    → ((k : ℕ) → length (source k).0 ≤ k)
    → (room : ℕ) × (b' : IoBuffer) × (read_from_reader (some source) b
        ≡ some (b', (length (source room).0, (source room).1)))
      × Updated (xs ++ kept (source room)) b b'
unfolding read_from_reader
read_from_reader_lem source xs b h keeps =
    let (b₁, e₁, c₁, _) = grow-Compacted xs b h in
    let (b₂, e₂, c₂) = shrink-Compacted (b₁.default_length * 2 + 1) xs b₁ c₁.holds c₁.at_front in
    let room = length (or_nil b₂.buf) - b₂.end in
    let h₂ = c₂.holds in
    let r : room ≡ length h₂.free =
      rw (h₂.stored, length-memory h₂) (omega (arith, h₂.size, h₂.end_at)) in
    let (b₃, e₃, u) = receive-Updated (source room) xs b₂ h₂ (omega (arith, r, keeps room)) in
    (room, b₃, rw (read_from_reader, e₁, e₂) e₃, Updated-trans (Compacted-trans c₁ c₂) u)
