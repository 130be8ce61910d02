-- ===== src/Buffer/Laws.antt =====
-- What the methods of util/buffer/io_buffer.go do to the queue that the buffer represents.
use micserver.Prelude.{
  ℕ, ◌+◌, ◌-◌, ◌*◌, ◌≤◌, ◌<◌, ◌≡◌, ◌∙◌, ap, sym, refl, true, ◌⊎◌, inl, inr, ◌++◌, none, some,
  length, drop, arith, length-append, length-drop, append_assoc, le→ltb, lt→ltb, leb, ltb, ltb→lt,
  leb→lt, ltb→le, leb→le, ==_iff, Bool-cases, ◌==◌,
}
use Prim.Native.Nat.{min}
use micserver.Prelude.Int.{ltb_pos, ltb_pos-sub_ℕ}
use micserver.Wire.Bytes.{Bytes}
use micserver.Buffer.{IoBuffer, over_size, shrink, enlarge, make_room, append, write, remain_size}
use micserver.Buffer.Queue.{
  length-memory, cut-end, copy_lem, Holds, Compacted, Compacted-trans, grow-Compacted,
  resize-Compacted,
}

pub shrink-Compacted :
    (limit : ℕ) (xs : Bytes) (b : IoBuffer)
    → Holds xs b
    → b.start ≡ 0
    → (b' : IoBuffer) × (shrink limit b ≡ some b') × Compacted xs b b'
unfolding shrink
shrink-Compacted limit xs b h z =
    let same : (b' : IoBuffer) × (some b ≡ some b') × Compacted xs b b' =
      (b, refl, record { holds = h; at_front = z; same_default = refl; same_ban = refl }) in
    elim (Bool-cases (b.end == 0)) [
      | inl y ↦ elim (Bool-cases (leb limit b.max_length)) [
        | inl w ↦
            let e = (==_iff b.end 0).0 y in
            let (b', eq, c, _) =
              resize-Compacted b.default_length xs b h (omega (arith, e, h.end_at)) (omega arith) in
            (b', rw (y, w) eq, c)
        | inr w ↦ rw (y, w) same
      ]
      | inr y ↦ rw y same
    ]

-- The room that is left, where the content is at the front.
remains :
    (xs : Bytes) (b : IoBuffer) (n : ℕ)
    → Holds xs b
    → b.start ≡ 0
    → ltb_pos (remain_size b) n ≡ ltb b.max_length (length xs + n)
unfolding remain_size
remains xs b n h z =
    let e : b.end ≡ length xs = omega (arith, z, h.start_at, h.end_at) in
    let m : b.max_length + b.start ≡ b.max_length = omega (arith, z) in
    rw (ltb_pos-sub_ℕ (b.max_length + b.start) b.end n, e, m) refl

-- Whether the content fits, after make_room: it does, unless it may not be enlarged that far.
abbrev pub Room : ℕ → IoBuffer → Type 0
Room n b =
    (n ≤ b.max_length)
    ⊎ ((b.max_length < n) × ((b.ban_auto_resize ≡ true) ⊎ (b.default_length * 16 < n)))

make_room-Compacted :
    (n : ℕ) (xs : Bytes) (b : IoBuffer)
    → Holds xs b
    → b.start ≡ 0
    → (b' : IoBuffer) × (make_room n b ≡ some b') × Compacted xs b b' × Room (length xs + n) b'
unfolding make_room enlarge
make_room-Compacted n xs b h z =
    let t = length xs + n in
    let same : Compacted xs b b = record {
      holds = h;
      at_front = z;
      same_default = refl;
      same_ban = refl;
    } in
    let e : b.end + n ≡ t = omega (arith, z, h.start_at, h.end_at) in
    let r = remains xs b n h z in
    elim (Bool-cases (ltb b.max_length t)) [
      | inr f ↦ (b, rw (r, f) refl, same, inl (ltb→le b.max_length t f))
      | inl f ↦ elim (Bool-cases b.ban_auto_resize) [
        | inl ban ↦ (b, rw (r, f, ban) refl, same, inr (ltb→lt b.max_length t f, inl ban))
        | inr ban ↦ elim (Bool-cases (leb t (b.default_length * 16))) [
          | inl w ↦
              let (b', eq, c, m) =
                resize-Compacted t xs b h (omega arith) (leb→le t (b.default_length * 16) w) in
              (b', simp (r, f, ban, e, w) eq, c, inl (omega (arith, m)))
          | inr w ↦ (
            b,
            rw (r, f, ban, e, w) refl,
            same,
            inr (ltb→lt b.max_length t f, inr (leb→lt t (b.default_length * 16) w)),
          )
        ]
      ]
    ]

-- The buffer holds other content, with the same settings.
pub record Updated (xs : Bytes) (b b' : IoBuffer) : Type 0 where
  pub holds : Holds xs b'
  pub same_default : b'.default_length ≡ b.default_length
  pub same_ban : b'.ban_auto_resize ≡ b.ban_auto_resize

append-Updated :
    (src xs : Bytes) (b : IoBuffer)
    → Holds xs b
    → b.start ≡ 0
    → length xs + length src ≤ b.max_length
    → (b' : IoBuffer) × (append src b ≡ some (b', none)) × Updated (xs ++ src) b b'
unfolding append
append-Updated src xs b h z fits =
    let bs = h.before ++ (xs ++ h.free) in
    let m = length-memory h in
    let e : b.end ≡ length xs = omega (arith, z, h.start_at, h.end_at) in
    let k : min (length src) (length bs - b.end) ≡ length src = omega (arith, m, e) in
    let (t, d) = cut-end h in
    (
      record b {
        buf = some ((h.before ++ xs) ++ (src ++ drop (length src) h.free));
        end = b.end + length src;
      },
      simp
          (
            h.stored,
            remains xs b (length src) h z,
            le→ltb b.max_length (length xs + length src) fits,
            le→ltb (length bs) b.end (omega (arith, m, e)),
            t,
            d,
            k,
            copy_lem h.free src (omega (arith, h.size)),
          )
          refl,
      record {
        holds = record {
          before = h.before;
          free = drop (length src) h.free;
          stored = ap some (
              append_assoc h.before xs (src ++ drop (length src) h.free)
              ∙ ap (λ t. h.before ++ t) (sym (append_assoc xs src (drop (length src) h.free))));
          start_at = h.start_at;
          end_at = simp (length-append) (omega (arith, h.end_at));
          size = simp (length-append, length-drop) (omega (arith, h.size));
          limit = h.limit;
        };
        same_default = refl;
        same_ban = refl;
      },
    )

append-over_size :
    (src xs : Bytes) (b : IoBuffer)
    → Holds xs b
    → b.start ≡ 0
    → b.max_length < length xs + length src
    → append src b ≡ some (b, some over_size)
unfolding append
append-over_size src xs b h z over =
    simp (remains xs b (length src) h z, lt→ltb b.max_length (length xs + length src) over) refl

pub Updated-trans :
    {xs : Bytes} {a b c : IoBuffer} {ys : Bytes}
    → Compacted xs a b
    → Updated ys b c
    → Updated ys a c
Updated-trans h k = record {
  holds = k.holds;
  same_default = k.same_default ∙ h.same_default;
  same_ban = k.same_ban ∙ h.same_ban;
}

-- Writing src onto a buffer that holds xs never panics. Either src stands behind xs afterwards, or
-- the call answers ErrOverSize, the buffer still holds xs, and there was no room: the content with
-- src is longer than the memory, which may not be enlarged, or not over 16 times its default length.
pub write_lem :
    (src xs : Bytes) (b : IoBuffer)
    → Holds xs b
    → ((b' : IoBuffer) × (write src b ≡ some (b', none)) × Updated (xs ++ src) b b')
      ⊎ ((b' : IoBuffer) × (write src b ≡ some (b', some over_size))
          × Updated xs b b'
          × (b'.max_length < length xs + length src)
          × ((b.ban_auto_resize ≡ true) ⊎ (b.default_length * 16 < length xs + length src)))
unfolding write
write_lem src xs b h =
    let (b₁, e₁, c₁, _) = grow-Compacted xs b h in
    let (b₂, e₂, c₂) = shrink-Compacted (b₁.default_length * 2) xs b₁ c₁.holds c₁.at_front in
    let (b₃, e₃, c₃, room) = make_room-Compacted (length src) xs b₂ c₂.holds c₂.at_front in
    let c = Compacted-trans c₁ (Compacted-trans c₂ c₃) in
    elim room [
      | inl fits ↦
          let (b₄, e₄, u) = append-Updated src xs b₃ c₃.holds c₃.at_front fits in
          inl (b₄, rw (write, e₁, e₂, e₃) e₄, Updated-trans c u)
      | inr (over, why) ↦ inr (
        b₃,
        rw (write, e₁, e₂, e₃) (append-over_size src xs b₃ c₃.holds c₃.at_front over),
        record { holds = c.holds; same_default = c.same_default; same_ban = c.same_ban },
        over,
        elim why [
          | inl ban ↦ inl (sym c.same_ban ∙ ban)
          | inr k ↦ inr (omega (arith, k, c.same_default))
        ],
      )
    ]
