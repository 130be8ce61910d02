-- ===== src/Buffer/Queue.antt =====
-- The contract of util/buffer/io_buffer.go: a buffer represents a queue of bytes, and moving its
-- content to the front, or to other memory, keeps the queue.
use micserver.Prelude.{
  ℕ, zero, suc, ◌+◌, ◌-◌, ◌*◌, ◌≤◌, ◌≡◌, ◌∙◌, ap, sym, refl, inl, inr, [], ◌∷◌, ◌++◌, none, some,
  length, take, drop, arith, length-append, length-drop, length-replicate, take-append, drop-append,
  append_assoc, le→leb, ==_iff, Bool-cases, ◌==◌,
}
use micserver.Wire.Bytes.{Bytes}
use micserver.Buffer.{IoBuffer, new_io_buffer, grow, resize, resize_used, used, copy, zeros}

-- The buffer's content is xs: what stands between start and end.
pub record Holds (xs : Bytes) (b : IoBuffer) : Type 0 where
  pub before : Bytes
  pub free : Bytes
  pub stored : b.buf ≡ some (before ++ (xs ++ free))
  pub start_at : length before ≡ b.start
  pub end_at : length before + length xs ≡ b.end
  pub size : length before + length xs + length free ≡ b.max_length
  pub limit : b.max_length ≤ b.default_length * 16

-- The same content, now at the front of the memory, with the same settings.
pub record Compacted (xs : Bytes) (b b' : IoBuffer) : Type 0 where
  pub holds : Holds xs b'
  pub at_front : b'.start ≡ 0
  pub same_default : b'.default_length ≡ b.default_length
  pub same_ban : b'.ban_auto_resize ≡ b.ban_auto_resize

pub take-all : (n : ℕ) (xs : Bytes) → length xs ≤ n → take n xs ≡ xs
take-all zero [] h = refl
take-all (suc n) [] h = refl
take-all zero (x ∷ xs) h = ground arith
take-all (suc n) (x ∷ xs) h = ap (◌∷◌ x) (take-all n xs (omega arith))

pub length-nil : (xs : Bytes) → length xs ≡ 0 → xs ≡ []
length-nil [] h = refl
length-nil (x ∷ xs) h = ground arith

pub copy_lem :
    (dst src : Bytes) → length src ≤ length dst → copy dst src ≡ src ++ drop (length src) dst
unfolding copy
copy_lem dst src h = rw (take-all (length dst) src h) refl

pub length-memory :
    {xs : Bytes} {b : IoBuffer} (h : Holds xs b)
    → length (h.before ++ (xs ++ h.free)) ≡ b.max_length
length-memory {xs} {b} h = simp (length-append) (omega (arith, h.size))

pub take-drop-middle : (a xs c : Bytes) → take (length xs) (drop (length a) (a ++ (xs ++ c))) ≡ xs
take-drop-middle a xs c = ap (take (length xs)) (drop-append a (xs ++ c)) ∙ take-append xs c

pub used_lem :
    {xs : Bytes} {b : IoBuffer} (h : Holds xs b) → used b (h.before ++ (xs ++ h.free)) ≡ some xs
unfolding used
used_lem {xs} {b} h =
    let w : b.end - b.start ≡ length xs = omega (arith, h.start_at, h.end_at) in
    rw
      (
        le→leb b.start b.end (omega (arith, h.start_at, h.end_at)),
        length-memory h,
        le→leb b.end b.max_length (omega (arith, h.size, h.end_at)),
        w,
        sym h.start_at,
      )
      (ap some (take-drop-middle h.before xs h.free))

-- The memory before and behind the end of the content.
pub cut-end :
    {xs : Bytes} {b : IoBuffer} (h : Holds xs b)
    → (take b.end (h.before ++ (xs ++ h.free)) ≡ h.before ++ xs)
      × (drop b.end (h.before ++ (xs ++ h.free)) ≡ h.free)
cut-end {xs} {b} h =
    let e : b.end ≡ length (h.before ++ xs) = simp (length-append) (sym h.end_at) in
    let a : h.before ++ (xs ++ h.free) ≡ (h.before ++ xs) ++ h.free =
      sym (append_assoc h.before xs h.free) in
    (
      rw (e, a) (take-append (h.before ++ xs) h.free),
      rw (e, a) (drop-append (h.before ++ xs) h.free),
    )

-- The content copied to the front of memory that has room for it.
abbrev pub moved : Bytes → Bytes → IoBuffer → IoBuffer
moved xs dst b = record b {
  buf = some (copy dst xs);
  start = 0;
  end = b.end - b.start;
  max_length = length dst;
}

Holds-moved :
    (xs dst : Bytes) (b : IoBuffer)
    → Holds xs b
    → length xs ≤ length dst
    → length dst ≤ b.default_length * 16
    → Compacted xs b (moved xs dst b)
Holds-moved xs dst b h fits limit = record {
  holds = record {
    before = [];
    free = drop (length xs) dst;
    stored = ap some (copy_lem dst xs fits);
    start_at = refl;
    end_at = omega (arith, h.start_at, h.end_at);
    size = rw length-drop (omega (arith, fits));
    limit = limit;
  };
  at_front = refl;
  same_default = refl;
  same_ban = refl;
}

pub grow-Compacted :
    (xs : Bytes) (b : IoBuffer)
    → Holds xs b
    → (b' : IoBuffer) × (grow b ≡ some (b', none))
      × Compacted xs b b'
      × (b'.max_length ≡ b.max_length)
unfolding grow used copy
grow-Compacted xs b h =
    let bs = h.before ++ (xs ++ h.free) in
    let n = length-memory h in
    elim (Bool-cases (b.start == 0)) [
      | inl z ↦ (
        b,
        rw (h.stored, z) refl,
        record {
          holds = h;
          at_front = ((==_iff b.start 0).0 z);
          same_default = refl;
          same_ban = refl;
        },
        refl,
      )
      | inr z ↦ (
        moved xs bs b,
        rw (h.stored, z, used_lem h, n) refl,
        Holds-moved xs bs b h (omega (arith, n, h.size)) (omega (arith, n, h.limit)),
        n,
      )
    ]

-- An empty buffer is given fresh memory as it is.
Holds-fresh :
    (n : ℕ) (xs : Bytes) (b : IoBuffer)
    → Holds xs b
    → b.end ≡ 0
    → n ≤ b.default_length * 16
    → Compacted xs b (record b { buf = some (zeros n); max_length = n })
Holds-fresh n xs b h e limit =
    let nil : xs ≡ [] = length-nil xs (omega (arith, e, h.end_at)) in
    record {
      holds = record {
        before = [];
        free = zeros n;
        stored = rw nil refl;
        start_at = omega (arith, e, h.start_at, h.end_at);
        end_at = rw nil (omega (arith, e));
        size = rw (nil, length-replicate {A = ℕ} n 0) (omega arith);
        limit = limit;
      };
      at_front = omega (arith, e, h.start_at, h.end_at);
      same_default = refl;
      same_ban = refl;
    }

pub resize-Compacted :
    (n : ℕ) (xs : Bytes) (b : IoBuffer)
    → Holds xs b
    → length xs ≤ n
    → n ≤ b.default_length * 16
    → (b' : IoBuffer) × (resize n b ≡ some b') × Compacted xs b b' × (b'.max_length ≡ n)
unfolding resize resize_used used copy
resize-Compacted n xs b h fits limit =
    let l = length-replicate n 0 in
    let rest : (b' : IoBuffer) × (resize_used n b ≡ some b')
        × Compacted xs b b'
        × (b'.max_length ≡ n) =
      (
        moved xs (zeros n) b,
        simp (h.stored, used_lem h, resize_used)
            (ap
              (λ m. some (record b {
                buf = some (copy (zeros n) xs);
                start = 0;
                end = b.end - b.start;
                max_length = m;
              }))
              (sym l)),
        Holds-moved xs (zeros n) b h (omega (arith, l)) (omega (arith, l)),
        l,
      ) in
    elim (Bool-cases (b.end == 0)) [
      | inl z ↦ elim (Bool-cases (b.start == 0)) [
        | inl y ↦ (
          record b { buf = some (zeros n); max_length = n },
          rw (z, y) refl,
          Holds-fresh n xs b h ((==_iff b.end 0).0 z) limit,
          refl,
        )
        | inr y ↦ rw (z, y) rest
      ]
      | inr z ↦ rw z rest
    ]

pub Compacted-trans :
    {xs : Bytes} {a b c : IoBuffer} → Compacted xs a b → Compacted xs b c → Compacted xs a c
Compacted-trans h k = record {
  holds = k.holds;
  at_front = k.at_front;
  same_default = k.same_default ∙ h.same_default;
  same_ban = k.same_ban ∙ h.same_ban;
}

pub new_io_buffer-Holds : (n : ℕ) → Holds [] (new_io_buffer n)
unfolding new_io_buffer
new_io_buffer-Holds n = record {
  before = [];
  free = zeros n;
  stored = refl;
  start_at = refl;
  end_at = refl;
  size = ap (λ k. 0 + 0 + k) (length-replicate {A = ℕ} n 0) ∙ omega arith;
  limit = omega arith;
}
