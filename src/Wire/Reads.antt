-- ===== src/Wire/Reads.antt =====
-- What the reading helpers find where the encoding of a value stands.
use micserver.Prelude.{
  ℕ, ◌+◌, ◌-◌, ◌%◌, ◌^◌, ◌<◌, ◌≤◌, ◌≡◌, refl, sym, ap, ◌∙◌, Bool, true, false, not, List, [], ◌++◌,
  append_assoc, append-nil, Option, none, some, length, length-append, take, drop, take-append,
  drop-append, ltb, le→ltb, ◌==◌, more, ◌>>◌, arith,
}
use micserver.Prelude.Int.{ℤ, pos, negsuc}
use micserver.Wire.Bytes.{Bytes, le_bytes, length-le_bytes, le_value-le_bytes}
use micserver.Wire.Write.{elements, bool_to_int}
use micserver.Wire.Writes.{encode_string, encode_count, encode_byte_slice}
use micserver.Wire.Read.{
  Reading, Reader, read_binary_string, read_string, read_uint, read_int64, to_u64, to_i64,
  read_bool, read_count, unless_nil, read_copy, read_byte_slice,
}

abbrev pub at : {O : Type 0} → Bytes → Bytes → ℕ → O → Reading O
at pre rest spare o = record { bytes = pre ++ rest; spare = spare; obj = o; offset = length pre }

-- In front of `bs` the step takes the object from `o` to `o'` and moves behind `bs`, whatever
-- stands before and behind.
pub record Reads {O : Type 0} (read : Reader O) (bs : Bytes) (o o' : O) : Type 0 where
  pub run :
      (pre suf : Bytes) (spare : ℕ)
      → read (at pre (bs ++ suf) spare o) ≡ more (at (pre ++ bs) suf spare o')

pub Reads-seq :
    {O : Type 0} {f g : Reader O} {bs cs : Bytes} {o o₁ o₂ : O}
    → Reads f bs o o₁
    → Reads g cs o₁ o₂
    → Reads (f >> g) (bs ++ cs) o o₂
Reads-seq {bs} {cs} hf hg = record {
  run = λ pre suf spare.
      rw (append_assoc bs cs suf, hf.run pre (cs ++ suf) spare, ◌>>◌)
        (hg.run (pre ++ bs) suf spare ∙ rw (append_assoc pre bs cs));
}

pub take-exact {ℓ} : {A : Type ℓ} (k : ℕ) (xs ys : List A) → length xs ≡ k → take k (xs ++ ys) ≡ xs
take-exact k xs ys h = ap (λ n. take n (xs ++ ys)) (sym h) ∙ take-append xs ys

pub drop-exact {ℓ} : {A : Type ℓ} (k : ℕ) (xs ys : List A) → length xs ≡ k → drop k (xs ++ ys) ≡ ys
drop-exact k xs ys h = ap (λ n. drop n (xs ++ ys)) (sym h) ∙ drop-append xs ys

-- The state behind `bs`, as a step leaves it.
pub advance :
    {O : Type 0} (pre bs suf : Bytes) (spare : ℕ) (o : O) (k : ℕ)
    → k ≡ length pre + length bs
    → ◌≡◌ {A = Reading O}
        (record { bytes = pre ++ (bs ++ suf); spare = spare; obj = o; offset = k })
        (at (pre ++ bs) suf spare o)
advance pre bs suf spare o k h = rw (append_assoc, length-append, h)

-- A guard passes that asks for no more than `bs`.
pub guard_passes :
    (pre bs suf : Bytes) (t : ℕ)
    → t ≤ length pre + length bs
    → ltb (length (pre ++ (bs ++ suf))) t ≡ false
guard_passes pre bs suf t h =
    le→ltb _ _ (omega (arith, length-append pre (bs ++ suf), length-append bs suf))

-- An unsigned integer, wherever it fits its width.
pub Reads-uint :
    {O : Type 0} (k v : ℕ) (set : O → ℕ → O) (o : O)
    → v < 256 ^ k
    → Reads (read_uint k set) (le_bytes k v) o (set o v)
unfolding read_uint
Reads-uint k v set o h = record {
  run = λ pre suf spare.
      rw
        (
          guard_passes pre (le_bytes k v) suf (length pre + k) (omega (arith, length-le_bytes k v)),
          drop-append,
          take-exact k (le_bytes k v) suf (length-le_bytes k v),
          le_value-le_bytes k v h,
        )
        (ap more
          (advance pre (le_bytes k v) suf spare (set o v) _ (omega (arith, length-le_bytes k v))));
}

abbrev pub IsI64 : ℤ → Type 0
IsI64 (pos n) = n < 2 ^ 63
IsI64 (negsuc n) = n < 2 ^ 63

to_u64-lt : (z : ℤ) → to_u64 z < 256 ^ 8
unfolding to_u64
to_u64-lt (pos n) = omega arith
to_u64-lt (negsuc n) = omega arith

-- Through the 64-bit pattern and back.
pub to_i64-to_u64 : (z : ℤ) → IsI64 z → to_i64 (to_u64 z) ≡ z
unfolding to_u64 to_i64
to_i64-to_u64 (pos n) h = ground arith
to_i64-to_u64 (negsuc n) h = ground arith

pub Reads-int64 :
    {O : Type 0} (z : ℤ) (set : O → ℤ → O) (o : O)
    → IsI64 z
    → Reads (read_int64 set) (le_bytes 8 (to_u64 z)) o (set o z)
unfolding read_int64
Reads-int64 z set o h =
    rw (to_i64-to_u64 z h) at (Reads-uint 8 (to_u64 z) (λ o v. set o (to_i64 v)) o (to_u64-lt z))

pub Reads-bool :
    {O : Type 0} (b : Bool) (set : O → Bool → O) (o : O)
    → Reads (read_bool set) (le_bytes 1 (bool_to_int b)) o (set o b)
unfolding read_bool bool_to_int
Reads-bool true set o = Reads-uint 1 1 (λ o v. set o (not (v == 0))) o (omega arith)
Reads-bool false set o = Reads-uint 1 0 (λ o v. set o (not (v == 0))) o (omega arith)

pub length-encode_string : (s : Bytes) → length (encode_string s) ≡ 4 + length s
unfolding encode_string
length-encode_string s = rw (length-append, length-le_bytes)

-- A length that its four bytes hold, as the program's slice expressions need it.
abbrev pub Fits : ℕ → Type 0
Fits n = n + 4 < 2 ^ 32

pub read_binary_string-encode :
    (s suf : Bytes) (spare : ℕ)
    → Fits (length s)
    → read_binary_string (encode_string s ++ suf) spare ≡ some s
unfolding read_binary_string encode_string
read_binary_string-encode s suf spare h =
    let l4 = length-le_bytes 4 (length s) in
    rw
      (
        append_assoc (le_bytes 4 (length s)) s suf,
        take-exact 4 (le_bytes 4 (length s)) (s ++ suf) l4,
        drop-exact 4 (le_bytes 4 (length s)) (s ++ suf) l4,
        le_value-le_bytes 4 (length s) (omega arith),
      )
      (ground (
        arith,
        length-append (le_bytes 4 (length s)) (s ++ suf),
        length-append s suf,
        l4,
        take-exact ((4 + length s) % 2 ^ 32 - 4) s suf,
      ))

-- A string field that was empty.
pub Reads-string :
    {O : Type 0} (s : Bytes) (get : O → Bytes) (set : O → Bytes → O) (o : O)
    → get o ≡ []
    → Fits (length s)
    → Reads (read_string get set) (encode_string s) o (set o s)
unfolding read_string
Reads-string s get set o empty h = record {
  run = λ pre suf spare.
      let l = length-encode_string s in
      rw
        (
          empty,
          guard_passes pre (encode_string s) suf (length pre + 4 + 0) (omega arith),
          drop-append,
          read_binary_string-encode s suf spare h,
        )
        (ap more (advance pre (encode_string s) suf spare (set o s) _ (omega arith)));
}

-- What stands behind a count is read with it.
pub Reads-count :
    {O : Type 0} (n : ℕ) (next : ℕ → Reader O) (bs : Bytes) (o o' : O)
    → n < 2 ^ 32
    → Reads (next n) bs o o'
    → Reads (read_count next) (le_bytes 4 n ++ bs) o o'
unfolding read_count
Reads-count n next bs o o' h hn = record {
  run = λ pre suf spare.
      let l = length-le_bytes 4 n in
      rw
        (
          append_assoc (le_bytes 4 n) bs suf,
          guard_passes pre (le_bytes 4 n) (bs ++ suf) (length pre + 4) (omega arith),
          drop-append,
          take-exact 4 (le_bytes 4 n) (bs ++ suf) l,
          le_value-le_bytes 4 n (omega arith),
        )
        (ap (next n) (advance pre (le_bytes 4 n) (bs ++ suf) spare o _ (omega arith))
          ∙ hn.run (pre ++ le_bytes 4 n) suf spare
          ∙ rw (append_assoc pre (le_bytes 4 n) bs));
}

-- Nothing is read, and the object stays.
pub Reads-nothing : {O : Type 0} (o : O) → Reads more [] o o
Reads-nothing o = record { run = λ pre suf spare. rw append-nil }

-- A copy of bytes into the object.
Reads-copy :
    {O : Type 0} (s : Bytes) (set : O → Bytes → O) (o : O)
    → Reads (read_copy set (length s)) s o (set o s)
unfolding read_copy
Reads-copy s set o = record {
  run = λ pre suf spare.
      rw (guard_passes pre s suf (length pre + length s) (omega arith), drop-append, take-append)
        (ap more (advance pre s suf spare (set o s) _ refl));
}

pub Reads-unless :
    {O : Type 0} (n : ℕ) (read : Reader O) (bs : Bytes) (o o' : O)
    → n < 0xffffffff
    → Reads read bs o o'
    → Reads (unless_nil n read) bs o o'
unfolding unless_nil
Reads-unless n read bs o o' h hr = record {
  run = λ pre suf spare. ground (arith, hr.run pre suf spare);
}

pub Reads-nil : {O : Type 0} (read : Reader O) (o : O) → Reads (unless_nil 0xffffffff read) [] o o
unfolding unless_nil
Reads-nil read o = Reads-nothing o

abbrev pub FitsSlice {ℓ} : {A : Type ℓ} → Option (List A) → Type 0
FitsSlice o = length (elements o) < 0xffffffff

-- A []byte field that was nil.
pub Reads-byte_slice :
    {O : Type 0} (v : Option Bytes) (set : O → Option Bytes → O) (o : O)
    → set o none ≡ o
    → FitsSlice v
    → Reads (read_byte_slice set) (encode_byte_slice v) o (set o v)
unfolding read_byte_slice encode_byte_slice encode_count
Reads-byte_slice none set o same h =
    rw same (Reads-count 0xffffffff _ [] o o (omega arith) (Reads-nil _ o))
Reads-byte_slice (some s) set o same h =
    Reads-count (length s) _ s o (set o (some s)) (omega arith)
      (Reads-unless (length s) _ s o _ h (Reads-copy s (λ o v. set o (some v)) o))
