-- ===== src/Wire/Sizes.antt =====
-- The sums over slices and maps in the GetSize functions, and the lengths of the encodings.
use micserver.Prelude.{
  ℕ, ◌+◌, ◌^◌, ◌≤◌, ◌<◌, ◌≡◌, refl, List, [], ◌∷◌, Option, none, some, length, length-append, All,
  arith,
}
use micserver.Wire.Bytes.{Bytes, length-le_bytes}
use micserver.Wire.Write.{elements}
use micserver.Wire.Writes.{
  encode_string, encode_count, encode_byte_slice, encode_each, encode_pair, encode_string_map,
}
use micserver.Wire.Reads.{length-encode_string}
use micserver.Wire.Nested.{FitsPair}

unfoldable pub sum_sizes {ℓ} : {A : Type ℓ} → (A → ℕ) → List A → ℕ
sum_sizes size [] = 0
sum_sizes size (x ∷ xs) = size x + sum_sizes size xs

unfoldable pub size_pair : Bytes × Bytes → ℕ
size_pair (k, v) = (length k + 4) + (length v + 4)

pub length-encode_count {ℓ} : {A : Type ℓ} (o : Option (List A)) → length (encode_count o) ≡ 4
unfolding encode_count
length-encode_count none = length-le_bytes 4 0xffffffff
length-encode_count (some xs) = length-le_bytes 4 (length xs)

pub length-encode_byte_slice :
    (o : Option Bytes) → length (encode_byte_slice o) ≡ 4 + length (elements o)
unfolding encode_byte_slice
length-encode_byte_slice o =
    omega (arith, length-append (encode_count o) (elements o), length-encode_count o)

pub length-encode_each {ℓ} :
    {A : Type ℓ} (size : A → ℕ) (e : A → Bytes)
    → ((x : A) → length (e x) ≡ size x)
    → (xs : List A) → length (encode_each e xs) ≡ sum_sizes size xs
unfolding sum_sizes encode_each
length-encode_each size e h [] = refl
length-encode_each size e h (x ∷ xs) =
    omega (arith, length-append (e x) (encode_each e xs), h x, length-encode_each size e h xs)

length-encode_pair : (p : Bytes × Bytes) → length (encode_pair p) ≡ size_pair p
unfolding encode_pair size_pair
length-encode_pair (k, v) = omega (
  arith,
  length-append (encode_string k) (encode_string v),
  length-encode_string k,
  length-encode_string v,
)

pub length-encode_string_map :
    (o : Option (List (Bytes × Bytes)))
    → length (encode_string_map o) ≡ 4 + sum_sizes size_pair (elements o)
unfolding encode_string_map
length-encode_string_map o = omega (
  arith,
  length-append (encode_count o) (encode_each encode_pair (elements o)),
  length-encode_count o,
  length-encode_each size_pair encode_pair length-encode_pair (elements o),
)

pub length-le-sum_sizes {ℓ} :
    {A : Type ℓ} (size : A → ℕ) (h : (x : A) → 1 ≤ size x) (xs : List A)
    → length xs ≤ sum_sizes size xs
unfolding sum_sizes
length-le-sum_sizes size h [] = omega arith
length-le-sum_sizes size h (x ∷ xs) = omega (arith, h x, length-le-sum_sizes size h xs)

pub size_pair_pos : (p : Bytes × Bytes) → 1 ≤ size_pair p
unfolding size_pair
size_pair_pos (k, v) = omega arith

-- A map whose entries fit together has entries that fit.
pub All-FitsPair : (m : List (Bytes × Bytes)) → sum_sizes size_pair m < 2 ^ 32 → All FitsPair m
unfolding sum_sizes size_pair
All-FitsPair [] h = tt
All-FitsPair ((k, v) ∷ m) h = ((omega arith, omega arith), All-FitsPair m (omega arith))
