-- ===== src/Wire/Bytes.antt =====
-- Go's byte slices and strings as lists of byte values, and the little-endian integers that
-- encoding/binary reads and writes.
use micserver.Prelude.{
  ℕ, zero, suc, ◌+◌, ◌*◌, ◌/◌, ◌%◌, ◌^◌, ◌<◌, ◌≡◌, refl, ap, List, [], ◌∷◌, length, arith, All,
}

-- The content of a []byte or of a string.
abbrev pub Bytes : Type 0
Bytes = List ℕ

abbrev pub IsByte : ℕ → Type 0
IsByte b = b < 256

-- binary.LittleEndian.PutUint16, PutUint32, PutUint64: k digits to the base 256, lowest first.
-- A value of k bytes or more is cut, as Go's conversion to the unsigned type cuts it.
unfoldable pub le_bytes : ℕ → ℕ → Bytes
le_bytes zero v = []
le_bytes (suc k) v = (v % 256) ∷ le_bytes k (v / 256)

-- binary.LittleEndian.Uint16, Uint32, Uint64 on as many bytes.
unfoldable pub le_value : Bytes → ℕ
le_value [] = 0
le_value (b ∷ bs) = b + 256 * le_value bs

pub length-le_bytes : (k v : ℕ) → length (le_bytes k v) ≡ k
unfolding le_bytes
length-le_bytes zero v = refl
length-le_bytes (suc k) v = ap suc (length-le_bytes k (v / 256))

-- Reading back an integer that fits.
pub le_value-le_bytes : (k v : ℕ) → v < 256 ^ k → le_value (le_bytes k v) ≡ v
unfolding le_bytes le_value
le_value-le_bytes zero v h = omega arith
le_value-le_bytes (suc k) v h = omega (arith, le_value-le_bytes k (v / 256) (omega arith))

-- Every digit is a byte.
pub le_bytes-IsByte : (k v : ℕ) → All IsByte (le_bytes k v)
unfolding le_bytes
le_bytes-IsByte zero v = tt
le_bytes-IsByte (suc k) v = (omega arith, le_bytes-IsByte k (v / 256))
