-- ===== src/Wire/Write.antt =====
-- The writing helpers of servercomm/command_binary.go, and what every WriteMsg…ByObj has in common.
use micserver.Prelude.{
  ℕ, ◌-◌, Bool, true, false, List, [], ◌∷◌, ◌++◌, Option, none, some, length, drop, leb,
  if◌then◌else◌, Flow, panic, more, ◌>>◌,
}
use micserver.Wire.Bytes.{Bytes, le_bytes}

-- A buffer that is being filled: the bytes before the write offset, and the bytes from it on.
-- A slice's capacity is its length here.
pub record Cursor : Type 0 where
  pub written : Bytes
  pub room : Bytes

abbrev pub Writer : Type 0
Writer = Cursor → Flow Cursor

-- Overwrites the bytes at the offset and moves it behind them; a slice expression past the end
-- of the buffer panics.
unfoldable pub put : Bytes → Writer
put bs c =
    if leb (length bs) (length c.room)
    then more (record { written = c.written ++ bs; room = drop (length bs) c.room })
    else panic

-- The same, and the offset stays.
unfoldable pub poke : Bytes → Writer
poke bs c =
    if leb (length bs) (length c.room)
    then more (record c { room = bs ++ drop (length bs) c.room })
    else panic

unfoldable pub write_u8 : ℕ → Writer
write_u8 v = put (le_bytes 1 v)

unfoldable pub write_u16 : ℕ → Writer
write_u16 v = put (le_bytes 2 v)

unfoldable pub write_u32 : ℕ → Writer
write_u32 v = put (le_bytes 4 v)

unfoldable pub write_u64 : ℕ → Writer
write_u64 v = put (le_bytes 8 v)

unfoldable pub bool_to_int : Bool → ℕ
bool_to_int true = 1
bool_to_int false = 0

unfoldable pub write_bool : Bool → Writer
write_bool b = write_u8 (bool_to_int b)

-- The length, then the bytes; the caller moves its offset behind both.
unfoldable pub write_binary_string : Bytes → Writer
write_binary_string s = do write_u32 (length s); put s

-- The length of a slice or map, with 0xffffffff for nil.
unfoldable pub write_count {ℓ} : {A : Type ℓ} → Option (List A) → Writer
write_count none = write_u32 0xffffffff
write_count (some xs) = write_u32 (length xs)

abbrev pub elements {ℓ} : {A : Type ℓ} → Option (List A) → List A
elements none = []
elements (some xs) = xs

-- A []byte field.
unfoldable pub write_byte_slice : Option Bytes → Writer
write_byte_slice o = do write_count o; put (elements o)

-- A loop that writes the elements in turn.
unfoldable pub write_each {ℓ} : {A : Type ℓ} → (A → Writer) → List A → Writer
write_each w [] c = more c
write_each w (x ∷ xs) c = (w x >> write_each w xs) c

-- A map[string]string, in the order in which the range statement happens to visit it.
unfoldable pub write_pair : Bytes × Bytes → Writer
write_pair (k, v) = do write_binary_string k; write_binary_string v

unfoldable pub write_string_map : Option (List (Bytes × Bytes)) → Writer
write_string_map o = do write_count o; write_each write_pair (elements o)

-- A message behind a pointer: nil is a size of 0, any other begins with its size less four.
unfoldable pub write_message {ℓ} : {A : Type ℓ} → (A → ℕ) → (A → Writer) → Option A → Writer
write_message size body none = write_u32 0
write_message size body (some o) = do write_u32 (size o - 4); body o
