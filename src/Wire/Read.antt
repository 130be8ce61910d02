-- ===== src/Wire/Read.antt =====
-- The reading helpers of servercomm/command_binary.go, and what every ReadMsg…ByBytes has in common.
use micserver.Prelude.{
  ℕ, zero, suc, ◌+◌, ◌-◌, ◌%◌, ◌^◌, Bool, not, List, [], ◌∷◌, ◌++◌, Option, none, some, length,
  take, drop, ltb, ◌==◌, if◌then◌else◌, Flow, panic, stop, more, ◌>>◌,
}
use micserver.Prelude.Int.{ℤ, pos, negsuc}
use micserver.Dict
use micserver.Wire.Bytes.{Bytes, le_value}
use micserver.Wire.Write.{elements}

-- The local state of a reader: the slice `data`, how far its capacity goes beyond its length, the
-- object that is being filled, and the offset.
pub record Reading (O : Type 0) : Type 0 where
  pub bytes : Bytes
  pub spare : ℕ
  pub obj : O
  pub offset : ℕ

abbrev pub Reader : Type 0 → Type 0
Reader O = Reading O → Flow (Reading O)

-- readBinaryString(data): `none` is a panic. `data[:4]` may reach into the capacity, where the
-- value read does not matter, since the length test then fails. The end of the last slice
-- expression is a uint32.
unfoldable pub read_binary_string : Bytes → ℕ → Option Bytes
read_binary_string bs spare =
    let n = le_value (take 4 bs) in
    let hi = (4 + n) % 2 ^ 32 in
    if ltb (length bs + spare) 4
    then none
    else if ltb (length bs) 4
    then some []
    else if ltb (length bs) (n + 4)
    then some []
    else if ltb hi 4
    then none
    else some (take (hi - 4) (drop 4 bs))

-- A string field. The guard counts the length of the field's old value.
unfoldable pub read_string : {O : Type 0} → (O → Bytes) → (O → Bytes → O) → Reader O
read_string get set r =
    if ltb (length r.bytes) (r.offset + 4 + length (get r.obj))
    then stop r
    else elim (read_binary_string (drop r.offset r.bytes) r.spare) [
      | none ↦ panic
      | some s ↦ more (record r { obj = set r.obj s; offset = r.offset + 4 + length s })
    ]

-- An unsigned integer of k bytes.
unfoldable pub read_uint : {O : Type 0} → ℕ → (O → ℕ → O) → Reader O
read_uint k set r =
    if ltb (length r.bytes) (r.offset + k)
    then stop r
    else more (record r {
      obj = set r.obj (le_value (take k (drop r.offset r.bytes)));
      offset = r.offset + k;
    })

-- uint64(x) and int64(x) on a 64-bit pattern.
unfoldable pub to_u64 : ℤ → ℕ
to_u64 (pos n) = n % 2 ^ 64
to_u64 (negsuc n) = 2 ^ 64 - 1 - n % 2 ^ 64

unfoldable pub to_i64 : ℕ → ℤ
to_i64 v = if ltb v (2 ^ 63) then pos v else negsuc (2 ^ 64 - 1 - v)

unfoldable pub read_int64 : {O : Type 0} → (O → ℤ → O) → Reader O
read_int64 set = read_uint 8 (λ o v. set o (to_i64 v))

-- `uint8(data[offset]) != 0`
unfoldable pub read_bool : {O : Type 0} → (O → Bool → O) → Reader O
read_bool set = read_uint 1 (λ o v. set o (not (v == 0)))

-- The count in front of a slice or map is read into a local variable, for what follows.
unfoldable pub read_count : {O : Type 0} → (ℕ → Reader O) → Reader O
read_count then_read r =
    if ltb (length r.bytes) (r.offset + 4)
    then stop r
    else then_read (le_value (take 4 (drop r.offset r.bytes))) (record r { offset = r.offset + 4 })

-- What follows is left out for a nil.
unfoldable pub unless_nil : {O : Type 0} → ℕ → Reader O → Reader O
unless_nil n read r = if n == 0xffffffff then more r else read r

-- A []byte field: the guard, then the copy.
unfoldable pub read_copy : {O : Type 0} → (O → Bytes → O) → ℕ → Reader O
read_copy set n r =
    if ltb (length r.bytes) (r.offset + n)
    then stop r
    else more (record r { obj = set r.obj (take n (drop r.offset r.bytes)); offset = r.offset + n })

unfoldable pub read_byte_slice : {O : Type 0} → (O → Option Bytes → O) → Reader O
read_byte_slice set = read_count λ n. unless_nil n (read_copy (λ o v. set o (some v)) n)

-- A map[string]string field: the loop that fills the map, entry by entry. Neither guard covers
-- the four bytes of a length.
unfoldable pub read_value : {O : Type 0} → (O → Bytes → O) → Reader O
read_value set r =
    if ltb (length r.bytes) (r.offset + 2)
    then stop r
    else elim (read_binary_string (drop r.offset r.bytes) r.spare) [
      | none ↦ panic
      | some v ↦ more (record r { obj = set r.obj v; offset = r.offset + length v + 4 })
    ]

unfoldable pub read_entry : {O : Type 0} → (O → Bytes → Bytes → O) → Reader O
read_entry add r =
    if ltb (length r.bytes) (r.offset + 0)
    then stop r
    else elim (read_binary_string (drop r.offset r.bytes) r.spare) [
      | none ↦ panic
      | some k ↦ read_value (λ o v. add o k v) (record r { offset = r.offset + length k + 4 })
    ]

unfoldable pub repeat : {O : Type 0} → ℕ → Reader O → Reader O
repeat zero read r = more r
repeat (suc n) read r = (read >> repeat n read) r

abbrev pub StringMap : Type 0
StringMap = Option (List (Bytes × Bytes))

-- `m[k] = v` on a map that is there.
abbrev pub map_set : StringMap → Bytes → Bytes → StringMap
map_set none k v = none
map_set (some m) k v = some (Dict.insert k v m)

unfoldable pub read_string_map : {O : Type 0} → (O → StringMap) → (O → StringMap → O) → Reader O
read_string_map get set = read_count λ n. unless_nil n λ r.
    repeat n (read_entry (λ o k v. set o (map_set (get o) k v)))
      (record r { obj = set r.obj (some []) })

-- The frame of a message. The result is how far the caller's offset moves and the object; the
-- outer `none` is a panic, the inner one a nil pointer.
abbrev pub ReadResult : Type 0 → Type 0
ReadResult O = Option (ℕ × Option O)

abbrev pub finish : {O : Type 0} → ℕ → Flow (Reading O) → ReadResult O
finish endpos panic = none
finish endpos (stop r) = some (endpos, some r.obj)
finish endpos (more r) = some (endpos, some r.obj)

abbrev pub or_new : {O : Type 0} → Option O → O → O
or_new none fresh = fresh
or_new (some o) fresh = o

unfoldable pub read_message : {O : Type 0} → O → Reader O → Bytes → ℕ → Option O → ReadResult O
read_message fresh body indata spare obj =
    let size = le_value (take 4 indata) in
    let o = or_new obj fresh in
    if ltb (length indata) 4
    then some (0, none)
    else if size == 0
    then some (4, none)
    else if ltb (length indata) (4 + size)
    then some (4, some o)
    else finish (4 + size) (
        body (record {
          bytes = take size (drop 4 indata);
          spare = spare + (length indata - (4 + size));
          obj = o;
          offset = 0;
        }))

-- A message behind a pointer, inside another. The guard counts the old value's size, and the
-- reader always starts from nil.
unfoldable pub read_pointer :
    {O P : Type 0}
    → (Option P → ℕ)
    → (Bytes → ℕ → Option P → ReadResult P)
    → (O → Option P)
    → (O → Option P → O)
    → Reader O
read_pointer size read get set r =
    if ltb (length r.bytes) (r.offset + size (get r.obj))
    then stop r
    else elim (read (drop r.offset r.bytes) r.spare none) [
      | none ↦ panic
      | some (n, p) ↦ more (record r { obj = set r.obj p; offset = r.offset + n })
    ]

-- One element of a slice of pointers; the slice of the data panics behind its end.
unfoldable pub read_element :
    {O P : Type 0} → (Bytes → ℕ → Option P → ReadResult P) → (O → Option P → O) → Reader O
read_element read add r =
    if ltb (length r.bytes) r.offset
    then panic
    else elim (read (drop r.offset r.bytes) r.spare none) [
      | none ↦ panic
      | some (n, p) ↦ more (record r { obj = add r.obj p; offset = r.offset + n })
    ]

-- The elements in turn. (The program makes the slice at its full length and fills it.)
unfoldable pub read_pointers :
    {O P : Type 0}
    → (Bytes → ℕ → Option P → ReadResult P)
    → (O → Option (List (Option P)))
    → (O → Option (List (Option P)) → O)
    → Reader O
read_pointers read get set = read_count λ n. unless_nil n λ r.
    repeat n (read_element read (λ o p. set o (some (elements (get o) ++ (p ∷ [])))))
      (record r { obj = set r.obj (some []) })
