-- ===== src/Wire/Writes.antt =====
-- What the writing helpers put into a buffer with enough room.
use micserver.Prelude.{
  ℕ, zero, suc, ◌+◌, ◌-◌, ◌≤◌, ◌≡◌, refl, sym, ◌∙◌, ap, List, [], ◌∷◌, ◌++◌, append-nil,
  append_assoc, Option, none, some, length, length-append, length-drop, drop, le→leb, more, ◌>>◌,
  arith,
}
use micserver.Wire.Bytes.{Bytes, le_bytes}
use micserver.Wire.Write.{
  Writer, put, write_u32, write_binary_string, write_count, elements, write_byte_slice, write_each,
  write_pair, write_string_map, write_message,
}

-- `w` writes exactly `bs`, whatever stood there, and needs no more room than that.
pub record Writes (w : Writer) (bs : Bytes) : Type 0 where
  pub run :
      (done room : Bytes)
      → length bs ≤ length room
      → w (record { written = done; room = room })
        ≡ more (record { written = done ++ bs; room = drop (length bs) room })

pub drop-nil {ℓ} : {A : Type ℓ} (n : ℕ) → drop {A = A} n [] ≡ []
drop-nil zero = refl
drop-nil (suc n) = refl

pub drop-drop {ℓ} : {A : Type ℓ} (m n : ℕ) (xs : List A) → drop n (drop m xs) ≡ drop (m + n) xs
drop-drop zero n xs = ap (λ k. drop k xs) (omega arith)
drop-drop (suc m) n [] = drop-nil n ∙ sym (drop-nil (suc m + n))
drop-drop (suc m) n (x ∷ xs) =
    let e : suc (m + n) ≡ suc m + n = omega arith in drop-drop m n xs ∙ ap (λ k. drop k (x ∷ xs)) e

pub Writes-put : (bs : Bytes) → Writes (put bs) bs
unfolding put
Writes-put bs = record { run = λ done room h. rw (le→leb _ _ h) }

pub Writes-seq :
    {v w : Writer} {bs cs : Bytes} → Writes v bs → Writes w cs → Writes (v >> w) (bs ++ cs)
Writes-seq {bs} {cs} hv hw = record {
  run = λ done room h.
      let l = length-append bs cs in
      rw (hv.run done room (omega arith), ◌>>◌)
        (hw.run (done ++ bs) (drop (length bs) room) (omega (arith, length-drop (length bs) room))
          ∙ rw (append_assoc, drop-drop, l));
}

pub Writes-nothing : Writes more []
Writes-nothing = record { run = λ done room h. rw append-nil }

pub Writes-uint : (k v : ℕ) → Writes (put (le_bytes k v)) (le_bytes k v)
Writes-uint k v = Writes-put (le_bytes k v)

-- The format of a string: its length in four bytes, then its bytes.
unfoldable pub encode_string : Bytes → Bytes
encode_string s = le_bytes 4 (length s) ++ s

pub Writes-string : (s : Bytes) → Writes (write_binary_string s) (encode_string s)
unfolding write_binary_string write_u32 encode_string
Writes-string s = Writes-seq (Writes-put _) (Writes-put _)

-- A slice or map begins with its length, and nil with 0xffffffff.
unfoldable pub encode_count {ℓ} : {A : Type ℓ} → Option (List A) → Bytes
encode_count none = le_bytes 4 0xffffffff
encode_count (some xs) = le_bytes 4 (length xs)

pub Writes-count {ℓ} : {A : Type ℓ} (o : Option (List A)) → Writes (write_count o) (encode_count o)
unfolding write_count write_u32 encode_count
Writes-count none = Writes-put _
Writes-count (some xs) = Writes-put _

unfoldable pub encode_byte_slice : Option Bytes → Bytes
encode_byte_slice o = encode_count o ++ elements o

pub Writes-byte_slice : (o : Option Bytes) → Writes (write_byte_slice o) (encode_byte_slice o)
unfolding write_byte_slice encode_byte_slice
Writes-byte_slice o = Writes-seq (Writes-count o) (Writes-put _)

unfoldable pub encode_each {ℓ} : {A : Type ℓ} → (A → Bytes) → List A → Bytes
encode_each e [] = []
encode_each e (x ∷ xs) = e x ++ encode_each e xs

pub Writes-each {ℓ} :
    {A : Type ℓ} (w : A → Writer) (e : A → Bytes)
    → ((x : A) → Writes (w x) (e x))
    → (xs : List A) → Writes (write_each w xs) (encode_each e xs)
unfolding write_each encode_each
Writes-each w e h [] = Writes-nothing
Writes-each w e h (x ∷ xs) = Writes-seq (h x) (Writes-each w e h xs)

unfoldable pub encode_pair : Bytes × Bytes → Bytes
encode_pair (k, v) = encode_string k ++ encode_string v

pub Writes-pair : (p : Bytes × Bytes) → Writes (write_pair p) (encode_pair p)
unfolding write_pair encode_pair
Writes-pair (k, v) = Writes-seq (Writes-string k) (Writes-string v)

unfoldable pub encode_string_map : Option (List (Bytes × Bytes)) → Bytes
encode_string_map o = encode_count o ++ encode_each encode_pair (elements o)

pub Writes-string_map :
    (o : Option (List (Bytes × Bytes))) → Writes (write_string_map o) (encode_string_map o)
unfolding write_string_map encode_string_map
Writes-string_map o =
    Writes-seq (Writes-count o) (Writes-each write_pair encode_pair Writes-pair (elements o))

-- A message: four zero bytes for nil, and otherwise the length of the body, then the body.
unfoldable pub encode_message {ℓ} : {A : Type ℓ} → (A → Bytes) → Option A → Bytes
encode_message e none = le_bytes 4 0
encode_message e (some o) = le_bytes 4 (length (e o)) ++ e o

-- Where the size function counts the body and the four bytes before it, the writer follows the format.
pub Writes-message {ℓ} :
    {A : Type ℓ} (size : A → ℕ) (body : A → Writer) (e : A → Bytes)
    → ((o : A) → size o ≡ 4 + length (e o))
    → ((o : A) → Writes (body o) (e o))
    → (o : Option A) → Writes (write_message size body o) (encode_message e o)
unfolding write_message encode_message write_u32
Writes-message size body e hs hw none = Writes-put _
Writes-message size body e hs hw (some o) =
    let same : size o - 4 ≡ length (e o) = omega (arith, hs o) in
    rw same (Writes-seq (Writes-put _) (hw o))
