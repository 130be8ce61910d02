-- ===== src/Wire/Info/RoundTrip.antt =====
-- What the writers of ModuleInfo, which other messages carry leave in a buffer, and that the readers find it again.
use micserver.Prelude.{
  ◌+◌, ◌^◌, ◌≤◌, ◌<◌, ◌≡◌, refl, List, [], ◌∷◌, ◌++◌, Option, none, some, length, length-append,
  All, arith,
}
use micserver.Wire.Bytes.{Bytes, le_bytes, length-le_bytes}
use micserver.Wire.Write.{elements, write_u32, write_u64}
use micserver.Wire.Writes.{
  Writes, Writes-seq, Writes-string, Writes-put, Writes-count, Writes-each, Writes-message,
  encode_string, encode_count, encode_each, encode_message,
}
use micserver.Wire.Read.{read_pointers}
use micserver.Wire.Reads.{
  Reads, Reads-seq, Reads-string, Reads-uint, FitsSlice, length-encode_string,
}
use micserver.Wire.Nested.{ReadsBack, ReadsBack-some, ReadsBack-nil, Reads-pointers}
use micserver.Wire.Sizes.{sum_sizes, length-encode_count, length-encode_each}
use micserver.Wire.Info.{
  ModuleInfo, new_module_info, size_module_info, write_module_info_body, write_module_info,
  read_module_info_body, read_module_info, write_module_infos,
}

-- The object that the four bytes of each length and the widths of the integers can hold.

pub record IsModuleInfo (o : ModuleInfo) : Type 0 where
  pub module_number_fits : o.module_number < 2 ^ 32
  pub version_fits : o.version < 2 ^ 64
  pub size_fits : size_module_info (some o) < 2 ^ 32

unfoldable pub encode_module_info_body : ModuleInfo → Bytes
encode_module_info_body o =
    encode_string o.module_id
    ++ (encode_string o.module_addr ++ (le_bytes 4 o.module_number ++ (le_bytes 8 o.version)))

abbrev pub encode_module_info : Option ModuleInfo → Bytes
encode_module_info = encode_message encode_module_info_body

pub size-length_module_info :
    (o : ModuleInfo) → size_module_info (some o) ≡ 4 + length (encode_module_info_body o)
unfolding encode_module_info_body size_module_info
size-length_module_info o =
    simp (length-append, length-encode_string, length-le_bytes) (omega arith)

pub Writes-module_info :
    (o : Option ModuleInfo) → Writes (write_module_info o) (encode_module_info o)
unfolding write_module_info write_module_info_body encode_module_info_body write_u32 write_u64
Writes-module_info = Writes-message _ _ _ size-length_module_info (λ o.
    Writes-seq (Writes-string _)
      (Writes-seq (Writes-string _) (Writes-seq (Writes-put _) (Writes-put _))))

unfoldable pub encode_module_infos : Option (List (Option ModuleInfo)) → Bytes
encode_module_infos o = encode_count o ++ encode_each encode_module_info (elements o)

pub Writes-module_infos :
    (o : Option (List (Option ModuleInfo))) → Writes (write_module_infos o) (encode_module_infos o)
unfolding write_module_infos encode_module_infos
Writes-module_infos o =
    Writes-seq (Writes-count o) (Writes-each _ _ Writes-module_info (elements o))

pub length-encode_module_info :
    (p : Option ModuleInfo) → length (encode_module_info p) ≡ size_module_info p
unfolding encode_message size_module_info
length-encode_module_info none = length-le_bytes 4 0
length-encode_module_info (some o) =
    rw (length-append, length-le_bytes) (omega (arith, size-length_module_info o))

pub size_module_info_pos : (p : Option ModuleInfo) → 4 ≤ size_module_info p
unfolding size_module_info
size_module_info_pos none = omega arith
size_module_info_pos (some o) = omega arith

pub length-encode_module_infos :
    (o : Option (List (Option ModuleInfo)))
    → length (encode_module_infos o) ≡ 4 + sum_sizes size_module_info (elements o)
unfolding encode_module_infos
length-encode_module_infos o = omega (
  arith,
  length-append (encode_count o) (encode_each encode_module_info (elements o)),
  length-encode_count o,
  length-encode_each size_module_info encode_module_info length-encode_module_info (elements o),
)

Reads-module_info :
    (o : ModuleInfo)
    → IsModuleInfo o
    → Reads read_module_info_body (encode_module_info_body o) new_module_info o
unfolding read_module_info_body encode_module_info_body size_module_info
Reads-module_info o h = Reads-seq (Reads-string _ _ _ _ refl (omega arith)) (
    Reads-seq (Reads-string _ _ _ _ refl (omega arith))
      (Reads-seq (Reads-uint _ _ _ _ (omega arith)) (Reads-uint _ _ _ _ (omega arith))))

abbrev pub IsInfoPointer : Option ModuleInfo → Type 0
IsInfoPointer none = Unit
IsInfoPointer (some o) = IsModuleInfo o

-- A pointer to a ModuleInfo, nil or not, is read back from what was written, with any bytes behind.
pub ReadsBack-module_info :
    (p : Option ModuleInfo) → IsInfoPointer p → ReadsBack read_module_info encode_module_info p
unfolding read_module_info size_module_info
ReadsBack-module_info none h = ReadsBack-nil _ _ _
ReadsBack-module_info (some o) h =
    ReadsBack-some _ _ _ o (omega (arith, size-length_module_info o))
      (omega (arith, size-length_module_info o)) (Reads-module_info o h)

All-ReadsBack :
    (ps : List (Option ModuleInfo))
    → All IsInfoPointer ps
    → All (ReadsBack read_module_info encode_module_info) ps
All-ReadsBack [] h = tt
All-ReadsBack (p ∷ ps) (h, hs) = (ReadsBack-module_info p h, All-ReadsBack ps hs)

module _ {O : Type 0} (get : O → Option (List (Option ModuleInfo)))
    (set : O → Option (List (Option ModuleInfo)) → O) where
  pub Reads-module_infos :
      ((o : O) (m n : Option (List (Option ModuleInfo)))
        → (get (set o m) ≡ m) × (set (set o m) n ≡ set o n))
      → (v : Option (List (Option ModuleInfo))) (o : O) → set o none ≡ o
      → FitsSlice v
      → All IsInfoPointer (elements v)
      → Reads (read_pointers read_module_info get set) (encode_module_infos v) o (set o v)
  unfolding encode_module_infos
  Reads-module_infos law v o same h hs =
      Reads-pointers read_module_info encode_module_info get set law v o same h
        (All-ReadsBack (elements v) hs)
