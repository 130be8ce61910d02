-- ===== src/Wire/Bind/Written.antt =====
-- What the writer of an SROCBind leaves in the buffer.
use micserver.Prelude.{
  ◌+◌, ◌-◌, ◌≤◌, ◌≡◌, refl, ◌∙◌, List, [], ◌∷◌, ◌++◌, some, length, length-append, length-drop,
  drop, Flow, more, ◌>>◌, le→leb, arith,
}
use micserver.Wire.Bytes.{Bytes, le_bytes, length-le_bytes}
use micserver.Wire.Write.{
  Writer, Cursor, elements, write_u32, write_u8, bool_to_int, poke, write_binary_string, write_bool,
  write_count, write_each, write_message,
}
use micserver.Wire.Writes.{
  Writes, Writes-seq, Writes-string, Writes-put, Writes-count, encode_string, encode_count,
}
use micserver.Wire.Reads.{length-encode_string}
use micserver.Wire.Sizes.{sum_sizes, length-encode_count}
use micserver.Wire.Bind.{
  SRocBind, write_in_place, size_s_roc_bind, write_s_roc_bind_body, write_s_roc_bind,
}

-- The identifier that is left, of one or more.
unfoldable pub last_id : Bytes → List Bytes → Bytes
last_id x [] = x
last_id x (y ∷ ys) = last_id y ys

-- One identifier over the bytes at the offset.
abbrev pub over : Bytes → Bytes → Bytes
over s room = encode_string s ++ drop (length (encode_string s)) room

unfoldable pub over_all : List Bytes → Bytes → Bytes
over_all [] room = room
over_all (x ∷ xs) room = over_all xs (over x room)

length-over : (s room : Bytes) → length s + 4 ≤ length room → length (over s room) ≡ length room
length-over s room h = omega (
  arith,
  length-append (encode_string s) (drop (length (encode_string s)) room),
  length-drop (length (encode_string s)) room,
  length-encode_string s,
)

pub length-over_all :
    (xs : List Bytes) (room : Bytes)
    → sum_sizes (λ id. length id + 4) xs ≤ length room
    → length (over_all xs room) ≡ length room
unfolding over_all sum_sizes
length-over_all [] room h = refl
length-over_all (x ∷ xs) room h =
    let l = length-over x room (omega arith) in length-over_all xs (over x room) (omega arith) ∙ l

-- All are written at the same place.
write_ids :
    (xs : List Bytes) (done room : Bytes)
    → sum_sizes (λ id. length id + 4) xs ≤ length room
    → write_each write_in_place xs (record { written = done; room = room })
      ≡ more (record { written = done; room = over_all xs room })
unfolding write_each write_in_place poke over_all sum_sizes encode_string
write_ids [] done room h = refl
write_ids (x ∷ xs) done room h =
    let l = length-encode_string x in
    rw (le→leb (length (le_bytes 4 (length x) ++ x)) (length room) (omega arith), ◌>>◌)
      (write_ids xs done _ (omega (arith, length-over x room (omega arith))))

-- So the last one is what stands there in the end.
pub over_all-last :
    (x : Bytes) (xs : List Bytes) (room : Bytes)
    → (rest : Bytes) × (over_all (x ∷ xs) room ≡ encode_string (last_id x xs) ++ rest)
unfolding over_all last_id
over_all-last x [] room = (drop (length (encode_string x)) room, refl)
over_all-last x (y ∷ ys) room = over_all-last y ys (over x room)

-- A writer behind another that is known.
Writes-then :
    {v : Writer} {bs : Bytes} (w : Writer) (done room : Bytes) {x : Flow Cursor}
    → Writes v bs
    → length bs ≤ length room
    → w (record { written = done ++ bs; room = drop (length bs) room }) ≡ x
    → (v >> w) (record { written = done; room = room }) ≡ x
Writes-then w done room hv h hw = rw (hv.run done room h, ◌>>◌) hw

unfoldable pub header : SRocBind → Bytes
header o =
    encode_string o.host_module_id
    ++ (le_bytes 1 (bool_to_int o.is_delete)
        ++ (encode_string o.obj_type ++ encode_count o.obj_ids))

pub length-header :
    (o : SRocBind)
    → 4 + length (header o) + sum_sizes (λ id. length id + 4) (elements o.obj_ids)
      ≡ size_s_roc_bind (some o)
unfolding header size_s_roc_bind
length-header o =
    simp (length-append, length-encode_string, length-le_bytes, length-encode_count) (omega arith)

Writes-header :
    (o : SRocBind)
    → Writes
        (write_binary_string o.host_module_id
          >> (write_bool o.is_delete >> (write_binary_string o.obj_type >> write_count o.obj_ids)))
        (header o)
unfolding header write_bool write_u8
Writes-header o =
    Writes-seq (Writes-string _)
      (Writes-seq (Writes-put _) (Writes-seq (Writes-string _) (Writes-count _)))

>>-assoc :
    (a b c d e : Writer) (s : Cursor)
    → (a >> (b >> (c >> (d >> e)))) s ≡ ((a >> (b >> (c >> d))) >> e) s
>>-assoc a b c d e s = ground arith

-- The buffer that the writer leaves: the frame, the fields, and the identifiers one over the other.
pub write_s_roc_bind_lem :
    (o : SRocBind) (buf : Bytes)
    → length buf ≡ size_s_roc_bind (some o)
    → write_s_roc_bind (some o) (record { written = []; room = buf })
      ≡ more (record {
        written = le_bytes 4 (size_s_roc_bind (some o) - 4) ++ header o;
        room = over_all (elements o.obj_ids) (
            drop
              (length (header o))
              (drop (length (le_bytes 4 (size_s_roc_bind (some o) - 4))) buf));
      })
unfolding write_s_roc_bind write_message write_s_roc_bind_body write_u32
write_s_roc_bind_lem o buf h =
    let l = length-header o in
    let frame = le_bytes 4 (size_s_roc_bind (some o) - 4) in
    let lf = length-le_bytes 4 (size_s_roc_bind (some o) - 4) in
    let ld = length-drop (length frame) buf in
    let place : Cursor = record { written = frame; room = drop (length frame) buf } in
    Writes-then (write_s_roc_bind_body o) [] buf (Writes-put frame) (omega arith) (
      >>-assoc (write_binary_string o.host_module_id) (write_bool o.is_delete)
        (write_binary_string o.obj_type) (write_count o.obj_ids)
        (write_each write_in_place (elements o.obj_ids)) place
      ∙ Writes-then (write_each write_in_place (elements o.obj_ids)) frame (drop (length frame) buf)
          (Writes-header o) (omega arith)
          (write_ids (elements o.obj_ids) (frame ++ header o) _
            (omega (arith, length-drop (length (header o)) (drop (length frame) buf)))))
