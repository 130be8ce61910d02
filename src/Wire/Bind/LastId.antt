-- ===== src/Wire/Bind/LastId.antt =====
-- What an SROCBind becomes on its way.
use micserver.Prelude.{
  ℕ, zero, suc, ◌+◌, ◌*◌, ◌-◌, ◌^◌, ◌<◌, ◌≤◌, ◌≡◌, refl, ◌∙◌, ap, Bool, List, [], ◌∷◌, ◌++◌,
  append_assoc, append-nil, none, some, length, length-append, length-drop, drop, drop-append,
  take-length, replicate, Flow, more, ◌>>◌, arith,
}
use micserver.Wire.Bytes.{Bytes, le_bytes, length-le_bytes, le_value-le_bytes}
use micserver.Wire.Write.{elements, bool_to_int}
use micserver.Wire.Writes.{encode_string, encode_count}
use micserver.Wire.Read.{Reading, Reader, read_count, unless_nil, repeat, read_message}
use micserver.Wire.Reads.{
  at, Reads, Reads-string, Reads-bool, length-encode_string, read_binary_string-encode, Fits,
  take-exact, drop-exact, advance, guard_passes,
}
use micserver.Wire.Sizes.{sum_sizes, length-le-sum_sizes}
use micserver.Wire.Run.{run_writer}
use micserver.Wire.Bind.{
  SRocBind, new_s_roc_bind, with_ids, size_s_roc_bind, write_s_roc_bind, read_in_place, read_ids,
  read_s_roc_bind_body, read_s_roc_bind,
}
use micserver.Wire.Bind.Written.{
  last_id, header, length-header, over_all, over_all-last, length-over_all, write_s_roc_bind_lem,
}

-- The reader behind one that is known.
Reads-then :
    {O : Type 0} {f : Reader O} {bs : Bytes} {o o' : O} (g : Reader O) (pre suf : Bytes) (spare : ℕ)
    {x : Flow (Reading O)}
    → Reads f bs o o'
    → g (at (pre ++ bs) suf spare o') ≡ x
    → (f >> g) (at pre (bs ++ suf) spare o) ≡ x
Reads-then g pre suf spare hf hg = rw (hf.run pre suf spare, ◌>>◌) hg

count_then :
    {O : Type 0} (n : ℕ) (next : ℕ → Reader O) (pre suf : Bytes) (spare : ℕ) (o : O)
    {x : Flow (Reading O)}
    → n < 2 ^ 32
    → next n (at (pre ++ le_bytes 4 n) suf spare o) ≡ x
    → read_count next (at pre (le_bytes 4 n ++ suf) spare o) ≡ x
unfolding read_count
count_then n next pre suf spare o h e =
    let l = length-le_bytes 4 n in
    rw
      (
        guard_passes pre (le_bytes 4 n) suf (length pre + 4) (omega arith),
        drop-append,
        take-exact 4 (le_bytes 4 n) suf l,
        le_value-le_bytes 4 n (omega arith),
      )
      (ap (next n) (advance pre (le_bytes 4 n) suf spare o _ (omega arith)) ∙ e)

-- One identifier is read again and again.
repeat_in_place :
    (n : ℕ) (s pre rest : Bytes) (spare : ℕ) (o : SRocBind) (acc : List Bytes)
    → Fits (length s)
    → repeat n read_in_place (at pre (encode_string s ++ rest) spare (with_ids o acc))
      ≡ more (at pre (encode_string s ++ rest) spare (with_ids o (acc ++ replicate n s)))
unfolding repeat read_in_place
repeat_in_place zero s pre rest spare o acc h = rw append-nil
repeat_in_place (suc n) s pre rest spare o acc h =
    let one : List Bytes = s ∷ [] in
    rw
      (
        guard_passes pre (encode_string s) rest (length pre) (omega arith),
        drop-append,
        read_binary_string-encode s rest spare h,
        ◌>>◌,
      )
      (repeat_in_place n s pre rest spare o (acc ++ one) h
        ∙ rw (append_assoc acc one (replicate n s)))

unless_present :
    {O : Type 0} (n : ℕ) (read : Reader O) (r : Reading O)
    → n < 0xffffffff
    → unless_nil n read r ≡ read r
unfolding unless_nil
unless_present n read r h = ground arith

read_ids-last :
    (n : ℕ) (s pre rest : Bytes) (spare : ℕ) (o : SRocBind)
    → Fits (length s)
    → read_ids n (at pre (encode_string s ++ rest) spare o)
      ≡ more (at pre (encode_string s ++ rest) spare (with_ids o (replicate n s)))
unfolding read_ids
read_ids-last n s pre rest spare o h =
    rw (guard_passes pre (encode_string s) rest (length pre + n * 0) (omega arith))
      (repeat_in_place n s pre rest spare o [] h)

-- What follows the other fields, whatever bytes the identifiers left behind the last.
read_tail :
    (o : SRocBind) (n : ℕ) (s pre rest : Bytes) (spare : ℕ)
    → n < 0xffffffff
    → Fits (length s)
    → read_count
        (λ n. unless_nil n (read_ids n))
        (at pre (le_bytes 4 n ++ (encode_string s ++ rest)) spare o)
      ≡ more (at (pre ++ le_bytes 4 n) (encode_string s ++ rest) spare (with_ids o (replicate n s)))
read_tail o n s pre rest spare hn hs =
    count_then n (λ n. unless_nil n (read_ids n)) pre _ spare o (omega arith)
      (unless_present n (read_ids n) _ hn ∙ read_ids-last n s (pre ++ le_bytes 4 n) rest spare o hs)

read_fields :
    (host type : Bytes) (del : Bool) (n : ℕ) (s rest : Bytes) (spare : ℕ)
    → Fits (length host)
    → Fits (length type)
    → n < 0xffffffff
    → Fits (length s)
    → (r : Reading SRocBind) × (read_s_roc_bind_body (
          at []
            (encode_string host
              ++ (le_bytes 1 (bool_to_int del)
                  ++ (encode_string type ++ (le_bytes 4 n ++ (encode_string s ++ rest)))))
            spare
            new_s_roc_bind)
        ≡ more r)
      × (r.obj ≡ record {
        host_module_id = host;
        is_delete = del;
        obj_type = type;
        obj_ids = some (replicate n s);
      })
unfolding read_s_roc_bind_body
read_fields host type del n s rest spare hh ht hn hs = (
  at (((encode_string host ++ le_bytes 1 (bool_to_int del)) ++ encode_string type) ++ le_bytes 4 n)
      (encode_string s ++ rest) spare
      (record {
        host_module_id = host;
        is_delete = del;
        obj_type = type;
        obj_ids = some (replicate n s);
      }),
  Reads-then _ [] _ spare (Reads-string host _ _ _ refl hh) (
      Reads-then _ (encode_string host) _ spare (Reads-bool del _ _) (
        Reads-then _ (encode_string host ++ le_bytes 1 (bool_to_int del)) _ spare
          (Reads-string type _ _ _ refl ht) (read_tail _ n s _ rest spare hn hs))),
  refl,
)

last_id-le :
    (x : Bytes) (xs : List Bytes)
    → length (last_id x xs) + 4 ≤ sum_sizes (λ id. length id + 4) (x ∷ xs)
unfolding last_id sum_sizes
last_id-le x [] = omega arith
last_id-le x (y ∷ ys) = omega (arith, last_id-le y ys)

-- A frame that holds nothing but its content.
read_content :
    {O : Type 0} (fresh : O) (body : Reader O) (content : Bytes) (spare : ℕ) (o : O)
    → 0 < length content
    → Fits (length content)
    → ((sp : ℕ) → (r : Reading O) × (body (at [] content sp fresh) ≡ more r) × (r.obj ≡ o))
    → read_message fresh body (le_bytes 4 (length content) ++ content) spare none
      ≡ some (4 + length content, some o)
unfolding read_message
read_content fresh body content spare o pos h hb =
    let l = length-le_bytes 4 (length content) in
    let (r, e, f) =
      hb (spare + (length (le_bytes 4 (length content) ++ content) - (4 + length content))) in
    rw
      (
        take-exact 4 (le_bytes 4 (length content)) content l,
        drop-exact 4 (le_bytes 4 (length content)) content l,
        le_value-le_bytes 4 (length content) (omega arith),
        take-length content,
      )
      (ground (arith, length-append (le_bytes 4 (length content)) content, l, e, f))

module _ (o : SRocBind) (x : Bytes) (xs : List Bytes) (ids : o.obj_ids ≡ some (x ∷ xs)) where
  abbrev arrived : SRocBind
  arrived = with_ids o (replicate (suc (length xs)) (last_id x xs))

  content_read :
      (rest : Bytes) (spare : ℕ)
      → size_s_roc_bind (some o) < 2 ^ 32
      → (r : Reading SRocBind) × (read_s_roc_bind_body
            (at [] (header o ++ (encode_string (last_id x xs) ++ rest)) spare new_s_roc_bind)
          ≡ more r)
        × (r.obj ≡ arrived)
  unfolding header size_s_roc_bind encode_count
  content_read rest spare h =
      let small = last_id-le x xs in
      let few = length-le-sum_sizes (λ id. length id + 4) (λ id. omega arith) (x ∷ xs) in
      let size : size_s_roc_bind (some o)
          ≡ 4
            + 4
            + length o.host_module_id
            + 1
            + 4
            + length o.obj_type
            + 4
            + sum_sizes (λ id. length id + 4) (x ∷ xs) =
        rw ids in
      rw (ids, append_assoc, append_assoc, append_assoc)
        (read_fields o.host_module_id o.obj_type o.is_delete (suc (length xs)) (last_id x xs) rest
          spare (omega arith) (omega arith) (omega arith) (omega arith))

  whole_read :
      (rest : Bytes) (spare size : ℕ)
      → size_s_roc_bind (some o) < 2 ^ 32
      → size ≡ 4 + length (header o ++ (encode_string (last_id x xs) ++ rest))
      → size ≡ size_s_roc_bind (some o)
      → read_s_roc_bind
          (le_bytes 4 (size - 4) ++ (header o ++ (encode_string (last_id x xs) ++ rest)))
          spare
          none
        ≡ some (size, some arrived)
  unfolding read_s_roc_bind
  whole_read rest spare size h e es =
      let content = header o ++ (encode_string (last_id x xs) ++ rest) in
      let n : size - 4 ≡ length content = omega arith in
      let lh = length-append (header o) (encode_string (last_id x xs) ++ rest) in
      let lhead = length-header o in
      rw n (
        read_content new_s_roc_bind read_s_roc_bind_body content spare arrived
          (omega (
            arith,
            length-append (encode_string (last_id x xs)) rest,
            length-encode_string (last_id x xs),
          ))
          (omega arith) (λ sp. content_read rest sp h)
        ∙ rw e)

  -- A message with a list of ids that is not empty, of a size that four bytes hold, is written
  -- into a buffer of the size that GetSize gives without a panic; the reader, on that buffer, ends
  -- at its end, with every other field as it was; but each of the ids has become the last one.
  pub s_roc_bind_arrives_as_last_id :
      (buf : Bytes) (spare : ℕ)
      → size_s_roc_bind (some o) < 2 ^ 32
      → length buf ≡ size_s_roc_bind (some o)
      → (bs : Bytes) × (n : ℕ) × (run_writer (write_s_roc_bind (some o)) buf ≡ some (bs, n))
        × (read_s_roc_bind bs spare none ≡ some (size_s_roc_bind (some o), some arrived))
        × (length bs ≡ size_s_roc_bind (some o))
  unfolding run_writer read_s_roc_bind
  s_roc_bind_arrives_as_last_id buf spare h hb =
      let size = size_s_roc_bind (some o) in
      let frame = le_bytes 4 (size - 4) in
      let room = drop (length (header o)) (drop (length frame) buf) in
      let ids_room = over_all (elements o.obj_ids) room in
      let (rest, last) = over_all-last x xs room in
      let lh = length-header o in
      let lr : length ids_room ≡ sum_sizes (λ id. length id + 4) (elements o.obj_ids) = omega (
        arith,
        length-over_all (elements o.obj_ids) room,
        length-drop (length (header o)) (drop (length frame) buf),
        length-drop (length frame) buf,
        length-le_bytes 4 (size - 4),
      ) in
      let lc = length-append (header o) ids_room in
      let shape : ids_room ≡ encode_string (last_id x xs) ++ rest =
        ap (λ l. over_all (elements l) room) ids ∙ last in
      (
        (frame ++ header o) ++ ids_room,
        length (frame ++ header o),
        rw (write_s_roc_bind_lem o buf hb),
        rw (append_assoc frame (header o) ids_room, shape)
            (whole_read rest spare size h
              (omega (
                arith,
                lc,
                lr,
                lh,
                ap length shape,
                length-append (header o) (encode_string (last_id x xs) ++ rest),
              ))
              refl),
        simp (length-append) (omega (arith, lr, lh, length-le_bytes 4 (size - 4))),
      )
