-- ===== src/Wire/Nested.antt =====
-- What the readers of maps, of whole messages and of messages inside messages find where an
-- encoding stands.
use micserver.Prelude.{
  ℕ, ◌+◌, ◌-◌, ◌<◌, ◌≤◌, ◌≡◌, refl, ap, ◌∙◌, List, [], ◌∷◌, ◌++◌, append_assoc, append-nil, Option,
  none, some, length, length-append, take-append, drop-append, more, arith, All,
}
use micserver.Dict
use micserver.Wire.Bytes.{Bytes, le_bytes, le_value, length-le_bytes, le_value-le_bytes}
use micserver.Wire.Write.{elements}
use micserver.Wire.Writes.{
  encode_string, encode_count, encode_each, encode_pair, encode_string_map, encode_message,
}
use micserver.Wire.Read.{
  Reader, read_value, read_entry, repeat, StringMap, map_set, read_string_map, ReadResult,
  read_message, read_pointer, read_element, read_pointers,
}
use micserver.Wire.Reads.{
  at, Reads, Reads-seq, Reads-nothing, Reads-count, Reads-unless, Reads-nil, advance, guard_passes,
  take-exact, drop-exact, Fits, FitsSlice, read_binary_string-encode, length-encode_string,
}

abbrev pub FitsPair : Bytes × Bytes → Type 0
FitsPair (k, v) = Fits (length k) × Fits (length v)

Reads-value :
    {O : Type 0} (v : Bytes) (set : O → Bytes → O) (o : O)
    → Fits (length v)
    → Reads (read_value set) (encode_string v) o (set o v)
unfolding read_value
Reads-value v set o h = record {
  run = λ pre suf spare.
      let l = length-encode_string v in
      rw
        (
          guard_passes pre (encode_string v) suf (length pre + 2) (omega arith),
          drop-append,
          read_binary_string-encode v suf spare h,
        )
        (ap more (advance pre (encode_string v) suf spare (set o v) _ (omega arith)));
}

read_entry-encode :
    {O : Type 0} (k v : Bytes) (add : O → Bytes → Bytes → O) (o : O)
    → Fits (length k)
    → Fits (length v)
    → (pre suf : Bytes) (spare : ℕ)
    → read_entry add (at pre (encode_string k ++ (encode_string v ++ suf)) spare o)
      ≡ more (at ((pre ++ encode_string k) ++ encode_string v) suf spare (add o k v))
unfolding read_entry
read_entry-encode k v add o hk hv pre suf spare =
    let l = length-encode_string k in
    rw
      (
        guard_passes pre (encode_string k) (encode_string v ++ suf) (length pre + 0) (omega arith),
        drop-append,
        read_binary_string-encode k (encode_string v ++ suf) spare hk,
      )
      (ap (read_value (λ o v. add o k v)) (
          advance pre (encode_string k) (encode_string v ++ suf) spare o (length pre + length k + 4)
            (omega arith))
        ∙ (Reads-value v (λ o v. add o k v) o hv).run (pre ++ encode_string k) suf spare)

-- One entry of a map.
Reads-entry :
    {O : Type 0} (k v : Bytes) (add : O → Bytes → Bytes → O) (o : O)
    → Fits (length k)
    → Fits (length v)
    → Reads (read_entry add) (encode_pair (k, v)) o (add o k v)
unfolding encode_pair
Reads-entry k v add o hk hv = record {
  run = λ pre suf spare. rw (append_assoc (encode_string k) (encode_string v) suf) (
      read_entry-encode k v add o hk hv pre suf spare
      ∙ rw (append_assoc pre (encode_string k) (encode_string v)));
}

module _ {O : Type 0} (get : O → StringMap) (set : O → StringMap → O) where
  -- A lens law for the field.
  abbrev pub IsField : Type 0
  IsField = (o : O) (m n : StringMap) → (get (set o m) ≡ m) × (set (set o m) n ≡ set o n)

  Reads-entries :
      IsField
      → (m acc : List (Bytes × Bytes)) (o : O) → All FitsPair m
      → Reads
          (repeat (length m) (read_entry (λ o k v. set o (map_set (get o) k v))))
          (encode_each encode_pair m)
          (set o (some acc))
          (set o (some (Dict.inserts acc m)))
  unfolding repeat encode_each Dict.inserts
  Reads-entries law [] acc o h = Reads-nothing _
  Reads-entries law ((k, v) ∷ m) acc o (h, hs) =
      Reads-seq
        (rw ((law o (some acc) none).0, (law o (some acc) (some (Dict.insert k v acc))).1) at
          (Reads-entry k v (λ o k v. set o (map_set (get o) k v)) (set o (some acc)) h.0 h.1))
        (Reads-entries law m (Dict.insert k v acc) o hs)

  -- A map that was nil; its keys differ from one another.
  pub Reads-string_map :
      IsField
      → (m : StringMap) (o : O) → set o none ≡ o
      → FitsSlice m
      → All FitsPair (elements m)
      → Dict.IsMap (elements m)
      → Reads (read_string_map get set) (encode_string_map m) o (set o m)
  unfolding read_string_map encode_string_map encode_count encode_each
  Reads-string_map law none o same h hs im =
      rw same (Reads-count 0xffffffff _ [] o o (omega arith) (Reads-nil _ o))
  Reads-string_map law (some m) o same h hs im =
      let bs = encode_each encode_pair m in
      Reads-count (length m) _ bs o (set o (some m)) (omega arith) (
        Reads-unless (length m) _ bs o _ h (record {
          run = λ pre suf spare.
              (Reads-entries law m [] o hs).run pre suf spare ∙ rw (Dict.inserts-append [] m im);
        }))

-- A whole message read back, with whatever follows it.
pub record ReadsBack {P : Type 0} (read : Bytes → ℕ → Option P → ReadResult P)
    (encode : Option P → Bytes) (p : Option P) : Type 0 where
  pub run :
      (suf : Bytes) (spare : ℕ) → read (encode p ++ suf) spare none ≡ some (length (encode p), p)

pub length-encode_message {ℓ} :
    {A : Type ℓ} (e : A → Bytes) (p : Option A) → 4 ≤ length (encode_message e p)
unfolding encode_message
length-encode_message e none = omega (arith, length-le_bytes 4 0)
length-encode_message e (some o) =
    omega (arith, length-append (le_bytes 4 (length (e o))) (e o), length-le_bytes 4 (length (e o)))

module _ {O : Type 0} (fresh : O) (body : Reader O) (e : O → Bytes) where
  pub ReadsBack-nil : ReadsBack (read_message fresh body) (encode_message e) none
  unfolding read_message encode_message le_bytes le_value
  ReadsBack-nil = record { run = λ suf spare. ground arith }

  body_run :
      (o : O)
      → Reads body (e o) fresh o
      → (spare : ℕ)
      → body (record { bytes = e o; spare = spare; obj = fresh; offset = 0 })
        ≡ more (record { bytes = e o; spare = spare; obj = o; offset = length (e o) })
  body_run o hb spare = rw (append-nil) at (hb.run [] [] spare)

  pub ReadsBack-some :
      (o : O)
      → 0 < length (e o)
      → Fits (length (e o))
      → Reads body (e o) fresh o
      → ReadsBack (read_message fresh body) (encode_message e) (some o)
  unfolding read_message encode_message
  ReadsBack-some o pos h hb = record {
    run = λ suf spare.
        let l = length-le_bytes 4 (length (e o)) in
        rw
          (
            append_assoc (le_bytes 4 (length (e o))) (e o) suf,
            take-exact 4 (le_bytes 4 (length (e o))) (e o ++ suf) l,
            drop-exact 4 (le_bytes 4 (length (e o))) (e o ++ suf) l,
            le_value-le_bytes 4 (length (e o)) (omega arith),
            take-append (e o) suf,
          )
          (ground (
            arith,
            length-append (le_bytes 4 (length (e o))) (e o ++ suf),
            length-append (le_bytes 4 (length (e o))) (e o),
            length-append (e o) suf,
            l,
            body_run o hb
                (spare + (length (le_bytes 4 (length (e o)) ++ (e o ++ suf)) - (4 + length (e o)))),
          ));
  }

module _ {O P : Type 0} (read : Bytes → ℕ → Option P → ReadResult P)
    (encode : Option P → Bytes) where
  -- A message behind a pointer that was nil.
  pub Reads-pointer :
      (size : Option P → ℕ) (p : Option P) (get : O → Option P) (set : O → Option P → O) (o : O)
      → size (get o) ≤ length (encode p)
      → ReadsBack read encode p
      → Reads (read_pointer size read get set) (encode p) o (set o p)
  unfolding read_pointer
  Reads-pointer size p get set o h hp = record {
    run = λ pre suf spare.
        rw
          (
            guard_passes pre (encode p) suf (length pre + size (get o)) (omega arith),
            drop-append,
            hp.run suf spare,
          )
          (ap more (advance pre (encode p) suf spare (set o p) _ refl));
  }

  Reads-element :
      (p : Option P) (add : O → Option P → O) (o : O)
      → ReadsBack read encode p
      → Reads (read_element read add) (encode p) o (add o p)
  unfolding read_element
  Reads-element p add o hp = record {
    run = λ pre suf spare.
        rw
          (
            guard_passes pre (encode p) suf (length pre) (omega arith),
            drop-append,
            hp.run suf spare,
          )
          (ap more (advance pre (encode p) suf spare (add o p) _ refl));
  }

module _ {O P : Type 0} (read : Bytes → ℕ → Option P → ReadResult P) (encode : Option P → Bytes)
    (get : O → Option (List (Option P))) (set : O → Option (List (Option P)) → O) where
  abbrev pub IsListField : Type 0
  IsListField =
      (o : O) (m n : Option (List (Option P))) → (get (set o m) ≡ m) × (set (set o m) n ≡ set o n)

  Reads-elements :
      IsListField
      → (ps acc : List (Option P)) (o : O) → All (ReadsBack read encode) ps
      → Reads
          (repeat
            (length ps)
            (read_element read (λ o p. set o (some (elements (get o) ++ (p ∷ []))))))
          (encode_each encode ps)
          (set o (some acc))
          (set o (some (acc ++ ps)))
  unfolding repeat encode_each
  Reads-elements law [] acc o h = rw append-nil (Reads-nothing _)
  Reads-elements law (p ∷ ps) acc o (h, hs) =
      let acc' : List (Option P) = acc ++ (p ∷ []) in
      rw (← append_assoc acc (p ∷ []) ps) (
        Reads-seq
          (rw ((law o (some acc) none).0, (law o (some acc) (some acc')).1) at
            (Reads-element read encode p (λ o p. set o (some (elements (get o) ++ (p ∷ []))))
              (set o (some acc)) h))
          (Reads-elements law ps acc' o hs))

  -- A slice of pointers that was nil.
  pub Reads-pointers :
      IsListField
      → (v : Option (List (Option P))) (o : O) → set o none ≡ o
      → FitsSlice v
      → All (ReadsBack read encode) (elements v)
      → Reads
          (read_pointers read get set)
          (encode_count v ++ encode_each encode (elements v))
          o
          (set o v)
  unfolding read_pointers encode_count encode_each
  Reads-pointers law none o same h hs =
      rw same (Reads-count 0xffffffff _ [] o o (omega arith) (Reads-nil _ o))
  Reads-pointers law (some ps) o same h hs =
      let bs = encode_each encode ps in
      Reads-count (length ps) _ bs o (set o (some ps)) (omega arith) (
        Reads-unless (length ps) _ bs o _ h
          (record { run = λ pre suf spare. (Reads-elements law ps [] o hs).run pre suf spare }))
