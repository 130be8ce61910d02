-- ===== src/Session/Contents.antt =====
-- What a session answers for a key after each change of its contents.
use micserver.Prelude.{
  ◌≡◌, refl, Bool, true, false, Option, none, some, [], ◌∷◌, if◌then◌else◌, arith, Option-cases,
  Bool-cases, inl, inr, sym,
}
use micserver.Dict.{
  ◌=ₛ◌, =ₛ_iff, lookup, insert, lookup-insert, inserts, Fresh, IsMap, inserts-append,
}
use micserver.Wire.Bytes.{Bytes}
use micserver.Session.{Contents, has_key, only_add_key_from_session, to_map}

abbrev pub or_else : Option Bytes → Option Bytes → Option Bytes
or_else none o = o
or_else (some v) o = some v

pub or_else-none : (o : Option Bytes) → or_else o none ≡ o
or_else-none none = refl
or_else-none (some v) = refl

or_else-if :
    (o : Option Bytes) (b : Bool) (v : Bytes) (p : Option Bytes)
    → or_else (or_else o (if b then some v else none)) p ≡ or_else o (if b then some v else p)
or_else-if none true v p = refl
or_else-if none false v p = refl
or_else-if (some w) b v p = refl

-- A key that an entry adds or keeps.
lookup-add :
    (j k : Bytes) (v : Bytes) (m : Contents)
    → lookup k (if has_key j m then m else insert j v m)
      ≡ or_else (lookup k m) (if j =ₛ k then some v else none)
unfolding has_key
lookup-add j k v m = elim (Option-cases (lookup j m)) [
  | inl e ↦ elim (Bool-cases (j =ₛ k)) [
    | inl same ↦
        let jk : j ≡ k = (=ₛ_iff j k).0 same in
        rw (has_key, e, lookup-insert j k v m, same, sym jk, e) refl
    | inr other ↦ rw (has_key, e, lookup-insert j k v m, other) (sym (or_else-none (lookup k m)))
  ]
  | inr (w, e) ↦ elim (Bool-cases (j =ₛ k)) [
    | inl same ↦ let jk : j ≡ k = (=ₛ_iff j k).0 same in rw (has_key, e, same, sym jk, e) refl
    | inr other ↦ rw (has_key, e, other) (sym (or_else-none (lookup k m)))
  ]
]

pub lookup-only_add :
    (k : Bytes) (m dir : Contents)
    → lookup k (only_add_key_from_session m dir) ≡ or_else (lookup k m) (lookup k dir)
unfolding only_add_key_from_session lookup
lookup-only_add k m [] = sym (or_else-none (lookup k m))
lookup-only_add k m ((j, v) ∷ dir) =
    rw (lookup-only_add k (if has_key j m then m else insert j v m) dir, lookup-add j k v m)
      (or_else-if (lookup k m) (j =ₛ k) v (lookup k dir))

pub lookup-Fresh : (k : Bytes) (m : Contents) → Fresh k m → lookup k m ≡ none
unfolding lookup
lookup-Fresh k [] f = refl
lookup-Fresh k ((j, w) ∷ m) (ne, f) = ground (arith, =ₛ_iff j k, lookup-Fresh k m f)

-- FromMap of a map, which has each key once: its values come first.
pub lookup-inserts :
    (k : Bytes) (m data' : Contents)
    → IsMap data'
    → lookup k (inserts m data') ≡ or_else (lookup k data') (lookup k m)
unfolding inserts lookup
lookup-inserts k m [] h = refl
lookup-inserts k m ((j, v) ∷ data') (f, h) =
    rw (lookup-inserts k (insert j v m) data' h, lookup-insert j k v m)
      (elim (Bool-cases (j =ₛ k)) [
        | inl same ↦
            let jk : j ≡ k = (=ₛ_iff j k).0 same in rw (same, sym jk, lookup-Fresh j data' f) refl
        | inr other ↦ rw (other) refl
      ])

-- ToMap of a session with each key once.
pub to_map_lem : (m : Contents) → IsMap m → to_map m ≡ m
unfolding to_map
to_map_lem m h = inserts-append [] m h
