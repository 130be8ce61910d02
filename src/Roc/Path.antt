-- ===== src/Roc/Path.antt =====
-- roc/path.go: the path of a call, `type[id].function…`. A string is the list of its runes.
pub mod RoundTrip
use micserver.Prelude.{
  ℕ, ◌+◌, Bool, true, false, not, ◌&&◌, List, [], ◌∷◌, ◌++◌, ◌==◌, if◌then◌else◌, get_elem?, none,
  some,
}

abbrev pub Runes : Type 0
Runes = List ℕ

pub record RocPath : Type 0 where
  pub strs : List Runes
  pub pos : ℕ
  pub obj_type : Runes
  pub obj_id : Runes

-- O(objType, objID)
unfoldable pub path_of : Runes → Runes → RocPath
path_of t id = record { strs = []; pos = 0; obj_type = t; obj_id = id }

abbrev pub is_empty : Runes → Bool
is_empty [] = true
is_empty (k ∷ ks) = false

-- kstrDecode, the loop over the runes.
unfoldable pub decode_from : Runes → Runes → Bool → Runes → Runes × Runes
decode_from t key inkey [] = (t, key)
decode_from t key inkey (k ∷ ks) =
    let opened = decode_from t key true ks in
    let closed = decode_from t key false ks in
    let in_type = decode_from (t ++ (k ∷ [])) key inkey ks in
    let in_key = decode_from t (key ++ (k ∷ [])) inkey ks in
    if k == b'['
    then opened
    else if k == b']'
    then closed
    else if k == b'.'
    then (t, key)
    else if is_empty key && not inkey
    then in_type
    else if not (is_empty t) && inkey
    then in_key
    else ([], [])

unfoldable pub kstr_decode : Runes → Runes × Runes
kstr_decode kstr = decode_from [] [] false kstr

-- strings.Split(s, "."), behind the part `acc`.
unfoldable pub split_from : Runes → Runes → List Runes
split_from acc [] = acc ∷ []
split_from acc (k ∷ ks) =
    let cut = split_from [] ks in
    let on = split_from (acc ++ (k ∷ [])) ks in if k == b'.' then acc ∷ cut else on

-- NewROCPath
unfoldable pub new_roc_path : Runes → RocPath
new_roc_path s = elim (split_from [] s) [
  | [] ↦ path_of [] []
  | h ∷ strs ↦ record {
    strs = strs;
    pos = 0;
    obj_type = (kstr_decode h).0;
    obj_id = (kstr_decode h).1;
  }
]

-- Get at a position that is not negative, Move, F on a path that is there, and Reset.
unfoldable pub get_at : ℕ → RocPath → Runes
get_at i p = elim (get_elem? p.strs i) [ none ↦ [] | some s ↦ s ]

unfoldable pub move : RocPath → Runes × RocPath
move p = elim (get_elem? p.strs p.pos) [
  | none ↦ ([], p)
  | some s ↦ (s, record p { pos = p.pos + 1 })
]

unfoldable pub add_function : Runes → RocPath → RocPath
add_function name p = record p { strs = p.strs ++ (name ∷ []) }

unfoldable pub reset_pos : RocPath → RocPath
reset_pos p = record p { pos = 0 }

-- String
unfoldable pub dotted : List Runes → Runes
dotted [] = []
dotted (s ∷ strs) = b'.' ∷ (s ++ dotted strs)

unfoldable pub to_string : RocPath → Runes
to_string p = (p.obj_type ++ (b'[' ∷ (p.obj_id ++ (b']' ∷ [])))) ++ dotted p.strs
