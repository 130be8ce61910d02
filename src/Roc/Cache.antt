-- ===== src/Roc/Cache.antt =====
-- roc/cache.go: which module each known object is on. A nil map is an empty one here, which reads
-- the same, and the code makes the map before it writes. Every method holds the mutex from its
-- start to its end, RangeByType until it has copied the entries.
pub mod Views
pub mod Refinement
use micserver.Prelude.{
  ℕ, Bool, true, false, Option, none, some, List, [], ◌∷◌, length, get_elem?, if◌then◌else◌, map,
}
use micserver.Dict.{lookup, insert, erase, ◌=ₛ◌}
use micserver.Wire.Bytes.{Bytes}

-- catchServerInfo; the program shares one behind pointers and never changes it.
pub record CatchServerInfo : Type 0 where
  pub module_id : Bytes

abbrev pub ObjIdToServerMap : Type 0
ObjIdToServerMap = List (Bytes × CatchServerInfo)

pub record Cache : Type 0 where
  pub catch_server : List (Bytes × CatchServerInfo)
  pub catch_type : List (Bytes × ObjIdToServerMap)

-- A method that also answers something: the answer, and the cache afterwards.
abbrev pub Method : Type 0 → Type 0
Method R = Cache → R × Cache

unfoldable pub catch_get_type_must : Bytes → Method ObjIdToServerMap
catch_get_type_must t c = elim (lookup t c.catch_type) [
  | none ↦ ([], record c { catch_type = insert t [] c.catch_type })
  | some m ↦ (m, c)
]

unfoldable pub catch_get_server_must : Bytes → Method CatchServerInfo
catch_get_server_must module_id c = elim (lookup module_id c.catch_server) [
  | none ↦
      let v : CatchServerInfo = record { module_id = module_id } in
      (v, record c { catch_server = insert module_id v c.catch_server })
  | some v ↦ (v, c)
]

-- The map of a type is shared with the cache, so a change of it is a change of the cache.
unfoldable pub store : Bytes → ObjIdToServerMap → Cache → Cache
store t m c = record c { catch_type = insert t m c.catch_type }

-- Set
unfoldable pub set : Bytes → Bytes → Bytes → Cache → Cache
set t id module_id c =
    let (m, c₁) = catch_get_type_must t c in
    let (server, c₂) = catch_get_server_must module_id c₁ in store t (insert id server m) c₂

-- SetM, whose loop is over the ids.
unfoldable pub insert_each : List Bytes → CatchServerInfo → ObjIdToServerMap → ObjIdToServerMap
insert_each [] server m = m
insert_each (id ∷ ids) server m = insert_each ids server (insert id server m)

unfoldable pub set_m : Bytes → List Bytes → Bytes → Cache → Cache
set_m t ids module_id c =
    let (m, c₁) = catch_get_type_must t c in
    let (server, c₂) = catch_get_server_must module_id c₁ in store t (insert_each ids server m) c₂

-- Del: an entry goes only if it is on that module.
unfoldable pub delete_if_on : Bytes → Bytes → ObjIdToServerMap → ObjIdToServerMap
delete_if_on module_id id m = elim (lookup id m) [
  | none ↦ m
  | some info ↦ if info.module_id =ₛ module_id then erase id m else m
]

unfoldable pub del : Bytes → Bytes → Bytes → Cache → Cache
del t id module_id c =
    let (m, c₁) = catch_get_type_must t c in store t (delete_if_on module_id id m) c₁

-- DelM
unfoldable pub delete_each : Bytes → List Bytes → ObjIdToServerMap → ObjIdToServerMap
delete_each module_id [] m = m
delete_each module_id (id ∷ ids) m = delete_each module_id ids (delete_if_on module_id id m)

unfoldable pub del_m : Bytes → List Bytes → Bytes → Cache → Cache
del_m t ids module_id c =
    let (m, c₁) = catch_get_type_must t c in store t (delete_each module_id ids m) c₁

-- Get
unfoldable pub module_of : Option CatchServerInfo → Bytes
module_of none = []
module_of (some v) = v.module_id

unfoldable pub get : Bytes → Bytes → Method Bytes
get t id c = let (m, c₁) = catch_get_type_must t c in (module_of (lookup id m), c₁)

-- limitModuleIDs: nil, or the modules that count.
abbrev pub Limit : Type 0
Limit = Option (List (Bytes × Bool))

unfoldable pub is_allowed : Limit → Bytes → Bool
is_allowed none module_id = true
is_allowed (some d) module_id = elim (lookup module_id d) [ none ↦ false | some v ↦ v ]

-- The entries that count, in the order in which the range statement visits the map.
unfoldable pub select : Limit → ObjIdToServerMap → ObjIdToServerMap
select limit [] = []
select limit ((id, v) ∷ m) =
    let rest = select limit m in if is_allowed limit v.module_id then (id, v) ∷ rest else rest

-- RangeByType: f may change a state of its own, and says whether to go on.
unfoldable pub visit_each {ℓ} :
    {S : Type ℓ} → (Bytes → Bytes → S → Bool × S) → ObjIdToServerMap → S → S
visit_each f [] s = s
visit_each f ((id, v) ∷ m) s =
    let r = f id v.module_id s in let rest = visit_each f m r.1 in if r.0 then rest else r.1

unfoldable pub range_by_type {ℓ} :
    {S : Type ℓ} → Bytes → (Bytes → Bytes → S → Bool × S) → Limit → Cache → S → S × Cache
range_by_type t f limit c s =
    let (m, c₁) = catch_get_type_must t c in (visit_each f (select limit m) s, c₁)

-- RandomObjIDByType, where `intn` is rand.Intn.
unfoldable pub choose : (ℕ → ℕ) → List Bytes → Bytes
choose intn [] = []
choose intn (id ∷ ids) = elim (get_elem? (id ∷ ids) (intn (length (id ∷ ids)))) [
  | none ↦ []
  | some r ↦ r
]

unfoldable pub random_obj_id_by_type : (ℕ → ℕ) → Bytes → Limit → Method Bytes
random_obj_id_by_type intn t limit c =
    let (m, c₁) = catch_get_type_must t c in (choose intn (map (λ p. p.0) (select limit m)), c₁)
