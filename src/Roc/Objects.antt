-- ===== src/Roc/Objects.antt =====
-- roc/roc.go and roc/manager.go: the objects of a module, by type and id, and the events about them.
-- `hash` is GetStringHash of util/hash. An object is what the code asks of it: its type and id, and
-- `tag`, which tells objects of one id apart. No nil object is registered.
pub mod Recorded
mod Tests
use micserver.Prelude.{ℕ, Bool, Option, none, some, List, [], ◌∷◌, if◌then◌else◌}
use micserver.Dict.{lookup, insert}
use micserver.Wire.Bytes.{Bytes}
use micserver.Roc.Pool.{MapPool, new_map_pool, init, load, store_at, delete_at, load_or_store_at}

pub record IObj : Type 0 where
  pub obj_type : Bytes
  pub obj_id : Bytes
  pub tag : ℕ

-- What a hook hears: OnROCObjAdd or OnROCObjDel.
pub data ObjEvent : Type 0 where
  added deleted : IObj → ObjEvent

-- A ROC, the objects of one type.
abbrev pub Roc : Type 0
Roc = MapPool IObj

abbrev pub roc_pool_group_sum : ℕ
roc_pool_group_sum = 8

abbrev pub deleted_events : Option IObj → List ObjEvent
deleted_events none = []
deleted_events (some obj) = deleted obj ∷ []

module _ (hash : Bytes → ℕ) where
  -- RegObj: the events of the hook, and the ROC; `none` for a panic.
  unfoldable pub reg_obj : IObj → Roc → Option (List ObjEvent × Roc)
  reg_obj obj r = elim (store_at hash r obj.obj_id obj) [
    | none ↦ none
    | some r₁ ↦ some (added obj ∷ [], r₁)
  ]

  -- GetObj
  unfoldable pub get_obj : Bytes → Roc → Option (Option IObj)
  get_obj id r = load hash r id

  -- DelObjByID
  unfoldable pub del_obj_by_id : Bytes → Roc → Option (List ObjEvent × Roc)
  del_obj_by_id id r = elim (get_obj id r) [
    | none ↦ none
    | some local ↦ elim (delete_at hash r id) [
      | none ↦ none
      | some r₁ ↦ some (deleted_events local, r₁)
    ]
  ]

  -- DelObj
  unfoldable pub del_obj : IObj → Roc → Option (List ObjEvent × Roc)
  del_obj obj r = del_obj_by_id obj.obj_id r

  -- GetOrRegObj: the object under the id, and whether it was there.
  unfoldable pub get_or_reg_obj : Bytes → IObj → Roc → Option ((IObj × Bool) × List ObjEvent × Roc)
  get_or_reg_obj id obj r = elim (load_or_store_at hash r id obj) [
    | none ↦ none
    | some ((v, is_load), r₁) ↦ some ((v, is_load), (if is_load then [] else added obj ∷ []), r₁)
  ]

-- The manager: the ROCs by type.
abbrev pub Rocs : Type 0
Rocs = List (Bytes × Roc)

-- NewROC
unfoldable pub new_roc : Bytes → Rocs → Roc × Rocs
new_roc obj_type rocs = elim (lookup obj_type rocs) [
  | some r ↦ (r, rocs)
  | none ↦ let r = init roc_pool_group_sum new_map_pool in (r, insert obj_type r rocs)
]

-- GetROC
unfoldable pub get_roc : Bytes → Rocs → Option Roc
get_roc obj_type rocs = lookup obj_type rocs

-- What RegObj and GetObj of the manager answer.
pub data Managed (A : Type 0) : Type 0 where
  panics : Managed A
  unregistered : Managed A
  done : A → Managed A

module _ (hash : Bytes → ℕ) where
  -- RegObj of the manager; the ROC is shared, so a change of it is one of the manager.
  unfoldable pub manager_reg_obj : IObj → Rocs → Managed (List ObjEvent × Rocs)
  manager_reg_obj obj rocs = elim (get_roc obj.obj_type rocs) [
    | none ↦ unregistered
    | some r ↦ elim (reg_obj hash obj r) [
      | none ↦ panics
      | some (events, r₁) ↦ done (events, insert obj.obj_type r₁ rocs)
    ]
  ]

  -- GetObj of the manager
  unfoldable pub manager_get_obj : Bytes → Bytes → Rocs → Managed (Option IObj)
  manager_get_obj obj_type obj_id rocs = elim (get_roc obj_type rocs) [
    | none ↦ done none
    | some r ↦ elim (get_obj hash obj_id r) [ none ↦ panics | some o ↦ done o ]
  ]
