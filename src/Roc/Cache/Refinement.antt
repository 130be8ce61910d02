-- ===== src/Roc/Cache/Refinement.antt =====
-- The contract of roc/cache.go: a cache stands for a function from types and ids to modules.
use micserver.Prelude.{◌≡◌, refl, sym, ap, ◌∙◌, List, [], ◌∷◌, if◌then◌else◌, inl, inr, Bool-cases}
use mathlib.Core.Path.{fun_ext}
use micserver.Dict.{lookup, insert, ◌=ₛ◌}
use micserver.Wire.Bytes.{Bytes}
use micserver.Roc.Cache.{
  Cache, CatchServerInfo, ObjIdToServerMap, catch_get_type_must, catch_get_server_must, store, set,
  set_m, insert_each, del, del_m, delete_if_on, delete_each, get, module_of,
}
use micserver.Roc.Cache.Views.{
  IsCache, or_empty, objects, Locations, locations, catch_get_type_must_lem, objects-store,
  catch_get_server_must-IsCache, view, put, forget, put_each, forget_each, at_type, view-insert,
  view-insert_each, view-delete_if_on, view-delete_each,
}

locations_lem : (t : Bytes) (c : Cache) → locations c t ≡ view (objects t c)
unfolding get
locations_lem t c = fun_ext λ id. ap (λ m. module_of (lookup id m)) (catch_get_type_must_lem t c).0

-- A method that changes the map of a type as f says, and the rest of the cache nowhere.
locations-store :
    (t : Bytes) (m : ObjIdToServerMap) (f : (Bytes → Bytes) → Bytes → Bytes) (c c₂ : Cache)
    → ((u : Bytes) → objects u c₂ ≡ objects u c)
    → view m ≡ f (view (objects t c))
    → locations (store t m c₂) ≡ at_type t f (locations c)
locations-store t m f c c₂ same e = fun_ext λ u. fun_ext λ id.
    ap (λ w. w id) (locations_lem u (store t m c₂))
    ∙ (ap (λ n. view n id) (objects-store t u m c₂) ∙ changed u id)
  where
    changed :
        (u id : Bytes)
        → view (if t =ₛ u then m else objects u c₂) id ≡ at_type t f (locations c) u id
    changed u id = elim (Bool-cases (t =ₛ u)) [
      | inl g ↦ rw g (ap (λ w. w id) (e ∙ ap f (sym (locations_lem t c))))
      | inr g ↦ rw g (ap (λ n. view n id) (same u) ∙ ap (λ w. w id) (sym (locations_lem u c)))
    ]

-- The operations on a cache. A look, by Get, RangeByType or RandomObjIDByType, may make the map of
-- its type.
pub data Op : Type 0 where
  set_op : Bytes → Bytes → Bytes → Op
  set_m_op : Bytes → List Bytes → Bytes → Op
  del_op : Bytes → Bytes → Bytes → Op
  del_m_op : Bytes → List Bytes → Bytes → Op
  get_op : Bytes → Bytes → Op

abbrev pub apply : Op → Cache → Cache
apply (set_op t id m) c = set t id m c
apply (set_m_op t ids m) c = set_m t ids m c
apply (del_op t id m) c = del t id m c
apply (del_m_op t ids m) c = del_m t ids m c
apply (get_op t id) c = (get t id c).1

abbrev pub effect : Op → Locations → Locations
effect (set_op t id m) w = at_type t (put id m) w
effect (set_m_op t ids m) w = at_type t (put_each ids m) w
effect (del_op t id m) w = at_type t (forget id m) w
effect (del_m_op t ids m) w = at_type t (forget_each m ids) w
effect (get_op t id) w = w

IsCache-server : (a b : Cache) → a.catch_server ≡ b.catch_server → IsCache b → IsCache a
IsCache-server a b e h = record { named = λ k v l. h.named k v (ap (lookup k) (sym e) ∙ l) }

-- Set and SetM are alike: the map of the type changes by an `ins` that puts objects as `f` says.
set-like :
    (t m : Bytes) (ins : CatchServerInfo → ObjIdToServerMap → ObjIdToServerMap)
    (f : Bytes → (Bytes → Bytes) → Bytes → Bytes) (c : Cache)
    → IsCache c
    → ((v : CatchServerInfo) (n : ObjIdToServerMap) → view (ins v n) ≡ f v.module_id (view n))
    → let g = catch_get_type_must t c in
      let s = catch_get_server_must m g.1 in
      IsCache (store t (ins s.0 g.0) s.1)
      × (locations (store t (ins s.0 g.0) s.1) ≡ at_type t (f m) (locations c))
unfolding store
set-like t m ins f c h law =
    let (got, same, sc) = catch_get_type_must_lem t c in
    let g = catch_get_type_must t c in
    let s = catch_get_server_must m g.1 in
    let (named, h₂, st) = catch_get_server_must-IsCache m g.1 (IsCache-server g.1 c sc h) in
    let e : view (ins s.0 g.0) ≡ f m (view (objects t c)) =
      law s.0 g.0
      ∙ (ap (λ n. f s.0.module_id (view n)) got ∙ ap (λ x. f x (view (objects t c))) named) in
    (
      record { named = h₂.named },
      locations-store t (ins s.0 g.0) (f m) c s.1
          (λ u. ap (λ ct. or_empty (lookup u ct)) st ∙ same u) e,
    )

-- Del and DelM are alike: the map of the type changes by a `del`.
del-like :
    (t : Bytes) (del : ObjIdToServerMap → ObjIdToServerMap) (f : (Bytes → Bytes) → Bytes → Bytes)
    (c : Cache)
    → IsCache c
    → ((n : ObjIdToServerMap) → view (del n) ≡ f (view n))
    → let g = catch_get_type_must t c in
      IsCache (store t (del g.0) g.1)
      × (locations (store t (del g.0) g.1) ≡ at_type t f (locations c))
unfolding store
del-like t del f c h law =
    let (got, same, sc) = catch_get_type_must_lem t c in
    let g = catch_get_type_must t c in
    (
      record { named = (IsCache-server g.1 c sc h).named },
      locations-store t (del g.0) f c g.1 same (law g.0 ∙ ap (λ n. f (view n)) got),
    )

apply_lem :
    (op : Op) (c : Cache)
    → IsCache c
    → IsCache (apply op c) × (locations (apply op c) ≡ effect op (locations c))
unfolding set set_m del del_m get
apply_lem (set_op t id m) c h = set-like t m (insert id) (put id) c h (view-insert id)
apply_lem (set_m_op t ids m) c h =
    set-like t m (insert_each ids) (put_each ids) c h (view-insert_each ids)
apply_lem (del_op t id m) c h =
    del-like t (delete_if_on m id) (forget id m) c h (view-delete_if_on m id)
apply_lem (del_m_op t ids m) c h =
    del-like t (delete_each m ids) (forget_each m ids) c h (view-delete_each m ids)
apply_lem (get_op t id) c h =
    let (got, same, sc) = catch_get_type_must_lem t c in
    (
      IsCache-server (get t id c).1 c sc h,
      fun_ext λ u. locations_lem u (get t id c).1 ∙ (ap view (same u) ∙ sym (locations_lem u c)),
    )

abbrev pub run : List Op → Cache → Cache
run [] c = c
run (op ∷ ops) c = run ops (apply op c)

abbrev pub effects : List Op → Locations → Locations
effects [] w = w
effects (op ∷ ops) w = effects ops (effect op w)

-- After any calls of Set, SetM, Del, DelM and Get on a cache that files each module's info under
-- the module's id, it still does, and Get answers of every type and id what the calls, as changes
-- of a function from types and ids to modules, make of what Get answered before.
pub run_refines :
    (ops : List Op) (c : Cache)
    → IsCache c
    → IsCache (run ops c) × (locations (run ops c) ≡ effects ops (locations c))
run_refines [] c h = (h, refl)
run_refines (op ∷ ops) c h =
    let (h₁, e₁) = apply_lem op c h in
    let (h₂, e₂) = run_refines ops (apply op c) h₁ in (h₂, e₂ ∙ ap (effects ops) e₁)
