-- ===== src/Roc/Cache/Views.antt =====
-- Where the objects of one type are, as the maps of roc/cache.go say, and what the helpers of its
-- methods do to that.
use micserver.Prelude.{
  ◌≡◌, refl, sym, ap, ◌∙◌, false, Option, none, some, List, [], ◌∷◌, ◌&&◌, if◌then◌else◌, inl, inr,
  Bool-cases, Option-cases,
}
use mathlib.Core.Path.{fun_ext}
use micserver.Dict.{lookup, insert, ◌=ₛ◌, =ₛ_iff, =ₛ_refl, lookup-insert, lookup-erase}
use micserver.Wire.Bytes.{Bytes}
use micserver.Roc.Cache.{
  Cache, CatchServerInfo, ObjIdToServerMap, catch_get_type_must, catch_get_server_must, store,
  insert_each, delete_if_on, delete_each, get, module_of,
}

-- A module's info is filed under the module's id.
pub record IsCache (c : Cache) : Type 0 where
  pub named : (k : Bytes) (v : CatchServerInfo) → lookup k c.catch_server ≡ some v → v.module_id ≡ k

abbrev pub or_empty : Option ObjIdToServerMap → ObjIdToServerMap
or_empty none = []
or_empty (some m) = m

-- The map of a type.
abbrev pub objects : Bytes → Cache → ObjIdToServerMap
objects t c = or_empty (lookup t c.catch_type)

-- Where each object is.
abbrev pub Locations : Type 0
Locations = Bytes → Bytes → Bytes

abbrev pub locations : Cache → Locations
locations c t id = (get t id c).0

pub catch_get_type_must_lem :
    (t : Bytes) (c : Cache)
    → ((catch_get_type_must t c).0 ≡ objects t c)
      × ((u : Bytes) → objects u (catch_get_type_must t c).1 ≡ objects u c)
      × ((catch_get_type_must t c).1.catch_server ≡ c.catch_server)
unfolding catch_get_type_must
catch_get_type_must_lem t c = elim (Option-cases (lookup t c.catch_type)) [
  | inl e ↦ (
    rw (catch_get_type_must, e) refl,
    (λ u. rw (catch_get_type_must, e, lookup-insert t u [] c.catch_type) (made u e)),
    rw (catch_get_type_must, e) refl,
  )
  | inr (m, e) ↦ (
    rw (catch_get_type_must, e) refl,
    (λ u. rw (catch_get_type_must, e) refl),
    rw (catch_get_type_must, e) refl,
  )
]
  where
    made :
        (u : Bytes)
        → lookup t c.catch_type ≡ none
        → or_empty (if t =ₛ u then some [] else lookup u c.catch_type) ≡ objects u c
    made u e = elim (Bool-cases (t =ₛ u)) [
      | inl f ↦ rw (f, sym ((=ₛ_iff t u).0 f), e) refl
      | inr f ↦ rw f refl
    ]

pub objects-store :
    (t u : Bytes) (m : ObjIdToServerMap) (c : Cache)
    → objects u (store t m c) ≡ (if t =ₛ u then m else objects u c)
unfolding store
objects-store t u m c = elim (Bool-cases (t =ₛ u)) [
  | inl f ↦ rw (lookup-insert t u m c.catch_type, f) refl
  | inr f ↦ rw (lookup-insert t u m c.catch_type, f) refl
]

-- The info of a module, in a cache that files it right.
pub catch_get_server_must-IsCache :
    (m : Bytes) (c : Cache)
    → IsCache c
    → ((catch_get_server_must m c).0.module_id ≡ m)
      × IsCache (catch_get_server_must m c).1
      × ((catch_get_server_must m c).1.catch_type ≡ c.catch_type)
unfolding catch_get_server_must module_of
catch_get_server_must-IsCache m c h = elim (Option-cases (lookup m c.catch_server)) [
  | inl e ↦
      rw (catch_get_server_must, e)
        (
          refl,
          record {
            named = λ k v l.
                filed k v (sym (lookup-insert m k (record { module_id = m }) c.catch_server) ∙ l);
          },
          refl,
        )
  | inr (v, e) ↦ rw (catch_get_server_must, e) (h.named m v e, h, refl)
]
  where
    filed :
        (k : Bytes) (v : CatchServerInfo)
        → (if m =ₛ k then some (record { module_id = m }) else lookup k c.catch_server) ≡ some v
        → v.module_id ≡ k
    filed k v l = elim (Bool-cases (m =ₛ k)) [
      | inl f ↦ sym (ap module_of (rw f at l)) ∙ (=ₛ_iff m k).0 f
      | inr f ↦ h.named k v (rw f at l)
    ]

-- Where the objects of one map are.
abbrev pub view : ObjIdToServerMap → Bytes → Bytes
view m id = module_of (lookup id m)

-- What the methods promise: to put an object on a module, or to forget it if it is there.
abbrev pub put : Bytes → Bytes → (Bytes → Bytes) → Bytes → Bytes
put id module_id w j = if id =ₛ j then module_id else w j

abbrev pub forget : Bytes → Bytes → (Bytes → Bytes) → Bytes → Bytes
forget id module_id w j = if (id =ₛ j) && (w j =ₛ module_id) then [] else w j

abbrev pub put_each : List Bytes → Bytes → (Bytes → Bytes) → Bytes → Bytes
put_each [] module_id w = w
put_each (id ∷ ids) module_id w = put_each ids module_id (put id module_id w)

abbrev pub forget_each : Bytes → List Bytes → (Bytes → Bytes) → Bytes → Bytes
forget_each module_id [] w = w
forget_each module_id (id ∷ ids) w = forget_each module_id ids (forget id module_id w)

abbrev pub at_type : Bytes → ((Bytes → Bytes) → Bytes → Bytes) → Locations → Locations
at_type t f w u id = if t =ₛ u then f (w t) id else w u id

pub view-insert :
    (id : Bytes) (v : CatchServerInfo) (m : ObjIdToServerMap)
    → view (insert id v m) ≡ put id v.module_id (view m)
unfolding module_of
view-insert id v m = fun_ext λ j. elim (Bool-cases (id =ₛ j)) [
  | inl f ↦ rw (lookup-insert id j v m, f) refl
  | inr f ↦ rw (lookup-insert id j v m, f) refl
]

pub view-insert_each :
    (ids : List Bytes) (v : CatchServerInfo) (m : ObjIdToServerMap)
    → view (insert_each ids v m) ≡ put_each ids v.module_id (view m)
unfolding insert_each
view-insert_each [] v m = refl
view-insert_each (id ∷ ids) v m =
    view-insert_each ids v (insert id v m) ∙ ap (put_each ids v.module_id) (view-insert id v m)

pub view-delete_if_on :
    (module_id id : Bytes) (m : ObjIdToServerMap)
    → view (delete_if_on module_id id m) ≡ forget id module_id (view m)
unfolding module_of delete_if_on
view-delete_if_on module_id id m = fun_ext λ j. elim (Bool-cases (id =ₛ j)) [
  | inl f ↦ rw (sym ((=ₛ_iff id j).0 f), =ₛ_refl id) there
  | inr f ↦ rw f (elsewhere j f)
]
  where
    there :
        view (delete_if_on module_id id m) id ≡ (if view m id =ₛ module_id then [] else view m id)
    there = elim (Option-cases (lookup id m)) [
      | inl e ↦
          rw (delete_if_on, e)
            (elim (Bool-cases ([] =ₛ module_id)) [
              | inl g ↦ rw g (ap module_of e)
              | inr g ↦ rw g (ap module_of e)
            ])
      | inr (v, e) ↦
          rw (delete_if_on, e)
            (elim (Bool-cases (v.module_id =ₛ module_id)) [
              | inl g ↦ rw (g, lookup-erase id id m, =ₛ_refl id) refl
              | inr g ↦ rw (g, e) refl
            ])
    ]

    elsewhere : (j : Bytes) → (id =ₛ j) ≡ false → view (delete_if_on module_id id m) j ≡ view m j
    elsewhere j f = elim (Option-cases (lookup id m)) [
      | inl e ↦ rw (delete_if_on, e) refl
      | inr (v, e) ↦
          rw (delete_if_on, e)
            (elim (Bool-cases (v.module_id =ₛ module_id)) [
              | inl g ↦ rw (g, lookup-erase id j m, f) refl
              | inr g ↦ rw g refl
            ])
    ]

pub view-delete_each :
    (module_id : Bytes) (ids : List Bytes) (m : ObjIdToServerMap)
    → view (delete_each module_id ids m) ≡ forget_each module_id ids (view m)
unfolding delete_each
view-delete_each module_id [] m = refl
view-delete_each module_id (id ∷ ids) m =
    view-delete_each module_id ids (delete_if_on module_id id m)
    ∙ ap (forget_each module_id ids) (view-delete_if_on module_id id m)
