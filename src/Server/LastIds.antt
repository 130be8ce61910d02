-- ===== src/Server/LastIds.antt =====
-- The last ids of messages among all of their ids, and where a cache finds them.
use micserver.Prelude.{
  ℕ, zero, suc, replicate, ◌≡◌, refl, ap, ◌∙◌, Bool, true, false, ◌&&◌, ◌||◌, List, [], ◌∷◌, ◌++◌,
  if◌then◌else◌, arith, Bool-cases, inl, inr,
}
use micserver.Dict.{◌=ₛ◌, =ₛ_iff}
use micserver.Wire.Bytes.{Bytes}
use micserver.Wire.Write.{elements}
use micserver.Wire.Bind.{SRocBind}
use micserver.Roc.Cache.Views.{Locations, put, put_each, at_type}
use micserver.Wire.Bind.Written.{last_id}
use micserver.Server.Joined.{typed, heard}

abbrev pub mem : Bytes → List Bytes → Bool
mem j [] = false
mem j (id ∷ ids) = (id =ₛ j) || mem j ids

-- Whether an object is among others.
abbrev pub is_among : Bytes → Bytes → List (Bytes × Bytes) → Bool
is_among t id [] = false
is_among t id ((u, j) ∷ objs) = ((u =ₛ t) && (j =ₛ id)) || is_among t id objs

pub put_each_lem :
    (ids : List Bytes) (own : Bytes) (f : Bytes → Bytes) (j : Bytes)
    → put_each ids own f j ≡ (if mem j ids then own else f j)
put_each_lem [] own f j = refl
put_each_lem (id ∷ ids) own f j = put_each_lem ids own (put id own f) j ∙ ground arith

pub is_among-typed :
    (t u j : Bytes) (ids : List Bytes) → is_among u j (typed t ids) ≡ ((t =ₛ u) && mem j ids)
is_among-typed t u j [] = ground arith
is_among-typed t u j (id ∷ ids) = ground (arith, is_among-typed t u j ids)

pub is_among-append :
    (t j : Bytes) (xs ys : List (Bytes × Bytes))
    → is_among t j (xs ++ ys) ≡ (is_among t j xs || is_among t j ys)
is_among-append t j [] ys = refl
is_among-append t j ((u, i) ∷ xs) ys = ground (arith, is_among-append t j xs ys)

-- Objects that are on a module, and the others where they were.
abbrev pub placed : Bytes → List (Bytes × Bytes) → Locations → Locations
placed own objs w t id = if is_among t id objs then own else w t id

pub at_type_lem :
    (t own : Bytes) (ids : List Bytes) (w : Locations) (u j : Bytes)
    → at_type t (put_each ids own) w u j ≡ placed own (typed t ids) w u j
at_type_lem t own ids w u j = elim (Bool-cases (t =ₛ u)) [
  | inl same ↦
      rw (is_among-typed t u j ids, same, put_each_lem ids own (w t) j)
        (ap (λ v. if mem j ids then own else w v j) ((=ₛ_iff t u).0 same))
  | inr other ↦ rw (is_among-typed t u j ids, other) refl
]

pub mem-replicate : (j x : Bytes) (n : ℕ) → mem j (replicate (suc n) x) ≡ mem j (x ∷ [])
mem-replicate j x zero = refl
mem-replicate j x (suc n) = ground (arith, mem-replicate j x n)

-- The last of a message's ids, if it has one.
abbrev pub last_of : List Bytes → List Bytes
last_of [] = []
last_of (x ∷ xs) = last_id x xs ∷ []

-- For each message, its type and the last of its ids.
abbrev pub last_heard : List SRocBind → List (Bytes × Bytes)
last_heard [] = []
last_heard (m ∷ msgs) = typed m.obj_type (last_of (elements m.obj_ids)) ++ last_heard msgs

mem-last_id :
    (j x : Bytes) (xs : List Bytes) → mem j (last_id x xs ∷ []) ≡ true → mem j (x ∷ xs) ≡ true
unfolding last_id
mem-last_id j x [] h = h
mem-last_id j x (y ∷ ys) h = ground (arith, mem-last_id j y ys h)

-- The objects of a list are among those of another.
mem-last_of : (j : Bytes) (ids : List Bytes) → mem j (last_of ids) ≡ true → mem j ids ≡ true
mem-last_of j [] h = h
mem-last_of j (x ∷ xs) h = mem-last_id j x xs h

pub is_among-last_heard :
    (t j : Bytes) (msgs : List SRocBind)
    → is_among t j (last_heard msgs) ≡ true
    → is_among t j (heard msgs) ≡ true
is_among-last_heard t j [] h = h
is_among-last_heard t j (m ∷ msgs) h =
    let ids = elements m.obj_ids in
    ground (
      arith,
      is_among-append t j (typed m.obj_type (last_of ids)) (last_heard msgs),
      is_among-append t j (typed m.obj_type ids) (heard msgs),
      is_among-typed m.obj_type t j (last_of ids),
      is_among-typed m.obj_type t j ids,
      mem-last_of j ids,
      is_among-last_heard t j msgs,
      h,
    )

pub placed-append :
    (own : Bytes) (xs ys : List (Bytes × Bytes)) (w : Locations) (t id : Bytes)
    → (if is_among t id ys then own else placed own xs w t id) ≡ placed own (xs ++ ys) w t id
placed-append own xs ys w t id =
    rw (is_among-append t id xs ys) (either_lem (is_among t id xs) (is_among t id ys) own (w t id))
  where
    either_lem :
        (a b : Bool) (x y : Bytes)
        → (if b then x else if a then x else y) ≡ (if a || b then x else y)
    either_lem true true x y = refl
    either_lem true false x y = refl
    either_lem false true x y = refl
    either_lem false false x y = refl
