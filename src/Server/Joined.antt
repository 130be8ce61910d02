-- ===== src/Server/Joined.antt =====
-- What a module that joins the subnet hears of the objects here.
use micserver.Prelude.{
  ℕ, ◌+◌, ◌≤◌, ◌<◌, ◌≡◌, refl, sym, ap, ◌∙◌, Bool, true, false, some, List, [], ◌∷◌, ◌++◌, length,
  All, Bool-cases, inl, inr, arith, append_assoc, append-nil,
}
use micserver.Wire.Bytes.{Bytes}
use micserver.Wire.Write.{elements}
use micserver.Wire.Sizes.{sum_sizes}
use micserver.Wire.Bind.{SRocBind, size_s_roc_bind}
use micserver.Msg.Binary.{message_max_size}
use micserver.Server.Binding.{
  LocalObjs, is_full, is_due, batches_from, bind_of, binds_of_batches, binds_of,
  on_server_join_subnet,
}

abbrev pub keys : List (Bytes × Unit {0}) → List Bytes
keys [] = []
keys ((id, u) ∷ ids) = id ∷ keys ids

abbrev pub concat : {A : Type 0} → List (List A) → List A
concat [] = []
concat (xs ∷ xss) = xs ++ concat xss

module _ (id : Bytes) (u : Unit {0}) (left : List (Bytes × Unit {0})) (tmplist : List Bytes)
    (tmpsize : ℕ) where
  pub batches_from-due :
      is_due left (tmpsize + (length id + 4)) ≡ true
      → batches_from ((id, u) ∷ left) tmplist tmpsize
        ≡ (tmplist ++ (id ∷ [])) ∷ batches_from left [] 0
  unfolding batches_from
  batches_from-due y = rw (batches_from, y) refl

  pub batches_from-more :
      is_due left (tmpsize + (length id + 4)) ≡ false
      → batches_from ((id, u) ∷ left) tmplist tmpsize
        ≡ batches_from left (tmplist ++ (id ∷ [])) (tmpsize + (length id + 4))
  unfolding batches_from
  batches_from-more n = rw (batches_from, n) refl

is_due-nil : (size : ℕ) → is_due [] size ≡ true
unfolding is_due
is_due-nil size = refl

is_due-small :
    (left : List (Bytes × Unit {0})) (size : ℕ) → is_due left size ≡ false → size ≤ 4194304
unfolding is_due is_full
is_due-small left size e = ground (arith, e)

pub batches_from-nil : (tmplist : List Bytes) (tmpsize : ℕ) → batches_from [] tmplist tmpsize ≡ []
unfolding batches_from
batches_from-nil tmplist tmpsize = refl

-- A list being filled, and the ids to come.
batches_from-concat :
    (id : Bytes) (u : Unit {0}) (left : List (Bytes × Unit {0})) (tmplist : List Bytes)
    (tmpsize : ℕ)
    → concat (batches_from ((id, u) ∷ left) tmplist tmpsize) ≡ tmplist ++ (id ∷ keys left)
batches_from-concat id u [] tmplist tmpsize =
    rw
      (
        batches_from-due id u [] tmplist tmpsize (is_due-nil (tmpsize + (length id + 4))),
        batches_from-nil [] 0,
      )
      (append-nil (tmplist ++ (id ∷ [])))
batches_from-concat id u ((j, w) ∷ left) tmplist tmpsize =
    let size = tmpsize + (length id + 4) in
    elim (Bool-cases (is_due ((j, w) ∷ left) size)) [
      | inl y ↦
          rw
            (
              batches_from-due id u ((j, w) ∷ left) tmplist tmpsize y,
              batches_from-concat j w left [] 0,
            )
            (append_assoc tmplist (id ∷ []) (j ∷ keys left))
      | inr n ↦
          rw
            (
              batches_from-more id u ((j, w) ∷ left) tmplist tmpsize n,
              batches_from-concat j w left (tmplist ++ (id ∷ [])) size,
            )
            (append_assoc tmplist (id ∷ []) (j ∷ keys left))
    ]

all_ids : (ids : List (Bytes × Unit {0})) → concat (batches_from ids [] 0) ≡ keys ids
all_ids [] = rw (batches_from-nil [] 0) refl
all_ids ((id, u) ∷ ids) = batches_from-concat id u ids [] 0

-- The size of the ids of a message, as GetSize counts them.
abbrev pub ids_size : List Bytes → ℕ
ids_size ids = sum_sizes (λ id. length id + 4) ids

ids_size-append : (xs ys : List Bytes) → ids_size (xs ++ ys) ≡ ids_size xs + ids_size ys
unfolding sum_sizes
ids_size-append [] ys = omega arith
ids_size-append (x ∷ xs) ys = omega (arith, ids_size-append xs ys)

ids_size-nil : ids_size [] ≡ 0
unfolding sum_sizes
ids_size-nil = refl

ids_size-one : (id : Bytes) → ids_size (id ∷ []) ≡ length id + 4
unfolding sum_sizes
ids_size-one id = omega arith

abbrev pub IsShort : ℕ → List (Bytes × Unit {0}) → Type 0
IsShort l [] = Unit
IsShort l ((id, u) ∷ ids) = (length id + 4 ≤ l) × IsShort l ids

batches_from-IsSmall :
    (l : ℕ) (ids : List (Bytes × Unit {0})) (tmplist : List Bytes) (tmpsize : ℕ)
    → IsShort l ids
    → ids_size tmplist ≡ tmpsize
    → tmpsize ≤ 4194304
    → All (λ batch. ids_size batch ≤ 4194304 + l) (batches_from ids tmplist tmpsize)
batches_from-IsSmall l [] tmplist tmpsize hs e h = rw (batches_from-nil tmplist tmpsize) tt
batches_from-IsSmall l ((id, u) ∷ left) tmplist tmpsize (short, hs) e h =
    let size = tmpsize + (length id + 4) in
    let e' : ids_size (tmplist ++ (id ∷ [])) ≡ size =
      ids_size-append tmplist (id ∷ []) ∙ omega (arith, e, ids_size-one id) in
    elim (Bool-cases (is_due left size)) [
      | inl y ↦ rw (batches_from-due id u left tmplist tmpsize y) (
        omega (arith, e', h, short),
        batches_from-IsSmall l left [] 0 hs ids_size-nil (omega arith),
      )
      | inr n ↦
          rw (batches_from-more id u left tmplist tmpsize n) (
            batches_from-IsSmall l left (tmplist ++ (id ∷ [])) size hs e'
              (is_due-small left size n))
    ]

-- The objects that a message binds, and those that the module has recorded.
abbrev pub typed : Bytes → List Bytes → List (Bytes × Bytes)
typed obj_type [] = []
typed obj_type (id ∷ ids) = (obj_type, id) ∷ typed obj_type ids

abbrev pub heard : List SRocBind → List (Bytes × Bytes)
heard [] = []
heard (m ∷ msgs) = typed m.obj_type (elements m.obj_ids) ++ heard msgs

abbrev pub recorded : LocalObjs → List (Bytes × Bytes)
recorded [] = []
recorded ((obj_type, ids) ∷ local) = typed obj_type (keys ids) ++ recorded local

typed-append :
    (obj_type : Bytes) (xs ys : List Bytes)
    → typed obj_type (xs ++ ys) ≡ typed obj_type xs ++ typed obj_type ys
typed-append obj_type [] ys = refl
typed-append obj_type (x ∷ xs) ys = ap (◌∷◌ (obj_type, x)) (typed-append obj_type xs ys)

pub heard-append : (xs ys : List SRocBind) → heard (xs ++ ys) ≡ heard xs ++ heard ys
heard-append [] ys = refl
heard-append (m ∷ xs) ys =
    ap (◌++◌ (typed m.obj_type (elements m.obj_ids))) (heard-append xs ys)
    ∙ sym (append_assoc (typed m.obj_type (elements m.obj_ids)) (heard xs) (heard ys))

heard-batches :
    (own obj_type : Bytes) (batches : List (List Bytes))
    → heard (binds_of_batches own obj_type batches) ≡ typed obj_type (concat batches)
unfolding binds_of_batches
heard-batches own obj_type [] = refl
heard-batches own obj_type (ids ∷ batches) =
    ap (◌++◌ (typed obj_type ids)) (heard-batches own obj_type batches)
    ∙ sym (typed-append obj_type ids (concat batches))

heard-binds_of : (own : Bytes) (local : LocalObjs) → heard (binds_of own local) ≡ recorded local
unfolding binds_of
heard-binds_of own [] = refl
heard-binds_of own ((obj_type, ids) ∷ local) =
    rw
      (
        heard-append (binds_of_batches own obj_type (batches_from ids [] 0)) (binds_of own local),
        heard-batches own obj_type (batches_from ids [] 0),
        all_ids ids,
        heard-binds_of own local,
      )
      refl

-- A message that the encoder accepts, with `l` for the longest id and the type.
pub record IsBind (own : Bytes) (m : SRocBind) : Type 0 where
  pub host : m.host_module_id ≡ own
  pub binds : m.is_delete ≡ false
  pub small : size_s_roc_bind (some m) + 6 < message_max_size

batch-IsBind :
    (own obj_type : Bytes) (l : ℕ) (ids : List Bytes)
    → length own + length obj_type + l < 4194281
    → ids_size ids ≤ 4194304 + l
    → IsBind own (bind_of own false obj_type ids)
unfolding size_s_roc_bind
batch-IsBind own obj_type l ids room h = record {
  host = refl;
  binds = refl;
  small = omega (arith, room, h);
}

batches-IsBind :
    (own obj_type : Bytes) (l : ℕ) (batches : List (List Bytes))
    → length own + length obj_type + l < 4194281
    → All (λ ids. ids_size ids ≤ 4194304 + l) batches
    → All (IsBind own) (binds_of_batches own obj_type batches)
unfolding binds_of_batches
batches-IsBind own obj_type l [] room h = tt
batches-IsBind own obj_type l (ids ∷ batches) room (h, hs) =
    (batch-IsBind own obj_type l ids room h, batches-IsBind own obj_type l batches room hs)

pub All-append :
    {A : Type 0} (P : A → Type 0) (xs ys : List A) → All P xs → All P ys → All P (xs ++ ys)
All-append P [] ys hx hy = hy
All-append P (x ∷ xs) ys (h, hx) hy = (h, All-append P xs ys hx hy)

-- Ids of at most `l - 4` bytes, and types that leave room for them.
abbrev pub Fit : ℕ → Bytes → LocalObjs → Type 0
Fit l own [] = Unit
Fit l own ((obj_type, ids) ∷ local) =
    (length own + length obj_type + l < 4194281) × IsShort l ids × Fit l own local

binds_of-IsBind :
    (l : ℕ) (own : Bytes) (local : LocalObjs)
    → Fit l own local
    → All (IsBind own) (binds_of own local)
unfolding binds_of
binds_of-IsBind l own [] h = tt
binds_of-IsBind l own ((obj_type, ids) ∷ local) (room, short, h) =
    All-append (IsBind own) (binds_of_batches own obj_type (batches_from ids [] 0))
      (binds_of own local)
      (batches-IsBind own obj_type l (batches_from ids [] 0) room
        (batches_from-IsSmall l ids [] 0 short ids_size-nil (omega arith)))
      (binds_of-IsBind l own local h)

-- onServerJoinSubnet, for a module of another process: its messages bind, in their order, exactly the
-- objects that are recorded, each once and to this module; and where the longest id, with the
-- module's id and the type, is shorter than 4 MB (less 23 bytes), every message with its head is
-- shorter than the largest that the encoder sends.
pub on_server_join_subnet_lem :
    (has_module : Bytes → Bool) (own joined : Bytes) (local : LocalObjs) (l : ℕ)
    → has_module joined ≡ false
    → Fit l own local
    → (heard (on_server_join_subnet has_module own joined local) ≡ recorded local)
      × All (IsBind own) (on_server_join_subnet has_module own joined local)
unfolding on_server_join_subnet
on_server_join_subnet_lem has_module own joined local l other h =
    rw (on_server_join_subnet, other) (heard-binds_of own local, binds_of-IsBind l own local h)
