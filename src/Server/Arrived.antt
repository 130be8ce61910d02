-- ===== src/Server/Arrived.antt =====
-- What the handler of a module makes of an SROCBind that came over the wire.
use micserver.Prelude.{
  ℕ, suc, ◌+◌, ◌≡◌, refl, ap, ◌∙◌, Option, none, some, List, [], ◌∷◌, ◌++◌, length, replicate, All,
  arith, Bool-cases, inl, inr,
}
use micserver.Wire.Bytes.{Bytes}
use micserver.Wire.Run.{run_writer}
use micserver.Wire.Read.{read_message}
use micserver.Wire.Bind.{SRocBind, size_s_roc_bind, write_s_roc_bind, read_s_roc_bind}
use micserver.Wire.Bind.Written.{last_id}
use micserver.Wire.Bind.LastId.{s_roc_bind_arrives_as_last_id}
use micserver.Roc.Cache.{Cache, set_m}
use micserver.Server.Binding.{
  LocalObjs, batches_from, binds_of_batches, binds_of, is_due, on_msg_roc_bind, on_read_roc_bind,
  on_recv_roc_bind,
}
use micserver.Server.Joined.{
  IsBind, All-append, batches_from-due, batches_from-more, batches_from-nil,
}

-- The content of a message, if WriteBinary did not panic, reaches the handler.
abbrev pub deliver : Option (Bytes × ℕ) → ℕ → Cache → Option Cache
deliver none spare c = none
deliver (some (proto_data, n)) spare c = on_recv_roc_bind proto_data spare c

abbrev pub and_then : Option Cache → (Cache → Option Cache) → Option Cache
and_then none f = none
and_then (some c) f = f c

-- SendCmd here, OnRecvSubnetMsg there: WriteBinary into a buffer of the size that GetSize gives, whose
-- old content is `memory`.
abbrev pub send_cmd : (ℕ → Bytes) → ℕ → SRocBind → Cache → Option Cache
send_cmd memory spare m c =
    deliver (run_writer (write_s_roc_bind (some m)) (memory (size_s_roc_bind (some m)))) spare c

abbrev pub send_each : (ℕ → Bytes) → ℕ → List SRocBind → Cache → Option Cache
send_each memory spare [] c = some c
send_each memory spare (m ∷ msgs) c =
    and_then (send_cmd memory spare m c) (send_each memory spare msgs)

-- A message with ids.
abbrev pub HasIds : SRocBind → Type 0
HasIds m = (x : Bytes) × (xs : List Bytes) × (m.obj_ids ≡ some (x ∷ xs))

-- The cache after a message whose last id is `x`.
pub send_cmd_lem :
    (memory : ℕ → Bytes) (spare : ℕ) (own : Bytes) (m : SRocBind) (x : Bytes) (xs : List Bytes)
    (c : Cache)
    → ((n : ℕ) → length (memory n) ≡ n)
    → IsBind own m
    → m.obj_ids ≡ some (x ∷ xs)
    → send_cmd memory spare m c
      ≡ some (set_m m.obj_type (replicate (suc (length xs)) (last_id x xs)) m.host_module_id c)
unfolding on_recv_roc_bind on_read_roc_bind on_msg_roc_bind read_s_roc_bind read_message
send_cmd_lem memory spare own m x xs c sized b e =
    let size = size_s_roc_bind (some m) in
    let (bs, n, written, read, l) =
      s_roc_bind_arrives_as_last_id m x xs e (memory size) spare (omega (arith, b.small))
        (sized size) in
    ap (λ r. deliver r spare c) written
    ∙ (ap (λ r. on_read_roc_bind r c) read ∙ rw (on_msg_roc_bind, b.binds) refl)

ends_with :
    (xs : List Bytes) (id : Bytes) → (y : Bytes) × (ys : List Bytes) × (xs ++ (id ∷ []) ≡ y ∷ ys)
ends_with [] id = (id, [], refl)
ends_with (x ∷ xs) id = (x, xs ++ (id ∷ []), refl)

abbrev Filled : List Bytes → Type 0
Filled ids = (y : Bytes) × (ys : List Bytes) × (ids ≡ y ∷ ys)

batches_from-Filled :
    (ids : List (Bytes × Unit {0})) (tmplist : List Bytes) (tmpsize : ℕ)
    → All Filled (batches_from ids tmplist tmpsize)
batches_from-Filled [] tmplist tmpsize = rw (batches_from-nil tmplist tmpsize) tt
batches_from-Filled ((id, u) ∷ left) tmplist tmpsize =
    let size = tmpsize + (length id + 4) in
    elim (Bool-cases (is_due left size)) [
      | inl y ↦
          rw (batches_from-due id u left tmplist tmpsize y)
            (ends_with tmplist id, batches_from-Filled left [] 0)
      | inr n ↦
          rw (batches_from-more id u left tmplist tmpsize n)
            (batches_from-Filled left (tmplist ++ (id ∷ [])) size)
    ]

batches-HasIds :
    (own obj_type : Bytes) (batches : List (List Bytes))
    → All Filled batches
    → All HasIds (binds_of_batches own obj_type batches)
unfolding binds_of_batches
batches-HasIds own obj_type [] h = tt
batches-HasIds own obj_type (ids ∷ batches) ((y, ys, e), h) =
    ((y, ys, ap some e), batches-HasIds own obj_type batches h)

-- No message is without an id.
pub binds_of-HasIds : (own : Bytes) (local : LocalObjs) → All HasIds (binds_of own local)
unfolding binds_of
binds_of-HasIds own [] = tt
binds_of-HasIds own ((obj_type, ids) ∷ local) =
    All-append HasIds (binds_of_batches own obj_type (batches_from ids [] 0)) (binds_of own local)
      (batches-HasIds own obj_type (batches_from ids [] 0) (batches_from-Filled ids [] 0))
      (binds_of-HasIds own local)
