-- ===== src/Server/Located.antt =====
-- Where the cache of a module that joins finds the objects afterwards: of each message only the last
-- one is found, since SROCBind arrives with its last id in place of each.
use micserver.Prelude.{
  ℕ, suc, length, replicate, sym, Option, some, ◌≡◌, refl, ap, ◌∙◌, Bool, true, false, ◌&&◌, List,
  [], ◌∷◌, if◌then◌else◌, All,
}
use micserver.Dict.{◌=ₛ◌}
use micserver.Wire.Bytes.{Bytes}
use micserver.Wire.Write.{elements}
use micserver.Wire.Bind.{SRocBind}
use micserver.Roc.Cache.{Cache, set_m}
use micserver.Roc.Cache.Views.{IsCache, Locations, locations, put_each, at_type}
use micserver.Roc.Cache.Refinement.{set_m_op, run_refines}
use micserver.Server.Binding.{LocalObjs, on_server_join_subnet}
use micserver.Wire.Bind.Written.{last_id}
use micserver.Server.Joined.{typed, recorded, IsBind, Fit, on_server_join_subnet_lem}
use micserver.Server.Arrived.{send_cmd, send_each, and_then, HasIds, send_cmd_lem, binds_of-HasIds}
use micserver.Server.LastIds.{
  is_among, is_among-typed, placed, at_type_lem, placed-append, mem-replicate, last_of, last_heard,
  is_among-last_heard,
}

-- The cache after messages to a module that had `c`: where each object is.
pub record IsSent (own : Bytes) (objs : List (Bytes × Bytes)) (c : Cache) (r : Option Cache)
    : Type 0 where
  pub after : Cache
  pub is : r ≡ some after
  pub cache : IsCache after
  pub located : (t id : Bytes) → locations after t id ≡ placed own objs (locations c) t id

at_type-last :
    (t own x : Bytes) (n : ℕ) (w : Locations) (u j : Bytes)
    → at_type t (put_each (replicate (suc n) x) own) w u j ≡ placed own (typed t (x ∷ [])) w u j
at_type-last t own x n w u j =
    at_type_lem t own (replicate (suc n) x) w u j
    ∙ ap (λ b. if b then own else w u j)
        (is_among-typed t u j (replicate (suc n) x)
          ∙ (ap (λ b. (t =ₛ u) && b) (mem-replicate j x n) ∙ sym (is_among-typed t u j (x ∷ []))))

send_cmd-IsSent :
    (memory : ℕ → Bytes) (spare : ℕ) (own : Bytes) (m : SRocBind) (c : Cache)
    → ((n : ℕ) → length (memory n) ≡ n)
    → IsBind own m
    → HasIds m
    → IsCache c
    → IsSent own (typed m.obj_type (last_of (elements m.obj_ids))) c (send_cmd memory spare m c)
send_cmd-IsSent memory spare own m c sized b (x, xs, e) h =
    let ids = replicate (suc (length xs)) (last_id x xs) in
    let op = set_m_op m.obj_type ids m.host_module_id in
    let (h₁, moved) = run_refines (op ∷ []) c h in
    record {
      after = set_m m.obj_type ids m.host_module_id c;
      is = send_cmd_lem memory spare own m x xs c sized b e;
      cache = h₁;
      located = (λ t id.
          ap (λ w. w t id) moved
          ∙ (at_type-last m.obj_type m.host_module_id (last_id x xs) (length xs) (locations c) t id
              ∙ (ap (λ o. placed o (typed m.obj_type (last_id x xs ∷ [])) (locations c) t id) b.host
                  ∙ ap
                      (λ l. placed own (typed m.obj_type (last_of (elements l))) (locations c) t id)
                      (sym e))));
    }

send_each-IsSent :
    (memory : ℕ → Bytes) (spare : ℕ) (own : Bytes) (msgs : List SRocBind) (c : Cache)
    → ((n : ℕ) → length (memory n) ≡ n)
    → All (IsBind own) msgs
    → All HasIds msgs
    → IsCache c
    → IsSent own (last_heard msgs) c (send_each memory spare msgs c)
send_each-IsSent memory spare own [] c sized bs is h = record {
  after = c;
  is = refl;
  cache = h;
  located = (λ t id. refl);
}
send_each-IsSent memory spare own (m ∷ msgs) c sized (b, bs) (i, is) h =
    let one = send_cmd-IsSent memory spare own m c sized b i h in
    let rest = send_each-IsSent memory spare own msgs one.after sized bs is one.cache in
    let objs = typed m.obj_type (last_of (elements m.obj_ids)) in
    record {
      after = rest.after;
      is = ap (λ r. and_then r (send_each memory spare msgs)) one.is ∙ rest.is;
      cache = rest.cache;
      located = (λ t id.
          rest.located t id
          ∙ (ap (λ v. if is_among t id (last_heard msgs) then own else v) (one.located t id)
              ∙ placed-append own objs (last_heard msgs) (locations c) t id));
    }

joins-HasIds :
    (has_module : Bytes → Bool) (own joined : Bytes) (local : LocalObjs)
    → has_module joined ≡ false
    → All HasIds (on_server_join_subnet has_module own joined local)
unfolding on_server_join_subnet
joins-HasIds has_module own joined local other =
    rw (on_server_join_subnet, other) (binds_of-HasIds own local)

-- A module of another process that joins and is sent the messages of onServerJoinSubnet, each by
-- WriteBinary into a buffer of the size that GetSize gives and by ReadBinary out of it, in their order
-- (ids and types that leave room for them in a message): no writer and no reader panics, and if its
-- cache files each module's info under the module's id, it still does. Of each message, Get then
-- answers this module for the last of its objects, and for all other objects what it did before; and
-- those last ones are among the objects that are recorded here.
pub joined_located :
    (memory : ℕ → Bytes) (spare : ℕ) (has_module : Bytes → Bool) (own joined : Bytes)
    (local : LocalObjs) (l : ℕ) (c : Cache)
    → ((n : ℕ) → length (memory n) ≡ n)
    → has_module joined ≡ false
    → Fit l own local
    → IsCache c
    → IsSent own
        (last_heard (on_server_join_subnet has_module own joined local))
        c
        (send_each memory spare (on_server_join_subnet has_module own joined local) c)
      × ((t id : Bytes)
          → is_among t id (last_heard (on_server_join_subnet has_module own joined local)) ≡ true
          → is_among t id (recorded local) ≡ true)
joined_located memory spare has_module own joined local l c sized other fit h =
    let (heard_all, bs) = on_server_join_subnet_lem has_module own joined local l other fit in
    let msgs = on_server_join_subnet has_module own joined local in
    (
      send_each-IsSent memory spare own msgs c sized bs
          (joins-HasIds has_module own joined local other) h,
      (λ t id among. sym (ap (is_among t id) heard_all) ∙ is_among-last_heard t id msgs among),
    )
