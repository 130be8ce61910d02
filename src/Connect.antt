-- ===== src/Connect.antt =====
-- connect/server_pool.go: the connections to other modules. Connections are shared objects: the pool
-- files addresses, and `servers` gives the connection at each. A map is visited in the order of its
-- association list.
pub mod Counted
pub mod Chosen
pub mod Random
mod Tests
use micserver.Prelude.{
  ℕ, Bool, true, false, ◌&&◌, Option, none, some, List, [], ◌∷◌, length, get_elem?, ltb, leb, ◌==◌,
  if◌then◌else◌,
}
use micserver.Prelude.Int.{ℤ, pos, negsuc, ◌+ℤ◌, is_negative}
use micserver.Dict.{◌=ₛ◌, lookup, insert, erase}
use micserver.Wire.Bytes.{Bytes}

-- What the pool reads and writes of a connection: its temporary id, the id and version of its
-- module, its load, and whether it has been shut down.
pub record Connection : Type 0 where
  pub temp_id : Bytes
  pub module_id : Bytes
  pub version : ℕ
  pub job_num : ℕ
  pub is_shut : Bool

pub record ServerPool : Type 0 where
  pub servers : ℕ → Connection
  pub all_sockets : List (Bytes × ℕ)
  pub link_sum : ℤ

-- util.GetModuleIDType: the runes before the first digit.
unfoldable pub get_module_id_type : Bytes → Bytes
get_module_id_type [] = []
get_module_id_type (k ∷ id) =
    let rest = get_module_id_type id in if leb 48 k && leb k 57 then [] else k ∷ rest

unfoldable pub change : ℕ → (Connection → Connection) → ServerPool → ServerPool
change a f p = record p { servers = (λ b. if a == b then f (p.servers b) else p.servers b) }

unfoldable pub set_temp_id : ℕ → Bytes → ServerPool → ServerPool
set_temp_id a id p = change a (λ c. record c { temp_id = id }) p

-- Whether a key is there.
unfoldable pub is_filed : Bytes → ServerPool → Bool
is_filed tmpid p = elim (lookup tmpid p.all_sockets) [ none ↦ false | some a ↦ true ]

-- remove
unfoldable pub remove : Bytes → ServerPool → ServerPool
remove tmpid p =
    if is_filed tmpid p
    then record p { all_sockets = erase tmpid p.all_sockets; link_sum = p.link_sum +ℤ negsuc 0 }
    else p

-- add
unfoldable pub add : Bytes → ℕ → ServerPool → ServerPool
add tmpid a p = record p {
  all_sockets = insert tmpid a p.all_sockets;
  link_sum = if is_filed tmpid p then p.link_sum else p.link_sum +ℤ pos 1;
}

-- Len
unfoldable pub len : ServerPool → ℤ
len p = if is_negative p.link_sum then pos 0 else p.link_sum

unfoldable pub get_server : Bytes → ServerPool → Option ℕ
get_server tmpid p = lookup tmpid p.all_sockets

unfoldable pub add_server : ℕ → Bytes → ServerPool → ServerPool
add_server a tmpid p = add tmpid a (set_temp_id a tmpid p)

unfoldable pub add_server_auto : ℕ → ServerPool → ServerPool
add_server_auto a p = add (p.servers a).temp_id a p

-- The pool's part of NewTCPServer and NewChanServer, for the connection that they make.
unfoldable pub new_server : ℕ → Bytes → ServerPool → ServerPool
new_server a module_id p = if module_id =ₛ [] then add_server_auto a p else add_server a module_id p

unfoldable pub remove_server : Bytes → ServerPool → ServerPool
remove_server tmpid p = elim (lookup tmpid p.all_sockets) [
  | none ↦ p
  | some a ↦ remove tmpid (change a (λ c. record c { is_shut = true }) p)
]

-- ChangeServerTempid: whether it is refused, and the pool.
unfoldable pub change_server_tempid : ℕ → Bytes → ServerPool → Bool × ServerPool
change_server_tempid a new_id p =
    if is_filed new_id p
    then (true, p)
    else (let p₁ : ServerPool = record p { all_sockets = insert new_id a p.all_sockets } in
        let old_id = (p.servers a).temp_id in
        let p₂ = remove old_id (set_temp_id a new_id p₁) in
        (false, record p₂ { link_sum = p₂.link_sum +ℤ pos 1 }))

-- Whether a connection is to a module of the type.
unfoldable pub is_of_type : Bytes → Connection → Bool
is_of_type server_type c = get_module_id_type c.module_id =ₛ server_type

-- GetMinLoadServer: the smallest load up to now, and a connection of that load.
unfoldable pub min_load_from :
    (ℕ → Connection) → Bytes → List (Bytes × ℕ) → ℕ × Option ℕ → ℕ × Option ℕ
min_load_from servers t [] best = best
min_load_from servers t ((k, a) ∷ m) best =
    let c = servers a in
    min_load_from servers t m
      (if is_of_type t c && leb c.job_num best.0 then (c.job_num, some a) else best)

unfoldable pub get_min_load_server : Bytes → ServerPool → Option ℕ
get_min_load_server t p = (min_load_from p.servers t p.all_sockets (0xffffffff, none)).1

-- GetLatestVersionByType
unfoldable pub latest_from : (ℕ → Connection) → Bytes → List (Bytes × ℕ) → ℕ → ℕ
latest_from servers t [] latest = latest
latest_from servers t ((k, a) ∷ m) latest =
    let c = servers a in
    latest_from servers t m (if is_of_type t c && ltb latest c.version then c.version else latest)

unfoldable pub get_latest_version_by_type : Bytes → ServerPool → ℕ
get_latest_version_by_type t p = latest_from p.servers t p.all_sockets 0

-- GetRandomServer, where `intn` is rand.Intn.
unfoldable pub ids_of_type : (ℕ → Connection) → Bytes → List (Bytes × ℕ) → List Bytes
ids_of_type servers t [] = []
ids_of_type servers t ((k, a) ∷ m) =
    let rest = ids_of_type servers t m in if is_of_type t (servers a) then k ∷ rest else rest

unfoldable pub choose_id : (ℕ → ℕ) → List Bytes → Option Bytes
choose_id intn [] = none
choose_id intn (id ∷ ids) = get_elem? (id ∷ ids) (intn (length (id ∷ ids)))

unfoldable pub get_random_server : (ℕ → ℕ) → Bytes → ServerPool → Option ℕ
get_random_server intn t p = elim (choose_id intn (ids_of_type p.servers t p.all_sockets)) [
  | none ↦ none
  | some id ↦ lookup id p.all_sockets
]
