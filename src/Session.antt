-- ===== src/Session.antt =====
-- session/session.go: the keys and values of a client's session. A session holds them in a
-- sync.Map, an association list here, visited in the list's order.
pub mod Contents
pub mod Bound
pub mod Manager
pub mod Handler
pub mod Filed
pub mod Update
pub mod Ready
pub mod Synced
pub mod Carried
pub mod Renamed
mod Tests
use micserver.Prelude.{
  ℕ, zero, suc, ◌-◌, Bool, true, false, not, ◌&&◌, Option, none, some, List, [], ◌∷◌, ◌++◌, length,
  ◌==◌, if◌then◌else◌,
}
use micserver.Dict.{◌=ₛ◌, lookup, insert, inserts}
use micserver.Wire.Bytes.{Bytes}
use micserver.Wire.Sessions.{SUpdateSession}

-- The sync.Map of a Session, and a map[string]string.
abbrev pub Contents : Type 0
Contents = List (Bytes × Bytes)

-- "_s0_bind_", "_s0_connectid" and "_s0_uuid"
abbrev pub session_key_bind_head : Bytes
session_key_bind_head = 95 ∷ 115 ∷ 48 ∷ 95 ∷ 98 ∷ 105 ∷ 110 ∷ 100 ∷ 95 ∷ []

abbrev pub session_key_connect_id : Bytes
session_key_connect_id = 95 ∷ 115 ∷ 48 ∷ 95 ∷ 99 ∷ 111 ∷ 110 ∷ 110 ∷ 101 ∷ 99 ∷ 116 ∷ 105 ∷ 100 ∷ []

abbrev pub session_key_uuid : Bytes
session_key_uuid = 95 ∷ 115 ∷ 48 ∷ 95 ∷ 117 ∷ 117 ∷ 105 ∷ 100 ∷ []

abbrev pub or_empty : Option Bytes → Bytes
or_empty none = []
or_empty (some v) = v

-- get, and getFromMap.
unfoldable pub get : Bytes → Contents → Bytes
get key m = or_empty (lookup key m)

unfoldable pub set : Bytes → Bytes → Contents → Contents
set key value m = insert key value m

-- GetUUID and GetUUIDFromMap, GetConnectID and GetConnectIDFromMap, GetBind and GetBindFromMap.
unfoldable pub get_uuid : Contents → Bytes
get_uuid m = get session_key_uuid m

unfoldable pub get_connect_id : Contents → Bytes
get_connect_id m = get session_key_connect_id m

unfoldable pub get_bind : Bytes → Contents → Bytes
get_bind module_type m = get (session_key_bind_head ++ module_type) m

unfoldable pub set_uuid : Bytes → Contents → Contents
set_uuid value m = set session_key_uuid value m

unfoldable pub set_connect_id : Bytes → Contents → Contents
set_connect_id value m = set session_key_connect_id value m

unfoldable pub set_bind : Bytes → Bytes → Contents → Contents
set_bind module_type value m = set (session_key_bind_head ++ module_type) value m

unfoldable pub has_key : Bytes → Contents → Bool
has_key key m = elim (lookup key m) [ none ↦ false | some v ↦ true ]

unfoldable pub has_bind : Bytes → Contents → Bool
has_bind module_type m = has_key (session_key_bind_head ++ module_type) m

unfoldable pub is_vertify : Contents → Bool
is_vertify m = if not (has_key session_key_uuid m) then false else not (get_uuid m =ₛ [])

-- strings.HasPrefix
unfoldable pub has_prefix : Bytes → Bytes → Bool
has_prefix s [] = true
has_prefix [] (p ∷ ps) = false
has_prefix (b ∷ s) (p ∷ ps) = (b == p) && has_prefix s ps

-- strings.Split for a separator that is not empty: `skip` bytes of one found are still to pass, and
-- `piece` is what has come since the last one.
unfoldable pub split_from : Bytes → ℕ → Bytes → Bytes → List Bytes
split_from sep skip piece [] = piece ∷ []
split_from sep (suc skip) piece (b ∷ s) = split_from sep skip piece s
split_from sep zero piece (b ∷ s) = elim (has_prefix (b ∷ s) sep) [
  | true ↦ piece ∷ split_from sep (length sep - 1) [] s
  | false ↦ split_from sep zero (piece ++ (b ∷ [])) s
]

unfoldable pub split : Bytes → Bytes → List Bytes
split s sep = split_from sep zero [] s

-- The module type of a key that is the head and one slice behind it.
abbrev second_of_two : List Bytes → Option Bytes
second_of_two [] = none
second_of_two (a ∷ []) = none
second_of_two (a ∷ b ∷ []) = some b
second_of_two (a ∷ b ∷ c ∷ more') = none

unfoldable pub binded_type : Bytes → Option Bytes
binded_type k =
    if has_prefix k session_key_bind_head
    then second_of_two (split k session_key_bind_head)
    else none

module _ {ℓ} {S : Type ℓ} where
  -- rangeBinded, for a callback that changes a state and answers whether to go on.
  unfoldable pub range_binded : (Bytes → Bytes → S → Bool × S) → Contents → S → S
  range_binded f [] s = s
  range_binded f ((k, v) ∷ m) s = elim (binded_type k) [
    | none ↦ range_binded f m s
    | some module_type ↦
        let (more', s') = f module_type v s in
        elim more' [ true ↦ range_binded f m s' | false ↦ s' ]
  ]

unfoldable pub get_binded_list : Contents → Contents
get_binded_list m = range_binded (λ module_type id res. (true, insert module_type id res)) m []

unfoldable pub to_map : Contents → Contents
to_map m = inserts [] m

-- FromMap: the keys of `data` replace those of the session.
unfoldable pub from_map : Contents → Contents → Contents
from_map m data' = inserts m data'

unfoldable pub new_session_from_map : Contents → Contents
new_session_from_map data' = from_map [] data'

-- OnlyAddKeyFromSession
unfoldable pub only_add_key_from_session : Contents → Contents → Contents
only_add_key_from_session m [] = m
only_add_key_from_session m ((k, v) ∷ dir) =
    only_add_key_from_session (if has_key k m then m else insert k v m) dir

unfoldable pub get_server_sync_msg : Contents → Bytes → Bytes → SUpdateSession
get_server_sync_msg m from' to = record {
  from_module_id = from';
  to_module_id = to;
  client_conn_id = get_connect_id m;
  session_uuid = get_uuid m;
  session = some (to_map m);
}

-- "*binded*"
abbrev pub binded : Bytes
binded = 42 ∷ 98 ∷ 105 ∷ 110 ∷ 100 ∷ 101 ∷ 100 ∷ 42 ∷ []

-- SyncToBindedModule: the messages that it sends, each to a module.
unfoldable pub sync_to_binded_module : Bytes → Contents → List (Bytes × SUpdateSession)
sync_to_binded_module own m =
    let sync = get_server_sync_msg m own binded in
    range_binded
      (λ module_type id sent. (true, if id =ₛ own then sent else sent ++ ((id, sync) ∷ []))) m []
