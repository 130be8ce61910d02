-- ===== src/Session/Tests.antt =====
-- Sessions of two clients: at 0 one with the uuid "u", bound to a module, at 1 one without a uuid.
use micserver.Prelude.{
  replicate, length-replicate, ℕ, ◌≡◌, ◌≢◌, refl, sym, ◌∙◌, Option, none, some, [], ◌∷◌, ◌++◌, ◌==◌,
  if◌then◌else◌, arith, inl,
}
use micserver.Dict.{inserts, lookup, insert, ◌=ₛ◌, IsMap}
use micserver.Wire.Bytes.{Bytes}
use micserver.Wire.Sizes.{sum_sizes, size_pair}
use micserver.Wire.Sessions.{size_s_update_session}
use micserver.Session.{
  get_server_sync_msg, get_connect_id, binded, to_map, range_binded, binded_type, from_map,
  Contents, get, get_uuid, session_key_uuid, session_key_bind_head, session_key_connect_id,
  get_binded_list, to_map, split, split_from, has_prefix,
}
use micserver.Session.Contents.{or_else}
use micserver.Session.Carried.{carry, get_server_sync_msg-IsSynced}
use micserver.Session.Bound.{headless, get_binded_list-lookup}
use micserver.Session.Manager.{
  load_or_store, SessionManager, put, store, get_session, must_update_from_map, update_session_uuid,
}
use micserver.Session.Handler.{
  update_connected, choose_session, session_or_new, on_update_session, must_update_session_from_map,
}
use micserver.Session.Filed.{Filed, store-Filed, update_session_uuid-Filed}
use micserver.Session.Update.{Fits, IsUpdated, holder, must_update_from_map-IsUpdated}
use micserver.Session.Ready.{IsSynced}
use micserver.Session.Synced.{target, on_update_session-IsSynced, must_update_session_from_map_lem}
use micserver.Session.Renamed.{IsRenamed, update_session_uuid-IsRenamed}

abbrev uuid_u : Bytes
uuid_u = 117 ∷ []

abbrev uuid_w : Bytes
uuid_w = 119 ∷ []

-- Bound to the module "gate1" of the type "gate".
abbrev gate : Bytes
gate = 103 ∷ 97 ∷ 116 ∷ 101 ∷ []

abbrev first : Contents
first = (session_key_uuid, uuid_u) ∷ ((session_key_bind_head ++ gate, gate ++ (49 ∷ [])) ∷ [])

abbrev second : Contents
second = (session_key_connect_id, 55 ∷ []) ∷ []

abbrev heap_of_two : ℕ → Contents
heap_of_two a = if a == 0 then first else if a == 1 then second else []

abbrev no_sessions : SessionManager
no_sessions = record { heap = heap_of_two; sessions = [] }

abbrev one_filed : SessionManager
one_filed = record { heap = heap_of_two; sessions = (uuid_u, 0) ∷ [] }

no_sessions-Filed : Filed no_sessions
unfolding lookup
no_sessions-Filed = record { filed = (λ u a e. ground (arith, e)) }

one_filed-Filed : Filed one_filed
unfolding store get_uuid get lookup insert ◌=ₛ◌
one_filed-Filed = store-Filed 0 no_sessions no_sessions-Filed

unused : (u : Bytes) → lookup u one_filed.sessions ≢ some 5
unfolding lookup ◌=ₛ◌
unused u e = ground (arith, e)

uuid_u-full : uuid_u ≢ []
uuid_u-full e = ground (arith, e)

first-IsMap : IsMap first
first-IsMap = (((λ e. ground (arith, e)), tt), (tt, tt))

first_bound : get_binded_list first ≡ (gate, gate ++ (49 ∷ [])) ∷ []
unfolding get_binded_list range_binded binded_type split split_from has_prefix insert
first_bound = refl

update_session_uuid-Filed_example : Filed (update_session_uuid uuid_w (some 0) one_filed)
update_session_uuid-Filed_example =
    update_session_uuid-Filed uuid_w (some 0) one_filed one_filed-Filed

uuid_of_first : get_uuid (one_filed.heap 0) ≡ uuid_u
unfolding get_uuid get lookup ◌=ₛ◌
uuid_of_first = refl

update_session_uuid-IsRenamed_example :
    IsRenamed uuid_u 1 one_filed (update_session_uuid uuid_u (some 1) one_filed)
update_session_uuid-IsRenamed_example =
    update_session_uuid-IsRenamed uuid_u 1 one_filed uuid_u-full one_filed-Filed

first_without_uuid : lookup session_key_uuid second ≡ none
unfolding lookup ◌=ₛ◌
first_without_uuid = refl

must_update_from_map-IsUpdated_example :
    IsUpdated
      (get_uuid (one_filed.heap 0))
      (holder (get_uuid (one_filed.heap 0)) 0 one_filed)
      second
      (λ k.
        or_else
          (lookup k (one_filed.heap (holder (get_uuid (one_filed.heap 0)) 0 one_filed)))
          (lookup k (one_filed.heap 0)))
      (must_update_from_map 0 second one_filed)
must_update_from_map-IsUpdated_example =
    must_update_from_map-IsUpdated 0 second one_filed (λ e. uuid_u-full (sym uuid_of_first ∙ e))
      (tt, tt) (inl first_without_uuid) one_filed-Filed

-- The client at 1 logs in as "u", which is filed already.
uuid_of_second : get_uuid (one_filed.heap 1) ≡ []
unfolding get_uuid get lookup ◌=ₛ◌
uuid_of_second = refl

on_update_session-IsSynced_example :
    IsSynced uuid_u
      (target uuid_u (some 1) 5 one_filed)
      first
      (on_update_session (some 1) uuid_u first 5 one_filed)
on_update_session-IsSynced_example =
    on_update_session-IsSynced (some 1) uuid_u first 5 one_filed one_filed-Filed uuid_u-full
      first-IsMap uuid_of_first (inl uuid_of_second) unused

must_update_session_from_map_lem_example :
    (uuid_w ≡ [] → must_update_session_from_map uuid_w second 5 one_filed ≡ none)
    × (uuid_w ≢ []
        → IsMap second
        → Fits uuid_w second
        → IsSynced uuid_w
            (target uuid_w none 5 one_filed)
            second
            (must_update_session_from_map uuid_w second 5 one_filed))
must_update_session_from_map_lem_example =
    must_update_session_from_map_lem uuid_w second 5 one_filed one_filed-Filed unused

get_binded_list-lookup_example :
    lookup gate (get_binded_list first)
    ≡ (if headless gate then lookup (session_key_bind_head ++ gate) first else none)
get_binded_list-lookup_example = get_binded_list-lookup gate first first-IsMap

abbrev zeros : ℕ → Bytes
zeros n = replicate n 0

-- The session on the module "a" becomes known to a module where the client's session is the second.
get_server_sync_msg-IsSynced_example :
    IsSynced uuid_u
      (target uuid_u (some 1) 5 one_filed)
      first
      (carry zeros 0 (get_server_sync_msg first (97 ∷ []) binded) (λ id. some 1) 5 one_filed)
unfolding get_server_sync_msg size_s_update_session sum_sizes size_pair get_uuid get_connect_id get
    to_map inserts insert lookup ◌=ₛ◌
get_server_sync_msg-IsSynced_example =
    get_server_sync_msg-IsSynced zeros 0 (λ n. length-replicate n 0) (97 ∷ []) binded first
      (λ id. some 1) 5 one_filed first-IsMap uuid_u-full (omega arith) one_filed-Filed
      (inl uuid_of_second) unused

-- A client whose session is filed under "u" becomes "w": the session stays filed under "u" as well.
abbrev filed_uuid : Option SessionManager → Option Bytes
filed_uuid none = none
filed_uuid (some st) = elim (get_session uuid_u st) [
  | none ↦ none
  | some a ↦ some (get_uuid (st.heap a))
]

client_keeps_old_uuid :
    filed_uuid (on_update_session (some 0) uuid_w ((session_key_uuid, uuid_w) ∷ []) 5 one_filed)
    ≡ some uuid_w
unfolding on_update_session update_connected choose_session session_or_new must_update_from_map
    load_or_store get_session put get_uuid get from_map inserts insert lookup ◌=ₛ◌
client_keeps_old_uuid = refl
