-- ===== src/Session/Handler.antt =====
-- What the server does with sessions: server/servercmd_handler.go and server/server.go. `fresh` is
-- the address of the session that the code makes there, and `connected` the session of the client
-- of a message, if the server is a gate and has that client.
use micserver.Prelude.{ℕ, Option, none, some, [], ◌==◌, if◌then◌else◌}
use micserver.Dict.{◌=ₛ◌}
use micserver.Wire.Bytes.{Bytes}
use micserver.Wire.Read.{ReadResult}
use micserver.Wire.Write.{elements}
use micserver.Wire.Sessions.{SUpdateSession, new_s_update_session, read_s_update_session}
use micserver.Session.{Contents, get_uuid, from_map, new_session_from_map}
use micserver.Session.Manager.{
  SessionManager, put, get_session, store, complete, must_update_from_map, update_session_uuid,
}

-- GetSession, or a new one: `s = &session.Session{}` with UpdateSessionUUID.
unfoldable pub new_session : Bytes → ℕ → SessionManager → ℕ × SessionManager
new_session uuid fresh st = (fresh, update_session_uuid uuid (some fresh) (put fresh [] st))

unfoldable pub session_or_new : Bytes → ℕ → Option ℕ → SessionManager → ℕ × SessionManager
session_or_new uuid fresh none st = new_session uuid fresh st
session_or_new uuid fresh (some s) st = (s, st)

-- MustUpdateSessionFromMap of the server.
unfoldable pub must_update_session_from_map :
    Bytes → Contents → ℕ → SessionManager → Option SessionManager
must_update_session_from_map uuid data' fresh st =
    let (s, st₁) = session_or_new uuid fresh (get_session uuid st) st in
    must_update_from_map s data' st₁

-- The session that onUpdateSession updates, when there is one: the connected one, which is filed
-- in place of another under the uuid, or the one filed.
unfoldable pub choose_session : Bytes → Option ℕ → SessionManager → Option ℕ × SessionManager
choose_session uuid none st = (get_session uuid st, st)
choose_session uuid (some c) st = elim (get_session uuid st) [
  | none ↦ (some c, st)
  | some local ↦ if c == local then (some local, st) else (some c, store c (complete c local st))
]

-- onUpdateSession
unfoldable pub update_connected : Option ℕ → Contents → SessionManager → SessionManager
update_connected none data' st = st
update_connected (some c) data' st = put c (from_map (st.heap c) data') st

unfoldable pub on_update_session :
    Option ℕ → Bytes → Contents → ℕ → SessionManager → Option SessionManager
on_update_session connected uuid data' fresh st =
    let st₁ = update_connected connected data' st in
    if uuid =ₛ []
    then some st₁
    else let (chosen, st₂) = choose_session uuid connected st₁ in
      let (s, st₃) = session_or_new uuid fresh chosen st₂ in must_update_from_map s data' st₃

-- The case SUpdateSessionID of OnRecvSubnetMsg: the content is read into a new command. `clients` are
-- the sessions of a gate's clients by their ids. A panic, of the reader or later, is `none`.
unfoldable pub on_read_update_session :
    ReadResult SUpdateSession → (Bytes → Option ℕ) → ℕ → SessionManager → Option SessionManager
on_read_update_session none clients fresh st = none
on_read_update_session (some (n, none)) clients fresh st =
    on_update_session (clients []) [] [] fresh st
on_read_update_session (some (n, some layer_msg)) clients fresh st =
    on_update_session (clients layer_msg.client_conn_id) layer_msg.session_uuid
      (elements layer_msg.session) fresh st

unfoldable pub on_recv_update_session :
    Bytes → ℕ → (Bytes → Option ℕ) → ℕ → SessionManager → Option SessionManager
on_recv_update_session proto_data spare clients fresh st =
    on_read_update_session (read_s_update_session proto_data spare (some new_s_update_session))
      clients fresh st

-- The session that onForwardFromGate hands on: the one filed under the UUID of the map, or a new one
-- from the map.
unfoldable pub session_of_forward : Contents → ℕ → SessionManager → ℕ × SessionManager
session_of_forward data' fresh st =
    let uuid = get_uuid data' in
    elim (if uuid =ₛ [] then none else get_session uuid st) [
      | some s ↦ (s, st)
      | none ↦ (fresh, put fresh (new_session_from_map data') st)
    ]
