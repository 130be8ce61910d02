-- ===== src/Session/Carried.antt =====
-- A session that is sent to another module, from SyncToBindedModule to onUpdateSession.
use micserver.Prelude.{ℕ, ◌<◌, ◌^◌, ◌≡◌, ◌≢◌, refl, sym, ap, ◌∙◌, Option, none, some, [], length}
use mathlib.Core.Path.{subst}
use micserver.Dict.{lookup, IsMap}
use micserver.Wire.Bytes.{Bytes}
use micserver.Wire.Read.{ReadResult}
use micserver.Wire.Write.{elements}
use micserver.Wire.Run.{run_writer}
use micserver.Wire.Sessions.{
  SUpdateSession, new_s_update_session, size_s_update_session, write_s_update_session,
  read_s_update_session,
}
use micserver.Wire.Sessions.RoundTrip.{IsSUpdateSession}
use micserver.Wire.Commands.{Command, into, get_size, write_binary, read_binary, blank}
use micserver.Wire.Commands.RoundTrip.{command-Survives}
use micserver.Session.{Contents, get_uuid, get_connect_id, get_server_sync_msg}
use micserver.Session.Contents.{to_map_lem}
use micserver.Session.Manager.{SessionManager}
use micserver.Session.Handler.{on_update_session, on_read_update_session, on_recv_update_session}
use micserver.Session.Filed.{Filed}
use micserver.Session.Ready.{IsSynced}
use micserver.Session.Synced.{Connected, target, on_update_session-IsSynced}

-- The content of a message, if WriteBinary did not panic, reaches the handler.
abbrev pub deliver :
    Option (Bytes × ℕ) → ℕ → (Bytes → Option ℕ) → ℕ → SessionManager → Option SessionManager
deliver none spare clients fresh st = none
deliver (some (proto_data, n)) spare clients fresh st =
    on_recv_update_session proto_data spare clients fresh st

-- The message written into a buffer of the size that GetSize gives, whose old content is `memory`, and
-- handled on the other side.
abbrev pub carry :
    (ℕ → Bytes)
    → ℕ
    → SUpdateSession
    → (Bytes → Option ℕ)
    → ℕ
    → SessionManager
    → Option SessionManager
carry memory spare m clients fresh st =
    deliver (run_writer (write_s_update_session (some m)) (memory (size_s_update_session (some m))))
      spare clients fresh st

abbrev handled :
    Option (ℕ × Command) → (Bytes → Option ℕ) → ℕ → SessionManager → Option SessionManager
handled (some (n, Command.s_update_session m)) clients fresh st =
    on_update_session (clients m.client_conn_id) m.session_uuid (elements m.session) fresh st
handled _ clients fresh st = none

update_into :
    (r : ReadResult SUpdateSession) (clients : Bytes → Option ℕ) (fresh : ℕ) (st : SessionManager)
    → on_read_update_session r clients fresh st
      ≡ handled (into Command.s_update_session new_s_update_session r) clients fresh st
unfolding on_read_update_session
update_into none clients fresh st = refl
update_into (some (n, none)) clients fresh st = refl
update_into (some (n, some m)) clients fresh st = refl

module _ (memory : ℕ → Bytes) (spare : ℕ) (sized : (n : ℕ) → length (memory n) ≡ n) where
  carry_lem :
      (m : SUpdateSession) (clients : Bytes → Option ℕ) (fresh : ℕ) (st : SessionManager)
      → IsSUpdateSession m
      → carry memory spare m clients fresh st
        ≡ on_update_session (clients m.client_conn_id) m.session_uuid (elements m.session) fresh st
  unfolding on_recv_update_session write_binary read_binary blank get_size
  carry_lem m clients fresh st h =
      let size = size_s_update_session (some m) in
      let (bs, n, written, read, l) =
        command-Survives (Command.s_update_session m) (memory size) spare h (sized size) in
      ap (λ r. deliver r spare clients fresh st) written
      ∙ (update_into (read_s_update_session bs spare (some new_s_update_session)) clients fresh st
          ∙ ap (λ r. handled r clients fresh st) read)

  -- A session with a UUID, sent by getServerSyncMsg through the encoding (each key once, of a size that
  -- four bytes hold) to a module where every session is filed under its own UUID and the client's
  -- session, if there is one, has no other UUID: nothing panics, every session is still filed under
  -- its own, and the client's session (without a client the one filed, and without that a new one)
  -- is filed under the UUID and has the value of every key of the session that was sent.
  pub get_server_sync_msg-IsSynced :
      (own to : Bytes) (m : Contents) (clients : Bytes → Option ℕ) (fresh : ℕ) (st : SessionManager)
      → IsMap m
      → get_uuid m ≢ []
      → size_s_update_session (some (get_server_sync_msg m own to)) < 2 ^ 32
      → Filed st
      → Connected (get_uuid m) (clients (get_connect_id m)) st
      → ((u : Bytes) → lookup u st.sessions ≢ some fresh)
      → IsSynced
          (get_uuid m)
          (target (get_uuid m) (clients (get_connect_id m)) fresh st)
          m
          (carry memory spare (get_server_sync_msg m own to) clients fresh st)
  unfolding get_server_sync_msg
  get_server_sync_msg-IsSynced own to m clients fresh st im n small filed client unused =
      let msg = get_server_sync_msg m own to in
      let same = to_map_lem m im in
      let carried : carry memory spare msg clients fresh st
          ≡ on_update_session (clients (get_connect_id m)) (get_uuid m) m fresh st =
        carry_lem msg clients fresh st
          (record { session_keys = subst IsMap (sym same) im; size_fits = small })
        ∙ ap (λ d. on_update_session (clients (get_connect_id m)) (get_uuid m) d fresh st) same in
      subst (IsSynced (get_uuid m) (target (get_uuid m) (clients (get_connect_id m)) fresh st) m)
        (sym carried)
        (on_update_session-IsSynced (clients (get_connect_id m)) (get_uuid m) m fresh st filed n im
          refl client unused)
