-- ===== src/Session/Manager.antt =====
-- session/manager.go. Sessions are shared objects: the heap gives the contents at each address, and
-- the manager files addresses under UUIDs. The program never files a nil session.
use micserver.Prelude.{
  ℕ, Bool, true, false, Option, none, some, List, [], ◌==◌, if◌then◌else◌, not, ◌&&◌,
}
use micserver.Dict.{◌=ₛ◌, lookup, insert, erase}
use micserver.Wire.Bytes.{Bytes}
use micserver.Session.{Contents, get_uuid, set_uuid, from_map, only_add_key_from_session}

pub record SessionManager : Type 0 where
  pub heap : ℕ → Contents
  pub sessions : List (Bytes × ℕ)

-- The session at an address becomes `m`.
unfoldable pub put : ℕ → Contents → SessionManager → SessionManager
put a m st = record st { heap = (λ b. if a == b then m else st.heap b) }

-- get, with which GetSession is one.
unfoldable pub get_session : Bytes → SessionManager → Option ℕ
get_session uuid st = lookup uuid st.sessions

unfoldable pub store : ℕ → SessionManager → SessionManager
store a st =
    let uuid = get_uuid (st.heap a) in
    if uuid =ₛ [] then st else record st { sessions = insert uuid a st.sessions }

-- loadOrStore: the session under the uuid, and whether it was there before.
unfoldable pub load_or_store : Bytes → ℕ → SessionManager → (ℕ × Bool) × SessionManager
load_or_store uuid a st = elim (lookup uuid st.sessions) [
  | some b ↦ ((b, true), st)
  | none ↦ ((a, false), record st { sessions = insert uuid a st.sessions })
]

-- delete and DeleteSession
unfoldable pub delete_session : Bytes → SessionManager → SessionManager
delete_session uuid st = record st { sessions = erase uuid st.sessions }

-- OnlyAddKeyFromSession on the session at `a`, from the one at `dir`.
unfoldable pub complete : ℕ → ℕ → SessionManager → SessionManager
complete a dir st = put a (only_add_key_from_session (st.heap a) (st.heap dir)) st

-- MustUpdateFromMap, `none` where it panics.
unfoldable pub must_update_from_map : ℕ → Contents → SessionManager → Option SessionManager
must_update_from_map target data' st =
    let uuid = get_uuid (st.heap target) in
    if uuid =ₛ []
    then none
    else let ((session, is_load), st₁) = load_or_store uuid target st in
      let st₂ = if is_load && not (session == target) then complete session target st₁ else st₁ in
      some (put session (from_map (st₂.heap session) data') st₂)

-- The parts of UpdateSessionUUID that complete the session from those filed under a uuid, `from_old`
-- from the one under its own, which goes away when the uuid changes.
unfoldable pub complete_from : Bytes → ℕ → SessionManager → SessionManager
complete_from uuid session st = elim (get_session uuid st) [
  | none ↦ st
  | some other ↦ if other == session then st else complete session other st
]

unfoldable pub from_old : Bytes → ℕ → SessionManager → SessionManager
from_old uuid session st =
    let old_uuid = get_uuid (st.heap session) in
    if old_uuid =ₛ [] then st else elim (get_session old_uuid st) [
      | none ↦ st
      | some other ↦
          let st₁ = if other == session then st else complete session other st in
          if uuid =ₛ old_uuid then st₁ else delete_session old_uuid st₁
    ]

unfoldable pub file_under : Bytes → ℕ → SessionManager → SessionManager
file_under uuid session st = store session (put session (set_uuid uuid (st.heap session)) st)

unfoldable pub update_session_uuid : Bytes → Option ℕ → SessionManager → SessionManager
update_session_uuid uuid none st = st
update_session_uuid uuid (some session) st =
    file_under uuid session (complete_from uuid session (from_old uuid session st))
