-- ===== src/Session/Synced.antt =====
-- What the server's handlers make of a session that another module sends.
use micserver.Prelude.{
  ℕ, ◌≡◌, ◌≢◌, refl, sym, ap, ◌∙◌, Option, none, some, [], ◌==◌, Bool-cases, Option-cases, inl, inr,
  ==_iff, ◌⊎◌,
}
use mathlib.Core.Path.{subst}
use micserver.Dict.{◌=ₛ◌, lookup, IsMap}
use micserver.Wire.Bytes.{Bytes}
use micserver.Session.{
  Contents, get_uuid, set_uuid, from_map, only_add_key_from_session, session_key_uuid,
}
use micserver.Session.Contents.{lookup-only_add, lookup-inserts, or_else}
use micserver.Session.Manager.{
  SessionManager, put, get_session, complete, must_update_from_map, update_session_uuid, file_under,
  complete_from, from_old,
}
use micserver.Session.Handler.{
  new_session, session_or_new, choose_session, update_connected, on_update_session,
  must_update_session_from_map,
}
use micserver.Session.Filed.{
  Filed, FiledFor, Filed-FiledFor, FiledFor-empty, put-Filed, store-Filed, get_uuid-set_uuid,
}
use micserver.Session.Update.{not_empty, own-FiledFor, heap-put, lookup_uuid, get_lookup, Fits}
use micserver.Session.Ready.{
  IsReady, IsSynced, must_update-IsSynced, store-heap, store-IsReady, new_session-IsReady,
}

-- What onUpdateSession asks of the client's session.
abbrev pub Connected : Bytes → Option ℕ → SessionManager → Type 0
Connected uuid none st = Unit
Connected uuid (some c) st = (get_uuid (st.heap c) ≡ []) ⊎ (get_uuid (st.heap c) ≡ uuid)

-- From here on, the client's session has the uuid.
connected_own :
    (uuid : Bytes) (c : ℕ) (data' : Contents) (st : SessionManager)
    → IsMap data'
    → uuid ≢ []
    → get_uuid data' ≡ uuid
    → get_uuid (from_map (st.heap c) data') ≡ uuid
unfolding from_map
connected_own uuid c data' st im n e = get_lookup uuid (from_map (st.heap c) data') (
    lookup-inserts session_key_uuid (st.heap c) data' im
    ∙ ap (λ o. or_else o (lookup session_key_uuid (st.heap c))) (lookup_uuid uuid data' n e))

Connected-FiledFor :
    (uuid : Bytes) (c : ℕ) (st : SessionManager)
    → Connected uuid (some c) st
    → Filed st
    → FiledFor uuid c st
Connected-FiledFor uuid c st (inl e) h =
    FiledFor-empty uuid c st (subst (λ u. FiledFor u c st) e (Filed-FiledFor c st h))
Connected-FiledFor uuid c st (inr e) h = own-FiledFor uuid c st e h

choose-IsReady :
    (uuid : Bytes) (c : ℕ) (st : SessionManager)
    → uuid ≢ []
    → Filed st
    → get_uuid (st.heap c) ≡ uuid
    → ((choose_session uuid (some c) st).0 ≡ some c)
      × IsReady uuid c (choose_session uuid (some c) st).1
unfolding choose_session complete get_session
choose-IsReady uuid c st n h own = elim (Option-cases (get_session uuid st)) [
  | inl e ↦ rw (choose_session, e) (refl, record { filed = h; own = own; available = inr e })
  | inr (b, e) ↦ elim (Bool-cases (c == b)) [
    | inl same ↦
        let cb : c ≡ b = (==_iff c b).0 same in
        rw (choose_session, e, same)
          (
            ap some (sym cb),
            record { filed = h; own = own; available = inl (e ∙ ap some (sym cb)) },
          )
    | inr other ↦
        let m = only_add_key_from_session (st.heap c) (st.heap b) in
        let st₁ = put c m st in
        let own₁ : get_uuid m ≡ uuid = get_lookup uuid m (
          lookup-only_add session_key_uuid (st.heap c) (st.heap b)
          ∙ ap (λ o. or_else o (lookup session_key_uuid (st.heap b)))
              (lookup_uuid uuid (st.heap c) n own)) in
        let h₁ : Filed st₁ = put-Filed uuid c m st own₁ (own-FiledFor uuid c st own h) in
        rw (choose_session, e, other)
          (
            refl,
            store-IsReady uuid c st₁ n (ap get_uuid (heap-put c m st) ∙ own₁)
                (store-Filed c st₁ h₁),
          )
  ]
]

-- The session that an update is for: that of the client, or the one filed under the uuid, or a new
-- one.
unfoldable pub target : Bytes → Option ℕ → ℕ → SessionManager → ℕ
target uuid (some c) fresh st = c
target uuid none fresh st = elim (get_session uuid st) [ none ↦ fresh | some s ↦ s ]

-- onUpdateSession, of a message from a session with a UUID, where every session is filed under its
-- own UUID and the client's session, if there is one, has no other UUID: it does not panic, every
-- session is still filed under its own, and the client's session (without a client the one filed,
-- and without that a new one) is filed under the UUID and has the value of every key of the message.
pub on_update_session-IsSynced :
    (connected : Option ℕ) (uuid : Bytes) (data' : Contents) (fresh : ℕ) (st : SessionManager)
    → Filed st
    → uuid ≢ []
    → IsMap data'
    → get_uuid data' ≡ uuid
    → Connected uuid connected st
    → ((u : Bytes) → lookup u st.sessions ≢ some fresh)
    → IsSynced uuid
        (target uuid connected fresh st)
        data'
        (on_update_session connected uuid data' fresh st)
unfolding on_update_session target update_connected session_or_new new_session choose_session
    get_session
on_update_session-IsSynced (some c) uuid data' fresh st h n im e own unused =
    let m = from_map (st.heap c) data' in
    let st₁ = put c m st in
    let own₁ : get_uuid m ≡ uuid = connected_own uuid c data' st im n e in
    let (chosen, ready) =
      choose-IsReady uuid c st₁ n (put-Filed uuid c m st own₁ (Connected-FiledFor uuid c st own h))
        (ap get_uuid (heap-put c m st) ∙ own₁) in
    rw (on_update_session, not_empty uuid n, chosen)
      (must_update-IsSynced uuid c data' (choose_session uuid (some c) st₁).1 n im
        (inr (lookup_uuid uuid data' n e)) ready)
on_update_session-IsSynced none uuid data' fresh st h n im e own unused =
    elim (Option-cases (lookup uuid st.sessions)) [
      | inl en ↦
          rw (on_update_session, target, not_empty uuid n, en)
            (must_update-IsSynced uuid fresh data'
              (update_session_uuid uuid (some fresh) (put fresh [] st)) n im
              (inr (lookup_uuid uuid data' n e)) (new_session-IsReady uuid fresh st n unused h))
      | inr (s, es) ↦
          rw (on_update_session, target, not_empty uuid n, es)
            (must_update-IsSynced uuid s data' st n im (inr (lookup_uuid uuid data' n e))
              (record { filed = h; own = (h.filed uuid s es).1; available = inl es }))
    ]

-- A new session for the empty UUID has the empty one.
new_session-empty :
    (fresh : ℕ) (st : SessionManager)
    → get_uuid ((update_session_uuid [] (some fresh) st).heap fresh) ≡ []
unfolding update_session_uuid file_under
new_session-empty fresh st =
    let st₁ = complete_from [] fresh (from_old [] fresh st) in
    let m = set_uuid [] (st₁.heap fresh) in
    ap get_uuid (store-heap fresh fresh (put fresh m st₁) ∙ heap-put fresh m st₁)
    ∙ get_uuid-set_uuid [] (st₁.heap fresh)

nothing-Filed : (st : SessionManager) → Filed st → lookup [] st.sessions ≡ none
nothing-Filed st h = elim (Option-cases (lookup [] st.sessions)) [
  | inl e ↦ e
  | inr (b, e) ↦ absurd ((h.filed [] b e).0 refl)
]

-- MustUpdateSessionFromMap, where every session is filed under its own UUID: for the empty UUID it
-- panics; for another, and a map that gives no other, it does not, and the session filed under the
-- UUID, or a new one, is filed there and has the map's values.
pub must_update_session_from_map_lem :
    (uuid : Bytes) (data' : Contents) (fresh : ℕ) (st : SessionManager)
    → Filed st
    → ((u : Bytes) → lookup u st.sessions ≢ some fresh)
    → (uuid ≡ [] → must_update_session_from_map uuid data' fresh st ≡ none)
      × (uuid ≢ []
          → IsMap data'
          → Fits uuid data'
          → IsSynced uuid
              (target uuid none fresh st)
              data'
              (must_update_session_from_map uuid data' fresh st))
unfolding must_update_session_from_map target session_or_new new_session get_session
    must_update_from_map ◌=ₛ◌
must_update_session_from_map_lem uuid data' fresh st h unused = (
  (λ em.
      rw
        (
          em,
          must_update_session_from_map,
          nothing-Filed st h,
          must_update_from_map,
          new_session-empty fresh (put fresh [] st),
        )
        refl),
  (λ n im f. elim (Option-cases (lookup uuid st.sessions)) [
    | inl en ↦
        rw (must_update_session_from_map, target, en)
          (must_update-IsSynced uuid fresh data'
            (update_session_uuid uuid (some fresh) (put fresh [] st)) n im f
            (new_session-IsReady uuid fresh st n unused h))
    | inr (s, es) ↦
        rw (must_update_session_from_map, target, es)
          (must_update-IsSynced uuid s data' st n im f
            (record { filed = h; own = (h.filed uuid s es).1; available = inl es }))
  ]),
)
