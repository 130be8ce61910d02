-- ===== src/Session/Update.antt =====
-- MustUpdateFromMap and the update of a session by the server.
use micserver.Prelude.{
  ℕ, ◌≡◌, ◌≢◌, refl, sym, ap, ◌∙◌, false, Option, none, some, [], ◌==◌, arith, Bool-cases,
  Option-cases, inl, inr, ==_iff, ◌⊎◌,
}
use mathlib.Core.Path.{subst}
use micserver.Dict.{◌=ₛ◌, =ₛ_iff, =ₛ_refl, lookup, insert, lookup-insert, IsMap}
use micserver.Wire.Bytes.{Bytes}
use micserver.Session.{
  Contents, get, get_uuid, from_map, only_add_key_from_session, session_key_uuid, or_empty,
}
use micserver.Session.Contents.{lookup-only_add, lookup-inserts, or_else}
use micserver.Session.Manager.{
  SessionManager, put, get_session, load_or_store, complete, must_update_from_map,
}
use micserver.Session.Filed.{
  Filed, FiledFor, Filed-FiledFor, put-Filed, put-FiledFor, lookup-insert_cases,
}

-- A map that does not give the session another UUID.
abbrev pub Fits : Bytes → Contents → Type 0
Fits uuid data' =
    (lookup session_key_uuid data' ≡ none) ⊎ (lookup session_key_uuid data' ≡ some uuid)

-- After an update of the session at `s` by a map: it is filed under the uuid, and holds the map's
-- keys and those of `base`.
pub record IsUpdated (uuid : Bytes) (s : ℕ) (data' : Contents) (base : Bytes → Option Bytes)
    (r : Option SessionManager) : Type 0 where
  pub after : SessionManager
  pub is : r ≡ some after
  pub filed : Filed after
  pub found : get_session uuid after ≡ some s
  pub holds : (k : Bytes) → lookup k (after.heap s) ≡ or_else (lookup k data') (base k)

-- The session that is filed under the uuid, and if none is, the one at `t`.
unfoldable pub holder : Bytes → ℕ → SessionManager → ℕ
holder uuid t st = elim (get_session uuid st) [ none ↦ t | some b ↦ b ]

pub lookup_uuid :
    (uuid : Bytes) (m : Contents)
    → uuid ≢ []
    → get_uuid m ≡ uuid
    → lookup session_key_uuid m ≡ some uuid
unfolding get_uuid get
lookup_uuid uuid m n e = elim (Option-cases (lookup session_key_uuid m)) [
  | inl en ↦ absurd (n (sym e ∙ ap or_empty en))
  | inr (v, ev) ↦ ev ∙ ap some (sym (ap or_empty ev) ∙ e)
]

pub get_lookup :
    (uuid : Bytes) (m : Contents) → lookup session_key_uuid m ≡ some uuid → get_uuid m ≡ uuid
unfolding get_uuid get
get_lookup uuid m e = rw (e) refl

pub lookup-Fits :
    (uuid : Bytes) (data' base : Contents)
    → IsMap data'
    → Fits uuid data'
    → lookup session_key_uuid base ≡ some uuid
    → get_uuid (from_map base data') ≡ uuid
unfolding from_map
lookup-Fits uuid data' base im f e =
    get_lookup uuid (from_map base data') (lookup-inserts session_key_uuid base data' im ∙ go f)
  where
    go :
        Fits uuid data'
        → or_else (lookup session_key_uuid data') (lookup session_key_uuid base) ≡ some uuid
    go (inl n) = rw (n) e
    go (inr y) = rw (y) refl

put_lem :
    (uuid : Bytes) (s : ℕ) (data' base : Contents) (st : SessionManager)
    → IsMap data'
    → Fits uuid data'
    → FiledFor uuid s st
    → lookup uuid st.sessions ≡ some s
    → lookup session_key_uuid base ≡ some uuid
    → IsUpdated uuid s data' (λ k. lookup k base) (some (put s (from_map base data') st))
unfolding put from_map get_session
put_lem uuid s data' base st im f h found e = record {
  after = put s (from_map base data') st;
  is = refl;
  filed = put-Filed uuid s (from_map base data') st (lookup-Fits uuid data' base im f e) h;
  found = found;
  holds = (λ k. rw ((==_iff s s).1 refl) (lookup-inserts k base data' im));
}

pub or_else-same : (o : Option Bytes) → or_else o o ≡ o
or_else-same none = refl
or_else-same (some v) = refl

widen :
    (uuid : Bytes) (s : ℕ) (data' : Contents) (f g : Bytes → Option Bytes)
    (r : Option SessionManager)
    → ((k : Bytes) → f k ≡ g k)
    → IsUpdated uuid s data' f r
    → IsUpdated uuid s data' g r
widen uuid s data' f g r same u = record {
  after = u.after;
  is = u.is;
  filed = u.filed;
  found = u.found;
  holds = (λ k. u.holds k ∙ ap (or_else (lookup k data')) (same k));
}

-- A session that is filed now, where none was filed under its uuid.
insert-Filed :
    (uuid : Bytes) (t : ℕ) (st : SessionManager)
    → uuid ≢ []
    → get_uuid (st.heap t) ≡ uuid
    → Filed st
    → Filed (record st { sessions = insert uuid t st.sessions })
insert-Filed uuid t st n own h = record {
  filed = (λ u b e. elim (lookup-insert_cases uuid u t b st.sessions e) [
    | inl (eu, et) ↦ ((λ em. n (eu ∙ em)), ap (λ c. get_uuid (st.heap c)) (sym et) ∙ (own ∙ eu))
    | inr el ↦ h.filed u b el
  ]);
}

pub not_empty : (uuid : Bytes) → uuid ≢ [] → (uuid =ₛ []) ≡ false
not_empty uuid n = ground (arith, =ₛ_iff uuid [])

pub own-FiledFor :
    (uuid : Bytes) (s : ℕ) (st : SessionManager)
    → get_uuid (st.heap s) ≡ uuid
    → Filed st
    → FiledFor uuid s st
own-FiledFor uuid s st own h = subst (λ u. FiledFor u s st) own (Filed-FiledFor s st h)

-- The state after the update of the session at `t` itself.
alone :
    (uuid : Bytes) (t : ℕ) (data' : Contents) (st : SessionManager)
    → IsMap data'
    → Fits uuid data'
    → FiledFor uuid t st
    → lookup uuid st.sessions ≡ some t
    → lookup session_key_uuid (st.heap t) ≡ some uuid
    → IsUpdated uuid t data'
        (λ k. or_else (lookup k (st.heap t)) (lookup k (st.heap t)))
        (some (put t (from_map (st.heap t) data') st))
alone uuid t data' st im f h found e =
    widen uuid t data' (λ k. lookup k (st.heap t))
      (λ k. or_else (lookup k (st.heap t)) (lookup k (st.heap t)))
      (some (put t (from_map (st.heap t) data') st))
      (λ k. sym (or_else-same (lookup k (st.heap t))))
      (put_lem uuid t data' (st.heap t) st im f h found e)

pub heap-put : (a : ℕ) (m : Contents) (st : SessionManager) → (put a m st).heap a ≡ m
unfolding put
heap-put a m st = rw ((==_iff a a).1 refl) refl

pub sessions-put :
    (a : ℕ) (m : Contents) (st : SessionManager) (u : Bytes)
    → lookup u (put a m st).sessions ≡ lookup u st.sessions
unfolding put
sessions-put a m st u = refl

-- The state after the update of another session, which is completed first.
completed :
    (uuid : Bytes) (t b : ℕ) (data' : Contents) (st : SessionManager)
    → uuid ≢ []
    → IsMap data'
    → Fits uuid data'
    → Filed st
    → lookup uuid st.sessions ≡ some b
    → IsUpdated uuid b data'
        (λ k. or_else (lookup k (st.heap b)) (lookup k (st.heap t)))
        (some (
          put b
            (from_map ((put b (only_add_key_from_session (st.heap b) (st.heap t)) st).heap b) data')
            (put b (only_add_key_from_session (st.heap b) (st.heap t)) st)))
completed uuid t b data' st n im f h e =
    let base = only_add_key_from_session (st.heap b) (st.heap t) in
    let st₁ = put b base st in
    let own : get_uuid (st.heap b) ≡ uuid = (h.filed uuid b e).1 in
    let has : lookup session_key_uuid base ≡ some uuid =
      lookup-only_add session_key_uuid (st.heap b) (st.heap t)
      ∙ ap (λ o. or_else o (lookup session_key_uuid (st.heap t)))
          (lookup_uuid uuid (st.heap b) n own) in
    rw (heap-put b base st) (
      widen uuid b data' (λ k. lookup k base)
        (λ k. or_else (lookup k (st.heap b)) (lookup k (st.heap t)))
        (some (put b (from_map base data') st₁)) (λ k. lookup-only_add k (st.heap b) (st.heap t))
        (put_lem uuid b data' base st₁ im f
          (put-FiledFor uuid b base st (own-FiledFor uuid b st own h))
          (sessions-put b base st uuid ∙ e) has))

-- MustUpdateFromMap, with a target session whose UUID is not empty and a map that does not change
-- it, where every session is filed under its own UUID: it does not panic, every session is still
-- filed under its own, and the session filed under the UUID (the one that was, or the target) holds
-- the map's values, for the other keys its own, and for the rest those of the target.
pub must_update_from_map-IsUpdated :
    (t : ℕ) (data' : Contents) (st : SessionManager)
    → get_uuid (st.heap t) ≢ []
    → IsMap data'
    → Fits (get_uuid (st.heap t)) data'
    → Filed st
    → IsUpdated
        (get_uuid (st.heap t))
        (holder (get_uuid (st.heap t)) t st)
        data'
        (λ k.
          or_else (lookup k (st.heap (holder (get_uuid (st.heap t)) t st))) (lookup k (st.heap t)))
        (must_update_from_map t data' st)
unfolding must_update_from_map holder load_or_store get_session complete
must_update_from_map-IsUpdated t data' st n im f h =
    let uuid = get_uuid (st.heap t) in
    let ne : (uuid =ₛ []) ≡ false = not_empty uuid n in
    elim (Option-cases (lookup uuid st.sessions)) [
      | inl e ↦
          let st₁ : SessionManager = record st { sessions = insert uuid t st.sessions } in
          rw (must_update_from_map, holder, load_or_store, ne, e)
            (alone uuid t data' st₁ im f
              (own-FiledFor uuid t st₁ refl (insert-Filed uuid t st n refl h))
              (rw (lookup-insert uuid uuid t st.sessions, =ₛ_refl uuid) refl)
              (lookup_uuid uuid (st.heap t) n refl))
      | inr (b, e) ↦ elim (Bool-cases (b == t)) [
        | inl same ↦
            let bt : b ≡ t = (==_iff b t).0 same in
            rw (must_update_from_map, holder, load_or_store, ne, e, same, bt)
              (alone uuid t data' st im f (own-FiledFor uuid t st refl h) (e ∙ ap some bt)
                (lookup_uuid uuid (st.heap t) n refl))
        | inr other ↦
            rw (must_update_from_map, holder, load_or_store, ne, e, other)
              (completed uuid t b data' st n im f h e)
      ]
    ]
