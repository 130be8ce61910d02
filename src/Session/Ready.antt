-- ===== src/Session/Ready.antt =====
-- Sessions that are filed under a uuid, or can be.
use micserver.Prelude.{
  ℕ, ◌≡◌, ◌≢◌, refl, sym, ap, ◌∙◌, Option, none, some, [], Bool-cases, inl, inr, ◌⊎◌,
}
use mathlib.Core.Path.{subst}
use micserver.Dict.{◌=ₛ◌, =ₛ_refl, lookup, lookup-insert, IsMap}
use micserver.Wire.Bytes.{Bytes}
use micserver.Session.{Contents, get_uuid, set_uuid}
use micserver.Session.Contents.{or_else}
use micserver.Session.Manager.{
  SessionManager, put, get_session, store, must_update_from_map, update_session_uuid, file_under,
  complete_from, from_old,
}
use micserver.Session.Filed.{Filed, get_uuid-set_uuid, update_session_uuid-Filed, ≢_to}
use micserver.Session.Update.{
  IsUpdated, holder, not_empty, heap-put, must_update_from_map-IsUpdated, Fits,
}

-- A session that is filed under the uuid, or can be: nothing else is.
pub record IsReady (uuid : Bytes) (s : ℕ) (st : SessionManager) : Type 0 where
  pub filed : Filed st
  pub own : get_uuid (st.heap s) ≡ uuid
  pub available : (lookup uuid st.sessions ≡ some s) ⊎ (lookup uuid st.sessions ≡ none)

-- After a map for a uuid has come in: the session at `s` is filed under the uuid and holds the
-- map's values.
pub record IsSynced (uuid : Bytes) (s : ℕ) (data' : Contents) (r : Option SessionManager)
    : Type 0 where
  pub after : SessionManager
  pub is : r ≡ some after
  pub filed : Filed after
  pub found : get_session uuid after ≡ some s
  pub holds : (k v : Bytes) → lookup k data' ≡ some v → lookup k (after.heap s) ≡ some v

pub holder-IsReady :
    (uuid : Bytes) (s : ℕ) (st : SessionManager) → IsReady uuid s st → holder uuid s st ≡ s
unfolding holder get_session
holder-IsReady uuid s st h = elim (h.available) [
  | inl e ↦ rw (holder, e) refl
  | inr e ↦ rw (holder, e) refl
]

pub IsSynced-IsUpdated :
    (uuid : Bytes) (s : ℕ) (data' : Contents) (base : Bytes → Option Bytes)
    (r : Option SessionManager)
    → IsUpdated uuid s data' base r
    → IsSynced uuid s data' r
IsSynced-IsUpdated uuid s data' base r u = record {
  after = u.after;
  is = u.is;
  filed = u.filed;
  found = u.found;
  holds = (λ k v e. u.holds k ∙ ap (λ o. or_else o (base k)) e);
}

pub IsSynced-at :
    (u uuid : Bytes) (t s : ℕ) (data' : Contents) (r : Option SessionManager)
    → u ≡ uuid
    → t ≡ s
    → IsSynced u t data' r
    → IsSynced uuid s data' r
IsSynced-at u uuid t s data' r eu et h =
    subst (λ q. IsSynced uuid q data' r) et (subst (λ q. IsSynced q t data' r) eu h)

pub must_update-IsSynced :
    (uuid : Bytes) (s : ℕ) (data' : Contents) (st : SessionManager)
    → uuid ≢ []
    → IsMap data'
    → Fits uuid data'
    → IsReady uuid s st
    → IsSynced uuid s data' (must_update_from_map s data' st)
must_update-IsSynced uuid s data' st n im f h =
    let u = get_uuid (st.heap s) in
    let own : u ≡ uuid = h.own in
    let base : Bytes → Option Bytes =
      (λ k. or_else (lookup k (st.heap (holder u s st))) (lookup k (st.heap s))) in
    IsSynced-at u uuid (holder u s st) s data' (must_update_from_map s data' st) own
      (ap (λ q. holder q s st) own ∙ holder-IsReady uuid s st h)
      (IsSynced-IsUpdated u (holder u s st) data' base (must_update_from_map s data' st) (
        must_update_from_map-IsUpdated s data' st (λ e. n (sym own ∙ e)) im
          (subst (λ q. Fits q data') (sym own) f) h.filed))

pub store-heap : (a b : ℕ) (st : SessionManager) → (store a st).heap b ≡ st.heap b
unfolding store
store-heap a b st = elim (Bool-cases (get_uuid (st.heap a) =ₛ [])) [
  | inl e ↦ rw (store, e) refl
  | inr e ↦ rw (store, e) refl
]

pub store_found :
    (uuid : Bytes) (a : ℕ) (st : SessionManager)
    → uuid ≢ []
    → get_uuid (st.heap a) ≡ uuid
    → lookup uuid (store a st).sessions ≡ some a
unfolding store
store_found uuid a st n own =
    rw (store, own, not_empty uuid n, lookup-insert uuid uuid a st.sessions, =ₛ_refl uuid) refl

-- A session that gets the uuid as its own and is stored.
pub store-IsReady :
    (uuid : Bytes) (a : ℕ) (st : SessionManager)
    → uuid ≢ []
    → get_uuid (st.heap a) ≡ uuid
    → Filed (store a st)
    → IsReady uuid a (store a st)
store-IsReady uuid a st n own h = record {
  filed = h;
  own = ap get_uuid (store-heap a a st) ∙ own;
  available = inl (store_found uuid a st n own);
}

pub put-unused :
    (fresh : ℕ) (m : Contents) (st : SessionManager)
    → ((u : Bytes) → lookup u st.sessions ≢ some fresh)
    → Filed st
    → Filed (put fresh m st)
unfolding put
put-unused fresh m st unused h = record {
  filed = (λ u b e. (
    (h.filed u b e).0,
    rw (≢_to fresh b (λ eq. unused u (e ∙ ap some (sym eq)))) (h.filed u b e).1,
  ));
}

-- The session that the handlers make is filed.
pub new_session-IsReady :
    (uuid : Bytes) (fresh : ℕ) (st : SessionManager)
    → uuid ≢ []
    → ((u : Bytes) → lookup u st.sessions ≢ some fresh)
    → Filed st
    → IsReady uuid fresh (update_session_uuid uuid (some fresh) (put fresh [] st))
unfolding update_session_uuid file_under
new_session-IsReady uuid fresh st n unused h =
    let st₀ = put fresh [] st in
    let st₁ = complete_from uuid fresh (from_old uuid fresh st₀) in
    let m = set_uuid uuid (st₁.heap fresh) in
    store-IsReady uuid fresh (put fresh m st₁) n
      (ap get_uuid (heap-put fresh m st₁) ∙ get_uuid-set_uuid uuid (st₁.heap fresh))
      (update_session_uuid-Filed uuid (some fresh) st₀ (put-unused fresh [] st unused h))
