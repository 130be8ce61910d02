-- ===== src/Session/Renamed.antt =====
-- UpdateSessionUUID as a change of what is filed and of one session's keys.
use micserver.Prelude.{
  ℕ, ◌≡◌, ◌≢◌, refl, sym, ap, ◌∙◌, Bool, true, false, Option, none, some, [], ◌==◌, if◌then◌else◌,
  arith, Bool-cases, Option-cases, inl, inr, ==_iff,
}
use mathlib.Core.Path.{subst}
use micserver.Dict.{≢_to_ₛ, ◌=ₛ◌, =ₛ_iff, =ₛ_refl, lookup, insert, lookup-insert, lookup-erase}
use micserver.Wire.Bytes.{Bytes}
use micserver.Session.{
  Contents, get_uuid, set_uuid, set, only_add_key_from_session, session_key_uuid,
}
use micserver.Session.Contents.{lookup-only_add, or_else, or_else-none}
use micserver.Session.Manager.{
  SessionManager, put, get_session, store, complete, delete_session, update_session_uuid,
  file_under, complete_from, from_old,
}
use micserver.Session.Filed.{Filed, get_uuid-set_uuid, ≢_to, ≢_of}
use micserver.Session.Update.{or_else-same, not_empty, heap-put, sessions-put}
use micserver.Session.Ready.{store-heap}

-- What the session filed under `u` has for a key.
unfoldable pub filed_value : Bytes → Bytes → SessionManager → Option Bytes
filed_value u k st = elim (lookup u st.sessions) [ none ↦ none | some b ↦ lookup k (st.heap b) ]

complete_lem :
    (k : Bytes) (a b : ℕ) (st : SessionManager)
    → lookup k ((complete a b st).heap a) ≡ or_else (lookup k (st.heap a)) (lookup k (st.heap b))
unfolding complete
complete_lem k a b st =
    ap (lookup k) (heap-put a (only_add_key_from_session (st.heap a) (st.heap b)) st)
    ∙ lookup-only_add k (st.heap a) (st.heap b)

-- The completion from a session, which is left out for the session itself.
complete_unless :
    (k : Bytes) (a b : ℕ) (st : SessionManager)
    → lookup k ((if b == a then st else complete a b st).heap a)
      ≡ or_else (lookup k (st.heap a)) (lookup k (st.heap b))
complete_unless k a b st = elim (Bool-cases (b == a)) [
  | inl same ↦ rw (same, (==_iff b a).0 same) (sym (or_else-same (lookup k (st.heap a))))
  | inr other ↦ rw (other) (complete_lem k a b st)
]

complete_from_lem :
    (u k : Bytes) (a : ℕ) (st : SessionManager)
    → lookup k ((complete_from u a st).heap a) ≡ or_else (lookup k (st.heap a)) (filed_value u k st)
unfolding complete_from filed_value get_session
complete_from_lem u k a st = elim (Option-cases (lookup u st.sessions)) [
  | inl e ↦ rw (complete_from, filed_value, e) (sym (or_else-none (lookup k (st.heap a))))
  | inr (b, e) ↦ rw (complete_from, filed_value, e) (complete_unless k a b st)
]

-- Only the session itself changes.
complete_others : (a b c : ℕ) (st : SessionManager) → a ≢ c → (complete a b st).heap c ≡ st.heap c
unfolding complete put
complete_others a b c st n = rw (≢_to a c n) refl

unless_others :
    (a b c : ℕ) (st : SessionManager)
    → a ≢ c
    → (if b == a then st else complete a b st).heap c ≡ st.heap c
unless_others a b c st n = elim (Bool-cases (b == a)) [
  | inl same ↦ rw (same) refl
  | inr other ↦ rw (other) (complete_others a b c st n)
]

unless-sessions :
    (a b : ℕ) (st : SessionManager)
    → (if b == a then st else complete a b st).sessions ≡ st.sessions
unfolding complete put
unless-sessions a b st = elim (Bool-cases (b == a)) [
  | inl same ↦ rw (same) refl
  | inr other ↦ rw (other) refl
]

complete_from-sessions :
    (u : Bytes) (a : ℕ) (st : SessionManager) → (complete_from u a st).sessions ≡ st.sessions
unfolding complete_from
complete_from-sessions u a st = elim (Option-cases (get_session u st)) [
  | inl e ↦ rw (complete_from, e) refl
  | inr (b, e) ↦ rw (complete_from, e) (unless-sessions a b st)
]

complete_from_others :
    (u : Bytes) (a c : ℕ) (st : SessionManager) → a ≢ c → (complete_from u a st).heap c ≡ st.heap c
unfolding complete_from
complete_from_others u a c st n = elim (Option-cases (get_session u st)) [
  | inl e ↦ rw (complete_from, e) refl
  | inr (b, e) ↦ rw (complete_from, e) (unless_others a b c st n)
]

-- What the first part of UpdateSessionUUID does.
data OldView (uuid old : Bytes) (a : ℕ) (st : SessionManager) : SessionManager → Type 0 where
  unfiled : lookup old st.sessions ≡ none → OldView uuid old a st st
  kept : (uuid =ₛ old) ≡ true → OldView uuid old a st (complete_from old a st)
  moved :
      (uuid =ₛ old) ≡ false → OldView uuid old a st (delete_session old (complete_from old a st))

old_view :
    (uuid : Bytes) (a : ℕ) (st : SessionManager)
    → Filed st
    → OldView uuid (get_uuid (st.heap a)) a st (from_old uuid a st)
unfolding from_old complete_from get_session
old_view uuid a st h =
    let old = get_uuid (st.heap a) in
    elim (Option-cases (lookup old st.sessions)) [
      | inl e ↦ elim (Bool-cases (old =ₛ [])) [
        | inl empty ↦ rw (from_old, empty) (unfiled e)
        | inr full ↦ rw (from_old, full, e) (unfiled e)
      ]
      | inr (b, e) ↦
          let full : (old =ₛ []) ≡ false = not_empty old (h.filed old b e).0 in
          let once : complete_from old a st ≡ (if b == a then st else complete a b st) =
            rw (complete_from, e) refl in
          elim (Bool-cases (uuid =ₛ old)) [
            | inl same ↦
                rw (from_old, full, e, same) (subst (λ q. OldView uuid old a st q) once (kept same))
            | inr other ↦
                rw (from_old, full, e, other)
                  (subst (λ q. OldView uuid old a st (delete_session old q)) once (moved other))
          ]
    ]

view_sessions :
    (uuid old u : Bytes) (a : ℕ) (st st' : SessionManager)
    → OldView uuid old a st st'
    → lookup u st'.sessions ≡ (
        if uuid =ₛ u then lookup u st.sessions else if old =ₛ u then none else lookup u st.sessions)
unfolding delete_session
view_sessions uuid old u a st st' (unfiled e) = ground (arith, =ₛ_iff old u, e)
view_sessions uuid old u a st st' (kept e) =
    rw (complete_from-sessions old a st)
      (ground (arith, e, =ₛ_iff uuid u, =ₛ_iff old u, =ₛ_iff uuid old))
view_sessions uuid old u a st st' (moved e) =
    rw (complete_from-sessions old a st, lookup-erase old u st.sessions)
      (ground (arith, e, =ₛ_iff uuid u, =ₛ_iff old u, =ₛ_iff uuid old))

view_value :
    (uuid old k : Bytes) (a : ℕ) (st st' : SessionManager)
    → OldView uuid old a st st'
    → lookup k (st'.heap a) ≡ or_else (lookup k (st.heap a)) (filed_value old k st)
unfolding delete_session filed_value
view_value uuid old k a st st' (unfiled e) =
    rw (filed_value, e) (sym (or_else-none (lookup k (st.heap a))))
view_value uuid old k a st st' (kept e) = complete_from_lem old k a st
view_value uuid old k a st st' (moved e) = complete_from_lem old k a st

view_others :
    (uuid old : Bytes) (a c : ℕ) (st st' : SessionManager)
    → OldView uuid old a st st'
    → a ≢ c
    → st'.heap c ≡ st.heap c
unfolding delete_session
view_others uuid old a c st st' (unfiled e) n = refl
view_others uuid old a c st st' (kept e) n = complete_from_others old a c st n
view_others uuid old a c st st' (moved e) n = complete_from_others old a c st n

if_twice :
    {A : Type 0} (b : Bool) (x y z : A)
    → (if b then x else if b then y else z) ≡ (if b then x else z)
if_twice true x y z = refl
if_twice false x y z = refl

put_others :
    (a c : ℕ) (m : Contents) (st : SessionManager) → a ≢ c → (put a m st).heap c ≡ st.heap c
unfolding put
put_others a c m st n = rw (≢_to a c n) refl

set_other :
    (k : Bytes) (m : Contents) (uuid : Bytes)
    → session_key_uuid ≢ k
    → lookup k (set_uuid uuid m) ≡ lookup k m
unfolding set_uuid set
set_other k m uuid n =
    rw (lookup-insert session_key_uuid k uuid m, ≢_to_ₛ session_key_uuid k n) refl

or_else_back : (o p : Option Bytes) → or_else (or_else o p) o ≡ or_else o p
or_else_back none none = refl
or_else_back none (some w) = refl
or_else_back (some v) p = refl

or_else_assoc : (o p q : Option Bytes) → or_else (or_else o p) q ≡ or_else o (or_else p q)
or_else_assoc none p q = refl
or_else_assoc (some v) p q = refl

-- The completion from the session under the new uuid, after that from the one under the old.
second_value :
    (uuid old k : Bytes) (a : ℕ) (st st' : SessionManager)
    → OldView uuid old a st st'
    → or_else (lookup k (st'.heap a)) (filed_value uuid k st')
      ≡ or_else (lookup k (st'.heap a)) (filed_value uuid k st)
unfolding filed_value
second_value uuid old k a st st' v =
    let same : lookup uuid st'.sessions ≡ lookup uuid st.sessions =
      rw (view_sessions uuid old uuid a st st' v, =ₛ_refl uuid) refl in
    elim (Option-cases (lookup uuid st.sessions)) [
      | inl e ↦ rw (filed_value, same, e) refl
      | inr (b, e) ↦ elim (Bool-cases (a == b)) [
        | inl ab ↦
            rw (filed_value, same, e, sym ((==_iff a b).0 ab), view_value uuid old k a st st' v)
              (or_else-same (or_else (lookup k (st.heap a)) (filed_value old k st))
                ∙ sym (or_else_back (lookup k (st.heap a)) (filed_value old k st)))
        | inr other ↦
            rw (filed_value, same, e, view_others uuid old a b st st' v (≢_of a b other)) refl
      ]
    ]

store-sessions :
    (uuid : Bytes) (a : ℕ) (st : SessionManager)
    → uuid ≢ []
    → get_uuid (st.heap a) ≡ uuid
    → (store a st).sessions ≡ insert uuid a st.sessions
unfolding store
store-sessions uuid a st n own = rw (store, own, not_empty uuid n) refl

-- A session at `a` that is filed under a new uuid.
pub record IsRenamed (uuid : Bytes) (a : ℕ) (st after : SessionManager) : Type 0 where
  pub under :
      (u : Bytes)
      → lookup u after.sessions ≡ (
          if uuid =ₛ u
          then some a
          else if get_uuid (st.heap a) =ₛ u
          then none
          else lookup u st.sessions)
  pub own : get_uuid (after.heap a) ≡ uuid
  pub value :
      (k : Bytes)
      → session_key_uuid ≢ k
      → lookup k (after.heap a)
        ≡ or_else
            (lookup k (st.heap a))
            (or_else (filed_value (get_uuid (st.heap a)) k st) (filed_value uuid k st))
  pub others : (c : ℕ) → a ≢ c → after.heap c ≡ st.heap c

file_under-IsRenamed :
    (uuid : Bytes) (a : ℕ) (st st₁ : SessionManager)
    → uuid ≢ []
    → OldView uuid (get_uuid (st.heap a)) a st st₁
    → IsRenamed uuid a st (file_under uuid a (complete_from uuid a st₁))
unfolding file_under
file_under-IsRenamed uuid a st st₁ n v =
    let old = get_uuid (st.heap a) in
    let st₂ = complete_from uuid a st₁ in
    let m = set_uuid uuid (st₂.heap a) in
    let st₃ = put a m st₂ in
    let own₃ : get_uuid (st₃.heap a) ≡ uuid =
      ap get_uuid (heap-put a m st₂) ∙ get_uuid-set_uuid uuid (st₂.heap a) in
    record {
      under = (λ u.
          rw
            (
              store-sessions uuid a st₃ n own₃,
              lookup-insert uuid u a st₃.sessions,
              sessions-put a m st₂ u,
              complete_from-sessions uuid a st₁,
              view_sessions uuid old u a st st₁ v,
            )
            (if_twice (uuid =ₛ u) (some a) (lookup u st.sessions)
              (if old =ₛ u then none else lookup u st.sessions)));
      own = ap get_uuid (store-heap a a st₃) ∙ own₃;
      value = (λ k nk.
          ap (lookup k) (store-heap a a st₃)
          ∙ (ap (lookup k) (heap-put a m st₂)
              ∙ (set_other k (st₂.heap a) uuid nk
                  ∙ (complete_from_lem uuid k a st₁
                      ∙ (second_value uuid old k a st st₁ v
                          ∙ rw (view_value uuid old k a st st₁ v) (
                              or_else_assoc (lookup k (st.heap a)) (filed_value old k st)
                                (filed_value uuid k st)))))));
      others = (λ c nc.
          store-heap a c st₃
          ∙ (put_others a c m st₂ nc
              ∙ (complete_from_others uuid a c st₁ nc ∙ view_others uuid old a c st st₁ v nc)));
    }

-- UpdateSessionUUID to a UUID that is not empty, where every session is filed under its own. After
-- it the session is filed under the UUID and has it; nothing is filed under its old one, unless
-- it is the same, and all else as before; for every key but the UUID's the session has its own
-- value, else that of the session filed under the old UUID, else that of the one that was filed
-- under the new; and no other session changes.
pub update_session_uuid-IsRenamed :
    (uuid : Bytes) (a : ℕ) (st : SessionManager)
    → uuid ≢ []
    → Filed st
    → IsRenamed uuid a st (update_session_uuid uuid (some a) st)
unfolding update_session_uuid
update_session_uuid-IsRenamed uuid a st n h =
    file_under-IsRenamed uuid a st (from_old uuid a st) n (old_view uuid a st h)
