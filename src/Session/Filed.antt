-- ===== src/Session/Filed.antt =====
-- Every session is filed under its own UUID, which is not empty.
use micserver.Prelude.{
  ℕ, ◌≡◌, ◌≢◌, refl, sym, ap, ◌∙◌, false, Option, none, some, List, [], ◌==◌, if◌then◌else◌, arith,
  Bool-cases, Option-cases, inl, inr, ==_iff, ◌⊎◌,
}
use mathlib.Core.Path.{subst}
use micserver.Dict.{
  differ, ◌=ₛ◌, =ₛ_iff, =ₛ_refl, lookup, insert, erase, lookup-insert, lookup-erase,
}
use micserver.Wire.Bytes.{Bytes}
use micserver.Session.{
  Contents, get, get_uuid, set_uuid, set, only_add_key_from_session, session_key_uuid,
}
use micserver.Session.Manager.{
  SessionManager, put, get_session, store, delete_session, complete, complete_from, from_old,
  file_under, update_session_uuid,
}

pub record Filed (st : SessionManager) : Type 0 where
  pub filed :
      (uuid : Bytes) (a : ℕ)
      → lookup uuid st.sessions ≡ some a
      → (uuid ≢ []) × (get_uuid (st.heap a) ≡ uuid)

-- So it is but for the session at `a`, which is filed under `uuid` if at all.
pub record FiledFor (uuid : Bytes) (a : ℕ) (st : SessionManager) : Type 0 where
  pub filed :
      (u : Bytes) (b : ℕ)
      → lookup u st.sessions ≡ some b
      → (u ≢ []) × (a ≡ b → u ≡ uuid) × (a ≢ b → get_uuid (st.heap b) ≡ u)

module _ {V : Type 0} where
  pub lookup-insert_cases :
      (k u : Bytes) (a b : V) (m : List (Bytes × V))
      → lookup u (insert k a m) ≡ some b
      → ((k ≡ u) × (a ≡ b)) ⊎ (lookup u m ≡ some b)
  lookup-insert_cases k u a b m e = ground (arith, lookup-insert k u a m, =ₛ_iff k u)

  pub lookup-erase_cases :
      (k u : Bytes) (b : V) (m : List (Bytes × V))
      → lookup u (erase k m) ≡ some b
      → (k ≢ u) × (lookup u m ≡ some b)
  lookup-erase_cases k u b m e = ground (arith, lookup-erase k u m, =ₛ_iff k u)

pub ≢_of : (a b : ℕ) → (a == b) ≡ false → a ≢ b
≢_of a b e = ground arith

pub ≢_to : (a b : ℕ) → a ≢ b → (a == b) ≡ false
≢_to a b n = ground arith

pub delete_session-Filed :
    (uuid : Bytes) (st : SessionManager) → Filed st → Filed (delete_session uuid st)
unfolding delete_session
delete_session-Filed uuid st h = record {
  filed = (λ u a e. h.filed u a (lookup-erase_cases uuid u a st.sessions e).1);
}

pub store-Filed : (a : ℕ) (st : SessionManager) → Filed st → Filed (store a st)
unfolding store
store-Filed a st h = elim (Bool-cases (get_uuid (st.heap a) =ₛ [])) [
  | inl e ↦ rw (e) h
  | inr e ↦ rw (e) (record {
    filed = (λ u b eb. elim (lookup-insert_cases (get_uuid (st.heap a)) u a b st.sessions eb) [
      | inl (eu, ea) ↦ (
        (λ n. differ (get_uuid (st.heap a)) [] e (eu ∙ n)),
        ap (λ c. get_uuid (st.heap c)) (sym ea) ∙ eu,
      )
      | inr el ↦ h.filed u b el
    ]);
  })
]

pub get_uuid-set_uuid : (uuid : Bytes) (m : Contents) → get_uuid (set_uuid uuid m) ≡ uuid
unfolding get_uuid set_uuid get set
get_uuid-set_uuid uuid m =
    rw (lookup-insert session_key_uuid session_key_uuid uuid m, =ₛ_refl session_key_uuid) refl

pub put-Filed :
    (uuid : Bytes) (a : ℕ) (m : Contents) (st : SessionManager)
    → get_uuid m ≡ uuid
    → FiledFor uuid a st
    → Filed (put a m st)
unfolding put
put-Filed uuid a m st em h = record {
  filed = (λ u b e. elim (Bool-cases (a == b)) [
    | inl same ↦ ((h.filed u b e).0, rw (same) (em ∙ sym ((h.filed u b e).1 ((==_iff a b).0 same))))
    | inr other ↦ ((h.filed u b e).0, rw (other) ((h.filed u b e).2 (≢_of a b other)))
  ]);
}

pub file_under-Filed :
    (uuid : Bytes) (a : ℕ) (st : SessionManager) → FiledFor uuid a st → Filed (file_under uuid a st)
unfolding file_under
file_under-Filed uuid a st h =
    store-Filed a (put a (set_uuid uuid (st.heap a)) st)
      (put-Filed uuid a (set_uuid uuid (st.heap a)) st (get_uuid-set_uuid uuid (st.heap a)) h)

pub put-FiledFor :
    (uuid : Bytes) (a : ℕ) (m : Contents) (st : SessionManager)
    → FiledFor uuid a st
    → FiledFor uuid a (put a m st)
unfolding put
put-FiledFor uuid a m st h = record {
  filed = (λ u b e.
      let (n, same, other) = h.filed u b e in (n, same, λ ne. rw (≢_to a b ne) (other ne)));
}

complete_from-FiledFor :
    (u uuid : Bytes) (a : ℕ) (st : SessionManager)
    → FiledFor uuid a st
    → FiledFor uuid a (complete_from u a st)
unfolding complete_from complete
complete_from-FiledFor u uuid a st h = elim (Option-cases (get_session u st)) [
  | inl e ↦ rw (complete_from, e) h
  | inr (b, e) ↦ elim (Bool-cases (b == a)) [
    | inl same ↦ rw (complete_from, e, same) h
    | inr other ↦
        rw (complete_from, e, other)
          (put-FiledFor uuid a (only_add_key_from_session (st.heap a) (st.heap b)) st h)
  ]
]

pub Filed-FiledFor : (a : ℕ) (st : SessionManager) → Filed st → FiledFor (get_uuid (st.heap a)) a st
Filed-FiledFor a st h = record {
  filed = (λ u b e.
      let (n, own) = h.filed u b e in
      (n, (λ same. sym own ∙ ap (λ c. get_uuid (st.heap c)) (sym same)), λ other. own));
}

-- Nothing is filed under the session's own uuid any more, so it may get another.
FiledFor-erased :
    (u uuid : Bytes) (a : ℕ) (st : SessionManager)
    → FiledFor u a st
    → FiledFor uuid a (delete_session u st)
unfolding delete_session
FiledFor-erased u uuid a st h = record {
  filed = (λ k b e.
      let (ne, el) = lookup-erase_cases u k b st.sessions e in
      let (n, same, other) = h.filed k b el in (n, (λ ab. absurd (ne (sym (same ab)))), other));
}

FiledFor-nowhere :
    (u uuid : Bytes) (a : ℕ) (st : SessionManager)
    → lookup u st.sessions ≡ none
    → FiledFor u a st
    → FiledFor uuid a st
FiledFor-nowhere u uuid a st none_there h = record {
  filed = (λ k b e.
      let (n, same, other) = h.filed k b e in
      (n, (λ ab. absurd (ground (arith, none_there, e, same ab))), other));
}

pub FiledFor-empty :
    (uuid : Bytes) (a : ℕ) (st : SessionManager) → FiledFor [] a st → FiledFor uuid a st
FiledFor-empty uuid a st h = record {
  filed =
      (λ k b e. let (n, same, other) = h.filed k b e in (n, (λ ab. absurd (n (same ab))), other));
}

or_erased :
    (u uuid : Bytes) (a : ℕ) (st : SessionManager)
    → FiledFor u a st
    → FiledFor uuid a (if uuid =ₛ u then st else delete_session u st)
or_erased u uuid a st h = elim (Bool-cases (uuid =ₛ u)) [
  | inl e ↦ rw (e) (subst (λ k. FiledFor k a st) (sym ((=ₛ_iff uuid u).0 e)) h)
  | inr e ↦ rw (e) (FiledFor-erased u uuid a st h)
]

from_old-FiledFor :
    (uuid : Bytes) (a : ℕ) (st : SessionManager) → Filed st → FiledFor uuid a (from_old uuid a st)
unfolding from_old complete get_session
from_old-FiledFor uuid a st h =
    let old = get_uuid (st.heap a) in
    let h' : FiledFor old a st = Filed-FiledFor a st h in
    elim (Bool-cases (old =ₛ [])) [
      | inl e ↦
          rw (from_old, e)
            (FiledFor-empty uuid a st (subst (λ u. FiledFor u a st) ((=ₛ_iff old []).0 e) h'))
      | inr e ↦ elim (Option-cases (get_session old st)) [
        | inl en ↦ rw (from_old, e, en) (FiledFor-nowhere old uuid a st en h')
        | inr (b, eb) ↦ elim (Bool-cases (b == a)) [
          | inl same ↦ rw (from_old, e, eb, same) (or_erased old uuid a st h')
          | inr other ↦
              rw (from_old, e, eb, other)
                (or_erased old uuid a (put a (only_add_key_from_session (st.heap a) (st.heap b)) st)
                  (put-FiledFor old a (only_add_key_from_session (st.heap a) (st.heap b)) st h'))
        ]
      ]
    ]

-- UpdateSessionUUID keeps every session filed under its own UUID, which is not empty: whatever
-- UUID is asked for, the empty one included, and whatever sessions are filed under it and under the
-- session's old one.
pub update_session_uuid-Filed :
    (uuid : Bytes) (o : Option ℕ) (st : SessionManager)
    → Filed st
    → Filed (update_session_uuid uuid o st)
unfolding update_session_uuid
update_session_uuid-Filed uuid none st h = h
update_session_uuid-Filed uuid (some a) st h =
    file_under-Filed uuid a (complete_from uuid a (from_old uuid a st))
      (complete_from-FiledFor uuid uuid a (from_old uuid a st) (from_old-FiledFor uuid a st h))
