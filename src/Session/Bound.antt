-- ===== src/Session/Bound.antt =====
-- Which modules a session is bound to: GetBindedList against GetBind.
use micserver.Prelude.{
  ℕ, zero, suc, ◌-◌, ◌≡◌, ◌≢◌, refl, sym, ap, ◌∙◌, Bool, true, false, Option, none, some, List, [],
  ◌∷◌, ◌++◌, length, ◌==◌, if◌then◌else◌, arith, Bool-cases, Option-cases, inl, inr, append-nil,
  append_assoc,
}
use mathlib.Core.Path.{subst}
use micserver.Dict.{≢_to_ₛ, differ, ◌=ₛ◌, =ₛ_iff, lookup, insert, lookup-insert, Fresh, IsMap}
use micserver.Wire.Bytes.{Bytes}
use micserver.Session.Contents.{or_else, or_else-none, lookup-Fresh}
use micserver.Session.{
  Contents, session_key_bind_head, has_prefix, split_from, split, second_of_two, binded_type,
  range_binded, get_binded_list,
}

prefix_rest : (s p : Bytes) → has_prefix s p ≡ true → (r : Bytes) × (s ≡ p ++ r)
unfolding has_prefix
prefix_rest s [] h = (s, refl)
prefix_rest [] (q ∷ p) h = ground arith
prefix_rest (b ∷ s) (q ∷ p) h =
    let hh : (b ≡ q) × (has_prefix s p ≡ true) = ground arith in
    let (r, e) = prefix_rest s p hh.1 in (r, ap (◌∷◌ b) e ∙ ap (λ c. c ∷ (p ++ r)) hh.0)

split_from-found :
    (sep piece : Bytes) (b : ℕ) (s : Bytes)
    → has_prefix (b ∷ s) sep ≡ true
    → split_from sep zero piece (b ∷ s) ≡ piece ∷ split_from sep (length sep - 1) [] s
unfolding split_from
split_from-found sep piece b s y = rw (split_from, y) refl

split_from-other :
    (sep piece : Bytes) (b : ℕ) (s : Bytes)
    → has_prefix (b ∷ s) sep ≡ false
    → split_from sep zero piece (b ∷ s) ≡ split_from sep zero (piece ++ (b ∷ [])) s
unfolding split_from
split_from-other sep piece b s n = rw (split_from, n) refl

split_from-cons : (sep : Bytes) (skip : ℕ) (piece s : Bytes) → split_from sep skip piece s ≢ []
unfolding split_from
split_from-cons sep skip piece [] e = ground arith
split_from-cons sep (suc skip) piece (b ∷ s) e = split_from-cons sep skip piece s e
split_from-cons sep zero piece (b ∷ s) e = elim (Bool-cases (has_prefix (b ∷ s) sep)) [
  | inl y ↦ ground (arith, e, y)
  | inr n ↦
      split_from-cons sep zero (piece ++ (b ∷ [])) s (sym (split_from-other sep piece b s n) ∙ e)
]

-- A single slice is the text itself.
split_from-alone : (sep piece s q : Bytes) → split_from sep zero piece s ≡ q ∷ [] → q ≡ piece ++ s
unfolding split_from
split_from-alone sep piece [] q e = ground (arith, e, append-nil piece)
split_from-alone sep piece (b ∷ s) q e = elim (Bool-cases (has_prefix (b ∷ s) sep)) [
  | inl y ↦ absurd (
      ground (
        arith,
        sym (split_from-found sep piece b s y) ∙ e,
        split_from-cons sep (length sep - 1) [] s,
      ))
  | inr n ↦
      split_from-alone sep (piece ++ (b ∷ [])) s q (sym (split_from-other sep piece b s n) ∙ e)
      ∙ append_assoc piece (b ∷ []) s
]

-- The head does not stand in it.
abbrev pub headless : Bytes → Bool
headless t = length (split t session_key_bind_head) == 1

second-alone :
    (t : Bytes) (l : List Bytes)
    → ((q : Bytes) → l ≡ q ∷ [] → q ≡ t)
    → l ≢ []
    → second_of_two ([] ∷ l) ≡ (if length l == 1 then some t else none)
second-alone t [] h n = refl
second-alone t (q ∷ []) h n = ap some (h q refl)
second-alone t (q ∷ r ∷ l) h n = ground arith

binded_type-append :
    (t : Bytes) → binded_type (session_key_bind_head ++ t) ≡ (if headless t then some t else none)
unfolding binded_type split split_from has_prefix
binded_type-append t =
    second-alone t (split t session_key_bind_head)
      (λ q e. split_from-alone session_key_bind_head [] t q e)
      (split_from-cons session_key_bind_head zero [] t)

if_some :
    (b : Bool) (o : Option Bytes) (t : Bytes)
    → (if b then o else none) ≡ some t
    → (b ≡ true) × (o ≡ some t)
if_some true o t e = (refl, e)
if_some false o t e = ground arith

-- The keys of the head and a type.
binded_type_of :
    (k t : Bytes) → binded_type k ≡ some t → (k ≡ session_key_bind_head ++ t) × (headless t ≡ true)
unfolding binded_type
binded_type_of k t e =
    let y : has_prefix k session_key_bind_head ≡ true =
      (if_some (has_prefix k session_key_bind_head) (second_of_two (split k session_key_bind_head))
        t e).0 in
    let (r, kr) = prefix_rest k session_key_bind_head y in
    let (h, rt) =
      if_some (headless r) (some r) t
        (sym (binded_type-append r) ∙ (ap binded_type (sym kr) ∙ e)) in
    let same : r ≡ t = ground (arith, rt) in
    (kr ∙ ap (◌++◌ session_key_bind_head) same, ap headless (sym same) ∙ h)

append_cancel : (p s t : Bytes) → p ++ s ≡ p ++ t → s ≡ t
append_cancel [] s t e = e
append_cancel (b ∷ p) s t e = append_cancel p s t (ground (arith, e))

or_else_nothing : (b : Bool) (o : Option Bytes) → o ≡ or_else (if b then none else none) o
or_else_nothing true o = refl
or_else_nothing false o = refl

if_some-none : (b : Bool) (t : Bytes) → (if b then some t else none) ≡ none → b ≡ false
if_some-none true t e = ground arith
if_some-none false t e = refl

-- What the list has for a type: the callback stores each visited entry in `res`.
abbrev pub collect : Bytes → Bytes → Contents → Bool × Contents
collect module_type id res = (true, insert module_type id res)

range_binded-lookup :
    (t : Bytes) (m res : Contents)
    → IsMap m
    → lookup t (range_binded collect m res)
      ≡ or_else (if headless t then lookup (session_key_bind_head ++ t) m else none) (lookup t res)
unfolding range_binded lookup
range_binded-lookup t [] res im = or_else_nothing (headless t) (lookup t res)
range_binded-lookup t ((k, v) ∷ m) res (f, im) =
    let key = session_key_bind_head ++ t in
    elim (Option-cases (binded_type k)) [
      | inl e ↦ elim (Bool-cases (k =ₛ key)) [
        | inl same ↦
            let no : (if headless t then some t else none) ≡ none =
              sym (binded_type-append t) ∙ (ap binded_type (sym ((=ₛ_iff k key).0 same)) ∙ e) in
            let h : headless t ≡ false = if_some-none (headless t) t no in
            rw (range_binded, e, range_binded-lookup t m res im, h) refl
        | inr other ↦ rw (range_binded, e, range_binded-lookup t m res im, other) refl
      ]
      | inr (t', e) ↦
          let (kt, h) = binded_type_of k t' e in
          elim (Bool-cases (t' =ₛ t)) [
            | inl same ↦
                let tt' : t' ≡ t = (=ₛ_iff t' t).0 same in
                let kk : k ≡ key = kt ∙ ap (◌++◌ session_key_bind_head) tt' in
                let hm : lookup key m ≡ none = lookup-Fresh key m (subst (λ j. Fresh j m) kk f) in
                let ht : headless t ≡ true = ap headless (sym tt') ∙ h in
                rw
                  (
                    range_binded,
                    e,
                    range_binded-lookup t m (insert t' v res) im,
                    lookup-insert t' t v res,
                    same,
                    ht,
                    hm,
                    (=ₛ_iff k key).1 kk,
                  )
                  refl
            | inr other ↦
                let ne : (k =ₛ key) ≡ false = ≢_to_ₛ k key (λ kk.
                  differ t' t other (append_cancel session_key_bind_head t' t (sym kt ∙ kk))) in
                rw
                  (
                    range_binded,
                    e,
                    range_binded-lookup t m (insert t' v res) im,
                    lookup-insert t' t v res,
                    other,
                    ne,
                  )
                  refl
          ]
    ]

-- GetBindedList of a session, whose keys are each there once, has for a module type what the session
-- has under the bind head and that type, so what GetBind answers, if the head does not stand in the
-- type again; a type that has the head in it is not in the list, though GetBind finds it.
pub get_binded_list-lookup :
    (t : Bytes) (m : Contents)
    → IsMap m
    → lookup t (get_binded_list m)
      ≡ (if headless t then lookup (session_key_bind_head ++ t) m else none)
unfolding get_binded_list lookup
get_binded_list-lookup t m im =
    range_binded-lookup t m [] im
    ∙ or_else-none (if headless t then lookup (session_key_bind_head ++ t) m else none)
