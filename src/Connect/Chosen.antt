-- ===== src/Connect/Chosen.antt =====
-- Which connection GetMinLoadServer and GetRandomServer choose.
use micserver.Prelude.{
  ℕ, suc, ◌≤◌, ◌<◌, ◌^◌, ◌≡◌, refl, sym, ap, ◌&&◌, ◌⊎◌, true, false, Option, none, some, List, [],
  ◌∷◌, leb, leb→le, leb→lt, if◌then◌else◌, arith, Bool-cases, inl, inr,
}
use mathlib.Core.Path.{subst}
use micserver.Wire.Bytes.{Bytes}
use micserver.Connect.{Connection, ServerPool, is_of_type, min_load_from, get_min_load_server}

-- A connection of the pool to a module of the type.
pub data IsAmong (servers : ℕ → Connection) (t : Bytes) (a : ℕ) : List (Bytes × ℕ) → Type 0 where
  here :
      (k : Bytes) (m : List (Bytes × ℕ))
      → is_of_type t (servers a) ≡ true
      → IsAmong servers t a ((k, a) ∷ m)
  later :
      (k : Bytes) (b : ℕ) (m : List (Bytes × ℕ))
      → IsAmong servers t a m
      → IsAmong servers t a ((k, b) ∷ m)

-- No connection of the type has a load below `bound`.
abbrev pub NoneBelow : ℕ → (ℕ → Connection) → Bytes → List (Bytes × ℕ) → Type 0
NoneBelow bound servers t [] = Unit
NoneBelow bound servers t ((k, a) ∷ m) =
    (is_of_type t (servers a) ≡ true → bound ≤ (servers a).job_num) × NoneBelow bound servers t m

-- No connection of the type.
abbrev pub NoneOf : (ℕ → Connection) → Bytes → List (Bytes × ℕ) → Type 0
NoneOf servers t [] = Unit
NoneOf servers t ((k, a) ∷ m) = (is_of_type t (servers a) ≡ false) × NoneOf servers t m

module _ (servers : ℕ → Connection) (t : Bytes) where
  -- The next best after an entry.
  abbrev better : Connection → ℕ → ℕ × Option ℕ → ℕ × Option ℕ
  better c a best = if is_of_type t c && leb c.job_num best.0 then (c.job_num, some a) else best

  better_lem :
      (a : ℕ) (best : ℕ × Option ℕ)
      → ((is_of_type t (servers a) ≡ true)
          × (better (servers a) a best ≡ ((servers a).job_num, some a))
          × ((servers a).job_num ≤ best.0))
        ⊎ ((is_of_type t (servers a) ≡ true → best.0 < (servers a).job_num)
            × (better (servers a) a best ≡ best))
  better_lem a best = elim (Bool-cases (is_of_type t (servers a))) [
    | inl y ↦ elim (Bool-cases (leb (servers a).job_num best.0)) [
      | inl le ↦ inl (y, rw (y, le) refl, leb→le (servers a).job_num best.0 le)
      | inr gt ↦ inr ((λ q. leb→lt (servers a).job_num best.0 gt), rw (y, gt) refl)
    ]
    | inr n ↦ inr ((λ q. ground (arith, n, q)), rw (n) refl)
  ]

  weaken :
      (b c : ℕ) (m : List (Bytes × ℕ)) → c ≤ b → NoneBelow b servers t m → NoneBelow c servers t m
  weaken b c [] le h = tt
  weaken b c ((k, a) ∷ m) le (h, hs) = ((λ y. ground (arith, le, h y)), weaken b c m le hs)

  -- What the search has found: nothing better, or a connection of the pool with that load.
  data Outcome (m : List (Bytes × ℕ)) (best r : ℕ × Option ℕ) : Type 0 where
    kept : r ≡ best → NoneBelow (suc best.0) servers t m → Outcome m best r
    found :
        (a : ℕ)
        → IsAmong servers t a m
        → r ≡ ((servers a).job_num, some a)
        → (servers a).job_num ≤ best.0
        → NoneBelow (servers a).job_num servers t m
        → Outcome m best r

  min_load_from-Outcome :
      (m : List (Bytes × ℕ)) (best : ℕ × Option ℕ) → Outcome m best (min_load_from servers t m best)
  unfolding min_load_from
  min_load_from-Outcome [] best = kept refl tt
  min_load_from-Outcome ((k, a) ∷ m) best = elim (better_lem a best) [
    | inl (y, e, le) ↦
        subst (λ b. Outcome ((k, a) ∷ m) best (min_load_from servers t m b)) (sym e)
          (elim (min_load_from-Outcome m ((servers a).job_num, some a)) [
            | kept re h ↦ found a (here k m y) re le (
              (λ q. omega arith),
              weaken (suc (servers a).job_num) (servers a).job_num m (omega arith) h,
            )
            | found b among re lb h ↦
                found b (later k a m among) re (omega (arith, lb, le)) ((λ q. lb), h)
          ])
    | inr (n, e) ↦
        subst (λ b. Outcome ((k, a) ∷ m) best (min_load_from servers t m b)) (sym e)
          (elim (min_load_from-Outcome m best) [
            | kept re h ↦ kept re ((λ q. omega (arith, n q)), h)
            | found b among re lb h ↦
                found b (later k a m among) re lb ((λ q. omega (arith, n q, lb)), h)
          ])
  ]

  -- Loads are 32 bits wide.
  abbrev pub LoadsFit : List (Bytes × ℕ) → Type 0
  LoadsFit [] = Unit
  LoadsFit ((k, a) ∷ m) = ((servers a).job_num < 2 ^ 32) × LoadsFit m

  none_above :
      (m : List (Bytes × ℕ))
      → LoadsFit m
      → NoneBelow (suc 0xffffffff) servers t m
      → NoneOf servers t m
  none_above [] f h = tt
  none_above ((k, a) ∷ m) (f, fs) (h, hs) = (
    elim (Bool-cases (is_of_type t (servers a))) [
      | inl y ↦ absurd (ground (arith, f, h y))
      | inr n ↦ n
    ],
    none_above m fs hs,
  )

-- The choice of GetMinLoadServer.
pub data IsMinLoad (t : Bytes) (p : ServerPool) : Option ℕ → Type 0 where
  nobody : NoneOf p.servers t p.all_sockets → IsMinLoad t p none
  somebody :
      (a : ℕ)
      → IsAmong p.servers t a p.all_sockets
      → NoneBelow (p.servers a).job_num p.servers t p.all_sockets
      → IsMinLoad t p (some a)

-- GetMinLoadServer, where loads are 32 bits wide: it answers a connection of the pool to a module of
-- the type such that none to a module of the type has a smaller load, or nil, and then the pool has
-- no connection to a module of the type.
pub get_min_load_server-IsMinLoad :
    (t : Bytes) (p : ServerPool)
    → LoadsFit p.servers t p.all_sockets
    → IsMinLoad t p (get_min_load_server t p)
unfolding get_min_load_server
get_min_load_server-IsMinLoad t p f =
    elim (min_load_from-Outcome p.servers t p.all_sockets (0xffffffff, none)) [
      | kept re h ↦
          subst (IsMinLoad t p) (sym (ap (λ r. r.1) re))
            (nobody (none_above p.servers t p.all_sockets f h))
      | found a among re le h ↦ subst (IsMinLoad t p) (sym (ap (λ r. r.1) re)) (somebody a among h)
    ]
