-- ===== src/Connect/Random.antt =====
-- Which connection GetRandomServer chooses.
use micserver.Prelude.{
  ℕ, zero, suc, ◌<◌, ◌≡◌, ◌≢◌, refl, sym, ap, ◌∙◌, true, false, Option, none, some, List, [], ◌∷◌,
  length, get_elem?, arith, Bool-cases, inl, inr,
}
use micserver.Dict.{◌=ₛ◌, =ₛ_iff, lookup, Fresh, IsMap}
use micserver.Wire.Bytes.{Bytes}
use micserver.Connect.{
  Connection, ServerPool, is_of_type, ids_of_type, choose_id, get_random_server,
}
use micserver.Connect.Chosen.{IsAmong, here, later, NoneOf}

get_elem?-lt :
    {A : Type 0} (xs : List A) (i : ℕ) → i < length xs → (x : A) × (get_elem? xs i ≡ some x)
get_elem?-lt [] i h = ground (arith, h)
get_elem?-lt (x ∷ xs) zero h = (x, refl)
get_elem?-lt (x ∷ xs) (suc i) h = get_elem?-lt xs i (omega (arith, h))

-- An id that is filed, for a connection to a module of the type.
abbrev pub FiledOf : (ℕ → Connection) → Bytes → List (Bytes × ℕ) → Bytes → Type 0
FiledOf servers t m id = (a : ℕ) × (lookup id m ≡ some a) × IsAmong servers t a m

module _ (servers : ℕ → Connection) (t : Bytes) where
  Fresh-ne :
      (k id : Bytes) (m : List (Bytes × ℕ)) (a : ℕ) → Fresh k m → lookup id m ≡ some a → k ≢ id
  unfolding lookup
  Fresh-ne k id [] a f e = ground (arith, e)
  Fresh-ne k id ((j, b) ∷ m) a (ne, f) e = elim (Bool-cases (j =ₛ id)) [
    | inl same ↦ (λ kid. ne ((=ₛ_iff j id).0 same ∙ sym kid))
    | inr other ↦ Fresh-ne k id m a f (sym (rw (lookup, other) refl) ∙ e)
  ]

  later-FiledOf :
      (k : Bytes) (b : ℕ) (m : List (Bytes × ℕ)) (id : Bytes)
      → Fresh k m
      → FiledOf servers t m id
      → FiledOf servers t ((k, b) ∷ m) id
  unfolding lookup
  later-FiledOf k b m id f (a, e, among) =
      let ne : (k =ₛ id) ≡ false = ground (arith, =ₛ_iff k id, Fresh-ne k id m a f e) in
      (a, rw (ne) e, later k b m among)

  at_index :
      (k : Bytes) (b : ℕ) (m : List (Bytes × ℕ)) (id : Bytes)
      → Fresh k m
      → is_of_type t (servers b) ≡ true
      → ((j : ℕ) → get_elem? (ids_of_type servers t m) j ≡ some id → FiledOf servers t m id)
      → (i : ℕ) → get_elem? (k ∷ ids_of_type servers t m) i ≡ some id
      → FiledOf servers t ((k, b) ∷ m) id
  unfolding lookup
  at_index k b m id f y rest zero e =
      let ki : k ≡ id = ground (arith, e) in (b, rw ((=ₛ_iff k id).1 ki) refl, here k m y)
  at_index k b m id f y rest (suc j) e = later-FiledOf k b m id f (rest j e)

  chosen-FiledOf :
      (m : List (Bytes × ℕ)) (i : ℕ) (id : Bytes)
      → IsMap m
      → get_elem? (ids_of_type servers t m) i ≡ some id
      → FiledOf servers t m id
  unfolding ids_of_type
  chosen-FiledOf [] i id h e = ground (arith, e)
  chosen-FiledOf ((k, b) ∷ m) i id (f, h) e = elim (Bool-cases (is_of_type t (servers b))) [
    | inr n ↦
        later-FiledOf k b m id f (chosen-FiledOf m i id h (sym (rw (ids_of_type, n) refl) ∙ e))
    | inl y ↦
        at_index k b m id f y (λ j. chosen-FiledOf m j id h) i (sym (rw (ids_of_type, y) refl) ∙ e)
  ]

  nobody-NoneOf : (m : List (Bytes × ℕ)) → ids_of_type servers t m ≡ [] → NoneOf servers t m
  unfolding ids_of_type
  nobody-NoneOf [] e = tt
  nobody-NoneOf ((k, b) ∷ m) e = elim (Bool-cases (is_of_type t (servers b))) [
    | inl y ↦ absurd (ground (arith, e, y))
    | inr n ↦ (n, nobody-NoneOf m (sym (rw (ids_of_type, n) refl) ∙ e))
  ]

pub data IsSomeone (t : Bytes) (p : ServerPool) : Option ℕ → Type 0 where
  nobody : NoneOf p.servers t p.all_sockets → IsSomeone t p none
  somebody : (a : ℕ) → IsAmong p.servers t a p.all_sockets → IsSomeone t p (some a)

chosen-IsSomeone :
    (intn : ℕ → ℕ) (t : Bytes) (p : ServerPool) (ids : List Bytes)
    → ((n : ℕ) → 0 < n → intn n < n)
    → IsMap p.all_sockets
    → ids_of_type p.servers t p.all_sockets ≡ ids
    → IsSomeone t p (elim (choose_id intn ids) [ none ↦ none | some id ↦ lookup id p.all_sockets ])
unfolding choose_id
chosen-IsSomeone intn t p [] h im e = nobody (nobody-NoneOf p.servers t p.all_sockets e)
chosen-IsSomeone intn t p (id ∷ ids) h im e =
    let (x, ex) =
      get_elem?-lt (id ∷ ids) (intn (length (id ∷ ids))) (h (length (id ∷ ids)) (omega arith)) in
    let (a, ea, among) =
      chosen-FiledOf p.servers t p.all_sockets (intn (length (id ∷ ids))) x im
        (ap (λ l. get_elem? l (intn (length (id ∷ ids)))) e ∙ ex) in
    rw (ex, ea) (somebody a among)

-- GetRandomServer, for a rand.Intn that answers below its argument, and a pool where each id is filed
-- once: it answers a connection of the pool to a module of the type, or nil, and then the pool has
-- no connection to a module of the type.
pub get_random_server-IsSomeone :
    (intn : ℕ → ℕ) (t : Bytes) (p : ServerPool)
    → ((n : ℕ) → 0 < n → intn n < n)
    → IsMap p.all_sockets
    → IsSomeone t p (get_random_server intn t p)
unfolding get_random_server
get_random_server-IsSomeone intn t p h im =
    chosen-IsSomeone intn t p (ids_of_type p.servers t p.all_sockets) h im refl
