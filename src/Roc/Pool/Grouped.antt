-- ===== src/Roc/Pool/Grouped.antt =====
-- A grouped map answers as a map that is not grouped.
use micserver.Prelude.{
  ℕ, ◌%◌, ◌<◌, ◌≡◌, ◌≢◌, refl, sym, ap, ◌∙◌, Bool, true, false, Option, none, some, [], ltb, lt→ltb,
  not, ◌||◌, ◌==◌, ==_iff, if◌then◌else◌, arith, Bool-cases, ◌⊎◌, inl, inr,
}
use native.Mathlib.Nat.{mod-lt}
use micserver.Dict.{≢_to_ₛ, ◌=ₛ◌, lookup, insert, erase, lookup-insert, lookup-erase}
use micserver.Wire.Bytes.{Bytes}
use micserver.Roc.Pool.{
  SubPool, MapPool, init, is_grouped, get_group_index, get_pool, set_pool, load, change_pool,
  store_at, delete_at,
}

pick :
    {A : Type 0} (b : Bool) (x y : Option A)
    → some (if b then x else y) ≡ (if b then some x else some y)
pick true x y = refl
pick false x y = refl

module _ {V : Type 0} (hash : Bytes → ℕ) where
  -- Every key has a pool.
  abbrev pub IsWhole : MapPool V → Type 0
  IsWhole p = (k : Bytes) → (m : SubPool V) × (get_pool hash p k ≡ some m)

  get_grouped :
      (p : MapPool V) (j : Bytes)
      → is_grouped p ≡ true
      → get_pool hash p j ≡ p.group_pool (get_group_index hash p j)
  unfolding get_pool
  get_grouped p j g = rw (get_pool, g) refl

  get_alone : (p : MapPool V) (j : Bytes) → is_grouped p ≡ false → get_pool hash p j ≡ some p.pool
  unfolding get_pool
  get_alone p j g = rw (get_pool, g) refl

  abbrev in_group : MapPool V → Bytes → SubPool V → MapPool V
  in_group p k m = record p {
    group_pool = (λ i. if get_group_index hash p k == i then some m else p.group_pool i);
  }

  abbrev in_pool : MapPool V → SubPool V → MapPool V
  in_pool p m = record p { pool = m }

  set_grouped :
      (p : MapPool V) (k : Bytes) (m : SubPool V)
      → is_grouped p ≡ true
      → set_pool hash p k m ≡ in_group p k m
  unfolding set_pool
  set_grouped p k m g = rw (set_pool, g) refl

  set_alone :
      (p : MapPool V) (k : Bytes) (m : SubPool V)
      → is_grouped p ≡ false
      → set_pool hash p k m ≡ in_pool p m
  unfolding set_pool
  set_alone p k m g = rw (set_pool, g) refl

  is_grouped-in_group :
      (p : MapPool V) (k : Bytes) (m : SubPool V) → is_grouped (in_group p k m) ≡ is_grouped p
  unfolding is_grouped
  is_grouped-in_group p k m = refl

  is_grouped-in_pool : (p : MapPool V) (m : SubPool V) → is_grouped (in_pool p m) ≡ is_grouped p
  unfolding is_grouped
  is_grouped-in_pool p m = refl

  get-in_group :
      (p : MapPool V) (k j : Bytes) (m : SubPool V)
      → is_grouped p ≡ true
      → get_pool hash (in_group p k m) j ≡ (
          if get_group_index hash p k == get_group_index hash p j
          then some m
          else p.group_pool (get_group_index hash p j))
  unfolding get_group_index
  get-in_group p k j m g = get_grouped (in_group p k m) j (is_grouped-in_group p k m ∙ g)

  -- A change of the pool of a key, read again: the keys of that pool, and the others.
  get_pool-set_pool :
      (p : MapPool V) (k j : Bytes) (m : SubPool V)
      → ((get_pool hash (set_pool hash p k m) j ≡ some m) × (get_pool hash p j ≡ get_pool hash p k))
        ⊎ ((k ≢ j) × (get_pool hash (set_pool hash p k m) j ≡ get_pool hash p j))
  get_pool-set_pool p k j m = elim (Bool-cases (is_grouped p)) [
    | inr n ↦ inl (
      ap (λ q. get_pool hash q j) (set_alone p k m n)
          ∙ get_alone (in_pool p m) j (is_grouped-in_pool p m ∙ n),
      get_alone p j n ∙ sym (get_alone p k n),
    )
    | inl g ↦
        let at : get_pool hash (set_pool hash p k m) j ≡ (
            if get_group_index hash p k == get_group_index hash p j
            then some m
            else p.group_pool (get_group_index hash p j)) =
          ap (λ q. get_pool hash q j) (set_grouped p k m g) ∙ get-in_group p k j m g in
        elim (Bool-cases (get_group_index hash p k == get_group_index hash p j)) [
          | inl same ↦ inl (
            at ∙ rw (same) refl,
            get_grouped p j g
                ∙ (ap p.group_pool
                      (sym ((==_iff (get_group_index hash p k) (get_group_index hash p j)).0 same))
                    ∙ sym (get_grouped p k g)),
          )
          | inr other ↦ inr (
            (λ kj. ground (arith, other, ap (get_group_index hash p) kj)),
            at ∙ (rw (other) refl ∙ sym (get_grouped p j g)),
          )
        ]
  ]

  load_lem :
      (p : MapPool V) (j : Bytes) (m : SubPool V)
      → get_pool hash p j ≡ some m
      → load hash p j ≡ some (lookup j m)
  unfolding load
  load_lem p j m e = rw (load, e) refl

  load-same :
      (p q : MapPool V) (j : Bytes)
      → get_pool hash q j ≡ get_pool hash p j
      → load hash q j ≡ load hash p j
  unfolding load
  load-same p q j e = rw (load, e) refl

  -- A method that changes the pool of a key by `f`, which changes its own key at most.
  pub record IsChanged (p : MapPool V) (k : Bytes) (new : Option V) (r : Option (MapPool V))
      : Type 0 where
    pub after : MapPool V
    pub is : r ≡ some after
    pub whole : IsWhole after
    pub loads : (j : Bytes) → load hash after j ≡ (if k =ₛ j then some new else load hash p j)

  change_pool-IsChanged :
      (f : SubPool V → SubPool V) (p : MapPool V) (k : Bytes) (new : Option V)
      → IsWhole p
      → ((j : Bytes) (m : SubPool V) → lookup j (f m) ≡ (if k =ₛ j then new else lookup j m))
      → IsChanged p k new (change_pool hash f p k)
  unfolding change_pool
  change_pool-IsChanged f p k new whole law =
      let (m, e) = whole k in
      let q = set_pool hash p k (f m) in
      record {
        after = q;
        is = rw (change_pool, e) refl;
        whole = (λ j. elim (get_pool-set_pool p k j (f m)) [
          | inl (got, same) ↦ (f m, got)
          | inr (ne, got) ↦ ((whole j).0, got ∙ (whole j).1)
        ]);
        loads = (λ j. elim (get_pool-set_pool p k j (f m)) [
          | inl (got, same) ↦
              load_lem q j (f m) got
              ∙ (ap some (law j m)
                  ∙ (pick (k =ₛ j) new (lookup j m)
                      ∙ ap (λ o. if k =ₛ j then some new else o) (sym (load_lem p j m (same ∙ e)))))
          | inr (ne, got) ↦ load-same p q j got ∙ sym (rw (≢_to_ₛ k j ne) refl)
        ]);
      }

  -- A map with a pool for every key.
  pub init-IsWhole : (n : ℕ) (p : MapPool V) → IsWhole (init n p)
  unfolding init is_grouped get_group_index
  init-IsWhole n p k = elim (Bool-cases ((n == 0 || n == 1) || not p.has_group_func)) [
    | inl c ↦
        rw (init, c) (p.pool, get_alone (record p { group_sum = 1; has_group_func = true }) k refl)
    | inr c ↦
        let q : MapPool V = record p {
          group_sum = n;
          group_pool = (λ i. if ltb i n then some [] else p.group_pool i);
          has_group_func = true;
        } in
        let two : 1 < n = ground (arith, c) in
        rw (init, c)
          (
            [],
            get_grouped q k (rw (lt→ltb 1 n two) refl)
                ∙ rw (lt→ltb (hash k % n) n (mod-lt (hash k) (omega (arith, two)))) refl,
          )
  ]

-- Store on a map that has a pool for every key does not panic, whatever the groups: there is still a
-- pool for every key, and Load answers the value for its key and what it did before for the others.
pub store_at-IsChanged :
    {V : Type 0} (hash : Bytes → ℕ) (p : MapPool V) (k : Bytes) (v : V)
    → IsWhole hash p
    → IsChanged hash p k (some v) (store_at hash p k v)
unfolding store_at
store_at-IsChanged hash p k v whole =
    change_pool-IsChanged hash (insert k v) p k (some v) whole (λ j m. lookup-insert k j v m)

-- Delete on such a map: Load answers nothing for its key and what it did before for the others.
pub delete_at-IsChanged :
    {V : Type 0} (hash : Bytes → ℕ) (p : MapPool V) (k : Bytes)
    → IsWhole hash p
    → IsChanged hash p k none (delete_at hash p k)
unfolding delete_at
delete_at-IsChanged hash p k whole =
    change_pool-IsChanged hash (erase k) p k none whole (λ j m. lookup-erase k j m)
