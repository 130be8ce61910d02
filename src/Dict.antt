-- ===== src/Dict.antt =====
-- Go's maps with string keys, as association lists. A key that is not there reads as `none`.
use micserver.Prelude.{
  ℕ, ◌≡◌, refl, ◌∙◌, ◌≢◌, ◌↔◌, Bool, true, false, ◌&&◌, Option, none, some, List, [], ◌∷◌, ◌++◌,
  ◌==◌, if◌then◌else◌, arith, sym, append-nil, append_assoc,
}

-- Equality of strings, byte by byte.
infix 50 ◌=ₛ◌
unfoldable pub ◌=ₛ◌ : List ℕ → List ℕ → Bool
[] =ₛ [] = true
[] =ₛ (b ∷ bs) = false
(a ∷ as') =ₛ [] = false
(a ∷ as') =ₛ (b ∷ bs) = (a == b) && (as' =ₛ bs)

pub =ₛ_iff : (s t : List ℕ) → ((s =ₛ t) ≡ true) ↔ (s ≡ t)
unfolding ◌=ₛ◌
=ₛ_iff [] [] = ((λ _. refl), (λ _. refl))
=ₛ_iff [] (b ∷ bs) = ground arith
=ₛ_iff (a ∷ as') [] = ground arith
=ₛ_iff (a ∷ as') (b ∷ bs) = ground (arith, =ₛ_iff as' bs)

pub =ₛ_refl : (s : List ℕ) → (s =ₛ s) ≡ true
=ₛ_refl s = (=ₛ_iff s s).1 refl

pub ≢_to_ₛ : (s t : List ℕ) → s ≢ t → (s =ₛ t) ≡ false
≢_to_ₛ s t n = ground (arith, =ₛ_iff s t)

pub differ : (s t : List ℕ) → (s =ₛ t) ≡ false → s ≢ t
differ s t e = ground (arith, =ₛ_iff s t)

module _ {ℓ} {V : Type ℓ} where
  unfoldable pub lookup : List ℕ → List (List ℕ × V) → Option V
  lookup k [] = none
  lookup k ((j, v) ∷ m) = if j =ₛ k then some v else lookup k m

  -- `m[k] = v`: a new key goes to the end.
  unfoldable pub insert : List ℕ → V → List (List ℕ × V) → List (List ℕ × V)
  insert k v [] = (k, v) ∷ []
  insert k v ((j, w) ∷ m) = if j =ₛ k then (j, v) ∷ m else (j, w) ∷ insert k v m

  -- `delete(m, k)`
  unfoldable pub erase : List ℕ → List (List ℕ × V) → List (List ℕ × V)
  erase k [] = []
  erase k ((j, w) ∷ m) = if j =ₛ k then erase k m else (j, w) ∷ erase k m

  pub lookup-insert :
      (k j : List ℕ) (v : V) (m : List (List ℕ × V))
      → lookup j (insert k v m) ≡ (if k =ₛ j then some v else lookup j m)
  unfolding lookup insert
  lookup-insert k j v [] = refl
  lookup-insert k j v ((i, w) ∷ m) =
      ground (arith, =ₛ_iff k j, =ₛ_iff i k, =ₛ_iff i j, lookup-insert k j v m)

  pub lookup-erase :
      (k j : List ℕ) (m : List (List ℕ × V))
      → lookup j (erase k m) ≡ (if k =ₛ j then none else lookup j m)
  unfolding lookup erase
  lookup-erase k j [] = ground arith
  lookup-erase k j ((i, w) ∷ m) =
      ground (arith, =ₛ_iff k j, =ₛ_iff i k, =ₛ_iff i j, lookup-erase k j m)

  -- Each key stands once.
  abbrev pub Fresh : List ℕ → List (List ℕ × V) → Type 0
  Fresh k [] = Unit {0}
  Fresh k ((j, w) ∷ m) = (j ≢ k) × Fresh k m

  abbrev pub IsMap : List (List ℕ × V) → Type 0
  IsMap [] = Unit {0}
  IsMap ((j, w) ∷ m) = Fresh j m × IsMap m

  pub insert-Fresh :
      (k : List ℕ) (v : V) (m : List (List ℕ × V)) → Fresh k m → insert k v m ≡ m ++ ((k, v) ∷ [])
  unfolding insert
  insert-Fresh k v [] f = refl
  insert-Fresh k v ((j, w) ∷ m) (ne, f) = ground (arith, =ₛ_iff j k, insert-Fresh k v m f)

  -- Entries set in turn.
  unfoldable pub inserts : List (List ℕ × V) → List (List ℕ × V) → List (List ℕ × V)
  inserts m [] = m
  inserts m ((k, v) ∷ more') = inserts (insert k v m) more'

  Fresh-middle :
      (k j : List ℕ) (v : V) (acc m : List (List ℕ × V)) → Fresh j (acc ++ ((k, v) ∷ m)) → k ≢ j
  Fresh-middle k j v [] m f = f.0
  Fresh-middle k j v (x ∷ acc) m f = Fresh-middle k j v acc m f.1

  IsMap-middle :
      (k : List ℕ) (v : V) (acc m : List (List ℕ × V)) → IsMap (acc ++ ((k, v) ∷ m)) → Fresh k acc
  IsMap-middle k v [] m h = tt
  IsMap-middle k v ((j, w) ∷ acc) m (f, h) =
      ((λ e. Fresh-middle k j v acc m f (sym e)), IsMap-middle k v acc m h)

  -- Entries with keys of their own are kept in their order.
  pub inserts-append : (acc m : List (List ℕ × V)) → IsMap (acc ++ m) → inserts acc m ≡ acc ++ m
  unfolding inserts
  inserts-append acc [] h = sym (append-nil acc)
  inserts-append acc ((k, v) ∷ m) h =
      let one : List (List ℕ × V) = (k, v) ∷ [] in
      rw (insert-Fresh k v acc (IsMap-middle k v acc m h))
        (inserts-append (acc ++ one) m (rw append_assoc h) ∙ append_assoc acc one m)
