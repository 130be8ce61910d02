-- ===== src/Msg/Supply.antt =====
-- What util/pool/flexiable_pool.go and msg/pool.go promise of the objects that they hand out.
use micserver.Prelude.{
  ℕ, suc, ◌+◌, ◌≤◌, ◌<◌, ◌≡◌, refl, sym, ap, ◌∙◌, Option, none, some, List, [], ◌∷◌, ltb, leb,
  get_elem?, length, arith, inl, inr, Bool-cases, Option-cases, leb→lt, leb→le, lt→ltb, le→ltb,
  le→leb, ltb→le, length-replicate,
}
use micserver.Msg.Pool.{scan_up, scan_down, get_index, get_index_safety, max_size, put_class}
use micserver.Msg.Pool
use micserver.Msg.Binary.{
  MessageBinary, Pooled, get_message_binary, size_control, new_msg_binary_by_size, message_max_size,
  free, reset,
}

scan_up-found :
    (size i prev : ℕ) (sizes : List ℕ)
    → prev < size
    → size ≤ max_size (prev ∷ sizes)
    → (j : ℕ) × (s : ℕ) × (scan_up size i prev sizes ≡ some (i + j))
      × (get_elem? sizes j ≡ some s)
      × (size ≤ s)
unfolding scan_up max_size
scan_up-found size i prev [] h k = ground arith
scan_up-found size i prev (s ∷ sizes) h k = elim (Bool-cases (leb size s)) [
  | inl e ↦ (0, s, rw (lt→ltb prev size h, e) (ap some (omega arith)), refl, leb→le size s e)
  | inr e ↦
      let (j, t, a, b, c) = scan_up-found size (suc i) s sizes (leb→lt size s e) k in
      (suc j, t, rw (lt→ltb prev size h, e) (a ∙ ap some (omega arith)), b, c)
]

-- A size up to the largest has a class, and that class is at least as large.
pub get_index-found :
    (sizes : List ℕ) (size : ℕ)
    → 0 < length sizes
    → size ≤ max_size sizes
    → (i : ℕ) × (s : ℕ) × (get_index sizes size ≡ some i)
      × (get_elem? sizes i ≡ some s)
      × (size ≤ s)
unfolding get_index
get_index-found [] size z h = ground arith
get_index-found (s₀ ∷ sizes) size z h = elim (Bool-cases (leb size s₀)) [
  | inl e ↦ (0, s₀, rw e refl, refl, leb→le size s₀ e)
  | inr e ↦
      let (j, t, a, b, c) = scan_up-found size 1 s₀ sizes (leb→lt size s₀ e) h in
      (suc j, t, rw e (a ∙ ap some (omega arith)), b, c)
]

-- The objects in the pools are in the right ones: each has a buffer of at least its class's size.
pub record IsPooled (pooled : Pooled) : Type 0 where
  pub fits :
      (i s : ℕ) (m : MessageBinary)
      → get_elem? size_control i ≡ some s
      → pooled i ≡ some m
      → s ≤ length m.buffer

-- GetMessageBinary answers a message with a buffer that is long enough, for every length up to
-- the largest class.
pub get_message_binary-fits :
    (pooled : Pooled) (n : ℕ)
    → IsPooled pooled
    → n ≤ message_max_size
    → (m : MessageBinary) × (get_message_binary pooled n ≡ some m) × (n ≤ length m.buffer)
unfolding get_message_binary Pool.get max_size new_msg_binary_by_size
get_message_binary-fits pooled n h k =
    let (i, s, a, b, c) = get_index-found size_control n (omega arith) k in
    elim (Option-cases (pooled i)) [
      | inl e ↦ (
        new_msg_binary_by_size s,
        rw (le→ltb message_max_size n k, a, e, b) refl,
        omega (arith, c, length-replicate {A = ℕ} s 0),
      )
      | inr (m, e) ↦
          (m, rw (le→ltb message_max_size n k, a, e) refl, omega (arith, c, h.fits i s m b e))
    ]

scan_down-fits :
    (size i prev : ℕ) (sizes : List ℕ)
    → prev ≤ size
    → (j : ℕ) × (s : ℕ) × (scan_down size (suc i) prev sizes ≡ i + j)
      × (get_elem? (prev ∷ sizes) j ≡ some s)
      × (s ≤ size)
unfolding scan_down
scan_down-fits size i prev [] h = (0, prev, omega arith, refl, h)
scan_down-fits size i prev (s ∷ sizes) h = elim (Bool-cases (ltb size s)) [
  | inl e ↦ (0, prev, rw (le→leb prev size h, e) (omega arith), refl, h)
  | inr e ↦
      let (j, t, a, b, c) = scan_down-fits size (suc i) s sizes (ltb→le size s e) in
      (suc j, t, rw (le→leb prev size h, e) (a ∙ omega arith), b, c)
]

get_index_safety-fits :
    (sizes : List ℕ) (size i : ℕ)
    → get_index_safety sizes size ≡ some i
    → (s : ℕ) × (get_elem? sizes i ≡ some s) × (s ≤ size)
unfolding get_index_safety
get_index_safety-fits [] size i e = ground arith
get_index_safety-fits (s₀ ∷ sizes) size i e = elim (Bool-cases (ltb size s₀)) [
  | inl f ↦ absurd (none_some (rw f at e))
  | inr f ↦
      let (j, s, a, b, c) = scan_down-fits size 0 s₀ sizes (ltb→le size s₀ f) in
      let k : i ≡ j = some_value (sym (rw f at e)) ∙ (a ∙ omega arith) in
      (s, ap (get_elem? (s₀ ∷ sizes)) k ∙ b, c)
]
  where
    none_some : (◌≡◌ {A = Option ℕ} none (some i)) → ⊥
    none_some p = ground arith

    some_value : {a b : ℕ} → (◌≡◌ {A = Option ℕ} (some a) (some b)) → a ≡ b
    some_value {a} p = ap (λ o. elim o [ none ↦ a | some v ↦ v ]) p

-- Free puts a message only where GetMessageBinary may take it from: its buffer is at least as
-- long as the size of the class whose pool it goes to.
pub free-fits :
    (m : MessageBinary) (i : ℕ)
    → (free m).0 ≡ some i
    → (s : ℕ) × (get_elem? size_control i ≡ some s) × (s ≤ length (free m).1.buffer)
unfolding free put_class reset
free-fits m i e = elim (Bool-cases (ltb (max_size size_control) (length m.buffer))) [
  | inl f ↦ absurd (none_some (rw f at e))
  | inr f ↦ get_index_safety-fits size_control (length m.buffer) i (rw f at e)
]
  where
    none_some : (◌≡◌ {A = Option ℕ} none (some i)) → ⊥
    none_some p = ground arith
