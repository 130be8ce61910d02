-- ===== src/Msg/Pool.antt =====
-- util/pool/flexiable_pool.go: pools of objects, one for each size class.
use micserver.Prelude.{
  ℕ, suc, ◌-◌, Option, none, some, List, [], ◌∷◌, ◌&&◌, ltb, leb, if◌then◌else◌, get_elem?,
}
use mathlib.Core.Option

-- The loops of getIndex and getIndexSafety, from the class i on, behind a class of size `prev`.
unfoldable pub scan_up : ℕ → ℕ → ℕ → List ℕ → Option ℕ
scan_up size i prev [] = none
scan_up size i prev (s ∷ sizes) =
    let rest = scan_up size (suc i) s sizes in if ltb prev size && leb size s then some i else rest

unfoldable pub scan_down : ℕ → ℕ → ℕ → List ℕ → ℕ
scan_down size i prev [] = i - 1
scan_down size i prev (s ∷ sizes) =
    let rest = scan_down size (suc i) s sizes in if leb prev size && ltb size s then i - 1 else rest

-- getIndex: the class to take an object from; -1 is `none`, and so is a panic without classes.
unfoldable pub get_index : List ℕ → ℕ → Option ℕ
get_index [] size = none
get_index (s ∷ sizes) size = if leb size s then some 0 else scan_up size 1 s sizes

-- getIndexSafety: the class to put an object in.
unfoldable pub get_index_safety : List ℕ → ℕ → Option ℕ
get_index_safety [] size = none
get_index_safety (s ∷ sizes) size = if ltb size s then none else some (scan_down size 1 s sizes)

-- MaxSize
unfoldable pub max_size : List ℕ → ℕ
max_size [] = 0
max_size (s ∷ []) = s
max_size (s ∷ t ∷ sizes) = max_size (t ∷ sizes)

-- Get: `pooled` is what the sync.Pool of a class has to hand at this moment, if anything; `make`
-- is New. `none` is an error.
unfoldable pub get {ℓ} : {A : Type ℓ} → List ℕ → (ℕ → A) → (ℕ → Option A) → ℕ → Option A
get sizes make pooled size =
    if ltb (max_size sizes) size then none else elim (get_index sizes size) [
      | none ↦ none
      | some i ↦ elim (pooled i) [ none ↦ Option.map make (get_elem? sizes i) | some a ↦ some a ]
    ]

-- Put: the class whose pool the object goes to; `none` is an error, and it is dropped.
unfoldable pub put_class : List ℕ → ℕ → Option ℕ
put_class sizes size = if ltb (max_size sizes) size then none else get_index_safety sizes size
