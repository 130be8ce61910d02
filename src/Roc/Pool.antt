-- ===== src/Roc/Pool.antt =====
-- util/pool/mappool.go: a map that may be divided into groups by a hash of the key. `hash` is
-- GetStringHash of util/hash.
pub mod Grouped
use micserver.Prelude.{
  ℕ, ◌%◌, Bool, true, false, not, ◌&&◌, ◌||◌, Option, none, some, List, [], ltb, ◌==◌,
  if◌then◌else◌,
}
use micserver.Dict.{lookup, insert, erase}
use micserver.Wire.Bytes.{Bytes}

abbrev pub SubPool : Type 0 → Type 0
SubPool V = List (Bytes × V)

-- Whether getGroupFunc is set is `has_group_func`.
pub record MapPool (V : Type 0) : Type 0 where
  pub pool : SubPool V
  pub group_pool : ℕ → Option (SubPool V)
  pub group_sum : ℕ
  pub has_group_func : Bool

module _ {V : Type 0} where
  -- The zero value of a MapPool.
  abbrev pub new_map_pool : MapPool V
  new_map_pool = record {
    pool = [];
    group_pool = (λ i. none);
    group_sum = 0;
    has_group_func = false;
  }

  -- Init
  unfoldable pub init : ℕ → MapPool V → MapPool V
  init group_sum p =
      if (group_sum == 0 || group_sum == 1) || not p.has_group_func
      then record p { group_sum = 1; has_group_func = true }
      else record p {
        group_sum = group_sum;
        group_pool = (λ i. if ltb i group_sum then some [] else p.group_pool i);
        has_group_func = true;
      }

  unfoldable pub is_grouped : MapPool V → Bool
  is_grouped p = ltb 1 p.group_sum && p.has_group_func

  module _ (hash : Bytes → ℕ) where
    unfoldable pub get_group_index : MapPool V → Bytes → ℕ
    get_group_index p k = hash k % p.group_sum

    -- GetPool: `none` is the nil pool, on which every method panics.
    unfoldable pub get_pool : MapPool V → Bytes → Option (SubPool V)
    get_pool p k = if is_grouped p then p.group_pool (get_group_index p k) else some p.pool

    -- The pool of a key becomes `m`.
    unfoldable pub set_pool : MapPool V → Bytes → SubPool V → MapPool V
    set_pool p k m =
        if is_grouped p
        then record p {
          group_pool = (λ i. if get_group_index p k == i then some m else p.group_pool i);
        }
        else record p { pool = m }

    -- Load: `none` for a panic.
    unfoldable pub load : MapPool V → Bytes → Option (Option V)
    load p k = elim (get_pool p k) [ none ↦ none | some m ↦ some (lookup k m) ]

    unfoldable pub change_pool : (SubPool V → SubPool V) → MapPool V → Bytes → Option (MapPool V)
    change_pool f p k = elim (get_pool p k) [ none ↦ none | some m ↦ some (set_pool p k (f m)) ]

    -- Store
    unfoldable pub store_at : MapPool V → Bytes → V → Option (MapPool V)
    store_at p k v = change_pool (insert k v) p k

    -- Delete
    unfoldable pub delete_at : MapPool V → Bytes → Option (MapPool V)
    delete_at p k = change_pool (erase k) p k

    -- LoadOrStore: the value under the key, and whether it was there.
    unfoldable pub load_or_store_at : MapPool V → Bytes → V → Option ((V × Bool) × MapPool V)
    load_or_store_at p k v = elim (get_pool p k) [
      | none ↦ none
      | some m ↦ elim (lookup k m) [
        | some w ↦ some ((w, true), p)
        | none ↦ some ((v, false), set_pool p k (insert k v m))
      ]
    ]
