-- ===== src/Roc/Objects/Tests.antt =====
-- Rooms of a module, and a map of two groups.
use micserver.Prelude.{ℕ, some, [], ◌∷◌, length}
use micserver.Wire.Bytes.{Bytes}
use micserver.Roc.Pool.{MapPool, init, new_map_pool, store_at}
use micserver.Roc.Pool.Grouped.{IsChanged, init-IsWhole, store_at-IsChanged}
use micserver.Roc.Objects.{IObj}
use micserver.Roc.Objects.Recorded.{IsTold, reg, del, make_each, make_each-IsTold, init-IsRoc}

abbrev hash : Bytes → ℕ
hash k = length k

-- A map that is initialized a second time has its groups.
abbrev two_groups : MapPool ℕ
two_groups = init 2 (init 2 new_map_pool)

store_at-IsChanged_example :
    IsChanged hash two_groups (1 ∷ []) (some 5) (store_at hash two_groups (1 ∷ []) 5)
store_at-IsChanged_example =
    store_at-IsChanged hash two_groups (1 ∷ []) 5 (init-IsWhole hash 2 (init 2 new_map_pool))

abbrev room : IObj
room = record { obj_type = 114 ∷ []; obj_id = 49 ∷ []; tag = 0 }

make_each-IsTold_example :
    IsTold hash
      (init 8 new_map_pool)
      (make_each hash (reg room ∷ (del room ∷ (del room ∷ []))) (init 8 new_map_pool))
make_each-IsTold_example =
    make_each-IsTold hash (reg room ∷ (del room ∷ (del room ∷ []))) (init 8 new_map_pool)
      (init-IsRoc hash 8)
