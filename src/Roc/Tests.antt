-- ===== src/Roc/Tests.antt =====
-- The theorems on the cache and the paths at concrete inputs.
use micserver.Prelude.{refl, ◌≡◌, List, [], ◌∷◌, arith}
use micserver.Dict.{lookup}
use micserver.Roc.Cache.{Cache}
use micserver.Roc.Cache.Views.{IsCache, locations}
use micserver.Roc.Cache.Refinement.{Op, set_op, del_op, set_m_op, run, effects, run_refines}
use micserver.Roc.Path.{RocPath, new_roc_path, to_string, reset_pos}
use micserver.Roc.Path.RoundTrip.{new_roc_path-to_string}

abbrev fresh : Cache
fresh = record { catch_server = []; catch_type = [] }

fresh-IsCache : IsCache fresh
unfolding lookup
fresh-IsCache = record { named = λ k v l. ground arith }

abbrev calls : List Op
calls =
    set_op (b'r' ∷ []) (b'1' ∷ []) (b'm' ∷ [])
    ∷ set_m_op (b'r' ∷ []) ((b'2' ∷ []) ∷ (b'3' ∷ []) ∷ []) (b'n' ∷ [])
    ∷ del_op (b'r' ∷ []) (b'2' ∷ []) (b'm' ∷ [])
    ∷ []

run_refines_example :
    IsCache (run calls fresh) × (locations (run calls fresh) ≡ effects calls (locations fresh))
run_refines_example = run_refines calls fresh fresh-IsCache

-- room[7].Join, on its way.
abbrev join : RocPath
join = record {
  strs = (b'J' ∷ b'o' ∷ []) ∷ [];
  pos = 1;
  obj_type = b'r' ∷ b'm' ∷ [];
  obj_id = b'7' ∷ [];
}

new_roc_path-to_string_example : new_roc_path (to_string join) ≡ reset_pos join
new_roc_path-to_string_example =
    new_roc_path-to_string join refl ((refl, refl, refl), ((refl, refl, refl), tt))
      ((refl, refl, refl), tt) ((refl, (refl, tt)), tt)
