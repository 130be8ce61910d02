-- ===== src/Connect/Tests.antt =====
-- A pool with connections to two gates and a login module.
use micserver.Prelude.{ℕ, ◌≡◌, refl, false, some, List, [], ◌∷◌, length, ◌==◌, if◌then◌else◌, arith}
use micserver.Prelude.Int.{pos}
use micserver.Dict.{◌=ₛ◌, IsMap}
use micserver.Wire.Bytes.{Bytes}
use micserver.Connect.{
  Connection, ServerPool, get_min_load_server, get_random_server, len, min_load_from, is_of_type,
  get_module_id_type,
}
use micserver.Connect.Counted.{IsPool, Op, new_op, remove_op, change_op, run, run-IsPool}
use micserver.Connect.Chosen.{IsMinLoad, get_min_load_server-IsMinLoad}
use micserver.Connect.Random.{IsSomeone, get_random_server-IsSomeone}

-- "gate"
abbrev gate : Bytes
gate = 103 ∷ 97 ∷ 116 ∷ 101 ∷ []

abbrev gate_1 : Bytes
gate_1 = 103 ∷ 97 ∷ 116 ∷ 101 ∷ 49 ∷ []

abbrev gate_2 : Bytes
gate_2 = 103 ∷ 97 ∷ 116 ∷ 101 ∷ 50 ∷ []

abbrev servers : ℕ → Connection
servers a =
    if a == 0
    then record { temp_id = gate_1; module_id = gate_1; version = 1; job_num = 7; is_shut = false }
    else record { temp_id = gate_2; module_id = gate_2; version = 2; job_num = 3; is_shut = false }

abbrev two_gates : ServerPool
two_gates = record {
  servers = servers;
  all_sockets = (gate_1, 0) ∷ ((gate_2, 1) ∷ []);
  link_sum = pos 2;
}

two_gates-IsMap : IsMap two_gates.all_sockets
two_gates-IsMap = (((λ e. ground (arith, e)), tt), (tt, tt))

two_gates-IsPool : IsPool two_gates
two_gates-IsPool = record { distinct = two_gates-IsMap; counted = refl }

least_loaded : get_min_load_server gate two_gates ≡ some 1
unfolding get_min_load_server min_load_from is_of_type get_module_id_type ◌=ₛ◌
least_loaded = refl

abbrev calls : List Op
calls = new_op 2 [] ∷ (remove_op gate_1 ∷ (change_op 1 gate_1 ∷ []))

run-IsPool_example :
    IsPool (run calls two_gates)
    × (len (run calls two_gates) ≡ pos (length (run calls two_gates).all_sockets))
run-IsPool_example = run-IsPool calls two_gates two_gates-IsPool

get_min_load_server-IsMinLoad_example :
    IsMinLoad gate two_gates (get_min_load_server gate two_gates)
get_min_load_server-IsMinLoad_example =
    get_min_load_server-IsMinLoad gate two_gates (omega arith, (omega arith, tt))

get_random_server-IsSomeone_example :
    IsSomeone gate two_gates (get_random_server (λ n. 0) gate two_gates)
get_random_server-IsSomeone_example =
    get_random_server-IsSomeone (λ n. 0) gate two_gates (λ n h. h) two_gates-IsMap
