-- ===== src/Wire/Tests.antt =====
-- The theorems on the messages at concrete inputs.
use micserver.Prelude.{ℕ, ◌≡◌, refl, false, [], ◌∷◌, none, some, arith, replicate, length}
use micserver.Wire.Bytes.{Bytes}
use micserver.Wire.Sizes.{sum_sizes, size_pair}
use micserver.Wire.Sessions.{SUpdateSession, size_s_update_session}
use micserver.Wire.Bind.{SRocBind, size_s_roc_bind, read_s_roc_bind, write_s_roc_bind}
use micserver.Wire.Bind.Written.{last_id}
use micserver.Wire.Run.{run_writer}
use micserver.Wire.Bind.LastId.{s_roc_bind_arrives_as_last_id}
use micserver.Wire.Commands.{
  Command, get_size, get_msg_id, get_msg_name, string_to_msg_id, msg_id_to_string,
}
use micserver.Wire.Commands.RoundTrip.{Survives, command-Survives, id_name}

abbrev update : SUpdateSession
update = record {
  from_module_id = b'a' ∷ [];
  to_module_id = b'b' ∷ b'c' ∷ [];
  client_conn_id = [];
  session_uuid = b'u' ∷ [];
  session = some ((b'k' ∷ [], b'v' ∷ []) ∷ (b'l' ∷ [], []) ∷ []);
}

command-Survives_example : Survives (Command.s_update_session update) (replicate 47 0) 7
unfolding get_size size_s_update_session sum_sizes size_pair
command-Survives_example =
    command-Survives (Command.s_update_session update) (replicate 47 0) 7
      (record { session_keys = (((λ e. ground arith), tt), (tt, tt)); size_fits = omega arith })
      refl

abbrev two_ids : SRocBind
two_ids = record {
  host_module_id = b'm' ∷ [];
  is_delete = false;
  obj_type = b't' ∷ [];
  obj_ids = some ((b'x' ∷ []) ∷ (b'y' ∷ []) ∷ []);
}

s_roc_bind_arrives_as_last_id_example :
    (bs : Bytes) × (n : ℕ) × (run_writer (write_s_roc_bind (some two_ids)) (replicate 29 0)
      ≡ some (bs, n))
    × (read_s_roc_bind bs 0 none
        ≡ some (29, some (record two_ids { obj_ids = some ((b'y' ∷ []) ∷ (b'y' ∷ []) ∷ []) })))
    × (length bs ≡ 29)
unfolding size_s_roc_bind sum_sizes last_id
s_roc_bind_arrives_as_last_id_example =
    s_roc_bind_arrives_as_last_id two_ids (b'x' ∷ []) ((b'y' ∷ []) ∷ []) refl (replicate 29 0) 0
      (omega arith) refl

id_name_example :
    (string_to_msg_id (get_msg_name (Command.s_roc_bind two_ids))
      ≡ get_msg_id (Command.s_roc_bind two_ids))
    × (msg_id_to_string (get_msg_id (Command.s_roc_bind two_ids))
        ≡ get_msg_name (Command.s_roc_bind two_ids))
id_name_example = id_name (Command.s_roc_bind two_ids)
