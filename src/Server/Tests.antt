-- ===== src/Server/Tests.antt =====
-- Objects and calls of the modules "a" and "b".
use micserver.Prelude.{
  ◌≡◌, refl, true, false, none, some, [], ◌∷◌, ◌++◌, All, arith, ℕ, length, length-replicate,
  replicate, inl, inr, ap,
}
use micserver.Prelude.Int.{ℤ, pos, negsuc}
use micserver.Dict.{lookup}
use micserver.Wire.Bytes.{Bytes}
use micserver.Roc.Cache.{Cache}
use micserver.Roc.Cache.Views.{IsCache}
use micserver.Server.Arrived.{send_each}
use micserver.Server.LastIds.{is_among, last_heard}
use micserver.Server.Located.{IsSent, joined_located}
use micserver.Server.Handed.{process_each, Returns, handed_on}
use micserver.Server.Remote.{remote_call, returned}
use micserver.Server.Replied.{remote_call_lem}
use micserver.Wire.Call.{SRocResponse, size_s_roc_request, size_s_roc_response}
use micserver.Server.Binding.{LocalObjs, on_server_join_subnet}
use micserver.Server.Joined.{heard, recorded, IsBind, on_server_join_subnet_lem}
use micserver.Server.Notice.{Obj, arrive, tick, stop, Notice, on_events}
use micserver.Server.Waiting.{IsNotice, pairs, arrived}
use micserver.Server.Noticed.{on_events_lem}
use micserver.Server.Calls.{
  request_cmd, request_of, ResponseAgent, RocServer, ◌=ℤ◌, set_at, new_seq, add_block_chan,
  roc_call_block, agent_of, on_msg_roc_response, hand_on, take_response, roc_response_process,
  read_chan, read_result, Steps, stays, goes, calls, responds, moves, reads, new_roc_server,
}
use micserver.Server.Numbered.{new_roc_server-IsRocServer}
use micserver.Server.Answers.{Steps-IsRocServer, read_result-seq}
use micserver.Server.Stuck.{IsStuck, stuck_lem}

abbrev module_a : Bytes
module_a = 97 ∷ []

abbrev module_b : Bytes
module_b = 98 ∷ []

abbrev room : Bytes
room = 114 ∷ []

abbrev two_rooms : LocalObjs
two_rooms = (room, (49 ∷ [], tt) ∷ ((50 ∷ [], tt) ∷ [])) ∷ []

on_server_join_subnet_lem_example :
    (heard (on_server_join_subnet (λ m. false) module_a module_b two_rooms) ≡ recorded two_rooms)
    × All (IsBind module_a) (on_server_join_subnet (λ m. false) module_a module_b two_rooms)
on_server_join_subnet_lem_example =
    on_server_join_subnet_lem (λ m. false) module_a module_b two_rooms 5 refl
      (omega arith, (omega arith, (omega arith, tt)), tt)

abbrev first_room : Obj
first_room = record { obj_type = room; obj_id = 49 ∷ [] }

abbrev player : Obj
player = record { obj_type = 112 ∷ []; obj_id = 51 ∷ [] }

abbrev waits_with_room : Notice
waits_with_room = record {
  tmp_list = first_room ∷ [];
  left_obj = none;
  is_stop = false;
  is_over = false;
}

on_events_lem_example :
    (heard
        (on_events module_a false
          ((arrive player ∷ (arrive first_room ∷ [])) ++ (tick ∷ []))
          waits_with_room).0
      ≡ pairs (first_room ∷ []) ++ arrived (arrive player ∷ (arrive first_room ∷ [])))
    × All
        (IsNotice module_a false)
        (on_events module_a false
          ((arrive player ∷ (arrive first_room ∷ [])) ++ (tick ∷ []))
          waits_with_room).0
    × ((on_events module_a false
          ((arrive player ∷ (arrive first_room ∷ [])) ++ (stop ∷ (arrive player ∷ (tick ∷ []))))
          waits_with_room).0
        ≡ (on_events module_a false (arrive player ∷ (arrive first_room ∷ [])) waits_with_room).0)
on_events_lem_example =
    on_events_lem module_a false (arrive player ∷ (arrive first_room ∷ []))
      (arrive player ∷ (tick ∷ [])) waits_with_room
      ((λ e. ground (arith, e)), ((λ e. ground (arith, e)), tt))
      (record { room = omega arith; uniform = tt; none_left = refl; runs = refl; loops = refl })

-- A call whose request went to three modules, which all answer.
abbrev response : SRocResponse
response = record {
  from_module_id = module_b;
  to_module_id = module_a;
  req_seq = pos 1;
  res_data = none;
  error = 101 ∷ [];
}

abbrev agent : ResponseAgent
agent = record { from_module_id = module_b; seq = pos 1; payload = none; err = 101 ∷ [] }

abbrev called : RocServer
called = (roc_call_block new_roc_server).1

abbrev answered : RocServer
answered =
    on_msg_roc_response response
      (on_msg_roc_response response (on_msg_roc_response response called))

abbrev handed : RocServer
handed = record {
  last_seq = 1;
  block_chans = set_at (pos 1) (some (some agent)) (set_at (pos 1) (some none) (λ q. none));
  waiting = set_at (pos 1) true (λ q. false);
  responses = agent ∷ (agent ∷ []);
  is_stop = false;
  is_over = false;
}

abbrev was_returned : RocServer
was_returned = record handed {
  block_chans = set_at (pos 1) (some none) handed.block_chans;
  waiting = set_at (pos 1) false handed.waiting;
}

abbrev full_again : RocServer
full_again = record was_returned {
  responses = agent ∷ [];
  block_chans = set_at (pos 1) (some (some agent)) was_returned.block_chans;
}

answered-handed : roc_response_process answered ≡ some handed
unfolding roc_response_process take_response hand_on on_msg_roc_response agent_of roc_call_block
    new_seq add_block_chan ◌=ℤ◌
answered-handed = refl

handed-was_returned : read_result (pos 1) handed ≡ some (agent, was_returned)
unfolding read_result read_chan ◌=ℤ◌
handed-was_returned = refl

was_returned-full_again : roc_response_process was_returned ≡ some full_again
unfolding roc_response_process take_response hand_on ◌=ℤ◌
was_returned-full_again = refl

to_handed : Steps new_roc_server handed
to_handed = goes new_roc_server called handed (calls new_roc_server) (
    goes called (on_msg_roc_response response called) handed (responds response called) (
      goes (on_msg_roc_response response called)
        (on_msg_roc_response response (on_msg_roc_response response called)) handed
        (responds response (on_msg_roc_response response called))
        (goes (on_msg_roc_response response (on_msg_roc_response response called)) answered handed
          (responds response (on_msg_roc_response response (on_msg_roc_response response called)))
          (goes answered handed handed (moves answered handed answered-handed) (stays handed)))))

from_handed : Steps handed full_again
from_handed =
    goes handed was_returned full_again
      (reads (pos 1) agent handed was_returned handed-was_returned)
      (goes was_returned full_again full_again
        (moves was_returned full_again was_returned-full_again) (stays full_again))

read_result-seq_example : agent.seq ≡ pos 1
read_result-seq_example =
    read_result-seq handed was_returned (pos 1) agent to_handed handed-was_returned

called-chan : called.block_chans (pos 1) ≡ some none
unfolding roc_call_block new_seq add_block_chan ◌=ℤ◌
called-chan = refl

called-waiting : called.waiting (pos 1) ≡ true
unfolding roc_call_block new_seq add_block_chan ◌=ℤ◌
called-waiting = refl

abbrev of_pos : ℤ → ℕ
of_pos (pos n) = n
of_pos (negsuc n) = 0

abbrev unasked : ResponseAgent
unasked = record agent { seq = pos 7 }

-- A response that nobody has asked for, and one to a call that waits.
abbrev two_to_come : RocServer
two_to_come = record called { responses = unasked ∷ (agent ∷ []) }

called-no_chan : called.block_chans (pos 7) ≡ none
unfolding roc_call_block new_seq add_block_chan ◌=ℤ◌
called-no_chan = refl

called-runs : called.is_stop ≡ false
unfolding roc_call_block new_seq add_block_chan
called-runs = refl

called-loops : called.is_over ≡ false
unfolding roc_call_block new_seq add_block_chan
called-loops = refl

handed_on_example :
    (after : RocServer) × (process_each 2 two_to_come ≡ some after)
    × (after.responses ≡ [])
    × All (Returns two_to_come after) (unasked ∷ (agent ∷ []))
handed_on_example =
    handed_on two_to_come called-runs called-loops
      (((λ e. ground (arith, ap of_pos e)), tt), (tt, tt))
      (inl called-no_chan, (inr (called-chan, called-waiting), tt))

full_again-IsStuck : IsStuck agent full_again
unfolding ◌=ℤ◌
full_again-IsStuck = record { rest = []; next = refl; other = agent; full = refl; returned = refl }

stuck_lem_example : roc_response_process (roc_call_block full_again).1 ≡ none
stuck_lem_example =
    stuck_lem agent full_again (roc_call_block full_again).1
      (Steps-IsRocServer handed full_again from_handed
        (Steps-IsRocServer new_roc_server handed to_handed new_roc_server-IsRocServer))
      full_again-IsStuck
      (goes full_again (roc_call_block full_again).1 (roc_call_block full_again).1
        (calls full_again) (stays (roc_call_block full_again).1))

abbrev zeros : ℕ → Bytes
zeros n = replicate n 0

length-zeros : (n : ℕ) → length (zeros n) ≡ n
length-zeros n = length-replicate n 0

-- A call on module "b" that fails, of a caller that it finds.
remote_call_lem_example :
    remote_call zeros 0
      (λ a. record { res = none; err = some room })
      true
      module_a
      module_b
      room
      none
      new_roc_server
    ≡ returned (record { from_module_id = module_b; seq = pos 1; payload = none; err = room })
unfolding roc_call_block new_seq add_block_chan request_cmd request_of size_s_roc_request
    size_s_roc_response
remote_call_lem_example =
    remote_call_lem zeros 0 length-zeros (λ a. record { res = none; err = some room }) true module_a
      module_b room none new_roc_server (λ e. ground (arith, e)) refl refl
      (record { seq_fits = omega arith; size_fits = omega arith })
      (record { req_seq_fits = omega arith; size_fits = omega arith })

abbrev empty_cache : Cache
empty_cache = record { catch_server = []; catch_type = [] }

empty_cache-IsCache : IsCache empty_cache
unfolding lookup
empty_cache-IsCache = record { named = (λ k v e. ground (arith, e)) }

joined_located_example :
    IsSent module_a
      (last_heard (on_server_join_subnet (λ m. false) module_a module_b two_rooms))
      empty_cache
      (send_each zeros 0
        (on_server_join_subnet (λ m. false) module_a module_b two_rooms)
        empty_cache)
    × ((t id : Bytes)
        → is_among t id
            (last_heard (on_server_join_subnet (λ m. false) module_a module_b two_rooms))
          ≡ true
        → is_among t id (recorded two_rooms) ≡ true)
joined_located_example =
    joined_located zeros 0 (λ m. false) module_a module_b two_rooms 5 empty_cache length-zeros refl
      (omega arith, (omega arith, (omega arith, tt)), tt) empty_cache-IsCache
