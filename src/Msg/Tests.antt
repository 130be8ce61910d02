-- ===== src/Msg/Tests.antt =====
-- The theorems on the messages at concrete inputs.
use micserver.Prelude.{
  ℕ, ◌≤◌, ◌≡◌, refl, false, none, some, List, [], ◌∷◌, ◌++◌, length, arith, get_elem?,
}
use micserver.Prelude.Int.{pos}
use micserver.Wire.Bytes.{Bytes, le_bytes}
use micserver.Msg.Pool.{put_class, get_index_safety, max_size, scan_down}
use micserver.Msg.Binary.{MessageBinary, Pooled, size_control, free, new_msg_binary_by_size}
use micserver.Msg.Supply.{IsPooled, free-fits}
use micserver.Msg.Encode.{default_encode_bytes}
use micserver.Msg.Sent.{IsSent, default_encode_bytes-IsSent}
use micserver.Msg.Decode.{State, range_msg_binary}
use micserver.Msg.Frames.{frames}
use micserver.Msg.Stream.{no_head, Unread, at_head, Delivered, range_msg_binary-Delivered}
use micserver.Msg.Commands.{
  IsSendable, sent_bytes, Arrived, commands_arrive, default_encode_obj-IsSent,
}
use micserver.Msg.Encode.{default_encode_obj, write_obj, finish, with_head, default_write_head}
use micserver.Msg.Binary.{get_message_binary, set_proto_data_bound, set_total_length, set_msg_id}
use micserver.Msg.Pool
use micserver.Msg.Pool.{scan_up}
use micserver.Wire.Commands.{Command, get_msg_id, get_size, write_binary, read_binary, blank}
use micserver.Wire.Basic.{write_s_time_tick, write_s_time_tick_body, size_s_time_tick}
use micserver.Wire.Write.{write_message, write_u32, put}
use micserver.Wire.Run.{run_writer}

-- Pools that never have anything to hand.
abbrev no_objects : Pooled
no_objects i = none

no_objects-IsPooled : IsPooled no_objects
no_objects-IsPooled = record { fits = λ i s m e f. ground arith }

default_encode_bytes-IsSent_example :
    (m : MessageBinary) × (default_encode_bytes no_objects no_objects 7 (1 ∷ 2 ∷ [])
      ≡ some (some m))
    × IsSent 7 (1 ∷ 2 ∷ []) m
default_encode_bytes-IsSent_example =
    default_encode_bytes-IsSent no_objects no_objects 7 (1 ∷ 2 ∷ []) no_objects-IsPooled
      (omega arith)

-- Two messages and the first bytes of a third.
abbrev two_messages : List (ℕ × Bytes)
two_messages = (7, 1 ∷ 2 ∷ []) ∷ (8, []) ∷ []

abbrev begun : Bytes
begun = 9 ∷ 0 ∷ []

abbrev arrived : State
arrived = record {
  codec = record { in_msg = false; total_len = 0; proto_len = pos 0; msg_id = 0 };
  buf = record {
    buf = some (frames two_messages ++ begun);
    start = 0;
    end = 16;
    max_length = 16;
    default_length = 16;
    ban_auto_resize = false;
  };
  given = [];
}

arrived-Unread : Unread (frames two_messages ++ begun) arrived
unfolding le_bytes
arrived-Unread = at_head (record {
  holds = record {
    before = [];
    free = [];
    stored = refl;
    start_at = refl;
    end_at = refl;
    size = refl;
    limit = omega arith;
  };
  outside = refl;
})

range_msg_binary-Delivered_example :
    (s' : State) × (out : List MessageBinary) × (range_msg_binary (λ i. no_objects) arrived
      ≡ some (s', none))
    × Unread begun s'
    × (s'.given ≡ [] ++ out)
    × Delivered two_messages out
range_msg_binary-Delivered_example =
    range_msg_binary-Delivered (λ i. no_objects) two_messages begun arrived
      (λ i. no_objects-IsPooled) ((omega arith, omega arith), ((omega arith, omega arith), tt))
      (no_head (omega arith)) arrived-Unread

free-fits_example :
    (s : ℕ) × (get_elem? size_control 1 ≡ some s)
    × (s ≤ length (free (new_msg_binary_by_size 64)).1.buffer)
unfolding free put_class get_index_safety max_size scan_down new_msg_binary_by_size
free-fits_example = free-fits (new_msg_binary_by_size 64) 1 refl

-- One command, as bytes.
abbrev one_command : List Command
one_command = Command.s_time_tick (record { testno = 5 }) ∷ []

abbrev its_bytes : Bytes
its_bytes = frames (
    (get_msg_id (Command.s_time_tick (record { testno = 5 })), 4 ∷ 0 ∷ 0 ∷ 0 ∷ 5 ∷ 0 ∷ 0 ∷ 0 ∷ [])
    ∷ [])

its_bytes-sent_bytes : sent_bytes no_objects one_command ≡ some its_bytes
unfolding sent_bytes default_encode_obj get_message_binary Pool.get Pool.get_index Pool.max_size
    Pool.scan_up new_msg_binary_by_size write_obj run_writer write_binary write_s_time_tick
    write_s_time_tick_body write_message write_u32 put le_bytes finish with_head default_write_head
    set_proto_data_bound set_total_length set_msg_id get_size size_s_time_tick get_msg_id
its_bytes-sent_bytes = refl

tick-IsSendable : IsSendable (Command.s_time_tick (record { testno = 5 }))
unfolding get_size size_s_time_tick
tick-IsSendable = record {
  command = record { testno_fits = omega arith; size_fits = omega arith };
  fits = omega arith;
}

default_encode_obj-IsSent_example :
    (m : MessageBinary) × (bs : Bytes) × (default_encode_obj no_objects
        (Command.s_time_tick (record { testno = 5 }))
      ≡ some (some m))
    × IsSent 37 bs m
    × (read_binary (Command.s_time_tick (record { testno = 0 })) bs 0
        ≡ some (8, Command.s_time_tick (record { testno = 5 })))
    × (length bs ≡ 8)
unfolding get_msg_id get_size size_s_time_tick blank
default_encode_obj-IsSent_example =
    default_encode_obj-IsSent no_objects (Command.s_time_tick (record { testno = 5 })) 0
      no_objects-IsPooled tick-IsSendable

-- A connection on which the command and the beginning of a message have arrived.
abbrev one_arrived : State
one_arrived = record {
  codec = record { in_msg = false; total_len = 0; proto_len = pos 0; msg_id = 0 };
  buf = record {
    buf = some (its_bytes ++ begun);
    start = 0;
    end = 16;
    max_length = 16;
    default_length = 16;
    ban_auto_resize = false;
  };
  given = [];
}

one_arrived-Unread : Unread (its_bytes ++ begun) one_arrived
unfolding le_bytes get_msg_id
one_arrived-Unread = at_head (record {
  holds = record {
    before = [];
    free = [];
    stored = refl;
    start_at = refl;
    end_at = refl;
    size = refl;
    limit = omega arith;
  };
  outside = refl;
})

commands_arrive_example :
    (s' : State) × (out : List MessageBinary) × (range_msg_binary (λ i. no_objects) one_arrived
      ≡ some (s', none))
    × Unread begun s'
    × (s'.given ≡ [] ++ out)
    × Arrived 0 one_command out
commands_arrive_example =
    commands_arrive no_objects (λ i. no_objects) 0 one_command its_bytes begun one_arrived
      no_objects-IsPooled (λ i. no_objects-IsPooled) (tick-IsSendable, tt) its_bytes-sent_bytes
      (no_head (omega arith)) one_arrived-Unread
