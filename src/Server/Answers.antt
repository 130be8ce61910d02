-- ===== src/Server/Answers.antt =====
-- A call returns with a response to its own number.
use micserver.Prelude.{◌≡◌, some}
use micserver.Prelude.Int.{ℤ}
use micserver.Server.Calls.{
  ticks, response_tick, ResponseAgent, RocServer, on_msg_roc_response, read_result, Step, calls,
  responds, stops, stop_server, moves, reads, Steps, stays, goes, new_roc_server,
}
use micserver.Server.Numbered.{
  IsRocServer, new_roc_server-IsRocServer, roc_call_block-IsRocServer, moved, Moved-IsRocServer,
  WasRead, read_result-WasRead, WasRead-IsRocServer, was_read,
}

pub Step-IsRocServer : (s s' : RocServer) → Step s s' → IsRocServer s → IsRocServer s'
unfolding on_msg_roc_response stop_server response_tick
Step-IsRocServer s _ (calls _) h = roc_call_block-IsRocServer s h
Step-IsRocServer s _ (responds msg _) h = record {
  unused = h.unused;
  own = h.own;
  has_chan = h.has_chan;
}
Step-IsRocServer s _ (stops _) h = record { unused = h.unused; own = h.own; has_chan = h.has_chan }
Step-IsRocServer s _ (ticks _) h = record { unused = h.unused; own = h.own; has_chan = h.has_chan }
Step-IsRocServer s s' (moves _ _ e) h = Moved-IsRocServer s s' (moved s s' e) h
Step-IsRocServer s s' (reads seq agent _ _ e) h =
    WasRead-IsRocServer seq agent s s' (read_result-WasRead seq agent s s' e) h

pub Steps-IsRocServer : (s s' : RocServer) → Steps s s' → IsRocServer s → IsRocServer s'
Steps-IsRocServer s _ (stays _) h = h
Steps-IsRocServer s s₂ (goes _ s' _ one more') h =
    Steps-IsRocServer s' s₂ more' (Step-IsRocServer s s' one h)

WasRead-seq :
    (seq : ℤ) (agent : ResponseAgent) (s s' : RocServer)
    → WasRead seq s agent s'
    → IsRocServer s
    → agent.seq ≡ seq
WasRead-seq seq _ s _ (was_read agent w ec) h = h.own seq agent ec

-- Whatever calls, responses, steps of the threads and calls of Stop come before, a call that returns
-- returns with a response to its own number.
pub read_result-seq :
    (s s' : RocServer) (seq : ℤ) (agent : ResponseAgent)
    → Steps new_roc_server s
    → read_result seq s ≡ some (agent, s')
    → agent.seq ≡ seq
read_result-seq s s' seq agent steps e =
    WasRead-seq seq agent s s' (read_result-WasRead seq agent s s' e)
      (Steps-IsRocServer new_roc_server s steps new_roc_server-IsRocServer)
