-- ===== src/Server/Calls.antt =====
-- server/rocserver.go: calls of remote objects that wait for a result. A call has a channel for one
-- response, which stays in rocBlockChanMap; one thread moves the responses from rocResponseChan to
-- the channels, one answers the requests.
use micserver.Prelude.{
  ◌||◌, ℕ, ◌+◌, ◌≡◌, Bool, true, false, not, Option, none, some, List, [], ◌∷◌, ◌++◌, ◌==◌,
  if◌then◌else◌,
}
use micserver.Prelude.Int.{ℤ, pos, negsuc}
use micserver.Dict.{◌=ₛ◌}
use micserver.Wire.Bytes.{Bytes}
use micserver.Wire.Read.{ReadResult}
use micserver.Wire.Call.{
  SRocRequest, new_s_roc_request, read_s_roc_request, SRocResponse, new_s_roc_response,
  read_s_roc_response,
}

-- responseAgent
pub record ResponseAgent : Type 0 where
  pub from_module_id : Bytes
  pub seq : ℤ
  pub payload : Option Bytes
  pub err : Bytes

-- requestAgent
pub record RequestAgent : Type 0 where
  pub from_module_id : Bytes
  pub callpath : Bytes
  pub callarg : Option Bytes
  pub seq : ℤ
  pub need_return : Bool

-- rocBlockChanMap: a channel holds at most one response. `waiting` are the calls that still read
-- from theirs, `responses` is rocResponseChan, `is_stop` isStop of the server,
-- `is_over` whether the loop of rocResponseProcess has ended.
pub record RocServer : Type 0 where
  pub last_seq : ℕ
  pub block_chans : ℤ → Option (Option ResponseAgent)
  pub waiting : ℤ → Bool
  pub responses : List ResponseAgent
  pub is_stop : Bool
  pub is_over : Bool

infix 50 ◌=ℤ◌
unfoldable pub ◌=ℤ◌ : ℤ → ℤ → Bool
pos a =ℤ pos b = a == b
pos a =ℤ negsuc b = false
negsuc a =ℤ pos b = false
negsuc a =ℤ negsuc b = a == b

abbrev pub set_at : {A : Type 0} → ℤ → A → (ℤ → A) → ℤ → A
set_at k v f j = if k =ℤ j then v else f j

-- newSeq; an int64 does not run out.
unfoldable pub new_seq : RocServer → ℤ × RocServer
new_seq s = (pos (s.last_seq + 1), record s { last_seq = s.last_seq + 1 })

unfoldable pub add_block_chan : ℤ → RocServer → RocServer
add_block_chan seq s = record s { block_chans = set_at seq (some none) s.block_chans }

-- ROCCallBlock up to the wait: the call has a number and a channel, and reads from it.
unfoldable pub roc_call_block : RocServer → ℤ × RocServer
roc_call_block s =
    let (seq, s₁) = new_seq s in
    let s₂ = add_block_chan seq s₁ in (seq, record s₂ { waiting = set_at seq true s₂.waiting })

-- onMsgROCResponse
unfoldable pub agent_of : SRocResponse → ResponseAgent
agent_of msg = record {
  from_module_id = msg.from_module_id;
  seq = msg.req_seq;
  payload = msg.res_data;
  err = msg.error;
}

unfoldable pub on_msg_roc_response : SRocResponse → RocServer → RocServer
on_msg_roc_response msg s = record s { responses = s.responses ++ (agent_of msg ∷ []) }

-- A response is written into the channel of its call: `none` where the channel is full, so that the
-- thread waits. A response without a channel is logged and dropped. The loop goes on unless the server
-- has stopped.
unfoldable pub hand_on :
    Option (Option ResponseAgent)
    → ResponseAgent
    → List ResponseAgent
    → RocServer
    → Option RocServer
hand_on none agent rest s = some (record s { responses = rest; is_over = s.is_stop })
hand_on (some none) agent rest s = some (record s {
  responses = rest;
  is_over = s.is_stop;
  block_chans = set_at agent.seq (some (some agent)) s.block_chans;
})
hand_on (some (some full)) agent rest s = none

-- One round of rocResponseProcess: `none` where the thread waits or has ended.
unfoldable pub take_response : List ResponseAgent → RocServer → Option RocServer
take_response [] s = none
take_response (agent ∷ rest) s = hand_on (s.block_chans agent.seq) agent rest s

unfoldable pub roc_response_process : RocServer → Option RocServer
roc_response_process s = if s.is_over then none else take_response s.responses s

-- Server.Stop
unfoldable pub stop_server : RocServer → RocServer
stop_server s = record s { is_stop = true }

-- The end of ROCCallBlock: the response of the call `seq`, `none` while there is none.
unfoldable pub read_chan :
    Option (Option ResponseAgent) → ℤ → RocServer → Option (ResponseAgent × RocServer)
read_chan none seq s = none
read_chan (some none) seq s = none
read_chan (some (some agent)) seq s = some (
  agent,
  record s {
    block_chans = set_at seq (some none) s.block_chans;
    waiting = set_at seq false s.waiting;
  },
)

unfoldable pub read_result : ℤ → RocServer → Option (ResponseAgent × RocServer)
read_result seq s = if s.waiting seq then read_chan (s.block_chans seq) seq s else none

-- The select statement of rocResponseProcess ends by its timer or by stopChan.
unfoldable pub response_tick : RocServer → RocServer
response_tick s = record s { is_over = s.is_over || s.is_stop }

-- What can happen next in a module. Calls and responses still come to a server that has stopped.
pub data Step : RocServer → RocServer → Type 0 where
  calls : (s : RocServer) → Step s (roc_call_block s).1
  responds : (msg : SRocResponse) (s : RocServer) → Step s (on_msg_roc_response msg s)
  stops : (s : RocServer) → Step s (stop_server s)
  ticks : (s : RocServer) → Step s (response_tick s)
  moves : (s s' : RocServer) → roc_response_process s ≡ some s' → Step s s'
  reads :
      (seq : ℤ) (agent : ResponseAgent) (s s' : RocServer)
      → read_result seq s ≡ some (agent, s')
      → Step s s'

pub data Steps : RocServer → RocServer → Type 0 where
  stays : (s : RocServer) → Steps s s
  goes : (s s' s₂ : RocServer) → Step s s' → Steps s' s₂ → Steps s s₂

abbrev pub new_roc_server : RocServer
new_roc_server = record {
  last_seq = 0;
  block_chans = (λ seq. none);
  waiting = (λ seq. false);
  responses = [];
  is_stop = false;
  is_over = false;
}

-- The message of ROCCallBlock to the module `to`.
unfoldable pub request_cmd : Bytes → Bytes → ℤ → Bytes → Option Bytes → SRocRequest
request_cmd own to seq callstr callarg = record {
  from_module_id = own;
  to_module_id = to;
  seq = seq;
  call_str = callstr;
  call_arg = callarg;
  need_return = true;
}

-- onMsgROCRequest: what goes into rocRequestChan.
unfoldable pub request_of : SRocRequest → RequestAgent
request_of msg = record {
  from_module_id = msg.from_module_id;
  callpath = msg.call_str;
  callarg = msg.call_arg;
  seq = msg.seq;
  need_return = msg.need_return;
}

-- The cases SROCRequestID and SROCResponseID of OnRecvSubnetMsg: the content is read into a new
-- command. A panic of the reader is `none`.
unfoldable pub on_read_roc_request : ReadResult SRocRequest → Option RequestAgent
on_read_roc_request none = none
on_read_roc_request (some (n, none)) = some (request_of new_s_roc_request)
on_read_roc_request (some (n, some layer_msg)) = some (request_of layer_msg)

unfoldable pub on_recv_roc_request : Bytes → ℕ → Option RequestAgent
on_recv_roc_request proto_data spare =
    on_read_roc_request (read_s_roc_request proto_data spare (some new_s_roc_request))

unfoldable pub on_read_roc_response : ReadResult SRocResponse → RocServer → Option RocServer
on_read_roc_response none s = none
on_read_roc_response (some (n, none)) s = some (on_msg_roc_response new_s_roc_response s)
on_read_roc_response (some (n, some layer_msg)) s = some (on_msg_roc_response layer_msg s)

unfoldable pub on_recv_roc_response : Bytes → ℕ → RocServer → Option RocServer
on_recv_roc_response proto_data spare s =
    on_read_roc_response (read_s_roc_response proto_data spare (some new_s_roc_response)) s

-- What ROCManager.Call returns: the data, and the text of the error, `none` for a nil error.
pub record Called : Type 0 where
  pub res : Option Bytes
  pub err : Option Bytes

-- The rest of a round of rocRequestProcess for a call that has been made, which the server's stopping
-- does not change; `connected` whether
-- GetServer finds the module.
pub data Answer : Type 0 where
  panic : Answer
  silent : Answer
  send_cmd : SRocResponse → Answer

-- The message with `err.Error()` in it, which dereferences the error.
unfoldable pub response_cmd : Bytes → RequestAgent → Called → Option SRocResponse
response_cmd own agent called = elim called.err [
  | none ↦ none
  | some text ↦ some (record {
    from_module_id = own;
    to_module_id = agent.from_module_id;
    req_seq = agent.seq;
    res_data = called.res;
    error = text;
  })
]

abbrev pub sent : Option SRocResponse → Answer
sent none = panic
sent (some sendmsg) = send_cmd sendmsg

unfoldable pub roc_request_process : Bytes → Bool → Called → RequestAgent → Answer
roc_request_process own connected called agent =
    if not agent.need_return
    then silent
    else if agent.from_module_id =ₛ own
    then silent
    else if not connected
    then silent
    else sent (response_cmd own agent called)
