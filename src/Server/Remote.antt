-- ===== src/Server/Remote.antt =====
-- The parts of a call of an object on another module put together, and what crosses the wires.
use micserver.Prelude.{ℕ, ◌≡◌, refl, ap, ◌∙◌, Bool, Option, none, some, length}
use micserver.Prelude.Int.{ℤ}
use micserver.Wire.Bytes.{Bytes}
use micserver.Wire.Read.{ReadResult}
use micserver.Wire.Run.{run_writer}
use micserver.Wire.Call.{
  SRocRequest, new_s_roc_request, size_s_roc_request, write_s_roc_request, read_s_roc_request,
  SRocResponse, new_s_roc_response, size_s_roc_response, write_s_roc_response, read_s_roc_response,
}
use micserver.Wire.Call.RoundTrip.{IsSRocRequest, IsSRocResponse}
use micserver.Wire.Commands.{Command, into, get_size, write_binary, read_binary, blank}
use micserver.Wire.Commands.RoundTrip.{command-Survives}
use micserver.Server.Calls.{
  ResponseAgent, RequestAgent, RocServer, roc_call_block, on_msg_roc_response, roc_response_process,
  read_result, request_cmd, request_of, on_read_roc_request, on_recv_roc_request,
  on_read_roc_response, on_recv_roc_response, Called, Answer, panic, silent, send_cmd,
  roc_request_process,
}

-- How a call ends: a thread panics, there is no answer, or ROCCallBlock returns.
pub data Reply : Type 0 where
  crashed : Reply
  unanswered : Reply
  returned : ResponseAgent → Reply

-- The agent of the request on the other side, and the caller with the response in its queue.
abbrev pub asked : Option (Bytes × ℕ) → ℕ → Option RequestAgent
asked none spare = none
asked (some (proto_data, n)) spare = on_recv_roc_request proto_data spare

abbrev pub answered : Option (Bytes × ℕ) → ℕ → RocServer → Option RocServer
answered none spare s = none
answered (some (proto_data, n)) spare s = on_recv_roc_response proto_data spare s

abbrev pub agent_read : Option (ResponseAgent × RocServer) → Reply
agent_read none = unanswered
agent_read (some (agent, s)) = returned agent

abbrev pub read_after : ℤ → Option RocServer → Reply
read_after seq none = unanswered
read_after seq (some s) = agent_read (read_result seq s)

abbrev pub moved_on : ℤ → Option RocServer → Reply
moved_on seq none = crashed
moved_on seq (some s) = read_after seq (roc_response_process s)

-- Buffers of the size that GetSize gives, whose old content is `memory`.
module _ (memory : ℕ → Bytes) (spare : ℕ) where
  abbrev pub ask : SRocRequest → Option RequestAgent
  ask m =
      asked (run_writer (write_s_roc_request (some m)) (memory (size_s_roc_request (some m)))) spare

  abbrev pub answer : SRocResponse → RocServer → Option RocServer
  answer m s =
      answered (run_writer (write_s_roc_response (some m)) (memory (size_s_roc_response (some m))))
        spare s

  abbrev pub reply_to : ℤ → RocServer → Answer → Reply
  reply_to seq s panic = crashed
  reply_to seq s silent = unanswered
  reply_to seq s (send_cmd m) = moved_on seq (answer m s)

  -- ROCManager.Call of the other module is `call`, `connected` whether it finds the caller.
  module _ (call : RequestAgent → Called) (connected : Bool) where
    abbrev pub processed : Bytes → ℤ → RocServer → Option RequestAgent → Reply
    processed other seq s none = crashed
    processed other seq s (some agent) =
        reply_to seq s (roc_request_process other connected (call agent) agent)

    -- A call, from the module `own` to `other`.
    abbrev pub remote_call : Bytes → Bytes → Bytes → Option Bytes → RocServer → Reply
    remote_call own other callstr callarg s =
        let (seq, s₁) = roc_call_block s in
        processed other seq s₁ (ask (request_cmd own other seq callstr callarg))

abbrev pub asked_by : Option (ℕ × Command) → Option RequestAgent
asked_by (some (n, Command.s_roc_request m)) = some (request_of m)
asked_by _ = none

abbrev pub answered_by : RocServer → Option (ℕ × Command) → Option RocServer
answered_by s (some (n, Command.s_roc_response m)) = some (on_msg_roc_response m s)
answered_by s _ = none

pub request_into :
    (r : ReadResult SRocRequest)
    → on_read_roc_request r ≡ asked_by (into Command.s_roc_request new_s_roc_request r)
unfolding on_read_roc_request
request_into none = refl
request_into (some (n, none)) = refl
request_into (some (n, some m)) = refl

pub response_into :
    (s : RocServer) (r : ReadResult SRocResponse)
    → on_read_roc_response r s ≡ answered_by s (into Command.s_roc_response new_s_roc_response r)
unfolding on_read_roc_response
response_into s none = refl
response_into s (some (n, none)) = refl
response_into s (some (n, some m)) = refl

module _ (memory : ℕ → Bytes) (spare : ℕ) (sized : (n : ℕ) → length (memory n) ≡ n) where
  pub ask_lem : (m : SRocRequest) → IsSRocRequest m → ask memory spare m ≡ some (request_of m)
  unfolding on_recv_roc_request write_binary read_binary blank get_size
  ask_lem m h =
      let size = size_s_roc_request (some m) in
      let (bs, n, written, read, l) =
        command-Survives (Command.s_roc_request m) (memory size) spare h (sized size) in
      ap (λ r. asked r spare) written
      ∙ (request_into (read_s_roc_request bs spare (some new_s_roc_request)) ∙ ap asked_by read)

  pub answer_lem :
      (m : SRocResponse) (s : RocServer)
      → IsSRocResponse m
      → answer memory spare m s ≡ some (on_msg_roc_response m s)
  unfolding on_recv_roc_response write_binary read_binary blank get_size
  answer_lem m s h =
      let size = size_s_roc_response (some m) in
      let (bs, n, written, read, l) =
        command-Survives (Command.s_roc_response m) (memory size) spare h (sized size) in
      ap (λ r. answered r spare s) written
      ∙ (response_into s (read_s_roc_response bs spare (some new_s_roc_response))
          ∙ ap (answered_by s) read)
