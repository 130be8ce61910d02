-- ===== src/Server/Replied.antt =====
-- A call of an object on another module, from ROCCallBlock to its end, over both wires.
use micserver.Prelude.{
  ℕ, ◌≡◌, ◌≢◌, refl, sym, ap, ◌∙◌, Bool, true, false, Option, none, some, List, [], ◌∷◌, ◌++◌,
  length, if◌then◌else◌,
}
use micserver.Prelude.Int.{ℤ}
use micserver.Dict.{≢_to_ₛ}
use micserver.Wire.Bytes.{Bytes}
use micserver.Wire.Call.{SRocResponse}
use micserver.Wire.Call.RoundTrip.{IsSRocRequest, IsSRocResponse}
use micserver.Server.Calls.{
  hand_on, take_response, read_chan, ResponseAgent, RequestAgent, RocServer, set_at, new_seq,
  add_block_chan, roc_call_block, agent_of, on_msg_roc_response, roc_response_process, read_result,
  request_cmd, request_of, Called, silent, response_cmd, sent, roc_request_process,
}
use micserver.Server.Numbered.{set_at_hit}
use micserver.Server.Remote.{
  ask_lem, answer_lem, Reply, agent_read, crashed, moved_on, processed, read_after, remote_call,
  reply_to, returned, unanswered,
}

-- A call that waits, whose channel is empty and whose response is next, returns with it.
next_returns :
    (s : RocServer) (agent : ResponseAgent) (rest : List ResponseAgent)
    → s.is_over ≡ false
    → s.responses ≡ agent ∷ rest
    → s.waiting agent.seq ≡ true
    → s.block_chans agent.seq ≡ some none
    → read_after agent.seq (roc_response_process s) ≡ returned agent
unfolding roc_response_process take_response hand_on read_result read_chan
next_returns s agent rest runs er w ec =
    let s₁ : RocServer = record s {
      responses = rest;
      is_over = s.is_stop;
      block_chans = set_at agent.seq (some (some agent)) s.block_chans;
    } in
    ap (read_after agent.seq) (
      ap (λ b. if b then none else take_response s.responses s) runs
      ∙ (ap (λ rs. take_response rs s) er ∙ ap (λ c. hand_on c agent rest s) ec))
    ∙ (ap (λ b. agent_read (if b then read_chan (s₁.block_chans agent.seq) agent.seq s₁ else none))
          w
        ∙ ap (λ c. agent_read (read_chan c agent.seq s₁))
            (set_at_hit agent.seq (some (some agent)) s.block_chans))

-- The caller after its call and a response to it.
response_returns :
    (s : RocServer) (m : SRocResponse)
    → s.is_over ≡ false
    → s.responses ≡ []
    → m.req_seq ≡ (roc_call_block s).0
    → read_after
        (roc_call_block s).0
        (roc_response_process (on_msg_roc_response m (roc_call_block s).1))
      ≡ returned (agent_of m)
unfolding on_msg_roc_response agent_of roc_call_block new_seq add_block_chan
response_returns s m runs er e =
    let s₁ = (roc_call_block s).1 in
    let s₂ = on_msg_roc_response m s₁ in
    ap (λ q. read_after q (roc_response_process s₂)) (sym e)
    ∙ next_returns s₂ (agent_of m) [] runs (ap (λ rs. rs ++ (agent_of m ∷ [])) er)
        (ap s₁.waiting e ∙ set_at_hit (roc_call_block s).0 true s.waiting)
        (ap s₁.block_chans e ∙ set_at_hit (roc_call_block s).0 (some none) s.block_chans)

-- How a call ends that has made `err`: it is answered where it failed and its caller is found.
abbrev pub outcome : Bool → Bytes → ℤ → Option Bytes → Option Bytes → Reply
outcome false other seq res err = unanswered
outcome true other seq res none = crashed
outcome true other seq res (some text) =
    returned (record { from_module_id = other; seq = seq; payload = res; err = text })

-- The response to a failed call is one that the encoding can carry.
abbrev pub IsSendable : Bytes → Bytes → ℤ → Option Bytes → Option Bytes → Type 0
IsSendable own other seq res none = Unit
IsSendable own other seq res (some text) = IsSRocResponse (record {
  from_module_id = other;
  to_module_id = own;
  req_seq = seq;
  res_data = res;
  error = text;
})

request_is_processed :
    (own other : Bytes) (connected : Bool) (called : Called) (agent : RequestAgent)
    → agent.need_return ≡ true
    → agent.from_module_id ≡ own
    → own ≢ other
    → roc_request_process other connected called agent
      ≡ (if connected then sent (response_cmd other agent called) else silent)
unfolding roc_request_process
request_is_processed own other true called agent need from ne =
    rw (roc_request_process, need, from, ≢_to_ₛ own other ne) refl
request_is_processed own other false called agent need from ne =
    rw (roc_request_process, need, from, ≢_to_ₛ own other ne) refl

module _ (memory : ℕ → Bytes) (spare : ℕ) (sized : (n : ℕ) → length (memory n) ≡ n) where
  reply_lem :
      (own other callstr : Bytes) (callarg : Option Bytes) (s : RocServer) (connected : Bool)
      (res err : Option Bytes)
      → s.is_over ≡ false
      → s.responses ≡ []
      → IsSendable own other (roc_call_block s).0 res err
      → reply_to memory spare (roc_call_block s).0 (roc_call_block s).1 (
          if connected
          then sent (
              response_cmd other
                (request_of (request_cmd own other (roc_call_block s).0 callstr callarg))
                (record { res = res; err = err }))
          else silent)
        ≡ outcome connected other (roc_call_block s).0 res err
  unfolding response_cmd request_of request_cmd agent_of
  reply_lem own other callstr callarg s false res err runs er h = refl
  reply_lem own other callstr callarg s true res none runs er h = refl
  reply_lem own other callstr callarg s true res (some text) runs er h =
      let m : SRocResponse = record {
        from_module_id = other;
        to_module_id = own;
        req_seq = (roc_call_block s).0;
        res_data = res;
        error = text;
      } in
      ap (moved_on (roc_call_block s).0) (answer_lem memory spare sized m (roc_call_block s).1 h)
      ∙ response_returns s m runs er refl

  -- A call from one module to an object on another, both ways through the encoding (a request, and
  -- where the call fails a response, whose parts have the widths and sizes that it can carry), from a
  -- caller whose thread of responses has not ended and has none queued: where the other module does
  -- not find the caller it sends no answer; else, if the call fails, ROCCallBlock returns with the
  -- data and the text of the error, and if it succeeds, the other module's thread of requests panics.
  pub remote_call_lem :
      (call : RequestAgent → Called) (connected : Bool) (own other callstr : Bytes)
      (callarg : Option Bytes) (s : RocServer)
      → own ≢ other
      → s.is_over ≡ false
      → s.responses ≡ []
      → IsSRocRequest (request_cmd own other (roc_call_block s).0 callstr callarg)
      → IsSendable own other
          (roc_call_block s).0
          (call (request_of (request_cmd own other (roc_call_block s).0 callstr callarg))).res
          (call (request_of (request_cmd own other (roc_call_block s).0 callstr callarg))).err
      → remote_call memory spare call connected own other callstr callarg s
        ≡ outcome connected other
            (roc_call_block s).0
            (call (request_of (request_cmd own other (roc_call_block s).0 callstr callarg))).res
            (call (request_of (request_cmd own other (roc_call_block s).0 callstr callarg))).err
  unfolding request_of request_cmd
  remote_call_lem call connected own other callstr callarg s ne runs er hq hr =
      let seq = (roc_call_block s).0 in
      let req = request_cmd own other seq callstr callarg in
      let agent = request_of req in
      ap (processed memory spare call connected other seq (roc_call_block s).1)
        (ask_lem memory spare sized req hq)
      ∙ (ap (reply_to memory spare seq (roc_call_block s).1)
            (request_is_processed own other connected (call agent) agent refl refl ne)
          ∙ reply_lem own other callstr callarg s connected (call agent).res (call agent).err runs
              er hr)
