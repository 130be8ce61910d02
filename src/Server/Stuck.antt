-- ===== src/Server/Stuck.antt =====
-- A response too many stops the thread that hands responses on.
use micserver.Prelude.{
  Bool, Option, refl, if◌then◌else◌, ◌+◌, ◌≡◌, ◌≢◌, sym, ap, ◌∙◌, true, false, none, some, List, [],
  ◌∷◌, ◌++◌, arith,
}
use micserver.Prelude.Int.{ℤ, pos}
use micserver.Server.Calls.{
  ticks, response_tick, hand_on, take_response, ResponseAgent, RocServer, new_seq, add_block_chan,
  roc_call_block, agent_of, on_msg_roc_response, roc_response_process, Step, calls, responds, stops,
  stop_server, moves, reads, Steps, stays, goes,
}
use micserver.Server.Numbered.{
  IsRocServer, set_at_other, Moved, dropped, written, moved, WasRead, was_read, read_result-WasRead,
}
use micserver.Server.Answers.{Step-IsRocServer}

-- The next response is to a call whose channel is full and which has returned.
pub record IsStuck (agent : ResponseAgent) (s : RocServer) : Type 0 where
  pub rest : List ResponseAgent
  pub next : s.responses ≡ agent ∷ rest
  pub other : ResponseAgent
  pub full : s.block_chans agent.seq ≡ some (some other)
  pub returned : s.waiting agent.seq ≡ false

called-IsStuck :
    (agent : ResponseAgent) (s : RocServer)
    → IsRocServer s
    → IsStuck agent s
    → IsStuck agent (roc_call_block s).1
unfolding roc_call_block new_seq add_block_chan
called-IsStuck agent s h st =
    let seq : ℤ = pos (s.last_seq + 1) in
    let ne : seq ≢ agent.seq =
      (λ e. ground (arith, h.unused (s.last_seq + 1), ap s.block_chans e, st.full)) in
    record {
      rest = st.rest;
      next = st.next;
      other = st.other;
      full = set_at_other seq agent.seq (some none) s.block_chans ne ∙ st.full;
      returned = set_at_other seq agent.seq true s.waiting ne ∙ st.returned;
    }

same_head : (a b : ResponseAgent) (as' bs : List ResponseAgent) → a ∷ as' ≡ b ∷ bs → a ≡ b
same_head a b as' bs e = ap (λ l. elim l [ [] ↦ a | x ∷ xs ↦ x ]) e

Moved-IsStuck : (agent : ResponseAgent) (s s' : RocServer) → IsStuck agent s → Moved s s' → ⊥
Moved-IsStuck agent s _ st (dropped a rest er ec) = ground (
  arith,
  ec,
  st.full,
  ap (λ r. s.block_chans r.seq) (same_head a agent rest st.rest (sym er ∙ st.next)),
)
Moved-IsStuck agent s _ st (written a rest er ec) = ground (
  arith,
  ec,
  st.full,
  ap (λ r. s.block_chans r.seq) (same_head a agent rest st.rest (sym er ∙ st.next)),
)

read-IsStuck :
    (agent a : ResponseAgent) (seq : ℤ) (s s' : RocServer)
    → IsStuck agent s
    → WasRead seq s a s'
    → IsStuck agent s'
read-IsStuck agent _ seq s _ st (was_read a w ec) =
    let ne : seq ≢ agent.seq = (λ e. ground (arith, w, ap s.waiting e, st.returned)) in
    record {
      rest = st.rest;
      next = st.next;
      other = st.other;
      full = set_at_other seq agent.seq (some none) s.block_chans ne ∙ st.full;
      returned = set_at_other seq agent.seq false s.waiting ne ∙ st.returned;
    }

Step-IsStuck :
    (agent : ResponseAgent) (s s' : RocServer)
    → Step s s'
    → IsRocServer s
    → IsStuck agent s
    → IsStuck agent s'
unfolding on_msg_roc_response stop_server response_tick
Step-IsStuck agent s _ (calls _) h st = called-IsStuck agent s h st
Step-IsStuck agent s _ (responds msg _) h st = record {
  rest = st.rest ++ (agent_of msg ∷ []);
  next = ap (λ rs. rs ++ (agent_of msg ∷ [])) st.next;
  other = st.other;
  full = st.full;
  returned = st.returned;
}
Step-IsStuck agent s _ (stops _) h st = record {
  rest = st.rest;
  next = st.next;
  other = st.other;
  full = st.full;
  returned = st.returned;
}
Step-IsStuck agent s _ (ticks _) h st = record {
  rest = st.rest;
  next = st.next;
  other = st.other;
  full = st.full;
  returned = st.returned;
}
Step-IsStuck agent s s' (moves _ _ e) h st = absurd (Moved-IsStuck agent s s' st (moved s s' e))
Step-IsStuck agent s s' (reads seq a _ _ e) h st =
    read-IsStuck agent a seq s s' st (read_result-WasRead seq a s s' e)

none_anyway : (b : Bool) {x : Option RocServer} → x ≡ none → (if b then none else x) ≡ none
none_anyway true e = refl
none_anyway false e = e

-- Once the next response is to a call that has returned and whose channel is full again, the thread
-- hands no response on any more, whatever calls, responses and returns follow.
pub stuck_lem :
    (agent : ResponseAgent) (s s' : RocServer)
    → IsRocServer s
    → IsStuck agent s
    → Steps s s'
    → roc_response_process s' ≡ none
unfolding roc_response_process take_response hand_on
stuck_lem agent s _ h st (stays _) =
    none_anyway s.is_over
      (ap (λ rs. take_response rs s) st.next ∙ ap (λ c. hand_on c agent st.rest s) st.full)
stuck_lem agent s s₂ h st (goes _ s' _ one more') =
    stuck_lem agent s' s₂ (Step-IsRocServer s s' one h) (Step-IsStuck agent s s' one h st) more'
