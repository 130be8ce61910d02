-- ===== src/Server/Handed.antt =====
-- The thread that hands responses on gets through a queue of responses to different calls.
use micserver.Prelude.{
  ℕ, zero, suc, ◌≡◌, ◌≢◌, refl, sym, ap, ◌∙◌, true, false, Option, none, some, List, [], ◌∷◌, ◌⊎◌,
  inl, inr, length, All, if◌then◌else◌,
}
use micserver.Prelude.Int.{ℤ}
use micserver.Server.Calls.{
  hand_on, take_response, read_chan, ResponseAgent, RocServer, set_at, roc_response_process,
  read_result,
}
use micserver.Server.Numbered.{set_at_hit, set_at_other}

-- Rounds of the thread; `none` where one of them has to wait.
abbrev pub process_each : ℕ → RocServer → Option RocServer
process_each zero s = some s
process_each (suc n) s = elim (roc_response_process s) [ none ↦ none | some s₁ ↦ process_each n s₁ ]

abbrev pub NoneFor : ℤ → List ResponseAgent → Type 0
NoneFor seq agents = All (λ b. b.seq ≢ seq) agents

-- Responses to different calls.
abbrev pub Distinct : List ResponseAgent → Type 0
Distinct [] = Unit
Distinct (a ∷ agents) = NoneFor a.seq agents × Distinct agents

-- Nobody has asked for the response, or a call waits for it with an empty channel.
abbrev pub Expects : RocServer → ResponseAgent → Type 0
Expects s a =
    (s.block_chans a.seq ≡ none) ⊎ ((s.block_chans a.seq ≡ some none) × (s.waiting a.seq ≡ true))

-- Nobody has asked for the response, or its call now returns with it.
abbrev pub Returns : RocServer → RocServer → ResponseAgent → Type 0
Returns s after a =
    (s.block_chans a.seq ≡ none) ⊎ ((s' : RocServer) × (read_result a.seq after ≡ some (a, s')))

-- What rounds leave of other calls.
record IsHanded (s : RocServer) (agents : List ResponseAgent) (r : Option RocServer) : Type 0 where
  after : RocServer
  is : r ≡ some after
  left : after.responses ≡ []
  waits : (q : ℤ) → after.waiting q ≡ s.waiting q
  others : (q : ℤ) → NoneFor q agents → after.block_chans q ≡ s.block_chans q
  each : All (Returns s after) agents

-- One round: the response is off the queue, no call waits less, and other channels are as they were.
record IsRound (s : RocServer) (a : ResponseAgent) (agents : List ResponseAgent) : Type 0 where
  after : RocServer
  is : roc_response_process s ≡ some after
  left : after.responses ≡ agents
  runs : (after.is_stop ≡ false) × (after.is_over ≡ false)
  waits : (q : ℤ) → after.waiting q ≡ s.waiting q
  others : (q : ℤ) → a.seq ≢ q → after.block_chans q ≡ s.block_chans q
  put :
      (s.block_chans a.seq ≡ none)
      ⊎ ((after.block_chans a.seq ≡ some (some a)) × (s.waiting a.seq ≡ true))

round :
    (s : RocServer) (a : ResponseAgent) (agents : List ResponseAgent)
    → (s.is_stop ≡ false) × (s.is_over ≡ false)
    → s.responses ≡ a ∷ agents
    → Expects s a
    → IsRound s a agents
unfolding roc_response_process take_response hand_on
round s a agents runs er (inl gone) = record {
  after = record s { responses = agents; is_over = s.is_stop };
  is =
      ap (λ b. if b then none else take_response s.responses s) runs.1
      ∙ (ap (λ rs. take_response rs s) er ∙ ap (λ c. hand_on c a agents s) gone);
  left = refl;
  runs = (runs.0, runs.0);
  waits = (λ q. refl);
  others = (λ q n. refl);
  put = inl gone;
}
round s a agents runs er (inr (empty, w)) = record {
  after = record s {
    responses = agents;
    is_over = s.is_stop;
    block_chans = set_at a.seq (some (some a)) s.block_chans;
  };
  is =
      ap (λ b. if b then none else take_response s.responses s) runs.1
      ∙ (ap (λ rs. take_response rs s) er ∙ ap (λ c. hand_on c a agents s) empty);
  left = refl;
  runs = (runs.0, runs.0);
  waits = (λ q. refl);
  others = (λ q n. set_at_other a.seq q (some (some a)) s.block_chans n);
  put = inr (set_at_hit a.seq (some (some a)) s.block_chans, w);
}

reads_own :
    (s : RocServer) (a : ResponseAgent)
    → s.block_chans a.seq ≡ some (some a)
    → s.waiting a.seq ≡ true
    → (s' : RocServer) × (read_result a.seq s ≡ some (a, s'))
unfolding read_result read_chan
reads_own s a full w = (
  record s {
    block_chans = set_at a.seq (some none) s.block_chans;
    waiting = set_at a.seq false s.waiting;
  },
  ap (λ b. if b then read_chan (s.block_chans a.seq) a.seq s else none) w
      ∙ ap (λ c. read_chan c a.seq s) full,
)

-- Where a channel and whether its call waits did not change.
Expects-same :
    (s s' : RocServer) (b : ResponseAgent)
    → s'.block_chans b.seq ≡ s.block_chans b.seq
    → s'.waiting b.seq ≡ s.waiting b.seq
    → Expects s b
    → Expects s' b
Expects-same s s' b ec ew (inl gone) = inl (ec ∙ gone)
Expects-same s s' b ec ew (inr (empty, w)) = inr (ec ∙ empty, ew ∙ w)

Expects-each :
    (s : RocServer) (a : ResponseAgent) (agents : List ResponseAgent) (one : IsRound s a agents)
    (bs : List ResponseAgent)
    → NoneFor a.seq bs
    → All (Expects s) bs
    → All (Expects one.after) bs
Expects-each s a agents one [] n h = tt
Expects-each s a agents one (b ∷ bs) (ne, n) (h, hs) = (
  Expects-same s one.after b (one.others b.seq (λ e. ne (sym e))) (one.waits b.seq) h,
  Expects-each s a agents one bs n hs,
)

Returns-same :
    (s s₁ after : RocServer) (b : ResponseAgent)
    → s₁.block_chans b.seq ≡ s.block_chans b.seq
    → Returns s₁ after b
    → Returns s after b
Returns-same s s₁ after b ec (inl gone) = inl (sym ec ∙ gone)
Returns-same s s₁ after b ec (inr r) = inr r

Returns-each :
    (s : RocServer) (a : ResponseAgent) (agents : List ResponseAgent) (one : IsRound s a agents)
    (after : RocServer) (bs : List ResponseAgent)
    → NoneFor a.seq bs
    → All (Returns one.after after) bs
    → All (Returns s after) bs
Returns-each s a agents one after [] n h = tt
Returns-each s a agents one after (b ∷ bs) (ne, n) (h, hs) = (
  Returns-same s one.after after b (one.others b.seq (λ e. ne (sym e))) h,
  Returns-each s a agents one after bs n hs,
)

IsHanded-each :
    (s : RocServer) (agents : List ResponseAgent)
    → (s.is_stop ≡ false) × (s.is_over ≡ false)
    → s.responses ≡ agents
    → Distinct agents
    → All (Expects s) agents
    → IsHanded s agents (process_each (length agents) s)
IsHanded-each s [] runs er d h = record {
  after = s;
  is = refl;
  left = er;
  waits = (λ q. refl);
  others = (λ q n. refl);
  each = tt;
}
IsHanded-each s (a ∷ agents) runs er (n, d) (h, hs) =
    let one = round s a agents runs er h in
    let rest =
      IsHanded-each one.after agents one.runs one.left d
        (Expects-each s a agents one agents n hs) in
    record {
      after = rest.after;
      is =
          ap (λ r. elim r [ none ↦ none | some s₁ ↦ process_each (length agents) s₁ ]) one.is
          ∙ rest.is;
      left = rest.left;
      waits = (λ q. rest.waits q ∙ one.waits q);
      others = (λ q (ne, ns). rest.others q ns ∙ one.others q ne);
      each = (
        elim (one.put) [
          | inl gone ↦ inl gone
          | inr (full, w) ↦ inr (
              reads_own rest.after a (rest.others a.seq n ∙ full)
                (rest.waits a.seq ∙ (one.waits a.seq ∙ w)))
        ],
        Returns-each s a agents one rest.after agents n rest.each,
      );
    }

-- The thread of responses of a server that has not stopped, where the queued responses are to different calls, and each is either to
-- a call that nobody has made or to one that waits with an empty channel: it hands all of them on
-- without ever having to wait, and each call that waits for one of them then returns with it.
pub handed_on :
    (s : RocServer)
    → s.is_stop ≡ false
    → s.is_over ≡ false
    → Distinct s.responses
    → All (Expects s) s.responses
    → (after : RocServer) × (process_each (length s.responses) s ≡ some after)
      × (after.responses ≡ [])
      × All (Returns s after) s.responses
handed_on s runs loops d h =
    let r = IsHanded-each s s.responses (runs, loops) refl d h in (r.after, r.is, r.left, r.each)
