-- ===== src/Server/Numbered.antt =====
-- The channels of calls by their numbers, and what each step leaves.
use micserver.Prelude.{
  ℕ, ◌+◌, ◌≡◌, ◌≢◌, ◌<◌, refl, sym, ap, ◌∙◌, true, false, Option, none, some, List, [], ◌∷◌, ==_iff,
  if◌then◌else◌, ◌↔◌, arith, Bool-cases, inl, inr, ◌⊎◌,
}
use micserver.Prelude.Int.{ℤ, pos, negsuc}
use mathlib.Core.Path.{subst}
use micserver.Server.Calls.{
  hand_on, take_response, read_chan, ResponseAgent, RocServer, ◌=ℤ◌, set_at, new_seq,
  add_block_chan, roc_call_block, roc_response_process, read_result, new_roc_server,
}

pub some_inj : {A : Type 0} {x y : A} → some x ≡ some y → x ≡ y
some_inj {x = x} e = ap (λ o. elim o [ none ↦ x | some z ↦ z ]) e

pub =ℤ_iff : (a b : ℤ) → ((a =ℤ b) ≡ true) ↔ (a ≡ b)
unfolding ◌=ℤ◌
=ℤ_iff (pos a) (pos b) =
    ((λ e. ap pos ((==_iff a b).0 e)), (λ e. (==_iff a b).1 (ground (arith, e))))
=ℤ_iff (pos a) (negsuc b) = ((λ e. ground (arith, e)), (λ e. ground (arith, e)))
=ℤ_iff (negsuc a) (pos b) = ((λ e. ground (arith, e)), (λ e. ground (arith, e)))
=ℤ_iff (negsuc a) (negsuc b) =
    ((λ e. ap negsuc ((==_iff a b).0 e)), (λ e. (==_iff a b).1 (ground (arith, e))))

pub set_at_hit : {A : Type 0} (k : ℤ) (v : A) (f : ℤ → A) → set_at k v f k ≡ v
set_at_hit k v f = rw ((=ℤ_iff k k).1 refl) refl

pub set_at_other : {A : Type 0} (k j : ℤ) (v : A) (f : ℤ → A) → k ≢ j → set_at k v f j ≡ f j
set_at_other k j v f n = elim (Bool-cases (k =ℤ j)) [
  | inl y ↦ absurd (n ((=ℤ_iff k j).0 y))
  | inr e ↦ rw (e) refl
]

pub set_at_cases :
    {A : Type 0} (k j : ℤ) (v x : A) (f : ℤ → A)
    → set_at k v f j ≡ x
    → ((k ≡ j) × (v ≡ x)) ⊎ ((k ≢ j) × (f j ≡ x))
set_at_cases k j v x f e = elim (Bool-cases (k =ℤ j)) [
  | inl y ↦ inl ((=ℤ_iff k j).0 y, sym (rw (y) refl) ∙ e)
  | inr n ↦
      let ne : k ≢ j = (λ kj. ground (arith, n, (=ℤ_iff k j).1 kj)) in
      inr (ne, sym (set_at_other k j v f ne) ∙ e)
]

-- Numbers above the last have no channel, a full channel holds a response with its number, and
-- a call that waits has a channel.
pub record IsRocServer (s : RocServer) : Type 0 where
  pub unused : (n : ℕ) → s.last_seq < n → s.block_chans (pos n) ≡ none
  pub own : (q : ℤ) (agent : ResponseAgent) → s.block_chans q ≡ some (some agent) → agent.seq ≡ q
  pub has_chan : (q : ℤ) → s.waiting q ≡ true → s.block_chans q ≢ none

pub new_roc_server-IsRocServer : IsRocServer new_roc_server
new_roc_server-IsRocServer = record {
  unused = (λ n h. refl);
  own = (λ q agent e. ground (arith, e));
  has_chan = (λ q e. ground (arith, e));
}

pub roc_call_block-IsRocServer : (s : RocServer) → IsRocServer s → IsRocServer (roc_call_block s).1
unfolding roc_call_block new_seq add_block_chan
roc_call_block-IsRocServer s h = record {
  unused = (λ n above. ground (arith, =ℤ_iff (pos (s.last_seq + 1)) (pos n), h.unused n));
  own = (λ q agent e. ground (arith, e, h.own q agent));
  has_chan = (λ q e. ground (arith, e, h.has_chan q));
}

-- What a round of the thread has done.
pub data Moved (s : RocServer) : RocServer → Type 0 where
  dropped :
      (agent : ResponseAgent) (rest : List ResponseAgent)
      → s.responses ≡ agent ∷ rest
      → s.block_chans agent.seq ≡ none
      → Moved s (record s { responses = rest; is_over = s.is_stop })
  written :
      (agent : ResponseAgent) (rest : List ResponseAgent)
      → s.responses ≡ agent ∷ rest
      → s.block_chans agent.seq ≡ some none
      → Moved s (record s {
        responses = rest;
        is_over = s.is_stop;
        block_chans = set_at agent.seq (some (some agent)) s.block_chans;
      })

pub hand_on-Moved :
    (c : Option (Option ResponseAgent)) (agent : ResponseAgent) (rest : List ResponseAgent)
    (s s' : RocServer)
    → s.responses ≡ agent ∷ rest
    → s.block_chans agent.seq ≡ c
    → hand_on c agent rest s ≡ some s'
    → Moved s s'
unfolding hand_on
hand_on-Moved none agent rest s s' er ec e = subst (Moved s) (some_inj e) (dropped agent rest er ec)
hand_on-Moved (some none) agent rest s s' er ec e =
    subst (Moved s) (some_inj e) (written agent rest er ec)
hand_on-Moved (some (some full)) agent rest s s' er ec e = ground (arith, e)

pub take_response-Moved :
    (rs : List ResponseAgent) (s s' : RocServer)
    → s.responses ≡ rs
    → take_response rs s ≡ some s'
    → Moved s s'
unfolding take_response
take_response-Moved [] s s' er e = ground (arith, e)
take_response-Moved (agent ∷ rest) s s' er e =
    hand_on-Moved (s.block_chans agent.seq) agent rest s s' er refl e

pub moved : (s s' : RocServer) → roc_response_process s ≡ some s' → Moved s s'
unfolding roc_response_process
moved s s' e = elim (Bool-cases (s.is_over)) [
  | inl y ↦ absurd (ground (arith, e, y))
  | inr n ↦
      let runs : roc_response_process s ≡ take_response s.responses s =
        ap (λ b. if b then none else take_response s.responses s) n in
      take_response-Moved s.responses s s' refl (sym runs ∙ e)
]

pub Moved-IsRocServer : (s s' : RocServer) → Moved s s' → IsRocServer s → IsRocServer s'
Moved-IsRocServer s _ (dropped agent rest er ec) h = record {
  unused = h.unused;
  own = h.own;
  has_chan = h.has_chan;
}
Moved-IsRocServer s _ (written agent rest er ec) h = record {
  unused =
      (λ n above. ground (arith, =ℤ_iff agent.seq (pos n), h.unused n above, ec, ap s.block_chans));
  own = (λ q a e.
      elim (set_at_cases agent.seq q (some (some agent)) (some (some a)) s.block_chans e) [
        | inl (same, full) ↦ ap (λ r. r.seq) (sym (some_inj (some_inj full))) ∙ same
        | inr (other, there) ↦ h.own q a there
      ]);
  has_chan = (λ q e. ground (arith, h.has_chan q e));
}

-- What a call that has returned has done.
pub data WasRead (seq : ℤ) (s : RocServer) : ResponseAgent → RocServer → Type 0 where
  was_read :
      (agent : ResponseAgent)
      → s.waiting seq ≡ true
      → s.block_chans seq ≡ some (some agent)
      → WasRead seq s agent (record s {
        block_chans = set_at seq (some none) s.block_chans;
        waiting = set_at seq false s.waiting;
      })

pub read_chan-WasRead :
    (c : Option (Option ResponseAgent)) (seq : ℤ) (agent : ResponseAgent) (s s' : RocServer)
    → s.waiting seq ≡ true
    → s.block_chans seq ≡ c
    → read_chan c seq s ≡ some (agent, s')
    → WasRead seq s agent s'
unfolding read_chan
read_chan-WasRead none seq agent s s' w ec e = ground (arith, e)
read_chan-WasRead (some none) seq agent s s' w ec e = ground (arith, e)
read_chan-WasRead (some (some a)) seq agent s s' w ec e =
    subst (λ p. WasRead seq s p.0 p.1) (some_inj e) (was_read a w ec)

pub read_result-WasRead :
    (seq : ℤ) (agent : ResponseAgent) (s s' : RocServer)
    → read_result seq s ≡ some (agent, s')
    → WasRead seq s agent s'
unfolding read_result
read_result-WasRead seq agent s s' e = elim (Bool-cases (s.waiting seq)) [
  | inl w ↦
      read_chan-WasRead (s.block_chans seq) seq agent s s' w refl
        (sym (rw (read_result, w) refl) ∙ e)
  | inr n ↦
      let no : read_result seq s ≡ none = rw (read_result, n) refl in absurd (ground (arith, no, e))
]

pub WasRead-IsRocServer :
    (seq : ℤ) (agent : ResponseAgent) (s s' : RocServer)
    → WasRead seq s agent s'
    → IsRocServer s
    → IsRocServer s'
WasRead-IsRocServer seq _ s _ (was_read agent w ec) h = record {
  unused = (λ n above. ground (arith, =ℤ_iff seq (pos n), h.unused n above, ec, ap s.block_chans));
  own = (λ q a e. elim (set_at_cases seq q (some none) (some (some a)) s.block_chans e) [
    | inl (same, full) ↦ ground (arith, full)
    | inr (other, there) ↦ h.own q a there
  ]);
  has_chan = (λ q e. ground (arith, e, h.has_chan q));
}
