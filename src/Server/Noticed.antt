-- ===== src/Server/Noticed.antt =====
-- Every object that comes in is sent on, once and in its order, as long as the server runs.
use micserver.Prelude.{
  ◌≡◌, refl, sym, ap, ◌∙◌, Bool, true, some, List, [], ◌∷◌, ◌++◌, All, arith, append_assoc,
  append-nil,
}
use micserver.Wire.Bytes.{Bytes}
use micserver.Server.Joined.{heard, heard-append, All-append}
use micserver.Server.Notice.{
  Event, arrive, tick, stop_chan, stop, Notice, take_left, end_wait, take_obj, on_event, on_events,
}
use micserver.Server.Waiting.{IsNotice, IsStep, Runs, Waits, Waits-IsStep, arrived, of_event, pairs}

of_event-arrived : (e : Event) (es : List Event) → of_event e ++ arrived es ≡ arrived (e ∷ es)
of_event-arrived (arrive o) es = refl
of_event-arrived tick es = refl
of_event-arrived stop_chan es = refl
of_event-arrived stop es = refl

regroup :
    {A : Type 0} (sent more' rest list before came later : List A)
    → sent ++ list ≡ before ++ came
    → more' ++ rest ≡ list ++ later
    → (sent ++ more') ++ rest ≡ before ++ (came ++ later)
regroup sent more' rest list before came later e₁ e₂ =
    append_assoc sent more' rest
    ∙ (ap (◌++◌ sent) e₂
        ∙ (sym (append_assoc sent list later)
            ∙ (ap (λ q. q ++ later) e₁ ∙ append_assoc before came later)))

on_events-IsStep :
    (own : Bytes) (d : Bool) (es : List Event) (n : Notice)
    → Runs es
    → Waits n
    → IsStep own d (pairs n.tmp_list) (arrived es) (on_events own d es n)
unfolding on_events
on_events-IsStep own d [] n r h = record {
  waits = h;
  kept = sym (append-nil (pairs n.tmp_list));
  each = tt;
}
on_events-IsStep own d (e ∷ es) n (r, rs) h =
    let r₁ = on_event own d e n in
    let s₁ = Waits-IsStep own d e n r h in
    let r₂ = on_events own d es r₁.1 in
    let s₂ = on_events-IsStep own d es r₁.1 rs s₁.waits in
    record {
      waits = s₂.waits;
      kept = rw (heard-append r₁.0 r₂.0) (
          regroup (heard r₁.0) (heard r₂.0) (pairs r₂.1.tmp_list) (pairs r₁.1.tmp_list)
            (pairs n.tmp_list) (of_event e) (arrived es) s₁.kept s₂.kept
          ∙ ap (◌++◌ (pairs n.tmp_list)) (of_event-arrived e es));
      each = All-append (IsNotice own d) r₁.0 r₂.0 s₁.each s₂.each;
    }

-- The list is empty after the timer.
tick_lem : (own : Bytes) (d : Bool) (n : Notice) → Waits n → (on_event own d tick n).1.tmp_list ≡ []
unfolding on_event end_wait take_left
tick_lem own d n h = rw (h.loops, h.runs, h.none_left) refl

on_events-append :
    (own : Bytes) (d : Bool) (es : List Event) (n : Notice)
    → Runs es
    → Waits n
    → (on_events own d (es ++ (tick ∷ [])) n).1.tmp_list ≡ []
unfolding on_events
on_events-append own d [] n r h = tick_lem own d n h
on_events-append own d (e ∷ es) n (r, rs) h =
    on_events-append own d es (on_event own d e n).1 rs (Waits-IsStep own d e n r h).waits

arrived-append : (es : List Event) → arrived (es ++ (tick ∷ [])) ≡ arrived es
arrived-append [] = refl
arrived-append (arrive o ∷ es) = ap (◌∷◌ (o.obj_type, o.obj_id)) (arrived-append es)
arrived-append (tick ∷ es) = arrived-append es
arrived-append (stop_chan ∷ es) = arrived-append es
arrived-append (stop ∷ es) = arrived-append es

Runs-append : (es : List Event) → Runs es → Runs (es ++ (tick ∷ []))
Runs-append [] rs = ((λ e. ground (arith, e)), tt)
Runs-append (e ∷ es) (r, rs) = (r, Runs-append es rs)

end_wait-stopped :
    (own : Bytes) (d : Bool) (n : Notice)
    → n.is_stop ≡ true
    → ((end_wait own d n).0 ≡ []) × ((end_wait own d n).1.is_stop ≡ true)
unfolding end_wait
end_wait-stopped own d n h = rw (end_wait, h) (refl, refl)

on_event-stopped :
    (own : Bytes) (d : Bool) (e : Event) (n : Notice)
    → n.is_stop ≡ true
    → ((on_event own d e n).0 ≡ []) × ((on_event own d e n).1.is_stop ≡ true)
unfolding on_event take_obj
on_event-stopped own d tick n h = ground (arith, end_wait-stopped own d n h, h)
on_event-stopped own d stop_chan n h = ground (arith, end_wait-stopped own d n h, h)
on_event-stopped own d stop n h = (refl, refl)
on_event-stopped own d (arrive o) n h =
    let full : Notice = record n { tmp_list = n.tmp_list ++ (o ∷ []) } in
    let left : Notice = record n { left_obj = some o } in
    ground (arith, end_wait-stopped own d full h, end_wait-stopped own d left h, h)

on_events-stopped :
    (own : Bytes) (d : Bool) (es : List Event) (n : Notice)
    → n.is_stop ≡ true
    → (on_events own d es n).0 ≡ []
unfolding on_events
on_events-stopped own d [] n h = refl
on_events-stopped own d (e ∷ es) n h =
    let (none_sent, stopped) = on_event-stopped own d e n h in
    rw (none_sent) (on_events-stopped own d es (on_event own d e n).1 stopped)

-- What comes after Stop adds no message.
on_events-stop :
    (own : Bytes) (d : Bool) (es later : List Event) (n : Notice)
    → (on_events own d (es ++ (stop ∷ later)) n).0 ≡ (on_events own d es n).0
unfolding on_events on_event
on_events-stop own d [] later n = on_events-stopped own d later (record n { is_stop = true }) refl
on_events-stop own d (e ∷ es) later n =
    ap (◌++◌ (on_event own d e n).0) (on_events-stop own d es later (on_event own d e n).1)

-- rocObjNoticeProcess, wherever it waits with fewer than 100 objects of one type while the server
-- runs: whatever comes in and whenever the timer fires before Stop is called, once the timer fires
-- again the messages sent bind (or unbind) exactly the objects that waited and those that came in, in
-- their order, each message to this module and with 1 to 100 ids; and from a call of Stop on nothing
-- more is sent, so that what then waits never is.
pub on_events_lem :
    (own : Bytes) (d : Bool) (es later : List Event) (n : Notice)
    → Runs es
    → Waits n
    → (heard (on_events own d (es ++ (tick ∷ [])) n).0 ≡ pairs n.tmp_list ++ arrived es)
      × All (IsNotice own d) (on_events own d (es ++ (tick ∷ [])) n).0
      × ((on_events own d (es ++ (stop ∷ later)) n).0 ≡ (on_events own d es n).0)
on_events_lem own d es later n rs h =
    let all = es ++ (tick ∷ []) in
    let s = on_events-IsStep own d all n (Runs-append es rs) h in
    (
      sym (append-nil (heard (on_events own d all n).0))
          ∙ (sym (
                ap (λ q. heard (on_events own d all n).0 ++ pairs q)
                  (on_events-append own d es n rs h))
              ∙ (s.kept ∙ ap (◌++◌ (pairs n.tmp_list)) (arrived-append es))),
      s.each,
      on_events-stop own d es later n,
    )
