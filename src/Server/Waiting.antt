-- ===== src/Server/Waiting.antt =====
-- What one event leaves of the objects that the notice thread has collected.
use micserver.Prelude.{
  ◌<◌, ◌≤◌, ◌≡◌, ◌≢◌, refl, sym, ap, ◌∙◌, Bool, true, false, Option, none, some, List, [], ◌∷◌,
  ◌++◌, length, length-append, ltb, All, arith, Bool-cases, inl, inr, append-nil, ltb→lt,
}
use mathlib.Core.Path.{subst}
use micserver.Dict.{=ₛ_iff}
use micserver.Wire.Bytes.{Bytes}
use micserver.Wire.Write.{elements}
use micserver.Wire.Bind.{SRocBind}
use micserver.Server.Joined.{heard, typed}
use micserver.Server.Notice.{
  Obj, Event, arrive, tick, stop_chan, stop, Notice, ids_in, send_list, take_left, end_wait,
  same_type, take_obj, on_event,
}

abbrev pub OfType : Bytes → List Obj → Type 0
OfType t os = All (λ p. p.obj_type ≡ t) os

-- Objects of one type.
abbrev pub Uniform : List Obj → Type 0
Uniform [] = Unit
Uniform (o ∷ os) = OfType o.obj_type os

-- How the thread of a server that runs waits: with fewer than 100 objects of one type, and none left
-- over.
pub record Waits (n : Notice) : Type 0 where
  pub room : length n.tmp_list < 100
  pub uniform : Uniform n.tmp_list
  pub none_left : n.left_obj ≡ none
  pub runs : n.is_stop ≡ false
  pub loops : n.is_over ≡ false

-- A message of the thread: of at least one object, and at most 100.
pub record IsNotice (own : Bytes) (is_delete : Bool) (m : SRocBind) : Type 0 where
  pub host : m.host_module_id ≡ own
  pub deletes : m.is_delete ≡ is_delete
  pub some_ids : 0 < length (elements m.obj_ids)
  pub few_ids : length (elements m.obj_ids) ≤ 100

abbrev pub pairs : List Obj → List (Bytes × Bytes)
pairs [] = []
pairs (o ∷ os) = (o.obj_type, o.obj_id) ∷ pairs os

abbrev pub arrived : List Event → List (Bytes × Bytes)
arrived [] = []
arrived (arrive o ∷ es) = (o.obj_type, o.obj_id) ∷ arrived es
arrived (tick ∷ es) = arrived es
arrived (stop_chan ∷ es) = arrived es
arrived (stop ∷ es) = arrived es

-- Stop is not called.
abbrev pub Runs : List Event → Type 0
Runs es = All (λ e. e ≢ stop) es

abbrev pub waiting_with : List Obj → Option Obj → Notice
waiting_with os left = record { tmp_list = os; left_obj = left; is_stop = false; is_over = false }

pub typed-ids_in : (t : Bytes) (os : List Obj) → OfType t os → typed t (ids_in os) ≡ pairs os
typed-ids_in t [] h = refl
typed-ids_in t (o ∷ os) (e, h) = rw (e, typed-ids_in t os h) refl

pub heard-send_list :
    (own : Bytes) (d : Bool) (os : List Obj) → Uniform os → heard (send_list own d os) ≡ pairs os
unfolding send_list
heard-send_list own d [] h = refl
heard-send_list own d (o ∷ os) h =
    append-nil (typed o.obj_type (ids_in (o ∷ os)))
    ∙ ap (◌∷◌ (o.obj_type, o.obj_id)) (typed-ids_in o.obj_type os h)

pub length-ids_in : (os : List Obj) → length (ids_in os) ≡ length os
length-ids_in [] = refl
length-ids_in (o ∷ os) = omega (arith, length-ids_in os)

pub send_list-IsNotice :
    (own : Bytes) (d : Bool) (os : List Obj)
    → length os ≤ 100
    → All (IsNotice own d) (send_list own d os)
unfolding send_list
send_list-IsNotice own d [] h = tt
send_list-IsNotice own d (o ∷ os) h = (
  record {
    host = refl;
    deletes = refl;
    some_ids = omega arith;
    few_ids = omega (arith, h, length-ids_in os);
  },
  tt,
)

abbrev pub left_pair : Option Obj → List (Bytes × Bytes)
left_pair none = []
left_pair (some o) = (o.obj_type, o.obj_id) ∷ []

-- What an event leaves: the thread waits, what was there and `came` is sent or in the list, and the
-- messages are those of the thread.
pub record IsStep (own : Bytes) (d : Bool) (before came : List (Bytes × Bytes))
    (r : List SRocBind × Notice) : Type 0 where
  pub waits : Waits r.1
  pub kept : heard r.0 ++ pairs r.1.tmp_list ≡ before ++ came
  pub each : All (IsNotice own d) r.0

pub end_wait-IsStep :
    (own : Bytes) (d : Bool) (os : List Obj) (left : Option Obj)
    → Uniform os
    → length os ≤ 100
    → IsStep own d (pairs os) (left_pair left) (end_wait own d (waiting_with os left))
unfolding end_wait take_left
end_wait-IsStep own d os none u h = record {
  waits = record { room = omega arith; uniform = tt; none_left = refl; runs = refl; loops = refl };
  kept = ap (λ q. q ++ []) (heard-send_list own d os u);
  each = send_list-IsNotice own d os h;
}
end_wait-IsStep own d os (some o) u h = record {
  waits = record { room = omega arith; uniform = tt; none_left = refl; runs = refl; loops = refl };
  kept = ap (λ q. q ++ ((o.obj_type, o.obj_id) ∷ [])) (heard-send_list own d os u);
  each = send_list-IsNotice own d os h;
}

pub pairs-append : (xs ys : List Obj) → pairs (xs ++ ys) ≡ pairs xs ++ pairs ys
pairs-append [] ys = refl
pairs-append (x ∷ xs) ys = ap (◌∷◌ (x.obj_type, x.obj_id)) (pairs-append xs ys)

pub OfType-append :
    (t : Bytes) (os : List Obj) (o : Obj) → OfType t os → o.obj_type ≡ t → OfType t (os ++ (o ∷ []))
OfType-append t [] o h e = (e, tt)
OfType-append t (p ∷ os) o (e', h) e = (e', OfType-append t os o h e)

pub Uniform-append :
    (os : List Obj) (o : Obj) → Uniform os → same_type o os ≡ true → Uniform (os ++ (o ∷ []))
unfolding same_type
Uniform-append [] o u s = tt
Uniform-append (p ∷ os) o u s = OfType-append p.obj_type os o u ((=ₛ_iff o.obj_type p.obj_type).0 s)

abbrev pub of_event : Event → List (Bytes × Bytes)
of_event (arrive o) = (o.obj_type, o.obj_id) ∷ []
of_event tick = []
of_event stop_chan = []
of_event stop = []

pub take_obj-IsStep :
    (own : Bytes) (d : Bool) (o : Obj) (os : List Obj)
    → length os < 100
    → Uniform os
    → IsStep own d
        (pairs os)
        ((o.obj_type, o.obj_id) ∷ [])
        (take_obj own d o (waiting_with os none))
unfolding take_obj
take_obj-IsStep own d o os room u =
    let os' = os ++ (o ∷ []) in
    elim (Bool-cases (same_type o os)) [
      | inr other ↦ rw (take_obj, other) (end_wait-IsStep own d os (some o) u (omega (arith, room)))
      | inl same ↦
          let u' : Uniform os' = Uniform-append os o u same in
          elim (Bool-cases (ltb (length os') 100)) [
            | inl more' ↦
                rw (take_obj, same, more')
                  (record {
                    waits = record {
                      room = ltb→lt (length os') 100 more';
                      uniform = u';
                      none_left = refl;
                      runs = refl;
                      loops = refl;
                    };
                    kept = pairs-append os (o ∷ []);
                    each = tt;
                  })
            | inr full ↦
                rw (take_obj, same, full)
                  (let step : IsStep own d (pairs os') [] (end_wait own d (waiting_with os' none)) =
                      end_wait-IsStep own d os' none u'
                        (omega (arith, room, length-append os (o ∷ []))) in
                    record {
                      waits = step.waits;
                      kept = step.kept ∙ (append-nil (pairs os') ∙ pairs-append os (o ∷ []));
                      each = step.each;
                    })
          ]
    ]

pub on_event-IsStep :
    (own : Bytes) (d : Bool) (e : Event) (os : List Obj)
    → e ≢ stop
    → length os < 100
    → Uniform os
    → IsStep own d (pairs os) (of_event e) (on_event own d e (waiting_with os none))
unfolding on_event
on_event-IsStep own d tick os r room u = end_wait-IsStep own d os none u (omega (arith, room))
on_event-IsStep own d stop_chan os r room u = end_wait-IsStep own d os none u (omega (arith, room))
on_event-IsStep own d stop os r room u = absurd (r refl)
on_event-IsStep own d (arrive o) os r room u = take_obj-IsStep own d o os room u

pub Waits-IsStep :
    (own : Bytes) (d : Bool) (e : Event) (n : Notice)
    → e ≢ stop
    → Waits n
    → IsStep own d (pairs n.tmp_list) (of_event e) (on_event own d e n)
Waits-IsStep own d e n r h =
    let same : waiting_with n.tmp_list none ≡ n = (λ i. record {
      tmp_list = n.tmp_list;
      left_obj = sym h.none_left i;
      is_stop = sym h.runs i;
      is_over = sym h.loops i;
    }) in
    subst (λ m. IsStep own d (pairs n.tmp_list) (of_event e) (on_event own d e m)) same
      (on_event-IsStep own d e n.tmp_list r h.room h.uniform)
