-- ===== src/Roc/Objects/Recorded.antt =====
-- The events of a ROC tell which objects it has.
use micserver.Prelude.{
  ℕ, ◌≡◌, refl, sym, ap, ◌∙◌, Bool, true, false, Option, none, some, List, [], ◌∷◌, ◌++◌,
  if◌then◌else◌, ◌||◌, ◌==◌, arith, Bool-cases, inl, inr,
}
use mathlib.Core.Path.{fun_ext}
use micserver.Dict.{◌=ₛ◌, =ₛ_iff, lookup}
use micserver.Wire.Bytes.{Bytes}
use micserver.Roc.Pool.{load, get_pool, is_grouped, init, new_map_pool}
use micserver.Roc.Pool.Grouped.{IsWhole, store_at-IsChanged, delete_at-IsChanged, init-IsWhole}
use micserver.Roc.Objects.{
  IObj, ObjEvent, added, deleted, Roc, reg_obj, get_obj, deleted_events, del_obj_by_id, del_obj,
}

-- Whether an id is there, as events in turn say.
abbrev pub play : List ObjEvent → (Bytes → Bool) → Bytes → Bool
play [] f j = f j
play (added o ∷ es) f j = play es (λ i. if o.obj_id =ₛ i then true else f i) j
play (deleted o ∷ es) f j = play es (λ i. if o.obj_id =ₛ i then false else f i) j

abbrev pub is_there : Option (Option IObj) → Bool
is_there none = false
is_there (some none) = false
is_there (some (some o)) = true

abbrev id_or : Bytes → Option (Option IObj) → Bytes
id_or id none = id
id_or id (some none) = id
id_or id (some (some o)) = o.obj_id

module _ (hash : Bytes → ℕ) where
  abbrev pub present : Roc → Bytes → Bool
  present r j = is_there (load hash r j)

  -- Every id has a pool, and an object is registered under its own id.
  pub record IsRoc (r : Roc) : Type 0 where
    pub whole : IsWhole hash r
    pub named : (j : Bytes) (o : IObj) → load hash r j ≡ some (some o) → o.obj_id ≡ j

  -- A call has not panicked, and its events tell which objects are there afterwards.
  pub record IsTold (r : Roc) (result : Option (List ObjEvent × Roc)) : Type 0 where
    pub events : List ObjEvent
    pub after : Roc
    pub is : result ≡ some (events, after)
    pub roc : IsRoc after
    pub tells : (j : Bytes) → present after j ≡ play events (present r) j

  there-if :
      (b : Bool) (o : Option (Option IObj)) (new : Option IObj)
      → is_there (if b then some new else o) ≡ (if b then is_there (some new) else is_there o)
  there-if true o new = refl
  there-if false o new = refl

  -- RegObj, where objects are registered under their own ids: it does not panic, they still are, and
  -- its event says that the object is there.
  pub reg_obj-IsTold : (obj : IObj) (r : Roc) → IsRoc r → IsTold r (reg_obj hash obj r)
  unfolding reg_obj
  reg_obj-IsTold obj r h =
      let c = store_at-IsChanged hash r obj.obj_id obj h.whole in
      record {
        events = added obj ∷ [];
        after = c.after;
        is = rw (reg_obj, c.is) refl;
        roc = record {
          whole = c.whole;
          named = (λ j o e. elim (Bool-cases (obj.obj_id =ₛ j)) [
            | inl same ↦
                let eo : some (some obj) ≡ some (some o) = sym (c.loads j ∙ rw (same) refl) ∙ e in
                sym (ap (id_or obj.obj_id) eo) ∙ (=ₛ_iff obj.obj_id j).0 same
            | inr other ↦ h.named j o (sym (c.loads j ∙ rw (other) refl) ∙ e)
          ]);
        };
        tells =
            (λ j. ap is_there (c.loads j) ∙ there-if (obj.obj_id =ₛ j) (load hash r j) (some obj));
      }

  load_whole : (r : Roc) (j : Bytes) → IsWhole hash r → (o : Option IObj) × (load hash r j ≡ some o)
  unfolding load
  load_whole r j whole = let (m, e) = whole j in (lookup j m, rw (load, e) refl)

  gone :
      (r : Roc) (id : Bytes) (o : Option IObj)
      → IsRoc r
      → load hash r id ≡ some o
      → (j : Bytes)
      → (if id =ₛ j then false else present r j) ≡ play (deleted_events o) (present r) j
  gone r id none h e j = elim (Bool-cases (id =ₛ j)) [
    | inl same ↦ rw (same, sym ((=ₛ_iff id j).0 same), e) refl
    | inr other ↦ rw (other) refl
  ]
  gone r id (some x) h e j = rw (h.named id x e) refl

  -- DelObjByID, where objects are registered under their own ids: it does not panic, they still are,
  -- and its event, if an object was there, says that it is not any more.
  pub del_obj_by_id-IsTold : (id : Bytes) (r : Roc) → IsRoc r → IsTold r (del_obj_by_id hash id r)
  unfolding del_obj_by_id get_obj
  del_obj_by_id-IsTold id r h =
      let c = delete_at-IsChanged hash r id h.whole in
      let (o, eo) = load_whole r id h.whole in
      record {
        events = deleted_events o;
        after = c.after;
        is = rw (del_obj_by_id, eo, c.is) refl;
        roc = record {
          whole = c.whole;
          named = (λ j o e. elim (Bool-cases (id =ₛ j)) [
            | inl same ↦
                let no : some none ≡ some (some o) = sym (c.loads j ∙ rw (same) refl) ∙ e in
                absurd (ground (arith, no))
            | inr other ↦ h.named j o (sym (c.loads j ∙ rw (other) refl) ∙ e)
          ]);
        };
        tells = (λ j.
            ap is_there (c.loads j)
            ∙ (there-if (id =ₛ j) (load hash r j) none ∙ gone r id o h eo j));
      }

-- The calls on a ROC.
pub data Call : Type 0 where
  reg del : IObj → Call

abbrev pub make : (Bytes → ℕ) → Call → Roc → Option (List ObjEvent × Roc)
make hash (reg obj) r = reg_obj hash obj r
make hash (del obj) r = del_obj hash obj r

abbrev pub and_then : List ObjEvent → Option (List ObjEvent × Roc) → Option (List ObjEvent × Roc)
and_then events none = none
and_then events (some (more', r)) = some (events ++ more', r)

abbrev pub then_each :
    Option (List ObjEvent × Roc)
    → (Roc → Option (List ObjEvent × Roc))
    → Option (List ObjEvent × Roc)
then_each none rest = none
then_each (some (events, r)) rest = and_then events (rest r)

abbrev pub make_each : (Bytes → ℕ) → List Call → Roc → Option (List ObjEvent × Roc)
make_each hash [] r = some ([], r)
make_each hash (c ∷ cs) r = then_each (make hash c r) (make_each hash cs)

make-IsTold : (hash : Bytes → ℕ) (c : Call) (r : Roc) → IsRoc hash r → IsTold hash r (make hash c r)
unfolding del_obj
make-IsTold hash (reg obj) r h = reg_obj-IsTold hash obj r h
make-IsTold hash (del obj) r h = del_obj_by_id-IsTold hash obj.obj_id r h

play-append :
    (es fs : List ObjEvent) (f : Bytes → Bool) (j : Bytes)
    → play (es ++ fs) f j ≡ play fs (play es f) j
play-append [] fs f j = refl
play-append (added o ∷ es) fs f j = play-append es fs (λ i. if o.obj_id =ₛ i then true else f i) j
play-append (deleted o ∷ es) fs f j =
    play-append es fs (λ i. if o.obj_id =ₛ i then false else f i) j

-- Any calls of RegObj and DelObj on a ROC where objects are registered under their own ids: none
-- panics, objects still are registered so, and the events of the calls, in their order, tell of every
-- id whether an object is there afterwards.
pub make_each-IsTold :
    (hash : Bytes → ℕ) (cs : List Call) (r : Roc)
    → IsRoc hash r
    → IsTold hash r (make_each hash cs r)
make_each-IsTold hash [] r h = record {
  events = [];
  after = r;
  is = refl;
  roc = h;
  tells = (λ j. refl);
}
make_each-IsTold hash (c ∷ cs) r h =
    let one = make-IsTold hash c r h in
    let rest = make_each-IsTold hash cs one.after one.roc in
    record {
      events = one.events ++ rest.events;
      after = rest.after;
      is = ap (λ o. then_each o (make_each hash cs)) one.is ∙ ap (and_then one.events) rest.is;
      roc = rest.roc;
      tells = (λ j.
          rest.tells j
          ∙ (ap (λ f. play rest.events f j) (fun_ext one.tells)
              ∙ sym (play-append one.events rest.events (present hash r) j)));
    }

or_true : (b : Bool) → (b || true) ≡ true
or_true true = refl
or_true false = refl

init_first :
    (n : ℕ)
    → init n (new_map_pool {V = IObj})
      ≡ record new_map_pool { group_sum = 1; has_group_func = true }
unfolding init
init_first n = rw (or_true (n == 0 || n == 1)) refl

init-load :
    (hash : Bytes → ℕ) (n : ℕ) (j : Bytes)
    → load {V = IObj} hash (init n new_map_pool) j ≡ some none
unfolding load get_pool is_grouped lookup
init-load hash n j = rw (init_first n) refl

-- A ROC after Init.
pub init-IsRoc : (hash : Bytes → ℕ) (n : ℕ) → IsRoc hash (init n new_map_pool)
init-IsRoc hash n = record {
  whole = init-IsWhole hash n new_map_pool;
  named = (λ j o e.
      let nothing : some none ≡ some (some o) = sym (init-load hash n j) ∙ e in
      absurd (ground (arith, nothing)));
}
