-- ===== src/Connect/Counted.antt =====
-- linkSum is the number of the connections that are filed.
use micserver.Prelude.{
  ℕ, suc, ◌≡◌, ◌≢◌, refl, sym, ap, ◌∙◌, Bool, true, false, Option, none, some, List, [], ◌∷◌,
  length, if◌then◌else◌, arith, Bool-cases, Option-cases, inl, inr,
}
use micserver.Prelude.Int.{pos, negsuc, ◌+ℤ◌}
use mathlib.Core.Path.{subst}
use micserver.Dict.{◌=ₛ◌, =ₛ_iff, lookup, insert, erase, Fresh, IsMap}
use micserver.Wire.Bytes.{Bytes}
use micserver.Connect.{
  Connection, ServerPool, change, set_temp_id, is_filed, remove, add, add_server, add_server_auto,
  new_server, remove_server, change_server_tempid, len,
}

module _ {V : Type 0} where
  Fresh-insert :
      (k j : Bytes) (v : V) (m : List (Bytes × V)) → j ≢ k → Fresh k m → Fresh k (insert j v m)
  unfolding insert
  Fresh-insert k j v [] n f = (n, tt)
  Fresh-insert k j v ((i, w) ∷ m) n (ne, f) = elim (Bool-cases (i =ₛ j)) [
    | inl e ↦ rw (insert, e) (ne, f)
    | inr e ↦ rw (insert, e) (ne, Fresh-insert k j v m n f)
  ]

  insert-IsMap : (k : Bytes) (v : V) (m : List (Bytes × V)) → IsMap m → IsMap (insert k v m)
  unfolding insert
  insert-IsMap k v [] h = (tt, tt)
  insert-IsMap k v ((i, w) ∷ m) (f, h) = elim (Bool-cases (i =ₛ k)) [
    | inl e ↦ rw (insert, e) (f, h)
    | inr e ↦
        rw (insert, e)
          (Fresh-insert i k v m (λ ki. ground (arith, e, =ₛ_iff i k, ki)) f, insert-IsMap k v m h)
  ]

  Fresh-erase : (k j : Bytes) (m : List (Bytes × V)) → Fresh k m → Fresh k (erase j m)
  unfolding erase
  Fresh-erase k j [] f = tt
  Fresh-erase k j ((i, w) ∷ m) (ne, f) = elim (Bool-cases (i =ₛ j)) [
    | inl e ↦ rw (erase, e) (Fresh-erase k j m f)
    | inr e ↦ rw (erase, e) (ne, Fresh-erase k j m f)
  ]

  erase-IsMap : (k : Bytes) (m : List (Bytes × V)) → IsMap m → IsMap (erase k m)
  unfolding erase
  erase-IsMap k [] h = tt
  erase-IsMap k ((i, w) ∷ m) (f, h) = elim (Bool-cases (i =ₛ k)) [
    | inl e ↦ rw (erase, e) (erase-IsMap k m h)
    | inr e ↦ rw (erase, e) (Fresh-erase i k m f, erase-IsMap k m h)
  ]

  abbrev has : Option V → Bool
  has none = false
  has (some v) = true

  length-insert :
      (k : Bytes) (v : V) (m : List (Bytes × V))
      → length (insert k v m) ≡ (if has (lookup k m) then length m else suc (length m))
  unfolding insert lookup
  length-insert k v [] = refl
  length-insert k v ((i, w) ∷ m) = ground (arith, length-insert k v m)

  erase-Fresh : (k : Bytes) (m : List (Bytes × V)) → Fresh k m → erase k m ≡ m
  unfolding erase
  erase-Fresh k [] f = refl
  erase-Fresh k ((i, w) ∷ m) (ne, f) = ground (arith, =ₛ_iff i k, erase-Fresh k m f)

  length-erase :
      (k : Bytes) (m : List (Bytes × V))
      → IsMap m
      → has (lookup k m) ≡ true
      → suc (length (erase k m)) ≡ length m
  unfolding erase lookup
  length-erase k [] h e = ground (arith, e)
  length-erase k ((i, w) ∷ m) (f, h) e = elim (Bool-cases (i =ₛ k)) [
    | inl same ↦
        rw (erase, same)
          (ap (λ q. suc (length q))
            (erase-Fresh k m (subst (λ j. Fresh j m) ((=ₛ_iff i k).0 same) f)))
    | inr other ↦ rw (erase, other) (ap suc (length-erase k m h (ground (arith, e, other))))
  ]

-- Each id is filed once, and linkSum counts them.
pub record IsPool (p : ServerPool) : Type 0 where
  pub distinct : IsMap p.all_sockets
  pub counted : p.link_sum ≡ pos (length p.all_sockets)

less_one : (n : ℕ) → pos (suc n) +ℤ negsuc 0 ≡ pos n
less_one n = ground arith

one_more : (n : ℕ) → pos n +ℤ pos 1 ≡ pos (suc n)
one_more n = ground arith

remove-IsPool : (id : Bytes) (p : ServerPool) → IsPool p → IsPool (remove id p)
unfolding remove is_filed
remove-IsPool id p h = elim (Option-cases (lookup id p.all_sockets)) [
  | inl e ↦ rw (remove, is_filed, e) h
  | inr (a, e) ↦
      let shorter : suc (length (erase id p.all_sockets)) ≡ length p.all_sockets =
        length-erase id p.all_sockets h.distinct (rw (e) refl) in
      rw (remove, is_filed, e)
        (record {
          distinct = erase-IsMap id p.all_sockets h.distinct;
          counted =
              ap (λ l. l +ℤ negsuc 0) (h.counted ∙ ap pos (sym shorter))
              ∙ less_one (length (erase id p.all_sockets));
        })
]

add-IsPool : (id : Bytes) (a : ℕ) (p : ServerPool) → IsPool p → IsPool (add id a p)
unfolding add is_filed
add-IsPool id a p h = elim (Option-cases (lookup id p.all_sockets)) [
  | inl e ↦
      rw (add, is_filed, e)
        (record {
          distinct = insert-IsMap id a p.all_sockets h.distinct;
          counted =
              ap (λ l. l +ℤ pos 1) h.counted
              ∙ (one_more (length p.all_sockets)
                  ∙ ap pos (sym (rw (length-insert id a p.all_sockets, e) refl)));
        })
  | inr (b, e) ↦
      rw (add, is_filed, e)
        (record {
          distinct = insert-IsMap id a p.all_sockets h.distinct;
          counted = h.counted ∙ ap pos (sym (rw (length-insert id a p.all_sockets, e) refl));
        })
]

change-IsPool :
    (a : ℕ) (f : Connection → Connection) (p : ServerPool) → IsPool p → IsPool (change a f p)
unfolding change
change-IsPool a f p h = record { distinct = h.distinct; counted = h.counted }

back_and_forth : (n : ℕ) → (pos n +ℤ negsuc 0) +ℤ pos 1 ≡ pos n
back_and_forth n = ground arith

-- A new entry that is not counted yet, then the removal of an old one, then the count.
rename-IsPool :
    (old_id new_id : Bytes) (a : ℕ) (p q : ServerPool)
    → IsPool p
    → lookup new_id p.all_sockets ≡ none
    → q.all_sockets ≡ insert new_id a p.all_sockets
    → q.link_sum ≡ p.link_sum
    → IsPool (record (remove old_id q) { link_sum = (remove old_id q).link_sum +ℤ pos 1 })
unfolding remove is_filed
rename-IsPool old_id new_id a p q h e eq el =
    let longer : length q.all_sockets ≡ suc (length p.all_sockets) =
      ap length eq ∙ rw (length-insert new_id a p.all_sockets, e) refl in
    let d : IsMap q.all_sockets =
      subst (λ m. IsMap m) (sym eq) (insert-IsMap new_id a p.all_sockets h.distinct) in
    elim (Option-cases (lookup old_id q.all_sockets)) [
      | inl en ↦
          rw (remove, is_filed, en)
            (record {
              distinct = d;
              counted =
                  ap (λ l. l +ℤ pos 1) (el ∙ h.counted)
                  ∙ (one_more (length p.all_sockets) ∙ ap pos (sym longer));
            })
      | inr (b, eb) ↦
          let shorter : suc (length (erase old_id q.all_sockets)) ≡ length q.all_sockets =
            length-erase old_id q.all_sockets d (rw (eb) refl) in
          let same : length (erase old_id q.all_sockets) ≡ length p.all_sockets =
            omega (arith, shorter, longer) in
          rw (remove, is_filed, eb)
            (record {
              distinct = erase-IsMap old_id q.all_sockets d;
              counted =
                  ap (λ l. (l +ℤ negsuc 0) +ℤ pos 1) (el ∙ h.counted)
                  ∙ (back_and_forth (length p.all_sockets) ∙ ap pos (sym same));
            })
    ]

change_server_tempid-IsPool :
    (a : ℕ) (new_id : Bytes) (p : ServerPool)
    → IsPool p
    → IsPool (change_server_tempid a new_id p).1
unfolding change_server_tempid is_filed set_temp_id change
change_server_tempid-IsPool a new_id p h = elim (Option-cases (lookup new_id p.all_sockets)) [
  | inr (b, e) ↦ rw (change_server_tempid, is_filed, e) h
  | inl e ↦
      rw (change_server_tempid, is_filed, e)
        (rename-IsPool (p.servers a).temp_id new_id a p
          (set_temp_id a new_id (record p { all_sockets = insert new_id a p.all_sockets })) h e refl
          refl)
]

-- The operations that change a pool. A server's load and version may change between them.
pub data Op : Type 0 where
  new_op : ℕ → Bytes → Op
  add_op : ℕ → Bytes → Op
  add_auto_op : ℕ → Op
  remove_op : Bytes → Op
  change_op : ℕ → Bytes → Op
  set_op : ℕ → Connection → Op

abbrev pub apply : Op → ServerPool → ServerPool
apply (new_op a id) p = new_server a id p
apply (add_op a id) p = add_server a id p
apply (add_auto_op a) p = add_server_auto a p
apply (remove_op id) p = remove_server id p
apply (change_op a id) p = (change_server_tempid a id p).1
apply (set_op a c) p = change a (λ b. c) p

abbrev pub run : List Op → ServerPool → ServerPool
run [] p = p
run (op ∷ ops) p = run ops (apply op p)

add_server-IsPool : (a : ℕ) (id : Bytes) (p : ServerPool) → IsPool p → IsPool (add_server a id p)
unfolding add_server set_temp_id
add_server-IsPool a id p h =
    add-IsPool id a (set_temp_id a id p) (change-IsPool a (λ c. record c { temp_id = id }) p h)

add_server_auto-IsPool : (a : ℕ) (p : ServerPool) → IsPool p → IsPool (add_server_auto a p)
unfolding add_server_auto
add_server_auto-IsPool a p h = add-IsPool (p.servers a).temp_id a p h

apply-IsPool : (op : Op) (p : ServerPool) → IsPool p → IsPool (apply op p)
unfolding new_server remove_server
apply-IsPool (new_op a id) p h = elim (Bool-cases (id =ₛ [])) [
  | inl e ↦ rw (new_server, e) (add_server_auto-IsPool a p h)
  | inr e ↦ rw (new_server, e) (add_server-IsPool a id p h)
]
apply-IsPool (add_op a id) p h = add_server-IsPool a id p h
apply-IsPool (add_auto_op a) p h = add_server_auto-IsPool a p h
apply-IsPool (remove_op id) p h = elim (Option-cases (lookup id p.all_sockets)) [
  | inl e ↦ rw (remove_server, e) h
  | inr (a, e) ↦
      rw (remove_server, e)
        (remove-IsPool id (change a (λ c. record c { is_shut = true }) p)
          (change-IsPool a (λ c. record c { is_shut = true }) p h))
]
apply-IsPool (change_op a id) p h = change_server_tempid-IsPool a id p h
apply-IsPool (set_op a c) p h = change-IsPool a (λ b. c) p h

-- After any calls of NewTCPServer, NewChanServer, AddServer, AddServerAuto, RemoveServer and
-- ChangeServerTempid on a pool where linkSum counts the connections and each id is filed once, both
-- still hold, so that Len answers the number of the connections.
pub run-IsPool :
    (ops : List Op) (p : ServerPool)
    → IsPool p
    → IsPool (run ops p) × (len (run ops p) ≡ pos (length (run ops p).all_sockets))
unfolding len
run-IsPool [] p h = (h, rw (h.counted) refl)
run-IsPool (op ∷ ops) p h = run-IsPool ops (apply op p) (apply-IsPool op p h)
