-- ===== src/Roc/Path/RoundTrip.antt =====
-- A path of roc/path.go is read back from its string.
use micserver.Prelude.{
  ℕ, ◌≡◌, refl, sym, ap, ◌∙◌, true, false, List, [], ◌∷◌, ◌++◌, ◌==◌, append_assoc, append-nil, All,
}
use micserver.Roc.Path.{
  Runes, RocPath, is_empty, decode_from, kstr_decode, split_from, new_roc_path, dotted, to_string,
  reset_pos,
}

-- A rune that means nothing in a path.
abbrev pub IsPlain : ℕ → Type 0
IsPlain k = ((k == b'[') ≡ false) × ((k == b']') ≡ false) × ((k == b'.') ≡ false)

decode_type :
    (t s rest : Runes)
    → All IsPlain s
    → decode_from t [] false (s ++ rest) ≡ decode_from (t ++ s) [] false rest
unfolding decode_from
decode_type t [] rest h = ap (λ u. decode_from u [] false rest) (sym (append-nil t))
decode_type t (k ∷ s) rest ((a, b, c), h) =
    rw (decode_from, a, b, c)
      (decode_type (t ++ (k ∷ [])) s rest h
        ∙ ap (λ u. decode_from u [] false rest) (append_assoc t (k ∷ []) s))

decode_key :
    (t key s rest : Runes)
    → is_empty t ≡ false
    → All IsPlain s
    → decode_from t key true (s ++ rest) ≡ decode_from t (key ++ s) true rest
unfolding decode_from
decode_key t key [] rest e h = ap (λ u. decode_from t u true rest) (sym (append-nil key))
decode_key t [] (k ∷ s) rest e ((a, b, c), h) =
    rw (decode_from, a, b, c, e) (decode_key t (k ∷ []) s rest e h)
decode_key t (j ∷ key) (k ∷ s) rest e ((a, b, c), h) =
    rw (decode_from, a, b, c, e)
      (decode_key t ((j ∷ key) ++ (k ∷ [])) s rest e h
        ∙ ap (λ u. decode_from t u true rest) (append_assoc (j ∷ key) (k ∷ []) s))

abbrev head : Runes → Runes → Runes
head t id = t ++ (b'[' ∷ (id ++ (b']' ∷ [])))

kstr_decode-head :
    (t id : Runes)
    → is_empty t ≡ false
    → All IsPlain t
    → All IsPlain id
    → kstr_decode (head t id) ≡ (t, id)
unfolding kstr_decode decode_from
kstr_decode-head t id e ht hi =
    decode_type [] t (b'[' ∷ (id ++ (b']' ∷ []))) ht ∙ decode_key t [] id (b']' ∷ []) e hi

-- A part without a dot is split off whole.
abbrev pub IsDotless : ℕ → Type 0
IsDotless k = (k == b'.') ≡ false

split-part :
    (acc s rest : Runes) → All IsDotless s → split_from acc (s ++ rest) ≡ split_from (acc ++ s) rest
unfolding split_from
split-part acc [] rest h = ap (λ u. split_from u rest) (sym (append-nil acc))
split-part acc (k ∷ s) rest (c, h) =
    rw (split_from, c)
      (split-part (acc ++ (k ∷ [])) s rest h
        ∙ ap (λ u. split_from u rest) (append_assoc acc (k ∷ []) s))

split-dotted :
    (acc : Runes) (strs : List Runes)
    → All (All IsDotless) strs
    → split_from acc (dotted strs) ≡ acc ∷ strs
unfolding split_from dotted
split-dotted acc [] h = refl
split-dotted acc (s ∷ strs) (hs, h) =
    ap (◌∷◌ acc) (split-part [] s (dotted strs) hs ∙ split-dotted s strs h)

IsPlain-IsDotless : (s : Runes) → All IsPlain s → All IsDotless s
IsPlain-IsDotless [] h = tt
IsPlain-IsDotless (k ∷ s) ((a, b, c), h) = (c, IsPlain-IsDotless s h)

All-append : (s u : Runes) → All IsDotless s → All IsDotless u → All IsDotless (s ++ u)
All-append [] u h k = k
All-append (x ∷ s) u (h, hs) k = (h, All-append s u hs k)

head-IsDotless : (t id : Runes) → All IsPlain t → All IsPlain id → All IsDotless (head t id)
head-IsDotless t id ht hi =
    All-append t (b'[' ∷ (id ++ (b']' ∷ []))) (IsPlain-IsDotless t ht)
      (refl, All-append id (b']' ∷ []) (IsPlain-IsDotless id hi) (refl, tt))

-- A path whose type is not empty, with no bracket and no dot in its type and its id, and no dot in
-- its functions: NewROCPath on what String gives is the same path, back at its first function.
pub new_roc_path-to_string :
    (p : RocPath)
    → is_empty p.obj_type ≡ false
    → All IsPlain p.obj_type
    → All IsPlain p.obj_id
    → All (All IsDotless) p.strs
    → new_roc_path (to_string p) ≡ reset_pos p
unfolding new_roc_path to_string reset_pos
new_roc_path-to_string p e ht hi hs =
    let h = head p.obj_type p.obj_id in
    let cut : split_from [] (h ++ dotted p.strs) ≡ h ∷ p.strs =
      split-part [] h (dotted p.strs) (head-IsDotless p.obj_type p.obj_id ht hi)
      ∙ split-dotted h p.strs hs in
    rw (new_roc_path, cut)
      (ap (λ d. record { strs = p.strs; pos = 0; obj_type = d.0; obj_id = d.1 })
        (kstr_decode-head p.obj_type p.obj_id e ht hi))
