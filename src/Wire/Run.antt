-- ===== src/Wire/Run.antt =====
-- A writer run over a whole buffer, as the callers of WriteBinary run it.
use micserver.Prelude.{
  ℕ, ◌≡◌, refl, List, [], ◌∷◌, ◌++◌, append-nil, Option, none, some, length, drop, Flow, panic,
  stop, more, arith,
}
use micserver.Wire.Bytes.{Bytes}
use micserver.Wire.Write.{Cursor, Writer}
use micserver.Wire.Writes.{Writes}

-- The buffer afterwards and the offset that is returned; `none` is a panic.
abbrev pub outcome : Flow Cursor → Option (Bytes × ℕ)
outcome panic = none
outcome (stop c) = some (c.written ++ c.room, length c.written)
outcome (more c) = some (c.written ++ c.room, length c.written)

unfoldable pub run_writer : Writer → Bytes → Option (Bytes × ℕ)
run_writer w buf = outcome (w (record { written = []; room = buf }))

drop_all {ℓ} : {A : Type ℓ} (xs : List A) → drop (length xs) xs ≡ []
drop_all [] = refl
drop_all (x ∷ xs) = drop_all xs

-- In a buffer of the right size nothing else is left.
pub run_writer-Writes :
    (w : Writer) (bs buf : Bytes)
    → Writes w bs
    → length buf ≡ length bs
    → run_writer w buf ≡ some (bs, length bs)
unfolding run_writer
run_writer-Writes w bs buf h e = rw (h.run [] buf (omega arith), ← e, drop_all buf, append-nil)
