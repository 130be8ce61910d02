-- ===== src/Buffer/Tests.antt =====
-- The theorems on the buffer at concrete inputs.
use micserver.Prelude.{
  ℕ, ◌≤◌, ◌<◌, ◌≡◌, refl, true, false, ◌⊎◌, [], ◌∷◌, ◌++◌, none, some, length, take, arith,
  length-take,
}
use micserver.Prelude.Int.{pos}
use micserver.Wire.Bytes.{Bytes}
use micserver.Buffer.{IoBuffer, Error, over_size, write, read, read_from_reader, IoReader}
use micserver.Buffer.Queue.{Holds}
use micserver.Buffer.Laws.{Updated, write_lem}
use micserver.Buffer.Reading.{read_lem}
use micserver.Buffer.Receiving.{kept, read_from_reader_lem}

-- Two bytes of four, behind one that was read.
abbrev half : IoBuffer
half = record {
  buf = some (9 ∷ 7 ∷ 8 ∷ 0 ∷ []);
  start = 1;
  end = 3;
  max_length = 4;
  default_length = 4;
  ban_auto_resize = false;
}

abbrev content : Bytes
content = 7 ∷ 8 ∷ []

half-Holds : Holds content half
half-Holds = record {
  before = 9 ∷ [];
  free = 0 ∷ [];
  stored = refl;
  start_at = refl;
  end_at = refl;
  size = refl;
  limit = omega arith;
}

write_lem_example :
    ((b' : IoBuffer) × (write (1 ∷ 2 ∷ 3 ∷ []) half ≡ some (b', none))
      × Updated (7 ∷ 8 ∷ 1 ∷ 2 ∷ 3 ∷ []) half b')
    ⊎ ((b' : IoBuffer) × (write (1 ∷ 2 ∷ 3 ∷ []) half ≡ some (b', some over_size))
        × Updated content half b'
        × (b'.max_length < 5)
        × ((false ≡ true) ⊎ (64 < 5)))
write_lem_example = write_lem (1 ∷ 2 ∷ 3 ∷ []) content half half-Holds

read_lem_example :
    ((2 ≤ 2)
      × ((b' : IoBuffer) × (read (pos 1) (pos 1) half ≡ some (b', (8 ∷ [], none)))
          × Updated [] half b'
          × (b'.max_length ≡ 4)))
    ⊎ ((2 < 2) × ((e : Error) × (read (pos 1) (pos 1) half ≡ some (half, ([], some e)))))
read_lem_example = read_lem 1 1 content half half-Holds

-- A reader with two bytes at hand.
abbrev two_bytes : IoReader
two_bytes k = (take k (5 ∷ 6 ∷ []), none)

two_bytes_keeps : (k : ℕ) → length (two_bytes k).0 ≤ k
two_bytes_keeps k = rw length-take (omega arith)

read_from_reader_lem_example :
    (room : ℕ) × (b' : IoBuffer) × (read_from_reader (some two_bytes) half
      ≡ some (b', (length (two_bytes room).0, none)))
    × Updated (content ++ kept (two_bytes room)) half b'
read_from_reader_lem_example =
    read_from_reader_lem two_bytes content half half-Holds two_bytes_keeps
