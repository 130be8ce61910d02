-- ===== src/Uid/Tests.antt =====
-- Calls of util/uid at concrete times.
use micserver.Prelude.{ℕ, ◌≡◌, refl, List, [], ◌∷◌, arith}
use micserver.Uid.{UniqueIdBuilder, gen_unique_id, put_together, ids_of}
use micserver.Uid.Fresh.{IsBuilder, Answered, gen_unique_id-Answered, Rising, ids_of-Rising}

abbrev s_unique : UniqueIdBuilder
s_unique = record { last_lowlevel_id = 0; last_midlevel_id = 0; last_mid_low_level_id = 0 }

s_unique-IsBuilder : IsBuilder s_unique
s_unique-IsBuilder = record { low_fits = omega arith; mid_fits = omega arith; behind = omega arith }

-- One second after the start of 2018, twice, then a clock set back, then a second later.
abbrev calls : List (ℕ × ℕ)
calls = (1514736001, 7) ∷ (1514736001, 7) ∷ (1514735000, 7) ∷ (1514736002, 9) ∷ []

ids_of-calls : ids_of calls s_unique ≡ 4294967303 ∷ 4295032839 ∷ 8589934601 ∷ []
unfolding ids_of gen_unique_id put_together
ids_of-calls = refl

gen_unique_id-Answered_example :
    Answered 1514736001 7 s_unique
      (gen_unique_id 1514736001 7 s_unique).1
      (gen_unique_id 1514736001 7 s_unique).0
    × IsBuilder (gen_unique_id 1514736001 7 s_unique).1
gen_unique_id-Answered_example =
    gen_unique_id-Answered 1514736001 7 s_unique (omega arith) s_unique-IsBuilder

ids_of-Rising_example : Rising 0 (ids_of calls s_unique)
ids_of-Rising_example =
    ids_of-Rising calls s_unique (omega arith, (omega arith, (omega arith, (omega arith, tt))))
      s_unique-IsBuilder
