-- ===== src/Uid.antt =====
-- util/uid: the generator of unique ids.
pub mod Fresh
mod Tests
use micserver.Prelude.{ℕ, ◌+◌, ◌-◌, ◌*◌, ◌%◌, ◌^◌, List, [], ◌∷◌, ltb, leb, ◌==◌, if◌then◌else◌}

-- uniqueIDBuilder: a uint16, a uint32 and a uint64.
pub record UniqueIdBuilder : Type 0 where
  pub last_lowlevel_id : ℕ
  pub last_midlevel_id : ℕ
  pub last_mid_low_level_id : ℕ

pub data Result : Type 0 where
  -- The id, whose decimal text the program answers.
  id : ℕ → Result
  time_error over_limit repeated : Result

-- The end of GenUniqueID: the id is put together from its parts, which do not overlap, so that
-- `|=` adds them up.
unfoldable pub put_together : ℕ → UniqueIdBuilder → Result × UniqueIdBuilder
put_together height b =
    let subvalue = (b.last_midlevel_id * 2 ^ 16 + b.last_lowlevel_id) % 2 ^ 64 in
    if leb subvalue b.last_mid_low_level_id
    then (repeated, b)
    else (id ((subvalue * 2 ^ 16 + height) % 2 ^ 64), record b { last_mid_low_level_id = subvalue })

-- GenUniqueID at the Unix time `unix`, for a uint16 `height`. The builder is changed under a mutex.
unfoldable pub gen_unique_id : ℕ → ℕ → UniqueIdBuilder → Result × UniqueIdBuilder
gen_unique_id unix height b =
    let now = (unix - 1514736000) % 2 ^ 32 in
    if leb unix 1514736000
    then (time_error, b)
    else if ltb b.last_midlevel_id now
    then put_together height (record b { last_lowlevel_id = 0; last_midlevel_id = now })
    else if b.last_lowlevel_id == 0xffff
    then (over_limit, b)
    else put_together height (record b { last_lowlevel_id = b.last_lowlevel_id + 1 })

-- The ids that calls, each at a time and for a height, answer in turn.
abbrev pub with_id : Result → List ℕ → List ℕ
with_id (id n) ids = n ∷ ids
with_id time_error ids = ids
with_id over_limit ids = ids
with_id repeated ids = ids

unfoldable pub ids_of : List (ℕ × ℕ) → UniqueIdBuilder → List ℕ
ids_of [] b = []
ids_of ((unix, height) ∷ calls) b =
    let (r, b') = gen_unique_id unix height b in with_id r (ids_of calls b')
