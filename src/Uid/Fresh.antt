-- ===== src/Uid/Fresh.antt =====
-- The ids of util/uid are new, and a call is refused only for want of an id.
use micserver.Prelude.{
  ℕ, ◌+◌, ◌-◌, ◌*◌, ◌/◌, ◌%◌, ◌^◌, ◌<◌, ◌≤◌, ◌≡◌, refl, inl, inr, List, [], ◌∷◌, ltb, leb, lt→leb,
  ◌==◌, All, arith, Bool-cases, leb→le, leb→lt, ltb→lt, ltb→le, ==_iff, sym,
}
use mathlib.Core.Path.{subst}
use micserver.Uid.{
  UniqueIdBuilder, Result, id, time_error, over_limit, put_together, gen_unique_id, ids_of, with_id,
}

-- The last id is not above what the other two fields say; only in a fresh builder is it below.
pub record IsBuilder (b : UniqueIdBuilder) : Type 0 where
  pub low_fits : b.last_lowlevel_id < 2 ^ 16
  pub mid_fits : b.last_midlevel_id < 2 ^ 32
  pub behind : b.last_mid_low_level_id ≤ b.last_midlevel_id * 2 ^ 16 + b.last_lowlevel_id

-- The parts of an id above the height.
abbrev pub above_height : ℕ → ℕ
above_height n = n / 2 ^ 16

-- What a call does: it answers an id above the last one, or refuses for the time, or for a second
-- whose ids are used up.
pub data Answered (unix height : ℕ) (b : UniqueIdBuilder) (b' : UniqueIdBuilder)
    : Result → Type 0 where
  fresh :
      (n : ℕ)
      → 1514736000 < unix
      → b.last_mid_low_level_id < above_height n
      → above_height n ≡ b'.last_mid_low_level_id
      → n % 2 ^ 16 ≡ height
      → Answered unix height b b' (id n)
  early : unix ≤ 1514736000 → b' ≡ b → Answered unix height b b' time_error
  used_up :
      b.last_lowlevel_id ≡ 0xffff
      → (unix - 1514736000) % 2 ^ 32 ≤ b.last_midlevel_id
      → b' ≡ b
      → Answered unix height b b' over_limit

above_height-join :
    (v height : ℕ) → v < 2 ^ 48 → height < 2 ^ 16 → ((v * 2 ^ 16 + height) % 2 ^ 64) / 2 ^ 16 ≡ v
above_height-join v height hv hh = omega arith

height-join : (v height : ℕ) → height < 2 ^ 16 → (v * 2 ^ 16 + height) % 2 ^ 64 % 2 ^ 16 ≡ height
height-join v height hh = omega arith

put_together-Answered :
    (unix height : ℕ) (b c : UniqueIdBuilder)
    → 1514736000 < unix
    → height < 2 ^ 16
    → IsBuilder c
    → c.last_mid_low_level_id ≡ b.last_mid_low_level_id
    → c.last_mid_low_level_id < c.last_midlevel_id * 2 ^ 16 + c.last_lowlevel_id
    → Answered unix height b (put_together height c).1 (put_together height c).0
      × IsBuilder (put_together height c).1
unfolding put_together
put_together-Answered unix height b c t hh h same less =
    let v = c.last_midlevel_id * 2 ^ 16 + c.last_lowlevel_id in
    let hv : v < 2 ^ 48 = omega (arith, h.low_fits, h.mid_fits) in
    let e : v % 2 ^ 64 ≡ v = omega (arith, hv) in
    let up : above_height ((v * 2 ^ 16 + height) % 2 ^ 64) ≡ v = above_height-join v height hv hh in
    rw (e, lt→leb c.last_mid_low_level_id v less)
      (
        fresh ((v * 2 ^ 16 + height) % 2 ^ 64) t (omega (arith, up, same, less)) up
            (height-join v height hh),
        record { low_fits = h.low_fits; mid_fits = h.mid_fits; behind = omega arith },
      )

-- GenUniqueID on a builder whose last id is not above its counters, for a 16-bit height: it answers
-- either an id with that height whose upper part is above that of the last id and is the one kept,
-- or, without a change, the error of a clock before 2018, or the error of a second whose 65,536 ids
-- are all given. The counters stay in 16 and 32 bits with the last id not above them. So the third
-- error of the code is never answered.
pub gen_unique_id-Answered :
    (unix height : ℕ) (b : UniqueIdBuilder)
    → height < 2 ^ 16
    → IsBuilder b
    → Answered unix height b (gen_unique_id unix height b).1 (gen_unique_id unix height b).0
      × IsBuilder (gen_unique_id unix height b).1
unfolding gen_unique_id
gen_unique_id-Answered unix height b hh h =
    let now = (unix - 1514736000) % 2 ^ 32 in
    elim (Bool-cases (leb unix 1514736000)) [
      | inl e ↦ rw (e) (early (leb→le unix 1514736000 e) refl, h)
      | inr e ↦
          let t : 1514736000 < unix = leb→lt unix 1514736000 e in
          elim (Bool-cases (ltb b.last_midlevel_id now)) [
            | inl later ↦
                let less : b.last_midlevel_id < now = ltb→lt b.last_midlevel_id now later in
                let c : UniqueIdBuilder = record b {
                  last_lowlevel_id = 0;
                  last_midlevel_id = now;
                } in
                let behind : b.last_mid_low_level_id < now * 2 ^ 16 + 0 =
                  omega (arith, h.behind, h.low_fits, less) in
                rw (e, later)
                  (put_together-Answered unix height b c t hh
                    (record {
                      low_fits = omega arith;
                      mid_fits = omega arith;
                      behind = omega (arith, behind);
                    })
                    refl behind)
            | inr same ↦ elim (Bool-cases (b.last_lowlevel_id == 0xffff)) [
              | inl full ↦
                  rw (e, same, full)
                    (
                      used_up ((==_iff b.last_lowlevel_id 0xffff).0 full)
                          (ltb→le b.last_midlevel_id now same) refl,
                      h,
                    )
              | inr room ↦
                  let c : UniqueIdBuilder = record b {
                    last_lowlevel_id = b.last_lowlevel_id + 1;
                  } in
                  let fits : b.last_lowlevel_id + 1 < 2 ^ 16 = ground (arith, h.low_fits) in
                  let behind : b.last_mid_low_level_id
                      < b.last_midlevel_id * 2 ^ 16 + (b.last_lowlevel_id + 1) =
                    omega (arith, h.behind) in
                  rw (e, same, room)
                    (put_together-Answered unix height b c t hh
                      (record {
                        low_fits = fits;
                        mid_fits = h.mid_fits;
                        behind = omega (arith, behind);
                      })
                      refl behind)
            ]
          ]
    ]

-- Ids whose upper parts rise from above `v`: no two of them are equal.
abbrev pub Rising : ℕ → List ℕ → Type 0
Rising v [] = Unit
Rising v (n ∷ ns) = (v < above_height n) × Rising (above_height n) ns

abbrev pub HeightFits : ℕ × ℕ → Type 0
HeightFits (unix, height) = height < 2 ^ 16

with_id-Rising :
    (unix height : ℕ) (b b' : UniqueIdBuilder) (r : Result) (ns : List ℕ)
    → Answered unix height b b' r
    → Rising b'.last_mid_low_level_id ns
    → Rising b.last_mid_low_level_id (with_id r ns)
with_id-Rising unix height b b' r ns (fresh n t less same low) rest =
    (less, subst (λ v. Rising v ns) (sym same) rest)
with_id-Rising unix height b b' r ns (early t same) rest =
    subst (λ c. Rising c.last_mid_low_level_id ns) same rest
with_id-Rising unix height b b' r ns (used_up full t same) rest =
    subst (λ c. Rising c.last_mid_low_level_id ns) same rest

-- The ids that any calls answer, whatever the clock does in between and whichever 16-bit heights they
-- are for, rise strictly above the height, from above the last id given before: no two are equal.
pub ids_of-Rising :
    (calls : List (ℕ × ℕ)) (b : UniqueIdBuilder)
    → All HeightFits calls
    → IsBuilder b
    → Rising b.last_mid_low_level_id (ids_of calls b)
unfolding ids_of
ids_of-Rising [] b hs h = tt
ids_of-Rising ((unix, height) ∷ calls) b (hh, hs) h =
    let (a, h') = gen_unique_id-Answered unix height b hh h in
    with_id-Rising unix height b (gen_unique_id unix height b).1 (gen_unique_id unix height b).0
      (ids_of calls (gen_unique_id unix height b).1) a
      (ids_of-Rising calls (gen_unique_id unix height b).1 hs h')
