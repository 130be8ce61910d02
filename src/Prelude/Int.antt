-- ===== src/Prelude/Int.antt =====
-- Signed integers over the native numbers: `negsuc n` is -(n + 1).
use Prim.Native.Nat.{ℕ, suc, ◌+◌, ◌-◌, ◌≤◌}
use mathlib.Core.Path.{◌≡◌, sym, ap}
use mathlib.Core.Logic.{inl, inr}
use mathlib.Core.Bool.{Bool, true, false}
use micserver.Prelude.Tests.{ltb, leb, if◌then◌else◌, Bool-cases, leb→le, lt→ltb, le→leb}
use native.Mathlib.Omega.{arith}

pub data ℤ : Type 0 where
  pos : ℕ → ℤ
  negsuc : ℕ → ℤ

abbrev pub is_negative : ℤ → Bool
is_negative (pos n) = false
is_negative (negsuc n) = true

-- 0 for a negative integer.
abbrev pub to_ℕ : ℤ → ℕ
to_ℕ (pos n) = n
to_ℕ (negsuc n) = 0

abbrev pos_part : ℤ → ℕ
pos_part (pos n) = n
pos_part (negsuc n) = 0

abbrev neg_part : ℤ → ℕ
neg_part (pos n) = 0
neg_part (negsuc n) = suc n

-- a - b, as an integer.
abbrev pub sub_ℕ : ℕ → ℕ → ℤ
sub_ℕ a b = if leb b a then pos (a - b) else negsuc (b - a - 1)

infixl 65 ◌+ℤ◌
abbrev pub ◌+ℤ◌ : ℤ → ℤ → ℤ
a +ℤ b = sub_ℕ (pos_part a + pos_part b) (neg_part a + neg_part b)

-- m < z and z < m, for a natural number m.
abbrev pub ltb_ℕ : ℕ → ℤ → Bool
ltb_ℕ m (pos n) = ltb m n
ltb_ℕ m (negsuc n) = false

abbrev pub ltb_pos : ℤ → ℕ → Bool
ltb_pos (pos n) m = ltb n m
ltb_pos (negsuc n) m = true

pub ltb_pos-sub_ℕ : (a b n : ℕ) → ltb_pos (sub_ℕ a b) n ≡ ltb a (b + n)
ltb_pos-sub_ℕ a b n = elim (Bool-cases (leb b a)) [
  | inl h ↦ rw h (same (leb→le b a h))
  | inr h ↦ rw h (sym (lt→ltb a (b + n) (ground arith)))
]
  where
    same : b ≤ a → ltb (a - b) n ≡ ltb a (b + n)
    same h = ground arith

pub +ℤ-pos : (a b : ℕ) → pos a +ℤ pos b ≡ pos (a + b)
+ℤ-pos a b = rw (le→leb (0 + 0) (a + b) (omega arith)) (ap pos (omega arith))
