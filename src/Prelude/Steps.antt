-- ===== src/Prelude/Steps.antt =====
-- Straight-line code with early returns and panics: a step takes the local state on, leaves the
-- function with it, or panics.

pub data Flow {ℓ} (S : Type ℓ) : Type ℓ where
  panic : Flow S
  stop : S → Flow S
  more : S → Flow S

infixr 5 ◌>>◌
abbrev pub ◌>>◌ {ℓ} : {S : Type ℓ} → (S → Flow S) → (S → Flow S) → S → Flow S
◌>>◌ f g s = elim (f s) [ panic ↦ panic | stop t ↦ stop t | more t ↦ g t ]
