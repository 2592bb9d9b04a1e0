-- ===== src/Iec/Bus/Wait.antt =====
-- The wait loops of c64iec.ino, which poll a pin.
use c64iec.Base.{ℕ, zero, suc, ◌+◌, ◌<◌, ◌≡◌, refl, ap, ◌∙◌, Bool, true, false, arith}
use c64iec.Iec.Bus.{Pin, is_level, wait_loop}

module _ (level : Pin → ℕ → Bool) (p : Pin) (state : Bool) where
  wait_loop-now :
      (n t : ℕ) → is_level (level p t) state ≡ true → wait_loop level (suc n) p state t ≡ (1, suc t)
  unfolding wait_loop
  wait_loop-now n t now = rw now refl

  wait_loop-later :
      (n t : ℕ)
      → is_level (level p t) state ≡ false
      → wait_loop level (suc n) p state t ≡ wait_loop level n p state (suc t)
  unfolding wait_loop
  wait_loop-later n t later = rw later refl

  -- Sample t + j + 1 is sample j of those behind t.
  level-shift :
      (t j : ℕ) (b : Bool)
      → is_level (level p (t + suc j)) state ≡ b
      → is_level (level p (suc t + j)) state ≡ b
  level-shift t j b h =
      let e : suc t + j ≡ t + suc j = omega arith in ap (λ x. is_level (level p x) state) e ∙ h

  level-start :
      (t : ℕ) (b : Bool) → is_level (level p (t + 0)) state ≡ b → is_level (level p t) state ≡ b
  level-start t b h = let e : t ≡ t + 0 = omega arith in ap (λ x. is_level (level p x) state) e ∙ h

  -- A wait function finds the level at the first sample that has it, among those that its limit allows,
  -- and takes no sample behind that one.
  pub wait_loop-finds :
      (n k t : ℕ)
      → k < n
      → is_level (level p (t + k)) state ≡ true
      → ((j : ℕ) → j < k → is_level (level p (t + j)) state ≡ false)
      → wait_loop level n p state t ≡ (1, t + k + 1)
  wait_loop-finds zero k t h found before = absurd (omega arith)
  wait_loop-finds (suc n) zero t h found before =
      wait_loop-now n t (level-start t true found) ∙ ap (λ x. (1, x)) (omega arith)
  wait_loop-finds (suc n) (suc k) t h found before =
      wait_loop-later n t (level-start t false (before 0 (omega arith)))
      ∙ (wait_loop-finds n k (suc t) (omega arith) (level-shift t k true found)
            (λ j lt. level-shift t j false (before (suc j) (omega arith)))
          ∙ ap (λ x. (1, x)) (omega arith))

  -- A wait function gives up, with 0, when none of the n samples that its limit allows has the level.
  pub wait_loop-misses :
      (n t : ℕ)
      → ((j : ℕ) → j < n → is_level (level p (t + j)) state ≡ false)
      → wait_loop level n p state t ≡ (0, t + n)
  wait_loop-misses zero t never = unfold wait_loop in ap (λ x. (0, x)) (omega arith)
  wait_loop-misses (suc n) t never =
      wait_loop-later n t (level-start t false (never 0 (omega arith)))
      ∙ (wait_loop-misses n (suc t) (λ j lt. level-shift t j false (never (suc j) (omega arith)))
          ∙ ap (λ x. (0, x)) (omega arith))
