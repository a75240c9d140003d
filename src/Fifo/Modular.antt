-- ===== src/Fifo/Modular.antt =====
-- The modular tests of the ring, as tests on positions.
use exjobb_calvin.Prelude.{ℕ, ◌+◌, ◌%◌, ◌<◌, ◌≡◌, ◌≢◌, arith}

-- Positions less than the size apart stand in different slots.
pub slots-ne : (a b n : ℕ) → a < b → b < a + n → a % n ≢ b % n
slots-ne a b n h k e = grind arith

pub slots-eq : (a n : ℕ) → 0 < n → (a + n) % n ≡ a % n
slots-eq a n h = grind arith
