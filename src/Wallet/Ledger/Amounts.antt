-- ===== src/Wallet/Ledger/Amounts.antt =====
-- The arithmetic of one debit and of one credit, behind the tests that the services make.
use eucal_ai_backend.Prelude.{◌≡◌, false, arith}
use eucal_ai_backend.Prelude.Int.{ℤ, pos, ◌+ℤ◌, ◌-ℤ◌, ◌≤ℤ◌, ltb_ℤ, leb_ℤ, min_ℤ, int_laws}

-- a positive amount
pub positive : (a : ℤ) → leb_ℤ a (pos 0) ≡ false → pos 1 ≤ℤ a
positive a h = ground arith

pub sub-nonneg : (b a : ℤ) → ltb_ℤ b a ≡ false → pos 0 ≤ℤ b -ℤ a
unfolding ◌-ℤ◌
sub-nonneg b a h = ground arith

pub add-nonneg : (b a : ℤ) → pos 0 ≤ℤ b → pos 0 ≤ℤ a → pos 0 ≤ℤ b +ℤ a
unfolding ◌+ℤ◌
add-nonneg b a h k = ground arith

pub sub-eq-add_negate : (b a : ℤ) → b -ℤ a ≡ b +ℤ (pos 0 -ℤ a)
sub-eq-add_negate b a = omega int_laws

pub min-le_left : (a b : ℤ) → min_ℤ a b ≤ℤ a
unfolding min_ℤ
min-le_left a b = ground arith

pub sub-nonneg_of_le : (b a : ℤ) → a ≤ℤ b → pos 0 ≤ℤ b -ℤ a
sub-nonneg_of_le b a h = omega int_laws
