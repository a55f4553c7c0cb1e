-- ===== src/Prelude/Int.antt =====
-- Signed 64-bit values: only their order is used by the program.
use Prim.Native.Nat.{ℕ}
use mathlib.Core.Path.{◌≡◌}
use mathlib.Core.Logic.{◌↔◌}
use mathlib.Core.Bool.{Bool, true, false}
use native.Mathlib.Omega.{arith}
use nostr_wot_oracle.Prelude.Tests.{◌==◌, ltb}

-- `negsuc n` is -(n + 1).
pub data ℤ : Type 0 where
  pos : ℕ → ℤ
  negsuc : ℕ → ℤ

unfoldable pub ltbℤ : ℤ → ℤ → Bool
ltbℤ (pos a) (pos b) = ltb a b
ltbℤ (pos a) (negsuc b) = false
ltbℤ (negsuc a) (pos b) = true
ltbℤ (negsuc a) (negsuc b) = ltb b a

unfoldable pub eqbℤ : ℤ → ℤ → Bool
eqbℤ (pos a) (pos b) = a == b
eqbℤ (pos a) (negsuc b) = false
eqbℤ (negsuc a) (pos b) = false
eqbℤ (negsuc a) (negsuc b) = a == b

pub ltbℤ_irrefl : (a : ℤ) → ltbℤ a a ≡ false
unfolding ltbℤ
ltbℤ_irrefl (pos a) = ground arith
ltbℤ_irrefl (negsuc a) = ground arith

pub ltbℤ_asymm : (a b : ℤ) → ltbℤ a b ≡ true → ltbℤ b a ≡ false
unfolding ltbℤ
ltbℤ_asymm a b h = ground arith

pub ltbℤ_trans : (a b c : ℤ) → ltbℤ a b ≡ true → ltbℤ b c ≡ true → ltbℤ a c ≡ true
unfolding ltbℤ
ltbℤ_trans a b c h k = ground arith

pub ltbℤ_total : (a b : ℤ) → ltbℤ a b ≡ false → ltbℤ b a ≡ false → a ≡ b
unfolding ltbℤ
ltbℤ_total a b h k = ground arith

pub eqbℤ_iff : (a b : ℤ) → (eqbℤ a b ≡ true) ↔ (a ≡ b)
unfolding eqbℤ
eqbℤ_iff a b = ground arith
