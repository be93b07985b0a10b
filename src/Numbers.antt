-- ===== src/Numbers.antt =====
-- JavaScript's floating-point numbers, where the program computes with fractions: a parameter.
use lido.Base.{ℕ, ◌^◌, ◌<◌, Bool}

pub record Numbers : Type 1 where
  pub Number : Type 0
  -- The number that is nearest to a natural number.
  pub of_nat : ℕ → Number
  pub plus : Number → Number → Number
  pub times : Number → Number → Number
  pub over : Number → Number → Number
  -- Math.floor of a number that is not negative.
  pub floor : Number → ℕ
  -- `>`, `>=` and `===`, all false on NaN.
  pub greater : Number → Number → Bool
  pub at_least : Number → Number → Bool
  pub equal : Number → Number → Bool
  -- The conversion of the bitwise operators, by its residue.
  pub to_int32 : Number → ℕ
  pub to_int32-lt : (x : Number) → to_int32 x < 2 ^ 32
