-- ===== src/Settings/Numbers.antt =====
-- src/logs_interceptor/config.py: the numbers of a configuration. An int may be negative; a float is
-- `nan` or a whole number of millionths.
use logs_interceptor_python.Base.{ℕ, Bool, true, false, ltb}

-- A Python int: `n`, or `- (n + 1)`.
pub data ℤ : Type 0 where
  pos : ℕ → ℤ
  negsuc : ℕ → ℤ

-- What a reader of the configuration takes for a number that is not negative.
abbrev pub natural : ℤ → ℕ
natural (pos n) = n
natural (negsuc n) = 0

-- A Python float.
pub data Float : Type 0 where
  nan : Float
  millionths : ℤ → Float

-- `a < b`
abbrev pub ltz : ℤ → ℤ → Bool
ltz (pos a) (pos b) = ltb a b
ltz (pos a) (negsuc b) = false
ltz (negsuc a) (pos b) = true
ltz (negsuc a) (negsuc b) = ltb b a

-- `a < b`, which is false of `nan`
abbrev pub ltf : Float → Float → Bool
ltf nan b = false
ltf (millionths a) nan = false
ltf (millionths a) (millionths b) = ltz a b

abbrev pub is_negative : ℤ → Bool
is_negative z = ltz z (pos 0)

-- `not z <= 0`
abbrev pub is_positive : ℤ → Bool
is_positive z = ltz (pos 0) z

abbrev pub one : Float
one = millionths (pos 1000000)

abbrev pub zero_float : Float
zero_float = millionths (pos 0)
