-- ===== src/Interceptor/Levels.antt =====
-- The levels of `logging` as levels of the program.
use logs_interceptor_python.Base.{
  ℕ, ◌≤◌, ◌≡◌, refl, Bool, true, false, some, leb, if◌then◌else◌, arith, String_comparable,
}
use logs_interceptor_python.Base.Dict.{lookup}
use logs_interceptor_python.Interceptor.{map_level}
use logs_interceptor_python.Levels.{LogLevelVo, is_valid, priority, is_greater_than_or_equal}

abbrev pub level_object : ℕ → LogLevelVo
level_object n = record { value = map_level n }

rank : ℕ → ℕ
rank n =
    if leb 50 n
    then 4
    else if leb 40 n
    then 3
    else if leb 30 n
    then 2
    else if leb 20 n
    then 1
    else 0

-- The nested tests of both, on their results.
priority_of_tests :
    (a b c d : Bool)
    → priority (record {
      value =
          if a
          then "fatal"
          else if b
          then "error"
          else if c
          then "warn"
          else if d
          then "info"
          else "debug";
    })
      ≡ some (if a then 4 else if b then 3 else if c then 2 else if d then 1 else 0)
unfolding priority lookup
priority_of_tests true b c d = refl
priority_of_tests false true c d = refl
priority_of_tests false false true d = refl
priority_of_tests false false false true = refl
priority_of_tests false false false false = refl

valid_of_tests :
    (a b c d : Bool)
    → is_valid (
        if a
        then "fatal"
        else if b
        then "error"
        else if c
        then "warn"
        else if d
        then "info"
        else "debug")
      ≡ true
unfolding is_valid
valid_of_tests true b c d = refl
valid_of_tests false true c d = refl
valid_of_tests false false true d = refl
valid_of_tests false false false true = refl
valid_of_tests false false false false = refl

priority-map_level : (n : ℕ) → priority (level_object n) ≡ some (rank n)
unfolding rank map_level
priority-map_level n = priority_of_tests (leb 50 n) (leb 40 n) (leb 30 n) (leb 20 n)

is_valid-map_level : (n : ℕ) → is_valid (map_level n) ≡ true
unfolding map_level
is_valid-map_level n = valid_of_tests (leb 50 n) (leb 40 n) (leb 30 n) (leb 20 n)

rank_mono : (a b : ℕ) → a ≤ b → leb (rank a) (rank b) ≡ true
unfolding rank
rank_mono a b h = ground arith

-- Every number of `logging` is mapped to a valid level, and a number that is not less to a level
-- that is at least as high by the order of `LogLevelVO`.
pub map_level_mono :
    (a b : ℕ)
    → a ≤ b
    → (is_valid (map_level a) ≡ true)
      × (is_greater_than_or_equal (level_object b) (level_object a) ≡ some true)
unfolding is_greater_than_or_equal
map_level_mono a b h =
    (is_valid-map_level a, rw (priority-map_level a, priority-map_level b) (rw (rank_mono a b h)))
