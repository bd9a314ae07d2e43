-- ===== src/Helpers/Units.antt =====
-- The unit of a size.
use logs_interceptor_python.Base.{
  ℕ, zero, suc, ◌+◌, ◌^◌, ◌<◌, ◌≤◌, ◌≡◌, refl, Bool, true, false, ◌⊎◌, inl, inr, leb, tests, arith,
  if◌then◌else◌,
}
use logs_interceptor_python.Helpers.{unit_index}

-- A size is at least one of its unit, and less than one of the next, unless it is the greatest.
abbrev pub IsUnit : ℕ → ℕ → ℕ → Type 0
IsUnit size greatest i =
    (1024 ^ i ≤ size) × (i ≤ greatest) × ((size < 1024 ^ suc i) ⊎ (i ≡ greatest))

unit_index-IsUnit :
    (rounds size index : ℕ)
    → 1024 ^ index ≤ size
    → IsUnit size (rounds + index) (unit_index rounds size index)
unfolding unit_index
unit_index-IsUnit zero size index fits = (fits, omega arith, inr (omega arith))
unit_index-IsUnit (suc rounds) size index fits =
    at_test (leb (1024 ^ suc index) size) refl (unit_index-IsUnit rounds size (suc index))
  where
    at_test :
        (b : Bool)
        → leb (1024 ^ suc index) size ≡ b
        → (1024 ^ suc index ≤ size
            → IsUnit size (rounds + suc index) (unit_index rounds size (suc index)))
        → IsUnit size (suc rounds + index) (if b then unit_index rounds size (suc index) else index)
    at_test true more rest =
        let (least, most, next) = rest (omega (tests, more)) in
        (
          least,
          omega (arith, most),
          elim next [ inl less ↦ inl less | inr last ↦ inr (omega (arith, last)) ],
        )
    at_test false enough rest = (fits, omega arith, inl (omega (tests, enough)))

-- The value that `format_bytes` writes for a size that is not 0 is at least 1, and less than 1024
-- unless the unit is GB.
pub format_bytes-IsUnit : (size : ℕ) → 0 < size → IsUnit size 3 (unit_index 3 size 0)
format_bytes-IsUnit size positive = unit_index-IsUnit 3 size 0 (omega arith)
