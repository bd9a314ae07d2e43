-- ===== src/Helpers/Sampling.antt =====
-- src/logs_interceptor/utils.py: `should_sample_advanced`. A rate is in millionths, `digest` is the
-- number that the first four bytes of the MD5 digest of a key are, and `W` is what `random` reads. The
-- rounding of the quotient is left out.
use logs_interceptor_python.Base.{
  ℕ, ◌*◌, ◌≤◌, ◌≡◌, String, Bool, true, false, not, ◌&&◌, Option, none, some, leb, ltb, ◌==◌,
  String_comparable, if◌then◌else◌, arith,
}
use logs_interceptor_python.Base.Text.{is_blank}

abbrev has_key : Option String → Bool
has_key none = false
has_key (some key) = not (is_blank key)

abbrev key_or_blank : Option String → String
key_or_blank none = ""
key_or_blank (some key) = key

module _ {W : Type 0} (random : W → ℕ × W) (digest : String → ℕ) where
  abbrev drawn_below : ℕ → W → Bool × W
  drawn_below rate w = let (drawn, w') = random w in (ltb drawn rate, w')

  -- the division by 0xFFFFFFFF, written as a product on the other side
  abbrev below : ℕ → String → Bool
  below rate key = ltb (digest key * 1000000) (rate * 4294967295)

  -- `adjusted` is the rate for the load of the machine, `none` if that cannot be read.
  unfoldable pub should_sample_advanced : (ℕ → Option ℕ) → ℕ → String → Option String → W → Bool × W
  should_sample_advanced adjusted rate strategy key w =
      if leb 1000000 rate
      then (true, w)
      else if leb rate 0
      then (false, w)
      else if strategy == "deterministic" && has_key key
      then (below rate (key_or_blank key), w)
      else if strategy == "adaptive"
      then elim (adjusted rate) [ none ↦ drawn_below rate w | some r ↦ drawn_below r w ]
      else drawn_below rate w

  -- A deterministic sample of a key that is not blank draws nothing, and a key that is taken at a
  -- rate is taken at every higher one.
  pub should_sample_advanced_mono :
      (adjusted : ℕ → Option ℕ) (low high : ℕ) (key : String) (w : W)
      → is_blank key ≡ false
      → low ≤ high
      → (should_sample_advanced adjusted low "deterministic" (some key) w).0 ≡ true
      → should_sample_advanced adjusted high "deterministic" (some key) w ≡ (true, w)
  unfolding should_sample_advanced
  should_sample_advanced_mono adjusted low high key w named less taken = ground arith
