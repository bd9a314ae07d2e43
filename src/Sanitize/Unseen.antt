-- ===== src/Sanitize/Unseen.antt =====
-- How many addresses `sanitize_data` has not seen yet.
use logs_interceptor_python.Base.{
  ℕ, zero, suc, ◌+◌, ◌<◌, ◌≤◌, ◌≡◌, ◌≢◌, ap, ◌∙◌, false, List, ◌∷◌, ◌==◌, ℕ_comparable,
  if◌then◌else◌, Bool-cases, inl, inr, equal_numbers_iff, arith,
}
use logs_interceptor_python.Sanitize.{is_seen}

-- The number of addresses below a bound that were not seen.
unfoldable pub unseen : ℕ → List ℕ → ℕ
unseen zero seen = 0
unseen (suc n) seen = let rest = unseen n seen in if is_seen n seen then rest else rest + 1

pub unseen-le : (n : ℕ) (seen : List ℕ) → unseen n seen ≤ n
unfolding unseen
unseen-le zero seen = omega arith
unseen-le (suc n) seen = ground (arith, unseen-le n seen)

unseen_more : (n a : ℕ) (seen : List ℕ) → unseen n (a ∷ seen) ≤ unseen n seen
unfolding unseen is_seen
unseen_more zero a seen = omega arith
unseen_more (suc n) a seen = ground (arith, unseen_more n a seen)

pub unseen_fewer :
    (n a : ℕ) (seen : List ℕ)
    → a < n
    → is_seen a seen ≡ false
    → unseen n (a ∷ seen) + 1 ≤ unseen n seen
unfolding unseen is_seen
unseen_fewer zero a seen h e = absurd (omega (arith, h))
unseen_fewer (suc n) a seen h e = elim (Bool-cases (n == a)) [
  | inl same ↦
      let same' = (equal_numbers_iff n a).0 same in
      let new_one : is_seen n seen ≡ false = ap (λ i. is_seen i seen) same' ∙ e in
      ground (arith, same, new_one, unseen_more n a seen)
  | inr different ↦
      let apart : n ≢ a = λ same. cc (different, (equal_numbers_iff n a).1 same) in
      let below : a < n = omega (arith, h, apart) in
      ground (arith, different, unseen_fewer n a seen below e)
]
