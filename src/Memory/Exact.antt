-- ===== src/Memory/Exact.antt =====
-- What a `MemoryTracker` knows: the sizes of just the entries that were added and not removed.
use logs_interceptor_python.Base.{
  ℕ, ◌+◌, ◌≡◌, ◌≢◌, refl, ap, ◌∙◌, List, [], ◌∷◌, ◌++◌, map, length, ℕ_comparable,
  equal_numbers_iff, arith,
}
use logs_interceptor_python.Base.Dict.{Dict, insert}
use logs_interceptor_python.Domain.{LogEntryEntity}
use logs_interceptor_python.Memory.{MemoryTracker, new, reset, estimate_size, add_entry}

abbrev pub sum_sizes : Dict ℕ ℕ → ℕ
sum_sizes [] = 0
sum_sizes (x ∷ d) = x.1 + sum_sizes d

-- No entry of the list is at the address.
abbrev pub IsFreshIn : ℕ → List LogEntryEntity → Type 0
IsFreshIn a [] = Unit {0}
IsFreshIn a (e ∷ es) = (e.address ≢ a) × IsFreshIn a es

-- The entries of the list are different objects.
abbrev pub AreDistinct : List LogEntryEntity → Type 0
AreDistinct [] = Unit {0}
AreDistinct (e ∷ es) = IsFreshIn e.address es × AreDistinct es

abbrev pub sized : LogEntryEntity → ℕ × ℕ
sized e = (e.address, estimate_size e)

-- The tracker is exact for the entries: their sizes, in order, the sum of these and their number.
pub record Tracks (t : MemoryTracker) (es : List LogEntryEntity) : Type 0 where
  pub sizes : t.entry_sizes ≡ map sized es
  pub total : t.total_size ≡ sum_sizes (map sized es)
  pub count : t.entry_count ≡ length es

pub new-Tracks : Tracks new []
new-Tracks = record { sizes = refl; total = refl; count = refl }

pub reset-Tracks : (t : MemoryTracker) → Tracks (reset t) []
unfolding reset
reset-Tracks t = record { sizes = refl; total = refl; count = refl }

insert_fresh :
    (e : LogEntryEntity) (es : List LogEntryEntity)
    → IsFreshIn e.address es
    → insert e.address (estimate_size e) (map sized es) ≡ map sized (es ++ e ∷ [])
unfolding insert
insert_fresh e [] h = refl
insert_fresh e (x ∷ es) h =
    ground (arith, equal_numbers_iff x.address e.address, insert_fresh e es h.1)

sum_snoc :
    (e : LogEntryEntity) (es : List LogEntryEntity)
    → sum_sizes (map sized (es ++ e ∷ [])) ≡ sum_sizes (map sized es) + estimate_size e
sum_snoc e [] = omega arith
sum_snoc e (x ∷ es) = omega (arith, sum_snoc e es)

length_snoc : {A : Type 0} (x : A) (l : List A) → length (l ++ x ∷ []) ≡ length l + 1
length_snoc x [] = omega arith
length_snoc x (y ∷ l) = omega (arith, length_snoc x l)

-- Adding an object that is not there yet keeps the tracker exact.
pub add_entry-Tracks :
    (e : LogEntryEntity) (t : MemoryTracker) (es : List LogEntryEntity)
    → IsFreshIn e.address es
    → Tracks t es
    → Tracks (add_entry e t) (es ++ e ∷ [])
unfolding add_entry
add_entry-Tracks e t es f h = record {
  sizes = ap (insert e.address (estimate_size e)) h.sizes ∙ insert_fresh e es f;
  total = omega (arith, h.total, sum_snoc e es);
  count = omega (arith, h.count, length_snoc e es);
}
