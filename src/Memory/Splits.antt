-- ===== src/Memory/Splits.antt =====
-- A `MemoryTracker` when entries leave: taking out any of the tracked objects, wherever they
-- stand, leaves it exact for those that stay.
use mathlib.Core.List.Sublist
use mathlib.Core.List.{Sublist}
use logs_interceptor_python.Base.{
  ℕ, zero, suc, ◌+◌, ◌≡◌, refl, ap, sym, ◌∙◌, none, some, List, [], ◌∷◌, map, length, take, drop,
  ℕ_comparable, equal_numbers_iff, Option-cases, inl, inr, arith,
}
use logs_interceptor_python.Base.Dict.{Dict, lookup, erase}
use logs_interceptor_python.Domain.{LogEntryEntity}
use logs_interceptor_python.Memory.{MemoryTracker, estimate_size, remove_entry, remove_entries}
use logs_interceptor_python.Memory.Exact.{sum_sizes, IsFreshIn, AreDistinct, sized, Tracks}

-- The list is made of the entries kept and the entries removed, each in order.
pub data Splits : List LogEntryEntity → List LogEntryEntity → List LogEntryEntity → Type 0 where
  done : Splits [] [] []
  keep :
      (e : LogEntryEntity) {es k r : List LogEntryEntity}
      → Splits es k r
      → Splits (e ∷ es) (e ∷ k) r
  lose :
      (e : LogEntryEntity) {es k r : List LogEntryEntity}
      → Splits es k r
      → Splits (e ∷ es) k (e ∷ r)

pub keep_all : (es : List LogEntryEntity) → Splits es es []
keep_all [] = done
keep_all (e ∷ es) = keep e (keep_all es)

pub drop-Splits : (n : ℕ) (es : List LogEntryEntity) → Splits es (drop n es) (take n es)
drop-Splits zero es = keep_all es
drop-Splits (suc n) [] = done
drop-Splits (suc n) (e ∷ es) = lose e (drop-Splits n es)

pub Splits-length : {es k r : List LogEntryEntity} → Splits es k r → length k + length r ≡ length es
Splits-length done = refl
Splits-length (keep e s) = omega (arith, Splits-length s)
Splits-length (lose e s) = omega (arith, Splits-length s)

pub Splits-sublist : {es k r : List LogEntryEntity} → Splits es k r → Sublist k es
Splits-sublist done = Sublist.refl []
Splits-sublist (keep e s) = Sublist.cons-cons e (Splits-sublist s)
Splits-sublist (lose e s) = Sublist.cons e (Splits-sublist s)

pub IsFreshIn-Splits :
    (a : ℕ) {es k r : List LogEntryEntity}
    → Splits es k r
    → IsFreshIn a es
    → IsFreshIn a k × IsFreshIn a r
IsFreshIn-Splits a done h = (tt, tt)
IsFreshIn-Splits a (keep e s) h = let (p, q) = IsFreshIn-Splits a s h.1 in ((h.0, p), q)
IsFreshIn-Splits a (lose e s) h = let (p, q) = IsFreshIn-Splits a s h.1 in (p, (h.0, q))

pub AreDistinct-Splits :
    {es k r : List LogEntryEntity} → Splits es k r → AreDistinct es → AreDistinct k
AreDistinct-Splits done h = tt
AreDistinct-Splits (keep e s) h = ((IsFreshIn-Splits e.address s h.0).0, AreDistinct-Splits s h.1)
AreDistinct-Splits (lose e s) h = AreDistinct-Splits s h.1

erase_all : List LogEntryEntity → Dict ℕ ℕ → Dict ℕ ℕ
erase_all [] d = d
erase_all (e ∷ es) d = erase_all es (erase e.address d)

erase_all_skip :
    (a v : ℕ) (r : List LogEntryEntity) (d : Dict ℕ ℕ)
    → IsFreshIn a r
    → erase_all r ((a, v) ∷ d) ≡ (a, v) ∷ erase_all r d
unfolding erase_all erase
erase_all_skip a v [] d h = refl
erase_all_skip a v (e ∷ r) d h =
    ground (arith, equal_numbers_iff a e.address, erase_all_skip a v r (erase e.address d) h.1)

erase_all-Splits :
    {es k r : List LogEntryEntity}
    → Splits es k r
    → AreDistinct es
    → erase_all r (map sized es) ≡ map sized k
unfolding erase_all erase
erase_all-Splits done h = refl
erase_all-Splits (keep e {es} {r = r} s) h =
    erase_all_skip e.address (estimate_size e) r (map sized es) (IsFreshIn-Splits e.address s h.0).1
    ∙ ap (◌∷◌ (sized e)) (erase_all-Splits s h.1)
erase_all-Splits (lose e s) h =
    ground (arith, equal_numbers_iff e.address e.address, erase_all-Splits s h.1)

erase_absent : (k : ℕ) (d : Dict ℕ ℕ) → lookup k d ≡ none → erase k d ≡ d
unfolding lookup erase
erase_absent k [] h = refl
erase_absent k (x ∷ d) h = ground (arith, erase_absent k d)

erase_present :
    (k : ℕ) (d : Dict ℕ ℕ) (v : ℕ)
    → lookup k d ≡ some v
    → (sum_sizes (erase k d) + v ≡ sum_sizes d) × (length (erase k d) + 1 ≡ length d)
unfolding lookup erase
erase_present k [] v h = cc
erase_present k (x ∷ d) v h = ground (arith, erase_present k d v)

-- The totals are those of the dict.
record IsExact (t : MemoryTracker) : Type 0 where
  total : t.total_size ≡ sum_sizes t.entry_sizes
  count : t.entry_count ≡ length t.entry_sizes

remove_entry-IsExact :
    (e : LogEntryEntity) (t : MemoryTracker)
    → IsExact t
    → IsExact (remove_entry e t) × ((remove_entry e t).entry_sizes ≡ erase e.address t.entry_sizes)
unfolding remove_entry
remove_entry-IsExact e t h = elim (Option-cases (lookup e.address t.entry_sizes)) [
  | inl missing ↦ ground (arith, erase_absent e.address t.entry_sizes missing)
  | inr (v, found) ↦ ground (arith, erase_present e.address t.entry_sizes v found)
]

remove_entries-IsExact :
    (r : List LogEntryEntity) (t : MemoryTracker)
    → IsExact t
    → IsExact (remove_entries r t) × ((remove_entries r t).entry_sizes ≡ erase_all r t.entry_sizes)
unfolding remove_entries erase_all
remove_entries-IsExact [] t h = (h, refl)
remove_entries-IsExact (e ∷ r) t h =
    let (exact, sizes) = remove_entry-IsExact e t h in
    let (exact', sizes') = remove_entries-IsExact r (remove_entry e t) exact in
    (exact', sizes' ∙ ap (erase_all r) sizes)

-- Removing some of the tracked entries leaves the tracker exact for those that are kept.
pub remove_entries-Tracks :
    (t : MemoryTracker) {es k r : List LogEntryEntity}
    → AreDistinct es
    → Splits es k r
    → Tracks t es
    → Tracks (remove_entries r t) k
remove_entries-Tracks t {es} {k} {r} d s h =
    let exact : IsExact t = record {
      total = h.total ∙ ap sum_sizes (sym h.sizes);
      count = omega (arith, h.count, ap length h.sizes, length_sized es);
    } in
    let (exact', sizes) = remove_entries-IsExact r t exact in
    let same = sizes ∙ ap (erase_all r) h.sizes ∙ erase_all-Splits s d in
    record {
      sizes = same;
      total = exact'.total ∙ ap sum_sizes same;
      count = exact'.count ∙ ap length same ∙ length_sized k;
    }
  where
    length_sized : (l : List LogEntryEntity) → length (map sized l) ≡ length l
    length_sized [] = refl
    length_sized (x ∷ l) = ap suc (length_sized l)
