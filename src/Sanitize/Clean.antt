-- ===== src/Sanitize/Clean.antt =====
-- `sanitize_data` comes to an end, and what it makes holds no text that it looks at and that is
-- sensitive.
use logs_interceptor_python.Base.{
  ℕ, ◌<◌, ◌≤◌, ◌≡◌, ◌≢◌, refl, ap, ◌∙◌, ◌⊎◌, String, Bool, true, false, some, List, [], ◌∷◌, ◌==◌,
  ℕ_comparable, if◌then◌else◌, Bool-cases, inl, inr, equal_numbers_iff, arith,
}
use logs_interceptor_python.Base.Dict.{Dict}
use logs_interceptor_python.Domain.{Value, null, boolean, number, str, ref}
use logs_interceptor_python.Sanitize.{
  Object, dict, list, other, Heap, Pass, Outcome, allocate, place, redacted, and_then, clean_text,
}
use logs_interceptor_python.Sanitize.Unseen.{unseen}

-- Every reference in an object leads to an object of the heap.
abbrev pub IsClosedValue : ℕ → Value → Type 0
IsClosedValue n (ref a) = a < n
IsClosedValue n null = Unit {0}
IsClosedValue n (boolean b) = Unit {0}
IsClosedValue n (number k) = Unit {0}
IsClosedValue n (str s) = Unit {0}

abbrev pub AllClosed : ℕ → List Value → Type 0
AllClosed n [] = Unit {0}
AllClosed n (v ∷ vs) = IsClosedValue n v × AllClosed n vs

abbrev pub AllClosedFields : ℕ → Dict String Value → Type 0
AllClosedFields n [] = Unit {0}
AllClosedFields n ((key, v) ∷ d) = IsClosedValue n v × AllClosedFields n d

abbrev pub IsClosedObject : ℕ → Object → Type 0
IsClosedObject n (dict d) = AllClosedFields n d
IsClosedObject n (list l) = AllClosed n l
IsClosedObject n other = Unit {0}

abbrev pub IsClosed : Heap → Type 0
IsClosed h = (a : ℕ) → a < h.next → IsClosedObject h.next (h.objects a)

abbrev pub NotDict : Object → Type 0
NotDict (dict d) = ⊥
NotDict (list l) = Unit {0}
NotDict other = Unit {0}

abbrev pub IsOther : Object → Type 0
IsOther (dict d) = ⊥
IsOther (list l) = ⊥
IsOther other = Unit {0}

unequal : (a b : ℕ) → a ≢ b → (a == b) ≡ false
unequal a b h = ground arith

pub apart : (a b : ℕ) → (a == b) ≡ false → a ≢ b
apart a b h e = cc (h, (equal_numbers_iff a b).1 e)

module _ (key_sensitive detect : String → Bool) (h : Heap) where
  -- A text that is passed on, or the mark.
  abbrev pub IsCleanText : String → Type 0
  IsCleanText s = (s ≡ redacted) ⊎ (detect s ≡ false)

  -- An item of a list made: no old dict.
  abbrev pub IsCleanItem : Value → Type 0
  IsCleanItem (str s) = IsCleanText s
  IsCleanItem (ref a) = (h.next ≤ a) ⊎ NotDict (h.objects a)
  IsCleanItem null = Unit {0}
  IsCleanItem (boolean b) = Unit {0}
  IsCleanItem (number n) = Unit {0}

  -- The value of a key that is not sensitive: no old dict and no old list.
  abbrev pub IsCleanValue : Value → Type 0
  IsCleanValue (str s) = IsCleanText s
  IsCleanValue (ref a) = (h.next ≤ a) ⊎ IsOther (h.objects a)
  IsCleanValue null = Unit {0}
  IsCleanValue (boolean b) = Unit {0}
  IsCleanValue (number n) = Unit {0}

  abbrev pub IsCleanField : Bool → Value → Type 0
  IsCleanField true v = v ≡ str redacted
  IsCleanField false v = IsCleanValue v

  abbrev pub AllCleanItems : List Value → Type 0
  AllCleanItems [] = Unit {0}
  AllCleanItems (v ∷ vs) = IsCleanItem v × AllCleanItems vs

  abbrev pub AllCleanFields : Dict String Value → Type 0
  AllCleanFields [] = Unit {0}
  AllCleanFields ((key, v) ∷ d) = IsCleanField (key_sensitive key) v × AllCleanFields d

  abbrev pub IsCleanObject : Object → Type 0
  IsCleanObject (dict d) = AllCleanFields d
  IsCleanObject (list l) = AllCleanItems l
  IsCleanObject other = Unit {0}

  -- The heap during a pass: the old objects are as they were, the new ones clean.
  pub record IsPass (p : Pass) : Type 0 where
    pub grown : h.next ≤ p.heap.next
    pub old : (a : ℕ) → a < h.next → p.heap.objects a ≡ h.objects a
    pub made : (a : ℕ) → h.next ≤ a → a < p.heap.next → IsCleanObject (p.heap.objects a)

  -- What a step of the pass leaves: a clean result, a heap as above, no address forgotten.
  abbrev pub Cleans : {A : Type 0} → (A → Type 0) → Pass → Outcome A → Type 0
  Cleans {A} IsGood p out =
      (a : A) × (p' : Pass) × (out ≡ some (a, p'))
      × IsGood a
      × IsPass p'
      × (unseen h.next p'.seen ≤ unseen h.next p.seen)

  pub clean_text-IsCleanText : (s : String) → IsCleanText (clean_text key_sensitive detect s)
  clean_text-IsCleanText s = judged (detect s) refl
    where
      judged : (b : Bool) → detect s ≡ b → IsCleanText (if b then redacted else s)
      judged true e = inl refl
      judged false e = inr e

  placed :
      (o : Object) (p : Pass)
      → IsPass p
      → IsCleanObject o
      → IsPass (record p { heap = (allocate o p.heap).1 })
  unfolding allocate
  placed o p h' clean = record {
    grown = omega (arith, h'.grown);
    old = λ a less.
        rw (unequal a p.heap.next (λ e. omega (arith, less, h'.grown, e))) (h'.old a less);
    made = λ a from less. elim (Bool-cases (a == p.heap.next)) [
      | inl e ↦ rw e clean
      | inr e ↦ rw e (h'.made a from (omega (arith, less, apart a p.heap.next e)))
    ];
  }

  pub place-Cleans :
      (o : Object) (p : Pass)
      → IsPass p
      → IsCleanObject o
      → Cleans (λ v. (a : ℕ) × (v ≡ ref a) × (h.next ≤ a)) p (place o p)
  unfolding place allocate
  place-Cleans o p h' clean =
      (ref p.heap.next, _, refl, (p.heap.next, refl, h'.grown), placed o p h' clean, omega arith)

  pub chain :
      {A B : Type 0} (G : A → Type 0) (G' : B → Type 0) (p : Pass) (out : Outcome A)
      (f : A → Pass → Outcome B)
      → Cleans G p out
      → ((a : A) (p' : Pass)
          → G a
          → IsPass p'
          → unseen h.next p'.seen ≤ unseen h.next p.seen
          → Cleans G' p' (f a p'))
      → Cleans G' p (and_then out f)
  chain G G' p out f (a, p1, ran, good, pass, fewer) rest =
      let (b, p2, ran2, good2, pass2, fewer2) = rest a p1 good pass fewer in
      (b, p2, ap (λ o. and_then o f) ran ∙ ran2, good2, pass2, omega (arith, fewer, fewer2))

  pub weaken :
      {A : Type 0} (G G' : A → Type 0) (p : Pass) (out : Outcome A)
      → ((a : A) → G a → G' a)
      → Cleans G p out
      → Cleans G' p out
  weaken G G' p out f (a, p1, ran, good, pass, fewer) = (a, p1, ran, f a good, pass, fewer)
