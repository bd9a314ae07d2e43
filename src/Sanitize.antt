-- ===== src/Sanitize.antt =====
-- src/logs_interceptor/utils.py: `sanitize_data`. A dict or list lies in a heap, so that objects may
-- be shared and refer to each other in circles. The regular expressions are two tests: that one of
-- the sensitive patterns is found in a key, and `detect_sensitive_data` of a text.
pub mod Unseen
pub mod Clean
pub mod Ends
mod Examples
use logs_interceptor_python.Base.{
  ℕ, zero, suc, ◌+◌, String, Bool, true, false, ◌||◌, Option, none, some, List, [], ◌∷◌, ◌==◌,
  ℕ_comparable, if◌then◌else◌,
}
use logs_interceptor_python.Base.Dict.{Dict}
use logs_interceptor_python.Domain.{Value, null, boolean, number, str, ref}

-- What lies at an address: a dict, a list, or an object that is neither.
pub data Object : Type 0 where
  dict : Dict String Value → Object
  list : List Value → Object
  other : Object

-- The objects up to the address `next`, where the next one is made.
pub record Heap : Type 0 where
  pub objects : ℕ → Object
  pub next : ℕ

unfoldable pub allocate : Object → Heap → ℕ × Heap
allocate o h =
    (h.next, record { objects = λ a. if a == h.next then o else h.objects a; next = h.next + 1 })

-- `seen`, and the heap
pub record Pass : Type 0 where
  pub seen : List ℕ
  pub heap : Heap

abbrev pub redacted : String
redacted = "[REDACTED]"

unfoldable pub is_seen : ℕ → List ℕ → Bool
is_seen a [] = false
is_seen a (b ∷ seen) = a == b || is_seen a seen

-- A result, unless the fuel is used up.
abbrev pub Outcome : Type 0 → Type 0
Outcome A = Option (A × Pass)

abbrev pub and_then : {A B : Type 0} → Outcome A → (A → Pass → Outcome B) → Outcome B
and_then none f = none
and_then (some (a, p)) f = f a p

-- the new object at a new address
unfoldable pub place : Object → Pass → Outcome Value
unfolding allocate
place o p = let (a, h) = allocate o p.heap in some (ref a, record p { heap = h })

abbrev pub fields_of : Object → Dict String Value
fields_of (dict d) = d
fields_of (list l) = []
fields_of other = []

module _ (key_sensitive detect : String → Bool) where
  abbrev pub clean_text : String → String
  clean_text s = if detect s then redacted else s

  -- `again` is `sanitize_data` with less fuel.
  module _ (again : ℕ → Pass → Outcome (Dict String Value)) where
    abbrev pub nested : ℕ → Pass → Outcome Value
    nested a p = and_then (again a p) (λ d p'. place (dict d) p')

    abbrev pub item_object : Object → ℕ → Pass → Outcome Value
    item_object (dict d) a p = nested a p
    item_object (list l) a p = some (ref a, p)
    item_object other a p = some (ref a, p)

    -- an item of a list
    unfoldable pub item : Value → Pass → Outcome Value
    item (str s) p = some (str (clean_text s), p)
    item (ref a) p = item_object (p.heap.objects a) a p
    item null p = some (null, p)
    item (boolean b) p = some (boolean b, p)
    item (number n) p = some (number n, p)

    unfoldable pub items : List Value → Pass → Outcome (List Value)
    unfolding item
    items [] p = some ([], p)
    items (v ∷ vs) p =
        and_then (item v p) (λ v' p1. and_then (items vs p1) (λ vs' p2. some (v' ∷ vs', p2)))

    abbrev pub field_object : Object → ℕ → Pass → Outcome Value
    field_object (dict d) a p = nested a p
    field_object (list l) a p = and_then (items l p) (λ l' p'. place (list l') p')
    field_object other a p = some (ref a, p)

    -- the value of a key that is not sensitive
    unfoldable pub field_value : Value → Pass → Outcome Value
    field_value (str s) p = some (str (clean_text s), p)
    field_value (ref a) p = field_object (p.heap.objects a) a p
    field_value null p = some (null, p)
    field_value (boolean b) p = some (boolean b, p)
    field_value (number n) p = some (number n, p)

    unfoldable pub field : String → Value → Pass → Outcome Value
    field key v p = if key_sensitive key then some (str redacted, p) else field_value v p

    unfoldable pub fields : Dict String Value → Pass → Outcome (Dict String Value)
    fields [] p = some ([], p)
    fields ((key, v) ∷ d) p =
        and_then (field key v p)
          (λ v' p1. and_then (fields d p1) (λ d' p2. some ((key, v') ∷ d', p2)))

  -- `sanitize_data` of the dict at an address
  unfoldable pub sanitize_data : ℕ → ℕ → Pass → Outcome (Dict String Value)
  sanitize_data zero a p = none
  sanitize_data (suc fuel) a p =
      if is_seen a p.seen
      then some (("_circular", str redacted) ∷ [], p)
      else fields (sanitize_data fuel) (fields_of (p.heap.objects a))
          (record p { seen = a ∷ p.seen })
