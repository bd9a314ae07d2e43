-- ===== src/Sanitize/Ends.antt =====
-- `sanitize_data` by recursion on the fuel: enough of it for the addresses not seen yet, and the
-- result is clean.
use mathlib.Core.Path.{subst}
use logs_interceptor_python.Base.{
  ℕ, zero, suc, ◌+◌, ◌<◌, ◌≤◌, ◌≡◌, refl, sym, String, Bool, true, false, some, List, [], ◌∷◌,
  if◌then◌else◌, Bool-cases, inl, inr, arith,
}
use logs_interceptor_python.Base.Dict.{Dict}
use logs_interceptor_python.Domain.{Value, null, boolean, number, str, ref}
use logs_interceptor_python.Sanitize.{
  Object, dict, list, other, Heap, Pass, Outcome, redacted, is_seen, fields_of, nested, item_object,
  item, items, field_object, field_value, field, fields, sanitize_data,
}
use logs_interceptor_python.Sanitize.Clean.{
  IsClosedValue, AllClosed, AllClosedFields, IsClosedObject, IsClosed, NotDict, IsOther,
  IsCleanItem, IsCleanValue, IsCleanField, AllCleanItems, AllCleanFields, IsPass, Cleans,
  clean_text-IsCleanText, place-Cleans, chain, weaken,
}
use logs_interceptor_python.Sanitize.Unseen.{unseen, unseen-le, unseen_fewer}

module _ (key_sensitive detect : String → Bool) (h : Heap) (closed : IsClosed h) where
  abbrev Clean : {A : Type 0} → (A → Type 0) → Pass → Outcome A → Type 0
  Clean = Cleans key_sensitive detect h

  abbrev Passes : Pass → Type 0
  Passes = IsPass key_sensitive detect h

  -- `sanitize_data` with enough fuel for every pass that has fewer than `n` addresses to see.
  abbrev Works : ℕ → (ℕ → Pass → Outcome (Dict String Value)) → Type 0
  Works n again =
      (a : ℕ) (p : Pass)
      → a < h.next
      → Passes p
      → unseen h.next p.seen < n
      → Clean (AllCleanFields key_sensitive detect h) p (again a p)

  module _ (n : ℕ) (again : ℕ → Pass → Outcome (Dict String Value)) (works : Works n again) where
    abbrev IsNew : Value → Type 0
    IsNew v = (a : ℕ) × (v ≡ ref a) × (h.next ≤ a)

    nested-IsNew :
        (a : ℕ) (p : Pass)
        → a < h.next
        → Passes p
        → unseen h.next p.seen < n
        → Clean IsNew p (nested key_sensitive detect again a p)
    nested-IsNew a p less pass fuel =
        chain key_sensitive detect h (AllCleanFields key_sensitive detect h) IsNew p (again a p) _
          (works a p less pass fuel)
          (λ d p' good pass' fewer. place-Cleans key_sensitive detect h (dict d) p' pass' good)

    new-item : (v : Value) → IsNew v → IsCleanItem key_sensitive detect h v
    new-item v (a, e, from) = subst (IsCleanItem key_sensitive detect h) (sym e) (inl from)

    new-value : (v : Value) → IsNew v → IsCleanValue key_sensitive detect h v
    new-value v (a, e, from) = subst (IsCleanValue key_sensitive detect h) (sym e) (inl from)

    item_object-Clean :
        (o : Object) (a : ℕ) (p : Pass)
        → h.objects a ≡ o
        → a < h.next
        → Passes p
        → unseen h.next p.seen < n
        → Clean
            (IsCleanItem key_sensitive detect h)
            p
            (item_object key_sensitive detect again o a p)
    item_object-Clean (dict d) a p e less pass fuel =
        weaken key_sensitive detect h IsNew _ p _ new-item (nested-IsNew a p less pass fuel)
    item_object-Clean (list l) a p e less pass fuel =
        (ref a, p, refl, inr (subst NotDict (sym e) tt), pass, omega arith)
    item_object-Clean other a p e less pass fuel =
        (ref a, p, refl, inr (subst NotDict (sym e) tt), pass, omega arith)

    item-Clean :
        (v : Value) (p : Pass)
        → IsClosedValue h.next v
        → Passes p
        → unseen h.next p.seen < n
        → Clean (IsCleanItem key_sensitive detect h) p (item key_sensitive detect again v p)
    unfolding item
    item-Clean (str s) p c pass fuel =
        (_, p, refl, clean_text-IsCleanText key_sensitive detect h s, pass, omega arith)
    item-Clean (ref a) p c pass fuel =
        subst
          (λ o.
            Clean (IsCleanItem key_sensitive detect h) p
              (item_object key_sensitive detect again o a p))
          (sym (pass.old a c)) (item_object-Clean (h.objects a) a p refl c pass fuel)
    item-Clean null p c pass fuel = (null, p, refl, tt, pass, omega arith)
    item-Clean (boolean b) p c pass fuel = (boolean b, p, refl, tt, pass, omega arith)
    item-Clean (number k) p c pass fuel = (number k, p, refl, tt, pass, omega arith)

    items-Clean :
        (vs : List Value) (p : Pass)
        → AllClosed h.next vs
        → Passes p
        → unseen h.next p.seen < n
        → Clean (AllCleanItems key_sensitive detect h) p (items key_sensitive detect again vs p)
    unfolding items
    items-Clean [] p c pass fuel = ([], p, refl, tt, pass, omega arith)
    items-Clean (v ∷ vs) p c pass fuel =
        chain key_sensitive detect h _ _ p (item key_sensitive detect again v p) _
          (item-Clean v p c.0 pass fuel)
          (λ v' p1 good pass1 fewer.
            chain key_sensitive detect h _ _ p1 (items key_sensitive detect again vs p1) _
              (items-Clean vs p1 c.1 pass1 (omega (arith, fewer, fuel)))
              (λ vs' p2 good' pass2 fewer'.
                (v' ∷ vs', p2, refl, (good, good'), pass2, omega arith)))

    field_object-Clean :
        (o : Object) (a : ℕ) (p : Pass)
        → h.objects a ≡ o
        → a < h.next
        → Passes p
        → unseen h.next p.seen < n
        → Clean
            (IsCleanValue key_sensitive detect h)
            p
            (field_object key_sensitive detect again o a p)
    field_object-Clean (dict d) a p e less pass fuel =
        weaken key_sensitive detect h IsNew _ p _ new-value (nested-IsNew a p less pass fuel)
    field_object-Clean (list l) a p e less pass fuel =
        weaken key_sensitive detect h IsNew _ p _ new-value (
          chain key_sensitive detect h _ IsNew p (items key_sensitive detect again l p) _
            (items-Clean l p (subst (IsClosedObject h.next) e (closed a less)) pass fuel)
            (λ l' p' good pass' fewer. place-Cleans key_sensitive detect h (list l') p' pass' good))
    field_object-Clean other a p e less pass fuel =
        (ref a, p, refl, inr (subst IsOther (sym e) tt), pass, omega arith)

    field_value-Clean :
        (v : Value) (p : Pass)
        → IsClosedValue h.next v
        → Passes p
        → unseen h.next p.seen < n
        → Clean (IsCleanValue key_sensitive detect h) p (field_value key_sensitive detect again v p)
    unfolding field_value
    field_value-Clean (str s) p c pass fuel =
        (_, p, refl, clean_text-IsCleanText key_sensitive detect h s, pass, omega arith)
    field_value-Clean (ref a) p c pass fuel =
        subst
          (λ o.
            Clean (IsCleanValue key_sensitive detect h) p
              (field_object key_sensitive detect again o a p))
          (sym (pass.old a c)) (field_object-Clean (h.objects a) a p refl c pass fuel)
    field_value-Clean null p c pass fuel = (null, p, refl, tt, pass, omega arith)
    field_value-Clean (boolean b) p c pass fuel = (boolean b, p, refl, tt, pass, omega arith)
    field_value-Clean (number k) p c pass fuel = (number k, p, refl, tt, pass, omega arith)

    -- `b` says whether the key is sensitive.
    field_if-Clean :
        (b : Bool) (v : Value) (p : Pass)
        → IsClosedValue h.next v
        → Passes p
        → unseen h.next p.seen < n
        → Clean
            (IsCleanField key_sensitive detect h b)
            p
            (if b then some (str redacted, p) else field_value key_sensitive detect again v p)
    field_if-Clean true v p c pass fuel = (str redacted, p, refl, refl, pass, omega arith)
    field_if-Clean false v p c pass fuel = field_value-Clean v p c pass fuel

    fields-Clean :
        (d : Dict String Value) (p : Pass)
        → AllClosedFields h.next d
        → Passes p
        → unseen h.next p.seen < n
        → Clean (AllCleanFields key_sensitive detect h) p (fields key_sensitive detect again d p)
    unfolding fields field
    fields-Clean [] p c pass fuel = ([], p, refl, tt, pass, omega arith)
    fields-Clean ((key, v) ∷ d) p c pass fuel =
        chain key_sensitive detect h _ _ p (field key_sensitive detect again key v p) _
          (field_if-Clean (key_sensitive key) v p c.0 pass fuel)
          (λ v' p1 good pass1 fewer.
            chain key_sensitive detect h _ _ p1 (fields key_sensitive detect again d p1) _
              (fields-Clean d p1 c.1 pass1 (omega (arith, fewer, fuel)))
              (λ d' p2 good' pass2 fewer'.
                ((key, v') ∷ d', p2, refl, (good, good'), pass2, omega arith)))

  closed_fields : (o : Object) → IsClosedObject h.next o → AllClosedFields h.next (fields_of o)
  closed_fields (dict d) c = c
  closed_fields (list l) c = tt
  closed_fields other c = tt

  circular_mark : (b : Bool) → IsCleanField key_sensitive detect h b (str redacted)
  circular_mark true = refl
  circular_mark false = inl refl

  sanitize_data-Works : (n : ℕ) → Works n (sanitize_data key_sensitive detect n)
  unfolding sanitize_data
  sanitize_data-Works zero a p less pass fuel = absurd (omega (arith, fuel))
  sanitize_data-Works (suc n) a p less pass fuel =
      let p1 = record p { seen = a ∷ p.seen } in
      let pass1 : Passes p1 = record { grown = pass.grown; old = pass.old; made = pass.made } in
      let c =
        closed_fields (p.heap.objects a)
          (subst (IsClosedObject h.next) (sym (pass.old a less)) (closed a less)) in
      elim (Bool-cases (is_seen a p.seen)) [
        | inl again ↦
            rw again
              (_, p, refl, (circular_mark (key_sensitive "_circular"), tt), pass, omega arith)
        | inr first ↦
            let seen_more = unseen_fewer h.next a p.seen less first in
            let (d, p2, ran, good, pass2, fewer) =
              fields-Clean n (sanitize_data key_sensitive detect n) (sanitize_data-Works n)
                (fields_of (p.heap.objects a)) p1 c pass1 (omega (arith, seen_more, fuel)) in
            rw first (d, p2, ran, good, pass2, omega (arith, fewer, seen_more))
      ]

  -- On a heap whose references lead into it, circles included, `sanitize_data` of a dict ends with
  -- nested calls no deeper than the number of objects and one more: every field with a sensitive
  -- key holds the mark, every other text that it looks at is the mark or not sensitive, no dict is
  -- passed on and no list outside another list, the objects made are clean and the old ones as
  -- they were.
  pub sanitize_data-IsClean :
      (a : ℕ)
      → a < h.next
      → let p : Pass = record { seen = []; heap = h } in
        (d : Dict String Value) × (p' : Pass) × (sanitize_data key_sensitive detect (h.next + 1) a p
          ≡ some (d, p'))
        × AllCleanFields key_sensitive detect h d
        × IsPass key_sensitive detect h p'
  sanitize_data-IsClean a less =
      let p : Pass = record { seen = []; heap = h } in
      let pass : Passes p = record {
        grown = omega arith;
        old = λ b k. refl;
        made = λ b from k. absurd (omega (arith, from, k));
      } in
      let (d, p', ran, good, pass', _) =
        sanitize_data-Works (h.next + 1) a p less pass (omega (arith, unseen-le h.next [])) in
      (d, p', ran, good, pass')
