-- ===== src/Sanitize/Examples.antt =====
-- A dict that holds itself, and the theorem at it.
use logs_interceptor_python.Base.{
  ℕ, ◌≡◌, String, Bool, true, false, some, [], ◌∷◌, ◌==◌, ℕ_comparable, String_comparable,
  if◌then◌else◌, arith,
}
use logs_interceptor_python.Base.Dict.{Dict}
use logs_interceptor_python.Domain.{Value, str, ref, number}
use logs_interceptor_python.Sanitize.{Object, dict, list, Heap, Pass, sanitize_data}
use logs_interceptor_python.Sanitize.Clean.{AllCleanFields, IsPass, IsClosed, IsClosedObject}
use logs_interceptor_python.Sanitize.Ends.{sanitize_data-IsClean}

abbrev key_sensitive : String → Bool
key_sensitive key = key == "password"

abbrev detect : String → Bool
detect s = s == "a@b.io"

abbrev circle : Object
circle =
    dict (("password", number 7) ∷ ("mail", str "a@b.io") ∷ ("self", ref 0) ∷ ("all", ref 1) ∷ [])

abbrev object_at : ℕ → Object
object_at a = if a == 0 then circle else list (str "a@b.io" ∷ ref 0 ∷ [])

abbrev heap : Heap
heap = record { objects = object_at; next = 2 }

object_at-IsClosed : (a : ℕ) → IsClosedObject 2 (object_at a)
object_at-IsClosed a = closed_if (a == 0)
  where
    closed_if :
        (b : Bool) → IsClosedObject 2 (if b then circle else list (str "a@b.io" ∷ ref 0 ∷ []))
    closed_if true = (tt, (tt, (omega arith, (omega arith, tt))))
    closed_if false = (tt, (omega arith, tt))

heap-IsClosed : IsClosed heap
heap-IsClosed a less = object_at-IsClosed a

sanitize_data-IsClean_example :
    (d : Dict String Value) × (p' : Pass) × (sanitize_data key_sensitive detect 3 0
        (record { seen = []; heap = heap })
      ≡ some (d, p'))
    × AllCleanFields key_sensitive detect heap d
    × IsPass key_sensitive detect heap p'
sanitize_data-IsClean_example =
    sanitize_data-IsClean key_sensitive detect heap heap-IsClosed 0 (omega arith)
