-- ===== src/Dlq/Window.antt =====
-- The loop of `add_batch` keeps the newest entries and counts the others.
use mathlib.Core.List.{append_assoc, append-nil}
use logs_interceptor_python.Base.{
  ℕ, ◌+◌, ◌-◌, ◌≤◌, ◌<◌, ◌≡◌, refl, sym, ◌∙◌, ap, true, some, List, [], ◌∷◌, ◌++◌, length,
  length-append, last_n, last_n_of_length-le, last_n-append-last_n, min, length-last_n, arith,
}
use logs_interceptor_python.Dlq.{DlqEntry, Queue, push_one, push_all}

-- One more item on a full queue of one item or more.
last_n_full :
    {A : Type 0} (n : ℕ) (x y : A) (rest : List A)
    → length (x ∷ rest) ≡ n
    → last_n n ((x ∷ rest) ++ y ∷ []) ≡ rest ++ y ∷ []
unfolding last_n
last_n_full n x y rest full =
    let e : length ((x ∷ rest) ++ y ∷ []) - n ≡ 1 = omega (arith, length-append rest (y ∷ [])) in
    rw e

-- The queue after the loop: the newest `max_size` of what was there and the batch.
abbrev pub Windowed : ℕ → List DlqEntry → Queue → Queue → Type 0
Windowed max_size items q r =
    let excess = length q.queue + length items - max_size in
    (r.queue ≡ last_n max_size (q.queue ++ items))
    × (r.dropped_entries ≡ q.dropped_entries + excess)
    × (r.dropped ≡ q.dropped + excess)

-- The queue after one round.
abbrev pushed : ℕ → DlqEntry → Queue → Queue
pushed n item q =
    let excess = length q.queue + 1 - n in
    record {
      queue = last_n n (q.queue ++ item ∷ []);
      dropped_entries = q.dropped_entries + excess;
      dropped = q.dropped + excess;
    }

push_one_at :
    (n : ℕ) (item : DlqEntry) (l : List DlqEntry) (d e : ℕ)
    → 0 < n
    → length l ≤ n
    → let q : Queue = record { queue = l; dropped_entries = d; dropped = e } in
      push_one n item q ≡ some (pushed n item q)
unfolding push_one
push_one_at n item [] d e room small = ground (arith, last_n_of_length-le n (item ∷ []))
push_one_at n item (x ∷ rest) d e room small = ground (
  arith,
  last_n_full n x item rest,
  last_n_of_length-le n ((x ∷ rest) ++ item ∷ []),
  length-append rest (item ∷ []),
)

-- With room for at least one item, the loop never raises.
pub push_all-Windowed :
    (max_size : ℕ) (items : List DlqEntry) (q : Queue)
    → 0 < max_size
    → length q.queue ≤ max_size
    → ((push_all max_size items q).0 ≡ true)
      × Windowed max_size items q (push_all max_size items q).1
unfolding push_all
push_all-Windowed n [] q room small =
    (refl, (rw append-nil (sym (last_n_of_length-le n q.queue small)), omega arith, omega arith))
push_all-Windowed n (item ∷ items) q room small =
    let r = pushed n item q in
    let size : length r.queue ≡ min n (length q.queue + 1) =
      length-last_n n (q.queue ++ item ∷ []) ∙ ap (min n) (length-append q.queue (item ∷ [])) in
    let (ran, (window, total, local)) = push_all-Windowed n items r room (omega (arith, size)) in
    rw (push_one_at n item q.queue q.dropped_entries q.dropped room small, push_all)
      (
        ran,
        (
          window
              ∙ last_n-append-last_n n (q.queue ++ item ∷ []) items
              ∙ ap (last_n n) (append_assoc q.queue (item ∷ []) items),
          omega (arith, total, size),
          omega (arith, local, size),
        ),
      )
