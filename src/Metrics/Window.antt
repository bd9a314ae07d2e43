-- ===== src/Metrics/Window.antt =====
-- The samples that a collector keeps.
use mathlib.Core.List.{append-nil, append_assoc}
use logs_interceptor_python.Base.{
  ℕ, ◌≤◌, ◌≡◌, ap, sym, ◌∙◌, List, [], ◌∷◌, ◌++◌, map, length, last_n, arith, length-append,
  length-last_n, last_n_of_length-le, last_n-append-last_n,
}
use logs_interceptor_python.Metrics.{MetricsCollector, new, append_sample, record_latency}

-- One more sample: the newest of the old ones and it.
append_sample-last_n :
    {F : Type 0} (n : ℕ) (x : F) (xs : List F)
    → length xs ≤ n
    → append_sample n x xs ≡ last_n n (xs ++ x ∷ [])
unfolding append_sample last_n
append_sample-last_n n x xs h = ground (arith, length-append xs (x ∷ []))

-- The collector after a number of latencies, each with the time at which it was recorded.
abbrev pub record_latencies :
    {F : Type 0} → ℕ → List (F × F) → MetricsCollector F → MetricsCollector F
record_latencies n [] m = m
record_latencies n ((ms, now) ∷ calls) m = record_latencies n calls (record_latency n ms now m)

last_nil : {F : Type 0} (n : ℕ) → [] ≡ last_n {A = F} n []
last_nil n = sym (last_n_of_length-le n [] (omega arith))

append_sample_again :
    {F : Type 0} (n : ℕ) (x : F) (past xs : List F)
    → xs ≡ last_n n past
    → append_sample n x xs ≡ last_n n (past ++ x ∷ [])
append_sample_again n x past xs e =
    append_sample-last_n n x xs (omega (arith, ap length e, length-last_n n past))
    ∙ ap (λ ys. last_n n (ys ++ x ∷ [])) e
    ∙ last_n-append-last_n n past (x ∷ [])

record_latencies_after :
    {F : Type 0} (n : ℕ) (calls : List (F × F)) (past times : List F) (m : MetricsCollector F)
    → m.latencies ≡ last_n n past
    → m.operation_timestamps ≡ last_n n times
    → let m' = record_latencies n calls m in
      (m'.latencies ≡ last_n n (past ++ map (λ c. c.0) calls))
      × (m'.operation_timestamps ≡ last_n n (times ++ map (λ c. c.1) calls))
unfolding record_latency
record_latencies_after n [] past times m e f = simp append-nil (e, f)
record_latencies_after n ((ms, now) ∷ calls) past times m e f =
    let (first, second) =
      record_latencies_after n calls (past ++ ms ∷ []) (times ++ now ∷ [])
        (record_latency n ms now m) (append_sample_again n ms past m.latencies e)
        (append_sample_again n now times m.operation_timestamps f) in
    (
      first ∙ ap (last_n n) (append_assoc past (ms ∷ []) (map (λ c. c.0) calls)),
      second ∙ ap (last_n n) (append_assoc times (now ∷ []) (map (λ c. c.1) calls)),
    )

-- The collector keeps the newest `max_samples` of the latencies recorded, and of their times.
pub record_latencies-window :
    {F : Type 0} (n : ℕ) (calls : List (F × F))
    → let m = record_latencies n calls new in
      (m.latencies ≡ last_n n (map (λ c. c.0) calls))
      × (m.operation_timestamps ≡ last_n n (map (λ c. c.1) calls))
unfolding new
record_latencies-window n calls = record_latencies_after n calls [] [] new (last_nil n) (last_nil n)
