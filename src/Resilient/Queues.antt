-- ===== src/Resilient/Queues.antt =====
-- The dead letter queue in memory, as the interface that `ResilientTransport` asks for.
use logs_interceptor_python.Base.{
  length-map, ℕ, ◌+◌, ◌≡◌, sym, ◌∙◌, ap, min, List, ◌++◌, map, length, length-append, length-last_n,
  last_n, drop, String, arith,
}
use logs_interceptor_python.Dlq.{Added, make_item}
use logs_interceptor_python.Dlq.Memory.{
  MemoryDeadLetterQueue, IsBounded, add_batch, add_batch-window,
}
use logs_interceptor_python.Domain.{LogEntryEntity}
use logs_interceptor_python.Errors.{ok}
use logs_interceptor_python.Interfaces.{IDeadLetterQueue}

last_n-min : {A : Type 0} (n : ℕ) (xs : List A) → last_n (min n (length xs)) xs ≡ last_n n xs
unfolding last_n
last_n-min n xs = ap (λ k. drop k xs) (omega arith)

pub takes-window :
    (timestamp : ℕ) (entries : List LogEntryEntity) (reason : String) (d : MemoryDeadLetterQueue)
    → IsBounded d
    → let (r, d') = add_batch timestamp entries reason d in
      let items = d.queue ++ map (make_item timestamp reason) entries in
      ((a : Added) × (r ≡ ok a) × (length d'.queue + a.dropped ≡ length items))
      × (d'.queue ≡ last_n (length d'.queue) items)
      × IsBounded d'
takes-window timestamp entries reason d h =
    let d' = (add_batch timestamp entries reason d).1 in
    let new_items = map (make_item timestamp reason) entries in
    let items = d.queue ++ new_items in
    let (ran, window, _, h') = add_batch-window timestamp entries reason d h in
    let size : length d'.queue ≡ min d.max_size (length items) =
      ap length window ∙ length-last_n d.max_size items in
    let all = length-append d.queue new_items in
    let many : length new_items ≡ length entries =
      length-map (make_item timestamp reason) entries in
    (
      (_, ran, omega (arith, size, all, many)),
      window ∙ sym (last_n-min d.max_size items) ∙ ap (λ k. last_n k items) (sym size),
      h',
    )

abbrev pub memory_dlq : IDeadLetterQueue MemoryDeadLetterQueue
memory_dlq = record {
  add_batch = add_batch;
  held = λ d. d.queue;
  IsReady = IsBounded;
  takes = takes-window;
}
