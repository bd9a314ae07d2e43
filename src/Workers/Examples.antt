-- ===== src/Workers/Examples.antt =====
-- Two tasks of a pool with one worker that is destroyed, and the theorem at it.
use logs_interceptor_python.Base.{◌+◌, ◌≡◌, refl, [], length}
use logs_interceptor_python.Workers.{Pool, new, execute, returned, begin, destroy, get_metrics}
use logs_interceptor_python.Workers.Queue.{
  finish, Reach, start, executes, begins, returns, destroys, Reach-queue_length,
}

abbrev busy : Pool
unfolding execute begin
busy = begin (execute 8 (execute 7 new).1).1

abbrev destroyed : Pool
unfolding destroy
destroyed = finish returned [] (destroy busy)

abbrev late : Pool
unfolding execute
late = (execute 9 destroyed).1

late-Reach : Reach 2 late
unfolding busy destroyed late execute begin destroy
late-Reach = executes 9 1 destroyed (
    returns 1 (destroy busy) [] [] 7 refl
      (destroys 0 busy (begins 0 _ (executes 8 0 _ (executes 7 0 new start)))))

Reach-queue_length_example :
    let m = get_metrics late.counts in
    (m.total_tasks ≡ m.completed_tasks + m.failed_tasks + m.queue_length)
    × (m.queue_length ≡ length late.executor.waiting + length late.executor.running + 2)
Reach-queue_length_example = Reach-queue_length 2 late late-Reach
