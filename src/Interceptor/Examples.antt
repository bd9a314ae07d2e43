-- ===== src/Interceptor/Examples.antt =====
-- A process with a handler of its own, and the theorems at it.
use logs_interceptor_python.Base.{◌≡◌, refl, String_comparable, true, false, [], ◌∷◌}
use logs_interceptor_python.Interceptor.{
  Function, Handler, Process, new, has_bridge, enable, restore, lowered_level,
}
use logs_interceptor_python.Interceptor.Restore.{SameHooks, enable-restores}

abbrev process : Process
process = record {
  print = Function.other 0;
  excepthook = Function.other 1;
  handlers = Handler.other 2 ∷ [];
  level = 30;
}

-- The level of the root logger is not set back.
level_lowered :
    (restore
      (enable (new 0 true process) process).0
      (enable (new 0 true process) process).1).1.level
    ≡ 10
unfolding restore enable new
level_lowered = refl

no_bridge : has_bridge 7 process.handlers ≡ false
unfolding has_bridge
no_bridge = refl

enable-restores_example :
    SameHooks
      (restore (enable (new 7 true process) process).0 (enable (new 7 true process) process).1).1
      process
    × ((restore
          (enable (new 7 true process) process).0
          (enable (new 7 true process) process).1).1.level
        ≡ lowered_level process.level)
enable-restores_example = enable-restores 7 true process no_bridge
