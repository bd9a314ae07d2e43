-- ===== src/Facade/Tidy.antt =====
-- What holds however a program initializes and destroys the logger.
use mathlib.Core.Path.{subst}
use logs_interceptor_python.Base.{
  ℕ, ◌≡◌, refl, ap, sym, ◌∙◌, String, Bool, false, String_comparable, Option, none, some, List, [],
  ◌∷◌, ℕ_comparable, equal_numbers_iff, ◌⊎◌, inl, inr, Bool-cases, if-of_both,
}
use logs_interceptor_python.Base.Dict.{Dict}
use logs_interceptor_python.Errors.{Exception}
use logs_interceptor_python.Facade.{
  World, without, retire, start, replace_runtime, merged_config, init, destroy, destroy_logger,
  destroy_runtime, close_runtime, close_logger, auto_init,
}
use logs_interceptor_python.Factory.{Runtime, restored, create, restore_runtime}
use logs_interceptor_python.Interceptor.{Process, RuntimeInterceptor, has_bridge, restore}
use logs_interceptor_python.Interceptor.Restore.{SameHooks, enable-restores, restore_twice}
use logs_interceptor_python.Settings.Records.{LogsInterceptorConfig}
use logs_interceptor_python.Settings.Resolve.{IntLogsInterceptorConfig, resolve}
use logs_interceptor_python.Settings.Validate.{validate}

-- A call that changes the life of the logger; its arguments are any.
pub data Step : World → World → Type 0 where
  inits :
      (is_url : String → Bool) (env : LogsInterceptorConfig) (fault : Option Exception)
      (user : Option LogsInterceptorConfig) (w : World)
      → Step w (init is_url env fault user w).1
  auto_inits :
      (is_url : String → Bool) (environ : Dict String String) (env : LogsInterceptorConfig)
      (fault : Option Exception) (w : World)
      → Step w (auto_init is_url environ env fault w)
  destroys : (fault : Option Exception) (w : World) → Step w (destroy fault w).1
  closes : (w : World) → Step w (close_logger w)

pub data Reach (w : World) : World → Type 0 where
  here : Reach w w
  next : {u v : World} → Reach w u → Step u v → Reach w v

-- The process with the interceptor of the runtime, if there is one, restored.
abbrev pub settled : Option Runtime → Process → Process
settled none p = p
settled (some r) p = (restore_runtime r p).1

-- No logger but that of the runtime is live.
abbrev pub OneLive : Option Runtime → List ℕ → Type 0
OneLive none live = live ≡ []
OneLive (some r) live = (live ≡ []) ⊎ (live ≡ r.logger ∷ [])

pub record IsTidy (base : Process) (w : World) : Type 0 where
  pub hooks : SameHooks (settled w.runtime w.process) base
  pub live : OneLive w.runtime w.live

auto_init_cases :
    (is_url : String → Bool) (environ : Dict String String) (env : LogsInterceptorConfig)
    (fault : Option Exception) (w : World) (P : World → Type 0)
    → P w
    → P (init is_url env fault (some env) w).1
    → P (auto_init is_url environ env fault w)
unfolding auto_init
auto_init_cases is_url environ env fault w P same started =
    if-of_both P _ w _ same (if-of_both P _ w _ same started)

abbrev runtime_of : ℕ → Option RuntimeInterceptor → Runtime
runtime_of logger o = record { logger = logger; interceptor = o }

restore_optional_twice :
    (logger : ℕ) (o : Option RuntimeInterceptor) (p : Process)
    → let (r', p') = restore_runtime (runtime_of logger o) p in
      (restore_runtime r' p' ≡ (r', p')) × (r'.logger ≡ logger)
unfolding restore_runtime
restore_optional_twice logger none p = (refl, refl)
restore_optional_twice logger (some i) p =
    (ap (restored (runtime_of logger (some (restore i p).0))) (restore_twice i p), refl)

pub restore_runtime_twice :
    (r : Runtime) (p : Process)
    → let (r', p') = restore_runtime r p in
      (restore_runtime r' p' ≡ (r', p')) × (r'.logger ≡ r.logger)
restore_runtime_twice r p = restore_optional_twice r.logger r.interceptor p

without_self : (n : ℕ) → without n (n ∷ []) ≡ []
unfolding without
without_self n = rw ((equal_numbers_iff n n).1 refl)

-- The only logger that is live is destroyed.
pub without_live :
    (r : Runtime) (n : ℕ) (live : List ℕ)
    → n ≡ r.logger
    → OneLive (some r) live
    → without n live ≡ []
unfolding without
without_live r n live e (inl none_live) = rw none_live
without_live r n live e (inr live_one) = rw (e, live_one) (without_self r.logger)

-- What `destroy_logger` leaves.
record IsClosed (base : Process) (r : Runtime) (p : Process) (live : List ℕ) : Type 0 where
  hooks : SameHooks p base
  settled : SameHooks (restore_runtime r p).1 base
  none_live : live ≡ []

destroy_logger-IsClosed :
    (base : Process) (r : Runtime) (p : Process) (live : List ℕ)
    → SameHooks (restore_runtime r p).1 base
    → OneLive (some r) live
    → let (r', p', live') = destroy_logger r p live in IsClosed base r' p' live'
unfolding destroy_logger
destroy_logger-IsClosed base r p live h one = record {
  hooks = h;
  settled = subst (λ t. SameHooks t.1 base) (sym (restore_runtime_twice r p).0) h;
  none_live = without_live r r.logger live refl one;
}

-- So too where the interceptor was restored before.
again-IsClosed :
    (base : Process) (r : Runtime) (p : Process) (live : List ℕ)
    → SameHooks (restore_runtime r p).1 base
    → OneLive (some r) live
    → let (r1, p1) = restore_runtime r p in
      let (r', p', live') = destroy_logger r1 p1 live in IsClosed base r' p' live'
again-IsClosed base r p live h one =
    let (twice, same) = restore_runtime_twice r p in
    destroy_logger-IsClosed base (restore_runtime r p).0 (restore_runtime r p).1 live
      (subst (λ t. SameHooks t.1 base) (sym twice) h)
      (subst (λ n. (live ≡ []) ⊎ (live ≡ n ∷ [])) (sym same) one)

retire-IsTidy :
    (base : Process) (o : Option Runtime) (w : World)
    → w.runtime ≡ o
    → SameHooks (settled o w.process) base
    → OneLive o w.live
    → IsTidy base (retire o w) × SameHooks (retire o w).process base × ((retire o w).live ≡ [])
retire-IsTidy base none w e h one = (record { hooks = rw e h; live = rw e one }, h, one)
retire-IsTidy base (some r) w e h one =
    let closed = again-IsClosed base r w.process w.live h one in
    (record { hooks = closed.settled; live = inl closed.none_live }, closed.hooks, closed.none_live)

SameHooks_trans : {p q r : Process} → SameHooks p q → SameHooks q r → SameHooks p r
SameHooks_trans h k = record {
  print = h.print ∙ k.print;
  excepthook = h.excepthook ∙ k.excepthook;
  handlers = h.handlers ∙ k.handlers;
}

-- No handler of the process is that of an interceptor.
abbrev pub HasNoBridge : Process → Type 0
HasNoBridge p = (n : ℕ) → has_bridge n p.handlers ≡ false

create-settled :
    (base : Process) (id : ℕ) (config : IntLogsInterceptorConfig) (p : Process)
    → HasNoBridge base
    → SameHooks p base
    → let (r, q) = create id config p in SameHooks (restore_runtime r q).1 base × (r.logger ≡ id)
unfolding create restore_runtime
create-settled base id config p clean h = elim (Bool-cases config.intercept_console) [
  | inl e ↦
      let free = ap (has_bridge id) h.handlers ∙ clean id in
      rw e (SameHooks_trans (enable-restores id config.preserve_original_console p free).0 h, refl)
  | inr e ↦ rw e (h, refl)
]

module _ (base : Process) (clean : HasNoBridge base) where
  start-IsTidy :
      (fault : Option Exception) (config : IntLogsInterceptorConfig) (w : World)
      → IsTidy base w × SameHooks w.process base × (w.live ≡ [])
      → IsTidy base (start fault config w).1
  start-IsTidy (some e) config w t = t.0
  start-IsTidy none config w t =
      let (hooks, same) = create-settled base w.created config w.process clean t.1 in
      record { hooks = hooks; live = inr (rw (t.2, same)) }

  replace_runtime-IsTidy :
      (fault : Option Exception) (merged : LogsInterceptorConfig) (errors : List String) (w : World)
      → IsTidy base w
      → IsTidy base (replace_runtime fault merged errors w).1
  replace_runtime-IsTidy fault merged [] w t =
      start-IsTidy fault (resolve merged) (retire w.runtime w)
        (retire-IsTidy base w.runtime w refl t.hooks t.live)
  replace_runtime-IsTidy fault merged (e ∷ es) w t = t

  init-IsTidy :
      (is_url : String → Bool) (env : LogsInterceptorConfig) (fault : Option Exception)
      (user : Option LogsInterceptorConfig) (w : World)
      → IsTidy base w
      → IsTidy base (init is_url env fault user w).1
  unfolding init
  init-IsTidy is_url env fault user w =
      replace_runtime-IsTidy fault (merged_config env user)
        (validate is_url (merged_config env user)) w

  destroy_runtime-IsTidy :
      (fault : Option Exception) (o : Option Runtime) (w : World)
      → w.runtime ≡ o
      → SameHooks (settled o w.process) base
      → OneLive o w.live
      → IsTidy base (destroy_runtime fault o w).1
  destroy_runtime-IsTidy fault none w e h one = record { hooks = rw e h; live = rw e one }
  destroy_runtime-IsTidy fault (some r) w e h one =
      let closed = again-IsClosed base r w.process w.live h one in
      record { hooks = closed.hooks; live = closed.none_live }

  close_runtime-IsTidy :
      (o : Option Runtime) (w : World)
      → w.runtime ≡ o
      → SameHooks (settled o w.process) base
      → OneLive o w.live
      → IsTidy base (close_runtime o w)
  close_runtime-IsTidy none w e h one = record { hooks = rw e h; live = rw e one }
  close_runtime-IsTidy (some r) w e h one =
      let closed = destroy_logger-IsClosed base r w.process w.live h one in
      record { hooks = closed.settled; live = inl closed.none_live }

  Step-IsTidy : {w v : World} → Step w v → IsTidy base w → IsTidy base v
  unfolding destroy close_logger auto_init
  Step-IsTidy (inits is_url env fault user w) t = init-IsTidy is_url env fault user w t
  Step-IsTidy (auto_inits is_url environ env fault w) t =
      auto_init_cases is_url environ env fault w (IsTidy base) t
        (init-IsTidy is_url env fault (some env) w t)
  Step-IsTidy (destroys fault w) t = destroy_runtime-IsTidy fault w.runtime w refl t.hooks t.live
  Step-IsTidy (closes w) t = close_runtime-IsTidy w.runtime w refl t.hooks t.live

  Reach-keeps : {w v : World} → IsTidy base w → Reach w v → IsTidy base v
  Reach-keeps t here = t
  Reach-keeps t (next r s) = Step-IsTidy s (Reach-keeps t r)

-- Whatever calls of `init`, of the automatic initialization, of `destroy` and of the current
-- logger's own `destroy` a program makes from a process with no handler of an interceptor, and
-- whatever raises in them: restoring the interceptor of the current runtime, if there is one,
-- gives back the `print`, the `excepthook` and the handlers of the start, which are in place when
-- there is none, and no logger is live but that of the current runtime.
pub Reach-IsTidy :
    (base : Process) {w : World}
    → HasNoBridge base
    → Reach (record { process = base; runtime = none; created = 0; live = [] }) w
    → SameHooks (settled w.runtime w.process) base × OneLive w.runtime w.live
Reach-IsTidy base clean r =
    let t =
      Reach-keeps base clean
        (record {
          hooks = record { print = refl; excepthook = refl; handlers = refl };
          live = refl;
        })
        r in
    (t.hooks, t.live)
