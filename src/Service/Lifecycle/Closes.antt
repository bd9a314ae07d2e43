-- ===== src/Service/Lifecycle/Closes.antt =====
-- Destroying a service.
use logs_interceptor_python.Base.{
  ◌≡◌, ◌∙◌, refl, Bool, true, false, List, [], ◌∷◌, arith, if-of_false, ap,
}
use logs_interceptor_python.Buffer
use logs_interceptor_python.Buffer.{MemoryBuffer}
use logs_interceptor_python.Config.{ResolvedBufferConfig}
use logs_interceptor_python.Domain.{LogEntryEntity}
use logs_interceptor_python.Errors.{Result, ok, raise}
use logs_interceptor_python.Service.{ServiceConfig, Reading, LogService, update_metrics}
use logs_interceptor_python.Service.Lifecycle.{
  count_flush, send_flush_batch, flush_pending, flush, destroy_parts, destroy,
}

module _ (config : ServiceConfig) (buffer_config : ResolvedBufferConfig) {W : Type 0}
    (send : List LogEntryEntity → W → Result (Unit {0}) × W)
    (close : W → Result (Unit {0}) × W) where
  -- What becomes of the entries held: they are sent, if there are any, and the transport is closed.
  abbrev pub sent_and_closed : List LogEntryEntity → W → Result (Unit {0}) × W
  sent_and_closed [] w = (ok tt, (close w).1)
  sent_and_closed (e ∷ es) w = let (res, w1) = send (e ∷ es) w in (res, (close w1).1)

  update_metrics-destroyed :
      (force : Bool) (r : Reading) (s : LogService)
      → (update_metrics config force r s).destroyed ≡ s.destroyed
  unfolding update_metrics
  update_metrics-destroyed force r s = ground arith

  count_flush-destroyed :
      (r : Reading) (res : Result (Unit {0})) (s : LogService)
      → (count_flush config buffer_config send r res s).destroyed ≡ s.destroyed
  unfolding count_flush
  count_flush-destroyed r (ok u) s = update_metrics-destroyed false r _
  count_flush-destroyed r (raise e) s = refl

  -- The state of a service that is destroyed.
  pub record IsClosed (s : LogService) : Type 0 where
    pub destroyed : s.destroyed ≡ true
    pub entries : s.buffer.entries ≡ []
    pub buffer_destroyed : s.buffer.destroyed ≡ true
    pub no_timer : s.buffer.flush_timer ≡ false
    pub no_callback : s.buffer.flush_callback ≡ false

  destroy_parts-IsClosed :
      (res : Result (Unit {0})) (s : LogService) (w : W)
      → s.destroyed ≡ true
      → IsClosed (destroy_parts config buffer_config send close (res, s, w)).1
  unfolding Buffer.destroy
  destroy_parts-IsClosed res s w h = record {
    destroyed = h;
    entries = refl;
    buffer_destroyed = refl;
    no_timer = refl;
    no_callback = refl;
  }

  -- `flush_pending` on what the buffer holds.
  abbrev pending_of :
      Reading → List LogEntryEntity → LogService → W → Result (Unit {0}) × LogService × W
  pending_of r [] s w = (ok tt, s, w)
  pending_of r (e ∷ es) s w =
      send_flush_batch config buffer_config send r (e ∷ es)
        (record s { buffer = (Buffer.flush buffer_config r.now s.buffer).1 }) w

  flush_pending-of :
      (r : Reading) (l : List LogEntryEntity) (s : LogService) (w : W)
      → s.buffer.entries ≡ l
      → flush_pending config buffer_config send r s w ≡ pending_of r l s w
  unfolding flush_pending Buffer.size Buffer.flush
  flush_pending-of r [] s w e = ground arith
  flush_pending-of r (x ∷ xs) s w e = ground arith

  pending_of-Closes :
      (r : Reading) (l : List LogEntryEntity) (s : LogService) (w : W)
      → s.destroyed ≡ true
      → let (res, s', w') = destroy_parts config buffer_config send close (pending_of r l s w) in
        IsClosed s' × ((res, w') ≡ sent_and_closed l w)
  unfolding send_flush_batch
  pending_of-Closes r [] s w h = (destroy_parts-IsClosed (ok tt) s w h, refl)
  pending_of-Closes r (x ∷ xs) s w h = (
    destroy_parts-IsClosed (send (x ∷ xs) w).0 _ (send (x ∷ xs) w).1
        (count_flush-destroyed r (send (x ∷ xs) w).0 _ ∙ h),
    refl,
  )

  -- A service that is destroyed does nothing more.
  pub record IsDone (s : LogService) : Type 0 where
    pub again :
        (r : Reading) (w : W) → destroy config buffer_config send close r s w ≡ (ok tt, s, w)
    pub no_flush : (r : Reading) (w : W) → flush config buffer_config send r s w ≡ (ok tt, s, w)

  destroyed-IsDone : (s : LogService) → s.destroyed ≡ true → IsDone s
  unfolding destroy flush
  destroyed-IsDone s h = record { again = λ r w. rw h; no_flush = λ r w. rw h }

  destroy-pending :
      (r : Reading) (s : LogService) (w : W)
      → s.destroyed ≡ false
      → destroy config buffer_config send close r s w
        ≡ destroy_parts config buffer_config send close
            (pending_of r s.buffer.entries (record s { destroyed = true }) w)
  unfolding destroy
  destroy-pending r s w h =
      if-of_false s.destroyed _ _ h
      ∙ ap (destroy_parts config buffer_config send close)
          (flush_pending-of r s.buffer.entries (record s { destroyed = true }) w refl)

  -- Destroying a live service closes it: it is destroyed, its buffer is empty and destroyed, with
  -- no timer and no callback. It sends what the buffer held, all of it at once, if that is
  -- anything, closes the transport after that whatever the send and the closing do, and returns or
  -- raises what the send did. A further `destroy` or `flush` does nothing.
  pub destroy-Closes :
      (r : Reading) (s : LogService) (w : W)
      → s.destroyed ≡ false
      → let (res, s', w') = destroy config buffer_config send close r s w in
        IsClosed s' × ((res, w') ≡ sent_and_closed s.buffer.entries w) × IsDone s'
  destroy-Closes r s w h =
      let (closed, sent) =
        pending_of-Closes r s.buffer.entries (record s { destroyed = true }) w refl in
      rw (destroy-pending r s w h) (closed, sent, destroyed-IsDone _ closed.destroyed)
