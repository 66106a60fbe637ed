-- ===== src/Examples/Process.antt =====
-- A run of a shutdown of a process.
use ptf.Prelude.{◌≡◌, true, false, some, [], ◌∷◌, arith, ℕ, List}
use ptf.Core.Lifecycle.{
  GracefulShutdown, ShutdownPhase, new_shutdown, begin_shutdown, poll, is_cancelled, reason,
}
use ptf.Core.Shutdown.{Call, perform_all, shutdown_window_lem}

abbrev opened : GracefulShutdown
opened = (begin_shutdown 100 30 new_shutdown).1

abbrev calls : List Call
calls = Call.poll_call 110 ∷ Call.begin_call 120 500 ∷ Call.poll_call 129 ∷ []

abbrev later : List Call
later = Call.stop_call 140 "shutdown complete" ∷ Call.poll_call 150 ∷ []

abbrev last : GracefulShutdown
last = perform_all later ((poll 130 (perform_all calls opened)).1)

shutdown_window_lem_example :
    (perform_all calls opened ≡ opened)
    × ((t : ℕ) → is_cancelled t opened.cancellation ≡ false)
    × (last.phase ≡ ShutdownPhase.stopped)
    × ((t : ℕ) → is_cancelled t last.cancellation ≡ true)
    × ((t : ℕ) → reason t last.cancellation ≡ some "graceful shutdown deadline exceeded")
shutdown_window_lem_example =
    shutdown_window_lem 100 30 130 calls later (omega arith, (omega arith, (omega arith, tt)))
      (omega arith)
