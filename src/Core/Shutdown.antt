-- ===== src/Core/Shutdown.antt =====
-- The grace window of a process shutdown, from `begin` to the deadline and past it.
use ptf.Prelude.{
  ℕ, ◌+◌, ◌≤◌, ◌<◌, ◌≡◌, ◌∙◌, refl, sym, ap, String, true, false, some, List, [], ◌∷◌, arith, All,
  Bool-cases, inl, inr, ◌==◌, subst,
}
use ptf.Core.Lifecycle.{
  CancellationSource, ShutdownPhase, GracefulShutdown, new_shutdown, begin_shutdown, poll,
  stop_shutdown, cancel, is_cancelled, reason, after, is_over, expired, is_cancelled_chain,
  reason_chain, Scope,
}

-- a call on a `GracefulShutdown`, with the clock's reading at the call
pub data Call : Type 0 where
  begin_call : ℕ → ℕ → Call
  poll_call : ℕ → Call
  stop_call : ℕ → String → Call

abbrev pub perform : Call → GracefulShutdown → GracefulShutdown
perform (begin_call now grace_seconds) s = (begin_shutdown now grace_seconds s).1
perform (poll_call now) s = (poll now s).1
perform (stop_call now text) s = (stop_shutdown now text s).1

unfoldable pub perform_all : List Call → GracefulShutdown → GracefulShutdown
perform_all [] s = s
perform_all (call ∷ calls) s = perform_all calls (perform call s)

-- a call before the time `limit` that is not `stop`
abbrev pub IsBefore : ℕ → Call → Type 0
IsBefore limit (begin_call now grace_seconds) = now < limit
IsBefore limit (poll_call now) = now < limit
IsBefore limit (stop_call now text) = (true ≡ false)

-- a shutdown that is over, with the reason that its cancellation gives
record IsStopped (text : String) (s : GracefulShutdown) : Type 0 where
  phase : s.phase ≡ ShutdownPhase.stopped
  own : s.cancellation.scope.own_reason ≡ some text

module _ (limit : ℕ) where
  -- the state of a shutdown in its window
  abbrev window : GracefulShutdown
  window = record new_shutdown {
    phase = ShutdownPhase.draining;
    grace_deadline = some (record { expires_at = limit });
  }

  window-call : (call : Call) → IsBefore limit call → perform call window ≡ window
  unfolding begin_shutdown poll is_over expired
  window-call (begin_call now grace_seconds) before = refl
  window-call (poll_call now) before = ground (arith, before)
  window-call (stop_call now text) before = ground (arith, before)

  window-calls :
      (calls : List Call) → All (IsBefore limit) calls → perform_all calls window ≡ window
  unfolding perform_all
  window-calls [] before = refl
  window-calls (call ∷ calls) before =
      ap (perform_all calls) (window-call call before.0) ∙ window-calls calls before.1

chain_by_reason :
    (now : ℕ) (text : String) (s : Scope) (parents : List Scope)
    → s.own_reason ≡ some text
    → (is_cancelled_chain now s parents ≡ true) × (reason_chain now s parents ≡ some text)
unfolding is_cancelled_chain reason_chain
chain_by_reason now text s [] own = (rw own refl, rw own refl)
chain_by_reason now text s (parent ∷ parents) own = (rw own refl, rw own refl)

pub cancelled_by_reason :
    (now : ℕ) (text : String) (c : CancellationSource)
    → c.scope.own_reason ≡ some text
    → (is_cancelled now c ≡ true) × (reason now c ≡ some text)
unfolding is_cancelled reason
cancelled_by_reason now text c own = chain_by_reason now text c.scope c.parents own

IsStopped-perform :
    (text : String) (call : Call) (s : GracefulShutdown)
    → IsStopped text s
    → IsStopped text (perform call s)
unfolding begin_shutdown poll stop_shutdown cancel
IsStopped-perform text (begin_call now grace_seconds) s over = record {
  phase = ground (arith, over.phase);
  own = ground (arith, over.phase, over.own);
}
IsStopped-perform text (poll_call now) s over = record {
  phase = ground (arith, over.phase);
  own = ground (arith, over.phase, over.own);
}
IsStopped-perform text (stop_call now said) s over =
    let gone = (cancelled_by_reason now text s.cancellation over.own).0 in
    elim (Bool-cases (said == "")) [
      | inl empty ↦ record {
        phase = ground (arith, empty, over.phase);
        own = ground (arith, empty, over.own);
      }
      | inr given ↦ record {
        phase = ground (arith, given, gone);
        own = ground (arith, given, gone, over.own);
      }
    ]

IsStopped-perform_all :
    (text : String) (calls : List Call) (s : GracefulShutdown)
    → IsStopped text s
    → IsStopped text (perform_all calls s)
unfolding perform_all
IsStopped-perform_all text [] s over = over
IsStopped-perform_all text (call ∷ calls) s over =
    IsStopped-perform_all text calls (perform call s) (IsStopped-perform text call s over)

window-poll :
    (limit now : ℕ)
    → limit ≤ now
    → IsStopped "graceful shutdown deadline exceeded" (poll now (window limit)).1
unfolding poll is_over expired cancel is_cancelled is_cancelled_chain
window-poll limit now late = record { phase = ground (arith, late); own = ground (arith, late) }

-- Beginning a shutdown opens one window, up to `now + grace_seconds`: whatever calls of `begin` and
-- `poll` are made before that time leave the shutdown as it was, not cancelled; a `poll` at that time
-- or later stops it and cancels its source with the reason of the deadline, which no later call
-- changes.
pub shutdown_window_lem :
    (now grace_seconds at : ℕ) (calls later : List Call)
    → All (IsBefore (now + grace_seconds)) calls
    → now + grace_seconds ≤ at
    → let opened = (begin_shutdown now grace_seconds new_shutdown).1 in
      let ended = (poll at (perform_all calls opened)).1 in
      let last = perform_all later ended in
      (perform_all calls opened ≡ opened)
      × ((t : ℕ) → is_cancelled t opened.cancellation ≡ false)
      × (last.phase ≡ ShutdownPhase.stopped)
      × ((t : ℕ) → is_cancelled t last.cancellation ≡ true)
      × ((t : ℕ) → reason t last.cancellation ≡ some "graceful shutdown deadline exceeded")
unfolding begin_shutdown after is_cancelled is_cancelled_chain is_over
shutdown_window_lem now grace_seconds at calls later before late =
    let text : String = "graceful shutdown deadline exceeded" in
    let same = window-calls (now + grace_seconds) calls before in
    let ended : IsStopped text (poll at (perform_all calls (window (now + grace_seconds)))).1 =
      subst (λ s. IsStopped text (poll at s).1) (sym same)
        (window-poll (now + grace_seconds) at late) in
    let last = IsStopped-perform_all text later _ ended in
    (
      same,
      (λ t. refl),
      last.phase,
      (λ t. (cancelled_by_reason t text _ last.own).0),
      (λ t. (cancelled_by_reason t text _ last.own).1),
    )
