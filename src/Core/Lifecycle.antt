-- ===== src/Core/Lifecycle.antt =====
-- src/distributed_runtime/core/lifecycle.py: deadlines, cancellation sources and the graceful
-- shutdown of a process. There is one clock, whose monotonic reading is an argument `now`, a number
-- of ticks; so a test that two clocks are the same, or that a time is finite and not negative, cannot
-- fail. A source is what it reads of the sources it descends from: its own scope, then its parents'.
use ptf.Prelude.{
  ℕ, ◌+◌, ◌-◌, String, Bool, true, false, ◌==◌, ◌||◌, Option, none, some, List, [], ◌∷◌, leb,
  if◌then◌else◌, is_some, coalesce,
}
use ptf.Core.Errors.{
  Result, ok, err, value_error, runtime_error, assertion_error, cancellation_error,
}

-- `class Deadline`
pub record Deadline : Type 0 where
  pub expires_at : ℕ

-- `min(...)`
abbrev min : ℕ → ℕ → ℕ
min a b = if leb a b then a else b

-- `Deadline.after`
unfoldable pub after : ℕ → ℕ → Option Deadline → Deadline
after now timeout_seconds none = record { expires_at = now + timeout_seconds }
after now timeout_seconds (some parent) = record {
  expires_at = min (now + timeout_seconds) parent.expires_at;
}

unfoldable pub remaining_seconds : ℕ → Deadline → ℕ
remaining_seconds now deadline = deadline.expires_at - now

unfoldable pub expired : ℕ → Deadline → Bool
expired now deadline = leb deadline.expires_at now

-- `self._deadline is not None and self._deadline.expired`
unfoldable pub is_over : ℕ → Option Deadline → Bool
is_over now none = false
is_over now (some deadline) = expired now deadline

-- the fields of one `CancellationSource`, apart from its parent
pub record Scope : Type 0 where
  pub own_reason : Option String
  pub deadline : Option Deadline

-- `class CancellationSource`: a scope and the scopes of its parents, the nearest one first
pub record CancellationSource : Type 0 where
  pub scope : Scope
  pub parents : List Scope

-- `is_cancelled`
unfoldable pub is_cancelled_chain : ℕ → Scope → List Scope → Bool
is_cancelled_chain now s [] = is_some s.own_reason || is_over now s.deadline
is_cancelled_chain now s (parent ∷ parents) =
    is_some s.own_reason || (is_cancelled_chain now parent parents || is_over now s.deadline)

unfoldable pub is_cancelled : ℕ → CancellationSource → Bool
is_cancelled now source = is_cancelled_chain now source.scope source.parents

abbrev over_reason : ℕ → Option Deadline → Option String
over_reason now deadline = if is_over now deadline then some "deadline exceeded" else none

-- `reason`
unfoldable pub reason_chain : ℕ → Scope → List Scope → Option String
reason_chain now s [] = coalesce s.own_reason (over_reason now s.deadline)
reason_chain now s (parent ∷ parents) =
    let inherited = reason_chain now parent parents in
    coalesce s.own_reason
      (if is_cancelled_chain now parent parents then inherited else over_reason now s.deadline)

unfoldable pub reason : ℕ → CancellationSource → Option String
reason now source = reason_chain now source.scope source.parents

-- `CancellationToken.raise_if_cancelled`
unfoldable pub raise_if_cancelled : ℕ → CancellationSource → Result (Unit {0})
raise_if_cancelled now source =
    if is_cancelled now source
    then err (
        cancellation_error (elim (reason now source) [
          | none ↦ "cancelled"
          | some text ↦ (if text == "" then "cancelled" else text)
        ]))
    else ok tt

abbrev set_reason : String → CancellationSource → CancellationSource
set_reason text source = record source { scope = record (source.scope) { own_reason = some text } }

unfoldable pub cancel : ℕ → String → CancellationSource → Result Bool × CancellationSource
cancel now text source =
    if text == ""
    then (err (value_error "cancellation reason must not be empty"), source)
    else if is_cancelled now source
    then (ok false, source)
    else (ok true, set_reason text source)

-- the deadline of a child: the earlier one of its own and its parent's
unfoldable pub child_deadline : Option Deadline → Option Deadline → Option Deadline
child_deadline none own = own
child_deadline (some inherited) none = some inherited
child_deadline (some inherited) (some own) =
    some (record { expires_at = min own.expires_at inherited.expires_at })

unfoldable pub child : Option Deadline → CancellationSource → CancellationSource
child deadline source = record {
  scope = record { own_reason = none; deadline = child_deadline source.scope.deadline deadline };
  parents = source.scope ∷ source.parents;
}

-- `CancellationSource(clock=...)`
abbrev pub new_source : CancellationSource
new_source = record { scope = record { own_reason = none; deadline = none }; parents = [] }

pub data ShutdownPhase : Type 0 where
  running : ShutdownPhase
  draining : ShutdownPhase
  stopped : ShutdownPhase

-- `class GracefulShutdown`
pub record GracefulShutdown : Type 0 where
  pub cancellation : CancellationSource
  pub phase : ShutdownPhase
  pub grace_deadline : Option Deadline

-- `GracefulShutdown()`
abbrev pub new_shutdown : GracefulShutdown
new_shutdown = record {
  cancellation = new_source;
  phase = ShutdownPhase.running;
  grace_deadline = none;
}

-- `assert self.deadline is not None; return self.deadline`
abbrev asserted : Option Deadline → Result Deadline
asserted none = err assertion_error
asserted (some deadline) = ok deadline

unfoldable pub begin_shutdown : ℕ → ℕ → GracefulShutdown → Result Deadline × GracefulShutdown
begin_shutdown now grace_seconds s = elim (s.phase) [
  | ShutdownPhase.stopped ↦ (err (runtime_error "stopped shutdown cannot begin draining"), s)
  | ShutdownPhase.running ↦
      let deadline = after now grace_seconds none in
      (ok deadline, record s { phase = ShutdownPhase.draining; grace_deadline = some deadline })
  | ShutdownPhase.draining ↦ (asserted s.grace_deadline, s)
]

unfoldable pub poll : ℕ → GracefulShutdown → Result ShutdownPhase × GracefulShutdown
poll now s = elim (s.phase) [
  | ShutdownPhase.draining ↦
      if is_over now s.grace_deadline
      then (
        ok ShutdownPhase.stopped,
        record s {
          cancellation = (cancel now "graceful shutdown deadline exceeded" s.cancellation).1;
          phase = ShutdownPhase.stopped;
        },
      )
      else (ok ShutdownPhase.draining, s)
  | other ↦ (ok other, s)
]

unfoldable pub stop_shutdown : ℕ → String → GracefulShutdown → Result (Unit {0}) × GracefulShutdown
stop_shutdown now text s =
    let (answer, source) = cancel now text s.cancellation in
    elim answer [
      | err raised ↦ (err raised, s)
      | ok first ↦ (ok tt, record s { cancellation = source; phase = ShutdownPhase.stopped })
    ]
