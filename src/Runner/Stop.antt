-- ===== src/Runner/Stop.antt =====
-- `stop` of release_runner.py: the signals to a child whose wait was interrupted.
use fedora_config.Base.{
  Bool, true, List, [], ◌∷◌, if◌then◌else◌, ok, raised, os_error, subprocess_error, interrupted,
  Exec,
}

pub data Signal : Type 0 where
  interrupt terminate kill : Signal

-- The child: whether a wait or a poll has seen its end, and the signals that reached its group, the
-- latest first.
pub record Child : Type 0 where
  pub reaped : Bool
  pub signals : List Signal

-- `process.wait(timeout=...)`: the child ends in time, it does not, or the handler of SIGINT and
-- SIGTERM, `interrupted`, raises KeyboardInterrupt in it.
pub data Waited : Type 0 where
  ends times_out is_interrupted : Waited

-- `os.killpg`: no process is left in the group, the signal may not be sent, or it was sent and the
-- wait goes so.
pub data Effect : Type 0 where
  is_gone is_denied : Effect
  is_sent : Waited → Effect

-- `process.wait(...)`
unfoldable pub wait : Waited → Exec Child (Unit {0})
wait ends c = (ok tt, record c { reaped = true })
wait times_out c = (raised subprocess_error, c)
wait is_interrupted c = (raised interrupted, c)

-- The signals and their order; the deadlines are in the effects.
abbrev pub stop_signals : List Signal
stop_signals = interrupt ∷ terminate ∷ kill ∷ []

abbrev pub with_signal : Signal → Child → Child
with_signal s c = record c { signals = s ∷ c.signals }

module _ (effect : Signal → Effect) (last : Waited) where
  -- One round of the loop: `break`, the exception of `killpg`, and the wait with `return` and
  -- `continue`.
  unfoldable pub signal_with : Effect → Signal → Exec Child (Unit {0}) → Exec Child (Unit {0})
  signal_with is_gone s rest c = wait last c
  signal_with is_denied s rest c = (raised os_error, c)
  signal_with (is_sent times_out) s rest c = rest (with_signal s c)
  signal_with (is_sent w) s rest c = wait w (with_signal s c)

  -- The loop and the last wait.
  unfoldable pub signal_all : List Signal → Exec Child (Unit {0})
  signal_all [] c = wait last c
  signal_all (s ∷ ss) c = signal_with (effect s) s (signal_all ss) c

  -- `stop`; a child that has been polled as over is left alone.
  unfoldable pub stop : Exec Child (Unit {0})
  stop c = (if c.reaped then (λ c. (ok tt, c)) else signal_all stop_signals) c
