-- ===== src/Calendar/History.antt =====
-- What has happened in a request of calendar-events.py, read off its steps.
use fedora_config.Base.{ℕ, Bool, true, false, Option, none, some, List, [], ◌∷◌, ◌++◌, String, Exn}
use fedora_config.Calendar.Events.{Job}
use fedora_config.Calendar.Results.{Header}
use fedora_config.Calendar.Request.{
  World, Step, fails, begins, finishes, answers, expires, Reach, here, later,
}
use fedora_config.Calendar.Spec.{Answers}

-- Whether the sources were listed, the readings that came in, in their order, the error that ended
-- the start, and whether the deadline was over.
pub record History : Type 0 where
  pub begun : Bool
  pub answered : Answers
  pub problem : Option String
  pub late : Bool

module _ (message : Exn → String) (casefold : String → String) {range : ℕ × ℕ} {header : Header}
    {jobs : List Job} where
  abbrev pub after : {w v : World} → History → Step message casefold range header jobs w v → History
  after h (fails problem running at) = record h { problem = some problem }
  after h (begins running at) = record h { begun = true }
  after h (finishes job r running at runs) = record h { answered = h.answered ++ ((job, r) ∷ []) }
  after h (answers running at none_left) = h
  after h (expires running) = record h { late = true }

  abbrev pub history : {w : World} → Reach message casefold range header jobs w → History
  history here = record { begun = false; answered = []; problem = none; late = false }
  history (later before step) = after (history before) step
