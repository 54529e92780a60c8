-- ===== src/Calendar/Request.antt =====
-- One request of calendar-events.py: the main thread, the threads of the sources and the deadline's,
-- in any order.
use fedora_config.Base.{
  ℕ, ◌≡◌, Bool, true, false, List, [], ◌∷◌, ◌++◌, String, str_eq, if◌then◌else◌, Exn, ◌⊎◌,
}
use fedora_config.Calendar.Events.{Job, Reading}
use fedora_config.Calendar.Results.{
  Header, Results, Document, unavailable, no_results, add_calendars, finish, payload,
  timed_out_message,
}

-- `starting` until `_results` is set, then `reading` until `main` has returned.
pub data Phase : Type 0 where
  starting reading returned : Phase

pub record World : Type 0 where
  pub phase : Phase
  pub results : Results
  pub running : List Job
  pub printed : List Document
  pub emitted : Bool
  pub exited : Bool

unfoldable pub emit : Document → World → World
emit d w = if w.emitted then w else record w { printed = w.printed ++ (d ∷ []); emitted = true }

unfoldable pub set_phase : Phase → World → World
set_phase p w = record w { phase = p }

-- The job of a thread that ends.
unfoldable pub drop_job : String → List Job → List Job
drop_job uid [] = []
drop_job uid (job ∷ jobs) =
    let rest = drop_job uid jobs in if str_eq job.uid uid then rest else job ∷ rest

module _ (message : Exn → String) (casefold : String → String) where
  -- The main thread has listed the sources.
  unfoldable pub begin : ℕ × ℕ → Header → List Job → World → World
  begin range header jobs w = record w {
    phase = reading;
    results = add_calendars jobs (no_results range header);
    running = jobs;
  }

  unfoldable pub finish_job : Job → Reading → World → World
  finish_job job r w = record w {
    results = finish message casefold job r w.results;
    running = drop_job job.uid w.running;
  }

  -- `_deadline_expired`
  unfoldable pub late_document : World → Document
  late_document w = elim w.phase [
    | starting ↦ unavailable timed_out_message
    | _ ↦ payload message casefold true w.results
  ]

  -- The document, its emission and the exit are one step here: a reading that comes in between them
  -- is no part of the document, and only the first document is emitted.
  unfoldable pub expire : World → World
  expire w = let w' = emit (late_document w) w in record w' { exited = true }

  -- `uid` names a job of the list.
  abbrev pub Runs : Job → List Job → Type 0
  Runs job [] = ⊥
  Runs job (j ∷ jobs) = (job ≡ j) ⊎ Runs job jobs

  -- What may happen next; nothing does once the process has exited. An error at the start may be of
  -- the arguments, of the bindings or of the registry.
  pub data Step (range : ℕ × ℕ) (header : Header) (jobs : List Job) (w : World)
      : World → Type 0 where
    fails :
        (problem : String)
        → w.exited ≡ false
        → w.phase ≡ starting
        → Step range header jobs w (set_phase returned (emit (unavailable problem) w))
    begins :
        w.exited ≡ false → w.phase ≡ starting → Step range header jobs w (begin range header jobs w)
    finishes :
        (job : Job) (r : Reading)
        → w.exited ≡ false
        → w.phase ≡ reading
        → Runs job w.running
        → Step range header jobs w (finish_job job r w)
    answers :
        w.exited ≡ false
        → w.phase ≡ reading
        → w.running ≡ []
        → Step range header jobs w
            (set_phase returned (emit (payload message casefold false w.results) w))
    expires : w.exited ≡ false → Step range header jobs w (expire w)

  abbrev pub initial : ℕ × ℕ → Header → World
  initial range header = record {
    phase = starting;
    results = no_results range header;
    running = [];
    printed = [];
    emitted = false;
    exited = false;
  }

  pub data Reach (range : ℕ × ℕ) (header : Header) (jobs : List Job) : World → Type 0 where
    here : Reach range header jobs (initial range header)
    later :
        {w v : World}
        → Reach range header jobs w
        → Step range header jobs w v
        → Reach range header jobs v
