-- ===== src/Calendar/Report.antt =====
-- What a request of calendar-events.py may print, in any order of its threads.
use fedora_config.Base.{
  ℕ, ◌*◌, ◌≡◌, ◌⊎◌, Bool, true, false, some, List, [], ◌∷◌, ◌++◌, All, sort_by, String,
  if◌then◌else◌, Exn,
}
use fedora_config.Calendar.Events.{Job}
use fedora_config.Calendar.Results.{
  Header, Document, unavailable, available, timed_out_message, is_earlier, is_before_name,
  timed_out,
}
use fedora_config.Calendar.Request.{starting, reading, returned, World, Runs}
use fedora_config.Calendar.History.{History}
use fedora_config.Calendar.Spec.{Answers, unanswered, events_of, errors_of, names, results_of}

module _ (message : Exn → String) (casefold : String → String) (range : ℕ × ℕ) (header : Header)
    (jobs : List Job) where
  -- The document for the calendars that have answered: all calendars, the events and the errors of
  -- those that have, and in a late one an error for each of the others.
  abbrev pub report : Bool → Answers → Document
  report late given = available (record {
    header = header;
    calendars = sort_by (is_before_name message casefold) jobs;
    events = sort_by is_earlier (events_of given);
    errors =
        errors_of message casefold given
        ++ (if late then timed_out message casefold (names (unanswered jobs given)) else []);
    start_ms = range.0 * 1000;
    end_ms = range.1 * 1000;
  })

  -- Each answer is of a calendar that was asked.
  abbrev AreAsked : Answers → Type 0
  AreAsked given = All (λ a. Runs message casefold a.0 jobs) given

  -- The document that follows what has happened: the first error of the start, or that of the
  -- deadline where nothing had begun; else the report on the answers so far, which are all of them
  -- unless the deadline is over.
  abbrev pub IsAnswer : History → Document → Type 0
  IsAnswer h d =
      ((h.begun ≡ false)
        × (((problem : String) × (h.problem ≡ some problem) × (d ≡ unavailable problem))
            ⊎ ((h.late ≡ true) × (d ≡ unavailable timed_out_message))))
      ⊎ ((h.begun ≡ true)
          × AreAsked h.answered
          × (((d ≡ report false h.answered) × (unanswered jobs h.answered ≡ []))
              ⊎ ((h.late ≡ true) × (d ≡ report true h.answered))))

  record IsStarting (h : History) (w : World) : Type 0 where
    silent : w.printed ≡ []
    unemitted : w.emitted ≡ false
    alive : w.exited ≡ false
    at_start : w.phase ≡ starting
    unbegun : h.begun ≡ false
    unasked : h.answered ≡ []

  record IsReading (h : History) (w : World) : Type 0 where
    silent : w.printed ≡ []
    unemitted : w.emitted ≡ false
    alive : w.exited ≡ false
    at_reading : w.phase ≡ reading
    begun : h.begun ≡ true
    asked : AreAsked h.answered
    known : w.results ≡ results_of message casefold range header jobs h.answered
    left : w.running ≡ unanswered jobs h.answered

  -- One document has been printed, and no step but the deadline's is left.
  record IsOver (h : History) (w : World) : Type 0 where
    printed : Document
    alone : w.printed ≡ printed ∷ []
    emitted : w.emitted ≡ true
    good : IsAnswer h printed
    done : (w.exited ≡ true) ⊎ (w.phase ≡ returned)

  abbrev IsGood : History → World → Type 0
  IsGood h w = IsStarting h w ⊎ (IsReading h w ⊎ IsOver h w)
