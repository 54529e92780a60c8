-- ===== src/Calendar/Results.antt =====
-- `Results`, `emit` and `unavailable` of calendar-events.py. Every access of `Results` and of the
-- output holds a lock, so that each operation is one step.
use Prim.Native.String.{compare}
use Prim.Native.Nat.{Ordering}
use fedora_config.Base.{
  ℕ, ◌*◌, leb_ℤ, Bool, true, false, Option, none, some, List, [], ◌∷◌, ◌++◌, sort_by, String,
  str_eq, if◌then◌else◌, Exn,
}
use fedora_config.Calendar.Text.{text_of_error}
use fedora_config.Calendar.Events.{Event, Job, Reading, eq_ℤ}

pub record Header : Type 0 where
  pub goa_error : String
  pub accounts : ℕ
  pub calendar_accounts : ℕ

-- The fields that the lock guards; `pending` is a dict from uids to names.
pub record Results : Type 0 where
  pub range : ℕ × ℕ
  pub header : Header
  pub calendars : List Job
  pub events : List Event
  pub errors : List (String × String)
  pub pending : List (String × String)

pub record Payload : Type 0 where
  pub header : Header
  pub calendars : List Job
  pub events : List Event
  pub errors : List (String × String)
  pub start_ms : ℕ
  pub end_ms : ℕ

pub data Document : Type 0 where
  unavailable : String → Document
  available : Payload → Document

abbrev pub no_results : ℕ × ℕ → Header → Results
no_results range header = record {
  range = range;
  header = header;
  calendars = [];
  events = [];
  errors = [];
  pending = [];
}

-- `pending[uid] = name`, and `pending.pop(uid, None)`.
unfoldable pub put_pending : String → String → List (String × String) → List (String × String)
put_pending uid name [] = (uid, name) ∷ []
put_pending uid name ((key, old) ∷ rest) =
    let later = put_pending uid name rest in
    if str_eq key uid then (key, name) ∷ rest else (key, old) ∷ later

unfoldable pub pop_pending : String → List (String × String) → List (String × String)
pop_pending uid [] = []
pop_pending uid ((key, name) ∷ rest) =
    let later = pop_pending uid rest in if str_eq key uid then later else (key, name) ∷ later

unfoldable pub add_calendar : Job → Results → Results
add_calendar job r = record r {
  calendars = r.calendars ++ (job ∷ []);
  pending = put_pending job.uid job.name r.pending;
}

unfoldable pub add_calendars : List Job → Results → Results
add_calendars [] r = r
add_calendars (job ∷ jobs) r = add_calendars jobs (add_calendar job r)

-- The keys of the two sorts.
unfoldable pub is_earlier : Event → Event → Bool
is_earlier e f =
    if eq_ℤ e.start_ms f.start_ms
    then (if eq_ℤ e.end_ms f.end_ms
        then elim (compare e.summary f.summary) [ Ordering.gt ↦ false | _ ↦ true ]
        else leb_ℤ e.end_ms f.end_ms)
    else leb_ℤ e.start_ms f.start_ms

abbrev pub timed_out_message : String
timed_out_message = "Calendar request timed out"

-- `message` is the text of an exception, and `casefold` Python's.
module _ (message : Exn → String) (casefold : String → String) where
  -- What a source that ended with an error adds to the errors.
  unfoldable pub error_of : String → Option Exn → List (String × String)
  error_of name none = []
  error_of name (some e) = (name, text_of_error (message e) 200) ∷ []

  unfoldable pub finish : Job → Reading → Results → Results
  finish job reading r = record r {
    pending = pop_pending job.uid r.pending;
    events = r.events ++ reading.events;
    errors = r.errors ++ error_of job.name reading.first_error;
  }

  unfoldable pub is_before_name : Job → Job → Bool
  is_before_name j k = elim (compare (casefold j.name) (casefold k.name)) [
    | Ordering.gt ↦ false
    | _ ↦ true
  ]

  -- `{"calendar": name, "message": ...} for name in self.pending.values()`
  unfoldable pub timed_out : List (String × String) → List (String × String)
  timed_out [] = []
  timed_out ((uid, name) ∷ rest) = (name, timed_out_message) ∷ timed_out rest

  unfoldable pub payload : Bool → Results → Document
  payload late r = available (record {
    header = r.header;
    calendars = sort_by is_before_name r.calendars;
    events = sort_by is_earlier r.events;
    errors = r.errors ++ (if late then timed_out r.pending else []);
    start_ms = r.range.0 * 1000;
    end_ms = r.range.1 * 1000;
  })
