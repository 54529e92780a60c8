-- ===== src/Calendar/Spec.antt =====
-- The specification of `Results` in calendar-events.py: the calendars that have answered, in their
-- order.
use mathlib.Core.List.{append-nil, append_assoc}
use fedora_config.Base.{
  ℕ, ◌≡◌, inl, inr, refl, sym, ◌∙◌, ap, Bool, true, false, ◌||◌, Bool-cases, List, [], ◌∷◌, ◌++◌,
  String, str_eq, if◌then◌else◌, Exn,
}
use fedora_config.Calendar.Events.{Event, Job, Reading}
use fedora_config.Calendar.Results.{
  Header, Results, no_results, put_pending, pop_pending, add_calendar, add_calendars, error_of,
  finish,
}
use fedora_config.Calendar.Request.{drop_job}

abbrev pub Answers : Type 0
Answers = List (Job × Reading)

abbrev pub is_answered : String → Answers → Bool
is_answered uid [] = false
is_answered uid ((job, r) ∷ rest) = str_eq uid job.uid || is_answered uid rest

-- The jobs that have not answered.
abbrev pub unanswered : List Job → Answers → List Job
unanswered [] answers = []
unanswered (job ∷ jobs) answers =
    if is_answered job.uid answers then unanswered jobs answers else job ∷ unanswered jobs answers

pub none_answered : (jobs : List Job) → unanswered jobs [] ≡ jobs
none_answered [] = refl
none_answered (job ∷ jobs) = ap (λ js. job ∷ js) (none_answered jobs)

abbrev pub events_of : Answers → List Event
events_of [] = []
events_of ((job, r) ∷ rest) = r.events ++ events_of rest

abbrev pub names : List Job → List (String × String)
names [] = []
names (job ∷ jobs) = (job.uid, job.name) ∷ names jobs

-- A job of the list has the uid, and no two have the same.
abbrev pub has_uid : String → List Job → Bool
has_uid uid [] = false
has_uid uid (job ∷ jobs) = str_eq uid job.uid || has_uid uid jobs

abbrev pub HaveUids : List Job → Type 0
HaveUids [] = Unit
HaveUids (job ∷ jobs) = (has_uid job.uid jobs ≡ false) × HaveUids jobs

or_false : (a b : Bool) → (a || b) ≡ false → (a ≡ false) × (b ≡ false)
or_false true b h = absurd (cc)
or_false false b h = (refl, h)

is_answered-append :
    (uid : String) (a : Answers) (job : Job) (r : Reading)
    → is_answered uid (a ++ ((job, r) ∷ [])) ≡ (is_answered uid a || str_eq uid job.uid)
is_answered-append uid [] job r = or_false_right (str_eq uid job.uid)
  where
    or_false_right : (b : Bool) → (b || false) ≡ b
    or_false_right true = refl
    or_false_right false = refl
is_answered-append uid ((k, s) ∷ a) job r =
    ap (λ b. str_eq uid k.uid || b) (is_answered-append uid a job r)
    ∙ or_assoc (str_eq uid k.uid) (is_answered uid a) (str_eq uid job.uid)
  where
    or_assoc : (a b c : Bool) → (a || (b || c)) ≡ ((a || b) || c)
    or_assoc true b c = refl
    or_assoc false b c = refl

-- An answer takes its job off the jobs that have not answered.
pub unanswered-append :
    (jobs : List Job) (a : Answers) (job : Job) (r : Reading)
    → drop_job job.uid (unanswered jobs a) ≡ unanswered jobs (a ++ ((job, r) ∷ []))
unfolding drop_job
unanswered-append [] a job r = refl
unanswered-append (j ∷ jobs) a job r = elim (Bool-cases (is_answered j.uid a)) [
  | inl y ↦ rw (is_answered-append j.uid a job r, y) (unanswered-append jobs a job r)
  | inr n ↦ elim (Bool-cases (str_eq j.uid job.uid)) [
    | inl s ↦ rw (is_answered-append j.uid a job r, n, s) (unanswered-append jobs a job r)
    | inr d ↦
        rw (is_answered-append j.uid a job r, n, d)
          (ap (λ js. j ∷ js) (unanswered-append jobs a job r))
  ]
]

pop_pending-names :
    (uid : String) (jobs : List Job) → pop_pending uid (names jobs) ≡ names (drop_job uid jobs)
unfolding pop_pending drop_job
pop_pending-names uid [] = refl
pop_pending-names uid (j ∷ jobs) = elim (Bool-cases (str_eq j.uid uid)) [
  | inl y ↦ rw y (pop_pending-names uid jobs)
  | inr n ↦ rw n (ap (λ ps. (j.uid, j.name) ∷ ps) (pop_pending-names uid jobs))
]

events_of-append :
    (a : Answers) (job : Job) (r : Reading)
    → events_of (a ++ ((job, r) ∷ [])) ≡ events_of a ++ r.events
events_of-append [] job r = append-nil r.events
events_of-append ((k, s) ∷ a) job r =
    ap (λ es. s.events ++ es) (events_of-append a job r)
    ∙ sym (append_assoc s.events (events_of a) r.events)

abbrev has_key : String → List (String × String) → Bool
has_key uid [] = false
has_key uid ((key, name) ∷ rest) = str_eq key uid || has_key uid rest

put_pending-append :
    (uid name : String) (p : List (String × String))
    → has_key uid p ≡ false
    → put_pending uid name p ≡ p ++ ((uid, name) ∷ [])
unfolding put_pending
put_pending-append uid name [] h = refl
put_pending-append uid name ((key, old) ∷ rest) h =
    let (here, later) = or_false (str_eq key uid) (has_key uid rest) h in
    rw here (ap (λ ps. (key, old) ∷ ps) (put_pending-append uid name rest later))

has_key-append :
    (uid key name : String) (p : List (String × String))
    → has_key uid p ≡ false
    → str_eq key uid ≡ false
    → has_key uid (p ++ ((key, name) ∷ [])) ≡ false
has_key-append uid key name [] h d = rw d refl
has_key-append uid key name ((k, old) ∷ rest) h d =
    let (here, later) = or_false (str_eq k uid) (has_key uid rest) h in
    rw here (has_key-append uid key name rest later d)

-- No job's uid is a key.
abbrev AreNew : List Job → List (String × String) → Type 0
AreNew [] p = Unit
AreNew (job ∷ jobs) p = (has_key job.uid p ≡ false) × AreNew jobs p

AreNew-append :
    (jobs : List Job) (key name : String) (p : List (String × String))
    → has_uid key jobs ≡ false
    → AreNew jobs p
    → AreNew jobs (p ++ ((key, name) ∷ []))
AreNew-append [] key name p d new = tt
AreNew-append (job ∷ jobs) key name p d (new, news) =
    let (other, others) = or_false (str_eq key job.uid) (has_uid key jobs) d in
    (has_key-append job.uid key name p new other, AreNew-append jobs key name p others news)

-- The calendars in the order of their addition, and all of them pending.
add_calendars-eq :
    (jobs : List Job) (r : Results)
    → HaveUids jobs
    → AreNew jobs r.pending
    → add_calendars jobs r
      ≡ record r { calendars = r.calendars ++ jobs; pending = r.pending ++ names jobs }
unfolding add_calendars add_calendar
add_calendars-eq [] r u new = rw (append-nil r.calendars, append-nil r.pending) refl
add_calendars-eq (job ∷ jobs) r (u, us) (new, news) =
    rw (put_pending-append job.uid job.name r.pending new) (
      add_calendars-eq jobs
        (record r {
          calendars = r.calendars ++ (job ∷ []);
          pending = r.pending ++ ((job.uid, job.name) ∷ []);
        })
        us (AreNew-append jobs job.uid job.name r.pending u news)
      ∙ rw
          (
            append_assoc r.calendars (job ∷ []) jobs,
            append_assoc r.pending ((job.uid, job.name) ∷ []) (names jobs),
          )
          refl)

module _ (message : Exn → String) (casefold : String → String) where
  abbrev pub errors_of : Answers → List (String × String)
  errors_of [] = []
  errors_of ((job, r) ∷ rest) = error_of message casefold job.name r.first_error ++ errors_of rest

  errors_of-append :
      (a : Answers) (job : Job) (r : Reading)
      → errors_of (a ++ ((job, r) ∷ []))
        ≡ errors_of a ++ error_of message casefold job.name r.first_error
  errors_of-append [] job r = append-nil _
  errors_of-append ((k, s) ∷ a) job r =
      ap (λ es. error_of message casefold k.name s.first_error ++ es) (errors_of-append a job r)
      ∙ sym (append_assoc _ (errors_of a) _)

  module _ (range : ℕ × ℕ) (header : Header) (jobs : List Job) where
    -- What the fields hold once the calendars of `answers` have answered.
    abbrev pub results_of : Answers → Results
    results_of answers = record {
      range = range;
      header = header;
      calendars = jobs;
      events = events_of answers;
      errors = errors_of answers;
      pending = names (unanswered jobs answers);
    }

    pub add_calendars-results_of :
        HaveUids jobs → add_calendars jobs (no_results range header) ≡ results_of []
    add_calendars-results_of u =
        add_calendars-eq jobs (no_results range header) u (all_new jobs)
        ∙ ap (λ js. record (results_of []) { pending = names js }) (sym (none_answered jobs))
      where
        all_new : (js : List Job) → AreNew js []
        all_new [] = tt
        all_new (j ∷ js) = (refl, all_new js)

    pub finish-results_of :
        (job : Job) (r : Reading) (a : Answers)
        → finish message casefold job r (results_of a) ≡ results_of (a ++ ((job, r) ∷ []))
    unfolding finish
    finish-results_of job r a =
        rw
          (
            events_of-append a job r,
            errors_of-append a job r,
            pop_pending-names job.uid (unanswered jobs a),
            unanswered-append jobs a job r,
          )
          refl
