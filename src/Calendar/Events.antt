-- ===== src/Calendar/Events.antt =====
-- `timestamp_ms`, `add_instance` and `read_source` of calendar-events.py: the events of one source.
use fedora_config.Base.{
  ℕ, suc, ◌+◌, ◌*◌, ◌-◌, ◌==◌, leb, ℤ, pos, negsuc, leb_ℤ, Bool, false, ◌&&◌, ◌||◌, Option, none,
  some, List, [], ◌∷◌, ◌++◌, String, ◌<>◌, str_eq, if◌then◌else◌,
}
use fedora_config.Base.{Result, ok, raised, Exn, Exec, pure, lift, runtime_error}
use fedora_config.Base.Action.{◌>>=◌, ◌>>◌}
use fedora_config.Hypridle.Render.{decimal}
use fedora_config.Calendar.Text.{text}

-- `n * 1000`, `n + k`, and `==`.
unfoldable pub thousandfold : ℤ → ℤ
thousandfold (pos n) = pos (1000 * n)
thousandfold (negsuc n) = negsuc (1000 * n + 999)

unfoldable pub add_nat : ℤ → ℕ → ℤ
add_nat (pos n) k = pos (n + k)
add_nat (negsuc n) k = if leb k n then negsuc (n - k) else pos (k - suc n)

unfoldable pub eq_ℤ : ℤ → ℤ → Bool
eq_ℤ (pos m) (pos n) = m == n
eq_ℤ (negsuc m) (negsuc n) = m == n
eq_ℤ _ _ = false

-- `str(n)`
unfoldable pub int_text : ℤ → String
int_text (pos n) = decimal n
int_text (negsuc n) = "-" <> decimal (suc n)

-- A time of the calendar library: whether it is null or a date, its own zone, and the Unix time
-- that it has in a zone.
pub record Time (Zone : Type 0) : Type 0 where
  pub is_null : Bool
  pub is_date : Bool
  pub zone : Option Zone
  pub seconds : Zone → ℤ

pub data Status : Type 0 where
  canceled deleted other : Status

-- A component, whose calls may raise.
pub record Component : Type 0 where
  pub status : Result Status
  pub uid : Result (Option String)
  pub summary : Result (Option String)
  pub location : Result (Option String)

pub record Event : Type 0 where
  pub id : String
  pub uid : String
  pub calendar_uid : String
  pub calendar : String
  pub color : String
  pub is_google : Bool
  pub summary : String
  pub location : String
  pub start_ms : ℤ
  pub end_ms : ℤ
  pub all_day : Bool

abbrev pub Identity : Type 0
Identity = String × ℤ × ℤ

abbrev pub same_identity : Identity → Identity → Bool
same_identity (u, a, b) (v, c, d) = str_eq u v && eq_ℤ a c && eq_ℤ b d

unfoldable pub is_seen : Identity → List Identity → Bool
is_seen i [] = false
is_seen i (j ∷ js) = same_identity j i || is_seen i js

-- The variables that `add_instance` shares with `read_source`.
pub record Reading : Type 0 where
  pub events : List Event
  pub seen : List Identity
  pub first_error : Option Exn

-- A calendar, as the jobs hold it.
pub record Job : Type 0 where
  pub uid : String
  pub name : String
  pub color : String
  pub is_google : Bool

-- One instance: the component, its start and its end.
pub record Instance (Zone : Type 0) : Type 0 where
  pub component : Component
  pub start : Time Zone
  pub end : Option (Time Zone)

-- What the calendar's backend does: no connection, no client, or the instances that it calls back
-- with, and whether it then raises.
pub data Backend (Zone : Type 0) : Type 0 where
  unreachable : Exn → Backend Zone
  no_client : Backend Zone
  answers : List (Instance Zone) → Option Exn → Backend Zone

abbrev pub unread : Reading
unread = record { events = []; seen = []; first_error = none }

module _ {Zone : Type 0} (system : Zone) where
  -- `value.get_timezone() or system_timezone`
  unfoldable pub zone_of : Option Zone → Zone
  zone_of none = system
  zone_of (some z) = z

  unfoldable pub timestamp_ms : Option (Time Zone) → Option ℤ
  timestamp_ms none = none
  timestamp_ms (some t) =
      if t.is_null then none else some (thousandfold (t.seconds (zone_of t.zone)))

  -- An hour, or a day, where there is no end after the start.
  unfoldable pub end_of : Option ℤ → Bool → ℤ → ℤ
  end_of none all_day start = add_nat start (if all_day then 86400000 else 3600000)
  end_of (some end) all_day start =
      if leb_ℤ end start then add_nat start (if all_day then 86400000 else 3600000) else end

  unfoldable pub add_seen : Identity → Exec Reading (Unit {0})
  add_seen i r = (ok tt, record r { seen = i ∷ r.seen })

  unfoldable pub append_event : Event → Exec Reading (Unit {0})
  append_event e r = (ok tt, record r { events = r.events ++ (e ∷ []) })

  -- From `seen_events.add(identity)` on.
  unfoldable pub record_event : Job → Component → Bool → Identity → Exec Reading (Unit {0})
  record_event job component all_day (uid, start, end) = do
    add_seen (uid, start, end)
    summary ← lift component.summary
    location ← lift component.location
    append_event (record {
      id = job.uid <> ":" <> uid <> ":" <> int_text start;
      uid = uid;
      calendar_uid = job.uid;
      calendar = job.name;
      color = job.color;
      is_google = job.is_google;
      summary = text summary "(Untitled event)" 500;
      location = text location "" 500;
      start_ms = start;
      end_ms = end;
      all_day = all_day;
    })

  unfoldable pub record_new : Job → Component → Bool → Identity → Exec Reading (Unit {0})
  record_new job component all_day i r =
      (if is_seen i r.seen then pure tt else record_event job component all_day i) r

  -- The body of the `try`, once the status is known.
  unfoldable pub add_timed : Job → Instance Zone → Option ℤ → Exec Reading (Unit {0})
  add_timed job i none = pure tt
  add_timed job i (some start) = do
    uid ← lift i.component.uid
    record_new job i.component i.start.is_date
        (text uid "" 300, start, end_of (timestamp_ms i.end) i.start.is_date start)

  unfoldable pub add_current : Job → Instance Zone → Status → Exec Reading (Unit {0})
  add_current job i other = add_timed job i (timestamp_ms (some i.start))
  add_current job i _ = pure tt

  unfoldable pub try_instance : Job → Instance Zone → Exec Reading (Unit {0})
  try_instance job i = lift i.component.status >>= λ status. add_current job i status

  -- `if first_error is None: first_error = error`
  unfoldable pub note_error : Option Exn → Exn → Option Exn
  note_error none e = some e
  note_error (some first) e = some first

  -- The `except` clause.
  unfoldable pub catch_error : Result (Unit {0}) × Reading → Reading
  catch_error (ok u, r) = r
  catch_error (raised e, r) = record r { first_error = note_error r.first_error e }

  unfoldable pub add_instance : Job → Instance Zone → Reading → Reading
  add_instance job i r = catch_error (try_instance job i r)

  unfoldable pub add_instances : Job → List (Instance Zone) → Reading → Reading
  add_instances job [] r = r
  add_instances job (i ∷ is) r = add_instances job is (add_instance job i r)

  -- The `except` clause around the whole.
  unfoldable pub note_failure : Option Exn → Reading → Reading
  note_failure none r = r
  note_failure (some e) r = record r { first_error = note_error r.first_error e }

  unfoldable pub read_source : Job → Backend Zone → Reading
  read_source job (unreachable e) = note_failure (some e) unread
  read_source job no_client =
      note_failure (some (runtime_error "calendar backend did not return a client")) unread
  read_source job (answers instances failure) =
      note_failure failure (add_instances job instances unread)
