-- ===== src/Calendar/Tests.antt =====
-- The theorems on calendar-events.py at concrete inputs: a registry whose parents go round in a
-- circle, a backend that answers twice, and a request that its deadline ends.
use fedora_config.Base.{
  ℕ, ℤ, pos, ◌≡◌, ◌↔◌, ◌⊎◌, inl, inr, refl, sym, Bool, true, false, Bool-cases, Option, none, some,
  List, [], ◌∷◌, is_member, strip, take_chars, String, str_eq, eq_iff, if◌then◌else◌, ok, Exn,
}
use fedora_config.Calendar.Text.{text, or_fallback, clean, remove_nul}
use fedora_config.Calendar.Window.{parse_range, parse_range_iff, AreWindow}
use fedora_config.Calendar.Sources.{Node, uid_of, source_is_google}
use fedora_config.Calendar.Google.{IsGoogle, source_is_google-decides}
use fedora_config.Calendar.Listing.{Source, list_jobs, AreJobsOf, list_jobs-AreJobsOf}
use fedora_config.Calendar.Events.{
  Job, Time, Component, Instance, other, answers, unread, read_source,
}
use fedora_config.Calendar.Distinct.{AreSound, read_source-AreSound}
use fedora_config.Calendar.Results.{Header}
use fedora_config.Calendar.Request.{World, initial, begin, finish_job, expire}

abbrev read : String → Option ℤ
read s = if str_eq s "100" then some (pos 100) else if str_eq s "200" then some (pos 200) else none

parse_range_iff_example :
    (parse_range read ("100" ∷ "200" ∷ []) ≡ ok (100, 200))
    ↔ AreWindow read ("100" ∷ "200" ∷ []) (100, 200)
parse_range_iff_example = parse_range_iff read ("100" ∷ "200" ∷ []) (100, 200)

abbrev node : String → String → Node
node uid parent = record { uid = some uid; parent = some parent; account = none; collection = none }

-- Each is the other's parent.
abbrev registry : String → Option Node
registry k =
    if str_eq k "home"
    then some (node "home" "work")
    else if str_eq k "work"
    then some (node "work" "home")
    else none

abbrev known : List String
known = "home" ∷ "work" ∷ []

abbrev lower : String → String
lower s = s

registry-cases :
    (k : String) (n : Node)
    → registry k ≡ some n
    → ((k ≡ "home") × (n ≡ node "home" "work")) ⊎ ((k ≡ "work") × (n ≡ node "work" "home"))
registry-cases k n h = elim (Bool-cases (str_eq k "home")) [
  | inl y ↦ inl ((eq_iff k "home").0 y, same (sym (rw y at h)))
  | inr d ↦ elim (Bool-cases (str_eq k "work")) [
    | inl y ↦ inr ((eq_iff k "work").0 y, same (sym (rw (d, y) at h)))
    | inr e ↦ absurd (cc (rw (d, e) at h))
  ]
]
  where
    same : {m : Node} → some n ≡ some m → n ≡ m
    same e = cc

registry-finite : (k : String) (n : Node) → registry k ≡ some n → is_member k known ≡ true
unfolding is_member
registry-finite k n h = elim (registry-cases k n h) [
  | inl (at, m) ↦ rw at refl
  | inr (at, m) ↦ rw at refl
]

registry-keyed : (k : String) (n : Node) → registry k ≡ some n → uid_of n ≡ k
unfolding uid_of text or_fallback clean remove_nul strip take_chars
registry-keyed k n h = elim (registry-cases k n h) [
  | inl (at, m) ↦ rw (at, m) refl
  | inr (at, m) ↦ rw (at, m) refl
]

listed : registry (uid_of (node "home" "work")) ≡ some (node "home" "work")
unfolding uid_of text or_fallback clean remove_nul strip take_chars
listed = refl

-- The parents go round: the loop ends, and the source is not Google's.
source_is_google-decides_example :
    (b : Bool) × (source_is_google registry [] lower 3 (node "home" "work") (some "local") ≡ some b)
    × (b ≡ true → IsGoogle registry [] lower (node "home" "work") (some "local"))
    × (IsGoogle registry [] lower (node "home" "work") (some "local") → b ≡ true)
source_is_google-decides_example =
    source_is_google-decides registry [] lower known registry-finite registry-keyed
      (node "home" "work") (some "local") listed

abbrev source : Bool → Option String → Source
source enabled backend = record {
  node = node "home" "work";
  enabled = enabled;
  selected = true;
  display_name = some "Home";
  color = none;
  backend = backend;
}

abbrev sources : List Source
sources = source false none ∷ source true (some "google") ∷ []

list_jobs-AreJobsOf_example :
    (jobs : List Job) × (list_jobs registry [] lower 3 sources ≡ some jobs)
    × AreJobsOf registry [] lower sources jobs
list_jobs-AreJobsOf_example =
    list_jobs-AreJobsOf registry [] lower known registry-finite registry-keyed sources
      (listed, (listed, tt))

abbrev job : String → Job
job uid = record { uid = uid; name = uid; color = "#62a0ea"; is_google = false }

abbrev time : ℕ → Time Bool
time n = record { is_null = false; is_date = false; zone = none; seconds = λ z. pos n }

abbrev meeting : Component
meeting = record {
  status = ok other;
  uid = ok (some "meeting");
  summary = ok (some "Meeting");
  location = ok none;
}

abbrev twice : Instance Bool
twice = record { component = meeting; start = time 100; end = some (time 50) }

read_source-AreSound_example :
    AreSound (read_source true (job "home") (answers (twice ∷ twice ∷ []) none)).events
read_source-AreSound_example =
    read_source-AreSound true (job "home") (answers (twice ∷ twice ∷ []) none)

abbrev jobs : List Job
jobs = job "home" ∷ job "work" ∷ []

abbrev message : Exn → String
message e = "error"

abbrev header : Header
header = record { goa_error = ""; accounts = 0; calendar_accounts = 0 }

abbrev reached : World
reached = expire message lower (
    finish_job message lower (job "work") unread
      (begin message lower (100, 200) header jobs (initial message lower (100, 200) header)))
