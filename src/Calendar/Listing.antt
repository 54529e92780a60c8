-- ===== src/Calendar/Listing.antt =====
-- The calendars that `main` of calendar-events.py asks.
use fedora_config.Base.{
  ℕ, suc, ◌≡◌, ◌⊎◌, inl, inr, refl, Bool, true, false, ◌&&◌, Bool-cases, Option, none, some, List,
  [], ◌∷◌, All, is_member, length, String, codes, if◌then◌else◌,
}
use fedora_config.Calendar.Text.{text, default_color, is_hex_digit, is_color, color_of}
use fedora_config.Calendar.Sources.{Node, uid_of, source_is_google}
use fedora_config.Calendar.Google.{IsGoogle, source_is_google-decides}
use fedora_config.Calendar.Events.{Job}

-- A source of the registry's list, with its calendar extension.
pub record Source : Type 0 where
  pub node : Node
  pub enabled : Bool
  pub selected : Bool
  pub display_name : Option String
  pub color : Option String
  pub backend : Option String

-- Whether the loop's two `continue`s let it through.
unfoldable pub is_shown : Source → Bool
is_shown s = s.enabled && s.selected

unfoldable pub job_of : Source → Bool → Job
job_of s is_google = record {
  uid = uid_of s.node;
  name = text s.display_name "Calendar" 160;
  color = color_of s.color;
  is_google = is_google;
}

module _ (registry : String → Option Node) (accounts : List String) (lower : String → String) where
  unfoldable pub add_job : Source → Option Bool → Option (List Job) → Option (List Job)
  add_job s (some is_google) (some jobs) = some (job_of s is_google ∷ jobs)
  add_job s _ _ = none

  -- The loop over the sources, `none` when the rounds for the parents were not enough.
  unfoldable pub list_jobs : ℕ → List Source → Option (List Job)
  list_jobs fuel [] = some []
  list_jobs fuel (s ∷ sources) =
      let rest = list_jobs fuel sources in
      if is_shown s
      then add_job s (source_is_google registry accounts lower fuel s.node s.backend) rest
      else rest

  -- The job of a source: its uid, a color of the form, and whether it is Google's.
  pub record IsJobOf (s : Source) (job : Job) : Type 0 where
    uid : job.uid ≡ uid_of s.node
    name : job.name ≡ text s.display_name "Calendar" 160
    colored : is_color (codes job.color) ≡ true
    google : job.is_google ≡ true → IsGoogle registry accounts lower s.node s.backend
    of_google : IsGoogle registry accounts lower s.node s.backend → job.is_google ≡ true

  -- A job for each source that is enabled and selected, in the order of the sources.
  abbrev pub AreJobsOf : List Source → List Job → Type 0
  AreJobsOf [] [] = Unit
  AreJobsOf [] (job ∷ jobs) = ⊥
  AreJobsOf (s ∷ sources) jobs =
      ((is_shown s ≡ false) × AreJobsOf sources jobs)
      ⊎ ((job : Job) × (rest : List Job) × (jobs ≡ job ∷ rest)
          × (s.enabled ≡ true)
          × (s.selected ≡ true)
          × IsJobOf s job
          × AreJobsOf sources rest)

  module _ (known : List String)
      (finite : (k : String) (n : Node) → registry k ≡ some n → is_member k known ≡ true)
      (keyed : (k : String) (n : Node) → registry k ≡ some n → uid_of n ≡ k) where
    color_of-IsColor : (value : Option String) → is_color (codes (color_of value)) ≡ true
    unfolding color_of is_color is_hex_digit
    color_of-IsColor value = elim (Bool-cases (is_color (codes (text value default_color 16)))) [
      | inl y ↦ rw y y
      | inr n ↦ rw n refl
    ]

    job_of-IsJobOf :
        (s : Source) (b : Bool)
        → (b ≡ true → IsGoogle registry accounts lower s.node s.backend)
        → (IsGoogle registry accounts lower s.node s.backend → b ≡ true)
        → IsJobOf s (job_of s b)
    unfolding job_of
    job_of-IsJobOf s b only back = record {
      uid = refl;
      name = refl;
      colored = color_of-IsColor s.color;
      google = only;
      of_google = back;
    }

    both : (a b : Bool) → (a && b) ≡ true → (a ≡ true) × (b ≡ true)
    both true b h = (refl, h)
    both false b h = absurd (cc)

    is_shown-eq : (s : Source) → is_shown s ≡ true → (s.enabled && s.selected) ≡ true
    unfolding is_shown
    is_shown-eq s h = h

    -- The registry has finitely many sources, each found under its uid, and the listed sources are
    -- of it: the loop ends, and makes a job for each source that is enabled and selected, in the
    -- order of the sources, with the source's uid and name, a color of the form `#` and six or
    -- eight hexadecimal digits, and the mark of Google's where the source's backend or a source
    -- above is Google's, and nowhere else.
    pub list_jobs-AreJobsOf :
        (sources : List Source)
        → All (λ s. registry (uid_of s.node) ≡ some s.node) sources
        → (jobs : List Job) × (list_jobs (suc (length known)) sources ≡ some jobs)
          × AreJobsOf sources jobs
    unfolding list_jobs add_job
    list_jobs-AreJobsOf [] listed = ([], refl, tt)
    list_jobs-AreJobsOf (s ∷ sources) (here, listed) =
        let (jobs, found, good) = list_jobs-AreJobsOf sources listed in
        elim (Bool-cases (is_shown s)) [
          | inl shown ↦
              let (b, decided, google, back) =
                source_is_google-decides registry accounts lower known finite keyed s.node s.backend
                  here in
              let (on, selected) = both s.enabled s.selected (is_shown-eq s shown) in
              (
                job_of s b ∷ jobs,
                rw (shown, decided, found) refl,
                inr (job_of s b, jobs, refl, on, selected, job_of-IsJobOf s b google back, good),
              )
          | inr hidden ↦ (jobs, rw (hidden, found) refl, inl (hidden, good))
        ]
