-- ===== src/Runner/Cleaned.antt =====
-- What a run of `execute` of release_runner.py leaves behind.
use fedora_config.Base.{
  ℕ, ◌≡◌, ◌⊎◌, ap, ◌++◌, lift, refl, Bool, true, false, inl, inr, [], ◌∷◌, String, ◌<>◌,
}
use fedora_config.Base.{Result, ok, raised, Exec, pure}
use fedora_config.Base.Action.{◌>>=◌, Keeps, Keeps-lift, continue}
use fedora_config.Base.Ensures.{Ensures, Ensures-bind}
use fedora_config.Json.{Value, null}
use fedora_config.Runner.Site.{
  Site, World, Log, Call, Reply, call, user_manager, fresh, make_staging, remove_staging,
  set_staging, finally_do,
}
use fedora_config.Runner.Job.{Url, label_of}
use fedora_config.Runner.Github.{api, reviewed_job}
use fedora_config.Runner.Execute.{
  read_text, run_staged, clean_staging, clean_work, remove_work, execute,
}
use fedora_config.Runner.Own.{
  IsOwn, IsOwnCall, IsStarted, Own, call-Keeps, call-log, get-Keeps, reviewed_job-Keeps,
  run_staged-Keeps, clean_staging-Keeps,
}

module _ (site : Site) where
  -- No registration is deleted that is not its own, whatever the name, and nothing is staged.
  abbrev pub IsUnstaged : World site.Desk → Type 0
  IsUnstaged w = (name : String) → Own site name false [] w

  Keeps-IsUnstaged :
      {A : Type 0} (m : Exec (World site.Desk) A)
      → ((name : String) → Keeps (Own site name false []) m)
      → Keeps IsUnstaged m
  Keeps-IsUnstaged m k = record { at = λ w h name. (k name).at w (h name) }

  -- The removal of the staging directory came last, or `retain` is set.
  abbrev pub IsCleaned : World site.Desk → Type 0
  IsCleaned w =
      (w.retain ≡ true)
      ⊎ ((r : Result Reply) × (older : Log) × (w.log ≡ (remove_staging, r) ∷ older))

  -- The suffix is an answer to the call for a fresh one.
  abbrev pub IsFresh : String → Log → Type 0
  IsFresh suffix log =
      (unique : Reply) × (newer : Log) × (older : Log) × (read_text unique ≡ ok suffix)
      × (log ≡ newer ++ ((fresh, ok unique) ∷ older))

  -- Nothing was staged, and nothing was deleted by any name; or, with a fresh suffix, what was
  -- deleted is the run's own, and the staging directory's removal came last, or it is retained and
  -- the runner had been started.
  abbrev pub IsOver : ℕ → World site.Desk → Type 0
  IsOver run_id w =
      ((w.staging ≡ false) × ((name : String) → IsOwn site name w.log))
      ⊎ ((suffix : String) × IsFresh suffix w.log
          × IsOwn site (label_of run_id <> "-" <> suffix) w.log
          × (((w.retain ≡ true) × IsStarted w.log)
              ⊎ ((r : Result Reply) × (older : Log) × (w.log ≡ (remove_staging, r) ∷ older))))

  IsOver-unstaged : (run_id : ℕ) (w : World site.Desk) → IsUnstaged w → IsOver run_id w
  IsOver-unstaged run_id w h = (let (_, staged, _, _) = h "" in inl (staged, λ name. (h name).0))

  module _ (urlsplit : Value → Result Url) where
    remove_work-IsCleaned : (w : World site.Desk) → IsCleaned (remove_work site urlsplit w).1
    unfolding remove_work ◌>>=◌ call
    remove_work-IsCleaned w = after (site.ask remove_staging w.desk).0 _ w.log
      where
        after :
            (r : Result Reply) (desk : site.Desk) (older : Log)
            → IsCleaned
                (continue {0, 0} {B = Unit {0}} r
                  (λ _. pure tt)
                  (record w { desk = desk; log = (remove_staging, r) ∷ older })).1
        after (ok reply) desk older = inr (ok reply, older, refl)
        after (raised e) desk older = inr (raised e, older, refl)

    clean_staging-IsCleaned : (w : World site.Desk) → IsCleaned (clean_staging site urlsplit w).1
    unfolding clean_staging clean_work pure
    clean_staging-IsCleaned w = by_flag w.retain refl
      where
        by_flag : (b : Bool) → w.retain ≡ b → IsCleaned (clean_work site urlsplit b w).1
        by_flag true e = inl e
        by_flag false e = remove_work-IsCleaned w

    call-IsUnstaged :
        (c : Call)
        → ((name : String) (log : Log) → IsOwnCall site name c log)
        → Keeps IsUnstaged (call site c)
    call-IsUnstaged c k = Keeps-IsUnstaged _ (λ name. call-Keeps site name false [] c (k name))

    -- The name is fresh, and nothing is staged yet.
    abbrev IsNamed : Reply → Log → World site.Desk → Type 0
    IsNamed unique older w =
        IsUnstaged w × ((newer : Log) × (w.log ≡ newer ++ ((fresh, ok unique) ∷ older)))

    -- From the staging directory on.
    staged-Ensures :
        (run_id : ℕ) (head suffix : String) (url : Value) (checksum : String) (unique : Reply)
        (older : Log)
        → read_text unique ≡ ok suffix
        → Ensures (IsNamed unique older) (IsOver run_id) (
            set_staging site >>= λ _.
            finally_do
              (run_staged site urlsplit run_id head (label_of run_id <> "-" <> suffix) url checksum)
              (clean_staging site urlsplit))
    unfolding ◌>>=◌ set_staging finally_do
    staged-Ensures run_id head suffix url checksum unique older read = record {
      at = λ w (h, since).
          let name = label_of run_id <> "-" <> suffix in
          let key = (fresh, ok unique) ∷ older in
          let staged = record w { staging = true } in
          let run = run_staged site urlsplit run_id head name url checksum in
          let (own, _, _, kept) = h name in
          let (own', _, (newer, since'), kept') =
            (clean_staging-Keeps site name true key urlsplit).at (run staged).1 (
              (run_staged-Keeps site name true key urlsplit run_id head url checksum).at staged
                (own, refl, since, kept)) in
          inr (
            suffix,
            (unique, newer, older, read, since'),
            own',
            elim (clean_staging-IsCleaned (run staged).1) [
              | inl retained ↦ inl (retained, kept' retained)
              | inr removed ↦ inr removed
            ],
          );
    }

    call-IsNamed :
        (unique : Reply) (older : Log) (c : Call)
        → ((name : String) (log : Log) → IsOwnCall site name c log)
        → Keeps (IsNamed unique older) (call site c)
    unfolding call
    call-IsNamed unique older c own = record {
      at = λ w (h, (newer, since)). (
        λ name. (call-Keeps site name false [] c (own name)).at w (h name),
        (
          (c, (site.ask c w.desk).0) ∷ newer,
          ap (λ (l : Log). (c, (site.ask c w.desk).0) ∷ l) since,
        ),
      );
    }

    IsNamed-IsOver :
        (run_id : ℕ) (unique : Reply) (older : Log) (w : World site.Desk)
        → IsNamed unique older w
        → IsOver run_id w
    IsNamed-IsOver run_id unique older w h = IsOver-unstaged run_id w h.0

    -- From the call for a fresh name on.
    fresh-Ensures :
        (run_id : ℕ) (head : String) (url : Value) (checksum : String)
        → Ensures IsUnstaged (IsOver run_id) (
            call site fresh >>= λ unique. lift (read_text unique) >>= λ suffix.
            call site make_staging >>= λ _. set_staging site >>= λ _.
            finally_do
              (run_staged site urlsplit run_id head (label_of run_id <> "-" <> suffix) url checksum)
              (clean_staging site urlsplit))
    unfolding ◌>>=◌
    fresh-Ensures run_id head url checksum = record {
      at = λ w h.
          by_answer w (call site fresh w).0 (call site fresh w).1 refl
            ((call-IsUnstaged fresh (λ name log. tt)).at w h);
    }
      where
        rest : String → Exec (World site.Desk) (Unit {0})
        rest suffix = call site make_staging >>= λ _. set_staging site >>= λ _.
            finally_do
              (run_staged site urlsplit run_id head (label_of run_id <> "-" <> suffix) url checksum)
              (clean_staging site urlsplit)

        by_text :
            (unique : Reply) (older : Log) (r : Result String) (v : World site.Desk)
            → read_text unique ≡ r
            → IsNamed unique older v
            → IsOver run_id (continue r rest v).1
        by_text unique older (raised e) v read named = IsNamed-IsOver run_id unique older v named
        by_text unique older (ok suffix) v read named =
            (Ensures-bind (IsNamed-IsOver run_id unique older) _ _
                (call-IsNamed unique older make_staging (λ name log. tt))
                (λ _. staged-Ensures run_id head suffix url checksum unique older read)).at
              v named

        by_answer :
            (w : World site.Desk) (r : Result Reply) (v : World site.Desk)
            → call site fresh w ≡ (r, v)
            → IsUnstaged v
            → IsOver run_id (continue r (λ unique. lift (read_text unique) >>= rest) v).1
        by_answer w (raised e) v asked h = IsOver-unstaged run_id v h
        by_answer w (ok unique) v asked h =
            by_text unique w.log (read_text unique) v refl
              (h, ([], call-log site fresh w v unique asked))

    reviewed_job-IsUnstaged :
        (run_id : ℕ) (head : String) → Keeps IsUnstaged (reviewed_job site run_id head null)
    reviewed_job-IsUnstaged run_id head =
        Keeps-IsUnstaged _ (λ name. reviewed_job-Keeps site name false [] run_id head null)

    get-IsUnstaged : (endpoint : String) → Keeps IsUnstaged (api site "GET" endpoint false)
    get-IsUnstaged endpoint =
        Keeps-IsUnstaged _ (λ name. get-Keeps site name false [] endpoint false)

    execute-Ensures :
        (run_id : ℕ) (head : String)
        → Ensures IsUnstaged (IsOver run_id) (execute site urlsplit run_id head)
    unfolding execute
    execute-Ensures run_id head =
        let over = IsOver-unstaged run_id in
        Ensures-bind over _ _ (call-IsUnstaged user_manager (λ name log. tt)) (λ manager.
          Ensures-bind over _ _ (Keeps-lift _) (λ _.
            Ensures-bind over _ _ (reviewed_job-IsUnstaged run_id head) (λ _.
              Ensures-bind over _ _ (get-IsUnstaged _) (λ answer.
                Ensures-bind over _ _ (Keeps-lift _) (λ releases.
                  Ensures-bind over _ _ (Keeps-lift _)
                    (λ pin. fresh-Ensures run_id head pin.0 pin.1))))))

    -- However `execute` ends, by a return or by an exception of any call: either no staging
    -- directory was made and no registration was deleted; or its suffix is the answer to its call
    -- for a fresh one, each registration that was deleted has the identifier of the one runner that
    -- the listing just before has with the run's own name, alone, and the removal of the staging
    -- directory is the last call, or `retain` is set and the runner had been started.
    pub execute-IsOver :
        (run_id : ℕ) (head : String) (desk : site.Desk)
        → IsOver run_id
            (execute site urlsplit run_id head
              (record { desk = desk; log = []; staging = false; retain = false })).1
    execute-IsOver run_id head desk =
        (execute-Ensures run_id head).at _ (λ name. (tt, refl, ([], refl), λ e. absurd (cc e)))
