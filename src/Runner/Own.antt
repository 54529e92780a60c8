-- ===== src/Runner/Own.antt =====
-- Which registrations release_runner.py deletes.
use fedora_config.Base.{
  ℕ, ◌≡◌, ◌⊎◌, inl, inr, ◌++◌, refl, sym, ap, subst, ◌∙◌, Bool, true, false, Option, none, some,
  List, [], ◌∷◌, String, str_eq,
}
use fedora_config.Base.{Result, ok, raised, Exec, pure, lift}
use fedora_config.Base.Action.{
  ◌>>=◌, Keeps, Keeps-bind, Keeps-lift, Keeps-pure, keeps_rules, bind-eq-ok, continue, Keeps-read,
}
use fedora_config.Json.{Fields}
use fedora_config.Base.{active_runner}
use fedora_config.Base.{result, final}
use fedora_config.Base.Ensures.{Ensures, Ensures-then}
use fedora_config.Json.{Value, null}
use fedora_config.Runner.Site.{
  Site, World, Log, Call, Reply, request, call, finally_do, set_retain, configure, start,
  remove_staging,
}
use fedora_config.Runner.Job.{Url}
use fedora_config.Runner.Github.{
  api, pages, read_reply, read_pages, owned_runner, delete_runner, cleanup_registration,
  runner_endpoint, runners_endpoint, check_other, check_others, check_states, reviewed_job,
}
use fedora_config.Runner.Listed.{IsOnly, find_owned-IsOnly}
use fedora_config.Runner.Execute.{
  download, check_entry, extract, run_child, recast, confirm_stopped, run_scoped_runner, retaining,
  run_retaining, check_completed, run_registered, run_staged, clean_staging, clean_work,
  remove_work,
}

module _ (site : Site) (name : String) where
  -- The last call listed the runners, and the one of this name, alone, has the identifier.
  abbrev pub Listed : Log → Value → Type 0
  Listed [] id = ⊥
  Listed ((c, ok reply) ∷ log) id =
      (c ≡ request "GET" runners_endpoint true)
      × ((answer : Option Value) × (runners : List Value) × (read_reply "GET" reply ≡ ok answer)
          × (read_pages "runners" answer ≡ ok runners)
          × IsOnly name runners id)
  Listed ((c, raised e) ∷ log) id = ⊥

  -- A call that deletes follows the listing that its identifier is of.
  abbrev pub IsOwnCall : Call → Log → Type 0
  IsOwnCall (request method endpoint paginate) log =
      str_eq method "DELETE" ≡ true
      → (id : Value) × (endpoint ≡ runner_endpoint site id) × Listed log id
  IsOwnCall _ log = Unit

  abbrev pub IsOwn : Log → Type 0
  IsOwn [] = Unit
  IsOwn ((c, r) ∷ log) = IsOwnCall c log × IsOwn log

-- The runner has been started.
abbrev pub IsStarted : Log → Type 0
IsStarted [] = ⊥
IsStarted ((c, r) ∷ log) = ((unit : String) × (c ≡ start unit)) ⊎ IsStarted log

module _ (site : Site) where
  -- An answered call is the latest of the log.
  pub call-log :
      (c : Call) (w w' : World site.Desk) (reply : Reply)
      → call site c w ≡ (ok reply, w')
      → w'.log ≡ (c, ok reply) ∷ w.log
  unfolding call
  call-log c w w' reply e =
      ap (λ (p : Result Reply × World site.Desk). p.1.log) (sym e)
      ∙ ap (λ r. (c, r) ∷ w.log) (ap (λ (p : Result Reply × World site.Desk). p.0) e)

module _ (site : Site) (name : String) (made : Bool) (key : Log) where
  -- The log goes on from `key`; and `retain` is not set before the runner was started.
  abbrev pub Own : World site.Desk → Type 0
  Own w =
      IsOwn site name w.log
      × (w.staging ≡ made)
      × ((newer : Log) × (w.log ≡ newer ++ key))
      × (w.retain ≡ true → IsStarted w.log)

  called :
      (c : Call) (w : World site.Desk) → IsOwnCall site name c w.log → Own w → Own (call site c w).1
  unfolding call
  called c w own (h, s, (newer, since), kept) = (
    (own, h),
    s,
    ((c, (site.ask c w.desk).0) ∷ newer, ap (λ (l : Log). (c, (site.ask c w.desk).0) ∷ l) since),
    λ e. inr (kept e),
  )

  pub call-Keeps : (c : Call) → ((log : Log) → IsOwnCall site name c log) → Keeps Own (call site c)
  call-Keeps c own = record { at = λ w h. called c w (own w.log) h }

  api-Keeps :
      (method endpoint : String) (paginate : Bool)
      → str_eq method "DELETE" ≡ false
      → Keeps Own (api site method endpoint paginate)
  unfolding api
  api-Keeps method endpoint paginate d =
      Keeps-bind _ _ (call-Keeps _ (λ log e. absurd (cc (d, e)))) (λ _. Keeps-lift _)

  pages-Keeps : (endpoint field : String) → Keeps Own (pages site endpoint field)
  unfolding pages
  pages-Keeps endpoint field =
      Keeps-bind _ _ (api-Keeps "GET" endpoint true refl) (λ _. Keeps-lift _)

  owned_runner-Keeps : (n : String) → Keeps Own (owned_runner site n)
  unfolding owned_runner
  owned_runner-Keeps n = Keeps-bind _ _ (pages-Keeps _ _) (λ _. Keeps-lift _)

  check_other-Keeps : (run_id : ℕ) (other : Value) → Keeps Own (check_other site run_id other)
  unfolding check_other
  check_other-Keeps run_id other = search (keeps_rules, pages-Keeps)

  check_others-Keeps :
      (run_id : ℕ) (others : List Value) → Keeps Own (check_others site run_id others)
  unfolding check_others
  check_others-Keeps run_id [] = Keeps-pure tt
  check_others-Keeps run_id (other ∷ others) =
      Keeps-bind _ _ (check_other-Keeps run_id other) (λ _. check_others-Keeps run_id others)

  check_states-Keeps :
      (run_id : ℕ) (states : List String) → Keeps Own (check_states site run_id states)
  unfolding check_states
  check_states-Keeps run_id [] = Keeps-pure tt
  check_states-Keeps run_id (state ∷ rest) = Keeps-bind _ _ (pages-Keeps _ _) (λ runs.
      Keeps-bind _ _ (check_others-Keeps run_id runs) (λ _. check_states-Keeps run_id rest))

  pub get-Keeps :
      (endpoint : String) (paginate : Bool) → Keeps Own (api site "GET" endpoint paginate)
  get-Keeps endpoint paginate = api-Keeps "GET" endpoint paginate refl

  post-Keeps : (endpoint : String) (paginate : Bool) → Keeps Own (api site "POST" endpoint paginate)
  post-Keeps endpoint paginate = api-Keeps "POST" endpoint paginate refl

  pub reviewed_job-Keeps :
      (run_id : ℕ) (head : String) (own : Value) → Keeps Own (reviewed_job site run_id head own)
  unfolding reviewed_job
  reviewed_job-Keeps run_id head own =
      search (keeps_rules, pages-Keeps, get-Keeps, check_states-Keeps) depth 20

  -- What a listing that found the runner has left in the log.
  owned_runner-Listed :
      (w w' : World site.Desk) (id : Value)
      → owned_runner site name w ≡ (ok (some id), w')
      → Listed site name w'.log id
  unfolding owned_runner pages api lift
  owned_runner-Listed w w' id e =
      let (runners, t, p, q) =
        bind-eq-ok (pages site runners_endpoint "runners") _ w (some id) w' e in
      let (answer, u, p1, q1) = bind-eq-ok (api site "GET" runners_endpoint true) _ w runners t p in
      let (reply, v, p2, q2) =
        bind-eq-ok (call site (request "GET" runners_endpoint true)) _ w answer u p1 in
      let same : v ≡ w' = ap final q2 ∙ ap final q1 ∙ ap final q in
      subst (λ (l : Log). Listed site name l id)
        (sym (call-log site _ w v reply p2) ∙ ap (λ (x : World site.Desk). x.log) same)
        (
          refl,
          (
            answer,
            runners,
            ap result q2,
            ap result q1,
            find_owned-IsOnly name runners id (ap result q),
          ),
        )

  delete_call-Ensures :
      (id : Value)
      → Ensures
          (λ (w : World site.Desk). Own w × Listed site name w.log id)
          Own
          (call site (request "DELETE" (runner_endpoint site id) false))
  delete_call-Ensures id = record { at = λ w (h, l). called _ w (λ _. (id, refl, l)) h }

  delete-Ensures :
      (id : Value)
      → Ensures
          (λ (w : World site.Desk). Own w × Listed site name w.log id)
          Own
          (api site "DELETE" (runner_endpoint site id) false >>= λ _. pure tt)
  unfolding api
  delete-Ensures id =
      Ensures-then _ _ (Ensures-then _ _ (delete_call-Ensures id) (λ _. Keeps-lift _))
        (λ _. Keeps-pure tt)

  delete_runner-Own :
      (o : Option Value) (w : World site.Desk)
      → ((id : Value) → o ≡ some id → Listed site name w.log id)
      → Own w
      → Own (delete_runner site o w).1
  unfolding delete_runner pure
  delete_runner-Own none w l h = h
  delete_runner-Own (some null) w l h = h
  delete_runner-Own (some id) w l h = (delete-Ensures id).at w (h, l id refl)

  cleanup-Keeps : Keeps Own (cleanup_registration site name)
  unfolding cleanup_registration ◌>>=◌
  cleanup-Keeps = record {
    at = λ w h.
        after w (owned_runner site name w).0 (owned_runner site name w).1 refl
          ((owned_runner-Keeps name).at w h);
  }
    where
      after :
          (w : World site.Desk) (r : Result (Option Value)) (w' : World site.Desk)
          → owned_runner site name w ≡ (r, w')
          → Own w'
          → Own (continue r (delete_runner site) w').1
      after w (raised e) w' q h = h
      after w (ok o) w' q h =
          delete_runner-Own o w' (λ id s. owned_runner-Listed w w' id (q ∙ ap (λ x. (ok x, w')) s))
            h

  pub finally_do-Keeps :
      {A : Type 0} (m : Exec (World site.Desk) A) (k : Exec (World site.Desk) (Unit {0}))
      → Keeps Own m
      → Keeps Own k
      → Keeps Own (finally_do m k)
  unfolding finally_do
  finally_do-Keeps m k km kk = record { at = λ w h. kk.at (m w).1 (km.at w h) }

  recast-Keeps :
      (f : Result (Unit {0}) → Result (Unit {0})) (m : Exec (World site.Desk) (Unit {0}))
      → Keeps Own m
      → Keeps Own (recast f m)
  unfolding recast
  recast-Keeps f m km = record { at = λ w h. km.at w h }

  call-IsStarted : (c : Call) → Keeps (λ (w : World site.Desk). IsStarted w.log) (call site c)
  unfolding call
  call-IsStarted c = record { at = λ w h. inr h }

  module _ (urlsplit : Value → Result Url) where
    download-Keeps :
        (url : Value) (checksum : String) → Keeps Own (download site urlsplit url checksum)
    unfolding download
    download-Keeps url checksum = search (keeps_rules, call-Keeps) depth 20

    check_entry-Keeps : (entry : String) → Keeps Own (check_entry site urlsplit entry)
    unfolding check_entry
    check_entry-Keeps entry = search (keeps_rules, call-Keeps) depth 20

    extract-Keeps : Keeps Own (extract site urlsplit)
    unfolding extract
    extract-Keeps = search (keeps_rules, call-Keeps, check_entry-Keeps) depth 20

    configure-Keeps : (n : String) → Keeps Own (run_child site urlsplit (configure n))
    unfolding run_child
    configure-Keeps n = search (keeps_rules, call-Keeps) depth 20

    start-Keeps : (n : String) → Keeps Own (run_child site urlsplit (start n))
    unfolding run_child
    start-Keeps n = search (keeps_rules, call-Keeps) depth 20

    confirm_stopped-Keeps : (n : String) → Keeps Own (confirm_stopped site urlsplit n)
    unfolding confirm_stopped
    confirm_stopped-Keeps n = search (keeps_rules, call-Keeps) depth 20

    run_scoped_runner-Keeps : (n : String) → Keeps Own (run_scoped_runner site urlsplit n)
    unfolding run_scoped_runner
    run_scoped_runner-Keeps n =
        finally_do-Keeps _ _ (start-Keeps n) (recast-Keeps _ _ (confirm_stopped-Keeps n))

    confirm_stopped-IsStarted :
        (n : String)
        → Keeps (λ (w : World site.Desk). IsStarted w.log) (confirm_stopped site urlsplit n)
    unfolding confirm_stopped call
    confirm_stopped-IsStarted n = search (keeps_rules, call-IsStarted) depth 20

    start-IsStarted :
        (n : String)
        → Ensures
            (λ (w : World site.Desk). Unit {0})
            (λ w. IsStarted w.log)
            (run_child site urlsplit (start n))
    unfolding run_child call
    start-IsStarted n = Ensures-then _ _ (record { at = λ w _. inl (n, refl) }) (λ _. Keeps-lift _)

    run_scoped_runner-IsStarted :
        (n : String) (w : World site.Desk) → IsStarted (run_scoped_runner site urlsplit n w).1.log
    unfolding run_scoped_runner finally_do recast
    run_scoped_runner-IsStarted n w =
        (confirm_stopped-IsStarted n).at _ ((start-IsStarted n).at w tt)

    retaining-Own :
        (r : Result (Unit {0})) (w : World site.Desk)
        → Own w
        → IsStarted w.log
        → Own (retaining site urlsplit r w).1
    unfolding ◌>>=◌ set_retain
    retaining-Own (raised (active_runner e)) w (h, s, since, kept) started =
        (h, s, since, λ _. started)
    retaining-Own (ok u) w h started = h
    retaining-Own (raised _) w h started = h

    run_retaining-Keeps : (n : String) → Keeps Own (run_retaining site urlsplit n)
    unfolding run_retaining
    run_retaining-Keeps n = record {
      at = λ w h.
          retaining-Own (run_scoped_runner site urlsplit n w).0 _
            ((run_scoped_runner-Keeps n).at w h) (run_scoped_runner-IsStarted n w);
    }

    check_completed-Keeps :
        (run_id : ℕ) (identifier : Value) (head : String) (job : Fields)
        → Keeps Own (check_completed site urlsplit run_id identifier head job)
    unfolding check_completed
    check_completed-Keeps run_id identifier head job = search (keeps_rules, get-Keeps) depth 20

    run_registered-Keeps :
        (run_id : ℕ) (head n : String) → Keeps Own (run_registered site urlsplit run_id head n)
    unfolding run_registered
    run_registered-Keeps run_id head n =
        search
          (
            keeps_rules, configure-Keeps, owned_runner-Keeps, reviewed_job-Keeps,
            run_retaining-Keeps, check_completed-Keeps,
          )
          depth 30

    clean_work-Keeps : (b : Bool) → Keeps Own (clean_work site urlsplit b)
    unfolding clean_work remove_work
    clean_work-Keeps true = Keeps-pure tt
    clean_work-Keeps false =
        Keeps-bind _ _ (call-Keeps remove_staging (λ _. tt)) (λ _. Keeps-pure tt)

    pub clean_staging-Keeps : Keeps Own (clean_staging site urlsplit)
    unfolding clean_staging
    clean_staging-Keeps =
        Keeps-read (λ w. clean_work site urlsplit w.retain) (λ w. clean_work-Keeps w.retain)

    pub run_staged-Keeps :
        (run_id : ℕ) (head : String) (url : Value) (checksum : String)
        → Keeps Own (run_staged site urlsplit run_id head name url checksum)
    unfolding run_staged
    run_staged-Keeps run_id head url checksum =
        search
          (
            keeps_rules, call-Keeps, download-Keeps, extract-Keeps, reviewed_job-Keeps, post-Keeps,
            finally_do-Keeps, recast-Keeps, run_registered-Keeps, cleanup-Keeps,
          )
          depth 40
