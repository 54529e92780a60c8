-- ===== src/Runner/Github.antt =====
-- `api`, `pages`, `reviewed_job`, `owned_runner` and `cleanup_registration` of release_runner.py.
use fedora_config.Base.{
  ℕ, ◌==◌, Bool, true, false, not, ◌&&◌, any, Option, none, some, List, [], ◌∷◌, ◌++◌, String, ◌<>◌,
  str_eq, if◌then◌else◌,
}
use fedora_config.Base.{
  Result, ok, raised, value_error, runtime_error, type_error, key_error, Exec, pure, lift,
}
use fedora_config.Base.Fallible
use fedora_config.Base.Fallible.{raise_if, and_then}
use fedora_config.Base.Action.{◌>>=◌, ◌>>◌, refuse_if}
use fedora_config.Json.{
  Value, null, str, arr, obj, Fields, get, get_or, or_null, keys, items, nil, is_text,
}
use fedora_config.Hypridle.Render.{decimal}
use fedora_config.Runner.Site.{
  Site, World, Reply, Output, request, answered, blank, unparsed, document, call,
}
use fedora_config.Runner.Job.{
  repository, label_of, validate_run, validate_job, as_answer, is_labelled, select, is_number,
}

unfoldable pub read_output : Output → Result (Option Value)
read_output blank = ok none
read_output unparsed = raised (value_error "the answer does not parse")
read_output (document v) = ok (some v)

-- The answer of `gh`; a runner that removed itself is gone already.
unfoldable pub read_reply : String → Reply → Result (Option Value)
read_reply method (answered code is_missing output) =
    if code == 0
    then read_output output
    else if str_eq method "DELETE" && is_missing
    then ok none
    else raised (
        runtime_error
          "GitHub API failed; check gh authentication and repository administration access")
read_reply method _ = raised type_error

-- The items that `for` goes through.
unfoldable pub characters : String → List Value
characters String.[] = []
characters (String.◌∷◌ c s) = str (String.◌∷◌ c String.[]) ∷ characters s

unfoldable pub as_strings : List String → List Value
as_strings [] = []
as_strings (s ∷ ss) = str s ∷ as_strings ss

unfoldable pub iterate : Value → Result (List Value)
iterate (arr xs) = ok (items xs)
iterate (obj fields) = ok (as_strings (keys fields))
iterate (str s) = ok (characters s)
iterate _ = raised type_error

-- `page[field]`
unfoldable pub field_of : String → Value → Result Value
field_of field (obj page) = elim (get field page) [ none ↦ raised key_error | some v ↦ ok v ]
field_of field _ = raised type_error

unfoldable pub join_pages : String → List Value → Result (List Value)
join_pages field [] = ok []
join_pages field (page ∷ pages) = Fallible.◌>>=◌ (field_of field page) (λ v.
    Fallible.◌>>=◌ (iterate v)
      (λ found. Fallible.◌>>=◌ (join_pages field pages) (λ rest. ok (found ++ rest))))

unfoldable pub read_pages : String → Option Value → Result (List Value)
read_pages field answer = Fallible.◌>>=◌ (iterate (or_null answer)) (join_pages field)

-- `runner.get('name') == name`
unfoldable pub is_named : String → Value → Result Bool
is_named name answer =
    Fallible.◌>>=◌ (as_answer answer) (λ runner. ok (is_text name (or_null (get "name" runner))))

-- The identifier of the one runner of that name.
unfoldable pub identifier_of : List Value → Result (Option Value)
identifier_of [] = ok none
identifier_of (v ∷ []) = Fallible.◌>>=◌ (field_of "id" v) (λ id. ok (some id))
identifier_of _ =
    raised
      (runtime_error "Ambiguous ephemeral runner registration; refuse to delete another runner")

unfoldable pub find_owned : String → List Value → Result (Option Value)
find_owned name runners = Fallible.◌>>=◌ (select (is_named name) runners) identifier_of

-- `any(...)` over a test that may raise.
unfoldable pub any_of : (Value → Result Bool) → List Value → Result Bool
any_of p [] = ok false
any_of p (v ∷ vs) =
    let rest = any_of p vs in Fallible.◌>>=◌ (p v) (λ holds. if holds then ok true else rest)

-- `[item.get('name') for item in labels]`
unfoldable pub label_names : List Value → Result (List Value)
label_names [] = ok []
label_names (v ∷ vs) =
    Fallible.◌>>=◌ (as_answer v)
      (λ label. Fallible.◌>>=◌ (label_names vs) (λ names. ok (or_null (get "name" label) ∷ names)))

unfoldable pub has_label : String → Fields → Result Bool
has_label label runner =
    Fallible.◌>>=◌ (iterate (get_or (arr nil) (get "labels" runner)))
      (λ labels. Fallible.◌>>=◌ (label_names labels) (λ names. ok (any (is_text label) names)))

-- `label in item.get('labels', []) and item.get('status') != 'completed'`
unfoldable pub is_unfinished : String → Value → Result Bool
is_unfinished label answer = Fallible.◌>>=◌ (as_answer answer) (λ item.
    and_then (is_labelled label (get_or (arr nil) (get "labels" item)))
      (ok (not (is_text "completed" (or_null (get "status" item))))))

abbrev pub states : List String
states = "queued" ∷ "in_progress" ∷ "waiting" ∷ "pending" ∷ "requested" ∷ []

abbrev pub runners_endpoint : String
runners_endpoint = "repos/" <> repository <> "/actions/runners?per_page=100"

-- `runs/{id}/jobs?filter=latest&per_page=100`, and the others.
abbrev pub jobs_endpoint : String → String
jobs_endpoint id =
    "repos/" <> repository <> "/actions/runs/" <> id <> "/jobs?filter=latest&per_page=100"

abbrev pub run_endpoint : ℕ → String
run_endpoint run_id = "repos/" <> repository <> "/actions/runs/" <> decimal run_id

abbrev pub status_endpoint : String → String
status_endpoint state =
    "repos/" <> repository <> "/actions/runs?status=" <> state <> "&per_page=100"

module _ (site : Site) where
  unfoldable pub api : String → String → Bool → Exec (World site.Desk) (Option Value)
  api method endpoint paginate =
      call site (request method endpoint paginate) >>= λ reply. lift (read_reply method reply)

  unfoldable pub pages : String → String → Exec (World site.Desk) (List Value)
  pages endpoint field = api "GET" endpoint true >>= λ answer. lift (read_pages field answer)

  unfoldable pub owned_runner : String → Exec (World site.Desk) (Option Value)
  owned_runner name = pages runners_endpoint "runners" >>= λ runners. lift (find_owned name runners)

  -- `repos/.../actions/runners/{identifier}`
  abbrev pub runner_endpoint : Value → String
  runner_endpoint identifier =
      "repos/" <> repository <> "/actions/runners/" <> site.format identifier

  -- `if identifier is not None: api(..., method='DELETE')`
  unfoldable pub delete_runner : Option Value → Exec (World site.Desk) (Unit {0})
  delete_runner none = pure tt
  delete_runner (some null) = pure tt
  delete_runner (some identifier) = api "DELETE" (runner_endpoint identifier) false >>= λ _. pure tt

  unfoldable pub cleanup_registration : String → Exec (World site.Desk) (Unit {0})
  cleanup_registration name = owned_runner name >>= delete_runner

  -- `own_runner` is none where nothing is to be left out.
  unfoldable pub is_rival : String → Value → Value → Result Bool
  is_rival label own_runner answer = Fallible.◌>>=◌ (as_answer answer) (λ runner.
      and_then (ok (not (site.equals (or_null (get "id" runner)) own_runner)))
        (has_label label runner))

  -- The jobs of another unfinished run.
  unfoldable pub check_other : ℕ → Value → Exec (World site.Desk) (Unit {0})
  check_other run_id other = lift (field_of "id" other) >>= λ id.
      if is_number run_id id
      then pure tt
      else (pages (jobs_endpoint (site.format id)) "jobs" >>= λ others.
          lift (any_of (is_unfinished (label_of run_id)) others) >>= λ found.
          refuse_if found
            (value_error "Another unfinished workflow requests the same release-runner label"))

  unfoldable pub check_others : ℕ → List Value → Exec (World site.Desk) (Unit {0})
  check_others run_id [] = pure tt
  check_others run_id (other ∷ others) =
      check_other run_id other >>= λ _. check_others run_id others

  unfoldable pub check_states : ℕ → List String → Exec (World site.Desk) (Unit {0})
  check_states run_id [] = pure tt
  check_states run_id (state ∷ rest) = pages (status_endpoint state) "workflow_runs" >>= λ runs.
      check_others run_id runs >>= λ _. check_states run_id rest

  unfoldable pub reviewed_job : ℕ → String → Value → Exec (World site.Desk) (Fields × Fields)
  reviewed_job run_id head own_runner = do
    answer ← api "GET" (run_endpoint run_id) false
    run ← lift (validate_run site.is_decimal (or_null answer) head)
    jobs ← pages (jobs_endpoint (decimal run_id)) "jobs"
    job ← lift (validate_job jobs run_id head)
    runners ← pages runners_endpoint "runners"
    taken ← lift (any_of (is_rival (label_of run_id) own_runner) runners)
    refuse_if taken (value_error "A runner already exists for this workflow run")
    check_states run_id states
    pure (run, job)
