-- ===== src/Runner/Execute.antt =====
-- `download`, `extract`, `run_scoped_runner` and `execute` of release_runner.py.
use fedora_config.Base.{
  ℕ, ◌==◌, ◌+◌, leb, Bool, true, false, not, ◌&&◌, ◌||◌, Option, none, some, List, [], ◌∷◌, ◌++◌,
  length, is_member, String, ◌<>◌, str_eq, if◌then◌else◌,
}
use fedora_config.Base.{
  Result, ok, raised, value_error, runtime_error, active_runner, os_error, subprocess_error,
  type_error, Exec, pure, raise, lift,
}
use fedora_config.Base.Fallible
use fedora_config.Base.Fallible.{raise_if}
use fedora_config.Base.Action.{◌>>=◌, ◌>>◌, refuse_if}
use fedora_config.Json.{Value, null, str, obj, Fields, get, or_null, is_text}
use fedora_config.Runner.Site.{
  Site, World, Call, Reply, fetch, unpack, tidy, is_entry, configure, start, stop_unit, show_unit,
  user_manager, fresh, make_staging, remove_staging, exited, found, text, blocks, call, set_staging,
  set_retain, finally_do, is_reported,
}
use fedora_config.Runner.Job.{
  Url, repository, label_of, runner_package, as_answer, as_string, is_number,
}
use fedora_config.Runner.Github.{
  api, owned_runner, cleanup_registration, reviewed_job, field_of, iterate,
}

-- `if size > ARCHIVE_LIMIT` after each block.
unfoldable pub read_blocks : ℕ → List (List ℕ) → Result (List ℕ)
read_blocks size [] = ok []
read_blocks size (block ∷ rest) =
    let more = read_blocks (size + length block) rest in
    Fallible.◌>>◌
      (raise_if (not (leb (size + length block) 1073741824))
        (value_error "Runner archive exceeds the size limit"))
      (Fallible.◌>>=◌ more (λ bytes. ok (block ++ bytes)))

unfoldable pub read_response : Reply → Result (List ℕ)
read_response (blocks secure content) =
    Fallible.◌>>◌
      (raise_if (not secure) (value_error "Runner download redirected to an insecure URL"))
      (read_blocks 0 content)
read_response _ = raised type_error

-- `if process.returncode: raise RuntimeError(...)`
unfoldable pub read_exit : Reply → Result (Unit {0})
read_exit (exited code output) =
    raise_if (not (code == 0))
      (runtime_error "Ephemeral runner command failed; local credentials and logs will be removed")
read_exit _ = raised type_error

unfoldable pub read_entry : Reply → Result (Unit {0})
read_entry (found there) =
    raise_if (not there)
      (value_error "Official runner archive is missing its executable entry points")
read_entry _ = raised type_error

-- The unit is inactive or has failed, or is not known.
unfoldable pub is_stopped : Reply → Bool
is_stopped (exited code output) =
    (code == 0 && is_member output ("inactive" ∷ "failed" ∷ [])) || (code == 4 && str_eq output "")
is_stopped _ = false

unfoldable pub read_manager : Reply → Result (Unit {0})
read_manager (exited code output) = raise_if (not (code == 0)) (
    value_error
      "A reachable operator systemd user manager is required for bounded runner/VM cleanup")
read_manager _ = raised type_error

unfoldable pub read_text : Reply → Result String
read_text (text s) = ok s
read_text _ = raised type_error

-- `registration.get('token') if isinstance(registration, dict) else None`
unfoldable pub read_token : Option Value → Result String
read_token (some (obj registration)) = elim (or_null (get "token" registration)) [
  | str token ↦
      if str_eq token ""
      then raised (value_error "GitHub did not return a registration token")
      else ok token
  | _ ↦ raised (value_error "GitHub did not return a registration token")
]
read_token _ = raised (value_error "GitHub did not return a registration token")

unfoldable pub read_identifier : Option Value → Result Value
read_identifier none =
    raised (runtime_error "Runner registration was not visible in the repository")
read_identifier (some null) =
    raised (runtime_error "Runner registration was not visible in the repository")
read_identifier (some identifier) = ok identifier

-- The handlers of `run_scoped_runner` and of the registration's cleanup.
unfoldable pub as_active : Result (Unit {0}) → Result (Unit {0})
as_active (raised os_error) = raised (active_runner "Could not stop the unit")
as_active (raised subprocess_error) = raised (active_runner "Could not stop the unit")
as_active r = r

unfoldable pub as_reported : Result (Unit {0}) → Result (Unit {0})
as_reported (ok u) = ok u
as_reported (raised e) =
    raised (if is_reported e then runtime_error "Registration cleanup failed" else e)

-- `except ...: raise ... from error`
unfoldable pub recast :
    {S : Type 0} → (Result (Unit {0}) → Result (Unit {0})) → Exec S (Unit {0}) → Exec S (Unit {0})
recast f m s = let (r, s') = m s in (f r, s')

module _ (site : Site) (urlsplit : Value → Result Url) where
  unfoldable pub download : Value → String → Exec (World site.Desk) (Unit {0})
  download url checksum = do
    address ← lift (as_string url)
    reply ← call site (fetch address)
    bytes ← lift (read_response reply)
    refuse_if (not (str_eq (site.sha256 bytes) checksum))
        (value_error "Runner download SHA-256 does not match the GitHub API pin")

  unfoldable pub check_entry : String → Exec (World site.Desk) (Unit {0})
  check_entry name = call site (is_entry name) >>= λ reply. lift (read_entry reply)

  unfoldable pub extract : Exec (World site.Desk) (Unit {0})
  extract = call site unpack >>= λ _. check_entry "config.sh" >>= λ _. check_entry "run.sh"

  unfoldable pub run_child : Call → Exec (World site.Desk) (Unit {0})
  run_child c = call site c >>= λ reply. lift (read_exit reply)

  unfoldable pub confirm_stopped : String → Exec (World site.Desk) (Unit {0})
  confirm_stopped name = call site (stop_unit name) >>= λ _. call site (show_unit name) >>= λ reply.
      refuse_if (not (is_stopped reply)) (active_runner "Could not confirm the unit stopped")

  unfoldable pub run_scoped_runner : String → Exec (World site.Desk) (Unit {0})
  run_scoped_runner name =
      finally_do (run_child (start name)) (recast as_active (confirm_stopped name))

  -- `except ActiveRunnerError: retain = True; raise`
  abbrev pub retaining : Result (Unit {0}) → Exec (World site.Desk) (Unit {0})
  retaining (raised (active_runner e)) = set_retain site >>= λ _. raise (active_runner e)
  retaining r = lift r

  unfoldable pub run_retaining : String → Exec (World site.Desk) (Unit {0})
  run_retaining name w = let (r, w') = run_scoped_runner name w in retaining r w'

  unfoldable pub is_done : ℕ → Value → String → Fields → Bool
  is_done run_id identifier head completed =
      is_number run_id (or_null (get "run_id" completed))
      && site.equals (or_null (get "runner_id" completed)) identifier
      && is_text head (or_null (get "head_sha" completed))
      && is_text "completed" (or_null (get "status" completed))

  abbrev pub job_endpoint : Value → String
  job_endpoint id = "repos/" <> repository <> "/actions/jobs/" <> site.format id

  unfoldable pub check_completed : ℕ → Value → String → Fields → Exec (World site.Desk) (Unit {0})
  check_completed run_id identifier head job = do
    id ← lift (field_of "id" (obj job))
    answer ← api site "GET" (job_endpoint id) false
    completed ← lift (as_answer (or_null answer))
    refuse_if (not (is_done run_id identifier head completed)) (
        runtime_error
          "Runner did not complete the reviewed job; inspect the workflow before retrying")
    refuse_if (not (is_text "success" (or_null (get "conclusion" completed)))) (
        runtime_error
          "The reviewed qualification job failed; inspect its retained qualification reports")

  -- The inner `try`.
  unfoldable pub run_registered : ℕ → String → String → Exec (World site.Desk) (Unit {0})
  run_registered run_id head name = do
    run_child (configure name)
    owned ← owned_runner site name
    identifier ← lift (read_identifier owned)
    (_, job) ← reviewed_job site run_id head identifier
    run_retaining name
    check_completed run_id identifier head job

  -- The outer `try`.
  unfoldable pub run_staged :
      ℕ → String → String → Value → String → Exec (World site.Desk) (Unit {0})
  run_staged run_id head name url checksum = do
    download url checksum
    extract
    _ ← call site tidy
    _ ← reviewed_job site run_id head null
    registration ←
        api site "POST" ("repos/" <> repository <> "/actions/runners/registration-token") false
    _ ← lift (read_token registration)
    finally_do (run_registered run_id head name)
        (recast as_reported (cleanup_registration site name))

  unfoldable pub remove_work : Exec (World site.Desk) (Unit {0})
  remove_work = call site remove_staging >>= λ _. pure tt

  unfoldable pub clean_work : Bool → Exec (World site.Desk) (Unit {0})
  clean_work true = pure tt
  clean_work false = remove_work

  unfoldable pub clean_staging : Exec (World site.Desk) (Unit {0})
  clean_staging w = clean_work w.retain w

  unfoldable pub execute : ℕ → String → Exec (World site.Desk) (Unit {0})
  execute run_id head = do
    manager ← call site user_manager
    lift (read_manager manager)
    _ ← reviewed_job site run_id head null
    answer ← api site "GET" ("repos/" <> repository <> "/actions/runners/downloads") false
    releases ← lift (iterate (or_null answer))
    (url, checksum) ← lift (runner_package urlsplit releases)
    unique ← call site fresh
    suffix ← lift (read_text unique)
    _ ← call site make_staging
    set_staging site
    finally_do (run_staged run_id head (label_of run_id <> "-" <> suffix) url checksum)
        clean_staging
