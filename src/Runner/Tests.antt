-- ===== src/Runner/Tests.antt =====
-- A run of the release runner whose configuration fails after it has registered, and the theorems
-- at concrete data.
use fedora_config.Base.{
  ℕ, ◌==◌, pos, true, false, ◌≡◌, refl, List, [], ◌∷◌, is_member, String, ◌<>◌, str_eq, is_digit,
  if◌then◌else◌,
}
use fedora_config.Base.{Result, ok, raised, interrupted, false, ◌⊎◌}
use fedora_config.Base.Fallible.{raise_if}
use fedora_config.Base.Action.{◌>>=◌}
use fedora_config.Json.{
  Value, int, str, arr, obj, Items, nil, cons, Fields, field, end, get, get_or, or_null, has, items,
  keys, is_text, is_true,
}
use fedora_config.Hypridle.Render.{decimal}
use fedora_config.Runner.Tag.{
  matches_tag, is_suffix, then_skip, skip_text, skip_some, skip, is_tag_char,
}
use fedora_config.Runner.Job.{
  Url, repository, label_of, is_choice, in_set, get_within, as_answer, check_branch, validate_run,
  is_labelled, is_pending, select, is_number, is_only, the_only, check_job, validate_job,
}
use fedora_config.Runner.Reviewed.{IsReviewed, validate_run-IsReviewed}
use fedora_config.Runner.Queued.{IsQueued, validate_job-IsQueued}
use fedora_config.Runner.Site.{
  Site, World, Call, Reply, Output, blank, Log, finally_do, set_staging, set_retain, is_reported,
  request, fresh, remove_staging, fetch, is_entry, configure, answered, exited, document, text,
  found, blocks, call,
}
use fedora_config.Base.{starts_with}
use fedora_config.Runner.Tag.{is_version_char, is_checksum, is_archive, is_download, matches_path}
use fedora_config.Runner.Job.{is_linux, as_string, is_official, runner_package, lower, lower_char}
use fedora_config.Runner.Github.{
  read_output, read_reply, iterate, field_of, join_pages, read_pages, is_named, identifier_of,
  find_owned, any_of, label_names, has_label, is_unfinished, runners_endpoint, jobs_endpoint,
  run_endpoint, api, pages, owned_runner, delete_runner, cleanup_registration, is_rival,
  check_other, check_others, check_states, reviewed_job,
}
use fedora_config.Runner.Execute.{
  execute, read_blocks, read_response, read_exit, read_entry, is_stopped, read_manager, read_text,
  read_token, read_identifier, as_active, as_reported, recast, download, check_entry, extract,
  run_child, run_registered, run_staged, remove_work, clean_work, clean_staging,
}
use fedora_config.Runner.Stop.{
  Signal, interrupt, terminate, Child, ends, times_out, is_interrupted, Effect, is_sent, wait,
  signal_with, signal_all, stop,
}
use fedora_config.Runner.Stopped.{IsEnded, stop-IsEnded}
use fedora_config.Runner.Cleaned.{IsOver, execute-IsOver}

abbrev named : Value
named = obj (field "full_name" (str repository) end)

abbrev release_run : Fields
release_run = field "repository" named (
    field "head_repository" named (
      field "event" (str "push") (
        field "path" (str ".github/workflows/release.yml") (
          field "head_sha" (str "abc") (
            field "pull_requests" (arr nil)
              (field "status" (str "queued") (field "head_branch" (str "v1.2.3-rc.1") end)))))))

abbrev queued_job : Fields
queued_job = field "id" (int (pos 31)) (
    field "status" (str "queued") (
      field "run_id" (int (pos 7))
        (field "head_sha" (str "abc") (field "labels" (arr (cons (str (label_of 7)) nil)) end))))

abbrev other_job : Fields
other_job = field "status" (str "queued") (field "labels" (arr (cons (str "linux") nil)) end)

abbrev job_list : List Value
job_list = obj other_job ∷ obj queued_job ∷ []

-- What the tests compute with.
everything : ℕ
unfolding validate_run as_answer get_within get get_or or_null has items keys is_text is_true
    is_choice in_set check_branch matches_tag is_suffix then_skip skip_text skip_some skip
    is_tag_char raise_if is_member validate_job select is_pending is_labelled the_only check_job
    is_number is_only decimal is_version_char is_checksum is_archive is_download matches_path
    is_linux as_string is_official runner_package lower lower_char read_output read_reply iterate
    field_of join_pages read_pages is_named identifier_of find_owned any_of label_names has_label
    is_unfinished api pages owned_runner delete_runner cleanup_registration is_rival check_other
    check_others check_states reviewed_job read_blocks read_response read_exit read_entry is_stopped
    read_manager read_text read_token read_identifier as_active as_reported recast download
    check_entry extract run_child run_registered run_staged remove_work clean_work clean_staging
    call finally_do set_staging set_retain is_reported ◌>>=◌
everything = 0

validate_run-IsReviewed_example :
    (obj release_run ≡ obj release_run) × IsReviewed is_digit "abc" release_run
unfolding everything
validate_run-IsReviewed_example =
    validate_run-IsReviewed is_digit (obj release_run) "abc" release_run refl

validate_job-IsQueued_example : IsQueued job_list 7 "abc" queued_job
unfolding everything
validate_job-IsQueued_example = validate_job-IsQueued job_list 7 "abc" queued_job refl

abbrev as_items : List Value → Items
as_items [] = nil
as_items (v ∷ vs) = cons v (as_items vs)

abbrev page : String → List Value → Output
page name vs = document (arr (cons (obj (field name (arr (as_items vs)) end)) nil))

abbrev checksum : String
checksum = "0123456789abcdef0123456789abcdef0123456789abcdef0123456789abcdef"

abbrev linux_package : Value
linux_package = obj (
    field "os" (str "linux") (
      field "architecture" (str "x64")
        (field "sha256_checksum" (str checksum) (field "download_url" (str "https://") end))))

abbrev runner : Value
runner = obj (field "name" (str (label_of 7 <> "-f00")) (field "id" (int (pos 5)) end))

-- The outside: once `config.sh` has run, which fails, the runner is listed.
abbrev gh : String → String → ℕ → Output
gh method endpoint n =
    if str_eq method "DELETE"
    then blank
    else if str_eq method "POST"
    then document (obj (field "token" (str "secret") end))
    else if str_eq endpoint (run_endpoint 7)
    then document (obj release_run)
    else if str_eq endpoint (jobs_endpoint "7")
    then page "jobs" job_list
    else if str_eq endpoint runners_endpoint
    then page "runners" (if n == 0 then [] else runner ∷ [])
    else if starts_with endpoint "repos/DigitalPals/CybexOS/actions/runs?"
    then page "workflow_runs" []
    else document (arr (cons linux_package nil))

abbrev answer_to : Call → ℕ → Result Reply × ℕ
answer_to (request method endpoint paginate) n = (ok (answered 0 false (gh method endpoint n)), n)
answer_to fresh n = (ok (text "f00"), n)
answer_to (fetch url) n = (ok (blocks true ((1 ∷ []) ∷ [])), n)
answer_to (is_entry name) n = (ok (found true), n)
answer_to (configure name) n = (ok (exited 1 ""), 1)
answer_to c n = (ok (exited 0 ""), n)

abbrev host : Site
host = record {
  Desk = ℕ;
  ask = answer_to;
  format = λ v. "5";
  equals = λ v w. false;
  sha256 = λ bytes. checksum;
  is_decimal = is_digit;
}

abbrev release_url : Value → Result Url
release_url v = ok (record {
  scheme = "https";
  netloc = "github.com";
  path = "/actions/runner/releases/download/v2.1/actions-runner-linux-x64-2.1.tar.gz";
  query = "";
  fragment = "";
})

abbrev last_calls : Log → List Call
last_calls ((c, r) ∷ (d, s) ∷ log) = c ∷ d ∷ []
last_calls _ = []

abbrev idle : World ℕ
idle = record { desk = 0; log = []; staging = false; retain = false }

deletes_own :
    last_calls (execute host release_url 7 "abc" idle).1.log
    ≡ remove_staging ∷ request "DELETE" "repos/DigitalPals/CybexOS/actions/runners/5" false ∷ []
unfolding everything execute
deletes_own = refl

execute-IsOver_example : IsOver host 7 (execute host release_url 7 "abc" idle).1
execute-IsOver_example = execute-IsOver host release_url 7 "abc" 0

-- A child that ignores SIGINT and ends on SIGTERM.
abbrev stubborn : Signal → Effect
stubborn interrupt = is_sent times_out
stubborn _ = is_sent ends

abbrev child : Child
child = record { reaped = false; signals = [] }

stops_on_term :
    stop stubborn times_out child
    ≡ (ok tt, record { reaped = true; signals = terminate ∷ interrupt ∷ [] })
unfolding stop signal_all signal_with wait
stops_on_term = refl

-- One that is interrupted once more as it is waited for.
interrupted_again :
    stop (λ s. is_sent is_interrupted) times_out child
    ≡ (raised interrupted, record { reaped = false; signals = interrupt ∷ [] })
unfolding stop signal_all signal_with wait
interrupted_again = refl

stop-IsEnded_example :
    ((stop stubborn times_out child).0 ≡ ok tt → (stop stubborn times_out child).1.reaped ≡ true)
    × (((child.reaped ≡ true) × (stop stubborn times_out child ≡ (ok tt, child)))
        ⊎ ((child.reaped ≡ false)
            × IsEnded stubborn times_out child.signals (stop stubborn times_out child)))
stop-IsEnded_example = stop-IsEnded stubborn times_out child
