-- ===== src/Runner/Site.antt =====
-- What release_runner.py asks of the outside, and the log of a run.
use fedora_config.Base.{
  ℕ, Bool, true, false, List, ◌∷◌, String, Result, ok, raised, Exn, value_error, runtime_error,
  os_error, subprocess_error, active_runner, Exec,
}
use fedora_config.Json.{Value}

-- One call: `gh api` with its method, its endpoint and `--paginate`; the user manager; a fresh
-- name; the staging directory and its steps; the runner's configuration; and the transient unit.
pub data Call : Type 0 where
  request : String → String → Bool → Call
  user_manager fresh make_staging unpack tidy remove_staging : Call
  fetch is_entry configure start stop_unit show_unit : String → Call

-- The output of `gh`: blank, not JSON, or a document.
pub data Output : Type 0 where
  blank unparsed : Output
  document : Value → Output

pub data Reply : Type 0 where
  -- The return code, whether stderr has '(HTTP 404)', and the output.
  answered : ℕ → Bool → Output → Reply
  -- The return code and the stripped output of a command.
  exited : ℕ → String → Reply
  -- A text, a test, and the blocks of a response that came over https or not.
  text : String → Reply
  found : Bool → Reply
  blocks : Bool → List (List ℕ) → Reply

-- `format` is Python's text of a JSON value, `equals` its `==`, and `sha256` the digest in hexadecimal.
pub record Site : Type 1 where
  pub Desk : Type 0
  pub ask : Call → Desk → Result Reply × Desk
  pub format : Value → String
  pub equals : Value → Value → Bool
  pub sha256 : List ℕ → String
  pub is_decimal : ℕ → Bool

abbrev pub Log : Type 0
Log = List (Call × Result Reply)

-- The outside, what it has been asked with its answers, the latest first, and the flags of
-- `execute`.
pub record World (D : Type 0) : Type 0 where
  pub desk : D
  pub log : Log
  pub staging : Bool
  pub retain : Bool

module _ (site : Site) where
  unfoldable pub call : Call → Exec (World site.Desk) Reply
  call c w =
      let (r, desk) = site.ask c w.desk in (r, record w { desk = desk; log = (c, r) ∷ w.log })

  unfoldable pub set_staging : Exec (World site.Desk) (Unit {0})
  set_staging w = (ok tt, record w { staging = true })

  unfoldable pub set_retain : Exec (World site.Desk) (Unit {0})
  set_retain w = (ok tt, record w { retain = true })

-- What a `finally` clause leaves of the result: its own exception comes first.
abbrev pub outcome : {A : Type 0} → Result (Unit {0}) → Result A → Result A
outcome (ok u) r = r
outcome (raised e) r = raised e

-- `try: m; finally: k`
unfoldable pub finally_do : {S A : Type 0} → Exec S A → Exec S (Unit {0}) → Exec S A
finally_do m k s = let (r, s') = m s in let (c, s'') = k s' in (outcome c r, s'')

-- `except (OSError, ValueError, RuntimeError, subprocess.SubprocessError)`
unfoldable pub is_reported : Exn → Bool
is_reported (value_error e) = true
is_reported os_error = true
is_reported subprocess_error = true
is_reported (runtime_error e) = true
is_reported (active_runner e) = true
is_reported _ = false
