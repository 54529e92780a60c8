-- ===== src/Runner/Job.antt =====
-- `validate_run`, `validate_job` and `runner_package` of release_runner.py.
use Prim.Native.Char.{Char, char, code}
use fedora_config.Base.{
  ℕ, ◌==◌, ◌*◌, ◌^◌, pos, Bool, false, not, ◌&&◌, ◌||◌, List, [], ◌∷◌, any, is_member,
}
use fedora_config.Base.{
  String, ◌<>◌, str_eq, starts_with, codes, if◌then◌else◌, Result, ok, raised, value_error,
  attribute_error, type_error,
}
use fedora_config.Base.Fallible.{◌>>=◌, ◌>>◌, raise_if, and_then}
use fedora_config.Json.{
  Value, bool, int, float, str, arr, obj, nil, cons, Fields, end, get, get_or, or_null, has, items,
  is_text, is_true,
}
use fedora_config.Hypridle.Render.{decimal}
use fedora_config.Runner.Tag.{matches_tag, is_checksum, matches_path}

abbrev pub repository : String
repository = "DigitalPals/CybexOS"

abbrev pub workflows : List String
workflows = ".github/workflows/release.yml" ∷ ".github/workflows/desktop-release.yml" ∷ []

-- `f'cybexos-iso-{run_id}'`
abbrev pub label_of : ℕ → String
label_of run_id = "cybexos-iso-" <> decimal run_id

-- `value in (...)`, and `value in {...}`, where a list or an object has no hash.
unfoldable pub is_choice : List String → Value → Bool
is_choice choices (str s) = is_member s choices
is_choice choices _ = false

unfoldable pub in_set : List String → Value → Result Bool
in_set choices (arr xs) = raised type_error
in_set choices (obj fs) = raised type_error
in_set choices v = ok (is_choice choices v)

-- `fields.get(outer, {}).get(key)`
unfoldable pub get_within : String → String → Fields → Result Value
get_within outer key fields = elim (get_or (obj end) (get outer fields)) [
  | obj inner ↦ ok (or_null (get key inner))
  | _ ↦ raised attribute_error
]

-- An answer of the API is an object, or `.get` fails.
unfoldable pub as_answer : Value → Result Fields
as_answer (obj fields) = ok fields
as_answer _ = raised attribute_error

abbrev pub unreviewed : String
unreviewed = "Run must be an unfinished, non-PR release workflow from this exact reviewed checkout"

module _ (is_decimal : ℕ → Bool) where
  unfoldable pub check_branch : Value → Result (Unit {0})
  check_branch (str branch) =
      raise_if (not (str_eq branch "main" || matches_tag is_decimal (codes branch)))
        (value_error "Release runners accept only main or a versioned release tag")
  check_branch _ = raised type_error

  unfoldable pub validate_run : Value → String → Result Fields
  validate_run answer head = do
    run ← as_answer answer
    own ← get_within "repository" "full_name" run
    raise_if (not (is_text repository own)) (value_error unreviewed)
    from ← get_within "head_repository" "full_name" run
    raise_if (not (is_text repository from)) (value_error unreviewed)
    raise_if (not (is_choice ("push" ∷ "workflow_dispatch" ∷ []) (or_null (get "event" run))))
        (value_error unreviewed)
    known ← in_set workflows (or_null (get "path" run))
    raise_if (not known) (value_error unreviewed)
    raise_if (not (is_text head (or_null (get "head_sha" run)))) (value_error unreviewed)
    raise_if (is_true (or_null (get "pull_requests" run))) (value_error unreviewed)
    raise_if
        (not (
          is_choice ("queued" ∷ "in_progress" ∷ "waiting" ∷ "requested" ∷ [])
            (or_null (get "status" run))))
        (value_error unreviewed)
    check_branch (get_or (str "") (get "head_branch" run))
    ok run

-- `part in text`
unfoldable pub contains : String → String → Bool
contains part String.[] = str_eq part ""
contains part (String.◌∷◌ c s) =
    let rest = contains part s in starts_with (String.◌∷◌ c s) part || rest

-- `label in job.get('labels', [])`
unfoldable pub is_labelled : String → Value → Result Bool
is_labelled label (arr xs) = ok (any (is_text label) (items xs))
is_labelled label (obj fields) = ok (has label fields)
is_labelled label (str s) = ok (contains label s)
is_labelled label _ = raised type_error

unfoldable pub is_pending : String → Value → Result Bool
is_pending label answer = as_answer answer >>= λ job.
    and_then (is_labelled label (get_or (arr nil) (get "labels" job))) (
      ok (
        is_choice ("queued" ∷ "in_progress" ∷ "waiting" ∷ "pending" ∷ [])
          (or_null (get "status" job))))

-- `[item for item in items if ...]`, where the test may raise.
unfoldable pub select : (Value → Result Bool) → List Value → Result (List Value)
select p [] = ok []
select p (v ∷ vs) = p v >>= λ chosen. select p vs >>= λ rest. ok (if chosen then v ∷ rest else rest)

-- `value == n`; a Boolean or a float may equal an integer.
unfoldable pub is_number : ℕ → Value → Bool
is_number n (int (pos m)) = m == n
is_number n (bool b) = (if b then 1 else 0) == n
is_number n (float x) = elim x.mantissa [ pos m ↦ m == n * 2 ^ x.exponent | _ ↦ false ]
is_number n _ = false

-- `value == [label]`
unfoldable pub is_only : String → Value → Bool
is_only label (arr (cons v nil)) = is_text label v
is_only label _ = false

-- `if len(found) != 1: raise ValueError(problem)`
unfoldable pub the_only : String → List Value → Result Value
the_only problem (v ∷ []) = ok v
the_only problem _ = raised (value_error problem)

abbrev pub unqueued : String
unqueued = "The qualification job must be queued and request only its exact run-specific label"

unfoldable pub check_job : Fields → ℕ → String → Result Fields
check_job job run_id head = do
  raise_if
      (not (is_text "queued" (or_null (get "status" job)))
        || not (is_number run_id (or_null (get "run_id" job)))
        || not (is_text head (or_null (get "head_sha" job)))
        || not (is_only (label_of run_id) (or_null (get "labels" job))))
      (value_error unqueued)
  ok job

unfoldable pub validate_job : List Value → ℕ → String → Result Fields
validate_job jobs run_id head = do
  matching ← select (is_pending (label_of run_id)) jobs
  answer ←
      the_only "Exactly one queued qualification job with this run-specific label is required"
        matching
  job ← as_answer answer
  check_job job run_id head

-- What `urlsplit` gives.
pub record Url : Type 0 where
  pub scheme : String
  pub netloc : String
  pub path : String
  pub query : String
  pub fragment : String

-- `str.lower` of a hexadecimal digit.
unfoldable pub lower_char : Char → Char
lower_char c =
    if code c == b'A'
    then char 97 tt
    else if code c == b'B'
    then char 98 tt
    else if code c == b'C'
    then char 99 tt
    else if code c == b'D'
    then char 100 tt
    else if code c == b'E'
    then char 101 tt
    else if code c == b'F'
    then char 102 tt
    else c

unfoldable pub lower : String → String
lower String.[] = String.[]
lower (String.◌∷◌ c s) = let rest = lower s in String.◌∷◌ (lower_char c) rest

-- `item.get('os') == 'linux' and item.get('architecture') == 'x64'`
unfoldable pub is_linux : Value → Result Bool
is_linux answer = as_answer answer >>= λ item.
    ok (
      is_text "linux" (or_null (get "os" item))
      && is_text "x64" (or_null (get "architecture" item)))

-- A value that `re.fullmatch` takes.
unfoldable pub as_string : Value → Result String
as_string (str s) = ok s
as_string _ = raised type_error

module _ (urlsplit : Value → Result Url) where
  unfoldable pub is_official : Url → Bool
  is_official url =
      str_eq url.scheme "https"
      && str_eq url.netloc "github.com"
      && str_eq url.query ""
      && str_eq url.fragment ""
      && matches_path (codes url.path)

  unfoldable pub runner_package : List Value → Result (Value × String)
  runner_package releases = do
    found ← select is_linux releases
    answer ← the_only "GitHub must provide exactly one current Linux x64 runner package" found
    chosen ← as_answer answer
    url ← urlsplit (get_or (str "") (get "download_url" chosen))
    checksum ← as_string (get_or (str "") (get "sha256_checksum" chosen))
    raise_if (not (is_checksum (codes checksum)) || not (is_official url)) (
        value_error "Runner download must have the GitHub API SHA-256 pin and official release URL")
    ok (or_null (get "download_url" chosen), lower checksum)
