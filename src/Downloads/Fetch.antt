-- ===== src/Downloads/Fetch.antt =====
-- `cached_download` of image/download_cache.py: a file named by its digest, fetched in at most four
-- attempts. `urlopen` and the disk give the outcome of each attempt; `sha256` is hashlib's.
use fedora_config.Base.{
  ℕ, zero, suc, ◌+◌, ◌*◌, ◌==◌, Bool, true, false, Option, none, some, List, ◌∷◌,
}
use fedora_config.Base.{
  String, ◌<>◌, str_eq, if◌then◌else◌, Result, ok, raised, Exn, os_error, runtime_error,
}
use fedora_config.Displays.Store.{File, absent, regular, unreadable, directory}

-- How the body of the inner `try` ends: an error before the temporary file is written, an error
-- with a part of it written, the whole answer, or the whole answer and an error when it is read
-- back or moved. The text is the problem that is printed.
pub data Attempt (B : Type 0) : Type 0 where
  refused : String → Attempt B
  cut_short : String → B → Attempt B
  received : B → Attempt B
  stuck : String → B → Attempt B

-- The two files of the cache that one call touches, and what it printed and waited for.
pub record Cache (B : Type 0) : Type 0 where
  pub target : File B
  pub temporary : File B
  pub problems : List (ℕ × String)
  pub waits : List ℕ

module _ {B : Type 0} (sha256 : B → String) (empty : B) where
  abbrev pub is_directory : File B → Bool
  is_directory directory = true
  is_directory _ = false

  -- `temporary.replace(target)`, which a directory refuses.
  unfoldable pub replace_target : B → Cache B → Option String × Cache B
  replace_target b s =
      if is_directory s.target
      then (some "Is a directory", s)
      else (none, record s { target = regular b; temporary = absent })

  -- One run of the inner `try`: the problem, or none.
  unfoldable pub try_once : String → Attempt B → Cache B → Option String × Cache B
  unfolding replace_target
  try_once checksum (refused problem) s = (some problem, s)
  try_once checksum (cut_short problem b) s = (some problem, record s { temporary = regular b })
  try_once checksum (stuck problem b) s = (some problem, record s { temporary = regular b })
  try_once checksum (received b) s =
      if str_eq (sha256 b) checksum
      then replace_target b (record s { temporary = regular b })
      else (some "checksum mismatch", record s { temporary = regular b })

  -- `temporary.unlink(missing_ok=True)`, and the line that is printed.
  abbrev pub note_problem : ℕ → String → Cache B → Cache B
  note_problem attempt problem s = record s {
    temporary = absent;
    problems = (attempt, problem) ∷ s.problems;
  }

  -- `time.sleep(10 * attempt)`
  abbrev pub wait : ℕ → Cache B → Cache B
  wait attempt s = record s { waits = 10 * attempt ∷ s.waits }

  abbrev pub exhausted : String → Exn
  exhausted problem = runtime_error ("Could not download verified builder image: " <> problem)

  -- `for attempt in range(1, 5)`, with `left` attempts left.
  unfoldable pub attempts : String → (ℕ → Attempt B) → ℕ → ℕ → Cache B → Result (Unit {0}) × Cache B
  unfolding try_once
  attempts checksum fetch zero attempt s = (ok tt, s)
  attempts checksum fetch (suc left) attempt s =
      let (outcome, s1) = try_once checksum (fetch attempt) s in
      elim outcome [
        | none ↦ (ok tt, s1)
        | some problem ↦
            let s2 = note_problem attempt problem s1 in
            let rest = attempts checksum fetch left (attempt + 1) (wait attempt s2) in
            if attempt == 4 then (raised (exhausted problem), s2) else rest
      ]

  -- The `finally` of the loop.
  abbrev pub drop_temporary : Result (Unit {0}) × Cache B → Result (Unit {0}) × Cache B
  drop_temporary (r, s) = (r, record s { temporary = absent })

  -- `with tempfile.NamedTemporaryFile(...)`, and the loop.
  unfoldable pub download : String → (ℕ → Attempt B) → Cache B → Result (Unit {0}) × Cache B
  unfolding attempts
  download checksum fetch s =
      drop_temporary (attempts checksum fetch 4 1 (record s { temporary = regular empty }))

  -- What a file that is there already comes to.
  unfoldable pub use_target :
      File B → String → (ℕ → Attempt B) → Cache B → Result (Unit {0}) × Cache B
  unfolding download
  use_target (regular b) checksum fetch s =
      if str_eq (sha256 b) checksum then (ok tt, s) else download checksum fetch s
  use_target unreadable checksum fetch s = (raised os_error, s)
  use_target _ checksum fetch s = download checksum fetch s

  -- `cached_download`; it returns the path of `target`.
  unfoldable pub cached_download : String → (ℕ → Attempt B) → Cache B → Result (Unit {0}) × Cache B
  unfolding use_target
  cached_download checksum fetch s = use_target s.target checksum fetch s
