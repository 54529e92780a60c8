-- ===== src/Displays/Host.antt =====
-- What display-settings.py relies on and does not implement: json and hashlib (`Codec`), and the
-- desktop session behind `subprocess`, `time`, `secrets` and the file system (`Host`).
use fedora_config.Base.{ℕ, ◌+◌, ◌%◌, ◌≤◌, ◌≡◌, ◌⊎◌, Option, some, List, String, pos_part, neg_part}
use fedora_config.Base.{Dyadic}
use fedora_config.Json.{Value, null, bool, int, float, infinite, constant, str, arr, obj}
use fedora_config.Json.{Items, nil, cons, Fields, end, field}
use fedora_config.Json.{NodupFields}

-- No key twice and no literal NaN or Infinity, at any depth: what `loads` lets through.
abbrev mutual
  pub IsStrict : Value → Type 0
  IsStrict null = Unit
  IsStrict (bool b) = Unit
  IsStrict (int n) = Unit
  IsStrict (float x) = Unit
  IsStrict (infinite b) = Unit
  IsStrict (constant s) = ⊥
  IsStrict (str s) = Unit
  IsStrict (arr xs) = StrictItems xs
  IsStrict (obj fs) = NodupFields fs × StrictFields fs

  pub StrictItems : Items → Type 0
  StrictItems nil = Unit
  StrictItems (cons x xs) = IsStrict x × StrictItems xs

  pub StrictFields : Fields → Type 0
  StrictFields end = Unit
  StrictFields (field k v fs) = IsStrict v × StrictFields fs

-- A float has one form, in lowest terms.
abbrev pub IsLowest : Dyadic → Type 0
IsLowest x = (x.exponent ≡ 0) ⊎ ((pos_part x.mantissa + neg_part x.mantissa) % 2 ≡ 1)

abbrev mutual
  pub HasLowest : Value → Type 0
  HasLowest (float x) = IsLowest x
  HasLowest (arr xs) = LowestItems xs
  HasLowest (obj fs) = LowestFields fs
  HasLowest _ = Unit

  pub LowestItems : Items → Type 0
  LowestItems nil = Unit
  LowestItems (cons x xs) = HasLowest x × LowestItems xs

  pub LowestFields : Fields → Type 0
  LowestFields end = Unit
  LowestFields (field k v fs) = HasLowest v × LowestFields fs

-- json, hashlib and `str` of a value that is no text. `parse` gives the tree of the document
-- before any hook runs, and `none` where the text does not decode or parse; `parse_text` is
-- `json.loads` of a text, without hooks. `print` is
-- `json.dumps(..., allow_nan=False) + '\n'`, encoded; `none` is its `ValueError`.
pub record Codec : Type 1 where
  pub Bytes : Type 0
  pub parse : Bytes → Option Value
  pub parse_text : String → Option Value
  pub print : Value → Option Bytes
  pub size : Bytes → ℕ
  pub cut : ℕ → Bytes → Bytes
  pub sha256 : Bytes → String
  pub text_of : Value → String

-- What the code relies on: a printed document reads back, floats have one form, and a text that is
-- not too long is not cut.
pub record IsCodec (c : Codec) : Type 0 where
  pub parse-print :
      (v : Value) (b : c.Bytes) → IsStrict v → HasLowest v → c.print v ≡ some b → c.parse b ≡ some v
  pub parse-HasLowest : (b : c.Bytes) (v : Value) → c.parse b ≡ some v → HasLowest v
  pub cut_fits : (n : ℕ) (b : c.Bytes) → c.size b ≤ n → c.cut n b ≡ b

-- How `subprocess.run` ends: it raises `OSError` or a `SubprocessError` such as `TimeoutExpired`,
-- or gives the return code (0 for success), stdout and stderr.
pub data Reply : Type 0 where
  missing timed_out : Reply
  finished : ℕ → String → String → Reply

-- How the writes behind `atomic_write` end: an `OSError` before the file is replaced, one after
-- (the fsync of the directory), or none.
pub data Outcome : Type 0 where
  refused unsynced replaced : Outcome

pub data Target : Type 0 where
  config_file trial_file state_file : Target

-- The session: its clock in 1024ths of a second, `secrets.token_hex`, `subprocess.run`, the disk.
pub record Host (c : Codec) : Type 1 where
  pub Desk : Type 0
  pub now : Desk → ℕ
  pub token_hex : Desk → String × Desk
  pub run : List String → Desk → Reply × Desk
  pub storage : Target → c.Bytes → Desk → Outcome
  pub environ : String → Option String
  pub python : String
  pub script : String
  pub config_path : String
  pub trial_path : String
