-- ===== src/Runner/Tag.antt =====
-- The regular expressions of release_runner.py, over code points.
use fedora_config.Base.{
  ℕ, ◌==◌, leb, Bool, true, false, ◌&&◌, ◌||◌, Option, none, some, List, [], ◌∷◌, all, length,
}
use fedora_config.Base.{codes, is_digit, is_alnum, is_hex, if◌then◌else◌}

-- `[A-Za-z0-9.-]`
unfoldable pub is_tag_char : ℕ → Bool
is_tag_char c = is_alnum c || c == b'.' || c == b'-'

-- `[0-9.]`
unfoldable pub is_version_char : ℕ → Bool
is_version_char c = is_digit c || c == b'.'

-- The longest run of a class of characters, dropped.
unfoldable pub skip : (ℕ → Bool) → List ℕ → List ℕ
skip p [] = []
skip p (c ∷ cs) = let rest = skip p cs in if p c then rest else c ∷ cs

-- The same, of one character at least.
unfoldable pub skip_some : (ℕ → Bool) → List ℕ → Option (List ℕ)
skip_some p [] = none
skip_some p (c ∷ cs) = if p c then some (skip p cs) else none

-- A fixed text.
unfoldable pub skip_text : List ℕ → List ℕ → Option (List ℕ)
skip_text [] cs = some cs
skip_text (c ∷ text) [] = none
skip_text (c ∷ text) (d ∷ cs) = let rest = skip_text text cs in if c == d then rest else none

unfoldable pub then_skip : Option (List ℕ) → (List ℕ → Option (List ℕ)) → Option (List ℕ)
then_skip none next = none
then_skip (some cs) next = next cs

-- `(?:-[A-Za-z0-9.-]+)?` to the end.
unfoldable pub is_suffix : Option (List ℕ) → Bool
is_suffix none = false
is_suffix (some []) = true
is_suffix (some (c ∷ [])) = false
is_suffix (some (c ∷ d ∷ cs)) = c == b'-' && all is_tag_char (d ∷ cs)

-- `v\d+\.\d+\.\d+(?:-[A-Za-z0-9.-]+)?`; `is_decimal` is `\d`, which has neither '.' nor '-'.
unfoldable pub matches_tag : (ℕ → Bool) → List ℕ → Bool
matches_tag is_decimal cs = is_suffix (
    then_skip
      (then_skip
        (then_skip
          (then_skip (then_skip (skip_text (b'v' ∷ []) cs) (skip_some is_decimal))
            (skip_text (b'.' ∷ [])))
          (skip_some is_decimal))
        (skip_text (b'.' ∷ [])))
      (skip_some is_decimal))

-- `[0-9a-fA-F]{64}`
unfoldable pub is_checksum : List ℕ → Bool
is_checksum cs = length cs == 64 && all (λ c. is_hex c || (leb b'A' c && leb c b'F')) cs

-- `[0-9.]+\.tar\.gz` to the end: the run before the ending, whose last dots may be the ending's.
unfoldable pub is_archive : List ℕ → Bool
is_archive [] = false
is_archive (c ∷ cs) =
    let later = is_archive cs in
    is_version_char c
    && (later || elim (skip_text (codes ".tar.gz") cs) [ some [] ↦ true | _ ↦ false ])

-- `[0-9.]+/actions-runner-linux-x64-[0-9.]+\.tar\.gz` to the end.
unfoldable pub is_download : List ℕ → Bool
is_download cs =
    elim (then_skip (skip_some is_version_char cs)
      (skip_text (codes "/actions-runner-linux-x64-"))) [
        | none ↦ false
        | some rest ↦ is_archive rest
      ]

-- The path of a release of the runner.
unfoldable pub matches_path : List ℕ → Bool
matches_path cs = elim (skip_text (codes "/actions/runner/releases/download/v") cs) [
  | none ↦ false
  | some rest ↦ is_download rest
]
