-- ===== src/Runner/Reviewed.antt =====
-- What holds of a run and of a job that release_runner.py accepts.
use fedora_config.Base.{
  ℕ, ◌≡◌, refl, ap, ◌∙◌, Bool, true, false, not, ◌||◌, Bool-cases, inl, inr, Option, none, some,
  List, [], ◌∷◌, is_member, eq_iff,
}
use fedora_config.Base.{String, str_eq, codes, ok, raised, attribute_error}
use fedora_config.Base.Fallible.{raise_if, bind-eq-ok, unrefused, of_ok, ok_injective}
use fedora_config.Json.{Value, str, arr, obj, end, Fields, get, get_or, or_null, is_text, is_true}
use fedora_config.Runner.Tag.{matches_tag}
use fedora_config.Runner.Job.{
  repository, workflows, is_choice, in_set, get_within, as_answer, check_branch, validate_run,
}

pub not-false : (b : Bool) → not b ≡ false → b ≡ true
not-false true h = refl
not-false false h = absurd (cc)

in_set-same :
    (choices : List String) (v : Value) (b : Bool)
    → in_set choices v ≡ ok b
    → is_choice choices v ≡ b
unfolding in_set
in_set-same choices (arr xs) b h = absurd (cc)
in_set-same choices (obj fs) b h = absurd (cc)
in_set-same choices _ b h = ok_injective h

pub text_of : (o : Option Value) (s : String) → is_text s (or_null o) ≡ true → o ≡ some (str s)
unfolding is_text or_null
text_of none s h = absurd (cc)
text_of (some (str t)) s h = ap (λ (u : String). some (str u)) ((eq_iff t s).0 h)
text_of (some _) s h = absurd (cc)

-- The key has one of the texts.
abbrev pub HasChoice : String → List String → Fields → Type 0
HasChoice key choices fields =
    (s : String) × (get key fields ≡ some (str s)) × (is_member s choices ≡ true)

choice_of :
    (choices : List String) (o : Option Value)
    → is_choice choices (or_null o) ≡ true
    → (s : String) × (o ≡ some (str s)) × (is_member s choices ≡ true)
unfolding is_choice or_null
choice_of choices none h = absurd (cc)
choice_of choices (some (str s)) h = (s, refl, h)
choice_of choices (some _) h = absurd (cc)

pub as_answer-obj : (v : Value) (fields : Fields) → as_answer v ≡ ok fields → v ≡ obj fields
unfolding as_answer
as_answer-obj (obj fs) fields h = ap obj (ok_injective h)
as_answer-obj _ fields h = absurd (cc)

-- `fields[key]["full_name"]` is the repository.
abbrev pub NamesRepository : String → Fields → Type 0
NamesRepository key fields =
    (inner : Fields) × (get_or (obj end) (get key fields) ≡ obj inner)
    × (get "full_name" inner ≡ some (str repository))

get_within-NamesRepository :
    (key : String) (fields : Fields) (v : Value)
    → get_within key "full_name" fields ≡ ok v
    → is_text repository v ≡ true
    → NamesRepository key fields
unfolding get_within
get_within-NamesRepository key fields v h t = within (get_or (obj end) (get key fields)) refl h
  where
    within :
        (w : Value)
        → get_or (obj end) (get key fields) ≡ w
        → (elim w [ obj inner ↦ ok (or_null (get "full_name" inner)) | _ ↦ raised attribute_error ])
          ≡ ok v
        → NamesRepository key fields
    within (obj inner) e q = (
      inner,
      e,
      text_of (get "full_name" inner) repository (ap (is_text repository) (ok_injective q) ∙ t),
    )
    within _ e q = absurd (cc)

module _ (is_decimal : ℕ → Bool) where
  -- The branch is main or has the form of a release tag.
  abbrev pub IsReleaseBranch : Value → Type 0
  IsReleaseBranch v =
      (branch : String) × (v ≡ str branch)
      × ((str_eq branch "main" || matches_tag is_decimal (codes branch)) ≡ true)

  check_branch-IsReleaseBranch : (v : Value) → check_branch is_decimal v ≡ ok tt → IsReleaseBranch v
  unfolding check_branch raise_if
  check_branch-IsReleaseBranch (str branch) h =
      elim (Bool-cases (str_eq branch "main" || matches_tag is_decimal (codes branch))) [
        | inl y ↦ (branch, refl, y)
        | inr n ↦ absurd (cc (rw n at h))
      ]
  check_branch-IsReleaseBranch _ h = absurd (cc)

  pub record IsReviewed (head : String) (run : Fields) : Type 0 where
    pub own : NamesRepository "repository" run
    pub source : NamesRepository "head_repository" run
    pub event : HasChoice "event" ("push" ∷ "workflow_dispatch" ∷ []) run
    pub path : HasChoice "path" workflows run
    pub commit : get "head_sha" run ≡ some (str head)
    pub no_pulls : is_true (or_null (get "pull_requests" run)) ≡ false
    pub status : HasChoice "status" ("queued" ∷ "in_progress" ∷ "waiting" ∷ "requested" ∷ []) run
    pub branch : IsReleaseBranch (get_or (str "") (get "head_branch" run))

  -- A run that is accepted belongs to this repository and comes from it, is of one of the two
  -- release workflows, was started by a push or by hand, is at the reviewed commit and unfinished,
  -- has no pull request, and is of main or of a versioned tag.
  pub validate_run-IsReviewed :
      (answer : Value) (head : String) (run : Fields)
      → validate_run is_decimal answer head ≡ ok run
      → (answer ≡ obj run) × IsReviewed head run
  unfolding validate_run
  validate_run-IsReviewed answer head run h =
      let (fields, a, h1) = bind-eq-ok (as_answer answer) _ h in
      let (own, b, h2) = bind-eq-ok (get_within _ _ fields) _ h1 in
      let (own_is, h3) = unrefused _ _ _ h2 in
      let (source, c, h4) = bind-eq-ok (get_within _ _ fields) _ h3 in
      let (source_is, h5) = unrefused _ _ _ h4 in
      let (event, h6) = unrefused _ _ _ h5 in
      let (known, d, h7) = bind-eq-ok (in_set workflows _) _ h6 in
      let (path, h8) = unrefused _ _ _ h7 in
      let (commit, h9) = unrefused _ _ _ h8 in
      let (pulls, h10) = unrefused _ _ _ h9 in
      let (status, h11) = unrefused _ _ _ h10 in
      let (_, branch, h12) = bind-eq-ok (check_branch is_decimal _) _ h11 in
      of_ok (λ run. (answer ≡ obj run) × IsReviewed head run) h12
        (
          as_answer-obj answer fields a,
          record {
            own = get_within-NamesRepository "repository" fields own b (not-false _ own_is);
            source =
                get_within-NamesRepository "head_repository" fields source c
                  (not-false _ source_is);
            event = choice_of _ _ (not-false _ event);
            path = choice_of _ _ (in_set-same workflows _ known d ∙ not-false known path);
            commit = text_of _ head (not-false _ commit);
            no_pulls = pulls;
            status = choice_of _ _ (not-false _ status);
            branch = check_branch-IsReleaseBranch _ branch;
          },
        )
