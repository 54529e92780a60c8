-- ===== src/Runner/Queued.antt =====
-- What holds of a job that release_runner.py accepts, among the jobs of its run.
use fedora_config.Base.{
  ℕ, ◌≡◌, ◌⊎◌, refl, sym, ap, subst, ◌∙◌, Bool, true, false, ◌||◌, inl, inr, Option, some, List, [],
  ◌∷◌, All, eq_iff, any, Bool-cases, is_member,
}
use fedora_config.Base.{String, ok}
use fedora_config.Base.Fallible.{and_then, bind-eq-ok, unrefused, ok_injective}
use fedora_config.Json.{
  Value, str, arr, nil, cons, obj, Fields, Items, get, get_or, or_null, is_text, items,
}
use fedora_config.Runner.Job.{
  label_of, as_answer, is_choice, is_labelled, is_pending, select, is_number, is_only, the_only,
  check_job, validate_job,
}
use fedora_config.Runner.Select.{IsIn, select-IsIn, select-All}
use fedora_config.Runner.Reviewed.{not-false, text_of, as_answer-obj}

the_only-eq :
    (problem : String) (vs : List Value) (v : Value) → the_only problem vs ≡ ok v → vs ≡ v ∷ []
unfolding the_only
the_only-eq problem (w ∷ []) v h = ap (λ x. x ∷ []) (ok_injective h)
the_only-eq problem [] v h = absurd (cc)
the_only-eq problem (w ∷ x ∷ ws) v h = absurd (cc)

is_only-eq :
    (label : String) (o : Option Value)
    → is_only label (or_null o) ≡ true
    → o ≡ some (arr (cons (str label) nil))
unfolding is_only or_null is_text
is_only-eq label (some (arr (cons (str s) nil))) h =
    ap (λ (t : String). some (arr (cons (str t) nil))) ((eq_iff s label).0 h)
is_only-eq label (some (arr (cons v nil))) h = absurd (cc)
is_only-eq label _ h = absurd (cc)

-- The job asks for this label, and has not ended as far as its status says.
pub record AsksFor (label : String) (job : Value) : Type 0 where
  pub fields : Fields
  pub wanted : Items
  pub object : job ≡ obj fields
  pub labels : get "labels" fields ≡ some (arr wanted)
  pub labelled : IsIn (str label) (items wanted)
  pub status :
      (get "status" fields ≡ some (str "queued"))
      ⊎ ((get "status" fields ≡ some (str "in_progress"))
          ⊎ ((get "status" fields ≡ some (str "waiting"))
              ⊎ (get "status" fields ≡ some (str "pending"))))

any-IsIn : (label : String) (vs : List Value) → IsIn (str label) vs → any (is_text label) vs ≡ true
unfolding any is_text
any-IsIn label [] i = absurd i
any-IsIn label (v ∷ vs) (inl e) = rw (sym e, (eq_iff label label).1 refl) refl
any-IsIn label (v ∷ vs) (inr i) =
    rw (any-IsIn label vs i)
      (elim (Bool-cases (is_text label v)) [ inl y ↦ rw y refl | inr n ↦ rw n refl ])

AsksFor-is_pending :
    (label : String) (job : Value) → AsksFor label job → is_pending label job ≡ ok true
unfolding is_pending is_labelled as_answer and_then get_or or_null is_choice is_text is_member
AsksFor-is_pending label job asks = by_status asks.status
  where
    by_status :
        (get "status" asks.fields ≡ some (str "queued"))
          ⊎ ((get "status" asks.fields ≡ some (str "in_progress"))
              ⊎ ((get "status" asks.fields ≡ some (str "waiting"))
                  ⊎ (get "status" asks.fields ≡ some (str "pending"))))
        → is_pending label job ≡ ok true
    by_status (inl e) = rw (asks.object, asks.labels, any-IsIn label _ asks.labelled, e) refl
    by_status (inr (inl e)) = rw (asks.object, asks.labels, any-IsIn label _ asks.labelled, e) refl
    by_status (inr (inr (inl e))) =
        rw (asks.object, asks.labels, any-IsIn label _ asks.labelled, e) refl
    by_status (inr (inr (inr e))) =
        rw (asks.object, asks.labels, any-IsIn label _ asks.labelled, e) refl

-- The job is queued for the runner of this run and no other, at the reviewed commit, and no other
-- job of the list that has not ended asks for this label.
pub record IsQueued (jobs : List Value) (run_id : ℕ) (head : String) (job : Fields) : Type 0 where
  pub listed : IsIn (obj job) jobs
  pub status : get "status" job ≡ some (str "queued")
  pub run : is_number run_id (or_null (get "run_id" job)) ≡ true
  pub commit : get "head_sha" job ≡ some (str head)
  pub labels : get "labels" job ≡ some (arr (cons (str (label_of run_id)) nil))
  pub alone : All (λ other. AsksFor (label_of run_id) other → other ≡ obj job) jobs

check_job-facts :
    (job : Fields) (run_id : ℕ) (head : String) (out : Fields)
    → check_job job run_id head ≡ ok out
    → (job ≡ out)
      × (get "status" job ≡ some (str "queued"))
      × (is_number run_id (or_null (get "run_id" job)) ≡ true)
      × (get "head_sha" job ≡ some (str head))
      × (get "labels" job ≡ some (arr (cons (str (label_of run_id)) nil)))
unfolding check_job
check_job-facts job run_id head out h =
    let (tests, same) = unrefused _ _ _ h in
    let (t1, labels) = none_of _ _ tests in
    let (t2, commit) = none_of _ _ t1 in
    let (status, run) = none_of _ _ t2 in
    (
      ok_injective same,
      text_of _ "queued" (not-false _ status),
      not-false _ run,
      text_of _ head (not-false _ commit),
      is_only-eq (label_of run_id) _ (not-false _ labels),
    )
  where
    none_of : (a b : Bool) → (a || b) ≡ false → (a ≡ false) × (b ≡ false)
    none_of true b q = absurd (cc)
    none_of false b q = (refl, q)

-- A job that is accepted is in the list, queued, of this run and commit, and asks for the run's own
-- label only; and no other job of the list that has this label is queued, in progress, waiting or
-- pending.
pub validate_job-IsQueued :
    (jobs : List Value) (run_id : ℕ) (head : String) (job : Fields)
    → validate_job jobs run_id head ≡ ok job
    → IsQueued jobs run_id head job
unfolding validate_job
validate_job-IsQueued jobs run_id head job h =
    let (matching, a, h1) = bind-eq-ok (select _ jobs) _ h in
    let (answer, b, h2) = bind-eq-ok (the_only _ matching) _ h1 in
    let (fields, c, h3) = bind-eq-ok (as_answer answer) _ h2 in
    let (same, status, run, commit, labels) = check_job-facts fields run_id head job h3 in
    let found : matching ≡ obj fields ∷ [] =
      the_only-eq _ matching answer b ∙ ap (λ x. x ∷ []) (as_answer-obj answer fields c) in
    let chosen : select (is_pending (label_of run_id)) jobs ≡ ok (obj fields ∷ []) =
      a ∙ ap ok found in
    subst (IsQueued jobs run_id head) same (record {
      listed = select-IsIn _ jobs (obj fields ∷ []) (obj fields) chosen (inl refl);
      status = status;
      run = run;
      commit = commit;
      labels = labels;
      alone = single jobs fields (select-All _ jobs (obj fields ∷ []) chosen);
    })
  where
    single :
        (vs : List Value) (fields : Fields)
        → All (λ v. is_pending (label_of run_id) v ≡ ok true → IsIn v (obj fields ∷ [])) vs
        → All (λ v. AsksFor (label_of run_id) v → v ≡ obj fields) vs
    single [] fields k = tt
    single (v ∷ vs) fields (k, ks) = (
      λ asks. elim (k (AsksFor-is_pending _ v asks)) [ inl q ↦ q | inr q ↦ absurd q ],
      single vs fields ks,
    )
