-- ===== src/Calendar/Distinct.antt =====
-- What holds of the events that `read_source` collects.
use fedora_config.Base.{
  ℕ, ◌<◌, ==_iff, leb, arith, ℤ, pos, negsuc, leb_ℤ, ◌≡◌, inl, inr, refl, sym, ap, subst, Bool,
  true, false, ◌&&◌, Bool-cases, Option, none, some, List, [], ◌∷◌, ◌++◌, All, All-append_one,
  str_eq, eq_iff, if◌then◌else◌,
}
use fedora_config.Base.{Result, ok, raised, Exn, pure}
use fedora_config.Base.Action.{◌>>=◌, Keeps, Keeps-bind, Keeps-lift, Keeps-pure}
use fedora_config.Base.Ensures.{Ensures, Ensures-bind}
use fedora_config.Calendar.Events.{
  add_nat, eq_ℤ, Status, other, Component, Event, Identity, same_identity, is_seen, Reading, Job,
  timestamp_ms, end_of, Instance, add_seen, append_event, record_event, record_new, add_timed,
  add_current, try_instance, catch_error, add_instance, add_instances, Backend, unreachable,
  no_client, answers, note_failure, read_source, unread,
}

add_nat-later : (n : ℤ) (k : ℕ) → 0 < k → leb_ℤ (add_nat n k) n ≡ false
unfolding add_nat
add_nat-later (pos n) k h = ground (arith, h)
add_nat-later (negsuc n) k h = elim (Bool-cases (leb k n)) [
  | inl y ↦ rw y (ground (arith, h, y))
  | inr m ↦ rw m (ground (arith, h, m))
]

default_end-later :
    (all_day : Bool) (start : ℤ)
    → leb_ℤ (add_nat start (if all_day then 86400000 else 3600000)) start ≡ false
default_end-later true start = add_nat-later start 86400000 (omega arith)
default_end-later false start = add_nat-later start 3600000 (omega arith)

module _ {Zone : Type 0} (system : Zone) where
  end_of-later :
      (end : Option ℤ) (all_day : Bool) (start : ℤ)
      → leb_ℤ (end_of system end all_day start) start ≡ false
  unfolding end_of
  end_of-later none all_day start = default_end-later all_day start
  end_of-later (some end) all_day start = elim (Bool-cases (leb_ℤ end start)) [
    | inl y ↦ rw y (default_end-later all_day start)
    | inr n ↦ rw n n
  ]

eq_ℤ-eq : (a b : ℤ) → eq_ℤ a b ≡ true → a ≡ b
unfolding eq_ℤ
eq_ℤ-eq (pos m) (pos n) h = ap pos ((==_iff m n).0 h)
eq_ℤ-eq (negsuc m) (negsuc n) h = ap negsuc ((==_iff m n).0 h)
eq_ℤ-eq (pos m) (negsuc n) h = absurd (cc)
eq_ℤ-eq (negsuc m) (pos n) h = absurd (cc)

eq_ℤ_self : (n : ℤ) → eq_ℤ n n ≡ true
unfolding eq_ℤ
eq_ℤ_self (pos n) = (==_iff n n).1 refl
eq_ℤ_self (negsuc n) = (==_iff n n).1 refl

and_true : (a b : Bool) → (a && b) ≡ true → (a ≡ true) × (b ≡ true)
and_true true b h = (refl, h)
and_true false b h = absurd (cc)

same_identity-eq : (i j : Identity) → same_identity i j ≡ true → i ≡ j
same_identity-eq (u, a, b) (v, c, d) h =
    let (both, ends) = and_true (str_eq u v && eq_ℤ a c) (eq_ℤ b d) h in
    let (uids, starts) = and_true (str_eq u v) (eq_ℤ a c) both in
    λ k. ((eq_iff u v).0 uids k, eq_ℤ-eq a c starts k, eq_ℤ-eq b d ends k)

abbrev pub identity_of : Event → Identity
identity_of e = (e.uid, e.start_ms, e.end_ms)

-- No two events with one uid, start and end.
abbrev pub AreDistinct : List Event → Type 0
AreDistinct [] = Unit
AreDistinct (e ∷ es) =
    All (λ f. same_identity (identity_of e) (identity_of f) ≡ false) es × AreDistinct es

abbrev pub EndsLater : Event → Type 0
EndsLater e = leb_ℤ e.end_ms e.start_ms ≡ false

-- Each event ends after it starts, and none is there twice.
abbrev pub AreSound : List Event → Type 0
AreSound events = All EndsLater events × AreDistinct events

abbrev IsSound : Reading → Type 0
IsSound r = AreSound r.events × All (λ e. is_seen (identity_of e) r.seen ≡ true) r.events

AreDistinct-append :
    (es : List Event) (e : Event)
    → AreDistinct es
    → All (λ f. same_identity (identity_of f) (identity_of e) ≡ false) es
    → AreDistinct (es ++ (e ∷ []))
AreDistinct-append [] e d new = (tt, tt)
AreDistinct-append (f ∷ es) e (fresh, d) (new, news) =
    (All-append_one _ es e fresh new, AreDistinct-append es e d news)

All-map {ℓ κ} :
    {P : Event → Type ℓ} {Q : Event → Type κ} (es : List Event)
    → ((e : Event) → P e → Q e)
    → All P es
    → All Q es
All-map [] f ps = tt
All-map (e ∷ es) f (p, ps) = (f e p, All-map es f ps)

is_seen-cons :
    (i j : Identity) (js : List Identity) → is_seen i js ≡ true → is_seen i (j ∷ js) ≡ true
unfolding is_seen
is_seen-cons i j js h = elim (Bool-cases (same_identity j i)) [ inl y ↦ rw y refl | inr n ↦ rw n h ]

-- An identity that was not seen is that of no event so far.
unseen-fresh :
    (i : Identity) (seen : List Identity) (es : List Event)
    → is_seen i seen ≡ false
    → All (λ e. is_seen (identity_of e) seen ≡ true) es
    → All (λ e. same_identity (identity_of e) i ≡ false) es
unseen-fresh i seen es unseen = All-map es (λ e inside.
    elim (Bool-cases (same_identity (identity_of e) i)) [
      | inr n ↦ n
      | inl y ↦ absurd (
          cc (
            subst (λ j. is_seen j seen ≡ true) (same_identity-eq (identity_of e) i y) inside,
            unseen,
          ))
    ])

is_seen-here : (i : Identity) (js : List Identity) → is_seen i (i ∷ js) ≡ true
unfolding is_seen
is_seen-here (u, a, b) js = rw ((eq_iff u u).1 refl, eq_ℤ_self a, eq_ℤ_self b) refl

-- The identity has been added to `seen`, and no event has it yet.
abbrev IsNoted : Identity → Reading → Type 0
IsNoted i r =
    IsSound r
    × (is_seen i r.seen ≡ true)
    × All (λ e. same_identity (identity_of e) i ≡ false) r.events

module _ {Zone : Type 0} (system : Zone) (job : Job) where
  append-Ensures :
      (i : Identity) (e : Event)
      → identity_of e ≡ i
      → EndsLater e
      → Ensures (IsNoted i) IsSound (append_event system e)
  unfolding append_event
  append-Ensures i e own later = record {
    at = λ r (((ends, distinct), seen), now, fresh). (
      (
        All-append_one EndsLater r.events e ends later,
        AreDistinct-append r.events e distinct (
            subst (λ j. All (λ f. same_identity (identity_of f) j ≡ false) r.events) (sym own)
              fresh),
      ),
      All-append_one _ r.events e seen (subst (λ j. is_seen j r.seen ≡ true) (sym own) now),
    );
  }

  add_seen-IsNoted :
      (i : Identity) (r : Reading)
      → is_seen i r.seen ≡ false
      → IsSound r
      → IsNoted i (add_seen system i r).1
  unfolding add_seen
  add_seen-IsNoted i r unseen (sound, seen) = (
    (sound, All-map r.events (λ e inside. is_seen-cons (identity_of e) i r.seen inside) seen),
    is_seen-here i r.seen,
    unseen-fresh i r.seen r.events unseen seen,
  )

  record_event-IsSound :
      (component : Component) (all_day : Bool) (i : Identity) (r : Reading)
      → leb_ℤ i.2 i.1 ≡ false
      → is_seen i r.seen ≡ false
      → IsSound r
      → IsSound (record_event system job component all_day i r).1
  unfolding record_event ◌>>=◌ add_seen
  record_event-IsSound component all_day (uid, start, end) r later unseen sound =
      (Ensures-bind (λ r n. n.0) _ _ (Keeps-lift component.summary)
          (λ summary.
            Ensures-bind (λ r n. n.0) _ _ (Keeps-lift component.location)
              (λ location. append-Ensures (uid, start, end) _ refl later))).at
        _ (add_seen-IsNoted (uid, start, end) r unseen sound)

  record_new-Keeps :
      (component : Component) (all_day : Bool) (i : Identity)
      → leb_ℤ i.2 i.1 ≡ false
      → Keeps IsSound (record_new system job component all_day i)
  unfolding record_new pure
  record_new-Keeps component all_day i later = record {
    at = λ r sound. elim (Bool-cases (is_seen i r.seen)) [
      | inl y ↦ rw (record_new, y) sound
      | inr n ↦ rw (record_new, n) (record_event-IsSound component all_day i r later n sound)
    ];
  }

  add_timed-Keeps :
      (i : Instance Zone) (start : Option ℤ) → Keeps IsSound (add_timed system job i start)
  unfolding add_timed
  add_timed-Keeps i none = Keeps-pure tt
  add_timed-Keeps i (some start) = Keeps-bind _ _ (Keeps-lift i.component.uid) (λ uid.
      record_new-Keeps i.component i.start.is_date _
        (end_of-later system (timestamp_ms system i.end) i.start.is_date start))

  add_current-Keeps :
      (i : Instance Zone) (status : Status) → Keeps IsSound (add_current system job i status)
  unfolding add_current
  add_current-Keeps i other = add_timed-Keeps i (timestamp_ms system (some i.start))
  add_current-Keeps i _ = Keeps-pure tt

  catch_error-IsSound :
      (p : Result (Unit {0}) × Reading) → IsSound p.1 → IsSound (catch_error system p)
  unfolding catch_error
  catch_error-IsSound (ok u, r) h = h
  catch_error-IsSound (raised e, r) h = h

  add_instance-IsSound :
      (i : Instance Zone) (r : Reading) → IsSound r → IsSound (add_instance system job i r)
  unfolding add_instance try_instance
  add_instance-IsSound i r h =
      catch_error-IsSound (try_instance system job i r)
        ((Keeps-bind _ _ (Keeps-lift i.component.status) (add_current-Keeps i)).at r h)

  add_instances-IsSound :
      (is : List (Instance Zone)) (r : Reading)
      → IsSound r
      → IsSound (add_instances system job is r)
  unfolding add_instances
  add_instances-IsSound [] r h = h
  add_instances-IsSound (i ∷ is) r h = add_instances-IsSound is _ (add_instance-IsSound i r h)

  note_failure-IsSound :
      (failure : Option Exn) (r : Reading) → IsSound r → IsSound (note_failure system failure r)
  unfolding note_failure
  note_failure-IsSound none r h = h
  note_failure-IsSound (some e) r h = h

  -- Whatever the backend answers and whichever of its calls raise, every event of a source ends
  -- after it starts, and no two have the same uid, start and end.
  pub read_source-AreSound :
      (backend : Backend Zone) → AreSound (read_source system job backend).events
  unfolding read_source
  read_source-AreSound (unreachable e) = (note_failure-IsSound (some e) _ ((tt, tt), tt)).0
  read_source-AreSound no_client = (note_failure-IsSound _ unread ((tt, tt), tt)).0
  read_source-AreSound (answers instances failure) =
      (note_failure-IsSound failure _ (add_instances-IsSound instances _ ((tt, tt), tt))).0
