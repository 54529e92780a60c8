-- ===== src/Displays/Shown.antt =====
-- What a successful `apply` of display-settings.py leaves behind.
use fedora_config.Base.{if◌then◌else◌, ℕ, Bool, true, false, String, ◌≡◌, sym, ap, subst, ◌∙◌}
use fedora_config.Base.{result, final, Result, ok, raised, value_error, pure, lift, gets}
use fedora_config.Base.Action.{bind-eq-ok, on_value_error-ok}
use fedora_config.Json.{Value, Fields, get, or_null}
use fedora_config.Displays.Document.{validate_document}
use fedora_config.Displays.Host.{Codec, Host, trial_file, state_file, finished}
use fedora_config.Displays.Store.{
  File, regular, World, Saved, read_store, encode, write_file, atomic_write,
}
use fedora_config.Displays.Session.{run, arm_watchdog, watchdog_command, locked}
use fedora_config.Displays.Requests.{read_saved}
use fedora_config.Displays.Requests.{
  other_digest, write_trial, start_from, shown_answer, start_trial, state_document, apply_locked,
  apply,
}
use fedora_config.Displays.Frame.{drop_stale-Same, apply_locked-Same}
use fedora_config.Displays.Calls.{
  write_file-ok, show_trial-ok, refuse_if-ok, outcome-ok, zero_of_not, Units,
}

module _ (c : Codec) (h : Host c) where
  module _ (Armed : String → h.Desk → Type 0) (units : Units c h Armed) where
    arm_watchdog-ok :
        (token : String) (w v : World c h)
        → arm_watchdog c h token w ≡ (ok tt, v)
        → (v ≡ record w { desk = v.desk }) × Armed token v.desk
    unfolding arm_watchdog run
    arm_watchdog-ok token w v e =
        let ((code, output, error), t, p, q) = bind-eq-ok _ _ w tt v e in
        let (zero_code, same) = refuse_if-ok c h _ _ t v q in
        let r =
          outcome-ok c h (h.run (watchdog_command c h token) w.desk).0 code output error
            (ap result p) in
        let e' : record w { desk = (h.run (watchdog_command c h token) w.desk).1 } ≡ v =
          ap final p ∙ same in
        let r' = r ∙ ap (λ (n : ℕ). finished n output error) (zero_of_not c h code zero_code) in
        (
          sym e' ∙ ap (λ (u : World c h). record w { desk = u.desk }) e',
          subst (λ (u : World c h). Armed token u.desk) e'
              (units.arms token output error w.desk (h.run (watchdog_command c h token) w.desk).1
                (λ i. (r' i, (h.run (watchdog_command c h token) w.desk).1))),
        )

    -- The trial that a successful `apply` has started in `v`, from `w`.
    pub record IsShown (w v : World c h) (candidate : c.Bytes) (digest token : String) (now : ℕ)
        : Type 0 where
      pub bytes : c.Bytes
      pub encoded : encode c (state_document c h token now digest) ≡ ok bytes
      pub trial : v.trial ≡ regular candidate
      pub state : v.state ≡ regular bytes
      pub config : v.config ≡ w.config
      pub armed : Armed token v.desk

    write_candidate-ok :
        (b : c.Bytes) (w v : World c h)
        → atomic_write c h trial_file b w ≡ (ok tt, v)
        → v ≡ record w { trial = regular b }
    unfolding atomic_write
    write_candidate-ok b w v e =
        let f = write_file c h (h.storage trial_file b w.desk) "displays-trial.json" b w.trial in
        sym (ap final e)
        ∙ ap (λ (x : File c.Bytes). record w { trial = x })
            (write_file-ok c h _ "displays-trial.json" b w.trial f.1 (λ i. (ap result e i, f.1)))

    write_state-ok :
        (b : c.Bytes) (w v : World c h)
        → atomic_write c h state_file b w ≡ (ok tt, v)
        → v ≡ record w { state = regular b }
    unfolding atomic_write
    write_state-ok b w v e =
        let f =
          write_file c h (h.storage state_file b w.desk) "displays-trial-state.json" b w.state in
        sym (ap final e)
        ∙ ap (λ (x : File c.Bytes). record w { state = x })
            (write_file-ok c h _ "displays-trial-state.json" b w.state f.1
              (λ i. (ap result e i, f.1)))

    lift-ok :
        {A : Type 0} (r : Result A) (a : A) (w v : World c h)
        → lift r w ≡ (ok a, v)
        → (r ≡ ok a) × (w ≡ v)
    unfolding lift
    lift-ok r a w v e = (ap result e, ap final e)

    write_trial-ok :
        (candidate : c.Bytes) (document : Value) (w v : World c h)
        → write_trial c h candidate document w ≡ (ok tt, v)
        → (bytes : c.Bytes) × (encode c document ≡ ok bytes)
          × (v ≡ record w { trial = regular candidate; state = regular bytes })
    unfolding write_trial
    write_trial-ok candidate document w v e =
        let (u1, w1, p1, e1) = bind-eq-ok _ _ w tt v e in
        let (bytes, w2, p2, e2) = bind-eq-ok _ _ w1 tt v e1 in
        let w1' = write_candidate-ok candidate w w1 p1 in
        let v' = write_state-ok bytes w2 v e2 in
        let (encoded, same) = lift-ok (encode c document) bytes w1 w2 p2 in
        (
          bytes,
          encoded,
          v' ∙ ap (λ (u : World c h). record u { state = regular bytes }) (sym same ∙ w1'),
        )

    gets-same :
        {A : Type 0} (f : World c h → A) (a : A) (w v : World c h) → gets f w ≡ (ok a, v) → w ≡ v
    unfolding gets
    gets-same f a w v e = ap final e

    read_saved-ok :
        (saved : Saved c) (w v : World c h)
        → read_saved c h w ≡ (ok saved, v)
        → read_store c w.config ≡ ok saved
    unfolding read_saved
    read_saved-ok saved w v e = ap result e

    pure-ok : {A : Type 0} (a b : A) (w v : World c h) → pure a w ≡ (ok b, v) → (b ≡ a) × (w ≡ v)
    unfolding pure
    pure-ok a b w v e = (cc (ap result e), ap final e)

    start_from-ok :
        (candidate : c.Bytes) (digest token : String) (now : ℕ) (w v : World c h) (answer : Value)
        → start_from c h candidate digest token now w ≡ (ok answer, v)
        → (answer ≡ shown_answer c h token now) × IsShown w v candidate digest token now
    unfolding start_from
    start_from-ok candidate digest token now w v answer e =
        let (u1, w1, p1, e1) = bind-eq-ok _ _ w answer v e in
        let (u2, w2, p2, e2) = bind-eq-ok _ _ w1 answer v e1 in
        let (u3, w3, p3, e3) = bind-eq-ok _ _ w2 answer v e2 in
        let (bytes, encoded, written) =
          write_trial-ok candidate (state_document c h token now digest) w w1 p1 in
        let (kept, armed) = arm_watchdog-ok token w1 w2 (on_value_error-ok _ _ w1 w2 p2) in
        let (arguments, reached) = show_trial-ok c h token w2 w3 p3 in
        let (answered, same) = pure-ok (shown_answer c h token now) answer w3 v e3 in
        let v' = sym same ∙ sym reached in
        (
          answered,
          record {
            bytes = bytes;
            encoded = encoded;
            trial =
                ap (λ (u : World c h). u.trial) v'
                ∙ ap (λ (u : World c h). u.trial) kept
                ∙ ap (λ (u : World c h). u.trial) written;
            state =
                ap (λ (u : World c h). u.state) v'
                ∙ ap (λ (u : World c h). u.state) kept
                ∙ ap (λ (u : World c h). u.state) written;
            config =
                ap (λ (u : World c h). u.config) v'
                ∙ ap (λ (u : World c h). u.config) kept
                ∙ ap (λ (u : World c h). u.config) written;
            armed =
                subst (λ (u : World c h). Armed token u.desk) (sym v')
                  (units.stays token arguments w2.desk armed);
          },
        )

    start_trial-ok :
        (candidate : c.Bytes) (digest : String) (w v : World c h) (answer : Value)
        → start_trial c h candidate digest w ≡ (ok answer, v)
        → (token : String) × (now : ℕ) × (u : World c h) × (answer ≡ shown_answer c h token now)
          × IsShown u v candidate digest token now
    unfolding start_trial
    start_trial-ok candidate digest w v answer e =
        let (token, w1, p1, e1) = bind-eq-ok _ _ w answer v e in
        let (now, w2, p2, e2) = bind-eq-ok _ _ w1 answer v e1 in
        let (answered, shown) = start_from-ok candidate digest token now w2 v answer e2 in
        (token, now, w2, answered, shown)

    apply_locked-ok :
        (base : Value) (candidate : c.Bytes) (w v : World c h) (answer : Value)
        → apply_locked c h base candidate w ≡ (ok answer, v)
        → (saved : Saved c) × (token : String) × (now : ℕ) × (u : World c h) × (read_store c
              w.config
            ≡ ok saved)
          × (other_digest c h base saved.digest ≡ false)
          × (answer ≡ shown_answer c h token now)
          × IsShown u v candidate saved.digest token now
    unfolding apply_locked
    apply_locked-ok base candidate w v answer e =
        let (state, w1, p1, e1) = bind-eq-ok _ _ w answer v e in
        let (now, w2, p2, e2) = bind-eq-ok _ _ w1 answer v e1 in
        let (u3, w3, p3, e3) = bind-eq-ok _ _ w2 answer v e2 in
        let (u4, w4, p4, e4) = bind-eq-ok _ _ w3 answer v e3 in
        let (saved, w5, p5, e5) = bind-eq-ok _ _ w4 answer v e4 in
        let (u6, w6, p6, e6) = bind-eq-ok _ _ w5 answer v e5 in
        let (token, now', u, answered, shown) =
          start_trial-ok candidate saved.digest w6 v answer e6 in
        let s1 = gets-same _ state w w1 p1 in
        let s2 = gets-same _ now w1 w2 p2 in
        let s3 = (refuse_if-ok c h _ _ w2 w3 p3).1 in
        let kept : w4.config ≡ w.config =
          ap (λ (p : Result (Unit {0}) × World c h). p.1.config) (sym p4)
          ∙ (drop_stale-Same c h w.config state).at w3
              (ap (λ (u : World c h). u.config) (sym s3 ∙ sym s2 ∙ sym s1)) in
        (
          saved,
          token,
          now',
          u,
          ap (read_store c) (sym kept) ∙ read_saved-ok saved w4 w5 p5,
          (refuse_if-ok c h _ _ w5 w6 p6).0,
          answered,
          shown,
        )

    locked-ok :
        (b : Bool) (x : Result Value × World c h) (message : String) (w v : World c h)
        (answer : Value)
        → (if b then x else (raised (value_error message), w)) ≡ (ok answer, v)
        → x ≡ (ok answer, v)
    locked-ok true x message w v answer e = e
    locked-ok false x message w v answer e = absurd (cc (ap result e))

    -- Everything that holds after an `apply` that answers without error.
    pub record Started (request : Fields) (w v : World c h) (answer : Value) : Type 0 where
      pub document : Value
      pub candidate : c.Bytes
      pub saved : Saved c
      pub token : String
      pub now : ℕ
      pub valid : validate_document (or_null (get "document" request)) ≡ ok document
      pub encoded : encode c document ≡ ok candidate
      pub current : read_store c w.config ≡ ok saved
      pub based : other_digest c h (or_null (get "baseDigest" request)) saved.digest ≡ false
      pub answered : answer ≡ shown_answer c h token now
      pub shown : IsShown w v candidate saved.digest token now

    -- When `apply` answers without error, the request's document has been validated and its
    -- encoding is the candidate file, the state file holds the answered token, the end of the trial
    -- and the digest of displays.json, displays.json is untouched and had the digest that the
    -- request was based on, and the watchdog of that token is armed, provided that systemd-run
    -- arms what it reports as scheduled and hyprctl does not disarm it.
    pub apply-Started :
        (request : Fields) (w v : World c h) (answer : Value)
        → apply c h request w ≡ (ok answer, v)
        → Started request w v answer
    unfolding apply locked
    apply-Started request w v answer e =
        let (document, w1, p1, e1) = bind-eq-ok _ _ w answer v e in
        let (candidate, w2, p2, e2) = bind-eq-ok _ _ w1 answer v e1 in
        let (valid, same1) = lift-ok _ document w w1 p1 in
        let (encoded, same2) = lift-ok _ candidate w1 w2 p2 in
        let base = or_null (get "baseDigest" request) in
        let start = locked-ok w2.runtime _ _ w2 v answer e2 in
        let (saved, token, now, u, current, based, answered, shown) =
          apply_locked-ok base candidate w2 v answer start in
        let same = sym same2 ∙ sym same1 in
        record {
          document = document;
          candidate = candidate;
          saved = saved;
          token = token;
          now = now;
          valid = valid;
          encoded = encoded;
          current = ap (λ (x : World c h). read_store c x.config) (sym same) ∙ current;
          based = based;
          answered = answered;
          shown = record {
            bytes = shown.bytes;
            encoded = shown.encoded;
            trial = shown.trial;
            state = shown.state;
            config =
                ap (λ (p : Result Value × World c h). p.1.config) (sym start)
                ∙ (apply_locked-Same c h w.config base candidate).at w2
                    (ap (λ (x : World c h). x.config) same);
            armed = shown.armed;
          };
        }
