-- ===== src/Displays/Calls.antt =====
-- What the calls inside `apply` of display-settings.py leave behind when they return.
use fedora_config.Base.{
  if◌then◌else◌, strip, ◌∷◌, ℕ, ◌==◌, Bool, true, false, not, String, ◌≡◌, refl, sym, ap, ◌∙◌,
  arith,
}
use fedora_config.Base.{result, final, Exn, ok, pure, lift, List}
use fedora_config.Base.Action.{◌>>=◌, refuse_if, bind-eq-ok, raise-ne_ok}
use fedora_config.Displays.Host.{
  Codec, Host, Reply, missing, timed_out, finished, Outcome, refused, unsynced, replaced,
}
use fedora_config.Displays.Store.{File, absent, regular, symlink, directory, World, write_file}
use fedora_config.Displays.Session.{outcome, run, watchdog_command, hyprctl}
use fedora_config.Displays.Requests.{reject_trial, show_trial}

module _ (c : Codec) (h : Host c) where
  -- A write that returned has replaced the file.
  pub write_file-ok :
      (o : Outcome) (name : String) (b : c.Bytes) (old f : File c.Bytes)
      → write_file c h o name b old ≡ (ok tt, f)
      → f ≡ regular b
  unfolding write_file
  write_file-ok refused name b absent f e = absurd (cc (ap result e))
  write_file-ok refused name b _ f e = absurd (cc (ap result e))
  write_file-ok unsynced name b absent f e = absurd (cc (ap result e))
  write_file-ok unsynced name b _ f e = absurd (cc (ap result e))
  write_file-ok replaced name b (symlink x) f e = absurd (cc (ap result e))
  write_file-ok replaced name b directory f e = absurd (cc (ap result e))
  write_file-ok replaced name b _ f e = sym (ap final e)

  reject_trial-ne_ok :
      (token why : String) (w v : World c h) → reject_trial c h token why w ≡ (ok tt, v) → ⊥
  unfolding reject_trial
  reject_trial-ne_ok token why w v e =
      let (a, t, p, q) = bind-eq-ok _ _ w tt v e in
      let (a', t', p', q') = bind-eq-ok _ _ t tt v q in raise-ne_ok _ _ t' tt v q'

  -- The state after a call of hyprctl.
  abbrev called : List String → World c h → World c h
  called arguments w = record w { desk = (h.run ("hyprctl" ∷ arguments) w.desk).1 }

  strip_reply-final :
      (r : Reply) (w : World c h)
      → final {A = ℕ × String × String}
          ((lift (outcome r) >>= λ (code, output, error). pure (code, strip output, strip error)) w)
        ≡ w
  unfolding ◌>>=◌
  strip_reply-final missing w = refl
  strip_reply-final timed_out w = refl
  strip_reply-final (finished code output error) w = refl

  final-hyprctl :
      (arguments : List String) (w : World c h)
      → final (hyprctl c h arguments w) ≡ called arguments w
  unfolding hyprctl run ◌>>=◌
  final-hyprctl arguments w =
      strip_reply-final (h.run ("hyprctl" ∷ arguments) w.desk).0 (called arguments w)

  shown_or_rejected :
      (b : Bool) (token why : String) (w v : World c h)
      → (if b then reject_trial c h token why else pure tt) w ≡ (ok tt, v)
      → w ≡ v
  unfolding pure
  shown_or_rejected true token why w v e = absurd (reject_trial-ne_ok token why w v e)
  shown_or_rejected false token why w v e = ap final e

  pub show_trial-ok :
      (token : String) (w v : World c h)
      → show_trial c h token w ≡ (ok tt, v)
      → (arguments : List String) × (called arguments w ≡ v)
  unfolding show_trial
  show_trial-ok token w v e =
      let (reply, t, p, q) = bind-eq-ok _ _ w tt v e in
      (_, sym (final-hyprctl _ w) ∙ ap final p ∙ shown_or_rejected _ token _ t v q)

  -- What `systemd-run` and `hyprctl` do to the units: a timer that systemd-run has scheduled is
  -- armed, and stays so over a call of hyprctl.
  pub record Units (Armed : String → h.Desk → Type 0) : Type 0 where
    pub arms :
        (token output error : String) (desk desk' : h.Desk)
        → h.run (watchdog_command c h token) desk ≡ (finished 0 output error, desk')
        → Armed token desk'
    pub stays :
        (token : String) (arguments : List String) (desk : h.Desk)
        → Armed token desk
        → Armed token (h.run ("hyprctl" ∷ arguments) desk).1

  pub refuse_if-ok :
      {S : Type 0} (b : Bool) (x : Exn) (w v : S)
      → refuse_if b x w ≡ (ok tt, v)
      → (b ≡ false) × (w ≡ v)
  unfolding refuse_if
  refuse_if-ok true x w v e = absurd (cc (ap result e))
  refuse_if-ok false x w v e = (refl, ap final e)

  pub outcome-ok :
      (r : Reply) (code : ℕ) (output error : String)
      → outcome r ≡ ok (code, output, error)
      → r ≡ finished code output error
  outcome-ok missing code output error e = absurd (cc)
  outcome-ok timed_out code output error e = absurd (cc)
  outcome-ok (finished a b d) code output error e = ground arith

  pub zero_of_not : (code : ℕ) → not (code == 0) ≡ false → code ≡ 0
  zero_of_not code e = ground arith
