-- ===== src/Runner/Stopped.antt =====
-- How `stop` of release_runner.py ends.
use fedora_config.Base.{
  ◌≡◌, ◌≢◌, ◌∙◌, ◌⊎◌, inl, inr, refl, ap, Bool, true, false, List, [], ◌∷◌, ◌++◌, if◌then◌else◌,
  Result, ok, raised, os_error, subprocess_error, interrupted, Exec,
}
use fedora_config.Runner.Stop.{
  Signal, interrupt, terminate, kill, Child, Waited, ends, times_out, is_interrupted, Effect,
  is_gone, is_denied, is_sent, wait, with_signal, signal_with, signal_all, stop,
}

-- The signal that follows those which were sent, the latest first.
pub data Next : List Signal → Signal → Type 0 where
  first : Next [] interrupt
  second : Next (interrupt ∷ []) terminate
  third : Next (terminate ∷ interrupt ∷ []) kill

-- What a wait that goes so makes of the result and of the child.
abbrev pub IsWaited : Waited → Result (Unit {0}) → Child → Type 0
IsWaited ends r d = (r ≡ ok tt) × (d.reaped ≡ true)
IsWaited times_out r d = (r ≡ raised subprocess_error) × (d.reaped ≡ false)
IsWaited is_interrupted r d = (r ≡ raised interrupted) × (d.reaped ≡ false)

wait-IsWaited : (w : Waited) (c : Child) → c.reaped ≡ false → IsWaited w (wait w c).0 (wait w c).1
unfolding wait
wait-IsWaited ends c alive = (refl, refl)
wait-IsWaited times_out c alive = (refl, alive)
wait-IsWaited is_interrupted c alive = (refl, alive)

wait-signals : (w : Waited) (c : Child) → (wait w c).1.signals ≡ c.signals
unfolding wait
wait-signals ends c = refl
wait-signals times_out c = refl
wait-signals is_interrupted c = refl

IsWaited-reaped :
    (w : Waited) (r : Result (Unit {0})) (d : Child) → IsWaited w r d → r ≡ ok tt → d.reaped ≡ true
IsWaited-reaped ends r d (same, over) e = over
IsWaited-reaped times_out r d (same, alive) e = absurd (cc)
IsWaited-reaped is_interrupted r d (same, alive) e = absurd (cc)

module _ (effect : Signal → Effect) (last : Waited) where
  -- The child has let the wait after each of these signals run out of time.
  pub data Survived : List Signal → Type 0 where
    unsent : Survived []
    outlived :
        {sent : List Signal} (s : Signal)
        → Survived sent
        → Next sent s
        → effect s ≡ is_sent times_out
        → Survived (s ∷ sent)

  -- The wait after another signal did not run out of time.
  abbrev pub IsHeeded : List Signal → List Signal → Result (Unit {0}) → Child → Type 0
  IsHeeded before sent r d =
      (s : Signal) × (w : Waited) × Next sent s
      × (effect s ≡ is_sent w)
      × (w ≢ times_out)
      × (d.signals ≡ s ∷ (sent ++ before))
      × IsWaited w r d

  -- The next signal may not be sent.
  abbrev pub IsDenied : List Signal → List Signal → Result (Unit {0}) → Child → Type 0
  IsDenied before sent r d =
      (s : Signal) × Next sent s
      × (effect s ≡ is_denied)
      × (r ≡ raised os_error)
      × (d.signals ≡ sent ++ before)

  -- The last wait, once the group is gone or SIGINT, SIGTERM and SIGKILL were sent.
  abbrev pub IsAwaited : List Signal → List Signal → Result (Unit {0}) → Child → Type 0
  IsAwaited before sent r d =
      (((s : Signal) × Next sent s × (effect s ≡ is_gone))
        ⊎ (sent ≡ kill ∷ terminate ∷ interrupt ∷ []))
      × (d.signals ≡ sent ++ before)
      × IsWaited last r d

  abbrev pub IsEnded : List Signal → Result (Unit {0}) × Child → Type 0
  IsEnded before (r, d) =
      (sent : List Signal) × Survived sent
      × (IsHeeded before sent r d ⊎ (IsDenied before sent r d ⊎ IsAwaited before sent r d))

  IsEnded-reaped :
      (before : List Signal) (r : Result (Unit {0})) (d : Child)
      → IsEnded before (r, d)
      → r ≡ ok tt
      → d.reaped ≡ true
  IsEnded-reaped before r d (sent, past, inl (s, w, n, e, more, signals, over)) same =
      IsWaited-reaped w r d over same
  IsEnded-reaped before r d (sent, past, inr (inl (s, n, e, refused, signals))) same = absurd (cc)
  IsEnded-reaped before r d (sent, past, inr (inr (why, signals, over))) same =
      IsWaited-reaped last r d over same

  -- The last wait.
  awaited :
      (before sent : List Signal) (c : Child)
      → Survived sent
      → c.reaped ≡ false
      → c.signals ≡ sent ++ before
      → (((s : Signal) × Next sent s × (effect s ≡ is_gone))
          ⊎ (sent ≡ kill ∷ terminate ∷ interrupt ∷ []))
      → IsEnded before (wait last c)
  awaited before sent c past alive same why =
      (sent, past, inr (inr (why, wait-signals last c ∙ same, wait-IsWaited last c alive)))

  -- One round, where the rest goes on from a signal that is survived.
  signal_with-IsEnded :
      (before sent : List Signal) (f : Effect) (s : Signal) (rest : Exec Child (Unit {0}))
      (c : Child)
      → effect s ≡ f
      → Survived sent
      → Next sent s
      → c.reaped ≡ false
      → c.signals ≡ sent ++ before
      → (Survived (s ∷ sent) → IsEnded before (rest (with_signal s c)))
      → IsEnded before (signal_with effect last f s rest c)
  unfolding signal_with wait
  signal_with-IsEnded before sent is_gone s rest c e past n alive same k =
      awaited before sent c past alive same (inl (s, n, e))
  signal_with-IsEnded before sent is_denied s rest c e past n alive same k =
      (sent, past, inr (inl (s, n, e, refl, same)))
  signal_with-IsEnded before sent (is_sent ends) s rest c e past n alive same k =
      (sent, past, inl (s, ends, n, e, (λ x. absurd (cc)), ap (λ l. s ∷ l) same, (refl, refl)))
  signal_with-IsEnded before sent (is_sent times_out) s rest c e past n alive same k =
      k (outlived s past n e)
  signal_with-IsEnded before sent (is_sent is_interrupted) s rest c e past n alive same k = (
    sent,
    past,
    inl (s, is_interrupted, n, e, (λ x. absurd (cc)), ap (λ l. s ∷ l) same, (refl, alive)),
  )

  stop_all-IsEnded :
      (c : Child)
      → c.reaped ≡ false
      → IsEnded c.signals (signal_all effect last (interrupt ∷ terminate ∷ kill ∷ []) c)
  unfolding signal_all
  stop_all-IsEnded c alive =
      signal_with-IsEnded c.signals [] _ interrupt _ c refl unsent first alive refl (λ past.
        signal_with-IsEnded c.signals _ _ terminate _ _ refl past second alive refl (λ past.
          signal_with-IsEnded c.signals _ _ kill _ _ refl past third alive refl
            (λ past. awaited c.signals _ _ past alive refl (inr refl))))

  -- A child that has been polled as over is left alone. To another one SIGINT, SIGTERM and SIGKILL
  -- are sent in this order, each after the wait for the one before has run out of time: `stop`
  -- returns or raises KeyboardInterrupt as the first wait that does not run out of time, raises
  -- PermissionError where a signal may not be sent, and otherwise ends as the last wait, which
  -- follows a signal that finds the group gone, or SIGKILL. Where it returns, the end of the child
  -- was seen.
  pub stop-IsEnded :
      (c : Child)
      → ((stop effect last c).0 ≡ ok tt → (stop effect last c).1.reaped ≡ true)
        × (((c.reaped ≡ true) × (stop effect last c ≡ (ok tt, c)))
            ⊎ ((c.reaped ≡ false) × IsEnded c.signals (stop effect last c)))
  unfolding stop
  stop-IsEnded c = by_poll c.reaped refl
    where
      by_poll :
          (b : Bool)
          → c.reaped ≡ b
          → let out =
              (if b
                  then (λ c. (ok tt, c))
                  else signal_all effect last (interrupt ∷ terminate ∷ kill ∷ []))
                c in
            (out.0 ≡ ok tt → out.1.reaped ≡ true)
            × (((c.reaped ≡ true) × (out ≡ (ok tt, c)))
                ⊎ ((c.reaped ≡ false) × IsEnded c.signals out))
      by_poll true e = ((λ _. e), inl (e, refl))
      by_poll false e =
          let ended = stop_all-IsEnded c e in (IsEnded-reaped c.signals _ _ ended, inr (e, ended))
