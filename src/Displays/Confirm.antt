-- ===== src/Displays/Confirm.antt =====
-- When `confirm` writes displays.json, and what it writes.
use fedora_config.Base.{
  List, Bool, true, false, Option, none, some, String, ◌≡◌, ◌⊎◌, inl, inr, refl,
}
use fedora_config.Base.{
  if◌then◌else◌, ap, sym, raise, Result, ok, raised, pure, Exn, value_error, os_error, ◌∙◌,
}
use fedora_config.Base.Action.{
  ◌>>=◌, continue, Keeps, Keeps-raise, Keeps-bind, Keeps-pure, keeps_rules,
}
use fedora_config.Base.Ensures.{
  Ensures, Ensures-if, Ensures-bind, Ensures-bind_lift, Ensures-then, Ensures-bind_gets,
}
use fedora_config.Json.{Value, obj, field, end, str, Fields, is_text}
use fedora_config.Displays.Clock.{is_past, confirm_grace_seconds}
use fedora_config.Displays.Host.{Codec, Host, config_file, Outcome, refused}
use fedora_config.Displays.Store.{
  File, regular, absent, symlink, directory, World, Trial, atomic_write, clear_trial,
}
use fedora_config.Displays.Store.{write_file, read_trial_state, encode}
use fedora_config.Displays.Session.{Do, run, disarm_watchdog, locked}
use fedora_config.Displays.Requests.{
  undo_saying, changed_elsewhere, too_late, or_undo, undo, load_candidate, save_document,
  keep_trial,
}
use fedora_config.Displays.Requests.{confirm_trial, confirm, checkpoint, read_saved}
use fedora_config.Displays.Frame.{Same, undo-Same, clear-Same}

-- A write either leaves the file or replaces it whole.
pub write_file_cases :
    (c : Codec) (h : Host c) (o : Outcome) (name : String) (b : c.Bytes) (old : File c.Bytes)
    → ((write_file c h o name b old).1 ≡ old) ⊎ ((write_file c h o name b old).1 ≡ regular b)
unfolding write_file
write_file_cases c h refused name b old = inl (kept old)
  where
    kept : (old : File c.Bytes) → (write_file c h refused name b old).1 ≡ old
    kept absent = refl
    kept _ = refl
write_file_cases c h _ name b (symlink x) = inl refl
write_file_cases c h _ name b directory = inl refl
write_file_cases c h _ name b _ = inr refl

-- What `confirm` answers when it has saved the rules.
abbrev saved_answer : Value
saved_answer = obj (field "message" (str "Display settings saved.") end)

module _ (c : Codec) (h : Host c) (f g : File c.Bytes) where
  -- The saved file is `f` and the candidate `g`.
  abbrev Both : World c h → Type 0
  Both w = (w.config ≡ f) × (w.trial ≡ g)

  -- The saved file is still `f`, or it is the document of the candidate `g`.
  abbrev pub Written : World c h → Type 0
  Written w =
      (w.config ≡ f)
      ⊎ ((d : Value) × (b : c.Bytes) × (load_candidate c h g ≡ ok d)
          × (encode c d ≡ ok b)
          × (w.config ≡ regular b))

  run-Both : (command : List String) → Keeps Both (run c h command)
  unfolding run
  run-Both command = record { at = λ w e. e }

  disarm-Both : (token : String) → Keeps Both (disarm_watchdog c h token)
  unfolding disarm_watchdog
  disarm-Both token = search (keeps_rules, run-Both)

  read-Both : Keeps Both (read_saved c h)
  unfolding read_saved
  read-Both = record { at = λ w e. e }

  unwritten : (w : World c h) → Both w → Written w
  unwritten w p = inl p.0

  -- An action that leaves the saved file alone.
  still : {A : Type 0} (m : Do c h A) → Keeps (Same c h f) m → Ensures Both Written m
  still m k = record { at = λ w p. inl (k.at w p.0) }

  Written-of_config : (w v : World c h) → v.config ≡ w.config → Written w → Written v
  Written-of_config w v e (inl q) = inl (e ∙ q)
  Written-of_config w v e (inr (d, b, loaded, encoded, q)) = inr (d, b, loaded, encoded, e ∙ q)

  clear-Written : Keeps Written (clear_trial c h)
  clear-Written = record {
    at = λ w q. Written-of_config w (clear_trial c h w).1 ((clear-Same c h w.config).at w refl) q;
  }

  module _ (d : Value) (b : c.Bytes) (loaded : load_candidate c h g ≡ ok d)
      (encoded : encode c d ≡ ok b) where
    write-Written : Ensures Both Written (atomic_write c h config_file b)
    unfolding atomic_write
    write-Written = record {
      at = λ w p.
          elim (write_file_cases c h (h.storage config_file b w.desk) "displays.json" b w.config) [
            | inl e ↦ inl (e ∙ p.0)
            | inr e ↦ inr (d, b, loaded, encoded, e)
          ];
    }

    after_write : Keeps Written (clear_trial c h >>= λ _. pure saved_answer)
    after_write = Keeps-bind _ _ clear-Written (λ _. Keeps-pure _)

  save-Written :
      (d : Value) → load_candidate c h g ≡ ok d → Ensures Both Written (save_document c h d)
  unfolding save_document
  save-Written d loaded = Ensures-bind_lift unwritten (encode c d) _ λ b encoded.
      Ensures-then _ _ (write-Written d b loaded encoded) (λ _. after_write d b loaded encoded)

  undo_saying-Same : (message : String) → Keeps (Same c h f) (undo_saying c h message)
  unfolding undo_saying
  undo_saying-Same message = Keeps-bind _ _ (undo-Same c h f) (λ _. Keeps-raise _)

  module _ (m : Do c h (Unit {0})) (e : Exn) (k : Value → Do c h Value) where
    stop :
        (r : Result (Unit {0})) (w : World c h)
        → let (r', w') = continue r (λ _. raise e) w in (continue r' k w').1 ≡ w
    unfolding raise
    stop (ok u) w = refl
    stop (raised e') w = refl

    -- An action that ends in a `raise` runs nothing behind it.
    stopped : Keeps (Same c h f) m → Ensures Both Written ((m >>= λ _. raise e) >>= k)
    unfolding ◌>>=◌
    stopped km = record {
      at = λ w p. inl (ap (λ (v : World c h). v.config) (stop (m w).0 (m w).1) ∙ km.at w p.0);
    }

  undo_saying-stopped :
      (message : String) (k : Value → Do c h Value)
      → Ensures Both Written (undo_saying c h message >>= k)
  unfolding undo_saying
  undo_saying-stopped message k = stopped (undo c h) (value_error message) k (undo-Same c h f)

  or_undo-bind :
      (r : Result Value) (k : Value → Do c h Value)
      → ((d : Value) → r ≡ ok d → Ensures Both Written (k d))
      → Ensures Both Written (or_undo c h r >>= k)
  unfolding or_undo
  or_undo-bind (ok d) k kk = Ensures-bind_lift unwritten (ok d) k kk
  or_undo-bind (raised (value_error e)) k kk = undo_saying-stopped _ k
  or_undo-bind (raised os_error) k kk = undo_saying-stopped _ k
  or_undo-bind (raised e) k kk = Ensures-bind_lift unwritten _ k (λ d q. absurd (cc q))

  keep-Written : (t : Trial c) → Ensures Both Written (keep_trial c h t)
  unfolding keep_trial
  keep-Written t = Ensures-bind_gets _ _ λ w p.
      or_undo-bind (load_candidate c h w.trial) _ λ d loaded.
        Ensures-bind unwritten _ _ read-Both λ saved.
          Ensures-if (is_text saved.digest t.base_digest) (save_document c h d)
            (undo_saying c h changed_elsewhere)
            (λ _. save-Written d (ap (load_candidate c h) (sym p.1) ∙ loaded))
            (λ _. still _ (undo_saying-Same _))

  -- `confirm` on the trial that is read at its start.
  confirm_trial-Written :
      (token : String) (t : Option (Trial c)) → Ensures Both Written (confirm_trial c h token t)
  unfolding confirm_trial
  confirm_trial-Written token none = still _ (Keeps-raise _)
  confirm_trial-Written token (some t) =
      Ensures-if (is_text token t.token) _ _
        (λ _. Ensures-bind unwritten _ _ (disarm-Both token) λ _. Ensures-bind_gets _ _ λ w p.
          Ensures-if (is_past t.expires confirm_grace_seconds (h.now w.desk))
            (undo_saying c h too_late) (keep_trial c h t) (λ _. still _ (undo_saying-Same _))
            (λ _. keep-Written t))
        (λ _. still _ (Keeps-raise _))

  branch-Written :
      {A : Type 0} (b : Bool) (x y : Result A × World c h)
      → Written x.1
      → Written y.1
      → Written (if b then x else y).1
  branch-Written true x y hx hy = hx
  branch-Written false x y hx hy = hy

module _ (c : Codec) (h : Host c) (request : Fields) (w : World c h) where
  -- After `confirm`, on every path, displays.json is what it was, or holds the encoding of the
  -- trial's candidate, which has been read and validated.
  pub confirm-Written : Written c h w.config w.trial (confirm c h request w).1
  unfolding confirm locked
  confirm-Written =
      branch-Written c h w.config w.trial w.runtime _ _
        ((confirm_trial-Written c h w.config w.trial (checkpoint c h request)
            (read_trial_state c w.state)).at
          w (refl, refl))
        (inl refl)
