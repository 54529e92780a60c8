-- ===== src/Displays/Stale.antt =====
-- Requests that do not belong to the pending trial of display-settings.py.
use fedora_config.Base.{
  ◌+◌, ◌*◌, ◌^◌, ◌<◌, pos_part, lt→ltb, Bool-cases, inl, inr, Exn, Bool, true, false, Option, none,
  some, String, ◌≡◌, refl,
}
use fedora_config.Base.{if◌then◌else◌, str_eq, Result, ok, raised, value_error, raise, pure}
use fedora_config.Base.Action.{◌>>=◌}
use fedora_config.Json.{Value, Fields, get, or_null, is_text}
use fedora_config.Displays.Keys.{matches_token}
use fedora_config.Displays.Clock.{lasts_past, watchdog_seconds}
use fedora_config.Displays.Document.{validate_document}
use fedora_config.Displays.Host.{Codec, Host}
use fedora_config.Displays.Store.{World, Trial, read_trial_state, encode}
use fedora_config.Displays.Session.{locked}
use fedora_config.Displays.Requests.{checkpoint, confirm_trial, confirm, rollback_trial, rollback}
use fedora_config.Displays.Requests.{expire_trial, expire, apply_locked, apply}

module _ (c : Codec) (h : Host c) where
  -- The token is not that of the pending trial, if there is one.
  abbrev pub IsStale : String → Option (Trial c) → Type 0
  IsStale token none = Unit
  IsStale token (some t) = is_text token t.token ≡ false

  confirm_trial-stale :
      (token : String) (t : Option (Trial c)) (w : World c h)
      → IsStale token t
      → (confirm_trial c h token t w).1 ≡ w
  unfolding confirm_trial raise
  confirm_trial-stale token none w s = refl
  confirm_trial-stale token (some t) w s = rw s

  expire_trial-stale :
      (token : String) (t : Option (Trial c)) (w : World c h)
      → IsStale token t
      → (expire_trial c h token t w).1 ≡ w
  unfolding expire_trial pure
  expire_trial-stale token none w s = refl
  expire_trial-stale token (some t) w s = rw s

  rollback_trial-stale :
      (token : String) (t : Option (Trial c)) (w : World c h)
      → IsStale token t
      → str_eq token "" ≡ false
      → (rollback_trial c h token t w).1 ≡ w
  unfolding rollback_trial pure raise
  rollback_trial-stale token none w s e = refl
  rollback_trial-stale token (some t) w s e = rw (s, e)

  locked-same :
      {A : Type 0} (b : Bool) (x y : Result A × World c h) (w : World c h)
      → x.1 ≡ w
      → y.1 ≡ w
      → (if b then x else y).1 ≡ w
  locked-same true x y w hx hy = hx
  locked-same false x y w hx hy = hy

  expire-stale :
      (b : Bool) (token : String) (w : World c h)
      → IsStale token (read_trial_state c w.state)
      → ((if b
            then locked c h (λ w. expire_trial c h token (read_trial_state c w.state) w)
            else pure 2)
          w).1
        ≡ w
  unfolding locked pure
  expire-stale true token w s = locked-same w.runtime _ _ w (expire_trial-stale token _ w s) refl
  expire-stale false token w s = refl

  module _ (w : World c h) where
    -- A confirm, a timer or a rollback that names a token other than the pending trial's, or that
    -- comes when none is pending, changes nothing at all: no file, and nothing in the session. (A
    -- rollback that names no token means whatever trial is pending.)
    pub IsStale-frame :
        ((request : Fields)
          → IsStale (checkpoint c h request) (read_trial_state c w.state)
          → (confirm c h request w).1 ≡ w)
        × ((token : String)
            → IsStale token (read_trial_state c w.state)
            → (expire c h token w).1 ≡ w)
        × ((request : Fields)
            → IsStale (checkpoint c h request) (read_trial_state c w.state)
            → str_eq (checkpoint c h request) "" ≡ false
            → (rollback c h request w).1 ≡ w)
    unfolding confirm expire rollback locked pure
    IsStale-frame = (
      λ request s.
          locked-same w.runtime _ _ w (confirm_trial-stale (checkpoint c h request) _ w s) refl,
      λ token s. expire-stale (matches_token token) token w s,
      λ request s e.
          locked-same w.runtime _ _ w (rollback_trial-stale (checkpoint c h request) _ w s e) refl,
    )

    -- While a trial is pending and its watchdog may still act, every other `apply` raises and changes
    -- nothing at all, whatever it asks for; and where its document is valid and can be written and
    -- the runtime directory is there, it says that the change before is to be kept or reverted.
    pub apply_busy :
        (request : Fields) (t : Trial c)
        → read_trial_state c w.state ≡ some t
        → h.now w.desk * 2 ^ t.expires.exponent
          < (pos_part t.expires.mantissa + watchdog_seconds * 2 ^ t.expires.exponent) * 1024
        → ((e : Exn) × (apply c h request w ≡ (raised e, w)))
          × ((d : Value) (b : c.Bytes)
              → validate_document (or_null (get "document" request)) ≡ ok d
              → encode c d ≡ ok b
              → w.runtime ≡ true
              → apply c h request w
                ≡ (raised (value_error "Keep or revert the current display change first."), w))
    unfolding apply apply_locked locked lasts_past ◌>>=◌
    apply_busy request t pending early = (
      by_document (validate_document (or_null (get "document" request))) refl,
      λ d b valid encoded runtime. simp (valid, encoded, runtime, pending, lasts),
    )
      where
        lasts : lasts_past t.expires watchdog_seconds (h.now w.desk) ≡ true
        lasts = lt→ltb _ _ early

        by_bytes :
            (d : Value) (r : Result c.Bytes)
            → validate_document (or_null (get "document" request)) ≡ ok d
            → encode c d ≡ r
            → (e : Exn) × (apply c h request w ≡ (raised e, w))
        by_bytes d (raised e) valid encoded = (e, simp (valid, encoded))
        by_bytes d (ok b) valid encoded = elim (Bool-cases w.runtime) [
          | inl y ↦ (
            value_error "Keep or revert the current display change first.",
            simp (valid, encoded, y, pending, lasts),
          )
          | inr n ↦ (
            value_error "XDG_RUNTIME_DIR is not set; display changes need a desktop session.",
            simp (valid, encoded, n),
          )
        ]

        by_document :
            (r : Result Value)
            → validate_document (or_null (get "document" request)) ≡ r
            → (e : Exn) × (apply c h request w ≡ (raised e, w))
        by_document (raised e) valid = (e, simp (valid))
        by_document (ok d) valid = by_bytes d (encode c d) valid refl
