-- ===== src/Displays/Kept.antt =====
-- What a successful `confirm` of display-settings.py has tested, and what it leaves behind.
use fedora_config.Base.{true, false, Option, some, String, ◌≡◌}
use fedora_config.Base.{ok}
use fedora_config.Json.{Value, is_text}
use fedora_config.Displays.Clock.{is_past, confirm_grace_seconds}
use fedora_config.Displays.Host.{Codec, Host}
use fedora_config.Displays.Store.{absent, regular, World, Trial, Saved, read_store, encode}
use fedora_config.Displays.Session.{disarm_watchdog}
use fedora_config.Displays.Requests.{load_candidate}

module _ (c : Codec) (h : Host c) where
  -- The trial `t` was kept, from `w`, where its candidate and the saved file were as in `w`.
  pub record IsKept (t : Trial c) (w v : World c h) : Type 0 where
    pub document : Value
    pub bytes : c.Bytes
    pub saved : Saved c
    pub candidate : load_candidate c h w.trial ≡ ok document
    pub current : read_store c w.config ≡ ok saved
    pub unchanged : is_text saved.digest t.base_digest ≡ true
    pub encoded : encode c document ≡ ok bytes
    pub config : v.config ≡ regular bytes
    pub trial : v.trial ≡ absent
    pub state : v.state ≡ absent

  -- What `confirm` has found, of the trial that was pending.
  abbrev HasKept : String → Option (Trial c) → World c h → World c h → Type 0
  HasKept token pending w v =
      (t : Trial c) × (desk : h.Desk) × (pending ≡ some t)
      × (is_text token t.token ≡ true)
      × (disarm_watchdog c h token w ≡ (ok tt, record w { desk = desk }))
      × (is_past t.expires confirm_grace_seconds (h.now desk) ≡ false)
      × IsKept t w v
