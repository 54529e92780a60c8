-- ===== src/Displays/Saved.antt =====
-- The file that `confirm` writes reads back, so that displays.json stays readable under every
-- sequence of requests, timer expiries and changes of the session.
use fedora_config.Base.{
  ltb, ◌≤◌, Bool, true, false, Option, none, some, String, ◌<>◌, ◌≡◌, inl, inr, refl, sym, ap, ◌∙◌,
}
use fedora_config.Base.{
  raise, Result, ok, raised, if◌then◌else◌, Bool-cases, le_of_ltb-false, ltb-false_of_le, str_eq,
}
use fedora_config.Base.Fallible.{bind-eq-ok}
use fedora_config.Json.{Value, null, str, arr, obj, Fields, end, get, get_or}
use fedora_config.Displays.Document.{
  validate_document, validate_monitors, is_version_one, max_bytes,
}
use fedora_config.Displays.Strict.{hooks_iff}
use fedora_config.Displays.Host.{Codec, IsCodec, Host, IsStrict}
use fedora_config.Displays.Store.{
  File, absent, regular, symlink, World, Saved, hooked, loads, sized, encode, load_document,
  read_store,
}
use fedora_config.Displays.Requests.{apply, confirm, rollback, expire, load_candidate}
use fedora_config.Displays.Serve.{main, serve_value, dispatch, snapshot}
use fedora_config.Displays.Frame.{config_frame, snapshot_frame}
use fedora_config.Displays.Session.{Do}
use fedora_config.Displays.Confirm.{Written, confirm-Written}

-- `validate_document` returns the document that it was given.
pub validate_document-eq : (v d : Value) → validate_document v ≡ ok d → d ≡ v
unfolding validate_document
validate_document-eq (obj fs) d e = elim (Bool-cases (is_version_one (get "v" fs))) [
  | inl y ↦
      let (u, p, q) =
        bind-eq-ok (validate_monitors (get_or (obj end) (get "monitors" fs))) (λ _. ok (obj fs))
          (rw y at e) in
      cc q
  | inr n ↦ absurd (cc (rw n at e))
]
validate_document-eq null d e = absurd (cc)
validate_document-eq _ d e = absurd (cc)

module _ (c : Codec) (L : IsCodec c) where
  hooked-inv : (o : Option Value) (v : Value) → hooked c o ≡ ok v → (o ≡ some v) × IsStrict v
  unfolding hooked
  hooked-inv none v e = absurd (cc)
  hooked-inv (some tree) v e =
      let (same, strict) = (hooks_iff tree v).0 e in (ap some (sym same), rw same strict)

  sized-inv :
      (o : Option c.Bytes) (b : c.Bytes) → sized c o ≡ ok b → (o ≡ some b) × (c.size b ≤ max_bytes)
  unfolding sized
  sized-inv none b e = absurd (cc)
  sized-inv (some a) b e = elim (Bool-cases (ltb max_bytes (c.size a))) [
    | inl y ↦ absurd (cc (rw y at e))
    | inr n ↦
        let same : a ≡ b = cc (rw n at e) in (ap some same, rw (← same) (le_of_ltb-false _ _ n))
  ]

  -- What was read and validated, encoded, reads back.
  load_document-encode :
      (b0 b : c.Bytes) (d : Value)
      → load_document c b0 ≡ ok d
      → encode c d ≡ ok b
      → (load_document c b ≡ ok d) × (c.size b ≤ max_bytes)
  unfolding load_document loads encode
  load_document-encode b0 b d read encoded =
      let (v, loaded, valid) = bind-eq-ok (hooked c (c.parse b0)) validate_document read in
      let same = validate_document-eq v d valid in
      let (parsed, strict) = hooked-inv (c.parse b0) v loaded in
      let (printed, fits) = sized-inv (c.print d) b encoded in
      let strict_d : IsStrict d = rw same strict in
      let reads = L.parse-print d b strict_d (rw same (L.parse-HasLowest b0 v parsed)) printed in
      (rw (reads, (hooks_iff d d).1 (refl, strict_d)) (ap validate_document same ∙ valid), fits)

  -- `read_store` reports no error.
  abbrev pub IsReadable : File c.Bytes → Type 0
  IsReadable f = (s : Saved c) × (read_store c f ≡ ok s) × (s.error ≡ "")

  candidate-inv :
      (h : Host c) (g : File c.Bytes) (d : Value)
      → load_candidate c h g ≡ ok d
      → (b : c.Bytes) × (load_document c b ≡ ok d)
  unfolding load_candidate
  candidate-inv h (regular b) d e = (b, e)
  candidate-inv h (symlink (some b)) d e = (b, e)
  candidate-inv h (symlink none) d e = absurd (cc)
  candidate-inv h absent d e = absurd (cc)
  candidate-inv h _ d e = absurd (cc)

  pub read_store-encoded :
      (b : c.Bytes) (d : Value)
      → load_document c b ≡ ok d
      → c.size b ≤ max_bytes
      → read_store c (regular b)
        ≡ ok (record { document = some d; digest = "sha256:" <> c.sha256 b; error = "" })
  unfolding read_store
  read_store-encoded b d loaded fits = rw (ltb-false_of_le max_bytes (c.size b) fits, loaded)

  Written-IsReadable :
      (h : Host c) (f g : File c.Bytes) (w : World c h)
      → IsReadable f
      → Written c h f g w
      → IsReadable w.config
  Written-IsReadable h f g w r (inl e) = rw e r
  Written-IsReadable h f g w r (inr (d, b, loaded, encoded, e)) =
      let (b0, read) = candidate-inv h g d loaded in
      let (again, fits) = load_document-encode b0 b d read encoded in
      rw e (_, read_store-encoded b d again fits, refl)

  module _ (h : Host c) where
    -- One event: a request line, the timer of some trial, or anything that happens to the session
    -- and its clock.
    pub data Event : World c h → World c h → Type 0 where
      request : (raw : c.Bytes) (w : World c h) → Event w (main c h raw w).1
      timer : (token : String) (w : World c h) → Event w (expire c h token w).1
      elsewhere : (desk : h.Desk) (w : World c h) → Event w (record w { desk = desk })

    pub data Events (w : World c h) : World c h → Type 0 where
      start : Events w w
      and_next : {v u : World c h} → Events w v → Event v u → Events w u

    -- The named requests, and one that is refused.
    branch : {A : Type 0} (P : A → Type 0) (b : Bool) (x y : A) → P x → P y → P (if b then x else y)
    branch P true x y hx hy = hx
    branch P false x y hx hy = hy

    dispatch-IsReadable :
        (action : Option Value) (fields : Fields) (w : World c h)
        → IsReadable w.config
        → IsReadable (dispatch c h action fields w).1.config
    unfolding raise
    dispatch-IsReadable none fields w r = r
    dispatch-IsReadable (some (str action)) fields w r =
        let Good : Do c h Value → Type 0 = λ m. IsReadable (m w).1.config in
        branch Good (str_eq action "apply") (apply c h fields) _
          (rw ((config_frame c h w).0 fields) r)
          (branch Good (str_eq action "confirm") (confirm c h fields) _
            (Written-IsReadable h w.config w.trial (confirm c h fields w).1 r
              (confirm-Written c h fields w))
            (branch Good (str_eq action "rollback") (rollback c h fields) _
              (rw ((config_frame c h w).1 fields) r)
              (branch Good (str_eq action "snapshot") (snapshot c h) _ (rw (snapshot_frame c h w) r)
                r)))
    dispatch-IsReadable (some (arr xs)) fields w r = r
    dispatch-IsReadable (some (obj fs)) fields w r = r
    dispatch-IsReadable (some _) fields w r = r

    serve-IsReadable :
        (v : Result Value) (w : World c h)
        → IsReadable w.config
        → IsReadable (serve_value c h v w).1.config
    unfolding raise
    serve-IsReadable (ok (obj fields)) w r = dispatch-IsReadable (get "action" fields) fields w r
    serve-IsReadable (ok null) w r = r
    serve-IsReadable (ok _) w r = r
    serve-IsReadable (raised e) w r = r

    Event-IsReadable : {w v : World c h} → Event w v → IsReadable w.config → IsReadable v.config
    unfolding main raise
    Event-IsReadable (request raw w) r =
        let Good : Do c h Value → Type 0 = λ m. IsReadable (m w).1.config in
        branch Good (ltb max_bytes (c.size raw)) _ (serve_value c h (loads c raw)) r
          (serve-IsReadable (loads c raw) w r)
    Event-IsReadable (timer token w) r = rw ((config_frame c h w).2 token) r
    Event-IsReadable (elsewhere desk w) r = r

    -- From a session whose displays.json is absent or reads without error, every sequence of
    -- requests, timer expiries and changes of the session leaves it so, whichever of them fail.
    pub Events-IsReadable :
        {w v : World c h} → IsReadable w.config → Events w v → IsReadable v.config
    Events-IsReadable r start = r
    Events-IsReadable r (and_next es e) = Event-IsReadable e (Events-IsReadable r es)
