-- ===== src/Downloads/Exported.antt =====
-- What `export_cache` collects.
use fedora_config.Base.{
  ◌≡◌, refl, ◌∙◌, ap, Bool, true, false, List, [], ◌∷◌, ◌++◌, All, All-append_one,
}
use fedora_config.Base.{String, str_eq, eq_iff, ok, Exn}
use fedora_config.Base.Triple.{
  Triple, Triple-pure, Triple-raise, Triple-lift, Triple-if, Triple-bind, Triple-bind_lift,
  Triple-weaken,
}
use fedora_config.Json.{Value}
use fedora_config.Displays.Store.{File, absent, regular, symlink, unreadable, directory}
use fedora_config.Downloads.Import.{Paths, Pin, allowed}
use fedora_config.Downloads.Export.{
  Builder, Exported, entry_at, candidates, write_blob, copy_out, append_entry, export_bytes,
  export_file, is_skipped, export_candidate, export_candidates, export_pins,
}
use fedora_config.Downloads.Collected.{
  Listed, Listed-append_one, Listed-last, IsCollected, AreCollected, new-regular, replaced-All,
  replaced-unlinked,
}

module _ {B : Type 0} (sha256 : B → String) (builder : Builder B) (paths : Paths)
    (takes : String → Bool) (cut : B → B) (contract : List Pin) where
  abbrev Anything : Exn → Exported B → Type 0
  Anything e w = Unit

  -- A file of the builder that a pin names is among the entries.
  abbrev pub Collects : String → List Value → String → Type 0
  Collects sha es path =
      (b : B)
      → builder.stands path ≡ regular b
      → allowed paths contract (entry_at path sha) ≡ ok true
      → str_eq (sha256 b) sha ≡ true
      → Listed (entry_at path sha) es

  -- `M` is kept when the entries grow.
  module _ (M : List Value → Type 0)
      (grow : (es : List Value) (e : Value) → M es → M (es ++ (e ∷ []))) where
    abbrev Going : Exported B → Type 0
    Going w = AreCollected sha256 builder paths takes cut contract w × M w.entries

    copy_out-Triple :
        (b : B) (sha : String)
        → str_eq (sha256 b) sha ≡ true
        → Triple Going
            (λ u w. Going w × (w.blobs sha ≡ regular b))
            Anything
            (copy_out sha256 builder paths takes cut contract b sha)
    unfolding copy_out write_blob
    copy_out-Triple b sha good =
        Triple-if (takes sha) _ _
          (λ y. record {
            at = λ w ((unlinked, all), m). (
              (
                (
                  replaced-unlinked sha256 builder paths takes cut contract sha b good w unlinked,
                  replaced-All sha256 builder paths takes cut contract sha b good w unlinked
                      w.entries all,
                ),
                m,
              ),
              rw ((eq_iff sha sha).1 refl)
                  (new-regular sha256 builder paths takes cut contract sha b good w unlinked),
            );
          })
          (λ n.
            Triple-bind (λ u w. Unit {0}) _ _ (record { at = λ w h. tt })
              (λ u. Triple-raise _ (λ w h. tt)))

    append_entry-Triple :
        (path sha : String) (b : B)
        → allowed paths contract (entry_at path sha) ≡ ok true
        → builder.stands path ≡ regular b
        → str_eq (sha256 b) sha ≡ true
        → Triple
            (λ w. Going w × (w.blobs sha ≡ regular b))
            (λ u w. Going w × Listed (entry_at path sha) w.entries)
            Anything
            (append_entry sha256 builder paths takes cut contract path sha)
    unfolding append_entry
    append_entry-Triple path sha b allowed_there stands good = record {
      at = λ w (((unlinked, all), m), blob). (
        (
          (
            unlinked,
            All-append_one (IsCollected sha256 builder paths takes cut contract w.blobs) w.entries
                (entry_at path sha) all
                (record {
                  path = path;
                  sha = sha;
                  file = b;
                  bytes = b;
                  entry = refl;
                  allowed_there = allowed_there;
                  stands = stands;
                  file_digest = good;
                  blob = blob;
                  blob_digest = good;
                }),
          ),
          grow w.entries (entry_at path sha) m,
        ),
        Listed-last w.entries (entry_at path sha),
      );
    }

    two_digests :
        (path sha : String) (b c : B)
        → builder.stands path ≡ regular b
        → builder.stands path ≡ regular c
        → str_eq (sha256 b) sha ≡ false
        → str_eq (sha256 c) sha ≡ true
        → ⊥
    two_digests path sha b c stands at n digest = cc

    export_file-Triple :
        (path : String) (f : File B) (sha : String)
        → builder.stands path ≡ f
        → allowed paths contract (entry_at path sha) ≡ ok true
        → Triple Going
            (λ u w. Going w × Collects sha w.entries path)
            Anything
            (export_file sha256 builder paths takes cut contract path f sha)
    unfolding export_file export_bytes
    export_file-Triple path (regular b) sha stands good =
        Triple-if (str_eq (sha256 b) sha) _ _
          (λ y.
            Triple-bind (λ u w. Going w × (w.blobs sha ≡ regular b)) _ _ (copy_out-Triple b sha y)
              (λ u.
                Triple-weaken _ (λ w h. h) (λ v w h. (h.0, λ c at allowed_there digest. h.1))
                  (λ e w h. tt) (append_entry-Triple path sha b good stands y)))
          (λ n. Triple-pure tt (λ w h.
            (h, λ c at allowed_there digest. absurd (two_digests path sha b c stands at n digest))))
    export_file-Triple path unreadable sha stands good =
        Triple-lift _ (λ u never w h. absurd (cc)) (λ e failed w h. tt)
    export_file-Triple path absent sha stands good =
        Triple-pure tt (λ w h. (h, λ c at. absurd (cc)))
    export_file-Triple path (symlink f) sha stands good =
        Triple-pure tt (λ w h. (h, λ c at. absurd (cc)))
    export_file-Triple path directory sha stands good =
        Triple-pure tt (λ w h. (h, λ c at. absurd (cc)))

    export_candidate-Triple :
        (sha path : String)
        → Triple Going
            (λ u w. Going w × Collects sha w.entries path)
            Anything
            (export_candidate sha256 builder paths takes cut contract sha path)
    unfolding export_candidate is_skipped
    export_candidate-Triple sha path =
        Triple-if (is_skipped sha256 builder paths takes cut contract (builder.stands path)) _ _
          (λ skipped. Triple-pure tt (λ w h. (h, λ b at. absurd (cc (rw at at skipped)))))
          (λ read.
            Triple-bind_lift (allowed paths contract (entry_at path sha)) _
              (λ good answer.
                Triple-if good _ _
                  (λ y. export_file-Triple path (builder.stands path) sha refl (answer ∙ ap ok y))
                  (λ n. Triple-pure tt (λ w h. (h, λ b at allowed_there digest. absurd (cc)))))
              (λ e w h. tt))

  Collects-grow :
      (sha path : String) (es : List Value) (e : Value)
      → Collects sha es path
      → Collects sha (es ++ (e ∷ [])) path
  Collects-grow sha path es e c b at allowed_there digest =
      Listed-append_one (entry_at path sha) es e (c b at allowed_there digest)

  All-Collects-grow :
      (sha : String) (found : List String) (es : List Value) (e : Value)
      → All (Collects sha es) found
      → All (Collects sha (es ++ (e ∷ []))) found
  All-Collects-grow sha [] es e cs = tt
  All-Collects-grow sha (path ∷ found) es e (c, cs) =
      (Collects-grow sha path es e c, All-Collects-grow sha found es e cs)

  export_candidates-Triple :
      (M : List Value → Type 0) (grow : (es : List Value) (e : Value) → M es → M (es ++ (e ∷ [])))
      (sha : String) (found : List String)
      → Triple
          (λ w. AreCollected sha256 builder paths takes cut contract w × M w.entries)
          (λ u w.
            (AreCollected sha256 builder paths takes cut contract w × M w.entries)
            × All (Collects sha w.entries) found)
          Anything
          (export_candidates sha256 builder paths takes cut contract sha found)
  unfolding export_candidates
  export_candidates-Triple M grow sha [] = Triple-pure tt (λ w h. (h, tt))
  export_candidates-Triple M grow sha (path ∷ found) =
      Triple-bind
        (λ u w.
          (AreCollected sha256 builder paths takes cut contract w × M w.entries)
          × Collects sha w.entries path)
        _ _ (export_candidate-Triple M grow sha path)
        (λ u.
          Triple-weaken _ (λ w ((cs, m), c). (cs, (m, c)))
            (λ v w ((cs, (m, c)), all). ((cs, m), (c, all))) (λ e w h. tt)
            (export_candidates-Triple (λ es. M es × Collects sha es path)
              (λ es e (m, c). (grow es e m, Collects-grow sha path es e c)) sha found))

  -- Each candidate of the pin is among the entries, where it is a file with the pin's digest.
  abbrev pub IsDone : List Value → Pin → Type 0
  IsDone es pin =
      (found : List String) × (candidates sha256 builder pin ≡ ok found)
      × All (Collects pin.checksum es) found

  IsDone-grow :
      (pin : Pin) (es : List Value) (e : Value) → IsDone es pin → IsDone (es ++ (e ∷ [])) pin
  IsDone-grow pin es e (found, listing, all) =
      (found, listing, All-Collects-grow pin.checksum found es e all)

  pub export_pins-Triple :
      (M : List Value → Type 0) (grow : (es : List Value) (e : Value) → M es → M (es ++ (e ∷ [])))
      (pins : List Pin)
      → Triple
          (λ w. AreCollected sha256 builder paths takes cut contract w × M w.entries)
          (λ u w.
            (AreCollected sha256 builder paths takes cut contract w × M w.entries)
            × All (IsDone w.entries) pins)
          Anything
          (export_pins sha256 builder paths takes cut contract pins)
  unfolding export_pins
  export_pins-Triple M grow [] = Triple-pure tt (λ w h. (h, tt))
  export_pins-Triple M grow (pin ∷ pins) =
      Triple-bind_lift (candidates sha256 builder pin) _
        (λ found listing.
          Triple-bind
            (λ u w.
              (AreCollected sha256 builder paths takes cut contract w × M w.entries)
              × All (Collects pin.checksum w.entries) found)
            _ _ (export_candidates-Triple M grow pin.checksum found)
            (λ u.
              Triple-weaken _ (λ w ((cs, m), all). (cs, (m, (found, listing, all))))
                (λ v w ((cs, (m, done)), rest). ((cs, m), (done, rest))) (λ e w h. tt)
                (export_pins-Triple (λ es. M es × IsDone es pin)
                  (λ es e (m, done). (grow es e m, IsDone-grow pin es e done)) pins)))
        (λ e w h. tt)
