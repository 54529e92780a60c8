-- ===== src/Packages/Cloned.antt =====
-- What `clone` leaves.
use fedora_config.Base.{◌≡◌, ◌⊎◌, Option, none, List, String, ok, raised, Exn}
use fedora_config.Base.Action.{refuse_if as refuse_now}
use fedora_config.Base.Triple.{Triple}
use fedora_config.Json.{Fields}
use fedora_config.Packages.Store.{Entries, Site, directory, lookup, put_entry}
use fedora_config.Packages.Scoped.{absent}
use fedora_config.Packages.Copier.{Built, Copier}
use fedora_config.Packages.Copied.{IsEdited, IsSource, IsCopy}

module _ {Tree Registry : Type 0} (site : Site Tree Registry) (copier : Copier Tree)
    (start : Entries Tree) (id new_id : String) (builtin : Option (List (Built Tree))) where
  -- The copy, with its new manifest, was validated, and was added under a name that was free.
  pub record IsCloned (es : Entries Tree) : Type 0 where
    built : Built Tree
    source : IsSource site copier start id builtin built
    copied : Tree
    tree : Tree
    manifest : Fields
    copy : IsCopy site copier start id built copied
    edited : IsEdited id new_id manifest
    written : copier.write_manifest manifest copied ≡ ok tree
    validated : site.validate new_id tree ≡ ok tt
    absent : lookup new_id start ≡ none
    added : es ≡ put_entry new_id (directory tree) start

  abbrev pub IsUncloned : Exn → Entries Tree → Type 0
  IsUncloned e es = (es ≡ start) ⊎ (((x : Exn) × (site.cleaned ≡ raised x)) × IsCloned es)
