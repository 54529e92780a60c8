-- ===== src/Packages/Updated.antt =====
-- What `update` leaves.
use fedora_config.Base.{◌≡◌, List, String}
use fedora_config.Base.Triple.{Triple}
use fedora_config.Packages.Store.{Entries, World, Site}
use fedora_config.Packages.Quiet.{IsQuiet, Held, Answered}
use fedora_config.Packages.Update.{head_args, upstream_args, ancestor_args}

module _ {Tree Registry Code : Type 0} (site : Site Tree Registry) (code : Tree → Code)
    (keeps : (args : List String) (tree : Tree)
      → IsQuiet args
      → code (site.git args tree).1 ≡ code tree)
    (start : Entries Tree) (id : String) where
  abbrev Started : (Tree → Type 0) → World Tree Registry → Type 0
  Started F w = Held site code keeps start id F w.entries

  abbrev Anything : World Tree Registry → Type 0
  Anything = Started (λ t. Unit)

  abbrev AtUpstream : String → Tree → Type 0
  AtUpstream a t = Unit {0} × Answered site code keeps upstream_args a t

  abbrev AtBoth : String → String → Tree → Type 0
  AtBoth upstream a t = AtUpstream upstream t × Answered site code keeps head_args a t

  abbrev AtAncestor : String → String → String → Tree → Type 0
  AtAncestor upstream previous a t =
      AtBoth upstream previous t × Answered site code keeps (ancestor_args previous upstream) a t
