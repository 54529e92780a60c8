-- ===== src/Calendar/Sources.antt =====
-- `source_is_google` of calendar-events.py: a source of Google's, or below one.
use fedora_config.Base.{
  ℕ, zero, suc, Bool, true, false, ◌||◌, Option, none, some, List, [], ◌∷◌, is_member, String,
  str_eq, if◌then◌else◌,
}
use fedora_config.Calendar.Text.{text}

-- What a source of the registry says of itself: its uid, its parent's, the account of its GOA
-- extension and the backend of its collection, where it has these extensions.
pub record Node : Type 0 where
  pub uid : Option String
  pub parent : Option String
  pub account : Option (Option String)
  pub collection : Option (Option String)

unfoldable pub uid_of : Node → String
uid_of n = text n.uid "" 500

-- `registry` is `ref_source`, `accounts` are the ids of the Google accounts, and `lower` is
-- `str.lower`.
module _ (registry : String → Option Node) (accounts : List String) (lower : String → String) where
  unfoldable pub has_account : Option (Option String) → Bool
  has_account none = false
  has_account (some id) = is_member (text id "" 500) accounts

  unfoldable pub is_google_name : Option String → Bool
  is_google_name backend = str_eq (lower (text backend "" 500)) "google"

  unfoldable pub has_collection : Option (Option String) → Bool
  has_collection none = false
  has_collection (some backend) = is_google_name backend

  -- The two tests in the loop's body.
  unfoldable pub is_google_node : Node → Bool
  is_google_node n = has_account n.account || has_collection n.collection

  -- `registry.ref_source(parent_uid) if parent_uid else None`
  unfoldable pub parent_of : Node → Option Node
  parent_of n = let uid = text n.parent "" 500 in if str_eq uid "" then none else registry uid

  -- The loop, `none` when `fuel` rounds were not enough.
  unfoldable pub climb : ℕ → List String → Option Node → Option Bool
  climb fuel visited none = some false
  climb zero visited (some n) = none
  climb (suc fuel) visited (some n) =
      let rest = climb fuel (uid_of n ∷ visited) (parent_of n) in
      if is_member (uid_of n) visited
      then some false
      else if is_google_node n
      then some true
      else rest

  unfoldable pub source_is_google : ℕ → Node → Option String → Option Bool
  source_is_google fuel source backend =
      if is_google_name backend then some true else climb fuel [] (some source)
