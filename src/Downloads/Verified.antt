-- ===== src/Downloads/Verified.antt =====
-- What `cached_download` leaves behind, and when it succeeds.
use fedora_config.Base.{
  ℕ, zero, suc, ◌+◌, ◌==◌, ◌≤◌, ◌<◌, ◌≡◌, ◌≢◌, inl, inr, refl, ◌∙◌, arith, true, false, Bool-cases,
}
use fedora_config.Base.{Option, none, some, String, str_eq, Result, ok, raised, Option-cases}
use fedora_config.Displays.Store.{File, absent, regular, unreadable}
use fedora_config.Downloads.Fetch.{
  Attempt, refused, cut_short, received, stuck, Cache, replace_target, is_directory, try_once,
  attempts, note_problem, wait, download, use_target, cached_download,
}

module _ {B : Type 0} (sha256 : B → String) (empty : B) (checksum : String) where
  -- The file holds what the digest names.
  abbrev pub IsVerified : File B → Type 0
  IsVerified f = (b : B) × (f ≡ regular b) × (str_eq (sha256 b) checksum ≡ true)

  -- Verified after a return; as it was after an exception.
  abbrev pub IsSound : File B → Result (Unit {0}) → File B → Type 0
  IsSound before (ok u) after = IsVerified after
  IsSound before (raised e) after = after ≡ before

  abbrev Tried : File B → Option String × Cache B → Type 0
  Tried before (none, s) = IsVerified s.target
  Tried before (some p, s) = s.target ≡ before

  replace_target-Tried :
      (b : B) (s : Cache B)
      → str_eq (sha256 b) checksum ≡ true
      → Tried s.target (replace_target sha256 empty b s)
  unfolding replace_target
  replace_target-Tried b s h = elim (Bool-cases (is_directory sha256 empty s.target)) [
    | inl y ↦ rw y refl
    | inr n ↦ rw n (b, refl, h)
  ]

  try_once-Tried :
      (a : Attempt B) (s : Cache B) → Tried s.target (try_once sha256 empty checksum a s)
  unfolding try_once
  try_once-Tried (refused p) s = refl
  try_once-Tried (cut_short p b) s = refl
  try_once-Tried (stuck p b) s = refl
  try_once-Tried (received b) s = elim (Bool-cases (str_eq (sha256 b) checksum)) [
    | inl y ↦ rw y (replace_target-Tried b (record s { temporary = regular b }) y)
    | inr n ↦ rw n refl
  ]

  Tried-none :
      (before : File B) (t : Option String × Cache B)
      → t.0 ≡ none
      → Tried before t
      → IsVerified t.1.target
  Tried-none before (none, s) n h = h
  Tried-none before (some p, s) n h = absurd (cc)

  Tried-some :
      (before : File B) (t : Option String × Cache B) (problem : String)
      → t.0 ≡ some problem
      → Tried before t
      → t.1.target ≡ before
  Tried-some before (none, s) problem n h = absurd (cc)
  Tried-some before (some p, s) problem n h = h

  more : (left attempt : ℕ) → suc left + attempt ≡ 5 → (attempt == 4) ≡ false → 0 < left
  more left attempt total n = ground arith

  module _ (fetch : ℕ → Attempt B) where
    abbrev Attempted : File B → Result (Unit {0}) × Cache B → Type 0
    Attempted before (r, s) = IsSound before r s.target

    -- `left` attempts from `attempt` on end with the fourth.
    attempts-IsSound :
        (left attempt : ℕ) (before : File B) (s : Cache B)
        → left + attempt ≡ 5
        → 0 < left
        → s.target ≡ before
        → Attempted before (attempts sha256 empty checksum fetch left attempt s)
    unfolding attempts
    attempts-IsSound zero attempt before s total some_left e = absurd (omega (arith, some_left))
    attempts-IsSound (suc left) attempt before s total some_left e =
        let tried = try_once-Tried (fetch attempt) s in
        let next = try_once sha256 empty checksum (fetch attempt) s in
        elim (Option-cases next.0) [
          | inl n ↦ rw (attempts, n) (Tried-none s.target next n tried)
          | inr (problem, p) ↦
              let kept : next.1.target ≡ before = (Tried-some s.target next problem p tried) ∙ e in
              elim (Bool-cases (attempt == 4)) [
                | inl y ↦ rw (attempts, p, y) kept
                | inr n ↦
                    rw (attempts, p, n)
                      (attempts-IsSound left (attempt + 1) before
                        (wait sha256 empty attempt
                          (note_problem sha256 empty attempt problem next.1))
                        (omega (arith, total)) (more left attempt total n) kept)
              ]
        ]

    abbrev Settled : Cache B → Result (Unit {0}) × Cache B → Type 0
    Settled s (r, t) = IsSound s.target r t.target × (t.temporary ≡ absent)

    download-Settled : (s : Cache B) → Settled s (download sha256 empty checksum fetch s)
    unfolding download
    download-Settled s = (
      attempts-IsSound 4 1 s.target (record s { temporary = regular empty }) refl (omega arith)
          refl,
      refl,
    )

    use_target-Settled :
        (f : File B) (s : Cache B)
        → s.target ≡ f
        → s.temporary ≡ absent
        → Settled s (use_target sha256 empty f checksum fetch s)
    unfolding use_target
    use_target-Settled (regular b) s here e = elim (Bool-cases (str_eq (sha256 b) checksum)) [
      | inl y ↦ rw y ((b, here, y), e)
      | inr n ↦ rw n (download-Settled s)
    ]
    use_target-Settled unreadable s here e = (refl, e)
    use_target-Settled _ s here e = download-Settled s

    -- A return leaves the verified file, whether it was there or was fetched; an exception leaves
    -- what was there; and no temporary file stays.
    pub cached_download-IsSound :
        (s : Cache B)
        → s.temporary ≡ absent
        → let (r, t) = cached_download sha256 empty checksum fetch s in
          IsSound s.target r t.target × (t.temporary ≡ absent)
    unfolding cached_download
    cached_download-IsSound s e = use_target-Settled s.target s refl e

  -- The verified answer succeeds.
  try_once-received :
      (b : B) (s : Cache B)
      → str_eq (sha256 b) checksum ≡ true
      → is_directory sha256 empty s.target ≡ false
      → (try_once sha256 empty checksum (received b) s).0 ≡ none
  unfolding try_once replace_target
  try_once-received b s h d = rw (h, d) refl

  module _ (fetch : ℕ → Attempt B) (k : ℕ) (b : B) (answered : fetch k ≡ received b)
      (good : str_eq (sha256 b) checksum ≡ true) where
    above : (attempt : ℕ) → attempt ≤ k → attempt ≢ k → attempt + 1 ≤ k
    above attempt low late = grind arith

    attempts-returns :
        (left attempt : ℕ) (s : Cache B)
        → left + attempt ≡ 5
        → attempt ≤ k
        → k ≤ 4
        → is_directory sha256 empty s.target ≡ false
        → (attempts sha256 empty checksum fetch left attempt s).0 ≡ ok tt
    unfolding attempts
    attempts-returns zero attempt s total low high d = refl
    attempts-returns (suc left) attempt s total low high d =
        let tried = try_once-Tried (fetch attempt) s in
        let next = try_once sha256 empty checksum (fetch attempt) s in
        elim (Option-cases next.0) [
          | inl n ↦ rw (attempts, n) refl
          | inr (problem, p) ↦
              let kept = Tried-some s.target next problem p tried in
              let late : attempt ≢ k =
                λ here. cc (p, here, answered, try_once-received b s good d) in
              elim (Bool-cases (attempt == 4)) [
                | inl y ↦ absurd (late (ground arith))
                | inr n ↦
                    rw (attempts, p, n)
                      (attempts-returns left (attempt + 1)
                        (wait sha256 empty attempt
                          (note_problem sha256 empty attempt problem next.1))
                        (omega (arith, total)) (above attempt low late) high (rw kept d))
              ]
        ]

    use_target-returns :
        (f : File B) (s : Cache B)
        → s.target ≡ f
        → 1 ≤ k
        → k ≤ 4
        → is_directory sha256 empty f ≡ false
        → f ≢ unreadable
        → (use_target sha256 empty f checksum fetch s).0 ≡ ok tt
    unfolding use_target download
    use_target-returns (regular a) s here low high d r =
        elim (Bool-cases (str_eq (sha256 a) checksum)) [
          | inl y ↦ rw y refl
          | inr n ↦ rw n (
              attempts-returns 4 1 (record s { temporary = regular empty }) refl low high
                (rw here d))
        ]
    use_target-returns unreadable s here low high d r = absurd (r refl)
    use_target-returns f s here low high d r =
        attempts-returns 4 1 (record s { temporary = regular empty }) refl low high (rw here d)

    -- If one of the four attempts receives the whole file, the download returns, whatever
    -- happens to the others, unless a directory or an unreadable file stands in its place.
    pub cached_download-returns :
        (s : Cache B)
        → 1 ≤ k
        → k ≤ 4
        → is_directory sha256 empty s.target ≡ false
        → s.target ≢ unreadable
        → (cached_download sha256 empty checksum fetch s).0 ≡ ok tt
    unfolding cached_download
    cached_download-returns s low high d r = use_target-returns s.target s refl low high d r
