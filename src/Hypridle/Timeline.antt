-- ===== src/Hypridle/Timeline.antt =====
-- The listeners that hypridle-config.py writes, and their order.
use fedora_config.Base.{
  ℕ, ◌+◌, ◌*◌, ◌==◌, ◌≤◌, ◌<◌, ltb, leb, Bool, true, false, List, [], ◌∷◌, ◌++◌, All,
}
use fedora_config.Base.{
  ◌≡◌, ◌⊎◌, ◌↔◌, inl, inr, arith, if◌then◌else◌, Bool-cases, String, ◌<>◌, ltb→lt, lt→ltb,
}
use fedora_config.Hypridle.Settings.{Settings}
use fedora_config.Hypridle.Render.{
  Listener, plain, lock_command, screen_off_listener, locked_off_listener, battery_listener,
}
use fedora_config.Hypridle.Render.{
  lock_listeners, locked_listeners, locked_off, screen_listeners, suspend_listeners, listeners,
  insert, sort,
}

-- The listener stands in the list.
abbrev pub In : Listener → List Listener → Type 0
In l [] = ⊥
In l (k ∷ ks) = (l ≡ k) ⊎ In l ks

In-append : (l : Listener) (xs ys : List Listener) → In l (xs ++ ys) ↔ (In l xs ⊎ In l ys)
In-append l [] ys = (inr, elim [ inl e ↦ absurd e | inr i ↦ i ])
In-append l (k ∷ xs) ys =
    let ih = In-append l xs ys in
    (
      elim [ inl e ↦ inl (inl e) | inr i ↦ elim (ih.0 i) [ inl a ↦ inl (inr a) | inr b ↦ inr b ] ],
      elim [
        | inl h ↦ elim h [ inl e ↦ inl e | inr a ↦ inr (ih.1 (inl a)) ]
        | inr b ↦ inr (ih.1 (inr b))
      ],
    )

In-insert : (l k : Listener) (ks : List Listener) → In l (insert k ks) ↔ ((l ≡ k) ⊎ In l ks)
unfolding insert
In-insert l k [] = (λ i. i, λ i. i)
In-insert l k (j ∷ ks) =
    let ih = In-insert l k ks in
    elim (Bool-cases (leb k.timeout j.timeout)) [
      | inl y ↦ rw y (λ i. i, λ i. i)
      | inr q ↦ rw q (
        elim [
          | inl e ↦ inr (inl e)
          | inr i ↦ elim (ih.0 i) [ inl e ↦ inl e | inr a ↦ inr (inr a) ]
        ],
        elim [
          | inl e ↦ inr (ih.1 (inl e))
          | inr i ↦ elim i [ inl e ↦ inl e | inr a ↦ inr (ih.1 (inr a)) ]
        ],
      )
    ]

In-sort : (l : Listener) (ls : List Listener) → In l (sort ls) ↔ In l ls
unfolding sort
In-sort l [] = (λ i. i, λ i. i)
In-sort l (k ∷ ks) =
    let ih = In-sort l ks in
    let step = In-insert l k (sort ks) in
    (
      λ i. elim (step.0 i) [ inl e ↦ inl e | inr a ↦ inr (ih.0 a) ],
      elim [ inl e ↦ step.1 (inl e) | inr a ↦ step.1 (inr (ih.1 a)) ],
    )

-- No listener comes before one with a smaller timeout.
abbrev pub InOrder : List Listener → Type 0
InOrder [] = Unit
InOrder (l ∷ ls) = All (λ k. l.timeout ≤ k.timeout) ls × InOrder ls

All-insert :
    (n : ℕ) (k : Listener) (ks : List Listener)
    → n ≤ k.timeout
    → All (λ j. n ≤ j.timeout) ks
    → All (λ j. n ≤ j.timeout) (insert k ks)
unfolding insert
All-insert n k [] h a = (h, tt)
All-insert n k (j ∷ ks) h a = elim (Bool-cases (leb k.timeout j.timeout)) [
  | inl y ↦ rw y (h, a)
  | inr q ↦ rw q (a.0, All-insert n k ks h a.1)
]

All-le :
    (m n : ℕ) (ks : List Listener)
    → m ≤ n
    → All (λ j. n ≤ j.timeout) ks
    → All (λ j. m ≤ j.timeout) ks
All-le m n [] h a = tt
All-le m n (j ∷ ks) h a = (omega (arith, a.0), All-le m n ks h a.1)

le_of_leb : (a b : ℕ) → leb a b ≡ true → a ≤ b
le_of_leb a b h = ground arith

ge_of_leb : (a b : ℕ) → leb a b ≡ false → b ≤ a
ge_of_leb a b h = ground arith

insert-InOrder : (k : Listener) (ks : List Listener) → InOrder ks → InOrder (insert k ks)
unfolding insert
insert-InOrder k [] o = (tt, tt)
insert-InOrder k (j ∷ ks) o = elim (Bool-cases (leb k.timeout j.timeout)) [
  | inl y ↦
      let first = le_of_leb k.timeout j.timeout y in
      rw y ((first, All-le k.timeout j.timeout ks first o.0), o)
  | inr q ↦
      rw q
        (All-insert j.timeout k ks (ge_of_leb k.timeout j.timeout q) o.0, insert-InOrder k ks o.1)
]

sort-InOrder : (ls : List Listener) → InOrder (sort ls)
unfolding sort
sort-InOrder [] = tt
sort-InOrder (l ∷ ls) = insert-InOrder l (sort ls) (sort-InOrder ls)

nonzero : (n : ℕ) → (n == 0) ≡ false → 0 < n
nonzero n h = ground arith

not_zero : (n : ℕ) → 0 < n → (n == 0) ≡ false
not_zero n h = ground arith

-- A listener that stands there unless the setting is 0 (Never).
In-unless : (n : ℕ) (l k : Listener) → In l (if n == 0 then [] else k ∷ []) ↔ ((0 < n) × (l ≡ k))
In-unless n l k = elim (Bool-cases (n == 0)) [
  | inl y ↦ (λ i. absurd (rw y at i), λ (p, e). absurd (cc (y, not_zero n p)))
  | inr q ↦ rw q (elim [ inl e ↦ (nonzero n q, e) | inr b ↦ absurd b ], λ (p, e). inl e)
]

In-locked_listeners :
    (t screen_off : ℕ) (ts : List ℕ) (l : Listener)
    → In l (locked_listeners (t ∷ ts) screen_off)
      ↔ (((t < screen_off) × (l ≡ locked_off_listener t)) ⊎ In l (locked_listeners ts screen_off))
unfolding locked_listeners
In-locked_listeners t screen_off ts l = elim (Bool-cases (ltb t screen_off)) [
  | inl y ↦ rw y (
    elim [ inl e ↦ inl (ltb→lt t screen_off y, e) | inr i ↦ inr i ],
    elim [ inl h ↦ inl h.1 | inr i ↦ inr i ],
  )
  | inr q ↦ (
    λ i. inr (rw q at i),
    elim [ inl h ↦ absurd (cc (q, lt→ltb t screen_off h.0)) | inr i ↦ rw q i ],
  )
]

module _ (lock screen_off : ℕ) (l : Listener) where
  abbrev Dark : Type 0
  Dark =
      ((60 < screen_off) × (l ≡ locked_off_listener 60))
      ⊎ ((0 < lock) × (lock + 60 < screen_off) × (l ≡ locked_off_listener (lock + 60)))
      ⊎ ((0 < screen_off) × (l ≡ screen_off_listener screen_off))

  no_more : In l (locked_listeners [] screen_off) → ⊥
  unfolding locked_listeners
  no_more i = i

  In-locked_off : In l (locked_listeners (locked_off lock) screen_off) ↔ (
      ((60 < screen_off) × (l ≡ locked_off_listener 60))
      ⊎ ((0 < lock) × (lock + 60 < screen_off) × (l ≡ locked_off_listener (lock + 60))))
  In-locked_off =
      let one = In-locked_listeners 60 screen_off [] l in
      let two = In-locked_listeners 60 screen_off ((lock + 60) ∷ []) l in
      let last = In-locked_listeners (lock + 60) screen_off [] l in
      elim (Bool-cases (lock == 0)) [
        | inl y ↦ rw y (
          λ i. elim (one.0 i) [ inl h ↦ inl h | inr b ↦ absurd (no_more b) ],
          elim [ inl h ↦ one.1 (inl h) | inr (p, a, e) ↦ absurd (cc (y, not_zero lock p)) ],
        )
        | inr q ↦ rw q (
          λ i. elim (two.0 i) [
            | inl h ↦ inl h
            | inr j ↦ elim (last.0 j) [
              | inl h ↦ inr (nonzero lock q, h.0, h.1)
              | inr b ↦ absurd (no_more b)
            ]
          ],
          elim [ inl h ↦ two.1 (inl h) | inr (p, a, e) ↦ two.1 (inr (last.1 (inl (a, e)))) ],
        )
      ]

  In-screen_listeners : In l (screen_listeners lock screen_off) ↔ Dark
  unfolding screen_listeners
  In-screen_listeners =
      let joined =
        In-append l (locked_listeners (locked_off lock) screen_off)
          (screen_off_listener screen_off ∷ []) in
      elim (Bool-cases (screen_off == 0)) [
        | inl y ↦ (
          λ i. absurd (rw y at i),
          elim [
            | inl h ↦ absurd (cc (y, not_zero screen_off (omega (arith, h.0))))
            | inr d ↦ elim d [
              | inl (p, a, e) ↦ absurd (cc (y, not_zero screen_off (omega (arith, a))))
              | inr (p, e) ↦ absurd (cc (y, not_zero screen_off p))
            ]
          ],
        )
        | inr q ↦ rw q (
          λ i. elim (joined.0 i) [
            | inl a ↦ elim (In-locked_off.0 a) [ inl h ↦ inl h | inr h ↦ inr (inl h) ]
            | inr b ↦ elim b [ inl e ↦ inr (inr (nonzero screen_off q, e)) | inr x ↦ absurd x ]
          ],
          elim [
            | inl h ↦ joined.1 (inl (In-locked_off.1 (inl h)))
            | inr d ↦ elim d [
              | inl h ↦ joined.1 (inl (In-locked_off.1 (inr h)))
              | inr (p, e) ↦ joined.1 (inr (inl e))
            ]
          ],
        )
      ]

In-suspend_listeners :
    (suspend : ℕ) (battery : Bool) (action : String) (l : Listener)
    → In l (suspend_listeners suspend battery action) ↔ (
        (0 < suspend)
        × (l ≡ (
            if battery
            then battery_listener suspend action
            else plain suspend (action <> " idle-suspend"))))
unfolding suspend_listeners
In-suspend_listeners suspend true action l = In-unless suspend l (battery_listener suspend action)
In-suspend_listeners suspend false action l =
    In-unless suspend l (plain suspend (action <> " idle-suspend"))

-- The listeners that a session wants, from its settings in minutes and its session script.
module _ (s : Settings) (action : String) where
  abbrev lock : ℕ
  lock = s.lock_mins * 60

  abbrev screen_off : ℕ
  screen_off = s.screen_off_mins * 60

  abbrev suspend : ℕ
  suspend = s.suspend_mins * 60

  -- The idle lock; the screen of a locked session a minute after the last input, or a minute after
  -- the idle lock; the screen of any session; and suspend, on battery alone or always.
  abbrev pub Wanted : Listener → Type 0
  Wanted l =
      ((0 < lock) × (l ≡ plain lock lock_command))
      ⊎ (Dark lock screen_off l
          ⊎ ((0 < suspend)
              × (l ≡ (
                  if s.battery_only
                  then battery_listener suspend action
                  else plain suspend (action <> " idle-suspend")))))

  In-listeners : (l : Listener) → In l (listeners s action) ↔ Wanted l
  unfolding listeners lock_listeners
  In-listeners l =
      let outer =
        In-append l (lock_listeners lock)
          (screen_listeners lock screen_off ++ suspend_listeners suspend s.battery_only action) in
      let inner =
        In-append l (screen_listeners lock screen_off)
          (suspend_listeners suspend s.battery_only action) in
      let locks = In-unless lock l (plain lock lock_command) in
      let darks = In-screen_listeners lock screen_off l in
      let sleeps = In-suspend_listeners suspend s.battery_only action l in
      (
        λ i. elim (outer.0 i) [
          | inl a ↦ inl (locks.0 a)
          | inr b ↦ elim (inner.0 b) [
            | inl d ↦ inr (inl (darks.0 d))
            | inr e ↦ inr (inr (sleeps.0 e))
          ]
        ],
        elim [
          | inl a ↦ outer.1 (inl (locks.1 a))
          | inr b ↦ elim b [
            | inl d ↦ outer.1 (inr (inner.1 (inl (darks.1 d))))
            | inr e ↦ outer.1 (inr (inner.1 (inr (sleeps.1 e))))
          ]
        ],
      )

  -- The file that is written holds exactly the listeners that the settings call for, a setting of 0
  -- (Never) calling for none, and a locked session's screen never later than the general timeout;
  -- they stand in the order of their timeouts.
  pub timeline :
      ((l : Listener) → In l (sort (listeners s action)) ↔ Wanted l)
      × InOrder (sort (listeners s action))
  timeline = (
    λ l.
        let sorted = In-sort l (listeners s action) in
        let wanted = In-listeners l in (λ i. wanted.0 (sorted.0 i), λ i. sorted.1 (wanted.1 i)),
    sort-InOrder (listeners s action),
  )
