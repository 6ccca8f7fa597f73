-- ===== src/Pool/Waiting/Awake.antt =====
-- No wake-up of a waiter of pool.rs is lost.
use snowpack.External.Notify.{Notify}
use snowpack.External.Notify
use snowpack.Prelude.{
  ℕ, ◌+◌, ◌≤◌, ◌<◌, ◌≡◌, ◌⊎◌, inl, inr, refl, ◌∙◌, subst, true, false, Bool-cases, Result, ok, err,
  ltb, none, arith,
}
use snowpack.Pool.{PeerLink, LinkState, NotReady, connected, reconnecting, not_ready}
use snowpack.Pool.Waiting.{
  Phase, Waiter, World, Happens, Run, starting, registered, sleeping, finished, wait_connected,
  register, look_at, poll, links, passes, registers, looks, polls, begin, goes_on,
}
use snowpack.Pool.Waiting.Told.{Told, Watched, Watched-Run}

module _ {Conn : Type 0} (n : Notify) where
  -- What a poll may come to.
  abbrev pub Outcome : ℕ → World Conn n → n.Notified → Phase n → Type 0
  Outcome deadline s t p =
      (p ≡ starting)
      ⊎ ((p ≡ sleeping t) × (s.now < deadline) × (s.link.state ≡ reconnecting))
      ⊎ ((p ≡ finished (err not_ready)) × (deadline ≤ s.now) × (s.link.state ≡ reconnecting))

  -- The same link, at the same time.
  abbrev pub Finishes : Type 0 → World Conn n → Type 0
  Finishes E s =
      (v : World Conn n) × Run Conn n E s v
      × (v.link ≡ s.link)
      × (v.now ≡ s.now)
      × (v.waiter.phase ≡ finished (ok tt))

module _ {Conn : Type 0} (n : Notify) (law : Notify.IsLawful n) where
  look_at-deadline :
      (s : LinkState Conn) (t : n.Notified) (w : Waiter n)
      → (look_at Conn n s t w).deadline ≡ w.deadline
  unfolding look_at
  look_at-deadline (connected c) t w = refl
  look_at-deadline reconnecting t w = refl

  poll-deadline :
      (now : ℕ) (l : PeerLink Conn n) (t : n.Notified) (w : Waiter n)
      → (poll Conn n now l t w).deadline ≡ w.deadline
  unfolding poll
  poll-deadline now l t w = ground arith

  deadline-Happens :
      {E : Type 0} {u v : World Conn n}
      → Happens Conn n E u v
      → v.waiter.deadline ≡ u.waiter.deadline
  unfolding register
  deadline-Happens (links s l step) = refl
  deadline-Happens (passes s d) = refl
  deadline-Happens (registers s e) = refl
  deadline-Happens (looks s t free e) = look_at-deadline s.link.state t s.waiter
  deadline-Happens (polls s t e) = poll-deadline s.now s.link t s.waiter

  deadline-Run :
      {E : Type 0} (s : World Conn n) {v : World Conn n}
      → Run Conn n E s v
      → v.waiter.deadline ≡ s.waiter.deadline
  deadline-Run s begin = refl
  deadline-Run s (goes_on r h) = deadline-Happens h ∙ deadline-Run s r

  down :
      (l : PeerLink Conn n) (t : n.Notified)
      → Told n law l t
      → n.ready l.notify t ≡ false
      → l.state ≡ reconnecting
  down l t (made, inl is_down) asleep = is_down
  down l t (made, inr ready) asleep = absurd cc

  poll-Outcome :
      (s : World Conn n) (t : n.Notified)
      → Told n law s.link t
      → Outcome n s.waiter.deadline s t (poll Conn n s.now s.link t s.waiter).phase
  unfolding poll
  poll-Outcome s t h = elim (Bool-cases (n.ready s.link.notify t)) [
    | inl woken ↦ rw woken (inl refl)
    | inr asleep ↦ elim (Bool-cases (ltb s.now s.waiter.deadline)) [
      | inl early ↦ rw (asleep, early) (inr (inl (refl, ground arith, down s.link t h asleep)))
      | inr late ↦ rw (asleep, late) (inr (inr (refl, ground arith, down s.link t h asleep)))
    ]
  ]

  -- When a call of wait_connected sleeps, over a notification that wakes every future made before
  -- it, whatever has happened to the link since the call, in any order, a poll either wakes it to
  -- look again, or finds the link still reconnecting: then it goes on sleeping before the
  -- deadline, and ends with NotReady from the deadline on. It never sleeps on, or gives up, while
  -- the link is connected.
  pub poll_outcome :
      {E : Type 0} (l : PeerLink Conn n) (called timeout : ℕ) (s : World Conn n) (t : n.Notified)
      → Run Conn n E (record { link = l; waiter = wait_connected n called timeout; now = called }) s
      → s.waiter.phase ≡ sleeping t
      → Outcome n (called + timeout) s t (poll Conn n s.now s.link t s.waiter).phase
  unfolding wait_connected
  poll_outcome l called timeout s t r e =
      subst (λ d. Outcome n d s t (poll Conn n s.now s.link t s.waiter).phase) (deadline-Run _ r)
        (poll-Outcome s t (subst (Watched n law s.link) e (Watched-Run n law _ refl r)))

  look_at-connected :
      (l : LinkState Conn) (c : Conn) (t : n.Notified) (w : Waiter n)
      → l ≡ connected c
      → (look_at Conn n l t w).phase ≡ finished (ok tt)
  unfolding look_at
  look_at-connected l c t w e = rw e refl

  from_registered :
      {E : Type 0} (s u : World Conn n) (c : Conn) (t : n.Notified)
      → u.link ≡ s.link
      → u.now ≡ s.now
      → s.link.guard ≡ none
      → s.link.state ≡ connected c
      → u.waiter.phase ≡ registered t
      → Run Conn n E s u
      → Finishes n E s
  from_registered s u c t same time free up e r = (
    _,
    goes_on r (looks u t (rw same free) e),
    same,
    time,
    look_at-connected u.link.state c t u.waiter (rw same up),
  )

  from_starting :
      {E : Type 0} (s u : World Conn n) (c : Conn)
      → u.link ≡ s.link
      → u.now ≡ s.now
      → s.link.guard ≡ none
      → s.link.state ≡ connected c
      → u.waiter.phase ≡ starting
      → Run Conn n E s u
      → Finishes n E s
  unfolding register
  from_starting s u c same time free up e r =
      from_registered s (record u { waiter = register Conn n u.link u.waiter }) c
        (n.notified u.link.notify) same time free up refl (goes_on r (registers u e))

  woken :
      (l : PeerLink Conn n) (c : Conn) (t : n.Notified)
      → Told n law l t
      → l.state ≡ connected c
      → n.ready l.notify t ≡ true
  woken l c t (made, inl is_down) up = absurd cc
  woken l c t (made, inr ready) up = ready

  poll-ready :
      (now : ℕ) (l : PeerLink Conn n) (t : n.Notified) (w : Waiter n)
      → n.ready l.notify t ≡ true
      → (poll Conn n now l t w).phase ≡ starting
  unfolding poll
  poll-ready now l t w e = rw e refl

  from_phase :
      {E : Type 0} (s : World Conn n) (c : Conn) (p : Phase n)
      → s.waiter.phase ≡ p
      → Watched n law s.link p
      → s.link.guard ≡ none
      → s.link.state ≡ connected c
      → ((r : Result (Unit {0}) NotReady) → ¬ (p ≡ finished r))
      → Finishes n E s
  from_phase s c starting e h free up open_call = from_starting s s c refl refl free up e begin
  from_phase s c (registered t) e h free up open_call =
      from_registered s s c t refl refl free up e begin
  from_phase s c (sleeping t) e h free up open_call =
      from_starting s (record s { waiter = poll Conn n s.now s.link t s.waiter }) c refl refl free
        up (poll-ready s.now s.link t s.waiter (woken s.link c t h up))
        (goes_on begin (polls s t e))
  from_phase s c (finished r) e h free up open_call = absurd (open_call r refl)

  -- Over a notification that wakes every future made before it, at any time at which the link is
  -- connected, its lock free, and a call of wait_connected has not ended, the call can end with
  -- success by steps of its own, at the same time and without a change of the link.
  pub connected-Finishes :
      {E : Type 0} (l : PeerLink Conn n) (called timeout : ℕ) (s : World Conn n) (c : Conn)
      → Run Conn n E (record { link = l; waiter = wait_connected n called timeout; now = called }) s
      → ((r : Result (Unit {0}) NotReady) → ¬ (s.waiter.phase ≡ finished r))
      → s.link.guard ≡ none
      → s.link.state ≡ connected c
      → Finishes n E s
  unfolding wait_connected
  connected-Finishes l called timeout s c r open_call free up =
      from_phase s c s.waiter.phase refl (Watched-Run n law _ refl r) free up open_call
