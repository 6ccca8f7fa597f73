-- ===== src/Pool/Waiting/Told.antt =====
-- A waiter of pool.rs that sleeps is told when the link comes up.
use snowpack.External.Notify.{Notify}
use snowpack.External.Notify
use snowpack.Prelude.{ℕ, ◌≡◌, ◌⊎◌, inl, inr, refl, subst, true, Bool-cases, ltb}
use snowpack.Pool.{
  PeerLink, LinkState, Guard, connected, reconnecting, stored, acquire, acquire_locked, drop_guard,
  commit,
}
use snowpack.Pool.Steps.{Step, try, sleep, store, acquires, exchange, commits, drops}
use snowpack.Pool.Waiting.{
  Phase, Waiter, World, Happens, Run, starting, registered, sleeping, finished, register, look_at,
  poll, links, passes, registers, looks, polls, begin, goes_on,
}

module _ {Conn : Type 0} (n : Notify) (law : Notify.IsLawful n) where
  open law use {Created}

  -- The link is down, or the future is ready.
  abbrev pub Covered : PeerLink Conn n → n.Notified → Type 0
  Covered l t = (l.state ≡ reconnecting) ⊎ (n.ready l.notify t ≡ true)

  abbrev pub Told : PeerLink Conn n → n.Notified → Type 0
  Told l t = Created l.notify t × Covered l t

  acquire_locked-Told :
      (l : PeerLink Conn n) (s : LinkState Conn) (t : n.Notified)
      → Told l t
      → Told (acquire_locked Conn n s l).1 t
  unfolding acquire_locked
  acquire_locked-Told l (connected c) t h = h
  acquire_locked-Told l reconnecting t h = h

  drop_guard-Told :
      (l : PeerLink Conn n) (g : Guard Conn) (t : n.Notified)
      → Told l t
      → Told (drop_guard Conn n g l) t
  unfolding drop_guard
  drop_guard-Told l g t h = elim (Bool-cases g.committed) [
    | inl done ↦ rw done h
    | inr undone ↦ rw undone (h.0, inl refl)
  ]

  Told-Step :
      {E : Type 0} {l m : PeerLink Conn n} (t : n.Notified)
      → Step Conn E n l m
      → Told l t
      → Told m t
  unfolding stored acquire commit
  Told-Step t (try l before after b r e) h = h
  Told-Step t (sleep l before after b e) h = h
  Told-Step t (store l before after c free e) h =
      (law.created-notify_waiters l.notify t h.0, inr (law.ready-notify_waiters l.notify t h.0))
  Told-Step t (acquires l free) h = acquire_locked-Told l l.state t h
  Told-Step t (exchange l g c c' held e) (made, inl down) = absurd cc
  Told-Step t (exchange l g c c' held e) (made, inr ready) = (made, inr ready)
  Told-Step t (commits l g held) h = drop_guard-Told l (record g { committed = true }) t h
  Told-Step t (drops l g held) h = drop_guard-Told l g t h

  acquire_locked-notify :
      (l : PeerLink Conn n) (s : LinkState Conn) → (acquire_locked Conn n s l).1.notify ≡ l.notify
  unfolding acquire_locked
  acquire_locked-notify l (connected c) = refl
  acquire_locked-notify l reconnecting = refl

  drop_guard-notify :
      (l : PeerLink Conn n) (g : Guard Conn) → (drop_guard Conn n g l).notify ≡ l.notify
  unfolding drop_guard
  drop_guard-notify l g = elim (Bool-cases g.committed) [
    | inl done ↦ rw done refl
    | inr undone ↦ rw undone refl
  ]

  Created-Step :
      {E : Type 0} {l m : PeerLink Conn n} (t : n.Notified)
      → Step Conn E n l m
      → Created l.notify t
      → Created m.notify t
  unfolding stored acquire commit
  Created-Step t (try l before after b r e) h = h
  Created-Step t (sleep l before after b e) h = h
  Created-Step t (store l before after c free e) h = law.created-notify_waiters l.notify t h
  Created-Step t (acquires l free) h = rw (acquire_locked-notify l l.state) h
  Created-Step t (exchange l g c c' held e) h = h
  Created-Step t (commits l g held) h = rw (drop_guard-notify l (record g { committed = true })) h
  Created-Step t (drops l g held) h = rw (drop_guard-notify l g) h

  abbrev pub Watched : PeerLink Conn n → Phase n → Type 0
  Watched l starting = Unit
  Watched l (registered t) = Created l.notify t
  Watched l (sleeping t) = Told l t
  Watched l (finished r) = Unit

  Watched-Step :
      {E : Type 0} {l m : PeerLink Conn n} (p : Phase n)
      → Step Conn E n l m
      → Watched l p
      → Watched m p
  Watched-Step starting s h = tt
  Watched-Step (registered t) s h = Created-Step t s h
  Watched-Step (sleeping t) s h = Told-Step t s h
  Watched-Step (finished r) s h = tt

  look_at-Watched :
      (l : PeerLink Conn n) (s : LinkState Conn) (t : n.Notified) (w : Waiter n)
      → l.state ≡ s
      → Created l.notify t
      → Watched l (look_at Conn n s t w).phase
  unfolding look_at
  look_at-Watched l (connected c) t w e h = tt
  look_at-Watched l reconnecting t w e h = (h, inl e)

  poll-Watched :
      (now : ℕ) (l : PeerLink Conn n) (t : n.Notified) (w : Waiter n)
      → Told l t
      → Watched l (poll Conn n now l t w).phase
  unfolding poll
  poll-Watched now l t w h = elim (Bool-cases (n.ready l.notify t)) [
    | inl woken ↦ rw woken tt
    | inr asleep ↦ elim (Bool-cases (ltb now w.deadline)) [
      | inl early ↦ rw (asleep, early) h
      | inr late ↦ rw (asleep, late) tt
    ]
  ]

  Watched-Happens :
      {E : Type 0} {u v : World Conn n}
      → Happens Conn n E u v
      → Watched u.link u.waiter.phase
      → Watched v.link v.waiter.phase
  unfolding register
  Watched-Happens (links s l step) h = Watched-Step s.waiter.phase step h
  Watched-Happens (passes s d) h = h
  Watched-Happens (registers s e) h = law.created-notified s.link.notify
  Watched-Happens (looks s t free e) h =
      look_at-Watched s.link s.link.state t s.waiter refl (subst (Watched s.link) e h)
  Watched-Happens (polls s t e) h =
      poll-Watched s.now s.link t s.waiter (subst (Watched s.link) e h)

  pub Watched-Run :
      {E : Type 0} (s : World Conn n) {v : World Conn n}
      → s.waiter.phase ≡ starting
      → Run Conn n E s v
      → Watched v.link v.waiter.phase
  Watched-Run s e begin = rw e tt
  Watched-Run s e (goes_on r h) = Watched-Happens h (Watched-Run s e r)
