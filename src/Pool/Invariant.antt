-- ===== src/Pool/Invariant.antt =====
-- What holds of a link of pool.rs at any time.
use snowpack.External.Notify.{Notify}
use snowpack.Prelude.{
  ℕ, ◌≤◌, ◌≡◌, refl, ◌++◌, [], ◌∷◌, List, true, Bool-cases, inl, inr, subst, Option, none, some,
  Result, ok, err, arith,
}
use snowpack.Pool.{
  PeerLink, LinkState, ReconnectTask, Guard, connected, reconnecting, trying, sleeping, storing,
  new, tried, slept, stored, acquire, acquire_locked, transport, drop_guard, commit, reconnect_task,
}
use snowpack.Pool.Steps.{
  Step, Reach, try, sleep, store, acquires, exchange, commits, drops, here, then_step,
}

module _ {Conn : Type 0} (n : Notify) where
  abbrev pub InBounds : ReconnectTask Conn → Type 0
  InBounds (trying b) = (50 ≤ b) × (b ≤ 30000)
  InBounds (sleeping b) = (50 ≤ b) × (b ≤ 30000)
  InBounds (storing c) = Unit

  -- A connected link has no task. A link that reconnects has exactly one, and no guard.
  abbrev pub Sound : LinkState Conn → Option (Guard Conn) → List (ReconnectTask Conn) → Type 0
  Sound (connected c) g ts = ts ≡ []
  Sound reconnecting (some g) ts = ⊥
  Sound reconnecting none [] = ⊥
  Sound reconnecting none (t ∷ []) = InBounds t
  Sound reconnecting none (t ∷ u ∷ ts) = ⊥

  abbrev pub IsSound : PeerLink Conn n → Type 0
  IsSound l = Sound l.state l.guard l.tasks

  pub only_task :
      (s : LinkState Conn) (g : Option (Guard Conn)) (before after : List (ReconnectTask Conn))
      (t : ReconnectTask Conn)
      → Sound s g (before ++ t ∷ after)
      → (s ≡ reconnecting) × (g ≡ none) × (before ≡ []) × (after ≡ []) × InBounds t
  only_task (connected c) g [] after t h = absurd cc
  only_task (connected c) g (u ∷ before) after t h = absurd cc
  only_task reconnecting (some g) before after t h = absurd h
  only_task reconnecting none [] [] t h = (refl, refl, refl, refl, h)
  only_task reconnecting none [] (u ∷ after) t h = absurd h
  only_task reconnecting none (u ∷ []) after t h = absurd h
  only_task reconnecting none (u ∷ v ∷ before) after t h = absurd h

  pub guarded :
      (s : LinkState Conn) (g : Guard Conn) (ts : List (ReconnectTask Conn))
      → Sound s (some g) ts
      → (c : Conn) × (s ≡ connected c) × (ts ≡ [])
  guarded (connected c) g ts h = (c, refl, h)
  guarded reconnecting g ts h = absurd h

  InBounds-tried :
      {E : Type 0} (b : ℕ) (r : Result Conn E) → InBounds (trying b) → InBounds (tried Conn b r)
  unfolding tried
  InBounds-tried b (ok c) h = tt
  InBounds-tried b (err e) h = h

  IsSound-acquire :
      (l : PeerLink Conn n) (s : LinkState Conn)
      → l.state ≡ s
      → IsSound l
      → IsSound (acquire_locked Conn n s l).1
  unfolding acquire_locked
  IsSound-acquire l (connected c) e h = rw e (subst (λ s. Sound s l.guard l.tasks) e h)
  IsSound-acquire l reconnecting e h = h

  IsSound-drop_guard :
      (l : PeerLink Conn n) (g g' : Guard Conn)
      → l.guard ≡ some g
      → IsSound l
      → IsSound (drop_guard Conn n g' l)
  unfolding drop_guard reconnect_task
  IsSound-drop_guard l g g' e h =
      let (c, state, idle) = guarded l.state g l.tasks (subst (λ o. Sound l.state o l.tasks) e h) in
      elim (Bool-cases g'.committed) [
        | inl done ↦ rw (done, state) idle
        | inr undone ↦ rw (undone, idle) (omega arith, omega arith)
      ]

  pub IsSound-Step :
      {E : Type 0} {l m : PeerLink Conn n} → Step Conn E n l m → IsSound l → IsSound m
  unfolding stored slept acquire commit
  IsSound-Step (try l before after b r e) h =
      let (s, g, p, q, bound) =
        only_task l.state l.guard before after (trying b) (subst (Sound l.state l.guard) e h) in
      rw (s, g, p, q) (InBounds-tried b r bound)
  IsSound-Step (sleep l before after b e) h =
      let (s, g, p, q, bound) =
        only_task l.state l.guard before after (sleeping b) (subst (Sound l.state l.guard) e h) in
      rw (s, g, p, q) (omega (arith, bound.0), omega arith)
  IsSound-Step (store l before after c free e) h =
      let (s, g, p, q, bound) =
        only_task l.state l.guard before after (storing c) (subst (Sound l.state l.guard) e h) in
      rw (p, q) refl
  IsSound-Step (acquires l free) h = IsSound-acquire l l.state refl h
  IsSound-Step (exchange l g c c' held e) h = subst (λ s. Sound s l.guard l.tasks) e h
  IsSound-Step (commits l g held) h = IsSound-drop_guard l g (record g { committed = true }) held h
  IsSound-Step (drops l g held) h = IsSound-drop_guard l g g held h

  -- At any time after its creation a link is connected and has no reconnect task, or reconnects,
  -- without a guard, and has exactly one task, whose backoff is between 50 and 30,000
  -- milliseconds.
  pub IsSound-Reach : {E : Type 0} (l : PeerLink Conn n) → Reach Conn E n (new Conn n) l → IsSound l
  unfolding new reconnect_task
  IsSound-Reach l here = (omega arith, omega arith)
  IsSound-Reach l (then_step {m} r s) = IsSound-Step s (IsSound-Reach m r)

  -- At any time after the creation of a link, whoever holds its guard finds the halves in
  -- transport, whose unreachable! is never reached.
  pub transport-some :
      {E : Type 0} (l : PeerLink Conn n) (g : Guard Conn)
      → Reach Conn E n (new Conn n) l
      → l.guard ≡ some g
      → (c : Conn) × (transport Conn l.state ≡ some c)
  unfolding transport
  transport-some l g r held =
      let (c, state, idle) =
        guarded l.state g l.tasks (subst (λ o. Sound l.state o l.tasks) held (IsSound-Reach l r)) in
      (c, rw state)

  reconnects :
      {E : Type 0} (c : Conn) (l : PeerLink Conn n) (s : LinkState Conn) (g : Option (Guard Conn))
      (ts : List (ReconnectTask Conn))
      → l.state ≡ s
      → l.guard ≡ g
      → l.tasks ≡ ts
      → s ≡ reconnecting
      → Sound s g ts
      → (l' : PeerLink Conn n) × (d : Conn) × Reach Conn E n l l' × (l'.state ≡ connected d)
  unfolding stored tried slept
  reconnects c l (connected d) g ts es eg et r h = (l, d, here, es)
  reconnects c l reconnecting (some g) ts es eg et r h = absurd h
  reconnects c l reconnecting none [] es eg et r h = absurd h
  reconnects c l reconnecting none (t ∷ u ∷ ts) es eg et r h = absurd h
  reconnects c l reconnecting none (storing d ∷ []) es eg et r h =
      (_, d, then_step here (store l [] [] d eg et), refl)
  reconnects c l reconnecting none (trying b ∷ []) es eg et r h =
      (_, c, then_step (then_step here (try l [] [] b (ok c) et)) (store _ [] [] c eg refl), refl)
  reconnects c l reconnecting none (sleeping b ∷ []) es eg et r h = (
    _,
    c,
    then_step (then_step (then_step here (sleep l [] [] b et)) (try _ [] [] _ (ok c) refl))
        (store _ [] [] c eg refl),
    refl,
  )

  -- From any time after its creation at which a link reconnects, and for any connection that an
  -- attempt may give, there are steps after which it is connected.
  pub reconnecting-Reach :
      {E : Type 0} (c : Conn) (l : PeerLink Conn n)
      → Reach Conn E n (new Conn n) l
      → l.state ≡ reconnecting
      → (l' : PeerLink Conn n) × (d : Conn) × Reach Conn E n l l' × (l'.state ≡ connected d)
  reconnecting-Reach c l r down =
      reconnects c l l.state l.guard l.tasks refl refl refl down (IsSound-Reach l r)
