-- ===== src/Pool/Fresh.antt =====
-- What a link of pool.rs gives out after a guard was dropped in the middle of an exchange.
use snowpack.External.Notify.{Notify}
use snowpack.Prelude.{
  ℕ, Bool-cases, ap, [], ◌≡◌, ◌++◌, refl, sym, subst, ◌∙◌, ◌∷◌, List, true, false, inl, inr, ◌⊎◌,
  some, Result, ok, err,
}
use snowpack.Pool.{
  PeerLink, LinkState, ReconnectTask, Guard, connected, reconnecting, trying, sleeping, storing,
  stored, commit, new, tried, slept, acquire, acquire_locked, drop_guard, reconnect_task,
}
use snowpack.Pool.Steps.{
  Step, Reach, try, sleep, store, acquires, exchange, commits, drops, here, then_step,
}
use snowpack.Pool.Invariant.{Sound, IsSound, IsSound-Reach, guarded}
use snowpack.Pool.Tasks.{AllStore, AllStore-task, AllStore-removed, AllStore-map}
use snowpack.Pool.Lineage.{
  Attempt, Lineage, stores, exchanges, Served, Known, longer, same_state, same_tasks, new_task,
}

module _ {Conn : Type 0} (E : Type 0) (n : Notify) where
  module _ (d : PeerLink Conn n) where
    tried-Known :
        (l : PeerLink Conn n) (before after : List (ReconnectTask Conn)) (b : ℕ) (r : Result Conn E)
        → l.tasks ≡ before ++ trying b ∷ after
        → Reach Conn E n d l
        → Known E n d l
        → Known E n d (record l { tasks = before ++ tried Conn b r ∷ after })
    unfolding tried
    tried-Known l before after b (ok c) e r h =
        let s : Step Conn E n l (record l { tasks = before ++ storing c ∷ after }) =
          try l before after b (ok c) e in
        let a : Attempt E n d _ c = record {
          at = l;
          before = before;
          after = after;
          backoff = b;
          reached = r;
          tries = e;
          rest = here;
        } in
        (new_task E n d before after _ _ s e refl a h.0, same_state E n d s refl h.1)
    tried-Known l before after b (err f) e r h =
        let s : Step Conn E n l (record l { tasks = before ++ sleeping b ∷ after }) =
          try l before after b (err f) e in
        (new_task E n d before after _ _ s e refl tt h.0, same_state E n d s refl h.1)

    acquire-same :
        (l : PeerLink Conn n) (s : LinkState Conn)
        → ((acquire_locked Conn n s l).1.state ≡ l.state)
          × ((acquire_locked Conn n s l).1.tasks ≡ l.tasks)
    unfolding acquire_locked
    acquire-same l (connected c) = (refl, refl)
    acquire-same l reconnecting = (refl, refl)

    drop_guard-committed :
        (l : PeerLink Conn n) (g : Guard Conn)
        → g.committed ≡ true
        → ((drop_guard Conn n g l).state ≡ l.state) × ((drop_guard Conn n g l).tasks ≡ l.tasks)
    unfolding drop_guard
    drop_guard-committed l g done = rw done (refl, refl)

    drop_guard-undone :
        (l : PeerLink Conn n) (g : Guard Conn)
        → g.committed ≡ false
        → ((drop_guard Conn n g l).state ≡ reconnecting)
          × ((drop_guard Conn n g l).tasks ≡ reconnect_task Conn ∷ l.tasks)
    unfolding drop_guard
    drop_guard-undone l g undone = rw undone (refl, refl)

    added :
        {k m : PeerLink Conn n}
        → Step Conn E n k m
        → m.tasks ≡ reconnect_task Conn ∷ k.tasks
        → AllStore (Attempt E n d k) k.tasks
        → AllStore (Attempt E n d m) m.tasks
    unfolding reconnect_task
    added {k} {m} s e h =
        subst (AllStore (Attempt E n d m)) (sym e)
          (tt, AllStore-map (Attempt E n d k) (Attempt E n d m) (longer E n d s) k.tasks h)

    dropped-Known :
        (l : PeerLink Conn n) (g : Guard Conn)
        → Step Conn E n l (drop_guard Conn n g l)
        → Known E n d l
        → Known E n d (drop_guard Conn n g l)
    dropped-Known l g s h = elim (Bool-cases g.committed) [
      | inl done ↦
          let (state, tasks) = drop_guard-committed l g done in
          (same_tasks E n d s tasks h.0, same_state E n d s state h.1)
      | inr undone ↦
          let (state, tasks) = drop_guard-undone l g undone in (added s tasks h.0, inl state)
    ]

    exchanged :
        (l : PeerLink Conn n) (g : Guard Conn) (c c' : Conn)
        → l.guard ≡ some g
        → l.state ≡ connected c
        → Step Conn E n l (record l { state = connected c' })
        → (l.state ≡ reconnecting) ⊎ Served E n d l
        → Served E n d (record l { state = connected c' })
    exchanged l g c c' held e s (inl still) =
        let clash : connected c ≡ reconnecting = sym e ∙ still in absurd cc
    exchanged l g c c' held e s (inr (c₀, made, up, a, line)) =
        (c', made, refl, longer E n d s made a, exchanges g c' line held)

    Known-Step :
        {k m : PeerLink Conn n}
        → Reach Conn E n d k
        → Known E n d k
        → Step Conn E n k m
        → Known E n d m
    unfolding slept acquire stored commit
    Known-Step r h (try l before after b q e) = tried-Known l before after b q e r h
    Known-Step r h (sleep l before after b e) =
        let s = sleep l before after b e in
        (new_task E n d before after (sleeping b) _ s e refl tt h.0, same_state E n d s refl h.1)
    Known-Step r h (store l before after c free e) =
        let s = store l before after c free e in
        let held = subst (AllStore (Attempt E n d l)) e h.0 in
        let a = AllStore-task (Attempt E n d l) before after (storing c) held in
        (
          AllStore-map (Attempt E n d l) (Attempt E n d _) (longer E n d s) (before ++ after)
              (AllStore-removed (Attempt E n d l) before after (storing c) held),
          inr (c, c, refl, longer E n d s c a, stores before after a e s refl),
        )
    Known-Step r h (acquires l free) =
        let s = acquires l free in
        let (state, tasks) = acquire-same l l.state in
        (same_tasks E n d s tasks h.0, same_state E n d s state h.1)
    Known-Step r h (exchange l g c c' held e) =
        let s = exchange l g c c' held e in
        (same_tasks E n d s refl h.0, inr (exchanged l g c c' held e s h.1))
    Known-Step r h (commits l g held) =
        dropped-Known l (record g { committed = true }) (commits l g held) h
    Known-Step r h (drops l g held) = dropped-Known l g (drops l g held) h

    Known-Reach : {k : PeerLink Conn n} → Reach Conn E n d k → Known E n d d → Known E n d k
    Known-Reach here h = h
    Known-Reach (then_step r s) h = Known-Step r (Known-Reach r h) s

  -- The tasks of a link whose holder drops its guard: the new one only.
  dropped_tasks :
      (l : PeerLink Conn n) (g : Guard Conn) → IsSound n l → l.guard ≡ some g → l.tasks ≡ []
  dropped_tasks l g sound held =
      let (c, up, idle) =
        guarded n l.state g l.tasks (subst (λ o. Sound n l.state o l.tasks) held sound) in
      idle

  dropped-start :
      (l : PeerLink Conn n) (g : Guard Conn)
      → l.tasks ≡ []
      → g.committed ≡ false
      → Known E n (drop_guard Conn n g l) (drop_guard Conn n g l)
  unfolding reconnect_task
  dropped-start l g idle undone =
      let d = drop_guard Conn n g l in
      let (state, tasks) = drop_guard-undone d l g undone in
      let only : reconnect_task Conn ∷ [] ≡ d.tasks =
        sym (tasks ∙ ap (λ ts. reconnect_task Conn ∷ ts) idle) in
      (subst (AllStore (Attempt E n d d)) only (tt, tt), inl state)

  -- After the holder of a guard dropped it without a commit, at any time after the creation of the
  -- link, whatever happens to the link later, in any order, when it is connected again its
  -- connection is one that an attempt made after the drop, and that the task of this attempt
  -- stored, changed since then only by holders of the link's guard, and by nothing else.
  pub drop_guard-Lineage :
      (l k : PeerLink Conn n) (g : Guard Conn) (c : Conn)
      → Reach Conn E n (new Conn n) l
      → l.guard ≡ some g
      → g.committed ≡ false
      → Reach Conn E n (drop_guard Conn n g l) k
      → k.state ≡ connected c
      → (made : Conn) × Attempt E n (drop_guard Conn n g l) k made
        × Lineage E n (drop_guard Conn n g l) made k c
  drop_guard-Lineage l k g c r held undone later up =
      let d = drop_guard Conn n g l in
      let start = dropped-start l g (dropped_tasks l g (IsSound-Reach n l r) held) undone in
      elim (Known-Reach d later start).1 [
        | inl still ↦ let clash : connected c ≡ reconnecting = sym up ∙ still in absurd cc
        | inr (c₀, made, up₀, a, line) ↦
            let same : c₀ ≡ c = cc in (made, a, subst (Lineage E n d made k) same line)
      ]
