-- ===== src/Pool/Lineage.antt =====
-- Where the connection of a link of pool.rs comes from.
use snowpack.External.Notify.{Notify}
use snowpack.Prelude.{ℕ, ◌≡◌, ◌++◌, sym, subst, ◌∙◌, ◌∷◌, List, inl, inr, ◌⊎◌, some, ok}
use snowpack.Pool.{PeerLink, ReconnectTask, Guard, connected, reconnecting, trying, storing, tried}
use snowpack.Pool.Steps.{Step, Reach, then_step}
use snowpack.Pool.Tasks.{Stores, AllStore, AllStore-replaced, AllStore-map}

module _ {Conn : Type 0} (E : Type 0) (n : Notify) where
  -- On the way from one link to the other an attempt succeeded, with this connection.
  pub record Attempt (l k : PeerLink Conn n) (c : Conn) : Type 0 where
    pub at : PeerLink Conn n
    pub before : List (ReconnectTask Conn)
    pub after : List (ReconnectTask Conn)
    pub backoff : ℕ
    pub reached : Reach Conn E n l at
    pub tries : at.tasks ≡ before ++ trying backoff ∷ after
    pub rest :
        Reach Conn E n (record at { tasks = before ++ tried Conn {E = E} backoff (ok c) ∷ after }) k

  -- The link is connected by what the attempt made, changed only by the holders of its guard.
  pub data Lineage (d : PeerLink Conn n) (made : Conn) : PeerLink Conn n → Conn → Type 0 where
    -- The task that made the attempt stored the connection.
    stores :
        {l k : PeerLink Conn n} (before after : List (ReconnectTask Conn))
        → Attempt d l made
        → l.tasks ≡ before ++ storing made ∷ after
        → Step Conn E n l k
        → k.state ≡ connected made
        → Lineage d made k made
    keeps :
        {l k : PeerLink Conn n} {c : Conn}
        → Lineage d made l c
        → Step Conn E n l k
        → k.state ≡ connected c
        → Lineage d made k c
    exchanges :
        {l : PeerLink Conn n} {c : Conn} (g : Guard Conn) (c' : Conn)
        → Lineage d made l c
        → l.guard ≡ some g
        → Lineage d made (record l { state = connected c' }) c'

  abbrev pub Served : PeerLink Conn n → PeerLink Conn n → Type 0
  Served d k =
      (c : Conn) × (made : Conn) × (k.state ≡ connected c) × Attempt d k made × Lineage d made k c

  abbrev pub Known : PeerLink Conn n → PeerLink Conn n → Type 0
  Known d k = AllStore (Attempt d k) k.tasks × ((k.state ≡ reconnecting) ⊎ Served d k)

  pub longer :
      (d : PeerLink Conn n) {k m : PeerLink Conn n}
      → Step Conn E n k m
      → (c : Conn) → Attempt d k c
      → Attempt d m c
  longer d s c a = record {
    at = a.at;
    before = a.before;
    after = a.after;
    backoff = a.backoff;
    reached = a.reached;
    tries = a.tries;
    rest = then_step a.rest s;
  }

  module _ (d : PeerLink Conn n) where
    -- A step after which the state of the link is the same.
    pub same_state :
        {k m : PeerLink Conn n}
        → Step Conn E n k m
        → m.state ≡ k.state
        → (k.state ≡ reconnecting) ⊎ Served d k
        → (m.state ≡ reconnecting) ⊎ Served d m
    same_state s e (inl still) = inl (e ∙ still)
    same_state s e (inr (c, made, up, a, line)) =
        inr (c, made, e ∙ up, longer d s made a, keeps line s (e ∙ up))

    pub same_tasks :
        {k m : PeerLink Conn n}
        → Step Conn E n k m
        → m.tasks ≡ k.tasks
        → AllStore (Attempt d k) k.tasks
        → AllStore (Attempt d m) m.tasks
    same_tasks {k} {m} s e h =
        subst (AllStore (Attempt d m)) (sym e)
          (AllStore-map (Attempt d k) (Attempt d m) (longer d s) k.tasks h)

    -- A step that replaces a task.
    pub new_task :
        {k m : PeerLink Conn n} (before after : List (ReconnectTask Conn))
        (t t' : ReconnectTask Conn)
        → Step Conn E n k m
        → k.tasks ≡ before ++ t ∷ after
        → m.tasks ≡ before ++ t' ∷ after
        → Stores (Attempt d m) t'
        → AllStore (Attempt d k) k.tasks
        → AllStore (Attempt d m) m.tasks
    new_task {k} {m} before after t t' s e e' one h = subst (AllStore (Attempt d m)) (sym e') (
        AllStore-replaced (Attempt d m) before after t t' one (
          subst (AllStore (Attempt d m)) e
            (AllStore-map (Attempt d k) (Attempt d m) (longer d s) k.tasks h)))
