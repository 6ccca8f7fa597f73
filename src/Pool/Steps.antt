-- ===== src/Pool/Steps.antt =====
-- What may happen to a link of pool.rs, in any order.
use snowpack.External.Notify.{Notify}
use snowpack.Prelude.{ℕ, ◌≡◌, ◌++◌, ◌∷◌, List, none, some, Result}
use snowpack.Pool.{
  PeerLink, ReconnectTask, Guard, connected, trying, sleeping, storing, tried, slept, stored,
  acquire, drop_guard, commit,
}

module _ (Conn E : Type 0) (n : Notify) where
  pub data Step : PeerLink Conn n → PeerLink Conn n → Type 0 where
    -- A task goes on, with whatever the attempt came to.
    try :
        (l : PeerLink Conn n) (before after : List (ReconnectTask Conn)) (b : ℕ) (r : Result Conn E)
        → l.tasks ≡ before ++ trying b ∷ after
        → Step l (record l { tasks = before ++ tried Conn b r ∷ after })
    sleep :
        (l : PeerLink Conn n) (before after : List (ReconnectTask Conn)) (b : ℕ)
        → l.tasks ≡ before ++ sleeping b ∷ after
        → Step l (record l { tasks = before ++ slept Conn b ∷ after })
    -- With the lock free.
    store :
        (l : PeerLink Conn n) (before after : List (ReconnectTask Conn)) (c : Conn)
        → l.guard ≡ none
        → l.tasks ≡ before ++ storing c ∷ after
        → Step l (stored Conn n c (before ++ after) l)
    acquires : (l : PeerLink Conn n) → l.guard ≡ none → Step l (acquire Conn n l).1
    -- The holder of the guard exchanges messages, commits, or drops the guard.
    exchange :
        (l : PeerLink Conn n) (g : Guard Conn) (c c' : Conn)
        → l.guard ≡ some g
        → l.state ≡ connected c
        → Step l (record l { state = connected c' })
    commits : (l : PeerLink Conn n) (g : Guard Conn) → l.guard ≡ some g → Step l (commit Conn n g l)
    drops :
        (l : PeerLink Conn n) (g : Guard Conn) → l.guard ≡ some g → Step l (drop_guard Conn n g l)

  pub data Reach (l : PeerLink Conn n) : PeerLink Conn n → Type 0 where
    here : Reach l l
    then_step : {m k : PeerLink Conn n} → Reach l m → Step m k → Reach l k
