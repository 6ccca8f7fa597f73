-- ===== src/Pool/Backoff.antt =====
-- How long a `reconnect_task` of pool.rs sleeps after each of a row of failed attempts.
use snowpack.Prelude.{
  ℕ, suc, ◌*◌, ◌^◌, ◌≤◌, ◌≡◌, sym, ap, ◌∙◌, min, List, [], ◌∷◌, err, length, arith,
}
use native.Mathlib.Nat.{one-le-pow}
use snowpack.Pool.{ReconnectTask, trying, sleeping, reconnect_task, tried, slept}

module _ (Conn : Type 0) where
  unfoldable pub woken : ReconnectTask Conn → ReconnectTask Conn
  woken (sleeping backoff) = slept Conn backoff
  woken t = t

module _ (Conn : Type 0) {E : Type 0} where
  -- An attempt that fails, and the sleep after it.
  unfoldable pub failed : E → ReconnectTask Conn → ReconnectTask Conn
  unfolding woken
  failed e (trying backoff) = woken Conn (tried Conn backoff (err e))
  failed e t = t

  unfoldable pub failures : List E → ReconnectTask Conn → ReconnectTask Conn
  unfolding failed
  failures [] t = t
  failures (e ∷ es) t = failures es (failed e t)

times : (b p : ℕ) → 1 ≤ p → min (min (b * 2) 30000 * p) 30000 ≡ min (b * 2 * p) 30000
times b p h = grind arith

power : (k : ℕ) → 1 ≤ 2 ^ k
power k = one-le-pow k 2 (omega arith)

powers : (k : ℕ) → 2 ^ suc k ≡ 2 * 2 ^ k
powers k = omega arith

regrouped : (b p : ℕ) → b * 2 * p ≡ b * (2 * p)
regrouped b p = grind arith

module _ (Conn : Type 0) {E : Type 0} where
  failures_from :
      (es : List E) (b : ℕ)
      → b ≤ 30000
      → failures Conn es (trying b) ≡ trying (min (b * 2 ^ length es) 30000)
  unfolding failures failed woken tried slept
  failures_from [] b h = let same : b ≡ min (b * 1) 30000 = omega arith in ap trying same
  failures_from (e ∷ es) b h =
      let p = 2 ^ length es in
      let more : b * 2 * p ≡ b * 2 ^ suc (length es) =
        regrouped b p ∙ ap (λ q. b * q) (sym (powers (length es))) in
      failures_from es (min (b * 2) 30000) (omega arith)
      ∙ ap trying (times b p (power (length es)) ∙ ap (λ q. min q 30000) more)

  -- After any number of failed attempts, each with the sleep after it, the reconnect task that a
  -- link starts tries again with a backoff of 50 milliseconds, doubled for every failure, and of
  -- at most 30,000.
  pub failures-reconnect_task :
      (es : List E)
      → failures Conn es (reconnect_task Conn) ≡ trying (min (50 * 2 ^ length es) 30000)
  unfolding reconnect_task
  failures-reconnect_task es = failures_from es 50 (omega arith)
