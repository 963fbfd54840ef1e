-- ===== src/Store/Connect.antt =====
-- internal/store/pool.go: Connect. What pgxpool.New and Ping give, and whether the context is done
-- before the delay is over, is given for each attempt: pgx is not part of the repository.
pub mod Outcome
use devops_demo.Base.{
  ℕ, zero, suc, ◌+◌, Bool, true, false, Option, none, some, nat_eq, if◌then◌else◌,
}
use devops_demo.Store.Session.{Fault}

pub data Dial : Type 0 where
  new_failed : Fault → Dial
  ping_failed : Fault → Dial
  reached : Dial

-- `canceled`: the select after a failed attempt takes ctx.Done().
pub record Attempt : Type 0 where
  pub dial : Dial
  pub canceled : Bool

-- The pools that were created and closed, and the delays that were waited for.
pub record Pools : Type 0 where
  pub opened : ℕ
  pub closed : ℕ
  pub delays : ℕ

-- The pool of an attempt, ctx.Err(), or "connect to postgres after %d attempts" around lastErr.
pub data Connection : Type 0 where
  connected : ℕ → Connection
  interrupted : Connection
  exhausted : ℕ → Option Fault → Connection

-- The rest of the loop's body after a failed attempt: the test i == attempts-1 and the select.
unfoldable pub retry_or_stop :
    ℕ → ℕ → Bool → Fault → Pools → (Pools → Connection × Pools) → Connection × Pools
retry_or_stop attempts i canceled e p again =
    if nat_eq (i + 1) attempts
    then (exhausted attempts (some e), p)
    else if canceled
    then (interrupted, p)
    else again (record p { delays = p.delays + 1 })

unfoldable pub try_dial :
    ℕ
    → ℕ
    → Attempt
    → Dial
    → Pools
    → (Option Fault → Pools → Connection × Pools)
    → Connection × Pools
unfolding retry_or_stop
try_dial attempts i a (new_failed e) p again =
    retry_or_stop attempts i a.canceled e p (again (some e))
try_dial attempts i a (ping_failed e) p again =
    retry_or_stop attempts i a.canceled e
      (record p { opened = p.opened + 1; closed = p.closed + 1 }) (again (some e))
try_dial attempts i a reached p again = (connected i, record p { opened = p.opened + 1 })

-- for i := range attempts, with `left` rounds to go.
unfoldable pub dial_loop : (ℕ → Attempt) → ℕ → ℕ → ℕ → Option Fault → Pools → Connection × Pools
unfolding try_dial
dial_loop env attempts i zero last p = (exhausted attempts last, p)
dial_loop env attempts i (suc left) last p =
    try_dial attempts i (env i) (env i).dial p (dial_loop env attempts (i + 1) left)

abbrev pub no_pools : Pools
no_pools = record { opened = 0; closed = 0; delays = 0 }

unfoldable pub connect : (ℕ → Attempt) → ℕ → Connection × Pools
unfolding dial_loop
connect env attempts = dial_loop env attempts 0 attempts none no_pools

-- Whether the error is nil.
unfoldable pub is_connected : Connection → Bool
is_connected (connected k) = true
is_connected interrupted = false
is_connected (exhausted n last) = false
