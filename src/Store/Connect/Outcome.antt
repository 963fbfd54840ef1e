-- ===== src/Store/Connect/Outcome.antt =====
-- When Connect returns a pool, and that it closes all others.
use devops_demo.Base.{
  ℕ, zero, suc, ◌+◌, ◌<◌, ◌≤◌, ◌≡◌, refl, inl, inr, Bool, true, false, Bool-cases, nat_eq,
  if◌then◌else◌, Option, none, some, arith,
}
use devops_demo.Store.Session.{Fault}
use devops_demo.Store.Connect.{
  Dial, new_failed, ping_failed, reached, Attempt, Pools, Connection, connected, interrupted,
  exhausted, retry_or_stop, try_dial, dial_loop, no_pools, connect,
}

abbrev pub is_reached : Dial → Bool
is_reached reached = true
is_reached _ = false

-- The attempts from i and before j fail, and none of their delays is interrupted.
abbrev pub Passed : (ℕ → Attempt) → ℕ → ℕ → Type 0
Passed env i j =
    (k : ℕ) → i ≤ k → k < j → (is_reached (env k).dial ≡ false) × ((env k).canceled ≡ false)

-- How the attempts from i on end.
pub data Ended (env : ℕ → Attempt) (attempts i : ℕ) (r : Connection × Pools) : Type 0 where
  got :
      (k : ℕ)
      → k < attempts
      → Passed env i k
      → is_reached (env k).dial ≡ true
      → r.0 ≡ connected k
      → r.1.opened ≡ r.1.closed + 1
      → Ended env attempts i r
  canceled_at :
      (k : ℕ)
      → k + 1 < attempts
      → Passed env i k
      → is_reached (env k).dial ≡ false
      → (env k).canceled ≡ true
      → r.0 ≡ interrupted
      → r.1.opened ≡ r.1.closed
      → Ended env attempts i r
  used_up :
      (last : Option Fault)
      → ((k : ℕ) → i ≤ k → k < attempts → is_reached (env k).dial ≡ false)
      → r.0 ≡ exhausted attempts last
      → r.1.opened ≡ r.1.closed
      → Ended env attempts i r

module _ (env : ℕ → Attempt) (attempts : ℕ) where
  -- A failed attempt before the ones from i+1 on.
  Ended-later :
      (i : ℕ) (r : Connection × Pools)
      → is_reached (env i).dial ≡ false
      → (env i).canceled ≡ false
      → Ended env attempts (i + 1) r
      → Ended env attempts i r
  Ended-later i r h c (got k below passed there e p) =
      got k below (λ j l u. grind (arith, passed j)) there e p
  Ended-later i r h c (canceled_at k below passed there stop e p) =
      canceled_at k below (λ j l u. grind (arith, passed j)) there stop e p
  Ended-later i r h c (used_up last all e p) = used_up last (λ j l u. grind (arith, all j)) e p

  retry_or_stop-Ended :
      (i : ℕ) (c : Bool) (e : Fault) (p : Pools) (again : Pools → Connection × Pools)
      → i < attempts
      → (env i).canceled ≡ c
      → is_reached (env i).dial ≡ false
      → p.opened ≡ p.closed
      → ((q : Pools)
          → q.opened ≡ q.closed
          → i + 1 < attempts
          → Ended env attempts (i + 1) (again q))
      → Ended env attempts i (retry_or_stop attempts i c e p again)
  unfolding retry_or_stop
  retry_or_stop-Ended i c e p again below stop h same rest =
      elim (Bool-cases (nat_eq (i + 1) attempts)) [
        | inl last ↦ rw last (used_up (some e) (λ k l u. ground arith) refl same)
        | inr more ↦ rw more (go c stop more)
      ]
    where
      go :
          (c : Bool)
          → (env i).canceled ≡ c
          → nat_eq (i + 1) attempts ≡ false
          → Ended env attempts i
              (if c then (interrupted, p) else again (record p { delays = p.delays + 1 }))
      go true k more = canceled_at i (ground arith) (λ j l u. absurd (omega arith)) h k refl same
      go false k more = Ended-later i _ h k (rest _ same (ground arith))

  dial_loop-Ended :
      (i left : ℕ) (last : Option Fault) (p : Pools)
      → i + left ≡ attempts
      → p.opened ≡ p.closed
      → Ended env attempts i (dial_loop env attempts i left last p)
  unfolding dial_loop
  dial_loop-Ended i zero last p n same = used_up last (λ k l u. absurd (omega arith)) refl same
  dial_loop-Ended i (suc left) last p n same =
      go (env i).dial refl (λ e q b s. dial_loop-Ended (i + 1) left (some e) q b s)
    where
      go :
          (d : Dial)
          → (env i).dial ≡ d
          → ((e : Fault) (q : Pools)
              → i + 1 + left ≡ attempts
              → q.opened ≡ q.closed
              → Ended env attempts (i + 1) (dial_loop env attempts (i + 1) left (some e) q))
          → Ended env attempts i
              (try_dial attempts i (env i) d p (dial_loop env attempts (i + 1) left))
      go (new_failed e) k next =
          unfold try_dial in
          retry_or_stop-Ended i (env i).canceled e p _ (omega arith) refl (ground arith) same
            (λ q s b. next e q (omega arith) s)
      go (ping_failed e) k next =
          unfold try_dial in
          retry_or_stop-Ended i (env i).canceled e _ _ (omega arith) refl (ground arith)
            (omega arith) (λ q s b. next e q (omega arith) s)
      go reached k next =
          unfold try_dial in
          got i (omega arith) (λ j l u. absurd (omega arith)) (ground arith) refl (omega arith)

  -- Connect makes at most `attempts` attempts and returns in one of three ways: with the pool of the
  -- first attempt that reaches the database, when no earlier delay is interrupted; with the
  -- context's error, after a failed attempt other than the last; or, when all attempts fail, with an
  -- error. Every pool that it has created and does not return is closed.
  pub connect-Ended : Ended env attempts 0 (connect env attempts)
  unfolding connect
  connect-Ended = dial_loop-Ended 0 attempts none no_pools (omega arith) refl
