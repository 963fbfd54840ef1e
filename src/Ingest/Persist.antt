-- ===== src/Ingest/Persist.antt =====
-- The inner loop of Client.cycle: one event is handed to handleEvent until it is stored, dropped as
-- malformed, or the client is canceled.
pub mod Exactly
use devops_demo.Base.{ℕ, Bool, true, false, List, [], ◌∷◌}
use devops_demo.Store.Session.{Result, ok, err, Error, Cause, malformed_event}
use devops_demo.Ingest.Event.{ItemEvent, World, handle_event}

abbrev is_malformed_cause : Cause → Bool
is_malformed_cause malformed_event = true
is_malformed_cause _ = false

-- errors.Is(err, errMalformedEvent)
unfoldable pub is_malformed : Error → Bool
is_malformed e = is_malformed_cause e.cause

-- How the select over ctx.Done() and time.After(persistRetryDelay) ends.
pub data Wait : Type 0 where
  elapsed canceled : Wait

-- How the loop ended, if it did: the waits that the environment has decided may all be used up.
pub data Outcome : Type 0 where
  handled : Outcome
  discarded : Outcome
  stopped : Outcome
  retrying : Outcome

module _ {F : Type 0} (stamp : ℕ → ℕ) where
  -- One round: the result of handleEvent, and what follows it. `again` is the next round.
  unfoldable pub after_attempt :
      Wait → (World F → Outcome × World F) → Result (Unit {0}) × World F → Outcome × World F
  unfolding is_malformed
  after_attempt wait again (ok u, w) = (handled, w)
  after_attempt elapsed again (err e, w) = elim (is_malformed e) [
    | true ↦ (discarded, w)
    | false ↦ again w
  ]
  after_attempt canceled again (err e, w) = elim (is_malformed e) [
    | true ↦ (discarded, w)
    | false ↦ (stopped, w)
  ]

  unfoldable pub persist : ItemEvent → List Wait → World F → Outcome × World F
  unfolding after_attempt
  persist event [] w = (retrying, w)
  persist event (wait ∷ waits) w =
      after_attempt wait (persist event waits) (handle_event stamp event w)
