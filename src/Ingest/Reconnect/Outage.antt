-- ===== src/Ingest/Reconnect/Outage.antt =====
-- The log of the waits between the cycles while the backend cannot be reached, and when Run returns.
use devops_demo.Base.{
  ℕ, ◌+◌, ◌<◌, ◌≡◌, refl, sym, ◌∙◌, ap, Bool, true, false, not, ◌&&◌, ◌||◌, List, [], ◌∷◌, ◌++◌,
  length, arith,
}
use mathlib.Core.List.{append_assoc, append-nil}
use mathlib.Core.Path.{ap₂}
use devops_demo.Store.Schema.{SnapshotItem}
use devops_demo.Store.Session.{Error}
use devops_demo.Ingest.Event.{World}
use devops_demo.Ingest.Client.{
  Config, Answer, gives, fails, CycleScript, CycleResult, ended, still_running, not_connected,
  after_reconcile, after_dial, snapshot_reconcile, cycle,
}
use devops_demo.Ingest.Reconnect.{
  Pass, Loop, Status, returned, looping, in_cycle, wait_of, back_off, after_cycle, try_cycle,
  pass_once, go_on, run_client,
}

abbrev pub is_failure : {A : Type 0} → Answer A → Bool
is_failure (gives a) = false
is_failure (fails c) = true

-- The context is not canceled, and the dial or ListItems fails.
abbrev pub is_outage : Pass → Bool
is_outage pass =
    not (pass.canceled_before || (pass.canceled_waiting || pass.canceled_after))
    && (is_failure pass.script.dial || is_failure pass.script.list_items)

abbrev pub all_outage : List Pass → Bool
all_outage [] = true
all_outage (pass ∷ passes) = is_outage pass && all_outage passes

-- The waits before the attempts a, a+1, and so on.
abbrev pub waits_from : Config → ℕ → List Pass → List ℕ
waits_from cfg a [] = []
waits_from cfg a (pass ∷ passes) = wait_of cfg pass a ∷ waits_from cfg (a + 1) passes

-- Whether a pass has the context canceled somewhere.
abbrev pub any_canceled : List Pass → Bool
any_canceled [] = false
any_canceled (pass ∷ passes) =
    pass.canceled_before || (pass.canceled_waiting || (pass.canceled_after || any_canceled passes))

-- A cycle that has returned without having been connected.
record Fruitless {F : Type 0} (r : CycleResult × World F) : Type 0 where
  error : Error
  result : r.0 ≡ ended false error

outage_parts :
    (pass : Pass)
    → is_outage pass ≡ true
    → (pass.canceled_before ≡ false)
      × (pass.canceled_waiting ≡ false)
      × (pass.canceled_after ≡ false)
      × ((is_failure pass.script.dial || is_failure pass.script.list_items) ≡ true)
outage_parts pass o = (ground arith, ground arith, ground arith, ground arith)

module _ {F : Type 0} (stamp : ℕ → ℕ) where
  after_dial-Fruitless :
      (dial : Answer (Unit {0})) (script : CycleScript) (w : World F)
      → (is_failure dial || is_failure script.list_items) ≡ true
      → Fruitless (after_dial stamp dial script w)
  unfolding after_dial after_reconcile not_connected snapshot_reconcile
  after_dial-Fruitless (fails c) script w h = record { error = _; result = refl }
  after_dial-Fruitless (gives u) script w h = go script.list_items h
    where
      go :
          (l : Answer (List SnapshotItem))
          → is_failure l ≡ true
          → Fruitless (after_reconcile stamp script (snapshot_reconcile stamp l script.now w))
      go (gives items) k = absurd (ground arith)
      go (fails c) k = record { error = _; result = refl }

  cycle-Fruitless :
      (script : CycleScript) (w : World F)
      → (is_failure script.dial || is_failure script.list_items) ≡ true
      → Fruitless (cycle stamp script w)
  unfolding cycle
  cycle-Fruitless script w h = after_dial-Fruitless script.dial script w h

  -- The state after a round of an outage.
  record Waited (cfg : Config) (pass : Pass) (l : Loop F) (r : Status × Loop F) : Type 0 where
    goes_on : r.0 ≡ looping
    attempt : r.1.attempt ≡ l.attempt + 1
    waits : r.1.waits ≡ l.waits ++ (wait_of cfg pass l.attempt ∷ [])

  after_cycle-Fruitless :
      (cfg : Config) (l : Loop F) (r : CycleResult × World F)
      → Fruitless r
      → ((after_cycle stamp cfg false l r).0 ≡ looping)
        × ((after_cycle stamp cfg false l r).1.attempt ≡ l.attempt + 1)
        × ((after_cycle stamp cfg false l r).1.waits ≡ l.waits)
  unfolding after_cycle
  after_cycle-Fruitless cfg l (ended true e, w) f = absurd (ground (arith, f.result))
  after_cycle-Fruitless cfg l (ended false e, w) f = (refl, ground arith, refl)
  after_cycle-Fruitless cfg l (still_running, w) f = absurd (ground (arith, f.result))

  -- A round in which the context stays uncanceled.
  pass_once-uncanceled :
      (cfg : Config) (pass : Pass) (l : Loop F)
      → pass.canceled_before ≡ false
      → pass.canceled_waiting ≡ false
      → pass.canceled_after ≡ false
      → 0 < l.attempt
      → pass_once stamp cfg pass l
        ≡ after_cycle stamp cfg false
            (back_off stamp cfg pass l)
            (cycle stamp pass.script (back_off stamp cfg pass l).world)
  unfolding pass_once try_cycle
  pass_once-uncanceled cfg pass l b w a h = ground arith

  pass_once-outage :
      (cfg : Config) (pass : Pass) (l : Loop F)
      → is_outage pass ≡ true
      → 0 < l.attempt
      → Waited cfg pass l (pass_once stamp cfg pass l)
  unfolding back_off
  pass_once-outage cfg pass l o h =
      let (b, w, a, down) = outage_parts pass o in
      let same = pass_once-uncanceled cfg pass l b w a h in
      let f = cycle-Fruitless pass.script (back_off stamp cfg pass l).world down in
      let (on, next, log) = after_cycle-Fruitless cfg (back_off stamp cfg pass l) _ f in
      record {
        goes_on = ap (λ r. r.0) same ∙ on;
        attempt = ap (λ r. r.1.attempt) same ∙ next ∙ ground arith;
        waits = ap (λ r. r.1.waits) same ∙ log ∙ ground arith;
      }

  go_on-looping :
      (cfg : Config) (next : Loop F → Status × Loop F) (r : Status × Loop F)
      → r.0 ≡ looping
      → go_on stamp cfg next r ≡ next r.1
  unfolding go_on
  go_on-looping cfg next (looping, l) h = refl
  go_on-looping cfg next (returned, l) h = absurd (ground arith)
  go_on-looping cfg next (in_cycle, l) h = absurd (ground arith)

  pub run_client-waits_from :
      (cfg : Config) (passes : List Pass) (l : Loop F)
      → all_outage passes ≡ true
      → 0 < l.attempt
      → ((run_client stamp cfg passes l).0 ≡ looping)
        × ((run_client stamp cfg passes l).1.attempt ≡ l.attempt + length passes)
        × ((run_client stamp cfg passes l).1.waits ≡ l.waits ++ waits_from cfg l.attempt passes)
  unfolding run_client
  run_client-waits_from cfg [] l o h = (refl, omega arith, sym (append-nil _))
  run_client-waits_from cfg (pass ∷ passes) l o h =
      let first = pass_once-outage cfg pass l (ground arith) h in
      let (on, next, log) =
        run_client-waits_from cfg passes (pass_once stamp cfg pass l).1 (ground arith)
          (ground (arith, first.attempt)) in
      let step =
        go_on-looping cfg (run_client stamp cfg passes) (pass_once stamp cfg pass l)
          first.goes_on in
      (
        ap (λ r. r.0) step ∙ on,
        ap (λ r. r.1.attempt) step ∙ next ∙ ground (arith, first.attempt),
        ap (λ r. r.1.waits) step
            ∙ log
            ∙ ap₂ (λ ws a. ws ++ waits_from cfg a passes) first.waits first.attempt
            ∙ append_assoc l.waits _ _,
      )

  after_cycle-returned :
      (cfg : Config) (canceled : Bool) (l : Loop F) (r : CycleResult × World F)
      → (after_cycle stamp cfg canceled l r).0 ≡ returned
      → canceled ≡ true
  unfolding after_cycle
  after_cycle-returned cfg true l r h = refl
  after_cycle-returned cfg false l (ended connected e, w) h = absurd (ground arith)
  after_cycle-returned cfg false l (still_running, w) h = absurd (ground arith)

  pass_once-returned :
      (cfg : Config) (pass : Pass) (l : Loop F)
      → (pass_once stamp cfg pass l).0 ≡ returned
      → (pass.canceled_before || (pass.canceled_waiting || pass.canceled_after)) ≡ true
  unfolding pass_once try_cycle
  pass_once-returned cfg pass l h = ground (arith, after_cycle-returned cfg)

  -- Run returns only because the context is canceled: no error of the dial, of the reconcile, of the
  -- stream or of the database ends it.
  pub run_client-returned :
      (cfg : Config) (passes : List Pass) (l : Loop F)
      → (run_client stamp cfg passes l).0 ≡ returned
      → any_canceled passes ≡ true
  unfolding run_client go_on
  run_client-returned cfg [] l h = absurd (ground arith)
  run_client-returned cfg (pass ∷ passes) l h =
      go (pass_once stamp cfg pass l) refl (λ l₁. run_client-returned cfg passes l₁) h
    where
      go :
          (r : Status × Loop F)
          → pass_once stamp cfg pass l ≡ r
          → ((l₁ : Loop F)
              → (run_client stamp cfg passes l₁).0 ≡ returned
              → any_canceled passes ≡ true)
          → (go_on stamp cfg (run_client stamp cfg passes) r).0 ≡ returned
          → any_canceled (pass ∷ passes) ≡ true
      go (looping, l₁) e rest k = ground (arith, rest l₁ k)
      go (returned, l₁) e rest k = ground (arith, pass_once-returned cfg pass l (ap (λ r. r.0) e))
      go (in_cycle, l₁) e rest k = absurd (ground arith)
