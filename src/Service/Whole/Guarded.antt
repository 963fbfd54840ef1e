-- ===== src/Service/Whole/Guarded.antt =====
-- No call of the store finds the pool closed, and the tables stay sound.
use devops_demo.Base.{
  ℕ, ◌≡◌, inl, inr, refl, subst, Bool-cases, true, false, Option, none, some, List, [], ◌∷◌, arith,
}
use devops_demo.Store.Schema.{Tables}
use devops_demo.Store.History.{History, Step, start, call, ingest, reconcile, expire}
use devops_demo.Store.History.Sound.{IsSound}
use devops_demo.Store.History.Invariant.{History-IsSound}
use devops_demo.Service.Serve.{Goroutine, Service, initial_service, has_exited, step}
use devops_demo.Service.Serve.Shutdown.{AtPoint, Holds, step-Holds}
use devops_demo.Service.Whole.{
  Whole, Act, control, ingests, reconciles, expires, is_active, is_usable, through_pool, call_store,
  under_control, act, act_next, run_service,
}

module _ {F : Type 0} (stamp : ℕ → ℕ) (t : Tables F) where
  -- The service is at a point of its own, its tables come from calls of the store, and no call has
  -- found the pool other than open.
  record IsGuarded (w : Whole F) : Type 0 where
    at_point : AtPoint w.service.point w.service
    reached : History stamp t w.tables
    no_misuse : w.misuses ≡ 0

  abbrev AllGuarded : Option (Whole F) → Type 0
  AllGuarded none = Unit
  AllGuarded (some w) = IsGuarded w

  ingest_usable :
      (s : Service)
      → AtPoint s.point s
      → is_active s.ingest ≡ true
      → has_exited s.point ≡ false
      → is_usable s.pool ≡ true
  unfolding is_active is_usable has_exited
  ingest_usable s h a x = ground arith

  retention_usable :
      (s : Service)
      → AtPoint s.point s
      → is_active s.retention ≡ true
      → has_exited s.point ≡ false
      → is_usable s.pool ≡ true
  unfolding is_active is_usable has_exited
  retention_usable s h a x = ground arith

  call_store-IsGuarded :
      (g : Goroutine) (u : Tables F) (w : Whole F)
      → IsGuarded w
      → Step stamp w.tables u
      → (is_active g ≡ true → has_exited w.service.point ≡ false → is_usable w.service.pool ≡ true)
      → AllGuarded (call_store stamp g u w)
  unfolding call_store through_pool
  call_store-IsGuarded g u w h step usable = elim (Bool-cases (has_exited w.service.point)) [
    | inl gone ↦ rw gone tt
    | inr there ↦ elim (Bool-cases (is_active g)) [
      | inr idle ↦ rw (there, idle) tt
      | inl active ↦
          rw (there, active, usable active there)
            (record {
              at_point = h.at_point;
              reached = call h.reached step;
              no_misuse = h.no_misuse;
            })
    ]
  ]

  under_control-IsGuarded :
      (w : Whole F) (o : Option Service)
      → IsGuarded w
      → Holds o
      → AllGuarded (under_control stamp w o)
  unfolding under_control
  under_control-IsGuarded w none h k = tt
  under_control-IsGuarded w (some s) h k = record {
    at_point = k;
    reached = h.reached;
    no_misuse = h.no_misuse;
  }

  act-IsGuarded : (a : Act) (w : Whole F) → IsGuarded w → AllGuarded (act stamp a w)
  unfolding act
  act-IsGuarded (control e) w h =
      under_control-IsGuarded w (step e w.service) h (step-Holds e w.service h.at_point)
  act-IsGuarded (ingests e script) w h =
      call_store-IsGuarded _ _ w h (ingest e script) (ingest_usable w.service h.at_point)
  act-IsGuarded (reconciles items now script) w h =
      call_store-IsGuarded _ _ w h (reconcile items now script) (ingest_usable w.service h.at_point)
  act-IsGuarded (expires cutoff script) w h =
      call_store-IsGuarded _ _ w h (expire cutoff script) (retention_usable w.service h.at_point)

  run_service-IsGuarded :
      (acts : List Act) (w w' : Whole F)
      → IsGuarded w
      → run_service stamp acts w ≡ some w'
      → IsGuarded w'
  unfolding run_service
  run_service-IsGuarded [] w w' h r = subst (λ o. AllGuarded o) r h
  run_service-IsGuarded (a ∷ acts) w w' h r =
      go (act stamp a w) (act-IsGuarded a w h) (λ v k q. run_service-IsGuarded acts v w' k q) r
    where
      go :
          (o : Option (Whole F))
          → AllGuarded o
          → ((v : Whole F) → IsGuarded v → run_service stamp acts v ≡ some w' → IsGuarded w')
          → act_next stamp (run_service stamp acts) o ≡ some w'
          → IsGuarded w'
      go none k next q = absurd (unfold act_next in ground arith)
      go (some v) k next q = next v k (unfold act_next in q)

  -- In whatever order the ingest client and the retention runner make their calls of the store and
  -- the events of serve come, from sound tables and whatever the database answers: the tables are
  -- sound at every moment, and no call of the store finds the pool other than open.
  pub run_service-IsSound :
      (acts : List Act) (w : Whole F)
      → IsSound t
      → run_service stamp acts (record { service = initial_service; tables = t; misuses = 0 })
        ≡ some w
      → IsSound w.tables × (w.misuses ≡ 0)
  run_service-IsSound acts w sound r =
      let begun : Whole F = record { service = initial_service; tables = t; misuses = 0 } in
      let first : IsGuarded begun = record {
        at_point = (refl, refl, refl);
        reached = start;
        no_misuse = refl;
      } in
      let last = run_service-IsGuarded acts begun w first r in
      (History-IsSound stamp sound last.reached, last.no_misuse)
