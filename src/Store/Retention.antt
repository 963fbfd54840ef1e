-- ===== src/Store/Retention.antt =====
-- internal/store/retention.go: DeleteEventsOlderThan.
pub mod Effect
use devops_demo.Base.{ℕ, ◌+◌, Bool, List, [], ◌∷◌, ltb, if◌then◌else◌}
use devops_demo.Store.Schema.{EventRecord, Tables}
use devops_demo.Store.Session.{Result, ok, Tx, autocommit}

-- DELETE FROM item_events WHERE event_time < $1: the rows that stay.
unfoldable pub delete_older : ℕ → List EventRecord → List EventRecord
delete_older cutoff [] = []
delete_older cutoff (r ∷ rows) =
    let rest = delete_older cutoff rows in if ltb r.event_time cutoff then rest else r ∷ rest

-- The rows affected.
unfoldable pub count_older : ℕ → List EventRecord → ℕ
count_older cutoff [] = 0
count_older cutoff (r ∷ rows) =
    let rest = count_older cutoff rows in if ltb r.event_time cutoff then rest + 1 else rest

module _ {F : Type 0} where
  unfoldable pub delete_events : ℕ → Tables F → Result (ℕ × Tables F)
  delete_events cutoff t = ok (
    count_older cutoff t.item_events,
    record t { item_events = delete_older cutoff t.item_events },
  )

  -- The cutoff in the error's text is left out.
  unfoldable pub delete_events_older_than : (ℕ → ℕ) → ℕ → Tx F ℕ
  unfolding autocommit delete_events
  delete_events_older_than stamp cutoff =
      autocommit "delete item_events older than" (delete_events (stamp cutoff))
