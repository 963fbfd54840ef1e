-- ===== src/Store/Batch/Fold.antt =====
-- foldCurrentItems of internal/store/seed.go. The two Go maps are tables by item id; the pointers
-- in `winners` are not shared, so a write through one is an update of the map.
use devops_demo.Base.{
  ℕ, String, not, Option, none, some, List, [], ◌∷◌, ◌++◌, ℤ, int_key, ltb, text_eq, is_some,
  if◌then◌else◌,
}
use devops_demo.Base.Table.{Table, lookup, upsert}
use devops_demo.Store.Schema.{EventRecord}

pub record FoldedItem : Type 0 where
  pub item_id : ℤ
  pub name : String
  pub first_seen : ℕ
  pub last_seen : ℕ
  pub tombstoned_at : Option ℕ

-- The variables of the loop.
pub record Fold : Type 0 where
  pub order : List ℤ
  pub first_seen : Table ℤ ℕ
  pub winners : Table ℤ FoldedItem

-- w.name, w.lastSeen and w.tombstonedAt take the event's values.
unfoldable pub win : EventRecord → FoldedItem → FoldedItem
win e w = record w {
  name = e.item_name;
  last_seen = e.event_time;
  tombstoned_at = if text_eq e.event_type "deleted" then some e.event_time else none;
}

-- &foldedItem{itemID: e.ItemID}
abbrev fresh : EventRecord → FoldedItem
fresh e = record {
  item_id = e.item_id;
  name = "";
  first_seen = 0;
  last_seen = 0;
  tombstoned_at = none;
}

-- if !exists || !e.EventTime.Before(w.lastSeen)
unfoldable pub absorb : EventRecord → Option FoldedItem → FoldedItem
unfolding win
absorb e none = win e (fresh e)
absorb e (some w) = if not (ltb e.event_time w.last_seen) then win e w else w

-- if _, seen := firstSeen[e.ItemID]; !seen
unfoldable pub note_first : EventRecord → Fold → Fold
note_first e st = if is_some (lookup e.item_id st.first_seen) then st else record st {
  order = st.order ++ e.item_id ∷ [];
  first_seen = upsert e.item_id (λ _. e.event_time) st.first_seen;
}

-- The body of the first loop.
unfoldable pub fold_step : EventRecord → Fold → Fold
unfolding note_first
fold_step e st = record (note_first e st) { winners = upsert e.item_id (absorb e) st.winners }

unfoldable pub fold_loop : List EventRecord → Fold → Fold
fold_loop [] st = st
fold_loop (e ∷ ev) st = fold_loop ev (fold_step e st)

-- A missing key of firstSeen reads as the zero time.
abbrev pub time_or_zero : Option ℕ → ℕ
time_or_zero none = 0
time_or_zero (some t) = t

-- The body of the second loop: `none` is the panic of a nil winner.
unfoldable pub folded_item : Fold → ℤ → Option FoldedItem
folded_item st id = elim (lookup id st.winners) [
  | none ↦ none
  | some w ↦ some (record w { first_seen = time_or_zero (lookup id st.first_seen) })
]

abbrev cons? : Option FoldedItem → Option (List FoldedItem) → Option (List FoldedItem)
cons? none rest = none
cons? (some f) none = none
cons? (some f) (some rest) = some (f ∷ rest)

unfoldable pub collect : Fold → List ℤ → Option (List FoldedItem)
collect st [] = some []
collect st (id ∷ ids) = cons? (folded_item st id) (collect st ids)

abbrev pub empty_fold : Fold
empty_fold = record { order = []; first_seen = []; winners = [] }

unfoldable pub fold_current_items : List EventRecord → Option (List FoldedItem)
fold_current_items ev = let st = fold_loop ev empty_fold in collect st st.order
