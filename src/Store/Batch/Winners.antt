-- ===== src/Store/Batch/Winners.antt =====
-- The fold of a batch, against the item rows that its events write one after the other.
use devops_demo.Base.{
  ℕ, ◌≡◌, refl, true, false, Option, none, some, List, [], ◌∷◌, has_duplicates, nat_key, text_key,
  pair_key, if◌then◌else◌, arith, ℤ, int_key, int_eq_iff, int_eq, ltb, is_some, elem,
  elem-append_one, has_duplicates-append_one, All, Bool-cases, inl, inr, subst, map, sym, All-elem,
  ap, Option-cases, ◌∙◌,
}
use devops_demo.Base.Table.{lookup, keys, with_new, lookup-upsert}
use devops_demo.Store.Schema.{EventRecord, ItemRow}
use devops_demo.Store.Ingest.{merge_row, row_of, stored, tombstone_of}
use devops_demo.Store.Batch.Fold.{
  Fold, FoldedItem, absorb, fold_step, fold_loop, folded_item, collect, fold_current_items,
  time_or_zero, empty_fold,
}
use devops_demo.Store.Batch.{excluded, excluded_rows}

-- The rows of one item that a list of rows writes.
unfoldable pub item_after : ℤ → List EventRecord → Option ItemRow → Option ItemRow
item_after id [] o = o
item_after id (r ∷ rows) o =
    item_after id rows (if int_eq r.item_id id then some (merge_row (row_of r) o) else o)

merge_row-with_new :
    (new : ItemRow) (w o : Option ItemRow)
    → merge_row new (with_new merge_row w o) ≡ merge_row (merge_row new w) o
merge_row-with_new new w o = ground arith

-- What a list of rows makes of a row is what it makes of nothing, merged into the row.
pub item_after-with_new :
    (id : ℤ) (rows : List EventRecord) (w o : Option ItemRow)
    → item_after id rows (with_new merge_row w o) ≡ with_new merge_row (item_after id rows w) o
unfolding item_after
item_after-with_new id [] w o = refl
item_after-with_new id (r ∷ rows) w o = ground (
  arith,
  merge_row-with_new (row_of r) w o,
  item_after-with_new id rows w o,
  item_after-with_new id rows (some (merge_row (row_of r) w)) o,
)

-- A winner stands under its own id, with a time of `P`.
abbrev pub IsWinner : (ℕ → Type 0) → ℤ → Option FoldedItem → Type 0
IsWinner P id none = Unit
IsWinner P id (some w) = (w.item_id ≡ id) × P w.last_seen

-- `order` lists the keys of both maps, each once.
pub record IsFold (P : ℕ → Type 0) (st : Fold) : Type 0 where
  pub winners : (id : ℤ) → elem id st.order ≡ is_some (lookup id st.winners)
  pub first_seen : (id : ℤ) → elem id st.order ≡ is_some (lookup id st.first_seen)
  pub distinct : has_duplicates st.order ≡ false
  pub entries : (id : ℤ) → IsWinner P id (lookup id st.winners)

module _ (P : ℕ → Type 0) where
  IsWinner-absorb :
      (e : EventRecord) (o : Option FoldedItem)
      → P e.event_time
      → IsWinner P e.item_id o
      → IsWinner P e.item_id (some (absorb e o))
  unfolding absorb
  IsWinner-absorb e none p h = (refl, p)
  IsWinner-absorb e (some w) p h = elim (Bool-cases (ltb e.event_time w.last_seen)) [
    | inl older ↦ rw older h
    | inr newer ↦ rw newer (h.0, p)
  ]

  IsFold-fold_step :
      (e : EventRecord) (st : Fold) → P e.event_time → IsFold P st → IsFold P (fold_step e st)
  unfolding fold_step
  IsFold-fold_step e st p f = record {
    winners = λ id. ground (
      arith,
      f.winners id,
      f.winners e.item_id,
      f.first_seen e.item_id,
      elem-append_one id e.item_id st.order,
      lookup-upsert e.item_id id (absorb e) st.winners,
      int_eq_iff e.item_id id,
    );
    first_seen = λ id. ground (
      arith,
      f.first_seen id,
      f.first_seen e.item_id,
      elem-append_one id e.item_id st.order,
      lookup-upsert e.item_id id (λ (_ : Option ℕ). e.event_time) st.first_seen,
      int_eq_iff e.item_id id,
    );
    distinct =
        ground
          (arith, f.first_seen e.item_id, f.distinct, has_duplicates-append_one e.item_id st.order);
    entries = λ id.
        rw (lookup-upsert e.item_id id (absorb e) st.winners)
          (elim (Bool-cases (int_eq e.item_id id)) [
            | inl here ↦
                let e' : e.item_id ≡ id = (int_eq_iff e.item_id id).0 here in
                rw here (
                  subst (λ k. IsWinner P k (some (absorb e (lookup e.item_id st.winners)))) e'
                    (IsWinner-absorb e (lookup e.item_id st.winners) p (f.entries e.item_id)))
            | inr there ↦ rw there (f.entries id)
          ]);
  }

  -- The driver keeps the order of the times of `P`.
  module _ (stamp : ℕ → ℕ) (keeps : (s t : ℕ) → P s → P t → ltb (stamp s) (stamp t) ≡ ltb s t) where
    -- The row that a winner and a first time would be sent as.
    abbrev row_from : Option FoldedItem → Option ℕ → Option ItemRow
    row_from none o = none
    row_from (some w) o = some (excluded stamp (record w { first_seen = time_or_zero o }))

    abbrev first_time : EventRecord → Option ℕ → Option ℕ
    first_time e none = some e.event_time
    first_time e (some t) = some t

    row_from-absorb :
        (e : EventRecord) (w : Option FoldedItem) (o : Option ℕ)
        → is_some w ≡ is_some o
        → P e.event_time
        → IsWinner P e.item_id w
        → row_from (some (absorb e w)) (first_time e o)
          ≡ some (merge_row (row_of (stored stamp e)) (row_from w o))
    unfolding absorb row_of stored tombstone_of
    row_from-absorb e none none h p q = ground arith
    row_from-absorb e none (some t) h p q = absurd (ground arith)
    row_from-absorb e (some w) none h p q = absurd (ground arith)
    row_from-absorb e (some w) (some t) h p q = ground (arith, keeps e.event_time w.last_seen p q.1)

    -- The row that a fold would send for an item.
    abbrev row_at : Fold → ℤ → Option ItemRow
    row_at st id = row_from (lookup id st.winners) (lookup id st.first_seen)

    row_at-fold_step :
        (e : EventRecord) (st : Fold) (id : ℤ)
        → P e.event_time
        → IsFold P st
        → row_at (fold_step e st) id ≡ (
            if int_eq e.item_id id
            then some (merge_row (row_of (stored stamp e)) (row_at st id))
            else row_at st id)
    unfolding fold_step
    row_at-fold_step e st id p f = ground (
      arith,
      row_from-absorb e (lookup e.item_id st.winners) (lookup e.item_id st.first_seen) seen p
          (f.entries e.item_id),
      f.first_seen e.item_id,
      lookup-upsert e.item_id id (absorb e) st.winners,
      lookup-upsert e.item_id id (λ (_ : Option ℕ). e.event_time) st.first_seen,
      int_eq_iff e.item_id id,
    )
      where
        seen : is_some (lookup e.item_id st.winners) ≡ is_some (lookup e.item_id st.first_seen)
        seen = sym (f.winners e.item_id) ∙ f.first_seen e.item_id

    fold_loop-rows :
        (ev : List EventRecord) (st : Fold)
        → All (λ e. P e.event_time) ev
        → IsFold P st
        → IsFold P (fold_loop ev st)
          × ((id : ℤ)
              → row_at (fold_loop ev st) id ≡ item_after id (map (stored stamp) ev) (row_at st id))
    unfolding fold_loop item_after stored
    fold_loop-rows [] st p f = (f, λ id. refl)
    fold_loop-rows (e ∷ ev) st p f =
        let (g, rows) = fold_loop-rows ev (fold_step e st) p.1 (IsFold-fold_step e st p.0 f) in
        (
          g,
          λ id.
              rows id ∙ ap (item_after id (map (stored stamp) ev)) (row_at-fold_step e st id p.0 f),
        )

    collect-rows :
        (st : Fold) (ids : List ℤ)
        → IsFold P st
        → All (λ id. is_some (lookup id st.winners) ≡ true) ids
        → (folded : List FoldedItem) × (collect st ids ≡ some folded)
          × (keys (excluded_rows stamp folded) ≡ ids)
          × ((id : ℤ)
              → lookup id (excluded_rows stamp folded)
                ≡ (if elem id ids then row_at st id else none))
    unfolding collect folded_item lookup
    collect-rows st [] f h = ([], refl, refl, λ id. refl)
    collect-rows st (i ∷ ids) f h = elim (Option-cases (lookup i st.winners)) [
      | inl missing ↦ absurd (ground arith)
      | inr (w, found) ↦
          let (folded, collected, listed, rows) = collect-rows st ids f h.1 in
          let own : w.item_id ≡ i = (subst (IsWinner P i) found (f.entries i)).0 in
          (
            record w { first_seen = time_or_zero (lookup i st.first_seen) } ∷ folded,
            ground arith,
            ground arith,
            λ id. ground (arith, rows id, int_eq_iff i id),
          )
    ]

  IsFold-empty_fold : IsFold P empty_fold
  unfolding lookup
  IsFold-empty_fold = record {
    winners = λ id. refl;
    first_seen = λ id. refl;
    distinct = refl;
    entries = λ id. tt;
  }

  -- The fold does not panic, has each item once, and has for each item the row that its events write
  -- one after the other.
  pub fold_current_items-rows :
      (stamp : ℕ → ℕ)
      → ((s t : ℕ) → P s → P t → ltb (stamp s) (stamp t) ≡ ltb s t)
      → (ev : List EventRecord) → All (λ e. P e.event_time) ev
      → (folded : List FoldedItem) × (fold_current_items ev ≡ some folded)
        × (has_duplicates (keys (excluded_rows stamp folded)) ≡ false)
        × ((id : ℤ)
            → lookup id (excluded_rows stamp folded) ≡ item_after id (map (stored stamp) ev) none)
  unfolding fold_current_items lookup
  fold_current_items-rows stamp keeps ev p =
      let st : Fold = fold_loop ev empty_fold in
      let (f, rows) = fold_loop-rows stamp keeps ev empty_fold p IsFold-empty_fold in
      let all : All (λ id. is_some (lookup id st.winners) ≡ true) st.order =
        All-elem _ st.order (λ id m. sym (f.winners id) ∙ m) in
      let (folded, collected, listed, looked) = collect-rows stamp keeps st st.order f all in
      (
        folded,
        collected,
        rw listed f.distinct,
        λ id. ground (arith, looked id, rows id, f.winners id),
      )
