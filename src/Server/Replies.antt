-- ===== src/Server/Replies.antt =====
-- The answers of the HTTP interface against what is in the database.
use devops_demo.Base.{
  ℕ, String, ◌≡◌, ◌⊎◌, inl, inr, refl, ap, sym, ◌∙◌, Bool, true, false, is_some, Option, none, some,
  ℤ, int_key, int_eq_iff, arith,
}
use mathlib.Core.Option.{some-injective}
use devops_demo.Base.Parse.{parse_int}
use devops_demo.Base.Table.{lookup, lookup-upsert, upsert}
use devops_demo.Store.Schema.{EventRecord, ItemRow}
use devops_demo.Store.Session.{Result, ok, err, is_ok, Session}
use devops_demo.Store.Session.Laws.{answers}
use devops_demo.Store.Ingest.{merge_row, row_of, stored, ingest_event}
use devops_demo.Store.Ingest.Effect.{landed, ingest_event-ok}
use devops_demo.Store.Reads.{CurrentItem, scanned, scanned?, get_current_item, stats_last24h, ping}
use devops_demo.Store.Marker.{get_seed_marker}
use devops_demo.Server.{
  Request, healthz, readyz, stats_request, seed_marker_request, item_request, Response,
  item_response, Server, readyz_reply, item_reply, get_item_reply, stats_reply, marker_reply,
  handle_healthz, handle_readyz, handle_get_item, handle_stats, handle_seed_marker, handle_request,
}

module _ {F : Type 0} where
  get_item_reply-tables :
      (id : Option ℤ) (sv : Server F)
      → ((get_item_reply id sv).1.session.tables ≡ sv.session.tables)
        × ((get_item_reply id sv).1.db_up ≡ sv.db_up)
  unfolding get_item_reply item_reply get_current_item
  get_item_reply-tables none sv = (refl, refl)
  get_item_reply-tables (some id) sv = ground arith

  -- No request changes the tables, whatever the database answers; and the gauge db_up is left
  -- alone by all but readyz, which answers 200 and sets the gauge to 1, or answers 503 and sets it
  -- to 0.
  pub handle_request-tables :
      (now : ℕ) (req : Request) (sv : Server F)
      → let (r, sv') = handle_request now req sv in
        (sv'.session.tables ≡ sv.session.tables)
        × (((req ≡ readyz)
              × (((r.status ≡ 200) × (sv'.db_up ≡ 1)) ⊎ ((r.status ≡ 503) × (sv'.db_up ≡ 0))))
            ⊎ (sv'.db_up ≡ sv.db_up))
  unfolding handle_request handle_healthz handle_readyz handle_get_item handle_stats
      handle_seed_marker readyz_reply stats_reply marker_reply stats_last24h ping get_seed_marker
  handle_request-tables now healthz sv = (refl, inr refl)
  handle_request-tables now readyz sv = ground arith
  handle_request-tables now (item_request text) sv =
      let (t, g) = get_item_reply-tables (parse_int text) sv in (t, inr g)
  handle_request-tables now stats_request sv = ground arith
  handle_request-tables now seed_marker_request sv = ground arith

  -- How a known id is answered: 500 exactly if the database does not answer the query, and else
  -- from the row that is there, in all its columns.
  abbrev pub Answered : ℤ → Session F → Response F → Type 0
  Answered id s r =
      let found = lookup id s.tables.current_items in
      ((answers s ≡ false) × (r.status ≡ 500))
      ⊎ ((answers s ≡ true) × (found ≡ none) × (r.status ≡ 404))
      ⊎ ((row : ItemRow) × (answers s ≡ true)
          × (found ≡ some row)
          × (r.status ≡ 200)
          × (r.body
              ≡ item_response (record {
                item_id = id;
                name = row.name;
                first_seen = row.first_seen;
                last_seen = row.last_seen;
                tombstoned = is_some row.tombstoned_at;
              })))

  get_current_item-result :
      (id : ℤ) (s : Session F)
      → ((answers s ≡ false) × (is_ok (get_current_item id s).0 ≡ false))
        ⊎ ((answers s ≡ true)
            × ((get_current_item id s).0 ≡ ok (scanned? id (lookup id s.tables.current_items))))
  unfolding get_current_item
  get_current_item-result id s = ground arith

  item_reply-err :
      (sv : Server F) (r : Result (Option CurrentItem) × Session F)
      → is_ok r.0 ≡ false
      → (item_reply sv r).0.status ≡ 500
  unfolding item_reply
  item_reply-err sv (err e, s) h = refl
  item_reply-err sv (ok none, s) h = absurd (ground arith)
  item_reply-err sv (ok (some item), s) h = absurd (ground arith)

  item_reply-ok :
      (id : ℤ) (o : Option ItemRow) (sv : Server F) (r : Result (Option CurrentItem) × Session F)
      → lookup id sv.session.tables.current_items ≡ o
      → answers sv.session ≡ true
      → r.0 ≡ ok (scanned? id o)
      → Answered id sv.session (item_reply sv r).0
  unfolding item_reply
  item_reply-ok id o sv (err e', s) found fine h = absurd (ground arith)
  item_reply-ok id none sv (ok none, s) found fine h = inr (inl (fine, found, refl))
  item_reply-ok id (some row) sv (ok none, s) found fine h = absurd (ground arith)
  item_reply-ok id none sv (ok (some item), s) found fine h = absurd (ground arith)
  item_reply-ok id (some row) sv (ok (some item), s) found fine h =
      inr (inr (row, fine, found, refl, ground arith))

  known-Answered : (id : ℤ) (sv : Server F) → Answered id sv.session (get_item_reply (some id) sv).0
  unfolding get_item_reply
  known-Answered id sv = elim (get_current_item-result id sv.session) [
    | inl (fault, h) ↦ inl (fault, item_reply-err sv (get_current_item id sv.session) h)
    | inr (fine, h) ↦ item_reply-ok id _ sv (get_current_item id sv.session) refl fine h
  ]

  -- GET /api/v1/items/{item_id}: a text that is no int64 is answered 400. For any other, the answer
  -- is 500 exactly if the database does not answer the query without a fault; and if it does, the
  -- answer is 404 where current_items has no row of the item, and 200 with all columns of the row
  -- where it has one, tombstoned or not.
  pub handle_get_item-status :
      (text : String) (sv : Server F)
      → ((parse_int text ≡ none) × ((handle_get_item text sv).0.status ≡ 400))
        ⊎ ((id : ℤ) × (parse_int text ≡ some id)
            × Answered id sv.session (handle_get_item text sv).0)
  unfolding handle_get_item
  handle_get_item-status text sv = go (parse_int text) refl
    where
      go :
          (o : Option ℤ)
          → parse_int text ≡ o
          → ((parse_int text ≡ none) × ((get_item_reply o sv).0.status ≡ 400))
            ⊎ ((id : ℤ) × (parse_int text ≡ some id)
                × Answered id sv.session (get_item_reply o sv).0)
      go none e = inl (e, unfold get_item_reply in refl)
      go (some id) e = inr (id, e, known-Answered id sv)

  -- The answer to GET for the item of an event that IngestEvent has stored, on the tables it left.
  abbrev pub AnsweredMerged : (ℕ → ℕ) → EventRecord → Session F → Session F → Response F → Type 0
  AnsweredMerged stamp e s q r =
      let old = lookup e.item_id s.tables.current_items in
      let row = merge_row (row_of (stored stamp e)) old in
      ((answers q ≡ false) × (r.status ≡ 500))
      ⊎ ((answers q ≡ true)
          × (r.status ≡ 200)
          × (r.body
              ≡ item_response (record {
                item_id = e.item_id;
                name = row.name;
                first_seen = row.first_seen;
                last_seen = row.last_seen;
                tombstoned = is_some row.tombstoned_at;
              })))

  pub handle_get_item-ingested :
      (stamp : ℕ → ℕ) (e : EventRecord) (s s' : Session F) (b : Bool) (text : String)
      (sv : Server F)
      → ingest_event stamp e s ≡ (ok b, s')
      → sv.session.tables ≡ s'.tables
      → parse_int text ≡ some e.item_id
      → AnsweredMerged stamp e s sv.session (handle_get_item text sv).0
  unfolding handle_get_item landed stored
  handle_get_item-ingested stamp e s s' b text sv h same p =
      let (known, new, after) = ingest_event-ok stamp e s s' b h in
      let id = e.item_id in
      let merged = merge_row (row_of (stored stamp e)) in
      let upsert_there : lookup id (upsert id merged s.tables.current_items)
          ≡ some (merged (lookup id s.tables.current_items)) =
        ground (arith, lookup-upsert id id merged s.tables.current_items, int_eq_iff id id) in
      let there : lookup id sv.session.tables.current_items
          ≡ some (merged (lookup id s.tables.current_items)) =
        ap (λ t. lookup id t.current_items) (same ∙ after) ∙ upsert_there in
      let reply = ap (λ o. (get_item_reply o sv).0) p in
      elim (known-Answered id sv) [
        | inl (fault, failed) ↦ inl (fault, ap (λ r. r.status) reply ∙ failed)
        | inr (inl (fine, missing, status)) ↦ absurd (ground (arith, there, missing))
        | inr (inr (row, fine, found, status, body)) ↦ inr (
          fine,
          ap (λ r. r.status) reply ∙ status,
          ap (λ r. r.body) reply
              ∙ body
              ∙ ap (λ r. item_response (scanned id r))
                  (some-injective row (merged (lookup id s.tables.current_items))
                    (sym found ∙ there)),
        )
      ]
