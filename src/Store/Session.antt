-- ===== src/Store/Session.antt =====
-- Statements, transactions and the failures that the database may answer with.
--
-- Postgres is not part of the repository. Its answers are a script, one for each message that the
-- service sends: the statement runs, it is refused before it has any effect, or its effect stands
-- and the acknowledgement is lost. A script that is used up answers `fine`.
pub mod Laws
use devops_demo.Base.{String, Bool, true, false, List, [], ◌∷◌}
use devops_demo.Store.Schema.{Tables}

-- Why the server, the network or the context made a statement fail.
pub data Fault : Type 0 where
  unavailable : Fault
  canceled : Fault

pub data Cause : Type 0 where
  database : Fault → Cause
  check_violation : Cause
  cardinality_violation : Cause
  malformed_event : Cause
  -- a Go panic
  nil_dereference : Cause

-- An error and the texts that fmt.Errorf("...: %w", err) wrapped it in, outermost first.
pub record Error : Type 0 where
  pub context : List String
  pub cause : Cause

pub data Result {ℓ} (A : Type ℓ) : Type ℓ where
  ok : A → Result A
  err : Error → Result A

abbrev pub is_ok {ℓ} : {A : Type ℓ} → Result A → Bool
is_ok (ok a) = true
is_ok (err e) = false

abbrev pub raised : Cause → Error
raised c = record { context = []; cause = c }

abbrev pub wrap : String → Error → Error
wrap text e = record e { context = text ∷ e.context }

pub data Reply : Type 0 where
  fine : Reply
  refused : Fault → Reply
  lost : Fault → Reply

pub record Session (F : Type 0) : Type 0 where
  pub tables : Tables F
  pub script : List Reply

abbrev pub reply : List Reply → Reply
reply [] = fine
reply (r ∷ rest) = r

abbrev pub advance : List Reply → List Reply
advance [] = []
advance (r ∷ rest) = rest

-- An operation inside a transaction works on the session's own copy of the tables.
abbrev pub Tx {ℓ} : Type 0 → Type ℓ → Type ℓ
Tx F A = Session F → Result A × Session F

module _ {F : Type 0} where
  infixl 5 ◌>>=◌ ◌>>◌
  abbrev continue {ℓ κ} : {A : Type ℓ} {B : Type κ} → Result A → (A → Tx F B) → Tx F B
  continue (ok a) f s = f a s
  continue (err e) f s = (err e, s)

  abbrev pub ◌>>=◌ {ℓ κ} : {A : Type ℓ} {B : Type κ} → Tx F A → (A → Tx F B) → Tx F B
  ◌>>=◌ m f s = let (r, s') = m s in continue r f s'

  abbrev pub ◌>>◌ {ℓ κ} : {A : Type ℓ} {B : Type κ} → Tx F A → Tx F B → Tx F B
  m >> k = m >>= λ _. k

  abbrev pub pure {ℓ} : {A : Type ℓ} → A → Tx F A
  pure a s = (ok a, s)

  -- The result of a statement that ran, put into the session.
  abbrev settle {ℓ} :
      {A : Type ℓ} → String → List Reply → Tables F → Result (A × Tables F) → Result A × Session F
  settle text rest t (ok (a, t')) = (ok a, record { tables = t'; script = rest })
  settle text rest t (err e) = (err (wrap text e), record { tables = t; script = rest })

  -- tx.Exec or tx.QueryRow: a statement that fails fails the call, wrapped in the text.
  abbrev answered {ℓ} : {A : Type ℓ} → Reply → String → (Tables F → Result (A × Tables F)) → Tx F A
  answered fine text statement s = settle text (advance s.script) s.tables (statement s.tables)
  answered (refused c) text statement s =
      (err (wrap text (raised (database c))), record s { script = advance s.script })
  answered (lost c) text statement s =
      (err (wrap text (raised (database c))), record s { script = advance s.script })

  unfoldable pub exec {ℓ} : {A : Type ℓ} → String → (Tables F → Result (A × Tables F)) → Tx F A
  exec text statement s = answered (reply s.script) text statement s

  -- tx.Commit, after a body that ended in `ok`: `before` is what a rollback restores.
  abbrev commit {ℓ} : {A : Type ℓ} → Reply → String → Tables F → A → Tx F A
  commit fine text before a s = (ok a, record s { script = advance s.script })
  commit (refused c) text before a s =
      (err (wrap text (raised (database c))), record { tables = before; script = advance s.script })
  commit (lost c) text before a s =
      (err (wrap text (raised (database c))), record s { script = advance s.script })

  -- defer tx.Rollback: an error of the body restores the tables.
  abbrev finish {ℓ} : {A : Type ℓ} → String → Tables F → Result A → Tx F A
  finish text before (ok a) s = commit (reply s.script) text before a s
  finish text before (err e) s = (err e, record s { tables = before })

  abbrev begun {ℓ} : {A : Type ℓ} → Reply → String → String → Tx F A → Tx F A
  begun fine begin_text commit_text body s =
      let (r, s') = body (record s { script = advance s.script }) in
      finish commit_text s.tables r s'
  begun (refused c) begin_text commit_text body s =
      (err (wrap begin_text (raised (database c))), record s { script = advance s.script })
  begun (lost c) begin_text commit_text body s =
      (err (wrap begin_text (raised (database c))), record s { script = advance s.script })

  -- pool.Begin, the body, and tx.Commit or the deferred tx.Rollback.
  unfoldable pub transaction {ℓ} : {A : Type ℓ} → String → String → Tx F A → Tx F A
  transaction begin_text commit_text body s = begun (reply s.script) begin_text commit_text body s

  abbrev alone {ℓ} : {A : Type ℓ} → Reply → String → (Tables F → Result (A × Tables F)) → Tx F A
  alone fine text statement s = settle text (advance s.script) s.tables (statement s.tables)
  alone (refused c) text statement s =
      (err (wrap text (raised (database c))), record s { script = advance s.script })
  alone (lost c) text statement s =
      let (r, s') = settle text (advance s.script) s.tables (statement s.tables) in
      (err (wrap text (raised (database c))), s')

  -- pool.Exec or pool.QueryRow, outside a transaction: a statement of its own.
  unfoldable pub autocommit {ℓ} :
      {A : Type ℓ} → String → (Tables F → Result (A × Tables F)) → Tx F A
  autocommit text statement s = alone (reply s.script) text statement s
