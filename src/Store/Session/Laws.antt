-- ===== src/Store/Session/Laws.antt =====
-- How a chain of statements and a transaction end.
use devops_demo.Base.{String, Bool, true, false, ◌≡◌, ◌⊎◌, inl, inr, refl, arith}
use devops_demo.Store.Schema.{Tables}
use devops_demo.Store.Session.{
  Result, ok, err, is_ok, Reply, fine, refused, lost, Session, reply, advance, Tx, continue, ◌>>=◌,
  commit, begun, transaction,
}

-- Whether the next message is answered without a fault.
abbrev pub is_fine : Reply → Bool
is_fine fine = true
is_fine (refused e) = false
is_fine (lost e) = false

abbrev pub answers : {F : Type 0} → Session F → Bool
answers s = is_fine (reply s.script)

module _ {ℓ κ} {F : Type 0} {A : Type ℓ} {B : Type κ} where
  continue-ok :
      (r : Result A × Session F) (f : A → Tx F B) {b : B} {s' : Session F}
      → continue r.0 f r.1 ≡ (ok b, s')
      → (a : A) × (t : Session F) × (r ≡ (ok a, t)) × (f a t ≡ (ok b, s'))
  continue-ok (ok a, t) f h = (a, t, refl, h)
  continue-ok (err e, t) f h = absurd (ground arith)

  -- A chain that succeeds has succeeded in its first step, and in the rest from there.
  pub >>=-ok :
      (m : Tx F A) (f : A → Tx F B) (s : Session F) {b : B} {s' : Session F}
      → (m >>= f) s ≡ (ok b, s')
      → (a : A) × (t : Session F) × (m s ≡ (ok a, t)) × (f a t ≡ (ok b, s'))
  >>=-ok m f s h = continue-ok (m s) f h

module _ {ℓ} {F : Type 0} {A : Type ℓ} where
  commit-cases :
      (y : Reply) (text : String) (before : Tables F) (a : A) (t : Session F)
      → ((commit y text before a t).1.tables ≡ before)
        ⊎ ((commit y text before a t).1.tables ≡ t.tables)
  commit-cases fine text before a t = inr refl
  commit-cases (refused c) text before a t = inl refl
  commit-cases (lost c) text before a t = inr refl

  begun-cases :
      (x : Reply) (begin_text commit_text : String) (body : Tx F A) (s : Session F)
      (r : Result A × Session F)
      → body (record s { script = advance s.script }) ≡ r
      → ((begun x begin_text commit_text body s).1.tables ≡ s.tables)
        ⊎ ((a : A) × (t : Session F) × (r ≡ (ok a, t))
            × ((begun x begin_text commit_text body s).1.tables ≡ t.tables))
  begun-cases (refused c) begin_text commit_text body s r h = inl refl
  begun-cases (lost c) begin_text commit_text body s r h = inl refl
  begun-cases fine begin_text commit_text body s (err e, t) h = inl (rw h)
  begun-cases fine begin_text commit_text body s (ok a, t) h =
      elim (commit-cases (reply t.script) commit_text s.tables a t) [
        | inl undone ↦ inl (rw h undone)
        | inr done ↦ inr (a, t, refl, rw h done)
      ]

  -- Whatever the database answers, a transaction leaves the tables as they were, or as its body left
  -- them after its last statement.
  pub transaction-atomic :
      (begin_text commit_text : String) (body : Tx F A) (s : Session F)
      → ((transaction begin_text commit_text body s).1.tables ≡ s.tables)
        ⊎ ((a : A) × (t : Session F) × (body (record s { script = advance s.script }) ≡ (ok a, t))
            × ((transaction begin_text commit_text body s).1.tables ≡ t.tables))
  unfolding transaction
  transaction-atomic begin_text commit_text body s =
      begun-cases (reply s.script) begin_text commit_text body s _ refl

  begun-ok :
      (x : Reply) (begin_text commit_text : String) (body : Tx F A) (s s' : Session F) (a : A)
      (r : Result A × Session F)
      → body (record s { script = advance s.script }) ≡ r
      → begun x begin_text commit_text body s ≡ (ok a, s')
      → (t : Session F) × (r ≡ (ok a, t)) × (s'.tables ≡ t.tables)
  begun-ok (refused c) begin_text commit_text body s s' a r h k = absurd (ground arith)
  begun-ok (lost c) begin_text commit_text body s s' a r h k = absurd (ground arith)
  begun-ok fine begin_text commit_text body s s' a (err e, t) h k = absurd (ground arith)
  begun-ok fine begin_text commit_text body s s' a (ok b, t) h k = (t, ground arith, ground arith)

  -- A transaction that returns no error has committed what its body did.
  pub transaction-ok :
      (begin_text commit_text : String) (body : Tx F A) (s s' : Session F) (a : A)
      → transaction begin_text commit_text body s ≡ (ok a, s')
      → (t : Session F) × (body (record s { script = advance s.script }) ≡ (ok a, t))
        × (s'.tables ≡ t.tables)
  unfolding transaction
  transaction-ok begin_text commit_text body s s' a h =
      begun-ok (reply s.script) begin_text commit_text body s s' a _ refl h

  pub is_ok-ok :
      (r : Result A × Session F) → is_ok r.0 ≡ true → (a : A) × (s : Session F) × (r ≡ (ok a, s))
  is_ok-ok (ok a, s) h = (a, s, refl)
  is_ok-ok (err e, s) h = cc
