-- ===== src/Postgres.antt =====
-- pkg/postgres/tx.go: WithTx, over a pool whose transactions are parameters. A panic is a value of
-- the model, which WithTx catches and raises again.
pub mod Db
pub mod Connections
pub mod Component
pub mod Migrate
pub mod Tracer
mod Tests
use goplatform.Prelude.{
  ◌≡◌, refl, ap, ◌∙◌, Bool, true, false, Option, none, some, List, [], ◌∷◌, inl, inr, ◌⊎◌,
  Option-cases, String, ◌||◌, arith,
}
use goplatform.Errors.{Error, Errors, nil, cons, sentinel, errorf, wrap, is}

unfoldable pub err_conn_failed : Error
err_conn_failed = sentinel "postgres: connection failed"

unfoldable pub err_tx_rollback : Error
err_tx_rollback = sentinel "postgres: transaction rolled back"

-- `pgx.TxOptions`, of which the source sets these two fields.
pub record TxOptions : Type 0 where
  pub iso_level : Option String
  pub read_only : Bool

abbrev pub TxOption : Type 0
TxOption = TxOptions → TxOptions

unfoldable pub with_isolation : String → TxOption
with_isolation level o = record o { iso_level = some level }

unfoldable pub with_read_only : TxOption
with_read_only o = record o { read_only = true }

-- What a function call comes to.
pub data Outcome (P : Type 0) : Type 0 where
  returned : Option Error → Outcome P
  panicked : P → Outcome P

-- The pool and its transactions.
pub record Pool (W Tx P : Type 0) : Type 0 where
  pub begin_tx : TxOptions → W → W × (Tx ⊎ Error)
  pub commit : Tx → W → W × Option Error
  pub rollback : Tx → W → W × Option Error

-- A call of pgx, with what came back.
pub data Call : Type 0 where
  begin : Option Error → Call
  fn_called : Call
  committed : Option Error → Call
  rolled_back : Option Error → Call

unfoldable pub apply_options : List TxOption → TxOptions → TxOptions
apply_options [] o = o
apply_options (opt ∷ opts) o = apply_options opts (opt o)

module _ {W Tx P : Type 0} (pool : Pool W Tx P) where
  -- The deferred function where `err` is not nil.
  unfoldable pub undo : Tx → Error → W → W × List Call × Outcome P
  unfolding err_tx_rollback
  undo tx err w =
      let (w', rb_err) = pool.rollback tx w in
      elim rb_err [
        | none ↦ (
          w',
          rolled_back none ∷ [],
          returned (some (errorf "postgres: %w: %w" [] (cons err_tx_rollback (cons err nil)) nil)),
        )
        | some rb ↦ (
          w',
          rolled_back (some rb) ∷ [],
          returned (
              some (
                errorf "postgres: rollback failed (%w) after: %w" []
                  (cons rb (cons err_tx_rollback nil)) nil)),
        )
      ]

  -- After `fn(tx)`.
  unfoldable pub conclude : Tx → Outcome P → W → W × List Call × Outcome P
  unfolding undo
  conclude tx (panicked p) w =
      let (w', rb_err) = pool.rollback tx w in (w', rolled_back rb_err ∷ [], panicked p)
  conclude tx (returned (some err)) w = undo tx err w
  conclude tx (returned none) w =
      let (w1, commit_err) = pool.commit tx w in
      elim commit_err [
        | none ↦ (w1, committed none ∷ [], returned none)
        | some e ↦
            let (w2, calls, result) = undo tx (wrap "postgres: commit transaction: %w" [] e) w1 in
            (w2, committed (some e) ∷ calls, result)
      ]

  -- After `pool.BeginTx`.
  abbrev pub with_begun : (Tx → W → W × Outcome P) → Tx ⊎ Error → W → W × List Call × Outcome P
  with_begun fn (inr e) w =
      (w, begin (some e) ∷ [], returned (some (wrap "postgres: begin transaction: %w" [] e)))
  with_begun fn (inl tx) w =
      let (w2, outcome) = fn tx w in
      let (w3, calls, result) = conclude tx outcome w2 in
      (w3, begin none ∷ fn_called ∷ calls, result)

abbrev pub tx_options : List TxOption → TxOptions
tx_options opts = apply_options opts (record { iso_level = none; read_only = false })

-- `pool` is db.pool.
unfoldable pub with_tx :
    {W Tx P : Type 0}
    → Option (Pool W Tx P)
    → (Tx → W → W × Outcome P)
    → List TxOption
    → W
    → W × List Call × Outcome P
unfolding err_conn_failed
with_tx none fn opts w =
    (w, [], returned (some (wrap "postgres: not connected: %w" [] err_conn_failed)))
with_tx (some pool) fn opts w =
    let (w1, begun) = pool.begin_tx (tx_options opts) w in with_begun pool fn begun w1

-- In which errors of a failed transaction `errors.Is` looks: ErrTxRollback, and the cause if the
-- rollback went through, else the rollback's error in its place.
unfoldable pub found : String → Error → Option Error → Bool
unfolding err_tx_rollback
found s cause none = is s err_tx_rollback || is s cause
found s cause (some rb) = is s err_tx_rollback || is s rb

-- The ways a transaction goes: the calls made and the outcome.
pub data Transaction {P : Type 0} (fn_outcome : Option (Outcome P)) (calls : List Call)
    (result : Outcome P) : Type 0 where
  not_begun :
      (e : Error)
      → fn_outcome ≡ none
      → calls ≡ begin (some e) ∷ []
      → result ≡ returned (some (wrap "postgres: begin transaction: %w" [] e))
      → Transaction fn_outcome calls result
  done :
      fn_outcome ≡ some (returned none)
      → calls ≡ begin none ∷ fn_called ∷ committed none ∷ []
      → result ≡ returned none
      → Transaction fn_outcome calls result
  fn_failed :
      (err report : Error) (rb : Option Error)
      → fn_outcome ≡ some (returned (some err))
      → calls ≡ begin none ∷ fn_called ∷ rolled_back rb ∷ []
      → result ≡ returned (some report)
      → ((s : String) → is s report ≡ found s err rb)
      → Transaction fn_outcome calls result
  commit_failed :
      (err report : Error) (rb : Option Error)
      → fn_outcome ≡ some (returned none)
      → calls ≡ begin none ∷ fn_called ∷ committed (some err) ∷ rolled_back rb ∷ []
      → result ≡ returned (some report)
      → ((s : String) → is s report ≡ found s err rb)
      → Transaction fn_outcome calls result
  raised :
      (p : P) (rb : Option Error)
      → fn_outcome ≡ some (panicked p)
      → calls ≡ begin none ∷ fn_called ∷ rolled_back rb ∷ []
      → result ≡ panicked p
      → Transaction fn_outcome calls result

-- `undo` reports what `found` says.
record Undone {P : Type 0} (err : Error) (calls : List Call) (result : Outcome P) : Type 0 where
  rb : Option Error
  report : Error
  made : calls ≡ rolled_back rb ∷ []
  reported : result ≡ returned (some report)
  looked_up : (s : String) → is s report ≡ found s err rb

undo-Undone :
    {W Tx P : Type 0} (pool : Pool W Tx P) (tx : Tx) (err : Error) (w : W)
    → let r = undo pool tx err w in Undone err r.1 r.2
unfolding undo found err_tx_rollback is
undo-Undone pool tx err w = elim (Option-cases (pool.rollback tx w).1) [
  | inl fine ↦
      rw (fine, undo)
        (record {
          rb = none;
          report = _;
          made = refl;
          reported = refl;
          looked_up = λ s. ground arith;
        })
  | inr (rb, failed) ↦
      rw (failed, undo)
        (record {
          rb = some rb;
          report = _;
          made = refl;
          reported = refl;
          looked_up = λ s. ground arith;
        })
]

-- `errors.Is` looks through a wrapping.
found-wrap :
    (s format : String) (e : Error) (rb : Option Error)
    → found s (wrap format [] e) rb ≡ found s e rb
unfolding found is
found-wrap s format e none = ground arith
found-wrap s format e (some rb) = refl

conclude-Transaction :
    {W Tx P : Type 0} (pool : Pool W Tx P) (tx : Tx) (outcome : Outcome P) (w : W)
    → let r = conclude pool tx outcome w in
      Transaction (some outcome) (begin none ∷ fn_called ∷ r.1) r.2
unfolding conclude
conclude-Transaction pool tx (panicked p) w = raised p _ refl refl refl
conclude-Transaction pool tx (returned (some err)) w =
    let u = undo-Undone pool tx err w in
    fn_failed err u.report u.rb refl (ap (λ x. begin none ∷ fn_called ∷ x) u.made) u.reported
      u.looked_up
conclude-Transaction pool tx (returned none) w = elim (Option-cases (pool.commit tx w).1) [
  | inl fine ↦ rw (fine, conclude) (done refl refl refl)
  | inr (e, failed) ↦
      let err = wrap "postgres: commit transaction: %w" [] e in
      let u = undo-Undone pool tx err (pool.commit tx w).0 in
      rw (failed, conclude)
        (commit_failed e u.report u.rb refl
          (ap (λ x. begin none ∷ fn_called ∷ committed (some e) ∷ x) u.made) u.reported
          (λ s. u.looked_up s ∙ found-wrap s _ e u.rb))
]

-- What fn comes to, where it is called.
abbrev pub outcome_of :
    {W Tx P : Type 0} → (Tx → W → W × Outcome P) → Tx ⊎ Error → W → Option (Outcome P)
outcome_of fn (inl tx) w = some (fn tx w).1
outcome_of fn (inr e) w = none

with_begun-Transaction :
    {W Tx P : Type 0} (pool : Pool W Tx P) (fn : Tx → W → W × Outcome P) (begun : Tx ⊎ Error)
    (w : W)
    → let r = with_begun pool fn begun w in Transaction (outcome_of fn begun w) r.1 r.2
with_begun-Transaction pool fn (inr e) w = not_begun e refl refl refl
with_begun-Transaction pool fn (inl tx) w = conclude-Transaction pool tx (fn tx w).1 (fn tx w).0

-- With a pool, WithTx goes one of five ways. The transaction does not begin, and fn is not called;
-- fn returns nil and the commit succeeds, and only then WithTx returns nil; fn returns an error, or
-- the commit fails, and there is one rollback and an error in which errors.Is finds ErrTxRollback,
-- and the cause if the rollback went through; or fn panics, and there is one rollback and the same
-- panic. A commit and a rollback both happen only if the commit failed.
pub with_tx_settles :
    {W Tx P : Type 0} (pool : Pool W Tx P) (fn : Tx → W → W × Outcome P) (opts : List TxOption)
    (w : W)
    → let begun = pool.begin_tx (tx_options opts) w in
      let r = with_tx (some pool) fn opts w in Transaction (outcome_of fn begun.1 begun.0) r.1 r.2
unfolding with_tx
with_tx_settles pool fn opts w =
    let begun = pool.begin_tx (tx_options opts) w in with_begun-Transaction pool fn begun.1 begun.0
