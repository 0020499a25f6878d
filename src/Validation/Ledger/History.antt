-- ===== src/Validation/Ledger/History.antt =====
-- The ledger over a sequence of operations: minicodex/agent/validation/ledger.py, and the plans
-- that minicodex/agent/validation/pipeline.py puts into it.
use mini_codex.Common.{
  ℕ, ◌+◌, ◌≤◌, ◌≡◌, refl, String, Bool, true, false, List, [], ◌∷◌, ◌++◌, ◌⊎◌, inl, inr, arith,
  Text, length, length-append, Bool-cases, if◌then◌else◌,
}
use mini_codex.Validation.Evidence.{ValidationEvidence, is_executed, post_init}
use mini_codex.Validation.Plan.{ValidationPlan}
use mini_codex.Validation.Ledger.{
  ValidationLedger, reset, record_edit, mark_blocked, observe_execution, bound_check, bind,
  appended, record_executed, record_evidence,
}

-- One call on the ledger; `replan` is the assignment of a new plan.
pub data LedgerStep : Type 0 where
  edit : Bool → LedgerStep
  validate : ValidationEvidence → LedgerStep
  block : Text → String → LedgerStep
  replan : ValidationPlan → LedgerStep
  restart : LedgerStep

unfoldable pub ledger_step : LedgerStep → ValidationLedger → ValidationLedger
ledger_step (edit owned) l = record_edit owned l
ledger_step (validate e) l = (record_evidence e l).0
ledger_step (block id reason) l = mark_blocked id reason l
ledger_step (replan plan) l = record l { plan = plan }
ledger_step restart l = reset l

unfoldable pub ledger_run : List LedgerStep → ValidationLedger → ValidationLedger
ledger_run [] l = l
ledger_run (s ∷ ss) l = ledger_run ss (ledger_step s l)

-- Evidence bound to a check is of no later revision than the ledger.
abbrev pub IsPast : ℕ → List ValidationEvidence → Type 0
IsPast revision [] = Unit
IsPast revision (e ∷ es) = ((e.check_id ≡ []) ⊎ (e.edit_revision ≤ revision)) × IsPast revision es

-- Besides, the counter counts the history.
pub record IsWellFormed (l : ValidationLedger) : Type 0 where
  pub past : IsPast l.edit_revision l.evidence_history
  pub counted : l.evidence_sequence ≡ length l.evidence_history

IsPast-mono : (m n : ℕ) (es : List ValidationEvidence) → m ≤ n → IsPast m es → IsPast n es
IsPast-mono m n [] h p = tt
IsPast-mono m n (e ∷ es) h (inl unbound, ps) = (inl unbound, IsPast-mono m n es h ps)
IsPast-mono m n (e ∷ es) h (inr le, ps) = (inr (omega arith), IsPast-mono m n es h ps)

IsPast-append :
    (n : ℕ) (es : List ValidationEvidence) (e : ValidationEvidence)
    → IsPast n es
    → (e.check_id ≡ []) ⊎ (e.edit_revision ≤ n)
    → IsPast n (es ++ e ∷ [])
IsPast-append n [] e p h = (h, tt)
IsPast-append n (i ∷ es) e p h = (p.0, IsPast-append n es e p.1 h)

-- What `record` appends is unbound or of the current revision.
appended_past :
    (e : ValidationEvidence) (l : ValidationLedger)
    → ((appended e l).check_id ≡ []) ⊎ ((appended e l).edit_revision ≤ l.edit_revision)
unfolding appended bind bound_check post_init
appended_past e l = ground arith

-- `record` leaves the revision and the plan alone, and adds to the history or leaves it.
module _ (e : ValidationEvidence) (l : ValidationLedger) where
  pub revision-record_evidence : (record_evidence e l).0.edit_revision ≡ l.edit_revision
  unfolding record_evidence record_executed observe_execution
  revision-record_evidence = ground arith

  pub plan-record_evidence : (record_evidence e l).0.plan ≡ l.plan
  unfolding record_evidence record_executed observe_execution
  plan-record_evidence = ground arith

  pub history-record_executed :
      is_executed e.execution_status ≡ true
      → (record_evidence e l).0.evidence_history ≡ l.evidence_history ++ appended e l ∷ []
  unfolding record_evidence record_executed
  history-record_executed h = rw h

  pub history-record_observed :
      is_executed e.execution_status ≡ false
      → (record_evidence e l).0.evidence_history ≡ l.evidence_history
  unfolding record_evidence observe_execution
  history-record_observed h = rw h

  sequence-record_evidence :
      (record_evidence e l).0.evidence_sequence
      ≡ (if is_executed e.execution_status then l.evidence_sequence + 1 else l.evidence_sequence)
  unfolding record_evidence record_executed observe_execution
  sequence-record_evidence = ground arith

record_evidence-IsWellFormed :
    (e : ValidationEvidence) (l : ValidationLedger)
    → IsWellFormed l
    → IsWellFormed (record_evidence e l).0
record_evidence-IsWellFormed e l w = elim (Bool-cases (is_executed e.execution_status)) [
  | inl ran ↦ record {
    past =
        rw (revision-record_evidence e l, history-record_executed e l ran)
          (IsPast-append l.edit_revision l.evidence_history (appended e l) w.past
            (appended_past e l));
    counted =
        rw (sequence-record_evidence e l, history-record_executed e l ran, ran)
          (omega (arith, w.counted, length-append l.evidence_history (appended e l ∷ [])));
  }
  | inr not_run ↦ record {
    past = rw (revision-record_evidence e l, history-record_observed e l not_run) w.past;
    counted =
        rw (sequence-record_evidence e l, history-record_observed e l not_run, not_run) w.counted;
  }
]

ledger_step-IsWellFormed :
    (s : LedgerStep) (l : ValidationLedger) → IsWellFormed l → IsWellFormed (ledger_step s l)
unfolding ledger_step record_edit mark_blocked reset
ledger_step-IsWellFormed (edit owned) l w = record {
  past = IsPast-mono l.edit_revision (l.edit_revision + 1) l.evidence_history (omega arith) w.past;
  counted = w.counted;
}
ledger_step-IsWellFormed (validate e) l w = record_evidence-IsWellFormed e l w
ledger_step-IsWellFormed (block id reason) l w = record { past = w.past; counted = w.counted }
ledger_step-IsWellFormed (replan plan) l w = record { past = w.past; counted = w.counted }
ledger_step-IsWellFormed restart l w = record { past = tt; counted = refl }

-- Every sequence of calls keeps a ledger well formed: evidence bound to a check is never of a
-- later revision than the ledger, and `evidence_sequence` is the length of the history.
pub ledger_run-IsWellFormed :
    (ss : List LedgerStep) (l : ValidationLedger) → IsWellFormed l → IsWellFormed (ledger_run ss l)
unfolding ledger_run
ledger_run-IsWellFormed [] l w = w
ledger_run-IsWellFormed (s ∷ ss) l w =
    ledger_run-IsWellFormed ss (ledger_step s l) (ledger_step-IsWellFormed s l w)
