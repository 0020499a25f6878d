-- ===== src/Validation/Ledger/Runs.antt =====
-- What one validator run does to the proofs of the ledger (minicodex/agent/validation/ledger.py): a
-- failure that sticks, and a first pass that proves.
use mathlib.Core.List.{Memᴰ}
use mini_codex.Common.{
  ◌≤◌, ◌≡◌, refl, sym, ◌∙◌, true, false, none, some, List, [], ◌∷◌, inl, inr, arith, Text,
  same_refl, keep, All, Bool-cases,
}
use mini_codex.Common.Searches.{mem_append_left, mem_append_last, keep-append, subset_refl}
use mini_codex.Validation.Evidence.{
  ValidationEvidence, passed, failed, executed, is_executed, is_decisive, post_init,
}
use mini_codex.Validation.Plan.{ValidationCheck, strength_value}
use mini_codex.Validation.Ledger.{
  ValidationLedger, mark_blocked, check_with_id, bound_check, bind, is_comparable, is_unstable,
  appended, record_evidence, decisive_for, meets, proof_among, proof,
}
use mini_codex.Validation.Ledger.Proofs.{proof-of_failure, selects}
use mini_codex.Validation.Ledger.History.{
  LedgerStep, edit, validate, block, replan, restart, ledger_step, ledger_run,
  revision-record_evidence, plan-record_evidence, history-record_executed, history-record_observed,
}

-- The history holds a failed run of the check at the current revision.
record Fails (id : Text) (l : ValidationLedger) : Type 0 where
  run : ValidationEvidence
  in_history : Memᴰ run l.evidence_history
  current : run.edit_revision ≡ l.edit_revision
  own_check : run.check_id ≡ id
  ran : run.execution_status ≡ executed
  failure : run.outcome ≡ failed

-- Neither an edit nor a new ledger.
abbrev pub KeepsRevision : LedgerStep → Type 0
KeepsRevision (edit owned) = ⊥
KeepsRevision restart = ⊥
KeepsRevision _ = Unit

mem-record_evidence :
    (i e : ValidationEvidence) (l : ValidationLedger)
    → Memᴰ i l.evidence_history
    → Memᴰ i (record_evidence e l).0.evidence_history
mem-record_evidence i e l m = elim (Bool-cases (is_executed e.execution_status)) [
  | inl ran ↦
      rw (history-record_executed e l ran)
        (mem_append_left i l.evidence_history (appended e l ∷ []) m)
  | inr not_run ↦ rw (history-record_observed e l not_run) m
]

Fails-ledger_step :
    (id : Text) (s : LedgerStep) (l : ValidationLedger)
    → KeepsRevision s
    → Fails id l
    → Fails id (ledger_step s l)
unfolding ledger_step mark_blocked
Fails-ledger_step id (edit owned) l k f = absurd k
Fails-ledger_step id (validate e) l k f = record {
  run = f.run;
  in_history = mem-record_evidence f.run e l f.in_history;
  current = f.current ∙ sym (revision-record_evidence e l);
  own_check = f.own_check;
  ran = f.ran;
  failure = f.failure;
}
Fails-ledger_step id (block c reason) l k f = record {
  run = f.run;
  in_history = f.in_history;
  current = f.current;
  own_check = f.own_check;
  ran = f.ran;
  failure = f.failure;
}
Fails-ledger_step id (replan plan) l k f = record {
  run = f.run;
  in_history = f.in_history;
  current = f.current;
  own_check = f.own_check;
  ran = f.ran;
  failure = f.failure;
}
Fails-ledger_step id restart l k f = absurd k

proof_of_Fails :
    (id : Text) (ss : List LedgerStep) (l : ValidationLedger)
    → All KeepsRevision ss
    → Fails id l
    → proof id (ledger_run ss l) ≡ none
unfolding ledger_run
proof_of_Fails id [] l k f =
    proof-of_failure id l f.run f.in_history f.current f.own_check f.ran f.failure
proof_of_Fails id (s ∷ ss) l k f =
    proof_of_Fails id ss (ledger_step s l) k.1 (Fails-ledger_step id s l k.0 f)

-- A run that is bound to a planned check of the current revision.
pub record IsBound (e : ValidationEvidence) (l : ValidationLedger) (c : ValidationCheck)
    : Type 0 where
  pub planned : check_with_id e.check_id l ≡ some c
  pub current : e.edit_revision ≡ l.edit_revision
  pub succeeded : e.execution_succeeded ≡ true
  pub ran : e.execution_status ≡ executed

bound_check_of_IsBound :
    (e : ValidationEvidence) (l : ValidationLedger) (c : ValidationCheck)
    → IsBound e l c
    → bound_check e l ≡ some c
unfolding bound_check
bound_check_of_IsBound e l c b = ground arith

proof_of_single :
    (id : Text) (l : ValidationLedger) (c : ValidationCheck) (e : ValidationEvidence)
    → check_with_id id l ≡ some c
    → c.revision ≡ l.edit_revision
    → decisive_for id l ≡ e ∷ []
    → e.unstable ≡ false
    → e.outcome ≡ passed
    → meets c e ≡ true
    → proof id l ≡ some e
unfolding proof proof_among
proof_of_single id l c e planned current single stable pass met = ground arith

module _ (e : ValidationEvidence) (l : ValidationLedger) (c : ValidationCheck)
    (b : IsBound e l c) where
  bind_of_IsBound : bind (bound_check e l) e ≡ record e { requirement_ids = c.requirement_ids }
  unfolding bind post_init
  bind_of_IsBound = rw (bound_check_of_IsBound e l c b, b.succeeded)

  -- The evidence that is appended: the run, with the requirements of its check.
  appended_of_IsBound : appended e l ≡ record e {
    requirement_ids = c.requirement_ids;
    unstable =
        is_unstable
          (record e { requirement_ids = c.requirement_ids })
          (keep
            (is_comparable (record e { requirement_ids = c.requirement_ids }))
            l.evidence_history);
  }
  unfolding appended post_init
  appended_of_IsBound = rw (bind_of_IsBound, b.succeeded)

  Fails-appended : e.outcome ≡ failed → Fails e.check_id (record_evidence e l).0
  Fails-appended bad = record {
    run = appended e l;
    in_history =
        rw (history-record_executed e l (ground (arith, b.ran)))
          (mem_append_last (appended e l) l.evidence_history);
    current = rw (appended_of_IsBound, revision-record_evidence e l) b.current;
    own_check = rw appended_of_IsBound;
    ran = rw appended_of_IsBound b.ran;
    failure = rw appended_of_IsBound bad;
  }

  -- Once a run that is bound to a check of the current revision has failed, the check stays
  -- unproven through any further calls on the ledger, passing runs and new plans included, as long
  -- as none of them is an edit or a new ledger.
  pub failed_run_sticks :
      (ss : List LedgerStep)
      → e.outcome ≡ failed
      → All KeepsRevision ss
      → proof e.check_id (ledger_run ss (ledger_step (validate e) l)) ≡ none
  unfolding ledger_step
  failed_run_sticks ss bad k =
      proof_of_Fails e.check_id ss (record_evidence e l).0 k (Fails-appended bad)

  -- Evidence that is comparable to the run is decisive evidence for its check.
  comparable_decisive :
      (es : List ValidationEvidence)
      → keep (selects e.check_id l) es ≡ []
      → keep (is_comparable (record e { requirement_ids = c.requirement_ids })) es ≡ []
  unfolding is_comparable
  comparable_decisive [] h = refl
  comparable_decisive (i ∷ es) h = ground (arith, b.current, comparable_decisive es)

  unstable-appended : decisive_for e.check_id l ≡ [] → (appended e l).unstable ≡ false
  unfolding decisive_for is_unstable
  unstable-appended h =
      rw (appended_of_IsBound, comparable_decisive l.evidence_history h) (ground arith)

  selects-appended : is_decisive e.outcome ≡ true → selects e.check_id l (appended e l) ≡ true
  selects-appended d =
      rw appended_of_IsBound (ground (arith, b.current, b.ran, same_refl e.check_id))

  planned-record_evidence : check_with_id e.check_id (record_evidence e l).0 ≡ some c
  unfolding check_with_id
  planned-record_evidence = rw (plan-record_evidence e l) b.planned

  decisive_for-first :
      is_decisive e.outcome ≡ true
      → decisive_for e.check_id l ≡ []
      → decisive_for e.check_id (record_evidence e l).0 ≡ appended e l ∷ []
  unfolding decisive_for
  decisive_for-first d h =
      let past : keep (selects e.check_id l) l.evidence_history ≡ [] = h in
      rw
        (
          revision-record_evidence e l,
          history-record_executed e l (ground (arith, b.ran)),
          keep-append (selects e.check_id l) l.evidence_history (appended e l ∷ []),
          past,
        )
        (rw (selects-appended d))

  meets-appended :
      strength_value c.strength ≤ e.strength
      → e.purpose ≡ c.purpose
      → e.agent_test_only ≡ false
      → meets c (appended e l) ≡ true
  unfolding meets
  meets-appended strong purpose independent =
      rw appended_of_IsBound (ground (arith, subset_refl c.requirement_ids))

  -- The first decisive run of a check at the current revision proves the check, if it passes, is
  -- as strong as the check wants, for its purpose, and is not only of the agent's own tests.
  pub first_pass_proves :
      c.revision ≡ l.edit_revision
      → decisive_for e.check_id l ≡ []
      → e.outcome ≡ passed
      → strength_value c.strength ≤ e.strength
      → e.purpose ≡ c.purpose
      → e.agent_test_only ≡ false
      → proof e.check_id (ledger_step (validate e) l) ≡ some (appended e l)
  unfolding ledger_step
  first_pass_proves current first pass strong purpose independent =
      proof_of_single e.check_id (record_evidence e l).0 c (appended e l) planned-record_evidence
        (rw (revision-record_evidence e l) current) (decisive_for-first (ground arith) first)
        (unstable-appended first) (rw appended_of_IsBound pass)
        (meets-appended strong purpose independent)
