-- ===== src/Validation/Ledger/Proofs.antt =====
-- What `ValidationLedger.proof` (minicodex/agent/validation/ledger.py) stands on.
use mathlib.Core.List.{Memᴰ}
use mini_codex.Common.{
  ◌≤◌, ◌≡◌, Bool, true, false, ◌&&◌, none, some, List, inl, inr, arith, ◌==◌, Text, same, same_iff,
  any, all, last?, Option-cases,
}
use mini_codex.Common.Searches.{mem_of_keep, mem_keep, all_mem, any_mem, mem_last?}
use mini_codex.Validation.Evidence.{
  ValidationEvidence, passed, failed, executed, is_executed, is_passed, is_decisive,
}
use mini_codex.Validation.Plan.{ValidationCheck, strength_value}
use mini_codex.Validation.Ledger.{
  ValidationLedger, check_with_id, decisive_for, meets, proof_among, proof,
}

-- What a proof of the check `id` is: evidence of the ledger at its current revision, from a
-- validator that ran, passed, is stable, did not only run the agent's own tests, and is as strong
-- as the check wants, for its purpose and for every requirement of it.
pub record Proves (l : ValidationLedger) (id : Text) (c : ValidationCheck) (e : ValidationEvidence)
    : Type 0 where
  pub planned : check_with_id id l ≡ some c
  pub current_check : c.revision ≡ l.edit_revision
  pub in_history : Memᴰ e l.evidence_history
  pub current : e.edit_revision ≡ l.edit_revision
  pub own_check : e.check_id ≡ id
  pub ran : e.execution_status ≡ executed
  pub success : e.outcome ≡ passed
  pub stable : e.unstable ≡ false
  pub strong : strength_value c.strength ≤ e.strength
  pub same_purpose : e.purpose ≡ c.purpose
  pub independent : e.agent_test_only ≡ false
  pub covers : all (λ r. any (same r) e.requirement_ids) c.requirement_ids ≡ true

-- The tests that `proof` makes on the decisive evidence, all of them passed.
record Accepted (c : ValidationCheck) (ds : List ValidationEvidence) (e : ValidationEvidence)
    : Type 0 where
  none_unstable : any (λ i. i.unstable) ds ≡ false
  all_passed : all (λ i. is_passed i.outcome) ds ≡ true
  latest : last? ds ≡ some e
  met : meets c e ≡ true

Accepted-proof_among :
    (c : ValidationCheck) (ds : List ValidationEvidence) (e : ValidationEvidence)
    → proof_among c ds ≡ some e
    → Accepted c ds e
unfolding proof_among
Accepted-proof_among c ds e h = ground arith

proof-inversion :
    (id : Text) (l : ValidationLedger) (e : ValidationEvidence)
    → proof id l ≡ some e
    → (c : ValidationCheck) × (check_with_id id l ≡ some c)
      × (c.revision ≡ l.edit_revision)
      × Accepted c (decisive_for id l) e
unfolding proof
proof-inversion id l e h = elim (Option-cases (check_with_id id l)) [
  | inl no_check ↦ absurd (ground arith)
  | inr (c, found) ↦
      (c, found, ground arith, Accepted-proof_among c (decisive_for id l) e (ground arith))
]

-- The test by which `decisive_for` selects.
abbrev pub selects : Text → ValidationLedger → ValidationEvidence → Bool
selects id l i =
    i.edit_revision == l.edit_revision
    && (same i.check_id id && (is_executed i.execution_status && is_decisive i.outcome))

mem_of_decisive_for :
    (id : Text) (l : ValidationLedger) (e : ValidationEvidence)
    → Memᴰ e (decisive_for id l)
    → Memᴰ e l.evidence_history × (selects id l e ≡ true)
unfolding decisive_for
mem_of_decisive_for id l e m = mem_of_keep (selects id l) e l.evidence_history m

pub mem_decisive_for :
    (id : Text) (l : ValidationLedger) (e : ValidationEvidence)
    → Memᴰ e l.evidence_history
    → selects id l e ≡ true
    → Memᴰ e (decisive_for id l)
unfolding decisive_for
mem_decisive_for id l e m h = mem_keep (selects id l) e l.evidence_history m h

module _ (id : Text) (l : ValidationLedger) (c : ValidationCheck) (e : ValidationEvidence) where
  Proves-selects :
      check_with_id id l ≡ some c
      → c.revision ≡ l.edit_revision
      → Memᴰ e l.evidence_history
      → selects id l e ≡ true
      → is_passed e.outcome ≡ true
      → e.unstable ≡ false
      → meets c e ≡ true
      → Proves l id c e
  unfolding meets
  Proves-selects found current m sel pass stable met = record {
    planned = found;
    current_check = current;
    in_history = m;
    current = ground arith;
    own_check = ground (arith, same_iff e.check_id id);
    ran = ground arith;
    success = ground arith;
    stable = stable;
    strong = ground arith;
    same_purpose = ground arith;
    independent = ground arith;
    covers = ground arith;
  }

  Proves-Accepted :
      check_with_id id l ≡ some c
      → c.revision ≡ l.edit_revision
      → Accepted c (decisive_for id l) e
      → Proves l id c e
  Proves-Accepted found current a =
      let m : Memᴰ e (decisive_for id l) = mem_last? e (decisive_for id l) a.latest in
      let r = mem_of_decisive_for id l e m in
      Proves-selects found current r.0 r.1
        (all_mem (λ i. is_passed i.outcome) e (decisive_for id l) a.all_passed m)
        (any_mem (λ i. i.unstable) e (decisive_for id l) a.none_unstable m) a.met

-- Whatever `proof` returns for a check proves it: the check is planned at the current edit
-- revision, and the evidence is in the history, of that revision and that check, from a validator
-- that ran and passed, stable, not from the agent's own tests alone, as strong as the check wants,
-- for its purpose and for all of its requirements.
pub proof-Proves :
    (id : Text) (l : ValidationLedger) (e : ValidationEvidence)
    → proof id l ≡ some e
    → (c : ValidationCheck) × Proves l id c e
proof-Proves id l e h =
    let (c, found, current, a) = proof-inversion id l e h in
    (c, Proves-Accepted id l c e found current a)

-- While the history holds a failed run of the check at the current revision, from a validator that
-- ran, `proof` returns nothing for the check, whatever else the history holds.
pub proof-of_failure :
    (id : Text) (l : ValidationLedger) (i : ValidationEvidence)
    → Memᴰ i l.evidence_history
    → i.edit_revision ≡ l.edit_revision
    → i.check_id ≡ id
    → i.execution_status ≡ executed
    → i.outcome ≡ failed
    → proof id l ≡ none
proof-of_failure id l i m rev own ran bad = elim (Option-cases (proof id l)) [
  | inl nothing ↦ nothing
  | inr (e, h) ↦
      let (c, found, current, a) = proof-inversion id l e h in
      let inside : Memᴰ i (decisive_for id l) =
        mem_decisive_for id l i m (ground (arith, same_iff i.check_id id)) in
      let pass : is_passed i.outcome ≡ true =
        all_mem (λ k. is_passed k.outcome) i (decisive_for id l) a.all_passed inside in
      absurd (ground arith)
]
