-- ===== src/Memory/Bounded.antt =====
-- The working memory (minicodex/agent/memory/working_memory.py) stays within its limit.
use mini_codex.Common.{
  ℕ, ◌+◌, ◌-◌, ◌≤◌, ◌≡◌, length, arith, Bool, true, false, ◌&&◌, inl, inr, Option, List, [], ◌∷◌,
  Text, codes, not, strip, is_empty, same, any, keep, map, Bool-cases, Option-cases, if◌then◌else◌,
}
use mini_codex.Common.Int.{ℤ}
use mini_codex.Memory.Entries.{Item}
use mini_codex.Memory.{
  Fact, searched, searched_symbol, WorkingMemory, Upsert, upsert, enforce_limit, reset, remove,
  new_memory, pop_all, is_validation, is_before, invalidate_path, invalidate_validation_before,
  normalize_text,
}
use mini_codex.Memory.Kept.{IsTidy, upsert-IsTidy, pop_all-IsTidy}
use mini_codex.Memory.Observe.{
  Arguments, ToolResult, path_of, is_risk, or_else, edit_tools, record_tool, record_failure,
  record_safety, record_tool_result, read_seen, edit_seen, tests_seen, web_seen, search_seen,
  package_seen, command_seen, status_seen, diff_seen, step_seen, replan_seen,
}

-- A tidy memory that was made for `n` entries.
record IsWithin (n : ℕ) (m : WorkingMemory) : Type 0 where
  tidy : IsTidy m
  limit : m.max_entries ≡ n

upsert-IsWithin :
    {n : ℕ} (u : Upsert) (m : WorkingMemory) → IsWithin n m → IsWithin n (upsert u m).1
unfolding upsert enforce_limit
upsert-IsWithin u m t = record { tidy = upsert-IsTidy u m t.tidy; limit = ground (arith, t.limit) }

pop_all-IsWithin :
    {n : ℕ} (ks : List Text) (m : WorkingMemory)
    → IsWithin n m
    → IsWithin n (record m { entries = pop_all ks m.entries })
pop_all-IsWithin ks m t = record { tidy = pop_all-IsTidy ks m t.tidy; limit = t.limit }

if-IsWithin :
    {n : ℕ} (b : Bool) (m m' : WorkingMemory)
    → IsWithin n m
    → IsWithin n m'
    → IsWithin n (if b then m else m')
if-IsWithin true m m' h k = h
if-IsWithin false m m' h k = k

invalidate_path-IsWithin :
    {n : ℕ} (path : Text) (m : WorkingMemory) → IsWithin n m → IsWithin n (invalidate_path path m).1
unfolding invalidate_path
invalidate_path-IsWithin path m t = elim (Bool-cases (is_empty (strip path))) [
  | inl k ↦ rw k t
  | inr k ↦ rw k (
      pop_all-IsWithin
        (map (λ (x : Item). x.0) (keep (λ (x : Item). same x.1.path (strip path)) m.entries)) m t)
]

module _ (digest : Text → Text) (name : Text) (a : Arguments) (r : ToolResult) where
  status_seen-IsWithin :
      {n : ℕ} (m : WorkingMemory) → IsWithin n m → IsWithin n (status_seen digest r m)
  unfolding status_seen
  status_seen-IsWithin m t = elim (Option-cases r.current) [
    | inl k ↦ rw (status_seen, k) t
    | inr (s, k) ↦ rw (status_seen, k) (upsert-IsWithin _ m t)
  ]

  search_seen-IsWithin :
      {n : ℕ} (prefix query : Text) (fact : Fact) (m : WorkingMemory)
      → IsWithin n m
      → IsWithin n (search_seen digest name prefix query fact m)
  unfolding search_seen
  search_seen-IsWithin prefix query fact m t =
      if-IsWithin (is_empty query) m _ t (upsert-IsWithin _ m t)

  read_seen-IsWithin :
      {n : ℕ} (path : Text) (revision : Option ℤ) (m : WorkingMemory)
      → IsWithin n m
      → IsWithin n (read_seen digest path r revision m)
  unfolding read_seen
  read_seen-IsWithin path revision m t = upsert-IsWithin _ m t

  edit_seen-IsWithin :
      {n : ℕ} (path : Text) (revision : Option ℤ) (m : WorkingMemory)
      → IsWithin n m
      → IsWithin n (edit_seen digest name path r revision m)
  unfolding edit_seen
  edit_seen-IsWithin path revision m t =
      upsert-IsWithin _ (invalidate_path path m).1 (invalidate_path-IsWithin path m t)

  validation_seen-IsWithin :
      {n : ℕ} (path : Text) (revision : Option ℤ) (m : WorkingMemory)
      → IsWithin n m
      → IsWithin n (tests_seen digest path a r revision m)
        × IsWithin n (web_seen digest path r revision m)
  unfolding tests_seen web_seen
  validation_seen-IsWithin path revision m t = (upsert-IsWithin _ m t, upsert-IsWithin _ m t)

  named_seen-IsWithin :
      {n : ℕ} (m : WorkingMemory)
      → IsWithin n m
      → IsWithin n (package_seen digest a r m) × IsWithin n (command_seen digest a r m)
  unfolding package_seen command_seen
  named_seen-IsWithin m t = (
    if-IsWithin (is_empty (normalize_text a.package_name)) m _ t (upsert-IsWithin _ m t),
    if-IsWithin (is_empty (normalize_text a.command)) m _ t (upsert-IsWithin _ m t),
  )

  rest_seen-IsWithin :
      {n : ℕ} (path : Text) (m : WorkingMemory)
      → IsWithin n m
      → IsWithin n (diff_seen digest path a m)
        × IsWithin n (step_seen digest r m)
        × IsWithin n (replan_seen digest r m)
  unfolding diff_seen step_seen replan_seen
  rest_seen-IsWithin path m t =
      (upsert-IsWithin _ m t, upsert-IsWithin _ m t, upsert-IsWithin _ m t)

  record_tool-IsWithin :
      {n : ℕ} (revision : Option ℤ) (m : WorkingMemory)
      → IsWithin n m
      → IsWithin n (record_tool digest name a r revision m)
  unfolding record_tool
  record_tool-IsWithin revision m t =
      let path = path_of a r in
      let named = r.success && not (is_empty path) in
      let is = λ (s : Text). same name s in
      let (tests, web) = validation_seen-IsWithin path revision m t in
      let (package_kept, command_kept) = named_seen-IsWithin m t in
      let (diff, step, replan) = rest_seen-IsWithin path m t in
      let search_code =
        search_seen-IsWithin (codes "search_code:") (normalize_text a.query)
          (searched (normalize_text a.query)) m t in
      let symbol = or_else (normalize_text a.query) (normalize_text a.name) in
      let search_symbol =
        search_seen-IsWithin (codes "search_symbol:") symbol (searched_symbol symbol) m t in
      if-IsWithin (is (codes "read_file") && named) _ _ (read_seen-IsWithin path revision m t) (
        if-IsWithin (is (codes "search_code") && r.success) _ _ search_code (
          if-IsWithin (is (codes "search_symbol") && r.success) _ _ search_symbol (
            if-IsWithin (any (same name) edit_tools && named) _ _
              (edit_seen-IsWithin path revision m t)
              (if-IsWithin (is (codes "validate_static_web")) _ _ web (
                if-IsWithin (is (codes "run_tests")) _ _ tests (
                  if-IsWithin (is (codes "install_python_package")) _ _ package_kept (
                    if-IsWithin (is (codes "run_command")) _ _ command_kept (
                      if-IsWithin (is (codes "git_status") && r.success) _ _
                        (status_seen-IsWithin m t)
                        (if-IsWithin (is (codes "git_diff") && r.success) _ _ diff (
                          if-IsWithin (is (codes "plan_step_completed") && r.completed) _ _ step (
                            if-IsWithin (is (codes "replan") && r.replanned) _ _ replan t)))))))))))

  record_failure-IsWithin :
      {n : ℕ} (m : WorkingMemory) → IsWithin n m → IsWithin n (record_failure digest name a r m)
  unfolding record_failure
  record_failure-IsWithin m t = if-IsWithin _ _ _ t (upsert-IsWithin _ m t)

  record_safety-IsWithin :
      {n : ℕ} (m : WorkingMemory) → IsWithin n m → IsWithin n (record_safety digest name a r m)
  unfolding record_safety
  record_safety-IsWithin m t = elim (Option-cases r.safety) [
    | inl k ↦ rw (record_safety, k) t
    | inr (s, k) ↦
        rw (record_safety, k)
          (if-IsWithin (is_risk (normalize_text s.level)) _ m (upsert-IsWithin _ m t) t)
  ]

  record_tool_result-IsWithin :
      {n : ℕ} (revision : Option ℤ) (m : WorkingMemory)
      → IsWithin n m
      → IsWithin n (record_tool_result digest name a r revision m)
  unfolding record_tool_result
  record_tool_result-IsWithin revision m t =
      record_safety-IsWithin _ (record_failure-IsWithin _ (record_tool-IsWithin revision m t))

-- A call of the memory.
pub data MemoryCall : Type 0 where
  record_result : Text → Arguments → ToolResult → Option ℤ → MemoryCall
  insert : Upsert → MemoryCall
  forget forget_path : Text → MemoryCall
  forget_validation : ℤ → MemoryCall
  restart : MemoryCall

unfoldable pub memory_call : (Text → Text) → MemoryCall → WorkingMemory → WorkingMemory
memory_call digest (record_result name a r revision) m =
    record_tool_result digest name a r revision m
memory_call digest (insert u) m = (upsert u m).1
memory_call digest (forget key) m = remove key m
memory_call digest (forget_path path) m = (invalidate_path path m).1
memory_call digest (forget_validation revision) m = (invalidate_validation_before revision m).1
memory_call digest restart m = reset m

unfoldable pub memory_run : (Text → Text) → List MemoryCall → WorkingMemory → WorkingMemory
memory_run digest [] m = m
memory_run digest (c ∷ cs) m = memory_run digest cs (memory_call digest c m)

reset-IsWithin : {n : ℕ} (m : WorkingMemory) → IsWithin n m → IsWithin n (reset m)
unfolding reset
reset-IsWithin m t = record {
  tidy = record {
    room = t.tidy.room;
    bounded = omega arith;
    own_key = λ x k. elim k [ ];
    given = λ x k. elim k [ ];
  };
  limit = t.limit;
}

memory_call-IsWithin :
    {n : ℕ} (digest : Text → Text) (c : MemoryCall) (m : WorkingMemory)
    → IsWithin n m
    → IsWithin n (memory_call digest c m)
unfolding memory_call remove invalidate_validation_before pop_all
memory_call-IsWithin digest (record_result name a r revision) m t =
    record_tool_result-IsWithin digest name a r revision m t
memory_call-IsWithin digest (insert u) m t = upsert-IsWithin u m t
memory_call-IsWithin digest (forget key) m t = pop_all-IsWithin (key ∷ []) m t
memory_call-IsWithin digest (forget_path path) m t = invalidate_path-IsWithin path m t
memory_call-IsWithin digest (forget_validation revision) m t =
    pop_all-IsWithin
      (map (λ (x : Item). x.0)
        (keep (λ (x : Item). is_validation x.1.kind && is_before x.1.revision revision) m.entries))
      m t
memory_call-IsWithin digest restart m t = reset-IsWithin m t

new_memory-IsWithin :
    (max_entries max_render_entries : ℕ)
    → IsWithin (1 + (max_entries - 1)) (new_memory max_entries max_render_entries)
unfolding new_memory
new_memory-IsWithin max_entries max_render_entries = record {
  tidy = record {
    room = ground arith;
    bounded = ground arith;
    own_key = λ x k. elim k [ ];
    given = λ x k. elim k [ ];
  };
  limit = ground arith;
}

memory_run-IsWithin :
    {n : ℕ} (digest : Text → Text) (cs : List MemoryCall) (m : WorkingMemory)
    → IsWithin n m
    → IsWithin n (memory_run digest cs m)
unfolding memory_run
memory_run-IsWithin digest [] m t = t
memory_run-IsWithin digest (c ∷ cs) m t =
    memory_run-IsWithin digest cs (memory_call digest c m) (memory_call-IsWithin digest c m t)

-- A new memory is tidy after any calls, and holds at most as many entries as it was made for, or one if
-- it was made for none; each entry stands under its own key, with a number that has been given out.
pub memory_run-new_memory :
    (digest : Text → Text) (cs : List MemoryCall) (max_entries max_render_entries : ℕ)
    → let m = memory_run digest cs (new_memory max_entries max_render_entries) in
      IsTidy m × (length m.entries ≤ 1 + (max_entries - 1))
memory_run-new_memory digest cs n k =
    let h = memory_run-IsWithin digest cs (new_memory n k) (new_memory-IsWithin n k) in
    (h.tidy, omega (arith, h.tidy.bounded, h.limit))
