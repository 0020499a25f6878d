-- ===== src/Memory/Fresh.antt =====
-- What is left of a file in the working memory after an edit (minicodex/agent/memory/working_memory.py).
use mathlib.Core.List.{Memᴰ}
use mini_codex.Common.{
  ℕ, ◌+◌, ◌-◌, ◌≤◌, ◌<◌, ◌≡◌, refl, Bool, true, false, ◌||◌, inl, inr, Option, none, some, [], ◌∷◌,
  map, arith, Text, codes, same, same_iff, same_refl, strip, is_empty, lstrip, keep, any, length,
  Bool-cases, Option-cases, if◌then◌else◌,
}
use mini_codex.Common.Int.{ℤ}
use mini_codex.Common.Searches.{mem_keep}
use mini_codex.Common.Strips.{strip-strip}
use mini_codex.Memory.{
  WorkingMemory, Upsert, upsert, enforce_limit, invalidate_path, normalize_text, is_blank, entry_of,
  with_new, sort_by_sequence, values, take,
}
use mini_codex.Memory.Entries.{Item, mem_pop_all, mem_assign, mem_map}
use mini_codex.Memory.Observe.{
  Arguments, ToolResult, edit_tools, or_else, path_of, is_risk, edit_seen, record_tool,
  record_failure, record_safety, record_tool_result,
}

-- Everything that is kept of a file is newer than a number, which has been given out.
pub record IsNewer (n : ℕ) (path : Text) (m : WorkingMemory) : Type 0 where
  pub given : n ≤ m.sequence
  pub newer : (x : Item) → Memᴰ x m.entries → x.1.path ≡ path → n < x.1.sequence

mem_enforce_limit :
    (x : Item) (m : WorkingMemory) → Memᴰ x (enforce_limit m).entries → Memᴰ x m.entries
unfolding enforce_limit
mem_enforce_limit x m k =
    let oldest = take (length m.entries - m.max_entries) (sort_by_sequence (values m.entries)) in
    (mem_pop_all (map (λ e. e.key) oldest) x m.entries k).0

upsert-IsNewer :
    (n : ℕ) (path : Text) (u : Upsert) (m : WorkingMemory)
    → IsNewer n path m
    → IsNewer n path (upsert u m).1
unfolding upsert
upsert-IsNewer n path u m h = elim (Bool-cases (is_empty (strip u.key) || is_blank u.value)) [
  | inl e ↦ rw e h
  | inr e ↦ rw e record {
    given = omega (arith, h.given);
    newer = λ x k p.
        elim (mem_assign (strip u.key) (entry_of u (m.sequence + 1)) x m.entries
          (mem_enforce_limit x (with_new u m) k)) [
            | inl new ↦ rw new (omega (arith, h.given))
            | inr old ↦ h.newer x old p
          ];
  }
]

invalidate_path-IsNewer :
    (path : Text) (m : WorkingMemory)
    → is_empty path ≡ false
    → strip path ≡ path
    → IsNewer m.sequence path (invalidate_path path m).1
unfolding invalidate_path
invalidate_path-IsNewer path m some_path bare =
    rw (bare, some_path)
      record {
        given = omega arith;
        newer = λ x k p.
            let is_stale = λ (x' : Item). same x'.1.path path in
            let (was, others) =
              mem_pop_all (map (λ (x' : Item). x'.0) (keep is_stale m.entries)) x m.entries k in
            let found : Memᴰ x (keep is_stale m.entries) =
              mem_keep is_stale x m.entries was (rw p (same_refl path)) in
            let other =
              others x.0 (mem_map (λ (x' : Item). x'.0) x (keep is_stale m.entries) found) in
            absurd (cc (other, same_refl x.0));
      }

not_searching :
    (name : Text)
    → any (same name) edit_tools ≡ true
    → (same name (codes "read_file") ≡ false)
      × (same name (codes "search_code") ≡ false)
      × (same name (codes "search_symbol") ≡ false)
unfolding same
not_searching name edit =
    let other = λ (s : Text) (e : name ≡ s). rw e at edit in
    (
      elim (Bool-cases (same name (codes "read_file"))) [
        | inl k ↦ absurd (cc (other (codes "read_file") ((same_iff name (codes "read_file")).0 k)))
        | inr k ↦ k
      ],
      elim (Bool-cases (same name (codes "search_code"))) [
        | inl k ↦
            absurd (cc (other (codes "search_code") ((same_iff name (codes "search_code")).0 k)))
        | inr k ↦ k
      ],
      elim (Bool-cases (same name (codes "search_symbol"))) [
        | inl k ↦
            absurd
              (cc (other (codes "search_symbol") ((same_iff name (codes "search_symbol")).0 k)))
        | inr k ↦ k
      ],
    )

record_tool-edit :
    (digest : Text → Text) (name : Text) (a : Arguments) (r : ToolResult) (revision : Option ℤ)
    (m : WorkingMemory)
    → any (same name) edit_tools ≡ true
    → r.success ≡ true
    → is_empty (path_of a r) ≡ false
    → record_tool digest name a r revision m ≡ edit_seen digest name (path_of a r) r revision m
unfolding record_tool
record_tool-edit digest name a r revision m edit done some_path =
    let (no_read, no_code, no_symbol) = not_searching name edit in
    rw (record_tool, no_read, no_code, no_symbol, edit, done, some_path) refl

strip-normalize_text : (o : Option Text) → strip (normalize_text o) ≡ normalize_text o
unfolding strip lstrip
strip-normalize_text none = refl
strip-normalize_text (some t) = strip-strip t

strip-or_else : (s t : Text) → strip s ≡ s → strip t ≡ t → strip (or_else s t) ≡ or_else s t
strip-or_else [] t h k = k
strip-or_else (c ∷ s) t h k = h

strip-path_of : (a : Arguments) (r : ToolResult) → strip (path_of a r) ≡ path_of a r
strip-path_of a r =
    strip-or_else (normalize_text a.path) (normalize_text r.path) (strip-normalize_text a.path)
      (strip-normalize_text r.path)

module _ (n : ℕ) (path : Text) where
  if-IsNewer :
      (b : Bool) (m m' : WorkingMemory)
      → IsNewer n path m
      → IsNewer n path m'
      → IsNewer n path (if b then m else m')
  if-IsNewer true m m' h k = h
  if-IsNewer false m m' h k = k

  record_failure-IsNewer :
      (digest : Text → Text) (name : Text) (a : Arguments) (r : ToolResult) (m : WorkingMemory)
      → IsNewer n path m
      → IsNewer n path (record_failure digest name a r m)
  unfolding record_failure
  record_failure-IsNewer digest name a r m h =
      if-IsNewer r.success m _ h (upsert-IsNewer n path _ m h)

  record_safety-IsNewer :
      (digest : Text → Text) (name : Text) (a : Arguments) (r : ToolResult) (m : WorkingMemory)
      → IsNewer n path m
      → IsNewer n path (record_safety digest name a r m)
  unfolding record_safety
  record_safety-IsNewer digest name a r m h = elim (Option-cases r.safety) [
    | inl k ↦ rw (record_safety, k) h
    | inr (s, k) ↦
        rw (record_safety, k)
          (if-IsNewer (is_risk (normalize_text s.level)) _ m (upsert-IsNewer n path _ m h) h)
  ]

-- After a successful edit by a tool that names a path, every entry that the memory holds under exactly
-- that path, as a text, was recorded by this result. Of other spellings of the path nothing is said.
pub record_tool_result-edit :
    (digest : Text → Text) (name : Text) (a : Arguments) (r : ToolResult) (revision : Option ℤ)
    (m : WorkingMemory) (x : Item)
    → any (same name) edit_tools ≡ true
    → r.success ≡ true
    → is_empty (path_of a r) ≡ false
    → Memᴰ x (record_tool_result digest name a r revision m).entries
    → x.1.path ≡ path_of a r
    → m.sequence < x.1.sequence
unfolding record_tool_result edit_seen
record_tool_result-edit digest name a r revision m x edit done some_path k p =
    let path = path_of a r in
    let n = m.sequence in
    let cleared = invalidate_path-IsNewer path m some_path (strip-path_of a r) in
    let seen = edit_seen digest name path r revision m in
    let edited : IsNewer n path seen = upsert-IsNewer n path _ (invalidate_path path m).1 cleared in
    let recorded : IsNewer n path (record_tool digest name a r revision m) =
      rw (record_tool-edit digest name a r revision m edit done some_path) edited in
    let told =
      record_failure-IsNewer n path digest name a r (record_tool digest name a r revision m)
        recorded in
    (record_safety-IsNewer n path digest name a r _ told).newer x k p
