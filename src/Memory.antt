-- ===== src/Memory.antt =====
-- The working memory of a task: minicodex/agent/memory/working_memory.py. The metadata of an entry, which
-- the memory stores and does not read, is left out; the texts that it writes are constructors of `Fact`.
pub mod Entries
pub mod Observe
pub mod Fresh
pub mod Kept
pub mod Bounded
use mini_codex.Common.{
  ℕ, zero, suc, ◌+◌, ◌-◌, Bool, true, false, not, ◌&&◌, ◌||◌, Option, none, some, List, [], ◌∷◌,
  ◌++◌, map, Text, codes, same, strip, is_empty, keep, length, drop, leb, if◌then◌else◌,
}
use mini_codex.Common.Int.{ℤ, ltb_ℤ}
use mini_codex.Common.Dict.{Dict, lookup, assign, pop}

pub data MemoryKind : Type 0 where
  file search validation command plan safety git failure general : MemoryKind

-- The values of entries: a text from outside, or what a text that the memory writes is made from.
pub data Fact : Type 0 where
  text : Text → Fact
  observed : Text → (start_line end_line total_lines : Option ℤ) → (has_more : Bool) → Fact
  searched searched_symbol : Text → Fact
  edited : Text → Option ℤ → (degraded : Bool) → Fact
  static_web : Text → Text → Fact
  tested : Text → Text → (state : Text) → (passed failed errors : ℤ) → Fact
  dependency : Text → Text → (state : Text) → Fact
  commanded : (state : Text) → Text → Fact
  git_state : (dirty : Option Bool) → List Text → Fact
  git_diff_seen : Text → (staged : Bool) → Fact
  step_done : Text → Text → Fact
  replanned : Text → Fact
  failed_on : Text → Text → Text → Fact
  risk : Text → Text → Text → Text → Fact

pub record WorkingMemoryEntry : Type 0 where
  pub key : Text
  pub kind : MemoryKind
  pub value : Fact
  pub source_tool : Option Text
  pub sequence : ℕ
  pub path : Text
  pub revision : Option ℤ

pub record WorkingMemory : Type 0 where
  pub max_entries : ℕ
  pub max_render_entries : ℕ
  pub entries : Dict WorkingMemoryEntry
  pub sequence : ℕ

abbrev pub at_least_one : ℕ → ℕ
at_least_one n = if leb 1 n then n else 1

unfoldable pub new_memory : ℕ → ℕ → WorkingMemory
new_memory max_entries max_render_entries = record {
  max_entries = at_least_one max_entries;
  max_render_entries = at_least_one max_render_entries;
  entries = [];
  sequence = 0;
}

unfoldable pub reset : WorkingMemory → WorkingMemory
reset m = record m { entries = []; sequence = 0 }

abbrev pub get : Text → WorkingMemory → Option WorkingMemoryEntry
get key m = lookup key m.entries

-- `_normalize_text`
abbrev pub normalize_text : Option Text → Text
normalize_text none = []
normalize_text (some t) = strip t

abbrev pub normalize_fact : Fact → Fact
normalize_fact (text t) = text (strip t)
normalize_fact f = f

abbrev pub is_blank : Fact → Bool
is_blank (text t) = is_empty (strip t)
is_blank f = false

-- `sorted(entries, key=sequence)`, stable
unfoldable pub insert_by_sequence :
    WorkingMemoryEntry → List WorkingMemoryEntry → List WorkingMemoryEntry
insert_by_sequence e [] = e ∷ []
insert_by_sequence e (x ∷ xs) =
    let later = insert_by_sequence e xs in
    if leb e.sequence x.sequence then e ∷ x ∷ xs else x ∷ later

unfoldable pub sort_by_sequence : List WorkingMemoryEntry → List WorkingMemoryEntry
unfolding insert_by_sequence
sort_by_sequence [] = []
sort_by_sequence (x ∷ xs) = insert_by_sequence x (sort_by_sequence xs)

abbrev pub values : Dict WorkingMemoryEntry → List WorkingMemoryEntry
values d = map (λ x. x.1) d

abbrev pub take {ℓ} : {A : Type ℓ} → ℕ → List A → List A
take zero xs = []
take (suc n) [] = []
take (suc n) (x ∷ xs) = x ∷ take n xs

-- `for key in keys: entries.pop(key, None)`
unfoldable pub pop_all : List Text → Dict WorkingMemoryEntry → Dict WorkingMemoryEntry
pop_all [] d = d
pop_all (k ∷ ks) d = pop_all ks (pop k d)

-- `overflow` stops at 0 where the code returns.
unfoldable pub enforce_limit : WorkingMemory → WorkingMemory
unfolding sort_by_sequence pop_all
enforce_limit m =
    let overflow = length m.entries - m.max_entries in
    let oldest = take overflow (sort_by_sequence (values m.entries)) in
    record m { entries = pop_all (map (λ e. e.key) oldest) m.entries }

-- What `upsert` is called with.
pub record Upsert : Type 0 where
  pub key : Text
  pub kind : MemoryKind
  pub value : Fact
  pub source_tool : Option Text
  pub path : Option Text
  pub revision : Option ℤ

abbrev pub entry_of : Upsert → ℕ → WorkingMemoryEntry
entry_of u n = record {
  key = strip u.key;
  kind = u.kind;
  value = normalize_fact u.value;
  source_tool = u.source_tool;
  sequence = n;
  path = normalize_text u.path;
  revision = u.revision;
}

-- The memory with the new entry, before the oldest entries go.
abbrev pub with_new : Upsert → WorkingMemory → WorkingMemory
with_new u m = record m {
  sequence = m.sequence + 1;
  entries = assign (strip u.key) (entry_of u (m.sequence + 1)) m.entries;
}

-- The entry is the result.
unfoldable pub upsert : Upsert → WorkingMemory → Option WorkingMemoryEntry × WorkingMemory
unfolding enforce_limit
upsert u m =
    if is_empty (strip u.key) || is_blank u.value
    then (none, m)
    else (some (entry_of u (m.sequence + 1)), enforce_limit (with_new u m))

unfoldable pub remove : Text → WorkingMemory → WorkingMemory
remove key m = record m { entries = pop key m.entries }

unfoldable pub invalidate_path : Text → WorkingMemory → ℕ × WorkingMemory
unfolding pop_all
invalidate_path path m =
    let normalized = strip path in
    let stale = map (λ x. x.0) (keep (λ x. same x.1.path normalized) m.entries) in
    if is_empty normalized
    then (0, m)
    else (length stale, record m { entries = pop_all stale m.entries })

abbrev pub is_validation : MemoryKind → Bool
is_validation validation = true
is_validation _ = false

abbrev pub is_before : Option ℤ → ℤ → Bool
is_before none r = true
is_before (some s) r = ltb_ℤ s r

unfoldable pub invalidate_validation_before : ℤ → WorkingMemory → ℕ × WorkingMemory
unfolding pop_all
invalidate_validation_before revision m =
    let stale =
      map (λ x. x.0)
        (keep (λ x. is_validation x.1.kind && is_before x.1.revision revision) m.entries) in
    (length stale, record m { entries = pop_all stale m.entries })

-- The entries that `render` shows, in the order in which it shows them.
unfoldable pub rendered : Option ℕ → WorkingMemory → List WorkingMemoryEntry
unfolding sort_by_sequence
rendered max_entries m =
    let ordered = sort_by_sequence (values m.entries) in
    let limit : ℕ = elim max_entries [ none ↦ m.max_render_entries | some n ↦ at_least_one n ] in
    drop (length ordered - limit) ordered
