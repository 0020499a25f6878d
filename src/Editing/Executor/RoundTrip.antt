-- ===== src/Editing/Executor/RoundTrip.antt =====
-- An edit that is sealed and its rollback: minicodex/agent/editing/checkpoint_executor.py with
-- minicodex/agent/editing/rollback.py.
use mathlib.Core.List.{reverse-append}
use mini_codex.Common.{
  ℕ, suc, ◌≤◌, ◌≡◌, inl, inr, refl, sym, ap, ◌∙◌, true, false, some, List, [], ◌∷◌, ◌++◌, arith,
  Text, same_refl, strip, Option-cases,
}
use mini_codex.Editing.Host.{Host, HostLaws, Node, missing, directory, file, resolve_workspace_path}
use mini_codex.Editing.Checkpoint.{
  FileSnapshot, Checkpoint, CheckpointManager, ok, get, change, set_sealed, append_checkpoint,
  new_checkpoint, snapshot_of, capture, edited_hash, seal_found, seal, checkpoint_name,
}
use mini_codex.Editing.Checkpoint.Lookup.{changed, get-change}
use mini_codex.Editing.Checkpoint.Found.{strip-checkpoint_name}
use mini_codex.Editing.Checkpoint.Uses.{Result-cases}
use mini_codex.Editing.Rollback.{restored, rollback, Files}
use mini_codex.Editing.Rollback.Restores.{IsAfter, IsBefore, rollback-IsRolledBack}
use mini_codex.Editing.Rollback.Succeeds.{IsRestorable, rewritten, removed, rollback_succeeds}
use mini_codex.Editing.Executor.{Surroundings, PreparedToolCall, EditData, edited, execute_prepared}
use mini_codex.Editing.Executor.Kept.{made_room, captured_store}
use mini_codex.Editing.Executor.Protected.{execute_prepared-sealed}

-- The second node has the text of the first, or is missing as the first is.
pub data HasText (h : Host) (n n' : Node h.Raw) : Type 0 where
  same_text :
      (raw : h.Raw) (t : Text)
      → n ≡ file raw
      → h.decode raw ≡ some t
      → n' ≡ file (h.encode t)
      → HasText h n n'
  still_missing : n ≡ missing → n' ≡ missing → HasText h n n'

-- What a capture records of a node.
data IsSnapshot (h : Host) (n : Node h.Raw) (s : FileSnapshot) : Type 0 where
  of_file :
      (raw : h.Raw) (t : Text)
      → n ≡ file raw
      → h.decode raw ≡ some t
      → s.existed ≡ true
      → s.content ≡ some t
      → s.sha256 ≡ some (h.content_hash t)
      → IsSnapshot h n s
  of_missing : n ≡ missing → s.existed ≡ false → IsSnapshot h n s

record IsCaptured (h : Host) (m m' : CheckpointManager) (d : h.Disk) (c : Checkpoint) : Type 0 where
  file_path : Text
  inside : resolve_workspace_path h m.workspace c.snapshot.path ≡ some file_path
  taken : IsSnapshot h (h.node d file_path) c.snapshot
  unmarked : c.rolled_back ≡ false
  same_workspace : m'.workspace ≡ m.workspace
  found : get c.checkpoint_id m' ≡ some c

workspace-made_room : (m : CheckpointManager) → (made_room m).workspace ≡ m.workspace
workspace-made_room m = ground arith

module _ (h : Host) where
  IsSnapshot-snapshot_of :
      (path : Text) (n : Node h.Raw) (s : FileSnapshot)
      → snapshot_of h path n ≡ ok s
      → (s.path ≡ path) × IsSnapshot h n s
  unfolding snapshot_of
  IsSnapshot-snapshot_of path missing s e =
      (ground arith, IsSnapshot.of_missing refl (ground arith))
  IsSnapshot-snapshot_of path directory s e = absurd (ground arith)
  IsSnapshot-snapshot_of path (file raw) s e = elim (Option-cases (h.decode raw)) [
    | inl bad ↦ absurd (ground arith)
    | inr (t, fine) ↦ (
      ground arith,
      IsSnapshot.of_file raw t refl fine (ground arith) (ground arith) (ground arith),
    )
  ]

  get_last :
      (n : ℕ) (c : Checkpoint) (cs : List Checkpoint) (m : CheckpointManager)
      → c.checkpoint_id ≡ checkpoint_name n
      → m.checkpoints ≡ cs ++ c ∷ []
      → get c.checkpoint_id m ≡ some c
  unfolding get
  get_last n c cs m e l =
      let kept : strip c.checkpoint_id ≡ c.checkpoint_id = rw e (strip-checkpoint_name n) in
      rw (get, kept, l, reverse-append cs (c ∷ []), same_refl c.checkpoint_id) refl

  capture-IsCaptured :
      (path : Text) (revision : ℕ) (d : h.Disk) (m m' : CheckpointManager) (c : Checkpoint)
      → 1 ≤ m.max_checkpoints
      → capture h path revision d m ≡ ok (c, m')
      → IsCaptured h m m' d c
  unfolding capture new_checkpoint
  capture-IsCaptured path revision d m m' c room e =
      elim (Option-cases (resolve_workspace_path h m.workspace (strip path))) [
        | inl outside ↦ absurd (ground arith)
        | inr (p, inside) ↦ elim (Result-cases (snapshot_of h (strip path) (h.node d p))) [
          | inl (x, bad) ↦ absurd (ground arith)
          | inr (s, fine) ↦
              let it : append_checkpoint s revision m ≡ (c, m') = ground arith in
              let (store, own) = captured_store s revision m m' c room it in
              let snap : s ≡ c.snapshot = ap (λ x. x.snapshot) own in
              let (at_path, taken) = IsSnapshot-snapshot_of (strip path) (h.node d p) s fine in
              record {
                file_path = p;
                inside = rw (← snap, at_path) inside;
                taken = rw (← snap) taken;
                unmarked = sym (ap (λ x. x.rolled_back) own);
                same_workspace = ap (λ x. x.workspace) store ∙ workspace-made_room m;
                found =
                    get_last (suc m.counter) c (made_room m).checkpoints m'
                      (sym (ap (λ x. x.checkpoint_id) own)) (ap (λ x. x.checkpoints) store);
              }
        ]
      ]

  IsAfter-edited_hash :
      (c : Checkpoint) (n : Node h.Raw) (sha256 : Text)
      → edited_hash h n ≡ ok sha256
      → IsAfter h (set_sealed sha256 c) n
  unfolding edited_hash
  IsAfter-edited_hash c missing sha256 e = absurd (ground arith)
  IsAfter-edited_hash c directory sha256 e = absurd (ground arith)
  IsAfter-edited_hash c (file raw) sha256 e = elim (Option-cases (h.decode raw)) [
    | inl bad ↦ absurd (ground arith)
    | inr (t, fine) ↦ record {
      raw = raw;
      content = t;
      stands = refl;
      decoded = fine;
      hashed = ap some (ground arith);
    }
  ]

  -- A seal of the checkpoint `c`, which the store finds, records the state of its file.
  seal_known :
      (c : Checkpoint) (p : Text) (d : h.Disk) (m m' : CheckpointManager)
      → get c.checkpoint_id m ≡ some c
      → resolve_workspace_path h m.workspace c.snapshot.path ≡ some p
      → seal h c.checkpoint_id d m ≡ ok m'
      → (sha256 : Text) × (edited_hash h (h.node d p) ≡ ok sha256)
        × (m' ≡ record m { checkpoints = change c.checkpoint_id (set_sealed sha256) m.checkpoints })
  unfolding seal seal_found
  seal_known c p d m m' known inside e = elim (Result-cases (edited_hash h (h.node d p))) [
    | inl (x, bad) ↦ absurd (ground arith)
    | inr (sha256, fine) ↦ (sha256, fine, ground arith)
  ]

-- The disk lets the file that stands at a path be overwritten and removed, and what is written of a
-- text that was read is read as that text again.
pub record IsObliging (h : Host) (d : h.Disk) (p : Text) : Type 0 where
  pub writes : (old raw : h.Raw) → h.node d p ≡ file old → (h.write d p raw).0 ≡ true
  pub unlinks : (old : h.Raw) → h.node d p ≡ file old → (h.unlink d p).0 ≡ true
  pub reads_back : (raw : h.Raw) (t : Text) → h.decode raw ≡ some t → h.decode (h.encode t) ≡ some t

IsRestorable-snapshot :
    (h : Host) (s : FileSnapshot) (p : Text) (n : Node h.Raw) (d : h.Disk) (raw : h.Raw)
    → IsObliging h d p
    → IsSnapshot h n s
    → h.node d p ≡ file raw
    → IsRestorable h s p d
IsRestorable-snapshot h s p n d raw o (IsSnapshot.of_file r t _ read old full hash) there =
    rewritten t old full hash (o.reads_back r t read) (o.writes raw (h.encode t) there)
IsRestorable-snapshot h s p n d raw o (IsSnapshot.of_missing _ new) there =
    removed new (o.unlinks raw there)

HasText-before :
    (h : Host) (s : FileSnapshot) (n n' : Node h.Raw)
    → IsSnapshot h n s
    → IsBefore h s n'
    → HasText h n n'
HasText-before h s n n' (IsSnapshot.of_file raw t there read old full hash)
      (IsBefore.content_back u _ kept now) =
    same_text raw t there read (ground (arith, full, kept, now))
HasText-before h s n n' (IsSnapshot.of_file raw t there read old full hash)
      (IsBefore.file_gone new now) =
    absurd (cc)
HasText-before h s n n' (IsSnapshot.of_missing there new) (IsBefore.content_back u old kept now) =
    absurd (cc)
HasText-before h s n n' (IsSnapshot.of_missing there new) (IsBefore.file_gone _ now) =
    still_missing there now

some_injective : {s t : Text} → some s ≡ some t → s ≡ t
some_injective e = ground arith

-- What a rollback of the checkpoint of an edit does.
pub record IsTakenBack (h : Host) (c : Checkpoint) (m m' : CheckpointManager) (d d' : h.Disk)
    : Type 0 where
  pub path : Text
  pub inside : resolve_workspace_path h m.workspace c.snapshot.path ≡ some path
  pub back : Checkpoint
  pub files : Files h
  pub went : rollback h c.checkpoint_id (m', d') ≡ (restored back, files)
  pub text_back : HasText h (h.node d path) (h.node files.1 path)

module _ (h : Host) (laws : HostLaws h) where
  taken_back :
      (c : Checkpoint) (m n m' : CheckpointManager) (d d' : h.Disk)
      → (k : IsCaptured h m n d c) → IsObliging h d' k.file_path
      → seal h c.checkpoint_id d' n ≡ ok m'
      → IsTakenBack h c m m' d d'
  taken_back c m n m' d d' k o e =
      let p = k.file_path in
      let there : resolve_workspace_path h n.workspace c.snapshot.path ≡ some p =
        rw k.same_workspace k.inside in
      let (sha256, hashed, store) = seal_known h c p d' n m' k.found there e in
      let kept : Checkpoint = set_sealed sha256 c in
      let found : get c.checkpoint_id m' ≡ some kept = rw store (
        get-change c.checkpoint_id c.checkpoint_id (set_sealed sha256) n (λ x. refl)
        ∙ ap (changed c.checkpoint_id (set_sealed sha256)) k.found
        ∙ ap some (ground (arith, same_refl c.checkpoint_id))) in
      let after = IsAfter-edited_hash h c (h.node d' p) sha256 hashed in
      let went =
        rollback_succeeds h laws kept p m' d' found refl k.unmarked (rw store there) after
          (IsRestorable-snapshot h c.snapshot p (h.node d p) d' after.raw o k.taken after.stands) in
      let r = rollback-IsRolledBack h laws c.checkpoint_id kept m' _ d' _ went in
      let same_file : r.path ≡ p = some_injective (sym r.resolved ∙ rw store there) in
      record {
        path = p;
        inside = k.inside;
        back = kept;
        files = _;
        went = went;
        text_back = HasText-before h c.snapshot (h.node d p) _ k.taken (rw same_file at r.before);
      }

-- On a host that keeps its laws, an edit that is reported as sealed can be taken back: where the disk
-- that it left lets the file at the path of the checkpoint be overwritten and removed, and gives back
-- the texts that are written, the rollback of its checkpoint goes through, and the file has the text again that it had when the call
-- began, or is missing again if it was missing then.
pub execute_prepared-rollback :
    (h : Host) (laws : HostLaws h) (s : Surroundings h) (prepared : PreparedToolCall s.Call)
    (out : s.Out) (entries : EditData) (m m' : CheckpointManager) (d d' : h.Disk) (p : Text)
    → 1 ≤ m.max_checkpoints
    → resolve_workspace_path h m.workspace entries.checkpoint.snapshot.path ≡ some p
    → IsObliging h d' p
    → execute_prepared h s prepared (m, d) ≡ (edited out entries, (m', d'))
    → entries.checkpoint_sealed ≡ true
    → IsTakenBack h entries.checkpoint m m' d d'
execute_prepared-rollback h laws s prepared out entries m m' d d' p room inside o e went =
    let r = execute_prepared-sealed h s prepared out entries m' d' went m d e in
    let k =
      capture-IsCaptured h r.path r.revision d m r.captured entries.checkpoint room
        r.capture_went in
    let own : p ≡ k.file_path = some_injective (sym inside ∙ k.inside) in
    taken_back h laws entries.checkpoint m r.captured m' d d' k (rw (← own) o) r.seal_went
