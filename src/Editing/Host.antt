-- ===== src/Editing/Host.antt =====
-- What the editing code (minicodex/agent/editing/, minicodex/utils/paths.py) takes from the operating
-- system and from Python's library: path objects, files, SHA-256.
use mini_codex.Common.{◌≡◌, ◌≢◌, Bool, true, Option, none, some, Text, if◌then◌else◌}

-- What `exists` and `is_file` tell of a resolved path.
pub data Node (Raw : Type 0) : Type 0 where
  missing directory : Node Raw
  file : Raw → Node Raw

-- `Raw` is the content of a file as it is stored. An operation on files returns whether it went
-- through (it raises otherwise) and the disk that it left.
pub record Host : Type 1 where
  pub Raw : Type 0
  pub Disk : Type 0
  pub node : Disk → Text → Node Raw
  -- `read_text`, on the content of a file; `none` where it raises
  pub decode : Raw → Option Text
  -- `write_text`, as what it stores
  pub encode : Text → Raw
  -- `path.parent.mkdir(parents=True, exist_ok=True)`
  pub mkdir_parents : Disk → Text → Bool × Disk
  pub write : Disk → Text → Raw → Bool × Disk
  pub unlink : Disk → Text → Bool × Disk
  -- `hashlib.sha256(content.encode("utf-8")).hexdigest()`
  pub content_hash : Text → Text
  -- `Path.is_absolute`, `Path.resolve`, `root / path`, and whether `resolved.relative_to(root)` is
  -- defined
  pub is_absolute : Text → Bool
  pub resolve : Text → Text
  pub join : Text → Text → Text
  pub is_below : Text → Text → Bool

-- What the library and the system promise of these operations.
pub record HostLaws (h : Host) : Type 1 where
  -- the parents of a file are there, and nothing is made
  pub mkdir_parents_file :
      (d : h.Disk) (p : Text) (raw : h.Raw)
      → h.node d p ≡ file raw
      → h.mkdir_parents d p ≡ (true, d)
  pub write_self :
      (d : h.Disk) (p : Text) (raw : h.Raw)
      → (h.write d p raw).0 ≡ true
      → h.node (h.write d p raw).1 p ≡ file raw
  pub write_other :
      (d : h.Disk) (p q : Text) (raw : h.Raw) → p ≢ q → h.node (h.write d p raw).1 q ≡ h.node d q
  pub unlink_self :
      (d : h.Disk) (p : Text) → (h.unlink d p).0 ≡ true → h.node (h.unlink d p).1 p ≡ missing
  pub unlink_other : (d : h.Disk) (p q : Text) → p ≢ q → h.node (h.unlink d p).1 q ≡ h.node d q

module _ (h : Host) where
  -- `resolve_workspace_path`; `none` is its ValueError.
  unfoldable pub resolve_workspace_path : Text → Text → Option Text
  resolve_workspace_path workspace path =
      let root = h.resolve workspace in
      let resolved = if h.is_absolute path then h.resolve path else h.resolve (h.join root path) in
      if h.is_below root resolved then some resolved else none
