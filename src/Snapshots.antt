-- ===== src/Snapshots.antt =====
-- squad_runtime/snapshot.py: content-addressed snapshots of the workspace, sealed without an
-- `include` list.
use Prim.Native.Nat.{Ordering}
use Prim.Native.Char.{code}
use Prim.Native.String.{◌++◌ as cat, compare, len}
use squad_team.Prelude.{
  ℕ, suc, ◌+◌, String, Bool, true, false, ◌||◌, not, Option, none, some, List, [], ◌∷◌, ◌==◌, any,
  contains, length, select, map, nat_eq, starts_with, if◌then◌else◌,
}
use squad_team.Json.{Fields, end, field, str, num, arr, obj, Items, nil, cons, sort_keys}
use squad_team.Canonicalization.{Env, utf8, json}
use squad_team.World.{Checkpoint, World, unsafe_path, file_not_found, Result, ok, raised, Exec}
use squad_team.Workspace.{Files, Host, parts, content_of, validate_path_within_root}

abbrev pub excluded_dirs : List String
excluded_dirs =
    ".git" ∷ ".squad" ∷ "__pycache__" ∷ "node_modules" ∷ "dist" ∷ "build" ∷ ".pytest_cache"
    ∷ ".mypy_cache" ∷ []

abbrev pub excluded_suffixes : List String
excluded_suffixes = ".pyc" ∷ ".pyo" ∷ ".sqlite" ∷ ".db" ∷ ".wal" ∷ ".shm" ∷ []

from_last_dot : String → Option String
from_last_dot String.[] = none
from_last_dot (String.◌∷◌ c s) = elim (from_last_dot s) [
  | some t ↦ some t
  | none ↦ if nat_eq (code c) 46 then some (String.◌∷◌ c s) else none
]

abbrev pub last_part : List String → String
last_part [] = ""
last_part (name ∷ []) = name
last_part (name ∷ names) = last_part names

-- `path.suffix`: from the last dot on, which is neither the first nor the last character.
unfoldable pub suffix : String → String
unfolding parts from_last_dot
suffix path =
    let name = last_part (parts path) in
    elim (from_last_dot name) [ none ↦ "" | some t ↦ if t == name || t == "." then "" else t ]

-- The order in which Python sorts paths: by their components.
parts_before : List String → List String → Bool
parts_before ps [] = false
parts_before [] (q ∷ qs) = true
parts_before (p ∷ ps) (q ∷ qs) = elim (compare p q) [
  | Ordering.lt ↦ true
  | Ordering.eq ↦ parts_before ps qs
  | Ordering.gt ↦ false
]

insert_file : String × String → Files → Files
unfolding parts_before parts
insert_file f [] = f ∷ []
insert_file f (g ∷ files) =
    if parts_before (parts g.0) (parts f.0) then g ∷ insert_file f files else f ∷ g ∷ files

-- `sorted(workspace_root.rglob("*"))`, the files of it.
unfoldable pub sorted_files : Files → Files
unfolding insert_file
sorted_files [] = []
sorted_files (f ∷ files) = insert_file f (sorted_files files)

-- `.replace("\r\n", "\n").replace("\r", "\n")`.
unfoldable pub unify_newlines : String → String
unify_newlines String.[] = ""
unify_newlines (String.◌∷◌ c s) =
    let rest = unify_newlines s in
    if nat_eq (code c) 13
    then if starts_with s "\n" then rest else cat "\n" rest
    else String.◌∷◌ c rest

-- An entry of the manifest.
pub record FileEntry : Type 0 where
  pub path : String
  pub content_hash : String
  pub size_bytes : ℕ

insert_entry : FileEntry → List FileEntry → List FileEntry
insert_entry e [] = e ∷ []
insert_entry e (f ∷ entries) = elim (compare f.path e.path) [
  | Ordering.lt ↦ f ∷ insert_entry e entries
  | _ ↦ e ∷ f ∷ entries
]

sort_entries : List FileEntry → List FileEntry
unfolding insert_entry
sort_entries [] = []
sort_entries (e ∷ entries) = insert_entry e (sort_entries entries)

total_bytes : List FileEntry → ℕ
total_bytes [] = 0
total_bytes (e ∷ entries) = e.size_bytes + total_bytes entries

entry_json : FileEntry → Fields
entry_json e =
    field "path" (str e.path)
      (field "contentHash" (str e.content_hash) (field "sizeBytes" (num e.size_bytes) end))

entries_json : List FileEntry → Items
unfolding entry_json
entries_json [] = nil
entries_json (e ∷ entries) = cons (obj (entry_json e)) (entries_json entries)

unfoldable pub put_checkpoint : Checkpoint → List Checkpoint → List Checkpoint
put_checkpoint c [] = c ∷ []
put_checkpoint c (d ∷ checkpoints) =
    if d.snapshot_id == c.snapshot_id then c ∷ checkpoints else d ∷ put_checkpoint c checkpoints

module _ (env : Env) (host : Host) where
  unfoldable pub excluded : String → Bool
  unfolding suffix parts
  excluded path =
      any (contains excluded_dirs) (parts path)
      || contains excluded_suffixes (host.lower (suffix path))

  abbrev pub canonical_content : String → String
  unfolding unify_newlines
  canonical_content content = unify_newlines (env.nfc content)

  abbrev pub file_entry : String × String → FileEntry
  file_entry (path, content) = record {
    path = env.nfc path;
    content_hash = cat "sha256:" (env.sha256 (utf8 (canonical_content content)));
    size_bytes = len (canonical_content content);
  }

  unfoldable pub collect_files : Files → List FileEntry
  unfolding sort_entries sorted_files excluded
  collect_files files =
      sort_entries (map file_entry (sorted_files (select (λ f. not (excluded f.0)) files)))

  unfoldable pub manifest_hash_input : List FileEntry → Fields
  unfolding entries_json
  manifest_hash_input entries = field "schemaVersion" (str "snapshot-manifest/v1") (
      field "boundaryPolicy"
        (obj (
          field "mode" (str "workspace-root-only") (
            field "workspaceRoot" (str host.root)
              (field "deniedRoots" (str ".git,.squad,node_modules,dist,build") end))))
        (field "symlinkPolicy" (obj (field "mode" (str "deny-external") end)) (
          field "environmentFingerprintRef" (str "env:fingerprint-pending")
            (field "files" (arr (entries_json entries)) end))))

  unfoldable pub snapshot_hash : List FileEntry → String
  unfolding manifest_hash_input sort_keys
  snapshot_hash entries = env.sha256 (json (sort_keys (obj (manifest_hash_input entries))))

  unfoldable pub copy_file : Files → FileEntry → Result (String × String)
  unfolding validate_path_within_root content_of
  copy_file files e = elim (validate_path_within_root host e.path) [
    | none ↦ raised (unsafe_path e.path)
    | some source ↦ elim (content_of source files) [
      | none ↦ raised (file_not_found source)
      | some content ↦ ok (e.path, content)
    ]
  ]

  -- `_copy_files`; what it copied before an exception is not kept.
  unfoldable pub copy_files : Files → List FileEntry → Result Files
  unfolding copy_file
  copy_files files [] = ok []
  copy_files files (e ∷ entries) = elim (copy_file files e) [
    | raised error ↦ raised error
    | ok copy ↦ elim (copy_files files entries) [
      | raised error ↦ raised error
      | ok copies ↦ ok (copy ∷ copies)
    ]
  ]

  -- The manifest as it is written, with its metadata.
  unfoldable pub full_manifest : List FileEntry → String → Fields
  unfolding manifest_hash_input snapshot_hash total_bytes entries_json
  full_manifest entries created_at = field "schemaVersion" (str "snapshot-manifest/v1") (
      field "boundaryPolicy"
        (obj (
          field "mode" (str "workspace-root-only") (
            field "workspaceRoot" (str host.root)
              (field "deniedRoots" (str ".git,.squad,node_modules,dist,build") end))))
        (field "symlinkPolicy" (obj (field "mode" (str "deny-external") end)) (
          field "environmentFingerprintRef" (str "env:fingerprint-pending") (
            field "files" (arr (entries_json entries)) (
              field "snapshotHash" (str (snapshot_hash entries)) (
                field "metadata"
                  (obj (
                    field "createdAt" (str created_at) (
                      field "fileCount" (num (length entries))
                        (field "totalBytes" (num (total_bytes entries)) end))))
                  end))))))

  unfoldable pub snapshot_id : Files → String
  unfolding collect_files snapshot_hash
  snapshot_id files = cat "snap-" (snapshot_hash (collect_files files))

  unfoldable pub sealed : Files → World → World
  unfolding full_manifest put_checkpoint snapshot_id
  sealed copies w = record w {
    checkpoints =
        put_checkpoint
          (record {
            snapshot_id = snapshot_id w.files;
            manifest = full_manifest (collect_files w.files) (env.now w.ticks);
            copies = copies;
          })
          w.checkpoints;
    ticks = suc w.ticks;
  }

  unfoldable pub seal_snapshot : Exec String
  unfolding copy_files collect_files sealed snapshot_id
  seal_snapshot w = elim (copy_files w.files (collect_files w.files)) [
    | raised error ↦ (raised error, w)
    | ok copies ↦ (ok (snapshot_id w.files), sealed copies w)
  ]
