-- ===== src/Tools/RoundTrip.antt =====
-- squad_runtime/tool_adapter.py: what `write_file` writes is what `read_file` reads.
use Prim.Native.Char.{code}
use mathlib.Core.Option.{some-injective}
use squad_team.Prelude.{
  String, ◌≡◌, refl, sym, ap, ◌∙◌, inl, inr, Bool-cases, Bool, false, ◌||◌, nat_eq, arith, some,
  Option-cases, [], ◌∷◌, ◌==◌, eq_refl,
}
use squad_team.World.{World, ok, Result-cases}
use squad_team.Models.{TaskNode}
use squad_team.Events.{append, logged}
use squad_team.Facade.{record_event}
use squad_team.Snapshots.{collect_files, copy_files, sealed, seal_snapshot}
use squad_team.Workspace.{
  Files, validate_path_within_root, universal_newlines, content_of, read_text, write_text,
}
use squad_team.Tools.{ToolResult, Adapter}
use squad_team.Tools.Calls.{
  record_tool_event, read_at, read_file, write_at, commit_write, write_file,
}
use squad_team.Tools.Guards.{authorize_path-Guards, base-Guards, ok_injective}
use squad_team.Tools.Rounds.{raised_not_ok}

-- A file that is written holds its text.
content_of-write_text :
    (rel content : String) (files : Files)
    → content_of rel (write_text rel content files) ≡ some content
unfolding content_of write_text
content_of-write_text rel content [] = rw (eq_refl rel) refl
content_of-write_text rel content ((name, old) ∷ files) = elim (Bool-cases (name == rel)) [
  | inl e ↦ rw (e, content_of, write_text, e) refl
  | inr e ↦ rw (e, content_of, write_text, e) (content_of-write_text rel content files)
]

read_text-write_text :
    (rel content : String) (files : Files)
    → read_text rel (write_text rel content files) ≡ some (universal_newlines content)
unfolding read_text
read_text-write_text rel content files = rw (content_of-write_text rel content files) refl

-- Whether a text has a carriage return.
pub has_return : String → Bool
has_return String.[] = false
has_return (String.◌∷◌ c s) = nat_eq (code c) 13 || has_return s

newlines_kept : (s : String) → has_return s ≡ false → universal_newlines s ≡ s
unfolding universal_newlines has_return
newlines_kept String.[] h = refl
newlines_kept (String.◌∷◌ c s) h = elim (Bool-cases (nat_eq (code c) 13)) [
  | inl e ↦ absurd (ground arith)
  | inr e ↦ rw e (ap (String.◌∷◌ c) (newlines_kept s (ground arith)))
]

module _ (a : Adapter) (node_id path : String) where
  commit-files :
      (node : TaskNode) (rel content base : String) (w : World) (r : ToolResult)
      → (commit_write a node node_id "write_file" rel content base w).0 ≡ ok r
      → (commit_write a node node_id "write_file" rel content base w).1.files
        ≡ write_text rel content w.files
  unfolding commit_write write_at seal_snapshot sealed record_tool_event record_event append logged
  commit-files node rel content base w r = elim (Bool-cases (a.host.can_write w.files rel)) [
    | inr e ↦ rw (e, commit_write) λ ran. absurd (raised_not_ok _ _ ran)
    | inl e ↦
        rw (e, commit_write)
          (elim (Result-cases (
            copy_files a.env a.host (write_text rel content w.files)
              (collect_files a.env a.host (write_text rel content w.files)))) [
                | inr (error, f) ↦ rw (f, seal_snapshot) λ ran. absurd (raised_not_ok _ _ ran)
                | inl (copies, f) ↦ rw (f, seal_snapshot) λ ran. refl
              ])
  ]

  write_file-files :
      (content base : String) (w : World) (r : ToolResult)
      → (write_file a node_id path content base w).0 ≡ ok r
      → (rel : String) × (validate_path_within_root a.host path ≡ some rel)
        × ((write_file a node_id path content base w).1.files ≡ write_text rel content w.files)
  unfolding write_file
  write_file-files content base w r =
      elim (authorize_path-Guards a node_id w "write_file" "write" path) [
        | inr (e, v, h, refused) ↦ rw (h, write_file) λ ran. absurd (raised_not_ok _ _ ran)
        | inl ((node, rel), h, auth) ↦
            rw (h, write_file)
              (elim (base-Guards a node_id w base node auth.found) [
                | inr (e, v, k, refused) ↦ rw k λ ran. absurd (raised_not_ok _ _ ran)
                | inl (u, k, based) ↦
                    rw k λ ran. (rel, auth.inside, commit-files node rel content base w r ran)
              ])
      ]

  read_file-content :
      (w : World) (r : ToolResult)
      → (read_file a node_id path w).0 ≡ ok r
      → (rel : String) × (validate_path_within_root a.host path ≡ some rel)
        × (r.content ≡ read_text rel w.files)
  unfolding read_file read_at record_tool_event record_event append
  read_file-content w r = elim (authorize_path-Guards a node_id w "read_file" "read" path) [
    | inr (e, v, h, refused) ↦ rw (h, read_file) λ ran. absurd (raised_not_ok _ _ ran)
    | inl ((node, rel), h, auth) ↦
        rw (h, read_file)
          (elim (Option-cases (read_text rel w.files)) [
            | inl k ↦ rw (k, read_at) λ ran. absurd (raised_not_ok _ _ ran)
            | inr (content, k) ↦
                rw (k, read_at)
                  λ ran.
                    (rel, auth.inside, sym (ap (λ t. t.content) (ok_injective _ _ ran)) ∙ sym k)
          ])
  ]

-- Where `write_file` returns and `read_file` of the same path then returns, for the same agent's node
-- or another, the text that is read is the one that was written, with every line end read as a line
-- feed; that is the text itself if it has no carriage return.
pub write_file-read_file :
    (a : Adapter) (writer reader path content base : String) (w : World) (written seen : ToolResult)
    → (write_file a writer path content base w).0 ≡ ok written
    → (read_file a reader path (write_file a writer path content base w).1).0 ≡ ok seen
    → (seen.content ≡ some (universal_newlines content))
      × (has_return content ≡ false → seen.content ≡ some content)
write_file-read_file a writer reader path content base w written seen wrote read =
    let (rel, inside, files) = write_file-files a writer path content base w written wrote in
    let (rel', inside', shown) = read_file-content a reader path _ seen read in
    let found : seen.content ≡ some (universal_newlines content) =
      shown
      ∙ ap (λ f. read_text rel' f) files
      ∙ rw (some-injective _ _ (sym inside' ∙ inside)) (read_text-write_text rel content w.files) in
    (found, λ plain. found ∙ ap some (newlines_kept content plain))
