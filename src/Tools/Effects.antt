-- ===== src/Tools/Effects.antt =====
-- squad_runtime/tool_adapter.py: what each tool does beyond its checks.
use mathlib.Core.Bool.{false≢true}
use squad_team.Prelude.{
  ℕ, String, ◌≡◌, refl, sym, ap, ◌∙◌, inl, inr, ◌⊎◌, false, Bool-cases, Option-cases, List, [], ◌∷◌,
}
use squad_team.Json.{Fields}
use squad_team.Models.{TaskNode}
use squad_team.World.{World, Result, Result-cases}
use squad_team.Events.{append}
use squad_team.Facade.{record_event}
use squad_team.Workspace.{
  Files, Completed, finished, timed_out, not_started, validate_path_within_root, read_text,
  content_of, with_files,
}
use squad_team.Snapshots.{FileEntry, copy_file, copy_files, collect_files, seal_snapshot}
use squad_team.Tools.{Adapter}
use squad_team.Tools.Calls.{record_tool_event, read_at, write_at, run_process}
use squad_team.Tools.Trace.{
  ToolCall, is_denied, IsWritable, IsRunnable, Change, files_after, log, seal, write, execute, here,
  next, Guards, Runs, Acts,
}
use squad_team.Tools.Guards.{act_of_refusal}

copy_files-calm :
    (a : Adapter) (files : Files) (entries : List FileEntry)
    → is_denied (copy_files a.env a.host files entries) ≡ false
unfolding copy_files copy_file
copy_files-calm a files [] = refl
copy_files-calm a files (e ∷ entries) =
    let rest = copy_files-calm a files entries in
    elim (Option-cases (validate_path_within_root a.host e.path)) [
      | inl h ↦ rw (h, is_denied, copy_files, copy_file) refl
      | inr (source, h) ↦ elim (Option-cases (content_of source files)) [
        | inl k ↦ rw (h, k, is_denied, copy_files, copy_file) refl
        | inr (content, k) ↦ elim (Result-cases (copy_files a.env a.host files entries)) [
          | inl (copies, l) ↦ rw (h, k, l, is_denied, copy_files, copy_file) refl
          | inr (error, l) ↦ rw (h, k, l, is_denied, copy_files, copy_file) (rw l at rest)
        ]
      ]
    ]

module _ (a : Adapter) (node_id : String) (w : World) where
  pub read-Guards : (rel : String) → Guards a node_id w (λ _. Unit {0}) (read_at a rel w)
  unfolding read_at
  read-Guards rel = elim (Option-cases (read_text rel w.files)) [
    | inl e ↦ rw e (inr (_, _, refl, inl (refl, refl)))
    | inr (content, e) ↦ rw e (inl (content, refl, tt))
  ]

module _ (a : Adapter) (node_id : String) (w : World) {tc : ToolCall} where
  pub act_of_run :
      {A : Type 0} (r : Result A × World) → Runs a node_id tc w r → Acts a node_id tc w r
  act_of_run r (t, calm) =
      (t, λ e shown denial'. absurd (false≢true (sym calm ∙ ap is_denied shown ∙ denial')))

  -- A check that did not find anything amiss.
  pub Acts-checked :
      {A : Type 0} (r : Result A × World)
      → Guards a node_id w (λ _. Unit {0}) r
      → Acts a node_id tc w r
  Acts-checked r (inl (x, e, _)) =
      rw e (here, λ d shown denial'. absurd (false≢true (ap is_denied shown ∙ denial')))
  Acts-checked r (inr (e, v, shown, refused)) = rw shown (act_of_refusal a node_id w e v refused)

  pub tool_event-Runs :
      (node : TaskNode) (tool_name : String) (payload : Fields)
      → Runs a node_id tc w (record_tool_event a node node_id tool_name payload w)
  unfolding record_tool_event record_event append
  tool_event-Runs node tool_name payload = (next here (log node.run_id "tool_call" _ refl), refl)

  pub seal-Runs : Runs a node_id tc w (seal_snapshot a.env a.host w)
  unfolding seal_snapshot
  seal-Runs =
      elim (Result-cases (copy_files a.env a.host w.files (collect_files a.env a.host w.files))) [
        | inl (copies, e) ↦ rw (e, seal_snapshot) (next here (seal copies), refl)
        | inr (error, e) ↦
            rw (e, seal_snapshot)
              (here, rw e at (copy_files-calm a w.files (collect_files a.env a.host w.files)))
      ]

  pub write-Runs :
      (rel content : String)
      → IsWritable a node_id tc w rel
      → Runs a node_id tc w (write_at a rel content w)
  unfolding write_at
  write-Runs rel content writable = elim (Bool-cases (a.host.can_write w.files rel)) [
    | inl e ↦ rw e (next here (write rel content writable), refl)
    | inr e ↦ rw e (here, refl)
  ]

  pub process-Runs :
      (command : List String)
      → IsRunnable a node_id tc w command
      → Runs a node_id tc w (run_process a command w)
  unfolding run_process
  process-Runs command registered = elim (Completed-cases (a.host.subprocess command w.files)) [
    | inl (c, o, e, files, h) ↦ rw (h, run_process) (next here (rw h at executed), refl)
    | inr (inl (files, h)) ↦ rw (h, run_process) (next here (rw h at executed), refl)
    | inr (inr h) ↦ rw (h, run_process) (here, refl)
  ]
    where
      executed :
          Change a node_id tc w
            (with_files (files_after a node_id (a.host.subprocess command w.files) w.files) w)
      executed = execute command registered

      Completed-cases :
          (c : Completed)
          → ((n : ℕ) × (o : String) × (e : String) × (files : Files) × (c ≡ finished n o e files))
            ⊎ ((files : Files) × (c ≡ timed_out files))
            ⊎ (c ≡ not_started)
      Completed-cases (finished n o e files) = inl (n, o, e, files, refl)
      Completed-cases (timed_out files) = inr (inl (files, refl))
      Completed-cases not_started = inr (inr refl)
