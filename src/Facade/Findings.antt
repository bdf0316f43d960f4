-- ===== src/Facade/Findings.antt =====
-- `Runtime.supersede_review_finding`: a finding is never rewritten, it is replaced.
use Prim.Native.String.{◌++◌ as cat}
use squad_team.Prelude.{
  String, ◌≡◌, refl, ◌∙◌, Bool, false, Option, none, some, List, [], ◌∷◌, ◌++◌, ◌==◌, eq_refl,
  eq_iff, find, find-append, find-update_other, update_where, arith,
}
use squad_team.Canonicalization.{Env}
use squad_team.World.{World, ReviewFinding, Result, ok}
use squad_team.Facade.{get_review_finding, supersede_review_finding}

abbrev pub finding_in : String → World → Option ReviewFinding
finding_in finding_id w = find (λ f. f.id == finding_id) w.findings

pub find-update_self {ℓ} :
    {A : Type ℓ} (p : A → Bool) (f : A → A) (xs : List A) (a : A)
    → ((x : A) → p (f x) ≡ p x)
    → find p xs ≡ some a
    → find p (update_where p f xs) ≡ some (f a)
find-update_self p f [] a keep h = cc
find-update_self p f (x ∷ xs) a keep h = ground (arith, keep x, find-update_self p f xs a keep)

module _ (env : Env) (finding_id severity description : String) (w : World) where
  abbrev pub replacement_id : String
  replacement_id = cat "finding-" (env.uuid_hex w.ticks)

  abbrev pub replacement : ReviewFinding → ReviewFinding
  replacement old = record {
    id = replacement_id;
    run_id = old.run_id;
    task_node_id = old.task_node_id;
    author_agent_id = "code-reviewer";
    severity = severity;
    description = description;
    status = "active";
    superseded_by_id = none;
  }

  abbrev pub outcome : String → Result String × World
  outcome author = supersede_review_finding env finding_id author severity description w

  -- The code reviewer's replacement of a known finding returns the new id; the old finding then is
  -- superseded by it and otherwise as it was, and the new one is active, for the same run and node.
  -- The new uuid is taken not to name a finding already.
  pub supersede-replaces :
      (old : ReviewFinding)
      → finding_in finding_id w ≡ some old
      → finding_in replacement_id w ≡ none
      → (finding_id == replacement_id) ≡ false
      → ((outcome "code-reviewer").0 ≡ ok replacement_id)
        × (finding_in finding_id (outcome "code-reviewer").1
            ≡ some (record old { status = "superseded"; superseded_by_id = some replacement_id }))
        × (finding_in replacement_id (outcome "code-reviewer").1 ≡ some (replacement old))
  unfolding supersede_review_finding get_review_finding
  supersede-replaces old found fresh apart = rw found (
    refl,
    find-update_self (λ f. f.id == finding_id) _ (w.findings ++ replacement old ∷ []) old
        (λ f. refl) (rw (find-append (λ f. f.id == finding_id) w.findings, found) refl),
    find-update_other (λ f. f.id == replacement_id) (λ f. f.id == finding_id) _
          (w.findings ++ replacement old ∷ [])
          (λ f hit. ground (
            arith,
            apart,
            eq_iff f.id finding_id,
            eq_iff f.id replacement_id,
            eq_iff finding_id replacement_id,
          ))
        ∙ rw (find-append (λ f. f.id == replacement_id) w.findings, fresh, eq_refl replacement_id)
            refl,
  )
