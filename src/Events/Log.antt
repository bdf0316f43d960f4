-- ===== src/Events/Log.antt =====
-- What `EventStore.append` keeps true of the event table: in every run the events are numbered from
-- 1 without a gap, and their hashes form an intact chain.
use Prim.Native.String.{◌++◌ as cat}
use mathlib.Core.Path.{subst}
use squad_team.Prelude.{
  String, ◌≡◌, refl, sym, ap, ◌∙◌, inl, inr, Bool, true, false, Bool-cases, List, [], ◌∷◌, ◌++◌,
  append-nil, some, ◌≢◌, is_empty, ◌==◌, eq_iff, eq_refl, select, select-append, arith,
}
use mathlib.Core.Option.{some-injective}
use squad_team.Json.{Fields, stored}
use squad_team.Canonicalization.{
  Env, genesis_hash, compute_event_hash, canonical_json, sha256_hex, utf8,
}
use squad_team.World.{EventRow, World}
use squad_team.Events.{in_run, get_last_event_hash, verify_rows, verify_chain, new_row, logged}
use squad_team.Events.Sequence.{
  Numbered, next_sequence-Numbered, run_rows-Numbered, Numbered-append,
}
use squad_team.Events.Chain.{
  IsChain, head_hash, last_hash-IsChain, IsChain-append, IsChain-last, verify_rows_iff,
}

abbrev pub of_run : String → World → List EventRow
of_run run_id w = select (in_run run_id) w.events

is_empty-nil {ℓ} : {A : Type ℓ} (xs : List A) → is_empty xs ≡ true → xs ≡ []
is_empty-nil [] h = refl
is_empty-nil (x ∷ xs) h = cc

module _ (env : Env) where
  pub record IsLogOf (rows : List EventRow) : Type 0 where
    pub numbered : Numbered 0 rows
    pub chained : IsChain env genesis_hash rows

  pub record IsLog (w : World) : Type 0 where
    pub at : (run_id : String) → IsLogOf (of_run run_id w)

  -- Writing a payload to its JSON column and reading it back keeps its canonical form.
  abbrev pub IsStable : Fields → Type 0
  IsStable payload = canonical_json env (stored payload) ≡ canonical_json env payload

  stable-hash :
      (prev : String) (payload : Fields)
      → IsStable payload
      → compute_event_hash env prev (stored payload) ≡ compute_event_hash env prev payload
  unfolding compute_event_hash
  stable-hash prev payload h =
      ap (λ d. (sha256_hex env d, sha256_hex env (utf8 (cat prev (sha256_hex env d))))) h

  last-IsLogOf :
      (run_id : String) (w : World)
      → IsLogOf (of_run run_id w)
      → get_last_event_hash run_id w.events ≡ head_hash env genesis_hash (of_run run_id w)
  unfolding get_last_event_hash
  last-IsLogOf run_id w h =
      rw (run_rows-Numbered run_id w.events h.numbered)
        (last_hash-IsChain env genesis_hash (of_run run_id w) h.chained)

  module _ (run_id event_type : String) (payload : Fields) (critical : Bool) (w : World) where
    of_run_self :
        of_run run_id (logged env run_id event_type payload critical w)
        ≡ of_run run_id w ++ new_row env run_id event_type payload critical w ∷ []
    unfolding logged new_row
    of_run_self = rw (select-append (in_run run_id) w.events, eq_refl run_id)

    of_run_other :
        (j : String)
        → (run_id == j) ≡ false
        → of_run j (logged env run_id event_type payload critical w) ≡ of_run j w
    unfolding logged new_row
    of_run_other j h = rw (select-append (in_run j) w.events, h) (append-nil _)

    unstable-digest :
        IsLogOf (of_run run_id w)
        → IsChain env genesis_hash
            (of_run run_id w ++ new_row env run_id event_type payload critical w ∷ [])
        → sha256_hex env (canonical_json env (stored payload))
          ≡ sha256_hex env (canonical_json env payload)
    unfolding new_row
    unstable-digest h chain =
        some-injective _ _ (sym (IsChain-last env genesis_hash (of_run run_id w) _ chain).1)

    logged-Numbered :
        IsLogOf (of_run run_id w)
        → Numbered 0 (of_run run_id (logged env run_id event_type payload critical w))
    unfolding new_row
    logged-Numbered h = rw of_run_self (
        Numbered-append 0 (of_run run_id w) _ h.numbered
          (next_sequence-Numbered run_id w.events h.numbered ∙ omega arith))

    -- Right after an event is appended to an intact log whose payload has another digest when it is
    -- read back from the JSON column, `verify_chain` reports the run as invalid.
    pub unstable-invalid :
        IsLog w
        → sha256_hex env (canonical_json env (stored payload))
          ≢ sha256_hex env (canonical_json env payload)
        → (verify_chain env run_id (logged env run_id event_type payload critical w).events).valid
          ≡ false
    unfolding verify_chain
    unstable-invalid h differ =
        let after = of_run run_id (logged env run_id event_type payload critical w) in
        let numbered = logged-Numbered (h.at run_id) in
        elim (Bool-cases (is_empty (verify_rows env genesis_hash after))) [
          | inr e ↦ rw (run_rows-Numbered run_id _ numbered) e
          | inl e ↦
              let intact = (verify_rows_iff env genesis_hash after).0 (is_empty-nil _ e) in
              absurd (differ (unstable-digest (h.at run_id) (rw of_run_self at intact)))
        ]

    new-IsChain :
        IsLogOf (of_run run_id w)
        → IsStable payload
        → IsChain env
            (head_hash env genesis_hash (of_run run_id w))
            (new_row env run_id event_type payload critical w ∷ [])
    unfolding new_row
    new-IsChain h stable =
        let before = head_hash env genesis_hash (of_run run_id w) in
        let same = sym (stable-hash before payload stable) in
        rw (last-IsLogOf run_id w h) (refl, ap (λ p. some p.0) same, ap (λ p. some p.1) same, tt)

    logged-IsLogOf :
        IsLogOf (of_run run_id w)
        → IsStable payload
        → IsLogOf (of_run run_id (logged env run_id event_type payload critical w))
    logged-IsLogOf h stable = record {
      numbered = logged-Numbered h;
      chained =
          rw of_run_self
            (IsChain-append env genesis_hash (of_run run_id w) _ h.chained (new-IsChain h stable));
    }

    -- Appending an event whose payload survives its column keeps every run numbered from 1 without
    -- a gap and its hash chain intact.
    pub logged-IsLog :
        IsLog w → IsStable payload → IsLog (logged env run_id event_type payload critical w)
    logged-IsLog h stable = record {
      at = λ j. elim (Bool-cases (run_id == j)) [
        | inl e ↦
            subst (λ k. IsLogOf (of_run k (logged env run_id event_type payload critical w)))
              ((eq_iff run_id j).0 e) (logged-IsLogOf (h.at run_id) stable)
        | inr e ↦ rw (of_run_other j e) (h.at j)
      ];
    }

  -- In a log that is kept so, `verify_chain` finds every run valid.
  pub verify_chain-IsLog :
      (w : World) (run_id : String) → IsLog w → (verify_chain env run_id w.events).valid ≡ true
  unfolding verify_chain
  verify_chain-IsLog w run_id h =
      rw (run_rows-Numbered run_id w.events (h.at run_id).numbered)
        (rw ((verify_rows_iff env genesis_hash (of_run run_id w)).1 (h.at run_id).chained) refl)

  pub IsLog-empty : (w : World) → w.events ≡ [] → IsLog w
  IsLog-empty w e = record { at = λ j. rw e (record { numbered = tt; chained = tt }) }
