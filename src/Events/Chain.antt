-- ===== src/Events/Chain.antt =====
-- The hash chain of the events of one run, and the check of it.
use squad_team.Prelude.{
  String, ◌≡◌, refl, ap, ◌∙◌, ◌↔◌, Bool, true, false, Option, none, some, List, [], ◌∷◌, ◌++◌,
  append-nil, ◌==◌, eq_iff, eq_refl, opt_eq, arith,
}
use squad_team.Canonicalization.{Env, compute_event_hash}
use squad_team.World.{EventRow}
use squad_team.Events.{ChainError, error_unless, check_row, verify_hashes, verify_rows, last_hash}

append-nil_parts {ℓ} : {A : Type ℓ} (xs ys : List A) → xs ++ ys ≡ [] → (xs ≡ []) × (ys ≡ [])
append-nil_parts [] ys h = (refl, h)
append-nil_parts (x ∷ xs) ys h = cc

error_unless-nil :
    (b : Bool) (e : ChainError) (rest : List ChainError)
    → error_unless b e ++ rest ≡ []
    → (b ≡ true) × (rest ≡ [])
error_unless-nil true e rest h = (refl, h)
error_unless-nil false e rest h = cc

opt_eq_iff : (o : Option String) (s : String) → (opt_eq o (some s) ≡ true) ↔ (o ≡ some s)
opt_eq_iff none s = ground arith
opt_eq_iff (some t) s = ground (arith, eq_iff t s)

module _ (env : Env) where
  -- Every row names the hash before it, and holds the hashes of its own payload and of the two
  -- joined. `prev` is the hash that the first row must name.
  abbrev pub IsChain : String → List EventRow → Type 0
  IsChain prev [] = Unit
  IsChain prev (r ∷ rows) =
      let hashes = compute_event_hash env prev r.payload in
      (r.previous_event_hash ≡ some prev)
      × (r.event_payload_hash ≡ some hashes.0)
      × (r.event_hash ≡ some hashes.1)
      × IsChain hashes.1 rows

  -- The hash that the next row must name.
  abbrev pub head_hash : String → List EventRow → String
  head_hash prev [] = prev
  head_hash prev (r ∷ rows) = head_hash (compute_event_hash env prev r.payload).1 rows

  pub last_hash-IsChain :
      (prev : String) (rows : List EventRow)
      → IsChain prev rows
      → last_hash prev rows ≡ head_hash prev rows
  unfolding last_hash
  last_hash-IsChain prev [] h = refl
  last_hash-IsChain prev (r ∷ rows) h =
      rw h.2 (last_hash-IsChain (compute_event_hash env prev r.payload).1 rows h.3)

  pub IsChain-append :
      (prev : String) (rows : List EventRow) (r : EventRow)
      → IsChain prev rows
      → IsChain (head_hash prev rows) (r ∷ [])
      → IsChain prev (rows ++ r ∷ [])
  IsChain-append prev [] r h hr = hr
  IsChain-append prev (s ∷ rows) r h hr =
      (h.0, h.1, h.2, IsChain-append (compute_event_hash env prev s.payload).1 rows r h.3 hr)

  pub IsChain-last :
      (prev : String) (rows : List EventRow) (r : EventRow)
      → IsChain prev (rows ++ r ∷ [])
      → IsChain (head_hash prev rows) (r ∷ [])
  IsChain-last prev [] r h = h
  IsChain-last prev (s ∷ rows) r h =
      IsChain-last (compute_event_hash env prev s.payload).1 rows r h.3

  check_row-nil :
      (prev : String) (r : EventRow) (payload_hash event_hash : String)
      → check_row env prev r payload_hash event_hash ≡ []
      → (r.previous_event_hash ≡ some prev)
        × (payload_hash ≡ (compute_event_hash env prev r.payload).0)
        × (event_hash ≡ (compute_event_hash env prev r.payload).1)
  unfolding check_row
  check_row-nil prev r payload_hash event_hash h =
      let hashes = compute_event_hash env prev r.payload in
      let (named, rest) = error_unless-nil (opt_eq r.previous_event_hash (some prev)) _ _ h in
      let (paid, last) = error_unless-nil (payload_hash == hashes.0) _ _ rest in
      let (linked, _) = error_unless-nil (event_hash == hashes.1) _ [] (append-nil _ ∙ last) in
      (
        (opt_eq_iff r.previous_event_hash prev).0 named,
        (eq_iff payload_hash hashes.0).0 paid,
        (eq_iff event_hash hashes.1).0 linked,
      )

  -- One row of the check, with its two optional hashes taken out.
  sound_step :
      (prev : String) (r : EventRow) (rows : List EventRow)
      (payload_hash event_hash : Option String)
      → ((next : String) → verify_rows env next rows ≡ [] → IsChain next rows)
      → r.event_payload_hash ≡ payload_hash
      → r.event_hash ≡ event_hash
      → (let (errors, next) = verify_hashes env prev r payload_hash event_hash in
          errors ++ verify_rows env next rows)
        ≡ []
      → IsChain prev (r ∷ rows)
  unfolding verify_hashes
  sound_step prev r rows none event_hash ih hp he h = cc
  sound_step prev r rows (some p) none ih hp he h = cc
  sound_step prev r rows (some p) (some e) ih hp he h =
      let (clean, tail) = append-nil_parts (check_row env prev r p e) _ h in
      let (named, paid, linked) = check_row-nil prev r p e clean in
      (named, hp ∙ ap some paid, he ∙ ap some linked, ih _ (rw linked at tail))

  verify_rows_sound :
      (prev : String) (rows : List EventRow) → verify_rows env prev rows ≡ [] → IsChain prev rows
  unfolding verify_rows
  verify_rows_sound prev [] h = tt
  verify_rows_sound prev (r ∷ rows) h =
      sound_step prev r rows _ _ (λ next. verify_rows_sound next rows) refl refl h

  verify_rows_complete :
      (prev : String) (rows : List EventRow) → IsChain prev rows → verify_rows env prev rows ≡ []
  unfolding verify_rows verify_hashes check_row
  verify_rows_complete prev [] h = refl
  verify_rows_complete prev (r ∷ rows) h =
      let hashes = compute_event_hash env prev r.payload in
      rw (h.0, h.1, h.2, eq_refl prev, eq_refl hashes.0, eq_refl hashes.1)
        (verify_rows_complete hashes.1 rows h.3)

  -- The check finds no error exactly in the intact chains.
  pub verify_rows_iff :
      (prev : String) (rows : List EventRow) → (verify_rows env prev rows ≡ []) ↔ IsChain prev rows
  verify_rows_iff prev rows = (verify_rows_sound prev rows, verify_rows_complete prev rows)
