-- ===== src/Events/Paging.antt =====
-- Reading a run page by page through the cursors of `EventStore.query`.
use squad_team.Prelude.{
  ℕ, zero, suc, ◌+◌, ◌≤◌, ◌<◌, String, ◌≡◌, refl, sym, ap, ◌∙◌, Option, none, some, List, [], ◌∷◌,
  ◌++◌, map, append_assoc, append-nil, length, length-append, select, select-append, take, drop,
  take-append-drop, length-take, length-drop, take-take-suc, take_all, arith,
}
use mathlib.Core.List.{map-append}
use mathlib.Core.Path.{subst}
use native.Mathlib.Decide.{dec_le}
use native.Mathlib.Nat.{add-zero}
use native.Mathlib.Numerals.{add-one}
use squad_team.Models.{SquadEvent}
use squad_team.World.{EventRow}
use squad_team.Events.{in_run, after_cursor, last_seq, page, query, row_to_event}
use squad_team.Events.Sequence.{Numbered, run_rows-Numbered}

-- A client that asks for pages of `limit` events until no cursor comes back.
pub read_pages : ℕ → String → Option ℕ → ℕ → List EventRow → List SquadEvent
read_pages zero run_id cursor limit events = []
read_pages (suc fuel) run_id cursor limit events =
    let p = query run_id cursor limit events in
    p.events
    ++ elim p.next_cursor [ none ↦ [] | some n ↦ read_pages fuel run_id (some n) limit events ]

select-before :
    (n c : ℕ) (rows : List EventRow)
    → Numbered n rows
    → n + length rows ≤ c
    → select (after_cursor (some c)) rows ≡ []
unfolding after_cursor
select-before n c [] h le = refl
select-before n c (r ∷ rows) h le = ground (arith, select-before (suc n) c rows h.1)

select-after :
    (n c : ℕ) (rows : List EventRow)
    → Numbered n rows
    → c ≤ n
    → select (after_cursor (some c)) rows ≡ rows
unfolding after_cursor
select-after n c [] h le = refl
select-after n c (r ∷ rows) h le = ground (arith, select-after (suc n) c rows h.1)

select-start : (rows : List EventRow) → select (after_cursor none) rows ≡ rows
unfolding after_cursor
select-start [] = refl
select-start (r ∷ rows) = ap (◌∷◌ r) (select-start rows)

Numbered-split :
    (n : ℕ) (xs ys : List EventRow)
    → Numbered n (xs ++ ys)
    → Numbered n xs × Numbered (n + length xs) ys
Numbered-split n [] ys h = (tt, rw add-zero h)
Numbered-split n (x ∷ xs) ys h =
    let (front, back) = Numbered-split (suc n) xs ys h.1 in
    let shift : suc n + length xs ≡ n + suc (length xs) = omega arith in
    ((h.0, front), subst (λ k. Numbered k ys) shift back)

last_seq-Numbered :
    (n m : ℕ) (r : EventRow) (rows : List EventRow)
    → Numbered n (r ∷ rows)
    → last_seq m (r ∷ rows) ≡ n + length (r ∷ rows)
unfolding last_seq
last_seq-Numbered n m r [] h = omega arith
last_seq-Numbered n m r (s ∷ rows) h =
    omega (arith, last_seq-Numbered (suc n) r.sequence_number s rows h.1)

-- The events that a page shows, and its cursor.
page-events :
    (limit : ℕ) (rows : List EventRow)
    → (page limit rows).events ≡ map row_to_event (take limit rows)
unfolding page
page-events limit rows = rw (add-one limit) (ap (map row_to_event) (take-take-suc limit rows))

page-last :
    (limit : ℕ) (rows : List EventRow) → length rows ≤ limit → (page limit rows).next_cursor ≡ none
unfolding page
page-last limit rows h = ground (arith, length-take (limit + 1) rows)

Numbered-take : (n k : ℕ) (rows : List EventRow) → Numbered n rows → Numbered n (take k rows)
Numbered-take n k rows h =
    (Numbered-split n (take k rows) (drop k rows) (rw (take-append-drop k rows) h)).0

page-more :
    (n limit : ℕ) (rows : List EventRow)
    → Numbered n rows
    → suc limit < length rows
    → (page (suc limit) rows).next_cursor ≡ some (n + suc limit)
unfolding page
page-more n limit [] h lt = absurd (omega arith)
page-more n limit (r ∷ rows) h lt =
    let full : last_seq 0 (r ∷ take limit rows) ≡ n + suc limit = omega (
      arith,
      last_seq-Numbered n 0 r (take limit rows) (Numbered-take n (suc limit) (r ∷ rows) h),
      length-take limit rows,
    ) in
    rw (add-one (suc limit), take-take-suc limit rows)
      (ground (arith, full, length-take (suc (suc limit)) (r ∷ rows)))

module _ (run_id : String) (limit : ℕ) (events : List EventRow)
    (numbered : Numbered 0 (select (in_run run_id) events)) where
  abbrev pub rows : List EventRow
  rows = select (in_run run_id) events

  query-from :
      (pre rest : List EventRow)
      → rows ≡ pre ++ rest
      → query run_id (some (length pre)) (suc limit) events ≡ page (suc limit) rest
  unfolding query
  query-from pre rest e =
      let (front, back) = Numbered-split 0 pre rest (rw e at numbered) in
      rw (run_rows-Numbered run_id events numbered, e)
        (rw (select-append (after_cursor (some (length pre))) pre rest) (
          rw
            (
              select-before 0 (length pre) pre front (omega arith),
              select-after (0 + length pre) (length pre) rest back (omega arith),
            )
            refl))

  -- What a reader gets from a cursor that stands behind `pre`.
  abbrev ReadsRest : ℕ → Type 0
  ReadsRest fuel =
      (pre rest : List EventRow)
      → rows ≡ pre ++ rest
      → length rest < fuel
      → read_pages fuel run_id (some (length pre)) (suc limit) events ≡ map row_to_event rest

  read-round :
      (fuel : ℕ) (cursor : Option ℕ) (pre rest : List EventRow)
      → ReadsRest fuel
      → rows ≡ pre ++ rest
      → query run_id cursor (suc limit) events ≡ page (suc limit) rest
      → length rest < suc fuel
      → read_pages (suc fuel) run_id cursor (suc limit) events ≡ map row_to_event rest
  unfolding read_pages
  read-round fuel cursor pre rest ih e q lt = elim (dec_le (length rest) (suc limit)) [
    | yes fits ↦ rw q (
        rw (page-events (suc limit) rest, page-last (suc limit) rest fits)
          (append-nil _ ∙ ap (map row_to_event) (take_all (suc limit) rest fits)))
    | no long ↦
        let shown = take (suc limit) rest in
        let left = drop (suc limit) rest in
        let back = (Numbered-split 0 pre rest (rw e at numbered)).1 in
        let whole : rows ≡ (pre ++ shown) ++ left =
          e
          ∙ ap (◌++◌ pre) (sym (take-append-drop (suc limit) rest))
          ∙ sym (append_assoc pre shown left) in
        let place : 0 + length pre + suc limit ≡ length (pre ++ shown) =
          omega (arith, length-append pre shown, length-take (suc limit) rest) in
        let later = ih (pre ++ shown) left whole (omega (arith, length-drop (suc limit) rest)) in
        rw q (
          rw
            (page-events (suc limit) rest, page-more (0 + length pre) limit rest back (omega arith))
            (rw (place, later)
              (sym (map-append row_to_event shown left)
                ∙ ap (map row_to_event) (take-append-drop (suc limit) rest))))
  ]

  read-rest : (fuel : ℕ) → ReadsRest fuel
  read-rest zero pre rest e lt = elim lt [ ]
  read-rest (suc fuel) pre rest e lt =
      read-round fuel (some (length pre)) pre rest (read-rest fuel) e (query-from pre rest e) lt

  query-start : query run_id none (suc limit) events ≡ page (suc limit) rows
  unfolding query
  query-start = rw (run_rows-Numbered run_id events numbered, select-start rows)

  -- In a run that is numbered without a gap, a reader that follows the cursors of `query` with any
  -- positive page size gets every event of the run once, in order. Asking one time more often than
  -- there are events is always enough.
  pub read_pages_complete :
      (fuel : ℕ)
      → length rows < fuel
      → read_pages fuel run_id none (suc limit) events ≡ map row_to_event rows
  read_pages_complete zero lt = elim lt [ ]
  read_pages_complete (suc fuel) lt =
      read-round fuel none [] rows (read-rest fuel) refl query-start lt
