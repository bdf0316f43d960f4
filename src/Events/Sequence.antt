-- ===== src/Events/Sequence.antt =====
-- The numbering of the events of one run.
use Prim.Native.Nat.{max}
use squad_team.Prelude.{
  ℕ, suc, ◌+◌, String, ◌≡◌, refl, ap, ◌∙◌, List, [], ◌∷◌, ◌++◌, length, select, arith,
}
use squad_team.World.{EventRow}
use squad_team.Events.{in_run, insert_by_seq, order_by_seq, run_rows, max_seq, next_sequence}

-- The rows are numbered n + 1, n + 2 and so on, in table order.
abbrev pub Numbered : ℕ → List EventRow → Type 0
Numbered n [] = Unit
Numbered n (r ∷ rows) = (r.sequence_number ≡ suc n) × Numbered (suc n) rows

insert-Numbered :
    (n : ℕ) (r : EventRow) (rows : List EventRow)
    → Numbered n (r ∷ rows)
    → insert_by_seq r rows ≡ r ∷ rows
unfolding insert_by_seq
insert-Numbered n r [] h = refl
insert-Numbered n r (s ∷ rows) h = ground arith

order-Numbered : (n : ℕ) (rows : List EventRow) → Numbered n rows → order_by_seq rows ≡ rows
unfolding order_by_seq
order-Numbered n [] h = refl
order-Numbered n (r ∷ rows) h =
    ap (insert_by_seq r) (order-Numbered (suc n) rows h.1) ∙ insert-Numbered n r rows h

max-Numbered :
    (n : ℕ) (rows : List EventRow) → Numbered n rows → max n (max_seq rows) ≡ n + length rows
unfolding max_seq
max-Numbered n [] h = omega arith
max-Numbered n (r ∷ rows) h = omega (arith, max-Numbered (suc n) rows h.1)

-- The number of the next event is one more than the number of events.
pub next_sequence-Numbered :
    (run_id : String) (events : List EventRow)
    → Numbered 0 (select (in_run run_id) events)
    → next_sequence run_id events ≡ suc (length (select (in_run run_id) events))
unfolding next_sequence
next_sequence-Numbered run_id events h =
    omega (arith, max-Numbered 0 (select (in_run run_id) events) h)

pub run_rows-Numbered :
    (run_id : String) (events : List EventRow)
    → Numbered 0 (select (in_run run_id) events)
    → run_rows run_id events ≡ select (in_run run_id) events
unfolding run_rows
run_rows-Numbered run_id events h = order-Numbered 0 _ h

pub Numbered-append :
    (n : ℕ) (rows : List EventRow) (r : EventRow)
    → Numbered n rows
    → r.sequence_number ≡ suc (n + length rows)
    → Numbered n (rows ++ r ∷ [])
Numbered-append n [] r h e = (omega (arith, e), tt)
Numbered-append n (s ∷ rows) r h e = (h.0, Numbered-append (suc n) rows r h.1 (omega (arith, e)))
