-- ===== src/State/Lifecycle.antt =====
-- What a chain of allowed transitions (squad_runtime/state.py) can do.
mod Tests
use squad_team.Prelude.{◌≡◌, refl, ◌⊎◌, inl, inr, Bool, true, false, ◌||◌, arith}
use squad_team.State.{
  NodeStatus, todo, ready, running, pass, fail, blocked, agent_unavailable, progress_timeout,
  canceled, stale, done, status_is, transition_allowed,
}

-- A chain of moves that `ensure_transition_allowed` accepts, oldest first.
pub data Reach (s : NodeStatus) : NodeStatus → Type 0 where
  here : Reach s s
  next : {t u : NodeStatus} → Reach s t → transition_allowed t u ≡ true → Reach s u

-- Whether the chain passes through a status, its ends included.
visits : NodeStatus → {s t : NodeStatus} → Reach s t → Bool
visits v {s} here = status_is v s
visits v (next {u = u} r h) = status_is v u || visits v r

-- Which statuses a move can come from.
abbrev Sources : NodeStatus → NodeStatus → Type 0
Sources t u =
    (u ≡ running → t ≡ ready) × (u ≡ pass → t ≡ running) × (u ≡ done → (t ≡ pass) ⊎ (t ≡ canceled))

transition-Sources : (t u : NodeStatus) → transition_allowed t u ≡ true → Sources t u
unfolding transition_allowed
transition-Sources todo u h = ground arith
transition-Sources ready u h = ground arith
transition-Sources running u h = ground arith
transition-Sources agent_unavailable u h = ground arith
transition-Sources progress_timeout u h = ground arith
transition-Sources blocked u h = ground arith
transition-Sources fail u h = ground arith
transition-Sources pass u h = ground arith
transition-Sources canceled u h = ground arith
transition-Sources stale u h = ground arith
transition-Sources done u h = ground arith

-- A predicate on how a status was come by, from TODO on.
abbrev Traced : {t : NodeStatus} → Reach todo t → Type 0
Traced {t} r =
    (t ≡ ready → visits ready r ≡ true)
    × (t ≡ running → (visits ready r ≡ true) × (visits running r ≡ true))
    × (t ≡ pass → (visits ready r ≡ true) × (visits running r ≡ true) × (visits pass r ≡ true))
    × (t ≡ canceled → visits canceled r ≡ true)
    × (t ≡ done
        → (visits canceled r ≡ true)
          ⊎ ((visits ready r ≡ true) × (visits running r ≡ true) × (visits pass r ≡ true)))

reach-Traced : {t : NodeStatus} (r : Reach todo t) → Traced r
unfolding visits status_is
reach-Traced here = ground arith
reach-Traced (next {t = t} {u = u} r h) = ground (arith, transition-Sources t u h, reach-Traced r)

-- However a node comes from TODO to DONE by allowed transitions, it was canceled on the way, or it
-- was made ready, ran and passed.
done-traced :
    (r : Reach todo done)
    → (visits canceled r ≡ true)
      ⊎ ((visits ready r ≡ true) × (visits running r ≡ true) × (visits pass r ≡ true))
done-traced r = (reach-Traced r).4 refl

no_move : (t u : NodeStatus) → (t ≡ stale) ⊎ (t ≡ done) → transition_allowed t u ≡ false
unfolding transition_allowed
no_move t u (inl e) = ground arith
no_move t u (inr e) = ground arith

-- STALE and DONE are final: a chain of allowed transitions from either goes nowhere.
final-absorbs : {s t : NodeStatus} (r : Reach s t) → (s ≡ stale) ⊎ (s ≡ done) → t ≡ s
final-absorbs here h = refl
final-absorbs {s} (next {t = t} {u = u} r h) fin =
    let same : t ≡ s = final-absorbs r fin in cc (h, no_move t u (rw same fin))

-- From every status that is not final, CANCELED and then DONE can still be reached, or the status
-- is PASS, from which DONE can.
reach-done : (s : NodeStatus) → (s ≡ stale) ⊎ Reach s done
unfolding transition_allowed
reach-done stale = inl refl
reach-done done = inr here
reach-done pass = inr (next here refl)
reach-done canceled = inr (next here refl)
reach-done todo = inr (next (next {u = canceled} here refl) refl)
reach-done _ = inr (next (next {u = canceled} here refl) refl)
