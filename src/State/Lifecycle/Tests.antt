-- ===== src/State/Lifecycle/Tests.antt =====
-- The lifecycle theorems at concrete chains of transitions.
use squad_team.Prelude.{◌≡◌, refl, ◌⊎◌, inr, true}
use squad_team.State.{NodeStatus, todo, ready, running, pass, canceled, done, transition_allowed}
use squad_team.State.Lifecycle.{Reach, here, next, visits, done-traced, final-absorbs}

abbrev finished : Reach todo done
unfolding transition_allowed
finished =
    next {t = pass} (next {t = running} (next {t = ready} (next {t = todo} here refl) refl) refl)
      refl

abbrev at_rest : Reach done done
at_rest = here

done-traced_example :
    (visits canceled finished ≡ true)
    ⊎ ((visits ready finished ≡ true)
        × (visits running finished ≡ true)
        × (visits pass finished ≡ true))
done-traced_example = done-traced finished

final-absorbs_example : ◌≡◌ {A = NodeStatus} done done
final-absorbs_example = final-absorbs at_rest (inr refl)
