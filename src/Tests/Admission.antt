-- ===== src/Tests/Admission.antt =====
-- Two runs of one session under a limit of two.
use piqo_server.Prelude.Map.{insert}
use piqo_server.Prelude.{◌≤◌, String, ◌≡◌, ◌↔◌, ◌⊎◌, refl, err}
use piqo_server.Prelude.Map.{get}
use piqo_server.Server.Admission.{
  AdmissionState, Limits, run_capacity_exceeded, new, reserve, release, placed, session_pending,
}
use piqo_server.Server.Admission.Balance.{
  IsBalanced, new-IsBalanced, reserve_refused, reserve-IsBalanced, release-IsBalanced,
  release-reserve,
}

abbrev limits : Limits
limits = record { max_pending_runs = 2; max_pending_runs_per_session = 2 }

abbrev one : AdmissionState
one = placed new "s" "r1"

abbrev two : AdmissionState
two = placed one "s" "r2"

one-IsBalanced : IsBalanced limits one
unfolding new get reserve
one-IsBalanced = reserve-IsBalanced limits new "s" "r1" (new-IsBalanced limits) refl refl

reserve-IsBalanced_example : IsBalanced limits two
unfolding new get reserve insert
reserve-IsBalanced_example = reserve-IsBalanced limits one "s" "r2" one-IsBalanced refl refl

release-IsBalanced_example : IsBalanced limits (release one "r1")
release-IsBalanced_example = release-IsBalanced limits one "r1" one-IsBalanced

release-reserve_example :
    ((release two "r2").pending ≡ one.pending)
    × ((s : String) → session_pending (release two "r2") s ≡ session_pending one s)
    × ((run : String) → get run (release two "r2").run_sessions ≡ get run one.run_sessions)
unfolding new get reserve insert
release-reserve_example = release-reserve limits one "s" "r2" refl refl

reserve_refused_example : (reserve limits two "s" "r3" ≡ err run_capacity_exceeded) ↔ (
    (limits.max_pending_runs ≤ two.pending)
    ⊎ (limits.max_pending_runs_per_session ≤ session_pending two "s"))
reserve_refused_example = reserve_refused limits two "s" "r3"
