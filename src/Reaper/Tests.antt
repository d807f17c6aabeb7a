-- ===== src/Reaper/Tests.antt =====
-- Ticks of the reaper over one running sandbox.
use ai_agent_sandbox_bluepri.Base.{◌≡◌, refl, string_eq, some, [], ◌∷◌, ok, arith}
use ai_agent_sandbox_bluepri.Base.Map.{lookup}
use ai_agent_sandbox_bluepri.Sandbox.{stopped}
use ai_agent_sandbox_bluepri.Sandbox.Samples.{docker_record, config}
use ai_agent_sandbox_bluepri.Lifecycle.{unseal_record}
use ai_agent_sandbox_bluepri.Lifecycle.Samples.{willing, holding}
use ai_agent_sandbox_bluepri.Lifecycle.Loop.{IsStore}
use ai_agent_sandbox_bluepri.Reaper.{reaper_tick}
use ai_agent_sandbox_bluepri.Reaper.Tick.{reaper_fate, reaper_tick-fate}
use ai_agent_sandbox_bluepri.Reaper.Limits.{IsReachable, IsTimely, status, reaper_tick-enforces}

docker_record-IsStore : IsStore (holding docker_record).store
unfolding lookup
docker_record-IsStore = ((refl, tt), (refl, tt))

reaper_tick-fate_example :
    lookup "sb-1"
      (reaper_tick willing config 800 (ok (docker_record ∷ [])) (holding docker_record)).store
    ≡ reaper_fate willing config 800 docker_record
unfolding lookup
reaper_tick-fate_example =
    reaper_tick-fate willing config 800 (holding docker_record) docker_record docker_record-IsStore
      refl

docker_record-IsReachable : IsReachable willing docker_record docker_record
unfolding unseal_record
docker_record-IsReachable = record {
  unseals = refl;
  writes = refl;
  answers = λ call. refl;
  has_backend = refl;
}

docker_record-IsTimely : IsTimely docker_record
docker_record-IsTimely = record { lifetime_fits = omega arith; idle_fits = omega arith }

-- Idle for 700 seconds: stopped, at the time that the stop reads.
reaper_tick-enforces_example :
    status (
      lookup "sb-1"
        (reaper_tick willing config 800 (ok (docker_record ∷ [])) (holding docker_record)).store)
    ≡ some (stopped, some 5000)
unfolding lookup
reaper_tick-enforces_example =
    reaper_tick-enforces willing config 800 (holding docker_record) docker_record docker_record
      docker_record-IsStore refl refl docker_record-IsReachable docker_record-IsTimely
