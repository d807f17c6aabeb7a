-- ===== src/Provision/Tests.antt =====
-- Runs of the provisions; the metadata are natural numbers.
use ai_agent_sandbox_bluepri.Base.{
  ℕ, ◌-◌, ◌≤◌, ◌≡◌, refl, nat_eq, not, none, some, [], ◌∷◌, List, arith, ◌&&◌, leb,
}
use ai_agent_sandbox_bluepri.Base.Map.{Map, lookup, insert, remove, update, kept}
use ai_agent_sandbox_bluepri.Provision.{
  ready, image_pull, is_terminal, progress_pct, ProvisionStatus, new_status, start_provision,
  update_provision, gc_provisions,
}
use ai_agent_sandbox_bluepri.Provision.Collect.{lookup-gc_provisions}
use ai_agent_sandbox_bluepri.Provision.History.{Op, starts, updates, collects, step, run, run-shown}

abbrev finished : ProvisionStatus ℕ
finished = record (new_status 0 10 7) { phase = ready; progress = 100; updated_at = 20 }

abbrev provisions : Map ℕ (ProvisionStatus ℕ)
provisions = (7, finished) ∷ (8, new_status 0 11 8) ∷ []

finished_collected : lookup 7 (gc_provisions 100 30 provisions) ≡ none
unfolding gc_provisions lookup remove
finished_collected = refl

lookup-gc_provisions_example :
    lookup 8 (gc_provisions 100 30 provisions)
    ≡ kept
        (λ (s : ProvisionStatus ℕ). not (is_terminal s.phase && leb s.updated_at (100 - 30)))
        (lookup 8 provisions)
unfolding lookup
lookup-gc_provisions_example =
    lookup-gc_provisions 100 30 8 provisions (refl, (refl, tt)) (refl, (refl, tt))

abbrev history : List (Op ℕ)
history = starts 10 7 ∷ updates 12 7 image_pull none none none ∷ collects 13 60 ∷ []

abbrev pulling : ProvisionStatus ℕ
pulling = record (new_status 0 10 7) { phase = image_pull; progress = 20; updated_at = 12 }

history-run : lookup 7 (run 0 history []) ≡ some pulling
unfolding run step start_provision update_provision gc_provisions lookup insert remove update
history-run = refl

run-shown_example :
    (7 ≡ pulling.call_id)
    × (pulling.progress ≡ progress_pct pulling.phase)
    × (pulling.started_at ≤ pulling.updated_at)
run-shown_example =
    run-shown 0 history 7 pulling (omega arith, (omega arith, (omega arith, tt))) history-run
