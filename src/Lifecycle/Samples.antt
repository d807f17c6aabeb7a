-- ===== src/Lifecycle/Samples.antt =====
-- An outside that answers everything, for the tests.
use ai_agent_sandbox_bluepri.Base.{true, none, [], ok, ◌∷◌}
use ai_agent_sandbox_bluepri.Sandbox.{SandboxRecord}
use ai_agent_sandbox_bluepri.Lifecycle.{Outside, World}

abbrev pub willing : Outside
willing = record {
  read_backend = λ metadata. ok none;
  unseal_field = λ field. ok field;
  present = true;
  answer = λ call. ok tt;
  image_id = λ container. ok "img-1";
  writes = λ id. true;
  clock = λ id. 5000;
}

abbrev pub holding : SandboxRecord → World
holding r = record { store = (r.id, r) ∷ []; calls = [] }
