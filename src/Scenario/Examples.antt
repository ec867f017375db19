-- ===== src/Scenario/Examples.antt =====
-- The theorems on pkg/scenario at concrete inputs.
use radstorm.Prelude.{◌≡◌, ◌↔◌, ◌⊎◌, refl, true, false, none, [], ◌∷◌, arith}
use radstorm.Prelude.Int.{pos}
use radstorm.Scenario.Lifecycle.{
  warmup, ramp, next_phase, validate_transition, Precedes, validate_transition_iff,
}
use radstorm.Scenario.Components.{Setup, World, Runner, new_state, went, construct_components}
use radstorm.Scenario.Runner.{run, ramp_step}
use radstorm.Scenario.Runner.Phases.{warmup_errors}
use radstorm.Scenario.Runner.Ending.{EndsAs, run-EndsAs}
use radstorm.Scenario.Runner.Ramp.{IsRamped, ramp_step-IsRamped}
use radstorm.Subscriber.Pool.{Credential, Texts, new_pool}

validate_transition_iff_example :
    (validate_transition warmup ramp ≡ none)
    ↔ ((warmup ≡ ramp) ⊎ (Precedes warmup ramp × (ramp ≡ next_phase warmup)))
validate_transition_iff_example = validate_transition_iff warmup ramp

abbrev texts : Texts
texts = record { hex8 = λ n. n ∷ []; hex2 = λ n. n ∷ []; decimal = λ n. n ∷ []; ip_text = λ ip. ip }

abbrev cred : Credential
cred = record {
  username = 97 ∷ [];
  password = 112 ∷ [];
  auth_method = [];
  sub_type = [];
  nas_port_id = [];
  mac_address = [];
}

-- Two subscribers, at once and after 5.
abbrev setup : Setup
setup = record {
  include_acct_start = true;
  collector_override = false;
  engine_override = false;
  skip_server_listener = false;
  has_bind_address = true;
  has_shared_secret = true;
  hard_timeout_sec = pos 0;
  drain_timeout = 30000000000;
  warmup_delay = 1000000000;
  offsets = 0 ∷ 5 ∷ [];
  pool = new_pool texts (cred ∷ []) (pos 2) (pos 50) (pos 50);
}

-- The engine does not start.
abbrev no_engine : World
no_engine = record {
  resolve_auth = true;
  resolve_acct = true;
  new_collector = true;
  parse_source_ips = true;
  new_engine = true;
  new_listener = true;
  new_progress = true;
  start_engine = false;
  start_listener = true;
  cancelled_in_warmup = false;
  now = λ i. i;
  cancelled_at = λ i. false;
  aggregate = true;
  write_summary = true;
}

run-EndsAs_example :
    EndsAs no_engine
      (construct_components setup no_engine new_state)
      (warmup_errors setup no_engine)
      (run setup no_engine)
run-EndsAs_example = run-EndsAs setup no_engine

ramp_step-IsRamped_example :
    (s : Runner) × (ramp_step setup no_engine new_state ≡ went [] s)
    × IsRamped setup no_engine setup.offsets setup.offsets 0 new_state s
ramp_step-IsRamped_example =
    ramp_step-IsRamped setup no_engine texts cred [] (pos 2) (pos 50) (pos 50) new_state refl
      (omega arith) (omega arith) refl tt
