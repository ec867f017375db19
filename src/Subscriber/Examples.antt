-- ===== src/Subscriber/Examples.antt =====
-- The theorems on pkg/subscriber at concrete inputs.
use radstorm.Prelude.{ℕ, ◌*◌, ◌≡◌, refl, true, ◌&&◌, ◌||◌, not, none, some, List, [], ◌∷◌}
use radstorm.Radius.Code.{access_accept, accounting_response}
use radstorm.Subscriber.Policy.{RetransmitPolicy, exponential}
use radstorm.Subscriber.Fsm.{
  idle, established, terminated, same_state, no_reason, World, Sent, Inbound, coa, disconnect, Deps,
  run,
}
use radstorm.Subscriber.Fsm.Runs.{Ends, run-Ends}
use radstorm.Subscriber.Fsm.Established.{answered, run_established}

abbrev backing_off : RetransmitPolicy
backing_off = record {
  initial_timeout = 5000000000;
  max_retries = 3;
  backoff = exponential;
  backoff_base = 1000000000;
}

abbrev deps : Deps
deps = record { clock = λ n. n * 1000000; t0 = some 0; include_acct_start = true; max_retries = 3 }

abbrev fresh : World
fresh = record {
  state = idle;
  activated_at = none;
  established_at = none;
  disconnected_at = none;
  auth_retransmits = 0;
  acct_retransmits = 0;
  coa_count = 0;
  failure_reason = no_reason;
  has_deps = true;
  reads = 0;
  log = [];
}

abbrev reply : ℕ → Sent
reply code = record {
  result = some (record { reply = some (code, 7); retransmit_n = 1 });
  error = none;
}

abbrev calls : List Inbound
calls = coa (some 4) ∷ disconnect (some 5) ∷ coa none ∷ []

run-Ends_example : Ends deps fresh (run deps (reply 2) calls (reply 5) [] fresh)
run-Ends_example = run-Ends deps (reply 2) (reply 5) calls [] fresh

-- The Disconnect-Request that arrived during the Access-Request is overwritten.
run_established_example : same_state (run deps (reply 2) calls (reply 5) [] fresh).0 established ≡ (
    answered access_accept (reply 2).result none
    && (not true || answered accounting_response (reply 5).result none))
run_established_example = run_established deps (reply 2) (reply 5) calls [] fresh

disconnect_overwritten : (run deps (reply 2) calls (reply 5) [] fresh).1.state ≡ established
unfolding run
disconnect_overwritten = refl

abbrev ended : World
ended = record fresh { state = terminated }
