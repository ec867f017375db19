-- ===== src/Io/SendExamples.antt =====
-- The theorems on the sender and the receiver of pkg/io at concrete inputs.
use radstorm.Prelude.{
  ◌≤◌, All, ℕ, ◌≡◌, refl, true, false, none, some, List, arith, [], ◌∷◌, ◌+◌, replicate,
}
use radstorm.Prelude.Int.{pos}
use radstorm.Prelude.Maps.{lookup}
use radstorm.Radius.Packet.{Packet}
use radstorm.Radius.Result.{Error}
use radstorm.Radius.Examples.{flat}
use radstorm.Subscriber.Policy.{RetransmitPolicy, exponential}
use radstorm.Io.IdAlloc.Tuples.{allocate_for, AllValid, new_id_allocator, new-AllValid}
use radstorm.Io.Matcher.{
  new_reply_matcher, register, accepts, deliver_alone, deliveries, validation_failed,
}
use radstorm.Io.Matcher.Steps.{here}
use radstorm.Io.Examples.{reply, rejected}
use radstorm.Io.Sender.{Address, Engine, Turn, built, timer_fired, run_send}
use radstorm.Io.Sender.Protocol.{Follows, idle, run_send-Follows}
use radstorm.Io.Sender.Counted.{IsSent, waited, run_send-IsSent}
use radstorm.Io.Sender.Restored.{SameHeld}
use radstorm.Io.Sender.Quiet.{run_send-SameHeld}
use radstorm.Io.Sender.Collision.{register_collides}
use radstorm.Io.Receiver.{Datagram, Inbox, receive_all}
use radstorm.Io.Receiver.Routed.{outcomes, receive_all-once}

abbrev text_of : Address → List ℕ
text_of a = a.0

abbrev sock : Address
sock = (10 ∷ [], 4000)

abbrev auth_server : Address
auth_server = (11 ∷ [], 1812)

abbrev acct_server : Address
acct_server = (11 ∷ [], 1813)

abbrev engine : Engine
engine = record {
  sockets = sock ∷ [];
  rr_idx = 0;
  id_alloc = new_id_allocator;
  matcher = new_reply_matcher;
  log = [];
}

abbrev request : Packet
request = record {
  code = 1;
  identifier = 0;
  authenticator = replicate 16 0;
  attributes = [];
  request_authenticator = replicate 16 0;
  secret = 115 ∷ [];
}

-- No reply comes.
abbrev silence : ℕ → Turn
silence n = record {
  backoffs = [];
  build = λ id. built request;
  random = some (replicate 16 5);
  write_error = none;
  offset_ms = pos 0;
  reply_offset_ms = pos 0;
  latency_us = pos 0;
  others = λ e. e;
  wake = timer_fired;
}

abbrev twice : RetransmitPolicy
twice = record {
  initial_timeout = 3000000000;
  max_retries = 1;
  backoff = exponential;
  backoff_base = 2;
}

run_send-Follows_example :
    Follows text_of idle (run_send flat text_of twice 3 (some auth_server) silence engine).1 idle
run_send-Follows_example = run_send-Follows text_of flat twice 3 (some auth_server) silence engine

run_send-IsSent_example :
    let r = run_send flat text_of twice 3 (some auth_server) silence engine in
    IsSent twice 0 2 (waited r.1) r.2
run_send-IsSent_example =
    run_send-IsSent flat text_of twice 3 (some auth_server) silence engine (omega arith)

run_send-SameHeld_example :
    let f = (run_send flat text_of twice 3 (some auth_server) silence engine).0 in
    SameHeld engine.id_alloc f.id_alloc × AllValid f.id_alloc
run_send-SameHeld_example =
    run_send-SameHeld flat text_of twice 3 (some auth_server) silence engine (λ n. (λ e. refl, tt))
      new-AllValid

register_collides_example :
    let both =
      register
        (49 ∷ [], 0)
        (replicate 16 5)
        4
        (register (49 ∷ [], 0) (replicate 16 6) 3 new_reply_matcher) in
    let r = deliver_alone flat (115 ∷ []) (49 ∷ [], 0) (reply 8) 60 both in
    ((allocate_for (sock, auth_server) new_id_allocator).1 ≡ some 0)
    × ((allocate_for (sock, acct_server) new_id_allocator).1 ≡ some 0)
    × (r.0 ≡ false)
    × (r.1 ≡ some (validation_failed 4))
unfolding lookup
register_collides_example =
    register_collides flat (115 ∷ []) sock auth_server acct_server new_id_allocator new_id_allocator
      (49 ∷ []) (replicate 16 6) (replicate 16 5) 3 4 60 (reply 8) new_reply_matcher refl refl
      rejected

-- A reply that no request waits for.
abbrev stray : Datagram
stray = record {
  local = 49 ∷ [];
  remote = 50 ∷ [];
  offset_ms = pos 0;
  now = 60;
  wire = 2 ∷ 9 ∷ 0 ∷ 20 ∷ replicate 16 7;
  meanwhile = λ m. m;
  meanwhile_lost = λ m. m;
}

abbrev error_text : Error → List ℕ
error_text why = []

abbrev inbox : Inbox
inbox = record { matcher = new_reply_matcher; log = []; match_events = []; handled = [] }

receive_all-once_example :
    let after = receive_all flat (115 ∷ []) true error_text (stray ∷ []) inbox in
    (outcomes flat (115 ∷ []) after ≡ outcomes flat (115 ∷ []) inbox + 1)
    × (after.matcher.lost ≡ 0)
    × ((n : ℕ) → deliveries n after.matcher.delivered ≤ 1)
    × All (λ e. accepts flat (e.0).authenticator (115 ∷ []) e.1 ≡ true) after.matcher.delivered
receive_all-once_example =
    receive_all-once flat (115 ∷ []) true error_text (stray ∷ []) inbox
      (((λ m. here), λ m. here), tt) here
