-- ===== src/Io/Examples.antt =====
-- The theorems on pkg/io at concrete inputs.
use radstorm.Prelude.{
  List, replicate, true, ◌≤◌, All, ℕ, ◌≡◌, refl, false, none, some, [], ◌∷◌, arith,
}
use radstorm.Prelude.Maps.{lookup, lookup-put_self, text_key, pair_key, number_key}
use radstorm.Radius.Packet.{
  validate_response_authenticator, constant_time_equal, find_message_authenticator_offset,
}
use radstorm.Radius.Auth.{compute_response_authenticator}
use radstorm.Radius.Code.{is_response}
use radstorm.Radius.Examples.{flat}
use radstorm.Io.Matcher.{
  Delivery, Inflight, MatchKey, ReplyMatcher, new_reply_matcher, register, claim, accepts, deliver,
  deliver_alone, deliveries, validation_failed, duplicate_reply,
}
use radstorm.Io.IdAlloc.Tuples.{
  Tuple, allocates, perform, IsCall, held, AllValid, new_id_allocator, new-AllValid, perform-IsCall,
}
use radstorm.Io.Matcher.Steps.{registers, Reach, here, next, new-Inv, Reach-Inv}
use radstorm.Io.Matcher.Once.{deliver-Reach}
use radstorm.Io.Matcher.Calls.{
  Section, do_register, begin_deliver, end_deliver, new_table, run_sections, run_sections_once,
}
use radstorm.Io.Matcher.Outcomes.{deliver_twice, deliver_forged}
use radstorm.Io.IdAlloc.{IdBitmap, in_use, allocate}
use radstorm.Io.IdAlloc.Scan.{used, IsValid}

-- The identifiers 64 and 255 are in use, and the scan starts at 255.
abbrev two_taken : IdBitmap
two_taken = record { bits = 0 ∷ 1 ∷ 0 ∷ 9223372036854775808 ∷ []; count = 2; next = 255 }

two_taken-IsValid : IsValid two_taken
unfolding used in_use
two_taken-IsValid = (refl, omega arith, refl)

wraps : (allocate two_taken).1 ≡ some 0
unfolding allocate
wraps = refl

-- An Access-Accept that the flat digest signs, or does not.
abbrev pub reply : ℕ → Delivery
reply digest = record {
  packet = record {
    code = 2;
    identifier = 9;
    authenticator = replicate 16 digest;
    attributes = [];
    request_authenticator = replicate 16 5;
    secret = 115 ∷ [];
  };
  wire_bytes = 2 ∷ 9 ∷ 0 ∷ 20 ∷ replicate 16 digest;
  remote_addr = [];
}

abbrev key : MatchKey
key = (49 ∷ [], 9)

-- One request waits.
abbrev waiting : ReplyMatcher
unfolding new_reply_matcher register
waiting = register key (replicate 16 5) 3 new_reply_matcher

abbrev request : Inflight
request = record { serial = 0; authenticator = replicate 16 5; sub_id = 3 }

accepted : accepts flat (replicate 16 5) (115 ∷ []) (reply 7) ≡ true
unfolding accepts flat validate_response_authenticator constant_time_equal
    compute_response_authenticator is_response find_message_authenticator_offset
accepted = refl

pub rejected : accepts flat (replicate 16 5) (115 ∷ []) (reply 8) ≡ false
unfolding accepts flat validate_response_authenticator constant_time_equal
    compute_response_authenticator is_response find_message_authenticator_offset
rejected = refl

found : lookup key waiting.pending ≡ some request
unfolding waiting new_reply_matcher register
found = lookup-put_self key request []

waiting_reached : Reach flat (115 ∷ []) new_reply_matcher waiting
unfolding waiting
waiting_reached = next here (registers new_reply_matcher key (replicate 16 5) 3)

deliver-Reach_example :
    Reach flat
      (115 ∷ [])
      waiting
      (deliver flat (115 ∷ []) key (reply 7) 60 waiting waiting waiting).2
deliver-Reach_example =
    deliver-Reach flat (115 ∷ []) waiting waiting waiting key (reply 7) 60
      (Reach-Inv flat (115 ∷ []) (new-Inv flat (115 ∷ [])) waiting_reached) here here

abbrev served : ReplyMatcher
served = claim key request (reply 7) 60 waiting

-- A request and its reply.
abbrev served_sections : List Section
served_sections =
    do_register key (replicate 16 5) 3 ∷ begin_deliver key (reply 7) ∷ end_deliver 0 60 ∷ []

run_sections_once_example :
    let m = (run_sections flat (115 ∷ []) served_sections new_table).matcher in
    (m.lost ≡ 0)
    × ((n : ℕ) → deliveries n m.delivered ≤ 1)
    × All (λ e. accepts flat (e.0).authenticator (115 ∷ []) e.1 ≡ true) m.delivered
run_sections_once_example = run_sections_once flat (115 ∷ []) served_sections

nothing_sent : deliveries 0 waiting.delivered ≡ 0
unfolding waiting new_reply_matcher register deliveries
nothing_sent = refl

deliver_twice_example :
    (deliver_alone flat (115 ∷ []) key (reply 7) 60 waiting ≡ (true, none, served))
    × (served.delivered ≡ (request, reply 7) ∷ waiting.delivered)
    × (lookup key served.pending ≡ none)
    × (deliver_alone flat (115 ∷ []) key (reply 7) 61 served
        ≡ (true, some (duplicate_reply 3), served))
deliver_twice_example =
    deliver_twice flat (115 ∷ []) key request (reply 7) (reply 7) 60 61 waiting found nothing_sent
      accepted accepted

deliver_forged_example :
    let r = deliver_alone flat (115 ∷ []) key (reply 8) 60 waiting in
    (r.0 ≡ false)
    × (r.1 ≡ some (validation_failed 3))
    × (deliver_alone flat (115 ∷ []) key (reply 7) 61 r.2
        ≡ deliver_alone flat (115 ∷ []) key (reply 7) 61 waiting)
deliver_forged_example =
    deliver_forged flat (115 ∷ []) key request (reply 8) (reply 7) 60 61 waiting found rejected

abbrev addresses : Tuple
addresses = ((10 ∷ [], 4000), (10 ∷ [], 1812))

perform-IsCall_example :
    IsCall
      (allocates addresses)
      (held new_id_allocator)
      (held (perform (allocates addresses) new_id_allocator).0)
      (perform (allocates addresses) new_id_allocator).1
    × AllValid (perform (allocates addresses) new_id_allocator).0
perform-IsCall_example = perform-IsCall (allocates addresses) new_id_allocator new-AllValid
