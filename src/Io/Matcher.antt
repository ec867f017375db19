-- ===== src/Io/Matcher.antt =====
-- ReplyMatcher of pkg/io/matcher.go: the requests that wait for a reply. An `*inflight` is known by
-- the number of its Register, so that the comparison of two pointers is one of numbers. What is
-- done under the mutex is one function of the state; Deliver takes it twice, or three times where it loses a
-- race, so that other calls may come between. The channel of a request holds one reply: `lost` counts those that found it
-- full. The mutex is held by each function from its first line to its last.
pub mod Check
pub mod Steps
pub mod Once
pub mod Calls
pub mod Outcomes
use radstorm.Prelude.{
  ℕ, zero, suc, ◌+◌, Bool, true, false, ◌&&◌, Option, none, some, List, [], ◌∷◌, ◌++◌, map, ltb,
  ◌==◌, if◌then◌else◌, length,
}
use radstorm.Prelude.Maps.{Map, lookup, put, remove, text_key, pair_key, number_key}
use radstorm.Radius.Auth.{Crypto}
use radstorm.Radius.Packet.{Packet, validate_response_authenticator}

-- The text of the local address, and the identifier.
abbrev pub MatchKey : Type 0
MatchKey = List ℕ × ℕ

pub record Inflight : Type 0 where
  pub serial : ℕ
  pub authenticator : List ℕ  -- Request.Authenticator
  pub sub_id : ℕ

pub record Completed : Type 0 where
  pub request_authenticator : List ℕ
  pub sub_id : ℕ
  pub completed_at : ℕ

-- A reply as Deliver is given it.
pub record Delivery : Type 0 where
  pub packet : Packet
  pub wire_bytes : List ℕ
  pub remote_addr : List ℕ

pub data MatchEvent : Type 0 where
  validation_failed : ℕ → MatchEvent  -- the subscriber's id
  duplicate_reply : ℕ → MatchEvent
  unmatched_reply : MatchEvent

pub record ReplyMatcher : Type 0 where
  pub pending : Map MatchKey Inflight
  pub recent_done : Map MatchKey Completed
  pub gc_threshold : ℕ
  pub next_serial : ℕ
  pub delivered : List (Inflight × Delivery)  -- what went into the channels
  pub lost : ℕ
  pub closed : List ℕ  -- the numbers whose `done` is closed

-- doneOnce.Do(close(done))
contains : ℕ → List ℕ → Bool
contains n [] = false
contains n (m ∷ rest) = if m == n then true else contains n rest

abbrev close_done : Option Inflight → List ℕ → List ℕ
close_done none closed = closed
close_done (some i) closed = if contains i.serial closed then closed else i.serial ∷ closed

-- NewReplyMatcher
unfoldable pub new_reply_matcher : ReplyMatcher
new_reply_matcher = record {
  pending = [];
  recent_done = [];
  gc_threshold = 1024;
  next_serial = 0;
  delivered = [];
  lost = 0;
  closed = [];
}

-- Register
unfoldable pub register : MatchKey → List ℕ → ℕ → ReplyMatcher → ReplyMatcher
unfolding contains
register k authenticator sub_id m =
    let i : Inflight = record {
      serial = m.next_serial;
      authenticator = authenticator;
      sub_id = sub_id;
    } in
    record m {
      pending = put k i m.pending;
      recent_done = remove k m.recent_done;
      next_serial = suc m.next_serial;
      closed = close_done (lookup k m.pending) m.closed;
    }

-- Cancel
unfoldable pub cancel : MatchKey → ReplyMatcher → ReplyMatcher
unfolding contains
cancel k m = record m {
  pending = remove k m.pending;
  closed = close_done (lookup k m.pending) m.closed;
}

close_each : Map MatchKey Inflight → List ℕ → List ℕ
unfolding contains
close_each [] closed = closed
close_each ((k, i) ∷ rest) closed = close_each rest (close_done (some i) closed)

-- CloseAll
unfoldable pub close_all : ReplyMatcher → ReplyMatcher
unfolding close_each
close_all m = record m { pending = []; recent_done = []; closed = close_each m.pending m.closed }

-- completedTTL, in nanoseconds
abbrev pub completed_ttl : ℕ
completed_ttl = 30000000000

-- The loop of gcLocked: what was completed before now - completedTTL is dropped.
sweep : ℕ → Map MatchKey Completed → Map MatchKey Completed
sweep now [] = []
sweep now ((k, c) ∷ rest) =
    let kept = sweep now rest in
    if ltb (c.completed_at + completed_ttl) now then kept else (k, c) ∷ kept

-- gcLocked
unfoldable pub gc_locked : ℕ → ℕ → Map MatchKey Completed → Map MatchKey Completed
unfolding sweep
gc_locked now threshold recent = if ltb (length recent) threshold then recent else sweep now recent

-- How often the channel of a request was written to.
unfoldable pub deliveries : ℕ → List (Inflight × Delivery) → ℕ
deliveries n [] = 0
deliveries n ((i, d) ∷ rest) = (if i.serial == n then 1 else 0) + deliveries n rest

-- The `select` on the channel, which has room for one reply.
push : Inflight → Delivery → ReplyMatcher → ReplyMatcher
unfolding deliveries
push i d m =
    if deliveries i.serial m.delivered == 0
    then record m { delivered = (i, d) ∷ m.delivered }
    else record m { lost = suc m.lost }

-- The entry at the key is the request that Deliver found before.
unfoldable pub still_pending : Option Inflight → Inflight → Bool
still_pending none i = false
still_pending (some j) i = j.serial == i.serial

-- The claim of Deliver where it succeeds: both sections under the mutex, and the push.
unfoldable pub claim : MatchKey → Inflight → Delivery → ℕ → ReplyMatcher → ReplyMatcher
unfolding gc_locked push contains
claim k i d now m =
    let c : Completed = record {
      request_authenticator = i.authenticator;
      sub_id = i.sub_id;
      completed_at = now;
    } in
    push i d (record m {
      pending = remove k m.pending;
      recent_done = gc_locked now m.gc_threshold (put k c m.recent_done);
      closed = close_done (some i) m.closed;
    })

-- The result of Deliver: its answer, the event submitted and the state.
abbrev pub Delivered : Type 0
Delivered = Bool × Option MatchEvent × ReplyMatcher

module _ (crypto : Crypto) where
  -- ValidateResponseAuthenticator. A decoded packet never takes it out of the slice (Check).
  unfoldable pub accepts : List ℕ → List ℕ → Delivery → Bool
  accepts authenticator secret d =
      elim (validate_response_authenticator crypto d.packet authenticator secret d.wire_bytes) [
        | none ↦ false
        | some valid ↦ valid
      ]

  -- The last part of Deliver, for the entry of recentDone.
  late : List ℕ → Delivery → Option Completed → ReplyMatcher → Delivered
  unfolding accepts
  late secret d none m = (false, some unmatched_reply, m)
  late secret d (some c) m =
      if accepts c.request_authenticator secret d
      then (true, some (duplicate_reply c.sub_id), m)
      else (false, some unmatched_reply, m)

  -- Deliver from its second section on, which finds the state `m`. Where it does not find the request
  -- any more, a third section reads recentDone and finds the state `after`.
  unfoldable pub claim_or_late :
      List ℕ → MatchKey → Delivery → ℕ → Inflight → (m after : ReplyMatcher) → Delivered
  unfolding claim late still_pending
  claim_or_late secret k d now i m after =
      if still_pending (lookup k m.pending) i
      then (true, none, claim k i d now m)
      else late secret d (lookup k after.recent_done) after

  -- Deliver for the entry of `pending` that its first section found in `before`; the second
  -- section finds the state `m` and the third one, where there is one, `after`.
  deliver_found :
      List ℕ
      → MatchKey
      → Delivery
      → ℕ
      → Option Inflight
      → (before m after : ReplyMatcher) → Delivered
  unfolding claim_or_late late accepts
  deliver_found secret k d now none before m after = late secret d (lookup k before.recent_done) m
  deliver_found secret k d now (some i) before m after =
      if accepts i.authenticator secret d
      then claim_or_late secret k d now i m after
      else (false, some (validation_failed i.sub_id), m)

  -- Deliver: its first section finds the state `before`, and its second and third one the states `m`
  -- and `after` that the calls between have left. Most calls end before the third.
  unfoldable pub deliver :
      List ℕ → MatchKey → Delivery → ℕ → (before m after : ReplyMatcher) → Delivered
  unfolding deliver_found
  deliver secret k d now before m after =
      deliver_found secret k d now (lookup k before.pending) before m after

  -- A call of Deliver with no other between.
  abbrev pub deliver_alone : List ℕ → MatchKey → Delivery → ℕ → ReplyMatcher → Delivered
  deliver_alone secret k d now m = deliver secret k d now m m m
