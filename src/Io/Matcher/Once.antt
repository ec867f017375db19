-- ===== src/Io/Matcher/Once.antt =====
-- Deliver, with any other calls between its sections, is a run of steps; and what holds of
-- every run from the empty table.
use radstorm.Prelude.{
  ℕ, ◌≤◌, ◌<◌, ◌≡◌, refl, ap, inl, inr, true, Option, none, some, List, ◌==◌, ==_iff, All,
  Bool-cases, Option-cases, arith,
}
use radstorm.Prelude.Maps.{
  lookup, text_key, pair_key, number_key, lookup-put_cases, lookup-remove-some,
}
use radstorm.Radius.Auth.{Crypto}
use radstorm.Io.Matcher.{
  MatchKey, Inflight, Completed, Delivery, ReplyMatcher, new_reply_matcher, register, cancel,
  close_all, claim, push, deliveries, accepts, still_pending, late, claim_or_late, deliver_found,
  deliver,
}
use radstorm.Io.Matcher.Steps.{
  Step, registers, cancels, closes, claims, Reach, here, next, Inv, new-Inv, Reach-Inv,
}

module _ (crypto : Crypto) (secret : List ℕ) where
  -- After some steps an entry with an old number is the entry that was there before.
  Persists : ReplyMatcher → ReplyMatcher → Type 0
  Persists b m =
      (b.next_serial ≤ m.next_serial)
      × ((k : MatchKey) (i : Inflight)
          → lookup k m.pending ≡ some i
          → i.serial < b.next_serial
          → lookup k b.pending ≡ some i)

  push-Persists :
      (b m : ReplyMatcher) (i : Inflight) (d : Delivery) → Persists b m → Persists b (push i d m)
  unfolding push Persists
  push-Persists b m i d h = elim (Bool-cases (deliveries i.serial m.delivered == 0)) [
    | inl e ↦ rw e h
    | inr e ↦ rw e h
  ]

  Step-Persists :
      (b : ReplyMatcher) {m n : ReplyMatcher} → Step crypto secret m n → Persists b m → Persists b n
  unfolding Persists register cancel close_all claim
  Step-Persists b (registers m k a s) (up, old) = (
    omega arith,
    λ j i h less. elim (lookup-put_cases j k _ i m.pending h) [
      | inl (same, e) ↦ absurd (omega (arith, ap (λ (x : Inflight). x.serial) e))
      | inr (other, h') ↦ old j i h' less
    ],
  )
  Step-Persists b (cancels m k) (up, old) =
      (up, λ j i h less. old j i (lookup-remove-some j k i m.pending h).1 less)
  Step-Persists b (closes m) (up, old) = (up, λ j i h less. unfold lookup in cc h)
  Step-Persists b (claims m k i d now found good) (up, old) =
      push-Persists b _ i d
        (up, λ j w h less. old j w (lookup-remove-some j k w m.pending h).1 less)

  Reach-Persists : (b : ReplyMatcher) {m : ReplyMatcher} → Reach crypto secret b m → Persists b m
  unfolding Persists
  Reach-Persists b here = (omega arith, λ k i h less. h)
  Reach-Persists b (next r s) = Step-Persists b s (Reach-Persists b r)

  -- The entry found in the first section, if it is still there.
  same_entry :
      (before m : ReplyMatcher) (k : MatchKey) (i : Inflight)
      → Inv crypto secret before
      → Reach crypto secret before m
      → lookup k before.pending ≡ some i
      → still_pending (lookup k m.pending) i ≡ true
      → lookup k m.pending ≡ some i
  unfolding Persists still_pending
  same_entry before m k i v r found still = elim (Option-cases (lookup k m.pending)) [
    | inl e ↦ cc (rw e at still)
    | inr (j, e) ↦
        let number : j.serial ≡ i.serial = (==_iff j.serial i.serial).0 (rw e at still) in
        let old = (Reach-Persists before r).1 k j e (omega (arith, v.below k i found)) in
        cc (old, found, e)
  ]

  late-state :
      (d : Delivery) (c : Option Completed) (m : ReplyMatcher) → (late crypto secret d c m).2 ≡ m
  unfolding late
  late-state d none m = refl
  late-state d (some c) m = elim (Bool-cases (accepts crypto c.request_authenticator secret d)) [
    | inl e ↦ rw e refl
    | inr e ↦ rw e refl
  ]

  late-Reach :
      (d : Delivery) (c : Option Completed) (m : ReplyMatcher)
      → Reach crypto secret m (late crypto secret d c m).2
  late-Reach d c m = rw (late-state d c m) here

  claim_or_late-Reach :
      (before m after : ReplyMatcher) (k : MatchKey) (d : Delivery) (now : ℕ) (i : Inflight)
      → Inv crypto secret before
      → Reach crypto secret before m
      → Reach crypto secret m after
      → lookup k before.pending ≡ some i
      → accepts crypto i.authenticator secret d ≡ true
      → Reach crypto secret m (claim_or_late crypto secret k d now i m after).2
  unfolding claim_or_late
  claim_or_late-Reach before m after k d now i v r calls found good =
      elim (Bool-cases (still_pending (lookup k m.pending) i)) [
        | inl e ↦ rw e (next here (claims m k i d now (same_entry before m k i v r found e) good))
        | inr e ↦ rw (e, late-state d (lookup k after.recent_done) after) calls
      ]

  -- Whatever calls come between its sections, Deliver takes the table by a run of the steps of
  -- the other calls and of claims of entries that are there, for replies that were accepted.
  deliver_found-Reach :
      (before m after : ReplyMatcher) (k : MatchKey) (d : Delivery) (now : ℕ) (o : Option Inflight)
      → Inv crypto secret before
      → Reach crypto secret before m
      → Reach crypto secret m after
      → lookup k before.pending ≡ o
      → Reach crypto secret m (deliver_found crypto secret k d now o before m after).2
  unfolding deliver_found
  deliver_found-Reach before m after k d now none v r calls found =
      late-Reach d (lookup k before.recent_done) m
  deliver_found-Reach before m after k d now (some i) v r calls found =
      elim (Bool-cases (accepts crypto i.authenticator secret d)) [
        | inl e ↦ rw e (claim_or_late-Reach before m after k d now i v r calls found e)
        | inr e ↦ rw e here
      ]

  -- For a call of Deliver whose first section finds a state with the invariant of the matcher and
  -- whose later sections find states that any calls have led to from there, the state that it
  -- leaves is one that atomic calls lead to from the second: Register, Cancel, CloseAll, or the
  -- claim of a waiting request with an accepted reply.
  pub deliver-Reach :
      (before m after : ReplyMatcher) (k : MatchKey) (d : Delivery) (now : ℕ)
      → Inv crypto secret before
      → Reach crypto secret before m
      → Reach crypto secret m after
      → Reach crypto secret m (deliver crypto secret k d now before m after).2
  unfolding deliver
  deliver-Reach before m after k d now v r calls =
      deliver_found-Reach before m after k d now (lookup k before.pending) v r calls refl

  -- In every state that the steps of the matcher lead to from a new one, each request has been handed at most one reply, no reply was dropped for a
  -- full channel, and each reply handed over was accepted for the Authenticator of its request.
  pub Reach-once :
      (m : ReplyMatcher)
      → Reach crypto secret new_reply_matcher m
      → (m.lost ≡ 0)
        × ((n : ℕ) → deliveries n m.delivered ≤ 1)
        × All (λ e. accepts crypto (e.0).authenticator secret e.1 ≡ true) m.delivered
  Reach-once m r =
      let v = Reach-Inv crypto secret (new-Inv crypto secret) r in (v.none_lost, v.once, v.checked)
