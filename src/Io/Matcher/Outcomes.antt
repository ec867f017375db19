-- ===== src/Io/Matcher/Outcomes.antt =====
-- What a call of Deliver answers and leaves behind.
use radstorm.Prelude.{
  ℕ, ◌+◌, ◌≤◌, ◌≡◌, refl, ap, inl, inr, true, false, none, some, List, [], ◌∷◌, ltb, ==_refl,
  length, Bool-cases, arith,
}
use radstorm.Prelude.Maps.{
  Map, lookup, put, text_key, pair_key, number_key, lookup-put_self, lookup-remove_self,
}
use radstorm.Radius.Auth.{Crypto}
use radstorm.Io.Matcher.{
  MatchKey, Inflight, Completed, Delivery, Delivered, validation_failed, duplicate_reply,
  ReplyMatcher, claim, push, deliveries, accepts, still_pending, late, claim_or_late, deliver_found,
  deliver, deliver_alone, gc_locked, sweep, completed_ttl,
}

sweep-lookup :
    (now : ℕ) (k : MatchKey) (c : Completed) (recent : Map MatchKey Completed)
    → now ≤ c.completed_at + completed_ttl
    → lookup k recent ≡ some c
    → lookup k (sweep now recent) ≡ some c
unfolding sweep lookup
sweep-lookup now k c [] fresh h = h
sweep-lookup now k c ((j, b) ∷ recent) fresh h =
    let rest : lookup k recent ≡ some c → lookup k (sweep now recent) ≡ some c =
      sweep-lookup now k c recent fresh in
    ground (arith, rest)

gc_locked-lookup :
    (now threshold : ℕ) (k : MatchKey) (c : Completed) (recent : Map MatchKey Completed)
    → now ≤ c.completed_at + completed_ttl
    → lookup k recent ≡ some c
    → lookup k (gc_locked now threshold recent) ≡ some c
unfolding gc_locked
gc_locked-lookup now threshold k c recent fresh h =
    elim (Bool-cases (ltb (length recent) threshold)) [
      | inl e ↦ rw e h
      | inr e ↦ rw e (sweep-lookup now k c recent fresh h)
    ]

module _ (crypto : Crypto) (secret : List ℕ) where
  claim_delivered :
      (k : MatchKey) (i : Inflight) (d : Delivery) (now : ℕ) (m : ReplyMatcher)
      → deliveries i.serial m.delivered ≡ 0
      → let m' = claim k i d now m in
        (m'.delivered ≡ (i, d) ∷ m.delivered)
        × (lookup k m'.pending ≡ none)
        × (lookup k m'.recent_done
            ≡ some (record {
              request_authenticator = i.authenticator;
              sub_id = i.sub_id;
              completed_at = now;
            }))
  unfolding claim push
  claim_delivered k i d now m waiting =
      let c : Completed = record {
        request_authenticator = i.authenticator;
        sub_id = i.sub_id;
        completed_at = now;
      } in
      rw waiting (
        refl,
        lookup-remove_self k m.pending,
        gc_locked-lookup now m.gc_threshold k c (put k c m.recent_done) (omega arith)
            (lookup-put_self k c m.recent_done),
      )

  duplicate :
      (k : MatchKey) (d : Delivery) (now : ℕ) (m : ReplyMatcher) (c : Completed)
      → lookup k m.pending ≡ none
      → lookup k m.recent_done ≡ some c
      → accepts crypto c.request_authenticator secret d ≡ true
      → deliver_alone crypto secret k d now m ≡ (true, some (duplicate_reply c.sub_id), m)
  unfolding deliver deliver_found late
  duplicate k d now m c gone done good = rw (gone, deliver_found, done, late, good) refl

  -- For a request that waits with an empty channel, the first accepted reply claims it: its
  -- channel gets that reply and its key waits no more; a second accepted reply is then, however
  -- much later, reported as a duplicate of its subscriber and changes nothing.
  pub deliver_twice :
      (k : MatchKey) (i : Inflight) (d d' : Delivery) (now later : ℕ) (m : ReplyMatcher)
      → lookup k m.pending ≡ some i
      → deliveries i.serial m.delivered ≡ 0
      → accepts crypto i.authenticator secret d ≡ true
      → accepts crypto i.authenticator secret d' ≡ true
      → let m' = claim k i d now m in
        (deliver_alone crypto secret k d now m ≡ (true, none, m'))
        × (m'.delivered ≡ (i, d) ∷ m.delivered)
        × (lookup k m'.pending ≡ none)
        × (deliver_alone crypto secret k d' later m' ≡ (true, some (duplicate_reply i.sub_id), m'))
  unfolding deliver deliver_found claim_or_late still_pending
  deliver_twice k i d d' now later m found waiting good good' =
      let (put_in, gone, done) = claim_delivered k i d now m waiting in
      (
        rw (found, deliver_found, good, found, still_pending, ==_refl i.serial) refl,
        put_in,
        gone,
        duplicate k d' later (claim k i d now m) _ gone done good',
      )

  forged :
      (k : MatchKey) (i : Inflight) (d : Delivery) (now : ℕ) (m : ReplyMatcher)
      → lookup k m.pending ≡ some i
      → accepts crypto i.authenticator secret d ≡ false
      → deliver_alone crypto secret k d now m ≡ (false, some (validation_failed i.sub_id), m)
  unfolding deliver deliver_found
  forged k i d now m found bad = rw (found, deliver_found, bad) refl

  -- A reply that is not accepted for the request that waits at its key is reported as a failed
  -- validation, and any later reply has the effect that it would have had without it.
  pub deliver_forged :
      (k : MatchKey) (i : Inflight) (d d' : Delivery) (now later : ℕ) (m : ReplyMatcher)
      → lookup k m.pending ≡ some i
      → accepts crypto i.authenticator secret d ≡ false
      → let r = deliver_alone crypto secret k d now m in
        (r.0 ≡ false)
        × (r.1 ≡ some (validation_failed i.sub_id))
        × (deliver_alone crypto secret k d' later r.2 ≡ deliver_alone crypto secret k d' later m)
  deliver_forged k i d d' now later m found bad =
      let e = forged k i d now m found bad in
      (
        ap (λ (r : Delivered). r.0) e,
        ap (λ (r : Delivered). r.1) e,
        ap (λ (r : Delivered). deliver_alone crypto secret k d' later r.2) e,
      )
