-- ===== src/Io/Matcher/Steps.antt =====
-- The interleavings of the calls, as steps of the state, and what every step keeps.
use radstorm.Prelude.{
  ℕ, ◌≤◌, ◌<◌, ◌≡◌, ◌≢◌, refl, sym, ap, ◌∙◌, inl, inr, true, some, List, [], ◌==◌, ==_iff, All,
  Bool-cases, arith,
}
use radstorm.Prelude.Maps.{
  Map, lookup, remove, text_key, pair_key, number_key, lookup-put_cases, lookup-remove-some,
}
use radstorm.Radius.Auth.{Crypto}
use radstorm.Io.Matcher.{
  MatchKey, Inflight, Completed, Delivery, ReplyMatcher, new_reply_matcher, register, cancel,
  close_all, claim, push, deliveries, accepts,
}

module _ (crypto : Crypto) (secret : List ℕ) where
  -- The section of one call under the mutex. A claim is for the entry that is at the key, with a
  -- reply that was accepted before.
  pub data Step : ReplyMatcher → ReplyMatcher → Type 0 where
    registers :
        (m : ReplyMatcher) (k : MatchKey) (authenticator : List ℕ) (sub_id : ℕ)
        → Step m (register k authenticator sub_id m)
    cancels : (m : ReplyMatcher) (k : MatchKey) → Step m (cancel k m)
    closes : (m : ReplyMatcher) → Step m (close_all m)
    claims :
        (m : ReplyMatcher) (k : MatchKey) (i : Inflight) (d : Delivery) (now : ℕ)
        → lookup k m.pending ≡ some i
        → accepts crypto i.authenticator secret d ≡ true
        → Step m (claim k i d now m)

  pub data Reach (s : ReplyMatcher) : ReplyMatcher → Type 0 where
    here : Reach s s
    next : {m n : ReplyMatcher} → Reach s m → Step m n → Reach s n

  -- The requests pending have numbers of their own, given out before, and nothing is in their
  -- channels; no channel was full.
  pub record Inv (m : ReplyMatcher) : Type 0 where
    pub below :
        (k : MatchKey) (i : Inflight) → lookup k m.pending ≡ some i → i.serial < m.next_serial
    pub apart :
        (j k : MatchKey) (i i' : Inflight)
        → lookup j m.pending ≡ some i
        → lookup k m.pending ≡ some i'
        → i.serial ≡ i'.serial
        → j ≡ k
    pub waiting :
        (k : MatchKey) (i : Inflight)
        → lookup k m.pending ≡ some i
        → deliveries i.serial m.delivered ≡ 0
    pub ahead : (n : ℕ) → m.next_serial ≤ n → deliveries n m.delivered ≡ 0
    pub once : (n : ℕ) → deliveries n m.delivered ≤ 1
    pub none_lost : m.lost ≡ 0
    pub checked : All (λ e. accepts crypto (e.0).authenticator secret e.1 ≡ true) m.delivered

  pub new-Inv : Inv new_reply_matcher
  unfolding new_reply_matcher lookup deliveries
  new-Inv = record {
    below = λ k i h. cc;
    apart = λ j k i i' h h' e. cc;
    waiting = λ k i h. cc;
    ahead = λ n h. refl;
    once = λ n. omega arith;
    none_lost = refl;
    checked = tt;
  }

  -- Taking entries out of the table keeps the invariant.
  fewer-Inv :
      (m : ReplyMatcher) (pending : Map MatchKey Inflight) (recent : Map MatchKey Completed)
      (closed : List ℕ)
      → ((k : MatchKey) (i : Inflight) → lookup k pending ≡ some i → lookup k m.pending ≡ some i)
      → Inv m
      → Inv (record m { pending = pending; recent_done = recent; closed = closed })
  fewer-Inv m pending recent closed sub v = record {
    below = λ k i h. v.below k i (sub k i h);
    apart = λ j k i i' h h' e. v.apart j k i i' (sub j i h) (sub k i' h') e;
    waiting = λ k i h. v.waiting k i (sub k i h);
    ahead = v.ahead;
    once = v.once;
    none_lost = v.none_lost;
    checked = v.checked;
  }

  register-Inv :
      (m : ReplyMatcher) (k : MatchKey) (authenticator : List ℕ) (sub_id : ℕ)
      → Inv m
      → Inv (register k authenticator sub_id m)
  unfolding register
  register-Inv m k authenticator sub_id v =
      let i : Inflight = record {
        serial = m.next_serial;
        authenticator = authenticator;
        sub_id = sub_id;
      } in
      record {
        below = λ j w h. elim (lookup-put_cases j k i w m.pending h) [
          | inl (s, e) ↦ omega (arith, ap (λ (x : Inflight). x.serial) e)
          | inr (s, h') ↦ omega (arith, v.below j w h')
        ];
        apart = λ j j' w w' h h' e. elim (lookup-put_cases j k i w m.pending h) [
          | inl (s, q) ↦ elim (lookup-put_cases j' k i w' m.pending h') [
            | inl (s', q') ↦ sym s ∙ s'
            | inr (s', g') ↦
                absurd (omega (arith, v.below j' w' g', ap (λ (x : Inflight). x.serial) q))
          ]
          | inr (s, g) ↦ elim (lookup-put_cases j' k i w' m.pending h') [
            | inl (s', q') ↦
                absurd (omega (arith, v.below j w g, ap (λ (x : Inflight). x.serial) q'))
            | inr (s', g') ↦ v.apart j j' w w' g g' e
          ]
        ];
        waiting = λ j w h. elim (lookup-put_cases j k i w m.pending h) [
          | inl (s, e) ↦
              ap (λ (x : Inflight). deliveries x.serial m.delivered) (sym e)
              ∙ v.ahead m.next_serial (omega arith)
          | inr (s, h') ↦ v.waiting j w h'
        ];
        ahead = λ n h. v.ahead n (omega arith);
        once = v.once;
        none_lost = v.none_lost;
        checked = v.checked;
      }

  claim-Inv :
      (m : ReplyMatcher) (k : MatchKey) (i : Inflight) (d : Delivery) (now : ℕ)
      → lookup k m.pending ≡ some i
      → accepts crypto i.authenticator secret d ≡ true
      → Inv m
      → Inv (claim k i d now m)
  unfolding claim push deliveries
  claim-Inv m k i d now found good v = rw (v.waiting k i found) (record {
    below = λ j w h. v.below j w (lookup-remove-some j k w m.pending h).1;
    apart = λ j j' w w' h h' e.
        v.apart j j' w w' (lookup-remove-some j k w m.pending h).1
          (lookup-remove-some j' k w' m.pending h').1 e;
    waiting = λ j w h.
        let (other, g) = lookup-remove-some j k w m.pending h in
        let differ : i.serial ≢ w.serial = λ e. other (v.apart k j i w found g e) in
        ground (arith, v.waiting j w g, differ);
    ahead = λ n h. let small = v.below k i found in ground (arith, v.ahead n h);
    once = λ n. elim (Bool-cases (i.serial == n)) [
      | inl e ↦ rw e (
          omega (
            arith,
            ap (λ s. deliveries s m.delivered) ((==_iff i.serial n).0 e),
            v.waiting k i found,
          ))
      | inr e ↦ rw e (omega (arith, v.once n))
    ];
    none_lost = v.none_lost;
    checked = (good, v.checked);
  })

  pub Step-Inv : {m n : ReplyMatcher} → Step m n → Inv m → Inv n
  unfolding cancel close_all
  Step-Inv (registers m k a s) v = register-Inv m k a s v
  Step-Inv (cancels m k) v =
      fewer-Inv m (remove k m.pending) _ _ (λ j w h. (lookup-remove-some j k w m.pending h).1) v
  Step-Inv (closes m) v = fewer-Inv m [] _ _ (λ j w h. unfold lookup in cc h) v
  Step-Inv (claims m k i d now found good) v = claim-Inv m k i d now found good v

  pub Reach-Inv : {m n : ReplyMatcher} → Inv m → Reach m n → Inv n
  Reach-Inv v here = v
  Reach-Inv v (next r s) = Step-Inv s (Reach-Inv v r)
