-- ===== src/Io/Matcher/Calls.antt =====
-- Callers of the table: each of their sections under the mutex in turn, with Deliver as its code has
-- it. What a call of Deliver finds in its first section is kept until its second. Where there is a third, it reads the table for the event and
-- leaves it as it is, so that it is taken with the second.
use radstorm.Prelude.{
  ℕ, zero, suc, ◌≤◌, ◌≡◌, refl, true, Option, none, some, List, [], ◌∷◌, All, get_elem?,
}
use radstorm.Radius.Auth.{Crypto}
use radstorm.Io.Matcher.{
  MatchKey, Delivery, ReplyMatcher, new_reply_matcher, register, cancel, close_all, deliver,
  deliveries, accepts,
}
use radstorm.Io.Matcher.Steps.{
  registers, cancels, closes, Reach, here, next, Inv, new-Inv, Reach-Inv,
}
use radstorm.Io.Matcher.Once.{deliver-Reach}

-- A call of Deliver between its sections, with the state that its first section has found.
pub record Delivering : Type 0 where
  pub key : MatchKey
  pub reply : Delivery
  pub found : ReplyMatcher

pub record Table : Type 0 where
  pub matcher : ReplyMatcher
  pub delivering : List Delivering

pub data Section : Type 0 where
  do_register : MatchKey → (authenticator : List ℕ) → (sub_id : ℕ) → Section
  do_cancel : MatchKey → Section
  do_close_all : Section
  begin_deliver : MatchKey → Delivery → Section
  end_deliver : (n now : ℕ) → Section  -- of the n-th call that is between its sections

abbrev pub new_table : Table
new_table = record { matcher = new_reply_matcher; delivering = [] }

abbrev without : ℕ → List Delivering → List Delivering
without n [] = []
without zero (f ∷ fs) = fs
without (suc n) (f ∷ fs) = f ∷ without n fs

module _ (crypto : Crypto) (secret : List ℕ) where
  end_of : Option Delivering → (n now : ℕ) → Table → Table
  end_of none n now t = t
  end_of (some f) n now t = record {
    matcher = (deliver crypto secret f.key f.reply now f.found t.matcher t.matcher).2;
    delivering = without n t.delivering;
  }

  section_of : Section → Table → Table
  unfolding end_of
  section_of (do_register k authenticator sub_id) t = record t {
    matcher = register k authenticator sub_id t.matcher;
  }
  section_of (do_cancel k) t = record t { matcher = cancel k t.matcher }
  section_of do_close_all t = record t { matcher = close_all t.matcher }
  section_of (begin_deliver k d) t = record t {
    delivering = record { key = k; reply = d; found = t.matcher } ∷ t.delivering;
  }
  section_of (end_deliver n now) t = end_of (get_elem? t.delivering n) n now t

  pub run_sections : List Section → Table → Table
  unfolding section_of
  run_sections [] t = t
  run_sections (q ∷ sections) t = run_sections sections (section_of q t)

  abbrev IsOpen : ReplyMatcher → Delivering → Type 0
  IsOpen m f = Inv crypto secret f.found × Reach crypto secret f.found m

  abbrev IsSound : Table → Type 0
  IsSound t = Inv crypto secret t.matcher × All (IsOpen t.matcher) t.delivering

  Reach-append :
      {a b c : ReplyMatcher}
      → Reach crypto secret a b
      → Reach crypto secret b c
      → Reach crypto secret a c
  Reach-append r here = r
  Reach-append r (next s step) = next (Reach-append r s) step

  carried :
      (m n : ReplyMatcher) (fs : List Delivering)
      → Reach crypto secret m n
      → All (IsOpen m) fs
      → All (IsOpen n) fs
  carried m n [] r h = tt
  carried m n (f ∷ fs) r ((v, s), h) = ((v, Reach-append s r), carried m n fs r h)

  without-IsOpen :
      (m : ReplyMatcher) (n : ℕ) (fs : List Delivering)
      → All (IsOpen m) fs
      → All (IsOpen m) (without n fs)
  without-IsOpen m n [] h = tt
  without-IsOpen m zero (f ∷ fs) h = h.1
  without-IsOpen m (suc n) (f ∷ fs) h = (h.0, without-IsOpen m n fs h.1)

  found-IsOpen :
      (m : ReplyMatcher) (n : ℕ) (fs : List Delivering) (f : Delivering)
      → All (IsOpen m) fs
      → get_elem? fs n ≡ some f
      → IsOpen m f
  found-IsOpen m n [] f h e = cc e
  found-IsOpen m zero (g ∷ fs) f h e = let same : g ≡ f = cc e in rw⁻¹ same (h.0)
  found-IsOpen m (suc n) (g ∷ fs) f h e = found-IsOpen m n fs f h.1 e

  moved-IsSound :
      (n : ReplyMatcher) (t : Table)
      → Reach crypto secret t.matcher n
      → IsSound t
      → IsSound (record t { matcher = n })
  moved-IsSound n t r (v, h) = (Reach-Inv crypto secret v r, carried t.matcher n t.delivering r h)

  end_of-IsSound :
      (o : Option Delivering) (n now : ℕ) (t : Table)
      → get_elem? t.delivering n ≡ o
      → IsSound t
      → IsSound (end_of o n now t)
  unfolding end_of
  end_of-IsSound none n now t e h = h
  end_of-IsSound (some f) n now t e (v, h) =
      let (w, r) = found-IsOpen t.matcher n t.delivering f h e in
      let moved =
        deliver-Reach crypto secret f.found t.matcher t.matcher f.key f.reply now w r here in
      let (v2, h2) = moved-IsSound _ t moved (v, h) in (v2, without-IsOpen _ n t.delivering h2)

  section_of-IsSound : (q : Section) (t : Table) → IsSound t → IsSound (section_of q t)
  unfolding section_of
  section_of-IsSound (do_register k a s) t h =
      moved-IsSound _ t (next here (registers t.matcher k a s)) h
  section_of-IsSound (do_cancel k) t h = moved-IsSound _ t (next here (cancels t.matcher k)) h
  section_of-IsSound do_close_all t h = moved-IsSound _ t (next here (closes t.matcher)) h
  section_of-IsSound (begin_deliver k d) t h = (h.0, ((h.0, here), h.1))
  section_of-IsSound (end_deliver n now) t h =
      end_of-IsSound (get_elem? t.delivering n) n now t refl h

  run_sections-IsSound :
      (sections : List Section) (t : Table) → IsSound t → IsSound (run_sections sections t)
  unfolding run_sections
  run_sections-IsSound [] t h = h
  run_sections-IsSound (q ∷ sections) t h =
      run_sections-IsSound sections (section_of q t) (section_of-IsSound q t h)

  -- After any sequence of Register, Cancel, CloseAll and the sections of any number of calls of
  -- Deliver, on a new matcher and in any order in which the sections of each call follow each
  -- other, each request has been handed at most one reply, no reply was dropped for a full
  -- channel, and each reply handed over passes ValidateResponseAuthenticator for the Authenticator
  -- of its request.
  pub run_sections_once :
      (sections : List Section)
      → let m = (run_sections sections new_table).matcher in
        (m.lost ≡ 0)
        × ((n : ℕ) → deliveries n m.delivered ≤ 1)
        × All (λ e. accepts crypto (e.0).authenticator secret e.1 ≡ true) m.delivered
  run_sections_once sections =
      let v = (run_sections-IsSound sections new_table (new-Inv crypto secret, tt)).0 in
      (v.none_lost, v.once, v.checked)
