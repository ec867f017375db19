-- ===== src/Subscriber/PoolExamples.antt =====
-- The theorems on pkg/subscriber/pool.go at concrete inputs.
use radstorm.Prelude.{ℕ, zero, suc, ◌≡◌, ◌≢◌, refl, subst, get_or, some, [], ◌∷◌, replicate, arith}
use radstorm.Prelude.Int.{pos}
use radstorm.Radius.Attribute.{get_string}
use radstorm.Radius.Packet.{Packet}
use radstorm.Subscriber.Pool.{
  Credential, Texts, new_pool, subscriber_at, get, lookup_by, lookup_packet,
}
use radstorm.Subscriber.Pool.Recycled.{IsPlain}
use radstorm.Subscriber.Pool.Named.{AreProper}
use radstorm.Subscriber.Pool.Found.{IsTelling, by_session, new_pool-found, new_pool-lookup_packet}

abbrev texts : Texts
texts = record {
  hex8 = λ n. n ∷ [];
  hex2 = λ n. n ∷ [];
  decimal = λ n. n ∷ [];
  ip_text = λ ip. 46 ∷ ip;
}

texts-IsTelling : IsTelling texts
texts-IsTelling = record {
  hex8_injective = λ m n hm hn e. cc e;
  ip_text_injective = λ m n hm hn e. cc e;
  ip_text_nonempty = λ n e. cc e;
}

-- The name is a.
abbrev cred : Credential
cred = record {
  username = 97 ∷ [];
  password = 112 ∷ [];
  auth_method = [];
  sub_type = [];
  nas_port_id = [];
  mac_address = [];
}

only : (i : ℕ) → cred ≡ get_or (cred ∷ []) i cred
only zero = refl
only (suc i) = refl

cred-AreProper : AreProper cred []
cred-AreProper = record {
  distinct = λ i j hi hj e. omega (arith, hi, hj);
  nonempty = λ i. subst (λ c. c.username ≢ []) (only i) (λ e. cc e);
  plain = λ i. subst (λ c. IsPlain c.username) (only i) (λ e. absurd (omega (arith, e)), tt);
}

-- The session of the subscriber 2, with an attribute before it.
abbrev targeted : Packet
targeted = record {
  code = 43;
  identifier = 0;
  authenticator = replicate 16 0;
  attributes =
      record { typ = 1; value = 98 ∷ [] }
      ∷ record { typ = 44; value = 114 ∷ 97 ∷ 100 ∷ 115 ∷ 116 ∷ 111 ∷ 114 ∷ 109 ∷ 45 ∷ 2 ∷ [] }
      ∷ [];
  request_authenticator = replicate 16 0;
  secret = [];
}

new_pool-found_example :
    let p = new_pool texts (cred ∷ []) (pos 3) (pos 50) (pos 50) in
    let s = subscriber_at texts cred [] (pos 50) (pos 50) 2 in
    (get p 2 ≡ some s)
    × (lookup_by p.by_session_id s.session_id ≡ some s)
    × (lookup_by p.by_username s.credential.username ≡ some s)
    × (lookup_by p.by_framed_ip (texts.ip_text s.framed_ip) ≡ some s)
new_pool-found_example =
    new_pool-found texts cred [] (pos 50) (pos 50) (pos 3) 2 texts-IsTelling cred-AreProper
      (omega arith) (omega arith)

named :
    get_string targeted.attributes 44 ≡ (subscriber_at texts cred [] (pos 50) (pos 50) 2).session_id
unfolding get_string subscriber_at
named = refl

new_pool-lookup_packet_example :
    lookup_packet texts.ip_text (new_pool texts (cred ∷ []) (pos 3) (pos 50) (pos 50)) targeted
    ≡ some (subscriber_at texts cred [] (pos 50) (pos 50) 2)
new_pool-lookup_packet_example =
    new_pool-lookup_packet texts cred [] (pos 50) (pos 50) (pos 3) 2 targeted texts-IsTelling
      cred-AreProper (omega arith) (omega arith) (by_session named)
