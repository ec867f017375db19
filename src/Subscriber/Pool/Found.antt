-- ===== src/Subscriber/Pool/Found.antt =====
-- The subscribers of NewPool, found by each index of the pool and by Lookup.
use radstorm.Prelude.{ℕ, ◌/◌, ◌%◌, ◌<◌, ◌≤◌, ◌≡◌, ◌≢◌, refl, some, List, [], ◌∷◌, arith}
use radstorm.Prelude.Int.{ℤ, above}
use radstorm.Prelude.Maps.{Map, lookup, text_key, number_key}
use radstorm.Radius.Attribute.{get_string, get_ipv4}
use radstorm.Radius.Packet.{Packet}
use radstorm.Subscriber.Pool.{
  Credential, Subscriber, Texts, empty_pool, framed_ip_of, subscriber_at, enter, new_pool, get,
  lookup_by, lookup_packet,
}
use radstorm.Subscriber.Pool.Named.{AreProper, made_username_injective, made_username_nonempty}
use radstorm.Subscriber.Pool.Indexed.{enter_all-Holds}

-- Texts of numbers and of addresses that tell these apart, none of them empty.
pub record IsTelling (texts : Texts) : Type 0 where
  pub hex8_injective :
      (m n : ℕ) → m < 4294967296 → n < 4294967296 → texts.hex8 m ≡ texts.hex8 n → m ≡ n
  pub ip_text_injective :
      (m n : ℕ)
      → m < 16777216
      → n < 16777216
      → texts.ip_text (framed_ip_of m) ≡ texts.ip_text (framed_ip_of n)
      → framed_ip_of m ≡ framed_ip_of n
  pub ip_text_nonempty : (n : ℕ) → texts.ip_text (framed_ip_of n) ≢ []

-- A packet that names a subscriber: by the session, or without one by the name, or without both by
-- the address. What else the packet carries is free.
pub data Targets (packet : Packet) (s : Subscriber) : Type 0 where
  by_session : get_string packet.attributes 44 ≡ s.session_id → Targets packet s
  by_name :
      get_string packet.attributes 44 ≡ []
      → get_string packet.attributes 1 ≡ s.credential.username
      → Targets packet s
  by_ip :
      get_string packet.attributes 44 ≡ []
      → get_string packet.attributes 1 ≡ []
      → get_ipv4 packet.attributes 8 ≡ some s.framed_ip
      → Targets packet s

framed_ip_of_injective :
    (m n : ℕ) → m < 16777216 → n < 16777216 → framed_ip_of m ≡ framed_ip_of n → m ≡ n
framed_ip_of_injective m n hm hn e =
    let high : m / 65536 % 256 ≡ n / 65536 % 256 = cc e in
    let middle : m / 256 % 256 ≡ n / 256 % 256 = cc e in
    let low : m % 256 ≡ n % 256 = cc e in omega arith

lookup_by_nonempty :
    (index : Map (List ℕ) Subscriber) (s : List ℕ) (found : Subscriber)
    → s ≢ []
    → lookup s index ≡ some found
    → lookup_by index s ≡ some found
unfolding lookup_by
lookup_by_nonempty index [] found h e = absurd (h refl)
lookup_by_nonempty index (c ∷ s) found h e = e

module _ (texts : Texts) (cred : Credential) (creds : List Credential) (pap_pct pppoe_pct : ℤ) where
  abbrev made : ℕ → Subscriber
  made i = subscriber_at texts cred creds pap_pct pppoe_pct i

  small_id : (i : ℕ) → i < 4294967296 → i % 4294967296 ≡ i
  small_id i h = omega arith

  pub new_pool-get :
      (count : ℤ) (i : ℕ)
      → above count ≤ 4294967296
      → i < above count
      → get (new_pool texts (cred ∷ creds) count pap_pct pppoe_pct) (i % 4294967296) ≡ some (made i)
  unfolding new_pool get enter subscriber_at
  new_pool-get count i small h =
      enter_all-Holds texts cred creds pap_pct pppoe_pct (λ p. p.by_id) (λ s. s.id) (λ s p. refl)
        (above count) 0 i empty_pool (omega arith) (λ k inside e. omega (arith, e))
        (λ early. absurd (omega (arith, early)))

  new_pool-session :
      (count : ℤ) (i : ℕ)
      → IsTelling texts
      → above count ≤ 16777216
      → i < above count
      → lookup_by
          (new_pool texts (cred ∷ creds) count pap_pct pppoe_pct).by_session_id
          (made i).session_id
        ≡ some (made i)
  unfolding new_pool enter subscriber_at
  new_pool-session count i telling small h =
      lookup_by_nonempty _ (made i).session_id (made i) (λ e. cc e)
        (enter_all-Holds texts cred creds pap_pct pppoe_pct (λ p. p.by_session_id)
          (λ s. s.session_id) (λ s p. refl) (above count) 0 i empty_pool (omega arith)
          (λ k inside e.
            let same =
              telling.hex8_injective (k % 4294967296) (i % 4294967296) (omega arith) (omega arith)
                (cc e) in
            omega (arith, same))
          (λ early. absurd (omega (arith, early))))

  new_pool-username :
      (count : ℤ) (i : ℕ)
      → AreProper cred creds
      → above count ≤ 16777216
      → i < above count
      → lookup_by
          (new_pool texts (cred ∷ creds) count pap_pct pppoe_pct).by_username
          (made i).credential.username
        ≡ some (made i)
  unfolding new_pool enter
  new_pool-username count i proper small h =
      lookup_by_nonempty _ (made i).credential.username (made i)
        (made_username_nonempty texts cred creds pap_pct pppoe_pct i proper)
        (enter_all-Holds texts cred creds pap_pct pppoe_pct (λ p. p.by_username)
          (λ s. s.credential.username) (λ s p. refl) (above count) 0 i empty_pool (omega arith)
          (λ k inside.
            made_username_injective texts cred creds pap_pct pppoe_pct k i proper (omega arith)
              (omega arith))
          (λ early. absurd (omega (arith, early))))

  new_pool-framed_ip :
      (count : ℤ) (i : ℕ)
      → IsTelling texts
      → above count ≤ 16777216
      → i < above count
      → lookup_by
          (new_pool texts (cred ∷ creds) count pap_pct pppoe_pct).by_framed_ip
          (texts.ip_text (made i).framed_ip)
        ≡ some (made i)
  unfolding new_pool enter subscriber_at
  new_pool-framed_ip count i telling small h =
      lookup_by_nonempty _ (texts.ip_text (made i).framed_ip) (made i)
        (telling.ip_text_nonempty (i % 4294967296))
        (enter_all-Holds texts cred creds pap_pct pppoe_pct (λ p. p.by_framed_ip)
          (λ s. texts.ip_text s.framed_ip) (λ s p. refl) (above count) 0 i empty_pool (omega arith)
          (λ k inside e.
            let same =
              framed_ip_of_injective (k % 4294967296) (i % 4294967296) (omega arith) (omega arith) (
                telling.ip_text_injective (k % 4294967296) (i % 4294967296) (omega arith)
                  (omega arith) e) in
            omega (arith, same))
          (λ early. absurd (omega (arith, early))))

  -- Under the same conditions, the subscriber that NewPool makes at each index is found under its
  -- identifier, its session, its name and its address.
  pub new_pool-found :
      (count : ℤ) (i : ℕ)
      → IsTelling texts
      → AreProper cred creds
      → above count ≤ 16777216
      → i < above count
      → let p = new_pool texts (cred ∷ creds) count pap_pct pppoe_pct in
        (get p (i % 4294967296) ≡ some (made i))
        × (lookup_by p.by_session_id (made i).session_id ≡ some (made i))
        × (lookup_by p.by_username (made i).credential.username ≡ some (made i))
        × (lookup_by p.by_framed_ip (texts.ip_text (made i).framed_ip) ≡ some (made i))
  new_pool-found count i telling proper small h = (
    new_pool-get count i (omega arith) h,
    new_pool-session count i telling small h,
    new_pool-username count i proper small h,
    new_pool-framed_ip count i telling small h,
  )

  -- For at most 2^24 subscribers, names that differ, are not empty and have no plus sign, and
  -- texts that tell numbers and addresses apart, Lookup on the pool of NewPool finds the
  -- subscriber that a packet names by its session, else by its name, else by its address, whatever
  -- else the packet carries.
  pub new_pool-lookup_packet :
      (count : ℤ) (i : ℕ) (packet : Packet)
      → IsTelling texts
      → AreProper cred creds
      → above count ≤ 16777216
      → i < above count
      → Targets packet (made i)
      → lookup_packet texts.ip_text (new_pool texts (cred ∷ creds) count pap_pct pppoe_pct) packet
        ≡ some (made i)
  unfolding lookup_packet subscriber_at
  new_pool-lookup_packet count i packet telling proper small h (by_session e) =
      let found = (new_pool-found count i telling proper small h).1 in rw (e, found) refl
  new_pool-lookup_packet count i packet telling proper small h (by_name absent e) =
      let found = (new_pool-found count i telling proper small h).2 in rw (absent, e, found) refl
  new_pool-lookup_packet count i packet telling proper small h (by_ip absent unnamed e) =
      let found = (new_pool-found count i telling proper small h).3 in
      rw (absent, unnamed, e, found) refl
