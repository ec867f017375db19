-- ===== src/Subscriber/Pool.antt =====
-- New of pkg/subscriber/subscriber.go as to the identity of a subscriber, and pkg/subscriber/pool.go
-- and lookup.go: the pool with its indexes, and the search by the attributes of a packet. What the
-- library fmt makes of a number under %08x, %02x and %d, and the text of an IPv4 address, are
-- parameters.
pub mod Recycled
pub mod Indexed
pub mod Named
pub mod Found
use radstorm.Prelude.{
  ℕ, zero, suc, ◌+◌, ◌-◌, ◌*◌, ◌/◌, ◌%◌, Bool, true, false, ◌||◌, Option, none, some, List, [], ◌∷◌,
  ◌++◌, ltb, leb, ◌==◌, if◌then◌else◌, length, get_or,
}
use radstorm.Prelude.Int.{ℤ, above, under}
use radstorm.Prelude.Maps.{Map, lookup, put, text_key, number_key}
use radstorm.Radius.Attribute.{get_string, get_ipv4}
use radstorm.Radius.Packet.{Packet}

-- config.Credential; a column that is absent is the empty text.
pub record Credential : Type 0 where
  pub username : List ℕ
  pub password : List ℕ
  pub auth_method : List ℕ
  pub sub_type : List ℕ
  pub nas_port_id : List ℕ
  pub mac_address : List ℕ

pub record Subscriber : Type 0 where
  pub id : ℕ
  pub credential : Credential
  pub auth_method : List ℕ
  pub sub_type : List ℕ
  pub nas_port : ℕ
  pub session_id : List ℕ
  pub framed_ip : List ℕ
  pub calling_sta_id : List ℕ
  pub nas_port_id : List ℕ

-- What fmt and net write.
pub record Texts : Type 0 where
  pub hex8 : ℕ → List ℕ  -- %08x
  pub hex2 : ℕ → List ℕ  -- %02x
  pub decimal : ℕ → List ℕ  -- %d
  pub ip_text : List ℕ → List ℕ  -- net.IP.String

abbrev empty_text : List ℕ → Bool
empty_text [] = true
empty_text (c ∷ s) = false

abbrev text_pap : List ℕ
text_pap = 112 ∷ 97 ∷ 112 ∷ []

abbrev text_chap : List ℕ
text_chap = 99 ∷ 104 ∷ 97 ∷ 112 ∷ []

abbrev text_pppoe : List ℕ
text_pppoe = 112 ∷ 112 ∷ 112 ∷ 111 ∷ 101 ∷ []

abbrev text_mac : List ℕ
text_mac = 109 ∷ 97 ∷ 99 ∷ []

-- The choice by a percentage, from the third test of pickAuthMethod and pickSubType on.
by_percentage : ℤ → List ℕ → List ℕ → List ℕ
by_percentage pct whole nothing =
    if leb 100 (above pct) then whole else if above pct == 0 then nothing else whole

-- pickAuthMethod, for a configuration that is not nil
unfoldable pub pick_auth_method : Credential → ℤ → List ℕ
unfolding by_percentage
pick_auth_method cred pct =
    if empty_text cred.auth_method then by_percentage pct text_pap text_chap else cred.auth_method

-- pickSubType, for a configuration that is not nil
unfoldable pub pick_sub_type : Credential → ℤ → List ℕ
unfolding by_percentage
pick_sub_type cred pct =
    if empty_text cred.sub_type then by_percentage pct text_pppoe text_mac else cred.sub_type

-- radstorm-
abbrev session_prefix : List ℕ
session_prefix = 114 ∷ 97 ∷ 100 ∷ 115 ∷ 116 ∷ 111 ∷ 114 ∷ 109 ∷ 45 ∷ []

-- 02:72:73:
abbrev station_prefix : List ℕ
station_prefix = 48 ∷ 50 ∷ 58 ∷ 55 ∷ 50 ∷ 58 ∷ 55 ∷ 51 ∷ 58 ∷ []

abbrev pub framed_ip_of : ℕ → List ℕ
framed_ip_of id = 10 ∷ id / 65536 % 256 ∷ id / 256 % 256 ∷ id % 256 ∷ []

module _ (texts : Texts) where
  abbrev pub session_id_of : ℕ → List ℕ
  session_id_of id = session_prefix ++ texts.hex8 id

  -- New
  unfoldable pub new_subscriber : ℕ → Credential → (pap_pct pppoe_pct : ℤ) → Subscriber
  unfolding pick_auth_method pick_sub_type
  new_subscriber id cred pap_pct pppoe_pct = record {
    id = id;
    credential = cred;
    auth_method = pick_auth_method cred pap_pct;
    sub_type = pick_sub_type cred pppoe_pct;
    nas_port = id;
    session_id = session_id_of id;
    framed_ip = framed_ip_of id;
    calling_sta_id =
        if empty_text cred.mac_address
        then station_prefix
          ++ texts.hex2 (id / 65536 % 256)
          ++ 58 ∷ texts.hex2 (id / 256 % 256)
          ++ 58 ∷ texts.hex2 (id % 256)
        else cred.mac_address;
    nas_port_id =
        if empty_text cred.nas_port_id
        then 48 ∷ 47 ∷ 48 ∷ 47 ∷ texts.decimal id
        else cred.nas_port_id;
  }

pub record Pool : Type 0 where
  pub all : List Subscriber
  pub by_id : Map ℕ Subscriber
  pub by_username : Map (List ℕ) Subscriber
  pub by_session_id : Map (List ℕ) Subscriber
  pub by_framed_ip : Map (List ℕ) Subscriber

abbrev pub empty_pool : Pool
empty_pool = record {
  all = [];
  by_id = [];
  by_username = [];
  by_session_id = [];
  by_framed_ip = [];
}

-- The loop of formatRecycledUsername: the digits before those already written. The array has room
-- for `room` more.
unfoldable pub digits_loop : (room idx : ℕ) → List ℕ → List ℕ
digits_loop zero idx written = written
digits_loop (suc room) idx written =
    let rest = digits_loop room (idx / 10) ((48 + idx % 10) ∷ written) in
    if idx == 0 then written else rest

-- formatRecycledUsername
unfoldable pub format_recycled_username : List ℕ → ℕ → List ℕ
format_recycled_username base idx =
    base ++ 43 ∷ (if idx == 0 then 48 ∷ [] else digits_loop 12 idx [])

module _ (texts : Texts) where
  -- s, entered into the pool
  pub enter : Subscriber → Pool → Pool
  enter s p = record {
    all = p.all ++ s ∷ [];
    by_id = put s.id s p.by_id;
    by_username = put s.credential.username s p.by_username;
    by_session_id = put s.session_id s p.by_session_id;
    by_framed_ip = put (texts.ip_text s.framed_ip) s p.by_framed_ip;
  }

  -- The subscriber that NewPool makes at an index, from the credentials `cred ∷ creds`.
  unfoldable pub subscriber_at :
      Credential → List Credential → (pap_pct pppoe_pct : ℤ) → ℕ → Subscriber
  unfolding new_subscriber format_recycled_username
  subscriber_at cred creds pap_pct pppoe_pct i =
      let n = length (cred ∷ creds) in
      let c = get_or (cred ∷ creds) (i % n) cred in
      let named =
        if leb n i then record c { username = format_recycled_username c.username i } else c in
      new_subscriber texts (i % 4294967296) named pap_pct pppoe_pct

  -- The loop of NewPool, from an index on.
  pub enter_all :
      Credential → List Credential → (pap_pct pppoe_pct : ℤ) → (left i : ℕ) → Pool → Pool
  unfolding subscriber_at enter
  enter_all cred creds pap_pct pppoe_pct zero i p = p
  enter_all cred creds pap_pct pppoe_pct (suc left) i p =
      enter_all cred creds pap_pct pppoe_pct left (suc i)
        (enter (subscriber_at cred creds pap_pct pppoe_pct i) p)

  -- NewPool, for the count and the percentages of a configuration that is not nil
  unfoldable pub new_pool : List Credential → (count pap_pct pppoe_pct : ℤ) → Pool
  unfolding enter_all
  new_pool [] count pap_pct pppoe_pct = empty_pool
  new_pool (cred ∷ creds) count pap_pct pppoe_pct =
      enter_all cred creds pap_pct pppoe_pct (above count) 0 empty_pool

-- Get
unfoldable pub get : Pool → ℕ → Option Subscriber
get p id = lookup id p.by_id

-- LookupByUsername, LookupBySessionID and LookupByFramedIP: the empty text finds nothing.
unfoldable pub lookup_by : Map (List ℕ) Subscriber → List ℕ → Option Subscriber
lookup_by index [] = none
lookup_by index (c ∷ s) = lookup (c ∷ s) index

or_else : Option Subscriber → Option Subscriber → Option Subscriber
or_else none other = other
or_else (some s) other = some s

by_address : (List ℕ → List ℕ) → Pool → Option (List ℕ) → Option Subscriber
unfolding lookup_by
by_address ip_text p none = none
by_address ip_text p (some ip) = lookup_by p.by_framed_ip (ip_text ip)

-- Lookup, for a packet that is not nil; a text that is absent is empty
unfoldable pub lookup_packet : (List ℕ → List ℕ) → Pool → Packet → Option Subscriber
unfolding lookup_by or_else by_address
lookup_packet ip_text p packet =
    or_else (lookup_by p.by_session_id (get_string packet.attributes 44)) (
      or_else (lookup_by p.by_username (get_string packet.attributes 1))
        (by_address ip_text p (get_ipv4 packet.attributes 8)))
