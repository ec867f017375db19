-- ===== src/Radius/Constructors/Credentials.antt =====
-- What a RADIUS server finds in the Access-Requests that the constructors build.
use radstorm.Prelude.{
  ℕ, ◌≤◌, ◌≡◌, refl, ap, ◌∙◌, true, false, Option, some, List, [], ◌∷◌, ◌++◌, append_assoc,
  append-nil, arith, ltb, get_or, ◌==◌, Bool-cases, inl, inr, length, All,
}
use radstorm.Radius.Result.{ok, ok_injective, >>=-eq-ok}
use radstorm.Radius.Bytes.{IsByte}
use radstorm.Radius.Attribute.{Attribute, AttributeList, add, add_string, get, get_string}
use radstorm.Radius.Auth.{
  Crypto, new_request_authenticator, encrypt_user_password, decrypt_user_password, strip_nuls,
  chap_password,
}
use radstorm.Radius.Auth.Password.{decrypt-encrypt_user_password}
use radstorm.Radius.Packet.{Packet}
use radstorm.Radius.Constructors.{
  add_checked, is_credential, read_random, new_access_request_pap, new_access_request_chap,
  user_name, user_password, chap_password_attr, chap_challenge,
}

-- A successful Add puts the attribute at the end.
pub add-eq-ok :
    (l l' : AttributeList) (typ : ℕ) (value : List ℕ)
    → add l typ value ≡ ok l'
    → l' ≡ l ++ record { typ = typ; value = value } ∷ []
unfolding add
add-eq-ok l l' typ value h = elim (Bool-cases (ltb 253 (length value))) [
  | inl long ↦ cc (rw long at h)
  | inr short ↦ cc (rw short at h)
]

-- A successful loop over the extras put them all at the end, and none is a credential.
add_checked-eq-ok :
    (l l' : AttributeList) (extras : List Attribute)
    → add_checked l extras ≡ ok l'
    → (l' ≡ l ++ extras) × All (λ a. is_credential a.typ ≡ false) extras
unfolding add_checked
add_checked-eq-ok l l' [] h = (cc (append-nil l), tt)
add_checked-eq-ok l l' (a ∷ extras) h = elim (Bool-cases (is_credential a.typ)) [
  | inl bad ↦ cc (rw bad at h)
  | inr fine ↦
      let (m, first, rest) =
        >>=-eq-ok (add l a.typ a.value) (λ m. add_checked m extras) (rw fine at h) in
      let (e, all) = add_checked-eq-ok m l' extras rest in
      (e ∙ rw (add-eq-ok l m a.typ a.value first) (append_assoc l (a ∷ []) extras), (fine, all))
]

get_past :
    (extras rest : List Attribute) (typ : ℕ)
    → is_credential typ ≡ true
    → All (λ a. is_credential a.typ ≡ false) extras
    → get (extras ++ rest) typ ≡ get rest typ
unfolding get
get_past [] rest typ h all = refl
get_past (a ∷ extras) rest typ h (fine, all) =
    let other : (a.typ == typ) ≡ false = ground arith in rw other (get_past extras rest typ h all)

encrypt_bound :
    (crypto : Crypto) (password secret auth c : List ℕ)
    → encrypt_user_password crypto password secret auth ≡ ok c
    → length password ≤ 128
unfolding encrypt_user_password
encrypt_bound crypto password secret auth c h = elim (Bool-cases (ltb 128 (length password))) [
  | inl long ↦ cc (rw long at h)
  | inr short ↦ ground arith
]

-- The attributes that both constructors put before the credentials.
listed_lem :
    (username : List ℕ) (extras named listed : List Attribute)
    → add_string [] user_name username ≡ ok named
    → add_checked named extras ≡ ok listed
    → (listed ≡ record { typ = user_name; value = username } ∷ extras)
      × All (λ a. is_credential a.typ ≡ false) extras
unfolding add_string
listed_lem username extras named listed hn hl =
    let (e, all) = add_checked-eq-ok named listed extras hl in
    (e ∙ rw (add-eq-ok [] named user_name username hn), all)

get_name :
    (username : List ℕ) (rest : AttributeList)
    → get_string (record { typ = user_name; value = username } ∷ rest) user_name ≡ username
unfolding get_string
get_name username rest = refl

abbrev pub pair : ℕ → List ℕ → Attribute
pair typ value = record { typ = typ; value = value }

get_string_of :
    (l : AttributeList) (typ : ℕ) (attr : Attribute)
    → get l typ ≡ some attr
    → get_string l typ ≡ attr.value
unfolding get_string
get_string_of l typ attr h = rw (h, get_string)

get_credential :
    (username : List ℕ) (extras rest : List Attribute) (typ : ℕ) (attr : Attribute)
    → is_credential typ ≡ true
    → All (λ a. is_credential a.typ ≡ false) extras
    → get rest typ ≡ some attr
    → get_string (record { typ = user_name; value = username } ∷ (extras ++ rest)) typ ≡ attr.value
get_credential username extras rest typ attr h all found =
    let other : (user_name == typ) ≡ false = ground arith in
    let past : get (record { typ = user_name; value = username } ∷ (extras ++ rest)) typ
        ≡ some attr =
      unfold get in rw other (get_past extras rest typ h all ∙ found) in
    get_string_of _ typ attr past

pap_found :
    (crypto : Crypto) (auth secret username password cipher : List ℕ)
    (extras named listed attributes : List Attribute)
    → All IsByte password
    → add_string [] user_name username ≡ ok named
    → add_checked named extras ≡ ok listed
    → encrypt_user_password crypto password secret auth ≡ ok cipher
    → add listed user_password cipher ≡ ok attributes
    → (get_string attributes user_name ≡ username)
      × (decrypt_user_password crypto (get_string attributes user_password) secret auth
          ≡ ok (strip_nuls password))
      × All (λ a. is_credential a.typ ≡ false) extras
pap_found crypto auth secret username password cipher extras named listed attributes hb hn hl hc
      ha =
    let (e, all) = listed_lem username extras named listed hn hl in
    let whole = add-eq-ok listed attributes user_password cipher ha in
    let (c, enc, _, dec) =
      decrypt-encrypt_user_password crypto password secret auth
        (encrypt_bound crypto password secret auth cipher hc) hb in
    let same : cipher ≡ c = cc in
    rw (whole, e)
      (
        get_name username _,
        rw
            (
              get_credential username extras (pair user_password cipher ∷ []) user_password
                  (pair user_password cipher) refl all (unfold get in refl),
              same,
            )
            dec,
        all,
      )

-- From a PAP request that was built for a password of bytes, a server with the secret reads the
-- name of the user, and the password up to the NUL bytes at its end; no extra attribute is a
-- credential.
pub new_access_request_pap_lem :
    (crypto : Crypto) (random : Option (List ℕ)) (identifier : ℕ)
    (secret username password : List ℕ) (extras : List Attribute) (p : Packet)
    → All IsByte password
    → new_access_request_pap crypto random identifier secret username password extras ≡ ok p
    → (get_string p.attributes user_name ≡ username)
      × (decrypt_user_password crypto (get_string p.attributes user_password) secret p.authenticator
          ≡ ok (strip_nuls password))
      × All (λ a. is_credential a.typ ≡ false) extras
unfolding new_access_request_pap
new_access_request_pap_lem crypto random identifier secret username password extras p hb h =
    let (auth, _, h₁) = >>=-eq-ok (new_request_authenticator random) _ h in
    let (named, n, h₂) = >>=-eq-ok (add_string [] user_name username) _ h₁ in
    let (listed, l, h₃) = >>=-eq-ok (add_checked named extras) _ h₂ in
    let (cipher, c, h₄) = >>=-eq-ok (encrypt_user_password crypto password secret auth) _ h₃ in
    let (attributes, a, h₅) = >>=-eq-ok (add listed user_password cipher) _ h₄ in
    rw (ok_injective h₅) (
      pap_found crypto auth secret username password cipher extras named listed attributes hb n l c
        a)

chap_found :
    (username answer challenge : List ℕ) (extras named listed answered attributes : List Attribute)
    → add_string [] user_name username ≡ ok named
    → add_checked named extras ≡ ok listed
    → add listed chap_password_attr answer ≡ ok answered
    → add answered chap_challenge challenge ≡ ok attributes
    → (get_string attributes user_name ≡ username)
      × (get_string attributes chap_password_attr ≡ answer)
      × (get_string attributes chap_challenge ≡ challenge)
chap_found username answer challenge extras named listed answered attributes hn hl ha hc =
    let (e, all) = listed_lem username extras named listed hn hl in
    let first = add-eq-ok listed answered chap_password_attr answer ha in
    let second = add-eq-ok answered attributes chap_challenge challenge hc in
    let tail : AttributeList =
      pair chap_password_attr answer ∷ pair chap_challenge challenge ∷ [] in
    let all_of : attributes ≡ pair user_name username ∷ (extras ++ tail) =
      second ∙ rw (first, e) (ap (λ l. pair user_name username ∷ l) (append_assoc extras _ _)) in
    rw all_of (
      get_name username _,
      get_credential username extras tail chap_password_attr (pair chap_password_attr answer) refl
          all (unfold get in refl),
      get_credential username extras tail chap_challenge (pair chap_challenge challenge) refl all
          (unfold get in refl),
    )

-- From a CHAP request that was built, a server reads the name of the user, and the answer found in
-- it is an identifier followed by the MD5 digest of that identifier, the password and the
-- challenge found in the request.
pub new_access_request_chap_lem :
    (crypto : Crypto) (r₁ r₂ r₃ : Option (List ℕ)) (identifier : ℕ)
    (secret username password : List ℕ) (extras : List Attribute) (p : Packet)
    → new_access_request_chap crypto r₁ r₂ r₃ identifier secret username password extras ≡ ok p
    → let answer = get_string p.attributes chap_password_attr in
      (get_string p.attributes user_name ≡ username)
      × (answer
          ≡ get_or answer 0 0
            ∷ crypto.md5 (get_or answer 0 0 ∷ (password ++ get_string p.attributes chap_challenge)))
unfolding new_access_request_chap chap_password
new_access_request_chap_lem crypto r₁ r₂ r₃ identifier secret username password extras p h =
    let (auth, _, h₁) = >>=-eq-ok (new_request_authenticator r₁) _ h in
    let (id_bytes, _, h₂) = >>=-eq-ok (read_random r₂) _ h₁ in
    let (challenge, _, h₃) = >>=-eq-ok (read_random r₃) _ h₂ in
    let (named, n, h₄) = >>=-eq-ok (add_string [] user_name username) _ h₃ in
    let (listed, l, h₅) = >>=-eq-ok (add_checked named extras) _ h₄ in
    let reply = chap_password crypto (get_or id_bytes 0 0) password challenge in
    let (answered, a, h₆) = >>=-eq-ok (add listed chap_password_attr reply) _ h₅ in
    let (attributes, c, h₇) = >>=-eq-ok (add answered chap_challenge challenge) _ h₆ in
    let (name, answer, asked) =
      chap_found username reply challenge extras named listed answered attributes n l a c in
    rw (ok_injective h₇) (name, rw (answer, asked) refl)
