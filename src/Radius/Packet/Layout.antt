-- ===== src/Radius/Packet/Layout.antt =====
-- Where the Message-Authenticator stands: its index in the list, its offset in the packet.
use radstorm.Prelude.{
  ℕ, suc, ◌+◌, ◌≡◌, refl, sym, ap, ◌∙◌, ◌⊎◌, inl, inr, false, true, none, some, List, [], ◌∷◌, ◌++◌,
  append_assoc, arith, ◌==◌, Bool-cases, length, take, drop, set, get_elem?, All, length-append,
  take-append, drop-append,
}
use radstorm.Radius.Attribute.{Attribute, AttributeList}
use radstorm.Radius.Attribute.Wire.{wire_of}
use radstorm.Radius.Packet.{
  Packet, layout, overwrite, ma_index_from, ma_attr_index, find_message_authenticator_offset,
  message_authenticator,
}

pub wire_of-append : (l m : AttributeList) → wire_of (l ++ m) ≡ wire_of l ++ wire_of m
wire_of-append [] m = refl
wire_of-append (a ∷ l) m =
    ap (λ t. a.typ ∷ suc (suc (length a.value)) ∷ t)
      (ap (λ t. a.value ++ t) (wire_of-append l m)
        ∙ sym (append_assoc a.value (wire_of l) (wire_of m)))

-- A list cut at its first Message-Authenticator.
pub record Cut (l : AttributeList) (i off : ℕ) : Type 0 where
  pub before : AttributeList
  pub ma : Attribute
  pub after : AttributeList
  pub is_ma : (ma.typ == message_authenticator) ≡ true
  pub clear : All (λ a. (a.typ == message_authenticator) ≡ false) before
  pub whole : l ≡ before ++ ma ∷ after
  pub offset : find_message_authenticator_offset l off ≡ some (off + (length (wire_of before) + 2))
  pub index : ma_index_from i l ≡ some (i + length before)

abbrev pub Absent : AttributeList → ℕ → ℕ → Type 0
Absent l i off = (find_message_authenticator_offset l off ≡ none) × (ma_index_from i l ≡ none)

extend :
    (a : Attribute) (l : AttributeList) (i off : ℕ)
    → (a.typ == message_authenticator) ≡ false
    → Cut l (suc i) (off + (2 + length a.value))
    → Cut (a ∷ l) i off
unfolding find_message_authenticator_offset ma_index_from
extend a l i off other c = record {
  before = a ∷ c.before;
  ma = c.ma;
  after = c.after;
  is_ma = c.is_ma;
  clear = (other, c.clear);
  whole = ap (λ t. a ∷ t) c.whole;
  offset = rw other (c.offset ∙ ap some (omega (arith, length-append a.value (wire_of c.before))));
  index = rw other (c.index ∙ ap some (omega arith));
}

pub Cut-cases : (l : AttributeList) (i off : ℕ) → Absent l i off ⊎ Cut l i off
unfolding find_message_authenticator_offset ma_index_from
Cut-cases [] i off = inl (refl, refl)
Cut-cases (a ∷ l) i off = elim (Bool-cases (a.typ == message_authenticator)) [
  | inl here ↦ inr (record {
    before = [];
    ma = a;
    after = l;
    is_ma = here;
    clear = tt;
    whole = refl;
    offset = rw here (ap some (omega arith));
    index = rw here (ap some (omega arith));
  })
  | inr other ↦ elim (Cut-cases l (suc i) (off + (2 + length a.value))) [
    | inl (o, n) ↦ inl (rw other o, rw other n)
    | inr c ↦ inr (extend a l i off other c)
  ]
]

-- A list that is put together from such parts is cut there.
pub cut-parts :
    (before after : AttributeList) (a : Attribute) (i off : ℕ)
    → (a.typ == message_authenticator) ≡ true
    → All (λ b. (b.typ == message_authenticator) ≡ false) before
    → (find_message_authenticator_offset (before ++ a ∷ after) off
        ≡ some (off + (length (wire_of before) + 2)))
      × (ma_index_from i (before ++ a ∷ after) ≡ some (i + length before))
unfolding find_message_authenticator_offset ma_index_from
cut-parts [] after a i off here clear =
    (rw here (ap some (omega arith)), rw here (ap some (omega arith)))
cut-parts (b ∷ before) after a i off here (other, clear) =
    let (o, n) = cut-parts before after a (suc i) (off + (2 + length b.value)) here clear in
    (
      rw other (o ∙ ap some (omega (arith, length-append b.value (wire_of before)))),
      rw other (n ∙ ap some (omega arith)),
    )

pub ma_attr_index-Cut :
    (l : AttributeList) (off : ℕ) (c : Cut l 0 off) → ma_attr_index l ≡ some (0 + length c.before)
unfolding ma_attr_index
ma_attr_index-Cut l off c = c.index

pub get_elem?-middle {ℓ} :
    {A : Type ℓ} (before : List A) (a : A) (after : List A)
    → get_elem? (before ++ a ∷ after) (length before) ≡ some a
get_elem?-middle [] a after = refl
get_elem?-middle (b ∷ before) a after = get_elem?-middle before a after

pub set-middle {ℓ} :
    {A : Type ℓ} (before : List A) (a a' : A) (after : List A)
    → set (before ++ a ∷ after) (length before) a' ≡ before ++ a' ∷ after
set-middle [] a a' after = refl
set-middle (b ∷ before) a a' after = ap (λ t. b ∷ t) (set-middle before a a' after)

-- A write over the middle of three parts.
pub overwrite-middle :
    (front old new back : List ℕ) (off : ℕ)
    → length front ≡ off
    → length old ≡ length new
    → overwrite (front ++ (old ++ back)) off new ≡ front ++ (new ++ back)
unfolding overwrite
overwrite-middle front old new back off h same =
    let t : take off (front ++ (old ++ back)) ≡ front = take-append off front _ h in
    let d : drop (off + length new) ((front ++ old) ++ back) ≡ back =
      drop-append _ (front ++ old) back (omega (arith, length-append front old)) in
    rw (t, ← append_assoc front old back, d)

pub layout-append : (p : Packet) (n : ℕ) (x y : List ℕ) → layout p n (x ++ y) ≡ layout p n x ++ y
unfolding layout
layout-append p n x y = rw (append_assoc p.authenticator x y)

pub length-layout :
    (p : Packet) (n : ℕ) (body : List ℕ)
    → length (layout p n body) ≡ 4 + (length p.authenticator + length body)
unfolding layout
length-layout p n body = omega (arith, length-append p.authenticator body)

-- The packet up to the value of the Message-Authenticator.
abbrev pub front : Packet → ℕ → AttributeList → Attribute → List ℕ
front p n before a = layout p n (wire_of before ++ (a.typ ∷ suc (suc (length a.value)) ∷ []))

pub layout-cut :
    (p : Packet) (n : ℕ) (before : AttributeList) (a : Attribute) (after : AttributeList)
    → layout p n (wire_of (before ++ a ∷ after)) ≡ front p n before a ++ (a.value ++ wire_of after)
layout-cut p n before a after =
    ap (layout p n) (
      wire_of-append before (a ∷ after)
      ∙ sym (append_assoc (wire_of before) (a.typ ∷ suc (suc (length a.value)) ∷ []) _))
    ∙ layout-append p n (wire_of before ++ (a.typ ∷ suc (suc (length a.value)) ∷ [])) _

pub length-front :
    (p : Packet) (n : ℕ) (before : AttributeList) (a : Attribute)
    → length p.authenticator ≡ 16
    → length (front p n before a) ≡ 20 + (length (wire_of before) + 2)
length-front p n before a h = omega (
  arith,
  length-layout p n (wire_of before ++ (a.typ ∷ suc (suc (length a.value)) ∷ [])),
  length-append (wire_of before) (a.typ ∷ suc (suc (length a.value)) ∷ []),
)

-- A new value of the same length, written over the value in the packet.
pub overwrite-layout :
    (p : Packet) (n : ℕ) (before after : AttributeList) (a : Attribute) (value : List ℕ)
    → length p.authenticator ≡ 16
    → length a.value ≡ length value
    → overwrite
        (layout p n (wire_of (before ++ a ∷ after)))
        (20 + (length (wire_of before) + 2))
        value
      ≡ layout p n (wire_of (before ++ record a { value = value } ∷ after))
overwrite-layout p n before after a value h same = rw (layout-cut p n before a after) (
    overwrite-middle (front p n before a) a.value value (wire_of after) _
      (length-front p n before a h) same
    ∙ rw same (sym (layout-cut p n before (record a { value = value }) after)))
