-- ===== src/Dfu/Identity/Areas.antt =====
-- image_identity.cpp: the area of protected TLVs that the signing of an image writes, and what is read in it.
use rt_core.Prelude.{
  ℕ, zero, suc, ◌+◌, ◌*◌, ◌/◌, ◌≤◌, ◌<◌, ◌≡◌, refl, ap, ◌∙◌, true, false, Option, none, some, List,
  [], ◌∷◌, ◌++◌, length, take, drop, ltb, ◌==◌, ◌!=◌, if◌then◌else◌, arith, length-append, inl, inr,
  Bool-cases, Option-cases,
}
use rt_core.Prelude.Bits.{u8}
use rt_core.Dfu.Identity.{
  ImageIdentity, ImageIdentityResult, no_identity, bad_identity, identity_tlv_type,
  protected_tlv_magic, is_printable, create, parse, encode, check, parse_from, parse_tlvs,
}

-- An identity that Create() makes, with a product of 16 bits, reads back as it was written.
pub parse-encode_identity :
    (i : ImageIdentity) (capacity : ℕ)
    → i.product_id < 65536
    → length i.board ≤ 116
    → is_printable i.board ≡ true
    → 4 + length i.board ≤ capacity
    → parse (encode capacity i) ≡ some i
unfolding parse encode create
parse-encode_identity i capacity p l printable room =
    let word : u8 i.product_id + i.product_id / 256 * 256 ≡ i.product_id = omega arith in
    let e : encode capacity i
        ≡ 1 ∷ u8 i.product_id ∷ i.product_id / 256 ∷ length i.board ∷ i.board =
      ground arith in
    let made : create (u8 i.product_id + i.product_id / 256 * 256) i.board ≡ some i =
      ap (λ n. create n i.board) word ∙ ground (arith, printable) in
    ap parse e ∙ ground (arith, made)

pub record Tlv : Type 0 where
  pub type : ℕ
  pub value : List ℕ

-- `struct image_tlv` and the value after it, for each TLV.
unfoldable pub tlv_bytes : List Tlv → List ℕ
tlv_bytes [] = []
tlv_bytes (t ∷ ts) =
    u8 t.type
    ∷ t.type / 256
    ∷ u8 (length t.value)
    ∷ length t.value / 256
    ∷ (t.value ++ tlv_bytes ts)

-- `struct image_tlv_info` and the TLVs after it.
unfoldable pub area_bytes : List Tlv → List ℕ
unfolding tlv_bytes
area_bytes ts =
    let size = 4 + length (tlv_bytes ts) in
    u8 protected_tlv_magic ∷ protected_tlv_magic / 256 ∷ u8 size ∷ size / 256 ∷ tlv_bytes ts

unfoldable pub identity_values : List Tlv → List (List ℕ)
identity_values [] = []
identity_values (t ∷ ts) =
    let rest = identity_values ts in if t.type == identity_tlv_type then t.value ∷ rest else rest

-- What the image's identities come to: there has to be one, which can be read and is this unit's.
unfoldable pub judged : ImageIdentity → List (List ℕ) → ImageIdentityResult
unfolding parse check
judged own [] = no_identity
judged own (v ∷ []) = elim (parse v) [ none ↦ bad_identity | some i ↦ check own i ]
judged own (v ∷ _ ∷ _) = bad_identity

unfoldable judged_after : ImageIdentity → ImageIdentity → List (List ℕ) → ImageIdentityResult
judged_after own i [] = check own i
judged_after own i (_ ∷ _) = bad_identity

judged_from : ImageIdentity → Option ImageIdentity → List (List ℕ) → ImageIdentityResult
judged_from own none vs = judged own vs
judged_from own (some i) vs = judged_after own i vs

unfoldable pub IsSmall : List Tlv → Type 0
IsSmall [] = Unit
IsSmall (t ∷ ts) = (t.type < 65536) × (length t.value < 65536) × IsSmall ts

drop-append : (xs ys : List ℕ) → drop (length xs) (xs ++ ys) ≡ ys
drop-append [] ys = refl
drop-append (x ∷ xs) ys = drop-append xs ys

take-append_length : (xs ys : List ℕ) → take (length xs) (xs ++ ys) ≡ xs
take-append_length [] ys = refl
take-append_length (x ∷ xs) ys = ap (◌∷◌ x) (take-append_length xs ys)

length-tlv_bytes : (ts : List Tlv) → length ts ≤ length (tlv_bytes ts)
unfolding tlv_bytes
length-tlv_bytes [] = omega arith
length-tlv_bytes (t ∷ ts) = omega (arith, length-tlv_bytes ts, length-append t.value (tlv_bytes ts))

judged-unreadable :
    (own : ImageIdentity) (v : List ℕ) (vs : List (List ℕ))
    → parse v ≡ none
    → judged own (v ∷ vs) ≡ bad_identity
unfolding judged
judged-unreadable own v [] e = ground (arith, e)
judged-unreadable own v (w ∷ vs) e = refl

judged-read :
    (own i : ImageIdentity) (v : List ℕ) (vs : List (List ℕ))
    → parse v ≡ some i
    → judged own (v ∷ vs) ≡ judged_after own i vs
unfolding judged judged_after
judged-read own i v [] e = ap (λ o. elim o [ none ↦ bad_identity | some j ↦ check own j ]) e
judged-read own i v (w ∷ vs) e = refl

-- One round, once the bytes of the TLV are told apart.
abbrev after_tlv :
    ℕ → ImageIdentity → Option ImageIdentity → ℕ → List ℕ → List ℕ → ImageIdentityResult
after_tlv fuel own found type value left =
    if type != identity_tlv_type then parse_from fuel own left found else elim found [
      | none ↦ elim (parse value) [
        | none ↦ bad_identity
        | some i ↦ parse_from fuel own left (some i)
      ]
      | some first ↦ bad_identity
    ]

after_tlv-judged :
    (fuel : ℕ) (own : ImageIdentity) (t : Tlv) (ts : List Tlv) (found : Option ImageIdentity)
    → ((o : Option ImageIdentity)
        → parse_from fuel own (tlv_bytes ts) o ≡ judged_from own o (identity_values ts))
    → after_tlv fuel own found t.type t.value (tlv_bytes ts)
      ≡ judged_from own found (identity_values (t ∷ ts))
unfolding identity_values judged_from
after_tlv-judged fuel own t ts none ih = elim (Bool-cases (t.type == identity_tlv_type)) [
  | inr other ↦ ground (arith, other, ih none)
  | inl mine ↦ elim (Option-cases (parse t.value)) [
    | inl unreadable ↦
        let e = judged-unreadable own t.value (identity_values ts) unreadable in
        ground (arith, mine, unreadable, e)
    | inr (i, read) ↦
        let e = judged-read own i t.value (identity_values ts) read in
        ground (arith, mine, read, e, ih (some i))
  ]
]
after_tlv-judged fuel own t ts (some first) ih = elim (Bool-cases (t.type == identity_tlv_type)) [
  | inr other ↦ ground (arith, other, ih (some first))
  | inl mine ↦ unfold judged_after in (ground (arith, mine))
]

parse_from-tlv_bytes :
    (fuel : ℕ) (own : ImageIdentity) (ts : List Tlv) (found : Option ImageIdentity)
    → length ts ≤ fuel
    → IsSmall ts
    → parse_from fuel own (tlv_bytes ts) found ≡ judged_from own found (identity_values ts)
unfolding parse_from tlv_bytes identity_values judged judged_after judged_from IsSmall
parse_from-tlv_bytes fuel own [] none l s = refl
parse_from-tlv_bytes fuel own [] (some i) l s = refl
parse_from-tlv_bytes zero own (t ∷ ts) found l s = absurd (omega arith)
parse_from-tlv_bytes (suc fuel) own (t ∷ ts) found l (type, size, s) =
    let left = t.value ++ tlv_bytes ts in
    let n = u8 (length t.value) + length t.value / 256 * 256 in
    let n_is : n ≡ length t.value = omega arith in
    let kind : u8 t.type + t.type / 256 * 256 ≡ t.type = omega arith in
    let dropped : drop n left ≡ tlv_bytes ts =
      ap (λ k. drop k left) n_is ∙ drop-append t.value (tlv_bytes ts) in
    let taken : take n left ≡ t.value =
      ap (λ k. take k left) n_is ∙ take-append_length t.value (tlv_bytes ts) in
    let fits : ltb (length left) n ≡ false =
      ground (arith, n_is, length-append t.value (tlv_bytes ts)) in
    let round : parse_from (suc fuel) own (tlv_bytes (t ∷ ts)) found
        ≡ after_tlv fuel own found (u8 t.type + t.type / 256 * 256) (take n left) (drop n left) =
      rw fits refl in
    round
    ∙ ap (λ k. after_tlv fuel own found k (take n left) (drop n left)) kind
    ∙ ap (λ v. after_tlv fuel own found t.type v (drop n left)) taken
    ∙ ap (after_tlv fuel own found t.type t.value) dropped
    ∙ after_tlv-judged fuel own t ts found (λ o. parse_from-tlv_bytes fuel own ts o (omega arith) s)

-- On an area with any TLVs, of less than 64 KiB in all, the search for the identity comes to what its
-- identity values say: none is no identity, two are refused, and the one has to be readable, and is compared
-- with the unit's own. The other TLVs do not matter.
pub parse_tlvs-area_bytes :
    (own : ImageIdentity) (ts : List Tlv)
    → IsSmall ts
    → 4 + length (tlv_bytes ts) < 65536
    → parse_tlvs own (area_bytes ts) ≡ judged own (identity_values ts)
unfolding parse_tlvs area_bytes judged_from
parse_tlvs-area_bytes own ts small l =
    let size : u8 (4 + length (tlv_bytes ts)) + (4 + length (tlv_bytes ts)) / 256 * 256
        ≡ 4 + length (tlv_bytes ts) =
      omega arith in
    let inner =
      parse_from-tlv_bytes (length (tlv_bytes ts)) own ts none (length-tlv_bytes ts) small in
    ground (arith, size, inner)
