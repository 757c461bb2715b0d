-- ===== src/Dfu/Identity.antt =====
-- subsys/dfu/image_identity.h and .cpp: the product and the board that an image is built for, and the
-- protected TLVs that name them. The collector's window over the chunks of an upload is not modelled.
pub mod Areas
use rt_core.Prelude.{
  ℕ, zero, suc, ◌+◌, ◌-◌, ◌*◌, ◌/◌, ◌%◌, Bool, true, false, not, ◌&&◌, ◌||◌, Option, none, some,
  List, [], ◌∷◌, ◌++◌, length, take, drop, ltb, leb, ◌==◌, ◌!=◌, if◌then◌else◌,
}
use rt_core.Prelude.Bits.{u8}
use rt_core.Prelude.Tables.{same_bytes}

-- Characters are bytes.
pub record ImageIdentity : Type 0 where
  pub product_id : ℕ
  pub board : List ℕ

pub data ImageIdentityResult : Type 0 where
  need_more match no_identity wrong_product wrong_board bad_identity : ImageIdentityResult

abbrev pub identity_tlv_type : ℕ
identity_tlv_type = 0x00A0

abbrev pub protected_tlv_magic : ℕ
protected_tlv_magic = 0x6908

abbrev pub max_board_length : ℕ
max_board_length = 116

unfoldable pub is_printable : List ℕ → Bool
is_printable [] = true
is_printable (c ∷ cs) = leb 32 c && leb c 126 && is_printable cs

unfoldable pub create : ℕ → List ℕ → Option ImageIdentity
unfolding is_printable
create product_id board =
    if ltb max_board_length (length board) || not (is_printable board)
    then none
    else some (record { product_id = product_id; board = board })

unfoldable pub parse : List ℕ → Option ImageIdentity
unfolding create
parse (format ∷ low ∷ high ∷ board_length ∷ board) =
    if format != 1 || length board != board_length then none else create (low + high * 256) board
parse _ = none

-- What Encode() writes into `capacity` bytes.
unfoldable pub encode : ℕ → ImageIdentity → List ℕ
encode capacity i =
    if ltb capacity (4 + length i.board)
    then []
    else 1 ∷ u8 i.product_id ∷ i.product_id / 256 ∷ length i.board ∷ i.board

unfoldable pub check : ImageIdentity → ImageIdentity → ImageIdentityResult
unfolding same_bytes
check own image =
    if image.product_id != own.product_id
    then wrong_product
    else if not (same_bytes image.board own.board)
    then wrong_board
    else match

-- The loop of ParseTlvs() on the bytes that are left, with the identity that was found. A round takes four
-- bytes or more.
unfoldable pub parse_from : ℕ → ImageIdentity → List ℕ → Option ImageIdentity → ImageIdentityResult
unfolding parse check
parse_from fuel own [] none = no_identity
parse_from fuel own [] (some identity) = check own identity
parse_from (suc fuel) own (t_0 ∷ t_1 ∷ n_0 ∷ n_1 ∷ left) found =
    let n = n_0 + n_1 * 256 in
    let skipped = parse_from fuel own (drop n left) found in
    let parsed : ImageIdentityResult = elim (parse (take n left)) [
      | none ↦ bad_identity
      | some identity ↦ parse_from fuel own (drop n left) (some identity)
    ] in
    if ltb (length left) n
    then bad_identity
    else if t_0 + t_1 * 256 != identity_tlv_type
    then skipped
    else elim found [ none ↦ parsed | some first ↦ bad_identity ]
parse_from fuel own left found = bad_identity

unfoldable pub parse_tlvs : ImageIdentity → List ℕ → ImageIdentityResult
unfolding parse_from
parse_tlvs own (m_0 ∷ m_1 ∷ n_0 ∷ n_1 ∷ left) =
    if m_0 + m_1 * 256 != protected_tlv_magic || n_0 + n_1 * 256 != 4 + length left
    then bad_identity
    else parse_from (length left) own left none
parse_tlvs own _ = bad_identity
