-- ===== src/Smp/Header.antt =====
-- subsys/smp/smp_header.h: the 8-byte header of an SMP packet. Bytes are numbers below 256.
pub mod RoundTrip
use rt_core.Prelude.{
  ℕ, zero, suc, ◌+◌, Bool, true, false, Option, none, some, List, [], ◌∷◌, bit_and, bit_or,
}
use rt_core.Prelude.Bits.{shr, shl, u8, u16}

-- The operation code is a 3-bit field; `unnamed` holds a code that the enumeration does not name.
pub data SmpOperation : Type 0 where
  read read_response write write_response : SmpOperation
  unnamed : ℕ → SmpOperation

unfoldable pub to_underlying : SmpOperation → ℕ
to_underlying read = 0
to_underlying read_response = 1
to_underlying write = 2
to_underlying write_response = 3
to_underlying (unnamed n) = n

unfoldable pub to_operation : ℕ → SmpOperation
to_operation zero = read
to_operation (suc zero) = read_response
to_operation (suc (suc zero)) = write
to_operation (suc (suc (suc zero))) = write_response
to_operation (suc (suc (suc (suc n)))) = unnamed (suc (suc (suc (suc n))))

pub record SmpHeader : Type 0 where
  pub operation : SmpOperation
  pub version : ℕ
  pub flags : ℕ
  pub length : ℕ
  pub group : ℕ
  pub sequence : ℕ
  pub command_id : ℕ

abbrev pub header_size : ℕ
header_size = 8

unfoldable pub parse : List ℕ → Option SmpHeader
parse (b0 ∷ b1 ∷ b2 ∷ b3 ∷ b4 ∷ b5 ∷ b6 ∷ b7 ∷ body) = some (record {
  operation = to_operation (bit_and b0 0x07);
  version = bit_and (shr b0 3) 0x03;
  flags = b1;
  length = u16 (bit_or (shl b2 8) b3);
  group = u16 (bit_or (shl b4 8) b5);
  sequence = b6;
  command_id = b7;
})
parse _ = none

unfoldable pub encode : SmpHeader → List ℕ
encode h =
    u8 (bit_or (bit_and (to_underlying h.operation) 0x07) (shl (bit_and h.version 0x03) 3))
    ∷ h.flags
    ∷ u8 (shr h.length 8)
    ∷ u8 h.length
    ∷ u8 (shr h.group 8)
    ∷ u8 h.group
    ∷ h.sequence
    ∷ h.command_id
    ∷ []

unfoldable pub get_packet_size : SmpHeader → ℕ
get_packet_size h = header_size + h.length

is_request_operation : SmpOperation → Bool
is_request_operation read = true
is_request_operation write = true
is_request_operation _ = false

unfoldable pub is_request : SmpHeader → Bool
unfolding is_request_operation
is_request h = is_request_operation h.operation

is_response_operation : SmpOperation → Bool
is_response_operation read_response = true
is_response_operation write_response = true
is_response_operation _ = false

unfoldable pub is_response : SmpHeader → Bool
unfolding is_response_operation
is_response h = is_response_operation h.operation
