-- ===== src/Smp/Can/Receiver/Packets.antt =====
-- smp_can_transport.cpp, OnFrame(): the packets that are handed on are whole.
use rt_core.Prelude.{ℕ, ◌≡◌, true, Option, none, some, List, [], ◌∷◌, length}
use rt_core.Smp.Header.{SmpHeader, parse, get_packet_size, is_request, is_response}
use rt_core.Smp.Can.FrameFormat.{FrameFormat}
use rt_core.Smp.Can.Reassembler.{Reassembler}
use rt_core.Smp.Can.Reassembler.Invariant.{IsReassembler}
use rt_core.Smp.Can.Receiver.{RxSlot, Receiver, Delivery, to_server, to_sink}

-- Every slot's reassembler is within its buffer.
abbrev pub AllValid : List RxSlot → Type 0
AllValid [] = Unit {0}
AllValid (s ∷ rest) = IsReassembler s.reassembler × AllValid rest

-- A packet that is handed on has a header that names its length and says where it belongs.
abbrev pub Whole : ℕ → Option Delivery → Type 0
Whole source none = Unit {0}
Whole source (some (to_server from packet)) =
    (from ≡ source)
    × ((h : SmpHeader) × (parse packet ≡ some h)
        × (get_packet_size h ≡ length packet)
        × (is_request h ≡ true))
Whole source (some (to_sink from packet)) =
    (from ≡ source)
    × ((h : SmpHeader) × (parse packet ≡ some h)
        × (get_packet_size h ≡ length packet)
        × (is_response h ≡ true))

-- What a step of the receiver leaves: valid slots, and a whole packet if one is handed on.
abbrev pub Sound : ℕ → Receiver × Option Delivery → Type 0
Sound source (t, delivery) = AllValid t.slots × Whole source delivery
