-- ===== src/Smp/Can/Reassembler.antt =====
-- subsys/smp/can/smp_can_reassembler.h and .cpp: one packet at a time from frames, into a buffer that
-- the caller owns. Times and the timeout are not negative.
pub mod Data
pub mod RoundTrip
pub mod Invariant
use rt_core.Prelude.{
  ℕ, ◌+◌, ◌-◌, min, Bool, true, false, not, ◌&&◌, ◌||◌, Option, none, some, List, [], ◌∷◌, length,
  take, write_at, ltb, leb, ◌==◌, ◌!=◌, if◌then◌else◌, bit_and,
}
use rt_core.Smp.Header.{header_size, parse, get_packet_size}
use rt_core.Smp.Can.FrameFormat.{FrameFormat, get_frame_size, get_data_size, get_padded_size}
use rt_core.Smp.Can.Framer.{start_flag, sequence_mask}

pub data Result : Type 0 where
  in_progress complete dropped ignored : Result

pub record Reassembler : Type 0 where
  pub buffer : List ℕ
  pub format : FrameFormat
  pub timeout_ms : ℕ
  pub length_ : ℕ
  pub packet_size : ℕ
  pub last_frame_ms : ℕ
  pub next_sequence : ℕ
  pub is_active : Bool

unfoldable pub make_reassembler : ℕ → Reassembler
make_reassembler timeout_ms = record {
  buffer = [];
  format = record { is_can_fd = false };
  timeout_ms = timeout_ms;
  length_ = 0;
  packet_size = 0;
  last_frame_ms = 0;
  next_sequence = 0;
  is_active = false;
}

unfoldable pub reset : Reassembler → Reassembler
reset r = record r { length_ = 0; packet_size = 0; next_sequence = 0; is_active = false }

unfoldable pub attach : Reassembler → List ℕ → FrameFormat → Reassembler
unfolding reset
attach r buffer format = reset (record r { buffer = buffer; format = format })

unfoldable pub is_expired : Reassembler → ℕ → Bool
is_expired r now_ms = r.is_active && ltb (r.last_frame_ms + r.timeout_ms) now_ms

unfoldable pub is_start_frame : List ℕ → Bool
is_start_frame [] = false
is_start_frame (control ∷ _) = bit_and control start_flag != 0

unfoldable pub drop_packet : Reassembler → Reassembler × Result
unfolding reset
drop_packet r = (reset r, dropped)

-- The header is read once 8 bytes are there; `none` drops the packet.
unfoldable pub read_packet_size : Reassembler → Option Reassembler
read_packet_size r =
    if r.packet_size == 0 && leb header_size r.length_
    then elim (parse (take r.length_ r.buffer)) [
      | none ↦ none
      | some header ↦
          let r' = record r { packet_size = get_packet_size header } in
          if ltb (length r.buffer) (get_packet_size header) then none else some r'
    ]
    else some r

-- What follows the header check: `start` is the length before the frame.
unfoldable pub finish_frame : Reassembler → ℕ → ℕ → ℕ → Reassembler × Result
unfolding drop_packet
finish_frame r start copied data_size =
    if r.packet_size == 0 || ltb r.length_ r.packet_size
    then if ltb data_size (get_data_size r.format) || ltb copied data_size
      then drop_packet r
      else (r, in_progress)
    else if get_padded_size r.format (r.packet_size - start + 1) != data_size + 1
    then drop_packet r
    else (record r { length_ = r.packet_size; is_active = false }, complete)

-- The bytes of a frame, put behind those received; only what fits is copied.
unfoldable pub copy_in : Reassembler → List ℕ → Reassembler
copy_in r bytes =
    let copied = min (length bytes) (length r.buffer - r.length_) in
    record r {
      buffer = write_at r.length_ (take copied bytes) r.buffer;
      length_ = r.length_ + copied;
    }

unfoldable pub append : Reassembler → List ℕ → Reassembler × Result
unfolding drop_packet copy_in
append r [] = drop_packet r
append r (b ∷ bytes) =
    let copied = min (length (b ∷ bytes)) (length r.buffer - r.length_) in
    let r' = copy_in r (b ∷ bytes) in
    elim (read_packet_size r') [
      | none ↦ drop_packet r'
      | some r'' ↦ finish_frame r'' r.length_ copied (length (b ∷ bytes))
    ]

-- A frame that passed the sequence check.
unfoldable pub accept_data : Reassembler → ℕ → ℕ → List ℕ → Reassembler × Result
accept_data r sequence now_ms bytes =
    append
      (record r { last_frame_ms = now_ms; next_sequence = bit_and (sequence + 1) sequence_mask })
      bytes

unfoldable pub accept_sequence : Reassembler → List ℕ → ℕ → Reassembler × Result
unfolding drop_packet reset accept_data is_start_frame
accept_sequence r [] now_ms = (r, ignored)
accept_sequence r (control ∷ bytes) now_ms =
    let sequence = bit_and control sequence_mask in
    if is_start_frame (control ∷ bytes)
    then if sequence != 0
      then drop_packet (reset r)
      else accept_data (record (reset r) { is_active = true }) sequence now_ms bytes
    else if not r.is_active
    then (r, ignored)
    else if sequence != r.next_sequence
    then drop_packet r
    else accept_data r sequence now_ms bytes

abbrev is_empty : List ℕ → Bool
is_empty [] = true
is_empty (_ ∷ _) = false

-- Accept() after the timeout check.
unfoldable pub accept_fresh : Reassembler → List ℕ → ℕ → Reassembler × Result
unfolding drop_packet accept_sequence
accept_fresh r frame now_ms =
    if is_empty frame || ltb (get_frame_size r.format) (length frame)
    then if r.is_active then drop_packet r else (r, ignored)
    else accept_sequence r frame now_ms

unfoldable pub accept : Reassembler → List ℕ → ℕ → Reassembler × Result
unfolding reset is_expired accept_fresh
accept r frame now_ms = accept_fresh (if is_expired r now_ms then reset r else r) frame now_ms
