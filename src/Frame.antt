-- ===== src/Frame.antt =====
-- network/inc/client/FrameBuffer.h and network/src/client/FrameBuffer.cpp: the accumulating buffer
-- of received bytes, and the big-endian length header of network/src/client/PacketStream.cpp.
pub mod Contents
pub mod Header
use highp_mmorpg.Prelude.{
  ℕ, ◌+◌, ◌-◌, ◌*◌, ◌/◌, ◌%◌, ◌^◌, Bool, true, false, List, [], ◌∷◌, ◌++◌, ltb, leb, if◌then◌else◌,
  length, get_or, take, drop, ◌||◌,
}

-- `Const::Buffer::maxFrameSize`
abbrev pub max_frame_size : ℕ
max_frame_size = 65536

-- `PacketStream::kHeaderSize`
abbrev pub header_size : ℕ
header_size = 4

-- `htonl` and `ntohl` on a little-endian machine: the four bytes of a word in reverse.
unfoldable pub htonl : ℕ → ℕ
htonl x = x % 256 * 2 ^ 24 + x / 2 ^ 8 % 256 * 2 ^ 16 + x / 2 ^ 16 % 256 * 2 ^ 8 + x / 2 ^ 24 % 256

-- A `uint32_t` as it lies in the memory of a little-endian machine.
abbrev pub word_bytes : ℕ → List ℕ
word_bytes x = x % 256 ∷ x / 2 ^ 8 % 256 ∷ x / 2 ^ 16 % 256 ∷ x / 2 ^ 24 % 256 ∷ []

abbrev pub bytes_word : List ℕ → ℕ
bytes_word bytes =
    get_or bytes 0 0
    + get_or bytes 1 0 * 2 ^ 8
    + get_or bytes 2 0 * 2 ^ 16
    + get_or bytes 3 0 * 2 ^ 24

-- The header as it is written, `memcpy(frame, &htonl(size), 4)`, and as it is read.
unfoldable pub encode_header : ℕ → List ℕ
unfolding htonl
encode_header payload_size = word_bytes (htonl (payload_size % 2 ^ 32))

unfoldable pub decode_header : List ℕ → ℕ
unfolding htonl
decode_header bytes = htonl (bytes_word bytes)

-- `size_t` addition
abbrev pub add_size : ℕ → ℕ → ℕ
add_size a b = (a + b) % 2 ^ 64

-- `buf` is the array with all its bytes, those past `len` stale; `buf.size()` is its length.
pub record FrameBuffer : Type 0 where
  pub buf : List ℕ
  pub len : ℕ

-- `memcpy(buf + offset, bytes, bytes.size())`
abbrev pub copy_at : List ℕ → ℕ → List ℕ → List ℕ
copy_at buf offset bytes = take offset buf ++ (bytes ++ drop (offset + length bytes) buf)

-- `memmove(buf, buf + source, count)`
abbrev pub move_front : List ℕ → ℕ → ℕ → List ℕ
move_front buf source count = take count (drop source buf) ++ drop count buf

-- `FrameBuffer::Append`. The subtraction runs only where it does not wrap.
unfoldable pub append : FrameBuffer → List ℕ → Bool × FrameBuffer
append f bytes =
    if ltb (length f.buf) (length bytes) || ltb (length f.buf - length bytes) f.len
    then (false, f)
    else (true, record f { buf = copy_at f.buf f.len bytes; len = add_size f.len (length bytes) })

-- `FrameBuffer::Data`
unfoldable pub contents : FrameBuffer → List ℕ
contents f = take f.len f.buf

-- `FrameBuffer::Consume`
unfoldable pub consume : FrameBuffer → ℕ → FrameBuffer
consume f transferred = if leb f.len transferred then record f { len = 0 } else record f {
  buf = move_front f.buf transferred (f.len - transferred);
  len = f.len - transferred;
}

-- `FrameBuffer::Size`
unfoldable pub size : FrameBuffer → ℕ
size f = f.len
