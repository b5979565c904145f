-- ===== src/Frame.antt =====
-- The 256-byte message buffer: how a message is put into it before it is sent (the `memset`, `memcpy`
-- and `sprintf` lines of chat-c/*.c), and how the receiver cuts it out again (`clear_message` of
-- chat-c/client/data_structure.c, and its copies in chat-c/socket_changes.c and chat-c/multicast.c).
pub mod RoundTrip
mod Tests
use mathlib.Core.Option
use ds_project.Base.{
  ℕ, zero, suc, ◌≤◌, ◌<◌, ◌≡◌, refl, true, false, Bool, ◌&&◌, List, [], ◌∷◌, ◌++◌, Option, none,
  some, Result, ok, err, out_of_range, ◌==◌, leb, ltb, if◌then◌else◌, length, replicate,
}
use ds_project.Text.{Bytes, codes}

-- `BUFFER_SIZE`.
abbrev pub buffer_size : ℕ
buffer_size = 256

abbrev pub newline : ℕ
newline = 10

-- A copy to the front of a buffer.
unfoldable pub overlay : Bytes → Bytes → Bytes
overlay [] buffer = buffer
overlay (c ∷ s) [] = c ∷ s
overlay (c ∷ s) (d ∷ buffer) = c ∷ overlay s buffer

-- `memset(buf, 'x', 255); buf[255] = '\0'`.
abbrev pub filled_with_x : Bytes
filled_with_x = replicate 255 b'x' ++ 0 ∷ []

abbrev pub filled_with_zero : Bytes
filled_with_zero = replicate buffer_size 0

-- The buffer filled with `x`, and `memcpy(buf, message, strlen(message))`.
unfoldable pub pad_message : Bytes → Result Bytes
unfolding overlay
pad_message message =
    if leb (length message) buffer_size
    then ok (overlay message filled_with_x)
    else err out_of_range

-- `sprintf(buf, …)`, which ends the text by a zero byte and leaves what stands behind it.
unfoldable pub sprintf_into : Bytes → Bytes → Result Bytes
unfolding overlay
sprintf_into buffer message =
    if ltb (length message) (length buffer)
    then ok (overlay (message ++ 0 ∷ []) buffer)
    else err out_of_range

-- The C string that a buffer holds.
unfoldable pub c_string : Bytes → Bytes
c_string [] = []
c_string (c ∷ s) = if c == 0 then [] else c ∷ c_string s

-- `strstr(s, "\n\n")`, and the `memcpy` of what stands before it.
unfoldable pub clear_message : Bytes → Option Bytes
clear_message [] = none
clear_message (c ∷ []) = none
clear_message (c ∷ d ∷ s) =
    if c == newline && d == newline
    then some []
    else Option.map (λ t. c ∷ t) (clear_message (d ∷ s))

-- What a receiver reads out of the buffer that was sent to it.
unfoldable pub receive : Bytes → Option Bytes
unfolding c_string clear_message
receive buffer = clear_message (c_string buffer)
