-- ===== src/SocketChanges/Whole.antt =====
-- `handle_socket_change` on a message that arrives whole.
use ds_project.Base.{
  ◌≡◌, ◌+◌, ◌<◌, ◌∙◌, refl, ap, [], ◌∷◌, ◌++◌, false, some, ok, err, out_of_range, ℤ, ◌==ℤ◌, arith,
  length, take_all,
}
use ds_project.Text.{Bytes}
use ds_project.Frame.{buffer_size, filled_with_zero, receive, pad_message, sprintf_into}
use ds_project.Frame.RoundTrip.{IsText, end_mark, receive-send, overlay_whole}
use ds_project.Server.{Env, Server}
use ds_project.SocketChanges.{take_message, handle_socket_change}

whole_message :
    (env : Env) (s : Server) (i : ℤ) (heard read : Bytes)
    → length heard ≡ buffer_size
    → receive heard ≡ some read
    → (i ==ℤ s.udp_socket) ≡ false
    → take_message env i heard s ≡ err out_of_range
unfolding take_message
whole_message env s i heard read whole text other =
    rw (take_message, overlay_whole heard filled_with_zero whole, text) (rw (other, whole) refl)

whole_payload :
    (env : Env) (s : Server) (i : ℤ) (payload read : Bytes)
    → length payload ≡ buffer_size
    → receive payload ≡ some read
    → (i ==ℤ s.udp_socket) ≡ false
    → handle_socket_change env i (some payload) s ≡ err out_of_range
unfolding handle_socket_change
whole_payload env s i [] read whole text other = absurd (omega arith)
whole_payload env s i (c ∷ payload) read whole text other =
    ap (λ heard. take_message env i heard s)
      (take_all buffer_size (c ∷ payload) (omega (arith, whole)))
    ∙ whole_message env s i (c ∷ payload) read whole text other

-- Whatever text a server sends as the 256 bytes of its buffer, padded with `x` or printed by `sprintf`
-- over whatever 256 bytes the buffer held: if it arrives whole, on a socket that is not for datagrams,
-- the receiver writes behind the end of its array, `read[256] = '\0'`. The text has no zero byte and no
-- end mark inside, and fits the buffer with its own and a zero byte.
pub handle_socket_change_whole :
    (env : Env) (s : Server) (i : ℤ) (t before : Bytes)
    → IsText t
    → length t + 2 < buffer_size
    → length before ≡ buffer_size
    → (i ==ℤ s.udp_socket) ≡ false
    → ((padded : Bytes) × (pad_message (t ++ end_mark) ≡ ok padded)
        × (handle_socket_change env i (some padded) s ≡ err out_of_range))
      × ((printed : Bytes) × (sprintf_into before (t ++ end_mark) ≡ ok printed)
          × (handle_socket_change env i (some printed) s ≡ err out_of_range))
handle_socket_change_whole env s i t before text fits full other =
    let (padded, printed, pad, print, whole, whole_print, read, read_print) =
      receive-send t before text fits full in
    (
      (padded, pad, whole_payload env s i padded t whole read other),
      (printed, print, whole_payload env s i printed t whole_print read_print other),
    )
