-- ===== src/Discovery/Tests.antt =====
-- A server that starts, on concrete answers.
use ds_project.Base.{◌≡◌, refl, [], ◌∷◌, ◌++◌, some, ok, pos, arith}
use ds_project.Text.{codes, print, print_int}
use ds_project.Frame.RoundTrip.{is_plain-IsPlain}
use ds_project.Peers.{server_info_exist}
use ds_project.Server.Examples.{calm, connects, node, start}
use ds_project.SocketChanges.Understood.{is_address-IsAddress}
use ds_project.Disconnection.Ring.{with_peers}
use ds_project.Joining.{welcome_text}
use ds_project.Discovery.{Caller, Welcome, finished, read_answer}
use ds_project.Discovery.Answer.{member, read_answer-welcome_text}

abbrev caller : Caller
caller = record { socket = pos 8; addr = codes "10.0.0.1" }

abbrev welcomed : Welcome
welcomed = record {
  id = pos 1;
  successor_ip = codes "10.0.0.7";
  port = pos 4040;
  successor_id = pos 7;
}

-- Server 5 joins the ring of leader 1, before server 7.
read_answer-welcome_text_example :
    read_answer calm caller
      (some (welcome_text (pos 1) (codes "10.0.0.7") (pos 4040) (pos 7) ++ codes "xx"))
      (with_peers (node (pos 5) ∷ []) start)
    ≡ ok (finished (pos 8), member calm start (node (pos 5)) caller welcomed (pos 9))
unfolding print print_int server_info_exist
read_answer-welcome_text_example =
    read_answer-welcome_text calm start (node (pos 5)) caller welcomed (pos 9) (codes "xx")
      (is_address-IsAddress (codes "10.0.0.7") refl) (is_plain-IsPlain (codes "10.0.0.7") refl)
      (omega arith) refl refl refl connects
