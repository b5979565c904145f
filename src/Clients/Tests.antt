-- ===== src/Clients/Tests.antt =====
-- The table of clients on concrete states.
use ds_project.Base.{
  ◌≡◌, ◌≤◌, ℕ, refl, List, [], ◌∷◌, ◌++◌, replicate, ok, ℤ, pos, arith, length, take,
}
use ds_project.Text.{Bytes, codes, print, print_int}
use ds_project.Frame.{overlay, filled_with_zero, sprintf_into}
use ds_project.Server.{Server, ClientInfo, max_connection}
use ds_project.Server.Examples.{calm, no_client, with_clients, start}
use ds_project.Clients.{group_text, handle_client_message, clients, remove_client_from_list}
use ds_project.Clients.Messages.{sends, handle_client_message_group}
use ds_project.Clients.Table.{IsTable, drop_client, remove_client_from_list_lem}

abbrev on_socket : ℤ → ClientInfo
on_socket fd = record { id = fd; socket = fd; ip_addr = codes "10.0.0.4" }

abbrev three : Server
three =
    with_clients 3
      (on_socket (pos 4) ∷ on_socket (pos 5) ∷ on_socket (pos 6) ∷ replicate 17 no_client)

abbrev full : Server
full = with_clients 20 (replicate 20 (on_socket (pos 4)))

three-IsTable : IsTable three
three-IsTable = record { size = refl; count = omega arith }

start-IsTable : IsTable start
start-IsTable = record { size = refl; count = omega arith }

full-IsTable : IsTable full
full-IsTable = record { size = refl; count = omega arith }

remove_client_from_list_example :
    (array : List ClientInfo) × (n : ℕ) × (remove_client_from_list (pos 5) three
      ≡ ok (tt, record three { client_array = array; client_count = n }))
    × (take n array ≡ drop_client (pos 5) (clients three))
    × (length array ≡ max_connection)
    × (n ≤ max_connection)
remove_client_from_list_example = remove_client_from_list_lem three (pos 5) three-IsTable

abbrev group_buffer : Bytes
group_buffer =
    overlay (codes "[SENDER]: 5\n\t[GROUP]: 1\n\t[MESSAGE]: hi\n\n" ++ 0 ∷ []) filled_with_zero

group_fits :
    sprintf_into filled_with_zero (group_text (pos 5) (pos 1) (codes "hi")) ≡ ok group_buffer
unfolding sprintf_into print print_int
group_fits = refl

handle_client_message_group_example :
    handle_client_message calm (pos 5) (pos 1) (codes "hi") (pos 5) three
    ≡ ok (
      pos 1,
      record three {
        send_buf = group_buffer;
        trace = sends group_buffer (on_socket (pos 4) ∷ on_socket (pos 6) ∷ []) ++ [];
      },
    )
handle_client_message_group_example =
    handle_client_message_group calm three (pos 5) (codes "hi") (pos 5) group_buffer refl refl
      group_fits
