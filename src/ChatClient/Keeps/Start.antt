-- ===== src/ChatClient/Keeps/Start.antt =====
-- What a chat client keeps on the way to its loop (chat-c/client/client_s.c,
-- chat-c/client/service_infom.c).
use ds_project.Base.{
  [], ◌∷◌, Option, none, some, ℤ, pos, is_valid_socket, not, error_return, take, ltb_ℤ, ◌==ℤ◌,
}
use ds_project.Text.{Bytes, scan}
use ds_project.Frame.{c_string, receive, overlay, buffer_size, filled_with_zero}
use ds_project.GroupChat.Counted.{IsSane}
use ds_project.ChatClient.{Host, M, accepting, receiving, sent, ◌>>◌, lift, watch}
use ds_project.ChatClient.Sockets.{
  group_multicast, join_multicast, connect_toserver, get_tcp_socket,
}
use ds_project.ChatClient.Start.{
  copied, port_text, new_client_text, index_request, put_message, announce, await_leader,
  get_service_info_mcast, join_group, read_index, await_index, ask_index, call_server, start,
  service_values, service_format, index_values, index_format, service_multicast_ip,
  service_multicast_port,
}
use ds_project.ChatClient.Sane.{
  ends, either, lift_ends, bound_to, given, given_end, Keeps, put_message-Keeps, watch-Keeps,
  group_multicast-Keeps, join_multicast-Keeps, connect_toserver-Keeps, get_tcp_socket-Keeps,
}

module _ (host : Host) where
  announce-Keeps : (fd : ℤ) (ip port local : Bytes) → Keeps (announce host fd ip port local)
  unfolding announce
  announce-Keeps fd ip port local s h =
      let sending =
        put_message (new_client_text local)
        >> (λ s. group_multicast host fd ip port (c_string s.client.buffer) s) in
      bound_to (sending s) _
        (bound_to (put_message (new_client_text local) s) _
          (put_message-Keeps (new_client_text local) s h)
          λ r sane. group_multicast-Keeps host fd ip port (c_string r.1.client.buffer) r.1 sane)
        λ q kept. ends kept

  await_leader-Keeps : (fd : ℤ) → Keeps (await_leader host fd)
  unfolding await_leader
  await_leader-Keeps fd s h =
      let t = accepting fd ∷ s.trace in
      let new_socket = host.accept s.trace fd in
      either (new_socket ==ℤ error_return) _ _ (record s { trace = t }) (ends h)
        (given (host.recv t new_socket) _ _ (record s { trace = receiving new_socket ∷ t }) (ends h)
          λ payload.
            let buffer = overlay (take buffer_size payload) filled_with_zero in
            let sane : IsSane (record s.client { buffer = buffer }) = record {
              two = h.two;
              counted = h.counted;
            } in
            given_end (receive buffer) _ _ (ends sane) λ clean. ends sane)

  get_service_info_mcast-Keeps :
      (ip port device_ip device_port : Bytes)
      → Keeps (get_service_info_mcast host ip port device_ip device_port)
  unfolding get_service_info_mcast
  get_service_info_mcast-Keeps ip port device_ip device_port s h =
      bound_to (lift (copied 16 ip) s) _ (lift_ends (copied 16 ip) s h) λ a ha.
        bound_to (lift (copied 6 port) a.1) _ (lift_ends (copied 6 port) a.1 ha) λ b hb.
          bound_to (lift (copied 16 device_ip) b.1) _ (lift_ends (copied 16 device_ip) b.1 hb)
            λ c hc.
              bound_to (lift (copied 6 device_port) c.1) _ (lift_ends (copied 6 device_port) c.1 hc)
                λ d hd.
                  bound_to (join_multicast host a.0 b.0 d.1) _
                    (join_multicast-Keeps host a.0 b.0 d.1 hd)
                    λ l hl. either (not (is_valid_socket l.0)) _ _ l.1 (ends hl) (
                      bound_to (announce host l.0 a.0 b.0 d.0 l.1) _
                        (announce-Keeps l.0 a.0 b.0 d.0 l.1 hl)
                        λ e he.
                          bound_to (get_tcp_socket host c.0 d.0 e.1) _
                            (get_tcp_socket-Keeps host c.0 d.0 e.1 he)
                            λ f hf.
                              either (not (is_valid_socket f.0)) _ _ f.1 (ends hf)
                                (await_leader-Keeps f.0 f.1 hf))

  join_group-Keeps :
      (peer : ℤ) (ip : Bytes) (port index : ℤ) → Keeps (join_group host peer ip port index)
  unfolding join_group
  join_group-Keeps peer ip port index s h =
      let c = record s.client { clk_index = index } in
      let sane : IsSane c = record { two = h.two; counted = h.counted } in
      let named = record s { client = c } in
      bound_to (lift (port_text port) named) _ (lift_ends (port_text port) named sane) λ a ha.
        let told = record a.1 { group_ip = ip; group_port = a.0 } in
        bound_to (join_multicast host ip a.0 told) _ (join_multicast-Keeps host ip a.0 told ha)
          λ g hg.
            bound_to (watch g.0 g.1) _ (watch-Keeps g.0 g.1 hg)
              λ w hw. either (not (is_valid_socket g.0)) _ _ w.1 (ends hw) (ends hw)

  read_index-Keeps : (peer : ℤ) → Keeps (read_index host peer)
  unfolding read_index
  read_index-Keeps peer s h = given_end (receive s.client.buffer) _ _ (ends h) λ message.
      given_end (index_values (scan index_format message)) _ _ (ends h)
        λ v. join_group-Keeps peer v.0 v.1 v.2 s h

  await_index-Keeps : (peer : ℤ) (received : Option Bytes) → Keeps (await_index host peer received)
  unfolding await_index
  await_index-Keeps peer none s h = ends h
  await_index-Keeps peer (some []) s h = ends h
  await_index-Keeps peer (some (c ∷ payload)) s h =
      let buffer = overlay (take buffer_size (c ∷ payload)) filled_with_zero in
      read_index-Keeps peer (record s { client = record s.client { buffer = buffer } })
        (record { two = h.two; counted = h.counted })

  ask_index-Keeps : (peer : ℤ) → Keeps (ask_index host peer)
  unfolding ask_index
  ask_index-Keeps peer s h = either (not (is_valid_socket peer)) _ _ s (ends h) (
      bound_to (asking s) _
        (bound_to (watch peer s) _ (watch-Keeps peer s h)
          λ w hw. put_message-Keeps (index_request w.1.client.self_id) w.1 hw)
        λ p hp.
          let buffer = p.1.client.buffer in
          let t = sent peer buffer ∷ p.1.trace in
          either (ltb_ℤ (host.send p.1.trace peer buffer) (pos 1)) _ _ (record p.1 { trace = t })
            (ends hp)
            (await_index-Keeps peer (host.recv t peer) (record p.1 { trace = receiving peer ∷ t })
              hp))
    where
      asking : M (Unit {0})
      asking = watch peer >> (λ s. put_message (index_request s.client.self_id) s)

  call_server-Keeps : (service_info : Bytes) → Keeps (call_server host service_info)
  unfolding call_server
  call_server-Keeps service_info s h =
      given (service_values (scan service_format service_info)) _ _ s (ends h) λ v.
        let c = record s.client { self_id = v.0 } in
        let sane : IsSane c = record { two = h.two; counted = h.counted } in
        let named = record s { client = c } in
        bound_to (lift (port_text v.2) named) _ (lift_ends (port_text v.2) named sane) λ p hp.
          bound_to (connect_toserver host v.1 p.0 p.1) _
            (connect_toserver-Keeps host v.1 p.0 p.1 hp) λ f hf. ask_index-Keeps f.0 f.1 hf

  pub start-Keeps : (ip port : Bytes) → Keeps (start host ip port)
  unfolding start
  start-Keeps ip port s h =
      bound_to (get_service_info_mcast host service_multicast_ip service_multicast_port ip port s) _
        (get_service_info_mcast-Keeps service_multicast_ip service_multicast_port ip port s h)
        λ r hr. given r.0 _ _ r.1 (ends hr) λ info. call_server-Keeps info r.1 hr
