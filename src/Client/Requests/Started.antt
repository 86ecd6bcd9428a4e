-- ===== src/Client/Requests/Started.antt =====
-- client/client.go: what a request by UDP does before it waits for its callback.
use dracula.Protocol.Pad.{pad_right}
use dracula.Client.Sending.Cases.{IsHandedOver, send_or_callback_err-udp}
use dracula.Protocol.Packet.Wire.{length-hash_packet, new_packet_from_parts_total}
use dracula.Protocol.Words.{length-uint32_to_bytes, uint32_round_trip, uint32_to_bytes}
use dracula.Protocol.Command.{is_tcp_only_cmd}
use dracula.Client.Udp.Cases.{Returns}
use dracula.Client.Requests.{start, make_packet}
use dracula.Protocol.Packet.{data_value_size, namespace_size, new_packet_from_parts, Packet, Hasher}
use dracula.Client.State.{Environment, make_message_id, Client}
use dracula.Prelude.{arith, length, false, ◌≤◌, done, ◌≡◌, ◌^◌, ◌%◌, Bytes, ◌+◌, ℕ, refl}

-- The identifier of the next request.
abbrev pub next_id : ℕ → ℕ
next_id counter = (counter + 1) % 2 ^ 32

module _ {C : Type 0} where
  abbrev pub counted_up : Client C → Client C
  counted_up c = record c { message_id_counter = next_id c.message_id_counter }

  module _ ⦃hash : Hasher⦄ where
    -- The packet of a request, with the identifier that the client counts up to.
    abbrev pub IsPacketOf : Client C → ℕ → Bytes → Bytes → Packet → Type 0
    IsPacketOf c command ns dv p =
        (p.message_id ≡ next_id c.message_id_counter)
        × (new_packet_from_parts command (uint32_to_bytes (next_id c.message_id_counter)) ns dv
              c.pre_shared_key
            ≡ done p)

    pub made_packet :
        (c : Client C) (command : ℕ) (ns dv : Bytes)
        → (p : Packet) × IsPacketOf c command ns dv p
          × (make_packet c command ns dv ≡ done (counted_up c, p))
          × (p.command ≡ command)
          × (8 ≤ length p.hash_bytes)
          × (4 ≤ length p.message_id_bytes)
          × (length p.message_id_bytes ≡ 4)
          × (p.namespace ≡ pad_right ns namespace_size)
          × (p.data_value ≡ pad_right dv data_value_size)
    unfolding make_packet make_message_id
    made_packet c command ns dv =
        let id = next_id c.message_id_counter in
        let (u, made, _, _) =
          new_packet_from_parts_total command (uint32_to_bytes id) ns dv c.pre_shared_key id
            (uint32_round_trip id (omega arith)) in
        (
          _,
          (refl, made),
          rw made,
          refl,
          length-hash_packet _ _,
          omega (arith, length-uint32_to_bytes id),
          length-uint32_to_bytes id,
          refl,
          refl,
        )

    -- A request by UDP, of any namespace and data, counts the identifiers up, and it either sends nothing
    -- and calls its callback once with an error, or sends one datagram with the packet of the request to a
    -- server, and its callback waits, under an identifier that was free, and is not called. It panics only
    -- on a client that does not listen.
    pub start-cases :
        (env : Environment) (c : Client C) (command : ℕ) (ns dv : Bytes) (cb : C)
        → is_tcp_only_cmd command ≡ false
        → (p : Packet) × IsPacketOf c command ns dv p
          × Returns c (start env c command ns dv cb) (IsHandedOver env.add_now (counted_up c) p cb)
    unfolding start
    start-cases env c command ns dv cb udp =
        let (p, packet, made, same, h, k, _, _, _) = made_packet c command ns dv in
        let by_udp : is_tcp_only_cmd p.command ≡ false = cc in
        (p, packet, rw made (send_or_callback_err-udp env (counted_up c) p cb by_udp h k))
