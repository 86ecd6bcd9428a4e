-- ===== src/Client/Sending.antt =====
-- client/client.go: `sendOrCallbackErr`.
pub mod Cases
use dracula.Client.Tcp.{send_tcp}
use dracula.Client.Responses.{no_healthy_udp_servers}
use dracula.Protocol.Command.{is_tcp_only_cmd}
use dracula.RawMessage.{UdpAddr}
use dracula.Prelude.{none, ◌>>=◌, some, if◌then◌else◌, done, Outcome, Option}
use dracula.Protocol.Packet.{Packet}
use dracula.Client.State.{fails, Sent, Client, Environment}
use dracula.Client.Udp.{send_udp}
use dracula.Client.Pool as Pool

module _ {C : Type 0} where
  chosen : Environment → Client C → Packet → C → Option UdpAddr → Outcome (Sent C)
  unfolding send_udp
  chosen env c packet cb none = done (fails c cb no_healthy_udp_servers)
  chosen env c packet cb (some remote_server) = send_udp env c packet remote_server cb

  unfoldable pub send_or_callback_err : Environment → Client C → Packet → C → Outcome (Sent C)
  unfolding chosen
  send_or_callback_err env c packet cb =
      if is_tcp_only_cmd packet.command then send_tcp env c packet cb else (do
        remote_server ← Pool.choose env.rand c.udp_pool
        chosen env c packet cb remote_server)
