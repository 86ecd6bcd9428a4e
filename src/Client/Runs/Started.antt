-- ===== src/Client/Runs/Started.antt =====
-- client/client.go: each of the client's methods that send is a request.
use dracula.Protocol.Command.{
  cmd_tcp_only_namespaces, cmd_count_server, cmd_count_namespace, cmd_put, cmd_tcp_only_keys,
  cmd_count,
}
use dracula.Client.Requests.{count}
use dracula.Client.Requests.Requested.{healthcheck-IsRequested, start-IsRequested, IsRequested}
use dracula.Client.State.{Sent, Client, Environment}
use dracula.Client.Runs.{Request, send_request}
use dracula.Prelude.{[], done, ◌≡◌, Bytes}
use dracula.RawMessage.{UdpAddr}
use dracula.Protocol.Packet.{Hasher}
use dracula.Client.Requests as Methods

module _ {C : Type 0} ⦃hash : Hasher⦄ (addr_string : UdpAddr → Bytes) where
  pub send_request-IsRequested :
      (env : Environment) (c : Client C) (r : Request) (cb : C) (s : Sent C)
      → send_request addr_string env c r cb ≡ done s
      → IsRequested env.add_now c cb s
  unfolding send_request Methods.count Methods.key_match Methods.put Methods.count_namespace
      Methods.count_server Methods.list_namespaces
  send_request-IsRequested env c (Request.count ns key) cb s e =
      start-IsRequested env c cmd_count ns key cb s e
  send_request-IsRequested env c (Request.key_match ns pattern) cb s e =
      start-IsRequested env c cmd_tcp_only_keys ns pattern cb s e
  send_request-IsRequested env c (Request.put ns value) cb s e =
      start-IsRequested env c cmd_put ns value cb s e
  send_request-IsRequested env c (Request.count_namespace ns) cb s e =
      start-IsRequested env c cmd_count_namespace ns [] cb s e
  send_request-IsRequested env c Request.count_server cb s e =
      start-IsRequested env c cmd_count_server [] [] cb s e
  send_request-IsRequested env c Request.list_namespaces cb s e =
      start-IsRequested env c cmd_tcp_only_namespaces [] [] cb s e
  send_request-IsRequested env c (Request.healthcheck server) cb s e =
      healthcheck-IsRequested addr_string env c server cb s e
