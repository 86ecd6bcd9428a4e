-- ===== src/Protocol/Command.antt =====
-- protocol/protocol.go: the command bytes and their classes.
use dracula.Prelude.{ℕ, Bool, ◌||◌, ◌==◌}

abbrev pub cmd_count : ℕ
cmd_count = b'C'

abbrev pub cmd_put : ℕ
cmd_put = b'P'

abbrev pub cmd_put_replicate : ℕ
cmd_put_replicate = b'R'

abbrev pub cmd_count_namespace : ℕ
cmd_count_namespace = b'N'

abbrev pub cmd_count_server : ℕ
cmd_count_server = b'S'

abbrev pub cmd_tcp_only_keys : ℕ
cmd_tcp_only_keys = b'K'

abbrev pub cmd_tcp_only_values : ℕ
cmd_tcp_only_values = b'V'

abbrev pub cmd_tcp_only_store : ℕ
cmd_tcp_only_store = b'T'

abbrev pub cmd_tcp_only_retrieve : ℕ
cmd_tcp_only_retrieve = b'I'

abbrev pub cmd_tcp_only_namespaces : ℕ
cmd_tcp_only_namespaces = b'L'

abbrev pub res_error : ℕ
res_error = b'E'

unfoldable pub is_request_cmd : ℕ → Bool
is_request_cmd c =
    c == cmd_count
    || c == cmd_put
    || c == cmd_count_namespace
    || c == cmd_count_server
    || c == cmd_put_replicate

unfoldable pub is_tcp_only_cmd : ℕ → Bool
is_tcp_only_cmd c =
    c == cmd_tcp_only_keys
    || c == cmd_tcp_only_retrieve
    || c == cmd_tcp_only_values
    || c == cmd_tcp_only_store
    || c == cmd_tcp_only_namespaces

unfoldable pub is_response_cmd : ℕ → Bool
unfolding is_request_cmd
is_response_cmd c = c == res_error || is_request_cmd c
