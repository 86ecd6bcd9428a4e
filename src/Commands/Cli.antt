-- ===== src/Commands/Cli.antt =====
-- cmd/cli/main.go: from the flags and the environment to what is printed and the exit status. The
-- flags are parsed; the timeout is not negative, and its nanoseconds fit in 63 bits.
pub mod Modes
use dracula.RawMessage.{UdpAddr}
use dracula.Server.Peers.{Parsers}
use dracula.Client.State.{Client}
use dracula.Client.Responses.{CallError}
use dracula.Client.Config as Config
use dracula.Prelude.{
  Bytes, ℕ, Bool, List, Option, Outcome, ◌*◌, ◌+◌, ◌==◌, bytes_of, not, length, if◌then◌else◌, [],
  ◌∷◌, ◌++◌, ◌>>=◌, done, none, some,
}

pub record Flags : Type 0 where
  pub ip_port_pairs : Bytes
  pub ns : Bytes
  pub entry_key : Bytes
  pub count : Bool
  pub put : Bool
  pub cmd_keys : Bool
  pub namespaces : Bool
  pub secret : Bytes
  pub timeout_secs : ℕ
  pub help : Bool
  pub print_version : Bool

-- What is printed: the usage, a line of text, of an error, of a number, and of a list with its numbers.
pub data Output : Type 0 where
  usage version : Output
  line : Bytes → Output
  error : CallError → Output
  number : ℕ → Output
  numbered : ℕ → Bytes → Output

-- A return is the exit status 0.
pub record Exit : Type 0 where
  pub output : List Output
  pub status : ℕ

-- What the client's methods return, which depends on the network.
pub record Answers (C : Type 0) : Type 0 where
  pub count : Client C → Bytes → Bytes → ℕ × Option CallError
  pub put : Client C → Bytes → Bytes → Option CallError
  pub key_match : Client C → Bytes → Bytes → List Bytes × Option CallError
  pub list_namespaces : Client C → List Bytes × Option CallError

-- What the command meets: the variable DRACULA_SECRET, the parsers, the health checks that fail and the
-- error of listening.
pub record Surroundings : Type 0 where
  pub dracula_secret : Bytes
  pub parsers : Parsers
  pub check_fails : UdpAddr → Bool
  pub listen_error : Option Bytes

stop : List Output → Exit
stop output = record { output = output; status = 0 }

fail : CallError → Exit
fail err = record { output = error err ∷ []; status = 1 }

abbrev one_if : Bool → ℕ
one_if mode = if mode then 1 else 0

unfoldable pub total_modes : Flags → ℕ
total_modes f = one_if f.count + one_if f.put + one_if f.cmd_keys

unfoldable pub pre_shared_secret : Surroundings → Flags → Bytes
pre_shared_secret world f = if not (length f.secret == 0) then f.secret else world.dracula_secret

unfoldable pub config : Surroundings → Flags → Config.Config
unfolding pre_shared_secret
config world f = record {
  remote_udp_ip_port_list = if f.cmd_keys then [] else f.ip_port_pairs;
  remote_tcp_ip_port_list = if f.cmd_keys then f.ip_port_pairs else [];
  timeout = f.timeout_secs * 1000000000;
  pre_shared_key = pre_shared_secret world f;
}

-- `for i, k := range`, from a number on.
unfoldable pub numbered_lines : ℕ → List Bytes → List Output
numbered_lines i [] = []
numbered_lines i (k ∷ ks) = numbered i k ∷ numbered_lines (i + 1) ks

-- What is printed of a list, or of an empty one.
listed : Bytes → List Bytes → List Output
unfolding numbered_lines
listed empty [] = line empty ∷ []
listed empty (k ∷ ks) = numbered_lines 1 (k ∷ ks)

exit_count : ℕ × Option CallError → Exit
unfolding stop fail
exit_count (total, none) = stop (number total ∷ [])
exit_count (total, some err) = fail err

exit_put : Option CallError → Exit
unfolding stop fail
exit_put none = stop []
exit_put (some err) = fail err

exit_keys : List Bytes × Option CallError → Exit
unfolding stop fail listed
exit_keys (keys, none) = stop (listed (bytes_of "(no matched keys)") keys)
exit_keys (keys, some err) = fail err

-- The process goes on after the list, and ends with the error.
exit_namespaces : List Bytes × Option CallError → Exit
unfolding fail listed
exit_namespaces (namespaces, none) = record {
  output =
      listed (bytes_of "(no namespaces)") namespaces ++ (line (bytes_of "no command matched") ∷ []);
  status = 1;
}
exit_namespaces (namespaces, some err) = fail err

module _ {C : Type 0} where
  unfoldable pub perform : Answers C → Flags → Client C → Exit
  unfolding exit_count exit_put exit_keys exit_namespaces
  perform answers f c =
      if f.count
      then exit_count (answers.count c f.ns f.entry_key)
      else if f.put
      then exit_put (answers.put c f.ns f.entry_key)
      else if f.cmd_keys
      then exit_keys (answers.key_match c f.ns f.entry_key)
      else if f.namespaces
      then exit_namespaces (answers.list_namespaces c)
      else record { output = line (bytes_of "no command matched") ∷ []; status = 1 }

  after_listen : Answers C → Flags → Client C × Option CallError → Exit
  unfolding perform fail
  after_listen answers f (c, none) = perform answers f c
  after_listen answers f (c, some err) = fail err

  -- The part after the flags are checked.
  unfoldable pub connect : Surroundings → Answers C → Flags → Outcome Exit
  unfolding after_listen config
  connect world answers f = do
    c ← Config.new_client world.parsers (config world f)
    done (
        if f.cmd_keys
        then perform answers f c
        else after_listen answers f (Config.listen world.check_fails world.listen_error c))

  unfoldable pub main : Surroundings → Answers C → Flags → Outcome Exit
  unfolding stop total_modes connect
  main world answers f =
      if f.help
      then done (stop (usage ∷ []))
      else if f.print_version
      then done (stop (version ∷ []))
      else if length f.ns == 0
      then done (stop (usage ∷ line (bytes_of "-n 'namespace' is required") ∷ []))
      else if length f.entry_key == 0
      then done (stop (usage ∷ line (bytes_of "-k 'entrykey' is required") ∷ []))
      else if not (total_modes f == 1)
      then done (stop (usage ∷ line (bytes_of "either -put, -count, -keys is required") ∷ []))
      else connect world answers f
