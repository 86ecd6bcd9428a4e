-- ===== src/Server/Rest.antt =====
-- server/restserver.go: the HTTP server over the same store. A response is its status and what is
-- encoded as JSON; the content type, which is always JSON, and logging are left out.
pub mod Put
mod Tests
use mathlib.Core.List.{reverse}
use dracula.Store as Methods
use dracula.Server.{Server, Clock}
use dracula.Prelude.Int.{ℤ}
use dracula.Maps.{HashMap, RedBlackTree}
use dracula.Protocol.Packet.{Hasher}
use dracula.Prelude.{
  [], bytes_eq, length, ◌||◌, ◌==◌, if◌then◌else◌, ◌++◌, ◌∷◌, List, bytes_of, ℕ, Bytes,
}

-- `query` is `r.URL.Query().Get`, empty for a parameter that is missing.
pub record Request : Type 0 where
  pub method : Bytes
  pub path : Bytes
  pub query : Bytes → Bytes

pub data Body : Type 0 where
  base_response : Bytes → Bytes → Body
  count_response : ℕ → Body
  list_response : List Bytes → Body

pub record Response : Type 0 where
  pub status : ℕ
  pub body : Body

abbrev pub ok : Body → Response
ok body = record { status = 200; body = body }

-- `strings.Trim(s, " \n")`
trim_front : Bytes → Bytes
trim_front [] = []
trim_front (c ∷ s) = let rest = trim_front s in if c == b' ' || c == 10 then rest else c ∷ s

unfoldable pub trim : Bytes → Bytes
unfolding trim_front
trim s = reverse (trim_front (reverse (trim_front s)))

unfoldable pub details : Request → Bytes
details r = r.method ++ (b' ' ∷ r.path)

unfoldable pub method_not_allowed_handler : Request → Response
unfolding details
method_not_allowed_handler r = record {
  status = 405;
  body = base_response (bytes_of "Method not allowed") (details r);
}

unfoldable pub not_matched_handler : Request → Response
unfolding details
not_matched_handler r = record {
  status = 404;
  body = base_response (bytes_of "Route not matched") (details r);
}

abbrev pub get_base_handler : Response
get_base_handler = ok (
    base_response (bytes_of "OK")
      (bytes_of "Dracula rest server - Routes:  GET /namespaces, GET /count, GET /put"))

abbrev pub bad_request : Bytes → Response
bad_request reason = record { status = 400; body = base_response (bytes_of "Bad request") reason }

module _ ⦃hash : Hasher⦄ ⦃t : RedBlackTree⦄ ⦃h : HashMap⦄ where
  unfoldable pub count_handler : ℤ → Server → Request → Server × Response
  unfolding trim
  count_handler count_now s r =
      let ns = trim (r.query (bytes_of "namespace")) in
      let pattern = trim (r.query (bytes_of "pattern")) in
      if length ns == 0 || length pattern == 0
      then (s, bad_request (bytes_of "namespace and pattern query params are required"))
      else let (store', c) = Methods.count count_now s.store ns pattern in
        (record s { store = store' }, ok (count_response c))

  -- `count_now` is the clock of the count after the put.
  unfoldable pub put_handler : Clock → ℤ → Server → Request → Server × Response
  unfolding trim
  put_handler clock count_now s r =
      let ns = trim (r.query (bytes_of "namespace")) in
      let key = trim (r.query (bytes_of "key")) in
      if length ns == 0 || length key == 0
      then (s, bad_request (bytes_of "namespace and key query params are required"))
      else let (store', c) =
          Methods.count count_now (Methods.put clock.now clock.secs s.store ns key) ns key in
        (record s { store = store' }, ok (count_response c))

  unfoldable pub namespaces_handler : Clock → Server → Server × Response
  namespaces_handler clock s =
      let (store', items) = Methods.namespaces clock.times s.store in
      (record s { store = store' }, ok (list_response items))

  -- A route answers the GET method only.
  get_only : Server → Request → Server × Response → Server × Response
  get_only s r handled =
      if bytes_eq r.method (bytes_of "GET") then handled else (s, method_not_allowed_handler r)

  unfoldable pub rest_server : Clock → ℤ → Server → Request → Server × Response
  unfolding count_handler put_handler namespaces_handler get_only method_not_allowed_handler
      not_matched_handler
  rest_server clock count_now s r =
      if bytes_eq r.path (bytes_of "/")
      then get_only s r (s, get_base_handler)
      else if bytes_eq r.path (bytes_of "/count")
      then get_only s r (count_handler count_now s r)
      else if bytes_eq r.path (bytes_of "/put")
      then get_only s r (put_handler clock count_now s r)
      else if bytes_eq r.path (bytes_of "/namespaces")
      then get_only s r (namespaces_handler clock s)
      else (s, not_matched_handler r)
