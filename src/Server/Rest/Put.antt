-- ===== src/Server/Rest/Put.antt =====
-- server/restserver.go: what `/put` answers.
use dracula.Prelude.Int.{ℤ, ◌≤ℤ◌, add64}
use dracula.Prelude.{
  Bytes, arith, bytes_eq_refl, bytes_of, false, true, keep-append, length, length-append, refl, ◌∙◌,
  ◌≡◌, ◌<◌, ◌++◌, ◌+◌, ◌==◌, ◌∷◌, [],
}
use dracula.Protocol.Packet.{Hasher}
use dracula.Maps.{HashMap, RedBlackTree}
use dracula.Tree.{alive}
use dracula.Tree.Crawl.{keep_later}
use dracula.Store as Methods
use dracula.Store.{Store}
use dracula.Store.Views.{IsUniform, dates, live}
use dracula.Store.Puts.{dates-put}
use dracula.Store.Answers.{count-live}
use dracula.Server.{Clock, Server}
use dracula.Server.Rest.{Request, count_response, get_only, ok, put_handler, rest_server, trim}

module _ ⦃hash : Hasher⦄ ⦃t : RedBlackTree⦄ ⦃h : HashMap⦄ where
  -- The count after a put is that of before, of what has not expired since, and one more.
  count-put :
      (now secs count_now : ℤ) (s : Store) (ns k : Bytes)
      → IsUniform s
      → now ≤ℤ count_now
      → alive count_now (add64 secs s.expire_after_secs) ≡ true
      → (Methods.count count_now (Methods.put now secs s ns k) ns k).1
        ≡ (Methods.count count_now s ns k).1 + 1
  count-put now secs count_now s ns k u le fresh =
      let d : dates (Methods.put now secs s ns k) ns k
          ≡ live now s ns k ++ (add64 secs s.expire_after_secs ∷ []) =
        dates-put now secs s.expire_after_secs s ns k ns k refl u
        ∙ rw (bytes_eq_refl ns, bytes_eq_refl k) in
      rw (
        count-live count_now (Methods.put now secs s ns k) ns k,
        count-live count_now s ns k,
        d,
        keep-append (alive count_now) (live now s ns k) (add64 secs s.expire_after_secs ∷ []),
        keep_later now count_now (dates s ns k) le,
        fresh,
        length-append (live count_now s ns k) (add64 secs s.expire_after_secs ∷ []),
      )

  -- `GET /put` with a namespace and a key that are not empty when trimmed puts the entry in the store
  -- and answers 200 with one more than the key's count before, if the trees of the store share its
  -- expiry setting, the clock does not go back, and the new entry has not expired when it is counted.
  pub rest_server-put :
      (clock : Clock) (count_now : ℤ) (s : Server) (r : Request)
      → r.method ≡ bytes_of "GET"
      → r.path ≡ bytes_of "/put"
      → 0 < length (trim (r.query (bytes_of "namespace")))
      → 0 < length (trim (r.query (bytes_of "key")))
      → IsUniform s.store
      → clock.now ≤ℤ count_now
      → alive count_now (add64 clock.secs s.store.expire_after_secs) ≡ true
      → let ns = trim (r.query (bytes_of "namespace")) in
        let key = trim (r.query (bytes_of "key")) in
        rest_server clock count_now s r ≡ (
          record s {
            store =
                (Methods.count count_now
                  (Methods.put clock.now clock.secs s.store ns key)
                  ns
                  key).0;
          },
          ok (count_response ((Methods.count count_now s.store ns key).1 + 1)),
        )
  unfolding rest_server put_handler get_only
  rest_server-put clock count_now s r get put some_ns some_key u le fresh =
      let ns = trim (r.query (bytes_of "namespace")) in
      let key = trim (r.query (bytes_of "key")) in
      let full_ns : (length ns == 0) ≡ false = ground arith in
      let full_key : (length key == 0) ≡ false = ground arith in
      rw (
        get,
        put,
        full_ns,
        full_key,
        count-put clock.now clock.secs count_now s.store ns key u le fresh,
      )
