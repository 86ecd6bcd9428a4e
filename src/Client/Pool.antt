-- ===== src/Client/Pool.antt =====
-- client/serverpool/serverpool.go: the pool of servers, and which of them passed the last round of
-- health checks. A round is `Listen`, or one turn of `loopHealthcheck`; each check of a server may fail.
pub mod Chosen
mod Tests
use dracula.Prelude.{
  some, index, ◌>>=◌, ◌==◌, none, done, ltb, length, false, Option, if◌then◌else◌, ◌∷◌, [], ◌<◌,
  true, Outcome, Bool, ℕ, List,
}

pub record Pool (A : Type 0) : Type 0 where
  pub servers : List A
  pub healthy : List A
  pub unhealthy : List A
  pub disposed : Bool

-- `rand.Intn`, which is documented to return a number below its argument.
pub record Random : Type 0 where
  pub intn : ℕ → ℕ
  pub intn_lt : (n : ℕ) → 0 < n → intn n < n

module _ {A : Type 0} where
  unfoldable pub new_pool : List A → Pool A
  new_pool servers = record { servers = servers; healthy = []; unhealthy = []; disposed = false }

  -- The healthy servers, and the others; `fails` is the error of `Healthcheck`.
  unfoldable pub healthcheck : (A → Bool) → List A → List A × List A
  healthcheck fails [] = ([], [])
  healthcheck fails (s ∷ servers) =
      let (healthy, unhealthy) = healthcheck fails servers in
      if fails s then (healthy, s ∷ unhealthy) else (s ∷ healthy, unhealthy)

  -- The end of a round.
  abbrev pub seed : List A → List A → Pool A → Pool A
  seed healthy unhealthy p = record p { healthy = healthy; unhealthy = unhealthy }

  unfoldable pub listen : (A → Bool) → Pool A → Pool A
  listen fails p =
      let (healthy, unhealthy) = healthcheck fails p.servers in seed healthy unhealthy p

  -- The loop ends when it finds the pool disposed.
  unfoldable pub loop_healthcheck : (A → Bool) → Pool A → Pool A
  unfolding listen
  loop_healthcheck fails p = if p.disposed then p else listen fails p

  unfoldable pub choose : Random → Pool A → Outcome (Option A)
  choose rand p =
      let l = length p.healthy in
      if ltb l 1
      then done none
      else if l == 1
      then (do s ← index p.healthy 0; done (some s))
      else (do s ← index p.healthy (rand.intn l); done (some s))

  unfoldable pub dispose : Pool A → Pool A
  dispose p = record p { disposed = true }
