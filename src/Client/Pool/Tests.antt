-- ===== src/Client/Pool/Tests.antt =====
-- client/serverpool/serverpool.go: runs of the pool, with numbers for servers.
use dracula.Prelude.{refl, some, done, index, [], ◌==◌, ◌∷◌, ◌≡◌, ◌%◌, Bool, ℕ}
use dracula.Client.Pool.{healthcheck, listen, new_pool, choose, Pool, Random}

abbrev first : Random
first = record { intn = λ n. 0; intn_lt = λ n h. h }

-- The even servers fail.
abbrev fails : ℕ → Bool
fails n = n % 2 == 0

abbrev three : Pool ℕ
three = new_pool (4 ∷ 5 ∷ 7 ∷ [])

choose_run : choose first (listen fails three) ≡ done (some 5)
unfolding choose listen healthcheck index new_pool
choose_run = refl
