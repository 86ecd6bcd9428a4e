-- ===== src/Commands/Cli/Modes.antt =====
-- cmd/cli/main.go: which modes there are, and what is printed.
use dracula.Client.Responses.{CallError}
use dracula.Client.State.{Client}
use dracula.Commands.Cli.{
  listed, stop, exit_keys, Exit, ◌∷◌, numbered, numbered_lines, config, Flags, after_listen,
  Answers, connect, total_modes, main, perform, Surroundings,
}
use dracula.Prelude.{
  ◌∙◌, ◌≤◌, add-zero, length, false, sym, zero, [], suc, if◌then◌else◌, done, ◌+◌, ap₂, get_elem?,
  fun_ext, ℕ, ◌>>=◌, none, some, arith, inr, inl, Bool-cases, true, ◌==◌, Option, Bytes, List, refl,
  ◌≡◌, ap,
}
use dracula.Client.Config as Config

-- The lines of a list.
numbered_lines-get_elem? :
    (n : ℕ) (ks : List Bytes) (i : ℕ) (k : Bytes)
    → get_elem? ks i ≡ some k
    → get_elem? (numbered_lines n ks) i ≡ some (numbered (n + i) k)
unfolding numbered_lines
numbered_lines-get_elem? n [] i k e = absurd (cc)
numbered_lines-get_elem? n (k' ∷ ks) zero k e =
    let first : k' ≡ k = cc in ap₂ (λ j key. some (numbered j key)) (sym (add-zero n)) first
numbered_lines-get_elem? n (k' ∷ ks) (suc i) k e =
    numbered_lines-get_elem? (n + 1) ks i k e ∙ ap (λ j. some (numbered j k)) (omega arith)

length-numbered_lines : (n : ℕ) (ks : List Bytes) → length (numbered_lines n ks) ≡ length ks
unfolding numbered_lines
length-numbered_lines n [] = refl
length-numbered_lines n (k ∷ ks) = ap suc (length-numbered_lines (n + 1) ks)

module _ {C : Type 0} (world : Surroundings) where
  -- With one mode chosen, the namespaces are not asked for.
  perform-namespaces :
      (answers : Answers C) (other : Client C → List Bytes × Option CallError) (f : Flags)
      (c : Client C)
      → (total_modes f == 1) ≡ true
      → perform answers f c ≡ perform (record answers { list_namespaces = other }) f c
  unfolding perform total_modes
  perform-namespaces answers other f c one = elim (Bool-cases f.count) [
    | inl counts ↦ simp counts
    | inr no_count ↦ elim (Bool-cases f.put) [
      | inl puts ↦ simp (no_count, puts)
      | inr no_put ↦ elim (Bool-cases f.cmd_keys) [
        | inl keys ↦ simp (no_count, no_put, keys)
        | inr no_keys ↦ absurd (ground (arith, one, no_count, no_put, no_keys))
      ]
    ]
  ]

  after_listen-namespaces :
      (answers : Answers C) (other : Client C → List Bytes × Option CallError) (f : Flags)
      (listened : Client C × Option CallError)
      → (total_modes f == 1) ≡ true
      → after_listen answers f listened
        ≡ after_listen (record answers { list_namespaces = other }) f listened
  unfolding after_listen
  after_listen-namespaces answers other f (c, none) one = perform-namespaces answers other f c one
  after_listen-namespaces answers other f (c, some err) one = refl

  connect-namespaces :
      (answers : Answers C) (other : Client C → List Bytes × Option CallError) (f : Flags)
      → (total_modes f == 1) ≡ true
      → connect world answers f ≡ connect world (record answers { list_namespaces = other }) f
  unfolding connect
  connect-namespaces answers other f one =
      ap (λ k. Config.new_client world.parsers (config world f) >>= k)
        (fun_ext (λ c.
          ap₂ (λ x y. done (if f.cmd_keys then x else y)) (perform-namespaces answers other f c one)
            (after_listen-namespaces answers other f
              (Config.listen world.check_fails world.listen_error c) one)))

  -- What the command prints and its exit status do not depend on what `ListNamespaces` returns, whatever
  -- the flags: the flag -namespaces lists nothing.
  pub main-list_namespaces :
      (answers : Answers C) (other : Client C → List Bytes × Option CallError) (f : Flags)
      → main world answers f ≡ main world (record answers { list_namespaces = other }) f
  unfolding main
  main-list_namespaces answers other f = elim (Bool-cases (total_modes f == 1)) [
    | inl one ↦ simp (one, connect-namespaces answers other f one)
    | inr not_one ↦ simp not_one
  ]

  connect-key_match :
      (answers : Answers C) (f : Flags) (c : Client C) (k : Bytes) (ks : List Bytes)
      → (f.count ≡ false) × (f.put ≡ false)
      → f.cmd_keys ≡ true
      → Config.new_client world.parsers (config world f) ≡ done c
      → answers.key_match c f.ns f.entry_key ≡ (k ∷ ks, none)
      → connect world answers f ≡ done (record { output = numbered_lines 1 (k ∷ ks); status = 0 })
  unfolding connect perform exit_keys stop listed
  connect-key_match answers f c k ks (count', put') keys made found =
      rw made (ap done (simp (count', put', keys, found)))

  main-connect :
      (answers : Answers C) (f : Flags)
      → (f.help ≡ false) × (f.print_version ≡ false)
      → (1 ≤ length f.ns) × (1 ≤ length f.entry_key)
      → total_modes f ≡ 1
      → main world answers f ≡ connect world answers f
  unfolding main
  main-connect answers f (help, version') (some_ns, some_key) one =
      let ns : (length f.ns == 0) ≡ false = ground arith in
      let key : (length f.entry_key == 0) ≡ false = ground arith in
      let modes : (total_modes f == 1) ≡ true = ground arith in
      simp (help, version', ns, key, modes)

  -- With -keys alone, a namespace and a pattern that are not empty, and a client that is made of the flags and
  -- whose `KeyMatch` returns some keys and no error, the command exits with the status 0 and prints one line
  -- for each key, in order, with its number from 1 on.
  pub main-key_match :
      (answers : Answers C) (f : Flags) (c : Client C) (k : Bytes) (ks : List Bytes)
      → (f.help ≡ false) × (f.print_version ≡ false) × (f.count ≡ false) × (f.put ≡ false)
      → f.cmd_keys ≡ true
      → (1 ≤ length f.ns) × (1 ≤ length f.entry_key)
      → Config.new_client world.parsers (config world f) ≡ done c
      → answers.key_match c f.ns f.entry_key ≡ (k ∷ ks, none)
      → (e : Exit) × (main world answers f ≡ done e)
        × (e.status ≡ 0)
        × (length e.output ≡ length (k ∷ ks))
        × ((i : ℕ) (key : Bytes)
            → get_elem? (k ∷ ks) i ≡ some key
            → get_elem? e.output i ≡ some (numbered (1 + i) key))
  unfolding total_modes
  main-key_match answers f c k ks (help, version', count', put') keys texts made found = (
    record { output = numbered_lines 1 (k ∷ ks); status = 0 },
    main-connect answers f (help, version') texts (simp (count', put', keys))
        ∙ connect-key_match answers f c k ks (count', put') keys made found,
    refl,
    length-numbered_lines 1 (k ∷ ks),
    numbered_lines-get_elem? 1 (k ∷ ks),
  )
