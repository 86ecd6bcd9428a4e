-- ===== src/Store/Refinement.antt =====
-- store/store.go: after any calls in the order of the clock, the store answers as its history does.
use dracula.Store.Views.{live, new_store-IsUniform, dates-new_store}
use dracula.Maps.{RedBlackTree, HashMap}
use dracula.Tree.{Regexp}
use dracula.Prelude.Int.{◌≤ℤ◌, ℤ}
use dracula.Prelude.{◌∷◌, sym, sum_map, fun_ext, ap, refl, ◌∙◌, length, ◌≡◌, [], Bytes, List}
use dracula.Store.{Store, count, count_entries, new_store}
use dracula.Store.History.{Entry, Call, Shows, Shows-apply, apply, note, EndsBy, unexpired}
use dracula.Store.Totals.{in_space, sum-in_space}
use dracula.Store.Answers.{at_once, count-live, count_entries-live}

-- Calls, each with a time by which all its readings of the clock are made, in the order of time.
abbrev pub Schedule : Type 0
Schedule = List (ℤ × Call)

abbrev pub InOrder : ℤ → Schedule → Type 0
InOrder last [] = Unit
InOrder last ((next, c) ∷ cs) = (last ≤ℤ next) × EndsBy next c × InOrder next cs

abbrev pub end_time : ℤ → Schedule → ℤ
end_time last [] = last
end_time last ((next, c) ∷ cs) = end_time next cs

-- The entries that the calls put, with their expiry times.
abbrev pub history : ℤ → List Entry → Schedule → List Entry
history ttl es [] = es
history ttl es ((next, c) ∷ cs) = history ttl (note ttl es c) cs

module _ ⦃t : RedBlackTree⦄ ⦃h : HashMap⦄ where
  pub run : Regexp → Store → Schedule → Store
  run re s [] = s
  run re s ((next, c) ∷ cs) = run re (apply re s c) cs

  Shows-new_store : (ttl last : ℤ) → Shows ttl last (new_store ttl) []
  Shows-new_store ttl last = record {
    same = λ later ns k le. rw (dates-new_store ttl ns k);
    expire = unfold new_store in refl;
    uniform = new_store-IsUniform ttl;
  }

  run-Shows :
      (re : Regexp) (cs : Schedule) (ttl last : ℤ) (s : Store) (es : List Entry)
      → InOrder last cs
      → Shows ttl last s es
      → Shows ttl (end_time last cs) (run re s cs) (history ttl es cs)
  unfolding run
  run-Shows re [] ttl last s es o v = v
  run-Shows re ((next, c) ∷ cs) ttl last s es (le, ends, o) v =
      run-Shows re cs ttl next (apply re s c) (note ttl es c) o (Shows-apply re c le ends v)

  -- After any calls, reads and collections among them, in the order of the clock on a new store,
  -- `Count` returns how many entries of the key were put and have not expired.
  pub count-history :
      (re : Regexp) (ttl start now : ℤ) (cs : Schedule) (ns k : Bytes)
      → InOrder start cs
      → end_time start cs ≤ℤ now
      → (count now (run re (new_store ttl) cs) ns k).1
        ≡ length (unexpired now (history ttl [] cs) ns k)
  count-history re ttl start now cs ns k o le =
      let v = run-Shows re cs ttl start (new_store ttl) [] o (Shows-new_store ttl start) in
      count-live now (run re (new_store ttl) cs) ns k ∙ ap length (v.same now ns k le)

  -- After any calls in the order of the clock on a new store, `CountEntries`, if its readings of the
  -- clock fall in one second, returns how many entries of the namespace were put and have not expired.
  pub count_entries-history :
      (re : Regexp) (ttl start now : ℤ) (cs : Schedule) (ns : Bytes)
      → InOrder start cs
      → end_time start cs ≤ℤ now
      → (count_entries (at_once now) (run re (new_store ttl) cs) ns).1
        ≡ length (in_space now ns (history ttl [] cs))
  count_entries-history re ttl start now cs ns o le =
      let s = run re (new_store ttl) cs in
      let es = history ttl [] cs in
      let v = run-Shows re cs ttl start (new_store ttl) [] o (Shows-new_store ttl start) in
      let (ks, total, once, complete) = count_entries-live now s ns in
      let same : (λ k. live now s ns k) ≡ (λ k. unexpired now es ns k) =
        fun_ext (λ k. v.same now ns k le) in
      total
      ∙ ap (λ (f : Bytes → List ℤ). sum_map (λ k. length (f k)) ks) same
      ∙ sum-in_space now ns es ks once (λ k missing. sym (v.same now ns k le) ∙ complete k missing)
