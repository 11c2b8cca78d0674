-- ===== src/Flood/Pmtu/Reads.antt =====
-- When the name of a value of `--pmtu` is read outside of the table.
use network_testing.Common.{
  ℕ, zero, suc, ◌+◌, ◌≡◌, refl, inl, inr, true, false, Bool, Bool-cases, List, [], Option, none,
  some, ℤ, pos, negsuc, ltb_ℤ, length, ap, ◌∷◌, is_nonzero, ◌+ℤ◌, arith,
}
use network_testing.Kernel.{Kernel, Call, Proc, Run, done, crashed, after}
use network_testing.Flood.Pmtu.{
  PmtuName, ip_pmtudisc_dont, ip_pmtudisc_want, ip_pmtudisc_do, ip_pmtudisc_probe,
  ip_pmtudisc_interface, ip_pmtudisc_omit, name_at, pmtu_to_string, usage_names, print_pmtu,
  set_pmtu,
}

-- The name that IP_MTU_DISCOVER has for a value from 0 on, or NULL.
abbrev pub name_of : ℕ → Option PmtuName
name_of zero = some ip_pmtudisc_dont
name_of (suc zero) = some ip_pmtudisc_want
name_of (suc (suc zero)) = some ip_pmtudisc_do
name_of (suc (suc (suc zero))) = some ip_pmtudisc_probe
name_of (suc (suc (suc (suc zero)))) = some ip_pmtudisc_interface
name_of (suc (suc (suc (suc (suc zero))))) = some ip_pmtudisc_omit
name_of (suc (suc (suc (suc (suc (suc n)))))) = none

pmtu_to_string-pos : (n : ℕ) (s : Proc) → pmtu_to_string (pos n) s ≡ done (name_of n) s
unfolding pmtu_to_string name_at
pmtu_to_string-pos zero s = refl
pmtu_to_string-pos (suc zero) s = refl
pmtu_to_string-pos (suc (suc zero)) s = refl
pmtu_to_string-pos (suc (suc (suc zero))) s = refl
pmtu_to_string-pos (suc (suc (suc (suc zero)))) s = refl
pmtu_to_string-pos (suc (suc (suc (suc (suc zero))))) s = refl
pmtu_to_string-pos (suc (suc (suc (suc (suc (suc n)))))) s =
    let outside : ltb_ℤ (pos (suc (suc (suc (suc (suc (suc n))))))) (pos 6) ≡ false =
      ground arith in
    rw (pmtu_to_string, outside) refl

pmtu_to_string-negsuc : (n : ℕ) (s : Proc) → pmtu_to_string (negsuc n) s ≡ crashed s
unfolding pmtu_to_string name_at
pmtu_to_string-negsuc n s =
    let small : ltb_ℤ (negsuc n) (pos 6) ≡ true = ground arith in rw (pmtu_to_string, small) refl

-- `usage` prints as many names as it makes rounds, whichever numbers they are.
pub usage_names-length :
    (n i : ℕ) (s : Proc)
    → (names : List (Option PmtuName)) × (usage_names n i s ≡ done names s) × (length names ≡ n)
unfolding usage_names
usage_names-length zero i s = ([], refl, refl)
usage_names-length (suc n) i s =
    let (names, run, count) = usage_names-length n (i + 1) s in
    (name_of i ∷ names, rw (pmtu_to_string-pos i s, run) refl, ap suc count)

-- What is printed of the name of a value from 0 on: nothing without -v.
abbrev pub printed : ℕ → Bool → Option (Option PmtuName)
printed n true = some (name_of n)
printed n false = none

module _ (K : Kernel) where
  print_pmtu-pos :
      (n : ℕ) (s : Proc) → print_pmtu K (pos n) s ≡ done (printed n (ltb_ℤ (pos 0) s.verbose)) s
  unfolding print_pmtu
  print_pmtu-pos n s = elim (Bool-cases (ltb_ℤ (pos 0) s.verbose)) [
    | inl loud ↦ rw (print_pmtu, loud, pmtu_to_string-pos n s) refl
    | inr quiet ↦ rw (print_pmtu, quiet) refl
  ]

  print_pmtu-negsuc :
      (n : ℕ) (s : Proc) → ltb_ℤ (pos 0) s.verbose ≡ true → print_pmtu K (negsuc n) s ≡ crashed s
  unfolding print_pmtu
  print_pmtu-negsuc n s loud = rw (print_pmtu, loud, pmtu_to_string-negsuc n s) refl

  asked-negsuc : (n : ℕ) → is_nonzero (negsuc (suc n) +ℤ pos 1) ≡ true
  unfolding ◌+ℤ◌
  asked-negsuc n = ground arith

  -- The socket, once the option has been given the value.
  abbrev pub given : (pmtu : ℤ) (fd : ℕ) → Proc → Proc
  given pmtu fd s = after (Call.setsockopt_int fd 0 10 pmtu) s

  -- By the value and whether anything is printed: -1 does nothing; any other value is set, unless it
  -- is below -1 and its name is printed, which is read in front of the table.
  abbrev pub pmtu_run : ℤ → Bool → ℕ → Proc → Run (Option (Option PmtuName))
  pmtu_run (pos n) loud fd s = done (printed n loud) (given (pos n) fd s)
  pmtu_run (negsuc zero) loud fd s = done none s
  pmtu_run (negsuc (suc n)) true fd s = crashed s
  pmtu_run (negsuc (suc n)) false fd s = done none (given (negsuc (suc n)) fd s)

  -- Whatever the value of `--pmtu`: -1 leaves the socket as it is and prints nothing. Any other is
  -- given to the socket, and with -v the name of a value from 0 on is printed, which is NULL for 6 and
  -- more. With -v a value below -1 is looked up in front of the table of names, and nothing is given to
  -- the socket.
  pub set_pmtu-run :
      (pmtu : ℤ) (fd : ℕ) (s : Proc)
      → set_pmtu K pmtu fd s ≡ pmtu_run pmtu (ltb_ℤ (pos 0) s.verbose) fd s
  unfolding set_pmtu print_pmtu ◌+ℤ◌
  set_pmtu-run (pos n) fd s =
      let asked : is_nonzero (pos n +ℤ pos 1) ≡ true = ground arith in
      rw (asked, print_pmtu-pos n s) refl
  set_pmtu-run (negsuc zero) fd s = refl
  set_pmtu-run (negsuc (suc n)) fd s = elim (Bool-cases (ltb_ℤ (pos 0) s.verbose)) [
    | inl loud ↦ rw (asked-negsuc n, print_pmtu-negsuc (suc n) s loud, loud) refl
    | inr quiet ↦ rw (asked-negsuc n, print_pmtu, quiet) refl
  ]
