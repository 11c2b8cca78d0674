-- ===== src/Flood/Pmtu.antt =====
-- udp_flood.c: the names of the values of `--pmtu`, and the socket option that it sets.
pub mod Reads
use network_testing.Common.{
  ℕ, zero, suc, true, false, ◌+◌, List, [], ◌∷◌, if◌then◌else◌, Option, none, some, ℤ, pos, negsuc,
  ◌+ℤ◌, ltb_ℤ, is_nonzero,
}
use network_testing.Kernel.{Kernel, Call, M, pure, crash, ask, ◌>>=◌, ◌>>◌}

-- The strings of `ip_mtu_discover_names`.
pub data PmtuName : Type 0 where
  ip_pmtudisc_dont ip_pmtudisc_want ip_pmtudisc_do : PmtuName
  ip_pmtudisc_probe ip_pmtudisc_interface ip_pmtudisc_omit : PmtuName

abbrev pub ip_pmtudisc_max : ℤ
ip_pmtudisc_max = pos 6

abbrev pub ip_mtu_discover_names : List PmtuName
ip_mtu_discover_names =
    ip_pmtudisc_dont ∷ ip_pmtudisc_want ∷ ip_pmtudisc_do ∷ ip_pmtudisc_probe ∷ ip_pmtudisc_interface
    ∷ ip_pmtudisc_omit ∷ []

-- an access to an array; one outside of it is modelled as a crash
unfoldable pub name_at : List PmtuName → ℤ → M (Option PmtuName)
name_at names (negsuc n) = crash
name_at [] (pos n) = crash
name_at (x ∷ names) (pos zero) = pure (some x)
name_at (x ∷ names) (pos (suc n)) = name_at names (pos n)

-- The name of a value, or NULL.
unfoldable pub pmtu_to_string : ℤ → M (Option PmtuName)
unfolding name_at
pmtu_to_string pmtu =
    if ltb_ℤ pmtu ip_pmtudisc_max then name_at ip_mtu_discover_names pmtu else pure none

-- `for (i = 0; i < IP_PMTUDISC_MAX; i++)` of `usage`, with the rounds left: the names printed.
unfoldable pub usage_names : ℕ → ℕ → M (List (Option PmtuName))
unfolding pmtu_to_string
usage_names zero i = pure []
usage_names (suc n) i = do
  name ← pmtu_to_string (pos i)
  names ← usage_names n (i + 1)
  pure (name ∷ names)

module _ (K : Kernel) where
  -- `if (verbose > 0) printf(…)`: the name that is printed, if anything is. `none` is NULL.
  unfoldable pub print_pmtu : ℤ → M (Option (Option PmtuName))
  unfolding pmtu_to_string
  print_pmtu pmtu s = elim (ltb_ℤ (pos 0) s.verbose) [
    | true ↦ (do name ← pmtu_to_string pmtu; pure (some name)) s
    | false ↦ pure none s
  ]

  -- `if (p.pmtu != -1)`, the result of `setsockopt` ignored; what is printed of the name
  unfoldable pub set_pmtu : ℤ → ℕ → M (Option (Option PmtuName))
  unfolding print_pmtu
  set_pmtu pmtu fd =
      if is_nonzero (pmtu +ℤ pos 1)
      then (do
        printed ← print_pmtu pmtu
        _ ← ask K.rc (Call.setsockopt_int fd 0 10 pmtu)
        pure printed)
      else pure none
