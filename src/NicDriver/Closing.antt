-- ===== src/NicDriver/Closing.antt =====
-- get_nic_driver.c: the errors of `get_driver_info`, which `main` ignores.
use network_testing.Common.{
  ℕ, ◌+◌, ◌<◌, ◌%◌, ◌^◌, ◌≡◌, ◌≢◌, refl, arith, inl, inr, ==_of_ne, leb, false, List, [], ◌∷◌,
  length, pos, signed32,
}
use network_testing.Kernel.{Kernel, ret, err, Call, Proc, done, after, af_inet}
use network_testing.Kernel.Laws.{Rc-cases}
use network_testing.NicDriver.{
  ifnamsiz, nic_dev, ioctl_init, ioctl_send, get_driver_info, set_device, parse_devices,
  show_driver, main,
}

module _ (K : Kernel) where
  -- How `get_driver_info` can end for a name that is short enough, and the calls it has made: the
  -- socket is not closed behind an ioctl that fails.
  pub data Outcome (s : Proc) (code : ℕ) (t : Proc) : Type 0 where
    no_socket :
        (e : ℕ)
        → K.rc s.tick ≡ err e
        → code ≡ 70
        → t ≡ after (Call.socket af_inet 2 0) s
        → Outcome s code t
    no_info :
        (fd e : ℕ)
        → K.rc s.tick ≡ ret fd
        → K.rc (s.tick + 1) ≡ err e
        → code ≡ 71
        → t ≡ after (Call.ioctl fd 0x8946) (after (Call.socket af_inet 2 0) s)
        → Outcome s code t
    has_info :
        (fd k : ℕ)
        → K.rc s.tick ≡ ret fd
        → K.rc (s.tick + 1) ≡ ret k
        → code ≡ 0
        → t
          ≡ after (Call.close fd) (after (Call.ioctl fd 0x8946) (after (Call.socket af_inet 2 0) s))
        → Outcome s code t

  short_name : (n : ℕ) → n < ifnamsiz → leb ifnamsiz n ≡ false
  short_name n h = ground arith

  get_driver_info-Outcome :
      (name : List ℕ) (s : Proc)
      → length name < ifnamsiz
      → (code : ℕ) × (t : Proc) × (get_driver_info K name s ≡ done code t) × Outcome s code t
  unfolding get_driver_info ioctl_init ioctl_send
  get_driver_info-Outcome name s short = elim (Rc-cases (K.rc s.tick)) [
    | inr (e, p) ↦
        rw (short_name (length name) short, p, ioctl_init) (70, _, refl, no_socket e p refl refl)
    | inl (fd, p) ↦ elim (Rc-cases (K.rc (s.tick + 1))) [
      | inr (e, q) ↦
          rw (short_name (length name) short, p, ioctl_init, q)
            (71, _, refl, no_info fd e p q refl refl)
      | inl (k, q) ↦
          rw (short_name (length name) short, p, ioctl_init, q)
            (0, _, refl, has_info fd k p q refl refl)
    ]
  ]

  -- For a device with a short name and an index, `main` returns EXIT_OK however `get_driver_info`
  -- ends, which closes its socket only where it found the driver.
  pub main-Outcome :
      (name : List ℕ) (n : ℕ) (s : Proc)
      → length name < ifnamsiz
      → K.rc s.tick ≡ ret n
      → n ≢ 0
      → n < 2 ^ 31
      → (code : ℕ) × (t : Proc) × (get_driver_info K name (after (Call.if_nametoindex name) s)
          ≡ done code t)
        × (main K (nic_dev name ∷ []) s ≡ done 0 t)
        × Outcome (after (Call.if_nametoindex name) s) code t
  unfolding main parse_devices set_device show_driver
  main-Outcome name n s short e some_index small =
      let (code, t, run, out) =
        get_driver_info-Outcome name (after (Call.if_nametoindex name) s) short in
      let index : signed32 (n % 2 ^ 32) ≡ pos n = ground arith in
      (
        code,
        t,
        run,
        rw (short_name (length name) short, e, ==_of_ne n 0 some_index, index, run) refl,
        out,
      )
