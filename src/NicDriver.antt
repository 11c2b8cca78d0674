-- ===== src/NicDriver.antt =====
-- get_nic_driver.c: the name of the driver of a network device, by an ioctl.
pub mod Closing
mod Tests
use network_testing.Common.{
  ℕ, ◌%◌, ◌^◌, Bool, true, false, signed32, ◌==◌, leb, if◌then◌else◌, List, [], ◌∷◌, length, Option,
  none, some, ℤ, pos, negsuc,
}
use network_testing.Kernel.{
  Kernel, Rc, ret, err, Call, M, pure, ask, ◌>>=◌, ◌>>◌, exit_fail_option, af_inet,
}
use network_testing.Socket.{close_fd}

-- IFNAMSIZ, which is IF_NAMESIZE
abbrev pub ifnamsiz : ℕ
ifnamsiz = 16

-- One result of `getopt_long`: `--dev` with its argument, or `--help`, which is also an unknown
-- option.
pub data NicOpt : Type 0 where
  nic_dev : List ℕ → NicOpt
  nic_help : NicOpt

-- `ifname` and `ifindex`, once `--dev` has set them.
pub record Device : Type 0 where
  pub ifname : List ℕ
  pub ifindex : ℤ

-- `if_nametoindex`, which returns 0 when it fails.
abbrev pub index_of : Rc → ℕ
index_of (ret n) = n
index_of (err _) = 0

-- `ifindex == -1`
abbrev pub is_minus_one : ℤ → Bool
is_minus_one (pos n) = false
is_minus_one (negsuc n) = n == 0

module _ (K : Kernel) where
  -- `ioctl_init`: the control socket, or the error it returns.
  unfoldable pub ioctl_init : List ℕ → M Rc
  ioctl_init devname = if leb ifnamsiz (length devname) then pure (err 1) else (do
    fd ← ask K.rc (Call.socket af_inet 2 0)
    elim fd [ ret n ↦ pure (ret n) | err _ ↦ pure (err 70) ])

  -- `ioctl_send`: SIOCETHTOOL on the control socket.
  unfoldable pub ioctl_send : ℕ → M Rc
  ioctl_send fd = ask K.rc (Call.ioctl fd 0x8946)

  unfoldable pub get_driver_info : List ℕ → M ℕ
  unfolding ioctl_init ioctl_send
  get_driver_info devname = do
    init ← ioctl_init devname
    elim init [
      | err e ↦ pure e
      | ret fd ↦ do
        sent ← ioctl_send fd
        elim sent [ err _ ↦ pure 71 | ret _ ↦ close_fd K fd >> pure 0 ]
    ]

  -- `case 'd'`; `none` is the jump to `error`.
  unfoldable pub set_device : List ℕ → M (Option Device)
  set_device name = if leb ifnamsiz (length name) then pure none else (do
    res ← ask K.rc (Call.if_nametoindex name)
    if index_of res == 0
        then pure none
        else pure (some (record { ifname = name; ifindex = signed32 (index_of res % 2 ^ 32) })))

  -- The loop over the options; the outer `none` is the end by `usage`, the inner one no device.
  unfoldable pub parse_devices : List NicOpt → Option Device → M (Option (Option Device))
  unfolding set_device
  parse_devices [] dev = pure (some dev)
  parse_devices (nic_help ∷ os) dev = pure none
  parse_devices (nic_dev name ∷ os) dev = do
    got ← set_device name
    elim got [ none ↦ pure none | some d ↦ parse_devices os (some d) ]

  -- `main` behind the options: the result of `get_driver_info` is not used.
  unfoldable pub show_driver : Option Device → M ℕ
  unfolding get_driver_info
  show_driver none = pure exit_fail_option
  show_driver (some d) = elim (is_minus_one d.ifindex) [
    | true ↦ pure exit_fail_option
    | false ↦ do _ ← get_driver_info d.ifname; pure 0
  ]

  unfoldable pub main : List NicOpt → M ℕ
  unfolding parse_devices show_driver
  main opts = do
    got ← parse_devices opts none
    elim got [ none ↦ pure exit_fail_option | some dev ↦ show_driver dev ]
