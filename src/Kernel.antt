-- ===== src/Kernel.antt =====
-- The environment of the programs, and what a program does to it.
--
-- A program of this repository is a sequence of system calls with C code between them. The kernel
-- is no code of the repository: it is the parameter `Kernel`, which says for each call, by the
-- number of calls made before it, what the call returned and what it wrote through its pointers.
-- So one value of `Kernel` is one course of events, and a theorem about all of them speaks of
-- every behaviour of the kernel and of the other end of the network.
pub mod Laws
pub mod Tests
use network_testing.Common.{ℕ, ◌+◌, ◌%◌, ◌^◌, List, [], ◌∷◌, Bool, Option, ℤ}

-- What a system call returned: its result, or -1 with `errno`.
pub data Rc : Type 0 where
  ret : ℕ → Rc
  err : ℕ → Rc

-- Bytes by address.
abbrev pub Mem : Type 0
Mem = ℕ → ℕ

-- `struct timespec` of a clock that counts up from 0.
pub record Timespec : Type 0 where
  pub sec : ℕ
  pub nsec : ℕ

-- `struct sockaddr_storage`: the family, the port in network order, the bytes of the address.
pub record Sockaddr : Type 0 where
  pub family : ℕ
  pub port : ℕ
  pub addr : List ℕ

-- One control message, with the first `int` of its data.
pub record Cmsg : Type 0 where
  pub level : ℕ
  pub kind : ℕ
  pub len : ℕ
  pub value : ℤ

-- What `recvmsg` or `recvmmsg` left behind for one message: the memory that its io-vector points
-- into, and the fields of the header that the kernel updates.
pub record Message : Type 0 where
  pub memory : Mem
  pub len : ℕ
  pub name : Sockaddr
  pub namelen : ℕ
  pub controllen : ℕ
  pub control : List Cmsg

-- `/proc/sys/net/ipv4/ip_early_demux` as `fopen`, `fgets` and `sscanf` see it.
pub data ProcFile : Type 0 where
  missing : ProcFile
  empty : ProcFile
  garbled : ProcFile
  holds : ℕ → ProcFile

-- `inet_pton`: the bytes of the address, 0 for a text in no presentation format, or -1.
pub data Pton : Type 0 where
  parsed : List ℕ → Pton
  malformed : Pton
  unsupported : Pton

pub record Kernel : Type 0 where
  pub rc : ℕ → Rc
  pub clock : ℕ → Option Timespec
  pub tsc : ℕ → ℕ
  pub source : ℕ → Sockaddr
  pub message : ℕ → ℕ → Message
  pub alloc : ℕ → Bool
  pub proc_file : ℕ → ProcFile
  pub pton : ℕ → List ℕ → Pton
  pub ntop : ℕ → Bool
  pub stack : ℕ → Timespec
  pub event : ℕ → ℕ → ℕ

-- The calls that a program makes.
pub data Call : Type 0 where
  clock_gettime rdtsc malloc read_proc inet_ntop pthread_attr_init pthread_create : Call
  epoll_create : Call
  ibv_get_device_list ibv_open_device ibv_alloc_pd ibv_create_cq ibv_create_qp ibv_modify_qp : Call
  ibv_reg_mr ibv_create_flow ibv_poll_cq : Call
  pcap_open_live pcap_open_offline pcap_dump_open pcap_stats pcap_dump_close pcap_close : Call
  getuid pcap_open_dead : Call
  socket : ℕ → ℕ → ℕ → Call
  connect : ℕ → Sockaddr → Call
  bind : ℕ → Sockaddr → Call
  setsockopt : ℕ → ℕ → ℕ → Call
  setsockopt_int : ℕ → ℕ → ℕ → ℤ → Call
  close : ℕ → Call
  read : ℕ → ℤ → Call
  recv : ℕ → ℤ → ℕ → Call
  recvfrom : ℕ → ℤ → ℕ → Call
  recvmsg : ℕ → ℕ → Call
  recvmsg_room : ℕ → (namelen : ℕ) → ℤ → (controllen : ℕ) → Call
  recvmmsg : ℕ → ℤ → ℕ → Call
  send : ℕ → Mem → ℤ → Call
  sendto : ℕ → Mem → ℤ → Sockaddr → Call
  write : ℕ → Mem → ℤ → Call
  sendmsg : ℕ → Mem → ℤ → Call
  sendmsg_to : ℕ → Sockaddr → (namelen : ℕ) → Mem → ℤ → List Cmsg → (controllen : ℕ) → Call
  sendmmsg : ℕ → Mem → ℤ → Call
  nanosleep : Timespec → Call
  setscheduler : ℤ → Call
  listen : ℕ → ℕ → Call
  accept : ℕ → Call
  accept4 : ℕ → Call
  epoll_wait : ℕ → ℕ → Call
  epoll_ctl_add : ℕ → ℕ → Call
  if_nametoindex : List ℕ → Call
  ioctl : ℕ → ℕ → Call
  ibv_post_recv : ℕ → ℕ → Call
  pcap_loop : ℕ → Call
  pcap_dump : Timespec → (caplen len : ℕ) → List ℕ → Call
  open_file : ℕ → Call
  sleep : ℕ → Call

-- A running process: how many calls it has made, which they were (the latest first), and the
-- global `verbose` of common.c. What it prints is left out.
pub record Proc : Type 0 where
  pub tick : ℕ
  pub calls : List Call
  pub verbose : ℤ

-- How a piece of code ends: with a value, by `exit`, by a signal (a division by zero), or not
-- within the rounds given to a loop.
pub data Run (A : Type 0) : Type 0 where
  done : A → Proc → Run A
  exited : ℕ → Proc → Run A
  crashed : Proc → Run A
  out_of_fuel : Proc → Run A

abbrev pub M : Type 0 → Type 0
M A = Proc → Run A

abbrev pub pure : {A : Type 0} → A → M A
pure = done

-- `exit(code)`
abbrev pub exit : {A : Type 0} → ℕ → M A
exit = exited

abbrev pub crash : {A : Type 0} → M A
crash = crashed

module _ {A B : Type 0} where
  abbrev pub and_then : Run A → (A → M B) → Run B
  and_then (done a s) k = k a s
  and_then (exited c s) k = exited c s
  and_then (crashed s) k = crashed s
  and_then (out_of_fuel s) k = out_of_fuel s

  infixl 5 ◌>>=◌ ◌>>◌
  abbrev pub ◌>>=◌ : M A → (A → M B) → M B
  m >>= k = λ s. and_then (m s) k

  abbrev pub ◌>>◌ : M A → M B → M B
  m >> n = m >>= λ _. n

-- A call has been made.
abbrev pub after : Call → Proc → Proc
after c s = record s { tick = s.tick + 1; calls = c ∷ s.calls }

-- Any call, with what the field `reply` of the kernel says of it.
abbrev pub ask : {A : Type 0} → (ℕ → A) → Call → M A
ask reply c s = done (reply s.tick) (after c s)

-- `EXIT_FAILURE` of the C library
abbrev pub exit_failure : ℕ
exit_failure = 1

-- the exit codes of global.h
abbrev pub exit_fail_mem : ℕ
exit_fail_mem = 1

abbrev pub exit_fail_option : ℕ
exit_fail_option = 2

abbrev pub exit_fail_time : ℕ
exit_fail_time = 3

abbrev pub exit_fail_sock : ℕ
exit_fail_sock = 100

abbrev pub exit_fail_sockopt : ℕ
exit_fail_sockopt = 101

abbrev pub exit_fail_ip : ℕ
exit_fail_ip = 102

abbrev pub exit_fail_send : ℕ
exit_fail_send = 103

abbrev pub exit_fail_recv : ℕ
exit_fail_recv = 104

abbrev pub exit_fail_fileaccess : ℕ
exit_fail_fileaccess = 106

abbrev pub exit_fail_reuseport : ℕ
exit_fail_reuseport = 105

abbrev pub exit_fail_pthread : ℕ
exit_fail_pthread = 107

-- Linux's numbers of the constants that the sources use
abbrev pub eagain : ℕ
eagain = 11

abbrev pub eintr : ℕ
eintr = 4

abbrev pub eperm : ℕ
eperm = 1

abbrev pub af_inet : ℕ
af_inet = 2

abbrev pub af_inet6 : ℕ
af_inet6 = 10
