-- ===== src/Pacer/Setup.antt =====
-- udp_pacer.c: the options, the socket and the start of the thread.
use network_testing.Common.{
  ℕ, if◌then◌else◌, Option, none, some, List, [], ◌∷◌, ℤ, pos, to_u16, to_u64, is_nonzero, ◌&&◌,
}
use network_testing.Kernel.{
  Kernel, Sockaddr, ret, err, Call, M, pure, exit, ask, ◌>>=◌, ◌>>◌, exit_fail_mem,
  exit_fail_pthread, af_inet, af_inet6,
}
use network_testing.Getopt.{optarg_or_1, set_verbose}
use network_testing.TimeBench.{of_int}
use network_testing.Socket.{no_addr, setup_sockaddr, sockaddr_len, socket, connect}
use network_testing.Pacer.Timer.{ThreadParam, ThreadStat}

-- `struct cfg_params`
pub record CfgParams : Type 0 where
  pub batch : ℤ
  pub count : ℤ
  pub msg_sz : ℤ
  pub interval : ℕ
  pub thread_prio : ℤ
  pub sockfd : ℕ
  pub addr_family : ℕ
  pub dest_port : ℕ
  pub dest_addr : Sockaddr

abbrev pub init_params : CfgParams
init_params = record {
  batch = pos 10;
  count = pos 5;
  msg_sz = pos 1472;
  interval = 1_000_000;
  thread_prio = pos 0;
  sockfd = 0;
  addr_family = af_inet;
  dest_port = 6666;
  dest_addr = no_addr;
}

-- One result of `getopt_long`; `opt_help` is also the unknown option.
pub data Opt : Type 0 where
  opt_count opt_port opt_priority opt_payload opt_batch opt_interval : ℤ → Opt
  opt_ipv6 opt_help : Opt
  opt_verbose : Option ℤ → Opt

-- The tests of one round of the loop over the options; `none` is the end by `usage`.
unfoldable pub parse_opt : Opt → CfgParams → M (Option CfgParams)
parse_opt (opt_count n) p = pure (some (record p { count = n }))
parse_opt (opt_port n) p = pure (some (record p { dest_port = to_u16 n }))
parse_opt (opt_priority n) p = pure (some (record p { thread_prio = n }))
parse_opt (opt_payload n) p = pure (some (record p { msg_sz = n }))
parse_opt (opt_batch n) p = pure (some (record p { batch = n }))
parse_opt (opt_interval n) p = pure (some (record p { interval = to_u64 n }))
parse_opt opt_ipv6 p = pure (some (record p { addr_family = af_inet6 }))
parse_opt (opt_verbose a) p = set_verbose (optarg_or_1 a) (some p)
parse_opt opt_help p = pure none

unfoldable pub parse_opts : List Opt → CfgParams → M (Option CfgParams)
unfolding parse_opt
parse_opts [] p = pure (some p)
parse_opts (o ∷ os) p = do
  got ← parse_opt o p
  elim got [ none ↦ pure none | some p' ↦ parse_opts os p' ]

-- The parameters that the thread gets, SCHED_FIFO (1) if a priority is asked for, and its
-- statistics.
unfoldable pub thread_param : CfgParams → ThreadParam
thread_param cfg = record {
  sockfd = cfg.sockfd;
  batch = cfg.batch;
  msg_sz = cfg.msg_sz;
  interval = cfg.interval;
  prio = cfg.thread_prio;
  policy = if is_nonzero cfg.thread_prio then 1 else 0;
  max_cycles = to_u64 cfg.count;
}

abbrev pub first_stat : ThreadStat
first_stat = record {
  thread_started = pos 1;
  cycles = 0;
  min = pos 1_000_000;
  max = pos 0;
  act = pos 0;
  avg = of_int (pos 0);
}

module _ (K : Kernel) where
  -- A call of the pthread library, which returns its error, that ends the program if it fails.
  unfoldable pub pthread_call : Call → M (Unit {0})
  pthread_call c = do
    res ← ask K.rc c
    elim res [ ret _ ↦ pure tt | err _ ↦ exit exit_fail_pthread ]

  -- `setup_pthread`: both structures are allocated before either is tested.
  unfoldable pub setup_pthread : CfgParams → M (ThreadParam × ThreadStat)
  unfolding pthread_call
  setup_pthread cfg = do
    par ← ask K.alloc Call.malloc
    stat ← ask K.alloc Call.malloc
    if par && stat then pure tt else exit exit_fail_mem
    pthread_call Call.pthread_attr_init
    pthread_call Call.pthread_create
    pure (thread_param cfg, first_stat)

  unfoldable pub setup_socket : CfgParams → List ℕ → M CfgParams
  unfolding setup_sockaddr socket sockaddr_len connect
  setup_socket p dest_ip = do
    a ← setup_sockaddr K p.addr_family dest_ip p.dest_port
    fd ← socket K p.addr_family 2 17
    _ ← sockaddr_len a
    _ ← connect K fd a
    pure (record p { dest_addr = a; sockfd = fd })

  -- `main` up to the loop that waits for the shutdown, with the operand; `none` is the end by
  -- `usage`.
  unfoldable pub prepare : List Opt → Option (List ℕ) → M (Option (ThreadParam × ThreadStat))
  unfolding parse_opts setup_socket setup_pthread
  prepare opts operand = do
    got ← parse_opts opts init_params
    elim got [
      | none ↦ pure none
      | some p ↦ elim operand [
        | none ↦ pure none
        | some dest_ip ↦ do
          p' ← setup_socket p dest_ip
          started ← setup_pthread p'
          pure (some started)
      ]
    ]
