-- ===== src/Kernel/Tests.antt =====
-- A process and kernels for the runs of the programs on small inputs.
use network_testing.Common.{ℕ, [], true, some, pos}
use network_testing.Socket.{no_addr}
use network_testing.Kernel.{Kernel, Rc, Mem, Message, missing, malformed, Proc}

abbrev pub idle : Proc
idle = record { tick = 0; calls = []; verbose = pos 0 }

abbrev pub bare_message : Mem → Message
bare_message m = record {
  memory = m;
  len = 16;
  name = no_addr;
  namelen = 0;
  controllen = 0;
  control = [];
}

-- A kernel whose `t`-th call returns `rc t`.
abbrev pub test_kernel : (ℕ → Rc) → (ℕ → Mem) → Kernel
test_kernel rc mem = record {
  rc = rc;
  clock = λ t. some (record { sec = t; nsec = 0 });
  tsc = λ t. t;
  source = λ _. no_addr;
  message = λ t _. bare_message (mem t);
  alloc = λ _. true;
  proc_file = λ _. missing;
  pton = λ _ _. malformed;
  ntop = λ _. true;
  stack = λ _. record { sec = 0; nsec = 0 };
  event = λ _ _. 0;
}
