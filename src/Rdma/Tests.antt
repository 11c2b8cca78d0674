-- ===== src/Rdma/Tests.antt =====
-- A run of mp_rq.c that receives one packet.
use network_testing.Common.{true, some, [], ◌∷◌, pos, arith, ◌≡◌, refl}
use network_testing.Kernel.{Kernel, ret, Call}
use network_testing.Kernel.Tests.{idle, test_kernel}
use network_testing.Rdma.{Verbs, poll_loop, poll_once, main}
use network_testing.Rdma.Posts.{PostsIn, IsPlaced, proc_of, main-PostsIn}

abbrev kernel : Kernel
kernel = test_kernel (λ _. ret 0) (λ _ _. 0)

-- Every poll finds the descriptor 7 completed.
abbrev verbs : Verbs
verbs = record {
  devices = λ _. some (true ∷ []);
  made = λ _. true;
  modified = λ _. pos 0;
  polled = λ _. (pos 1, 7);
}

placed : IsPlaced verbs 4096
placed = record { fits = omega arith; ids = λ _. omega arith }

main-PostsIn_example : PostsIn 4096 (proc_of (main kernel verbs 4096 3 idle)).calls
unfolding PostsIn
main-PostsIn_example = main-PostsIn kernel verbs 4096 placed 3 idle tt

-- The descriptor is posted again.
reposted :
    (proc_of (poll_loop kernel verbs 4096 1 idle)).calls
    ≡ Call.ibv_post_recv 67096 7 ∷ Call.ibv_poll_cq ∷ []
unfolding poll_loop poll_once
reposted = refl
