-- ===== src/Rdma.antt =====
-- rdma/mp_rq.c: a ring of receive buffers that the network card fills.
pub mod Posts
mod Tests
use network_testing.Common.{
  ℕ, zero, suc, ◌+◌, ◌*◌, ◌%◌, ◌^◌, Bool, true, false, if◌then◌else◌, Option, none, some, List, [],
  ◌∷◌, ℤ, pos, negsuc, is_neg,
}
use network_testing.Kernel.{
  Kernel, Call, M, pure, exit, ask, out_of_fuel, ◌>>=◌, ◌>>◌, exit_failure,
}

-- ENTRY_SIZE and RQ_NUM_DESC
abbrev pub entry_size : ℕ
entry_size = 9000

abbrev pub rq_num_desc : ℕ
rq_num_desc = 512

-- The verbs library, by the number of calls made before: the list of the devices or NULL, each of
-- them NULL or not; whether a call that makes something returned it; the result of a change of the
-- ring; the result of a poll and the `wr_id` of the completion.
pub record Verbs : Type 0 where
  pub devices : ℕ → Option (List Bool)
  pub made : ℕ → Bool
  pub modified : ℕ → ℤ
  pub polled : ℕ → ℤ × ℕ

-- `for (i = 0; i < num_devices; i++)`: is there a device in the list?
pub find_device : List Bool → Bool
find_device [] = false
find_device (d ∷ ds) = if d then true else find_device ds

-- `buf + ENTRY_SIZE * n`, as a `uint64_t`
abbrev pub entry_addr : ℕ → ℕ → ℕ
entry_addr buf n = (buf + entry_size * n) % 2 ^ 64

module _ (K : Kernel) (V : Verbs) where
  unfoldable pub find_devices : M (Unit {0})
  unfolding find_device
  find_devices = do
    list ← ask V.devices Call.ibv_get_device_list
    elim list [
      | none ↦ exit exit_failure
      | some ds ↦ if find_device ds then pure tt else exit exit_failure
    ]

  -- A call that makes something, or ends the program.
  unfoldable pub make : Call → M (Unit {0})
  make c = do got ← ask V.made c; if got then pure tt else exit exit_failure

  unfoldable pub make_all : List Call → M (Unit {0})
  unfolding make
  make_all [] = pure tt
  make_all (c ∷ cs) = do make c; make_all cs

  -- `ibv_modify_qp`
  unfoldable pub modify : M (Unit {0})
  modify = do
    res ← ask V.modified Call.ibv_modify_qp
    if is_neg res then exit exit_failure else pure tt

  unfoldable pub alloc_buffer : M (Unit {0})
  alloc_buffer = do got ← ask K.alloc Call.malloc; if got then pure tt else exit exit_failure

  -- From the device to the registered buffer.
  unfoldable pub prepare_ring : M (Unit {0})
  unfolding find_devices make_all modify alloc_buffer make
  prepare_ring = do
    find_devices
    make_all
        (Call.ibv_open_device ∷ Call.ibv_alloc_pd ∷ Call.ibv_create_cq ∷ Call.ibv_create_qp ∷ [])
    modify
    modify
    alloc_buffer
    make Call.ibv_reg_mr

  -- `ibv_post_recv`, its result ignored
  abbrev pub post_recv : ℕ → ℕ → M Bool
  post_recv buf n = ask V.made (Call.ibv_post_recv (entry_addr buf n) n)

  -- `for (n = 0; n < RQ_NUM_DESC; n++)`, with the descriptors left.
  unfoldable pub post_loop : ℕ → ℕ → ℕ → M (Unit {0})
  post_loop buf zero n = pure tt
  post_loop buf (suc left) n = do _ ← post_recv buf n; post_loop buf left (n + 1)

  -- One round of `while (1)`: a completed descriptor is posted again.
  unfoldable pub poll_once : ℕ → M (Unit {0})
  poll_once buf = do
    got ← ask V.polled Call.ibv_poll_cq
    elim got.0 [
      | pos zero ↦ pure tt
      | pos (suc _) ↦ do _ ← post_recv buf got.1; pure tt
      | negsuc _ ↦ exit exit_failure
    ]

  -- The loop ends by an error only.
  unfoldable pub poll_loop : ℕ → ℕ → M (Unit {0})
  unfolding poll_once
  poll_loop buf zero = out_of_fuel
  poll_loop buf (suc fuel) = do poll_once buf; poll_loop buf fuel

  -- `main`, with the address of the buffer and the rounds of its last loop.
  unfoldable pub main : ℕ → ℕ → M ℕ
  unfolding prepare_ring post_loop make poll_loop
  main buf fuel = do
    prepare_ring
    post_loop buf rq_num_desc 0
    make Call.ibv_create_flow
    poll_loop buf fuel
    pure 0
