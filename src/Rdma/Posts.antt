-- ===== src/Rdma/Posts.antt =====
-- rdma/mp_rq.c: where the descriptors point that `main` posts.
use network_testing.Common.{
  ℕ, zero, suc, ◌+◌, ◌*◌, ◌^◌, ◌≤◌, ◌<◌, ◌≡◌, refl, arith, Bool, Bool-cases, inl, inr, Option, none,
  some, List, [], ◌∷◌, ℤ, pos, negsuc, is_neg,
}
use network_testing.Kernel.{
  Kernel, Call, Proc, Run, done, exited, crashed, out_of_fuel, M, and_then, after, pure, ◌>>◌,
}
use network_testing.Rdma.{
  entry_size, rq_num_desc, Verbs, find_device, entry_addr, find_devices, make, make_all, modify,
  alloc_buffer, prepare_ring, post_loop, poll_once, poll_loop, main,
}

-- Each descriptor that was posted points to the entry of its number, which lies in the buffer.
unfoldable pub PostsIn : ℕ → List Call → Type 0
PostsIn buf [] = Unit {0}
PostsIn buf (c ∷ cs) = elim c [
  | Call.ibv_post_recv addr n ↦ ((addr ≡ buf + entry_size * n) × (n < rq_num_desc)) × PostsIn buf cs
  | other ↦ PostsIn buf cs
]

module _ {A : Type 0} where
  abbrev pub proc_of : Run A → Proc
  proc_of (done a t) = t
  proc_of (exited c t) = t
  proc_of (crashed t) = t
  proc_of (out_of_fuel t) = t

  -- The code did not post beyond the buffer, however it ended.
  abbrev Kept : ℕ → Run A → Type 0
  Kept buf r = PostsIn buf (proc_of r).calls

  -- Code that does not post beyond the buffer.
  record Keeps (buf : ℕ) (m : M A) : Type 0 where
    keeps : (s : Proc) → PostsIn buf s.calls → Kept buf (m s)

module _ {A B : Type 0} where
  and_then-Kept :
      {buf : ℕ} (r : Run A) {n : M B} → Keeps buf n → Kept buf r → Kept buf (and_then r (λ _. n))
  and_then-Kept (done a t) second k = second.keeps t k
  and_then-Kept (exited c t) second k = k
  and_then-Kept (crashed t) second k = k
  and_then-Kept (out_of_fuel t) second k = k

  then-Keeps : {buf : ℕ} {m : M A} {n : M B} → Keeps buf m → Keeps buf n → Keeps buf (m >> n)
  then-Keeps {m = m} first second = record {
    keeps = λ s h. and_then-Kept (m s) second (first.keeps s h);
  }

-- The call posts nothing.
IsSilent : Call → Type 0
unfolding PostsIn
IsSilent c = (buf : ℕ) (calls : List Call) → PostsIn buf calls → PostsIn buf (c ∷ calls)

AllSilent : List Call → Type 0
AllSilent [] = Unit {0}
AllSilent (c ∷ cs) = IsSilent c × AllSilent cs

-- The buffer lies below the end of the address space, and a completion names a descriptor.
pub record IsPlaced (V : Verbs) (buf : ℕ) : Type 0 where
  pub fits : buf + entry_size * rq_num_desc ≤ 2 ^ 64
  pub ids : (t : ℕ) → (V.polled t).1 < rq_num_desc

module _ (K : Kernel) (V : Verbs) (buf : ℕ) (placed : IsPlaced V buf) where
  in_entry :
      (n : ℕ) → n < rq_num_desc → (entry_addr buf n ≡ buf + entry_size * n) × (n < rq_num_desc)
  in_entry n h = let fits = placed.fits in (omega arith, h)

  make-Keeps : (c : Call) → IsSilent c → Keeps buf (make K V c)
  unfolding make IsSilent
  make-Keeps c silent = record {
    keeps = λ s h. elim (Bool-cases (V.made s.tick)) [
      | inl e ↦ rw e (silent buf s.calls h)
      | inr e ↦ rw e (silent buf s.calls h)
    ];
  }

  pure-Keeps : {A : Type 0} (a : A) → Keeps buf (pure a)
  pure-Keeps a = record { keeps = λ s h. h }

  make_all-Keeps : (cs : List Call) → AllSilent cs → Keeps buf (make_all K V cs)
  unfolding make_all AllSilent
  make_all-Keeps [] silent = pure-Keeps tt
  make_all-Keeps (c ∷ cs) silent = then-Keeps (make-Keeps c silent.0) (make_all-Keeps cs silent.1)

  modify-Keeps : Keeps buf (modify K V)
  unfolding modify PostsIn
  modify-Keeps = record {
    keeps =
        λ s h. elim (Bool-cases (is_neg (V.modified s.tick))) [ inl e ↦ rw e h | inr e ↦ rw e h ];
  }

  find_devices-Kept :
      (ds : Option (List Bool)) (s : Proc)
      → V.devices s.tick ≡ ds
      → PostsIn buf s.calls
      → Kept buf (find_devices K V s)
  unfolding find_devices PostsIn
  find_devices-Kept none s e h = rw e h
  find_devices-Kept (some ds) s e h = elim (Bool-cases (find_device ds)) [
    | inl f ↦ rw (e, f) h
    | inr f ↦ rw (e, f) h
  ]

  find_devices-Keeps : Keeps buf (find_devices K V)
  find_devices-Keeps = record { keeps = λ s. find_devices-Kept (V.devices s.tick) s refl }

  alloc_buffer-Keeps : Keeps buf (alloc_buffer K V)
  unfolding alloc_buffer PostsIn
  alloc_buffer-Keeps = record {
    keeps = λ s h. elim (Bool-cases (K.alloc s.tick)) [ inl e ↦ rw e h | inr e ↦ rw e h ];
  }

  prepare_ring-Keeps : Keeps buf (prepare_ring K V)
  unfolding prepare_ring PostsIn AllSilent IsSilent
  prepare_ring-Keeps = then-Keeps find_devices-Keeps (
      then-Keeps
        (make_all-Keeps
          (Call.ibv_open_device ∷ Call.ibv_alloc_pd ∷ Call.ibv_create_cq ∷ Call.ibv_create_qp ∷ [])
          (λ _ _ p. p, (λ _ _ p. p, (λ _ _ p. p, (λ _ _ p. p, tt)))))
        (then-Keeps modify-Keeps (
          then-Keeps modify-Keeps
            (then-Keeps alloc_buffer-Keeps (make-Keeps Call.ibv_reg_mr (λ _ _ p. p))))))

  post_loop-Kept :
      (left n : ℕ) (s : Proc)
      → n + left ≤ rq_num_desc
      → PostsIn buf s.calls
      → Kept buf (post_loop K V buf left n s)
  unfolding post_loop PostsIn
  post_loop-Kept zero n s below h = h
  post_loop-Kept (suc left) n s below h =
      post_loop-Kept left (n + 1) (after (Call.ibv_post_recv (entry_addr buf n) n) s) (omega arith)
        (in_entry n (omega arith), h)

  post_loop-Keeps : Keeps buf (post_loop K V buf rq_num_desc 0)
  post_loop-Keeps = record { keeps = λ s. post_loop-Kept rq_num_desc 0 s (omega arith) }

  poll_once-Kept :
      (r : ℤ) (s : Proc)
      → (V.polled s.tick).0 ≡ r
      → PostsIn buf s.calls
      → Kept buf (poll_once K V buf s)
  unfolding poll_once PostsIn
  poll_once-Kept (pos zero) s e h = rw e h
  poll_once-Kept (pos (suc k)) s e h = rw e (in_entry (V.polled s.tick).1 (placed.ids s.tick), h)
  poll_once-Kept (negsuc k) s e h = rw e h

  poll_once-Keeps : Keeps buf (poll_once K V buf)
  poll_once-Keeps = record { keeps = λ s. poll_once-Kept (V.polled s.tick).0 s refl }

  abbrev endless : M (Unit {0})
  endless = out_of_fuel

  endless-Keeps : Keeps buf endless
  endless-Keeps = record { keeps = λ s h. h }

  poll_loop-Keeps : (fuel : ℕ) → Keeps buf (poll_loop K V buf fuel)
  unfolding poll_loop
  poll_loop-Keeps zero = endless-Keeps
  poll_loop-Keeps (suc fuel) = then-Keeps poll_once-Keeps (poll_loop-Keeps fuel)

  -- However far `main` gets and however it ends, each descriptor that it has posted points to the
  -- entry of its number, within the buffer, if the completions name descriptors.
  pub main-PostsIn :
      (fuel : ℕ) (s : Proc)
      → PostsIn buf s.calls
      → PostsIn buf (proc_of (main K V buf fuel s)).calls
  unfolding main PostsIn IsSilent
  main-PostsIn fuel =
      let all = then-Keeps prepare_ring-Keeps (
        then-Keeps post_loop-Keeps (
          then-Keeps (make-Keeps Call.ibv_create_flow (λ _ _ p. p))
            (then-Keeps (poll_loop-Keeps fuel) (pure-Keeps 0)))) in
      all.keeps
