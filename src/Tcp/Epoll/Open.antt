-- ===== src/Tcp/Epoll/Open.antt =====
-- tcp_sink_epoll.c: which descriptors `epoll_connections` closes.
use network_testing.Common.{
  ℕ, zero, suc, ◌+◌, arith, ◌≡◌, refl, ◌⊎◌, inl, inr, ◌==◌, if◌then◌else◌, Bool, true, false, List,
  [], ◌∷◌,
}
use network_testing.Kernel.{
  Kernel, Rc, ret, err, Call, Proc, Run, done, exited, crashed, out_of_fuel, M, and_then, after,
  exit_failure,
}
use network_testing.Kernel.Laws.{Rc-cases}
use network_testing.Tcp.Accept.{Line}
use network_testing.Tcp.Epoll.{
  register, accept_event, close_event, handle_event, handle_events, dispatch, epoll_connections,
}

-- Of the calls made, the latest first: was the descriptor registered, and not closed since?
unfoldable pub is_open : ℕ → List Call → Bool
is_open fd [] = false
is_open fd (c ∷ cs) = elim c [
  | Call.epoll_ctl_add _ g ↦ if g == fd then true else is_open fd cs
  | Call.close g ↦ if g == fd then false else is_open fd cs
  | other ↦ is_open fd cs
]

-- Each descriptor that was closed was open at that time.
unfoldable pub ClosesOpen : List Call → Type 0
unfolding is_open
ClosesOpen [] = Unit {0}
ClosesOpen (c ∷ cs) = elim c [
  | Call.close g ↦ (is_open g cs ≡ true) × ClosesOpen cs
  | other ↦ ClosesOpen cs
]

-- None of the events `n`, … is of the descriptor.
unfoldable pub Absent : ℕ → (ℕ → ℕ) → ℕ → ℕ → Type 0
Absent fd fds zero n = Unit {0}
Absent fd fds (suc left) n = ((fds n == fd) ≡ false) × Absent fd fds left (n + 1)

-- `epoll_wait` reports descriptors that are open, each of them once, and the listening socket.
unfoldable pub Reported : ℕ → (ℕ → ℕ) → (ℕ → Bool) → ℕ → ℕ → Type 0
unfolding Absent
Reported listen_sock fds opn zero n = Unit {0}
Reported listen_sock fds opn (suc left) n =
    (((fds n == listen_sock) ≡ true)
      ⊎ (((fds n == listen_sock) ≡ false) × (opn (fds n) ≡ true) × Absent (fds n) fds left (n + 1)))
    × Reported listen_sock fds opn left (n + 1)

Reported-add :
    (l g : ℕ) (fds : ℕ → ℕ) (opn : ℕ → Bool) (left n : ℕ)
    → Reported l fds opn left n
    → Reported l fds (λ x. if g == x then true else opn x) left n
unfolding Reported
Reported-add l g fds opn zero n h = tt
Reported-add l g fds opn (suc left) n h = ground (arith, Reported-add l g fds opn left (n + 1) h.1)

Reported-close :
    (l g : ℕ) (fds : ℕ → ℕ) (opn : ℕ → Bool) (left n : ℕ)
    → Absent g fds left n
    → Reported l fds opn left n
    → Reported l fds (λ x. if g == x then false else opn x) left n
unfolding Reported Absent
Reported-close l g fds opn zero n a h = tt
Reported-close l g fds opn (suc left) n a h =
    ground (arith, Reported-close l g fds opn left (n + 1) a.1 h.1)

module _ (K : Kernel) (line : Line) where
  -- The latest call failed.
  unfoldable pub JustFailed : Proc → Type 0
  JustFailed t = (u : ℕ) × (e : ℕ) × (t.tick ≡ u + 1) × (K.rc u ≡ err e)

  -- Code that ends with `P`, or by EXIT_FAILURE directly behind a call that failed; and that
  -- closes open descriptors only.
  unfoldable pub Ends : (Proc → Type 0) → Run (Unit {0}) → Type 0
  unfolding ClosesOpen JustFailed
  Ends P (done _ t) = ClosesOpen t.calls × P t
  Ends P (exited c t) = ClosesOpen t.calls × (c ≡ exit_failure) × JustFailed t
  Ends P (crashed t) = ⊥
  Ends P (out_of_fuel t) = ⊥

  Ends-bind :
      (P Q : Proc → Type 0) (r : Run (Unit {0})) (k : Unit {0} → M (Unit {0}))
      → Ends P r
      → ((t : Proc) → r ≡ done tt t → ClosesOpen t.calls → P t → Ends Q (k tt t))
      → Ends Q (and_then r k)
  unfolding Ends
  Ends-bind P Q (done tt t) k h next = next t refl h.0 h.1
  Ends-bind P Q (exited c t) k h next = h
  Ends-bind P Q (crashed t) k h next = h
  Ends-bind P Q (out_of_fuel t) k h next = h

  module _ (epollfd l i : ℕ) (w : Bool) where
    -- What is left of the events is open.
    abbrev LeftOpen : (ℕ → ℕ) → ℕ → ℕ → Proc → Type 0
    LeftOpen fds left n t = Reported l fds (λ x. is_open x t.calls) left n

    accept_event-Ends :
        (fds : ℕ → ℕ) (left n : ℕ) (s : Proc)
        → ClosesOpen s.calls
        → LeftOpen fds left n s
        → Ends (LeftOpen fds left n) (accept_event K line epollfd l s)
    unfolding accept_event register Ends ClosesOpen is_open JustFailed
    accept_event-Ends fds left n s c h = elim (Rc-cases (K.rc s.tick)) [
      | inr (e, p) ↦ rw (p, accept_event) (c, refl, (s.tick, e, refl, p))
      | inl (k, p) ↦ elim (Rc-cases (K.rc (s.tick + 1))) [
        | inr (e, q) ↦ rw (p, accept_event, q, register) (c, refl, (s.tick + 1, e, refl, q))
        | inl (m, q) ↦
            rw (p, accept_event, q, register)
              (c, Reported-add l k fds (λ x. is_open x s.calls) left n h)
      ]
    ]

    close_event-Ends :
        (b : Bool) (fds : ℕ → ℕ) (left n g : ℕ) (s : Proc)
        → ClosesOpen s.calls
        → is_open g s.calls ≡ true
        → Absent g fds left n
        → LeftOpen fds left n s
        → Ends (LeftOpen fds left n) (close_event K line i b g s)
    unfolding close_event Ends ClosesOpen is_open
    close_event-Ends true fds left n g s c o a h =
        ((o, c), Reported-close l g fds (λ x. is_open x s.calls) left n a h)
    close_event-Ends false fds left n g s c o a h =
        ((o, c), Reported-close l g fds (λ x. is_open x s.calls) left n a h)

    handle_event-Ends :
        (fds : ℕ → ℕ) (left n : ℕ) (s : Proc)
        → ClosesOpen s.calls
        → LeftOpen fds (suc left) n s
        → Ends (LeftOpen fds left (n + 1)) (handle_event K line epollfd l i w (fds n) s)
    unfolding handle_event Reported
    handle_event-Ends fds left n s c h = elim h.0 [
      | inl p ↦ rw (p, handle_event) (accept_event-Ends fds left (n + 1) s c h.1)
      | inr (p, o, a) ↦
          rw (p, handle_event) (close_event-Ends w fds left (n + 1) (fds n) s c o a h.1)
    ]

    handle_events-Ends :
        (fds : ℕ → ℕ) (left n : ℕ) (s : Proc)
        → ClosesOpen s.calls
        → LeftOpen fds left n s
        → Ends (λ _. Unit {0}) (handle_events K line epollfd l i w fds left n s)
    unfolding handle_events Ends
    handle_events-Ends fds zero n s c h = (c, tt)
    handle_events-Ends fds (suc left) n s c h =
        Ends-bind (LeftOpen fds left (n + 1)) (λ _. Unit {0})
          (handle_event K line epollfd l i w (fds n) s) _ (handle_event-Ends fds left n s c h)
          (λ t e. handle_events-Ends fds left (n + 1) t)

  -- In each of `n` rounds `epoll_wait` reports as documented: what is open, each descriptor once.
  unfoldable pub Follows : ℕ → ℕ → ℕ → ℕ → Bool → Proc → Type 0
  unfolding Reported is_open dispatch
  Follows zero i epollfd l w s = Unit {0}
  Follows (suc n) i epollfd l w s =
      ((nfds : ℕ)
        → K.rc s.tick ≡ ret nfds
        → Reported l (K.event s.tick) (λ x. is_open x s.calls) nfds 0)
      × ((t : Proc)
          → dispatch K line epollfd l i w (K.rc s.tick, K.event s.tick)
              (after (Call.epoll_wait epollfd 10) s)
            ≡ done tt t
          → Follows n (i + 1) epollfd l w t)

  dispatch-Ends :
      (epollfd l i : ℕ) (w : Bool) (r : Rc) (s : Proc)
      → K.rc s.tick ≡ r
      → ClosesOpen s.calls
      → ((nfds : ℕ)
          → K.rc s.tick ≡ ret nfds
          → Reported l (K.event s.tick) (λ x. is_open x s.calls) nfds 0)
      → Ends
          (λ _. Unit {0})
          (dispatch K line epollfd l i w (r, K.event s.tick) (after (Call.epoll_wait epollfd 10) s))
  unfolding dispatch Ends ClosesOpen is_open JustFailed
  dispatch-Ends epollfd l i w (ret nfds) s p c h =
      handle_events-Ends epollfd l i w (K.event s.tick) nfds 0
        (after (Call.epoll_wait epollfd 10) s) c (h nfds p)
  dispatch-Ends epollfd l i w (err e) s p c h = (c, refl, (s.tick, e, refl, p))

  -- Where `epoll_wait` reports open descriptors and the listening socket, each once, the loop ends
  -- after `n` rounds, or by EXIT_FAILURE directly behind a call that failed; and every descriptor
  -- that it closes was registered, and not closed since.
  pub epoll_connections-Ends :
      (n i epollfd l : ℕ) (w : Bool) (s : Proc)
      → Follows n i epollfd l w s
      → ClosesOpen s.calls
      → Ends (λ _. Unit {0}) (epoll_connections K line n i epollfd l w s)
  unfolding epoll_connections Follows Ends
  epoll_connections-Ends zero i epollfd l w s f c = (c, tt)
  epoll_connections-Ends (suc n) i epollfd l w s f c =
      Ends-bind (λ _. Unit {0}) (λ _. Unit {0}) _ _
        (dispatch-Ends epollfd l i w (K.rc s.tick) s refl c f.0)
        (λ t e c' _. epoll_connections-Ends n (i + 1) epollfd l w t (f.1 t e) c')
