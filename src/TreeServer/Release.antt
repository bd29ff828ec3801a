-- ===== src/TreeServer/Release.antt =====
-- What source/server/tree_server.c has released when it ends.
use sdistr2020_group.Prelude.{
  ℕ, ◌≡◌, refl, true, false, [], ◌∷◌, ℤ, pos, negsuc, ltb_ℤ, eqb_ℤ, arith, Bool-cases, inl, inr,
}
use sdistr2020_group.Entry.{Str}
use sdistr2020_group.Prelude.{times, times-append}
use sdistr2020_group.Inet.{opened_by}
use sdistr2020_group.NetworkServer.{sockets_init, network_main_loop}
use sdistr2020_group.NetworkServer.Watched.{sockets_init-IsWatched}
use sdistr2020_group.NetworkServer.Descriptors.{held, AllAccepted, main_loop_closes}
use sdistr2020_group.TreeServer.{
  InitCalls, network_server_init, Ended, MainCalls, serve_until_failure, tree_server_main,
  validate_args,
}

init_fails :
    (d : ℤ) (calls : InitCalls)
    → ltb_ℤ (network_server_init calls).1 (pos 0) ≡ true
    → times d (opened_by calls.socket) ≡ times d (network_server_init calls).0
unfolding network_server_init
init_fails d calls h = ground (arith, h)

-- As often opened as closed.
abbrev pub IsBalanced : ℤ → Ended → Type 0
IsBalanced d ended = times d ended.opened ≡ times d ended.closed

module _ {S : Type 0} (handler : S → ℤ → S × ℤ) (server : S) (d : ℤ)
    (is_open : eqb_ℤ d (negsuc 0) ≡ false) where
  start_held : held d sockets_init.clients ≡ 0
  unfolding sockets_init
  start_held = ground (arith, is_open)

  serve-IsBalanced :
      (calls : MainCalls) (listening_socket : ℤ)
      → AllAccepted d is_open handler calls.polls
      → IsBalanced d (serve_until_failure handler server calls listening_socket)
  unfolding serve_until_failure
  serve-IsBalanced calls listening_socket a =
      elim (Bool-cases (ltb_ℤ calls.register_result (pos 0))) [
        | inl failed ↦ rw failed refl
        | inr registered ↦
            let run = network_main_loop handler calls.polls server sockets_init in
            let loop =
              main_loop_closes d is_open handler calls.polls server sockets_init a
                sockets_init-IsWatched in
            rw registered
              (omega (arith, loop, start_held, times-append d run.2 (listening_socket ∷ [])))
      ]

  -- When a server ends, however far it came, it has closed every descriptor that it opened, the
  -- listening socket and those of its clients, as often as it opened it; each `accept` returned -1 or
  -- a descriptor above 0.
  pub main-IsBalanced :
      (argc : ℕ) (port : Str) (calls : MainCalls)
      → AllAccepted d is_open handler calls.polls
      → IsBalanced d (tree_server_main handler server argc port calls)
  unfolding tree_server_main
  main-IsBalanced argc port calls a = elim (Bool-cases (ltb_ℤ (validate_args argc port) (pos 0))) [
    | inl bad ↦ rw bad refl
    | inr good ↦ elim (Bool-cases (ltb_ℤ calls.connect_result (pos 0))) [
      | inl lost ↦ rw (good, lost) refl
      | inr connected ↦ elim (Bool-cases (ltb_ℤ (network_server_init calls.init).1 (pos 0))) [
        | inl failed ↦ rw (good, connected, failed) (init_fails d calls.init failed)
        | inr opened ↦
            rw (good, connected, opened)
              (serve-IsBalanced calls (network_server_init calls.init).1 a)
      ]
    ]
  ]
