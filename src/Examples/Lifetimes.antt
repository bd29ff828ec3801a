-- ===== src/Examples/Lifetimes.antt =====
-- source/server/tree_server.c and the main loop of source/server/network_server.c, from start to end.
use sdistr2020_group.Prelude.{
  ℕ, ◌+◌, ◌≡◌, refl, true, false, List, [], ◌∷◌, inl, inr, ℤ, pos, negsuc, times, eqb_ℤ,
  if◌then◌else◌,
}
use sdistr2020_group.NetworkServer.{PollResult, timeout, reports, sockets_init, network_main_loop}
use sdistr2020_group.NetworkServer.Watched.{sockets_init-IsWatched}
use sdistr2020_group.NetworkServer.Descriptors.{held, main_loop_closes}
use sdistr2020_group.TreeServer.{MainCalls, tree_server_main}
use sdistr2020_group.TreeServer.Release.{IsBalanced, main-IsBalanced}

-- A handler that serves the client at descriptor 6, and fails at every other one.
abbrev handler : ℕ → ℤ → ℕ × ℤ
handler served sockfd = (served + 1, if eqb_ℤ sockfd (pos 6) then pos 0 else negsuc 0)

-- Two clients come; the second one goes, and the first one is still there when `poll` fails.
abbrev polls : List PollResult
polls =
    reports true [] (pos 6)
    ∷ timeout
    ∷ reports true (true ∷ []) (pos 7)
    ∷ reports false (true ∷ true ∷ []) (negsuc 0)
    ∷ []

main_loop_closes_example :
    let run = network_main_loop handler polls 0 sockets_init in
    held (pos 6) sockets_init.clients + times (pos 6) run.1 ≡ times (pos 6) run.2
main_loop_closes_example =
    main_loop_closes (pos 6) refl handler polls 0 sockets_init
      (inr refl, (inr refl, (inl refl, tt))) sockets_init-IsWatched

abbrev calls : MainCalls
calls = record {
  connect_result = pos 0;
  init = record {
    socket = pos 3;
    has_host = true;
    bind = pos 0;
    listen = pos 0;
    skel_result = pos 0;
  };
  register_result = pos 0;
  polls = polls;
}

main-IsBalanced_example : IsBalanced (pos 6) (tree_server_main handler 0 3 (b'9' ∷ []) calls)
main-IsBalanced_example =
    main-IsBalanced handler 0 (pos 6) refl 3 (b'9' ∷ []) calls
      (inr refl, (inr refl, (inl refl, tt)))
