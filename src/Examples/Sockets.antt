-- ===== src/Examples/Sockets.antt =====
-- The sockets of source/server/network_server.c at small inputs.
use sdistr2020_group.Prelude.{inr, ℕ, ◌+◌, ◌≡◌, refl, true, false, List, [], ◌∷◌, ℤ, pos, negsuc}
use sdistr2020_group.NetworkServer.{Pollfd, Sockets, sockets_init, compact, main_loop_turn}
use sdistr2020_group.NetworkServer.Watched.{
  IsWatched, main_loop_turn-IsWatched, sockets_init-IsWatched,
}

abbrev socket : ℕ → Pollfd
socket n = record { fd = pos n; pollin = true }

abbrev gone : Pollfd
gone = record { fd = negsuc 0; pollin = false }

abbrev holes : List Pollfd
holes = gone ∷ socket 7 ∷ gone ∷ socket 9 ∷ gone ∷ []

compacted : compact holes ≡ (socket 7 ∷ socket 9 ∷ gone ∷ gone ∷ gone ∷ [], 2)
unfolding compact
compacted = refl

-- A handler that fails, and that counts its calls.
abbrev fails : ℕ → ℤ → ℕ × ℤ
fails calls sockfd = (calls + 1, negsuc 0)

-- A client comes, and the next turn it goes; the count is 1 all the same.
abbrev came : Sockets
came = (main_loop_turn fails true [] (pos 6) 0 sockets_init).1

came_and_went :
    (main_loop_turn fails false (true ∷ []) (negsuc 0) 0 came).1.client_sockets_count ≡ 1
unfolding main_loop_turn sockets_init
came_and_went = refl

main_loop_turn-IsWatched_example : IsWatched (main_loop_turn fails true [] (pos 6) 0 sockets_init).1
main_loop_turn-IsWatched_example =
    main_loop_turn-IsWatched fails true [] (pos 6) 0 sockets_init (inr refl) sockets_init-IsWatched
