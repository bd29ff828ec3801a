-- ===== src/Examples/Commands.antt =====
-- source/client/tree_client.c on lines that a user types.
use sdistr2020_group.Prelude.{
  ◌+ℤ◌, ◌≢◌, ltb, ◌≡◌, refl, true, Option, none, some, List, [], ◌∷◌, ◌++◌, map, ℕ, pos, negsuc,
  arith,
}
use sdistr2020_group.Entry.{Str}
use sdistr2020_group.Tree.{Tree}
use sdistr2020_group.Tree.Keys.{keys}
use sdistr2020_group.Tree.Invariant.{IsValid}
use sdistr2020_group.Tasks.{Task, tasks_init, tasks_get_result, tasks_set_result, successful}
use sdistr2020_group.Skel.{replicate_to_backup_server, Network, runs, process_task, backup}
use sdistr2020_group.Skel.Exit.{Replicates}
use sdistr2020_group.Inet.Address.{print_digits}
use sdistr2020_group.ClientStub.{Transport}
use sdistr2020_group.ClientStub.Calls.{Servers, servers, direct}
use sdistr2020_group.TreeClient.{
  rest_of, collect_input, parse_command, Output, query_failed, operation_failed, operation_queued,
  value_is, size_is, height_is, keys_are, run_command, size_command, height_command,
  getkeys_command, get_command, put_command, del_command, verify_command, client_turn, undefined,
  Directory,
}
use sdistr2020_group.Prelude.{false}
use sdistr2020_group.TreeClient.{retry_command}
use sdistr2020_group.TreeClient.Session.{Round, tree_client_main}
use sdistr2020_group.TreeClient.Ready.{StaysReady, main-StaysReady}
use sdistr2020_group.TreeClient.Words.{collect_input-parse_command}
use sdistr2020_group.TreeClient.Shown.{put_shown, put_request, with_task}
use sdistr2020_group.TreeClient.Queries.{queries_shown, result_line}
use sdistr2020_group.TreeClient.Failures.{line_of, silent_shown, blank_undefined}
use sdistr2020_group.Examples.Buffers.{three, three-IsValid}
use sdistr2020_group.Examples.Clients.{client, server}

-- `put k a b`, with a line feed, before another line.
abbrev line : Str
line = put_command ++ (b' ' ∷ ((b'k' ∷ []) ++ (b' ' ∷ (b'a' ∷ b' ' ∷ b'b' ∷ []))))

no_space : {c : ℕ} → ltb b' ' c ≡ true → c ≢ b' '
no_space h e = ground arith

printed : {c : ℕ} → ltb 31 c ≡ true → (c ≢ 0) × (c ≢ 10)
printed h = ((λ e. ground arith), (λ e. ground arith))

collect_input-parse_command_example :
    (collect_input [] (line ++ (10 ∷ (b'q' ∷ []))) ≡ (some line, b'q' ∷ []))
    × (parse_command line ≡ (some put_command, some (b'k' ∷ []), some (b'a' ∷ b' ' ∷ b'b' ∷ [])))
unfolding rest_of
collect_input-parse_command_example =
    collect_input-parse_command [] (b'q' ∷ []) b'p' b'k' (b'u' ∷ b't' ∷ []) []
      (b'a' ∷ b' ' ∷ b'b' ∷ []) (no_space refl, (no_space refl, (no_space refl, tt)))
      (no_space refl, tt)
      (
        printed refl,
        (
          printed refl,
          (
            printed refl,
            (
              printed refl,
              (printed refl, (printed refl, (printed refl, (printed refl, (printed refl, tt))))),
            ),
          ),
        ),
      )
      (omega arith)

-- A transport that answers nothing.
abbrev broken : Transport ℕ
broken = record { exchange = λ s sockfd request. (s, none) }

abbrev Fails : Option Str × Option Str × Option Str → Output → Type 0
Fails words output = line_of (run_command broken 0 (some client) words) ≡ some output

silent_shown_example :
    Fails (some size_command, none, none) query_failed
    × Fails (some height_command, none, none) query_failed
    × Fails (some getkeys_command, none, none) query_failed
    × Fails (some get_command, some (b'k' ∷ []), none) query_failed
    × Fails (some put_command, some (b'k' ∷ []), some (b'v' ∷ [])) operation_failed
    × Fails (some del_command, some (b'k' ∷ []), none) operation_failed
    × Fails (some verify_command, some (print_digits 8 7 []), none) operation_failed
silent_shown_example =
    silent_shown broken client (λ s sockfd m. refl) 0 (b'k' ∷ []) (b'v' ∷ []) 7 (omega arith)

abbrev nowhere : Directory
nowhere = record {
  server_connect = λ ip port. negsuc 0;
  primary_server = none;
  backup_server = none;
}

blank_undefined_example :
    client_turn broken nowhere 0
      (record { rtree = some client; are_servers_connected = true })
      (some (b' ' ∷ b' ' ∷ []))
    ≡ ([], undefined)
blank_undefined_example =
    blank_undefined broken nowhere 0 (some client) (b' ' ∷ b' ' ∷ []) (refl, (refl, tt))

queries_shown_example :
    let s : Servers = servers server three tasks_init in
    (run_command (direct (pos 4) none) s (some client) (some size_command, none, none)
      ≡ some (s, size_is (pos 3)))
    × (run_command (direct (pos 4) none) s (some client) (some height_command, none, none)
        ≡ some (s, height_is (pos 1)))
    × ((ks : List Str) × (keys three.root ≡ map some ks)
        × (run_command (direct (pos 4) none) s (some client) (some getkeys_command, none, none)
            ≡ some (s, keys_are ks)))
    × (run_command
          (direct (pos 4) none)
          s
          (some client)
          (some verify_command, some (print_digits 1 0 []), none)
        ≡ some (s, result_line (tasks_get_result (pos 0) tasks_init)))
queries_shown_example =
    queries_shown client none refl server three tasks_init 0 three-IsValid (omega arith)

-- The network of a backup server.
abbrev alone : Network
alone = record {
  role = backup;
  backup_server = none;
  stale = ([], pos 0);
  server_connect = λ ip port. negsuc 0;
  network_send_message = λ sockfd m. negsuc 0;
}

alone-Replicates : Replicates alone
unfolding replicate_to_backup_server
alone-Replicates task = refl

put_shown_example :
    let k : Str = b'k' ∷ [] in
    let v : Str = b'v' ∷ b'1' ∷ [] in
    let s : Servers = record {
      primary = record { tree = some three; tasks = tasks_init };
      backup = server;
    } in
    let task : Task = record { task_id = pos 0; op_code_and_args = put_request k v } in
    (run_command (direct (pos 4) none) s (some client) (some put_command, some k, some v)
      ≡ some (with_task three tasks_init server (put_request k v), operation_queued (pos 0)))
    × (t : Tree) × ((process_task alone (record { tree = some three; tasks = tasks_init }) task).0
        ≡ runs
            (record { tree = some t; tasks = (tasks_set_result (pos 0) successful tasks_init).0 }))
    × IsValid t
    × (run_command
          (direct (pos 4) none)
          (servers server t tasks_init)
          (some client)
          (some get_command, some k, none)
        ≡ some (servers server t tasks_init, value_is v))
unfolding tasks_init ◌+ℤ◌
put_shown_example =
    put_shown client none refl three three tasks_init tasks_init tasks_init server server alone
      (pos 0) (b'k' ∷ []) (b'v' ∷ b'1' ∷ []) three-IsValid
      ((λ e. absurd (omega arith)), ((λ e. absurd (omega arith)), tt)) (omega arith) refl
      alone-Replicates

-- A line that asks for the size, while no server is known, and an attempt to connect.
abbrev rounds : List Round
rounds =
    record { is_changed = true; directory = nowhere; input = some size_command }
    ∷ record { is_changed = false; directory = nowhere; input = some retry_command }
    ∷ []

main-StaysReady_example :
    StaysReady (tree_client_main broken (λ sockfd. pos 0) 2 true nowhere rounds 0)
main-StaysReady_example = main-StaysReady broken (λ sockfd. pos 0) 2 true nowhere rounds 0
