-- ===== src/Examples/Znodes.antt =====
-- source/zk-private.c with a few servers.
use sdistr2020_group.Prelude.{ℕ, ◌≡◌, refl, true, none, some, [], ◌∷◌, pos, negsuc, arith}
use sdistr2020_group.Entry.{Str}
use sdistr2020_group.Skel.{ServerRole}
use sdistr2020_group.Zk.{
  root_path, primary_path, backup_path, run_alone, advance, zk_register_tree_server,
  on_servers_change, zk_get_primary_tree_server, zk_get_backup_tree_server, create_as, returns,
}
use sdistr2020_group.Zk.Rules.{own}
use sdistr2020_group.Zk.Alone.{register_outcomes}
use sdistr2020_group.Zk.Promotion.{ends, promotion, registration_race}
use sdistr2020_group.Zk.Members.{Group, Reach, Step, started, with_call, with_rest}
use sdistr2020_group.Zk.Roles.{role_registered, roles_unique, addresses_found}
use sdistr2020_group.Examples.Store.{
  Znodes, store, store-rules, store-IsReliable, exists_at, create_at, get_at, same_path,
}

-- No znode.
abbrev empty : Znodes
empty path = none

abbrev address : ℕ → Str
address server = server ∷ []

-- The znodes of server 1, the primary server, and of server 2, the backup server.
abbrev both : Znodes
both root_path = none
both primary_path = some (own 1 (address 1))
both backup_path = some (own 2 (address 2))

-- The primary server is gone.
abbrev bereft : Znodes
bereft root_path = none
bereft primary_path = none
bereft backup_path = some (own 2 (address 2))

register_outcomes_example :
    let ended = run_alone store 3 (zk_register_tree_server (address 3)) bereft ServerRole.unset in
    (ended.1 ≡ ServerRole.primary)
    × (ended.2 ≡ some (pos 0))
    × (ended.0 primary_path ≡ some (own 3 (address 3)))
    × (ended.0 backup_path ≡ some (own 2 (address 2)))
register_outcomes_example =
    register_outcomes store store-rules store-IsReliable 3 (address 3) bereft ServerRole.unset

promotion_example :
    (z' : Znodes) × (run_alone store 2
        (on_servers_change ServerRole.backup)
        bereft
        ServerRole.backup
      ≡ (z', ServerRole.primary, some (pos 0)))
    × (z' primary_path ≡ some (own 2 (address 2)))
    × (z' backup_path ≡ none)
promotion_example = promotion store store-rules store-IsReliable 2 (address 2) bereft refl refl

registration_race_example :
    let (z0, role0, rest) =
      advance store 2 bereft ServerRole.unset (zk_register_tree_server (address 2)) in
    ends (run_alone store 2 rest both role0) ≡ (ServerRole.unset, some (negsuc 0))
registration_race_example =
    registration_race store store-rules store-IsReliable 2 (address 2) bereft both ServerRole.unset
      (own 1 (address 1)) refl refl

abbrev called : Group Znodes → ℕ → Group Znodes
called s i =
    with_call store store-rules address s i
      (advance store i s.zookeeper (s.member i).role (s.member i).rest)

abbrev registering : Group Znodes → ℕ → Group Znodes
registering s i = with_rest store store-rules address s i (zk_register_tree_server (address i))

abbrev fresh : Group Znodes
fresh = record { zookeeper = empty; member = λ i. started }

-- Server 1 registers as the primary server, server 2 as the backup server; each first asks for the
-- znode of the primary server, the one after the other created it.
abbrev first : Group Znodes
first = called (called (called (registering fresh 1) 1) 1) 1

abbrev second : Group Znodes
second = called (called (called (called (registering first 2) 2) 2) 2) 2

run_call :
    (s : Group Znodes) (i : ℕ)
    → Reach store store-rules address empty s
    → (s.member i).is_alive ≡ true
    → Reach store store-rules address empty (called s i)
run_call s i r alive = Reach.extended s (called s i) r (Step.call i alive)

run_register :
    (s : Group Znodes) (i : ℕ)
    → Reach store store-rules address empty s
    → (s.member i).is_alive ≡ true
    → (s.member i).rest ≡ returns (pos 0)
    → (s.member i).role ≡ ServerRole.unset
    → Reach store store-rules address empty (registering s i)
run_register s i r alive idle free =
    Reach.extended s (registering s i) r (Step.register i (pos 0) alive idle free)

second-Reach : Reach store store-rules address empty second
unfolding advance zk_register_tree_server create_as exists_at create_at
second-Reach =
    run_call _ 2
      (run_call _ 2
        (run_call _ 2
          (run_call _ 2
            (run_register first 2
              (run_call _ 1
                (run_call _ 1 (run_call _ 1 (run_register fresh 1 Reach.start refl refl refl) refl)
                  refl)
                refl)
              refl refl refl)
            refl)
          refl)
        refl)
      refl

role_registered_example : second.zookeeper primary_path ≡ some (own 1 (address 1))
unfolding advance zk_register_tree_server create_as exists_at create_at
role_registered_example = role_registered store store-rules address empty second 1 second-Reach refl

roles_unique_example : ◌≡◌ {A = ℕ} 1 1
unfolding advance zk_register_tree_server create_as exists_at create_at
roles_unique_example =
    roles_unique store store-rules address empty second 1 1 ServerRole.primary second-Reach refl
      refl (λ e. absurd (ground (arith, e))) refl refl

addresses_found_example : (address 1 ≡ address 1) × (address 2 ≡ address 2)
unfolding advance zk_register_tree_server create_as exists_at create_at zk_get_primary_tree_server
    zk_get_backup_tree_server get_at same_path
addresses_found_example =
    addresses_found store store-rules address empty second 1 2 (address 1) (address 2) second-Reach
      refl refl refl refl refl refl
