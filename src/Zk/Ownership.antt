-- ===== src/Zk/Ownership.antt =====
-- What a server of source/zk-private.c may still call, by the znodes that it knows to be its own.
use sdistr2020_group.Prelude.{◌≡◌, ◌⊎◌, Bool, true, false, Option, none, some, ℤ, eqb_ℤ}
use sdistr2020_group.Entry.{Str}
use sdistr2020_group.Skel.{ServerRole}
use sdistr2020_group.Zk.{
  ZnodePath, root_path, primary_path, backup_path, zok, Program, exists, create, get, delete,
  set_role, returns, undefined,
}

-- Which of the two znodes a server knows to be its own.
pub record Known : Type 0 where
  pub has_primary : Bool
  pub has_backup : Bool

abbrev pub knows : Known → ZnodePath → Bool
knows known root_path = false
knows known primary_path = known.has_primary
knows known backup_path = known.has_backup

abbrev pub learn : Known → ZnodePath → Known
learn known root_path = known
learn known primary_path = record known { has_primary = true }
learn known backup_path = record known { has_backup = true }

abbrev pub learn_if : Bool → Known → ZnodePath → Known
learn_if true known path = learn known path
learn_if false known path = known

-- A server in a role knows that it owns the znode of the role.
abbrev pub Fits : Known → ServerRole → Type 0
Fits known ServerRole.primary = known.has_primary ≡ true
Fits known ServerRole.backup = known.has_backup ≡ true
Fits known ServerRole.unset = Unit

-- A znode of a role is created as an ephemeral one, with the address of the server.
abbrev pub Creates : Str → ZnodePath → Option Str → Bool → Type 0
Creates address root_path value is_ephemeral = Unit
Creates address primary_path value is_ephemeral = (value ≡ some address) × (is_ephemeral ≡ true)
Creates address backup_path value is_ephemeral = (value ≡ some address) × (is_ephemeral ≡ true)

-- What a server may read at a path.
abbrev pub MayRead : Str → Bool → Option Str → Type 0
MayRead address true text = (text ≡ none) ⊎ (text ≡ some address)
MayRead address false text = Unit

-- Whatever the results of its calls, the program deletes the znode of the backup server alone, and
-- only while it knows that it owns it, creates znodes with its own address, and takes a role only
-- when it owns the znode of the role.
abbrev pub IsCareful : Str → Known → ServerRole → Program → Type 0
IsCareful address known role (exists path k) =
    (result : ℤ) → IsCareful address known role (k result)
IsCareful address known role (create path value is_ephemeral k) =
    Creates address path value is_ephemeral
    × ((result : ℤ) → IsCareful address (learn_if (eqb_ℤ result zok) known path) role (k result))
IsCareful address known role (get path k) =
    (text : Option Str)
    → MayRead address (knows known path) text
    → IsCareful address known role (k text)
IsCareful address known role (delete path k) =
    (path ≡ backup_path)
    × (known.has_backup ≡ true)
    × Fits (record known { has_backup = false }) role
    × ((result : ℤ) → IsCareful address (record known { has_backup = false }) role (k result))
IsCareful address known role (set_role role' rest) =
    Fits known role' × IsCareful address known role' rest
IsCareful address known role (returns result) = Unit
IsCareful address known role undefined = Unit
