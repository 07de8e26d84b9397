-- ===== src/Domain/Upgrade.antt =====
-- crates/edge-domain/src/operational_upgrade.rs: the offline upgrade, its request, its states and its
-- journal.
use edge.Domain.Endpoint.{is_ascii_hexdigit}
use edge.Domain.Errors.{◌>>◌, ErrorCode, Result, err, guard, new_error, ok}
use edge.Prelude.{
  Bool, false, true, Option, none, some, List, [], ◌∷◌, ◌==◌, ◌&&◌, all, ◌≡◌, refl, if◌then◌else◌,
  is_empty, length, not, unwrap_or, ap,
}
use edge.Text.{Text, byte_len, is_digit, split_char, starts_with, strip_prefix, txt}
use edge.Text.Split.{contains}

pub record OfflineUpgradeRequest : Type 0 where
  pub target_version : Text
  pub image_digest : Text
  pub artifact_file : Text
  pub passphrase_file : Text

-- `strip_prefix(p).unwrap_or(value)`
abbrev without_prefix : Text → Text → Text
without_prefix prefix value = unwrap_or (strip_prefix prefix value) value

abbrev is_number : Text → Bool
is_number part = not (is_empty part) && all is_digit part

unfoldable pub is_version : Text → Bool
is_version value =
    let parts = split_char b'.' (without_prefix (txt "v") value) in
    length parts == 3 && all is_number parts

unfoldable pub is_sha256_digest : Text → Bool
is_sha256_digest value =
    let digest = without_prefix (txt "sha256:") value in
    byte_len digest == 64 && all is_ascii_hexdigit digest

abbrev is_path_reference : Text → Bool
is_path_reference value = starts_with b'/' value && not (contains 0 value)

unfoldable pub validate_request : OfflineUpgradeRequest → Result (Unit {0})
unfolding is_version is_sha256_digest
validate_request r = do
  guard (is_version r.target_version)
      (new_error ErrorCode.process_command_invalid "upgrade version must be SemVer")
  guard (is_sha256_digest r.image_digest)
      (new_error ErrorCode.backup_destination_unsafe "upgrade image digest must be SHA-256")
  guard (is_path_reference r.passphrase_file) (
      new_error ErrorCode.backup_secret_input_invalid
        "passphrase file must be an absolute path reference")
  guard (is_path_reference r.artifact_file) (
      new_error ErrorCode.backup_destination_unsafe
        "artifact file must be an absolute path reference")
  ok tt

pub data OfflineUpgradeState : Type 0 where
  prepared is_draining stopped switched ready committed rolling_back rolled_back :
      OfflineUpgradeState

unfoldable pub allowed : OfflineUpgradeState → OfflineUpgradeState → Bool
allowed prepared is_draining = true
allowed is_draining stopped = true
allowed stopped switched = true
allowed switched ready = true
allowed ready committed = true
allowed prepared rolling_back = true
allowed is_draining rolling_back = true
allowed stopped rolling_back = true
allowed switched rolling_back = true
allowed ready rolling_back = true
allowed rolling_back rolled_back = true
allowed _ _ = false

unfoldable pub upgrade_transition :
    OfflineUpgradeState → OfflineUpgradeState → Result OfflineUpgradeState
unfolding allowed
upgrade_transition state next =
    if allowed state next
    then ok next
    else err
        (new_error ErrorCode.backup_state_transition_invalid "invalid offline upgrade transition")

pub record OfflineUpgradeJournal : Type 0 where
  pub operation_id : Text
  pub state : OfflineUpgradeState
  pub backup_id : Text
  pub previous_artifact_digest : Text
  pub target_artifact_digest : Text

unfoldable pub validate_journal : OfflineUpgradeJournal → Result (Unit {0})
unfolding is_sha256_digest
validate_journal j = do
  guard
      (not (is_empty j.operation_id)
        && not (is_empty j.backup_id)
        && is_sha256_digest j.previous_artifact_digest
        && is_sha256_digest j.target_artifact_digest)
      (new_error ErrorCode.backup_manifest_invalid "upgrade journal identity is invalid")
  ok tt

-- The state behind a list of transitions, if all are allowed.
abbrev pub walk_on :
    (OfflineUpgradeState → Option OfflineUpgradeState)
    → Result OfflineUpgradeState
    → Option OfflineUpgradeState
walk_on rest (err e) = none
walk_on rest (ok state) = rest state

abbrev pub walk : List OfflineUpgradeState → OfflineUpgradeState → Option OfflineUpgradeState
walk [] state = some state
walk (next ∷ nexts) state = walk_on (walk nexts) (upgrade_transition state next)

-- A rollback does not lead to a commit.
rolling_back-never :
    (nexts : List OfflineUpgradeState) → walk nexts rolling_back ≡ some committed → ⊥
unfolding upgrade_transition
rolling_back-never [] h = cc
rolling_back-never (rolled_back ∷ []) h = cc
rolling_back-never (rolled_back ∷ n ∷ nexts) h = cc
rolling_back-never (n ∷ nexts) h = cc

from_ready :
    (nexts : List OfflineUpgradeState) → walk nexts ready ≡ some committed → nexts ≡ committed ∷ []
unfolding upgrade_transition
from_ready [] h = cc
from_ready (committed ∷ []) h = refl
from_ready (committed ∷ n ∷ nexts) h = cc
from_ready (rolling_back ∷ nexts) h = absurd (rolling_back-never nexts h)
from_ready (n ∷ nexts) h = cc

from_switched :
    (nexts : List OfflineUpgradeState)
    → walk nexts switched ≡ some committed
    → nexts ≡ ready ∷ committed ∷ []
unfolding upgrade_transition
from_switched [] h = cc
from_switched (ready ∷ nexts) h = ap (◌∷◌ ready) (from_ready nexts h)
from_switched (rolling_back ∷ nexts) h = absurd (rolling_back-never nexts h)
from_switched (n ∷ nexts) h = cc

from_stopped :
    (nexts : List OfflineUpgradeState)
    → walk nexts stopped ≡ some committed
    → nexts ≡ switched ∷ ready ∷ committed ∷ []
unfolding upgrade_transition
from_stopped [] h = cc
from_stopped (switched ∷ nexts) h = ap (◌∷◌ switched) (from_switched nexts h)
from_stopped (rolling_back ∷ nexts) h = absurd (rolling_back-never nexts h)
from_stopped (n ∷ nexts) h = cc

from_draining :
    (nexts : List OfflineUpgradeState)
    → walk nexts is_draining ≡ some committed
    → nexts ≡ stopped ∷ switched ∷ ready ∷ committed ∷ []
unfolding upgrade_transition
from_draining [] h = cc
from_draining (stopped ∷ nexts) h = ap (◌∷◌ stopped) (from_stopped nexts h)
from_draining (rolling_back ∷ nexts) h = absurd (rolling_back-never nexts h)
from_draining (n ∷ nexts) h = cc

-- There is one way for a prepared upgrade to be committed: it drains, stops, switches and is ready first,
-- in this order and without anything between; in particular no upgrade that was rolled back is
-- committed later.
pub walk-committed :
    (nexts : List OfflineUpgradeState)
    → walk nexts prepared ≡ some committed
    → nexts ≡ is_draining ∷ stopped ∷ switched ∷ ready ∷ committed ∷ []
unfolding upgrade_transition
walk-committed [] h = cc
walk-committed (is_draining ∷ nexts) h = ap (◌∷◌ is_draining) (from_draining nexts h)
walk-committed (rolling_back ∷ nexts) h = absurd (rolling_back-never nexts h)
walk-committed (n ∷ nexts) h = cc
