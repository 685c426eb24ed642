-- ===== src/Tools/Idempotency.antt =====
-- packages/domain/recoverai_domain/tools/idempotency.py: one row for each key of a merchant, which
-- remembers the request and the result. Sessions follow each other here, so that no other session
-- inserts the key between the search and the insertion, which is what the branch on
-- `IntegrityError` is for; it does what the search does when it finds the row.
pub mod Store
use revive_x.Prelude.{
  ℕ, ◌+◌, ◌*◌, Bool, true, false, ◌&&◌, ◌==◌, if◌then◌else◌, Option, none, some, String, List, [],
  ◌∷◌, ◌++◌, find, map,
}
use revive_x.Errors.{Result, idempotency_conflict}
use revive_x.Models.{ActionKey}
use revive_x.Models.ToolRows.{IdempotencyKey, IdempotencyKeyStatus, ToolExecutionResult}
use revive_x.ToolWords.{Tool}
use revive_x.Session.{Session, Action, pure, raise, ◌>>◌, modify}
use revive_x.Processor.{same_key}

-- `IDEMPOTENCY_TTL_HOURS`
abbrev pub idempotency_ttl_hours : ℕ
idempotency_ttl_hours = 24

pub record IdempotencyOutcome : Type 0 where
  pub record_of : IdempotencyKey
  pub replay : Bool

abbrev pub is_key : ℕ → ActionKey → IdempotencyKey → Bool
is_key merchant key row = row.merchant_id == merchant && same_key row.key key

-- `select(IdempotencyKey).where(merchant_id == ..., key == ...)`
abbrev pub find_key : Session → ℕ → ActionKey → Option IdempotencyKey
find_key s merchant key = find (is_key merchant key) s.idempotency_keys

abbrev pub new_key : ℕ → ActionKey → Tool → ℕ → ℕ → IdempotencyKey
new_key merchant key operation hash now = record {
  merchant_id = merchant;
  key = key;
  operation = operation;
  request_hash = hash;
  response_reference = none;
  status = IdempotencyKeyStatus.in_progress;
  completed_at = none;
  expires_at = now + idempotency_ttl_hours * 3600;
  result = none;
  error_code = none;
}

abbrev pub add_key : IdempotencyKey → Action IdempotencyOutcome
add_key row =
    modify (λ s. record s { idempotency_keys = s.idempotency_keys ++ row ∷ [] })
    >> pure (record { record_of = row; replay = false })

abbrev pub begin_with : Option IdempotencyKey → IdempotencyKey → Action IdempotencyOutcome
begin_with none row = add_key row
begin_with (some existing) row =
    if existing.request_hash == row.request_hash
    then pure (record { record_of = existing; replay = true })
    else raise idempotency_conflict

-- `begin_idempotent_operation`
unfoldable pub begin_idempotent_operation : ℕ → ActionKey → Tool → ℕ → Action IdempotencyOutcome
begin_idempotent_operation merchant key operation hash s =
    begin_with (find_key s merchant key) (new_key merchant key operation hash s.now) s

-- The row of the key is changed.
abbrev pub update_key : ℕ → ActionKey → (IdempotencyKey → IdempotencyKey) → Action (Unit {0})
update_key merchant key f = modify (λ s. record s {
  idempotency_keys = map (λ row. if is_key merchant key row then f row else row) s.idempotency_keys;
})

abbrev pub completed_key : ToolExecutionResult → Option ℕ → ℕ → IdempotencyKey → IdempotencyKey
completed_key response reference now row = record row {
  status = IdempotencyKeyStatus.completed;
  completed_at = some now;
  response_reference = reference;
  result = some response;
}

-- `complete_idempotent_operation`
unfoldable pub complete_idempotent_operation :
    ℕ → ActionKey → ToolExecutionResult → Option ℕ → Action (Unit {0})
complete_idempotent_operation merchant key response reference s =
    update_key merchant key (completed_key response reference s.now) s

abbrev pub failed_key : Option String → ℕ → IdempotencyKey → IdempotencyKey
failed_key code now row = record row {
  status = IdempotencyKeyStatus.failed;
  completed_at = some now;
  error_code = code;
}

-- `fail_idempotent_operation`
unfoldable pub fail_idempotent_operation : ℕ → ActionKey → Option String → Action (Unit {0})
fail_idempotent_operation merchant key code s = update_key merchant key (failed_key code s.now) s

-- `metadata["result"] = ...`, with the status left
abbrev pub remember_result : ℕ → ActionKey → ToolExecutionResult → Action (Unit {0})
remember_result merchant key response =
    update_key merchant key (λ row. record row { result = some response })
