-- ===== src/Idempotency.antt =====
-- IdempotencyService.run (apps/api/src/common/idempotency.service.ts): the first call with a key
-- runs the operation and stores its result, and a later call with the key returns what is stored.
-- A key, where there is one, is not empty: the schemas ask for eight characters.
pub mod Replay
use hospitality_os.Common.{List, Option, String, [], if◌then◌else◌, none, some, str_eq, ◌∷◌}
use hospitality_os.Store.{Action, IdempotencyRow, Response, gets, modify, pure, ◌>>=◌, ◌>>◌}

-- `idempotencyKey.findUnique({ where: { key } })`
unfoldable pub stored : String → List IdempotencyRow → Option Response
stored k [] = none
stored k (r ∷ rs) = if str_eq r.idempotency_key k then some r.response else stored k rs

-- `upsert({ where: { key }, create, update: {} })`: a row that is there stays as it is
unfoldable pub store : String → Response → List IdempotencyRow → List IdempotencyRow
unfolding stored
store k a rows = elim (stored k rows) [
  | some old ↦ rows
  | none ↦ record { idempotency_key = k; response = a } ∷ rows
]

-- `run` with a key: what is stored wins over the operation
abbrev pub replay : String → Action Response → Option Response → Action Response
replay k operation (some a) = pure a
replay k operation none = do
  result ← operation
  modify λ db. record db { idempotency = store k result db.idempotency }
  pure result

unfoldable pub run : Option String → Action Response → Action Response
unfolding stored store
run none operation = operation
run (some k) operation = gets (λ db. stored k db.idempotency) >>= replay k operation
