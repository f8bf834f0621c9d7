-- ===== src/Storage/Tests.antt =====
-- A transaction whose commit takes effect and is reported as failed.
use golang_template.Prelude.{ℕ, suc, ◌≡◌, ◌⊎◌, [], ◌∷◌, none, some}
use golang_template.Errors.{ok}
use golang_template.Storage.{Db, applied, Action, statement, with_tx}
use golang_template.Storage.Laws.{body_of, with_tx_atomic}

abbrev count : Action ℕ ℕ
count = statement (λ n. (ok n, suc n))

abbrev db : Db ℕ
db = record { tables = 5; faults = none ∷ none ∷ some (applied "reset") ∷ [] }

with_tx_atomic_run :
    ((with_tx count db).1.tables ≡ 5)
    ⊎ ((a : ℕ) × ((body_of count db).0 ≡ ok a)
        × ((with_tx count db).1.tables ≡ (body_of count db).1.tables))
with_tx_atomic_run = with_tx_atomic count db
