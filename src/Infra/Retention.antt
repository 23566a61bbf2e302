-- ===== src/Infra/Retention.antt =====
-- The retention loop (crates/byos/src/infra/retention.rs): a sweep after each period, whatever the
-- sweep before has answered. `f n` are the faults of the n-th sweep.
use byos_service.Prelude.{ℕ, zero, suc, ◌+◌}
use byos_service.Infra.Storage.Db.{Db, Faults}
use byos_service.Infra.Storage.Queues.{sweep_dropped}
use byos_service.Infra.Storage.Lifecycle.{Reach, next, sweeps, passes}

-- `period` seconds pass before each of the sweeps.
unfoldable pub retention_loop : ℕ → (ℕ → Faults) → ℕ → ℕ → Db → Db
unfolding sweep_dropped
retention_loop zero f period retention db = db
retention_loop (suc n) f period retention db =
    retention_loop n (λ k. f (suc k)) period retention
      (sweep_dropped (f 0) retention (record db { clock = db.clock + period })).1

pub retention_loop-Reach :
    (n : ℕ) (f : ℕ → Faults) (period retention : ℕ) {a : Db} (db : Db)
    → Reach a db
    → Reach a (retention_loop n f period retention db)
unfolding retention_loop
retention_loop-Reach zero f period retention db r = r
retention_loop-Reach (suc n) f period retention db r =
    let later : Db = record db { clock = db.clock + period } in
    retention_loop-Reach n (λ k. f (suc k)) period retention (sweep_dropped (f 0) retention later).1
      (next (next r (passes period db)) (sweeps (f 0) retention later))
