-- ===== src/Store/Lifecycle.antt =====
-- What the methods of backend/internal/store/test_run_store.go may do to a row: the state machines of
-- runs and shards.
pub mod Runs
pub mod Barrier
pub mod Shards
pub mod Keys
use distributed_load_testing.Common.{
  ℕ, ◌<◌, ◌≡◌, refl, ◌⊎◌, inl, inr, Bool, true, false, Option, none, some, List, [], ◌∷◌, arith,
  All,
}
use distributed_load_testing.Common.Table.{Grows, Grows-refl, Distinct}
use distributed_load_testing.Models.{
  Status, queued, running, completed, failed, cancelling, cancelled, is_active, is_open, TestRun,
}
use distributed_load_testing.Store.{Shard, Store}

-- The moves of a run. Completed, failed and cancelled have none.
abbrev pub may_move : Status → Status → Bool
may_move queued running = true
may_move queued cancelling = true
may_move queued failed = true
may_move running running = true
may_move running cancelling = true
may_move running completed = true
may_move running failed = true
may_move cancelling cancelled = true
may_move _ _ = false

-- The moves of a shard.
abbrev pub may_move_shard : Status → Status → Bool
may_move_shard queued running = true
may_move_shard queued failed = true
may_move_shard running running = true
may_move_shard running completed = true
may_move_shard running failed = true
may_move_shard _ _ = false

module _ {F : Type 0} where
  -- The configuration of a run stays, and the row stays whole or its status makes an allowed move.
  pub record RunStep (r r' : TestRun F) : Type 0 where
    pub same_id : r'.id ≡ r.id
    pub same_name : r'.name ≡ r.name
    pub same_target : r'.target_url ≡ r.target_url
    pub same_method : r'.method ≡ r.method
    pub same_users : r'.virtual_users ≡ r.virtual_users
    pub same_duration : r'.duration_seconds ≡ r.duration_seconds
    pub same_shard_count : r'.shard_count ≡ r.shard_count
    pub same_created : r'.created_at ≡ r.created_at
    pub same_headers : r'.headers ≡ r.headers
    pub same_body : r'.body ≡ r.body
    pub same_think_time : r'.think_time_ms ≡ r.think_time_ms
    pub moved : (r' ≡ r) ⊎ (may_move r.status r'.status ≡ true)

  pub RunStep-refl : (r : TestRun F) → RunStep r r
  RunStep-refl r = record {
    same_id = refl;
    same_name = refl;
    same_target = refl;
    same_method = refl;
    same_users = refl;
    same_duration = refl;
    same_shard_count = refl;
    same_created = refl;
    same_headers = refl;
    same_body = refl;
    same_think_time = refl;
    moved = inl refl;
  }

  pub record ShardStep (sh sh' : Shard F) : Type 0 where
    pub same_id : sh'.id ≡ sh.id
    pub same_run : sh'.run_id ≡ sh.run_id
    pub same_index : sh'.shard_index ≡ sh.shard_index
    pub same_users : sh'.virtual_users ≡ sh.virtual_users
    pub moved : (sh' ≡ sh) ⊎ (may_move_shard sh.status sh'.status ≡ true)

  pub ShardStep-refl : (sh : Shard F) → ShardStep sh sh
  ShardStep-refl sh = record {
    same_id = refl;
    same_run = refl;
    same_index = refl;
    same_users = refl;
    moved = inl refl;
  }

  abbrev pub IsNewRun : TestRun F → Type 0
  IsNewRun r = r.status ≡ queued

  abbrev pub IsNewShard : Shard F → Type 0
  IsNewShard sh = sh.status ≡ queued

  -- One call of the store: rows move as allowed, and new rows are queued.
  pub record Evolves (s s' : Store F) : Type 0 where
    pub runs : Grows RunStep IsNewRun s.runs s'.runs
    pub shards : Grows ShardStep IsNewShard s.shards s'.shards

  pub Evolves-refl : (s : Store F) → Evolves s s
  Evolves-refl s = record {
    runs = Grows-refl RunStep IsNewRun RunStep-refl s.runs;
    shards = Grows-refl ShardStep IsNewShard ShardStep-refl s.shards;
  }

  -- A database in which no id is used twice, and all ids are below the next ones.
  pub record IsKeyed (s : Store F) : Type 0 where
    pub run_ids : Distinct (λ (r : TestRun F). r.id) s.runs
    pub run_ids_used : All (λ r. r.id < s.next_run) s.runs
    pub shard_ids : Distinct (λ (sh : Shard F). sh.id) s.shards
    pub shard_ids_used : All (λ sh. sh.id < s.next_shard) s.shards
