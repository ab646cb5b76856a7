-- ===== src/Queue.antt =====
-- backend/internal/queue/publisher.go: the Redis stream that jobs are appended to.
use distributed_load_testing.Common.{
  ℕ, suc, Bool, Option, none, some, List, [], ◌∷◌, ◌++◌, if◌then◌else◌, true, false,
}
use distributed_load_testing.Common.Int.{ℤ, pos}

-- An entry of the stream. `shard_id` is the value under that key read as an integer, `none` where
-- the key is missing or its value is no integer.
pub record Message : Type 0 where
  pub id : ℕ
  pub shard_id : Option ℤ

pub record Stream : Type 0 where
  pub entries : List Message
  pub next_id : ℕ

-- XADD gives the entry the next id; `refused` is a failing Redis.
unfoldable pub add_entry : Bool → Stream → Option ℤ → Stream × Bool
add_entry refused q value = if refused then (q, false) else (
  record q {
    entries = q.entries ++ (record { id = q.next_id; shard_id = value } ∷ []);
    next_id = suc q.next_id;
  },
  true,
)

-- PublishJob writes the key `run_id`, and no `shard_id`.
unfoldable pub publish_job : Bool → Stream → ℕ → Stream × Bool
unfolding add_entry
publish_job refused q run_id = add_entry refused q none

unfoldable pub publish_shard : Bool → Stream → ℕ → Stream × Bool
unfolding add_entry
publish_shard refused q shard_id = add_entry refused q (some (pos shard_id))
