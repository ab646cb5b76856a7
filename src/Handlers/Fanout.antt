-- ===== src/Handlers/Fanout.antt =====
-- CreateTestRun of backend/internal/handlers/test_runs.go when Postgres and Redis answer: the run is
-- made, and each of its shards is published.
use mathlib.Core.List.{append-nil, append_assoc, map-append}
use distributed_load_testing.Common.{
  ℕ, zero, suc, ◌<◌, ◌≡◌, refl, sym, ◌∙◌, ◌⊎◌, Bool, true, false, none, some, Option, List, [], ◌∷◌,
  ◌++◌, map, ◌==◌, ok, arith, length, All, All-imp,
}
use distributed_load_testing.Common.Int.{ℤ, pos, pos_part, ◌≤ℤ◌}
use distributed_load_testing.Common.Table.{count_where}
use distributed_load_testing.Models.{TestRun, CreateTestRunRequest}
use distributed_load_testing.Store.{Shard, Store, no_faults}
use distributed_load_testing.Store.Create.{positive, insert_shards, create_tx, shard_ids}
use distributed_load_testing.Store.Runs.{has_active, count_active_runs}
use distributed_load_testing.Queue.{Message, Stream, add_entry, publish_shard}
use distributed_load_testing.Handlers.{Handler, World, Surroundings}
use distributed_load_testing.Handlers.Validate.{validate_create, split_vus}
use distributed_load_testing.Handlers.Validate.Split.{split_vus_lem}
use distributed_load_testing.Handlers.Validate.Requests.{IsAdmissible}
use distributed_load_testing.Handlers.Public.{
  publish_all, target_allowed, admission, create_valid, create_test_run,
}
use distributed_load_testing.Handlers.Create.{
  valid-IsAdmissible, create_tx-Created, insert_run_created,
}

abbrev pub jobs_of : Stream → List (Option ℤ)
jobs_of q = map (λ m. m.shard_id) q.entries

abbrev pub jobs_for : List ℕ → List (Option ℤ)
jobs_for = map (λ sid. some (pos sid))

-- While Redis answers, the publish loop appends one job for each shard, in their order.
publish_all_lem :
    (i : ℕ) (q : Stream) (sids : List ℕ)
    → jobs_of (publish_all (λ _. false) i q sids) ≡ jobs_of q ++ jobs_for sids
unfolding publish_all publish_shard add_entry
publish_all_lem i q [] = sym (append-nil (jobs_of q))
publish_all_lem i q (sid ∷ sids) =
    publish_all_lem (suc i) (publish_shard false q sid).0 sids
    ∙ rw (map-append (λ (m : Message). m.shard_id) q.entries)
        (append_assoc (jobs_of q) (some (pos sid) ∷ []) (jobs_for sids))

-- A quiet minute: nothing is refused, and nothing comes between a count and its insert.
abbrev pub quiet : ℕ → (ℕ → Bool) → Surroundings
quiet now locked = record {
  now = now;
  db = no_faults;
  redis = λ _. false;
  locked = locked;
  counted = λ n. n;
}

module _ {F : Type 0} where
  insert_shards-commits :
      (now run_id id i : ℕ) (vus : List ℕ)
      → All (λ v. 0 < v) vus
      → (shards : List (Shard F)) × (insert_shards no_faults now run_id id i vus ≡ ok shards)
  unfolding insert_shards
  insert_shards-commits now run_id id i [] h = ([], refl)
  insert_shards-commits now run_id id i (zero ∷ vus) h = absurd (omega arith)
  insert_shards-commits now run_id id i (suc v ∷ vus) h =
      let (rest, m) = insert_shards-commits now run_id (suc id) (suc i) vus h.1 in
      let positive : (suc v == 0) ≡ false = ground arith in
      rw (m, positive, insert_shards) (_, refl)

  admission_room :
      (h : Handler) (now : ℕ) (locked : ℕ → Bool) (s : Store F)
      → (h.max_concurrent_runs ≤ℤ pos 0)
        ⊎ (count_where has_active s.runs < pos_part h.max_concurrent_runs)
      → admission h (quiet now locked) s ≡ none
  unfolding admission count_active_runs
  admission_room h now locked s room = ground arith

  create_tx-commits :
      (now : ℕ) (s : Store F) (req : CreateTestRunRequest)
      → IsAdmissible req
      → (s' : Store F) × (tr : TestRun F) × (shards : List (Shard F)) × (create_tx no_faults now s
            req
            (split_vus (pos_part req.virtual_users) (pos_part req.shards))
          ≡ ok (s', tr, shards))
  unfolding create_tx
  create_tx-commits now s req adm =
      let shares =
        (split_vus_lem (pos_part req.virtual_users) (pos_part req.shards)
          (grind (arith, adm.shards_min)) (grind (arith, adm.shards_users))).2 in
      let (shards, m) =
        insert_shards-commits now s.next_run s.next_shard 0 _
          (All-imp _ (λ v. 0 < v) (λ v p. p.0) _ shares) in
      let users : positive req.virtual_users ≡ true = ground (arith, adm.basics.users_min) in
      let duration : positive req.duration_seconds ≡ true =
        ground (arith, adm.basics.duration_min) in
      rw (m, users, duration, create_tx) (_, _, _, refl)

  -- While Postgres and Redis answer and no other request comes in between, a valid request to an
  -- allowed host, below the cap if there is
  -- one, is answered with 201; the shards asked for are added, and one job for each is appended to
  -- the stream, in their order.
  pub create_test_run-publishes :
      (h : Handler) (now : ℕ) (locked : ℕ → Bool) (w : World F) (raw req : CreateTestRunRequest)
      → validate_create h.strings raw ≡ ok req
      → target_allowed h req.target_url ≡ true
      → (h.max_concurrent_runs ≤ℤ pos 0)
        ⊎ (count_where has_active w.store.runs < pos_part h.max_concurrent_runs)
      → let (w', resp) = create_test_run h (quiet now locked) w (ok raw) in
        (resp.code ≡ 201)
        × (shards : List (Shard F)) × (length shards ≡ pos_part req.shards)
        × (w'.store.shards ≡ w.store.shards ++ shards)
        × (jobs_of w'.stream ≡ jobs_of w.stream ++ jobs_for (shard_ids shards))
  unfolding create_test_run create_valid
  create_test_run-publishes h now locked w raw req v t room =
      let e = quiet now locked in
      let a = admission_room h now locked w.store room in
      let (s', tr, shards, c) =
        create_tx-commits now w.store req (valid-IsAdmissible h raw req v) in
      let made = create_tx-Created h e w.store s' raw req tr shards v t a c in
      rw (v, t, a, insert_run_created e w s' req tr shards c, create_test_run, create_valid)
        (
          refl,
          shards,
          made.shard_count,
          made.added_shards,
          publish_all_lem 0 w.stream (shard_ids shards),
        )
