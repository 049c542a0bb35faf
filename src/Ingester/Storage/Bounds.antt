-- ===== src/Ingester/Storage/Bounds.antt =====
-- The size of the storage worker's buffer.
use hft_bench.Prelude.{◌≡◌, ◌<◌, refl, Bool, true, List, [], ◌∷◌, ◌++◌, arith, length}
use hft_bench.Ingester.Payload.{StorageRecord}
use hft_bench.Ingester.Storage.{
  max_batch_size, Backend, Event, ctx_done, received, channel_closed, ticked, persist_batch, Worker,
  after_persist, flush, receive, run_storage_worker,
}

module _ {F W : Type 0} (b : Backend F W)
    (accepts : (c : Bool) (rs : List (StorageRecord F)) (w : W)
      → (persist_batch b c rs w).0 ≡ true) where
  flush-empties : (c : Bool) (s : Worker b) → (flush b c s).0 ≡ []
  unfolding flush after_persist
  flush-empties c ([], w) = refl
  flush-empties c (r ∷ rs, w) = ground (arith, accepts c (r ∷ rs) w)

  receive-lt :
      (c : Bool) (r : StorageRecord F) (s : Worker b) → length (receive b c r s).0 < max_batch_size
  unfolding receive
  receive-lt c r (buffer, w) = ground (arith, flush-empties c (buffer ++ r ∷ [], w))

  -- While every batch is persisted, the buffer holds fewer than 500 records after each event.
  pub run_storage_worker-lt :
      (events : List (Event F)) (s : Worker b)
      → length s.0 < max_batch_size
      → length (run_storage_worker b events s).0 < max_batch_size
  unfolding run_storage_worker
  run_storage_worker-lt [] s h = h
  run_storage_worker-lt (ctx_done ∷ events) s h = ground (arith, flush-empties true s)
  run_storage_worker-lt (channel_closed c ∷ events) s h = ground (arith, flush-empties c s)
  run_storage_worker-lt (received c r ∷ events) s h =
      run_storage_worker-lt events (receive b c r s) (receive-lt c r s)
  run_storage_worker-lt (ticked c ∷ events) s h =
      run_storage_worker-lt events (flush b c s) (ground (arith, flush-empties c s))
