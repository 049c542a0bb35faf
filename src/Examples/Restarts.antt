-- ===== src/Examples/Restarts.antt =====
-- A crash between two records, and the life after it.
use hft_bench.Prelude.{In, ℕ, ◌≡◌, refl, false, List, [], ◌∷◌, arith, inl, inr}
use hft_bench.Ingester.Payload.{StorageRecord}
use hft_bench.Ingester.Storage.{
  Event, received, ticked, exec_all, persist_batch, after_persist, flush, receive,
  run_storage_worker,
}
use hft_bench.Ingester.Storage.Accounting.{taken}
use hft_bench.Ingester.Restart.{from_offset, Resumes, Lives, first, then_life}
use hft_bench.Ingester.Restart.Covers.{IsOrdered, Lives-Complete}
use hft_bench.Examples.Ingesters.{
  Memory, table, table_rows, open_rows, offsets, table-IsTransactional, item, message, payload,
  empty,
}

abbrev topic : List (StorageRecord ℕ)
topic = item 1 ∷ item 2 ∷ item 3 ∷ []

topic-IsOrdered : IsOrdered topic
topic-IsOrdered = ((omega arith, (omega arith, tt)), ((omega arith, tt), (tt, tt)))

abbrev before_crash : List (Event ℕ)
before_crash =
    received false (item 1) ∷ received false (item 2) ∷ ticked false ∷ received false (item 3) ∷ []

abbrev after_crash : List (Event ℕ)
after_crash = received false (item 3) ∷ ticked false ∷ []

abbrev left : Memory
left = (run_storage_worker table before_crash ([], empty)).1

abbrev end : Memory
end = (run_storage_worker table after_crash ([], left)).1

-- The third record is read again after the crash, and written.
end_rows : end.rows ≡ payload 1 ∷ payload 2 ∷ payload 3 ∷ []
unfolding run_storage_worker receive flush after_persist persist_batch exec_all
end_rows = refl

resumed : Resumes left.committed 3
unfolding run_storage_worker receive flush after_persist persist_batch exec_all
resumed = inr (message 2, inr (inl refl), refl)

first_life : Lives table table_rows open_rows offsets table-IsTransactional topic empty left
unfolding taken from_offset
first_life = then_life 0 before_crash [] first (inl (refl, refl)) refl

lives : Lives table table_rows open_rows offsets table-IsTransactional topic empty end
unfolding taken from_offset
lives = then_life 3 after_crash [] first_life resumed refl

nothing_left : (run_storage_worker table after_crash ([], left)).0 ≡ []
unfolding run_storage_worker receive flush after_persist persist_batch exec_all
nothing_left = refl

third_read :
    taken table table_rows open_rows offsets table-IsTransactional after_crash ≡ from_offset 3 topic
unfolding taken from_offset
third_read = refl

Lives-Complete_example : In (payload 3) end.rows
Lives-Complete_example =
    Lives-Complete table table_rows open_rows offsets table-IsTransactional topic topic-IsOrdered
      empty left 3 after_crash (item 3) refl first_life resumed third_read nothing_left
      (inr (inr (inl refl)))
