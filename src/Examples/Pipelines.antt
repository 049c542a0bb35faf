-- ===== src/Examples/Pipelines.antt =====
-- The consumer sends a record, and the worker takes it and writes it.
use hft_bench.Prelude.{◌≡◌, ◌≤◌, refl, false, [], ◌∷◌, ◌++◌, arith}
use hft_bench.Ingester.Consumer.{all_delivered}
use hft_bench.Ingester.Storage.{flush, receive}
use hft_bench.Ingester.Storage.Accounting.{payloads}
use hft_bench.Ingester.Pipeline.{System, channel_capacity, send, take, tick, Runs, here, next}
use hft_bench.Ingester.Pipeline.Transfer.{Transfers, view, start-Transfers}
use hft_bench.Examples.Ingesters.{
  table, table_rows, open_rows, offsets, table-IsTransactional, item, empty, unmarshal, rounds,
  payload, consumer_run,
}

abbrev begun : System table
begun = record { record_chan = []; worker = ([], empty); ended = false }

abbrev sent : System table
sent = record { record_chan = item 1 ∷ []; worker = ([], empty); ended = false }

abbrev taken : System table
taken = record {
  record_chan = [];
  worker = receive table false (item 1) ([], empty);
  ended = false;
}

abbrev written : System table
written = record { record_chan = []; worker = flush table false taken.worker; ended = false }

run : Runs table begun (item 1 ∷ []) written
run =
    next begun taken written (item 1 ∷ []) []
      (next begun sent taken (item 1 ∷ []) []
        (next begun begun sent [] (item 1 ∷ []) (here begun)
          (send (item 1) [] ([], empty) false (omega arith)))
        (take false (item 1) [] ([], empty)))
      (tick false [] taken.worker)

start-Transfers_example :
    Transfers
      ([], [])
      (payload 1 ∷ [])
      (view table table_rows open_rows offsets table-IsTransactional written)
    × ((view table table_rows open_rows offsets table-IsTransactional written).0
          ++ (view table table_rows open_rows offsets table-IsTransactional written).1
          ++ []
        ≡ payloads (all_delivered unmarshal rounds))
    × (0 ≤ channel_capacity)
start-Transfers_example =
    start-Transfers table table_rows open_rows offsets table-IsTransactional unmarshal rounds
      (item 1 ∷ []) [] empty written ((refl, (refl, (refl, tt))), ((refl, (refl, tt)), tt))
      consumer_run run
