-- ===== src/Ingester/Pipeline.antt =====
-- main of services/telemetry-ingester/main.go: the consumer loop and the storage worker run at
-- once, with the channel recordChan between them. The steps of the system are the sends of the
-- consumer and the events of the worker.
pub mod Transfer
use hft_bench.Prelude.{ℕ, ◌<◌, Bool, true, false, List, [], ◌∷◌, ◌++◌, length}
use hft_bench.Ingester.Payload.{StorageRecord}
use hft_bench.Ingester.Storage.{Backend, Worker, flush, receive}

-- The capacity of recordChan
abbrev pub channel_capacity : ℕ
channel_capacity = 10000

module _ {F W : Type 0} (backend : Backend F W) where
  -- The channel, the worker with its buffer, and whether the worker has returned.
  pub record System : Type 0 where
    pub record_chan : List (StorageRecord F)
    pub worker : Worker backend
    pub ended : Bool

  -- A step, with the records that the consumer sends in it. The flag is whether the context is done
  -- when the worker handles its event.
  pub data Step : System → List (StorageRecord F) → System → Type 0 where
    -- `recordChan <- record`, which waits while the channel is full
    send :
        (r : StorageRecord F) (chan : List (StorageRecord F)) (worker : Worker backend)
        (ended : Bool)
        → length chan < channel_capacity
        → Step
            (record { record_chan = chan; worker = worker; ended = ended })
            (r ∷ [])
            (record { record_chan = chan ++ r ∷ []; worker = worker; ended = ended })
    -- `case record := <-recordChan`
    take :
        (cancelled : Bool) (r : StorageRecord F) (chan : List (StorageRecord F))
        (worker : Worker backend)
        → Step
            (record { record_chan = r ∷ chan; worker = worker; ended = false })
            []
            (record {
              record_chan = chan;
              worker = receive backend cancelled r worker;
              ended = false;
            })
    -- `case <-ticker.C`
    tick :
        (cancelled : Bool) (chan : List (StorageRecord F)) (worker : Worker backend)
        → Step
            (record { record_chan = chan; worker = worker; ended = false })
            []
            (record { record_chan = chan; worker = flush backend cancelled worker; ended = false })
    -- `case <-ctx.Done()`
    stop :
        (chan : List (StorageRecord F)) (worker : Worker backend)
        → Step
            (record { record_chan = chan; worker = worker; ended = false })
            []
            (record { record_chan = chan; worker = flush backend true worker; ended = true })
    -- The channel is closed and empty.
    drained :
        (cancelled : Bool) (worker : Worker backend)
        → Step
            (record { record_chan = []; worker = worker; ended = false })
            []
            (record { record_chan = []; worker = flush backend cancelled worker; ended = true })

  -- The steps of a run, with all records that are sent in it.
  pub data Runs : System → List (StorageRecord F) → System → Type 0 where
    here : (s : System) → Runs s [] s
    next :
        (s s' s'' : System) (sent more : List (StorageRecord F))
        → Runs s sent s'
        → Step s' more s''
        → Runs s (sent ++ more) s''
