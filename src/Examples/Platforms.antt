-- ===== src/Examples/Platforms.antt =====
-- A worker over an orchestrator on a host, and a bot fleet that counts its benchmarks.
use hft_bench.Prelude.{ℕ, suc, ◌≡◌, refl, true, Option, none, some, [], ◌∷◌}
use hft_bench.Prelude.Text.{Str, codes}
use hft_bench.Prelude.Dict.{lookup}
use hft_bench.Float64.Fixed.{fixed}
use hft_bench.Orchestrator.Network.{is_listed}
use hft_bench.Submission.Worker.{BenchmarkRequest, BenchmarkResponse, work}
use hft_bench.Platform.{connect}
use hft_bench.Platform.Restores.{work-Restores}
use hft_bench.Examples.Networks.{linux, linux-IsReliable}
use hft_bench.Examples.Disks.{disk}
use hft_bench.Examples.Machines.{vmm}
use hft_bench.Examples.Hosts.{stop_any, machines, eth0}
use hft_bench.Examples.Submissions.{acks, inputs, jobs}
use hft_bench.Examples.Queues.{query}

abbrev fleet : BenchmarkRequest → ℕ → Option BenchmarkResponse × ℕ
fleet request n = (some acks, suc n)

work-Restores_example :
    ((j : Str)
      → lookup j
          (work fixed
            (connect machines fleet)
            query
            (inputs ∷ inputs ∷ [])
            jobs
            (([], (eth0, 0)), 0)).1.0.0
        ≡ none)
    × ((x : Str)
        → is_listed x
            (work fixed
              (connect machines fleet)
              query
              (inputs ∷ inputs ∷ [])
              jobs
              (([], (eth0, 0)), 0)).1.0.1.0
          ≡ is_listed x eth0)
work-Restores_example =
    work-Restores fixed linux (λ w. w) linux-IsReliable disk vmm (codes "script") true stop_any
      fleet query (inputs ∷ inputs ∷ []) jobs eth0 0 0 (λ m x. refl)
