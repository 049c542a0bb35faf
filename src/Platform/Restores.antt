-- ===== src/Platform/Restores.antt =====
-- The workers of the submission API over an orchestrator and its host.
use hft_bench.Prelude.{
  ℕ, ◌≡◌, refl, sym, ◌∙◌, subst, Bool, Option, none, some, List, [], Result, ok,
}
use hft_bench.Prelude.Text.{Str}
use hft_bench.Prelude.Dict.{lookup}
use hft_bench.Float64.{Float64}
use hft_bench.Orchestrator.Network.{Net}
use hft_bench.Orchestrator.Network.Cleanup.{IsReliable}
use hft_bench.Orchestrator.Disk.{DiskHost}
use hft_bench.Orchestrator.Vmm.{Vmm}
use hft_bench.Orchestrator.Provisioner.{Provisioner}
use hft_bench.Orchestrator.Server.{Registry}
use hft_bench.Orchestrator.Server.Calls.{serve}
use hft_bench.Orchestrator.Host.{HostError, assemble}
use hft_bench.Orchestrator.Host.Tidy.{none-ne-some, has, IsTidy}
use hft_bench.Orchestrator.Host.Lifetime.{serve-IsTidy}
use hft_bench.Submission.Jobs.{Jobs}
use hft_bench.Submission.Worker.{BenchmarkRequest, BenchmarkResponse, Inputs, work}
use hft_bench.Platform.{connect}
use hft_bench.Platform.Rounds.{work-IsBack}

module _ {F N D B : Type 0} (f : Float64 F) (net : Net N) (names : N → List Str)
    (r : IsReliable net names) (files : DiskHost D) (vmm : Vmm D) (script : Str) (in_order : Bool)
    (stop_vmm : Option ℕ → D → Option (Result HostError (Unit {0})) × D)
    (fleet : BenchmarkRequest → B → Option BenchmarkResponse × B) where
  abbrev host : Provisioner (N × D) HostError
  host = assemble net files vmm script in_order stop_vmm

  -- However many rounds a worker makes, and whatever fails in them (the database, SpawnVM at any
  -- step, the bot fleet, the polling): if the orchestrator starts with no machine on a reliable
  -- host, serves this worker alone, answers each of its calls, and stops each machine that has
  -- booted, then no machine is registered after the rounds, and the host has exactly the TAP
  -- interfaces that it had before them.
  pub work-Restores :
      (query : Jobs F → Option Str) (rounds : List (Inputs F)) (jobs : Jobs F) (n : N) (d : D)
      (b : B)
      → ((m : ℕ) (x : D) → (stop_vmm (some m) x).0 ≡ some (ok tt))
      → ((j : Str)
          → lookup j (work f (connect host fleet) query rounds jobs (([], (n, d)), b)).1.0.0 ≡ none)
        × ((x : Str)
            → has names x (work f (connect host fleet) query rounds jobs (([], (n, d)), b)).1.0.1.0
              ≡ has names x n)
  unfolding lookup serve
  work-Restores query rounds jobs n d b stops =
      let ((calls, e), empty) =
        work-IsBack f host fleet query rounds jobs [] (n, d) (([], (n, d)), b) (λ m w. stops m w.1)
          (([], refl), λ j. refl) in
      let t =
        subst (λ (out : Registry × (N × D)). IsTidy names (λ x. has names x n) out.0 out.1.0)
          (sym e) (serve-IsTidy net names r files vmm script in_order stop_vmm calls n d) in
      (empty, λ x. t.others x (λ j vm f. absurd (none-ne-some (sym (empty j) ∙ f))))
