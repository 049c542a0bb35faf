-- ===== src/Platform/Rounds.antt =====
-- What a worker's rounds are for the orchestrator: calls of its handlers.
use hft_bench.Prelude.{
  ℕ, Result, ok, err, ◌++◌, sym, ◌∙◌, ◌≡◌, ◌≢◌, refl, ap, Option, none, some, List, [], ◌∷◌, ◌⊎◌,
  inl, inr, Bool-cases, subst,
}
use hft_bench.Prelude.Text.{Str}
use hft_bench.Float64.{Float64}
use hft_bench.Orchestrator.Provisioner.{Provisioner}
use hft_bench.Orchestrator.Server.{
  ActiveVm, SpawnRequest, TeardownReply, stopped, torn_down, Registry, SpawnReply, SpawnResponse,
  spawned, not_reserved, invalid_argument, network_failed, disk_failed, boot_failed,
  vm_already_exists, no_free_address, bad_address, spawn_vm, teardown_vm,
}
use hft_bench.Orchestrator.Server.Calls.{Call, spawn, teardown, handle, serve}
use hft_bench.Prelude.Dict.{lookup}
use hft_bench.Orchestrator.Server.Handlers.{Spawns, spawn_vm-Spawns}
use hft_bench.Orchestrator.Server.Teardown.{spawn_vm-teardown_vm}
use hft_bench.Submission.Jobs.{Jobs, running}
use hft_bench.Submission.Worker.{
  Remote, BenchmarkRequest, BenchmarkResponse, Inputs, pending_pick, set_status, run_benchmark_sync,
  claimed, process_next_job, work,
}
use hft_bench.Submission.Worker.Outcome.{Releases, run_benchmark_sync-Releases}
use hft_bench.Platform.{response_of, request_of, World, connect}

module _ {F W : Type 0} (f : Float64 F) (remote : Remote W) where
  -- A round leaves the world as it is, or runs one job in it.
  pub process_next_job_world :
      (P : W → Type 0) (inputs : Inputs F) (jobs : Jobs F) (w : W)
      → P w
      → ((id : Str) (table : Jobs F) → P (run_benchmark_sync f remote inputs id table w).1)
      → P (process_next_job f remote inputs jobs w).1
  unfolding process_next_job
  process_next_job_world P inputs jobs w still run = elim (Bool-cases inputs.begin_ok) [
    | inr refused ↦ simp refused still
    | inl begun ↦ simp begun (picks (pending_pick jobs inputs.picked))
  ]
    where
      picks : (p : Option Str) → P (claimed f remote inputs p jobs w).1
      picks none = still
      picks (some id) = elim (Bool-cases inputs.running_ok) [
        | inr refused ↦ simp refused still
        | inl marked ↦ simp marked (run id (set_status inputs.commit_ok id running jobs))
      ]

module _ {F W E B : Type 0} (f : Float64 F) (host : Provisioner W E)
    (fleet : BenchmarkRequest → B → Option BenchmarkResponse × B) where
  -- What the worker's calls do with the orchestrator after the reply of SpawnVM.
  abbrev pub Follows : SpawnReply E × Registry × W → Registry × W → Type 0
  Follows o out =
      (((resp : SpawnResponse) → o.0 ≢ spawned resp) × (out ≡ (o.1, o.2)))
      ⊎ ((resp : SpawnResponse) × (o.0 ≡ spawned resp)
          × (out
              ≡ ((teardown_vm host resp.vm_id o.1 o.2).1, (teardown_vm host resp.vm_id o.1 o.2).2)))

  released :
      (b : B) (out : World host fleet) (o : SpawnReply E × Registry × W)
      → Releases f (connect host fleet) (response_of o.0, ((o.1, o.2), b)) out
      → Follows o out.0
  released b out (spawned resp, r, w) (inl (other, e)) = absurd (cc)
  released b out (spawned resp, r, w) (inr (fine, e)) = inr (resp, refl, ap (λ x. x.0) e.1)
  released b out (not_reserved vm_already_exists, r, w) (inl (other, e)) =
      inl (λ resp. cc, ap (λ x. x.0) e)
  released b out (not_reserved vm_already_exists, r, w) (inr (fine, more)) = absurd (cc)
  released b out (boot_failed x, r, w) (inl (other, e)) = inl (λ resp. cc, ap (λ x. x.0) e)
  released b out (boot_failed x, r, w) (inr (fine, more)) = absurd (cc)
  released b out (not_reserved no_free_address, r, w) e = inl (λ resp. cc, ap (λ x. x.0) e)
  released b out (not_reserved (bad_address x), r, w) e = inl (λ resp. cc, ap (λ x. x.0) e)
  released b out (invalid_argument x, r, w) e = inl (λ resp. cc, ap (λ x. x.0) e)
  released b out (network_failed x, r, w) e = inl (λ resp. cc, ap (λ x. x.0) e)
  released b out (disk_failed x, r, w) e = inl (λ resp. cc, ap (λ x. x.0) e)

  -- A run asks SpawnVM for a machine, and tears the machine down that it is given.
  pub run_benchmark_sync-Follows :
      (inputs : Inputs F) (id : Str) (jobs : Jobs F) (r : Registry) (w : W) (b : B)
      → Follows
          (spawn_vm host (request_of id 1 256) r w)
          (run_benchmark_sync f (connect host fleet) inputs id jobs ((r, w), b)).1.0
  run_benchmark_sync-Follows inputs id jobs r w b =
      released b _ (spawn_vm host (request_of id 1 256) r w)
        (run_benchmark_sync-Releases f (connect host fleet) inputs id jobs ((r, w), b))

  followed-Calls :
      (id : Str) (r : Registry) (w : W) (out : Registry × W)
      → Follows (spawn_vm host (request_of id 1 256) r w) out
      → (calls : List Call) × (out ≡ serve host calls r w)
  unfolding serve
  followed-Calls id r w out (inl (other, e)) = (spawn (request_of id 1 256) ∷ [], e)
  followed-Calls id r w out (inr (resp, replied, e)) =
      (spawn (request_of id 1 256) ∷ teardown resp.vm_id ∷ [], e)

  serve-append :
      (xs ys : List Call) (r : Registry) (w : W)
      → serve host (xs ++ ys) r w ≡ serve host ys (serve host xs r w).0 (serve host xs r w).1
  unfolding serve
  serve-append [] ys r w = refl
  serve-append (call ∷ xs) ys r w = let (r', w') = handle host call r w in serve-append xs ys r' w'

  -- Nothing fails in StopVMM for a machine that has booted.
  abbrev pub StopSucceeds : Type 0
  StopSucceeds = (m : ℕ) (w : W) → (host.stop_vmm (some m) w).0 ≡ some (ok tt)

  stopped-torn_down :
      (id : Str) (vm : ActiveVm) (r : Registry) (s : Option (Result E (Unit {0})) × W)
      → s.0 ≡ some (ok tt)
      → (stopped host id vm s r).0 ≡ torn_down
  unfolding stopped
  stopped-torn_down id vm r (none, w) e = absurd (cc)
  stopped-torn_down id vm r (some (err x), w) e = absurd (cc)
  stopped-torn_down id vm r (some (ok _), w) e = refl

  booted-stops :
      StopSucceeds → (o : Option ℕ) (w : W) → o ≢ none → (host.stop_vmm o w).0 ≡ some (ok tt)
  booted-stops stops none w booted = absurd (booted refl)
  booted-stops stops (some m) w booted = stops m w

  Spawns-kept :
      (req : SpawnRequest) (r : Registry) (o : SpawnReply E × Registry × W)
      → Spawns host req r o
      → ((resp : SpawnResponse) → o.0 ≢ spawned resp)
      → (j : Str) → lookup j o.1 ≡ lookup j r
  Spawns-kept req r (spawned resp, r', w) h other = absurd (other resp refl)
  Spawns-kept req r (invalid_argument x, r', w) h other = h
  Spawns-kept req r (not_reserved x, r', w) h other = h
  Spawns-kept req r (network_failed x, r', w) h other = h
  Spawns-kept req r (disk_failed x, r', w) h other = h
  Spawns-kept req r (boot_failed x, r', w) h other = h

  -- A run gives back what it has taken of the registry.
  followed-Restores :
      (id : Str) (r : Registry) (w : W) (out : Registry × W)
      → StopSucceeds
      → Follows (spawn_vm host (request_of id 1 256) r w) out
      → (j : Str) → lookup j out.0 ≡ lookup j r
  followed-Restores id r w out stops (inl (other, ended)) j =
      ap (λ (x : Registry × W). lookup j x.0) ended
      ∙ Spawns-kept (request_of id 1 256) r (spawn_vm host (request_of id 1 256) r w)
          (spawn_vm-Spawns host (request_of id 1 256) r w) other j
  followed-Restores id r w out stops (inr (resp, replied, ended)) j =
      let (reply, r', w') = spawn_vm host (request_of id 1 256) r w in
      let e : spawn_vm host (request_of id 1 256) r w ≡ (spawned resp, r', w') =
        ap (λ x. (x, r', w')) replied in
      let (new, named, sub, free, (vm', here', made, addr, sock, tapped), others) =
        subst (Spawns host (request_of id 1 256) r) e
          (spawn_vm-Spawns host (request_of id 1 256) r w) in
      let (vm, here, torn, back) =
        spawn_vm-teardown_vm host (request_of id 1 256) r r' resp w w' w' e in
      let same : vm.machine ≡ vm'.machine = cc (here, here') in
      ap (λ (x : Registry × W). lookup j x.0) ended
      ∙ back
          (ap (λ (x : TeardownReply E × Registry × W). x.0) torn
            ∙ stopped-torn_down id vm r' (host.stop_vmm vm.machine w')
                (booted-stops stops vm.machine w' (λ nil. made (sym same ∙ nil))))
          j

  -- The orchestrator has served calls since `r` and `w`, and its registry holds what it held then.
  abbrev pub IsBack : Registry → W → Registry × W → Type 0
  IsBack r w out =
      ((calls : List Call) × (out ≡ serve host calls r w))
      × ((j : Str) → lookup j out.0 ≡ lookup j r)

  run-IsBack :
      (inputs : Inputs F) (id : Str) (table : Jobs F) (r : Registry) (w : W)
      (world : World host fleet)
      → StopSucceeds
      → IsBack r w world.0
      → IsBack r w (run_benchmark_sync f (connect host fleet) inputs id table world).1.0
  run-IsBack inputs id table r w ((r', w'), b) stops ((calls, e), same) =
      let follows = run_benchmark_sync-Follows inputs id table r' w' b in
      let (more, e') = followed-Calls id r' w' _ follows in
      (
        (
          calls ++ more,
          e'
              ∙ ap (λ (x : Registry × W). serve host more x.0 x.1) e
              ∙ sym (serve-append calls more r w),
        ),
        λ j. followed-Restores id r' w' _ stops follows j ∙ same j,
      )

  pub work-IsBack :
      (query : Jobs F → Option Str) (rounds : List (Inputs F)) (jobs : Jobs F) (r : Registry)
      (w : W) (world : World host fleet)
      → StopSucceeds
      → IsBack r w world.0
      → IsBack r w (work f (connect host fleet) query rounds jobs world).1.0
  unfolding work
  work-IsBack query [] jobs r w world stops back = back
  work-IsBack query (inputs ∷ rounds) jobs r w world stops back =
      let round = record inputs { picked = query jobs } in
      let (jobs', world') = process_next_job f (connect host fleet) round jobs world in
      work-IsBack query rounds jobs' r w world' stops (
        process_next_job_world f (connect host fleet) (λ x. IsBack r w x.0) round jobs world back
          (λ id table. run-IsBack round id table r w world stops back))
