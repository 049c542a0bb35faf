-- ===== src/Orchestrator/Hardening/RoundRobin.antt =====
-- The cores of FC_VCPU_CORES are given out in turn.
use hft_bench.Prelude.{
  ℕ, zero, suc, ◌+◌, ◌%◌, ◌^◌, ◌<◌, ◌≡◌, ◌≢◌, ◌⊎◌, refl, ◌∙◌, Bool, true, false, Option, none, some,
  ◌++◌, Result, err, List, [], ◌∷◌, arith, length, Bool-cases, inl, inr,
}
use hft_bench.Prelude.Int.{ℤ, pos, negsuc}
use hft_bench.Prelude.Digits.{decimal}
use hft_bench.Prelude.Text.{Str, codes, trim_space}
use hft_bench.Orchestrator.Hardening.{
  Processes, PinError, taskset_not_found, pid_failed, invalid_pid, taskset_failed, split_comma,
  entry, advance, pin_threads, threads_of, pin_process, pin_pid, pin_to, pin_firecracker_process,
  attach_process, cgroup_dir, limit_memory, limit_cpu, limit_pid, apply_cgroup_limits, harden,
}
use hft_bench.Orchestrator.Hardening.Cores.{split_comma-nonempty, mod-ne, pick_cores-entry}

module _ {W : Type 0} (host : Processes W) where
  harden-index :
      (c : ℕ) (cores : Str) (machine : ℕ) (vm_id : Str) (w : W) (i : ℕ)
      → (harden host (c ∷ cores) machine vm_id (w, i)).1 ≡ advance i
  unfolding harden pin_firecracker_process
  harden-index c cores machine vm_id w i = refl

  -- What `taskset -pc` does to the affinity of a process or thread, which the other calls do not
  -- change.
  pub record IsScheduler (affinity : Str → W → Option Str) : Type 0 where
    pub pins :
        (cores t : Str) (w : W)
        → (host.taskset cores t w).0 ≡ true
        → affinity t (host.taskset cores t w).1 ≡ some cores
    pub others :
        (cores t u : Str) (w : W)
        → (affinity u (host.taskset cores t w).1 ≡ affinity u w)
          ⊎ (affinity u (host.taskset cores t w).1 ≡ some cores)
    pub mkdir_all : (d u : Str) (w : W) → affinity u (host.mkdir_all d w).1 ≡ affinity u w
    pub write_file : (p v u : Str) (w : W) → affinity u (host.write_file p v w).1 ≡ affinity u w

  module _ (affinity : Str → W → Option Str) (s : IsScheduler affinity) where
    -- From `w` to `w'` the affinity of `u` is kept or becomes `cores`.
    abbrev Moves : Str → Str → W → W → Type 0
    Moves cores u w w' = (affinity u w' ≡ affinity u w) ⊎ (affinity u w' ≡ some cores)

    Moves-Moves :
        (cores u : Str) (w w1 w2 : W)
        → Moves cores u w w1
        → Moves cores u w1 w2
        → Moves cores u w w2
    Moves-Moves cores u w w1 w2 m (inr e) = inr e
    Moves-Moves cores u w w1 w2 (inl d) (inl e) = inl (e ∙ d)
    Moves-Moves cores u w w1 w2 (inr d) (inl e) = inr (e ∙ d)

    pin_threads-Moves :
        (cores u : Str) (tids : List Str) (w : W) → Moves cores u w (pin_threads host cores tids w)
    unfolding pin_threads
    pin_threads-Moves cores u [] w = inl refl
    pin_threads-Moves cores u (tid ∷ tids) w =
        Moves-Moves cores u w (host.taskset cores tid w).1 _ (s.others cores tid u w)
          (pin_threads-Moves cores u tids (host.taskset cores tid w).1)

    threads_of-Moves :
        (cores u : Str) (tids : Option (List Str)) (w : W)
        → Moves cores u w (threads_of host cores tids w)
    unfolding threads_of
    threads_of-Moves cores u none w = inl refl
    threads_of-Moves cores u (some tids) w = pin_threads-Moves cores u tids w

    -- The process `o` is pinned to `cores`, or there is an error; no affinity becomes another one.
    abbrev Pins : Str → Option ℤ → W → Result PinError (Unit {0}) × W → Type 0
    Pins cores o w out =
        ((u : Str) → Moves cores u w out.1)
        × (((e : PinError) × (out.0 ≡ err e))
            ⊎ ((id : ℕ) × (o ≡ some (pos id)) × (affinity (decimal id) out.1 ≡ some cores)))

    pin_process-Pins :
        (cores : Str) (id : ℕ) (w : W) → Pins cores (some (pos id)) w (pin_process host cores id w)
    unfolding pin_process
    pin_process-Pins cores id w = elim (Bool-cases (host.taskset cores (decimal id) w).0) [
      | inr e ↦ rw e ((λ u. s.others cores (decimal id) u w), inl (taskset_failed, refl))
      | inl e ↦
          let w' = (host.taskset cores (decimal id) w).1 in
          let tids = host.read_dir (codes "/proc/" ++ decimal id ++ codes "/task") w' in
          let pinned = s.pins cores (decimal id) w e in
          rw e (
            (λ u.
                Moves-Moves cores u w w' _ (s.others cores (decimal id) u w)
                  (threads_of-Moves cores u tids w')),
            inr (
              id,
              refl,
              elim (threads_of-Moves cores (decimal id) tids w') [
                | inl kept ↦ kept ∙ pinned
                | inr now ↦ now
              ],
            ),
          )
    ]

    pin_pid-Pins : (cores : Str) (o : Option ℤ) (w : W) → Pins cores o w (pin_pid host cores o w)
    unfolding pin_pid
    pin_pid-Pins cores none w = ((λ u. inl refl), inl (pid_failed, refl))
    pin_pid-Pins cores (some (pos zero)) w = ((λ u. inl refl), inl (invalid_pid, refl))
    pin_pid-Pins cores (some (pos (suc id))) w = pin_process-Pins cores (suc id) w
    pin_pid-Pins cores (some (negsuc id)) w = ((λ u. inl refl), inl (invalid_pid, refl))

    pin_to-Pins :
        (cores : Str) (machine : ℕ) (w : W)
        → Pins cores (host.pid machine w) w (pin_to host (some cores) machine w)
    unfolding pin_to
    pin_to-Pins cores machine w = elim (Bool-cases (host.has_taskset w)) [
      | inl e ↦ rw e (pin_pid-Pins cores (host.pid machine w) w)
      | inr e ↦ rw e ((λ u. inl refl), inl (taskset_not_found, refl))
    ]

    apply_cgroup_limits-affinity :
        (u : Str) (machine : ℕ) (vm_id : Str) (w : W)
        → affinity u (apply_cgroup_limits host machine vm_id w).1 ≡ affinity u w
    unfolding apply_cgroup_limits limit_pid limit_cpu limit_memory attach_process
    apply_cgroup_limits-affinity u machine vm_id w = by_pid (host.pid machine w)
      where
        attached :
            (dir : Str) (id : ℕ) (r : Bool × W)
            → affinity u (attach_process host dir id r).1 ≡ affinity u r.1
        attached dir id (false, w1) = refl
        attached dir id (true, w1) = s.write_file _ _ u w1

        memory :
            (dir : Str) (id : ℕ) (r : Bool × W)
            → affinity u (limit_memory host dir id r).1 ≡ affinity u r.1
        memory dir id (false, w1) = refl
        memory dir id (true, w1) =
            attached dir id (host.write_file (dir ++ codes "/memory.max") (codes "268435456") w1)
            ∙ s.write_file _ _ u w1

        cpu :
            (dir : Str) (id : ℕ) (r : Bool × W)
            → affinity u (limit_cpu host dir id r).1 ≡ affinity u r.1
        cpu dir id (false, w1) = refl
        cpu dir id (true, w1) =
            memory dir id (host.write_file (dir ++ codes "/cpu.max") (codes "100000 100000") w1)
            ∙ s.write_file _ _ u w1

        by_pid : (o : Option ℤ) → affinity u (limit_pid host vm_id o w).1 ≡ affinity u w
        by_pid none = refl
        by_pid (some (pos zero)) = refl
        by_pid (some (negsuc id)) = refl
        by_pid (some (pos (suc id))) =
            cpu (cgroup_dir host vm_id) (suc id) (host.mkdir_all (cgroup_dir host vm_id) w)
            ∙ s.mkdir_all _ u w

    -- What the hardening of a machine does with the entry of the list at a position: the affinity of
    -- its process is the entry, trimmed, or the pinning has answered an error; and no process or
    -- thread is given another affinity than this.
    abbrev pub Gives : Str → ℕ → ℕ → Str → W → ℕ → Type 0
    Gives cores position machine vm_id w i =
        let after = (harden host cores machine vm_id (w, i)).0 in
        (part : Str) × (entry (split_comma cores) position ≡ some part)
        × ((u : Str)
            → (affinity u after ≡ affinity u w) ⊎ (affinity u after ≡ some (trim_space part)))
        × (((e : PinError) × ((pin_firecracker_process host cores machine (w, i)).0 ≡ err e))
            ⊎ ((id : ℕ) × (host.pid machine w ≡ some (pos id))
                × (affinity (decimal id) after ≡ some (trim_space part))))

    harden-at :
        (c : ℕ) (rest : Str) (i machine : ℕ) (vm_id : Str) (w : W)
        → i < 2 ^ 32
        → length (split_comma (c ∷ rest)) < 2 ^ 32
        → Gives (c ∷ rest) (i % length (split_comma (c ∷ rest))) machine vm_id w i
    unfolding harden pin_firecracker_process
    harden-at c rest i machine vm_id w small few =
        let (part, found, picked) = pick_cores-entry (c ∷ rest) i small few in
        let (moves, result) = pin_to-Pins (trim_space part) machine w in
        let mid = (pin_to host (some (trim_space part)) machine w).1 in
        (
          part,
          found,
          rw picked (λ u. elim (moves u) [
            | inl kept ↦ inl (apply_cgroup_limits-affinity u machine vm_id mid ∙ kept)
            | inr now ↦ inr (apply_cgroup_limits-affinity u machine vm_id mid ∙ now)
          ]),
          rw picked (elim result [
            | inl failed ↦ inl failed
            | inr (id, e, now) ↦
                inr (id, e, apply_cgroup_limits-affinity (decimal id) machine vm_id mid ∙ now)
          ]),
        )

    -- With FC_VCPU_CORES set to a list of fewer than 2 ^ 32 entries, hardening a machine moves
    -- vmCoreIndex on by one, and either the pinning answers an error or the affinity of the
    -- machine's process is a single entry of the list, trimmed, and no process or thread is given
    -- another. Two machines whose indices are fewer apart than the list has entries are given the
    -- entries at different positions, as long as the index does not wrap around. taskset sets the
    -- affinity of the process or thread that it is given, and of no other.
    pub harden-Gives :
        (c : ℕ) (rest : Str) (i j m n : ℕ) (vm_id other_id : Str) (w v : W)
        → i < j
        → j < i + length (split_comma (c ∷ rest))
        → j + 1 < 2 ^ 32
        → length (split_comma (c ∷ rest)) < 2 ^ 32
        → ((harden host (c ∷ rest) m vm_id (w, i)).1 ≡ i + 1)
          × ((p : ℕ) × (q : ℕ) × Gives (c ∷ rest) p m vm_id w i
              × Gives (c ∷ rest) q n other_id v j
              × (p ≢ q))
    harden-Gives c rest i j m n vm_id other_id w v lt near small few =
        let l = length (split_comma (c ∷ rest)) in
        (
          harden-index c rest m vm_id w i ∙ omega (arith, lt, small),
          (
            i % l,
            j % l,
            harden-at c rest i m vm_id w (omega (arith, lt, small)) few,
            harden-at c rest j n other_id v (omega (arith, small)) few,
            mod-ne l i j (split_comma-nonempty (c ∷ rest)) lt near,
          ),
        )
