-- ===== src/Quota/Limits.antt =====
-- What EnforceSandboxLimits writes, and the range of the values.
use hft_bench.Prelude.{
  ℕ, ◌*◌, length, ◌==◌, ◌||◌, ◌≤◌, ◌<◌, ◌≡◌, ◌≢◌, ◌⊎◌, inl, inr, refl, sym, ap, ◌∙◌, Bool, true,
  false, Option, some, [], ◌∷◌, ◌++◌, arith, ok, err, Result-cases, subst, Bool-cases, leb, leb→le,
}
use hft_bench.Prelude.Int.{ℤ, pos, negsuc, ◌≤ℤ◌, ◌<ℤ◌, to_int64}
use hft_bench.Prelude.Text.{Str, codes, is_empty, trim_space}
use hft_bench.Prelude.Digits.{decimal}
use hft_bench.Prelude.FilePath.{join_path, HasNoSlash, IsOrdinary}
use hft_bench.Quota.Paths.{join_path-differ}
use hft_bench.Quota.{
  SandboxLimits, QuotaError, cpu_failed, swap_failed, memory_failed, mkdir_failed, Cgroups, times,
  format_int, memory_limit_bytes, cpu_max_value, validate_sandbox_limits, cgroup_path, Outcome,
  cpu_written, swap_written, memory_written, made, enforce_sandbox_limits,
}

-- The limits that are accepted.
pub record IsAllowed (cfg : SandboxLimits) : Type 0 where
  pub named : is_empty (trim_space cfg.vm_id) ≡ false
  pub memory : pos 16 ≤ℤ cfg.memory_max_mib
  pub some_cpu : pos 0 <ℤ cfg.vcpu_count
  pub cpu_bound : cfg.vcpu_count ≤ℤ pos 64

validate-IsAllowed : (cfg : SandboxLimits) → validate_sandbox_limits cfg ≡ ok tt → IsAllowed cfg
unfolding validate_sandbox_limits
validate-IsAllowed cfg h = record {
  named = ground arith;
  memory = ground arith;
  some_cpu = ground arith;
  cpu_bound = ground arith;
}

-- Up to 2 ^ 43 MiB the limit in bytes is the product.
pub memory_limit_bytes_exact :
    (n : ℕ) → n < 0x80000000000 → memory_limit_bytes (pos n) ≡ pos (n * 1048576)
unfolding memory_limit_bytes times to_int64
memory_limit_bytes_exact n h = ground arith

-- From 2 ^ 43 MiB on, which the validation accepts, up to 2 ^ 44 the limit in bytes wraps around
-- to a negative number.
pub memory_limit_bytes_negative :
    (n : ℕ) → 0x80000000000 ≤ n → n < 0x100000000000 → memory_limit_bytes (pos n) <ℤ pos 0
unfolding memory_limit_bytes times to_int64
memory_limit_bytes_negative n h g = ground arith

-- The quota of an accepted number of CPUs is the product, 6,400,000 at most.
cpu_max_value_exact :
    (n : ℕ) → n ≤ 64 → cpu_max_value (pos n) ≡ decimal (n * 100000) ++ codes " 100000"
unfolding cpu_max_value times to_int64 format_int
cpu_max_value_exact n h = ground arith

nonneg_pos : (z : ℤ) → pos 0 ≤ℤ z → (n : ℕ) × (z ≡ pos n)
nonneg_pos (pos n) h = (n, refl)
nonneg_pos (negsuc n) h = absurd (omega (arith, h))

has_slash : Str → Bool
has_slash [] = false
has_slash (c ∷ s) = c == b'/' || has_slash s

has_slash-HasNoSlash : (s : Str) → has_slash s ≡ false → HasNoSlash s
unfolding has_slash
has_slash-HasNoSlash [] h = tt
has_slash-HasNoSlash (c ∷ s) h = ((λ e. ground arith), has_slash-HasNoSlash s (ground arith))

length-IsOrdinary : (s : Str) → 3 ≤ length s → IsOrdinary s
length-IsOrdinary s h = (
  (λ e. omega (arith, ap length e)),
  (λ e. omega (arith, ap length e)),
  (λ e. omega (arith, ap length e)),
)

-- A file that is written holds what was written, and no other file changes.
pub record IsStore {W : Type 0} (c : Cgroups W) (contents : Str → W → Option Str) : Type 0 where
  pub writes :
      (p v : Str) (w : W)
      → (c.write_file p v w).0 ≡ true
      → contents p (c.write_file p v w).1 ≡ some v
  pub others : (p q v : Str) (w : W) → q ≢ p → contents q (c.write_file p v w).1 ≡ contents q w

module _ {W : Type 0} (c : Cgroups W) (contents : Str → W → Option Str) (i : IsStore c contents)
    (cfg : SandboxLimits) where
  abbrev file : Str → Str
  file name = join_path (cgroup_path cfg.vm_id) name

  -- With a memory limit of `n` MiB and `m` CPUs the three files hold the numbers in decimal: the
  -- limit in bytes, unless it is 2 ^ 43 MiB or more, no swap, and 100 ms of CPU time for each CPU in
  -- a period of 100 ms.
  abbrev pub HoldsNumbers : W → Type 0
  HoldsNumbers w =
      (n : ℕ) × (m : ℕ) × (cfg.memory_max_mib ≡ pos n)
      × (cfg.vcpu_count ≡ pos m)
      × ((contents (join_path (cgroup_path cfg.vm_id) (codes "memory.max")) w
            ≡ some (decimal (n * 1048576)))
          ⊎ (0x80000000000 ≤ n))
      × (contents (join_path (cgroup_path cfg.vm_id) (codes "memory.swap.max")) w
          ≡ some (codes "0"))
      × (contents (join_path (cgroup_path cfg.vm_id) (codes "cpu.max")) w
          ≡ some (decimal (m * 100000) ++ codes " 100000"))

  -- The three files hold what the code computes.
  abbrev pub Holds : W → Type 0
  Holds w =
      (contents (join_path (cgroup_path cfg.vm_id) (codes "memory.max")) w
        ≡ some (format_int (memory_limit_bytes cfg.memory_max_mib)))
      × (contents (join_path (cgroup_path cfg.vm_id) (codes "memory.swap.max")) w
          ≡ some (codes "0"))
      × (contents (join_path (cgroup_path cfg.vm_id) (codes "cpu.max")) w
          ≡ some (cpu_max_value cfg.vcpu_count))

  -- Either the limits are allowed and in force, or the call failed; limits that are not allowed
  -- change nothing.
  abbrev pub Enforces : W → Outcome c → Type 0
  Enforces w out =
      (IsAllowed cfg × (out.0 ≡ ok tt) × HoldsNumbers out.1)
      ⊎ ((e : QuotaError) × (out.0 ≡ err e) × (IsAllowed cfg ⊎ (out.1 ≡ w)))

  Holds-HoldsNumbers : (w : W) → IsAllowed cfg → Holds w → HoldsNumbers w
  unfolding format_int
  Holds-HoldsNumbers w a (memory, swap, cpu) =
      let (n, e) = nonneg_pos cfg.memory_max_mib (omega (arith, a.memory)) in
      let (m, g) = nonneg_pos cfg.vcpu_count (omega (arith, a.some_cpu)) in
      let few : m ≤ 64 = omega (arith, subst (λ z. z ≤ℤ pos 64) g a.cpu_bound) in
      (
        n,
        m,
        e,
        g,
        elim (Bool-cases (leb 0x80000000000 n)) [
          | inl large ↦ inr (leb→le 0x80000000000 n large)
          | inr small ↦ inl (
              memory
              ∙ ap some (
                  ap (λ z. format_int (memory_limit_bytes z)) e
                  ∙ ap format_int (memory_limit_bytes_exact n (ground arith))))
        ],
        swap,
        cpu ∙ ap some (ap cpu_max_value g ∙ cpu_max_value_exact m few),
      )

  apart :
      (a b : Str)
      → has_slash a ≡ false
      → 3 ≤ length a
      → has_slash b ≡ false
      → 3 ≤ length b
      → length a ≢ length b
      → file a ≢ file b
  apart a b pa la pb lb ne =
      join_path-differ (cgroup_path cfg.vm_id) a b (has_slash-HasNoSlash a pa)
        (length-IsOrdinary a la) (has_slash-HasNoSlash b pb) (length-IsOrdinary b lb)
        (λ e. ne (ap length e))

  -- The three writes, one after the other.
  written :
      (w : W)
      → IsAllowed cfg
      → let w1 =
          (c.write_file
            (file (codes "memory.max"))
            (format_int (memory_limit_bytes cfg.memory_max_mib))
            w).1 in
        let w2 = (c.write_file (file (codes "memory.swap.max")) (codes "0") w1).1 in
        let last = c.write_file (file (codes "cpu.max")) (cpu_max_value cfg.vcpu_count) w2 in
        (c.write_file
            (file (codes "memory.max"))
            (format_int (memory_limit_bytes cfg.memory_max_mib))
            w).0
          ≡ true
        → (c.write_file (file (codes "memory.swap.max")) (codes "0") w1).0 ≡ true
        → last.0 ≡ true
        → Holds last.1
  unfolding has_slash
  written w a h1 h2 h3 =
      let w1 =
        (c.write_file (file (codes "memory.max"))
          (format_int (memory_limit_bytes cfg.memory_max_mib)) w).1 in
      let w2 = (c.write_file (file (codes "memory.swap.max")) (codes "0") w1).1 in
      let ms =
        apart (codes "memory.max") (codes "memory.swap.max") refl (omega arith) refl (omega arith)
          (λ e. omega (arith, e)) in
      let mc =
        apart (codes "memory.max") (codes "cpu.max") refl (omega arith) refl (omega arith)
          (λ e. omega (arith, e)) in
      let sc =
        apart (codes "memory.swap.max") (codes "cpu.max") refl (omega arith) refl (omega arith)
          (λ e. omega (arith, e)) in
      (
        i.others _ _ _ w2 mc ∙ i.others _ _ _ w1 ms ∙ i.writes _ _ w h1,
        i.others _ _ _ w2 sc ∙ i.writes _ _ w1 h2,
        i.writes _ _ w2 h3,
      )

  made-Enforces :
      (w : W) (a : IsAllowed cfg) → Enforces w (made c cfg (c.mkdir_all (cgroup_path cfg.vm_id) w))
  unfolding made memory_written swap_written cpu_written
  made-Enforces w a = dir (c.mkdir_all (cgroup_path cfg.vm_id) w)
    where
      cpu : (w1 w2 : W) (r : Bool × W) → (r.0 ≡ true → Holds r.1) → Enforces w (cpu_written c r)
      cpu w1 w2 (true, w3) h = inl (a, refl, Holds-HoldsNumbers w3 a (h refl))
      cpu w1 w2 (false, w3) h = inr (cpu_failed, refl, inl a)

      swap :
          (w1 : W) (r : Bool × W)
          → (r.0 ≡ true
              → (c.write_file (file (codes "cpu.max")) (cpu_max_value cfg.vcpu_count) r.1).0 ≡ true
              → Holds (c.write_file (file (codes "cpu.max")) (cpu_max_value cfg.vcpu_count) r.1).1)
          → Enforces w (swap_written c cfg r)
      swap w1 (true, w2) h =
          cpu w1 w2 (c.write_file (file (codes "cpu.max")) (cpu_max_value cfg.vcpu_count) w2)
            (h refl)
      swap w1 (false, w2) h = inr (swap_failed, refl, inl a)

      memory :
          (w0 : W) (r : Bool × W)
          → r
            ≡ c.write_file
                (file (codes "memory.max"))
                (format_int (memory_limit_bytes cfg.memory_max_mib))
                w0
          → Enforces w (memory_written c cfg r)
      memory w0 (true, w1) e =
          swap w1 (c.write_file (file (codes "memory.swap.max")) (codes "0") w1)
            (rw (ap (λ x. x.1) e) (written w0 a (sym (ap (λ x. x.0) e))))
      memory w0 (false, w1) e = inr (memory_failed, refl, inl a)

      dir : (r : Bool × W) → Enforces w (made c cfg r)
      dir (true, w0) =
          memory w0
            (c.write_file (file (codes "memory.max"))
              (format_int (memory_limit_bytes cfg.memory_max_mib)) w0)
            refl
      dir (false, w0) = inr (mkdir_failed, refl, inl a)

  -- EnforceSandboxLimits on every branch, over a file system whose successful writes are read back.
  -- It succeeds only with limits that are allowed, and then, of the machine's cgroup, cpu.max holds
  -- 100000 times the number of CPUs with the period 100000, memory.swap.max holds 0, and memory.max
  -- holds 1048576 times the number of MiB if that is below 2 ^ 43 (from there on the product
  -- overflows). Otherwise it answers an error, and if the limits are not allowed, nothing has been
  -- touched.
  pub enforce_sandbox_limits-Enforces : (w : W) → Enforces w (enforce_sandbox_limits c cfg w)
  unfolding enforce_sandbox_limits
  enforce_sandbox_limits-Enforces w = elim (Result-cases (validate_sandbox_limits cfg)) [
    | inl (u, h) ↦ rw (h, enforce_sandbox_limits) (made-Enforces w (validate-IsAllowed cfg h))
    | inr (e, h) ↦ rw (h, enforce_sandbox_limits) (inr (e, refl, inr refl))
  ]
