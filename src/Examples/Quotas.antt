-- ===== src/Examples/Quotas.antt =====
-- A cgroup file system in memory, on which every call succeeds.
use hft_bench.Prelude.{true, []}
use hft_bench.Prelude.Int.{pos}
use hft_bench.Prelude.Text.{Str, codes}
use hft_bench.Prelude.Dict.{Dict, lookup, insert, delete, lookup-insert_self, lookup-insert_ne}
use hft_bench.Quota.{SandboxLimits, Cgroups, exists, enforce_sandbox_limits}
use hft_bench.Quota.Limits.{IsStore, Enforces, enforce_sandbox_limits-Enforces}

abbrev files : Cgroups (Dict Str)
files = record {
  mkdir_all = λ p w. (true, w);
  write_file = λ p v w. (true, insert p v w);
  stat = λ p w. exists;
  remove = λ p w. (true, delete p w);
}

files-IsStore : IsStore files lookup
files-IsStore = record {
  writes = λ p v w h. lookup-insert_self p v w;
  others = λ p q v w ne. lookup-insert_ne q p v w ne;
}

abbrev limits : SandboxLimits
limits = record { vm_id = codes "a"; memory_max_mib = pos 256; vcpu_count = pos 1 }

enforce_sandbox_limits-Enforces_example :
    Enforces files lookup files-IsStore limits [] (enforce_sandbox_limits files limits [])
enforce_sandbox_limits-Enforces_example =
    enforce_sandbox_limits-Enforces files lookup files-IsStore limits []
