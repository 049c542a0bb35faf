-- ===== src/Orchestrator/LatencyRecord.antt =====
-- LatencyRecord of services/sandbox-orchestrator/ebpf_consumer.go, which is laid over the bytes that
-- the eBPF program writes, on a little-endian machine.
use hft_bench.Prelude.{ℕ, suc, zero, ◌+◌, ◌*◌, ◌/◌, ◌%◌, ◌^◌, ◌<◌, ◌≡◌, List, [], ◌∷◌, ◌++◌, arith}

pub record LatencyRecord : Type 0 where
  pub egress_ts_ns : ℕ
  pub latency_ns : ℕ
  pub src_ip : ℕ
  pub dst_ip : ℕ
  pub src_port : ℕ
  pub dst_port : ℕ
  pub seq : ℕ

-- unsafe.Sizeof(LatencyRecord{})
abbrev pub record_size : ℕ
record_size = 32

-- The unsigned integer of the first bytes, the lowest one first.
unfoldable pub read_le : ℕ → List ℕ → ℕ
read_le zero bytes = 0
read_le (suc width) [] = 0
read_le (suc width) (b ∷ bytes) = b + 256 * read_le width bytes

abbrev from : ℕ → List ℕ → List ℕ
from zero bytes = bytes
from (suc n) [] = []
from (suc n) (b ∷ bytes) = from n bytes

-- `(*LatencyRecord)(unsafe.Pointer(&raw.RawSample[0]))`
unfoldable pub decode : List ℕ → LatencyRecord
decode raw = record {
  egress_ts_ns = read_le 8 raw;
  latency_ns = read_le 8 (from 8 raw);
  src_ip = read_le 4 (from 16 raw);
  dst_ip = read_le 4 (from 20 raw);
  src_port = read_le 2 (from 24 raw);
  dst_port = read_le 2 (from 26 raw);
  seq = read_le 4 (from 28 raw);
}

-- The bytes of an unsigned integer.
unfoldable pub write_le : ℕ → ℕ → List ℕ
write_le zero n = []
write_le (suc width) n = n % 256 ∷ write_le width (n / 256)

-- `struct latency_event` of tc_latency.c: __u64 egress_ts_ns, latency_ns; __u32 src_ip, dst_ip;
-- __u16 src_port, dst_port; __u32 seq.
unfoldable pub latency_event : LatencyRecord → List ℕ
latency_event r =
    write_le 8 r.egress_ts_ns
    ++ write_le 8 r.latency_ns
    ++ write_le 4 r.src_ip
    ++ write_le 4 r.dst_ip
    ++ write_le 2 r.src_port
    ++ write_le 2 r.dst_port
    ++ write_le 4 r.seq

read_le-write_le :
    (width n : ℕ) (rest : List ℕ) → n < 256 ^ width → read_le width (write_le width n ++ rest) ≡ n
unfolding read_le write_le
read_le-write_le zero n rest h = omega arith
read_le-write_le (suc width) n rest h =
    omega (arith, read_le-write_le width (n / 256) rest (omega arith))

-- The fields fit their C types.
abbrev pub IsSized : LatencyRecord → Type 0
IsSized r =
    (r.egress_ts_ns < 2 ^ 64)
    × (r.latency_ns < 2 ^ 64)
    × (r.src_ip < 2 ^ 32)
    × (r.dst_ip < 2 ^ 32)
    × (r.src_port < 2 ^ 16)
    × (r.dst_port < 2 ^ 16)
    × (r.seq < 2 ^ 32)

-- The consumer reads from the bytes of an event, whatever follows them, the fields that the eBPF
-- program wrote.
pub decode-latency_event :
    (r : LatencyRecord) (rest : List ℕ) → IsSized r → decode (latency_event r ++ rest) ≡ r
unfolding decode latency_event write_le
decode-latency_event r rest (a, b, c, d, e, f, g) =
    let after_seq = rest in
    let after_dst_port = write_le 4 r.seq ++ rest in
    let after_src_port = write_le 2 r.dst_port ++ after_dst_port in
    let after_dst_ip = write_le 2 r.src_port ++ after_src_port in
    let after_src_ip = write_le 4 r.dst_ip ++ after_dst_ip in
    let after_latency = write_le 4 r.src_ip ++ after_src_ip in
    let after_egress = write_le 8 r.latency_ns ++ after_latency in
    λ i. record {
      egress_ts_ns = read_le-write_le 8 r.egress_ts_ns after_egress (omega (arith, a)) i;
      latency_ns = read_le-write_le 8 r.latency_ns after_latency (omega (arith, b)) i;
      src_ip = read_le-write_le 4 r.src_ip after_src_ip (omega (arith, c)) i;
      dst_ip = read_le-write_le 4 r.dst_ip after_dst_ip (omega (arith, d)) i;
      src_port = read_le-write_le 2 r.src_port after_src_port (omega (arith, e)) i;
      dst_port = read_le-write_le 2 r.dst_port after_dst_port (omega (arith, f)) i;
      seq = read_le-write_le 4 r.seq after_seq (omega (arith, g)) i;
    }
