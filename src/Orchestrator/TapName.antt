-- ===== src/Orchestrator/TapName.antt =====
-- tapNameForVM (main.go): the network interface name of a machine, from the FNV-1a hash of its id.
use hft_bench.Prelude.{
  ℕ, zero, suc, ◌+◌, ◌-◌, ◌*◌, ◌/◌, ◌%◌, ◌^◌, ◌≤◌, ◌<◌, ◌≡◌, List, [], ◌∷◌, ◌++◌, arith, ltb,
  if◌then◌else◌, length,
}
use hft_bench.Prelude.Text.{Str, codes}
use hft_bench.Prelude.Digits.{print_in, length-digits_from}
use Prim.Native.Nat.{bit_xor}

-- The bytes of a code point in UTF-8.
unfoldable pub utf8 : ℕ → List ℕ
utf8 c =
    if ltb c 0x80
    then c ∷ []
    else if ltb c 0x800
    then (0xc0 + c / 64) ∷ (0x80 + c % 64) ∷ []
    else if ltb c 0x10000
    then (0xe0 + c / 4096) ∷ (0x80 + c / 64 % 64) ∷ (0x80 + c % 64) ∷ []
    else (0xf0 + c / 262144) ∷ (0x80 + c / 4096 % 64) ∷ (0x80 + c / 64 % 64) ∷ (0x80 + c % 64) ∷ []

-- `[]byte(s)`
unfoldable pub bytes : Str → List ℕ
bytes [] = []
bytes (c ∷ s) = utf8 c ++ bytes s

-- `fnv.New32a`: each byte is xored into the hash, which is then multiplied by the prime, on 32 bits.
unfoldable pub fnv32a_from : ℕ → List ℕ → ℕ
fnv32a_from h [] = h
fnv32a_from h (b ∷ s) = fnv32a_from (bit_xor h b * 16777619 % 2 ^ 32) s

unfoldable pub fnv32a : List ℕ → ℕ
fnv32a s = fnv32a_from 2166136261 s

-- `%08x`
unfoldable pub pad_zeros : ℕ → Str → Str
pad_zeros zero s = s
pad_zeros (suc n) s = b'0' ∷ pad_zeros n s

unfoldable pub hex8 : ℕ → Str
hex8 n = pad_zeros (8 - length (print_in 16 n)) (print_in 16 n)

-- tapNameForVM
unfoldable pub tap_name_for_vm : Str → Str
tap_name_for_vm vm_id = codes "tap" ++ hex8 (fnv32a (bytes vm_id))

fnv32a_from-lt : (h : ℕ) (s : List ℕ) → h < 4294967296 → fnv32a_from h s < 4294967296
unfolding fnv32a_from
fnv32a_from-lt h [] lt = lt
fnv32a_from-lt h (b ∷ s) lt = fnv32a_from-lt (bit_xor h b * 16777619 % 2 ^ 32) s (omega arith)

length-pad_zeros : (n : ℕ) (s : Str) → length (pad_zeros n s) ≡ n + length s
unfolding pad_zeros
length-pad_zeros zero s = omega arith
length-pad_zeros (suc n) s = omega (arith, length-pad_zeros n s)

length-hex8 : (n : ℕ) → n < 4294967296 → length (hex8 n) ≡ 8
unfolding hex8 print_in
length-hex8 n h = omega (
  arith,
  length-pad_zeros (8 - length (print_in 16 n)) (print_in 16 n),
  length-digits_from 16 7 (suc n) n [] (omega arith) h,
)

-- Whatever the id, the interface name has 11 characters, and so fits the 15 that Linux allows.
pub length-tap_name_for_vm :
    (vm_id : Str) → (length (tap_name_for_vm vm_id) ≡ 11) × (length (tap_name_for_vm vm_id) ≤ 15)
unfolding tap_name_for_vm fnv32a
length-tap_name_for_vm vm_id =
    let e =
      length-hex8 (fnv32a (bytes vm_id)) (fnv32a_from-lt 2166136261 (bytes vm_id) (omega arith)) in
    (omega (arith, e), omega (arith, e))
