-- ===== src/Orchestrator/Address/Printing.antt =====
-- Addresses as text: generated ones are valid, are read back, and give distinct MAC addresses.
use hft_bench.Prelude.{
  if◌then◌else◌, ℕ, zero, suc, ◌≤◌, ◌<◌, ◌≡◌, ◌≢◌, refl, ap, Bool, true, false, none, some, [], ◌∷◌,
  ◌==◌, arith, ok,
}
use hft_bench.Prelude.Int.{pos}
use hft_bench.Prelude.Text.{Str, after_prefix-append, is_space}
use hft_bench.Prelude.Digits.{
  digit, decimal, print_in, digits_from, digit_value, read_number, read_digits,
  read_number-print_in, print_in-head,
}
use hft_bench.Orchestrator.Address.{
  ip_text, split, parse_ip, generate_ip_from_index, scan_int, scan_ip, signed, subnet_prefix,
  dynamic_mac, hex_octet, must_parse_int, atoi, whole, vsock_cid,
}

-- Whether a test holds of every index under a limit, which a small limit lets evaluation decide.
passes_under : (ℕ → Bool) → ℕ → Bool
passes_under test zero = true
passes_under test (suc limit) = if test limit then passes_under test limit else false

passed :
    (test : ℕ → Bool) (limit i : ℕ) → i < limit → passes_under test limit ≡ true → test i ≡ true
unfolding passes_under
passed test zero i small all = absurd (omega arith)
passed test (suc limit) i small all = ground (arith, passed test limit i)

-- A number that follows the prefix is read back, whatever its size below 2 ^ 63.
scan_int-decimal : (n : ℕ) → n < 0x8000000000000000 → scan_int (decimal n) ≡ some (pos n)
unfolding scan_int print_in digit is_space
scan_int-decimal n h =
    let (d, s, lt, e) = print_in-head 10 (omega arith) (omega arith) (suc n) n [] (omega arith) in
    ground (arith, e, read_number-print_in 10 (omega arith) (omega arith) n)

pub scan_ip-ip_text : (n : ℕ) → n < 0x8000000000000000 → scan_ip (ip_text n) ≡ some (pos n)
unfolding scan_ip ip_text
scan_ip-ip_text n h =
    rw (after_prefix-append subnet_prefix (decimal n), scan_ip) (scan_int-decimal n h)

abbrev valid : ℕ → Bool
valid i = elim (parse_ip (ip_text i)) [ some parts ↦ true | none ↦ false ]

valid_table : passes_under valid 255 ≡ true
unfolding passes_under parse_ip ip_text print_in digits_from digit read_number read_digits
    digit_value
valid_table = refl

pub generate_lem : (i : ℕ) → 1 ≤ i → i ≤ 254 → generate_ip_from_index (pos i) ≡ ok (ip_text i)
unfolding generate_ip_from_index
generate_lem i lo hi = ground (arith, passed valid 255 i (omega arith) valid_table)

-- The index that an address text stands for is determined by it.
pub ip_text_inj : (i j : ℕ) → i ≤ 254 → j ≤ 254 → ip_text i ≡ ip_text j → i ≡ j
ip_text_inj i j hi hj e =
    ground (arith, scan_ip-ip_text i (omega arith), scan_ip-ip_text j (omega arith), ap scan_ip e)

-- The number that the last part of a MAC address spells.
abbrev mac_index : Str → ℕ
mac_index (a ∷ b ∷ c ∷ d ∷ e ∷ f ∷ g ∷ h ∷ i ∷ j ∷ k ∷ l ∷ m ∷ n ∷ o ∷ rest) =
    elim (read_number 16 rest) [ some (v, t) ↦ v | none ↦ 0 ]
mac_index _ = 0

abbrev reads_back : ℕ → Bool
reads_back i = mac_index (dynamic_mac (ip_text i)) == i

mac_table : passes_under reads_back 255 ≡ true
unfolding passes_under dynamic_mac split must_parse_int atoi whole signed hex_octet ip_text print_in
    digits_from digit read_number read_digits digit_value
mac_table = refl

mac_index-dynamic_mac : (i : ℕ) → i ≤ 254 → mac_index (dynamic_mac (ip_text i)) ≡ i
mac_index-dynamic_mac i h = ground (arith, passed reads_back 255 i (omega arith) mac_table)

pub dynamic_mac_inj :
    (i j : ℕ) → i ≤ 254 → j ≤ 254 → dynamic_mac (ip_text i) ≡ dynamic_mac (ip_text j) → i ≡ j
dynamic_mac_inj i j hi hj e =
    omega (arith, mac_index-dynamic_mac i hi, mac_index-dynamic_mac j hj, ap mac_index e)

pub vsock_cid_inj : (i j : ℕ) → i ≤ 254 → j ≤ 254 → vsock_cid i ≡ vsock_cid j → i ≡ j
unfolding vsock_cid
vsock_cid_inj i j hi hj e = omega arith

-- Machines with different indices up to 254 have different IP addresses, MAC addresses and VSOCK
-- context identifiers, and no identifier is one of the three that VSOCK reserves (0 to 2).
pub identities_differ :
    (i j : ℕ)
    → i ≤ 254
    → j ≤ 254
    → i ≢ j
    → (ip_text i ≢ ip_text j)
      × (dynamic_mac (ip_text i) ≢ dynamic_mac (ip_text j))
      × (vsock_cid i ≢ vsock_cid j)
      × (3 ≤ vsock_cid i)
unfolding vsock_cid
identities_differ i j hi hj ne = (
  λ e. ne (ip_text_inj i j hi hj e),
  λ e. ne (dynamic_mac_inj i j hi hj e),
  λ e. ne (vsock_cid_inj i j hi hj e),
  omega arith,
)
