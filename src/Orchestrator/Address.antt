-- ===== src/Orchestrator/Address.antt =====
-- The addresses of a microVM: findFreeIPIndex (main.go), GenerateIPFromIndex (network.go), the
-- MAC address and the VSOCK context identifier (firecracker.go, main.go).
-- `net.ParseIP` is modelled on texts with a dot and no colon, the only ones that it is given.
pub mod Printing
pub mod Free
use hft_bench.Prelude.{
  ℕ, zero, suc, ◌+◌, ◌-◌, ◌^◌, ◌%◌, Bool, true, false, not, ◌&&◌, ◌||◌, Option, none, some, List,
  [], ◌∷◌, ◌++◌, ◌==◌, leb, ltb, if◌then◌else◌, length, Result, ok, err,
}
use hft_bench.Prelude.Int.{ℤ, pos, negsuc, pos_part, neg_part, leb_ℤ, ltb_ℤ, eq_ℤ}
use hft_bench.Prelude.Text.{Str, codes, is_empty, is_space, after_prefix}
use hft_bench.Prelude.Digits.{decimal, print_in, read_number}

pub data AddressError : Type 0 where
  index_not_positive index_exceeds_subnet invalid_ip : AddressError

-- The text before the last octet, in `fmt.Sprintf` and in `fmt.Sscanf`.
abbrev pub subnet_prefix : Str
subnet_prefix = codes "172.16.0."

-- `fmt.Sprintf("172.16.0.%d", index)` of an index that is not negative
unfoldable pub ip_text : ℕ → Str
ip_text index = subnet_prefix ++ decimal index

-- `strings.Split(s, sep)` at a separator of one character
unfoldable pub split : ℕ → Str → List Str
split sep [] = [] ∷ []
split sep (c ∷ s) = elim (split sep s) [
  | [] ↦ [] ∷ []
  | field ∷ fields ↦ if c == sep then [] ∷ field ∷ fields else (c ∷ field) ∷ fields
]

-- One part of a dotted address: a number up to 255 with no leading zero.
octet : Str → Option ℕ
octet s = elim (read_number 10 s) [
  | none ↦ none
  | some (n, rest) ↦ if is_empty rest && leb n 255 && canonical s then some n else none
]
  where
    canonical : Str → Bool
    canonical [] = false
    canonical (c ∷ s) = is_empty s || not (c == 48)

-- `net.ParseIP` on a text with dots
unfoldable pub parse_ip : Str → Option (List ℕ)
unfolding split octet
parse_ip s = octets (split b'.' s)
  where
    four : Option ℕ → Option ℕ → Option ℕ → Option ℕ → Option (List ℕ)
    four (some a) (some b) (some c) (some d) = some (a ∷ b ∷ c ∷ d ∷ [])
    four _ _ _ _ = none

    octets : List Str → Option (List ℕ)
    octets (a ∷ b ∷ c ∷ d ∷ []) = four (octet a) (octet b) (octet c) (octet d)
    octets _ = none

-- GenerateIPFromIndex
unfoldable pub generate_ip_from_index : ℤ → Result AddressError Str
generate_ip_from_index index =
    if leb_ℤ index (pos 0)
    then err index_not_positive
    else if ltb_ℤ (pos 254) index
    then err index_exceeds_subnet
    else elim (parse_ip (ip_text (pos_part index))) [
      | none ↦ err invalid_ip
      | some _ ↦ ok (ip_text (pos_part index))
    ]

-- What `%d` of `fmt.Sscanf` takes from the front of a text: blanks, a sign, digits, as an `int`.
unfoldable pub signed : Bool → Option (ℕ × Str) → Option ℤ
signed negative none = none
signed false (some (n, rest)) = if ltb n (2 ^ 63) then some (pos n) else none
signed true (some (zero, rest)) = some (pos 0)
signed true (some (suc n, rest)) = if ltb n (2 ^ 63) then some (negsuc n) else none

unfoldable pub scan_int : Str → Option ℤ
unfolding signed
scan_int [] = none
scan_int (c ∷ s) =
    if is_space c && not (c == 10)
    then scan_int s
    else if c == b'-'
    then signed true (read_number 10 s)
    else if c == b'+'
    then signed false (read_number 10 s)
    else signed false (read_number 10 (c ∷ s))

-- `fmt.Sscanf(address, "172.16.0.%d", &idx)`
unfoldable pub scan_ip : Str → Option ℤ
scan_ip s = elim (after_prefix subnet_prefix s) [ none ↦ none | some rest ↦ scan_int rest ]

-- The map `used`, from the addresses of the registered VMs. An empty address is passed over.
unfoldable pub used_indices : List Str → List ℤ
used_indices [] = []
used_indices (ip ∷ ips) = elim (scan_ip ip) [
  | none ↦ used_indices ips
  | some index ↦ if is_empty ip then used_indices ips else index ∷ used_indices ips
]

-- `used[i]`
unfoldable pub contains : ℤ → List ℤ → Bool
contains i [] = false
contains i (j ∷ u) = eq_ℤ i j || contains i u

-- `for i := …`: the rounds left, the index, and `used`
unfoldable pub first_free : ℕ → ℕ → List ℤ → Option ℕ
first_free zero i used = none
first_free (suc rounds) i used =
    if contains (pos i) used then first_free rounds (suc i) used else some i

-- findFreeIPIndex, on the addresses of the registry: indices 2 to 254
unfoldable pub find_free_ip_index : List Str → Option ℕ
find_free_ip_index ips = first_free 253 2 (used_indices ips)

-- strconv.Atoi: the whole text is a number with an optional sign.
whole : Option (ℕ × Str) → Option (ℕ × Str)
whole none = none
whole (some (n, rest)) = if is_empty rest then some (n, []) else none

unfoldable pub atoi : Str → Option ℤ
unfolding whole signed
atoi [] = none
atoi (c ∷ s) =
    if c == b'-'
    then signed true (whole (read_number 10 s))
    else if c == b'+'
    then signed false (whole (read_number 10 s))
    else signed false (whole (read_number 10 (c ∷ s)))

-- mustParseInt
unfoldable pub must_parse_int : Str → ℤ
must_parse_int s = elim (atoi s) [ some n ↦ n | none ↦ pos 2 ]

-- `%02x` of an `int` that is not negative
unfoldable pub hex_octet : ℕ → Str
hex_octet n = if ltb n 16 then 48 ∷ print_in 16 n else print_in 16 n

-- `dynamicMac` of CreateAndBootVM. An octet is never negative: `strings.Split` at a dot leaves
-- a sign in it only if the address holds one, which the registry's addresses do not.
unfoldable pub dynamic_mac : Str → Str
dynamic_mac ip = codes "AA:FC:00:00:00:" ++ last_octet (split b'.' ip)
  where
    last_octet : List Str → Str
    last_octet (a ∷ b ∷ c ∷ d ∷ []) = hex_octet (pos_part (must_parse_int d))
    last_octet _ = codes "02"

-- `CID: uint32(ipIndex + 10)`
unfoldable pub vsock_cid : ℕ → ℕ
vsock_cid index = (index + 10) % 2 ^ 32
