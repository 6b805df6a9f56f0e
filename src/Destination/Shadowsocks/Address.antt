-- ===== src/Destination/Shadowsocks/Address.antt =====
-- `parseShadowsocksAddress` of client/destination/shadowsocks.go, and Go's `net.IP.String`.
use gforward.Prelude.{
  ℕ, suc, ◌+◌, ◌-◌, ◌*◌, ◌/◌, ◌%◌, Bool, ◌&&◌, List, [], ◌∷◌, ◌++◌, length, take, drop, get_or, ltb,
  ◌==◌, if◌then◌else◌, be_u16,
}
use gforward.Protocol.Decimal.{itoa}

abbrev hex_char : ℕ → ℕ
hex_char d = if ltb d 10 then b'0' + d else b'a' + (d - 10)

-- A group of 16 bits in hexadecimal, without zeros in front.
unfoldable pub hex_group : ℕ → List ℕ
hex_group n =
    let last = hex_char (n % 16) ∷ [] in
    let second = hex_char (n / 16 % 16) ∷ last in
    let third = hex_char (n / 256 % 16) ∷ second in
    if ltb n 16
    then last
    else if ltb n 256
    then second
    else if ltb n 4096
    then third
    else hex_char (n / 4096 % 16) ∷ third

unfoldable pub groups : List ℕ → List ℕ
groups [] = []
groups (x ∷ []) = []
groups (x ∷ y ∷ rest) = (x * 256 + y) ∷ groups rest

-- How many zeros a list begins with.
unfoldable pub zero_run : List ℕ → ℕ
zero_run [] = 0
zero_run (g ∷ gs) = let rest = zero_run gs in if g == 0 then suc rest else 0

-- The start and the length of the first of the longest runs of zeros, of two at least, or
-- (start, length) if there is none longer.
unfoldable pub longest_run : ℕ → ℕ × ℕ → List ℕ → ℕ × ℕ
longest_run i (start, len) [] = (start, len)
longest_run i (start, len) (g ∷ gs) =
    let run = zero_run (g ∷ gs) in
    let longer = longest_run (suc i) (i, run) gs in
    let rest = longest_run (suc i) (start, len) gs in
    if ltb 1 run && ltb len run then longer else rest

-- The groups with colons between them.
unfoldable pub colons : List ℕ → List ℕ
colons [] = []
colons (g ∷ []) = hex_group g
colons (g ∷ h ∷ gs) = hex_group g ++ (b':' ∷ colons (h ∷ gs))

abbrev ip6_with : List ℕ → ℕ × ℕ → List ℕ
ip6_with gs (start, len) =
    if len == 0
    then colons gs
    else colons (take start gs) ++ (b':' ∷ b':' ∷ colons (drop (start + len) gs))

-- The text of an IPv6 address: the run of zeros is left out.
unfoldable pub ip6_string : List ℕ → List ℕ
ip6_string ip = ip6_with (groups ip) (longest_run 0 (0, 0) (groups ip))

unfoldable pub ip4_string : List ℕ → List ℕ
ip4_string ip =
    itoa (get_or ip 0 0)
    ++ (b'.'
        ∷ (itoa (get_or ip 1 0)
            ++ (b'.' ∷ (itoa (get_or ip 2 0) ++ (b'.' ∷ itoa (get_or ip 3 0))))))

-- `IP.To4` of 16 bytes: 80 bits of zeros and 16 of ones in front.
abbrev pub is_mapped : List ℕ → Bool
is_mapped ip = zero_run ip == 10 && (get_or ip 10 0 == 255 && get_or ip 11 0 == 255)

unfoldable pub ip_string : List ℕ → List ℕ
ip_string ip =
    if length ip == 4
    then ip4_string ip
    else if is_mapped ip
    then ip4_string (drop 12 ip)
    else ip6_string ip

-- `ok` is false and `err` is nil; `err` is not nil; or `ok`, with host, port and headerLen.
pub data Address : Type 0 where
  address_waits address_bad : Address
  address_at : List ℕ → ℕ → ℕ → Address

-- An IP address of n bytes behind the type.
abbrev pub ip_address : ℕ → List ℕ → Address
ip_address n b =
    if ltb (length b) (1 + n + 2)
    then address_waits
    else address_at (ip_string (take n (drop 1 b))) (be_u16 b (1 + n)) (1 + n + 2)

abbrev pub domain_address : List ℕ → Address
domain_address b =
    if ltb (length b) 2
    then address_waits
    else if get_or b 1 0 == 0
    then address_bad
    else if ltb (length b) (2 + get_or b 1 0 + 2)
    then address_waits
    else address_at (take (get_or b 1 0) (drop 2 b)) (be_u16 b (2 + get_or b 1 0))
        (2 + get_or b 1 0 + 2)

unfoldable pub parse_shadowsocks_address : List ℕ → Address
parse_shadowsocks_address b =
    if ltb (length b) 1
    then address_waits
    else if get_or b 0 0 == 1
    then ip_address 4 b
    else if get_or b 0 0 == 3
    then domain_address b
    else if get_or b 0 0 == 4
    then ip_address 16 b
    else address_bad
