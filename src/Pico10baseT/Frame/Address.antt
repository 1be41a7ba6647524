-- ===== src/Pico10baseT/Frame/Address.antt =====
-- Multicast addresses.
use pico_gnss.Base.{ℕ, ◌+◌, ◌*◌, ◌%◌, ◌/◌, ◌≤◌, ◌≡◌, ◌↔◌, refl, arith, true, bit_and, ◌==◌}
use pico_gnss.Base.Bits.{all_below, agree_below, and_mask}
use pico_gnss.Base.Bytes.{IsQuad}
use pico_gnss.Pico10baseT.Frame.{Ipv4Addr, for_ipv4_multicast, is_multicast}

class_d : all_below 256 (λ a. bit_and a 0xf0 == a / 16 * 16) ≡ true
unfolding all_below
class_d = refl

-- 224.0.0.0/4 is the first byte from 224 to 239.
pub is_multicast_iff :
    (ip : Ipv4Addr) → IsQuad ip → (is_multicast ip ≡ true) ↔ ((224 ≤ ip.a) × (ip.a ≤ 239))
unfolding is_multicast
is_multicast_iff ip h =
    let mask = agree_below (λ a. bit_and a 0xf0) (λ a. a / 16 * 16) 256 class_d ip.a h.0 in
    (λ e. ground arith, λ e. ground arith)

-- The low 23 bits of an address.
abbrev pub group_bits : Ipv4Addr → ℕ
group_bits ip = ip.b % 128 * 65536 + ip.c * 256 + ip.d

-- For addresses of four bytes, two groups have the same multicast MAC address exactly when they
-- agree in the low 23 bits.
pub for_ipv4_multicast_eq_iff :
    (p q : Ipv4Addr)
    → IsQuad p
    → IsQuad q
    → (for_ipv4_multicast p ≡ for_ipv4_multicast q) ↔ (group_bits p ≡ group_bits q)
unfolding for_ipv4_multicast
for_ipv4_multicast_eq_iff p q hp hq = (
  λ e. ground (arith, and_mask 7 p.b, and_mask 7 q.b),
  λ e. ground (arith, and_mask 7 p.b, and_mask 7 q.b),
)
