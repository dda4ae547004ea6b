-- ===== src/Mm/Address/Conversions.antt =====
-- Conversions between addresses and page numbers.
use rcore_os.Prelude.{
  ℕ, ◌+◌, ◌-◌, ◌*◌, ◌/◌, ◌%◌, ◌^◌, ◌≤◌, ◌<◌, ◌≡◌, ◌≢◌, ◌↔◌, [], ◌∷◌, bit_and, returns, panics,
  arith, sym, ◌∙◌,
}
use rcore_os.Prelude.Bits.{bit_and_mask}
use rcore_os.Mm.Address.{
  page_size, to_phys_addr, to_virt_addr, to_phys_page_num, to_virt_page_num, page_offset, floor,
  ceil, page_addr, page_num, indexes,
}

pub page_offset_lem : (a : ℕ) → page_offset a ≡ a % page_size
unfolding page_offset
page_offset_lem a = bit_and_mask 12 a

-- An address is its page's address and its offset in the page.
pub floor-page_offset : (a : ℕ) → floor a * page_size + page_offset a ≡ a
unfolding floor
floor-page_offset a = omega (arith, page_offset_lem a)

-- A page number's address converts back without a panic, for page numbers of at most 52 bits;
-- an address converts to a page number exactly when it is page-aligned, and then back to itself
-- if it fits 64 bits.
pub page_num-page_addr :
    (n a : ℕ)
    → n < 2 ^ 52
    → a < 2 ^ 64
    → (page_num (page_addr n) ≡ returns n)
      × (a % page_size ≡ 0
          → (page_num a ≡ returns (a / page_size)) × (page_addr (a / page_size) ≡ a))
      × (a % page_size ≢ 0 → page_num a ≡ panics)
unfolding page_num page_addr floor
page_num-page_addr n a h k = (
  ground (arith, bit_and_mask 12 (n * 2 ^ 12 % 2 ^ 64)),
  λ e. (ground (arith, bit_and_mask 12 a), omega arith),
  λ ne. ground (arith, bit_and_mask 12 a),
)

-- `floor` and `ceil` are the tightest page numbers around an address below 2^64 - 4096:
-- `floor a` is the last page that starts at or before `a`, `ceil a` the first that starts at or
-- after it.
pub floor-ceil_tight :
    (a p : ℕ)
    → a < 2 ^ 64 - page_size
    → ((p ≤ floor a) ↔ (p * page_size ≤ a)) × ((ceil a ≤ p) ↔ (a ≤ p * page_size))
unfolding floor ceil
floor-ceil_tight a p h =
    (((λ q. omega arith), λ q. omega arith), ((λ q. omega arith), λ q. omega arith))

-- `usize` values cut to 39 bits keep their page offset, and their page has 27 bits; so for physical
-- ones with 56 and 44 bits.
pub to_addr-page :
    (value : ℕ)
    → (page_offset (to_virt_addr value) ≡ page_offset value)
      × (floor (to_virt_addr value) ≡ to_virt_page_num (floor value))
      × (page_offset (to_phys_addr value) ≡ page_offset value)
      × (floor (to_phys_addr value) ≡ to_phys_page_num (floor value))
unfolding floor to_virt_addr to_phys_addr to_virt_page_num to_phys_page_num
to_addr-page value = (
  omega (
    arith,
    page_offset_lem value,
    page_offset_lem (bit_and value (2 ^ 39 - 1)),
    bit_and_mask 39 value,
  ),
  omega (arith, bit_and_mask 39 value, bit_and_mask 27 (value / page_size)),
  omega (
    arith,
    page_offset_lem value,
    page_offset_lem (bit_and value (2 ^ 56 - 1)),
    bit_and_mask 56 value,
  ),
  omega (arith, bit_and_mask 56 value, bit_and_mask 44 (value / page_size)),
)

pub to_phys_page_num_small : (n : ℕ) → n < 2 ^ 44 → to_phys_page_num n ≡ n
unfolding to_phys_page_num
to_phys_page_num_small n h = omega (arith, bit_and_mask 44 n)

abbrev pub third : ℕ → ℕ
third vpn = vpn / 2 ^ 18 % 512

abbrev pub second : ℕ → ℕ
second vpn = vpn / 2 ^ 9 % 512

abbrev pub first : ℕ → ℕ
first vpn = vpn % 512

pub indexes_lem : (vpn : ℕ) → indexes vpn ≡ third vpn ∷ second vpn ∷ first vpn ∷ []
unfolding indexes
indexes_lem vpn =
    ground (
      arith,
      bit_and_mask 9 vpn,
      bit_and_mask 9 (vpn / 2 ^ 9),
      bit_and_mask 9 (vpn / 2 ^ 9 / 2 ^ 9),
    )

-- The three table indexes of a 27-bit page number are below 512 and put together, the first one
-- highest, give the page number back; so two page numbers with the same indexes are equal.
pub indexes-decode :
    (vpn vpn' : ℕ)
    → vpn < 2 ^ 27
    → vpn' < 2 ^ 27
    → ((i j k : ℕ) × (indexes vpn ≡ i ∷ j ∷ k ∷ [])
        × (i < 512)
        × (j < 512)
        × (k < 512)
        × (i * 2 ^ 18 + j * 2 ^ 9 + k ≡ vpn))
      × (indexes vpn ≡ indexes vpn' → vpn ≡ vpn')
indexes-decode vpn vpn' h h' = (
  (
    third vpn,
    second vpn,
    first vpn,
    indexes_lem vpn,
    omega arith,
    omega arith,
    omega arith,
    omega arith,
  ),
  λ e.
      let same : third vpn ∷ second vpn ∷ first vpn ∷ []
          ≡ third vpn' ∷ second vpn' ∷ first vpn' ∷ [] =
        sym (indexes_lem vpn) ∙ e ∙ indexes_lem vpn' in
      ground arith,
)
