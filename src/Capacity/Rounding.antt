-- ===== src/Capacity/Rounding.antt =====
-- What the figures are worth: the rounding, and the products where they fit in 63 bits.
use hostpath_provisioner.Base.{
  ℕ, ◌-◌, ◌*◌, ◌/◌, ◌^◌, ◌≤◌, ◌<◌, ℤ, pos, negsuc, ◌*ℤ◌, ◌-ℤ◌, to_int64, bits64, ltb, ◌≡◌, sym, ◌∙◌,
  ap, arith, if◌then◌else◌,
}
use hostpath_provisioner.Os.{StatFs}
use hostpath_provisioner.Capacity.{mib, gib, round_down_capacity_pretty, FsInfo, fs_numbers}

-- The rounding as one formula on a number that is not negative.
pub rounded : ℕ → ℕ
rounded n =
    if ltb (n / gib) 10 then (if ltb (n / mib) 10 then n else n / mib * mib) else n / gib * gib

pub round_down_capacity_pretty-eq-rounded :
    (n : ℕ) → round_down_capacity_pretty (pos n) ≡ pos (rounded n)
unfolding round_down_capacity_pretty rounded
round_down_capacity_pretty-eq-rounded n = ground arith

rounded_bounds : (n : ℕ) → (rounded n ≤ n) × (10 * (n - rounded n) ≤ n)
unfolding rounded
rounded_bounds n = ground arith

-- For a capacity that is not negative the rounded capacity is at most the capacity, and what is
-- cut off is at most a tenth of the capacity.
pub round_down_capacity_pretty_bounds :
    (n : ℕ) → (m : ℕ) × (round_down_capacity_pretty (pos n) ≡ pos m) × (m ≤ n) × (10 * (n - m) ≤ n)
round_down_capacity_pretty_bounds n =
    (rounded n, round_down_capacity_pretty-eq-rounded n, (rounded_bounds n).0, (rounded_bounds n).1)

rounded_idem : (n : ℕ) → rounded (rounded n) ≡ rounded n
unfolding rounded
rounded_idem n = ground arith

negative : (n : ℕ) → round_down_capacity_pretty (negsuc n) ≡ negsuc n
unfolding round_down_capacity_pretty
negative n = ground arith

-- Rounding a capacity that has been rounded changes nothing, whatever its sign.
pub round_down_capacity_pretty_idem :
    (c : ℤ)
    → round_down_capacity_pretty (round_down_capacity_pretty c) ≡ round_down_capacity_pretty c
round_down_capacity_pretty_idem (pos n) =
    ap round_down_capacity_pretty (round_down_capacity_pretty-eq-rounded n)
    ∙ round_down_capacity_pretty-eq-rounded (rounded n)
    ∙ ap pos (rounded_idem n)
    ∙ sym (round_down_capacity_pretty-eq-rounded n)
round_down_capacity_pretty_idem (negsuc n) = ap round_down_capacity_pretty (negative n)

to_int64_small : (n : ℕ) → n < 2 ^ 63 → to_int64 (pos n) ≡ pos n
unfolding to_int64 bits64
to_int64_small n h = ground arith

pos-*ℤ-pos : (a b : ℕ) → pos a *ℤ pos b ≡ pos (a * b)
unfolding ◌*ℤ◌
pos-*ℤ-pos a b = ground arith

-- The numbers of a file system without wrap-around.
unfoldable pub exact : StatFs → ℕ → FsInfo
exact st b = record {
  available = pos (st.bavail * b);
  capacity = pos (st.blocks * b);
  usage = pos ((st.blocks - st.bfree) * b);
  inodes = pos st.files;
  inodes_free = pos st.ffree;
  inodes_used = pos (st.files - st.ffree);
}

-- The counts are consistent and fit, with the product of block count and block size.
pub record Fits (st : StatFs) (b : ℕ) : Type 0 where
  pub block_size : st.bsize ≡ pos b
  pub free_blocks : st.bfree ≤ st.blocks
  pub available_blocks : st.bavail ≤ st.blocks
  pub blocks_fit : st.blocks < 2 ^ 63
  pub product_fits : st.blocks * b < 2 ^ 63
  pub free_inodes : st.ffree ≤ st.files
  pub inodes_fit : st.files < 2 ^ 63

pos-minus : (a b : ℕ) → b ≤ a → pos a -ℤ pos b ≡ pos (a - b)
pos-minus a b h = ground arith

product_small : (a m b : ℕ) → a ≤ m → m * b < 2 ^ 63 → a * b < 2 ^ 63
product_small a m b h k = grind arith

product_int64 : (a m b : ℕ) → a ≤ m → m * b < 2 ^ 63 → to_int64 (pos a *ℤ pos b) ≡ pos (a * b)
product_int64 a m b h k =
    ap to_int64 (pos-*ℤ-pos a b) ∙ to_int64_small (a * b) (product_small a m b h k)

-- Where the counts are consistent and the size of the file system is below 2^63 bytes, the six
-- numbers are the products and the differences with no wrap-around.
pub fs_numbers-exact : (st : StatFs) (b : ℕ) → Fits st b → fs_numbers st ≡ exact st b
unfolding fs_numbers exact
fs_numbers-exact st b h = simp (
  h.block_size,
  to_int64_small st.blocks h.blocks_fit,
  to_int64_small st.bfree (omega arith),
  to_int64_small st.bavail (omega arith),
  to_int64_small st.files h.inodes_fit,
  to_int64_small st.ffree (omega arith),
  pos-minus st.blocks st.bfree h.free_blocks,
  to_int64_small (st.blocks - st.bfree) (omega arith),
  pos-minus st.files st.ffree h.free_inodes,
  to_int64_small (st.files - st.ffree) (omega arith),
  product_int64 st.blocks st.blocks b (omega arith) h.product_fits,
  product_int64 st.bavail st.blocks b h.available_blocks h.product_fits,
  product_int64 (st.blocks - st.bfree) st.blocks b (omega arith) h.product_fits,
)
