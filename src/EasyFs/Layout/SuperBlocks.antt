-- ===== src/EasyFs/Layout/SuperBlocks.antt =====
-- Reading a super block back after it has been written.
use rcore_os.Prelude.{ℕ, ◌<◌, ◌^◌, ◌≡◌, arith}
use rcore_os.EasyFs.Disk.{u32_at-set_u32}
use rcore_os.EasyFs.Layout.{super_block_at, initialize_super_block}

-- What `initialize` writes to a block is what the view of the block as a super block reads, for
-- counts that fit 32 bits.
pub super_block_at-initialize :
    (b : ℕ → ℕ) (t ib ia db da : ℕ)
    → t < 2 ^ 32
    → ib < 2 ^ 32
    → ia < 2 ^ 32
    → db < 2 ^ 32
    → da < 2 ^ 32
    → super_block_at (initialize_super_block b t ib ia db da) ≡ record {
      magic = 0x3b800001;
      total_blocks = t;
      inode_bitmap_blocks = ib;
      inode_area_blocks = ia;
      data_bitmap_blocks = db;
      data_area_blocks = da;
    }
unfolding super_block_at initialize_super_block
super_block_at-initialize b t ib ia db da h1 h2 h3 h4 h5 = simp u32_at-set_u32 (ground arith)
