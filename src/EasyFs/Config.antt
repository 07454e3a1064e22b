-- ===== src/EasyFs/Config.antt =====
-- easy-fs/src/config.rs: sizes and bounds of the file system.
use lemon_core.Base.{ℕ, ◌+◌, ◌*◌, ◌/◌, ◌^◌}

-- In bytes.
abbrev pub block_size : ℕ
block_size = 512

-- Bits in a block.
abbrev pub block_bits : ℕ
block_bits = block_size * 8

-- Blocks in the block cache.
abbrev pub block_cache_size : ℕ
block_cache_size = 16

abbrev pub efs_magic : ℕ
efs_magic = 0x3b80_0001

abbrev pub direct_count : ℕ
direct_count = 27

-- Block ids in an indirect block.
abbrev pub indirect_count : ℕ
indirect_count = block_size / 4

-- Data blocks below an indirect block of level 1, 2 and 3.
abbrev pub indirect1_count : ℕ
indirect1_count = indirect_count

abbrev pub indirect2_count : ℕ
indirect2_count = indirect_count ^ 2

abbrev pub indirect3_count : ℕ
indirect3_count = indirect_count ^ 3

abbrev pub direct_bound : ℕ
direct_bound = direct_count

abbrev pub indirect1_bound : ℕ
indirect1_bound = direct_bound + indirect1_count

abbrev pub indirect2_bound : ℕ
indirect2_bound = indirect1_bound + indirect2_count

abbrev pub indirect3_bound : ℕ
indirect3_bound = indirect2_bound + indirect3_count

abbrev pub name_length_limit : ℕ
name_length_limit = 27
