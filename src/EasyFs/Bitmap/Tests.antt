-- ===== src/EasyFs/Bitmap/Tests.antt =====
-- Runs of a bitmap on concrete inputs.
use lemon_core.Base.{refl, true, false, ◌∷◌, replicate, All-replicate}
use lemon_core.EasyFs.Bitmap.{Word, BitmapBlock, Bitmap, Blocks, alloc}
use lemon_core.EasyFs.Bitmap.Words.{IsWord, IsBlock}
use lemon_core.EasyFs.Bitmap.Bits.{AllocSpec, alloc-AllocSpec}
use lemon_core.EasyFs.Bitmap.Search.{IsShaped}

-- One block at 3 whose first 65 bits are set.
abbrev bm : Bitmap
bm = record { start_block_id = 3; blocks = 1 }

abbrev clear : Word
clear = replicate 64 false

abbrev block : BitmapBlock
block = replicate 64 true ∷ (true ∷ replicate 63 false) ∷ replicate 62 clear

abbrev disk : Blocks
disk j = block

block-IsBlock : IsBlock block
block-IsBlock = record { words = refl; bits = (refl, (refl, All-replicate IsWord 62 clear refl)) }

disk-IsShaped : IsShaped bm disk
disk-IsShaped k h = block-IsBlock

alloc-AllocSpec_example : AllocSpec bm disk (alloc bm disk)
alloc-AllocSpec_example = alloc-AllocSpec bm disk disk-IsShaped
