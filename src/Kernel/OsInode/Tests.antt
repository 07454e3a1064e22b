-- ===== src/Kernel/OsInode/Tests.antt =====
-- A file of 700 bytes, from byte 600 on.
use lemon_core.Base.{
  ℕ, suc, ◌+◌, ◌-◌, ◌%◌, min, ◌≡◌, refl, true, false, Option, some, List, [], ◌∷◌, arith,
}
use lemon_core.EasyFs.Layout.Data.Bytes.{tabulate}
use lemon_core.Kernel.OsInode.{OsInode, read_all_loop, read}
use lemon_core.Kernel.OsInode.Whole.{Reads, total, read_all_loop-whole, read-total}

abbrev bytes : ℕ → ℕ
bytes p = p % 256

abbrev reader : ℕ → ℕ → ℕ → Option (List ℕ)
reader i offset n = some (tabulate bytes offset (min (offset + n) 700 - offset))

abbrev file : OsInode
file = record { readable = true; writable = false; offset = 600; inode = 4 }

reader-Reads : Reads reader 4 700 bytes
reader-Reads = record { law = λ offset n. refl }

read_all_loop-whole_example :
    read_all_loop reader (suc (700 - 600)) file []
    ≡ some (tabulate bytes 600 (700 - 600), record file { offset = 700 })
read_all_loop-whole_example = read_all_loop-whole reader 700 bytes file reader-Reads (omega arith)

-- Into buffers of 64 and 4096 bytes.
read-total_example :
    read reader file (64 ∷ 4096 ∷ [])
    ≡ some (
      tabulate bytes 600 (min (600 + total (64 ∷ 4096 ∷ [])) 700 - 600),
      record file { offset = min (600 + total (64 ∷ 4096 ∷ [])) 700 },
    )
read-total_example =
    read-total reader 700 bytes file (64 ∷ 4096 ∷ []) reader-Reads (omega arith)
      (omega arith, (omega arith, tt))
