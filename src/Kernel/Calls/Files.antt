-- ===== src/Kernel/Calls/Files.antt =====
-- The calls on the table of open files: what each number refers to afterwards.
use lemon_core.Base.{
  ◌^◌, ℕ, ◌+◌, ◌≤◌, ◌<◌, ◌≡◌, sym, subst, ◌∙◌, ◌⊎◌, inl, inr, false, none, some, arith, ltb, leb,
  ◌==◌, if◌then◌else◌, ltb→lt, Bool-cases, Option-cases, length,
}
use lemon_core.Kernel.Sync.{pos, negsuc}
use lemon_core.Kernel.Slots.{
  Slots, slot, put, IsEntry, create-IsEntry, alloc_fd-create, slot-put, slot_in,
}
use lemon_core.Kernel.Calls.{
  Result, System, returns, install, dup_slot, sys_dup, close_slot, sys_close, sys_pipe,
}

-- A new open file gets the lowest free number, and no other number changes.
pub install-IsEntry :
    (file : ℕ) (s : System)
    → let (fd, s') = install file s in IsEntry file s.fd_table (fd, s'.fd_table)
unfolding install
install-IsEntry file s =
    subst (IsEntry file s.fd_table) (sym (alloc_fd-create file s.fd_table))
      (create-IsEntry file s.fd_table)

-- `sys_dup` of an open file opens it a second time, under the lowest number that is free, and
-- changes no other number; of any other number it returns -1 and changes nothing.
pub sys_dup-IsEntry :
    (fd : ℕ) (s : System)
    → ((slot s.fd_table fd ≡ none) × (sys_dup fd s ≡ returns (negsuc 0) s))
      ⊎ ((file new_fd : ℕ) × (s' : System) × (slot s.fd_table fd ≡ some file)
          × (sys_dup fd s ≡ returns (pos new_fd) s')
          × IsEntry file s.fd_table (new_fd, s'.fd_table))
unfolding sys_dup dup_slot
sys_dup-IsEntry fd s = elim (Option-cases (slot s.fd_table fd)) [
  | inl e ↦ inl (e, rw e)
  | inr (file, e) ↦ let r = install file s in inr (file, r.0, r.1, e, rw e, install-IsEntry file s)
]

-- Why `sys_dup2` panics: the new number is beyond the table, which then needs an entry more than the
-- new number, and this is 2 ^ 64 entries, or more than the heap has room for.
abbrev pub TooWide : ℕ → ℕ → System → Type 0
TooWide capacity new_fd s =
    (length s.fd_table ≤ new_fd) × ((new_fd + 1 ≡ 2 ^ 64) ⊎ (capacity < new_fd + 1))

-- What `sys_dup2` of a number in the table comes to.
abbrev Dups : ℕ → ℕ → System → Result → Type 0
Dups old_fd new_fd s r =
    (s' : System) × (r ≡ returns (pos 0) s')
    × ((j : ℕ)
        → slot s'.fd_table j ≡ (if new_fd == j then slot s.fd_table old_fd else slot s.fd_table j))

-- `sys_close` of an open file frees its number alone and returns 0; of any other number it returns
-- -1 and changes nothing.
pub sys_close-slot :
    (fd : ℕ) (s : System)
    → ((slot s.fd_table fd ≡ none) × (sys_close fd s ≡ returns (negsuc 0) s))
      ⊎ ((file : ℕ) × (s' : System) × (slot s.fd_table fd ≡ some file)
          × (sys_close fd s ≡ returns (pos 0) s')
          × ((j : ℕ) → slot s'.fd_table j ≡ (if fd == j then none else slot s.fd_table j)))
unfolding sys_close close_slot
sys_close-slot fd s = elim (Option-cases (slot s.fd_table fd)) [
  | inl e ↦ inl (
    e,
    elim (Bool-cases (leb (length s.fd_table) fd)) [
      | inl out ↦ rw out
      | inr in_table ↦ rw (in_table, e)
    ],
  )
  | inr (file, e) ↦
      let l : fd < length s.fd_table = slot_in s.fd_table fd file e in
      let in_table : leb (length s.fd_table) fd ≡ false = ground arith in
      inr (
        file,
        record s { fd_table = put s.fd_table fd none },
        e,
        rw (in_table, e),
        λ j. slot-put s.fd_table fd j none l,
      )
]

-- Two entries made one after the other.
two_entries :
    (v v' r w : ℕ) (xs ys zs : Slots ℕ)
    → IsEntry v xs (r, ys)
    → IsEntry v' ys (w, zs)
    → (slot xs r ≡ none)
      × (slot xs w ≡ none)
      × (r < w)
      × ((j : ℕ) → slot zs j ≡ (if w == j then some v' else (if r == j then some v else slot xs j)))
two_entries v v' r w xs ys zs a b = elim (Bool-cases (r == w)) [
  | inl same ↦
      let held : slot ys w ≡ some v = a.entry w ∙ rw same in
      absurd (none-ne-some (sym b.was_free ∙ held))
  | inr apart ↦
      let free : slot xs w ≡ none = sym (rw apart at (a.entry w)) ∙ b.was_free in
      (
        a.was_free,
        free,
        elim (Bool-cases (ltb w r)) [
          | inl below ↦ absurd (a.lowest w (ltb→lt w r below) free)
          | inr above ↦ ground arith
        ],
        λ j. b.entry j ∙ rw (a.entry j),
      )
]
  where
    none-ne-some : none ≡ some v → ⊥
    none-ne-some e = cc

-- `sys_pipe` opens the two ends under two free numbers, the lower for the read end, and changes no
-- other number.
pub sys_pipe-slot :
    (pipe_read pipe_write : ℕ) (s : System)
    → let (read_fd, write_fd, s') = sys_pipe pipe_read pipe_write s in
      (slot s.fd_table read_fd ≡ none)
      × (slot s.fd_table write_fd ≡ none)
      × (read_fd < write_fd)
      × ((j : ℕ)
          → slot s'.fd_table j ≡ (
              if write_fd == j
              then some pipe_write
              else (if read_fd == j then some pipe_read else slot s.fd_table j)))
unfolding sys_pipe
sys_pipe-slot pipe_read pipe_write s =
    let (read_fd, s₁) = install pipe_read s in
    let (write_fd, s₂) = install pipe_write s₁ in
    two_entries pipe_read pipe_write read_fd write_fd s.fd_table s₁.fd_table s₂.fd_table
      (install-IsEntry pipe_read s) (install-IsEntry pipe_write s₁)
