-- ===== src/Kernel/PageTable/Mapping.antt =====
-- `map`, `unmap` and `translate` as operations of a partial map from pages to entries.
use lemon_core.Base.{
  bit_or_one, ℕ, ◌+◌, ◌%◌, ◌^◌, ◌≤◌, ◌<◌, bit_or, ◌≡◌, refl, sym, ap, subst, ◌∙◌, inl, inr, true,
  false, none, some, [], arith, ltb, ==_iff, Bool-cases, Option-cases,
}
use lemon_core.Kernel.Address.{indexes}
use lemon_core.Kernel.Frames.Room.{available}
use lemon_core.Kernel.PageEntry.{PageTableEntry, new as entry, empty, is_valid}
use lemon_core.Kernel.PageEntry.Codes.{ppn-new}
use lemon_core.Kernel.PageTable.{
  walk_then_alloc, v_flag, load, store_entry, Space, walk, find_pte, find_pte_then_alloc, map,
  unmap, translate,
}
use lemon_core.Kernel.PageTable.Words.{empty-invalid}
use lemon_core.Kernel.PageTable.Tree.{Owner, IsTree, look, walk-owner}
use lemon_core.Kernel.PageTable.Walks.{walk_then_alloc-Extends}
use lemon_core.Kernel.PageTable.Changes.{
  page_map, valid_only, Changes, digits, digits_small, upper, upper_small, translate-walk,
  page_map-look, stored-Changes, entry_fits, empty_fits,
}

flagged : (f : ℕ) → f < 2 ^ 8 → (bit_or f v_flag < 2 ^ 8) × (bit_or f v_flag % 2 ≡ 1)
flagged f h = let e = bit_or_one f h in (omega (arith, e), omega (arith, e))

-- `map` of a page that has no entry yet, while two frames are left, succeeds; the page then has the
-- entry of the frame and the flags, valid, and every other page has the entry that it had.
pub map-Changes :
    (start : ℕ) (s : Space) (owner : Owner) (vpn page flags : ℕ)
    → IsTree start s owner
    → vpn < 2 ^ 27
    → page < 2 ^ 44
    → flags < 2 ^ 8
    → page_map s vpn ≡ none
    → 2 ≤ available s.frames
    → (s' : Space) × (owner' : Owner) × (map s vpn page flags ≡ some s')
      × Changes start s owner vpn (some (entry page (bit_or flags v_flag))) s' owner'
      × (available s.frames ≤ available s'.frames + 2)
unfolding map find_pte_then_alloc indexes
map-Changes start s owner vpn page flags t h p l free room =
    let (leaf, s1, owner1, walked, x, place, again, left) =
      walk_then_alloc-Extends start s owner s.table.root_ppn [] (upper vpn) t t.top (omega arith)
        (upper_small vpn) (omega (arith, room)) in
    let root : s.table.root_ppn ≡ s1.table.root_ppn = sym x.root in
    let again' : walk s1.memory s1.table.root_ppn (upper vpn) ≡ some leaf =
      subst (λ r. walk s1.memory r (upper vpn) ≡ some leaf) root again in
    let looks : (v : ℕ) → page_map s1 v ≡ page_map s v = λ v.
      page_map-look s1 v
      ∙ ap (λ r. valid_only (some (look s1.memory r (digits v)))) x.root
      ∙ ap (λ e. valid_only (some e))
          (x.looks s.table.root_ppn [] (digits v) t.top (omega arith) (digits_small v))
      ∙ sym (page_map-look s v) in
    let e : PageTableEntry = entry page (bit_or flags v_flag) in
    let (fits, odd) = flagged flags l in
    let codes = ppn-new page (bit_or flags v_flag) p fits in
    let valid : is_valid e ≡ true = codes.2 ∙ (==_iff _ _).1 odd in
    let bits : e.bits < 2 ^ 64 = entry_fits page (bit_or flags v_flag) p fits in
    let c = stored-Changes start s1 owner1 vpn leaf e x.tree h bits place again' in
    let was : is_valid (load s1.memory leaf (vpn % 2 ^ 9)) ≡ false =
      not_valid _ (sym (ap valid_only (translate-walk s1 vpn leaf again')) ∙ looks vpn ∙ free) in
    (
      record s1 { memory = store_entry s1.memory leaf (vpn % 2 ^ 9) e },
      owner1,
      finish walked was,
      record {
        tree = c.tree;
        entries = λ v k. c.entries v k ∙ rw (valid, looks v) refl;
        root = x.root;
        data_frames = x.data_frames;
        still_used = x.still_used;
        outside = λ f j u q.
            let (q', same) = x.outside f j u q in
            let (q'', same') = c.outside f j (x.still_used f u) q' in (q'', same' ∙ same);
      },
      left,
    )
  where
    not_valid : (e : PageTableEntry) → valid_only (some e) ≡ none → is_valid e ≡ false
    not_valid e h = elim (Bool-cases (is_valid e)) [
      | inl v ↦ absurd (ground (arith, (rw v at h)))
      | inr n ↦ n
    ]

    finish :
        {leaf : ℕ} {s1 : Space}
        → walk_then_alloc s s.table.root_ppn (upper vpn) ≡ some (leaf, s1)
        → is_valid (load s1.memory leaf (vpn % 2 ^ 9)) ≡ false
        → map s vpn page flags
          ≡ some (record s1 {
            memory = store_entry s1.memory leaf (vpn % 2 ^ 9) (entry page (bit_or flags v_flag));
          })
    finish {leaf} walked was =
        let small : ltb (vpn % 2 ^ 9) 512 ≡ true = ground arith in rw (walked, small, was) refl

-- `unmap` of a page with an entry succeeds; the page then has none, and every other page has the
-- entry that it had.
pub unmap-Changes :
    (start : ℕ) (s : Space) (owner : Owner) (vpn : ℕ) (e : PageTableEntry)
    → IsTree start s owner
    → vpn < 2 ^ 27
    → page_map s vpn ≡ some e
    → (s' : Space) × (unmap s vpn ≡ some s')
      × Changes start s owner vpn none s' owner
      × (s'.frames ≡ s.frames)
unfolding unmap find_pte indexes translate
unmap-Changes start s owner vpn e t h m =
    elim (Option-cases (walk s.memory s.table.root_ppn (upper vpn))) [
      | inr (leaf, found) ↦
          let place =
            walk-owner start s owner s.table.root_ppn leaf [] (upper vpn) t t.top (omega arith)
              (upper_small vpn) found in
          let c = stored-Changes start s owner vpn leaf empty t h empty_fits place found in
          let valid : is_valid (load s.memory leaf (vpn % 2 ^ 9)) ≡ true =
            valid_of _ e (sym (ap valid_only (translate-walk s vpn leaf found)) ∙ m) in
          let small : ltb (vpn % 2 ^ 9) 512 ≡ true = ground arith in
          (
            record s { memory = store_entry s.memory leaf (vpn % 2 ^ 9) empty },
            rw (found, small, valid) refl,
            subst
                (λ x.
                  Changes start s owner vpn x
                    (record s { memory = store_entry s.memory leaf (vpn % 2 ^ 9) empty }) owner)
                (rw empty-invalid refl) c,
            refl,
          )
      | inl lost ↦ absurd (unreached lost m)
    ]
  where
    valid_of : (x e : PageTableEntry) → valid_only (some x) ≡ some e → is_valid x ≡ true
    valid_of x e h = elim (Bool-cases (is_valid x)) [
      | inl v ↦ v
      | inr n ↦ absurd (ground (arith, (rw n at h)))
    ]

    unreached : walk s.memory s.table.root_ppn (upper vpn) ≡ none → page_map s vpn ≡ some e → ⊥
    unreached lost m = ground (arith, (rw lost at m))
