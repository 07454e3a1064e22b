-- ===== src/Kernel/PageTable/Extends.antt =====
-- A page table that took on directories.
use lemon_core.Base.{ℕ, ◌+◌, ◌<◌, ◌≡◌, refl, ap, ◌∙◌, true, none, some, List, length, All}
use lemon_core.Kernel.Frames.Ownership.{in_use}
use lemon_core.Kernel.PageEntry.{is_valid}
use lemon_core.Kernel.PageTable.{load, Space}
use lemon_core.Kernel.PageTable.Tree.{Owner, IsTree, look}

-- A space after directories were added to it: the tree has its old frames in their places, each page
-- its entry, and no frame outside of the tree is touched.
pub record Extends (start : ℕ) (s : Space) (owner : Owner) (s' : Space) (owner' : Owner)
    : Type 0 where
  pub tree : IsTree start s' owner'
  pub kept : (f : ℕ) (path : List ℕ) → owner f ≡ some path → owner' f ≡ some path
  pub entries :
      (f k : ℕ) (path : List ℕ)
      → owner f ≡ some path
      → is_valid (load s.memory f k) ≡ true
      → load s'.memory f k ≡ load s.memory f k
  pub looks :
      (f : ℕ) (path idxs : List ℕ)
      → owner f ≡ some path
      → length path + length idxs ≡ 3
      → All (λ i. i < 512) idxs
      → look s'.memory f idxs ≡ look s.memory f idxs
  pub root : s'.table.root_ppn ≡ s.table.root_ppn
  pub data_frames : s'.table.data_frames ≡ s.table.data_frames
  pub still_used : (f : ℕ) → in_use start s.frames f ≡ true → in_use start s'.frames f ≡ true
  pub outside :
      (f j : ℕ)
      → in_use start s.frames f ≡ true
      → owner f ≡ none
      → (owner' f ≡ none) × (s'.memory f j ≡ s.memory f j)

pub Extends-refl :
    (start : ℕ) (s : Space) (owner : Owner) → IsTree start s owner → Extends start s owner s owner
Extends-refl start s owner t = record {
  tree = t;
  kept = λ f path o. o;
  entries = λ f k path o v. refl;
  looks = λ f path idxs o l a. refl;
  root = refl;
  data_frames = refl;
  still_used = λ f u. u;
  outside = λ f j u o. (o, refl);
}

pub Extends-trans :
    {start : ℕ} {s s' s'' : Space} {owner owner' owner'' : Owner}
    → Extends start s owner s' owner'
    → Extends start s' owner' s'' owner''
    → Extends start s owner s'' owner''
Extends-trans a b = record {
  tree = b.tree;
  kept = λ f path o. b.kept f path (a.kept f path o);
  entries = λ f k path o v.
      let same = a.entries f k path o v in
      b.entries f k path (a.kept f path o) (ap is_valid same ∙ v) ∙ same;
  looks =
      λ f path idxs o l h. b.looks f path idxs (a.kept f path o) l h ∙ a.looks f path idxs o l h;
  root = b.root ∙ a.root;
  data_frames = b.data_frames ∙ a.data_frames;
  still_used = λ f u. b.still_used f (a.still_used f u);
  outside = λ f j u o.
      let (o', e) = a.outside f j u o in
      let (o'', e') = b.outside f j (a.still_used f u) o' in (o'', e' ∙ e);
}
