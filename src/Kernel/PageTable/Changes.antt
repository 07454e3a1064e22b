-- ===== src/Kernel/PageTable/Changes.antt =====
-- A page table as a partial map from pages to entries, and a page table with one page changed.
use lemon_core.Base.{
  ℕ, ◌/◌, ◌%◌, ◌^◌, ◌<◌, ◌≡◌, refl, sym, ap, subst, ◌∙◌, inl, inr, true, Option, none, some, List,
  [], ◌∷◌, arith, ltb, ◌==◌, if◌then◌else◌, ==_iff, Bool-cases, get_or, All,
}
use lemon_core.Kernel.Address.{indexes}
use lemon_core.Kernel.Frames.Ownership.{in_use}
use lemon_core.Kernel.PageEntry.{PageTableEntry, new as entry, empty, ppn, is_valid}
use lemon_core.Kernel.PageTable.{load, store_entry, Space, walk, find_pte, translate}
use lemon_core.Kernel.PageTable.Words.{load-store_entry, empty-invalid, store_entry_other}
use lemon_core.Kernel.PageTable.Tree.{Owner, IsTree, look, reverse_onto}
use lemon_core.Kernel.PageTable.Leaf.{stored, stored-IsTree, stored-walk, stored-look}

abbrev pub valid_only : Option PageTableEntry → Option PageTableEntry
valid_only none = none
valid_only (some e) = if is_valid e then some e else none

-- The valid entry of each page.
abbrev pub page_map : Space → ℕ → Option PageTableEntry
page_map s vpn = valid_only (translate s vpn)

-- A space in which the entry of one page alone is another.
pub record Changes (start : ℕ) (s : Space) (owner : Owner) (vpn : ℕ) (e : Option PageTableEntry)
    (s' : Space) (owner' : Owner) : Type 0 where
  pub tree : IsTree start s' owner'
  pub entries : (v : ℕ) → v < 2 ^ 27 → page_map s' v ≡ (if vpn == v then e else page_map s v)
  pub root : s'.table.root_ppn ≡ s.table.root_ppn
  pub data_frames : s'.table.data_frames ≡ s.table.data_frames
  pub still_used : (f : ℕ) → in_use start s.frames f ≡ true → in_use start s'.frames f ≡ true
  pub outside :
      (f j : ℕ)
      → in_use start s.frames f ≡ true
      → owner f ≡ none
      → (owner' f ≡ none) × (s'.memory f j ≡ s.memory f j)

abbrev pub digits : ℕ → List ℕ
digits vpn = vpn / 2 ^ 18 % 2 ^ 9 ∷ vpn / 2 ^ 9 % 2 ^ 9 ∷ vpn % 2 ^ 9 ∷ []

abbrev pub upper : ℕ → List ℕ
upper vpn = vpn / 2 ^ 18 % 2 ^ 9 ∷ vpn / 2 ^ 9 % 2 ^ 9 ∷ []

digits_injective :
    (v w : ℕ)
    → v < 2 ^ 27
    → w < 2 ^ 27
    → reverse_onto (digits v) [] ≡ reverse_onto (digits w) []
    → v ≡ w
digits_injective v w h l e =
    let e2 : v % 2 ^ 9 ≡ w % 2 ^ 9 = ap (λ xs. get_or xs 0 0) e in
    let e1 : v / 2 ^ 9 % 2 ^ 9 ≡ w / 2 ^ 9 % 2 ^ 9 = ap (λ xs. get_or xs 1 0) e in
    let e0 : v / 2 ^ 18 % 2 ^ 9 ≡ w / 2 ^ 18 % 2 ^ 9 = ap (λ xs. get_or xs 2 0) e in
    omega (arith, e0, e1, e2)

pub digits_small : (v : ℕ) → All (λ i. i < 512) (digits v)
digits_small v = (omega arith, (omega arith, (omega arith, tt)))

pub upper_small : (v : ℕ) → All (λ i. i < 512) (upper v)
upper_small v = (omega arith, (omega arith, tt))

-- `translate` of a page by the frame that `walk` gives.
pub translate-walk :
    (s : Space) (vpn leaf : ℕ)
    → walk s.memory s.table.root_ppn (upper vpn) ≡ some leaf
    → translate s vpn ≡ some (load s.memory leaf (vpn % 2 ^ 9))
unfolding translate find_pte indexes
translate-walk s vpn leaf h =
    let small : ltb (vpn % 2 ^ 9) 512 ≡ true = ground arith in rw (h, small) refl

pub page_map-look :
    (s : Space) (vpn : ℕ)
    → page_map s vpn ≡ valid_only (some (look s.memory s.table.root_ppn (digits vpn)))
unfolding translate find_pte indexes walk
page_map-look s vpn =
    let s0 : ltb (vpn / 2 ^ 18 % 2 ^ 9) 512 ≡ true = ground arith in
    let s1 : ltb (vpn / 2 ^ 9 % 2 ^ 9) 512 ≡ true = ground arith in
    let s2 : ltb (vpn % 2 ^ 9) 512 ≡ true = ground arith in
    let m = s.memory in
    let e0 = load m s.table.root_ppn (vpn / 2 ^ 18 % 2 ^ 9) in
    let e1 = load m (ppn e0) (vpn / 2 ^ 9 % 2 ^ 9) in
    elim (Bool-cases (is_valid e0)) [
      | inl v0 ↦ elim (Bool-cases (is_valid e1)) [
        | inl v1 ↦ rw (s0, s1, s2, v0, v1) refl
        | inr n1 ↦ rw (s0, s1, v0, n1, empty-invalid) refl
      ]
      | inr n0 ↦ rw (s0, n0, empty-invalid) refl
    ]

-- The effect of a valid or an empty entry stored for a page that `walk` reaches.
pub stored-Changes :
    (start : ℕ) (s : Space) (owner : Owner) (vpn leaf : ℕ) (e : PageTableEntry)
    → IsTree start s owner
    → vpn < 2 ^ 27
    → e.bits < 2 ^ 64
    → owner leaf ≡ some (reverse_onto (upper vpn) [])
    → walk s.memory s.table.root_ppn (upper vpn) ≡ some leaf
    → Changes start s owner vpn
        (valid_only (some e))
        (record s { memory = store_entry s.memory leaf (vpn % 2 ^ 9) e })
        owner
stored-Changes start s owner vpn leaf e t h w o found =
    let s' : Space = stored start s owner t leaf (vpn % 2 ^ 9) _ refl o e in
    record {
      tree = stored-IsTree start s owner t leaf (vpn % 2 ^ 9) _ refl o e;
      entries = λ v l. elim (Bool-cases (vpn == v)) [
        | inl q ↦
            let eq : vpn ≡ v = (==_iff vpn v).0 q in
            rw q (
              subst (λ x. page_map s' x ≡ valid_only (some e)) eq
                (ap valid_only (
                  translate-walk s' vpn leaf (
                    stored-walk start s owner t leaf (vpn % 2 ^ 9) _ refl o e s.table.root_ppn []
                      (upper vpn) t.top (omega arith) (upper_small vpn)
                    ∙ found)
                  ∙ ap some (load-store_entry s.memory leaf (vpn % 2 ^ 9) e w))))
        | inr n ↦ rw n (
            page_map-look s' v
            ∙ ap (λ x. valid_only (some x))
                (stored-look start s owner t leaf (vpn % 2 ^ 9) _ refl o e s.table.root_ppn []
                  (digits v) t.top (omega arith) (digits_small v)
                  (λ q. cc ((==_iff vpn v).1 (sym (digits_injective v vpn l h q)))))
            ∙ sym (page_map-look s v))
      ];
      root = refl;
      data_frames = refl;
      still_used = λ f u. u;
      outside = λ f j u q. (
        q,
        store_entry_other s.memory leaf (vpn % 2 ^ 9) f j e (elim (Bool-cases (leaf == f)) [
          | inl x ↦ absurd (ground (arith, sym o ∙ ap owner ((==_iff leaf f).0 x) ∙ q))
          | inr n ↦ n
        ]),
      );
    }

pub entry_fits : (page flags : ℕ) → page < 2 ^ 44 → flags < 2 ^ 8 → (entry page flags).bits < 2 ^ 64
unfolding entry
entry_fits page flags h l = omega arith

pub empty_fits : empty.bits < 2 ^ 64
unfolding empty
empty_fits = omega arith
