-- ===== src/Kernel/PageTable/Grow.antt =====
-- `find_pte_then_alloc`: what the directories that it makes leave of the tree.
use lemon_core.Base.{
  ℕ, ◌+◌, ◌^◌, ◌≤◌, ◌<◌, ◌≡◌, refl, sym, ap, ap₂, subst, ◌∙◌, inl, inr, true, false, ◌&&◌, some,
  List, [], ◌∷◌, ◌++◌, arith, ◌==◌, if◌then◌else◌, ==_iff, Bool-cases, length, All,
}
use mathlib.Core.Option.{some-injective}
use lemon_core.Kernel.Frames.{Memory, alloc_tracked}
use lemon_core.Kernel.Frames.Ownership.{in_use}
use lemon_core.Kernel.Frames.Room.{available, Allocated, alloc_tracked-Allocated}
use lemon_core.Kernel.PageEntry.{new as entry, empty, ppn, is_valid, flags}
use lemon_core.Kernel.PageEntry.Codes.{ppn-new}
use lemon_core.Kernel.PageTable.{load, store_entry, v_flag, Space, grow, grow_at}
use lemon_core.Kernel.PageTable.Words.{
  load-store_entry, load-store_entry_ne, load_ext, load-zero, store_entry_other, empty-invalid,
}
use lemon_core.Kernel.PageTable.Tree.{Owner, IsTree, look}
use lemon_core.Kernel.PageTable.Extends.{Extends, Extends-refl}

module _ (start : ℕ) (s : Space) (owner : Owner) (t : IsTree start s owner) (frame idx : ℕ)
    (path : List ℕ) (o : owner frame ≡ some path) (upper : length path < 2) (i : idx < 512)
    (invalid : is_valid (load s.memory frame idx) ≡ false) where
  module _ (new_frame : ℕ) (m : Memory) (a : lemon_core.Kernel.Frames.StackFrameAllocator)
      (z : Allocated start s.memory s.frames new_frame m a) where
    abbrev grown : Space
    grown = record {
      table = record s.table { metadata_frames = s.table.metadata_frames ++ (new_frame ∷ []) };
      memory = store_entry m frame idx (entry new_frame v_flag);
      frames = a;
    }

    abbrev owner' : Owner
    owner' f = if new_frame == f then some (idx ∷ path) else owner f

    -- A frame in use is not the new one.
    not_new : (f : ℕ) → in_use start s.frames f ≡ true → new_frame == f ≡ false
    not_new f u = elim (Bool-cases (new_frame == f)) [
      | inl e ↦ absurd (ground (arith, u, z.fresh, (==_iff new_frame f).0 e))
      | inr n ↦ n
    ]

    small_entry : (entry new_frame v_flag).bits < 2 ^ 64
    unfolding entry
    small_entry = omega (arith, z.physical)

    -- What each entry is after the new directory.
    load_made : load grown.memory frame idx ≡ entry new_frame v_flag
    load_made = load-store_entry m frame idx (entry new_frame v_flag) small_entry

    load_new : (k : ℕ) → load grown.memory new_frame k ≡ empty
    load_new k =
        let ne : frame == new_frame ≡ false = ground (arith, not_new frame (t.used frame path o)) in
        load-store_entry_ne m frame idx new_frame k (entry new_frame v_flag) (rw ne refl)
        ∙ load-zero m new_frame k
            (λ j. z.cleared new_frame j ∙ rw ((==_iff new_frame new_frame).1 refl) refl)

    load_old :
        (f k : ℕ)
        → in_use start s.frames f ≡ true
        → (frame == f && idx == k) ≡ false
        → load grown.memory f k ≡ load s.memory f k
    load_old f k u h =
        load-store_entry_ne m frame idx f k (entry new_frame v_flag) h
        ∙ load_ext m s.memory f k (λ j. z.cleared f j ∙ rw (not_new f u) refl)

    look_new : (idxs : List ℕ) → look grown.memory new_frame idxs ≡ empty
    unfolding empty is_valid flags
    look_new [] = refl
    look_new (k ∷ []) = load_new k
    look_new (k ∷ j ∷ rest) = rw (load_new k) refl

    made_valid : is_valid (entry new_frame v_flag) ≡ true
    made_valid = (ppn-new new_frame v_flag z.physical (omega arith)).2

    made_ppn : ppn (entry new_frame v_flag) ≡ new_frame
    made_ppn = (ppn-new new_frame v_flag z.physical (omega arith)).0

    grown-looks :
        (f : ℕ) (path' idxs : List ℕ)
        → owner f ≡ some path'
        → length path' + length idxs ≡ 3
        → All (λ i. i < 512) idxs
        → look grown.memory f idxs ≡ look s.memory f idxs
    grown-looks f path' [] p l h = refl
    grown-looks f path' (k ∷ []) p l h =
        load_old f k (t.used f path' p) (elim (Bool-cases (frame == f)) [
          | inl e ↦ absurd (ground (arith, (==_iff frame f).0 e))
          | inr n ↦ rw n refl
        ])
    grown-looks f path' (k ∷ j ∷ rest) p l h = elim (Bool-cases (frame == f && idx == k)) [
      | inl e ↦
          let (ef, ek) : (frame ≡ f) × (idx ≡ k) = ground arith in
          let made : load grown.memory f k ≡ entry new_frame v_flag =
            subst (λ x. load grown.memory x k ≡ entry new_frame v_flag) ef
              (subst (λ x. load grown.memory frame x ≡ entry new_frame v_flag) ek load_made) in
          let was : is_valid (load s.memory f k) ≡ false =
            subst (λ x. is_valid (load s.memory x k) ≡ false) ef
              (subst (λ x. is_valid (load s.memory frame x) ≡ false) ek invalid) in
          rw (made, was, made_valid, made_ppn) (look_new (j ∷ rest))
      | inr n ↦
          let same = load_old f k (t.used f path' p) n in
          elim (Bool-cases (is_valid (load s.memory f k))) [
            | inl v ↦
                rw (same, v)
                  (grown-looks (ppn (load s.memory f k)) (k ∷ path') (j ∷ rest)
                    (t.below f k path' p (omega (arith, l)) h.0 v) (omega (arith, l)) h.1)
            | inr w ↦ rw (same, w) refl
          ]
    ]

    grown-below :
        (f k : ℕ) (path' : List ℕ)
        → owner' f ≡ some path'
        → length path' < 2
        → k < 512
        → is_valid (load grown.memory f k) ≡ true
        → owner' (ppn (load grown.memory f k)) ≡ some (k ∷ path')
    grown-below f k path' p l h v = elim (Bool-cases (new_frame == f)) [
      | inl e ↦ absurd (
          ground (
            arith,
            load_new k,
            empty-invalid,
            subst (λ x. is_valid (load grown.memory x k) ≡ true) (sym ((==_iff new_frame f).0 e)) v,
          ))
      | inr n ↦
          let was : owner f ≡ some path' = rw n at p in
          elim (Bool-cases (frame == f && idx == k)) [
            | inl e ↦
                let (ef, ek) : (frame ≡ f) × (idx ≡ k) = ground arith in
                let made : load grown.memory f k ≡ entry new_frame v_flag =
                  subst (λ x. load grown.memory x k ≡ entry new_frame v_flag) ef
                    (subst (λ x. load grown.memory frame x ≡ entry new_frame v_flag) ek
                      load_made) in
                let place : path ≡ path' = some-injective _ _ (sym o ∙ ap owner ef ∙ was) in
                rw (made, made_ppn, (==_iff new_frame new_frame).1 refl)
                  (ap some (ap₂ (λ x y. x ∷ y) ek place))
            | inr m ↦
                let same = load_old f k (t.used f path' was) m in
                let child = t.below f k path' was l h (ap is_valid (sym same) ∙ v) in
                rw (same, not_new (ppn (load s.memory f k)) (t.used _ _ child)) child
          ]
    ]

    grown-used : (f : ℕ) (path' : List ℕ) → owner' f ≡ some path' → in_use start a f ≡ true
    grown-used f path' p = elim (Bool-cases (new_frame == f)) [
      | inl e ↦ z.marked f ∙ rw e refl
      | inr n ↦ z.marked f ∙ rw n (t.used f path' (rw n at p))
    ]

    grown-Extends : Extends start s owner grown owner'
    grown-Extends = record {
      tree = record {
        frames = z.valid;
        top = rw (not_new s.table.root_ppn (t.used _ _ t.top)) t.top;
        below = grown-below;
        used = grown-used;
      };
      kept = λ f p q. rw (not_new f (t.used f p q)) q;
      entries = λ f k p q v.
          load_old f k (t.used f p q) (elim (Bool-cases (frame == f && idx == k)) [
            | inl e ↦
                let (ef, ek) : (frame ≡ f) × (idx ≡ k) = ground arith in
                absurd (
                  ground (
                    arith,
                    subst (λ x. is_valid (load s.memory x k) ≡ true) (sym ef) v,
                    subst (λ x. is_valid (load s.memory frame x) ≡ false) ek invalid,
                  ))
            | inr n ↦ n
          ]);
      looks = grown-looks;
      root = refl;
      data_frames = refl;
      still_used = λ f u. z.marked f ∙ rw (not_new f u) u;
      outside = λ f j u q. (
        rw (not_new f u) q,
        store_entry_other m frame idx f j (entry new_frame v_flag) (elim (Bool-cases (frame == f)) [
          | inl e ↦ absurd (ground (arith, sym o ∙ ap owner ((==_iff frame f).0 e) ∙ q))
          | inr n ↦ n
        ])
            ∙ (z.cleared f j ∙ rw (not_new f u) refl),
      );
    }

-- One step down, with a directory made where there is none.
pub grow-Extends :
    (start : ℕ) (s : Space) (owner : Owner) (frame idx : ℕ) (path : List ℕ)
    → IsTree start s owner
    → owner frame ≡ some path
    → length path < 2
    → idx < 512
    → 1 ≤ available s.frames
    → (s' : Space) × (owner' : Owner) × (grow s frame idx ≡ some s')
      × Extends start s owner s' owner'
      × (is_valid (load s'.memory frame idx) ≡ true)
      × (available s.frames ≤ available s'.frames + 1)
unfolding grow grow_at
grow-Extends start s owner frame idx path t o upper i room =
    elim (Bool-cases (is_valid (load s.memory frame idx))) [
      | inl v ↦ (s, owner, rw v refl, Extends-refl start s owner t, v, omega arith)
      | inr n ↦
          let (new_frame, m, a, z) =
            alloc_tracked-Allocated start s.memory s.frames t.frames room in
          (
            grown start s owner t frame idx path o upper i n new_frame m a z,
            owner' start s owner t frame idx path o upper i n new_frame m a z,
            rw n (ap (grow_at s frame idx) z.result),
            grown-Extends start s owner t frame idx path o upper i n new_frame m a z,
            ap is_valid (load_made start s owner t frame idx path o upper i n new_frame m a z)
                ∙ made_valid start s owner t frame idx path o upper i n new_frame m a z,
            omega (arith, z.left),
          )
    ]
