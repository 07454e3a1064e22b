-- ===== src/EasyFs/Layout/Entry/Tests.antt =====
-- An entry on a concrete input.
use lemon_core.Base.{
  ℕ, ◌<◌, ◌≡◌, refl, ◌⊎◌, Bool, true, ◌&&◌, none, some, List, [], ◌∷◌, arith, ltb, length,
}
use lemon_core.EasyFs.Layout.Entry.{DirEntry, new, name, as_bytes}
use lemon_core.EasyFs.Layout.Entry.Names.{name-new}

abbrev dot_dot : List ℕ
dot_dot = 46 ∷ 46 ∷ []

-- Stands for `from_utf8`, on ASCII.
abbrev is_ascii : List ℕ → Bool
is_ascii [] = true
is_ascii (c ∷ cs) = ltb c 128 && is_ascii cs

name-new_example :
    ((28 < length dot_dot) × (new dot_dot 3 ≡ none))
    ⊎ ((e : DirEntry) × (new dot_dot 3 ≡ some e)
        × (name is_ascii e ≡ some dot_dot)
        × (length (as_bytes e) ≡ 32))
name-new_example =
    name-new is_ascii dot_dot 3
      ((λ e. absurd (omega (arith, e))), ((λ e. absurd (omega (arith, e))), tt)) refl
