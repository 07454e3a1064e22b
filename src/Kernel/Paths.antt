-- ===== src/Kernel/Paths.antt =====
-- kernel/src/fs/mod.rs and kernel/src/fs/inode.rs: paths, what they name, and the flags to open them.
-- A path is its characters; `slash` and `dot` are two of them.
use lemon_core.Base.{
  ℕ, ◌/◌, ◌%◌, ◌^◌, Bool, true, false, ◌&&◌, ◌||◌, Option, none, some, List, [], ◌∷◌, ◌++◌, ◌==◌,
  if◌then◌else◌, ◌>>=◌,
}
pub mod Names
pub mod Normal
mod Tests

abbrev pub slash : ℕ
slash = 47

abbrev pub dot : ℕ
dot = 46

-- `split('/')`: the parts between the slashes, of which there is one at least.
split_at : ℕ → List ℕ → List (List ℕ) → List (List ℕ)
split_at c part parts = if c == slash then [] ∷ (part ∷ parts) else (c ∷ part) ∷ parts

split_with : ℕ → List (List ℕ) → List (List ℕ)
unfolding split_at
split_with c [] = []
split_with c (part ∷ parts) = split_at c part parts

pub split : List ℕ → List (List ℕ)
unfolding split_with
split [] = [] ∷ []
split (c ∷ cs) = split_with c (split cs)

-- What a part means in a path.
pub data Part : Type 0 where
  nothing up : Part
  name : Part

-- The match on a part: `""` and `"."`, `".."`, or a name.
pub part_of : List ℕ → Part
part_of [] = nothing
part_of (c ∷ []) = if c == dot then nothing else name
part_of (c ∷ d ∷ []) = if c == dot && d == dot then up else name
part_of (c ∷ d ∷ e ∷ rest) = name

-- `pop` of the last part.
abbrev pub pop : List (List ℕ) → List (List ℕ)
pop [] = []
pop (p ∷ []) = []
pop (p ∷ q ∷ parts) = p ∷ pop (q ∷ parts)

pub push_part : List (List ℕ) → List ℕ → Part → List (List ℕ)
push_part parts part nothing = parts
push_part parts part up = pop parts
push_part parts part name = parts ++ (part ∷ [])

pub resolve : List (List ℕ) → List (List ℕ) → List (List ℕ)
unfolding push_part part_of
resolve parts [] = parts
resolve parts (part ∷ rest) = resolve (push_part parts part (part_of part)) rest

-- `join("/")`.
pub join : List (List ℕ) → List ℕ
join [] = []
join (p ∷ []) = p
join (p ∷ q ∷ parts) = p ++ (slash ∷ join (q ∷ parts))

starts_with_slash : List ℕ → Bool
starts_with_slash [] = false
starts_with_slash (c ∷ cs) = c == slash

pub get_full_path : List ℕ → List ℕ → List ℕ
unfolding starts_with_slash split resolve join
get_full_path cwd path =
    let resolved_path = if starts_with_slash path then path else cwd ++ (slash ∷ path) in
    slash ∷ join (resolve [] (split resolved_path))

-- `find`: from the root down, one part after the other; `find_in` is `find` of an inode.
pub find_from : (ℕ → List ℕ → Option ℕ) → ℕ → List (List ℕ) → Option ℕ
find_from find_in node [] = some node
find_from find_in node ([] ∷ parts) = find_from find_in node parts
find_from find_in node ((c ∷ cs) ∷ parts) = do
  child ← find_in node (c ∷ cs)
  find_from find_in child parts

pub find : (ℕ → List ℕ → Option ℕ) → ℕ → List ℕ → Option ℕ
unfolding find_from split
find find_in root path = find_from find_in root (split path)

-- `OpenFlags`: `contains` of each flag in the bits of a set. `RDONLY` is the empty set.
abbrev has_bit : ℕ → ℕ → Bool
has_bit i flags = flags / 2 ^ i % 2 == 1

pub contains_rdonly : ℕ → Bool
contains_rdonly flags = true

pub contains_wronly : ℕ → Bool
contains_wronly flags = has_bit 0 flags

pub contains_rdwr : ℕ → Bool
contains_rdwr flags = has_bit 1 flags

pub contains_create : ℕ → Bool
contains_create flags = has_bit 9 flags

pub contains_trunc : ℕ → Bool
contains_trunc flags = has_bit 10 flags

-- What `open_file` makes: readable, writable, and the inode.
pub record Opened : Type 0 where
  pub readable : Bool
  pub writable : Bool
  pub inode : ℕ

-- The file system as `open_file` calls it, on a state of its own.
pub record FileSystem (S : Type 0) : Type 0 where
  pub find_path : S → List ℕ → Option ℕ
  pub is_file : S → ℕ → Bool
  pub clear : S → ℕ → S
  pub create : S → ℕ → List ℕ → Option ℕ × S

-- `rsplit_once('/')`, or the whole path below the empty one.
abbrev on_last : ℕ → List ℕ × List ℕ → Bool → List ℕ × List ℕ
on_last c (parent, target) true = (c ∷ parent, target)
on_last c (parent, target) false = if c == slash then ([], target) else ([], c ∷ target)

abbrev has_slash : List ℕ → Bool
has_slash [] = false
has_slash (c ∷ cs) = c == slash || has_slash cs

pub parent_and_target : List ℕ → List ℕ × List ℕ
parent_and_target [] = ([], [])
parent_and_target (c ∷ cs) = on_last c (parent_and_target cs) (has_slash cs)

module _ {S : Type 0} (fs : FileSystem S) where
  created : Bool → Bool → Option ℕ × S → Option Opened × S
  created readable writable (none, s) = (none, s)
  created readable writable (some inode, s) =
      (some (record { readable = readable; writable = writable; inode = inode }), s)

  create_below : Bool → Bool → S → List ℕ → Option ℕ → Option Opened × S
  unfolding created
  create_below readable writable s target none = (none, s)
  create_below readable writable s target (some parent) =
      created readable writable (fs.create s parent target)

  open_found : Bool → Bool → ℕ → List ℕ → S → Option ℕ → Option Opened × S
  unfolding create_below contains_create contains_trunc parent_and_target
  open_found readable writable flags path s (some inode) =
      let clears = if contains_create flags then fs.is_file s inode else contains_trunc flags in
      (
        some (record { readable = readable; writable = writable; inode = inode }),
        if clears then fs.clear s inode else s,
      )
  open_found readable writable flags path s none =
      let (parent_path, target) = parent_and_target path in
      if contains_create flags
      then create_below readable writable s target (fs.find_path s parent_path)
      else (none, s)

  pub open_file : List ℕ → ℕ → S → Option Opened × S
  unfolding open_found contains_rdonly contains_wronly contains_rdwr
  open_file path flags s =
      let readable = contains_rdonly flags || contains_rdwr flags in
      let writable = contains_wronly flags || contains_rdwr flags in
      open_found readable writable flags path s (fs.find_path s path)
