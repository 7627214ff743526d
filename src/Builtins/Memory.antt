-- ===== src/Builtins/Memory.antt =====
-- A file system in memory, without links and rights, on which the laws hold: a dictionary from
-- absolute paths to files and folders.
use yellowbullv.Shared.{
  ℕ, String, ◌≡◌, refl, ap, ◌∙◌, ◌≢◌, Option, none, some, Bool, true, false, ◌||◌, ◌&&◌, not, List,
  [], ◌∷◌, arith, if◌then◌else◌, str_eq_iff, is_some, is_empty, cat,
}
use text.Mathlib.TextLemmas
use Prim.Native.Char.{code}
use yellowbullv.Shared.{◌==◌}
use mathlib.Core.Option
use yellowbullv.Dict.{Dict, lookup, insert}
use yellowbullv.Dict.Laws.{lookup-insert, lookup-insert_self}
use yellowbullv.Builtins.{FileSystem, Raises, ok, raised, file_exists, other_error, Mode, overwrite}
use yellowbullv.Builtins.Lines.{newlines, utf8_size}
use yellowbullv.Builtins.Laws.{FileLaws, kept}

pub data Node : Type 0 where
  file : String → Node
  folder : Node

abbrev pub Disk : Type 0
Disk = Dict Node

abbrev pub text_of : Option Node → Option String
text_of (some (file t)) = some t
text_of _ = none

abbrev pub is_folder_node : Option Node → Bool
is_folder_node (some folder) = true
is_folder_node _ = false

has_slash : String → Bool
has_slash String.[] = false
has_slash (String.◌∷◌ c s) = code c == 47 || has_slash s

-- The text before the last "/".
unfoldable pub parent_of : String → String
unfolding has_slash
parent_of String.[] = String.[]
parent_of (String.◌∷◌ c s) =
    let rest = parent_of s in if has_slash s then String.◌∷◌ c rest else String.[]

-- The folders on the way to a path, and the path.
steps_from : String → String → List String
steps_from front String.[] = front ∷ []
steps_from front (String.◌∷◌ c s) =
    let longer = steps_from (cat front (String.◌∷◌ c String.[])) s in
    if code c == 47 && not (is_empty front) then front ∷ longer else longer

make_folder : String → Disk → Raises (Unit {0}) × Disk
make_folder p st = elim (lookup p st) [
  | none ↦ (ok tt, insert p folder st)
  | some folder ↦ (ok tt, st)
  | some (file t) ↦ (raised (file_exists "File exists"), st)
]

make_folders : List String → Disk → Raises (Unit {0}) × Disk
make_folders [] st = (ok tt, st)
make_folders (p ∷ ps) st =
    let (r, st') = make_folder p st in
    let rest = make_folders ps st' in elim r [ ok u ↦ rest | raised e ↦ (raised e, st') ]

has_folder : String → Disk → Bool
has_folder p st = is_empty p || is_folder_node (lookup p st)

unfoldable pub make_path : Bool → String → Disk → Raises (Unit {0}) × Disk
unfolding make_folders steps_from make_folder has_folder
make_path true p st = make_folders (steps_from "" p) st
make_path false p st =
    if has_folder (parent_of p) st
    then make_folder p st
    else (raised (other_error "No such file or directory"), st)

unfoldable pub put_text : Mode → String → String → Disk → Raises (Unit {0}) × Disk
unfolding has_folder parent_of
put_text m p c st =
    if has_folder p st
    then (raised (other_error "Is a directory"), st)
    else if has_folder (parent_of p) st
    then (ok tt, insert p (file (cat (kept m (text_of (lookup p st))) c)) st)
    else (raised (other_error "No such file or directory"), st)

abbrev pub missing : {A : Type 0} → Raises A
missing = raised (other_error "No such file or directory")

abbrev pub read_node : Option Node → Raises String
read_node (some (file t)) = ok (newlines t)
read_node (some folder) = raised (other_error "Is a directory")
read_node none = missing

abbrev pub node_size : Option Node → Raises ℕ
node_size (some (file t)) = ok (utf8_size t)
node_size (some folder) = ok 4096
node_size none = missing

abbrev pub memory_files : FileSystem
memory_files = record {
  Store = Disk;
  resolve = λ p st. ok p;
  parent = parent_of;
  exists = λ p st. ok (is_some (lookup p st));
  is_dir = λ p st. ok (is_folder_node (lookup p st));
  is_file = λ p st. ok (is_some (text_of (lookup p st)));
  size = λ p st. node_size (lookup p st);
  read_text = λ p st. read_node (lookup p st);
  mkdir = make_path;
  write = put_text;
}

abbrev pub content_at : String → Disk → Option String
content_at p st = text_of (lookup p st)

make_folder-content :
    (p q : String) (st : Disk) → content_at q (make_folder p st).1 ≡ content_at q st
unfolding make_folder
make_folder-content p q st = ground (arith, lookup-insert p q folder st, str_eq_iff p q)

make_folders-content :
    (ps : List String) (q : String) (st : Disk)
    → content_at q (make_folders ps st).1 ≡ content_at q st
unfolding make_folders
make_folders-content [] q st = refl
make_folders-content (p ∷ ps) q st =
    ground (arith, make_folder-content p q st, make_folders-content ps q (make_folder p st).1)

mkdir-content :
    (parents : Bool) (p q : String) (st : Disk)
    → content_at q (make_path parents p st).1 ≡ content_at q st
unfolding make_path
mkdir-content true p q st = make_folders-content (steps_from "" p) q st
mkdir-content false p q st = ground (arith, make_folder-content p q st)

write-content :
    (m : Mode) (p c : String) (st st' : Disk)
    → put_text m p c st ≡ (ok tt, st')
    → content_at p st' ≡ some (cat (kept m (content_at p st)) c)
unfolding put_text
write-content m p c st st' h =
    ground (arith, lookup-insert_self p (file (cat (kept m (text_of (lookup p st))) c)) st)

write-others :
    (m : Mode) (p q c : String) (st : Disk)
    → p ≢ q
    → content_at q (put_text m p c st).1 ≡ content_at q st
unfolding put_text
write-others m p q c st ne =
    ground
      (arith, lookup-insert p q (file (cat (kept m (text_of (lookup p st))) c)) st, str_eq_iff p q)

write-found :
    (m : Mode) (p c : String) (st st' : Disk)
    → put_text m p c st ≡ (ok tt, st')
    → (is_some (lookup p st') ≡ true) × (is_some (text_of (lookup p st')) ≡ true)
write-found m p c st st' h = let e = write-content m p c st st' h in ground arith

write-size :
    (p c : String) (n : ℕ) (st st' : Disk)
    → put_text overwrite p c st ≡ (ok tt, st')
    → node_size (lookup p st') ≡ ok n
    → n ≡ utf8_size c
write-size p c n st st' h sized =
    let e = write-content overwrite p c st st' h ∙ ap some (TextLemmas.nil-append c) in ground arith

read_node-content :
    (n : Option Node) (t : String) → read_node n ≡ ok t → Option.map newlines (text_of n) ≡ some t
read_node-content n t h = ground arith

-- The laws of a file system hold in memory.
pub memory_files-laws : FileLaws memory_files
memory_files-laws = record {
  content = content_at;
  exists-content = λ p st h. ground arith;
  read-content = λ p t st h. read_node-content (lookup p st) t h;
  write-content = write-content;
  write-others = write-others;
  write-found = λ m p c st st' h. let (a, b) = write-found m p c st st' h in (ap ok a, ap ok b);
  write-size = write-size;
  write-resolve = λ m p q c st. refl;
  mkdir-content = mkdir-content;
  mkdir-resolve = λ parents p q st. refl;
}

pub memory_content : (p : String) (st : Disk) → memory_files-laws.content p st ≡ content_at p st
unfolding memory_files-laws
memory_content p st = refl
