-- ===== src/Filesystem/Service.antt =====
-- The handlers of Project 4/filesystem/bbfs.c as FUSE calls them, one request after the other, over the
-- abstract view of the filesystem: named lists of blocks, a table that counts the users of each block,
-- and the pointers that no file has any more.
pub mod Files
pub mod Counts
pub mod Sound
pub mod Names
pub mod Create
pub mod Empty
pub mod Read
pub mod Unlink
pub mod Rename
pub mod Pointer
pub mod Write
pub mod Refinement
pub mod Cleanup
pub mod Lost
pub mod Start
pub mod Sample
pub mod Examples
use ece318_operating_systems.Prelude.{
  ℕ, zero, suc, ◌+◌, ◌*◌, ◌≤◌, ◌<◌, ◌≡◌, Bool, true, false, List, [], ◌∷◌, ◌++◌, ◌==◌,
  if◌then◌else◌, length, All,
}
use ece318_operating_systems.Filesystem.Bytes.{Bytes, bytes_eq, take, drop}
use ece318_operating_systems.Filesystem.Stdio.{FilePath, Env, Cmd, ◌>>=◌, pure, c_string}
use ece318_operating_systems.Filesystem.Hashes.{generate_hash}
use ece318_operating_systems.Filesystem.Hashes.Table.{Row}
use ece318_operating_systems.Filesystem.Hashes.Compare.{id_for}
use ece318_operating_systems.Filesystem.Hashes.Insert.{insert, HasRoom}
use ece318_operating_systems.Filesystem.Blocks.Read.{Chunk, chunk, contents}
use ece318_operating_systems.Filesystem.Delete.Loop.{release_all}
use ece318_operating_systems.Filesystem.Delete.Release.{NoBlock, NotBlock}
use ece318_operating_systems.Filesystem.Blocks.{hashes_path}
use ece318_operating_systems.Filesystem.Handlers.{
  bb_fullpath, bb_write, bb_read, bb_unlink, bb_truncate, bb_mknod_regular, bb_rename,
}
use ece318_operating_systems.Filesystem.Handlers.Write.{Unique}
use ece318_operating_systems.Filesystem.Handlers.ReadBack.{temp_path}

pub record File : Type 0 where
  pub name : Bytes
  pub chunks : List Chunk

abbrev pub file_of : Bytes → List Chunk → File
file_of n cs = record { name = n; chunks = cs }

abbrev pub ids : List Chunk → List ℕ
ids [] = []
ids (c ∷ cs) = c.id ∷ ids cs

-- How often an id is in a list.
abbrev pub occurs : ℕ → List ℕ → ℕ
occurs i [] = 0
occurs i (j ∷ js) = if i == j then suc (occurs i js) else occurs i js

-- How many pointers to the block the files have.
abbrev pub uses : ℕ → List File → ℕ
uses i [] = 0
uses i (f ∷ fs) = occurs i (ids f.chunks) + uses i fs

-- The files by their names.
abbrev pub has_file : Bytes → List File → Bool
has_file n [] = false
has_file n (f ∷ fs) = if bytes_eq n f.name then true else has_file n fs

abbrev pub chunks_of : Bytes → List File → List Chunk
chunks_of n [] = []
chunks_of n (f ∷ fs) = if bytes_eq n f.name then f.chunks else chunks_of n fs

abbrev pub set_chunks : Bytes → List Chunk → List File → List File
set_chunks n cs [] = []
set_chunks n cs (f ∷ fs) =
    if bytes_eq n f.name then file_of f.name cs ∷ fs else f ∷ set_chunks n cs fs

abbrev pub without : Bytes → List File → List File
without n [] = []
without n (f ∷ fs) = if bytes_eq n f.name then fs else f ∷ without n fs

-- A block takes the place of the one with a number, or comes last.
abbrev pub put_chunk : ℕ → Chunk → List Chunk → List Chunk
put_chunk k c [] = c ∷ []
put_chunk zero c (d ∷ cs) = c ∷ cs
put_chunk (suc k) c (d ∷ cs) = d ∷ put_chunk k c cs

-- The pointer that is there before.
abbrev pub replaced : ℕ → List Chunk → List ℕ
replaced k [] = []
replaced zero (d ∷ cs) = d.id ∷ []
replaced (suc k) (d ∷ cs) = replaced k cs

-- `lost` holds the pointers that were overwritten, cut off or replaced with their file, and which the
-- table counts for ever.
pub record Model : Type 0 where
  pub rows : List Row
  pub files : List File
  pub lost : List ℕ

-- The calls from outside. A block is written whole, at a multiple of its size.
pub data Request : Type 0 where
  creates unlinks empties : Bytes → Request
  renames : (old new : Bytes) → Request
  writes : (name buf : Bytes) → (size block : ℕ) → Request
  reads : (name buf : Bytes) → (size offset : ℕ) → Request

pub data Reply : Type 0 where
  done : Bool → Reply
  returned : ℕ → Reply
  filled : ℕ × Bytes → Reply

-- A file is read and written by a handle that is open on it.
unfoldable pub serve : Env → Request → Cmd Reply
serve env (creates n) = bb_mknod_regular env n >>= λ b. pure (done b)
serve env (unlinks n) = bb_unlink env n >>= λ b. pure (done b)
serve env (empties n) = bb_truncate n 0 >>= λ b. pure (done b)
serve env (renames old new) = bb_rename old new >>= λ b. pure (done b)
serve env (writes n buf size block) =
    bb_fullpath n >>= bb_write env n buf size (block * 4096) >>= λ k. pure (returned k)
serve env (reads n buf size offset) =
    bb_fullpath n >>= bb_read env n buf size offset >>= λ r. pure (filled r)

unfoldable pub serve_all : Env → List Request → Cmd (List Reply)
serve_all env [] = pure []
serve_all env (r ∷ rs) = serve env r >>= λ a. serve_all env rs >>= λ as'. pure (a ∷ as')

-- What a written block is in the model.
abbrev pub written_chunk : Env → Model → Bytes → Chunk
written_chunk env m text = chunk (id_for (generate_hash env text) m.rows) (c_string text)

-- What the requests mean.
unfoldable pub perform : Env → Request → Model → Model
perform env (creates n) m = record m {
  files = if has_file n m.files then m.files else file_of n [] ∷ m.files;
}
perform env (unlinks n) m = record m {
  rows = release_all (ids (chunks_of n m.files)) m.rows;
  files = without n m.files;
}
perform env (empties n) m = record m {
  files = set_chunks n [] m.files;
  lost = ids (chunks_of n m.files) ++ m.lost;
}
perform env (renames old new) m = record m {
  files =
      if bytes_eq old new
      then m.files
      else file_of new (chunks_of old m.files) ∷ without old (without new m.files);
  lost = if bytes_eq old new then m.lost else ids (chunks_of new m.files) ++ m.lost;
}
perform env (writes n buf size block) m = record m {
  rows = insert (generate_hash env (take size buf)) m.rows;
  files =
      set_chunks n (put_chunk block (written_chunk env m (take size buf)) (chunks_of n m.files))
        m.files;
  lost = replaced block (chunks_of n m.files) ++ m.lost;
}
perform env (reads n buf size offset) m = m

unfoldable pub answer : Env → Request → Model → Reply
answer env (creates n) m = done (if has_file n m.files then false else true)
answer env (unlinks n) m = done true
answer env (empties n) m = done true
answer env (renames old new) m = done true
answer env (writes n buf size block) m = returned size
answer env (reads n buf size offset) m =
    let text = contents (chunks_of n m.files) in filled (size, text ++ drop (length text) buf)

abbrev pub perform_all : Env → List Request → Model → Model
perform_all env [] m = m
perform_all env (r ∷ rs) m = perform_all env rs (perform env r m)

abbrev pub answers : Env → List Request → Model → List Reply
answers env [] m = []
answers env (r ∷ rs) m = answer env r m ∷ answers env rs (perform env r m)

-- What is asked of the names of files: they are short, can be opened, and are none of the names of the
-- block store.
pub record IsName (env : Env) (root dir : FilePath) (n : Bytes) : Type 0 where
  pub short : length (root ++ n) < 4096
  pub opens : env.opens (root ++ n) ≡ true
  pub no_block : NoBlock dir (root ++ n)
  pub not_block : NotBlock dir (root ++ n)
  pub no_hashes : bytes_eq (root ++ n) (hashes_path dir) ≡ false
  pub no_temp : bytes_eq (root ++ n) (temp_path dir) ≡ false

-- A block may be written behind the others or over one of them: the number is at most 150, the text fits
-- and has a hash of its own, and the table has room.
pub record MayWrite (env : Env) (m : Model) (n buf : Bytes) (size block : ℕ) : Type 0 where
  pub there : has_file n m.files ≡ true
  pub in_file : block ≤ length (chunks_of n m.files)
  pub few : block ≤ 150
  pub fits : size ≤ 4096
  pub given : size ≤ length buf
  pub unique : Unique env (take size buf)
  pub room : All HasRoom m.rows
  pub small : 1 + length m.rows < 1000

-- When the kernel makes the call: it has looked the name up before, unless it creates the file.
abbrev pub Allowed : Env → (root dir : FilePath) → Model → Request → Type 0
Allowed env root dir m (creates n) = IsName env root dir n
Allowed env root dir m (unlinks n) = has_file n m.files ≡ true
Allowed env root dir m (empties n) = has_file n m.files ≡ true
Allowed env root dir m (renames old new) = (has_file old m.files ≡ true) × IsName env root dir new
Allowed env root dir m (writes n buf size block) = MayWrite env m n buf size block
Allowed env root dir m (reads n buf size offset) =
    (has_file n m.files ≡ true) × length (contents (chunks_of n m.files)) ≤ size

abbrev pub AllAllowed : Env → (root dir : FilePath) → Model → List Request → Type 0
AllAllowed env root dir m [] = Unit
AllAllowed env root dir m (r ∷ rs) =
    Allowed env root dir m r × AllAllowed env root dir (perform env r m) rs
