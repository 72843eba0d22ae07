-- ===== src/Filesystem/Service/Sound.antt =====
-- When the disk of Project 4/filesystem holds what the abstract view says.
use ece318_operating_systems.Prelude.{
  ℕ, ◌+◌, ◌≤◌, ◌<◌, ◌≡◌, ◌∙◌, Bool-cases, inl, inr, none, some, false, true, List, [], ◌∷◌, ◌++◌,
  ◌==◌, length, All, All-map, arith,
}
use ece318_operating_systems.Filesystem.Bytes.{Bytes}
use ece318_operating_systems.Filesystem.Decimal.{format}
use ece318_operating_systems.Filesystem.Stdio.{FilePath, Disk, World, Env}
use ece318_operating_systems.Filesystem.Hashes.Table.{Row}
use ece318_operating_systems.Filesystem.Blocks.{block_path, hashes_path}
use ece318_operating_systems.Filesystem.Blocks.Store.{IsStore, Settled, Rows, Rows-map}
use ece318_operating_systems.Filesystem.Blocks.Read.{Chunk, pointers, IsStored}
use ece318_operating_systems.Filesystem.Delete.Loop.{InRange}
use ece318_operating_systems.Filesystem.Handlers.ReadBack.{temp_path}
use ece318_operating_systems.Filesystem.Service.{
  File, ids, occurs, uses, has_file, Model, IsName, Request, Reply, answer, perform,
}
use ece318_operating_systems.Filesystem.Service.Files.{Named, All-ids, uses-of_All, occurs-of_All}
use ece318_operating_systems.Filesystem.Service.Counts.{Counted}

-- The state of the program with `n` ids given out, as `main` sets it up.
abbrev pub world_of : (root dir : FilePath) → ℕ → Disk → World
world_of root dir n disk = record {
  bbs = record { rootdir = root; hashesfile = hashes_path dir; last_id = n; hiddendir = dir };
  disk = disk;
}

-- A block of a file is there, and it has an id of the table.
abbrev pub Linked : Env → FilePath → List Row → Disk → Chunk → Type 0
Linked env dir rs disk c = IsStored env dir disk c × InRange (length rs) c.id

-- A block has the same content on both disks.
abbrev pub SameAt : FilePath → Disk → Disk → ℕ → Type 0
SameAt dir old new i = new (block_path dir (format 3 i)) ≡ old (block_path dir (format 3 i))

pub record IsFileOn (env : Env) (root dir : FilePath) (rs : List Row) (disk : Disk) (f : File)
    : Type 0 where
  pub name : IsName env root dir f.name
  pub pointing : disk (root ++ f.name) ≡ some (pointers f.chunks)
  pub linked : All (Linked env dir rs disk) f.chunks
  pub few : length f.chunks ≤ 151

-- The users of a block in the files, and the lost ones.
abbrev pub holders : Model → ℕ → ℕ
holders m i = uses i m.files + occurs i m.lost

-- The hidden directory is in order, each file of the view is on the disk with its blocks and no other file
-- is, and each counter is the number of the pointers in the files and of the lost ones.
pub record OnDisk (env : Env) (root dir : FilePath) (m : Model) (disk : Disk) : Type 0 where
  pub store : IsStore env m.rows (world_of root dir (length m.rows) disk)
  pub files : All (IsFileOn env root dir m.rows disk) m.files
  pub others :
      (n : Bytes) → IsName env root dir n → has_file n m.files ≡ false → disk (root ++ n) ≡ none
  pub named : Named m.files
  pub lost : All (InRange (length m.rows)) m.lost
  pub counted : Rows (Counted (holders m)) 1 m.rows

pub record IsSound (env : Env) (root dir : FilePath) (m : Model) (w : World) : Type 0 where
  pub same_bbs : w.bbs ≡ (world_of root dir (length m.rows) w.disk).bbs
  pub on_disk : OnDisk env root dir m w.disk

-- A request has the effect and the reply that it has in the view.
abbrev pub Served : Env → (root dir : FilePath) → Request → Model → Reply → World → Type 0
Served env root dir r m a v = (a ≡ answer env r m) × IsSound env root dir (perform env r m) v

-- What is asked of the surroundings: the files of the block store and `temp` can be opened, `malloc` gives
-- what is asked for, and one byte more for the name of a block, and a stream reads 453 bytes at once.
pub record Config (env : Env) (root dir : FilePath) : Type 0 where
  pub settled : Settled env dir
  pub usable : (n : ℕ) → n ≤ env.usable n
  pub name_fits : length dir + 8 < env.usable (length dir + 3 + 5)
  pub temp_opens : env.opens (temp_path dir) ≡ true
  pub buffer : 453 ≤ env.buffer_size

pub Counted-same :
    (f g : ℕ → ℕ) (rs : List Row)
    → ((i : ℕ) → f i ≡ g i)
    → Rows (Counted f) 1 rs
    → Rows (Counted g) 1 rs
Counted-same f g rs same =
    Rows-map (Counted f) (Counted g) 1 (1 + length rs) rs (omega arith) (λ j r le lt e. e ∙ same j)

module _ (env : Env) (root dir : FilePath) (rs rs' : List Row) (disk disk' : Disk)
    (longer : length rs ≤ length rs') where
  pub Linked-moved :
      (cs : List Chunk)
      → All (SameAt dir disk disk') (ids cs)
      → All (Linked env dir rs disk) cs
      → All (Linked env dir rs' disk') cs
  Linked-moved [] same linked = tt
  Linked-moved (c ∷ cs) same linked = (
    (
      record {
        id_lt = linked.0.0.id_lt;
        opens = linked.0.0.opens;
        on_disk = same.0 ∙ linked.0.0.on_disk;
        is_text = linked.0.0.is_text;
        short = linked.0.0.short;
      },
      (linked.0.1.0, omega (arith, linked.0.1.1)),
    ),
    Linked-moved cs same.1 linked.1,
  )

  pub all_same :
      (cs : List Chunk)
      → ((i : ℕ) → InRange (length rs) i → SameAt dir disk disk' i)
      → All (Linked env dir rs disk) cs
      → All (SameAt dir disk disk') (ids cs)
  all_same [] same linked = tt
  all_same (c ∷ cs) same linked = (same c.id linked.0.1, all_same cs same linked.1)

  -- A file stays what it is where it and its blocks have not changed.
  pub IsFileOn-moved :
      (f : File)
      → disk' (root ++ f.name) ≡ disk (root ++ f.name)
      → All (SameAt dir disk disk') (ids f.chunks)
      → IsFileOn env root dir rs disk f
      → IsFileOn env root dir rs' disk' f
  IsFileOn-moved f here same is = record {
    name = is.name;
    pointing = here ∙ is.pointing;
    linked = Linked-moved f.chunks same is.linked;
    few = is.few;
  }

  pub IsFileOn-same :
      ((i : ℕ) → InRange (length rs) i → SameAt dir disk disk' i)
      → (f : File) → disk' (root ++ f.name) ≡ disk (root ++ f.name)
      → IsFileOn env root dir rs disk f
      → IsFileOn env root dir rs' disk' f
  IsFileOn-same same f here is = IsFileOn-moved f here (all_same f.chunks same is.linked) is

-- The ids in the files are ids of the table.
pub ids-InRange :
    (env : Env) (root dir : FilePath) (m : Model) (disk : Disk)
    → OnDisk env root dir m disk
    → All (λ f. All (InRange (length m.rows)) (ids f.chunks)) m.files
ids-InRange env root dir m disk on =
    All-map m.files
      (λ f is.
        All-ids (Linked env dir m.rows disk) (InRange (length m.rows)) f.chunks (λ c l. l.1)
          is.linked)
      on.files

-- The next id has no holders yet.
pub holders-fresh :
    (env : Env) (root dir : FilePath) (m : Model) (disk : Disk)
    → OnDisk env root dir m disk
    → holders m (1 + length m.rows) ≡ 0
holders-fresh env root dir m disk on =
    let next = 1 + length m.rows in
    let in_files : uses next m.files ≡ 0 = elim (Bool-cases (uses next m.files == 0)) [
      | inl e ↦ ground arith
      | inr e ↦
          let r =
            uses-of_All (InRange (length m.rows)) next m.files (ids-InRange env root dir m disk on)
              (ground arith) in
          absurd (omega (arith, r.1))
    ] in
    let in_lost : occurs next m.lost ≡ 0 = elim (Bool-cases (occurs next m.lost == 0)) [
      | inl e ↦ ground arith
      | inr e ↦
          let r = occurs-of_All (InRange (length m.rows)) next m.lost on.lost (ground arith) in
          absurd (omega (arith, r.1))
    ] in
    omega (arith, in_files, in_lost)
