-- ===== src/Filesystem/Service/Sample.antt =====
-- The small directory of Project 4/filesystem, as the abstract view describes it.
use ece318_operating_systems.Prelude.{refl, none, some, List, [], ◌∷◌, ◌++◌, arith}
use ece318_operating_systems.Filesystem.Bytes.{Bytes}
use ece318_operating_systems.Filesystem.Stdio.{Disk, World, Env, put, c_string}
use ece318_operating_systems.Filesystem.Blocks.Read.{contents}
use ece318_operating_systems.Filesystem.Handlers.Keep.{IsStore-put}
use ece318_operating_systems.Filesystem.Service.{
  Model, file_of, IsName, MayWrite, AllAllowed, Request, writes, reads, renames, unlinks, perform,
}
use ece318_operating_systems.Filesystem.Service.Sound.{world_of, IsSound, Config}
use ece318_operating_systems.Filesystem.Sample.{
  text, env, root, hidden, file_name, rows, chunks, disk, world, pointers_on_disk, settled, store,
  chunk-IsStored, apart, unique, usable, has_room, length-digest,
}

abbrev pub model : Model
model = record { rows = rows; files = file_of file_name chunks ∷ []; lost = [] }

abbrev pub other_name : Bytes
other_name = b'/' ∷ b'g' ∷ []

pub file_name-IsName : IsName env root hidden file_name
file_name-IsName = record {
  short = omega arith;
  opens = refl;
  no_block = apart.no_block;
  not_block = apart.not_block;
  no_hashes = refl;
  no_temp = refl;
}

pub other-IsName : IsName env root hidden other_name
other-IsName = record {
  short = omega arith;
  opens = refl;
  no_block = λ id lt. refl;
  not_block = λ id lt. refl;
  no_hashes = refl;
  no_temp = refl;
}

pub config : Config env root hidden
config = record {
  settled = settled;
  usable = usable;
  name_fits = omega arith;
  temp_opens = refl;
  buffer = omega arith;
}

pub sound : IsSound env root hidden model world
sound = record {
  same_bbs = refl;
  on_disk = record {
    store = store;
    files = (
      record {
        name = file_name-IsName;
        pointing = pointers_on_disk;
        linked = ((chunk-IsStored, (omega arith, omega arith)), tt);
        few = omega arith;
      },
      tt,
    );
    others = λ n name out. ground arith;
    named = (refl, tt);
    lost = tt;
    counted = (refl, tt);
  };
}

-- The file has gone without its block.
abbrev pub lost_model : Model
lost_model = record { rows = rows; files = []; lost = 1 ∷ [] }

abbrev pub lost_world : World
lost_world = world_of root hidden 1 (put disk (root ++ file_name) none)

pub lost-IsSound : IsSound env root hidden lost_model lost_world
lost-IsSound = record {
  same_bbs = refl;
  on_disk = record {
    store = IsStore-put env rows world (root ++ file_name) none apart store;
    files = tt;
    others = λ n name out. ground arith;
    named = tt;
    lost = ((omega arith, omega arith), tt);
    counted = (refl, tt);
  };
}

pub may_write : MayWrite env model file_name text 2 1
may_write = record {
  there = refl;
  in_file = omega arith;
  few = omega arith;
  fits = omega arith;
  given = omega arith;
  unique = unique;
  room = has_room;
  small = omega arith;
}

-- A block more, all of it read, the file under another name, and then without it.
abbrev pub requests : List Request
requests =
    writes file_name text 2 1
    ∷ reads file_name [] 10 0
    ∷ renames file_name other_name
    ∷ unlinks other_name
    ∷ []

pub requests-AllAllowed : AllAllowed env root hidden model requests
unfolding perform contents c_string
requests-AllAllowed = (may_write, ((refl, omega arith), ((refl, other-IsName), (refl, tt))))

-- The hidden directory has no entries, and there are no files.
abbrev pub empty_env : Env
empty_env = record env { listing = λ p. some [] }

abbrev pub no_disk : Disk
no_disk q = none

pub empty-IsName : IsName empty_env root hidden file_name
empty-IsName = record {
  short = omega arith;
  opens = refl;
  no_block = apart.no_block;
  not_block = apart.not_block;
  no_hashes = refl;
  no_temp = refl;
}

pub empty_config : Config empty_env root hidden
empty_config = record {
  settled = record {
    hashes_open = refl;
    blocks_open = λ id lt. refl;
    short = omega arith;
    digest = length-digest;
  };
  usable = usable;
  name_fits = omega arith;
  temp_opens = refl;
  buffer = omega arith;
}
