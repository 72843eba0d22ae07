-- ===== src/Filesystem/Examples.antt =====
-- The theorems on the block store and the handlers of Project 4/filesystem, on a small directory.
use ece318_operating_systems.Prelude.{
  ◌*◌, leb, ◌≤◌, ◌≡◌, refl, ◌↔◌, true, false, none, some, [], ◌∷◌, ◌++◌, if◌then◌else◌, length,
  arith, All,
}
use ece318_operating_systems.Filesystem.Bytes.{take, drop, replicate}
use ece318_operating_systems.Filesystem.Decimal.{format}
use ece318_operating_systems.Filesystem.Stdio.{
  BbState, Env, ok, fault, put, ◌>>=◌, Returns, c_string,
}
use ece318_operating_systems.Filesystem.Hashes.{generate_hash, compare_hashes}
use ece318_operating_systems.Filesystem.Hashes.Table.{encode}
use ece318_operating_systems.Filesystem.Hashes.Compare.{id_for, touched, compare_hashes-Finds}
use ece318_operating_systems.Filesystem.Blocks.{
  generate_block, read_block, read_file, get_real_size,
}
use ece318_operating_systems.Filesystem.Blocks.Generated.{Generated}
use ece318_operating_systems.Filesystem.Blocks.Generate.{generate_block-Generates}
use ece318_operating_systems.Filesystem.Blocks.Read.{
  pointers, contents, read_file-Concatenates, get_real_size-Sums, read_block-overruns,
}
use ece318_operating_systems.Filesystem.Delete.{delete_blocks}
use ece318_operating_systems.Filesystem.Delete.Loop.{release_all}
use ece318_operating_systems.Filesystem.Delete.Outcome.{Released, delete_blocks-Releases}
use ece318_operating_systems.Filesystem.Handlers.{
  bb_write, bb_read, bb_unlink, bb_fgetattr, fails_with, bb_getattr, bb_truncate, pointer_offset,
  start,
}
use ece318_operating_systems.Filesystem.Handlers.Write.{pointer_offset-exact}
use ece318_operating_systems.Filesystem.Handlers.Append.{Appended, bb_write-Appends}
use ece318_operating_systems.Filesystem.Handlers.ReadBack.{temp_path, bb_read-Reads}
use ece318_operating_systems.Filesystem.Handlers.RoundTrip.{bb_write-bb_read}
use ece318_operating_systems.Filesystem.Handlers.Unlink.{Unlinked, bb_unlink-Releases}
use ece318_operating_systems.Filesystem.Handlers.Attributes.{
  size_or, bb_fgetattr-Sizes, bb_getattr-Sizes,
}
use ece318_operating_systems.Filesystem.Kernel.{pos, negsuc}
use ece318_operating_systems.Filesystem.Handlers.Truncate.{bb_truncate-Keeps}
use ece318_operating_systems.Filesystem.Handlers.Start.{InUse, start-last_id}
use ece318_operating_systems.Filesystem.Sample.{
  text, env, root, hidden, file_name, rows, chunks, disk, world, pointers_on_disk, settled, store,
  chunk-IsStored, apart, file, unique, usable, has_room, ids_on_disk, ids-fit, read-fits,
}

-- The block is written once more, behind the first, and all is read from the start.
bb_write-bb_read_example :
    Returns
      (λ r after. r ≡ (
        10,
        (contents chunks ++ c_string (take 2 text))
            ++ drop (length (contents chunks ++ c_string (take 2 text))) (replicate 10 0),
      ))
      ((bb_write env file_name text 2 (length chunks * 4096) (root ++ file_name) >>= λ _.
          bb_read env file_name (replicate 10 0) 10 0 (root ++ file_name))
        world)
bb_write-bb_read_example =
    bb_write-bb_read env rows world file_name chunks text 2 settled usable (omega arith)
      (omega arith) refl refl file apart has_room (omega arith) (omega arith) (omega arith) unique
      (omega arith) (replicate 10 0) 10 0 read-fits

generate_block-Generates_example :
    Returns
      (λ id after.
        (id ≡ id_for (generate_hash env text) rows)
        × Generated env rows world (generate_hash env text) after)
      (generate_block env text world)
generate_block-Generates_example =
    generate_block-Generates env rows world text settled store has_room (omega arith)

delete_blocks-Releases_example :
    Returns
      (λ _ after. Released env (release_all (1 ∷ []) rows) (root ++ file_name) world after)
      (delete_blocks env (root ++ file_name) world)
delete_blocks-Releases_example =
    delete_blocks-Releases env rows world (root ++ file_name) (1 ∷ []) store apart refl ids_on_disk
      ((omega arith, omega arith), tt) ids-fit

bb_unlink-Releases_example :
    Returns
      (λ done after.
        (done ≡ true) × Unlinked env (release_all (1 ∷ []) rows) (root ++ file_name) world after)
      (bb_unlink env file_name world)
bb_unlink-Releases_example =
    bb_unlink-Releases env rows world file_name (1 ∷ []) (omega arith) store apart refl ids_on_disk
      ((omega arith, omega arith), tt) ids-fit

bb_write-Appends_example :
    Returns
      (λ n after.
        (n ≡ 2)
        × Appended env rows world file_name
            (root ++ file_name)
            chunks
            text
            2
            settled
            usable
            (omega arith)
            file
            apart
            has_room
            (omega arith)
            (omega arith)
            (omega arith)
            unique
            (omega arith)
            after)
      (bb_write env file_name text 2 (length chunks * 4096) (root ++ file_name) world)
bb_write-Appends_example =
    bb_write-Appends env rows world file_name (root ++ file_name) chunks text 2 settled usable
      (omega arith) file apart has_room (omega arith) (omega arith) (omega arith) unique
      (omega arith)

read_file-Concatenates_example :
    read_file env (root ++ file_name) world ≡ ok (some (contents chunks)) world
read_file-Concatenates_example =
    read_file-Concatenates env world (root ++ file_name) chunks refl pointers_on_disk
      (chunk-IsStored, tt) usable (omega arith)

get_real_size-Sums_example :
    get_real_size env (root ++ file_name) world ≡ ok (length (contents chunks)) world
get_real_size-Sums_example =
    get_real_size-Sums env world (root ++ file_name) chunks refl pointers_on_disk
      (chunk-IsStored, tt)

compare_hashes-Finds_example :
    compare_hashes env (generate_hash env text) world
    ≡ ok (id_for (generate_hash env text) rows) (touched world (encode 1 rows))
compare_hashes-Finds_example =
    compare_hashes-Finds env rows (generate_hash env text) world store.holds

bb_read-Reads_example : bb_read env file_name (replicate 10 0) 10 0 (root ++ file_name) world ≡ (
    if leb (length (contents chunks)) 10
    then ok
        (10, contents chunks ++ drop (length (contents chunks)) (replicate 10 0))
        (record world { disk = put disk (temp_path hidden) none })
    else fault)
bb_read-Reads_example =
    bb_read-Reads env world file_name chunks usable (omega arith) (omega arith) refl refl
      (omega arith) pointers_on_disk (chunk-IsStored, tt) (replicate 10 0) 10 0 (root ++ file_name)

bb_getattr-Sizes_example :
    bb_getattr env (negsuc 1) file_name 0 world
    ≡ ok (pos 0, size_or chunks (length (pointers chunks))) world
bb_getattr-Sizes_example =
    bb_getattr-Sizes env (negsuc 1) world file_name chunks 0 (omega arith) refl pointers_on_disk
      (chunk-IsStored, tt)

-- The descriptor is not good: EBADF.
bb_fgetattr-Sizes_example :
    bb_fgetattr env (negsuc 1) (λ w. fails_with 9) file_name 0 world
    ≡ ok (negsuc 8, size_or chunks 0) world
bb_fgetattr-Sizes_example =
    bb_fgetattr-Sizes env (negsuc 1) (λ w. fails_with 9) world file_name chunks 0 (omega arith) refl
      refl pointers_on_disk (chunk-IsStored, tt)

pointer_offset-exact_example : (pointer_offset (151 * 4096) ≡ 151 * 3) ↔ (151 ≤ 150)
pointer_offset-exact_example = pointer_offset-exact 151

start-last_id_example :
    (bbs : BbState) × ((start env root hidden ≡ some bbs)
      × ((bbs.last_id ≡ length rows) ↔ All InUse rows))
start-last_id_example = start-last_id env hidden (true ∷ false ∷ true ∷ []) rows refl refl root

-- Where `malloc` gives what it is asked for and no more.
abbrev exact_env : Env
exact_env = record env { usable = λ n. n }

read_block-overruns_example : read_block exact_env (format 3 1) world ≡ fault
read_block-overruns_example = read_block-overruns exact_env world 1 (omega arith) refl

bb_truncate-Keeps_example :
    Returns
      (λ done after.
        (done ≡ true)
        × ((after.disk (root ++ file_name) ≡ some (pointers chunks))
            ↔ (2 ≡ length (pointers chunks))))
      (bb_truncate file_name 2 world)
bb_truncate-Keeps_example =
    bb_truncate-Keeps world file_name (pointers chunks) 2 (omega arith) pointers_on_disk
