-- ===== src/Filesystem/Kernel/Dumps.antt =====
-- The functions of Project 4/filesystem/log.c that write a struct to the log, field by field.
use Prim.Native.String.{String, ◌++◌ as ◌<>◌}
use ece318_operating_systems.Prelude.{ℕ, [], ◌∷◌}
use ece318_operating_systems.Filesystem.Bytes.{Bytes}
use ece318_operating_systems.Filesystem.Kernel.{
  ℤ, pos, Arg, number, text, Message, msg, Os, Io, log_all,
}

-- The macro `log_struct` of log.h, for a field with this value.
unfoldable pub log_struct : (field format : String) → Arg → Message
log_struct field format value = msg ("    " <> (field <> (" = " <> (format <> "\n")))) (value ∷ [])

abbrev pub unsigned : ℕ → Arg
unsigned n = number (pos n)

pub record FuseFileInfo : Type 0 where
  pub flags : ℕ
  pub fh_old : ℕ
  pub writepage : ℕ
  pub direct_io : ℕ
  pub keep_cache : ℕ
  pub fh : ℕ
  pub lock_owner : ℕ

pub record FuseConnInfo : Type 0 where
  pub proto_major : ℕ
  pub proto_minor : ℕ
  pub async_read : ℕ
  pub max_write : ℕ
  pub max_readahead : ℕ
  pub capable : ℕ
  pub want : ℕ
  pub max_background : ℕ
  pub congestion_threshold : ℕ

pub record FuseContext : Type 0 where
  pub fuse : ℕ
  pub uid : ℕ
  pub gid : ℕ
  pub pid : ℤ
  pub private_data : ℕ
  pub logfile : ℕ
  pub rootdir : Bytes
  pub umask : ℕ

pub record Stat : Type 0 where
  pub st_dev : ℕ
  pub st_ino : ℕ
  pub st_mode : ℕ
  pub st_nlink : ℕ
  pub st_uid : ℕ
  pub st_gid : ℕ
  pub st_rdev : ℕ
  pub st_size : ℤ
  pub st_blksize : ℤ
  pub st_blocks : ℤ
  pub st_atime : ℤ
  pub st_mtime : ℤ
  pub st_ctime : ℤ

pub record Statvfs : Type 0 where
  pub f_bsize : ℕ
  pub f_frsize : ℕ
  pub f_blocks : ℕ
  pub f_bfree : ℕ
  pub f_bavail : ℕ
  pub f_files : ℕ
  pub f_ffree : ℕ
  pub f_favail : ℕ
  pub f_fsid : ℕ
  pub f_flag : ℕ
  pub f_namemax : ℕ

pub record Utimbuf : Type 0 where
  pub actime : ℤ
  pub modtime : ℤ

module _ {K : Type 0} (os : Os K) where
  unfoldable pub log_fi : FuseFileInfo → Io K (Unit {0})
  log_fi fi = log_all os (
      msg "    fi:\n" []
      ∷ log_struct "flags" "0x%08x" (unsigned fi.flags)
      ∷ log_struct "fh_old" "0x%08lx" (unsigned fi.fh_old)
      ∷ log_struct "writepage" "%d" (unsigned fi.writepage)
      ∷ log_struct "direct_io" "%d" (unsigned fi.direct_io)
      ∷ log_struct "keep_cache" "%d" (unsigned fi.keep_cache)
      ∷ log_struct "fh" "0x%016llx" (unsigned fi.fh)
      ∷ log_struct "lock_owner" "0x%016llx" (unsigned fi.lock_owner)
      ∷ [])

  unfoldable pub log_conn : FuseConnInfo → Io K (Unit {0})
  log_conn conn = log_all os (
      msg "    conn:\n" []
      ∷ log_struct "proto_major" "%d" (unsigned conn.proto_major)
      ∷ log_struct "proto_minor" "%d" (unsigned conn.proto_minor)
      ∷ log_struct "async_read" "%d" (unsigned conn.async_read)
      ∷ log_struct "max_write" "%d" (unsigned conn.max_write)
      ∷ log_struct "max_readahead" "%d" (unsigned conn.max_readahead)
      ∷ log_struct "capable" "%08x" (unsigned conn.capable)
      ∷ log_struct "want" "%08x" (unsigned conn.want)
      ∷ log_struct "max_background" "%d" (unsigned conn.max_background)
      ∷ log_struct "congestion_threshold" "%d" (unsigned conn.congestion_threshold)
      ∷ [])

  -- The fields of the private data are those of `struct bb_state`.
  unfoldable pub log_fuse_context : FuseContext → Io K (Unit {0})
  log_fuse_context context = log_all os (
      msg "    context:\n" []
      ∷ log_struct "fuse" "%08x" (unsigned context.fuse)
      ∷ log_struct "uid" "%d" (unsigned context.uid)
      ∷ log_struct "gid" "%d" (unsigned context.gid)
      ∷ log_struct "pid" "%d" (number context.pid)
      ∷ log_struct "private_data" "%08x" (unsigned context.private_data)
      ∷ log_struct "logfile" "%08x" (unsigned context.logfile)
      ∷ log_struct "rootdir" "%s" (text context.rootdir)
      ∷ log_struct "umask" "%05o" (unsigned context.umask)
      ∷ [])

  unfoldable pub log_stat : Stat → Io K (Unit {0})
  log_stat si = log_all os (
      msg "    si:\n" []
      ∷ log_struct "st_dev" "%lld" (unsigned si.st_dev)
      ∷ log_struct "st_ino" "%lld" (unsigned si.st_ino)
      ∷ log_struct "st_mode" "0%o" (unsigned si.st_mode)
      ∷ log_struct "st_nlink" "%d" (unsigned si.st_nlink)
      ∷ log_struct "st_uid" "%d" (unsigned si.st_uid)
      ∷ log_struct "st_gid" "%d" (unsigned si.st_gid)
      ∷ log_struct "st_rdev" "%lld" (unsigned si.st_rdev)
      ∷ log_struct "st_size" "%lld" (number si.st_size)
      ∷ log_struct "st_blksize" "%ld" (number si.st_blksize)
      ∷ log_struct "st_blocks" "%lld" (number si.st_blocks)
      ∷ log_struct "st_atime" "0x%08lx" (number si.st_atime)
      ∷ log_struct "st_mtime" "0x%08lx" (number si.st_mtime)
      ∷ log_struct "st_ctime" "0x%08lx" (number si.st_ctime)
      ∷ [])

  unfoldable pub log_statvfs : Statvfs → Io K (Unit {0})
  log_statvfs sv = log_all os (
      msg "    sv:\n" []
      ∷ log_struct "f_bsize" "%ld" (unsigned sv.f_bsize)
      ∷ log_struct "f_frsize" "%ld" (unsigned sv.f_frsize)
      ∷ log_struct "f_blocks" "%lld" (unsigned sv.f_blocks)
      ∷ log_struct "f_bfree" "%lld" (unsigned sv.f_bfree)
      ∷ log_struct "f_bavail" "%lld" (unsigned sv.f_bavail)
      ∷ log_struct "f_files" "%lld" (unsigned sv.f_files)
      ∷ log_struct "f_ffree" "%lld" (unsigned sv.f_ffree)
      ∷ log_struct "f_favail" "%lld" (unsigned sv.f_favail)
      ∷ log_struct "f_fsid" "%ld" (unsigned sv.f_fsid)
      ∷ log_struct "f_flag" "0x%08lx" (unsigned sv.f_flag)
      ∷ log_struct "f_namemax" "%ld" (unsigned sv.f_namemax)
      ∷ [])

  unfoldable pub log_utime : Utimbuf → Io K (Unit {0})
  log_utime buf = log_all os (
      msg "    buf:\n" []
      ∷ log_struct "actime" "0x%08lx" (number buf.actime)
      ∷ log_struct "modtime" "0x%08lx" (number buf.modtime)
      ∷ [])
