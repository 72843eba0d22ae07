-- ===== src/Filesystem/Handlers/Keep.antt =====
-- A change of a file of the user leaves the hidden directory of Project 4/filesystem in order.
use ece318_operating_systems.Prelude.{◌≡◌, sym, subst, ◌∙◌, false, Option, List, arith}
use ece318_operating_systems.Filesystem.Bytes.{Bytes, bytes_eq, bytes_eq_comm}
use ece318_operating_systems.Filesystem.Stdio.{FilePath, World, Env, put, content_of}
use ece318_operating_systems.Filesystem.Hashes.Table.{Row}
use ece318_operating_systems.Filesystem.Blocks.Store.{Rows-put, IsStore}
use ece318_operating_systems.Filesystem.Delete.Release.{NoBlock, NotBlock}
use ece318_operating_systems.Filesystem.Delete.Outcome.{Apart}

pub hashes-apart :
    (w : World) (fpath : FilePath) → Apart w fpath → bytes_eq w.bbs.hashesfile fpath ≡ false
hashes-apart w fpath apart = bytes_eq_comm w.bbs.hashesfile fpath ∙ apart.no_hashes

-- Only the names of the hidden directory and of the hashes file matter.
pub Apart-same :
    (w v : World) (fpath : FilePath)
    → v.bbs.hiddendir ≡ w.bbs.hiddendir
    → v.bbs.hashesfile ≡ w.bbs.hashesfile
    → Apart w fpath
    → Apart v fpath
Apart-same w v fpath dir hashes a = record {
  no_block = subst (λ d. NoBlock d fpath) (sym dir) a.no_block;
  not_block = subst (λ d. NotBlock d fpath) (sym dir) a.not_block;
  no_hashes = subst (λ h. bytes_eq fpath h ≡ false) (sym hashes) a.no_hashes;
}

pub IsStore-put :
    (env : Env) (rs : List Row) (w : World) (fpath : FilePath) (c : Option Bytes)
    → Apart w fpath
    → IsStore env rs w
    → IsStore env rs (record w { disk = put w.disk fpath c })
IsStore-put env rs w fpath c apart is = record {
  named = is.named;
  holds = record {
    opens = is.holds.opens;
    file = rw (content_of, hashes-apart w fpath apart) is.holds.file;
    rows = is.holds.rows;
    last = is.holds.last;
    small = is.holds.small;
  };
  blocks =
      Rows-put env w.bbs.hiddendir w.disk fpath c 1 1000 rs (omega (arith, is.holds.small))
        apart.not_block is.blocks;
}
