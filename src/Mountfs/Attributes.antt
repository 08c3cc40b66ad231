-- ===== src/Mountfs/Attributes.antt =====
-- mountfs/fuse.go: the attributes of nodes, and the numbers of inodes.
pub mod Inodes
use mediastub.Prelude.{
  ℕ, ◌+◌, ◌*◌, ◌%◌, ◌^◌, ◌==◌, Bool, true, false, not, ◌&&◌, ◌||◌, Option, none, some, List, [],
  ◌∷◌, if◌then◌else◌,
}
use Prim.Native.Nat.{bit_xor}
use mediastub.Prelude.Int.{ℤ, pos, negsuc, pos_part, ltb_ℤ, ◌+ℤ◌}
use mediastub.Prelude.Maps.{Map, lookup, insert, same}
use mediastub.Core.Base.{Bytes}
use mediastub.Paths.{clean, join_with}
use mediastub.Syncer.Base.{Entry}
use mediastub.Syncer.Reconcile.{less}
use mediastub.Mountfs.Base.{Error, Result, ok, err, Errno, success, erofs, errno}
use mediastub.Mountfs.Cache.{Service, stub_candidate, Decision}
use mediastub.Mountfs.View.{View, Opened, Viewed, viewed, not_viewed, open_view}

-- A round of `fnv.New64a`
abbrev pub fnv_round : ℕ → ℕ → ℕ
fnv_round h b = bit_xor h b * 1099511628211 % 2 ^ 64

unfoldable pub fnv_64a : ℕ → Bytes → ℕ
fnv_64a h [] = h
fnv_64a h (b ∷ bs) = fnv_64a (fnv_round h b) bs

-- The numbers 0 and 1 are kept free.
abbrev pub kept_free : ℕ → ℕ
kept_free ino = if ino == 0 || ino == 1 then ino + 2 else ino

-- `inodeNumber`
unfoldable pub inode_number : Bytes → Bool → ℕ
unfolding fnv_64a
inode_number name is_dir =
    let h = fnv_64a 14695981039346656037 name in kept_free (if is_dir then fnv_round h 1 else h)

-- `S_IFDIR` and `S_IFREG`, which `S_IFMT` cuts out of a mode
abbrev pub file_type : Entry → ℕ
file_type e = if e.is_dir then 16384 else 32768

-- `modeFor`; the permissions are 0555 and 0444.
abbrev pub mode_for : Entry → ℕ
mode_for e = file_type e + (if e.is_dir then 365 else 292)

-- `fuse.Attr`, as far as it is set; the three times are one.
pub record Attr : Type 0 where
  pub ino : ℕ
  pub mode : ℕ
  pub nlink : ℕ
  pub size : ℕ
  pub blksize : ℕ
  pub times : Option ℤ

-- `fillAttr`, on a fresh `Attr`
unfoldable pub fill_attr : Entry → Attr
fill_attr e = record {
  ino = inode_number e.path e.is_dir;
  mode = mode_for e;
  nlink = if e.is_dir then 2 else 1;
  size = if e.is_dir then 0 else pos_part e.size;
  blksize = 4096;
  times = e.mod_time;
}
