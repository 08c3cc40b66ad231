-- ===== src/Mountfs/Node.antt =====
-- mountfs/fuse.go: the nodes of the file system, and their operations.
pub mod Freshness
pub mod Listing
pub mod Opening
use mediastub.Prelude.{
  ℕ, ◌+◌, ◌*◌, ◌%◌, ◌^◌, ◌==◌, Bool, true, false, not, ◌&&◌, ◌||◌, Option, none, some, List, [],
  ◌∷◌, if◌then◌else◌,
}
use Prim.Native.Nat.{bit_xor}
use mediastub.Prelude.Int.{ℤ, pos, negsuc, pos_part, ltb_ℤ, ◌+ℤ◌}
use mediastub.Prelude.Maps.{Map, lookup, insert, same}
use mediastub.Core.Base.{Bytes}
use mediastub.Paths.{clean, join_with}
use mediastub.Syncer.Base.{Entry}
use mediastub.Mountfs.Base.{Error, Result, ok, err, Errno, success, erofs, errno}
use mediastub.Mountfs.Cache.{Service, stub_candidate, Decision}
use mediastub.Mountfs.Attributes.{Attr, file_type, fill_attr, inode_number}
use mediastub.Mountfs.View.{View, Opened, Viewed, viewed, not_viewed, open_view}

pub record CachedEntry : Type 0 where
  pub entry : Entry
  pub deadline : ℤ

-- `node`: the part of it that changes, with its path. A clock reads in nanoseconds.
pub record Node : Type 0 where
  pub path : Bytes
  pub entry : Option CachedEntry
  pub children : Map CachedEntry

-- `time.Now().After(deadline)` at some time
abbrev pub is_fresh : ℤ → Option CachedEntry → Option Entry
is_fresh now none = none
is_fresh now (some cached) = if ltb_ℤ cached.deadline now then none else some cached.entry

-- `cachedStat`
unfoldable pub cached_stat : ℤ → Node → Option Entry
cached_stat now n = is_fresh now n.entry

-- `cacheStat`
abbrev pub cache_stat : Entry → ℤ → Node → Node
cache_stat e deadline n = record n { entry = some (record { entry = e; deadline = deadline }) }

-- `cachedChild`
unfoldable pub cached_child : ℤ → Bytes → Node → Option Entry
cached_child now name n = is_fresh now (lookup name n.children)

-- The loop of `cacheChildren`
unfoldable pub child_entries : ℤ → List Entry → Map CachedEntry → Map CachedEntry
child_entries deadline [] children = children
child_entries deadline (e ∷ es) children =
    child_entries deadline es (insert e.name (record { entry = e; deadline = deadline }) children)

unfoldable pub cache_children : List Entry → ℤ → Node → Node
unfolding child_entries
cache_children es deadline n = record n { children = child_entries deadline es [] }

-- What the origin and the clock answer during a call: the clock is read when the cache is asked, and
-- again when it is filled. `sorted` is how `sort.Slice` leaves entries that it sorts by name; the order of
-- entries with the same name is not fixed.
pub record World : Type 0 where
  pub stat : Bytes → Result Entry
  pub read_dir : Bytes → Result (List Entry)
  pub sorted : List Entry → List Entry
  pub asked_at : ℤ
  pub filled_at : ℤ

-- The answer to a call of the kernel: a value, or an error number.
pub data Reply (A : Type 0) : Type 0 where
  done : A → Reply A
  failed : Errno → Reply A

module _ (attr_ttl : ℤ) (world : World) where
  abbrev pub fetched : Node → Result Entry → Result Entry × Node
  fetched n (ok e) = (ok e, cache_stat e (world.filled_at +ℤ attr_ttl) n)
  fetched n (err cause) = (err cause, n)

  abbrev pub entry_from : Node → Option Entry → Result Entry × Node
  entry_from n (some e) = (ok e, n)
  entry_from n none = fetched n (world.stat n.path)

  -- The entry of a node, from its cache or from the origin.
  unfoldable pub current_entry : Node → Result Entry × Node
  unfolding cached_stat
  current_entry n = entry_from n (cached_stat world.asked_at n)

  abbrev attr_of : Result Entry × Node → Reply Attr × Node
  attr_of (ok e, n) = (done (fill_attr e), n)
  attr_of (err cause, n) = (failed (errno (some cause)), n)

  -- `Getattr`
  unfoldable pub getattr : Node → Reply Attr × Node
  unfolding current_entry fill_attr
  getattr n = attr_of (current_entry n)

  -- `path.Join`, unless the node is the root
  abbrev pub child_path : Bytes → Bytes → Bytes
  child_path path name =
      if same path (b'.' ∷ []) then name else clean (join_with b'/' (path ∷ name ∷ []))

  abbrev pub new_child : Entry → Reply (Attr × Node)
  new_child e = done (
    fill_attr e,
    cache_stat e (world.filled_at +ℤ attr_ttl)
        (record { path = e.path; entry = none; children = [] }),
  )

  abbrev pub child_of : Result Entry → Reply (Attr × Node)
  child_of (ok e) = new_child e
  child_of (err cause) = failed (errno (some cause))

  abbrev pub lookup_from : Bytes → Node → Option Entry → Reply (Attr × Node)
  lookup_from name n (some e) = new_child e
  lookup_from name n none = child_of (world.stat (child_path n.path name))

  -- `Lookup`: the attributes of the child and its node. The node that is asked stays as it is.
  unfoldable pub lookup_child : Bytes → Node → Reply (Attr × Node)
  unfolding cached_child
  lookup_child name n = lookup_from name n (cached_child world.asked_at name n)

  -- `fuse.DirEntry`
  abbrev pub dir_entry : Entry → Bytes × ℕ × ℕ
  dir_entry e = (e.name, inode_number e.path e.is_dir, file_type e)

  unfoldable pub dir_entries : List Entry → List (Bytes × ℕ × ℕ)
  dir_entries [] = []
  dir_entries (e ∷ es) = dir_entry e ∷ dir_entries es

  abbrev pub listing_of : Node → Result (List Entry) → Reply (List (Bytes × ℕ × ℕ)) × Node
  listing_of n (err cause) = (failed (errno (some cause)), n)
  listing_of n (ok es) = (
    done (dir_entries (world.sorted es)),
    cache_children (world.sorted es) (world.filled_at +ℤ attr_ttl) n,
  )

  -- `Readdir`
  unfoldable pub readdir : Node → Reply (List (Bytes × ℕ × ℕ)) × Node
  unfolding dir_entries cache_children
  readdir n = listing_of n (world.read_dir n.path)

-- What `Open` answers: a view with the flags of FUSE, or an error number.
pub data OpenReply : Type 1 where
  open_file : View → ℕ → OpenReply
  open_refused : Errno → OpenReply

-- `FOPEN_DIRECT_IO` and `FOPEN_KEEP_CACHE`
abbrev pub direct_io : ℕ
direct_io = 1

abbrev pub keep_cache : ℕ
keep_cache = 2

abbrev pub reply_of : Viewed → OpenReply
reply_of (viewed view true) = open_file view direct_io
reply_of (viewed view false) = open_file view keep_cache
reply_of (not_viewed cause) = open_refused (errno (some cause))

-- The processes are matched for a path that the includes select, or if all accesses are logged.
abbrev pub is_allowed : Service → Bool → Entry → Result Bool → Bool
is_allowed service log_all e matched =
    stub_candidate service e
    && (service.matches e.path || log_all)
    && elim matched [ ok m ↦ m | err cause ↦ false ]

module _ (service : Service) (attr_ttl : ℤ) (world : World) where
  abbrev pub opened_with :
      Bool
      → Result Bool
      → (Entry → Decision)
      → (Entry → Opened)
      → Result Entry × Node
      → OpenReply × Node
  opened_with log_all matched decide open_object (err cause, n) =
      (open_refused (errno (some cause)), n)
  opened_with log_all matched decide open_object (ok e, n) =
      (reply_of (open_view e (is_allowed service log_all e matched) (decide e) (open_object e)), n)

  -- `Open`, with what `match`, `decide` and `Open` of the origin answer where it calls them.
  unfoldable pub open_node :
      ℕ → Bool → Result Bool → (Entry → Decision) → (Entry → Opened) → Node → OpenReply × Node
  unfolding current_entry
  open_node flags log_all matched decide open_object n =
      if not (flags % 4 == 0)
      then (open_refused erofs, n)
      else opened_with log_all matched decide open_object (current_entry attr_ttl world n)
