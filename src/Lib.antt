-- ===== src/Lib.antt =====
-- mediastub keeps large media files on a remote and shows them locally as sparse stubs, which hold
-- the container's metadata and read as zeros elsewhere. This library models the parts of it that
-- decide which bytes a stub holds, and when files are uploaded, replaced and removed.
--
-- Parts, and where they are modelled:
--
-- * core/plan.go (Core/Plan): `NewPlan` is `new_plan`, `Plan.ReadAt` is `read_at`. The buffer of a
--   read is a length, and the result holds the bytes that were written to its front.
--   Core/Plan/Normal is about the order of extents, which `sort_extents` sorts by insertion, as
--   `sort.Slice` does for up to twelve; beyond that, the order of extents with the same offset may
--   be another. Core/Plan/Reading is about the sparse file that a plan describes.
-- * core/source.go (Core/Source): a `Source` is a state, a size and a read. `NewBudgetedSource` is
--   `limits_of` with `new_budgeted`, `BudgetedSource.ReadAt` is `budgeted_read`, `BytesSource` is
--   `bytes_source`. The mutex of `BudgetedSource` makes a read one step. Core/Source/Faithful says
--   what it is for a source to read from fixed contents (`Serves`), Core/Source/Accounting counts
--   the reads of the source below. Core/ReadSeeker is `sourceReadSeeker`.
-- * core/matroska.go (Core/Ebml, Core/MatroskaPrefix, Core/Matroska): `vintLength`, `encodeVINT`
--   and `readEBMLElement` behind its read (`parse_element`); `buildMatroskaPrefix` behind its read
--   (`prefix_of`); the scan for metadata and `probeMatroska`.
-- * core/mp4.go (Core/Mp4): `scanMP4TopLevel` and `probeMP4`.
-- * core/probe.go (Core/Probe): `Probe`, which wraps the source into a `BudgetedSource`, reads the
--   first 64 bytes and hands the bounded source to one of the two probes.
-- * core/plan.go again (Core/PlanHash): the bytes that `Plan.Hash` feeds to SHA-256.
-- * origin/origin.go (Origin, Origin/CleanPath): `ReadFullAt` over an `Object` in some state, the
--   source that the package syncer makes of it, and `CleanPath`. Paths holds the functions of the
--   Go packages path, strings and strconv.
-- * syncer/sidecar.go (Syncer/Sidecar): `ClassifySidecar`. `strings.ToLower` is the parameter
--   `to_lower`.
-- * syncer/materialize.go (Syncer/Publish): `materializePlanGuarded`.
-- * syncer/media.go (Syncer/Media, Syncer/Upload, Syncer/Reconcile): `reconcileMediaFiles` and what
--   it calls. A function that talks to the remote, the file system, the packages core and marker or
--   the state store makes a `Call` (Syncer/World), and an `Env` answers it by the history of all
--   calls so far, so that every behaviour of the world is among the answers. The fields of
--   `Service` that change are the state `Run`, with the history as its `trace`. Syncer/Safety says
--   which histories are safe. Syncer/Settling is about the loop of `waitStableMedia`.
-- * mountfs/service.go (Mountfs/Cache, Mountfs/Cache/Callers, Mountfs/View): the callers of
--   `decide` share calls of the cache by pointers, so calls stand in a store (`Shared`), and each
--   caller is at a place of its own (`Caller`). A `Step` is what one caller does between two points
--   at which others may come in: the section of `cachedCall` under the mutex, an end of its
--   `select`, the probe, and `finishCall`. `NewService`, `OpenView` and the reads of the two views
--   are functions. Mountfs/Stubs goes from `core.Probe` to what is read of a stub.
-- * mountfs/fuse.go (Mountfs/View, Mountfs/Process, Mountfs/Attributes, Mountfs/Node):
--   `fileHandle.Read`, the matching of processes, and `Getattr`, `Lookup`, `Readdir` and `Open` of
--   a node, each with what the origin and the clock answer during the call (`World`), and with the
--   order in which `sort.Slice` leaves entries. `path.Match` is the parameter `path_match`.
-- * marker/marker.go (Marker): `Set` writes to a map of attributes, and `Inspect` reads through a
--   function that may fail.
-- * pathfilter/matcher.go (Pathfilter): `New`, `ParseCommaSeparated` and `Match`.
-- * syncer/service.go (Syncer/Hash): `hashRemote` behind the answer of `Open`, with SHA-256 as the
--   parameter `digest`.
-- * syncer/state.go (Syncer/Store): `openStateStore` and `Save`, over the files `state.json` and
--   its temporary (`Disk`). `fails` says which calls of the system fail, and a save lists the files
--   as they were after each change. A rename is one change, and a file that was not synced without
--   an error may hold any bytes. JSON is the parameter `unmarshal` and an argument of `save_store`.
-- * syncer/scan.go (Syncer/Scan): `scanRemote`, with the orders in which Go ranges over a map as
--   parameters, of which `Reordered` says what they may be. Syncer/Scan/Visits is about the
--   directories that a scan lists, Syncer/Scan/Growth about what they add to a snapshot.
--
-- Core/Action is the language of the probes: the state of the source is threaded through, an error
-- ends the code, and `stuck` stands for a loop that ran out of fuel. Core/Stub is about plans whose
-- extents are cut out of a file.
--
-- Numbers. Sizes and offsets are ℕ where the code has checked their sign, ℤ where it has not. The
-- uint64 arithmetic of `readEBMLElement` wraps. A sum of an offset in a file, a header and a size
-- of an element, or of an offset and a buffer's length, stays below 2 ^ 63 for files below 2 ^ 62
-- bytes, so it is a sum of ℕ; the sums of `Seek` wrap. Differences that may be negative in the code
-- are written as comparisons of sums.
--
-- Fuel. `ReadFullAt` gets as many rounds as bytes are asked for, and a round reads a byte at least.
-- The scans get as many rounds as the file has bytes, and a round moves on by two bytes at least. A
-- wait of the synchronizer for a file to settle gets `wait_rounds` rounds, any number: a clock
-- whose deadline passes after some number of waits makes that number enough, and the error
-- `out_of_rounds` stands for a number that is not. The same error ends a scan that goes deeper into
-- directories than its bound. `hashRemote` gets a round for each byte and one more.
--
-- Not modelled: texts of error messages and logs; input and output of the operating system; the
-- implementations of origins; the scan of local files and the transfer of sidecars of the package
-- syncer, but for `hashRemote`; the set-up of the FUSE server; the command. In the package syncer a
-- fingerprint stands for its parts, and the URL of a remote object is a parameter.
pub mod Prelude
pub mod Core
pub mod Paths
pub mod Origin
pub mod Syncer
pub mod Marker
pub mod Pathfilter
pub mod Mountfs
pub mod Tests
