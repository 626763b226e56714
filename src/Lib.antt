-- ===== src/Lib.antt =====
-- A model of fuse-overlayfs, a FUSE file system that shows several directory trees (the layers, the
-- upper one writable) as one, and theorems about it.
--
-- The parts, and how they work together. A layer is reached through the operations of
-- src/datasource.rs (Datasource.antt); these are functions of the layer's content at one moment.
-- The overlay (src/overlay.rs, Overlay.antt) keeps a tree of nodes in an arena (src/node.rs,
-- Node.antt), an inode table that gives out the numbers the kernel sees (Node/Inodes.antt), and the
-- list of layers (src/layer.rs, Layer.antt). A directory's node has its children, the names that
-- are whited out, and a flag that tells whether it is loaded. `load_dir_impl` merges a directory
-- over the layers (Overlay/Load.antt); `do_lookup_file` looks one name up, in the node or, where
-- the node is not loaded, in the layers (Overlay/Lookup.antt). `rpl_stat` is the stat that the
-- kernel is shown (Overlay/Attr.antt), after an override kept in an extended attribute
-- (Overlay/Override.antt). The handlers `lookup` and `forget`, and the states that they reach, are
-- in Overlay/Serve.antt. src/whiteout.rs says which directories are opaque (Whiteout.antt).
-- src/config.rs reads the command line (Config.antt). src/mapping.rs maps identifiers between host
-- and container (Mapping.antt). src/xattr.rs says which extended attributes are shown, and under
-- what name (Xattr.antt).
--
-- How state is modelled. Each operation takes the state and returns the new one with its result. A
-- map is an association list, a set is a list. Names and paths are lists of byte values. Integers
-- are natural numbers, with `% 2 ^ w` where the code wraps; the look-up count of an inode, an
-- `i64`, is given by its bit pattern. Errors are errno numbers in `FsResult` (src/error.rs,
-- Base/Errors.antt). The atomic counters of src/node.rs are fields of arena and table.
--
-- Loops over layers and entries are recursion on the list. `compute_path` walks with fuel one above
-- the number of nodes: a walk to the root meets each node once (Node/Path/Depth.antt). The search
-- for a free inode number has fuel two above the size of the map: each number in use is met once
-- (Node/Inodes/Fresh.antt).
--
-- The merged view (Overlay/Load/View.antt) is said of the layers alone: the first layer that lists
-- a name shows it, a whiteout file or a character device 0/0 hides it, and layers below an opaque
-- directory, below a file, or below the directory's last layer do not count.
--
-- Of a 64-bit float only the texts that are accepted are modelled. Lines printed to the terminal
-- are left out.
--
-- The kernel is a record of calls (Sys.antt) over a type of worlds that nothing is assumed of; code
-- that makes calls is an action on a world (Sys/Actions.antt), which keeps the world when it fails.
-- src/sys/openat2.rs is Sys/Openat.antt, src/direct.rs is Direct.antt, `init_layers` of src/layer.rs
-- is Layer/Init.antt, the writing of whiteouts is Whiteout/Change.antt, and src/copyup.rs is
-- Copyup.antt with its child modules. Overlay/Mount.antt joins the world to the state of the overlay;
-- code that only reads layers sees them at one world. On it stand the handlers that remove
-- (Overlay/Remove.antt), create (Overlay/Create.antt, Overlay/CreateFile.antt), link
-- (Overlay/Link.antt), rename (Overlay/Rename.antt, Overlay/Relink.antt), and the ones that read
-- (Overlay/Query.antt, Overlay/ReadDir.antt). Overlay/Reach.antt is a step of any of these, or of
-- another process on the files.
--
-- Flag values are those of x86-64 Linux. Descriptors are numbers, and closing one is not modelled.
-- Copying up a directory walks to its parents with fuel one above the number of nodes, and does what
-- a recursion on the path does (Copyup/Dirs/Ends.antt). The loops that copy data are given a number
-- of rounds and fail with `out_of_fuel`, which is no errno, where it is not enough; how many are
-- enough for a kernel that makes progress on a file is in Copyup/Contents/Ends.antt.
--
-- Not modelled: the FUSE handlers that are not named here (setattr, open, read, write, the attribute
-- handlers, and those on descriptors), the tables of open files and directories, the rest of src/sys,
-- and src/main.rs. The lock of the overlay is not modelled: each handler is one step.
pub mod Base
pub mod Mapping
pub mod Config
pub mod Datasource
pub mod Sys
pub mod Xattr
pub mod Layer
pub mod Node
pub mod Whiteout
pub mod Direct
pub mod Copyup
pub mod Overlay
pub mod Tests
