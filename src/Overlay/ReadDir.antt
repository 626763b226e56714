-- ===== src/Overlay/ReadDir.antt =====
-- The handlers `readdir` and `readdirplus` of src/overlay.rs, on the entries that `opendir` has put
-- in the directory's handle. `is_full`, of the position and the entry, is the answer of the reply's
-- `add`: the entry does not fit any more, and is not in the reply.
pub mod Pages
use fuse_overlayfs.Base.{ℕ, suc, ◌+◌, Bool, true, false, Option, none, some, List, [], ◌∷◌, drop}
use fuse_overlayfs.Datasource.{Bytes, Stat}
use fuse_overlayfs.Node.{NodeId, OvlNode, get_node}
use fuse_overlayfs.Node.Inodes.{InodeTable, register, inc_lookup}
use fuse_overlayfs.Overlay.{OverlayInner}
use fuse_overlayfs.Overlay.Query.{Entry}
use fuse_overlayfs.Overlay.Serve.{key_of}

-- An entry of a reply: the position after it, and the entry with the number that it shows. Where it
-- has no attributes, the reply makes some of the mode.
pub record Listed : Type 0 where
  pub offset : ℕ
  pub entry : Entry

-- The entries that fit, from a position on.
unfoldable pub add_entries : (ℕ → Entry → Bool) → ℕ → List Entry → List Listed
add_entries is_full i [] = []
add_entries is_full i (e ∷ es) = elim (is_full i e) [
  | true ↦ []
  | false ↦ record { offset = i + 1; entry = e } ∷ add_entries is_full (i + 1) es
]

unfoldable pub readdir : (ℕ → Entry → Bool) → List Entry → ℕ → List Listed
readdir is_full entries offset = add_entries is_full offset (drop offset entries)

-- The number that a node is shown under: its own number where it cannot be registered.
abbrev pub counted : OverlayInner → OvlNode → ℕ → Option (InodeTable × ℕ) → OverlayInner × ℕ
counted s node raw_ino none = (s, raw_ino)
counted s node raw_ino (some (t, ino_val)) =
    (record s { inodes = inc_lookup t (key_of node) }, ino_val)

abbrev pub count_node : OverlayInner → NodeId → ℕ → Option OvlNode → OverlayInner × ℕ
count_node s id raw_ino none = (s, raw_ino)
count_node s id raw_ino (some node) =
    counted s node raw_ino (register s.inodes s.nodes id node.tmp_ino node.tmp_dev node.mode)

abbrev pub count_entry : OverlayInner → ℕ → Option NodeId → OverlayInner × ℕ
count_entry s raw_ino none = (s, raw_ino)
count_entry s raw_ino (some id) = count_node s id raw_ino (get_node s.nodes id)

-- The attributes and the entry show one number.
abbrev numbered_stat : ℕ → Option Stat → Option Stat
numbered_stat n none = none
numbered_stat n (some st) = some (record st { st_ino = n })

abbrev shown_entry : ℕ → Entry → Entry
shown_entry n e = record e { ino = n; attr = numbered_stat n e.attr }

-- Each entry is registered, with a look-up, before it is put in the reply.
unfoldable pub add_counted :
    (ℕ → Entry → Bool) → ℕ → List Entry → OverlayInner → OverlayInner × List Listed
add_counted is_full i [] s = (s, [])
add_counted is_full i (e ∷ es) s =
    let (s', n) = count_entry s e.ino e.node_id in
    elim (is_full i (shown_entry n e)) [
      | true ↦ (s', [])
      | false ↦
          let (s'', rest) = add_counted is_full (i + 1) es s' in
          (s'', record { offset = i + 1; entry = shown_entry n e } ∷ rest)
    ]

unfoldable pub readdirplus :
    (ℕ → Entry → Bool) → OverlayInner → List Entry → ℕ → OverlayInner × List Listed
readdirplus is_full s entries offset = add_counted is_full offset (drop offset entries) s
