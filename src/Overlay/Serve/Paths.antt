-- ===== src/Overlay/Serve/Paths.antt =====
-- The fast path of `lookup` in src/overlay.rs answers as the slow path would.
use fuse_overlayfs.Base.{
  ℕ, ◌≡◌, ap, ◌∙◌, Bool, true, false, not, ◌&&◌, Option, none, some, List, [], ◌∷◌, arith, ok, ◌==◌,
  is_empty, retain, contains, nat_key, Option-cases, inl, inr,
}
use fuse_overlayfs.Base.Map
use fuse_overlayfs.Config.{OverlayConfig}
use fuse_overlayfs.Datasource.{Bytes, Stat}
use fuse_overlayfs.Node.{NodeId, OvlNode, NodeArena, get_node, contains_node, is_dir, is_loaded}
use fuse_overlayfs.Node.Inodes.{
  InodeTable, OvlIno, inode_key, key_to_fuse_ino, get_by_key, register, register_existing,
}
use fuse_overlayfs.Overlay.{OverlayInner, child_of, lookup_node_id}
use fuse_overlayfs.Overlay.Lookup.{do_lookup_file, lookup_child, reload_dir}
use fuse_overlayfs.Overlay.Attr.{Calls, rpl_stat}
use fuse_overlayfs.Overlay.Serve.{
  Answer, entry, key_of, fast_child, registered, finish_lookup, refresh_dir, slow_lookup,
}

-- A node of the entry that is in the arena is among the live ones.
retain-contains :
    (a : NodeArena) (id : NodeId) (ids : List NodeId)
    → contains id ids ≡ true
    → contains_node a id ≡ true
    → is_empty (retain (contains_node a) ids) ≡ false
unfolding contains retain
retain-contains a id [] h k = ground arith
retain-contains a id (x ∷ ids) h k = ground (arith, retain-contains a id ids)

abbrev number_of : Option (InodeTable × ℕ) → Option ℕ
number_of none = none
number_of (some (t, f)) = some f

-- Registering a node that is registered and in the arena gives its number again.
register-registered :
    (t : InodeTable) (a : NodeArena) (id : NodeId) (ino dev mode : ℕ) (o : OvlIno)
    → Map.get (record { ino = ino; dev = dev }) t.table ≡ some o
    → contains id o.nodes ≡ true
    → contains_node a id ≡ true
    → number_of (register t a id ino dev mode) ≡ some o.fuse_ino
unfolding register register_existing
register-registered t a id ino dev mode o e h k =
    ground (arith, e, retain-contains a id o.nodes h k)

registered-entry :
    (s : OverlayInner) (node : OvlNode) (st : Stat) (r : Option (InodeTable × ℕ)) (f : ℕ)
    → number_of r ≡ some f
    → (registered s node st r).1 ≡ entry f st
registered-entry s node st none f h = absurd (ground arith)
registered-entry s node st (some (t, g)) f h = ground arith

module _ (calls : Calls) (s : OverlayInner) (parent : ℕ) (name : Bytes) (config : OverlayConfig)
    (p child : NodeId) (node : OvlNode) (s' : OverlayInner) (f : ℕ) (st : Stat)
    (parent_found : lookup_node_id s parent ≡ some p)
    (child_found : child_of s.nodes p name ≡ some child) (at : get_node s.nodes child ≡ some node)
    (shown : node.hidden ≡ false) (numbered : (node.tmp_ino == 0) ≡ false)
    (fresh : not config.static_nlink && is_dir node && not (is_loaded node) ≡ false)
    (answered : ◌≡◌ {A = Option Answer}
      (fast_child calls s child node config)
      (some (s', entry f st))) where
  found_again :
      ◌≡◌ {A = OverlayInner × Option NodeId} (do_lookup_file s parent (some name)) (s, some child)
  unfolding do_lookup_file lookup_child
  found_again = ground (arith, parent_found, child_found)

  not_refreshed : ◌≡◌ {A = OverlayInner × Bool} (refresh_dir s child config) (s, true)
  unfolding refresh_dir reload_dir
  not_refreshed = ground (arith, at, fresh)

  stat_again : rpl_stat calls s child none config ≡ ok st
  unfolding rpl_stat fast_child
  stat_again = ground (arith, at, shown, answered)

  number_again :
      (o : OvlIno) × (Map.get (key_of node) s.inodes.table ≡ some o)
      × (contains child o.nodes ≡ true)
      × (o.fuse_ino ≡ f)
  unfolding fast_child key_to_fuse_ino get_by_key
  number_again = elim (Option-cases (Map.get (key_of node) s.inodes.table)) [
    | inl gone ↦ absurd (ground (arith, answered))
    | inr there ↦
        (there.0, there.1, ground (arith, answered, there.1), ground (arith, answered, there.1))
  ]

  finished : (finish_lookup s child st).1 ≡ entry f st
  unfolding finish_lookup contains_node get_node
  finished =
      let there : contains_node s.nodes child ≡ true = ground (arith, at) in
      let o = number_again in
      let reg =
        register-registered s.inodes s.nodes child node.tmp_ino node.tmp_dev st.st_mode o.0 o.1 o.2
          there
        ∙ ap some o.3 in
      let reply =
        registered-entry s node st
          (register s.inodes s.nodes child node.tmp_ino node.tmp_dev st.st_mode) f reg in
      ground (arith, at, numbered, reply)

  -- Where the fast path of `lookup` answers with an entry, the slow path would answer with the same
  -- number and the same stat. The conditions: the name is a child of the node looked up, which is in
  -- the arena, not hidden, and has an inode number; and it is not a directory that the slow path
  -- would load first.
  pub slow_lookup-fast_child : (slow_lookup calls s parent name config).1 ≡ entry f st
  unfolding slow_lookup contains_node get_node
  slow_lookup-fast_child = ground (arith, found_again, not_refreshed, stat_again, finished, at)
