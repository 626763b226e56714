-- ===== src/Overlay/Relink/Exchanged.antt =====
-- Which names the directories have after `rename` of src/overlay.rs has exchanged two in memory.
use fuse_overlayfs.Base.{
  ◌≡◌, refl, ap, ◌∙◌, Bool, true, false, ◌&&◌, Option, none, some, arith, ◌==◌, ok, FsResult,
  if◌then◌else◌, bytes_eq, nat_key, if_both,
}
use fuse_overlayfs.Datasource.{Bytes}
use fuse_overlayfs.Node.{
  NodeId, OvlNode, NodeArena, DirState, get_node, update_node, is_dir, mark_unloaded, state_is_dir,
  state_set_loaded, state_get_child, state_insert_child, not_a_dir, dir, insert_child, remove_child,
  get_child,
}
use fuse_overlayfs.Node.Children.{map_option, get-update_node}
use fuse_overlayfs.Overlay.{child_of}
use fuse_overlayfs.Overlay.Names.{child_of-update, child_of-unlinked, child_of-linked}
use fuse_overlayfs.Overlay.Relink.{
  is_dir_node, unload_dir, renamed, unlinked, linked, exchange_nodes, exchange,
}
use fuse_overlayfs.Overlay.Relink.Moved.{is_dir_node-update, is_dir-remove_child}

get_child-set_loaded :
    (b : Bool) (d : DirState) (name : Bytes)
    → state_get_child name (state_set_loaded b d) ≡ state_get_child name d
get_child-set_loaded b not_a_dir name = refl
get_child-set_loaded b (dir kids whiteouts loaded) name = refl

is_dir-set_loaded : (b : Bool) (d : DirState) → state_is_dir (state_set_loaded b d) ≡ state_is_dir d
is_dir-set_loaded b not_a_dir = refl
is_dir-set_loaded b (dir kids whiteouts loaded) = refl

-- A node that gets another place keeps its children, and whether it is a directory.
get_child-unload_dir :
    (name : Bytes) (parent : Option NodeId) (n : OvlNode) (other : Bytes)
    → get_child (unload_dir (renamed name parent n)) other ≡ get_child n other
unfolding get_child is_dir mark_unloaded
get_child-unload_dir name parent n other =
    if_both (λ (m : OvlNode). state_get_child other m.dir_state ≡ state_get_child other n.dir_state)
      (state_is_dir n.dir_state) (λ e. get_child-set_loaded false n.dir_state other) λ e. refl

is_dir-unload_dir :
    (name : Bytes) (parent : Option NodeId) (n : OvlNode)
    → is_dir (unload_dir (renamed name parent n)) ≡ is_dir n
unfolding is_dir mark_unloaded
is_dir-unload_dir name parent n =
    if_both (λ (m : OvlNode). state_is_dir m.dir_state ≡ state_is_dir n.dir_state)
      (state_is_dir n.dir_state) (λ e. is_dir-set_loaded false n.dir_state) λ e. refl

is_dir-insert_child :
    (name : Bytes) (id : NodeId) (n : OvlNode) → is_dir (insert_child n name id).1 ≡ is_dir n
unfolding is_dir insert_child
is_dir-insert_child name id n = go n.dir_state
  where
    go : (d : DirState) → state_is_dir (state_insert_child name id d) ≡ state_is_dir d
    go not_a_dir = refl
    go (dir kids whiteouts loaded) = refl

-- A node with a child is a directory.
child_of-is_dir :
    (a : NodeArena) (p : NodeId) (name : Bytes) (id : NodeId)
    → child_of a p name ≡ some id
    → is_dir_node a p ≡ true
unfolding child_of get_child is_dir
child_of-is_dir a p name id e = go (get_node a p) e
  where
    state : (d : DirState) → state_get_child name d ≡ some id → state_is_dir d ≡ true
    state not_a_dir e = cc
    state (dir kids whiteouts loaded) e = refl

    go :
        (o : Option OvlNode)
        → elim o as (λ _. Option NodeId) [ none ↦ none | some n ↦ state_get_child name n.dir_state ]
          ≡ some id
        → elim o as (λ _. Bool) [ none ↦ false | some n ↦ state_is_dir n.dir_state ] ≡ true
    go none e = cc
    go (some n) e = state n.dir_state e

-- A node of the arena is still there after a name has been taken from a directory.
unlinked_node :
    (a : NodeArena) (p : NodeId) (name : Bytes) (id : NodeId) (n : OvlNode)
    → get_node a id ≡ some n
    → (m : OvlNode) × (get_node (unlinked p name a) id ≡ some m)
unlinked_node a p name id n e = go (p == id) (
    get-update_node a p id (λ n. (remove_child n name).1)
    ∙ ap (λ o. if p == id then map_option (λ n. (remove_child n name).1) o else o) e)
  where
    go :
        (b : Bool)
        → get_node (unlinked p name a) id ≡ (if b then some (remove_child n name).1 else some n)
        → (m : OvlNode) × (get_node (unlinked p name a) id ≡ some m)
    go true h = (_, h)
    go false h = (n, h)

module _ (sp : NodeId) (name : Bytes) (dp : NodeId) (newname : Bytes) (a : NodeArena)
    (sid did : NodeId) where
  both_unlinked : NodeArena
  both_unlinked = unlinked dp newname (unlinked sp name a)

  -- The names after the exchange.
  abbrev pub exchanged : NodeId → Bytes → Option NodeId
  exchanged q other =
      if (sp == q) && bytes_eq name other
      then some did
      else if (dp == q) && bytes_eq newname other
      then some sid
      else child_of a q other

  collapse :
      (b c : Bool) (o : Option NodeId)
      → (if b then some did else if c then some sid else if c then none else if b then none else o)
        ≡ (if b then some did else if c then some sid else o)
  collapse true c o = refl
  collapse false true o = refl
  collapse false false o = refl

  exchange_nodes-child_of :
      (s d : OvlNode)
      → is_dir_node a sp ≡ true
      → is_dir_node a dp ≡ true
      → (q : NodeId) (other : Bytes)
      → child_of (exchange_nodes sp name dp newname sid s did d both_unlinked) q other
        ≡ exchanged q other
  unfolding both_unlinked
  exchange_nodes-child_of s d s_dir d_dir q other =
      child_of-linked sp name did (linked dp newname sid both_moved) q other (
        is_dir_node-update both_moved dp (λ n. (insert_child n newname sid).1) sp
          (is_dir-insert_child newname sid)
        ∙ still_dir sp
        ∙ s_dir)
      ∙ ap (λ c. if (sp == q) && bytes_eq name other then some did else c)
          (child_of-linked dp newname sid both_moved q other (still_dir dp ∙ d_dir)
            ∙ ap (λ c. if (dp == q) && bytes_eq newname other then some sid else c)
                (child_of-update one_moved did _ (get_child-unload_dir s.name s.parent) q other
                  ∙ child_of-update both_unlinked sid _ (get_child-unload_dir d.name d.parent) q
                      other
                  ∙ child_of-unlinked dp newname (unlinked sp name a) q other
                  ∙ ap (λ c. if (dp == q) && bytes_eq newname other then none else c)
                      (child_of-unlinked sp name a q other)))
      ∙ collapse ((sp == q) && bytes_eq name other) ((dp == q) && bytes_eq newname other)
          (child_of a q other)
    where
      one_moved : NodeArena
      one_moved = update_node both_unlinked sid (λ n. unload_dir (renamed d.name d.parent n))

      both_moved : NodeArena
      both_moved = update_node one_moved did (λ n. unload_dir (renamed s.name s.parent n))

      still_dir : (p : NodeId) → is_dir_node both_moved p ≡ is_dir_node a p
      still_dir p =
          is_dir_node-update one_moved did _ p (is_dir-unload_dir s.name s.parent)
          ∙ is_dir_node-update both_unlinked sid _ p (is_dir-unload_dir d.name d.parent)
          ∙ is_dir_node-update (unlinked sp name a) dp _ p (is_dir-remove_child newname)
          ∙ is_dir_node-update a sp _ p (is_dir-remove_child name)

  exchange_run :
      (s d : OvlNode)
      → child_of a sp name ≡ some sid
      → child_of (unlinked sp name a) dp newname ≡ some did
      → get_node both_unlinked sid ≡ some s
      → get_node both_unlinked did ≡ some d
      → ◌≡◌ {A = NodeArena × FsResult (Unit {0})}
          (exchange sp name dp newname a)
          (exchange_nodes sp name dp newname sid s did d both_unlinked, ok tt)
  unfolding exchange both_unlinked
  exchange_run s d es ed at_s at_d = ground arith

  -- Where two names of directories stand for nodes of the arena and are not one and the same name,
  -- the exchange in memory succeeds: each of the two names stands for the other's node, and no other
  -- name of any directory changes.
  pub exchange-exchanged :
      (s d : OvlNode)
      → child_of a sp name ≡ some sid
      → child_of a dp newname ≡ some did
      → (sp == dp) && bytes_eq name newname ≡ false
      → get_node a sid ≡ some s
      → get_node a did ≡ some d
      → ((exchange sp name dp newname a).1 ≡ ok tt)
        × ((q : NodeId) (other : Bytes)
            → child_of (exchange sp name dp newname a).0 q other ≡ exchanged q other)
  unfolding both_unlinked
  exchange-exchanged s d es ed apart at_s at_d =
      let (s1, s1_at) = unlinked_node a sp name sid s at_s in
      let (s2, s2_at) = unlinked_node (unlinked sp name a) dp newname sid s1 s1_at in
      let (d1, d1_at) = unlinked_node a sp name did d at_d in
      let (d2, d2_at) = unlinked_node (unlinked sp name a) dp newname did d1 d1_at in
      let found : child_of (unlinked sp name a) dp newname ≡ some did =
        child_of-unlinked sp name a dp newname
        ∙ ap (λ b. if b then none else child_of a dp newname) apart
        ∙ ed in
      let run = exchange_run s2 d2 es found s2_at d2_at in
      let s_dir = child_of-is_dir a sp name sid es in
      let d_dir = child_of-is_dir a dp newname did ed in
      (
        ap (λ r. r.1) run,
        λ q other.
            ap (λ (r : NodeArena × FsResult (Unit {0})). child_of r.0 q other) run
            ∙ exchange_nodes-child_of s2 d2 s_dir d_dir q other,
      )
