-- ===== src/Overlay/Serve/Known.antt =====
-- Every number that `lookup` of src/overlay.rs gives to the kernel leads back to a file.
use fuse_overlayfs.Base.{
  ℕ, ◌+◌, ◌%◌, ◌^◌, result_both, ◌≡◌, ◌⊎◌, inl, inr, refl, sym, ap, ◌∙◌, Bool, true, false, not,
  ◌||◌, Option, none, some, arith, ok, err, FsResult, ◌==◌, starts_with, Option-cases, if_both,
  option_both, nat_key,
}
use mathlib.Core.Path.{subst}
use fuse_overlayfs.Base.Map
use fuse_overlayfs.Base.Map.{get-insert}
use fuse_overlayfs.Config.{OverlayConfig}
use fuse_overlayfs.Datasource.{Bytes, Stat}
use fuse_overlayfs.Node.{NodeId, OvlNode, get_node, contains_node, is_dir}
use fuse_overlayfs.Node.Path.{compute_path}
use fuse_overlayfs.Node.Inodes.{
  InodeKey, InodeTable, inode_key, same_key_iff, key_to_fuse_ino, get_by_key, register, inc_lookup,
}
use fuse_overlayfs.Node.Inodes.Invariant.{IsConsistent, register-IsConsistent, update-IsConsistent}
use fuse_overlayfs.Node.Inodes.Register.{register-Registers}
use fuse_overlayfs.Overlay.{OverlayInner, child_of, whiteout_in, lookup_node_id, wh_prefix}
use fuse_overlayfs.Overlay.Load.{load_dir_impl}
use fuse_overlayfs.Overlay.Lookup.{do_lookup_file, reload_dir}
use fuse_overlayfs.Overlay.Lookup.Insert.{do_lookup_file-IsConsistent}
use fuse_overlayfs.Overlay.Attr.{Calls, rpl_stat, rpl_stat_with_path}
use fuse_overlayfs.Overlay.Serve.{
  Reply, Answer, error, entry, key_of, fast_child, fast_lookup, registered, finish_lookup,
  refresh_dir, stat_answer, after_refresh, after_lookup, slow_lookup, lookup, holds,
}

-- The number of a reply is the root's, or stands for a key of the table and leads back to it.
abbrev pub IsKnown : InodeTable → Reply → Type 0
IsKnown t (error e) = Unit
IsKnown t (entry f st) =
    (f ≡ 1)
    ⊎ ((key : InodeKey) × (key_to_fuse_ino t key ≡ some f) × (Map.get f t.fuse_map ≡ some key))

pub record IsGood (s : OverlayInner) (r : Reply) : Type 0 where
  pub consistent : IsConsistent s.inodes
  pub known : IsKnown s.inodes r

abbrev Good : Answer → Type 0
Good (s, r) = IsGood s r

abbrev AllGood : Option Answer → Type 0
AllGood none = Unit
AllGood (some answer) = Good answer

-- Counting a look-up changes no number.
inc_lookup-Keeps :
    (t : InodeTable) (key k : InodeKey)
    → (key_to_fuse_ino (inc_lookup t key) k ≡ key_to_fuse_ino t k)
      × ((inc_lookup t key).fuse_map ≡ t.fuse_map)
unfolding inc_lookup key_to_fuse_ino
inc_lookup-Keeps t key k = elim (Option-cases (Map.get key t.table)) [
  | inl gone ↦ (ground arith, ground arith)
  | inr at ↦ (
    ground (
      arith,
      at.1,
      get-insert key k (record at.0 { lookups = (at.0.lookups + 1) % 2 ^ 64 }) t.table,
      same_key_iff key k,
    ),
    ground arith,
  )
]

-- An entry that is found under its key, with a look-up counted.
counted :
    (s : OverlayInner) (t : InodeTable) (key : InodeKey) (f : ℕ) (st : Stat)
    → IsConsistent t
    → key_to_fuse_ino t key ≡ some f
    → Map.get f t.fuse_map ≡ some key
    → IsGood (record s { inodes = inc_lookup t key }) (entry f st)
counted s t key f st c found back = record {
  consistent = (update-IsConsistent t key 0 c).1;
  known = inr (
    key,
    (inc_lookup-Keeps t key key).0 ∙ found,
    ap (λ m. Map.get f m) (inc_lookup-Keeps t key key).1 ∙ back,
  );
}

-- In a consistent table the number under a key leads back.
leads_back :
    (t : InodeTable) (key : InodeKey) (f : ℕ)
    → IsConsistent t
    → key_to_fuse_ino t key ≡ some f
    → Map.get f t.fuse_map ≡ some key
unfolding key_to_fuse_ino
leads_back t key f c found = elim (Option-cases (Map.get key t.table)) [
  | inl gone ↦ absurd (ground arith)
  | inr at ↦ ground (arith, at.1, c.mapped key at.0)
]

registered-Good :
    (s : OverlayInner) (node_id : NodeId) (node : OvlNode) (st : Stat)
    → IsConsistent s.inodes
    → Good (
        registered s node st
          (register s.inodes s.nodes node_id node.tmp_ino node.tmp_dev st.st_mode))
registered-Good s node_id node st c =
    elim (Option-cases (register s.inodes s.nodes node_id node.tmp_ino node.tmp_dev st.st_mode)) [
      | inl e ↦
          subst (λ o. Good (registered s node st o)) (sym e) (record { consistent = c; known = tt })
      | inr e ↦
          let r =
            register-Registers s.inodes s.nodes node_id node.tmp_ino node.tmp_dev st.st_mode e.0.0
              e.0.1 c e.1 in
          subst (λ o. Good (registered s node st o)) (sym e.1)
            (counted s e.0.0 (key_of node) e.0.1 st
              (register-IsConsistent s.inodes s.nodes node_id node.tmp_ino node.tmp_dev st.st_mode
                e.0.0 e.0.1 c e.1)
              r.found r.back)
    ]

refresh_dir-inodes :
    (s : OverlayInner) (node_id : NodeId) (config : OverlayConfig)
    → (refresh_dir s node_id config).0.inodes ≡ s.inodes
unfolding refresh_dir reload_dir load_dir_impl
refresh_dir-inodes s node_id config = ground arith

fast_child-AllGood :
    (calls : Calls) (s : OverlayInner) (child_id : NodeId) (node : OvlNode) (config : OverlayConfig)
    → IsConsistent s.inodes
    → AllGood (fast_child calls s child_id node config)
unfolding fast_child
fast_child-AllGood calls s child_id node config c =
    option_both AllGood (key_to_fuse_ino s.inodes (key_of node)) (λ _. tt)
      (λ f found.
        if_both AllGood (holds child_id (get_by_key s.inodes (key_of node)))
          (λ _.
            result_both AllGood
              (rpl_stat_with_path calls s child_id none config (compute_path s.nodes child_id))
              (λ e. tt)
              (λ st.
                counted s s.inodes (key_of node) f st c found
                  (leads_back s.inodes (key_of node) f c found)))
          (λ _. tt))

finish_lookup-Good :
    (s : OverlayInner) (node_id : NodeId) (st : Stat)
    → IsConsistent s.inodes
    → Good (finish_lookup s node_id st)
unfolding finish_lookup
finish_lookup-Good s node_id st c =
    option_both Good (get_node s.nodes node_id) (λ _. record { consistent = c; known = tt })
      (λ node _.
        if_both Good (not (node.tmp_ino == 0) || is_dir node)
          (λ _. registered-Good s node_id node st c)
          (λ _. record { consistent = c; known = inl refl }))

stat_answer-Good :
    (s : OverlayInner) (node_id : NodeId) (r : FsResult Stat)
    → IsConsistent s.inodes
    → Good (stat_answer s node_id r)
stat_answer-Good s node_id (err e) c = record { consistent = c; known = tt }
stat_answer-Good s node_id (ok st) c = finish_lookup-Good s node_id st c

after_refresh-Good :
    (calls : Calls) (node_id : NodeId) (config : OverlayConfig) (r : OverlayInner × Bool)
    → IsConsistent r.0.inodes
    → Good (after_refresh calls node_id config r)
after_refresh-Good calls node_id config (s, false) c = record { consistent = c; known = tt }
after_refresh-Good calls node_id config (s, true) c =
    stat_answer-Good s node_id (rpl_stat calls s node_id none config) c

after_lookup-Good :
    (calls : Calls) (config : OverlayConfig) (r : OverlayInner × Option NodeId)
    → IsConsistent r.0.inodes
    → Good (after_lookup calls config r)
after_lookup-Good calls config (s, none) c = record { consistent = c; known = tt }
after_lookup-Good calls config (s, some node_id) c =
    if_both Good (contains_node s.nodes node_id)
      (λ _.
        after_refresh-Good calls node_id config (refresh_dir s node_id config)
          (subst IsConsistent (sym (refresh_dir-inodes s node_id config)) c))
      (λ _. record { consistent = c; known = tt })

fast_lookup-AllGood :
    (calls : Calls) (s : OverlayInner) (parent : ℕ) (name : Bytes) (config : OverlayConfig)
    → IsConsistent s.inodes
    → AllGood (fast_lookup calls s parent name config)
unfolding fast_lookup
fast_lookup-AllGood calls s parent name config c =
    let refused : IsGood s (error 2) = record { consistent = c; known = tt } in
    option_both AllGood (lookup_node_id s parent) (λ _. tt)
      (λ p _.
        if_both AllGood (whiteout_in s.nodes p name) (λ _. refused)
          (λ _.
            option_both AllGood (child_of s.nodes p name) (λ _. tt)
              (λ id _.
                option_both AllGood (get_node s.nodes id) (λ _. refused)
                  (λ node _.
                    if_both AllGood node.hidden (λ _. refused)
                      (λ _. fast_child-AllGood calls s id node config c)))))

or_slow :
    (o : Option Answer) (slow : Answer)
    → AllGood o
    → Good slow
    → Good (elim o [ none ↦ slow | some a ↦ a ])
or_slow none slow h k = k
or_slow (some a) slow h k = h

-- On a consistent inode table, `lookup` of any name under any number, on its fast and its slow path,
-- leaves the table consistent, and a reply that is no error has a number that is the root's or is
-- found under a key and leads back to that key.
pub lookup-IsGood :
    (calls : Calls) (s : OverlayInner) (parent : ℕ) (name : Bytes) (config : OverlayConfig)
    → IsConsistent s.inodes
    → IsGood (lookup calls s parent name config).0 (lookup calls s parent name config).1
unfolding lookup slow_lookup
lookup-IsGood calls s parent name config c =
    if_both Good (starts_with name wh_prefix) (λ _. record { consistent = c; known = tt })
      (λ _.
        or_slow (fast_lookup calls s parent name config)
          (after_lookup calls config (do_lookup_file s parent (some name)))
          (fast_lookup-AllGood calls s parent name config c)
          (after_lookup-Good calls config (do_lookup_file s parent (some name))
            (do_lookup_file-IsConsistent s parent (some name) c)))
