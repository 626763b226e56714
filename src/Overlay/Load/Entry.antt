-- ===== src/Overlay/Load/Entry.antt =====
-- `load_entry` of Overlay/Load.antt: what one entry of a layer does to one name of the directory that
-- is being loaded.
use fuse_overlayfs.Base.{
  ℕ, suc, ◌≡◌, sym, ap, Bool, true, false, ◌||◌, none, some, arith, bytes_eq, bytes_eq_iff,
  Bool-cases, inl, inr, is_some, if_both, option_both,
}
use mathlib.Core.Path.{subst}
use fuse_overlayfs.Datasource.{Bytes, DirEntry, DataSource}
use fuse_overlayfs.Node.{NodeId, NodeArena, new_node}
use fuse_overlayfs.Overlay.{child_of, whiteout_in, is_wh_file, wh_prefix_name}
use fuse_overlayfs.Overlay.Load.{
  is_special, is_chardev_entry, entry_node, load_new_entry, load_entry,
}
use fuse_overlayfs.Overlay.Load.Writes.{DirAt}
use fuse_overlayfs.Overlay.Load.Fate.{
  fate, wh_name, entry_fate, after_entry, IsPlain, IsClear, Steps, differs, wh_prefix_name-wh_name,
  wh_prefix_name-plain, is_special-wh_name, wh_prefix_name-some, same-Steps, moved-Steps,
  whiteout-Steps, child-Steps,
}

module _ (ds : DataSource) (layer_idx : ℕ) (path : Bytes) (fast_ino_check : Bool) (entry : DirEntry)
    {a : NodeArena} {p : NodeId} {k : ℕ} {name : Bytes} (d : DirAt a p (suc k))
    (c : IsClear a p name) (plain : IsPlain name)
    (no_file : is_wh_file ds path (wh_name name) ≡ false)
    (not_nested : bytes_eq entry.name (wh_name (wh_name name)) ≡ false) where
  abbrev Good : NodeArena → Type 0
  Good a' = Steps a' p k name (after_entry ds path name entry (fate a p name))

  -- An entry of another name, that is no whiteout file of this one.
  passed_over :
      bytes_eq entry.name name ≡ false
      → bytes_eq entry.name (wh_name name) ≡ false
      → fate a p name ≡ after_entry ds path name entry (fate a p name)
  unfolding entry_fate
  passed_over other other_wh = ground arith

  -- An entry of a name that a child or a whiteout has decided.
  decided :
      is_some (child_of a p entry.name) || whiteout_in a p entry.name ≡ true
      → fate a p name ≡ after_entry ds path name entry (fate a p name)
  unfolding fate entry_fate
  decided h = ground (
    arith,
    bytes_eq_iff entry.name name,
    bytes_eq_iff entry.name (wh_name name),
    c.no_child,
    c.no_whiteout,
  )

  -- An entry that is no whiteout file of any name.
  not_wh_name : wh_prefix_name entry.name ≡ none → bytes_eq entry.name (wh_name name) ≡ false
  not_wh_name no_prefix = elim (Bool-cases (bytes_eq entry.name (wh_name name))) [
    | inl e ↦ absurd (
        cc (
          no_prefix,
          ap wh_prefix_name ((bytes_eq_iff entry.name (wh_name name)).0 e),
          wh_prefix_name-wh_name name plain,
        ))
    | inr e ↦ e
  ]

  -- The name behind the prefix of a whiteout file.
  module _ (w : Bytes) (prefixed : wh_prefix_name entry.name ≡ some w) where
    not_nested_name : bytes_eq w (wh_name name) ≡ false
    unfolding bytes_eq
    not_nested_name =
        subst (λ n. bytes_eq n (wh_name (wh_name name)) ≡ false)
          (sym (wh_prefix_name-some entry.name w prefixed)) not_nested

    wh_name_entry : bytes_eq entry.name (wh_name name) ≡ bytes_eq w name
    unfolding bytes_eq
    wh_name_entry =
        ap (λ n. bytes_eq n (wh_name name)) (sym (wh_prefix_name-some entry.name w prefixed))

    other_entry : bytes_eq entry.name name ≡ false
    other_entry = elim (Bool-cases (bytes_eq entry.name name)) [
      | inl e ↦ absurd (
          cc (
            prefixed,
            ap wh_prefix_name ((bytes_eq_iff entry.name name).0 e),
            wh_prefix_name-plain name plain,
          ))
      | inr e ↦ e
    ]

  load_new_entry-Steps :
      child_of a p entry.name ≡ none
      → whiteout_in a p entry.name ≡ false
      → Good (load_new_entry ds layer_idx p path fast_ino_check entry a)
  unfolding load_new_entry fate entry_fate entry_node new_node
  load_new_entry-Steps new unseen =
      if_both Good (is_wh_file ds path entry.name)
        (λ whited.
          let apart : bytes_eq entry.name (wh_name name) ≡ false =
            differs (is_wh_file ds path) entry.name (wh_name name) whited no_file in
          whiteout-Steps d c entry.name apart (ground (arith, bytes_eq_iff entry.name name)))
        (λ free.
          option_both Good (wh_prefix_name entry.name)
            (λ no_prefix.
              if_both Good (is_chardev_entry ds path entry)
                (λ device.
                  whiteout-Steps d c entry.name (not_wh_name no_prefix)
                    (ground (arith, bytes_eq_iff entry.name name, not_wh_name no_prefix)))
                (λ normal.
                  child-Steps d c (entry_node ds layer_idx p path fast_ino_check entry)
                    (not_wh_name no_prefix)
                    (ground (arith, bytes_eq_iff entry.name name, not_wh_name no_prefix))))
            (λ w prefixed.
              option_both Good (child_of a p w)
                (λ no_child. whiteout-Steps d c w (not_nested_name w prefixed) (
                  ground
                    (arith, bytes_eq_iff w name, wh_name_entry w prefixed, other_entry w prefixed)))
                (λ id old. same-Steps d c (
                  ground (
                    arith,
                    bytes_eq_iff w name,
                    wh_name_entry w prefixed,
                    other_entry w prefixed,
                  )))))

  pub load_entry-Steps : Good (load_entry ds layer_idx p path fast_ino_check entry a)
  unfolding load_entry
  load_entry-Steps =
      if_both Good (is_special entry.name)
        (λ special. same-Steps d c (
          passed_over (differs (λ n. is_special n) entry.name name special plain.not_special) (
            differs (λ n. is_special n) entry.name (wh_name name) special
              (is_special-wh_name name plain))))
        (λ ordinary.
          option_both Good (child_of a p entry.name)
            (λ new.
              if_both Good (whiteout_in a p entry.name)
                (λ seen. same-Steps d c (decided (ground arith)))
                (λ unseen. load_new_entry-Steps new unseen))
            (λ id old. moved-Steps d c id layer_idx (decided (ground arith))))
