-- ===== src/Overlay/Load/Fate.antt =====
-- The fate of one name while a directory is loaded, and what each write to the directory does to it.
use fuse_overlayfs.Base.{
  ℕ, suc, ◌≡◌, sym, ap, ◌∙◌, Bool, true, false, not, ◌&&◌, ◌||◌, none, some, ◌++◌, arith,
  if◌then◌else◌, bytes_eq, bytes_eq_iff, Bool-cases, inl, inr, is_some, starts_with-drop,
  starts_with, codes, drop,
}
use mathlib.Core.Path.{subst, ap₂}
use fuse_overlayfs.Datasource.{Bytes, DirEntry, DataSource}
use fuse_overlayfs.Node.{NodeId, NodeArena, OvlNode, update_node}
use fuse_overlayfs.Overlay.{
  child_of, whiteout_in, insert_child_node, is_wh_file, wh_prefix, wh_prefix_name,
}
use fuse_overlayfs.Overlay.Load.{is_special, add_whiteout, is_chardev_entry}
use fuse_overlayfs.Overlay.Load.Writes.{
  DirAt, DirAt-fewer, add_whiteout-DirAt, child_of-add_whiteout, whiteout_in-add_whiteout,
  moved-DirAt, moved_reads, insert_child_node-DirAt, child_of-insert_child_node,
  whiteout_in-insert_child_node,
}

-- A name is undecided until a layer shows it or hides it.
pub data Fate : Type 0 where
  undecided shown hidden : Fate

abbrev pub fate_of : Bool → Bool → Fate
fate_of true whited = shown
fate_of false true = hidden
fate_of false false = undecided

-- The fate of a name in the directory's node.
unfoldable pub fate : NodeArena → NodeId → Bytes → Fate
fate a p name = fate_of (is_some (child_of a p name)) (whiteout_in a p name)

-- The name of the whiteout file for a name.
abbrev pub wh_name : Bytes → Bytes
wh_name name = wh_prefix ++ name

-- What an entry does to an undecided name.
unfoldable pub entry_fate : DataSource → Bytes → Bytes → DirEntry → Fate
entry_fate ds path name entry =
    if bytes_eq entry.name name
    then (if is_wh_file ds path name || is_chardev_entry ds path entry then hidden else shown)
    else if bytes_eq entry.name (wh_name name)
    then hidden
    else undecided

abbrev pub after_entry : DataSource → Bytes → Bytes → DirEntry → Fate → Fate
after_entry ds path name entry undecided = entry_fate ds path name entry
after_entry ds path name entry shown = shown
after_entry ds path name entry hidden = hidden

-- A name that a file may have: none that is passed over, and none of a whiteout file.
pub record IsPlain (name : Bytes) : Type 0 where
  pub not_special : is_special name ≡ false
  pub not_wh : starts_with name wh_prefix ≡ false

-- The whiteout file of `name` is itself neither shown nor hidden in the directory.
pub record IsClear (a : NodeArena) (p : NodeId) (name : Bytes) : Type 0 where
  pub no_child : child_of a p (wh_name name) ≡ none
  pub no_whiteout : whiteout_in a p (wh_name name) ≡ false

-- No plain name is, behind the prefix, the sentinel of an opaque directory.
not_sentinel :
    (name : Bytes) → starts_with name wh_prefix ≡ false → bytes_eq name (codes ".wh..opq") ≡ false
unfolding starts_with
not_sentinel name h = elim (Bool-cases (bytes_eq name (codes ".wh..opq"))) [
  | inl e ↦
      cc (
        subst (λ n. starts_with n wh_prefix ≡ false) ((bytes_eq_iff name (codes ".wh..opq")).0 e) h)
  | inr e ↦ e
]

pub wh_prefix_name-wh_name :
    (name : Bytes) → IsPlain name → wh_prefix_name (wh_name name) ≡ some name
unfolding wh_prefix_name starts_with bytes_eq
wh_prefix_name-wh_name name h = ground (arith, not_sentinel name h.not_wh)

pub wh_prefix_name-plain : (name : Bytes) → IsPlain name → wh_prefix_name name ≡ none
unfolding wh_prefix_name
wh_prefix_name-plain name h = ground (arith, h.not_wh)

pub is_special-wh_name : (name : Bytes) → IsPlain name → is_special (wh_name name) ≡ false
unfolding bytes_eq
is_special-wh_name name h = not_sentinel name h.not_wh

-- The name that a whiteout file stands for.
pub wh_prefix_name-some : (m name : Bytes) → wh_prefix_name m ≡ some name → wh_name name ≡ m
unfolding wh_prefix_name
wh_prefix_name-some m name h = elim (Bool-cases (starts_with m wh_prefix)) [
  | inr e ↦ absurd (ground arith)
  | inl e ↦
      let same : drop 4 m ≡ name = ground arith in
      ap wh_name (sym same) ∙ starts_with-drop m wh_prefix e
]

-- Two names that a test tells apart.
pub differs : (f : Bytes → Bool) (x y : Bytes) → f x ≡ true → f y ≡ false → bytes_eq x y ≡ false
differs f x y h g = elim (Bool-cases (bytes_eq x y)) [
  | inl e ↦ cc ((bytes_eq_iff x y).0 e)
  | inr e ↦ e
]

-- What is shown of a step that loads an entry: identifiers are used up, the whiteout file of the
-- name stays out of the directory, and the name's fate follows `after_entry`.
pub record Steps (a' : NodeArena) (p : NodeId) (k : ℕ) (name : Bytes) (next : Fate) : Type 0 where
  pub dir_at : DirAt a' p k
  pub clear : IsClear a' p name
  pub reached : fate a' p name ≡ next

module _ {a : NodeArena} {p : NodeId} {k : ℕ} {name : Bytes} (d : DirAt a p (suc k))
    (c : IsClear a p name) where
  pub same-Steps : {next : Fate} → fate a p name ≡ next → Steps a p k name next
  same-Steps h = record { dir_at = DirAt-fewer d; clear = c; reached = h }

  pub moved-Steps :
      (id : NodeId) (layer_idx : ℕ) {next : Fate}
      → fate a p name ≡ next
      → Steps (update_node a id (λ n. record n { last_layer_idx = layer_idx })) p k name next
  unfolding fate
  moved-Steps id layer_idx h = record {
    dir_at = DirAt-fewer (moved-DirAt d id layer_idx);
    clear = record {
      no_child = (moved_reads d id layer_idx (wh_name name)).0 ∙ c.no_child;
      no_whiteout = (moved_reads d id layer_idx (wh_name name)).1 ∙ c.no_whiteout;
    };
    reached =
        ap₂ (λ x y. fate_of (is_some x) y) (moved_reads d id layer_idx name).0
          (moved_reads d id layer_idx name).1
        ∙ h;
  }

  pub whiteout-Steps :
      (w : Bytes) {next : Fate}
      → bytes_eq w (wh_name name) ≡ false
      → fate_of (is_some (child_of a p name)) (bytes_eq w name || whiteout_in a p name) ≡ next
      → Steps (add_whiteout a p w) p k name next
  unfolding fate
  whiteout-Steps w apart h = record {
    dir_at = DirAt-fewer (add_whiteout-DirAt d w);
    clear = record {
      no_child = child_of-add_whiteout d w (wh_name name) ∙ c.no_child;
      no_whiteout = whiteout_in-add_whiteout d w (wh_name name) ∙ rw (apart) c.no_whiteout;
    };
    reached =
        ap₂ (λ x y. fate_of (is_some x) y) (child_of-add_whiteout d w name)
          (whiteout_in-add_whiteout d w name)
        ∙ h;
  }

  pub child-Steps :
      (child : OvlNode) {next : Fate}
      → bytes_eq child.name (wh_name name) ≡ false
      → fate_of
          (bytes_eq child.name name || is_some (child_of a p name))
          (not (bytes_eq child.name name) && whiteout_in a p name)
        ≡ next
      → Steps (insert_child_node a p child).0 p k name next
  unfolding fate
  child-Steps child apart h = record {
    dir_at = insert_child_node-DirAt d child;
    clear = record {
      no_child = child_of-insert_child_node d child (wh_name name) ∙ rw apart c.no_child;
      no_whiteout = whiteout_in-insert_child_node d child (wh_name name) ∙ rw apart c.no_whiteout;
    };
    reached = ground (
      arith,
      child_of-insert_child_node d child name,
      whiteout_in-insert_child_node d child name,
    );
  }
