-- ===== src/Overlay/Load/Entries.antt =====
-- What the whole listing of one layer does to one name (`load_entries` of Overlay/Load.antt).
use fuse_overlayfs.Base.{
  ℕ, ◌+◌, ◌≡◌, refl, ◌∙◌, Bool, true, false, not, none, some, List, [], ◌∷◌, arith, length, any,
  all, find, if◌then◌else◌, bytes_eq, Bool-cases, inl, inr,
}
use mathlib.Core.Path.{subst}
use fuse_overlayfs.Datasource.{Bytes, DirEntry, DataSource}
use fuse_overlayfs.Node.{NodeId, NodeArena}
use fuse_overlayfs.Overlay.{is_wh_file}
use fuse_overlayfs.Overlay.Load.{is_chardev_entry, load_entry, load_entries}
use fuse_overlayfs.Overlay.Load.Writes.{DirAt, DirAt-cast}
use fuse_overlayfs.Overlay.Load.Entry.{load_entry-Steps}
use fuse_overlayfs.Overlay.Load.Fate.{
  Fate, undecided, shown, hidden, fate, wh_name, entry_fate, after_entry, IsPlain, IsClear, Steps,
}

abbrev pub is_named : Bytes → DirEntry → Bool
is_named name entry = bytes_eq entry.name name

abbrev shown_unless : Bool → Fate
shown_unless true = hidden
shown_unless false = shown

-- What one layer's listing says of a name: its whiteout file hides it, then its own entry shows it,
-- unless that is a character device (0, 0).
unfoldable pub listed_fate : DataSource → Bytes → Bytes → List DirEntry → Fate
listed_fate ds path name entries =
    if any (is_named (wh_name name)) entries then hidden else elim (find (is_named name) entries) [
      | none ↦ undecided
      | some entry ↦ shown_unless (is_chardev_entry ds path entry)
    ]

-- A fate that is decided stays.
abbrev pub or_else : Fate → Fate → Fate
or_else undecided later = later
or_else shown later = shown
or_else hidden later = hidden

-- No entry is named like a whiteout file of the name's whiteout file.
abbrev pub no_nested : Bytes → DirEntry → Bool
no_nested name entry = not (bytes_eq entry.name (wh_name (wh_name name)))

unfoldable after_entries : DataSource → Bytes → Bytes → List DirEntry → Fate → Fate
after_entries ds path name [] f = f
after_entries ds path name (entry ∷ rest) f =
    after_entries ds path name rest (after_entry ds path name entry f)

after_entries-shown :
    (ds : DataSource) (path name : Bytes) (es : List DirEntry)
    → after_entries ds path name es shown ≡ shown
unfolding after_entries
after_entries-shown ds path name [] = refl
after_entries-shown ds path name (e ∷ es) = after_entries-shown ds path name es

after_entries-hidden :
    (ds : DataSource) (path name : Bytes) (es : List DirEntry)
    → after_entries ds path name es hidden ≡ hidden
unfolding after_entries
after_entries-hidden ds path name [] = refl
after_entries-hidden ds path name (e ∷ es) = after_entries-hidden ds path name es

module _ (ds : DataSource) (path name : Bytes) where
  -- Where the layer has the whiteout file, the first entry of either name hides the name.
  after_entries-whited :
      (es : List DirEntry)
      → is_wh_file ds path name ≡ true
      → any (is_named (wh_name name)) es ≡ true
      → after_entries ds path name es undecided ≡ hidden
  unfolding after_entries entry_fate any
  after_entries-whited [] h listed = ground arith
  after_entries-whited (e ∷ es) h listed =
      ground (arith, after_entries-whited es h, after_entries-hidden ds path name es)

  after_entries-free :
      (es : List DirEntry)
      → is_wh_file ds path name ≡ false
      → any (is_named (wh_name name)) es ≡ false
      → after_entries ds path name es undecided ≡ listed_fate ds path name es
  unfolding after_entries entry_fate any find listed_fate
  after_entries-free [] h unlisted = refl
  after_entries-free (e ∷ es) h unlisted = ground (
    arith,
    after_entries-free es h,
    after_entries-hidden ds path name es,
    after_entries-shown ds path name es,
  )

  after_entries_lem :
      (es : List DirEntry) (f : Fate)
      → is_wh_file ds path name ≡ any (is_named (wh_name name)) es
      → after_entries ds path name es f ≡ or_else f (listed_fate ds path name es)
  unfolding listed_fate
  after_entries_lem es shown h = after_entries-shown ds path name es
  after_entries_lem es hidden h = after_entries-hidden ds path name es
  after_entries_lem es undecided h = elim (Bool-cases (any (is_named (wh_name name)) es)) [
    | inl e ↦ after_entries-whited es (h ∙ e) e ∙ ground (arith, e)
    | inr e ↦ after_entries-free es (h ∙ e) e
  ]

module _ (ds : DataSource) (layer_idx : ℕ) (path : Bytes) (fast_ino_check : Bool) {p : NodeId}
    {name : Bytes} (plain : IsPlain name)
    (no_file : is_wh_file ds path (wh_name name) ≡ false) where
  load_entries-after :
      (es : List DirEntry) (a : NodeArena) (k : ℕ)
      → DirAt a p (length es + k)
      → IsClear a p name
      → all (no_nested name) es ≡ true
      → Steps
          (load_entries ds layer_idx p path fast_ino_check es a)
          p
          k
          name
          (after_entries ds path name es (fate a p name))
  unfolding load_entries after_entries all
  load_entries-after [] a k d c h = record {
    dir_at = DirAt-cast (omega arith) d;
    clear = c;
    reached = refl;
  }
  load_entries-after (e ∷ es) a k d c h =
      let plain_entry : bytes_eq e.name (wh_name (wh_name name)) ≡ false = ground arith in
      let plain_rest : all (no_nested name) es ≡ true = ground arith in
      let next = load_entry ds layer_idx p path fast_ino_check e a in
      let first =
        load_entry-Steps ds layer_idx path fast_ino_check e (DirAt-cast (omega arith) d) c plain
          no_file plain_entry in
      subst
        (λ f.
          Steps (load_entries ds layer_idx p path fast_ino_check (e ∷ es) a) p k name
            (after_entries ds path name es f))
        first.reached (load_entries-after es next k first.dir_at first.clear plain_rest)

  -- Loading a listing decides an undecided name as the listing says.
  pub load_entries-Steps :
      (es : List DirEntry) (a : NodeArena) (k : ℕ)
      → DirAt a p (length es + k)
      → IsClear a p name
      → all (no_nested name) es ≡ true
      → is_wh_file ds path name ≡ any (is_named (wh_name name)) es
      → Steps
          (load_entries ds layer_idx p path fast_ino_check es a)
          p
          k
          name
          (or_else (fate a p name) (listed_fate ds path name es))
  load_entries-Steps es a k d c h w =
      subst (Steps (load_entries ds layer_idx p path fast_ino_check es a) p k name)
        (after_entries_lem ds path name es (fate a p name) w) (load_entries-after es a k d c h)
