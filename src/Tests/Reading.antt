-- ===== src/Tests/Reading.antt =====
-- A directory of three entries, read by replies that have room for two.
use fuse_overlayfs.Base.{ℕ, ◌+◌, ◌≡◌, refl, Bool, none, List, [], ◌∷◌, ◌++◌, drop, codes, leb}
use fuse_overlayfs.Overlay.Query.{Entry}
use fuse_overlayfs.Overlay.ReadDir.{add_entries, readdir}
use fuse_overlayfs.Overlay.ReadDir.Pages.{entries_in_reply, position_after, readdir-drop}

abbrev entry : List ℕ → ℕ → Entry
entry name ino = record { name = name; ino = ino; mode = 0o100644; attr = none; node_id = none }

abbrev three : List Entry
three = entry (codes "a") 11 ∷ entry (codes "b") 12 ∷ entry (codes "c") 13 ∷ []

-- Two entries from a position on.
abbrev room_for_two : ℕ → ℕ → Entry → Bool
room_for_two offset i e = leb (offset + 2) i

first_page : position_after 0 (readdir (room_for_two 0) three 0) ≡ 2
unfolding readdir add_entries
first_page = refl

readdir-drop_example :
    entries_in_reply (readdir (room_for_two 0) three 0)
      ++ drop (position_after 0 (readdir (room_for_two 0) three 0)) three
    ≡ three
readdir-drop_example = readdir-drop (room_for_two 0) three 0
