-- ===== src/Mapping/Lookup.antt =====
-- What `find_mapping` promises of its table: the two directions are inverse on a table without
-- overlaps, an identifier outside every range becomes the overflow identifier, results are `u32`.
use fuse_overlayfs.Base.{
  ℕ, ◌+◌, ◌≤◌, ◌<◌, ◌≡◌, ◌⊎◌, inl, inr, refl, is_some, Option-cases, Bool, true, false, not, Option,
  none, some, List, [], ◌∷◌, arith,
}
use fuse_overlayfs.Base.Text.{u32_mod}
use fuse_overlayfs.Mapping.{IdMapping, find_entry, find_in_table, find_mapping}

-- The range of identifiers that an entry maps from, in the given direction.
abbrev start : Bool → IdMapping → ℕ
start true m = m.host
start false m = m.to

-- Two ranges without a common identifier.
abbrev Apart : ℕ → ℕ → ℕ → ℕ → Type 0
Apart a la b lb = (a + la ≤ b) ⊎ (b + lb ≤ a)

-- The entry shares no host identifier and no container identifier with those behind it.
abbrev AllApart : IdMapping → List IdMapping → Type 0
AllApart m [] = Unit {0}
AllApart m (n ∷ ms) = Apart m.host m.len n.host n.len × Apart m.to m.len n.to n.len × AllApart m ms

-- A table without overlaps, each of whose ranges ends within the 32-bit identifiers.
abbrev pub IsTable : List IdMapping → Type 0
IsTable [] = Unit {0}
IsTable (m ∷ ms) =
    (m.host + m.len ≤ u32_mod) × (m.to + m.len ≤ u32_mod) × AllApart m ms × IsTable ms

-- The identifier lies outside the ranges that the table maps from, in the given direction.
abbrev pub IsUnmapped : ℕ → List IdMapping → Bool → Type 0
IsUnmapped id [] direct = Unit {0}
IsUnmapped id (m ∷ ms) direct =
    ((id < start direct m) ⊎ (start direct m + m.len ≤ id)) × IsUnmapped id ms direct

-- The identifier lies in one of the ranges that the table maps from.
abbrev pub IsCovered : ℕ → List IdMapping → Bool → Type 0
IsCovered id [] direct = ⊥
IsCovered id (m ∷ ms) direct =
    ((start direct m ≤ id) × (id < start direct m + m.len)) ⊎ IsCovered id ms direct

-- What a later entry answers lies outside the range that this entry maps back from.
find_entry-apart :
    (direct : Bool) (id : ℕ) (m : IdMapping) (ms : List IdMapping) (r : ℕ)
    → AllApart m ms
    → IsTable ms
    → find_entry id ms direct ≡ some r
    → (r < start (not direct) m) ⊎ (start (not direct) m + m.len ≤ r)
unfolding find_entry
find_entry-apart true id m [] r a w h = ground arith
find_entry-apart true id m (n ∷ ms) r a w h =
    ground (arith, find_entry-apart true id m ms r a.2 w.3)
find_entry-apart false id m [] r a w h = ground arith
find_entry-apart false id m (n ∷ ms) r a w h =
    ground (arith, find_entry-apart false id m ms r a.2 w.3)

find_entry-inverse :
    (direct : Bool) (id : ℕ) (ms : List IdMapping) (r : ℕ)
    → IsTable ms
    → find_entry id ms direct ≡ some r
    → find_entry r ms (not direct) ≡ some id
unfolding find_entry
find_entry-inverse true id [] r w h = ground arith
find_entry-inverse true id (m ∷ ms) r w h =
    ground (arith, find_entry-apart true id m ms r w.2 w.3, find_entry-inverse true id ms r w.3)
find_entry-inverse false id [] r w h = ground arith
find_entry-inverse false id (m ∷ ms) r w h =
    ground (arith, find_entry-apart false id m ms r w.2 w.3, find_entry-inverse false id ms r w.3)

find_entry-nil : (id : ℕ) (direct : Bool) → find_entry id [] direct ≡ none
unfolding find_entry
find_entry-nil id direct = refl

find_entry-covered :
    (direct : Bool) (id : ℕ) (ms : List IdMapping)
    → IsCovered id ms direct
    → is_some (find_entry id ms direct) ≡ true
unfolding find_entry
find_entry-covered direct id [] h = absurd h
find_entry-covered true id (m ∷ ms) h = ground (arith, find_entry-covered true id ms)
find_entry-covered false id (m ∷ ms) h = ground (arith, find_entry-covered false id ms)

find_entry-unmapped :
    (direct : Bool) (id : ℕ) (ms : List IdMapping)
    → IsUnmapped id ms direct
    → find_entry id ms direct ≡ none
unfolding find_entry
find_entry-unmapped direct id [] h = ground arith
find_entry-unmapped true id (m ∷ ms) h = ground (arith, find_entry-unmapped true id ms h.1)
find_entry-unmapped false id (m ∷ ms) h = ground (arith, find_entry-unmapped false id ms h.1)

-- With no squash option, `find_in_table` is what answers in both directions.
find_mapping-plain :
    (id : ℕ) (ms : List IdMapping) (direct : Bool) (overflow_id : ℕ)
    → find_mapping id ms direct false none overflow_id ≡ find_in_table id ms direct overflow_id
unfolding find_mapping
find_mapping-plain id ms true overflow_id = refl
find_mapping-plain id ms false overflow_id = refl

find_in_table-some :
    (id : ℕ) (ms : List IdMapping) (direct : Bool) (overflow_id r : ℕ)
    → find_entry id ms direct ≡ some r
    → find_in_table id ms direct overflow_id ≡ r
unfolding find_in_table
find_in_table-some id [] direct overflow_id r h = ground (arith, find_entry-nil id direct)
find_in_table-some id (m ∷ ms) direct overflow_id r h = ground arith

-- On a table without overlaps, an identifier that the table covers is mapped to one that is
-- mapped back to it in the other direction. This holds in both directions, with no squash option.
pub find_mapping-find_mapping :
    (id : ℕ) (ms : List IdMapping) (direct : Bool) (overflow_id : ℕ)
    → IsTable ms
    → IsCovered id ms direct
    → find_mapping
        (find_mapping id ms direct false none overflow_id)
        ms
        (not direct)
        false
        none
        overflow_id
      ≡ id
find_mapping-find_mapping id ms direct overflow_id w c =
    elim (Option-cases (find_entry id ms direct)) [
      | inl e ↦ absurd (ground (arith, find_entry-covered direct id ms c))
      | inr found ↦ cc (
        find_mapping-plain id ms direct overflow_id,
        find_in_table-some id ms direct overflow_id found.0 found.1,
        find_mapping-plain found.0 ms (not direct) overflow_id,
        find_in_table-some found.0 ms (not direct) overflow_id id
            (find_entry-inverse direct id ms found.0 w found.1),
      )
    ]

-- An identifier outside every range of a table that has entries becomes the overflow identifier:
-- in the direction to the host whatever the squash options, in the other with none set.
pub find_mapping-IsUnmapped :
    (id : ℕ) (m : IdMapping) (ms : List IdMapping) (root : Bool) (squash : Option ℕ)
    (overflow_id : ℕ)
    → (IsUnmapped id (m ∷ ms) false
        → find_mapping id (m ∷ ms) false root squash overflow_id ≡ overflow_id)
      × (IsUnmapped id (m ∷ ms) true
          → find_mapping id (m ∷ ms) true false none overflow_id ≡ overflow_id)
unfolding find_mapping
find_mapping-IsUnmapped id m ms root squash overflow_id = (
  (λ h. ground (arith, find_entry-unmapped false id (m ∷ ms) h)),
  (λ h. ground (arith, find_entry-unmapped true id (m ∷ ms) h)),
)
