-- ===== src/Initramfs/Find.antt =====
-- kernel/initramfs.c: `initramfs_find` returns the first file of that path, inside the archive.
use Prim.Native.Nat.{ℕ, zero, suc}
use emyx.Base.{
  ◌+◌, ◌*◌, ◌-◌, ◌/◌, ◌≤◌, ◌<◌, ◌≡◌, ◌≢◌, ◌⊎◌, ◌↔◌, inl, inr, refl, Bool, true, false, not, ◌||◌,
  ◌==◌, Option, none, some, ltb, Bool-cases, arith,
}
use native.Mathlib.Decide.{ℕ_discrete}
use emyx.Memory.{Memory, read_le32_lem, load32}
use emyx.Initramfs.{
  Module, initramfs_header, matches_from, path_matches, entry_at, open_entry, find_from,
  initramfs_find,
}

-- The string `path` ends after `k` characters, and the bytes at `p` are the same up to its NUL.
abbrev pub Spells : Memory → ℕ → (ℕ → ℕ) → ℕ → ℕ → Type 0
Spells mem p path i k =
    (path k ≡ 0)
    × ((j : ℕ) → i ≤ j → j ≤ k → mem (p + j) ≡ path j)
    × ((j : ℕ) → i ≤ j → j < k → path j ≢ 0)

spelled :
    (mem : Memory) (p : ℕ) (path : ℕ → ℕ) (n i : ℕ)
    → matches_from mem p path n i ≡ true
    → (k : ℕ) × (i ≤ k) × (k < i + n) × Spells mem p path i k
unfolding matches_from
spelled mem p path zero i e = absurd (ground arith)
spelled mem p path (suc n) i e = elim (ℕ_discrete (mem (p + i)) (path i)) [
  | no differ ↦ absurd (ground arith)
  | yes same ↦ elim (ℕ_discrete (path i) 0) [
    | yes nul ↦ (
      i,
      omega arith,
      omega arith,
      (
        nul,
        (λ j lo hi. let here : j ≡ i = omega arith in rw here same),
        λ j lo hi. absurd (omega arith),
      ),
    )
    | no chr ↦
        let (k, lo, hi, (ends, eq, nz)) = spelled mem p path n (i + 1) (ground arith) in
        (
          k,
          omega arith,
          omega arith,
          (
            ends,
            (λ j lo' hi'. elim (ℕ_discrete j i) [
              | yes here ↦ rw here same
              | no ne ↦ eq j (omega arith) hi'
            ]),
            (λ j lo' hi'. elim (ℕ_discrete j i) [
              | yes here ↦ rw here chr
              | no ne ↦ nz j (omega arith) hi'
            ]),
          ),
        )
  ]
]

spells :
    (mem : Memory) (p : ℕ) (path : ℕ → ℕ) (n i k : ℕ)
    → i ≤ k
    → k < i + n
    → Spells mem p path i k
    → matches_from mem p path n i ≡ true
unfolding matches_from
spells mem p path zero i k lo hi s = absurd (omega arith)
spells mem p path (suc n) i k lo hi s =
    let same : mem (p + i) ≡ path i = s.1 i (omega arith) lo in
    elim (ℕ_discrete i k) [
      | yes here ↦ let nul : path i ≡ 0 = rw here s.0 in ground arith
      | no before ↦
          let chr : path i ≢ 0 = s.2 i (omega arith) (omega arith) in
          let more =
            spells mem p path n (i + 1) k (omega arith) (omega arith)
              (s.0, (λ j a b. s.1 j (omega arith) b), (λ j a b. s.2 j (omega arith) b)) in
          ground arith
    ]

-- `path_matches` holds exactly for a path of 31 characters at most that stands in the entry, with
-- its NUL.
pub path_matches_lem :
    (mem : Memory) (p : ℕ) (path : ℕ → ℕ)
    → (path_matches mem p path ≡ true) ↔ ((k : ℕ) × (k < 32) × Spells mem p path 0 k)
unfolding path_matches
path_matches_lem mem p path = (
  (λ e. let (k, lo, hi, s) = spelled mem p path 32 0 e in (k, hi, s)),
  (λ x. spells mem p path 32 0 x.0 (omega arith) x.1 x.2),
)

-- The place of an entry: 8 bytes are before the first, and each has 40.
abbrev pub place_of : Module → ℕ → ℕ
place_of archive j = archive.start + 8 + j * 40

-- The path, of 31 characters at most, stands in the entry with its NUL.
abbrev pub Names : Memory → Module → (ℕ → ℕ) → ℕ → Type 0
Names mem archive path j = (k : ℕ) × (k < 32) × Spells mem (place_of archive j) path 0 k

named :
    (mem : Memory) (archive : Module) (path : ℕ → ℕ) (j : ℕ)
    → path_matches mem (entry_at archive j) path ≡ true
    → Names mem archive path j
named mem archive path j e = (path_matches_lem mem (place_of archive j) path).0 e

not_named :
    (mem : Memory) (archive : Module) (path : ℕ → ℕ) (j : ℕ)
    → path_matches mem (entry_at archive j) path ≡ false
    → Names mem archive path j
    → ⊥
not_named mem archive path j e x =
    let hit : path_matches mem (entry_at archive j) path ≡ true =
      (path_matches_lem mem (place_of archive j) path).1 x in
    absurd (ground (arith, e))

-- The first entry from `i` on, of those before `count`, that has the path.
abbrev pub First : Memory → Module → (ℕ → ℕ) → ℕ → ℕ → ℕ → Type 0
First mem archive path i count j =
    (i ≤ j)
    × (j < count)
    × Names mem archive path j
    × ((l : ℕ) → i ≤ l → l < j → Names mem archive path l → ⊥)

-- The offset and the size that an entry states.
abbrev pub offset_of : Memory → Module → ℕ → ℕ
offset_of mem archive j = load32 mem (place_of archive j + 32)

abbrev pub size_of : Memory → Module → ℕ → ℕ
size_of mem archive j = load32 mem (place_of archive j + 36)

-- The archive begins with "EMXA" and the number of its entries, all of which lie in it.
pub record IsArchive (mem : Memory) (archive : Module) (count : ℕ) : Type 0 where
  pub there : archive.start ≢ 0
  pub magic :
      (mem archive.start ≡ b'E')
      × (mem (archive.start + 1) ≡ b'M')
      × (mem (archive.start + 2) ≡ b'X')
      × (mem (archive.start + 3) ≡ b'A')
  pub counts : count ≡ load32 mem (archive.start + 4)
  pub inside : 8 + count * 40 ≤ archive.size

-- The results of a search of the entries from `i` on.
pub data Search (mem : Memory) (archive : Module) (path : ℕ → ℕ) (i count : ℕ) (r : Option (ℕ × ℕ))
    : Type 0 where
  no_file :
      r ≡ none
      → ((j : ℕ) → i ≤ j → j < count → Names mem archive path j → ⊥)
      → Search mem archive path i count r
  outside :
      (j : ℕ)
      → r ≡ none
      → First mem archive path i count j
      → archive.size < offset_of mem archive j + size_of mem archive j
      → Search mem archive path i count r
  file :
      (j : ℕ)
      → r ≡ some (archive.start + offset_of mem archive j, size_of mem archive j)
      → First mem archive path i count j
      → offset_of mem archive j + size_of mem archive j ≤ archive.size
      → Search mem archive path i count r

module _ (mem : Memory) (archive : Module) (path : ℕ → ℕ) (bytes : (q : ℕ) → mem q < 256) where
  open_entry-Search :
      (i count : ℕ)
      → i < count
      → path_matches mem (entry_at archive i) path ≡ true
      → Search mem archive path i count (open_entry mem archive (entry_at archive i))
  unfolding open_entry
  open_entry-Search i count h e =
      let first : First mem archive path i count i =
        (omega arith, h, named mem archive path i e, λ l a b. absurd (omega arith)) in
      let plus_four : entry_at archive i + 32 + 4 ≡ entry_at archive i + 36 = omega arith in
      rw
        (
          read_le32_lem mem (entry_at archive i + 32) bytes,
          read_le32_lem mem (entry_at archive i + 32 + 4) bytes,
          plus_four,
        )
        (elim (Bool-cases (
          ltb archive.size (offset_of mem archive i)
          || ltb (archive.size - offset_of mem archive i) (size_of mem archive i))) [
            | inl out ↦ rw out (outside i refl first (ground arith))
            | inr in_bounds ↦ rw in_bounds (file i refl first (ground arith))
          ])

  widen :
      (i count : ℕ) (r : Option (ℕ × ℕ))
      → (Names mem archive path i → ⊥)
      → Search mem archive path (i + 1) count r
      → Search mem archive path i count r
  widen i count r miss (no_file e all) = no_file e (λ j lo hi. elim (ℕ_discrete j i) [
    | yes here ↦ rw here miss
    | no ne ↦ all j (omega arith) hi
  ])
  widen i count r miss (outside j e f out) =
      outside j e
        (
          omega arith,
          f.1,
          f.2,
          λ l lo hi. elim (ℕ_discrete l i) [
            | yes here ↦ rw here miss
            | no ne ↦ f.3 l (omega arith) hi
          ],
        )
        out
  widen i count r miss (file j e f fits) =
      file j e
        (
          omega arith,
          f.1,
          f.2,
          λ l lo hi. elim (ℕ_discrete l i) [
            | yes here ↦ rw here miss
            | no ne ↦ f.3 l (omega arith) hi
          ],
        )
        fits

  find_from-Search :
      (n i count : ℕ)
      → i + n ≡ count
      → Search mem archive path i count (find_from mem archive path n i)
  unfolding find_from
  find_from-Search zero i count e = no_file refl (λ j lo hi. absurd (omega arith))
  find_from-Search (suc n) i count e =
      elim (Bool-cases (path_matches mem (entry_at archive i) path)) [
        | inl hit ↦ rw hit (open_entry-Search i count (omega arith) hit)
        | inr miss ↦ rw miss (
            widen i count _ (not_named mem archive path i miss)
              (find_from-Search n (i + 1) count (omega arith)))
      ]

  abbrev magic_differs : Bool
  magic_differs =
      not (mem archive.start == b'E')
      || (not (mem (archive.start + 1) == b'M')
          || (not (mem (archive.start + 2) == b'X') || not (mem (archive.start + 3) == b'A')))

  -- What the header is found to be.
  data Heads (r : Option ℕ) : Type 0 where
    valid : (count : ℕ) → r ≡ some count → IsArchive mem archive count → Heads r
    invalid : r ≡ none → ((count : ℕ) → IsArchive mem archive count → ⊥) → Heads r

  initramfs_header-Heads : Heads (initramfs_header mem archive)
  unfolding initramfs_header
  initramfs_header-Heads =
      let c = load32 mem (archive.start + 4) in
      rw (read_le32_lem mem (archive.start + 4) bytes)
        (elim (Bool-cases ((archive.start == 0) || ltb archive.size 8)) [
          | inl small ↦
              rw small (invalid refl (λ count a. absurd (ground (arith, small, a.there, a.inside))))
          | inr there ↦ elim (Bool-cases magic_differs) [
            | inl other ↦
                rw (there, other)
                  (invalid refl (λ count a.
                    let m = a.magic in absurd (ground (arith, other, m.0, m.1, m.2, m.3))))
            | inr magic ↦ elim (Bool-cases (ltb ((archive.size - 8) / 40) c)) [
              | inl many ↦
                  rw (there, magic, many)
                    (invalid refl (λ count a. absurd (ground (arith, many, a.counts, a.inside))))
              | inr fits ↦
                  rw (there, magic, fits)
                    (valid c refl (record {
                      there = ground (arith, there);
                      magic = ground (arith, magic);
                      counts = refl;
                      inside = ground (arith, there, fits);
                    }))
            ]
          ]
        ])

-- In memory of bytes `initramfs_find` finds nothing where no archive is, that is, where the address
-- is 0, the magic bytes differ, or the entries that the header counts do not all lie in the archive.
-- Otherwise it takes the first entry, of those that the header counts, that has the path: the result
-- is that file's data, which lie in the archive, or nothing where they would not; and it finds
-- nothing where no entry has the path.
pub initramfs_find_lem :
    (mem : Memory) (archive : Module) (path : ℕ → ℕ)
    → ((q : ℕ) → mem q < 256)
    → ((initramfs_find mem archive path ≡ none) × ((count : ℕ) → IsArchive mem archive count → ⊥))
      ⊎ ((count : ℕ) × IsArchive mem archive count
          × Search mem archive path 0 count (initramfs_find mem archive path))
unfolding initramfs_find
initramfs_find_lem mem archive path bytes = elim (initramfs_header-Heads mem archive path bytes) [
  | invalid e none_there ↦ inl (rw (e, initramfs_find) refl, none_there)
  | valid count e a ↦ inr (
    count,
    a,
    rw (e, initramfs_find) (find_from-Search mem archive path bytes count 0 count (omega arith)),
  )
]
