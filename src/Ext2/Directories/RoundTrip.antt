-- ===== src/Ext2/Directories/RoundTrip.antt =====
-- A directory entry of hello-ext2/src/ext2-create.c, written and read again.
use ece344_operating_system.Common.{
  Option, some, none, ℕ, zero, suc, ◌+◌, ◌/◌, ◌%◌, ◌^◌, ◌≤◌, ◌<◌, ◌≡◌, refl, ap, ◌∙◌, subst, Bool,
  true, false, ltb, ◌==◌, if◌then◌else◌, arith, List, [], ◌∷◌, ◌++◌, length, get_or,
}
use ece344_operating_system.Ext2.System.{write_bytes, bytes_of}
use ece344_operating_system.Ext2.Layout.{overlay, zeros}
use ece344_operating_system.Ext2.Directories.{
  DirEntry, set_rec_len, dir_entry_set, dir_entry_bytes, entry_memory,
}
use ece344_operating_system.Ext2.Writes.{write_bytes-here}
use ece344_operating_system.Ext2.Reader.{
  records, DirectoryEntry, add_record, read_u16, read_u32, read_bytes, good_record,
}

-- The least multiple of 4 with room for the name.
set_rec_len-IsLeast :
    (len : ℕ)
    → (set_rec_len len % 4 ≡ 0) × (8 + len ≤ set_rec_len len) × (set_rec_len len < 12 + len)
unfolding set_rec_len
set_rec_len-IsLeast len = (ground arith, ground arith, ground arith)

get_or-append_left :
    (xs ys : List ℕ) (i : ℕ) → i < length xs → get_or (xs ++ ys) i 0 ≡ get_or xs i 0
get_or-append_left [] ys i lt = absurd (omega (arith, lt))
get_or-append_left (x ∷ xs) ys zero lt = refl
get_or-append_left (x ∷ xs) ys (suc i) lt = get_or-append_left xs ys i (omega (arith, lt))

overlay-prefix :
    (xs ys zs : List ℕ) (i : ℕ) → i < length xs → get_or (overlay xs ys ++ zs) i 0 ≡ get_or xs i 0
overlay-prefix [] ys zs i lt = absurd (omega (arith, lt))
overlay-prefix (x ∷ xs) [] zs zero lt = refl
overlay-prefix (x ∷ xs) (y ∷ ys) zs zero lt = refl
overlay-prefix (x ∷ xs) [] zs (suc i) lt = get_or-append_left xs zs i (omega (arith, lt))
overlay-prefix (x ∷ xs) (y ∷ ys) zs (suc i) lt = overlay-prefix xs ys zs i (omega (arith, lt))

-- Bytes that are those of a list.
read_bytes-list :
    (image : ℕ → ℕ) (xs : List ℕ) (a : ℕ)
    → ((i : ℕ) → i < length xs → image (a + i) ≡ get_or xs i 0)
    → read_bytes image (length xs) a ≡ xs
read_bytes-list image [] a bytes = refl
read_bytes-list image (x ∷ xs) a bytes =
    let first : image a ≡ x = subst (λ k. image k ≡ x) (omega arith) (bytes 0 (omega arith)) in
    let rest = read_bytes-list image xs (a + 1) (λ i lt.
      subst (λ k. image k ≡ get_or xs i 0) (omega arith) (bytes (suc i) (omega (arith, lt)))) in
    ap (λ y. y ∷ read_bytes image (length xs) (a + 1)) first ∙ ap (λ ys. x ∷ ys) rest

read_u16_lem :
    (image : ℕ → ℕ) (a x : ℕ)
    → x < 2 ^ 16
    → image a ≡ x % 256
    → image (a + 1) ≡ x / 256 % 256
    → read_u16 image a ≡ x
read_u16_lem image a x bound p q = omega (arith, bound, p, q)

read_u32_lem :
    (image : ℕ → ℕ) (a x : ℕ)
    → x < 2 ^ 32
    → image a ≡ x % 256
    → image (a + 1) ≡ x / 256 % 256
    → image (a + 2) ≡ x / 256 / 256 % 256
    → image (a + 2 + 1) ≡ x / 256 / 256 / 256 % 256
    → read_u32 image a ≡ x
read_u32_lem image a x bound p q r s = omega (arith, bound, p, q, r, s)

module _ (entry : DirEntry) (ino : ℕ) (str : List ℕ) (stack : ℕ → ℕ) where
  abbrev memory : ℕ → ℕ
  memory = entry_memory stack (dir_entry_set entry ino str)

  memory-name : (i : ℕ) → i < length str → length str ≤ 255 → memory (8 + i) ≡ get_or str i 0
  unfolding dir_entry_set
  memory-name i lt len =
      let unary : 8 + i ≡ suc (suc (suc (suc (suc (suc (suc (suc i))))))) = omega arith in
      let inside : ltb (8 + i) 264 ≡ true = ground (arith, lt, len) in
      rw inside (
        ap (λ k. bytes_of (dir_entry_bytes (dir_entry_set entry ino str)) k) unary
        ∙ overlay-prefix str entry.name (zeros 1) i lt)

module _ (entry : DirEntry) (ino : ℕ) (str : List ℕ) (stack image : ℕ → ℕ) (p : ℕ) where
  abbrev after : ℕ → ℕ
  after =
      write_bytes p (dir_entry_set entry ino str).rec_len
        (entry_memory stack (dir_entry_set entry ino str)) image

  after_lem : (i : ℕ) → i < set_rec_len (length str) → after (p + i) ≡ memory entry ino str stack i
  unfolding dir_entry_set
  after_lem i lt = write_bytes-here p _ _ image i lt

  -- The byte at `a`, given by its place in the entry.
  after-byte : (i a : ℕ) → i < 8 → a ≡ p + i → after a ≡ memory entry ino str stack i
  after-byte i a lt at =
      ap after at ∙ after_lem i (omega (arith, lt, (set_rec_len-IsLeast (length str)).1))

  after-inode : ino < 2 ^ 32 → read_u32 after p ≡ ino
  unfolding dir_entry_set
  after-inode bound =
      read_u32_lem after p ino bound (after-byte 0 p (omega arith) (omega arith))
        (after-byte 1 (p + 1) (omega arith) (omega arith))
        (after-byte 2 (p + 2) (omega arith) (omega arith))
        (after-byte 3 (p + 2 + 1) (omega arith) (omega arith))

  after-rec_len : length str ≤ 255 → read_u16 after (p + 4) ≡ set_rec_len (length str)
  unfolding dir_entry_set
  after-rec_len len =
      read_u16_lem after (p + 4) (set_rec_len (length str))
        (omega (arith, len, (set_rec_len-IsLeast (length str)).2))
        (after-byte 4 (p + 4) (omega arith) (omega arith))
        (after-byte 5 (p + 4 + 1) (omega arith) (omega arith))

  after-name_len : length str ≤ 255 → read_u16 after (p + 6) ≡ length str
  unfolding dir_entry_set
  after-name_len len =
      read_u16_lem after (p + 6) (length str) (omega (arith, len))
        (after-byte 6 (p + 6) (omega arith) (omega arith))
        (after-byte 7 (p + 6 + 1) (omega arith) (omega arith))

  after-name : length str ≤ 255 → read_bytes after (length str) (p + 8) ≡ str
  after-name len = read_bytes-list after str (p + 8) (λ i lt.
      ap after (omega arith)
      ∙ after_lem (8 + i) (omega (arith, lt, (set_rec_len-IsLeast (length str)).1))
      ∙ memory-name entry ino str stack i lt len)

  after-good_record :
      (end : ℕ)
      → length str ≤ 255
      → p + set_rec_len (length str) ≤ end
      → good_record after p end ≡ true
  after-good_record end len room =
      let l = set_rec_len-IsLeast (length str) in
      ground (arith, l, room, after-rec_len len, after-name_len len)

entry_added :
    (u : ℕ) (found : List ℕ) (ino : ℕ) (str : List ℕ) (rest : List DirectoryEntry)
    → u ≡ ino
    → found ≡ str
    → 0 < ino
    → (if u == 0 then some rest else some (record { ino = u; name = found } ∷ rest))
      ≡ some (record { ino = ino; name = str } ∷ rest)
entry_added u found ino str rest e f positive =
    let used : (ino == 0) ≡ false = ground (arith, positive) in rw (e, f, used) refl

record_read :
    {here good : Bool} {A : Type 0} (empty bad rest : A)
    → here ≡ false
    → good ≡ true
    → elim here [ true ↦ empty | false ↦ elim good [ true ↦ rest | false ↦ bad ] ] ≡ rest
record_read empty bad rest e f = rw (e, f) refl

abbrev pub before_rest :
    DirectoryEntry → Option (List DirectoryEntry) → Option (List DirectoryEntry)
before_rest e none = none
before_rest e (some rest) = some (e ∷ rest)

module _ (entry : DirEntry) (ino : ℕ) (str : List ℕ) (stack image : ℕ → ℕ) (p : ℕ) where
  abbrev wrote : ℕ → ℕ
  wrote = after entry ino str stack image p

  add_record_lem :
      (rest : Option (List DirectoryEntry))
      → 0 < ino
      → ino < 2 ^ 32
      → length str ≤ 255
      → add_record wrote p rest ≡ before_rest (record { ino = ino; name = str }) rest
  add_record_lem none positive bound len = refl
  add_record_lem (some rest) positive bound len =
      let found : read_u32 wrote p ≡ ino = after-inode entry ino str stack image p bound in
      let name : read_bytes wrote (read_u16 wrote (p + 6)) (p + 8) ≡ str =
        ap (λ n. read_bytes wrote n (p + 8)) (after-name_len entry ino str stack image p len)
        ∙ after-name entry ino str stack image p len in
      entry_added _ _ ino str rest found name positive

  -- An entry of dir_entry_set with an inode and a name of at most 255 bytes, written where it ends by
  -- `end`, is read as that inode and name, and the reader goes on behind it, whatever the stack and the
  -- other bytes are.
  pub dir_entry_set-records :
      (fuel end : ℕ)
      → 0 < ino
      → ino < 2 ^ 32
      → length str ≤ 255
      → p + set_rec_len (length str) ≤ end
      → records wrote (suc fuel) p end
        ≡ before_rest
            (record { ino = ino; name = str })
            (records wrote fuel (p + set_rec_len (length str)) end)
  unfolding records
  dir_entry_set-records fuel end positive bound len room =
      let l = set_rec_len-IsLeast (length str) in
      let before : (p == end) ≡ false = ground (arith, l.1, room) in
      let good = after-good_record entry ino str stack image p end len room in
      let next : records wrote fuel (p + read_u16 wrote (p + 4)) end
          ≡ records wrote fuel (p + set_rec_len (length str)) end =
        ap (λ n. records wrote fuel (p + n) end) (after-rec_len entry ino str stack image p len) in
      record_read _ _ _ before good
      ∙ ap (add_record wrote p) next
      ∙ add_record_lem _ positive bound len
