-- ===== src/Ext2/Writes.antt =====
-- Bytes after the writes of hello-ext2/src/ext2-create.c.
use ece344_operating_system.Common.{
  ℕ, ◌+◌, ◌-◌, ◌≤◌, ◌<◌, ◌≡◌, refl, ap, ◌∙◌, Bool, true, ◌&&◌, leb, List, [], ◌∷◌, arith,
}
use ece344_operating_system.Ext2.System.{write_bytes}

pub record Write : Type 0 where
  pub position : ℕ
  pub size : ℕ
  pub bytes : ℕ → ℕ

abbrev pub write_at : (position size : ℕ) → (ℕ → ℕ) → Write
write_at position size bytes = record { position = position; size = size; bytes = bytes }

abbrev pub after_writes : List Write → (ℕ → ℕ) → ℕ → ℕ
after_writes [] image = image
after_writes (w ∷ ws) image = after_writes ws (write_bytes w.position w.size w.bytes image)

abbrev pub all_above : ℕ → List Write → Bool
all_above p [] = true
all_above p (w ∷ ws) = leb p w.position && all_above p ws

pub write_bytes-above :
    (p n : ℕ) (bytes image : ℕ → ℕ) (a : ℕ) → a < p → write_bytes p n bytes image a ≡ image a
unfolding write_bytes
write_bytes-above p n bytes image a lt = ground (arith, lt)

-- Bytes below all of the writes stay.
pub after_writes-above :
    (p : ℕ) (ws : List Write) (image : ℕ → ℕ) (a : ℕ)
    → all_above p ws ≡ true
    → a < p
    → after_writes ws image a ≡ image a
after_writes-above p [] image a above lt = refl
after_writes-above p (w ∷ ws) image a above lt =
    let now : p ≤ w.position = ground (arith, above) in
    let later : all_above p ws ≡ true = ground (arith, above) in
    after_writes-above p ws (write_bytes w.position w.size w.bytes image) a later lt
    ∙ write_bytes-above w.position w.size w.bytes image a (omega (arith, now, lt))

pub write_bytes-here :
    (p n : ℕ) (bytes image : ℕ → ℕ) (a : ℕ) → a < n → write_bytes p n bytes image (p + a) ≡ bytes a
unfolding write_bytes
write_bytes-here p n bytes image a lt =
    let back : p + a - p ≡ a = omega arith in let e = ap bytes back in ground (arith, lt, e)
