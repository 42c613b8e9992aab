-- ===== src/Filesystem/Roots/Parents.antt =====
-- `mkdir_p` and `dirname`: the recursion to the parents ends.
use mini_container.Prelude.{ℕ, zero, suc, ◌+◌, ◌<◌, ◌≡◌, ◌≢◌, inl, inr, arith, length}
use mini_container.Text.{Text, dirname}
use mini_container.Text.Dirname.{IsTop, dirname-IsTop}
use mini_container.Kernel.{Kernel, error, enoent}
use mini_container.Filesystem.Roots.{mkdir_p}

module _ (K : Kernel)
    (top_made : (path : Text) (w : K.World) → IsTop path → (K.mkdir path w).0 ≢ error enoent) where
  mkdir-top :
      (f g : ℕ) (path : Text) (w : K.World)
      → IsTop path
      → mkdir_p K (suc f) path w ≡ mkdir_p K (suc g) path w
  unfolding mkdir_p
  mkdir-top f g path w top = let made = top_made path w top in ground arith

  mkdir_step :
      (f g : ℕ) (path : Text) (w : K.World)
      → mkdir_p K f (dirname path) (K.mkdir path w).1
        ≡ mkdir_p K g (dirname path) (K.mkdir path w).1
      → mkdir_p K (suc f) path w ≡ mkdir_p K (suc g) path w
  unfolding mkdir_p
  mkdir_step f g path w e = ground arith

  enough :
      (f g : ℕ) (path : Text) (w : K.World)
      → length path < f
      → length path < g
      → mkdir_p K (suc f) path w ≡ mkdir_p K (suc g) path w
  enough zero g path w h k = absurd (omega arith)
  enough (suc f) zero path w h k = absurd (omega arith)
  enough (suc f) (suc g) path w h k =
      let v = (K.mkdir path w).1 in
      mkdir_step (suc f) (suc g) path w (elim (dirname-IsTop path) [
        | inl top ↦ mkdir-top f g (dirname path) v top
        | inr shorter ↦ enough f g (dirname path) v (omega arith) (omega arith)
      ])

  -- Where `mkdir` of "/" and of "." never reports a missing parent, fuel that exceeds the length of
  -- the path by two is enough for `mkdir_p`: more changes nothing.
  pub mkdir_p-fuel :
      (extra n : ℕ) (path : Text) (w : K.World)
      → length path < n
      → mkdir_p K (suc (extra + n)) path w ≡ mkdir_p K (suc n) path w
  mkdir_p-fuel extra n path w h = enough (extra + n) n path w (omega arith) h
