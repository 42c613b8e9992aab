-- ===== src/Filesystem/Roots/Contents.antt =====
-- `copy_file` copies: what the target holds after the loop, and how many reads it takes.
use mathlib.Core.List.{append-nil, append_assoc}
use mini_container.Prelude.{
  ℕ, zero, suc, ◌+◌, ◌<◌, ◌≡◌, refl, sym, ap, ◌∙◌, inl, inr, some, none, [], ◌∷◌, ◌++◌, arith, Exec,
  length, length-append,
}
use mini_container.Text.{Text}
use mini_container.Kernel.{Kernel, Errno, Returned-cases, returned, error}
use mini_container.Filesystem.Roots.{copy_chunk, copy_loop}

-- What the loop relies on of two open files: a read takes bytes from what is left of the source,
-- and none exactly at its end; a write that reports all of its bytes has put them behind what the
-- target holds.
pub record Streams (K : Kernel) (src dst : ℕ) : Type 0 where
  pub left : K.World → Text
  pub held : K.World → Text
  pub read_left :
      (w : K.World) (bytes : Text)
      → (K.read src 8192 w).0 ≡ returned bytes
      → left w ≡ bytes ++ left (K.read src 8192 w).1
  pub read_end : (w : K.World) → (K.read src 8192 w).0 ≡ returned [] → left w ≡ []
  pub read_held : (w : K.World) → held (K.read src 8192 w).1 ≡ held w
  pub write_held :
      (bytes : Text) (w : K.World)
      → (K.write dst bytes w).0 ≡ returned (length bytes)
      → held (K.write dst bytes w).1 ≡ held w ++ bytes
  pub write_left : (bytes : Text) (w : K.World) → left (K.write dst bytes w).1 ≡ left w

module _ (K : Kernel) (src dst : ℕ) (F : Streams K src dst) where
  open F use {left, held}

  copy_chunk-writes :
      (c : ℕ) (bytes : Text) (rest : Exec K.World (Unit {0})) (w : K.World)
      → (copy_chunk K dst (c ∷ bytes) rest w).0 ≡ some tt
      → ((K.write dst (c ∷ bytes) w).0 ≡ returned (length (c ∷ bytes)))
        × ((rest (K.write dst (c ∷ bytes) w).1).0 ≡ some tt)
        × (copy_chunk K dst (c ∷ bytes) rest w ≡ rest (K.write dst (c ∷ bytes) w).1)
  unfolding copy_chunk
  copy_chunk-writes c bytes rest w h = ground arith

  out_of_fuel : (w : K.World) → (copy_loop K 0 src dst w).0 ≡ none
  unfolding copy_loop
  out_of_fuel w = refl

  loop_error :
      (fuel : ℕ) (w : K.World) (e : Errno)
      → (K.read src 8192 w).0 ≡ error e
      → copy_loop K (suc fuel) src dst w ≡ (none, (K.read src 8192 w).1)
  unfolding copy_loop
  loop_error fuel w e h = ground arith

  loop-step :
      (fuel : ℕ) (w : K.World) (bytes : Text)
      → (K.read src 8192 w).0 ≡ returned bytes
      → copy_loop K (suc fuel) src dst w
        ≡ copy_chunk K dst bytes (copy_loop K fuel src dst) (K.read src 8192 w).1
  unfolding copy_loop
  loop-step fuel w bytes e = ground arith

  -- The loop that ends without -1 has put the whole rest of the source behind what the target held.
  pub copy_loop-held :
      (fuel : ℕ) (w : K.World)
      → (copy_loop K fuel src dst w).0 ≡ some tt
      → held (copy_loop K fuel src dst w).1 ≡ held w ++ left w
  unfolding copy_chunk
  copy_loop-held zero w h = absurd (cc (out_of_fuel w, h))
  copy_loop-held (suc fuel) w h = elim (Returned-cases (K.read src 8192 w).0) [
    | inl ([], e) ↦
        let same = loop-step fuel w [] e in
        rw (same, copy_chunk, F.read_end w e, append-nil (held w)) (F.read_held w)
    | inl (c ∷ bytes, e) ↦
        let v = (K.read src 8192 w).1 in
        let (full, ok, same) =
          copy_chunk-writes c bytes (copy_loop K fuel src dst) v
            (ap (λ r. r.0) (sym (loop-step fuel w (c ∷ bytes) e)) ∙ h) in
        rw
          (
            loop-step fuel w (c ∷ bytes) e,
            same,
            copy_loop-held fuel _ ok,
            F.write_held (c ∷ bytes) v full,
            F.write_left (c ∷ bytes) v,
            F.read_held w,
          )
          (append_assoc (held w) (c ∷ bytes) (left v)
            ∙ ap (λ t. held w ++ t) (sym (F.read_left w (c ∷ bytes) e)))
    | inr (e, failed) ↦ absurd (cc (loop_error fuel w e failed, h))
  ]

  copy_chunk-cong :
      (bytes : Text) (f g : Exec K.World (Unit {0})) (w : K.World)
      → ((c : ℕ) (t : Text) → bytes ≡ c ∷ t → f (K.write dst bytes w).1 ≡ g (K.write dst bytes w).1)
      → copy_chunk K dst bytes f w ≡ copy_chunk K dst bytes g w
  unfolding copy_chunk
  copy_chunk-cong [] f g w h = refl
  copy_chunk-cong (c ∷ t) f g w h = let e = h c t refl in ground arith

  shorter :
      (w : K.World) (fuel : ℕ) (bytes : Text) (c : ℕ) (t : Text)
      → (K.read src 8192 w).0 ≡ returned bytes
      → bytes ≡ c ∷ t
      → length (left w) < suc fuel
      → length (left (K.read src 8192 w).1) < fuel
  shorter w fuel bytes c t e is h =
      let v = (K.read src 8192 w).1 in
      omega (
        arith,
        ap length (F.read_left w bytes e),
        ap (λ b. length (b ++ left v)) is,
        length-append (c ∷ t) (left v),
      )

  enough :
      (f g : ℕ) (w : K.World)
      → length (left w) < f
      → length (left w) < g
      → copy_loop K f src dst w ≡ copy_loop K g src dst w
  enough zero g w h k = absurd (omega arith)
  enough (suc f) zero w h k = absurd (omega arith)
  enough (suc f) (suc g) w h k = elim (Returned-cases (K.read src 8192 w).0) [
    | inl (bytes, e) ↦
        let v = (K.read src 8192 w).1 in
        loop-step f w bytes e
        ∙ copy_chunk-cong bytes (copy_loop K f src dst) (copy_loop K g src dst) v (λ c t is.
          enough f g _ (rw (F.write_left bytes v) (shorter w f bytes c t e is h))
            (rw (F.write_left bytes v) (shorter w g bytes c t e is k)))
        ∙ sym (loop-step g w bytes e)
    | inr (e, failed) ↦ loop_error f w e failed ∙ sym (loop_error g w e failed)
  ]

  -- With fuel above the number of bytes left in the source, more fuel changes nothing.
  pub copy_loop-fuel :
      (extra fuel : ℕ) (w : K.World)
      → length (left w) < fuel
      → copy_loop K (extra + fuel) src dst w ≡ copy_loop K fuel src dst w
  copy_loop-fuel extra fuel w h = enough (extra + fuel) fuel w (omega arith) h

  module _ (reads : (w : K.World) → (bytes : Text) × ((K.read src 8192 w).0 ≡ returned bytes))
      (writes : (bytes : Text) (w : K.World)
        → (K.write dst bytes w).0 ≡ returned (length bytes)) where
    chunk_written :
        (c : ℕ) (t : Text) (rest : Exec K.World (Unit {0})) (w : K.World)
        → copy_chunk K dst (c ∷ t) rest w ≡ rest (K.write dst (c ∷ t) w).1
    unfolding copy_chunk
    chunk_written c t rest w = ground (arith, writes (c ∷ t) w)

    ends_after :
        (fuel : ℕ) (w : K.World)
        → ((v : K.World) → length (left v) < fuel → (copy_loop K fuel src dst v).0 ≡ some tt)
        → (bytes : Text) → (K.read src 8192 w).0 ≡ returned bytes
        → length (left w) < suc fuel
        → (copy_loop K (suc fuel) src dst w).0 ≡ some tt
    unfolding copy_chunk
    ends_after fuel w later [] e h = rw (loop-step fuel w [] e) refl
    ends_after fuel w later (c ∷ t) e h =
        let v = (K.read src 8192 w).1 in
        let bytes = c ∷ t in
        rw (loop-step fuel w bytes e, chunk_written c t (copy_loop K fuel src dst) v)
          (later _ (rw (F.write_left bytes v) (shorter w fuel bytes c t e refl h)))

    ends :
        (fuel : ℕ) (w : K.World) → length (left w) < fuel → (copy_loop K fuel src dst w).0 ≡ some tt
    ends zero w h = absurd (omega arith)
    ends (suc fuel) w h = let (bytes, e) = reads w in ends_after fuel w (ends fuel) bytes e h

    -- Where every read succeeds and every write reports all of its bytes, fuel above the number of
    -- bytes left in the source is enough: the loop ends without -1, and the target holds the whole
    -- rest of the source behind what it held.
    pub copy_loop-copies :
        (fuel : ℕ) (w : K.World)
        → length (left w) < fuel
        → ((copy_loop K fuel src dst w).0 ≡ some tt)
          × (held (copy_loop K fuel src dst w).1 ≡ held w ++ left w)
    copy_loop-copies fuel w h = (ends fuel w h, copy_loop-held fuel w (ends fuel w h))
