-- ===== src/Manager/StateText/Fields.antt =====
-- The lines of src/container_manager.cpp's state file, one by one: what `save_state` prints for a
-- container is what `state_line` reads of it.
use mini_container.Prelude.{
  ℕ, zero, suc, ◌^◌, ◌<◌, ◌≤◌, ◌≡◌, refl, true, false, [], ◌∷◌, ◌++◌, arith, All, pos, length,
}
use mini_container.Text.{
  Text, text, decimal, contains, starts_with, strip_prefix, skip_space, is_digit, is_empty,
}
use mini_container.Text.Decimal.{
  length-decimal-pos, digits_before-head, IsDigit, decimal-All, scan_int-decimal, scan_long-decimal,
}
use mini_container.Manager.StateText.{Loader, read_fields, scan_field, scan_id, quoted}

-- What does not begin with a digit is looked for behind the digits.
contains-digits :
    (a s t : Text) (c : ℕ)
    → All IsDigit a
    → is_digit c ≡ false
    → contains (a ++ s) (c ∷ t) ≡ contains s (c ∷ t)
unfolding contains starts_with
contains-digits [] s t c all q = refl
contains-digits (d ∷ a) s t c (h, all) q = ground (arith, contains-digits a s t c all q)

pub no_quote : (n : ℕ) (s t : Text) → contains (decimal (pos n) ++ s) (34 ∷ t) ≡ contains s (34 ∷ t)
no_quote n s t = contains-digits (decimal (pos n)) s t 34 (decimal-All n) refl

pub no_brace :
    (n : ℕ) (s t : Text) → contains (decimal (pos n) ++ s) (125 ∷ t) ≡ contains s (125 ∷ t)
no_brace n s t = contains-digits (decimal (pos n)) s t 125 (decimal-All n) refl

-- What follows the number of a field, but for the last one.
abbrev pub comma : Text
comma = 44 ∷ 10 ∷ []

quoted-digits :
    (a s : Text) (room : ℕ) → All IsDigit a → length a ≤ room → quoted room (a ++ (34 ∷ s)) ≡ a
unfolding quoted
quoted-digits [] s zero all h = refl
quoted-digits [] s (suc room) all h = refl
quoted-digits (c ∷ a) s zero all h = absurd (omega arith)
quoted-digits (c ∷ a) s (suc room) (d, all) h =
    ground (arith, quoted-digits a s room all (omega arith))

pub is_empty-decimal : (n : ℕ) → is_empty (decimal (pos n)) ≡ false
unfolding decimal
is_empty-decimal n = let (d, t, e, h) = digits_before-head (suc n) n [] (omega arith) in rw e refl

pub read_id :
    (l : Loader) (n : ℕ)
    → n < 2 ^ 31
    → read_fields (text "\"id\": \"" ++ (decimal (pos n) ++ (34 ∷ comma))) l
      ≡ record l { in_container = true; container_id = decimal (pos n) }
unfolding read_fields scan_id contains starts_with strip_prefix skip_space text
read_id l n h =
    rw
      (
        scan_id,
        quoted-digits (decimal (pos n)) comma 255 (decimal-All n)
            (omega (arith, length-decimal-pos n h)),
        is_empty-decimal n,
      )
      refl

module _ (l : Loader) (n : ℕ) (inside : l.in_container ≡ true) where
  pub read_pid :
      n < 2 ^ 31
      → read_fields (text "\"pid\": " ++ (decimal (pos n) ++ comma)) l ≡ record l { pid = pos n }
  unfolding read_fields scan_field contains starts_with strip_prefix skip_space text
  read_pid h =
      rw
        (inside, no_quote n comma (text "id\""), scan_field, scan_int-decimal n 44 (10 ∷ []) h refl)
        refl

  pub read_state :
      n < 2 ^ 31
      → read_fields (text "\"state\": " ++ (decimal (pos n) ++ comma)) l
        ≡ record l { state = pos n }
  unfolding read_fields scan_field contains starts_with strip_prefix skip_space text
  read_state h =
      rw
        (
          inside,
          no_quote n comma (text "id\""),
          no_quote n comma (text "pid\""),
          scan_field,
          scan_int-decimal n 44 (10 ∷ []) h refl,
        )
        refl

  pub read_created_at :
      n < 2 ^ 63
      → read_fields (text "\"created_at\": " ++ (decimal (pos n) ++ comma)) l
        ≡ record l { created_at = pos n }
  unfolding read_fields scan_field contains starts_with strip_prefix skip_space text
  read_created_at h =
      rw
        (
          inside,
          no_quote n comma (text "id\""),
          no_quote n comma (text "pid\""),
          no_quote n comma (text "state\""),
          scan_field,
          scan_long-decimal n 44 (10 ∷ []) h refl,
        )
        refl

  pub read_started_at :
      n < 2 ^ 63
      → read_fields (text "\"started_at\": " ++ (decimal (pos n) ++ comma)) l
        ≡ record l { started_at = pos n }
  unfolding read_fields scan_field contains starts_with strip_prefix skip_space text
  read_started_at h =
      rw
        (
          inside,
          no_quote n comma (text "id\""),
          no_quote n comma (text "pid\""),
          no_quote n comma (text "state\""),
          no_quote n comma (text "created_at\""),
          scan_field,
          scan_long-decimal n 44 (10 ∷ []) h refl,
        )
        refl

  pub read_stopped_at :
      n < 2 ^ 63
      → read_fields (text "\"stopped_at\": " ++ (decimal (pos n) ++ (10 ∷ []))) l
        ≡ record l { stopped_at = pos n }
  unfolding read_fields scan_field contains starts_with strip_prefix skip_space text
  read_stopped_at h =
      rw
        (
          inside,
          no_quote n (10 ∷ []) (text "id\""),
          no_quote n (10 ∷ []) (text "pid\""),
          no_quote n (10 ∷ []) (text "state\""),
          no_quote n (10 ∷ []) (text "created_at\""),
          no_quote n (10 ∷ []) (text "started_at\""),
          scan_field,
          scan_long-decimal n 10 [] h refl,
        )
        refl
