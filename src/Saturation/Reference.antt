-- ===== src/Saturation/Reference.antt =====
-- A saturating arithmetic as the interface describes it.
use poprc.Prelude.{refl, ◌||◌, if◌then◌else◌}
use poprc.Prelude.Int.{pos, ◌+ℤ◌, ◌-ℤ◌, ◌/ℤ◌, eqb_ℤ}
use poprc.Words.{word_min, word_max}
use poprc.Saturation.{
  Saturation, clamp_word, saturated_product, is_neg, same, sign, unless_infinite,
}

abbrev pub reference : Saturation
reference = record {
  sat_addi = λ x y.
      if eqb_ℤ x word_max || eqb_ℤ y word_max
      then word_max
      else if eqb_ℤ x word_min || eqb_ℤ y word_min
      then word_min
      else clamp_word (x +ℤ y);
  sat_subi = λ x y.
      if eqb_ℤ x word_max || eqb_ℤ y word_min
      then word_max
      else if eqb_ℤ x word_min || eqb_ℤ y word_max
      then word_min
      else clamp_word (x -ℤ y);
  sat_muli = saturated_product;
  sat_negi =
      λ x. if eqb_ℤ x word_min then word_max else if eqb_ℤ x word_max then word_min else pos 0 -ℤ x;
  sat_abs = λ x. if eqb_ℤ x word_min then word_max else if is_neg x then pos 0 -ℤ x else x;
  div_i = λ n d. unless_infinite n (n /ℤ d);
  div_mini = λ n d.
      unless_infinite n
        (if same (is_neg n) (is_neg d) then n /ℤ d else clamp_word (n -ℤ (d -ℤ sign d)) /ℤ d);
  div_maxi = λ n d.
      unless_infinite n
        (if same (is_neg n) (is_neg d) then clamp_word (n +ℤ (d -ℤ sign d)) /ℤ d else n /ℤ d);
  sat_addi_lem = λ x y w v. refl;
  sat_subi_lem = λ x y w v. refl;
  sat_muli_lem = λ x y w v h. refl;
  sat_negi_lem = λ x w. refl;
  sat_abs_lem = λ x w. refl;
  div_i_lem = λ n d w v h. refl;
  div_mini_lem = λ n d w v h. refl;
  div_maxi_lem = λ n d w v h. refl;
}
