-- ===== src/Strings/Misc/Tests.antt =====
-- The text helpers at concrete inputs.
use lotospp.Base.{ℕ, ◌≡◌, refl, all, ◌++◌, true, false, not, List, length, char_lt, codes}
use lotospp.Strings.Misc.{terminate, clean_string}
use lotospp.Strings.Misc.Clean.{
  no_directive, no_directive-clean_string, clean_string_safe, clean_string_idem, at_control,
  terminate_prefix,
}

percent_is_blanked : clean_string (codes "5%d%%%") ≡ codes "5 d%% "
unfolding clean_string
percent_is_blanked = refl

no_directive-clean_string_example : no_directive false (clean_string (codes "5%d%%%")) ≡ true
no_directive-clean_string_example = no_directive-clean_string (codes "5%d%%%")

percent_pair_is_kept : clean_string (codes "5%%\n") ≡ codes "5%%\n"
unfolding no_directive
percent_pair_is_kept = clean_string_safe (codes "5%%\n") refl

clean_twice :
    (length (clean_string (codes "5%d")) ≡ length (codes "5%d"))
    × (clean_string (clean_string (codes "5%d")) ≡ clean_string (codes "5%d"))
clean_twice = clean_string_idem (codes "5%d")

line_is_cut :
    (rest : List ℕ) × (codes "abc\n de" ≡ terminate (codes "abc\n de") ++ rest)
    × (all (λ ch. not (char_lt ch 32)) (terminate (codes "abc\n de")) ≡ true)
    × (at_control rest ≡ true)
line_is_cut = terminate_prefix (codes "abc\n de")
