-- ===== src/Tests/Texts.antt =====
-- Inputs for Util: np/util/tok.cxx and filename.cxx.
use novaprova.Prelude.{ℕ, ◌≡◌, refl, true, some, none, List, [], ◌∷◌}
use novaprova.Prelude.Bytes.{codes}
use novaprova.Util.Tok.{
  Tok, default_sep, init, next, parts, pending, tokens, parts-tokens, strtok_r, skip_seps, take_run,
  drop_run,
}
use novaprova.Util.FileName.{
  same, find_last_slash, is_path_tail, append_parts, make_absolute_to, make_absolute_to_dir,
  make_absolute_to_file, normalise, normalise_parts,
}

abbrev two_words : Tok
two_words = record { first = true; buf = some (codes " foo  bar"); state = []; sep = default_sep }

two_words-init : init (some (codes " foo  bar")) none ≡ two_words
unfolding init
two_words-init = refl

parts-tokens_example : parts 11 two_words ≡ tokens two_words.sep (pending two_words)
parts-tokens_example = parts-tokens two_words (codes " foo  bar") refl

two_words_split : parts 4 two_words ≡ codes "foo" ∷ codes "bar" ∷ []
unfolding parts next strtok_r skip_seps take_run drop_run
two_words_split = refl

abbrev c_file : List ℕ
c_file = codes "f.c"

abbrev usr_src : List ℕ
usr_src = codes "usr/src"

-- The separator behind a first component of one character is lost.
normalise_short_first : normalise (codes "a/b") ≡ codes "ab"
unfolding normalise normalise_parts init parts next strtok_r skip_seps take_run drop_run same
normalise_short_first = refl

normalise_long_first : normalise (codes "/foo/./bar/../baz") ≡ codes "/foo/baz"
unfolding normalise normalise_parts init parts next strtok_r skip_seps take_run drop_run same
    find_last_slash
normalise_long_first = refl

-- A file beside one in the root directory is left relative.
make_absolute_beside_root :
    make_absolute_to_file [] (codes "bar.c") (codes "/foo.c") ≡ some (codes "bar.c")
unfolding make_absolute_to is_path_tail append_parts init parts next strtok_r skip_seps take_run
    drop_run same find_last_slash
make_absolute_beside_root = refl

-- `..` beside a relative directory of one component resizes to npos, which throws.
make_absolute_to_dir_throws : make_absolute_to_dir [] (codes "../x") (codes "src") ≡ none
unfolding make_absolute_to append_parts init parts next strtok_r skip_seps take_run drop_run same
    find_last_slash
make_absolute_to_dir_throws = refl
